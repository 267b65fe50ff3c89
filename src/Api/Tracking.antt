-- ===== src/Api/Tracking.antt =====
-- api/routes/pairs.py: the names of the pairs, which the schema wants unique.
use mathlib.Core.List.{append-nil, append_assoc}
use mathlib.Core.Path.{subst}
use dropwatch.Base.{
  ℕ, ltb, false, List, [], ◌∷◌, ◌++◌, String, Result, ok, err, Bool-cases, inl, inr, ◌≡◌, sym,
}
use dropwatch.Models.{Pair, Db}
use dropwatch.Api.Pairs.{
  ResolvedPair, CreatePairRequest, is_tracked, pair_of, add_resolved, create_pair,
}

-- No row of `ps` has the name of a row before it, in `seen` or in `ps`.
abbrev pub AllNamed : (seen ps : List Pair) → Type 0
AllNamed seen [] = Unit
AllNamed seen (p ∷ ps) = (is_tracked p.kraken_pair_name seen ≡ false) × AllNamed (seen ++ p ∷ []) ps

AllNamed-append :
    (seen ps : List Pair) (p : Pair)
    → AllNamed seen ps
    → is_tracked p.kraken_pair_name (seen ++ ps) ≡ false
    → AllNamed seen (ps ++ p ∷ [])
AllNamed-append seen [] p h free =
    (subst (λ x. is_tracked p.kraken_pair_name x ≡ false) (append-nil seen) free, tt)
AllNamed-append seen (q ∷ ps) p (h, hs) free = (
  h,
  AllNamed-append (seen ++ q ∷ []) ps p hs (
      subst (λ x. is_tracked p.kraken_pair_name x ≡ false) (sym (append_assoc seen (q ∷ []) ps))
        free),
)

add_resolved-AllNamed :
    (r : Result ResolvedPair) (interval : ℕ) (db : Db)
    → AllNamed [] db.pairs
    → AllNamed [] (add_resolved r interval db).1.pairs
add_resolved-AllNamed (err e) interval db h = h
add_resolved-AllNamed (ok resolved) interval db h =
    elim (Bool-cases (is_tracked resolved.canonical_name db.pairs)) [
      | inl taken ↦ rw taken h
      | inr free ↦ rw free (AllNamed-append [] db.pairs (pair_of resolved interval db) h free)
    ]

-- Whatever the request and the provider's answer, adding a pair keeps the names of the pairs
-- distinct.
pub create_pair-AllNamed :
    (resolve_pair : String → Result ResolvedPair) (body : CreatePairRequest) (db : Db)
    → AllNamed [] db.pairs
    → AllNamed [] (create_pair resolve_pair body db).1.pairs
unfolding create_pair
create_pair-AllNamed resolve_pair body db h = elim (Bool-cases (ltb 0 body.poll_interval_seconds)) [
  | inl positive ↦
      rw positive (add_resolved-AllNamed (resolve_pair body.symbol) body.poll_interval_seconds db h)
  | inr zero_interval ↦ rw zero_interval h
]
