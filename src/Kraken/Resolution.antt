-- ===== src/Kraken/Resolution.antt =====
-- providers/kraken.py: what `resolve_pair` makes of a symbol.
use Prim.Native.Char.{Char}
use Prim.Native.String.{◌++◌ as str_append}
use text.Mathlib.TextEquality.{eq_iff}
use text.Mathlib.TextLemmas.{nil-append, cons-append}
use mathlib.Core.Path.{subst}
use mathlib.Core.List.{Mem, mem-cons_self, mem-cons_of_mem}
use dropwatch.Base.{
  ◌&&◌, Option, none, some, List, [], ◌∷◌, String, is_some, All, All-map, ◌≡◌, ◌≢◌, refl, sym, ◌∙◌,
  ap, Bool-cases, Option-cases, inl, inr, ok, ok-injective, >>=-eq-ok,
}
use dropwatch.Base.Dicts.{lookup_name, All-put, lookup-All}
use dropwatch.Base.Sorting.{sorted}
use dropwatch.Api.Pairs.{ResolvedPair}
use dropwatch.Kraken.Symbols.{
  PairInfo, AssetPairs, Named, Casing, is_slash, has_slash, onto_first, split_slash, two_of,
  wsname_of, currencies_of, is_suffix, candidate_of, longest_first, match_suffix, by_canonical,
  put_wsname, by_wsname, or_else, find_match, quote_codes, resolve_symbol,
}

-- `"/".join(parts)`
abbrev pub join_slash : List String → String
join_slash [] = ""
join_slash (part ∷ []) = part
join_slash (part ∷ next ∷ parts) = str_append part (str_append "/" (join_slash (next ∷ parts)))

join-onto_first :
    (c : Char) (parts : List String)
    → parts ≢ []
    → join_slash (onto_first c parts) ≡ String.◌∷◌ c (join_slash parts)
join-onto_first c [] h = absurd (h refl)
join-onto_first c (p ∷ []) h = refl
join-onto_first c (p ∷ q ∷ parts) h = cons-append c p _

split_slash-ne-nil : (s : String) → split_slash s ≢ []
unfolding split_slash
split_slash-ne-nil String.[] h = absurd (cc h)
split_slash-ne-nil (String.◌∷◌ c s) h = elim (Bool-cases (is_slash c)) [
  | inl slash ↦ absurd (cc (rw slash at h))
  | inr plain ↦ go (split_slash s) (split_slash-ne-nil s) (rw plain at h)
]
  where
    go : (parts : List String) → parts ≢ [] → onto_first c parts ≡ [] → ⊥
    go [] k h = k refl
    go (p ∷ ps) k h = absurd (cc h)

join-empty :
    (parts : List String) → parts ≢ [] → join_slash ("" ∷ parts) ≡ str_append "/" (join_slash parts)
join-empty [] h = absurd (h refl)
join-empty (p ∷ parts) h = nil-append _

-- Splitting a text at its slashes and joining the parts by slashes gives the text back.
pub join-split_slash : (s : String) → join_slash (split_slash s) ≡ s
unfolding split_slash
join-split_slash String.[] = refl
join-split_slash (String.◌∷◌ c s) = elim (Bool-cases (is_slash c)) [
  | inl slash ↦ rw slash (
      join-empty (split_slash s) (split_slash-ne-nil s)
      ∙ ap (str_append "/") (join-split_slash s)
      ∙ ap (λ x. str_append x s) (sym ((eq_iff (String.◌∷◌ c "") "/").0 slash))
      ∙ cons-append c "" s
      ∙ ap (String.◌∷◌ c) (nil-append s))
  | inr plain ↦ rw plain (
      join-onto_first c (split_slash s) (split_slash-ne-nil s)
      ∙ ap (String.◌∷◌ c) (join-split_slash s))
]

two_of-join :
    (parts : List String) (base quote : String)
    → two_of parts ≡ ok (base, quote)
    → join_slash parts ≡ str_append base (str_append "/" quote)
two_of-join [] base quote h = absurd (cc h)
two_of-join (a ∷ []) base quote h = absurd (cc h)
two_of-join (a ∷ b ∷ []) base quote h =
    ap (λ (x : String × String). str_append x.0 (str_append "/" x.1)) (ok-injective h)
two_of-join (a ∷ b ∷ c ∷ parts) base quote h = absurd (cc h)

-- The two currencies of an item, with a slash between them, are its `wsname`.
pub currencies_of-wsname :
    (info : PairInfo) (base quote : String)
    → currencies_of info ≡ ok (base, quote)
    → wsname_of info ≡ ok (str_append base (str_append "/" quote))
unfolding currencies_of
currencies_of-wsname info base quote h =
    let (ws, e, g) = >>=-eq-ok (wsname_of info) _ h in
    e ∙ ap ok (sym (join-split_slash ws) ∙ two_of-join (split_slash ws) base quote g)

All_listed : (pairs : AssetPairs) → All (λ item. Mem item pairs) pairs
All_listed [] = tt
All_listed (x ∷ rest) = (mem-cons_self, All-map (λ y m. mem-cons_of_mem x m) rest (All_listed rest))

module _ (casing : Casing) where
  open casing use {strip, upper}

  module _ (P : Named → Type 0) where
    abbrev AllValues : List (String × Named) → Type 0
    AllValues = All (λ (item : String × Named). P item.1)

    by_canonical-All :
        (pairs : AssetPairs) (d : List (String × Named))
        → All P pairs
        → AllValues d
        → AllValues (by_canonical casing pairs d)
    unfolding by_canonical
    by_canonical-All [] d h g = g
    by_canonical-All ((name, info) ∷ rest) d (h, hs) g =
        by_canonical-All rest _ hs (All-put P (upper name) (name, info) d h g)

    put_wsname-All :
        (ws : Option String) (v : Named) (d : List (String × Named))
        → P v
        → AllValues d
        → AllValues (put_wsname casing ws v d)
    put_wsname-All none v d h g = g
    put_wsname-All (some String.[]) v d h g = g
    put_wsname-All (some (String.◌∷◌ c s)) v d h g = All-put P (upper (String.◌∷◌ c s)) v d h g

    by_wsname-All :
        (pairs : AssetPairs) (d : List (String × Named))
        → All P pairs
        → AllValues d
        → AllValues (by_wsname casing pairs d)
    unfolding by_wsname
    by_wsname-All [] d h g = g
    by_wsname-All ((name, info) ∷ rest) d (h, hs) g =
        by_wsname-All rest _ hs (put_wsname-All info.wsname (name, info) d h g)

    match_suffix-All :
        (d : List (String × Named)) (cleaned : String) (codes : List String) (v : Named)
        → AllValues d
        → match_suffix d cleaned codes ≡ some v
        → P v
    unfolding match_suffix
    match_suffix-All d cleaned [] v g h = absurd (cc h)
    match_suffix-All d cleaned (q ∷ codes) v g h =
        let found = lookup_name (candidate_of cleaned q) d in
        elim (Bool-cases (is_suffix cleaned q && is_some found)) [
          | inl stop ↦ lookup-All P (candidate_of cleaned q) d v g (rw (match_suffix, stop) at h)
          | inr go ↦ match_suffix-All d cleaned codes v g (rw (match_suffix, go) at h)
        ]

    or_else-P :
        (a b : Option Named) (v : Named)
        → ((x : Named) → a ≡ some x → P x)
        → ((x : Named) → b ≡ some x → P x)
        → or_else casing a b ≡ some v
        → P v
    or_else-P none b v f g h = g v h
    or_else-P (some a) b v f g h = f v h

    find_match-All :
        (codes : List String) (pairs : AssetPairs) (cleaned : String) (v : Named)
        → All P pairs
        → find_match casing codes pairs cleaned ≡ some v
        → P v
    unfolding find_match
    find_match-All codes pairs cleaned v hs h =
        let named = by_canonical-All pairs [] hs tt in
        let spelled = by_wsname-All pairs [] hs tt in
        let direct =
          or_else casing (lookup_name cleaned (by_canonical casing pairs []))
            (lookup_name cleaned (by_wsname casing pairs [])) in
        elim (Bool-cases (is_some direct)) [
          | inl there ↦
              or_else-P _ _ v (λ x. lookup-All P cleaned _ x named)
                (λ x. lookup-All P cleaned _ x spelled) (rw (find_match, there) at h)
          | inr missing ↦ elim (Bool-cases (has_slash cleaned)) [
            | inl slash ↦ absurd (cc (rw (find_match, missing, slash) at h))
            | inr plain ↦
                match_suffix-All _ cleaned (sorted longest_first codes) v spelled
                  (rw (find_match, missing, plain) at h)
          ]
        ]

  -- A symbol that is resolved is resolved to one of the asset pairs, whose `wsname` is the two
  -- currencies of the answer with a slash between them.
  pub resolve_symbol-listed :
      (pairs : AssetPairs) (symbol : String) (r : ResolvedPair)
      → resolve_symbol casing pairs symbol ≡ ok r
      → (info : PairInfo) × Mem (r.canonical_name, info) pairs
        × (wsname_of info ≡ ok (str_append r.base_currency (str_append "/" r.quote_currency)))
  unfolding resolve_symbol
  resolve_symbol-listed pairs symbol r h =
      elim (Option-cases
        (find_match casing (quote_codes casing pairs) pairs (upper (strip symbol)))) [
          | inl missing ↦ absurd (cc (rw (resolve_symbol, missing) at h))
          | inr ((name, info), found) ↦
              let ((base, quote), e, g) =
                >>=-eq-ok (currencies_of info) _ (rw (resolve_symbol, found) at h) in
              let listed =
                find_match-All (λ x. Mem x pairs) (quote_codes casing pairs) pairs
                  (upper (strip symbol)) (name, info) (All_listed pairs) found in
              subst
                (λ (x : ResolvedPair).
                  (info : PairInfo) × Mem (x.canonical_name, info) pairs
                  × (wsname_of info
                      ≡ ok (str_append x.base_currency (str_append "/" x.quote_currency))))
                (ok-injective g) (info, listed, currencies_of-wsname info base quote e)
        ]
