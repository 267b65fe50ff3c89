-- ===== src/Kraken/Suffix.antt =====
-- providers/kraken.py: the quote codes of `resolve_pair` are a set, whose order Python does not fix.
use Prim.Native.String.{count}
use text.Mathlib.TextEquality.{eq_iff}
use mathlib.Core.List.{Perm, Mem, mem-cons, mem-cons_self, not-mem-nil}
use mathlib.Core.List.Perm
use mathlib.Core.Logic.Or
use native.Mathlib.Bridge.{le_prop}
use dropwatch.Base.{
  ◌-◌, ◌≤◌, Bool, true, ◌&&◌, Option, none, List, [], ◌∷◌, String, is_some, filter, All, All-kept,
  All-filter, ◌≡◌, refl, sym, ◌∙◌, ap, arith, leb→le, Bool-cases, inl, inr,
}
use dropwatch.Base.Dicts.{lookup_name}
use dropwatch.Base.Sorting.{IsSorted, sorted, sorted-IsSorted, sorted-perm, filter-perm}
use dropwatch.Kraken.Symbols.{
  AssetPairs, Named, Casing, drop_chars, ends_with, is_suffix, candidate_of, longest_first,
  match_suffix, find_match,
}

module _ (dict : List (String × Named)) (cleaned : String) where
  -- The code is one that the loop stops at.
  abbrev fits : String → Bool
  fits quote = is_suffix cleaned quote && is_some (lookup_name (candidate_of cleaned quote) dict)

  abbrev match_of_first : List String → Option Named
  match_of_first [] = none
  match_of_first (quote ∷ _) = lookup_name (candidate_of cleaned quote) dict

  match_suffix-filter :
      (codes : List String) → match_suffix dict cleaned codes ≡ match_of_first (filter fits codes)
  unfolding match_suffix
  match_suffix-filter [] = refl
  match_suffix-filter (quote ∷ codes) = elim (Bool-cases (fits quote)) [
    | inl stop ↦ rw (match_suffix, stop) refl
    | inr go ↦ rw (match_suffix, go) (match_suffix-filter codes)
  ]

  -- A code that fits is told by its length.
  fits-drop :
      (quote : String)
      → fits quote ≡ true
      → drop_chars (count cleaned - count quote) cleaned ≡ quote
  unfolding ends_with
  fits-drop quote h =
      (eq_iff (drop_chars (count cleaned - count quote) cleaned) quote).0 (ground arith)

  fits-injective : (q r : String) → fits q ≡ true → fits r ≡ true → count q ≡ count r → q ≡ r
  fits-injective q r h k e =
      sym (fits-drop q h) ∙ ap (λ n. drop_chars (count cleaned - n) cleaned) e ∙ fits-drop r k

  shorter-than_first :
      (q r : String) (rs : List String)
      → IsSorted longest_first (q ∷ rs)
      → Mem r (q ∷ rs)
      → count r ≤ count q
  shorter-than_first q r rs h m =
      Or.elim le_prop (mem-cons.0 m) (λ e. rw e (omega arith)) (bounded rs h.0)
    where
      bounded :
          (xs : List String) → All (λ x. longest_first q x ≡ true) xs → Mem r xs → count r ≤ count q
      bounded [] a m = absurd (not-mem-nil m)
      bounded (x ∷ xs) a m =
          Or.elim le_prop (mem-cons.0 m) (λ e. rw e (leb→le (count x) (count q) a.0))
            (bounded xs a.1)

  match_of_first-perm :
      (xs ys : List String)
      → Perm xs ys
      → IsSorted longest_first xs
      → IsSorted longest_first ys
      → All (λ q. fits q ≡ true) xs
      → All (λ q. fits q ≡ true) ys
      → match_of_first xs ≡ match_of_first ys
  match_of_first-perm [] [] p s t f g = refl
  match_of_first-perm [] (y ∷ ys) p s t f g =
      absurd (not-mem-nil ((Perm.mem_iff p).1 mem-cons_self))
  match_of_first-perm (x ∷ xs) [] p s t f g =
      absurd (not-mem-nil ((Perm.mem_iff p).0 mem-cons_self))
  match_of_first-perm (x ∷ xs) (y ∷ ys) p s t f g =
      let below = shorter-than_first x y xs s ((Perm.mem_iff p).1 mem-cons_self) in
      let above = shorter-than_first y x ys t ((Perm.mem_iff p).0 mem-cons_self) in
      ap (λ q. lookup_name (candidate_of cleaned q) dict) (fits-injective x y f.0 g.0 (omega arith))

IsSorted-filter :
    (p : String → Bool) (xs : List String)
    → IsSorted longest_first xs
    → IsSorted longest_first (filter p xs)
IsSorted-filter p [] h = tt
IsSorted-filter p (x ∷ xs) h = elim (Bool-cases (p x)) [
  | inl keep ↦ rw keep (All-kept (λ y. longest_first x y ≡ true) p xs h.0, IsSorted-filter p xs h.1)
  | inr skip ↦ rw skip (IsSorted-filter p xs h.1)
]

sorted_codes : (codes : List String) → IsSorted longest_first (sorted longest_first codes)
sorted_codes = sorted-IsSorted longest_first (λ x y h. ground arith) (λ x y z h k. ground arith)

match_suffix-perm :
    (dict : List (String × Named)) (cleaned : String) (codes others : List String)
    → Perm codes others
    → match_suffix dict cleaned (sorted longest_first codes)
      ≡ match_suffix dict cleaned (sorted longest_first others)
match_suffix-perm dict cleaned codes others p =
    let test = fits dict cleaned in
    let l = sorted longest_first codes in
    let r = sorted longest_first others in
    match_suffix-filter dict cleaned l
    ∙ match_of_first-perm dict cleaned (filter test l) (filter test r)
        (filter-perm test (
          Perm.trans (sorted-perm longest_first codes)
            (Perm.trans p (Perm.symm (sorted-perm longest_first others)))))
        (IsSorted-filter test l (sorted_codes codes)) (IsSorted-filter test r (sorted_codes others))
        (All-filter test l) (All-filter test r)
    ∙ sym (match_suffix-filter dict cleaned r)

-- Which pair a symbol is matched with does not depend on the order in which the set of the quote codes
-- is given, although the codes are sorted by their lengths only.
pub find_match-perm :
    (casing : Casing) (codes others : List String) (asset_pairs : AssetPairs) (cleaned : String)
    → Perm codes others
    → find_match casing codes asset_pairs cleaned ≡ find_match casing others asset_pairs cleaned
unfolding find_match
find_match-perm casing codes others asset_pairs cleaned p =
    rw (find_match, match_suffix-perm _ cleaned codes others p) refl
