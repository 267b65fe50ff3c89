-- ===== src/Base/Sorting.antt =====
-- Python's `sorted`: stable, so equal keys keep their order, also with `reverse=True`. The relation
-- `before x y` says that `x` may stand in front of `y`.
use Prim.Native.Nat.{suc}
use mathlib.Core.Path.{◌≡◌, refl}
use mathlib.Core.Bool.{Bool, true, false, false≢true}
use mathlib.Core.List.{List, [], ◌∷◌, Perm, map}
use mathlib.Core.List.Perm
use mathlib.Core.List
use dropwatch.Base.Tests.{Bool-cases, if◌then◌else◌}
use dropwatch.Base.Lists.{All, All-map, filter, length}
use mathlib.Core.Logic.{inl, inr}

module _ {ℓ} {A : Type ℓ} (before : A → A → Bool) where
  pub insert_sorted : A → List A → List A
  insert_sorted x [] = x ∷ []
  insert_sorted x (y ∷ ys) =
      let rest = y ∷ insert_sorted x ys in if before x y then x ∷ y ∷ ys else rest

  unfoldable pub sorted : List A → List A
  unfolding insert_sorted
  sorted [] = []
  sorted (x ∷ xs) = insert_sorted x (sorted xs)

  -- Every element may stand in front of all that follow it.
  abbrev pub IsSorted : List A → Type ℓ
  IsSorted [] = Unit
  IsSorted (x ∷ xs) = All (λ y. before x y ≡ true) xs × IsSorted xs

module _ {ℓ} {A : Type ℓ} (before : A → A → Bool) where
  insert_sorted-perm : (x : A) (ys : List A) → Perm (insert_sorted before x ys) (x ∷ ys)
  unfolding insert_sorted
  insert_sorted-perm x [] = Perm.refl _
  insert_sorted-perm x (y ∷ ys) = elim (Bool-cases (before x y)) [
    | inl first ↦ rw first (Perm.refl _)
    | inr later ↦ rw later (Perm.trans (Perm.cons y (insert_sorted-perm x ys)) (Perm.swap x y ys))
  ]

  pub sorted-perm : (xs : List A) → Perm (sorted before xs) xs
  unfolding sorted
  sorted-perm [] = Perm.refl _
  sorted-perm (x ∷ xs) =
      Perm.trans (insert_sorted-perm x (sorted before xs)) (Perm.cons x (sorted-perm xs))

module _ {ℓ κ} {A : Type ℓ} (before : A → A → Bool) (P : A → Type κ) where
  All-insert : (x : A) (ys : List A) → P x → All P ys → All P (insert_sorted before x ys)
  unfolding insert_sorted
  All-insert x [] px h = (px, tt)
  All-insert x (y ∷ ys) px h = elim (Bool-cases (before x y)) [
    | inl first ↦ rw first (px, h)
    | inr later ↦ rw later (h.0, All-insert x ys px h.1)
  ]

  pub All-sorted : (xs : List A) → All P xs → All P (sorted before xs)
  unfolding sorted
  All-sorted [] h = tt
  All-sorted (x ∷ xs) h = All-insert x (sorted before xs) h.0 (All-sorted xs h.1)

module _ {ℓ} {A : Type ℓ} (before : A → A → Bool)
    (flip : (x y : A) → before x y ≡ false → before y x ≡ true)
    (trans : (x y z : A) → before x y ≡ true → before y z ≡ true → before x z ≡ true) where
  insert_sorted-IsSorted :
      (x : A) (ys : List A) → IsSorted before ys → IsSorted before (insert_sorted before x ys)
  unfolding insert_sorted
  insert_sorted-IsSorted x [] h = (tt, tt)
  insert_sorted-IsSorted x (y ∷ ys) h = elim (Bool-cases (before x y)) [
    | inl first ↦ rw first ((first, All-map (λ z yz. trans x y z first yz) ys h.0), h)
    | inr later ↦ rw later (
      All-insert before (λ z. before y z ≡ true) x ys (flip x y later) h.0,
      insert_sorted-IsSorted x ys h.1,
    )
  ]

  pub sorted-IsSorted : (xs : List A) → IsSorted before (sorted before xs)
  unfolding sorted
  sorted-IsSorted [] = tt
  sorted-IsSorted (x ∷ xs) = insert_sorted-IsSorted x (sorted before xs) (sorted-IsSorted xs)

module _ {ℓ} {A : Type ℓ} (before : A → A → Bool) where
  length-insert : (x : A) (ys : List A) → length (insert_sorted before x ys) ≡ suc (length ys)
  unfolding insert_sorted
  length-insert x [] = refl
  length-insert x (y ∷ ys) = elim (Bool-cases (before x y)) [
    | inl first ↦ rw first
    | inr later ↦ rw (later, length-insert x ys)
  ]

  pub length-sorted : (xs : List A) → length (sorted before xs) ≡ length xs
  unfolding sorted
  length-sorted [] = refl
  length-sorted (x ∷ xs) = rw (length-insert x (sorted before xs), length-sorted xs)

abbrev dec_true : (b : Bool) → Dec (b ≡ true)
dec_true true = yes refl
dec_true false = no false≢true

module _ {ℓ} {A : Type ℓ} (p : A → Bool) where
  filter-eq-filter : (xs : List A) → List.filter (λ x. dec_true (p x)) xs ≡ filter p xs
  filter-eq-filter [] = refl
  filter-eq-filter (x ∷ xs) = elim (Bool-cases (p x)) [
    | inl keep ↦ rw (keep, filter-eq-filter xs)
    | inr skip ↦ rw (skip, filter-eq-filter xs)
  ]

  -- What a Boolean filter keeps of a permuted list is a permutation of what it kept.
  pub filter-perm : {xs ys : List A} → Perm xs ys → Perm (filter p xs) (filter p ys)
  filter-perm {xs} {ys} h =
      rw (← filter-eq-filter xs, ← filter-eq-filter ys) (Perm.filter (λ x. dec_true (p x)) h)

-- A sort whose order reads nothing that `f` changes commutes with `f`.
module _ {ℓ} {A : Type ℓ} (f : A → A) (before : A → A → Bool)
    (same : (x y : A) → before (f x) (f y) ≡ before x y) where
  map-insert :
      (x : A) (ys : List A)
      → map f (insert_sorted before x ys) ≡ insert_sorted before (f x) (map f ys)
  unfolding insert_sorted
  map-insert x [] = refl
  map-insert x (y ∷ ys) = elim (Bool-cases (before x y)) [
    | inl first ↦ rw (first, same x y, first)
    | inr later ↦ rw (later, same x y, later, map-insert x ys)
  ]

  pub map-sorted : (xs : List A) → map f (sorted before xs) ≡ sorted before (map f xs)
  unfolding sorted
  map-sorted [] = refl
  map-sorted (x ∷ xs) = rw (map-insert x (sorted before xs), map-sorted xs)
