-- ===== src/Base/Dicts.antt =====
-- Python dicts as association lists in insertion order.
use text.Mathlib.Text.{◌==◌ as str_eq}
use text.Mathlib.TextEquality.{eq_iff}
use Prim.Native.Nat.{ℕ}
use Prim.Native.String.{String}
use mathlib.Core.Path.{◌≡◌, subst}
use mathlib.Core.Logic.{◌≢◌, inl, inr}
use mathlib.Core.Option.{Option, none, some}
use mathlib.Core.List.{List, [], ◌∷◌}
use native.Mathlib.Omega.{arith}
use dropwatch.Base.Tests.{◌==◌, if◌then◌else◌, Bool-cases}
use dropwatch.Base.Lists.{All}

-- `d[key] = value` of a dict: a key that is there keeps its place.
unfoldable pub put_id : {A : Type 0} → ℕ → A → List (ℕ × A) → List (ℕ × A)
put_id k v [] = (k, v) ∷ []
put_id k v ((j, w) ∷ rest) = if j == k then (j, v) ∷ rest else (j, w) ∷ put_id k v rest

unfoldable pub put_name : {A : Type 0} → String → A → List (String × A) → List (String × A)
put_name k v [] = (k, v) ∷ []
put_name k v ((j, w) ∷ rest) = if str_eq j k then (j, v) ∷ rest else (j, w) ∷ put_name k v rest

unfoldable pub lookup_name : {A : Type 0} → String → List (String × A) → Option A
lookup_name k [] = none
lookup_name k ((j, w) ∷ rest) = if str_eq j k then some w else lookup_name k rest

some-injective : {A : Type 0} {a b : A} → some a ≡ some b → a ≡ b
some-injective h = cc

module _ {A : Type 0} where
  pub lookup-put_same :
      (k : String) (v : A) (d : List (String × A)) → lookup_name k (put_name k v d) ≡ some v
  unfolding lookup_name put_name
  lookup-put_same k v [] = ground (arith, eq_iff k k)
  lookup-put_same k v ((j, w) ∷ rest) =
      ground (arith, eq_iff j k, eq_iff k k, lookup-put_same k v rest)

  pub lookup-put_other :
      (k j : String) (v : A) (d : List (String × A))
      → k ≢ j
      → lookup_name j (put_name k v d) ≡ lookup_name j d
  unfolding lookup_name put_name
  lookup-put_other k j v [] h = ground (arith, eq_iff k j)
  lookup-put_other k j v ((i, w) ∷ rest) h =
      ground (arith, eq_iff i k, eq_iff i j, eq_iff k j, lookup-put_other k j v rest h)

  pub All-put :
      (P : A → Type 0) (k : String) (v : A) (d : List (String × A))
      → P v
      → All (λ item. P item.1) d
      → All (λ item. P item.1) (put_name k v d)
  unfolding put_name
  All-put P k v [] h hs = (h, tt)
  All-put P k v ((j, w) ∷ rest) h (g, hs) = elim (Bool-cases (str_eq j k)) [
    | inl same ↦ rw same (h, hs)
    | inr apart ↦ rw apart (g, All-put P k v rest h hs)
  ]

  pub lookup-All :
      (P : A → Type 0) (k : String) (d : List (String × A)) (v : A)
      → All (λ item. P item.1) d
      → lookup_name k d ≡ some v
      → P v
  unfolding lookup_name
  lookup-All P k [] v hs h = absurd (cc h)
  lookup-All P k ((j, w) ∷ rest) v (g, hs) h = elim (Bool-cases (str_eq j k)) [
    | inl same ↦ subst P (some-injective (rw same at h)) g
    | inr apart ↦ lookup-All P k rest v hs (rw apart at h)
  ]
