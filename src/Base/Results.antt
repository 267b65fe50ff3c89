-- ===== src/Base/Results.antt =====
-- Python calls that may raise, by the exception's class.
use mathlib.Core.Path.{◌≡◌, refl, ap}
use mathlib.Core.Logic.{◌⊎◌, inl, inr}
use mathlib.Core.Option.{Option, none, some}

pub data Error : Type 0 where
  zero_division value_error type_error key_error attribute_error assertion_error : Error
  statistics_error provider_error queue_error commit_error index_error decimal_error
        database_error :
      Error

pub data Result {ℓ} (A : Type ℓ) : Type ℓ where
  ok : A → Result A
  err : Error → Result A

abbrev pub or_raise {ℓ} : {A : Type ℓ} → Option A → Error → Result A
or_raise none e = err e
or_raise (some a) e = ok a

pub ok-injective {ℓ} : {A : Type ℓ} {a b : A} → ok a ≡ ok b → a ≡ b
ok-injective h = cc

infixl 5 ◌>>=◌
abbrev pub ◌>>=◌ {ℓ κ} : {A : Type ℓ} {B : Type κ} → Result A → (A → Result B) → Result B
err raised >>= next = err raised
ok value >>= next = next value

-- A bind that succeeds has a first step that succeeded, and a rest that did.
pub >>=-eq-ok {ℓ κ} :
    {A : Type ℓ} {B : Type κ} (first : Result A) (next : A → Result B) {answer : B}
    → (first >>= next) ≡ ok answer
    → (value : A) × (first ≡ ok value) × (next value ≡ ok answer)
>>=-eq-ok (err raised) next h = cc
>>=-eq-ok (ok value) next h = (value, refl, h)

pub Result-cases {ℓ} :
    {A : Type ℓ} (r : Result A) → ((a : A) × (r ≡ ok a)) ⊎ ((e : Error) × (r ≡ err e))
Result-cases (ok a) = inl (a, refl)
Result-cases (err e) = inr (e, refl)

pub err-injective {ℓ} : {A : Type ℓ} {a b : Error} → (◌≡◌ {A = Result A} (err a) (err b)) → a ≡ b
err-injective h = cc

-- The two sides of an equation between outcomes: what a call gives, and what it leaves.
pub value_of {ℓ κ} :
    {A : Type ℓ} {B : Type κ} {a b : A} {v w : B} → (◌≡◌ {A = A × B} (a, v) (b, w)) → a ≡ b
value_of h = ap (λ x. x.0) h

pub state_of {ℓ κ} :
    {A : Type ℓ} {B : Type κ} {a b : A} {v w : B} → (◌≡◌ {A = A × B} (a, v) (b, w)) → v ≡ w
state_of h = ap (λ x. x.1) h
