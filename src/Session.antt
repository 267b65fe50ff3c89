-- ===== src/Session.antt =====
-- A worker's state, and calls that change it and may raise. What was written before a raise stays
-- written: the objects of the index are mutated in memory, and the caller decides about the
-- transaction.
use dropwatch.Base.{Result, ok, err, ◌≡◌, refl, ap}
use dropwatch.Models.{Db}
use dropwatch.RuleIndex.{RuleIndex}

-- The rows as the open transaction sees them, and the index whose rules the process shares.
pub record Session : Type 0 where
  pub db : Db
  pub index : RuleIndex

abbrev pub Exec : Type 0 → Type 0
Exec A = Session → Result A × Session

abbrev pub pure : {A : Type 0} → A → Exec A
pure a s = (ok a, s)

abbrev pub lift : {A : Type 0} → Result A → Exec A
lift r s = (r, s)

abbrev pub and_then : {A B : Type 0} → Result A × Session → (A → Exec B) → Result B × Session
and_then (ok a, s) f = f a s
and_then (err e, s) f = (err e, s)

infixl 5 ◌>>=◌
abbrev pub ◌>>=◌ : {A B : Type 0} → Exec A → (A → Exec B) → Exec B
◌>>=◌ m f s = and_then (m s) f

-- A bind that succeeds has a first step that succeeded, and a rest that did.
pub and_then-eq-ok :
    {A B : Type 0} (m : Result A × Session) (f : A → Exec B) {b : B} {t : Session}
    → and_then m f ≡ (ok b, t)
    → (a : A) × (m.0 ≡ ok a) × (f a m.1 ≡ (ok b, t))
and_then-eq-ok (ok a, s) f h = (a, refl, h)
and_then-eq-ok (err e, s) f h = absurd (cc (ap (λ (p : Result _ × Session). p.0) h))
