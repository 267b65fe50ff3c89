-- ===== src/Decimal.antt =====
-- Python's `decimal.Decimal` in its default context (28 significant digits, ROUND_HALF_EVEN), for
-- finite values: the signed coefficient, and the number of decimal places. Comparisons are exact;
-- each arithmetic operation computes the exact result and rounds it.
mod Tests
pub mod Order
use dropwatch.Base.{
  ℕ, zero, suc, ◌+◌, ◌-◌, ◌*◌, ◌/◌, ◌%◌, ◌^◌, Bool, true, false, ◌&&◌, ◌||◌, max, ltb, leb, ◌==◌,
  if◌then◌else◌,
}
use dropwatch.Base.Int.{ℤ, pos, negsuc, pos_part, neg_part, neg, magnitude, with_sign, ◌-ℤ◌, ◌*ℤ◌}

pub record Decimal : Type 0 where
  pub coeff : ℤ
  pub scale : ℕ

abbrev pub precision : ℕ
precision = 28

abbrev pub of_ℕ : ℕ → Decimal
of_ℕ n = record { coeff = pos n; scale = 0 }

-- The two sides of `a < b`, over the common denominator `10 ^ (a.scale + b.scale)`.
abbrev pub lhs : Decimal → Decimal → ℕ
lhs a b = pos_part a.coeff * 10 ^ b.scale + neg_part b.coeff * 10 ^ a.scale

abbrev pub ltb_dec : Decimal → Decimal → Bool
ltb_dec a b = ltb (lhs a b) (lhs b a)

abbrev pub leb_dec : Decimal → Decimal → Bool
leb_dec a b = leb (lhs a b) (lhs b a)

unfoldable pub is_zero : Decimal → Bool
is_zero a = magnitude a.coeff == 0

-- The number of decimal digits of `n`, on fuel: a number has no more digits than its value and one.
num_digits_from : ℕ → ℕ → ℕ
num_digits_from zero n = 1
num_digits_from (suc fuel) n =
    let rest = suc (num_digits_from fuel (n / 10)) in if ltb n 10 then 1 else rest

num_digits : ℕ → ℕ
unfolding num_digits_from
num_digits n = num_digits_from n n

-- `n / 10 ^ k`, rounded half to even.
half_even : ℕ → ℕ → ℕ
half_even n k =
    let q = n / 10 ^ k in
    let r = n % 10 ^ k in
    if ltb (10 ^ k) (2 * r) || (2 * r == 10 ^ k && q % 2 == 1) then q + 1 else q

-- `n / 10 ^ scale` where the exponent of ten may have either sign: `down` places too many.
abbrev at_scale : ℤ → ℕ → ℕ → ℕ → Decimal
at_scale sign n scale down =
    if leb down scale
    then record { coeff = with_sign sign n; scale = scale - down }
    else record { coeff = with_sign sign (n * 10 ^ (down - scale)); scale = 0 }

-- Rounding to the context's precision.
unfoldable pub fix : Decimal → Decimal
unfolding num_digits half_even
fix a =
    let n = magnitude a.coeff in
    let k = num_digits n - precision in
    let rounded = at_scale a.coeff (half_even n k) a.scale k in
    if ltb n (10 ^ precision) then a else rounded

unfoldable pub neg_dec : Decimal → Decimal
unfolding fix
neg_dec a = fix (record a { coeff = neg a.coeff })

unfoldable pub abs_dec : Decimal → Decimal
unfolding fix
abs_dec a = fix (record a { coeff = pos (magnitude a.coeff) })

unfoldable pub sub_dec : Decimal → Decimal → Decimal
unfolding fix ◌-ℤ◌ ◌*ℤ◌
sub_dec a b =
    let s = max a.scale b.scale in
    fix (record {
      coeff = a.coeff *ℤ pos (10 ^ (s - a.scale)) -ℤ b.coeff *ℤ pos (10 ^ (s - b.scale));
      scale = s;
    })

unfoldable pub mul_dec : Decimal → Decimal → Decimal
unfolding fix ◌*ℤ◌
mul_dec a b = fix (record { coeff = a.coeff *ℤ b.coeff; scale = a.scale + b.scale })

-- `a / b` for `b` other than zero: 28 digits and more of the quotient, with a last digit that keeps
-- an inexact quotient off the ties, then rounded.
unfoldable pub div_dec : Decimal → Decimal → Decimal
unfolding fix num_digits ◌*ℤ◌
div_dec a b =
    let la = num_digits (magnitude a.coeff) in
    let lb = num_digits (magnitude b.coeff) + precision + 1 in
    let top = magnitude a.coeff * 10 ^ (lb - la) in
    let bottom = magnitude b.coeff * 10 ^ (la - lb) in
    let q = top / bottom in
    let sticky = if top % bottom == 0 then q else if q % 5 == 0 then q + 1 else q in
    fix (
      at_scale (with_sign a.coeff 1 *ℤ with_sign b.coeff 1) sticky (a.scale + (lb - la))
        (b.scale + (la - lb)))
