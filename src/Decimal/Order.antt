-- ===== src/Decimal/Order.antt =====
-- The comparisons of decimals, which workers/rule_index.py sorts by.
use native.Mathlib.Nat.{one-le-pow, mul-le-mul_right}
use dropwatch.Base.{ℕ, ◌+◌, ◌*◌, ◌^◌, ◌≤◌, ◌<◌, ◌≡◌, true, false, arith, leb→le, le→leb}
use dropwatch.Base.Int.{pos_part, neg_part}
use dropwatch.Decimal.{Decimal, ltb_dec, leb_dec}

pos_pow : (n : ℕ) → 0 < 10 ^ n
pos_pow n = one-le-pow n 10 (omega arith)

mul_cancel : (p a b : ℕ) → 0 < p → a * p ≤ b * p → a ≤ b
mul_cancel p a b h k = grind arith

-- Transitivity over positive denominators `A`, `B` and `C`.
cross_trans :
    (pa na pb nb pc nc A B C : ℕ)
    → 0 < B
    → pa * B + nb * A ≤ pb * A + na * B
    → pb * C + nc * B ≤ pc * B + nb * C
    → pa * C + nc * A ≤ pc * A + na * C
cross_trans pa na pb nb pc nc A B C hB h k =
    mul_cancel B (pa * C + nc * A) (pc * A + na * C) hB (omega (arith, hC, kA))
  where
    hC : (pa * B + nb * A) * C ≤ (pb * A + na * B) * C
    hC = mul-le-mul_right C h

    kA : (pb * C + nc * B) * A ≤ (pc * B + nb * C) * A
    kA = mul-le-mul_right A k

pub leb_dec_trans : (a b c : Decimal) → leb_dec a b ≡ true → leb_dec b c ≡ true → leb_dec a c ≡ true
leb_dec_trans a b c h k = le→leb _ _ (
    cross_trans (pos_part a.coeff) (neg_part a.coeff) (pos_part b.coeff) (neg_part b.coeff)
      (pos_part c.coeff) (neg_part c.coeff) (10 ^ a.scale) (10 ^ b.scale) (10 ^ c.scale)
      (pos_pow b.scale) (leb→le _ _ h) (leb→le _ _ k))

-- `a < b` is the negation of `b ≤ a`.
pub leb_dec_of_not_ltb_dec : (a b : Decimal) → ltb_dec a b ≡ false → leb_dec b a ≡ true
leb_dec_of_not_ltb_dec a b h = ground arith

pub not_ltb_dec_of_leb_dec : (a b : Decimal) → leb_dec b a ≡ true → ltb_dec a b ≡ false
not_ltb_dec_of_leb_dec a b h = ground arith

pub leb_dec_of_not_leb_dec : (a b : Decimal) → leb_dec a b ≡ false → leb_dec b a ≡ true
leb_dec_of_not_leb_dec a b h = ground arith
