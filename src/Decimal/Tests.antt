-- ===== src/Decimal/Tests.antt =====
-- Decimal arithmetic on values that Python's `decimal` documents.
use dropwatch.Base.{◌≡◌, refl}
use dropwatch.Base.Int.{pos, negsuc}
use dropwatch.Decimal.{of_ℕ, div_dec, sub_dec}

one_third :
    div_dec (of_ℕ 1) (of_ℕ 3) ≡ record { coeff = pos 3333333333333333333333333333; scale = 28 }
unfolding div_dec
one_third = refl

two_thirds :
    div_dec (of_ℕ 2) (of_ℕ 3) ≡ record { coeff = pos 6666666666666666666666666667; scale = 28 }
unfolding div_dec
two_thirds = refl

difference :
    sub_dec (record { coeff = pos 15; scale = 1 }) (of_ℕ 2) ≡ record { coeff = negsuc 4; scale = 1 }
unfolding sub_dec
difference = refl
