-- ===== src/Examples/Scores.antt =====
-- The z-score of a short series of prices.
use dropwatch.Base.{Option, none, List, [], ◌∷◌, Result, ok, err, ◌≡◌, refl}
use dropwatch.Decimal.{Decimal, of_ℕ}
use dropwatch.Zscore.{ZScoreResult, compute_zscore}
use dropwatch.Zscore.Window.{Fits, compute_zscore-Fits}
use dropwatch.Examples.Fixtures.{test_platform}

-- After the first two prices.
abbrev later_prices : List Decimal
later_prices = of_ℕ 50 ∷ of_ℕ 100 ∷ []

score_of : {F : Type 0} → Result (Option (ZScoreResult F)) → Option (ZScoreResult F)
score_of (ok o) = o
score_of (err _) = none

abbrev scored : Option (ZScoreResult test_platform.Float)
unfolding test_platform score_of
scored = score_of (compute_zscore test_platform (of_ℕ 100 ∷ of_ℕ 200 ∷ later_prices) 1 2)

computed : compute_zscore test_platform (of_ℕ 100 ∷ of_ℕ 200 ∷ later_prices) 1 2 ≡ ok scored
unfolding test_platform compute_zscore scored dropwatch.Decimal.is_zero dropwatch.Decimal.div_dec
computed = refl

compute_zscore-Fits_example : Fits test_platform 1 2 2 scored
unfolding test_platform
compute_zscore-Fits_example =
    compute_zscore-Fits test_platform 1 2 (of_ℕ 100) (of_ℕ 200) later_prices scored computed
