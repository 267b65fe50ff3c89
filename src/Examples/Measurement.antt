-- ===== src/Examples/Measurement.antt =====
-- The newest prices of a longer series, and the measurement on two short series.
use dropwatch.Base.{
  ℕ, ◌≤◌, length, zero_division, Option, none, List, [], ◌∷◌, All, Result, ok, err, ◌≡◌, refl,
  arith,
}
use dropwatch.Decimal.{Decimal, of_ℕ}
use dropwatch.Zscore.{ZScoreResult, compute_zscore}
use dropwatch.Zscore.Recent.{compute_zscore-recent}
use dropwatch.Scripts.Measure.{Totals, no_totals, totals_of}
use dropwatch.Scripts.Reduction.{totals_of-zscore}
use dropwatch.Scripts.Rates.{
  PairPrices, Statistics, Spread, Consistency, run_consistency_measurement,
}
use dropwatch.Scripts.Moves.{run_consistency_measurement-moves}
use dropwatch.Examples.Fixtures.{test_platform}

abbrev series : List Decimal
series = of_ℕ 100 ∷ of_ℕ 200 ∷ of_ℕ 50 ∷ of_ℕ 100 ∷ []

abbrev score_of : {F : Type 0} → Result (Option (ZScoreResult F)) → Option (ZScoreResult F)
score_of (ok o) = o
score_of (err _) = none

abbrev scored : Option (ZScoreResult test_platform.Float)
unfolding test_platform compute_zscore
scored = score_of (compute_zscore test_platform (of_ℕ 25 ∷ series) 2 1)

computed : compute_zscore test_platform (of_ℕ 25 ∷ series) 2 1 ≡ ok scored
unfolding test_platform compute_zscore scored dropwatch.Decimal.is_zero dropwatch.Decimal.div_dec
computed = refl

compute_zscore-recent_example : compute_zscore test_platform series 2 1 ≡ ok scored
unfolding test_platform
compute_zscore-recent_example =
    compute_zscore-recent test_platform 2 1 (of_ℕ 25 ∷ []) series scored (omega arith) (omega arith)
      (omega arith) computed

abbrev pairs : List (List Decimal)
pairs = series ∷ (of_ℕ 10 ∷ of_ℕ 10 ∷ []) ∷ []

abbrev counted : (naive : ℕ) → Totals
counted naive = record {
  naive_total = naive;
  zscore_total = 0;
  naive_total_excl = 0;
  zscore_total_excl = 0;
}

-- A fall by half and two rises to the double: a move of more than sixty percent is a rise.
low : totals_of test_platform (test_platform.of_int 1) pairs no_totals ≡ ok (counted 3)
unfolding test_platform totals_of dropwatch.Decimal.is_zero dropwatch.Decimal.div_dec
    dropwatch.Decimal.mul_dec dropwatch.Decimal.abs_dec dropwatch.Decimal.sub_dec
low = refl

high : totals_of test_platform (test_platform.of_int 99) pairs no_totals ≡ ok (counted 2)
unfolding test_platform totals_of dropwatch.Decimal.is_zero dropwatch.Decimal.div_dec
    dropwatch.Decimal.mul_dec dropwatch.Decimal.abs_dec dropwatch.Decimal.sub_dec
high = refl

totals_of-zscore_example :
    ((counted 3).zscore_total ≡ (counted 2).zscore_total)
    × ((counted 3).zscore_total_excl ≡ (counted 3).zscore_total)
    × ((counted 2).zscore_total_excl ≡ (counted 2).zscore_total)
totals_of-zscore_example =
    totals_of-zscore test_platform (test_platform.of_int 1) (test_platform.of_int 99) pairs
      (counted 3) (counted 2) low high

abbrev named : List PairPrices
named = record { pair_name = "XBT/USD"; prices = series } ∷ []

-- Statistics that give one for any values.
abbrev one : List test_platform.Float → Result test_platform.Float
one values = ok (test_platform.of_int 1)

abbrev ones : Statistics test_platform
ones = record { mean = one; stdev_of = one; minimum = one; maximum = one }

abbrev no_spread : Spread test_platform
no_spread = record {
  mean = test_platform.of_int 0;
  stdev = test_platform.of_int 0;
  cv = test_platform.of_int 0;
  lowest = test_platform.of_int 0;
  highest = test_platform.of_int 0;
}

abbrev spread_in : Result (Consistency test_platform) → Consistency test_platform
spread_in (ok c) = c
spread_in (err _) = record { naive = no_spread; zscore = no_spread; per_pair = [] }

abbrev consistency : Consistency test_platform
unfolding test_platform run_consistency_measurement
consistency = spread_in (run_consistency_measurement test_platform ones named)

is_measured : run_consistency_measurement test_platform ones named ≡ ok consistency
unfolding test_platform run_consistency_measurement consistency dropwatch.Decimal.is_zero
    dropwatch.Decimal.div_dec
is_measured = refl

zero_raises :
    (x : test_platform.Float) → test_platform.divide x (test_platform.of_int 0) ≡ err zero_division
unfolding test_platform dropwatch.Decimal.is_zero
zero_raises x = refl

run_consistency_measurement-moves_example : All (λ pair. 2 ≤ length pair.prices) named
run_consistency_measurement-moves_example =
    run_consistency_measurement-moves test_platform zero_raises ones named consistency is_measured
