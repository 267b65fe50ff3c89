-- ===== src/Scripts/Measure.antt =====
-- scripts/measure_zscore_filter.py: the sweep over a pair's prices and the counts of fires. The float
-- literals are the floats of their decimals.
use dropwatch.Base.{
  ℕ, zero, suc, ◌+◌, ◌-◌, Bool, true, false, ◌&&◌, Option, none, some, List, [], ◌∷◌, ◌==◌, length,
  drop, take, filter, if◌then◌else◌, Result, ok, err, index_error, type_error, or_raise, ◌>>=◌,
}
use dropwatch.Base.Int.{pos}
use dropwatch.Decimal.{Decimal}
use dropwatch.Platform.{Platform}
use dropwatch.Zscore.{ZScoreResult, compute_zscore}

-- SIGMA_CUTOFF, ZERO_VARIANCE_MIN_PERCENT and NAIVE_THRESHOLDS_PERCENT
abbrev pub sigma_cutoff : Decimal
sigma_cutoff = record { coeff = pos 20; scale = 1 }

abbrev pub zero_variance_min_percent : Decimal
zero_variance_min_percent = record { coeff = pos 5; scale = 1 }

abbrev pub naive_thresholds_percent : List Decimal
naive_thresholds_percent =
    record { coeff = pos 1; scale = 1 }
    ∷ record { coeff = pos 25; scale = 2 }
    ∷ record { coeff = pos 5; scale = 1 }
    ∷ record { coeff = pos 10; scale = 1 }
    ∷ []

abbrev pub window : ℕ
window = 60

abbrev pub min_observations : ℕ
min_observations = 30

abbrev pub max_prices_needed : ℕ
max_prices_needed = window + 2

pub record Verdict : Type 0 where
  pub naive_fires : Bool
  pub zscore_fires : Bool
  pub has_baseline : Bool

unfoldable pub nth : ℕ → List Decimal → Option Decimal
nth n [] = none
nth zero (d ∷ ds) = some d
nth (suc n) (d ∷ ds) = nth n ds

-- `prices[max(0, i + 1 - MAX_PRICES_NEEDED) : i + 1]`
abbrev pub window_slice : ℕ → List Decimal → List Decimal
window_slice i prices = drop (i + 1 - max_prices_needed) (take (i + 1) prices)

module _ (P : Platform) where
  open P use {Float, of_decimal, of_int, minus, times, abs, expm1, divide, less, at_most}

  -- `abs((current - previous) / previous) * 100 > naive_threshold_percent`
  abbrev pub naive_test : (current previous threshold : Float) → Result Bool
  naive_test current previous threshold = divide (minus current previous) previous >>= λ move.
      ok (less threshold (times (abs move) (of_int 100)))

  -- `zscore_fires` and `has_baseline`
  abbrev pub zscore_test : Option (ZScoreResult Float) → Result (Bool × Bool)
  zscore_test none = ok (false, false)
  zscore_test (some r) =
      let flat_move = times (abs (expm1 r.current_return)) (of_int 100) in
      if r.is_zero_variance
      then ok (at_most (of_decimal zero_variance_min_percent) flat_move, true)
      else elim r.z [
        | none ↦ err type_error
        | some z ↦ ok (at_most (of_decimal sigma_cutoff) (abs z), true)
      ]

  abbrev pub verdict_of : Bool → Bool × Bool → Verdict
  verdict_of naive (zscore, baseline) = record {
    naive_fires = naive;
    zscore_fires = zscore;
    has_baseline = baseline;
  }

  module _ (prices : List Decimal) (threshold : Float) where
    -- The body of the loop of `_sweep_pair`, for `i = suc j`.
    unfoldable pub sweep_at : (j : ℕ) → Result Verdict
    unfolding nth compute_zscore
    sweep_at j = do
      zresult ← compute_zscore P (window_slice (suc j) prices) window min_observations
      current ← or_raise (nth (suc j) prices) index_error
      previous ← or_raise (nth j prices) index_error
      naive ← naive_test (of_decimal current) (of_decimal previous) threshold
      zscore ← zscore_test zresult
      ok (verdict_of naive zscore)

    unfoldable pub sweep_from : (j count : ℕ) → Result (List Verdict)
    unfolding sweep_at
    sweep_from j zero = ok []
    sweep_from j (suc count) = do
      verdict ← sweep_at j
      verdicts ← sweep_from (suc j) count
      ok (verdict ∷ verdicts)

    -- `_sweep_pair`
    unfoldable pub sweep_pair : Result (List Verdict)
    unfolding sweep_from
    sweep_pair = sweep_from 0 (length prices - 1)

  -- `_reduction_percent`
  unfoldable pub reduction_percent : (naive_count zscore_count : ℕ) → Result (Option Float)
  reduction_percent naive_count zscore_count = if naive_count == 0 then ok none else do
    share ← divide (of_int zscore_count) (of_int naive_count)
    ok (some (times (minus (of_int 1) share) (of_int 100)))

-- The four sums of one threshold.
pub record Totals : Type 0 where
  pub naive_total : ℕ
  pub zscore_total : ℕ
  pub naive_total_excl : ℕ
  pub zscore_total_excl : ℕ

abbrev pub no_totals : Totals
no_totals = record {
  naive_total = 0;
  zscore_total = 0;
  naive_total_excl = 0;
  zscore_total_excl = 0;
}

abbrev pub count_if : (Verdict → Bool) → List Verdict → ℕ
count_if test sweep = length (filter test sweep)

unfoldable pub add_sweep : List Verdict → Totals → Totals
add_sweep sweep t = record {
  naive_total = t.naive_total + count_if (λ v. v.naive_fires) sweep;
  zscore_total = t.zscore_total + count_if (λ v. v.zscore_fires) sweep;
  naive_total_excl = t.naive_total_excl + count_if (λ v. v.naive_fires && v.has_baseline) sweep;
  zscore_total_excl = t.zscore_total_excl + count_if (λ v. v.zscore_fires && v.has_baseline) sweep;
}

-- A row of the report.
pub record Reduction (F : Type 0) : Type 0 where
  pub naive_total : ℕ
  pub zscore_total : ℕ
  pub reduction_percent_including_cold_start : Option F
  pub reduction_percent_excluding_cold_start : Option F

module _ (P : Platform) where
  open P use {Float, of_decimal}

  -- The loop over the pairs' prices.
  unfoldable pub totals_of : (threshold : Float) → List (List Decimal) → Totals → Result Totals
  unfolding sweep_pair add_sweep
  totals_of threshold [] t = ok t
  totals_of threshold (prices ∷ pairs) t =
      sweep_pair P prices threshold >>= λ sweep. totals_of threshold pairs (add_sweep sweep t)

  abbrev pub reduction_of : Totals → Result (Reduction Float)
  reduction_of t = do
    including ← reduction_percent P t.naive_total t.zscore_total
    excluding ← reduction_percent P t.naive_total_excl t.zscore_total_excl
    ok (record {
      naive_total = t.naive_total;
      zscore_total = t.zscore_total;
      reduction_percent_including_cold_start = including;
      reduction_percent_excluding_cold_start = excluding;
    })

  -- `run_reduction_measurement`, whose dict is keyed by the distinct thresholds.
  unfoldable pub run_reductions :
      (thresholds : List Decimal)
      → (real_pairs : List (List Decimal)) → Result (List (Decimal × Reduction Float))
  unfolding totals_of reduction_percent
  run_reductions [] real_pairs = ok []
  run_reductions (threshold ∷ thresholds) real_pairs = do
    t ← totals_of (of_decimal threshold) real_pairs no_totals
    row ← reduction_of t
    rows ← run_reductions thresholds real_pairs
    ok ((threshold, row) ∷ rows)

  unfoldable pub run_reduction_measurement :
      (real_pairs : List (List Decimal)) → Result (List (Decimal × Reduction Float))
  unfolding run_reductions
  run_reduction_measurement = run_reductions naive_thresholds_percent
