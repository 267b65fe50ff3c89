-- ===== src/Scripts/Rates.antt =====
-- scripts/measure_zscore_filter.py: `run_synthetic_cases` and `run_consistency_measurement`, without the
-- texts of the report.
use dropwatch.Base.{
  ℕ, Bool, true, false, not, ◌&&◌, Option, none, some, List, [], ◌∷◌, ◌++◌, map, String, length,
  is_some, Result, ok, ◌>>=◌,
}
use dropwatch.Base.Int.{pos}
use dropwatch.Base.Sorting.{sorted}
use dropwatch.Decimal.{Decimal}
use dropwatch.Platform.{Platform}
use dropwatch.Zscore.{ZScoreResult, compute_zscore}
use dropwatch.Scripts.Measure.{
  window, min_observations, zero_variance_min_percent, sweep_pair, count_if,
}

-- `expected_zscore_result`: two names, or any other.
pub data Expectation : Type 0 where
  insufficient_history zero_variance glitch : Expectation

pub record SyntheticCase : Type 0 where
  pub prices : List Decimal
  pub next_price : Option Decimal
  pub expected_zscore_result : Expectation
  pub expected_fires_at_default_config : Option Bool

pub record PairPrices : Type 0 where
  pub pair_name : String
  pub prices : List Decimal

abbrev pub consistency_threshold_percent : Decimal
consistency_threshold_percent = record { coeff = pos 25; scale = 2 }

abbrev pub with_next : List Decimal → Option Decimal → List Decimal
with_next prices none = prices
with_next prices (some p) = prices ++ p ∷ []

abbrev pub same_bool : Bool → Bool → Bool
same_bool true b = b
same_bool false b = not b

module _ (P : Platform) where
  open P use {Float, of_decimal, of_int, times, abs, expm1, divide, at_most}

  abbrev pub flat_fires : ZScoreResult Float → Bool
  flat_fires r =
      at_most (of_decimal zero_variance_min_percent)
        (times (abs (expm1 r.current_return)) (of_int 100))

  -- Whether a result is what the case expects.
  unfoldable pub passed : Expectation → Option Bool → Option (ZScoreResult Float) → Bool
  passed insufficient_history fires result = not (is_some result)
  passed zero_variance fires none = false
  passed zero_variance none (some r) = r.is_zero_variance
  passed zero_variance (some fires) (some r) = r.is_zero_variance && same_bool (flat_fires r) fires
  passed glitch fires result = true

  unfoldable pub run_synthetic_cases : List SyntheticCase → Result (List Bool)
  unfolding passed compute_zscore
  run_synthetic_cases [] = ok []
  run_synthetic_cases (c ∷ cases) = do
    result ← compute_zscore P (with_next c.prices c.next_price) window min_observations
    outcomes ← run_synthetic_cases cases
    ok (passed c.expected_zscore_result c.expected_fires_at_default_config result ∷ outcomes)

  pub record PairRates : Type 0 where
    pub pair_name : String
    pub observations : ℕ
    pub naive_fire_rate : Float
    pub zscore_fire_rate : Float

  -- The loop over the pairs.
  unfoldable pub rates_of : List PairPrices → Result (List PairRates)
  unfolding sweep_pair
  rates_of [] = ok []
  rates_of (pair ∷ pairs) = do
    sweep ← sweep_pair P pair.prices (of_decimal consistency_threshold_percent)
    naive ← divide (of_int (count_if (λ v. v.naive_fires) sweep)) (of_int (length sweep))
    zscore ← divide (of_int (count_if (λ v. v.zscore_fires) sweep)) (of_int (length sweep))
    rates ← rates_of pairs
    ok (
        record {
          pair_name = pair.pair_name;
          observations = length sweep;
          naive_fire_rate = naive;
          zscore_fire_rate = zscore;
        }
        ∷ rates)

  -- `statistics.mean` and `statistics.stdev`, `min` and `max`, which raise on too few values.
  pub record Statistics : Type 0 where
    pub mean : List Float → Result Float
    pub stdev_of : List Float → Result Float
    pub minimum : List Float → Result Float
    pub maximum : List Float → Result Float

  -- The five numbers of one method.
  pub record Spread : Type 0 where
    pub mean : Float
    pub stdev : Float
    pub cv : Float
    pub lowest : Float
    pub highest : Float

  abbrev pub highest_first : PairRates → PairRates → Bool
  highest_first a b = at_most b.naive_fire_rate a.naive_fire_rate

  pub record Consistency : Type 0 where
    pub naive : Spread
    pub zscore : Spread
    pub per_pair : List PairRates

  module _ (statistics : Statistics) where
    unfoldable pub spread_of : List Float → Result Spread
    spread_of rates = do
      mean ← statistics.mean rates
      stdev ← statistics.stdev_of rates
      cv ← divide stdev mean
      lowest ← statistics.minimum rates
      highest ← statistics.maximum rates
      ok (record { mean = mean; stdev = stdev; cv = cv; lowest = lowest; highest = highest })

    unfoldable pub run_consistency_measurement : List PairPrices → Result Consistency
    unfolding rates_of spread_of
    run_consistency_measurement real_pairs = do
      rates ← rates_of real_pairs
      naive ← spread_of (map (λ r. r.naive_fire_rate) rates)
      zscore ← spread_of (map (λ r. r.zscore_fire_rate) rates)
      ok (record { naive = naive; zscore = zscore; per_pair = sorted highest_first rates })
