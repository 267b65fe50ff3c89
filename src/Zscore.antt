-- ===== src/Zscore.antt =====
-- workers/zscore_filter.py: the z-score of the last log return against the returns before it.
pub mod Window
pub mod Recent
use dropwatch.Base.{
  ℕ, zero, suc, ◌+◌, ◌-◌, Bool, true, false, Option, none, some, List, [], ◌∷◌, map, ltb, length,
  drop, if◌then◌else◌, Result, ok, err, ◌>>=◌,
}
use dropwatch.Decimal.{Decimal}
use dropwatch.Platform.{Platform}

pub record ZScoreResult (F : Type 0) : Type 0 where
  pub current_return : F
  pub window_size : ℕ
  pub is_zero_variance : Bool
  pub z : Option F

module _ (P : Platform) where
  open P use {Float, of_decimal, minus, divide, log, fmean, stdev, is_zero}

  -- `[math.log(floats[i] / floats[i - 1]) for i in range(1, len(floats))]`, after `previous`.
  unfoldable pub log_returns : Float → List Float → Result (List Float)
  log_returns previous [] = ok []
  log_returns previous (f ∷ rest) = do
    ratio ← divide f previous
    r ← log ratio
    rs ← log_returns f rest
    ok (r ∷ rs)

  -- `returns[-1]` and `returns[:-1]` of `first ∷ rest`.
  abbrev pub last_return : Float → List Float → Float
  last_return first [] = first
  last_return first (r ∷ rest) = last_return r rest

  abbrev pub all_but_last : Float → List Float → List Float
  all_but_last first [] = []
  all_but_last first (r ∷ rest) = first ∷ all_but_last r rest

  -- `xs[-n:]`: all of `xs` for `n = 0`, since `-0` is 0.
  abbrev pub last_n : ℕ → List Float → List Float
  last_n zero xs = xs
  last_n (suc n) xs = drop (length xs - suc n) xs

  unfoldable pub baseline_of : ℕ → List Float → List Float
  baseline_of window baseline_all =
      if ltb window (length baseline_all) then last_n window baseline_all else baseline_all

  abbrev flat : Float → ℕ → ZScoreResult Float
  flat c n = record { current_return = c; window_size = n; is_zero_variance = true; z = none }

  -- `statistics.stdev(baseline) if len(baseline) >= 2 else 0.0`, then the test `stdev == 0.0`.
  unfoldable pub score_with : Float → List Float → Float → Result (ZScoreResult Float)
  score_with current baseline mean =
      if ltb (length baseline) 2
      then ok (flat current (length baseline))
      else if is_zero (stdev baseline)
      then ok (flat current (length baseline))
      else do
        z ← divide (minus current mean) (stdev baseline)
        ok (record {
          current_return = current;
          window_size = length baseline;
          is_zero_variance = false;
          z = some z;
        })

  unfoldable pub score : ℕ → ℕ → List Float → Result (Option (ZScoreResult Float))
  unfolding score_with baseline_of
  score window min_observations [] = ok none
  score window min_observations (first ∷ rest) =
      let baseline_all = all_but_last first rest in
      if ltb (length baseline_all) min_observations then ok none else do
        mean ← fmean (baseline_of window baseline_all)
        result ← score_with (last_return first rest) (baseline_of window baseline_all) mean
        ok (some result)

  unfoldable pub compute_zscore :
      List Decimal → (window min_observations : ℕ) → Result (Option (ZScoreResult Float))
  unfolding log_returns score
  compute_zscore [] window min_observations = ok none
  compute_zscore (p ∷ []) window min_observations = ok none
  compute_zscore (p ∷ q ∷ rest) window min_observations = do
    returns ← log_returns (of_decimal p) (map of_decimal (q ∷ rest))
    score window min_observations returns
