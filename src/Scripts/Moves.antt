-- ===== src/Scripts/Moves.antt =====
-- scripts/measure_zscore_filter.py: the pairs for which the consistency is measured.
use dropwatch.Base.{
  ◌≤◌, List, [], ◌∷◌, length, All, ok, err, zero_division, >>=-eq-ok, ok-injective, ◌≡◌, sym, ◌∙◌,
  arith,
}
use dropwatch.Decimal.{Decimal}
use dropwatch.Platform.{Platform}
use dropwatch.Scripts.Measure.{Verdict, sweep_from, sweep_pair, count_if}
use dropwatch.Scripts.Rates.{
  PairPrices, PairRates, Statistics, Consistency, rates_of, consistency_threshold_percent,
  run_consistency_measurement,
}

module _ (P : Platform)
    (divide-zero : (x : P.Float) → P.divide x (P.of_int 0) ≡ err zero_division) where
  open P use {Float, of_decimal, of_int, divide}

  no_share :
      (sweep : List Verdict) (naive : Float)
      → ok [] ≡ ok sweep
      → divide (of_int (count_if (λ v. v.naive_fires) sweep)) (of_int (length sweep)) ≡ ok naive
      → ⊥
  no_share [] naive e f = cc (sym (divide-zero _) ∙ f)
  no_share (v ∷ sweep) naive e f = cc (ok-injective e)

  moves :
      (prices : List Decimal) (sweep : List Verdict) (naive : Float)
      → sweep_pair P prices (of_decimal consistency_threshold_percent) ≡ ok sweep
      → divide (of_int (count_if (λ v. v.naive_fires) sweep)) (of_int (length sweep)) ≡ ok naive
      → 2 ≤ length prices
  unfolding sweep_pair sweep_from
  moves [] sweep naive e f = absurd (no_share sweep naive e f)
  moves (p ∷ []) sweep naive e f = absurd (no_share sweep naive e f)
  moves (p ∷ q ∷ rest) sweep naive e f = omega arith

  rates_of-moves :
      (pairs : List PairPrices) (rates : List (PairRates P))
      → rates_of P pairs ≡ ok rates
      → All (λ pair. 2 ≤ length pair.prices) pairs
  unfolding rates_of
  rates_of-moves [] rates h = tt
  rates_of-moves (pair ∷ pairs) rates h =
      let (sweep, e, h1) =
        >>=-eq-ok (sweep_pair P pair.prices (of_decimal consistency_threshold_percent)) _ h in
      let (naive, f, h2) =
        >>=-eq-ok (divide (of_int (count_if (λ v. v.naive_fires) sweep)) (of_int (length sweep))) _
          h1 in
      let (zscore, _, h3) =
        >>=-eq-ok (divide (of_int (count_if (λ v. v.zscore_fires) sweep)) (of_int (length sweep))) _
          h2 in
      let (rest, g, _) = >>=-eq-ok (rates_of P pairs) _ h3 in
      (moves pair.prices sweep naive e f, rates_of-moves pairs rest g)

  -- Where a division by zero raises, the consistency is measured only if every pair has two prices or
  -- more: a pair with fewer ends the whole measurement in an exception.
  pub run_consistency_measurement-moves :
      (statistics : Statistics P) (pairs : List PairPrices) (c : Consistency P)
      → run_consistency_measurement P statistics pairs ≡ ok c
      → All (λ pair. 2 ≤ length pair.prices) pairs
  unfolding run_consistency_measurement
  run_consistency_measurement-moves statistics pairs c h =
      let (rates, e, _) = >>=-eq-ok (rates_of P pairs) _ h in rates_of-moves pairs rates e
