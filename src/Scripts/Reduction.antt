-- ===== src/Scripts/Reduction.antt =====
-- scripts/measure_zscore_filter.py: the sums of `run_reduction_measurement`, whose report says that the
-- z-score does not use the naive threshold.
use mathlib.Core.Path.{subst}
use dropwatch.Base.{
  ◌-◌, List, [], ◌∷◌, length, ◌≡◌, refl, sym, ◌∙◌, ap, arith, ok, ok-injective, >>=-eq-ok,
}
use dropwatch.Decimal.{Decimal}
use dropwatch.Platform.{Platform}
use dropwatch.Scripts.Measure.{Totals, no_totals, sweep_pair, add_sweep, totals_of}
use dropwatch.Scripts.Sweep.{
  sweep_from-HasBaseline, sweep_from-threshold, count-zscore_part, count-HasBaseline,
}

module _ (P : Platform) where
  open P use {Float, of_decimal}

  -- Of two thresholds, the z-score's fires are the same number.
  totals_of-threshold :
      (s t : Float) (pairs : List (List Decimal)) (a b c d : Totals)
      → a.zscore_total ≡ b.zscore_total
      → totals_of P s pairs a ≡ ok c
      → totals_of P t pairs b ≡ ok d
      → c.zscore_total ≡ d.zscore_total
  unfolding totals_of add_sweep sweep_pair
  totals_of-threshold s t [] a b c d e h k =
      sym (ap (λ (x : Totals). x.zscore_total) (ok-injective h))
      ∙ e
      ∙ ap (λ (x : Totals). x.zscore_total) (ok-injective k)
  totals_of-threshold s t (prices ∷ pairs) a b c d e h k =
      let (vs, f, h1) = >>=-eq-ok (sweep_pair P prices s) _ h in
      let (ws, g, k1) = >>=-eq-ok (sweep_pair P prices t) _ k in
      let same =
        count-zscore_part vs ws
          (sweep_from-threshold P prices s t 0 (length prices - 1) vs ws f g) in
      totals_of-threshold s t pairs (add_sweep vs a) (add_sweep ws b) c d (omega (arith, e, same))
        h1 k1

  -- Leaving out the cold start leaves out none of the z-score's fires.
  totals_of-cold_start :
      (s : Float) (pairs : List (List Decimal)) (a c : Totals)
      → a.zscore_total_excl ≡ a.zscore_total
      → totals_of P s pairs a ≡ ok c
      → c.zscore_total_excl ≡ c.zscore_total
  unfolding totals_of add_sweep sweep_pair
  totals_of-cold_start s [] a c e h =
      subst (λ (x : Totals). x.zscore_total_excl ≡ x.zscore_total) (ok-injective h) e
  totals_of-cold_start s (prices ∷ pairs) a c e h =
      let (vs, f, h1) = >>=-eq-ok (sweep_pair P prices s) _ h in
      let same =
        count-HasBaseline vs (sweep_from-HasBaseline P prices s 0 (length prices - 1) vs f) in
      totals_of-cold_start s pairs (add_sweep vs a) c (omega (arith, e, same)) h1

  -- For any two thresholds for which the sums are made, the z-score's fires are the same number, and
  -- are the same number with and without the observations of the cold start.
  pub totals_of-zscore :
      (s t : Float) (pairs : List (List Decimal)) (c d : Totals)
      → totals_of P s pairs no_totals ≡ ok c
      → totals_of P t pairs no_totals ≡ ok d
      → (c.zscore_total ≡ d.zscore_total)
        × (c.zscore_total_excl ≡ c.zscore_total)
        × (d.zscore_total_excl ≡ d.zscore_total)
  totals_of-zscore s t pairs c d h k = (
    totals_of-threshold s t pairs no_totals no_totals c d refl h k,
    totals_of-cold_start s pairs no_totals c refl h,
    totals_of-cold_start t pairs no_totals d refl k,
  )
