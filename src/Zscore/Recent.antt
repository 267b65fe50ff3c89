-- ===== src/Zscore/Recent.antt =====
-- workers/zscore_filter.py: how many of the prices `compute_zscore` reads. rules/evaluator.py and
-- scripts/measure_zscore_filter.py pass it the newest `window + 2` prices only.
use mathlib.Core.Path.{subst}
use dropwatch.Base.{
  ℕ, zero, suc, ◌+◌, ◌-◌, ◌≤◌, ◌<◌, true, false, Option, List, [], ◌∷◌, ◌++◌, map, ltb, length,
  length-append, Bool-cases, inl, inr, ok, ok-injective, >>=-eq-ok, ◌≡◌, refl, sym, ◌∙◌, ap, arith,
}
use dropwatch.Decimal.{Decimal}
use dropwatch.Platform.{Platform}
use dropwatch.Zscore.{ZScoreResult, log_returns, all_but_last, baseline_of, score, compute_zscore}
use dropwatch.Zscore.Window.{length-all_but_last, log_returns-length}

module _ (P : Platform) where
  open P use {Float, of_decimal}

  -- An older return than the window reaches does not change the baseline.
  baseline_of-cons :
      (w : ℕ) (r : Float) (b : List Float)
      → suc w ≤ length b
      → baseline_of P (suc w) (r ∷ b) ≡ baseline_of P (suc w) b
  unfolding baseline_of
  baseline_of-cons w r b h =
      let more : ltb (suc w) (suc (length b)) ≡ true = ground arith in
      let count : suc (length b) - suc w ≡ suc (length b - suc w) = omega arith in
      elim (Bool-cases (ltb (suc w) (length b))) [
        | inl longer ↦ rw (more, longer, count) refl
        | inr equal ↦
            let none_left : length b - suc w ≡ 0 = ground arith in
            rw (more, equal, count, none_left) refl
      ]

  score-cons :
      (w m : ℕ) (r s : Float) (rest : List Float)
      → m ≤ suc w
      → suc w ≤ length rest
      → score P (suc w) m (r ∷ s ∷ rest) ≡ score P (suc w) m (s ∷ rest)
  unfolding score
  score-cons w m r s rest few h =
      let b = all_but_last P s rest in
      let size : length b ≡ length rest = length-all_but_last P s rest in
      let enough : ltb (length b) m ≡ false = ground arith in
      let enough_more : ltb (suc (length b)) m ≡ false = ground arith in
      rw (enough, enough_more, baseline_of-cons w r b (omega arith)) refl

  compute_zscore-cons :
      (w m : ℕ) (p : Decimal) (prices : List Decimal) (o : Option (ZScoreResult Float))
      → m ≤ suc w
      → suc w + 2 ≤ length prices
      → compute_zscore P (p ∷ prices) (suc w) m ≡ ok o
      → compute_zscore P prices (suc w) m ≡ ok o
  unfolding compute_zscore log_returns
  compute_zscore-cons w m p [] o few long h = absurd (omega arith)
  compute_zscore-cons w m p (q ∷ []) o few long h = absurd (omega arith)
  compute_zscore-cons w m p (q ∷ t ∷ rest) o few long h =
      let later = map of_decimal (t ∷ rest) in
      let (returns, e, h1) = >>=-eq-ok (log_returns P (of_decimal p) (of_decimal q ∷ later)) _ h in
      let (ratio, _, e1) = >>=-eq-ok (P.divide (of_decimal q) (of_decimal p)) _ e in
      let (r, _, e2) = >>=-eq-ok (P.log ratio) _ e1 in
      let (rs, f, e3) = >>=-eq-ok (log_returns P (of_decimal q) later) _ e2 in
      rw (f, compute_zscore)
        (shorter r rs (log_returns-length P (of_decimal q) later rs f ∙ ap suc (length-map rest))
          (subst (λ l. score P (suc w) m l ≡ ok o) (sym (ok-injective e3)) h1))
    where
      length-map : (ds : List Decimal) → length (map of_decimal ds) ≡ length ds
      length-map [] = refl
      length-map (d ∷ ds) = ap suc (length-map ds)

      shorter :
          (r : Float) (rs : List Float)
          → length rs ≡ suc (length rest)
          → score P (suc w) m (r ∷ rs) ≡ ok o
          → score P (suc w) m rs ≡ ok o
      shorter r [] size g = absurd (omega arith)
      shorter r (s ∷ ss) size g = sym (score-cons w m r s ss few (omega arith)) ∙ g

  -- With a window that is not zero and a minimum that is not above it, a score of any prices is also the
  -- score of the newest ones of them, as long as these are at least two more than the window.
  pub compute_zscore-recent :
      (window m : ℕ) (old recent : List Decimal) (o : Option (ZScoreResult Float))
      → 0 < window
      → m ≤ window
      → window + 2 ≤ length recent
      → compute_zscore P (old ++ recent) window m ≡ ok o
      → compute_zscore P recent window m ≡ ok o
  compute_zscore-recent zero m old recent o some_window few long h = absurd (omega arith)
  compute_zscore-recent (suc w) m [] recent o some_window few long h = h
  compute_zscore-recent (suc w) m (p ∷ old) recent o some_window few long h =
      compute_zscore-recent (suc w) m old recent o some_window few long (
        compute_zscore-cons w m p (old ++ recent) o few (omega (arith, length-append old recent)) h)
