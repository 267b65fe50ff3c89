-- ===== src/Zscore/Window.antt =====
-- workers/zscore_filter.py: the sizes in `compute_zscore`.
use mathlib.Core.Path.{subst}
use dropwatch.Base.{
  ℕ, zero, suc, ◌-◌, ◌<◌, ◌≤◌, min, not, Option, none, some, is_some, List, [], ◌∷◌, map, ltb,
  length, length-drop, Bool-cases, inl, inr, ok, ok-injective, >>=-eq-ok, ◌≡◌, refl, sym, ◌∙◌, ap,
  arith,
}
use dropwatch.Decimal.{Decimal}
use dropwatch.Platform.{Platform}
use dropwatch.Zscore.{
  ZScoreResult, log_returns, last_return, all_but_last, baseline_of, score_with, score,
  compute_zscore,
}

some-injective : {A : Type 0} {a b : A} → some a ≡ some b → a ≡ b
some-injective h = cc

-- The size of the baseline that `baseline_all[-window:]` takes from `n` returns: all for a window of
-- zero.
abbrev pub window_of : (window n : ℕ) → ℕ
window_of zero n = n
window_of (suc w) n = min (suc w) n

module _ (P : Platform) where
  open P use {Float, of_decimal, fmean, stdev, divide, minus, is_zero}

  pub log_returns-length :
      (f : Float) (fs rs : List Float) → log_returns P f fs ≡ ok rs → length rs ≡ length fs
  unfolding log_returns
  log_returns-length f [] rs h = ap length (sym (ok-injective h))
  log_returns-length f (g ∷ gs) rs h =
      let (ratio, _, h1) = >>=-eq-ok (divide g f) _ h in
      let (r, _, h2) = >>=-eq-ok (P.log ratio) _ h1 in
      let (rest, e, h3) = >>=-eq-ok (log_returns P g gs) _ h2 in
      ap length (sym (ok-injective h3)) ∙ ap suc (log_returns-length g gs rest e)

  pub length-all_but_last :
      (first : Float) (rest : List Float) → length (all_but_last P first rest) ≡ length rest
  length-all_but_last first [] = refl
  length-all_but_last first (r ∷ rest) = ap suc (length-all_but_last r rest)

  length-baseline_of :
      (w : ℕ) (xs : List Float) → length (baseline_of P w xs) ≡ window_of w (length xs)
  unfolding baseline_of
  length-baseline_of zero xs = elim (Bool-cases (ltb 0 (length xs))) [
    | inl more ↦ rw more refl
    | inr few ↦ rw few refl
  ]
  length-baseline_of (suc w) xs = elim (Bool-cases (ltb (suc w) (length xs))) [
    | inl more ↦ rw more (length-drop (length xs - suc w) xs ∙ ground arith)
    | inr few ↦ rw few (ground arith)
  ]

  score_with-ok :
      (current mean : Float) (baseline : List Float) (r : ZScoreResult Float)
      → score_with P current baseline mean ≡ ok r
      → (r.window_size ≡ length baseline) × (is_some r.z ≡ not r.is_zero_variance)
  unfolding score_with
  score_with-ok current mean baseline r h = elim (Bool-cases (ltb (length baseline) 2)) [
    | inl short ↦ sized refl refl (ok-injective (rw (score_with, short) at h))
    | inr long ↦ elim (Bool-cases (is_zero (stdev baseline))) [
      | inl flat ↦ sized refl refl (ok-injective (rw (score_with, long, flat) at h))
      | inr varied ↦
          let (z, _, h1) =
            >>=-eq-ok (divide (minus current mean) (stdev baseline)) _
              (rw (score_with, long, varied) at h) in
          sized refl refl (ok-injective h1)
    ]
  ]
    where
      sized :
          {q : ZScoreResult Float}
          → q.window_size ≡ length baseline
          → is_some q.z ≡ not q.is_zero_variance
          → q ≡ r
          → (r.window_size ≡ length baseline) × (is_some r.z ≡ not r.is_zero_variance)
      sized size some_z e =
          subst (λ x. (x.window_size ≡ length baseline) × (is_some x.z ≡ not x.is_zero_variance)) e
            (size, some_z)

  -- What a result says of the number `n` of returns before the last one.
  abbrev pub Fits : (window min_observations n : ℕ) → Option (ZScoreResult Float) → Type 0
  Fits window min_observations n none = n < min_observations
  Fits window min_observations n (some r) =
      (min_observations ≤ n)
      × (r.window_size ≡ window_of window n)
      × (is_some r.z ≡ not r.is_zero_variance)

  score-Fits :
      (w m : ℕ) (first : Float) (rest : List Float) (o : Option (ZScoreResult Float))
      → score P w m (first ∷ rest) ≡ ok o
      → Fits w m (length rest) o
  unfolding score
  score-Fits w m first rest o h =
      let len : length (all_but_last P first rest) ≡ length rest = length-all_but_last first rest in
      elim (Bool-cases (ltb (length (all_but_last P first rest)) m)) [
        | inl few ↦
            subst (λ x. Fits w m (length rest) x) (ok-injective (rw (score, few) at h))
              (ground arith)
        | inr enough ↦
            let (mean, _, h1) =
              >>=-eq-ok (fmean (baseline_of P w (all_but_last P first rest))) _
                (rw (score, enough) at h) in
            let (r, e, h2) =
              >>=-eq-ok
                (score_with P (last_return P first rest)
                  (baseline_of P w (all_but_last P first rest)) mean)
                _ h1 in
            let (size, z) = score_with-ok _ mean _ r e in
            subst (λ x. Fits w m (length rest) x) (ok-injective h2)
              (
                ground arith,
                size ∙ length-baseline_of w (all_but_last P first rest) ∙ ap (window_of w) len,
                z,
              )
      ]

  scored-Fits :
      (w m n : ℕ) (returns : List Float) (o : Option (ZScoreResult Float))
      → length returns ≡ suc n
      → score P w m returns ≡ ok o
      → Fits w m n o
  scored-Fits w m n [] o size h = absurd (omega arith)
  scored-Fits w m n (r ∷ rs) o size h =
      subst (λ k. Fits w m k o) (omega arith) (score-Fits w m r rs o h)

  -- Of two prices or more, a score that does not raise is none exactly if there are fewer returns
  -- before the last one than the minimum; else its baseline has the size of the window, or of all the
  -- returns before the last one if these are fewer or the window is zero, and its z is there exactly
  -- if the variance is not zero.
  pub compute_zscore-Fits :
      (w m : ℕ) (p q : Decimal) (rest : List Decimal) (o : Option (ZScoreResult Float))
      → compute_zscore P (p ∷ q ∷ rest) w m ≡ ok o
      → Fits w m (length rest) o
  unfolding compute_zscore
  compute_zscore-Fits w m p q rest o h =
      let (returns, e, h1) =
        >>=-eq-ok (log_returns P (of_decimal p) (map of_decimal (q ∷ rest))) _ h in
      scored-Fits w m (length rest) returns o
        (log_returns-length (of_decimal p) (map of_decimal (q ∷ rest)) returns e
          ∙ ap suc (length-map rest))
        h1
    where
      length-map : (ds : List Decimal) → length (map of_decimal ds) ≡ length ds
      length-map [] = refl
      length-map (d ∷ ds) = ap suc (length-map ds)
