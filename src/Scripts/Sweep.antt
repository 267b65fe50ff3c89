-- ===== src/Scripts/Sweep.antt =====
-- scripts/measure_zscore_filter.py: what the counts of the sweep depend on.
use mathlib.Core.Path.{subst}
use dropwatch.Base.{
  ℕ, zero, suc, Bool, ◌&&◌, Option, none, some, List, [], ◌∷◌, map, length, filter, All, ◌≡◌, refl,
  sym, ◌∙◌, ap, arith, Bool-cases, Option-cases, inl, inr, or_raise, index_error, ok, ok-injective,
  >>=-eq-ok,
}
use dropwatch.Decimal.{Decimal}
use dropwatch.Platform.{Platform}
use dropwatch.Zscore.{ZScoreResult, compute_zscore}
use dropwatch.Scripts.Measure.{
  Verdict, nth, window, min_observations, window_slice, naive_test, zscore_test, sweep_at,
  sweep_from, count_if,
}

-- The part of a verdict that the z-score decides.
abbrev pub zscore_part : Verdict → Bool × Bool
zscore_part v = (v.zscore_fires, v.has_baseline)

-- Without a baseline the z-score does not fire.
abbrev pub HasBaseline : Verdict → Type 0
HasBaseline v = (v.zscore_fires && v.has_baseline) ≡ v.zscore_fires

module _ (P : Platform) where
  open P use {Float, of_decimal}

  zscore_test-baseline :
      (result : Option (ZScoreResult Float)) (out : Bool × Bool)
      → zscore_test P result ≡ ok out
      → (out.0 && out.1) ≡ out.0
  zscore_test-baseline none out h = subst (λ x. (x.0 && x.1) ≡ x.0) (ok-injective h) refl
  zscore_test-baseline (some r) out h = elim (Bool-cases r.is_zero_variance) [
    | inl flat ↦ subst (λ x. (x.0 && x.1) ≡ x.0) (ok-injective (rw flat at h)) (ground arith)
    | inr varied ↦ elim (Option-cases r.z) [
      | inl missing ↦ absurd (cc (rw (varied, missing) at h))
      | inr (z, there) ↦
          subst (λ x. (x.0 && x.1) ≡ x.0) (ok-injective (rw (varied, there) at h)) (ground arith)
    ]
  ]

  module _ (prices : List Decimal) where
    sweep_at-HasBaseline :
        (threshold : Float) (j : ℕ) (v : Verdict)
        → sweep_at P prices threshold j ≡ ok v
        → HasBaseline v
    unfolding sweep_at
    sweep_at-HasBaseline threshold j v h =
        let (result, _, h1) =
          >>=-eq-ok (compute_zscore P (window_slice (suc j) prices) window min_observations) _ h in
        let (current, _, h2) = >>=-eq-ok (or_raise (nth (suc j) prices) index_error) _ h1 in
        let (previous, _, h3) = >>=-eq-ok (or_raise (nth j prices) index_error) _ h2 in
        let (naive, _, h4) =
          >>=-eq-ok (naive_test P (of_decimal current) (of_decimal previous) threshold) _ h3 in
        let (zscore, e, h5) = >>=-eq-ok (zscore_test P result) _ h4 in
        subst HasBaseline (ok-injective h5) (zscore_test-baseline result zscore e)

    sweep_at-threshold :
        (s t : Float) (j : ℕ) (v w : Verdict)
        → sweep_at P prices s j ≡ ok v
        → sweep_at P prices t j ≡ ok w
        → zscore_part v ≡ zscore_part w
    unfolding sweep_at
    sweep_at-threshold s t j v w h k =
        let (result, a, h1) =
          >>=-eq-ok (compute_zscore P (window_slice (suc j) prices) window min_observations) _ h in
        let (current, b, h2) = >>=-eq-ok (or_raise (nth (suc j) prices) index_error) _ h1 in
        let (previous, c, h3) = >>=-eq-ok (or_raise (nth j prices) index_error) _ h2 in
        let (naive, _, h4) =
          >>=-eq-ok (naive_test P (of_decimal current) (of_decimal previous) s) _ h3 in
        let (zscore, d, h5) = >>=-eq-ok (zscore_test P result) _ h4 in
        let (result', a', k1) =
          >>=-eq-ok (compute_zscore P (window_slice (suc j) prices) window min_observations) _ k in
        let (current', b', k2) = >>=-eq-ok (or_raise (nth (suc j) prices) index_error) _ k1 in
        let (previous', c', k3) = >>=-eq-ok (or_raise (nth j prices) index_error) _ k2 in
        let (naive', _, k4) =
          >>=-eq-ok (naive_test P (of_decimal current') (of_decimal previous') t) _ k3 in
        let (zscore', d', k5) = >>=-eq-ok (zscore_test P result') _ k4 in
        let same : result ≡ result' = ok-injective (sym a ∙ a') in
        let verdicts : zscore ≡ zscore' = ok-injective (sym d ∙ ap (zscore_test P) same ∙ d') in
        sym (ap zscore_part (ok-injective h5)) ∙ verdicts ∙ ap zscore_part (ok-injective k5)

    pub sweep_from-HasBaseline :
        (threshold : Float) (j count : ℕ) (vs : List Verdict)
        → sweep_from P prices threshold j count ≡ ok vs
        → All HasBaseline vs
    unfolding sweep_from
    sweep_from-HasBaseline threshold j zero vs h = subst (All HasBaseline) (ok-injective h) tt
    sweep_from-HasBaseline threshold j (suc count) vs h =
        let (v, a, h1) = >>=-eq-ok (sweep_at P prices threshold j) _ h in
        let (rest, b, h2) = >>=-eq-ok (sweep_from P prices threshold (suc j) count) _ h1 in
        subst (All HasBaseline) (ok-injective h2) (
          sweep_at-HasBaseline threshold j v a,
          sweep_from-HasBaseline threshold (suc j) count rest b,
        )

    pub sweep_from-threshold :
        (s t : Float) (j count : ℕ) (vs ws : List Verdict)
        → sweep_from P prices s j count ≡ ok vs
        → sweep_from P prices t j count ≡ ok ws
        → map zscore_part vs ≡ map zscore_part ws
    unfolding sweep_from
    sweep_from-threshold s t j zero vs ws h k =
        ap (map zscore_part) (sym (ok-injective h) ∙ ok-injective k)
    sweep_from-threshold s t j (suc count) vs ws h k =
        let (v, a, h1) = >>=-eq-ok (sweep_at P prices s j) _ h in
        let (v_rest, b, h2) = >>=-eq-ok (sweep_from P prices s (suc j) count) _ h1 in
        let (w, c, k1) = >>=-eq-ok (sweep_at P prices t j) _ k in
        let (w_rest, d, k2) = >>=-eq-ok (sweep_from P prices t (suc j) count) _ k1 in
        let first : zscore_part v ≡ zscore_part w = sweep_at-threshold s t j v w a c in
        let later : map zscore_part v_rest ≡ map zscore_part w_rest =
          sweep_from-threshold s t (suc j) count v_rest w_rest b d in
        sym (ap (map zscore_part) (ok-injective h2))
        ∙ ap (λ x. x ∷ map zscore_part v_rest) first
        ∙ ap (λ l. zscore_part w ∷ l) later
        ∙ ap (map zscore_part) (ok-injective k2)

-- The z-score's fires are counted by their part of the verdicts.
pub count-zscore_part :
    (vs ws : List Verdict)
    → map zscore_part vs ≡ map zscore_part ws
    → count_if (λ v. v.zscore_fires) vs ≡ count_if (λ v. v.zscore_fires) ws
count-zscore_part vs ws h = by_part vs ∙ ap (λ l. length (filter (λ x. x.0) l)) h ∙ sym (by_part ws)
  where
    by_part :
        (l : List Verdict)
        → count_if (λ v. v.zscore_fires) l ≡ length (filter (λ x. x.0) (map zscore_part l))
    by_part [] = refl
    by_part (v ∷ l) = elim (Bool-cases v.zscore_fires) [
      | inl fires ↦ rw (fires, by_part l) refl
      | inr quiet ↦ rw (quiet, by_part l) refl
    ]

pub count-HasBaseline :
    (vs : List Verdict)
    → All HasBaseline vs
    → count_if (λ v. v.zscore_fires && v.has_baseline) vs ≡ count_if (λ v. v.zscore_fires) vs
count-HasBaseline [] h = refl
count-HasBaseline (v ∷ vs) (h, hs) = elim (Bool-cases v.zscore_fires) [
  | inl fires ↦ rw (h, fires, count-HasBaseline vs hs) refl
  | inr quiet ↦ rw (h, quiet, count-HasBaseline vs hs) refl
]
