-- ===== src/Outbox/Backoff.antt =====
-- workers/outbox_publisher.py: `backoff_seconds`.
use native.Mathlib.Nat.{pow-suc, pow-le-pow_right, mul-le-mul_left}
use dropwatch.Base.{ℕ, suc, ◌*◌, ◌^◌, ◌-◌, ◌≤◌, ◌≡◌, min, arith}
use dropwatch.Settings.{Settings}
use dropwatch.Outbox.{backoff_seconds}

module _ (settings : Settings) where
  open settings use {outbox_backoff_base_seconds as base, outbox_backoff_max_seconds as cap}

  -- After one failure the delay is the base, up to the cap; each further failure doubles the delay,
  -- up to the cap.
  pub backoff_seconds-doubles :
      (n : ℕ)
      → (backoff_seconds settings 1 ≡ min base cap)
        × (backoff_seconds settings (suc (suc n)) ≡ min (2 * backoff_seconds settings (suc n)) cap)
  unfolding backoff_seconds
  backoff_seconds-doubles n =
      let once : suc (suc n) - 1 ≡ suc n = omega arith in
      let twice : suc n - 1 ≡ n = omega arith in
      (omega arith, rw (once, twice, pow-suc 2 n) (omega arith))

  -- The delay never exceeds the cap, and does not fall as the attempts grow.
  pub backoff_seconds-bounds :
      (m n : ℕ)
      → m ≤ n
      → (backoff_seconds settings n ≤ cap)
        × (backoff_seconds settings m ≤ backoff_seconds settings n)
  unfolding backoff_seconds
  backoff_seconds-bounds m n h =
      let power : 2 ^ (m - 1) ≤ 2 ^ (n - 1) = pow-le-pow_right (omega arith) (omega arith) in
      let product : base * 2 ^ (m - 1) ≤ base * 2 ^ (n - 1) = mul-le-mul_left base power in
      (omega arith, omega arith)
