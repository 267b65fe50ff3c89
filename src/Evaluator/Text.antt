-- ===== src/Evaluator/Text.antt =====
-- The texts of rules/evaluator.py: the detected state and its hash, the idempotency key, and the
-- message of an alert.
use Prim.Native.String.{◌++◌ as str_append}
use dropwatch.Base.{
  ℕ, Bool, true, false, Option, none, some, List, [], ◌∷◌, String, if◌then◌else◌, Result, ok, err,
  zero_division, assertion_error, type_error, ◌>>=◌,
}
use dropwatch.Decimal.{Decimal, is_zero}
use dropwatch.Models.{
  RuleType, absolute_below, absolute_above, zscore_move, percent_change, spread_widen, other,
  Direction, up, down, both, empty, unknown, AlertRule, Pair,
}
use dropwatch.Platform.{Platform}
use dropwatch.Zscore.{ZScoreResult}
use dropwatch.Evaluator.{minute_bucket, change_percent}

-- `separator.join(parts)`
pub join : String → List String → String
join separator [] = ""
join separator (s ∷ []) = s
join separator (s ∷ t ∷ rest) = str_append s (str_append separator (join separator (t ∷ rest)))

abbrev pub concat : List String → String
concat = join ""

pub rule_type_name : RuleType → String
rule_type_name absolute_below = "absolute_below"
rule_type_name absolute_above = "absolute_above"
rule_type_name zscore_move = "zscore_move"
rule_type_name percent_change = "percent_change"
rule_type_name spread_widen = "spread_widen"
rule_type_name (other s) = s

pub direction_name : Direction → String
direction_name up = "up"
direction_name down = "down"
direction_name both = "both"
direction_name empty = ""
direction_name (unknown s) = s

-- `str(x) if x is not None else ""`
abbrev or_empty {ℓ} : {A : Type ℓ} → (A → String) → Option A → String
or_empty show none = ""
or_empty show (some a) = show a

-- An optional value in an f-string.
abbrev or_none {ℓ} : {A : Type ℓ} → (A → String) → Option A → String
or_none show none = "None"
or_none show (some a) = show a

abbrev or_default : String → Option Direction → String
or_default default none = default
or_default default (some empty) = default
or_default default (some d) = direction_name d

module _ (P : Platform) where
  open P use {
    Float, of_int, times, expm1, sha256, str_decimal, str_int, isoformat, signed3, signed2,
    signed3_decimal, fixed3_decimal,
  }

  -- `compute_detected_state_hash`
  unfoldable pub detected_state_hash : AlertRule → Decimal → ℕ → String
  unfolding join rule_type_name direction_name
  detected_state_hash r price observed_at = sha256 (
      join "|" (
        rule_type_name r.rule_type
        ∷ or_empty str_decimal r.threshold
        ∷ or_empty str_decimal r.percent
        ∷ or_empty str_int r.window_seconds
        ∷ or_empty str_decimal r.sigma
        ∷ or_default "" r.direction
        ∷ str_decimal price
        ∷ isoformat (minute_bucket observed_at)
        ∷ []))

  -- `compute_idempotency_key`
  unfoldable pub idempotency_key : (rule_id pair_id : ℕ) → String → String
  unfolding join
  idempotency_key rule_id pair_id hash =
      sha256 (join ":" (str_int rule_id ∷ str_int pair_id ∷ hash ∷ []))

  zscore_detail : AlertRule → Float → Bool → Option Float → Result String
  zscore_detail r percent true z = ok (
      concat (
        "flat-window fallback move of "
        ∷ signed3 percent
        ∷ "% (baseline window had zero variance)"
        ∷ []))
  zscore_detail r percent false none = err type_error
  zscore_detail r percent false (some z) = ok (
      concat (
        "z="
        ∷ signed2 z
        ∷ " (sigma threshold "
        ∷ or_none str_decimal r.sigma
        ∷ ", return "
        ∷ signed3 percent
        ∷ "%)"
        ∷ []))

  zscore_message : Pair → AlertRule → Decimal → String → Option (ZScoreResult Float) → Result String
  unfolding zscore_detail
  zscore_message pair r last_price timestamp none = err assertion_error
  zscore_message pair r last_price timestamp (some result) = do
    let percent = times (expm1 result.current_return) (of_int 100)
    detail ← zscore_detail r percent result.is_zero_variance result.z
    ok (
        concat (
          pair.display_name
          ∷ " z-score move: "
          ∷ detail
          ∷ " (observed "
          ∷ str_decimal last_price
          ∷ " at "
          ∷ timestamp
          ∷ ")"
          ∷ []))

  percent_message : Pair → AlertRule → Decimal → String → Option Decimal → Result String
  percent_message pair r last_price timestamp none = err assertion_error
  percent_message pair r last_price timestamp (some past) =
      if is_zero past
      then err zero_division
      else ok (
          concat (
            pair.display_name
            ∷ " moved "
            ∷ signed3_decimal (change_percent last_price past)
            ∷ "% over "
            ∷ or_none str_int r.window_seconds
            ∷ "s (threshold "
            ∷ or_none str_decimal r.percent
            ∷ "%, direction "
            ∷ or_default "both" r.direction
            ∷ "; "
            ∷ str_decimal past
            ∷ " -> "
            ∷ str_decimal last_price
            ∷ " at "
            ∷ timestamp
            ∷ ")"
            ∷ []))

  spread_message : Pair → AlertRule → Decimal → Decimal → String → Result String
  spread_message pair r bid ask timestamp =
      if is_zero bid
      then err zero_division
      else ok (
          concat (
            pair.display_name
            ∷ " spread widened to "
            ∷ fixed3_decimal (change_percent ask bid)
            ∷ "% (threshold "
            ∷ or_none str_decimal r.percent
            ∷ "%; bid="
            ∷ str_decimal bid
            ∷ " ask="
            ∷ str_decimal ask
            ∷ " at "
            ∷ timestamp
            ∷ ")"
            ∷ []))

  absolute_message : String → Pair → AlertRule → Decimal → String → Result String
  absolute_message direction_text pair r last_price timestamp = ok (
      concat (
        pair.display_name
        ∷ " "
        ∷ direction_text
        ∷ " "
        ∷ or_none str_decimal r.threshold
        ∷ " (observed "
        ∷ str_decimal last_price
        ∷ " at "
        ∷ timestamp
        ∷ ")"
        ∷ []))

  -- `_format_message`; the asserts and divisions that may raise come first in each branch.
  unfoldable pub format_message :
      RuleType
      → Pair
      → AlertRule
      → (last_price : Decimal) → (observed_at : ℕ) → Option (ZScoreResult Float)
      → (past_price : Option Decimal) → (bid_price ask_price : Decimal) → Result String
  unfolding join direction_name zscore_message percent_message spread_message absolute_message
  format_message zscore_move pair r last t result past bid ask =
      zscore_message pair r last (isoformat t) result
  format_message percent_change pair r last t result past bid ask =
      percent_message pair r last (isoformat t) past
  format_message spread_widen pair r last t result past bid ask =
      spread_message pair r bid ask (isoformat t)
  format_message absolute_below pair r last t result past bid ask =
      absolute_message "dropped below" pair r last (isoformat t)
  format_message _ pair r last t result past bid ask =
      absolute_message "rose above" pair r last (isoformat t)
