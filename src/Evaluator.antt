-- ===== src/Evaluator.antt =====
-- rules/evaluator.py: which rules an observation fires. The recording of the fires is in
-- Evaluator/Firing.antt, the whole evaluation in Evaluator/Evaluate.antt.
pub mod Text
pub mod Matching
pub mod Frame
pub mod Single
pub mod Consistency
pub mod Idempotency
pub mod Firing
pub mod Evaluate
use dropwatch.Base.{
  ℕ, ◌+◌, ◌*◌, ◌-◌, ◌%◌, Bool, true, false, ◌&&◌, Option, none, some, List, [], ◌∷◌, ◌==◌, ltb, leb,
  if◌then◌else◌, filter, take,
}
use mathlib.Core.List.{reverse}
use dropwatch.Base.Sorting.{sorted}
use dropwatch.Decimal.{
  Decimal, of_ℕ, ltb_dec, leb_dec, is_zero, neg_dec, abs_dec, sub_dec, mul_dec, div_dec,
}
use dropwatch.Models.{
  RuleType, absolute_below, absolute_above, Direction, up, down, both, empty, AlertRule,
  PriceHistory, Db,
}
use dropwatch.Platform.{Platform}
use dropwatch.Zscore.{ZScoreResult}

-- `rule_fires`, on the fields that it reads.
abbrev pub fires_at : RuleType → Option Decimal → Decimal → Bool
fires_at absolute_below (some threshold) price = ltb_dec price threshold
fires_at absolute_above (some threshold) price = ltb_dec threshold price
fires_at _ _ _ = false

unfoldable pub rule_fires : AlertRule → Decimal → Bool
rule_fires r price = fires_at r.rule_type r.threshold price

-- `rule.direction or "both"`: the empty string is false.
abbrev pub direction_or_both : Option Direction → Direction
direction_or_both none = both
direction_or_both (some empty) = both
direction_or_both (some d) = d

-- `(current - past) / past * 100`, for `past` other than zero.
unfoldable pub percent_of : Decimal → Decimal → Decimal
percent_of difference past = mul_dec (div_dec difference past) (of_ℕ 100)

unfoldable pub change_percent : Decimal → Decimal → Decimal
unfolding percent_of
change_percent current past = percent_of (sub_dec current past) past

abbrev pub moved : Direction → Decimal → Decimal → Bool
moved down change percent = leb_dec change (neg_dec percent)
moved up change percent = leb_dec percent change
moved _ change percent = leb_dec percent (abs_dec change)

abbrev pub percent_change_fires :
    Option Direction → Option Decimal → Decimal → Option Decimal → Bool
percent_change_fires direction none current past = false
percent_change_fires direction (some percent) current none = false
percent_change_fires direction (some percent) current (some past) =
    if is_zero past
    then false
    else moved (direction_or_both direction) (change_percent current past) percent

unfoldable pub percent_change_rule_fires : AlertRule → Decimal → Option Decimal → Bool
percent_change_rule_fires r current past = percent_change_fires r.direction r.percent current past

abbrev pub spread_fires : Option Decimal → Decimal → Decimal → Bool
spread_fires none bid ask = false
spread_fires (some percent) bid ask =
    if is_zero bid then false else leb_dec percent (change_percent ask bid)

unfoldable pub spread_widen_rule_fires : AlertRule → Decimal → Decimal → Bool
spread_widen_rule_fires r bid ask = spread_fires r.percent bid ask

-- `_in_cooldown`: the elapsed time is less than the cooldown, both in microseconds.
abbrev pub cooling : Option ℕ → ℕ → ℕ → Bool
cooling none cooldown_seconds observed_at = false
cooling (some last) cooldown_seconds observed_at =
    if cooldown_seconds == 0 then false else ltb observed_at (last + cooldown_seconds * 1000000)

unfoldable pub in_cooldown : AlertRule → ℕ → Bool
in_cooldown r observed_at = cooling r.last_fired_at r.cooldown_seconds observed_at

-- `_matching_absolute_rules`: the loop ends at the first rule that does not fire.
unfoldable pub matching_absolute_rules : List AlertRule → Decimal → List AlertRule
matching_absolute_rules [] price = []
matching_absolute_rules (r ∷ rs) price =
    let matched = r ∷ matching_absolute_rules rs price in if rule_fires r price then matched else []

-- `ORDER BY observed_at DESC`. The queries read the rows of the table `price_history`.
abbrev pub newest_first : PriceHistory → PriceHistory → Bool
newest_first a b = leb b.observed_at a.observed_at

abbrev pub first_price : List PriceHistory → Option Decimal
first_price [] = none
first_price (row ∷ _) = some row.last_price

-- `_fetch_price_at_or_before` for the cutoff `window` seconds before `observed_at`; the row's side
-- of the comparison has the window added instead of the cutoff subtracted.
unfoldable pub fetch_price_at_or_before :
    List PriceHistory → (pair_id observed_at window : ℕ) → Option Decimal
fetch_price_at_or_before price_history pair_id observed_at window = first_price (
    sorted newest_first (
      filter (λ h. h.pair_id == pair_id && leb (h.observed_at + window * 1000000) observed_at)
        price_history))

abbrev pub last_prices : List PriceHistory → List Decimal
last_prices [] = []
last_prices (row ∷ rows) = row.last_price ∷ last_prices rows

unfoldable pub fetch_recent_prices : List PriceHistory → (pair_id limit : ℕ) → List Decimal
fetch_recent_prices price_history pair_id limit = reverse (
    last_prices
      (take limit (sorted newest_first (filter (λ h. h.pair_id == pair_id) price_history))))

-- The minute bucket: the time with its seconds and microseconds taken off.
unfoldable pub minute_bucket : ℕ → ℕ
minute_bucket t = t - t % 60000000

module _ (P : Platform) where
  open P use {Float, of_decimal, of_int, times, negate, abs, expm1, at_most, less}

  abbrev flat_moved : Direction → Float → Bool
  flat_moved down r = less r (of_int 0)
  flat_moved up r = less (of_int 0) r
  flat_moved _ r = true

  abbrev scored : Direction → Float → Float → Bool
  scored down z sigma = at_most z (negate sigma)
  scored up z sigma = at_most sigma z
  scored _ z sigma = at_most sigma (abs z)

  abbrev scored_option : Direction → Option Float → Float → Bool
  scored_option direction none sigma = false
  scored_option direction (some z) sigma = scored direction z sigma

  -- The branches of `zscore_rule_fires` under both guards. `compute_zscore` gives a `z` wherever the
  -- variance is not zero, so the case of none there does not arise.
  abbrev zscore_fires : Direction → Decimal → ZScoreResult Float → Decimal → Bool
  zscore_fires direction sigma result min_percent =
      if result.is_zero_variance
      then (if less (times (abs (expm1 result.current_return)) (of_int 100))
            (of_decimal min_percent)
          then false
          else flat_moved direction result.current_return)
      else scored_option direction result.z (of_decimal sigma)

  abbrev zscore_guarded :
      Option Direction → Option Decimal → Option (ZScoreResult Float) → Decimal → Bool
  zscore_guarded direction sigma none min_percent = false
  zscore_guarded direction none (some result) min_percent = false
  zscore_guarded direction (some sigma) (some result) min_percent =
      zscore_fires (direction_or_both direction) sigma result min_percent

  unfoldable pub zscore_rule_fires : AlertRule → Option (ZScoreResult Float) → Decimal → Bool
  zscore_rule_fires r result min_percent = zscore_guarded r.direction r.sigma result min_percent
