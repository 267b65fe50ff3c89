-- ===== src/Api/Rules.antt =====
-- api/routes/rules.py: the handlers that create and change a rule.
use dropwatch.Base.{
  ℕ, ◌+◌, Bool, true, false, not, ◌||◌, Option, none, some, [], ◌∷◌, ◌++◌, map, ◌==◌, is_some,
  if◌then◌else◌, Result, ok, err, value_error, ◌>>=◌,
}
use dropwatch.Decimal.{Decimal}
use dropwatch.Models.{
  RuleType, absolute_below, absolute_above, zscore_move, percent_change, spread_widen, other,
  Direction, up, down, both, empty, unknown, AlertRule, Db, get_pair, get_user, get_rule,
}

-- What a handler answers: a value, or the status code of its `HTTPException`. `not_null` is the
-- `IntegrityError` of a NOT NULL column at the commit.
pub data Response (A : Type 0) : Type 0 where
  success : A → Response A
  not_found : Response A
  unprocessable : Response A
  not_null : Response A

-- `direction in DIRECTIONS`
abbrev pub is_direction : Direction → Bool
is_direction up = true
is_direction down = true
is_direction both = true
is_direction empty = false
is_direction (unknown _) = false

-- `direction is not None and direction not in DIRECTIONS`, negated.
abbrev pub direction_ok : Option Direction → Bool
direction_ok none = true
direction_ok (some d) = is_direction d

abbrev pub require : Bool → Result (Unit {0})
require true = ok tt
require false = err value_error

unfoldable pub validate_rule_fields :
    RuleType
    → (threshold percent : Option Decimal) (window_seconds : Option ℕ) (sigma : Option Decimal)
    → Option Direction
    → Result (Unit {0})
validate_rule_fields (other _) threshold percent window_seconds sigma direction = err value_error
validate_rule_fields absolute_below threshold percent window_seconds sigma direction =
    require (is_some threshold)
validate_rule_fields absolute_above threshold percent window_seconds sigma direction =
    require (is_some threshold)
validate_rule_fields zscore_move threshold percent window_seconds sigma direction =
    require (is_some sigma) >>= λ _. require (direction_ok direction)
validate_rule_fields percent_change threshold percent window_seconds sigma direction =
    require (is_some percent) >>= λ _.
    require (is_some window_seconds) >>= λ _. require (direction_ok direction)
validate_rule_fields spread_widen threshold percent window_seconds sigma direction =
    require (is_some percent)

abbrev pub validate_rule : AlertRule → Result (Unit {0})
validate_rule r =
    validate_rule_fields r.rule_type r.threshold r.percent r.window_seconds r.sigma r.direction

pub record CreateRuleRequest : Type 0 where
  pub user_id : ℕ
  pub pair_id : ℕ
  pub rule_type : RuleType
  pub threshold : Option Decimal
  pub percent : Option Decimal
  pub window_seconds : Option ℕ
  pub sigma : Option Decimal
  pub direction : Option Direction
  pub cooldown_seconds : ℕ
  pub is_enabled : Bool

-- A field of a partial update: absent, or given, and then perhaps null.
abbrev pub Patch : Type 0 → Type 0
Patch A = Option (Option A)

pub record UpdateRuleRequest : Type 0 where
  pub threshold : Patch Decimal
  pub percent : Patch Decimal
  pub window_seconds : Patch ℕ
  pub sigma : Patch Decimal
  pub direction : Patch Direction
  pub cooldown_seconds : Patch ℕ
  pub is_enabled : Patch Bool

-- The row with the server's defaults, under the id that the database gives.
abbrev pub rule_of : CreateRuleRequest → (id now : ℕ) → AlertRule
rule_of body id now = record {
  id = id;
  user_id = body.user_id;
  pair_id = body.pair_id;
  rule_type = body.rule_type;
  threshold = body.threshold;
  percent = body.percent;
  window_seconds = body.window_seconds;
  sigma = body.sigma;
  direction = body.direction;
  cooldown_seconds = body.cooldown_seconds;
  is_enabled = body.is_enabled;
  last_fired_at = none;
  created_at = now;
}

-- Whether the pair or the user of the request is not there.
abbrev pub unknown_reference : CreateRuleRequest → Db → Bool
unknown_reference body db =
    not (is_some (get_pair body.pair_id db.pairs)) || not (is_some (get_user body.user_id db.users))

-- The model validator of the request runs before the handler; its failure is answered with 422.
unfoldable pub create_rule : CreateRuleRequest → Db → Response AlertRule × Db
unfolding validate_rule_fields
create_rule body db =
    let rule = rule_of body db.next_id db.now in
    elim (validate_rule rule) [
      | err _ ↦ (unprocessable, db)
      | ok _ ↦ if unknown_reference body db then (not_found, db) else (
        success rule,
        record db { alert_rules = db.alert_rules ++ rule ∷ []; next_id = db.next_id + 1 },
      )
    ]

-- `setattr` for a field that is given.
abbrev pub set : {A : Type 0} → Patch A → Option A → Option A
set none old = old
set (some new) old = new

-- A field whose column is NOT NULL: `old` stands where the value is none, see `nulls`.
abbrev pub set_value : {A : Type 0} → Patch A → A → A
set_value none old = old
set_value (some none) old = old
set_value (some (some new)) old = new

abbrev pub is_null : {A : Type 0} → Patch A → Bool
is_null (some none) = true
is_null _ = false

-- Whether the update sets a column to null that is NOT NULL.
abbrev pub nulls : UpdateRuleRequest → Bool
nulls body = is_null body.cooldown_seconds || is_null body.is_enabled

abbrev pub patched : UpdateRuleRequest → AlertRule → AlertRule
patched body r = record r {
  threshold = set body.threshold r.threshold;
  percent = set body.percent r.percent;
  window_seconds = set body.window_seconds r.window_seconds;
  sigma = set body.sigma r.sigma;
  direction = set body.direction r.direction;
  cooldown_seconds = set_value body.cooldown_seconds r.cooldown_seconds;
  is_enabled = set_value body.is_enabled r.is_enabled;
}

abbrev pub store_rule : AlertRule → Db → Db
store_rule rule db = record db {
  alert_rules = map (λ x. if x.id == rule.id then rule else x) db.alert_rules;
}

-- A raise before the commit, or of it, leaves the rows as they were.
unfoldable pub update_rule : (rule_id : ℕ) → UpdateRuleRequest → Db → Response AlertRule × Db
unfolding validate_rule_fields
update_rule rule_id body db = elim (get_rule rule_id db.alert_rules) [
  | none ↦ (not_found, db)
  | some r ↦ elim (validate_rule (patched body r)) [
    | err _ ↦ (unprocessable, db)
    | ok _ ↦
        if nulls body
        then (not_null, db)
        else (success (patched body r), store_rule (patched body r) db)
  ]
]

-- `_publish_invalidation`: whether Redis raises, and how many subscribers there are, changes what
-- is logged only.
pub data Invalidation : Type 0 where
  failed no_subscriber delivered : Invalidation

unfoldable pub publish_invalidation : (subscribers : Option ℕ) → Invalidation
publish_invalidation none = failed
publish_invalidation (some count) = if count == 0 then no_subscriber else delivered
