-- ===== src/Examples/Running.antt =====
-- The running program on the small database.
use dropwatch.Base.{◌<◌, true, false, none, some, [], Result, ok, err, ◌≡◌, refl, arith}
use dropwatch.Settings.{default_settings}
use dropwatch.RuleIndex.{new_index}
use dropwatch.RuleIndex.Freshness.{disconnected, answered, waiting}
use dropwatch.Evaluator.Consistency.{IsConsistent}
use dropwatch.Api.Rules.{UpdateRuleRequest}
use dropwatch.Api.Validity.{AllValid}
use dropwatch.System.Steps.{
  World, by_listener, by_refresh, boot, poll, change_rule, wake, read_rules, swap_rules, pass,
  Reach, here, next, polled, listened, refreshing, rules_read, rules_swapped, rule_updated,
}
use dropwatch.System.Soundness.{IsSound, Reach-IsSound}
use dropwatch.System.Matches.{MatchesTable}
use dropwatch.System.Staleness.{Reach-MatchesTable}
use dropwatch.Examples.Fixtures.{test_platform, small_db}
use dropwatch.Examples.Polling.{surroundings, batch}

small_db-IsConsistent : IsConsistent small_db
small_db-IsConsistent = record { keys = tt; ids = tt; event_ids = tt; matched = tt }

small_db-AllValid : AllValid small_db
unfolding dropwatch.Api.Rules.validate_rule_fields
small_db-AllValid = (refl, (refl, (refl, tt)))

abbrev world_of : Result World → World
world_of (ok w) = w
world_of (err _) = record {
  db = small_db;
  index = new_index;
  listener = disconnected;
  sent = [];
  deleted = [];
  listener_rebuild = waiting;
  refresh_rebuild = waiting;
  clock = 0;
  refresh_at = 0;
  index_read_at = 0;
  written_at = 0;
}

abbrev start : World
unfolding boot
start = world_of (boot test_platform default_settings true small_db [] 0)

start-IsSound : IsSound start
unfolding start
start-IsSound = record { consistent = small_db-IsConsistent; valid = small_db-AllValid }

abbrev disable : UpdateRuleRequest
disable = record {
  threshold = none;
  percent = none;
  window_seconds = none;
  sigma = none;
  direction = none;
  cooldown_seconds = none;
  is_enabled = some (some false);
}

abbrev after_writes : World
after_writes =
    rule_updated test_platform default_settings 4 disable
      (polled test_platform default_settings (surroundings true) batch start)

writes : Reach test_platform default_settings start after_writes
writes = next (next here (poll (surroundings true) batch)) (change_rule 4 disable)

Reach-IsSound_example : IsSound after_writes
Reach-IsSound_example = Reach-IsSound test_platform default_settings start-IsSound writes

abbrev refresh_due : World
refresh_due = record (rule_updated test_platform default_settings 4 disable start) {
  clock = 300000000;
}

abbrev refreshed : World
refreshed = rules_swapped test_platform default_settings by_refresh (
    rules_read test_platform default_settings by_refresh true
      (refreshing test_platform default_settings refresh_due))

abbrev later : World
later = polled test_platform default_settings (surroundings true) batch refreshed

-- No invalidation is heard; the refresh takes the disabled rule out of the index, and then the poller
-- takes a batch.
waited : Reach test_platform default_settings start later
unfolding start polled refreshing rules_read rules_swapped rule_updated
waited =
    next
      (next
        (next
          (next (next (next here (change_rule 4 disable)) (pass 300000000)) (wake (omega arith)))
          (read_rules by_refresh true))
        (swap_rules by_refresh))
      (poll (surroundings true) batch)

since_write : later.written_at < later.index_read_at
unfolding boot start polled refreshing rules_read rules_swapped rule_updated
since_write = omega arith

Reach-MatchesTable_example : MatchesTable 1 later.db later.index
unfolding boot
Reach-MatchesTable_example =
    Reach-MatchesTable test_platform default_settings true small_db [] 0 refl waited since_write 1

-- The listener reads the rules before a rule is disabled, and swaps after the refresh has: the index
-- holds the rules of the start again, the disabled one among them.
abbrev overtaken : World
overtaken =
    let heard = listened test_platform default_settings answered start in
    let asked = listened test_platform default_settings answered heard in
    let held = rules_read test_platform default_settings by_listener true asked in
    let changed = rule_updated test_platform default_settings 4 disable held in
    let over = refreshing test_platform default_settings (record changed { clock = 300000000 }) in
    let both = rules_read test_platform default_settings by_refresh true over in
    rules_swapped test_platform default_settings by_listener
      (rules_swapped test_platform default_settings by_refresh both)

older_rules : (overtaken.index ≡ start.index) × (overtaken.index_read_at ≡ overtaken.written_at)
unfolding start listened refreshing rules_read rules_swapped rule_updated
    dropwatch.RuleIndex.Freshness.finish dropwatch.RuleIndex.Freshness.read
    dropwatch.RuleIndex.Freshness.woken dropwatch.RuleIndex.Freshness.listen
older_rules = (refl, refl)
