-- ===== src/System/Refresh.antt =====
-- workers/rule_index.py, `_periodic_refresh`: what a refresh that the database answers gives.
use dropwatch.Base.{ℕ, true, ◌≡◌, refl}
use dropwatch.Settings.{Settings}
use dropwatch.Platform.{Platform}
use dropwatch.RuleIndex.{swap}
use dropwatch.RuleIndex.Freshness.{Rebuild, waiting, reading, loaded, read, finish, woken}
use dropwatch.Api.Validity.{AllValid, rebuild-ok}
use dropwatch.System.Steps.{World, by_refresh, current, refreshing, rules_read, rules_swapped}
use dropwatch.System.Matches.{MatchesTable, load-MatchesTable}

module _ (P : Platform) (settings : Settings) where
  -- The refresh goes through its rebuild, from where it stands, and the database answers.
  abbrev pub rebuilt : World → World
  rebuilt w = rules_swapped P settings by_refresh (rules_read P settings by_refresh true w)

  -- The refresh ends the rebuild that it is in, if any, sleeps, and makes another.
  abbrev pub refreshed : World → World
  refreshed w = rebuilt (refreshing P settings (rebuilt w))

  -- Where the rows of the rules are valid, a refresh that begins after the last one has ended, and that
  -- no other step interrupts, leaves in the index for every pair what the queries of the table give,
  -- read at the time of the refresh.
  pub refreshed-MatchesTable :
      (w : World)
      → AllValid w.db
      → (p : ℕ) → MatchesTable p w.db (refreshed w).index × ((refreshed w).index_read_at ≡ w.clock)
  unfolding refreshing rules_read rules_swapped read finish woken swap
  refreshed-MatchesTable w valid p = go w.refresh_rebuild
    where
      go :
          (r : Rebuild)
          → MatchesTable p w.db (refreshed (record w { refresh_rebuild = r })).index
            × ((refreshed (record w { refresh_rebuild = r })).index_read_at ≡ w.clock)
      go waiting =
          let (buckets, e, _) = rebuild-ok (current w) w.index valid in
          rw e (load-MatchesTable p true (current w) buckets e, refl)
      go reading =
          let (buckets, e, _) = rebuild-ok (current w) w.index valid in
          rw e (load-MatchesTable p true (current w) buckets e, refl)
      go (loaded read_at load) =
          let (buckets, e, _) = rebuild-ok (current w) w.index valid in
          rw e (load-MatchesTable p true (current w) buckets e, refl)
