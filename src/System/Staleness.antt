-- ===== src/System/Staleness.antt =====
-- workers/poller.py, `main`, and workers/rule_index.py: how far the index of a running worker may be
-- behind the table of rules.
use mathlib.Core.Path.{subst}
use dropwatch.Base.{
  ℕ, ◌≤◌, ◌<◌, Bool, List, map, ◌≡◌, refl, sym, ap, arith, inl, inr, ok, err, ok-injective,
  Result-cases,
}
use dropwatch.Settings.{Settings}
use dropwatch.Models.{Db}
use dropwatch.Platform.{Platform}
use dropwatch.RuleIndex.{RuleIndex, load_buckets_from_db, swap}
use dropwatch.RuleIndex.Freshness.{Rebuild, waiting, reading, loaded, finish}
use dropwatch.Scheduler.{PollMessage}
use dropwatch.Evaluator.Frame.{undated, undated_buckets}
use dropwatch.Poller.{Worker, turn}
use dropwatch.System.Steps.{
  World, by_listener, by_refresh, current, Step, poll, schedule, publish, discover, add_pair,
  add_rule, change_rule, hear, wake, read_rules, swap_rules, pass, Reach, here, next, polled,
  scheduled, published, discovered, pair_created, rule_created, rule_updated, listened, refreshing,
  rules_read, rules_swapped, read_at_after, boot,
}
use dropwatch.System.Rows.{run_discovery-Spares, create_pair-Spares, publish_pending-rules}
use dropwatch.System.Batches.{turn-Steady}
use dropwatch.System.Matches.{MatchesTable, MatchesTable-steady, load-MatchesTable}
use dropwatch.System.Loads.{
  IsFresh, IsFresh-steady, IsFresh-later, IsFresh-written, IsFresh-listen, IsFresh-woken,
  IsFresh-read,
}

-- What holds of the index in the place of the load of a rebuild that has ended.
record IsPlaced (p : ℕ) (w : World) : Type 0 where
  pub past : w.index_read_at ≤ w.clock
  pub fresh : w.written_at < w.index_read_at → MatchesTable p w.db w.index

-- The index and both tasks' loads match the table unless a rule was written since they were read.
record IsTimely (p : ℕ) (w : World) : Type 0 where
  pub index : IsPlaced p w
  pub by_listener : IsFresh p w.db w.clock w.written_at w.listener_rebuild
  pub by_refresh : IsFresh p w.db w.clock w.written_at w.refresh_rebuild

module _ (P : Platform) (settings : Settings) (p : ℕ) where
  -- The world, with what a finished rebuild leaves of its index.
  abbrev finished : Rebuild → World → World
  finished r w = record w {
    index = (finish r w.index).1;
    index_read_at = read_at_after P settings r w.index_read_at;
  }

  finish-IsPlaced :
      (w : World) (r : Rebuild)
      → IsFresh p w.db w.clock w.written_at r
      → IsPlaced p w
      → IsPlaced p (finished r w)
  unfolding finish swap
  finish-IsPlaced w waiting h t = record { past = t.past; fresh = t.fresh }
  finish-IsPlaced w reading h t = record { past = t.past; fresh = t.fresh }
  finish-IsPlaced w (loaded read_at (err e)) h t = record { past = t.past; fresh = t.fresh }
  finish-IsPlaced w (loaded read_at (ok buckets)) (past, matches) t = record {
    past = past;
    fresh = matches;
  }

  finish-IsFresh :
      (w : World) (r : Rebuild) → IsFresh p w.db w.clock w.written_at (finish r w.index).0
  unfolding finish
  finish-IsFresh w waiting = tt
  finish-IsFresh w reading = tt
  finish-IsFresh w (loaded read_at load) = tt

  -- A transaction that writes no rule.
  steady :
      (w : World) (db : Db) (index : RuleIndex)
      → map undated db.alert_rules ≡ map undated w.db.alert_rules
      → undated_buckets index.buckets ≡ undated_buckets w.index.buckets
      → IsTimely p w
      → IsTimely p (record w { db = db; index = index })
  steady w db index rules same t = record {
    index = record {
      past = t.index.past;
      fresh = λ late. MatchesTable-steady p w.db db w.index index rules same (t.index.fresh late);
    };
    by_listener =
        IsFresh-steady p w.db db w.clock w.written_at w.listener_rebuild rules t.by_listener;
    by_refresh = IsFresh-steady p w.db db w.clock w.written_at w.refresh_rebuild rules t.by_refresh;
  }

  -- A request that may write a rule.
  written :
      (w : World) (db : Db) → IsTimely p w → IsTimely p (record w { db = db; written_at = w.clock })
  written w db t = record {
    index = record { past = t.index.past; fresh = λ late. absurd (omega (arith, t.index.past)) };
    by_listener = IsFresh-written p w.db db w.clock w.written_at w.listener_rebuild t.by_listener;
    by_refresh = IsFresh-written p w.db db w.clock w.written_at w.refresh_rebuild t.by_refresh;
  }

  -- The relation does not speak of the other fields.
  retimed :
      (w u : World)
      → u ≡ record w { sent = u.sent; deleted = u.deleted; refresh_at = u.refresh_at }
      → IsTimely p w
      → IsTimely p u
  retimed w u e t = subst (IsTimely p) (sym e) (record {
    index = record { past = t.index.past; fresh = t.index.fresh };
    by_listener = t.by_listener;
    by_refresh = t.by_refresh;
  })

  Step-IsTimely : {w u : World} → Step P settings w u → IsTimely p w → IsTimely p u
  unfolding polled scheduled published discovered pair_created rule_created rule_updated listened
      refreshing rules_read rules_swapped
  Step-IsTimely {w} (poll around received) t =
      let v : Worker = record { db = current w; index = w.index; deleted = w.deleted } in
      let h = turn-Steady P settings around received v in
      let out = turn P settings around received v in
      retimed (record w { db = out.db; index = out.index }) _ refl
        (steady w out.db out.index h.rules h.index t)
  Step-IsTimely {w} (schedule send commits now claimed_at) t =
      let u = scheduled P settings send commits now claimed_at w in
      retimed (record w { db = u.db }) u refl (steady w u.db w.index refl refl t)
  Step-IsTimely {w} (publish selected_at sns commits) t =
      steady w (published P settings selected_at sns commits w).db w.index
        (ap (map undated)
          (publish_pending-rules settings w.clock selected_at sns commits (current w)))
        refl t
  Step-IsTimely {w} (discover snapshot) t =
      steady w (discovered P settings snapshot w).db w.index
        (ap (map undated) (run_discovery-Spares settings snapshot (current w)).1) refl t
  Step-IsTimely {w} (add_pair resolve_pair body) t =
      steady w (pair_created P settings resolve_pair body w).db w.index
        (ap (map undated) (create_pair-Spares resolve_pair body (current w)).1) refl t
  Step-IsTimely {w} (add_rule body) t = written w (rule_created P settings body w).db t
  Step-IsTimely {w} (change_rule rule_id body) t =
      written w (rule_updated P settings rule_id body w).db t
  Step-IsTimely {w} (hear reply) t = record {
    index = record { past = t.index.past; fresh = t.index.fresh };
    by_listener =
        IsFresh-listen p w.db w.clock w.written_at reply w.listener w.listener_rebuild
          t.by_listener;
    by_refresh = t.by_refresh;
  }
  Step-IsTimely {w} (wake over) t = record {
    index = record { past = t.index.past; fresh = t.index.fresh };
    by_listener = t.by_listener;
    by_refresh = IsFresh-woken p w.db w.clock w.written_at w.refresh_rebuild t.by_refresh;
  }
  Step-IsTimely {w} (read_rules by_listener answers) t = record {
    index = record { past = t.index.past; fresh = t.index.fresh };
    by_listener = IsFresh-read p w.db w.clock w.written_at answers w.listener_rebuild t.by_listener;
    by_refresh = t.by_refresh;
  }
  Step-IsTimely {w} (read_rules by_refresh answers) t = record {
    index = record { past = t.index.past; fresh = t.index.fresh };
    by_listener = t.by_listener;
    by_refresh = IsFresh-read p w.db w.clock w.written_at answers w.refresh_rebuild t.by_refresh;
  }
  Step-IsTimely {w} (swap_rules by_listener) t =
      let placed = finish-IsPlaced w w.listener_rebuild t.by_listener t.index in
      record {
        index = record { past = placed.past; fresh = placed.fresh };
        by_listener = finish-IsFresh w w.listener_rebuild;
        by_refresh = t.by_refresh;
      }
  Step-IsTimely {w} (swap_rules by_refresh) t =
      let placed = finish-IsPlaced w w.refresh_rebuild t.by_refresh t.index in
      record {
        index = record { past = placed.past; fresh = placed.fresh };
        by_listener = t.by_listener;
        by_refresh = finish-IsFresh w w.refresh_rebuild;
      }
  Step-IsTimely {w} (pass time) t = record {
    index = record { past = omega (arith, t.index.past); fresh = t.index.fresh };
    by_listener = IsFresh-later p w.db w.clock time w.written_at w.listener_rebuild t.by_listener;
    by_refresh = IsFresh-later p w.db w.clock time w.written_at w.refresh_rebuild t.by_refresh;
  }

  Reach-IsTimely : {v w : World} → IsTimely p v → Reach P settings v w → IsTimely p w
  Reach-IsTimely t here = t
  Reach-IsTimely t (next r step) = Step-IsTimely step (Reach-IsTimely t r)

boot-IsTimely :
    (P : Platform) (settings : Settings) (answers : Bool) (db : Db) (sent : List PollMessage)
    (clock : ℕ) {v : World} (p : ℕ)
    → boot P settings answers db sent clock ≡ ok v
    → IsTimely p v
unfolding boot swap
boot-IsTimely P settings answers db sent clock p started =
    elim (Result-cases (load_buckets_from_db answers db)) [
      | inr (e, fails) ↦ absurd (cc (rw (fails, boot) at started))
      | inl (buckets, e) ↦ subst (IsTimely p) (ok-injective (rw (e, boot) at started)) (record {
        index = record {
          past = omega arith;
          fresh = λ _. load-MatchesTable p answers db buckets e;
        };
        by_listener = tt;
        by_refresh = tt;
      })
    ]

-- Of a poller that has started, whatever steps the program then takes, in whatever order: the
-- listener's and the refresh's rebuilds may overlap, their loads may fail, and the database may change
-- between a load and its swap. Whenever the rules in the index were read after the last request that
-- wrote a rule, the index holds for every pair what the queries of the table give, but for when the
-- rules fired.
pub Reach-MatchesTable :
    (P : Platform) (settings : Settings) (answers : Bool) (db : Db) (sent : List PollMessage)
    (clock : ℕ) {v w : World}
    → boot P settings answers db sent clock ≡ ok v
    → Reach P settings v w
    → w.written_at < w.index_read_at
    → (p : ℕ) → MatchesTable p w.db w.index
Reach-MatchesTable P settings answers db sent clock started reach late p =
    (Reach-IsTimely P settings p (boot-IsTimely P settings answers db sent clock p started)
        reach).index.fresh
      late
