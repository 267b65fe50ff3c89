-- ===== src/System/Loads.antt =====
-- workers/rule_index.py: the loads of rebuilds that have not ended, against the table as it changes.
use dropwatch.Base.{ℕ, ◌+◌, ◌≤◌, ◌<◌, Bool, map, ◌≡◌, refl, arith, inl, inr, ok, err, Result-cases}
use dropwatch.Models.{Db}
use dropwatch.RuleIndex.{load_buckets_from_db}
use dropwatch.RuleIndex.Freshness.{
  Listener, disconnected, listening, Reply, failed, idle, answered, Rebuild, waiting, reading,
  loaded, listen, woken, read,
}
use dropwatch.Evaluator.Frame.{undated}
use dropwatch.System.Matches.{MatchesTable, MatchesTable-steady, load-MatchesTable}

-- What a load in a task's hands says of the table `db` at the time `clock`: it was read before, and
-- if since the last write of a rule, it matches.
abbrev pub IsFresh : (p : ℕ) → Db → (clock written_at : ℕ) → Rebuild → Type 0
IsFresh p db clock written_at (loaded read_at (ok buckets)) =
    (read_at ≤ clock) × (written_at < read_at → MatchesTable p db (record { buckets = buckets }))
IsFresh p db clock written_at (loaded read_at (err e)) = Unit
IsFresh p db clock written_at waiting = Unit
IsFresh p db clock written_at reading = Unit

pub IsFresh-steady :
    (p : ℕ) (a b : Db) (clock written_at : ℕ) (r : Rebuild)
    → map undated b.alert_rules ≡ map undated a.alert_rules
    → IsFresh p a clock written_at r
    → IsFresh p b clock written_at r
IsFresh-steady p a b clock written_at (loaded read_at (ok buckets)) rules (past, matches) = (
  past,
  λ late.
      MatchesTable-steady p a b (record { buckets = buckets }) (record { buckets = buckets }) rules
        refl (matches late),
)
IsFresh-steady p a b clock written_at (loaded read_at (err e)) rules h = tt
IsFresh-steady p a b clock written_at waiting rules h = tt
IsFresh-steady p a b clock written_at reading rules h = tt

pub IsFresh-later :
    (p : ℕ) (db : Db) (clock time written_at : ℕ) (r : Rebuild)
    → IsFresh p db clock written_at r
    → IsFresh p db (clock + time) written_at r
IsFresh-later p db clock time written_at (loaded read_at (ok buckets)) (past, matches) =
    (omega arith, matches)
IsFresh-later p db clock time written_at (loaded read_at (err e)) h = tt
IsFresh-later p db clock time written_at waiting h = tt
IsFresh-later p db clock time written_at reading h = tt

-- After a write nothing is promised of the loads that were read before it.
pub IsFresh-written :
    (p : ℕ) (a b : Db) (clock written_at : ℕ) (r : Rebuild)
    → IsFresh p a clock written_at r
    → IsFresh p b clock clock r
IsFresh-written p a b clock written_at (loaded read_at (ok buckets)) (past, _) =
    (past, λ late. absurd (omega arith))
IsFresh-written p a b clock written_at (loaded read_at (err e)) h = tt
IsFresh-written p a b clock written_at waiting h = tt
IsFresh-written p a b clock written_at reading h = tt

pub IsFresh-listen :
    (p : ℕ) (db : Db) (clock written_at : ℕ) (reply : Reply) (l : Listener) (r : Rebuild)
    → IsFresh p db clock written_at r
    → IsFresh p db clock written_at (listen reply l r).1
unfolding listen
IsFresh-listen p db clock written_at failed l waiting h = tt
IsFresh-listen p db clock written_at idle l waiting h = tt
IsFresh-listen p db clock written_at answered disconnected waiting h = tt
IsFresh-listen p db clock written_at answered listening waiting h = tt
IsFresh-listen p db clock written_at reply l reading h = h
IsFresh-listen p db clock written_at reply l (loaded read_at load) h = h

pub IsFresh-woken :
    (p : ℕ) (db : Db) (clock written_at : ℕ) (r : Rebuild)
    → IsFresh p db clock written_at r
    → IsFresh p db clock written_at (woken r)
unfolding woken
IsFresh-woken p db clock written_at waiting h = tt
IsFresh-woken p db clock written_at reading h = tt
IsFresh-woken p db clock written_at (loaded read_at load) h = h

pub IsFresh-read :
    (p : ℕ) (db : Db) (clock written_at : ℕ) (answers : Bool) (r : Rebuild)
    → IsFresh p db clock written_at r
    → IsFresh p db clock written_at (read answers clock (record db { now = clock }) r)
unfolding read
IsFresh-read p db clock written_at answers waiting h = tt
IsFresh-read p db clock written_at answers (loaded read_at load) h = h
IsFresh-read p db clock written_at answers reading h =
    elim (Result-cases (load_buckets_from_db answers (record db { now = clock }))) [
      | inr (e, fails) ↦ rw fails tt
      | inl (buckets, e) ↦
          rw e (omega arith, λ _. load-MatchesTable p answers (record db { now = clock }) buckets e)
    ]
