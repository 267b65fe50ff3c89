-- ===== src/Scheduler.antt =====
-- workers/scheduler.py: one tick of the scheduler.
pub mod Claims
pub mod Stops
use dropwatch.Base.{
  ℕ, suc, ◌+◌, ◌*◌, Bool, true, false, ◌&&◌, Option, none, some, List, [], ◌∷◌, ◌++◌, map, ◌==◌,
  leb, min, if◌then◌else◌, filter, length, Result, ok, err, queue_error, commit_error, ◌>>=◌,
}
use dropwatch.Settings.{Settings}
use dropwatch.Models.{Pair, Db}
use dropwatch.Platform.{Platform}

abbrev pub max_sqs_delay_seconds : ℕ
max_sqs_delay_seconds = 900

-- `last_checked_at is None or (now - last_checked_at).total_seconds() >= poll_interval_seconds`
abbrev pub interval_over : (now : ℕ) → Option ℕ → (interval : ℕ) → Bool
interval_over now none interval = true
interval_over now (some last) interval = leb (last + interval * 1000000) now

abbrev pub is_due : (now : ℕ) → Pair → Bool
is_due now p = p.is_active && interval_over now p.last_checked_at p.poll_interval_seconds

-- `get_due_pairs`
unfoldable pub get_due_pairs : (now : ℕ) → List Pair → List Pair
get_due_pairs now pairs = filter (is_due now) pairs

-- A message of the poll queue as it is sent: the pair in its body, and its delay.
pub record PollMessage : Type 0 where
  pub pair_id : ℕ
  pub delay_seconds : ℕ

-- The rows of `pairs` in the session, and the messages that the queue has taken.
pub record Tick : Type 0 where
  pub pairs : List Pair
  pub queue : List PollMessage

-- `pair.last_checked_at = claimed_at`
abbrev pub claim : (id claimed_at : ℕ) → Pair → Pair
claim id claimed_at p = if p.id == id then record p { last_checked_at = some claimed_at } else p

-- The message is in the queue and its pair is claimed.
abbrev pub sent : (claimed_at delay : ℕ) → Pair → Tick → Tick
sent claimed_at delay p t = record {
  pairs = map (claim p.id claimed_at) t.pairs;
  queue = t.queue ++ record { pair_id = p.id; delay_seconds = delay } ∷ [];
}

-- After the loop the claims are committed. A raise before that, or of the commit, leaves the rows as
-- they were, and the messages that were sent in the queue.
abbrev pub settle :
    (commits : Bool) → List Pair → (count : ℕ) → Result (Unit {0}) × Tick → Result ℕ × Tick
settle true before count (ok _, t) = (ok count, t)
settle false before count (ok _, t) = (err commit_error, record t { pairs = before })
settle commits before count (err e, t) = (err e, record t { pairs = before })

module _ (P : Platform) where
  open P use {of_int, times, divide, truncate}

  -- `_stagger_delay_seconds`
  unfoldable pub stagger_delay_seconds : (index total window_seconds : ℕ) → Result ℕ
  stagger_delay_seconds index total window_seconds = if leb total 1 then ok 0 else do
    step ← divide (of_int window_seconds) (of_int total)
    ok (min (truncate (times (of_int index) step)) max_sqs_delay_seconds)

  module _ (settings : Settings) (send : ℕ → Bool) (claimed_at total : ℕ) where
    abbrev pub delay_of : ℕ → Result ℕ
    delay_of index = stagger_delay_seconds index total settings.default_poll_interval_seconds

    -- The loop over the due pairs; `send` tells of each pair whether its message is accepted.
    unfoldable pub enqueue_from : ℕ → List Pair → Tick → Result (Unit {0}) × Tick
    enqueue_from index [] t = (ok tt, t)
    enqueue_from index (p ∷ ps) t = elim (delay_of index) [
      | err e ↦ (err e, t)
      | ok delay ↦
          let rest = enqueue_from (suc index) ps (sent claimed_at delay p t) in
          if send p.id then rest else (err queue_error, t)
    ]

  -- `enqueue_due_pairs` with its two readings of the clock.
  unfoldable pub enqueue_due_pairs :
      Settings
      → (send : ℕ → Bool) → (commits : Bool) → (now claimed_at : ℕ) → Tick
      → Result ℕ × Tick
  unfolding get_due_pairs
  enqueue_due_pairs settings send commits now claimed_at t =
      let due = get_due_pairs now t.pairs in
      if length due == 0
      then (ok 0, t)
      else settle commits t.pairs (length due)
          (enqueue_from settings send claimed_at (length due) 0 due t)
