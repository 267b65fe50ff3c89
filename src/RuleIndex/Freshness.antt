-- ===== src/RuleIndex/Freshness.antt =====
-- workers/rule_index.py: `_listen_for_invalidations` and `_periodic_refresh`, the two tasks that
-- rebuild the index of a running worker. Each awaits in the middle of its rebuild, between the load of
-- the rules and the swap of the buckets, so the other task may run there.
use dropwatch.Base.{ℕ, ◌+◌, Bool, Result}
use dropwatch.Models.{Db}
use dropwatch.RuleIndex.{RuleIndex, Buckets, load_buckets_from_db, swap}

abbrev pub get_message_timeout_seconds : ℕ
get_message_timeout_seconds = 10

abbrev pub reconnect_backoff_seconds : ℕ
reconnect_backoff_seconds = 10

-- Where the listener stands: before `subscribe`, or in the inner loop.
pub data Listener : Type 0 where
  disconnected listening : Listener

-- What Redis does to the listener's call: `subscribe` or `get_message` raises, `get_message` gives
-- None, or there is an answer.
pub data Reply : Type 0 where
  failed idle answered : Reply

-- Where a task stands in `try: await index.rebuild() except Exception: …`: outside of it, before the
-- database has answered, or with what the load gave, which it read at `read_at`.
pub data Rebuild : Type 0 where
  waiting reading : Rebuild
  loaded : (read_at : ℕ) (load : Result Buckets) → Rebuild

-- The database takes up the query of a rebuild.
unfoldable pub read : (answers : Bool) → (now : ℕ) → Db → Rebuild → Rebuild
unfolding load_buckets_from_db
read answers now db waiting = waiting
read answers now db reading = loaded now (load_buckets_from_db answers db)
read answers now db (loaded read_at load) = loaded read_at load

-- The rest of the rebuild: a load that raised is logged and the index kept.
unfoldable pub finish : Rebuild → RuleIndex → Rebuild × RuleIndex
unfolding swap
finish waiting index = (waiting, index)
finish reading index = (reading, index)
finish (loaded read_at load) index = (waiting, (swap load index).1)

-- One call of Redis by the listener, with what follows on it. In a rebuild the listener makes no call.
unfoldable pub listen : Reply → Listener → Rebuild → Listener × Rebuild
listen failed listener waiting = (disconnected, waiting)
listen idle listener waiting = (listening, waiting)
listen answered disconnected waiting = (listening, waiting)
listen answered listening waiting = (listening, reading)
listen reply listener reading = (listener, reading)
listen reply listener (loaded read_at load) = (listener, loaded read_at load)

-- The longest time, in seconds, that passes in such a turn besides the rebuild.
abbrev pub longest_pause : Listener → Reply → ℕ
longest_pause disconnected failed = reconnect_backoff_seconds
longest_pause listening failed = get_message_timeout_seconds + reconnect_backoff_seconds
longest_pause disconnected idle = 0
longest_pause disconnected answered = 0
longest_pause listening idle = get_message_timeout_seconds
longest_pause listening answered = get_message_timeout_seconds

-- `asyncio.sleep` of the refresh is over.
unfoldable pub woken : Rebuild → Rebuild
woken waiting = reading
woken reading = reading
woken (loaded read_at load) = loaded read_at load
