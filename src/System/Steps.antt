-- ===== src/System/Steps.antt =====
-- workers/*.py and api/routes/*.py: the steps that the running program can take, in any order. A
-- transaction is one step, and a rebuild of the index is two, the load and the swap. What happens to a step from outside
-- (the queue, the provider, the clock, Redis, SNS, the requests) is an argument of it.
use dropwatch.Base.{ℕ, ◌+◌, ◌*◌, ◌≤◌, Bool, List, [], String, Result, ok, err}
use dropwatch.Settings.{Settings}
use dropwatch.Models.{Db}
use dropwatch.Platform.{Platform}
use dropwatch.RuleIndex.{RuleIndex, new_index, rebuild}
use dropwatch.RuleIndex.Freshness.{
  Listener, disconnected, Reply, Rebuild, waiting, reading, loaded, listen, woken, read, finish,
}
use dropwatch.Scheduler.{PollMessage, Tick, enqueue_due_pairs}
use dropwatch.Outbox.{Sns, publish_pending}
use dropwatch.Discovery.{MarketSnapshot, run_discovery}
use dropwatch.Poller.{Message, Surroundings, Worker, turn}
use dropwatch.Api.Pairs.{ResolvedPair, CreatePairRequest, create_pair}
use dropwatch.Api.Rules.{CreateRuleRequest, UpdateRuleRequest, create_rule, update_rule}

-- The database, the poller's index and its two tasks, and the messages sent and deleted. `clock` is
-- the time, and `refresh_at` is when the sleep of the periodic refresh ends. The program does not keep
-- the last two: `index_read_at` is when the rules in the index were read, and `written_at` the time of
-- the last request that wrote a rule.
pub record World : Type 0 where
  pub db : Db
  pub index : RuleIndex
  pub listener : Listener
  pub listener_rebuild : Rebuild
  pub refresh_rebuild : Rebuild
  pub sent : List PollMessage
  pub deleted : List Message
  pub clock : ℕ
  pub refresh_at : ℕ
  pub index_read_at : ℕ
  pub written_at : ℕ

-- The task that a step of a rebuild belongs to.
pub data Owner : Type 0 where
  by_listener by_refresh : Owner

-- The database as a transaction sees it that begins now.
abbrev pub current : World → Db
current w = record (w.db) { now = w.clock }

module _ (P : Platform) (settings : Settings) where
  abbrev pub after_batch : Worker → World → World
  after_batch v w = record w { db = v.db; index = v.index; deleted = v.deleted }

  -- A turn of the poller's loop.
  unfoldable pub polled : Surroundings → List Message → World → World
  unfolding turn
  polled around received w =
      after_batch
        (turn P settings around received
          (record { db = current w; index = w.index; deleted = w.deleted }))
        w

  abbrev pub after_tick : Tick → World → World
  after_tick t w = record w { db = record (current w) { pairs = t.pairs }; sent = t.queue }

  -- A tick of the scheduler.
  unfoldable pub scheduled :
      (send : ℕ → Bool) → (commits : Bool) → (now claimed_at : ℕ) → World → World
  unfolding enqueue_due_pairs
  scheduled send commits now claimed_at w =
      after_tick
        (enqueue_due_pairs P settings send commits now claimed_at
          (record { pairs = w.db.pairs; queue = w.sent })).1
        w

  -- A tick of the publisher.
  unfoldable pub published : (selected_at : ℕ) → Sns → (commits : Bool) → World → World
  unfolding publish_pending
  published selected_at sns commits w = record w {
    db = (publish_pending settings w.clock selected_at sns commits (current w)).1;
  }

  -- A run of the discovery.
  unfoldable pub discovered : List (String × MarketSnapshot) → World → World
  unfolding run_discovery
  discovered snapshot w = record w { db = run_discovery settings snapshot (current w) }

  -- The requests that write.
  unfoldable pub pair_created :
      (resolve_pair : String → Result ResolvedPair) → CreatePairRequest → World → World
  unfolding create_pair
  pair_created resolve_pair body w = record w { db = (create_pair resolve_pair body (current w)).1 }

  unfoldable pub rule_created : CreateRuleRequest → World → World
  unfolding create_rule
  rule_created body w = record w { db = (create_rule body (current w)).1; written_at = w.clock }

  unfoldable pub rule_updated : (rule_id : ℕ) → UpdateRuleRequest → World → World
  unfolding update_rule
  rule_updated rule_id body w = record w {
    db = (update_rule rule_id body (current w)).1;
    written_at = w.clock;
  }

  -- A call of Redis by the listener.
  unfoldable pub listened : Reply → World → World
  unfolding listen
  listened reply w =
      let (listener, rebuild) = listen reply w.listener w.listener_rebuild in
      record w { listener = listener; listener_rebuild = rebuild }

  -- The refresh wakes.
  unfoldable pub refreshing : World → World
  unfolding woken
  refreshing w = record w { refresh_rebuild = woken w.refresh_rebuild }

  -- The database takes up the query of a task's rebuild.
  unfoldable pub rules_read : Owner → (answers : Bool) → World → World
  unfolding read
  rules_read by_listener answers w = record w {
    listener_rebuild = read answers w.clock (current w) w.listener_rebuild;
  }
  rules_read by_refresh answers w = record w {
    refresh_rebuild = read answers w.clock (current w) w.refresh_rebuild;
  }

  -- When the buckets in place were read, after a rebuild has ended.
  abbrev pub read_at_after : Rebuild → (read_at : ℕ) → ℕ
  read_at_after (loaded read_at (ok _)) before = read_at
  read_at_after (loaded read_at (err _)) before = before
  read_at_after waiting before = before
  read_at_after reading before = before

  -- The refresh sleeps again after its rebuild.
  abbrev pub sleeps_until : Rebuild → World → ℕ
  sleeps_until (loaded _ _) w = w.clock + settings.rule_index_refresh_interval_seconds * 1000000
  sleeps_until waiting w = w.refresh_at
  sleeps_until reading w = w.refresh_at

  -- A task ends its rebuild.
  unfoldable pub rules_swapped : Owner → World → World
  unfolding finish
  rules_swapped by_listener w =
      let (rebuild, index) = finish w.listener_rebuild w.index in
      record w {
        index = index;
        listener_rebuild = rebuild;
        index_read_at = read_at_after w.listener_rebuild w.index_read_at;
      }
  rules_swapped by_refresh w =
      let (rebuild, index) = finish w.refresh_rebuild w.index in
      record w {
        index = index;
        refresh_rebuild = rebuild;
        index_read_at = read_at_after w.refresh_rebuild w.index_read_at;
        refresh_at = sleeps_until w.refresh_rebuild w;
      }

  -- The start of the poller: its tasks begin only once the first rebuild has returned.
  abbrev pub built : Db → List PollMessage → (clock : ℕ) → Result ℕ × RuleIndex → Result World
  built db sent clock (err e, index) = err e
  built db sent clock (ok count, index) = ok (record {
    db = db;
    index = index;
    listener = disconnected;
    listener_rebuild = waiting;
    refresh_rebuild = waiting;
    sent = sent;
    deleted = [];
    clock = clock;
    refresh_at = clock + settings.rule_index_refresh_interval_seconds * 1000000;
    index_read_at = clock;
    written_at = 0;
  })

  unfoldable pub boot : (answers : Bool) → Db → List PollMessage → (clock : ℕ) → Result World
  unfolding rebuild
  boot answers db sent clock = built db sent clock (rebuild answers db new_index)

  pub data Step (w : World) : World → Type 0 where
    poll : (around : Surroundings) (received : List Message) → Step w (polled around received w)
    schedule :
        (send : ℕ → Bool) (commits : Bool) (now claimed_at : ℕ)
        → Step w (scheduled send commits now claimed_at w)
    publish :
        (selected_at : ℕ) (sns : Sns) (commits : Bool)
        → Step w (published selected_at sns commits w)
    discover : (snapshot : List (String × MarketSnapshot)) → Step w (discovered snapshot w)
    add_pair :
        (resolve_pair : String → Result ResolvedPair) (body : CreatePairRequest)
        → Step w (pair_created resolve_pair body w)
    add_rule : (body : CreateRuleRequest) → Step w (rule_created body w)
    change_rule : (rule_id : ℕ) (body : UpdateRuleRequest) → Step w (rule_updated rule_id body w)
    hear : (reply : Reply) → Step w (listened reply w)
    wake : w.refresh_at ≤ w.clock → Step w (refreshing w)
    read_rules : (owner : Owner) (answers : Bool) → Step w (rules_read owner answers w)
    swap_rules : (owner : Owner) → Step w (rules_swapped owner w)
    pass : (time : ℕ) → Step w (record w { clock = w.clock + time })

  pub data Reach (v : World) : World → Type 0 where
    here : Reach v v
    next : {w u : World} → Reach v w → Step w u → Reach v u
