-- ===== src/Poller.antt =====
-- workers/poller.py: one batch of poll messages. `Quote` is that of providers/base.py.
pub mod Recorded
pub mod Commit
use text.Mathlib.Text.{◌==◌ as str_eq}
use dropwatch.Base.{
  ℕ, ◌+◌, Bool, true, false, Option, none, some, List, [], ◌∷◌, ◌++◌, map, String, ◌==◌, is_some,
  if◌then◌else◌, Result, ok, err, key_error, value_error, commit_error, queue_error, ◌>>=◌,
}
use dropwatch.Base.Dicts.{put_id, put_name, lookup_name}
use dropwatch.Decimal.{Decimal}
use dropwatch.Settings.{Settings}
use dropwatch.Models.{Pair, PriceHistory, Notification, Db, get_pair}
use dropwatch.Platform.{Platform}
use dropwatch.RuleIndex.{RuleIndex}
use dropwatch.Session.{Session, Exec, and_then}
use dropwatch.Evaluator.Evaluate.{evaluate_rules_for_pair}

pub record Quote : Type 0 where
  pub canonical_name : String
  pub last : Decimal
  pub bid : Decimal
  pub ask : Decimal
  pub volume_24h : Decimal

-- A message as the queue hands it out.
pub record Message : Type 0 where
  pub message_id : String
  pub receipt_handle : String
  pub body : String

-- What the batch takes from outside: `UUID(json.loads(body)["pair_id"])`, the provider, the clock,
-- the keys that another transaction commits meanwhile, and whether the commit and the deletion
-- succeed.
pub record Surroundings : Type 0 where
  pub read_pair_id : String → Result ℕ
  pub get_quotes : List String → Result (List (String × Quote))
  pub observed_at : ℕ
  pub race : String → Bool
  pub commits : Bool
  pub deletes : Bool

-- The committed rows, the index of the process, and the messages whose deletion the queue accepted.
pub record Worker : Type 0 where
  pub db : Db
  pub index : RuleIndex
  pub deleted : List Message

-- `KeyError` and `ValueError` are caught (a `JSONDecodeError` is a `ValueError`); others are not.
abbrev pub caught : Result ℕ → Result (Option ℕ)
caught (ok k) = ok (some k)
caught (err key_error) = ok none
caught (err value_error) = ok none
caught (err e) = err e

abbrev pub ById : Type 0
ById = List (ℕ × Message)

abbrev pub Targets : Type 0
Targets = List (String × (Message × Pair))

abbrev pub is_empty : {A : Type 0} → List A → Bool
is_empty [] = true
is_empty (_ ∷ _) = false

abbrev pub noted : Option ℕ → Message → ById → ById
noted none m by_pair_id = by_pair_id
noted (some k) m by_pair_id = put_id k m by_pair_id

-- The messages of the pairs that are gone.
unfoldable pub dropped : ById → List Pair → List Message
dropped [] pairs = []
dropped ((k, m) ∷ rest) pairs =
    if is_some (get_pair k pairs) then dropped rest pairs else m ∷ dropped rest pairs

abbrev pub add_target : Option Pair → Message → Targets → Targets
add_target none m targets = targets
add_target (some p) m targets = put_name p.kraken_pair_name (m, p) targets

-- `message_by_canonical` and `pair_by_canonical`, which have the same keys.
unfoldable pub targets_of : ById → List Pair → Targets → Targets
unfolding put_name
targets_of [] pairs targets = targets
targets_of ((k, m) ∷ rest) pairs targets =
    targets_of rest pairs (add_target (get_pair k pairs) m targets)

abbrev pub new_row : (observed_at : ℕ) → Pair → Quote → Db → PriceHistory
new_row observed_at p q db = record {
  id = db.next_id;
  pair_id = p.id;
  last_price = q.last;
  bid_price = q.bid;
  ask_price = q.ask;
  volume_24h = some q.volume_24h;
  observed_at = observed_at;
}

-- The changes to the pair's row.
abbrev pub checked : (observed_at : ℕ) → Quote → Pair → Pair
checked observed_at q p = record p {
  current_last_price = some q.last;
  current_bid_price = some q.bid;
  current_ask_price = some q.ask;
  last_checked_at = some observed_at;
}

-- The writes of one observation before its evaluation.
unfoldable pub record_price : (observed_at : ℕ) → Pair → Quote → Session → Session
record_price observed_at p q s = record s {
  db = record (s.db) {
    price_history = s.db.price_history ++ new_row observed_at p q s.db ∷ [];
    pairs = map (λ x. if x.id == p.id then checked observed_at q x else x) s.db.pairs;
    next_id = s.db.next_id + 1;
  };
}

module _ (P : Platform) (settings : Settings) (around : Surroundings) where
  open around use {read_pair_id, get_quotes, observed_at, race, commits, deletes}

  -- `_parse_pair_id`
  unfoldable pub parse_pair_id : Message → Result (Option ℕ)
  parse_pair_id m = caught (read_pair_id m.body)

  unfoldable pub group_messages : List Message → ById → Result ById
  unfolding parse_pair_id put_id
  group_messages [] by_pair_id = ok by_pair_id
  group_messages (m ∷ ms) by_pair_id =
      parse_pair_id m >>= λ k. group_messages ms (noted k m by_pair_id)

  abbrev pub observe : Pair → Quote → Exec (List Notification)
  observe p q s =
      evaluate_rules_for_pair P settings
        (record {
          pair = checked observed_at q p;
          last_price = q.last;
          bid_price = q.bid;
          ask_price = q.ask;
          observed_at = observed_at;
          race = race;
        })
        (record_price observed_at p q s)

  -- The loop over the quotes: the messages that it appends to `to_delete`.
  unfoldable pub observe_all : List (String × Quote) → Targets → Exec (List Message)
  unfolding lookup_name record_price
  observe_all quotes [] s = (ok [], s)
  observe_all quotes ((name, (m, p)) ∷ rest) s = elim (lookup_name name quotes) [
    | none ↦ observe_all quotes rest s
    | some q ↦
        and_then (observe p q s)
          (λ _ t. and_then (observe_all quotes rest t) (λ ms u. (ok (m ∷ ms), u)))
  ]

  -- `_delete_batch`, which does not call the queue for no message.
  unfoldable pub delete_batch : List Message → Worker → Result (Unit {0}) × Worker
  delete_batch [] w = (ok tt, w)
  delete_batch (m ∷ ms) w =
      if deletes then (ok tt, record w { deleted = w.deleted ++ m ∷ ms }) else (err queue_error, w)

  -- The end of the batch: the commit and the deletion, or a raise, which leaves the rows as they
  -- were before the batch and the objects of the index as they are.
  unfoldable pub complete :
      (gone : List Message) → Worker → Result (List Message) × Session → Result (Unit {0}) × Worker
  unfolding delete_batch
  complete gone w (ok done, s) =
      if commits
      then delete_batch (gone ++ done) (record w { db = s.db; index = s.index })
      else (err commit_error, record w { index = s.index })
  complete gone w (err e, s) = (err e, record w { index = s.index })

  abbrev pub names : Targets → List String
  names [] = []
  names ((name, _) ∷ rest) = name ∷ names rest

  -- The batch once its messages are read. A provider that raises leaves the pairs for redelivery.
  unfoldable pub poll_pairs : ById → Worker → Result (Unit {0}) × Worker
  unfolding dropped targets_of complete observe_all delete_batch
  poll_pairs by_pair_id w =
      let targets = targets_of by_pair_id w.db.pairs [] in
      let gone = dropped by_pair_id w.db.pairs in
      if is_empty targets then delete_batch gone w else elim (get_quotes (names targets)) [
        | err e ↦ delete_batch gone w
        | ok quotes ↦
            complete gone w (observe_all quotes targets (record { db = w.db; index = w.index }))
      ]

  unfoldable pub process_batch : List Message → Worker → Result (Unit {0}) × Worker
  unfolding group_messages poll_pairs
  process_batch messages w = elim (group_messages messages []) [
    | err e ↦ (err e, w)
    | ok by_pair_id ↦ if is_empty by_pair_id then (ok tt, w) else poll_pairs by_pair_id w
  ]

  -- One turn of the loop in `run_forever`: a raise is logged.
  unfoldable pub turn : (received : List Message) → Worker → Worker
  unfolding process_batch
  turn received w = if is_empty received then w else (process_batch received w).1
