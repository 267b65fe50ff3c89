-- ===== src/Outbox.antt =====
-- workers/outbox_publisher.py: one tick of the publisher.
pub mod Backoff
pub mod Ticks
pub mod Returns
pub mod Delivery
pub mod Consistency
use Prim.Native.String.{◌++◌ as str_append}
use Prim.Native.String
use dropwatch.Base.{
  ℕ, zero, suc, ◌+◌, ◌*◌, ◌-◌, ◌^◌, Bool, true, false, ◌&&◌, Option, none, some, List, [], ◌∷◌, map,
  ◌==◌, leb, min, String, if◌then◌else◌, filter, take, is_some, not, Result, ok, err,
  attribute_error, commit_error, ◌>>=◌,
}
use dropwatch.Base.Sorting.{sorted}
use dropwatch.Settings.{Settings}
use dropwatch.Models.{Db, OutboxEvent, Notification, sent, get_notification}

abbrev pub batch_size : ℕ
batch_size = 20

abbrev pub sns_subject_max_length : ℕ
sns_subject_max_length = 100

-- `2 ** max(publish_attempts - 1, 0)`: `-` stops at 0, as the `max` does.
unfoldable pub backoff_seconds : Settings → (publish_attempts : ℕ) → ℕ
backoff_seconds settings publish_attempts =
    min (settings.outbox_backoff_base_seconds * 2 ^ (publish_attempts - 1))
      settings.outbox_backoff_max_seconds

abbrev pub attempt_due : (now : ℕ) → Option ℕ → Bool
attempt_due now none = true
attempt_due now (some t) = leb t now

abbrev pub is_due : (now : ℕ) → OutboxEvent → Bool
is_due now e = not (is_some e.published_at) && attempt_due now e.next_attempt_at

-- `ORDER BY created_at`
abbrev pub oldest_first : OutboxEvent → OutboxEvent → Bool
oldest_first a b = leb a.created_at b.created_at

-- `_get_due_events`
unfoldable pub get_due_events : (now : ℕ) → List OutboxEvent → List OutboxEvent
get_due_events now events = take batch_size (sorted oldest_first (filter (is_due now) events))

-- `s[:n]`
unfoldable pub take_chars : ℕ → String → String
take_chars zero s = ""
take_chars (suc n) String.[] = ""
take_chars (suc n) (String.◌∷◌ c s) = String.◌∷◌ c (take_chars n s)

unfoldable pub subject_of : OutboxEvent → String
unfolding take_chars
subject_of e =
    take_chars sns_subject_max_length (str_append "dropwatch alert: " e.payload.pair_display_name)

-- `sns_client.publish(Subject=…, Message=…)` for the event of this id: none, or the text of what it
-- raised.
abbrev pub Sns : Type 0
Sns = (event_id : ℕ) (subject message : String) → Option String

-- The row of the event with this id, changed.
abbrev pub update_event : ℕ → (OutboxEvent → OutboxEvent) → List OutboxEvent → List OutboxEvent
update_event id f = map (λ e. if e.id == id then f e else e)

abbrev pub update_notification :
    ℕ → (Notification → Notification) → List Notification → List Notification
update_notification id f = map (λ n. if n.id == id then f n else n)

module _ (settings : Settings) (now : ℕ) where
  abbrev pub failed : (error : String) → OutboxEvent → OutboxEvent
  failed error e = record e {
    publish_attempts = e.publish_attempts + 1;
    last_error = some (take_chars 2000 error);
    next_attempt_at = some (now + backoff_seconds settings (e.publish_attempts + 1) * 1000000);
  }

  abbrev pub published : OutboxEvent → OutboxEvent
  published e = record e { published_at = some now }

  abbrev pub mark_sent : Notification → Notification
  mark_sent n = record n { status = sent; sent_at = some now }

  abbrev pub with_failure : OutboxEvent → String → Db → Db
  with_failure e error db = record db {
    outbox_events = update_event e.id (failed error) db.outbox_events;
  }

  abbrev pub with_success : OutboxEvent → Db → Db
  with_success e db = record db {
    outbox_events = update_event e.id published db.outbox_events;
    notifications = update_notification e.notification_id mark_sent db.notifications;
  }

  -- The body of the loop: the rows after it, and whether the event was published. A notification
  -- that is not there is None, which has no `status`.
  unfoldable pub publish_event : Sns → OutboxEvent → Db → Result (Db × Bool)
  unfolding subject_of
  publish_event sns e db = elim (sns e.id (subject_of e) e.payload.message) [
    | some error ↦ ok (with_failure e error db, false)
    | none ↦
        if is_some (get_notification e.notification_id db.notifications)
        then ok (with_success e db, true)
        else err attribute_error
  ]

  abbrev pub add_if : Bool → ℕ → ℕ
  add_if true n = n + 1
  add_if false n = n

  unfoldable pub publish_all : Sns → List OutboxEvent → Db → Result (Db × ℕ)
  unfolding publish_event
  publish_all sns [] db = ok (db, 0)
  publish_all sns (e ∷ es) db = publish_event sns e db >>= λ one.
      publish_all sns es one.0 >>= λ rest. ok (rest.0, add_if one.1 rest.1)

  -- After the loop the changes are committed. A raise before that, or of the commit, leaves the rows
  -- as they were.
  abbrev pub settle : (commits : Bool) → Db → Result (Db × ℕ) → Result ℕ × Db
  settle true before (ok (db, count)) = (ok count, db)
  settle false before (ok (db, count)) = (err commit_error, before)
  settle commits before (err e) = (err e, before)

  -- Without a due event there is nothing to commit.
  unfoldable pub publish_due : Sns → (commits : Bool) → List OutboxEvent → Db → Result ℕ × Db
  unfolding publish_all
  publish_due sns commits [] db = (ok 0, db)
  publish_due sns commits (e ∷ es) db = settle commits db (publish_all sns (e ∷ es) db)

  -- `publish_pending`, whose first reading of the clock is `selected_at`.
  unfoldable pub publish_pending : (selected_at : ℕ) → Sns → (commits : Bool) → Db → Result ℕ × Db
  unfolding get_due_events publish_due
  publish_pending selected_at sns commits db =
      publish_due sns commits (get_due_events selected_at db.outbox_events) db
