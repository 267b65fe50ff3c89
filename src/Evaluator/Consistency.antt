-- ===== src/Evaluator/Consistency.antt =====
-- rules/evaluator.py: the notifications and outbox events that an evaluation writes.
use mathlib.Core.List.{append-nil, append_assoc}
use mathlib.Core.Path.{subst}
use dropwatch.Base.{
  ℕ, ◌+◌, ◌<◌, true, false, Option, List, [], ◌∷◌, ◌++◌, ◌==◌, length, filter, filter-append,
  length-append, All, All-append, All-map, ◌≡◌, refl, sym, ◌∙◌, ap, arith, if◌then◌else◌,
  Bool-cases, Result-cases, inl, inr, ok, value_of, state_of,
}
use dropwatch.Settings.{Settings}
use dropwatch.Models.{
  Status, pending, suppressed_cooldown, sent, AlertRule, Notification, OutboxEvent, Db,
}
use dropwatch.Platform.{Platform}
use dropwatch.RuleIndex.{rules_for_pair}
use dropwatch.Session.{Session, and_then-eq-ok}
use dropwatch.Evaluator.{in_cooldown}
use dropwatch.Evaluator.Firing.{
  status_of, Observation, Context, has_key, key_of, new_notification, message_of, deliver, finish,
  advance, fire_candidate, fire_candidates,
}
use dropwatch.Evaluator.Evaluate.{candidates_for, evaluate_rules_for_pair}
use dropwatch.Evaluator.Frame.{blocked, fire_candidate-blocked, fire_candidate-free}

-- No row of `ns` has the key of a row before it, in `seen` or in `ns`.
abbrev pub Distinct : (seen ns : List Notification) → Type 0
Distinct seen [] = Unit
Distinct seen (n ∷ ns) = (has_key n.idempotency_key seen ≡ false) × Distinct (seen ++ n ∷ []) ns

abbrev pub events_for : ℕ → List OutboxEvent → ℕ
events_for k es = length (filter (λ e. e.notification_id == k) es)

-- A suppressed notification has no outbox event, any other has one.
abbrev pub expected : Status → ℕ
expected suppressed_cooldown = 0
expected pending = 1
expected sent = 1

pub record IsConsistent (db : Db) : Type 0 where
  pub keys : Distinct [] db.notifications
  pub ids : All (λ n. n.id < db.next_id) db.notifications
  pub event_ids : All (λ e. e.notification_id < db.next_id) db.outbox_events
  pub matched : All (λ n. events_for n.id db.outbox_events ≡ expected n.status) db.notifications

Distinct-append :
    (seen ns : List Notification) (n : Notification)
    → Distinct seen ns
    → has_key n.idempotency_key (seen ++ ns) ≡ false
    → Distinct seen (ns ++ n ∷ [])
Distinct-append seen [] n d free =
    (subst (λ x. has_key n.idempotency_key x ≡ false) (append-nil seen) free, tt)
Distinct-append seen (m ∷ ns) n (fresh, d) free = (
  fresh,
  Distinct-append (seen ++ m ∷ []) ns n d
      (subst (λ x. has_key n.idempotency_key x ≡ false) (sym (append_assoc seen (m ∷ []) ns)) free),
)

events_for-fresh :
    (k : ℕ) (es : List OutboxEvent) → All (λ e. e.notification_id < k) es → events_for k es ≡ 0
events_for-fresh k [] h = refl
events_for-fresh k (e ∷ es) (h, hs) =
    let apart : (e.notification_id == k) ≡ false = ground arith in
    rw apart (events_for-fresh k es hs)

events_for-append :
    (k : ℕ) (es : List OutboxEvent) (e : OutboxEvent)
    → events_for k (es ++ e ∷ []) ≡ events_for k es + (if e.notification_id == k then 1 else 0)
events_for-append k es e = elim (Bool-cases (e.notification_id == k)) [
  | inl same ↦ rw (filter-append, length-append, same) refl
  | inr apart ↦ rw (filter-append, length-append, apart) refl
]

module _ (db : Db) (c : IsConsistent db) (n : Notification) (fresh : n.id ≡ db.next_id)
    (free : has_key n.idempotency_key db.notifications ≡ false) where
  later_ids : (k : ℕ) → db.next_id < k → All (λ m. m.id < k) (db.notifications ++ n ∷ [])
  later_ids k h =
      All-append (λ m. m.id < k) db.notifications _
        (All-map (λ m g. omega arith) db.notifications c.ids) (omega arith, tt)

  later_events : (k : ℕ) → db.next_id < k → All (λ e. e.notification_id < k) db.outbox_events
  later_events k h = All-map (λ e g. omega arith) db.outbox_events c.event_ids

  no_events : events_for n.id db.outbox_events ≡ 0
  no_events =
      events_for-fresh n.id db.outbox_events
        (subst (λ k. All (λ e. e.notification_id < k) db.outbox_events) (sym fresh) c.event_ids)

  IsConsistent-suppressed :
      n.status ≡ suppressed_cooldown
      → IsConsistent
          (record db { notifications = db.notifications ++ n ∷ []; next_id = db.next_id + 1 })
  IsConsistent-suppressed quiet = record {
    keys = Distinct-append [] db.notifications n c.keys free;
    ids = later_ids (db.next_id + 1) (omega arith);
    event_ids = later_events (db.next_id + 1) (omega arith);
    matched =
        All-append (λ m. events_for m.id db.outbox_events ≡ expected m.status) db.notifications _
          c.matched (no_events ∙ sym (ap expected quiet), tt);
  }

  still_matched :
      (e : OutboxEvent)
      → e.notification_id ≡ n.id
      → (ms : List Notification) → All (λ m. m.id < db.next_id) ms
      → All (λ m. events_for m.id db.outbox_events ≡ expected m.status) ms
      → All (λ m. events_for m.id (db.outbox_events ++ e ∷ []) ≡ expected m.status) ms
  still_matched e own [] hs gs = tt
  still_matched e own (m ∷ ms) (h, hs) (g, gs) =
      let apart : (e.notification_id == m.id) ≡ false = ground arith in
      (rw (events_for-append, apart) (omega arith), still_matched e own ms hs gs)

  IsConsistent-pending :
      (e : OutboxEvent)
      → e.notification_id ≡ n.id
      → n.status ≡ pending
      → IsConsistent (record db {
        notifications = db.notifications ++ n ∷ [];
        outbox_events = db.outbox_events ++ e ∷ [];
        next_id = db.next_id + 1 + 1;
      })
  IsConsistent-pending e own due =
      let same : (e.notification_id == n.id) ≡ true = ground arith in
      record {
        keys = Distinct-append [] db.notifications n c.keys free;
        ids = later_ids (db.next_id + 1 + 1) (omega arith);
        event_ids =
            All-append (λ x. x.notification_id < db.next_id + 1 + 1) db.outbox_events _
              (later_events (db.next_id + 1 + 1) (omega arith)) (omega arith, tt);
        matched =
            All-append (λ m. events_for m.id (db.outbox_events ++ e ∷ []) ≡ expected m.status)
              db.notifications _ (still_matched e own db.notifications c.ids c.matched)
              (events_for-append n.id db.outbox_events e ∙ rw (same, no_events, due) refl, tt);
      }

module _ {P : Platform} (c : Context P) where
  -- The session with the notification `n` in it.
  abbrev with_row : Notification → Session → Session
  with_row n s = record s {
    db = record (s.db) { notifications = s.db.notifications ++ n ∷ []; next_id = s.db.next_id + 1 };
  }

  dated :
      {db : Db} {rules : List AlertRule}
      → IsConsistent db
      → IsConsistent (record db { alert_rules = rules })
  dated d = record { keys = d.keys; ids = d.ids; event_ids = d.event_ids; matched = d.matched }

  finish-IsConsistent :
      (r : AlertRule) (n : Notification) (s : Session) (x : Option Notification) (t : Session)
      → IsConsistent s.db
      → n.id ≡ s.db.next_id
      → has_key n.idempotency_key s.db.notifications ≡ false
      → n.status ≡ status_of P c.observation r
      → finish P c r n (with_row n s) ≡ (ok x, t)
      → IsConsistent t.db
  unfolding finish advance
  finish-IsConsistent r n s x t k fresh free status h =
      elim (Bool-cases (in_cooldown r c.observed_at)) [
        | inl cooling ↦
            subst (λ u. IsConsistent u.db) (state_of (rw (finish, cooling) at h))
              (dated (IsConsistent-suppressed s.db k n fresh free (rw cooling at status)))
        | inr due ↦ elim (Result-cases (message_of P c r)) [
          | inr (e, fails) ↦ absurd (cc (value_of (rw (finish, deliver, due, fails) at h)))
          | inl (message, e) ↦
              subst (λ u. IsConsistent u.db) (state_of (rw (finish, deliver, due, e) at h))
                (dated (IsConsistent-pending s.db k n fresh free _ refl (rw due at status)))
        ]
      ]

  fire_candidate-IsConsistent :
      (r : AlertRule) (s : Session) (x : Option Notification) (t : Session)
      → IsConsistent s.db
      → fire_candidate P c r s ≡ (ok x, t)
      → IsConsistent t.db
  fire_candidate-IsConsistent r s x t k h = elim (Bool-cases (blocked P c.observation s.db r)) [
    | inl stop ↦
        subst (λ u. IsConsistent u.db) (state_of (sym (fire_candidate-blocked c r s stop) ∙ h)) k
    | inr go ↦
        let free : has_key (key_of P c.observation r) s.db.notifications ≡ false = ground arith in
        finish-IsConsistent r (new_notification P c.observation r s.db) s x t k refl free refl
          (sym (fire_candidate-free c r s go) ∙ h)
  ]

  fire_candidates-IsConsistent :
      (rs : List AlertRule) (s : Session) (ns : List Notification) (t : Session)
      → IsConsistent s.db
      → fire_candidates P c rs s ≡ (ok ns, t)
      → IsConsistent t.db
  unfolding fire_candidates
  fire_candidates-IsConsistent [] s ns t k h = subst (λ u. IsConsistent u.db) (state_of h) k
  fire_candidates-IsConsistent (r ∷ rs) s ns t k h =
      let (x, e, h1) = and_then-eq-ok (fire_candidate P c r s) _ h in
      let u = (fire_candidate P c r s).1 in
      let (xs, f, h2) = and_then-eq-ok (fire_candidates P c rs u) _ h1 in
      let v = (fire_candidates P c rs u).1 in
      subst (λ u. IsConsistent u.db) (state_of h2)
        (fire_candidates-IsConsistent rs u xs v
          (fire_candidate-IsConsistent r s x u k (λ i. (e i, u))) (λ i. (f i, v)))

-- An evaluation that returns keeps the rows consistent: ids are below the next id, no two
-- notifications have one idempotency key, a suppressed notification has no outbox event, and any other
-- has exactly one.
pub evaluate_rules_for_pair-IsConsistent :
    (P : Platform) (settings : Settings) (o : Observation) (s : Session) (ns : List Notification)
    (t : Session)
    → IsConsistent s.db
    → evaluate_rules_for_pair P settings o s ≡ (ok ns, t)
    → IsConsistent t.db
unfolding evaluate_rules_for_pair
evaluate_rules_for_pair-IsConsistent P settings o s ns t k h =
    elim (Result-cases
      (candidates_for P settings s.db.price_history o (rules_for_pair s.index o.pair.id))) [
        | inl ((c, rules), e) ↦
            fire_candidates-IsConsistent c rules s ns t k (rw (evaluate_rules_for_pair, e) at h)
        | inr (e, fails) ↦ absurd (cc (value_of (rw (evaluate_rules_for_pair, fails) at h)))
      ]
