-- ===== src/Outbox/Consistency.antt =====
-- workers/outbox_publisher.py: the notifications and outbox events that a tick changes.
use mathlib.Core.List.{map-append}
use mathlib.Core.Path.{subst}
use dropwatch.Base.{
  ℕ, ◌<◌, ◌≤◌, Bool, true, List, [], ◌∷◌, ◌++◌, map, String, ◌==◌, any, is_some, if◌then◌else◌, All,
  All-take, All-kept, All-map, ◌≡◌, refl, sym, ◌∙◌, arith, Bool-cases, Option-cases, inl, inr, ok,
  ok-injective, >>=-eq-ok, ==_refl, ==_iff,
}
use dropwatch.Base.Sorting.{All-sorted}
use dropwatch.Settings.{Settings}
use dropwatch.Models.{
  Status, pending, suppressed_cooldown, sent, Notification, OutboxEvent, Db, get_notification,
}
use dropwatch.Evaluator.Firing.{has_key}
use dropwatch.Evaluator.Consistency.{Distinct, events_for, expected, IsConsistent}
use dropwatch.Outbox.{
  Sns, batch_size, oldest_first, is_due, get_due_events, subject_of, failed, published, mark_sent,
  update_notification, publish_event, publish_all, publish_pending,
}
use dropwatch.Outbox.Ticks.{publish_pending-cases}

-- Whether some event is for the notification `k`.
abbrev pub is_announced : ℕ → List OutboxEvent → Bool
is_announced k = any (λ e. e.notification_id == k)

-- A change of events that keeps which notification each is for.
module _ (g : OutboxEvent → OutboxEvent)
    (keeps : (e : OutboxEvent) → (g e).notification_id ≡ e.notification_id) where
  events_for-map : (k : ℕ) (es : List OutboxEvent) → events_for k (map g es) ≡ events_for k es
  events_for-map k [] = refl
  events_for-map k (e ∷ es) = elim (Bool-cases (e.notification_id == k)) [
    | inl own ↦ rw (keeps e, own, events_for-map k es) refl
    | inr other ↦ rw (keeps e, other) (events_for-map k es)
  ]

  is_announced-map : (k : ℕ) (es : List OutboxEvent) → is_announced k (map g es) ≡ is_announced k es
  is_announced-map k [] = refl
  is_announced-map k (e ∷ es) = rw (keeps e, is_announced-map k es) refl

  below-map :
      (k : ℕ) (es : List OutboxEvent)
      → All (λ e. e.notification_id < k) es
      → All (λ e. e.notification_id < k) (map g es)
  below-map k [] h = tt
  below-map k (e ∷ es) (h, hs) = (rw (keeps e) h, below-map k es hs)

announced_positive :
    (k : ℕ) (es : List OutboxEvent) → is_announced k es ≡ true → 1 ≤ events_for k es
announced_positive k [] h = absurd (cc h)
announced_positive k (e ∷ es) h = elim (Bool-cases (e.notification_id == k)) [
  | inl own ↦ rw own (omega arith)
  | inr other ↦ rw other (announced_positive k es (rw other at h))
]

expected_bound : (s : Status) → expected s ≤ 1
expected_bound suppressed_cooldown = omega arith
expected_bound pending = omega arith
expected_bound sent = omega arith

-- A change of one notification's status that keeps its key and id.
module _ (now k : ℕ) (settings : Settings) where
  abbrev sent_row : Notification → Notification
  sent_row n = if n.id == k then mark_sent settings now n else n

  sent_row-key : (n : Notification) → (sent_row n).idempotency_key ≡ n.idempotency_key
  sent_row-key n = ground arith

  sent_row-id : (n : Notification) → (sent_row n).id ≡ n.id
  sent_row-id n = ground arith

  has_key-map :
      (key : String) (ns : List Notification) → has_key key (map sent_row ns) ≡ has_key key ns
  has_key-map key [] = refl
  has_key-map key (n ∷ ns) = rw (sent_row-key n, has_key-map key ns) refl

  Distinct-map :
      (seen ns : List Notification)
      → Distinct seen ns
      → Distinct (map sent_row seen) (map sent_row ns)
  Distinct-map seen [] h = tt
  Distinct-map seen (n ∷ ns) (free, h) = (
    rw (sent_row-key n, has_key-map n.idempotency_key seen) free,
    subst (λ x. Distinct x (map sent_row ns)) (map-append sent_row seen (n ∷ []))
        (Distinct-map (seen ++ n ∷ []) ns h),
  )

  ids-map :
      (b : ℕ) (ns : List Notification)
      → All (λ n. n.id < b) ns
      → All (λ n. n.id < b) (map sent_row ns)
  ids-map b [] h = tt
  ids-map b (n ∷ ns) (h, hs) = (rw (sent_row-id n) h, ids-map b ns hs)

  matched-map :
      (es : List OutboxEvent)
      → is_announced k es ≡ true
      → (ns : List Notification) → All (λ n. events_for n.id es ≡ expected n.status) ns
      → All (λ n. events_for n.id es ≡ expected n.status) (map sent_row ns)
  matched-map es there [] h = tt
  matched-map es there (n ∷ ns) (h, hs) = elim (Bool-cases (n.id == k)) [
    | inl same ↦
        let own : is_announced n.id es ≡ true =
          subst (λ x. is_announced x es ≡ true) (sym ((==_iff n.id k).0 same)) there in
        let some_event : 1 ≤ events_for n.id es = announced_positive n.id es own in
        let bound : expected n.status ≤ 1 = expected_bound n.status in
        (rw same (omega arith), matched-map es there ns hs)
    | inr apart ↦ rw apart (h, matched-map es there ns hs)
  ]

module _ (settings : Settings) (now : ℕ) (sns : Sns) where
  matched-events :
      (g : OutboxEvent → OutboxEvent)
      → ((e : OutboxEvent) → (g e).notification_id ≡ e.notification_id)
      → (es : List OutboxEvent) (ns : List Notification)
      → All (λ n. events_for n.id es ≡ expected n.status) ns
      → All (λ n. events_for n.id (map g es) ≡ expected n.status) ns
  matched-events g keeps es [] h = tt
  matched-events g keeps es (n ∷ ns) (h, hs) =
      (events_for-map g keeps n.id es ∙ h, matched-events g keeps es ns hs)

  IsConsistent-events :
      (g : OutboxEvent → OutboxEvent)
      → ((e : OutboxEvent) → (g e).notification_id ≡ e.notification_id)
      → {db : Db} → IsConsistent db
      → IsConsistent (record db { outbox_events = map g db.outbox_events })
  IsConsistent-events g keeps {db} c = record {
    keys = c.keys;
    ids = c.ids;
    event_ids = below-map g keeps db.next_id db.outbox_events c.event_ids;
    matched = matched-events g keeps db.outbox_events db.notifications c.matched;
  }

  IsConsistent-sent :
      (k : ℕ) {db : Db}
      → is_announced k db.outbox_events ≡ true
      → IsConsistent db
      → IsConsistent (record db {
        notifications = update_notification k (mark_sent settings now) db.notifications;
      })
  IsConsistent-sent k {db} there c = record {
    keys = Distinct-map now k settings [] db.notifications c.keys;
    ids = ids-map now k settings db.next_id db.notifications c.ids;
    event_ids = c.event_ids;
    matched = matched-map now k settings db.outbox_events there db.notifications c.matched;
  }

  changed_keeps :
      (id : ℕ) (f : OutboxEvent → OutboxEvent)
      → ((e : OutboxEvent) → (f e).notification_id ≡ e.notification_id)
      → (e : OutboxEvent) → (if e.id == id then f e else e).notification_id ≡ e.notification_id
  changed_keeps id f keeps e = elim (Bool-cases (e.id == id)) [
    | inl same ↦ rw same (keeps e)
    | inr apart ↦ rw apart refl
  ]

  -- The rows after a step are consistent, and announce what the rows before it announce.
  abbrev Kept : Db → Db → Type 0
  Kept db db' =
      IsConsistent db'
      × ((k : ℕ) → is_announced k db.outbox_events ≡ true → is_announced k db'.outbox_events ≡ true)

  publish_event-Kept :
      (e : OutboxEvent) (db : Db) (out : Db × Bool)
      → IsConsistent db
      → is_announced e.notification_id db.outbox_events ≡ true
      → publish_event settings now sns e db ≡ ok out
      → Kept db out.0
  unfolding publish_event
  publish_event-Kept e db out c there h =
      elim (Option-cases (sns e.id (subject_of e) e.payload.message)) [
        | inr (error, q) ↦
            subst (λ x. Kept db x.0) (ok-injective (rw (q, publish_event) at h))
              (
                IsConsistent-events _ (changed_keeps e.id (failed settings now error) (λ x. refl))
                    c,
                λ k a.
                    is_announced-map _ (changed_keeps e.id (failed settings now error) (λ x. refl))
                      k db.outbox_events
                    ∙ a,
              )
        | inl q ↦
            elim (Bool-cases (is_some (get_notification e.notification_id db.notifications))) [
              | inl found ↦
                  let still =
                    is_announced-map _ (changed_keeps e.id (published settings now) (λ x. refl)) in
                  subst (λ x. Kept db x.0) (ok-injective (rw (q, publish_event, found) at h))
                    (
                      IsConsistent-sent e.notification_id
                          (still e.notification_id db.outbox_events ∙ there)
                          (IsConsistent-events _
                            (changed_keeps e.id (published settings now) (λ x. refl)) c),
                      λ k a. still k db.outbox_events ∙ a,
                    )
              | inr missing ↦ absurd (cc (rw (q, publish_event, missing) at h))
            ]
      ]

  publish_all-IsConsistent :
      (es : List OutboxEvent) (db : Db) (out : Db × ℕ)
      → IsConsistent db
      → All (λ e. is_announced e.notification_id db.outbox_events ≡ true) es
      → publish_all settings now sns es db ≡ ok out
      → IsConsistent out.0
  unfolding publish_all
  publish_all-IsConsistent [] db out c there h = subst (λ x. IsConsistent x.0) (ok-injective h) c
  publish_all-IsConsistent (e ∷ es) db out c (announced, there) h =
      let (one, h1, h2) = >>=-eq-ok (publish_event settings now sns e db) _ h in
      let (rest, h3, h4) = >>=-eq-ok (publish_all settings now sns es one.0) _ h2 in
      let (c1, keeps) = publish_event-Kept e db one c announced h1 in
      subst (λ x. IsConsistent x.0) (ok-injective h4)
        (publish_all-IsConsistent es one.0 rest c1 (All-map (λ x. keeps x.notification_id) es there)
          h3)

all_announced : (es : List OutboxEvent) → All (λ e. is_announced e.notification_id es ≡ true) es
all_announced [] = tt
all_announced (e ∷ es) =
    (rw (==_refl e.notification_id) refl, All-map (λ x a. later x a) es (all_announced es))
  where
    later :
        (x : OutboxEvent)
        → is_announced x.notification_id es ≡ true
        → is_announced x.notification_id (e ∷ es) ≡ true
    later x a = elim (Bool-cases (e.notification_id == x.notification_id)) [
      | inl same ↦ rw same refl
      | inr apart ↦ rw apart a
    ]

-- A tick of the publisher, whether it returns or raises, keeps the rows consistent: ids are below
-- the next id, no two notifications have one idempotency key, a suppressed notification has no
-- outbox event, and any other, also one that the tick marks as sent, has exactly one.
pub publish_pending-IsConsistent :
    (settings : Settings) (now selected_at : ℕ) (sns : Sns) (commits : Bool) (db : Db)
    → IsConsistent db
    → IsConsistent (publish_pending settings now selected_at sns commits db).1
unfolding get_due_events
publish_pending-IsConsistent settings now selected_at sns commits db c =
    elim (publish_pending-cases settings now sns selected_at commits db) [
      | inr (e, raises) ↦ rw raises c
      | inl (out, e, returns) ↦ rw returns (
          publish_all-IsConsistent settings now sns _ db out c
            (All-take IsAnnounced batch_size _ (
              All-sorted oldest_first IsAnnounced _ (
                All-kept IsAnnounced (is_due selected_at) db.outbox_events
                  (all_announced db.outbox_events))))
            e)
    ]
  where
    IsAnnounced : OutboxEvent → Type 0
    IsAnnounced x = is_announced x.notification_id db.outbox_events ≡ true
