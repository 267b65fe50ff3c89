-- ===== src/Outbox/Returns.antt =====
-- workers/outbox_publisher.py: when `publish_pending` returns, and the number that it gives.
use dropwatch.Base.{
  ℕ, Bool, true, false, List, [], ◌∷◌, ◌==◌, is_some, not, All, All-take, All-kept, All-map, length,
  filter, arith, ◌≡◌, refl, ◌∙◌, ap, Bool-cases, Option-cases, inl, inr, ok,
}
use dropwatch.Base.Sorting.{All-sorted}
use dropwatch.Settings.{Settings}
use dropwatch.Models.{Notification, OutboxEvent, Db, get_notification}
use dropwatch.Outbox.{
  Sns, batch_size, oldest_first, is_due, get_due_events, subject_of, mark_sent, update_notification,
  with_failure, with_success, add_if, publish_event, publish_all, publish_due, publish_pending,
  settle,
}

abbrev pub HasNotification : List Notification → OutboxEvent → Type 0
HasNotification ns e = is_some (get_notification e.notification_id ns) ≡ true

abbrev pub is_accepted : Sns → OutboxEvent → Bool
is_accepted sns e = not (is_some (sns e.id (subject_of e) e.payload.message))

-- The number of the events whose message the topic takes.
abbrev pub accepted_count : Sns → List OutboxEvent → ℕ
accepted_count sns es = length (filter (is_accepted sns) es)

module _ (settings : Settings) (now : ℕ) where
  found-sent :
      (j k : ℕ) (ns : List Notification)
      → is_some (get_notification k (update_notification j (mark_sent settings now) ns))
        ≡ is_some (get_notification k ns)
  found-sent j k [] = refl
  found-sent j k (n ∷ ns) = elim (Bool-cases (n.id == j)) [
    | inl own ↦ elim (Bool-cases (n.id == k)) [
      | inl here ↦ rw (own, here) refl
      | inr there ↦ rw (own, there) (found-sent j k ns)
    ]
    | inr other ↦ elim (Bool-cases (n.id == k)) [
      | inl here ↦ rw (other, here) refl
      | inr there ↦ rw (other, there) (found-sent j k ns)
    ]
  ]

  module _ (sns : Sns) where
    publish_event-returns :
        (e : OutboxEvent) (db : Db)
        → HasNotification db.notifications e
        → (out : Db × Bool) × (publish_event settings now sns e db ≡ ok out)
          × (out.1 ≡ is_accepted sns e)
          × ((k : ℕ)
              → is_some (get_notification k out.0.notifications)
                ≡ is_some (get_notification k db.notifications))
    unfolding publish_event
    publish_event-returns e db there =
        elim (Option-cases (sns e.id (subject_of e) e.payload.message)) [
          | inr (error, q) ↦ (
            (with_failure settings now e error db, false),
            rw (q, publish_event) refl,
            rw q refl,
            λ k. refl,
          )
          | inl q ↦ (
            (with_success settings now e db, true),
            rw (q, publish_event, there) refl,
            rw q refl,
            λ k. found-sent e.notification_id k db.notifications,
          )
        ]

    counted :
        (e : OutboxEvent) (es : List OutboxEvent)
        → add_if settings now (is_accepted sns e) (accepted_count sns es)
          ≡ accepted_count sns (e ∷ es)
    counted e es = elim (Bool-cases (is_accepted sns e)) [
      | inl taken ↦ rw taken (omega arith)
      | inr refused ↦ rw refused refl
    ]

    publish_all-returns :
        (es : List OutboxEvent) (db : Db)
        → All (HasNotification db.notifications) es
        → (db' : Db) × (publish_all settings now sns es db ≡ ok (db', accepted_count sns es))
    unfolding publish_all
    publish_all-returns [] db there = (db, refl)
    publish_all-returns (e ∷ es) db (one_there, there) =
        let (out, returns, accepted, keeps) = publish_event-returns e db one_there in
        let (db', rest) =
          publish_all-returns es out.0
            (All-map (λ x has. keeps x.notification_id ∙ has) es there) in
        (db', rw (publish_all, returns, rest, accepted, counted e es) refl)

    publish_due-returns :
        (es : List OutboxEvent) (db : Db)
        → All (HasNotification db.notifications) es
        → (publish_due settings now sns true es db).0 ≡ ok (accepted_count sns es)
    unfolding publish_due
    publish_due-returns [] db there = refl
    publish_due-returns (e ∷ es) db there =
        let (db', returns) = publish_all-returns (e ∷ es) db there in
        ap (λ r. (settle settings now true db r).0) returns

    -- Where every outbox event has its notification, as the foreign key of the table says, and the
    -- commit succeeds, a tick of the publisher returns, and returns the number of the selected events
    -- whose message the topic takes.
    pub publish_pending-returns :
        (selected_at : ℕ) (db : Db)
        → All (HasNotification db.notifications) db.outbox_events
        → (publish_pending settings now selected_at sns true db).0
          ≡ ok (accepted_count sns (get_due_events selected_at db.outbox_events))
    unfolding publish_pending get_due_events
    publish_pending-returns selected_at db there =
        publish_due-returns (get_due_events selected_at db.outbox_events) db (
          All-take (HasNotification db.notifications) batch_size _ (
            All-sorted oldest_first (HasNotification db.notifications) _ (
              All-kept (HasNotification db.notifications) (is_due selected_at) db.outbox_events
                there)))
