-- ===== src/Outbox/Delivery.antt =====
-- workers/outbox_publisher.py: the table of events before and after `publish_pending`.
use dropwatch.Base.{
  ℕ, ◌+◌, ◌*◌, ◌<◌, Bool, true, false, Option, none, some, List, [], ◌∷◌, map, ◌==◌, ◌≡◌, refl, sym,
  ◌∙◌, ap, arith, if◌then◌else◌, any, filter, All, All-take, is_some, Bool-cases, Option-cases, inl,
  inr, Result, ok, value_of, state_of, ok-injective, >>=-eq-ok, String,
}
use mathlib.Core.Path.{subst}
use dropwatch.Base.Sorting.{All-sorted}
use dropwatch.Settings.{Settings}
use dropwatch.Models.{OutboxEvent, Db, get_notification}
use dropwatch.Outbox.{
  Sns, is_due, get_due_events, oldest_first, batch_size, subject_of, failed, published,
  publish_event, publish_all, publish_pending, backoff_seconds,
}
use dropwatch.Outbox.Ticks.{publish_pending-cases}
use dropwatch.Outbox.Backoff.{backoff_seconds-bounds}

events_of :
    {A : Type 0} {a b : Db × A}
    → (◌≡◌ {A = Result (Db × A)} (ok a) (ok b))
    → a.0.outbox_events ≡ b.0.outbox_events
events_of h = ap (λ x. x.0.outbox_events) (ok-injective h)

abbrev pub is_among : List OutboxEvent → OutboxEvent → Bool
is_among es x = any (λ e. x.id == e.id) es

module _ (settings : Settings) (now : ℕ) (sns : Sns) where
  -- The row `x` after the event `e` was handled, by what the publish of `e` answered.
  abbrev pub answered : Option String → OutboxEvent → OutboxEvent
  answered (some error) x = failed settings now error x
  answered none x = published settings now x

  abbrev pub handled_by : Option String → OutboxEvent → OutboxEvent → OutboxEvent
  handled_by answer e x = if x.id == e.id then answered answer x else x

  abbrev pub handled : OutboxEvent → OutboxEvent → OutboxEvent
  handled e = handled_by (sns e.id (subject_of e) e.payload.message) e

  abbrev pub handled_all : List OutboxEvent → OutboxEvent → OutboxEvent
  handled_all [] x = x
  handled_all (e ∷ es) x = handled_all es (handled e x)

  map-handled :
      (e : OutboxEvent) (es xs : List OutboxEvent)
      → map (handled_all es) (map (handled e) xs) ≡ map (handled_all (e ∷ es)) xs
  map-handled e es [] = refl
  map-handled e es (x ∷ xs) = λ i. handled_all es (handled e x) ∷ map-handled e es xs i

  map-nil : (xs : List OutboxEvent) → map (handled_all []) xs ≡ xs
  map-nil [] = refl
  map-nil (x ∷ xs) = λ i. x ∷ map-nil xs i

  publish_event-events :
      (e : OutboxEvent) (db : Db) (out : Db × Bool)
      → publish_event settings now sns e db ≡ ok out
      → out.0.outbox_events ≡ map (handled e) db.outbox_events
  unfolding publish_event
  publish_event-events e db out h =
      elim (Option-cases (sns e.id (subject_of e) e.payload.message)) [
        | inr (error, q) ↦
            subst (λ a. out.0.outbox_events ≡ map (handled_by a e) db.outbox_events) (sym q)
              (sym (events_of (rw (q, publish_event) at h)))
        | inl q ↦
            elim (Bool-cases (is_some (get_notification e.notification_id db.notifications))) [
              | inl there ↦
                  subst (λ a. out.0.outbox_events ≡ map (handled_by a e) db.outbox_events) (sym q)
                    (sym (events_of (rw (q, publish_event, there) at h)))
              | inr missing ↦ absurd (cc (rw (q, publish_event, missing) at h))
            ]
      ]

  publish_all-events :
      (es : List OutboxEvent) (db : Db) (out : Db × ℕ)
      → publish_all settings now sns es db ≡ ok out
      → out.0.outbox_events ≡ map (handled_all es) db.outbox_events
  unfolding publish_all
  publish_all-events [] db out h = sym (events_of h) ∙ sym (map-nil db.outbox_events)
  publish_all-events (e ∷ es) db out h =
      let (one, h1, h2) = >>=-eq-ok (publish_event settings now sns e db) _ h in
      let (rest, h3, h4) = >>=-eq-ok (publish_all settings now sns es one.0) _ h2 in
      sym (events_of h4)
      ∙ publish_all-events es one.0 rest h3
      ∙ ap (map (handled_all es)) (publish_event-events e db one h1)
      ∙ map-handled e es db.outbox_events

  -- A tick that returns has changed exactly the events that it selected, each by what its publish
  -- answered, in the order of the batch.
  pub publish_pending-events :
      (selected_at n : ℕ) (commits : Bool) (db db' : Db)
      → publish_pending settings now selected_at sns commits db ≡ (ok n, db')
      → db'.outbox_events
        ≡ map (handled_all (get_due_events selected_at db.outbox_events)) db.outbox_events
  publish_pending-events selected_at n commits db db' h =
      elim (publish_pending-cases settings now sns selected_at commits db) [
        | inr (e, raises) ↦ absurd (cc (value_of (sym raises ∙ h)))
        | inl (out, e, returns) ↦
            ap (λ d. d.outbox_events) (state_of (sym h ∙ returns))
            ∙ publish_all-events (get_due_events selected_at db.outbox_events) db out e
      ]

  module _ (t : ℕ) (early : t < now + backoff_seconds settings 1 * 1000000) where
    failed-quiet :
        (error : String) (x : OutboxEvent) → is_due t (failed settings now error x) ≡ false
    failed-quiet error x =
        let (capped, grows) =
          backoff_seconds-bounds settings 1 (x.publish_attempts + 1) (omega arith) in
        ground arith

    answered-quiet : (a : Option String) (x : OutboxEvent) → is_due t (answered a x) ≡ false
    answered-quiet none x = refl
    answered-quiet (some error) x = failed-quiet error x

    handled-same : (e x : OutboxEvent) → (x.id == e.id) ≡ true → is_due t (handled e x) ≡ false
    handled-same e x same = rw same (answered-quiet (sns e.id (subject_of e) e.payload.message) x)

    handled-apart : (e x : OutboxEvent) → (x.id == e.id) ≡ false → handled e x ≡ x
    handled-apart e x apart = rw apart refl

    handled-keeps : (e x : OutboxEvent) → is_due t x ≡ false → is_due t (handled e x) ≡ false
    handled-keeps e x quiet = elim (Bool-cases (x.id == e.id)) [
      | inl same ↦ handled-same e x same
      | inr apart ↦ subst (λ y. is_due t y ≡ false) (sym (handled-apart e x apart)) quiet
    ]

    handled_all-keeps :
        (es : List OutboxEvent) (x : OutboxEvent)
        → is_due t x ≡ false
        → is_due t (handled_all es x) ≡ false
    handled_all-keeps [] x quiet = quiet
    handled_all-keeps (e ∷ es) x quiet =
        handled_all-keeps es (handled e x) (handled-keeps e x quiet)

    answered-id : (a : Option String) (x : OutboxEvent) → (answered a x).id ≡ x.id
    answered-id none x = refl
    answered-id (some error) x = refl

    handled-id : (e x : OutboxEvent) → (handled e x).id ≡ x.id
    handled-id e x = elim (Bool-cases (x.id == e.id)) [
      | inl same ↦ rw same (answered-id (sns e.id (subject_of e) e.payload.message) x)
      | inr apart ↦ rw apart refl
    ]

    handled_all-id : (es : List OutboxEvent) (x : OutboxEvent) → (handled_all es x).id ≡ x.id
    handled_all-id [] x = refl
    handled_all-id (e ∷ es) x = handled_all-id es (handled e x) ∙ handled-id e x

    -- A row that the batch has is quiet once the batch is handled.
    handled_all-quiet :
        (es : List OutboxEvent) (x : OutboxEvent)
        → is_among es x ≡ true
        → is_due t (handled_all es x) ≡ false
    handled_all-quiet [] x h = absurd (ground arith)
    handled_all-quiet (e ∷ es) x h = elim (Bool-cases (x.id == e.id)) [
      | inl same ↦ handled_all-keeps es (handled e x) (handled-same e x same)
      | inr apart ↦
          subst (λ y. is_due t (handled_all es y) ≡ false) (sym (handled-apart e x apart))
            (handled_all-quiet es x (rw apart at h))
    ]

    due_after :
        (es xs : List OutboxEvent)
        → All (λ x. is_among es x ≡ false) (filter (is_due t) (map (handled_all es) xs))
    due_after es [] = tt
    due_after es (x ∷ xs) = elim (Bool-cases (is_due t (handled_all es x))) [
      | inr quiet ↦ rw quiet (due_after es xs)
      | inl due ↦ elim (Bool-cases (is_among es x)) [
        | inl handled_now ↦ let quiet = handled_all-quiet es x handled_now in absurd (cc quiet)
        | inr other ↦
            rw due
              (ap (λ k. any (λ e. k == e.id) es) (handled_all-id es x) ∙ other, due_after es xs)
      ]
    ]

  -- After a tick that returned, as long as the shortest delay since it has not passed, a later tick
  -- selects none of the events that the tick selected: those it published are done, and those that
  -- failed wait.
  pub no_early_retry :
      (selected_at t n : ℕ) (commits : Bool) (db db' : Db)
      → publish_pending settings now selected_at sns commits db ≡ (ok n, db')
      → t < now + backoff_seconds settings 1 * 1000000
      → All
          (λ x. is_among (get_due_events selected_at db.outbox_events) x ≡ false)
          (get_due_events t db'.outbox_events)
  unfolding get_due_events
  no_early_retry selected_at t n commits db db' h early =
      rw (publish_pending-events selected_at n commits db db' h) (
        All-take (λ x. is_among (get_due_events selected_at db.outbox_events) x ≡ false) batch_size
          _
          (All-sorted oldest_first
            (λ x. is_among (get_due_events selected_at db.outbox_events) x ≡ false) _
            (due_after t early (get_due_events selected_at db.outbox_events) db.outbox_events)))
