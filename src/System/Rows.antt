-- ===== src/System/Rows.antt =====
-- workers/*.py and api/routes/*.py: which rows the handlers and workers besides the poller leave
-- as they are.
use mathlib.Core.Path.{subst}
use dropwatch.Base.{
  ℕ, ◌≤◌, Bool, ltb, is_some, List, [], ◌∷◌, String, ◌≡◌, refl, sym, ◌∙◌, ap, arith, All-map,
  Bool-cases, Option-cases, Result-cases, inl, inr, any, Result, ok, >>=-eq-ok, ok-injective,
}
use dropwatch.Settings.{Settings}
use dropwatch.Models.{Notification, OutboxEvent, Db, get_notification, get_rule}
use dropwatch.Outbox.Ticks.{publish_pending-cases}
use dropwatch.Outbox.{Sns, subject_of, publish_event, publish_all, publish_pending}
use dropwatch.Discovery.{
  MarketSnapshot, discover_one, run_discovery, is_named, reaches_activate, notional_24h,
}
use dropwatch.Evaluator.Consistency.{IsConsistent}
use dropwatch.Api.Pairs.{CreatePairRequest, ResolvedPair, create_pair, is_tracked}
use dropwatch.Api.Rules.{
  CreateRuleRequest, UpdateRuleRequest, create_rule, update_rule, validate_rule, rule_of,
  unknown_reference, patched, nulls,
}

-- A change of rows that touches no notification or event and takes new ids only.
pub record Grows (a b : Db) : Type 0 where
  pub notifications : b.notifications ≡ a.notifications
  pub events : b.outbox_events ≡ a.outbox_events
  pub ids : a.next_id ≤ b.next_id

Grows-refl : (a : Db) → Grows a a
Grows-refl a = record { notifications = refl; events = refl; ids = omega arith }

Grows-trans : {a b c : Db} → Grows a b → Grows b c → Grows a c
Grows-trans {a} {b} {c} g h = record {
  notifications = h.notifications ∙ g.notifications;
  events = h.events ∙ g.events;
  ids = omega (arith, g.ids, h.ids);
}

pub IsConsistent-Grows : {a b : Db} → Grows a b → IsConsistent a → IsConsistent b
IsConsistent-Grows {a} {b} g c =
    let later : a.next_id ≤ b.next_id = g.ids in
    go b.notifications b.outbox_events g.notifications g.events
  where
    go :
        (ns : List Notification) (es : List OutboxEvent)
        → ns ≡ a.notifications
        → es ≡ a.outbox_events
        → IsConsistent (record b { notifications = ns; outbox_events = es })
    go ns es p q =
        subst (λ x. IsConsistent (record b { notifications = x; outbox_events = es })) (sym p)
          (subst
            (λ x. IsConsistent (record b { notifications = a.notifications; outbox_events = x }))
            (sym q)
            (record {
              keys = c.keys;
              ids = All-map (λ n h. omega (arith, g.ids)) a.notifications c.ids;
              event_ids = All-map (λ e h. omega (arith, g.ids)) a.outbox_events c.event_ids;
              matched = c.matched;
            }))

-- Such a change that also leaves the rules as they are.
abbrev pub Spares : (a b : Db) → Type 0
Spares a b = Grows a b × (b.alert_rules ≡ a.alert_rules)

discover_one-Spares :
    (settings : Settings) (name : String) (m : MarketSnapshot) (db : Db)
    → Spares db (discover_one settings name m db)
unfolding discover_one
discover_one-Spares settings name m db = elim (Bool-cases (any (is_named name) db.pairs)) [
  | inl tracked ↦
      rw (discover_one, tracked)
        (record { notifications = refl; events = refl; ids = omega arith }, refl)
  | inr fresh ↦ elim (Bool-cases (reaches_activate settings (notional_24h m))) [
    | inl large ↦
        rw (discover_one, fresh, large)
          (record { notifications = refl; events = refl; ids = omega arith }, refl)
    | inr small ↦ rw (discover_one, fresh, small) (Grows-refl db, refl)
  ]
]

pub run_discovery-Spares :
    (settings : Settings) (snapshot : List (String × MarketSnapshot)) (db : Db)
    → Spares db (run_discovery settings snapshot db)
unfolding run_discovery
run_discovery-Spares settings [] db = (Grows-refl db, refl)
run_discovery-Spares settings ((name, m) ∷ rest) db =
    let (g, e) = discover_one-Spares settings name m db in
    let (h, f) = run_discovery-Spares settings rest (discover_one settings name m db) in
    (Grows-trans g h, f ∙ e)

pub create_pair-Spares :
    (resolve_pair : String → Result ResolvedPair) (body : CreatePairRequest) (db : Db)
    → Spares db (create_pair resolve_pair body db).1
unfolding create_pair
create_pair-Spares resolve_pair body db = elim (Bool-cases (ltb 0 body.poll_interval_seconds)) [
  | inr refused ↦ rw (create_pair, refused) (Grows-refl db, refl)
  | inl positive ↦ elim (Result-cases (resolve_pair body.symbol)) [
    | inr (e, unknown) ↦ rw (create_pair, positive, unknown) (Grows-refl db, refl)
    | inl (r, known) ↦ elim (Bool-cases (is_tracked r.canonical_name db.pairs)) [
      | inl there ↦ rw (create_pair, positive, known, there) (Grows-refl db, refl)
      | inr new ↦
          rw (create_pair, positive, known, new)
            (record { notifications = refl; events = refl; ids = omega arith }, refl)
    ]
  ]
]

pub create_rule-Grows : (body : CreateRuleRequest) (db : Db) → Grows db (create_rule body db).1
unfolding create_rule
create_rule-Grows body db = elim (Result-cases (validate_rule (rule_of body db.next_id db.now))) [
  | inr (e, bad) ↦ rw (create_rule, bad) (Grows-refl db)
  | inl (u, good) ↦ elim (Bool-cases (unknown_reference body db)) [
    | inl missing ↦ rw (create_rule, good, missing) (Grows-refl db)
    | inr known ↦
        rw (create_rule, good, known)
          (record { notifications = refl; events = refl; ids = omega arith })
  ]
]

pub update_rule-Grows :
    (rule_id : ℕ) (body : UpdateRuleRequest) (db : Db) → Grows db (update_rule rule_id body db).1
unfolding update_rule
update_rule-Grows rule_id body db = elim (Option-cases (get_rule rule_id db.alert_rules)) [
  | inl gone ↦ rw (update_rule, gone) (Grows-refl db)
  | inr (r, found) ↦ elim (Result-cases (validate_rule (patched body r))) [
    | inr (e, bad) ↦ rw (update_rule, found, bad) (Grows-refl db)
    | inl (u, good) ↦ elim (Bool-cases (nulls body)) [
      | inl null ↦ rw (update_rule, found, good, null) (Grows-refl db)
      | inr set ↦
          rw (update_rule, found, good, set)
            (record { notifications = refl; events = refl; ids = omega arith })
    ]
  ]
]

publish_event-rules :
    (settings : Settings) (now : ℕ) (sns : Sns) (e : OutboxEvent) (db : Db) (out : Db × Bool)
    → publish_event settings now sns e db ≡ ok out
    → out.0.alert_rules ≡ db.alert_rules
unfolding publish_event
publish_event-rules settings now sns e db out h =
    elim (Option-cases (sns e.id (subject_of e) e.payload.message)) [
      | inr (error, q) ↦
          sym (ap (λ (x : Db × Bool). x.0.alert_rules) (ok-injective (rw (publish_event, q) at h)))
      | inl accepted ↦
          elim (Bool-cases (is_some (get_notification e.notification_id db.notifications))) [
            | inl there ↦ sym (
                ap (λ (x : Db × Bool). x.0.alert_rules)
                  (ok-injective (rw (publish_event, accepted, there) at h)))
            | inr missing ↦ absurd (cc (rw (publish_event, accepted, missing) at h))
          ]
    ]

publish_all-rules :
    (settings : Settings) (now : ℕ) (sns : Sns) (es : List OutboxEvent) (db : Db) (out : Db × ℕ)
    → publish_all settings now sns es db ≡ ok out
    → out.0.alert_rules ≡ db.alert_rules
unfolding publish_all
publish_all-rules settings now sns [] db out h =
    sym (ap (λ (x : Db × ℕ). x.0.alert_rules) (ok-injective h))
publish_all-rules settings now sns (e ∷ es) db out h =
    let (one, h1, h2) = >>=-eq-ok (publish_event settings now sns e db) _ h in
    let (rest, h3, h4) = >>=-eq-ok (publish_all settings now sns es one.0) _ h2 in
    sym (ap (λ (x : Db × ℕ). x.0.alert_rules) (ok-injective h4))
    ∙ publish_all-rules settings now sns es one.0 rest h3
    ∙ publish_event-rules settings now sns e db one h1

pub publish_pending-rules :
    (settings : Settings) (now selected_at : ℕ) (sns : Sns) (commits : Bool) (db : Db)
    → (publish_pending settings now selected_at sns commits db).1.alert_rules ≡ db.alert_rules
publish_pending-rules settings now selected_at sns commits db =
    elim (publish_pending-cases settings now sns selected_at commits db) [
      | inr (e, raises) ↦ rw raises refl
      | inl (out, e, returns) ↦ rw returns (publish_all-rules settings now sns _ db out e)
    ]
