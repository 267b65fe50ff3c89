-- ===== src/System/Soundness.antt =====
-- workers/*.py and api/routes/*.py: what all steps of the program keep of the rows.
use mathlib.Core.Path.{subst}
use dropwatch.Base.{
  List, [], ◌∷◌, String, map, ◌≡◌, refl, sym, arith, All, Option-cases, inl, inr, ok, state_of,
}
use dropwatch.Settings.{Settings}
use dropwatch.Models.{Pair, AlertRule, Db}
use dropwatch.Platform.{Platform}
use dropwatch.Session.{Session, and_then-eq-ok}
use dropwatch.Outbox.Consistency.{publish_pending-IsConsistent}
use dropwatch.Evaluator.Frame.{undated}
use dropwatch.Evaluator.Consistency.{IsConsistent, evaluate_rules_for_pair-IsConsistent}
use dropwatch.Base.Dicts.{lookup_name}
use dropwatch.Poller.{
  Quote, Message, Surroundings, Worker, Targets, record_price, observe, observe_all, turn,
}
use dropwatch.Api.Validity.{IsValid, AllValid, create_rule-valid, update_rule-valid}
use dropwatch.System.Steps.{
  World, current, Step, poll, schedule, publish, discover, add_pair, add_rule, change_rule, hear,
  wake, read_rules, swap_rules, by_listener, by_refresh, pass, Reach, here, next, polled, scheduled,
  published, discovered, pair_created, rule_created, rule_updated, listened, refreshing, rules_read,
  rules_swapped,
}
use dropwatch.System.Rows.{
  Spares, IsConsistent-Grows, run_discovery-Spares, create_pair-Spares, create_rule-Grows,
  update_rule-Grows, publish_pending-rules,
}
use dropwatch.System.Batches.{Outcome, nothing, rolled_back, committed, turn-Outcome, turn-Steady}

-- The rows are consistent, and every rule of the table passes the validation of the API.
pub record IsSound (w : World) : Type 0 where
  pub consistent : IsConsistent w.db
  pub valid : AllValid w.db

observe_all-IsConsistent :
    (P : Platform) (settings : Settings) (around : Surroundings) (quotes : List (String × Quote))
    (ts : Targets) (s : Session) (ms : List Message) (u : Session)
    → IsConsistent s.db
    → observe_all P settings around quotes ts s ≡ (ok ms, u)
    → IsConsistent u.db
unfolding observe_all record_price
observe_all-IsConsistent P settings around quotes [] s ms u c h =
    subst (λ (x : Session). IsConsistent x.db) (state_of h) c
observe_all-IsConsistent P settings around quotes ((name, (m, p)) ∷ rest) s ms u c h =
    elim (Option-cases (lookup_name name quotes)) [
      | inl no_quote ↦
          observe_all-IsConsistent P settings around quotes rest s ms u c
            (rw (no_quote, observe_all) at h)
      | inr (q, quoted) ↦
          let step = observe P settings around p q s in
          let (fired, e, h1) = and_then-eq-ok step _ (rw (quoted, observe_all) at h) in
          let (done, f, h2) =
            and_then-eq-ok (observe_all P settings around quotes rest step.1) _ h1 in
          let v = (observe_all P settings around quotes rest step.1).1 in
          subst (λ (x : Session). IsConsistent x.db) (state_of h2)
            (observe_all-IsConsistent P settings around quotes rest step.1 done v
              (evaluate_rules_for_pair-IsConsistent P settings _
                (record_price around.observed_at p q s) fired step.1 (recorded q p)
                (λ i. (e i, step.1)))
              (λ i. (f i, v)))
    ]
  where
    recorded : (q : Quote) (p : Pair) → IsConsistent (record_price around.observed_at p q s).db
    recorded q p =
        IsConsistent-Grows (record { notifications = refl; events = refl; ids = omega arith }) c

turn-IsConsistent :
    (P : Platform) (settings : Settings) (around : Surroundings) (received : List Message)
    (w : Worker)
    → IsConsistent w.db
    → IsConsistent (turn P settings around received w).db
turn-IsConsistent P settings around received w c = go (turn-Outcome P settings around received w)
  where
    go : {v : Worker} → Outcome P settings around w v → IsConsistent v.db
    go (nothing rows index) = subst IsConsistent (sym rows) c
    go (rolled_back quotes ts rows index) = subst IsConsistent (sym rows) c
    go (committed quotes ts ms e rows index) =
        let s : Session = record { db = w.db; index = w.index } in
        let v = (observe_all P settings around quotes ts s).1 in
        subst IsConsistent (sym rows)
          (observe_all-IsConsistent P settings around quotes ts s ms v c (λ i. (e i, v)))

-- Whether a rule is valid does not depend on when it fired.
AllValid-undated :
    (rs ss : List AlertRule) → map undated ss ≡ map undated rs → All IsValid rs → All IsValid ss
AllValid-undated rs ss e h = from_undated ss (subst (λ l. All IsValid l) (sym e) (to_undated rs h))
  where
    to_undated : (l : List AlertRule) → All IsValid l → All IsValid (map undated l)
    to_undated [] h = tt
    to_undated (r ∷ l) (h, hs) = (h, to_undated l hs)

    from_undated : (l : List AlertRule) → All IsValid (map undated l) → All IsValid l
    from_undated [] h = tt
    from_undated (r ∷ l) (h, hs) = (h, from_undated l hs)

module _ (P : Platform) (settings : Settings) where
  spared : {a b : Db} → Spares a b → IsConsistent a × AllValid a → IsConsistent b × AllValid b
  spared (g, e) (c, v) = (IsConsistent-Grows g c, subst (λ l. All IsValid l) (sym e) v)

  now_current : (w : World) → IsConsistent w.db → IsConsistent (current w)
  now_current w c =
      IsConsistent-Grows (record { notifications = refl; events = refl; ids = omega arith }) c

  Step-IsSound : {w u : World} → Step P settings w u → IsSound w → IsSound u
  unfolding polled scheduled published discovered pair_created rule_created rule_updated listened
      refreshing rules_read rules_swapped
  Step-IsSound {w} (poll around received) s =
      let v : Worker = record { db = current w; index = w.index; deleted = w.deleted } in
      record {
        consistent = turn-IsConsistent P settings around received v (now_current w s.consistent);
        valid =
            AllValid-undated w.db.alert_rules _ (turn-Steady P settings around received v).rules
              s.valid;
      }
  Step-IsSound {w} (schedule send commits now claimed_at) s = record {
    consistent =
        IsConsistent-Grows (record { notifications = refl; events = refl; ids = omega arith })
          s.consistent;
    valid = s.valid;
  }
  Step-IsSound {w} (publish selected_at sns commits) s = record {
    consistent =
        publish_pending-IsConsistent settings w.clock selected_at sns commits (current w)
          (now_current w s.consistent);
    valid =
        subst (λ l. All IsValid l)
          (sym (publish_pending-rules settings w.clock selected_at sns commits (current w)))
          s.valid;
  }
  Step-IsSound {w} (discover snapshot) s =
      let (c, v) =
        spared (run_discovery-Spares settings snapshot (current w))
          (now_current w s.consistent, s.valid) in
      record { consistent = c; valid = v }
  Step-IsSound {w} (add_pair resolve_pair body) s =
      let (c, v) =
        spared (create_pair-Spares resolve_pair body (current w))
          (now_current w s.consistent, s.valid) in
      record { consistent = c; valid = v }
  Step-IsSound {w} (add_rule body) s = record {
    consistent =
        IsConsistent-Grows (create_rule-Grows body (current w)) (now_current w s.consistent);
    valid = create_rule-valid body (current w) s.valid;
  }
  Step-IsSound {w} (change_rule rule_id body) s = record {
    consistent =
        IsConsistent-Grows (update_rule-Grows rule_id body (current w))
          (now_current w s.consistent);
    valid = update_rule-valid rule_id body (current w) s.valid;
  }
  Step-IsSound (hear reply) s = record { consistent = s.consistent; valid = s.valid }
  Step-IsSound (wake over) s = record { consistent = s.consistent; valid = s.valid }
  Step-IsSound (read_rules by_listener answers) s = record {
    consistent = s.consistent;
    valid = s.valid;
  }
  Step-IsSound (read_rules by_refresh answers) s = record {
    consistent = s.consistent;
    valid = s.valid;
  }
  Step-IsSound (swap_rules by_listener) s = record { consistent = s.consistent; valid = s.valid }
  Step-IsSound (swap_rules by_refresh) s = record { consistent = s.consistent; valid = s.valid }
  Step-IsSound (pass time) s = record { consistent = s.consistent; valid = s.valid }

-- Whatever steps the program takes, in whatever order and with whatever answers from outside, from
-- rows that are consistent and rules that are valid it reaches such rows and rules only: ids are below
-- the next id, no two notifications share an idempotency key, a suppressed notification has no outbox
-- event and any other exactly one, and every rule passes the validation of the API.
pub Reach-IsSound :
    (P : Platform) (settings : Settings) {v w : World}
    → IsSound v
    → Reach P settings v w
    → IsSound w
Reach-IsSound P settings s here = s
Reach-IsSound P settings s (next r step) =
    Step-IsSound P settings step (Reach-IsSound P settings s r)
