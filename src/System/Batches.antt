-- ===== src/System/Batches.antt =====
-- workers/poller.py: what a batch of messages can make of the rows and of the index.
use dropwatch.Base.{
  List, [], ◌∷◌, ◌++◌, String, map, ◌≡◌, refl, sym, ◌∙◌, ap, Bool-cases, Option-cases, Result-cases,
  inl, inr, Result, ok, err,
}
use dropwatch.Settings.{Settings}
use dropwatch.Platform.{Platform}
use dropwatch.Session.{Session, Exec, and_then}
use dropwatch.Evaluator.Frame.{undated, undated_buckets}
use dropwatch.Base.Dicts.{lookup_name}
use dropwatch.Poller.{
  Quote, Message, Surroundings, Worker, ById, Targets, dropped, targets_of, names, is_empty,
  group_messages, record_price, observe, observe_all, delete_batch, complete, poll_pairs,
  process_batch, turn,
}
use dropwatch.Poller.Recorded.{evaluate-Extends}

-- The rules of the table and of the index are the same but for when they fired.
pub record Steady (s t : Session) : Type 0 where
  pub rules : map undated t.db.alert_rules ≡ map undated s.db.alert_rules
  pub index : undated_buckets t.index.buckets ≡ undated_buckets s.index.buckets

Steady-refl : (s : Session) → Steady s s
Steady-refl s = record { rules = refl; index = refl }

Steady-trans : {s t u : Session} → Steady s t → Steady t u → Steady s u
Steady-trans a b = record { rules = b.rules ∙ a.rules; index = b.index ∙ a.index }

and_then-Steady :
    {A B : Type 0} {s : Session} (m : Result A × Session) (f : A → Exec B)
    → Steady s m.1
    → ((a : A) (t : Session) → Steady t (f a t).1)
    → Steady s (and_then m f).1
and_then-Steady (ok a, t) f h k = Steady-trans h (k a t)
and_then-Steady (err e, t) f h k = h

module _ (P : Platform) (settings : Settings) (around : Surroundings) where
  observe-Steady : (p : _) (q : Quote) (s : Session) → Steady s (observe P settings around p q s).1
  unfolding record_price
  observe-Steady p q s =
      let h = evaluate-Extends P settings _ (record_price around.observed_at p q s) in
      record { rules = h.rules; index = h.index }

  pub observe_all-Steady :
      (quotes : List (String × Quote)) (ts : Targets) (s : Session)
      → Steady s (observe_all P settings around quotes ts s).1
  unfolding observe_all
  observe_all-Steady quotes [] s = Steady-refl s
  observe_all-Steady quotes ((name, (m, p)) ∷ rest) s =
      elim (Option-cases (lookup_name name quotes)) [
        | inl no_quote ↦ rw (observe_all, no_quote) (observe_all-Steady quotes rest s)
        | inr (q, quoted) ↦
            rw (observe_all, quoted)
              (and_then-Steady (observe P settings around p q s) _ (observe-Steady p q s)
                λ created t.
                  and_then-Steady (observe_all P settings around quotes rest t) _
                    (observe_all-Steady quotes rest t) λ ms u. Steady-refl u)
      ]

  abbrev observed :
      (quotes : List (String × Quote)) → Targets → Worker → Result (List Message) × Session
  observed quotes ts w =
      observe_all P settings around quotes ts (record { db = w.db; index = w.index })

  -- Nothing was observed; or the index is that of the observations, and the rows are as they were, or
  -- those of the observations, none of which raised.
  pub data Outcome (w w' : Worker) : Type 0 where
    nothing : w'.db ≡ w.db → w'.index ≡ w.index → Outcome w w'
    rolled_back :
        (quotes : List (String × Quote)) (ts : Targets)
        → w'.db ≡ w.db
        → w'.index ≡ (observed quotes ts w).1.index
        → Outcome w w'
    committed :
        (quotes : List (String × Quote)) (ts : Targets) (ms : List Message)
        → (observed quotes ts w).0 ≡ ok ms
        → w'.db ≡ (observed quotes ts w).1.db
        → w'.index ≡ (observed quotes ts w).1.index
        → Outcome w w'

  delete_batch-keeps :
      (ms : List Message) (w : Worker)
      → ((delete_batch P settings around ms w).1.db ≡ w.db)
        × ((delete_batch P settings around ms w).1.index ≡ w.index)
  unfolding delete_batch
  delete_batch-keeps [] w = (refl, refl)
  delete_batch-keeps (m ∷ ms) w = elim (Bool-cases around.deletes) [
    | inl accepted ↦ rw (delete_batch, accepted) (refl, refl)
    | inr refused ↦ rw (delete_batch, refused) (refl, refl)
  ]

  complete-Outcome :
      (gone : List Message) (quotes : List (String × Quote)) (ts : Targets) (w : Worker)
      (out : Result (List Message) × Session)
      → out ≡ observed quotes ts w
      → Outcome w (complete P settings around gone w out).1
  unfolding complete observe_all
  complete-Outcome gone quotes ts w (ok done, s) e = elim (Bool-cases around.commits) [
    | inl accepted ↦
        let (rows, index) =
          delete_batch-keeps (gone ++ done) (record w { db = s.db; index = s.index }) in
        rw (complete, accepted)
          (committed quotes ts done (sym (ap (λ x. x.0) e)) (rows ∙ ap (λ x. x.1.db) e)
            (index ∙ ap (λ x. x.1.index) e))
    | inr refused ↦ rw (complete, refused) (rolled_back quotes ts refl (ap (λ x. x.1.index) e))
  ]
  complete-Outcome gone quotes ts w (err e', s) e =
      rolled_back quotes ts refl (ap (λ x. x.1.index) e)

  poll_pairs-Outcome : (g : ById) (w : Worker) → Outcome w (poll_pairs P settings around g w).1
  unfolding poll_pairs
  poll_pairs-Outcome g w =
      let ts = targets_of g w.db.pairs [] in
      let (rows, index) = delete_batch-keeps (dropped g w.db.pairs) w in
      elim (Bool-cases (is_empty ts)) [
        | inl no_targets ↦ rw (poll_pairs, no_targets) (nothing rows index)
        | inr targets ↦ elim (Result-cases (around.get_quotes (names P settings around ts))) [
          | inr (e, fails) ↦ rw (poll_pairs, targets, fails) (nothing rows index)
          | inl (quotes, e) ↦
              rw (poll_pairs, targets, e)
                (complete-Outcome (dropped g w.db.pairs) quotes ts w _ refl)
        ]
      ]

  process_batch-Outcome :
      (received : List Message) (w : Worker)
      → Outcome w (process_batch P settings around received w).1
  unfolding process_batch
  process_batch-Outcome received w =
      elim (Result-cases (group_messages P settings around received [])) [
        | inr (e, fails) ↦ rw (process_batch, fails) (nothing refl refl)
        | inl (g, e) ↦ elim (Bool-cases (is_empty g)) [
          | inl none_left ↦ rw (process_batch, e, none_left) (nothing refl refl)
          | inr some_left ↦ rw (process_batch, e, some_left) (poll_pairs-Outcome g w)
        ]
      ]

  pub turn-Outcome :
      (received : List Message) (w : Worker) → Outcome w (turn P settings around received w)
  unfolding turn
  turn-Outcome received w = elim (Bool-cases (is_empty received)) [
    | inl idle ↦ rw (turn, idle) (nothing refl refl)
    | inr busy ↦ rw (turn, busy) (process_batch-Outcome received w)
  ]

  pub turn-Steady :
      (received : List Message) (w : Worker)
      → Steady
          (record { db = w.db; index = w.index })
          (record {
            db = (turn P settings around received w).db;
            index = (turn P settings around received w).index;
          })
  turn-Steady received w = steady (turn-Outcome received w)
    where
      steady :
          {v : Worker}
          → Outcome w v
          → Steady (record { db = w.db; index = w.index }) (record { db = v.db; index = v.index })
      steady (nothing rows index) = record {
        rules = ap (λ db. map undated db.alert_rules) rows;
        index = ap (λ i. undated_buckets i.buckets) index;
      }
      steady (rolled_back quotes ts rows index) = record {
        rules = ap (λ db. map undated db.alert_rules) rows;
        index =
            ap (λ i. undated_buckets i.buckets) index
            ∙ (observe_all-Steady quotes ts (record { db = w.db; index = w.index })).index;
      }
      steady (committed quotes ts ms e rows index) = record {
        rules =
            ap (λ db. map undated db.alert_rules) rows
            ∙ (observe_all-Steady quotes ts (record { db = w.db; index = w.index })).rules;
        index =
            ap (λ i. undated_buckets i.buckets) index
            ∙ (observe_all-Steady quotes ts (record { db = w.db; index = w.index })).index;
      }
