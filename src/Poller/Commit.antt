-- ===== src/Poller/Commit.antt =====
-- workers/poller.py: the order of the commit and the deletion in `process_batch`.
use mathlib.Core.List.{append-nil}
use mathlib.Core.Path.{subst}
use dropwatch.Base.{
  List, [], ◌∷◌, ◌++◌, All, All-append, All-map, ◌≡◌, refl, sym, ◌∙◌, ap, Bool-cases, Result-cases,
  ◌⊎◌, inl, inr, Result, ok, err, Error, queue_error, value_of, state_of, err-injective,
}
use dropwatch.Settings.{Settings}
use dropwatch.Models.{Pair, PriceHistory}
use dropwatch.Platform.{Platform}
use dropwatch.Session.{Session}
use dropwatch.Poller.{
  Message, Surroundings, Worker, ById, dropped, targets_of, group_messages, observe_all,
  delete_batch, complete, poll_pairs, process_batch, is_empty, names,
}
use dropwatch.Poller.Recorded.{
  IsRecorded, IsGone, NamesPair, group_messages-NamesPair, dropped-IsGone, targets_of-AimsAt,
  observe_all-IsRecorded,
}

module _ (P : Platform) (settings : Settings) (around : Surroundings) where
  -- The message may be deleted: its pair is gone, or its observation is committed.
  abbrev pub IsDone : List Pair → List PriceHistory → Message → Type 0
  IsDone pairs history m = IsGone P settings around pairs m ⊎ IsRecorded P settings around history m

  -- A batch deletes `ms`, and each of them may be deleted.
  abbrev pub Deletes : Worker → Worker → Type 0
  Deletes w w' =
      (ms : List Message) × (w'.deleted ≡ w.deleted ++ ms)
      × All (IsDone w.db.pairs w'.db.price_history) ms

  -- The rows are as before, or it is the deletion after the commit that failed.
  abbrev pub FailsSafe : Worker → Error → Worker → Type 0
  FailsSafe w e w' = (w'.deleted ≡ w.deleted) × ((w'.db ≡ w.db) ⊎ (e ≡ queue_error))

  nothing_deleted : (w : Worker) → Deletes w w
  nothing_deleted w = ([], sym (append-nil w.deleted), tt)

  delete_batch-ok :
      (w v w' : Worker) (ms : List Message)
      → v.deleted ≡ w.deleted
      → delete_batch P settings around ms v ≡ (ok tt, w')
      → All (IsDone w.db.pairs v.db.price_history) ms
      → Deletes w w'
  unfolding delete_batch
  delete_batch-ok w v w' [] same h all =
      let e : v ≡ w' = state_of h in
      ([], sym (ap (λ (x : Worker). x.deleted) e) ∙ same ∙ sym (append-nil w.deleted), tt)
  delete_batch-ok w v w' (m ∷ ms) same h all = elim (Bool-cases around.deletes) [
    | inl accepted ↦
        subst (λ x. Deletes w x) (state_of (rw (delete_batch, accepted) at h))
          (m ∷ ms, ap (λ (d : List Message). d ++ m ∷ ms) same, all)
    | inr refused ↦ absurd (cc (value_of (rw (delete_batch, refused) at h)))
  ]

  delete_batch-err :
      (w v w' : Worker) (ms : List Message) (e : Error)
      → v.deleted ≡ w.deleted
      → delete_batch P settings around ms v ≡ (err e, w')
      → FailsSafe w e w'
  unfolding delete_batch
  delete_batch-err w v w' [] e same h = absurd (cc (value_of h))
  delete_batch-err w v w' (m ∷ ms) e same h = elim (Bool-cases around.deletes) [
    | inl accepted ↦ absurd (cc (value_of (rw (delete_batch, accepted) at h)))
    | inr refused ↦
        let h' : (err queue_error, v) ≡ (err e, w') = rw (delete_batch, refused) at h in
        (
          sym (ap (λ (x : Worker). x.deleted) (state_of h')) ∙ same,
          inr (sym (err-injective (value_of h'))),
        )
  ]

  complete-ok :
      (gone : List Message) (w w' : Worker) (r : Result (List Message) × Session)
      → All (IsGone P settings around w.db.pairs) gone
      → ((ms : List Message)
          → r.0 ≡ ok ms
          → All (IsRecorded P settings around r.1.db.price_history) ms)
      → complete P settings around gone w r ≡ (ok tt, w')
      → Deletes w w'
  unfolding complete
  complete-ok gone w w' (ok done, s) gs rs h = elim (Bool-cases around.commits) [
    | inl committed ↦ delete_batch-ok w _ w' (gone ++ done) refl (rw (complete, committed) at h) (
        All-append (IsDone w.db.pairs s.db.price_history) gone done (All-map (λ m. inl) gone gs)
          (All-map (λ m. inr) done (rs done refl)))
    | inr failed ↦ absurd (cc (value_of (rw (complete, failed) at h)))
  ]
  complete-ok gone w w' (err e, s) gs rs h = absurd (cc (value_of h))

  complete-err :
      (gone : List Message) (w w' : Worker) (r : Result (List Message) × Session) (e : Error)
      → complete P settings around gone w r ≡ (err e, w')
      → FailsSafe w e w'
  unfolding complete
  complete-err gone w w' (ok done, s) e h = elim (Bool-cases around.commits) [
    | inl committed ↦ delete_batch-err w _ w' (gone ++ done) e refl (rw (complete, committed) at h)
    | inr failed ↦ unchanged (state_of (rw (complete, failed) at h))
  ]
    where
      unchanged : record w { index = s.index } ≡ w' → FailsSafe w e w'
      unchanged k =
          (sym (ap (λ (x : Worker). x.deleted) k), inl (sym (ap (λ (x : Worker). x.db) k)))
  complete-err gone w w' (err e', s) e h =
      let k = state_of h in
      (sym (ap (λ (x : Worker). x.deleted) k), inl (sym (ap (λ (x : Worker). x.db) k)))

  poll_pairs-ok :
      (g : ById) (w w' : Worker)
      → All (NamesPair P settings around) g
      → poll_pairs P settings around g w ≡ (ok tt, w')
      → Deletes w w'
  unfolding poll_pairs
  poll_pairs-ok g w w' hs h = elim (Bool-cases (is_empty (targets_of g w.db.pairs []))) [
    | inl no_targets ↦ only_gone (rw (poll_pairs, no_targets) at h)
    | inr targets ↦
        elim (Result-cases
          (around.get_quotes (names P settings around (targets_of g w.db.pairs [])))) [
            | inr (e, fails) ↦ only_gone (rw (poll_pairs, targets, fails) at h)
            | inl (quotes, e) ↦
                let s : Session = record { db = w.db; index = w.index } in
                let out = observe_all P settings around quotes (targets_of g w.db.pairs []) s in
                complete-ok (dropped g w.db.pairs) w w' out
                  (dropped-IsGone P settings around g w.db.pairs hs)
                  (λ ms f.
                    (observe_all-IsRecorded P settings around quotes (targets_of g w.db.pairs []) s
                      ms out.1 (targets_of-AimsAt P settings around g w.db.pairs [] hs tt)
                      (λ i. (f i, out.1))).0)
                  (rw (poll_pairs, targets, e) at h)
          ]
  ]
    where
      only_gone :
          delete_batch P settings around (dropped g w.db.pairs) w ≡ (ok tt, w') → Deletes w w'
      only_gone k = delete_batch-ok w w w' (dropped g w.db.pairs) refl k (
          All-map (λ m. inl) (dropped g w.db.pairs)
            (dropped-IsGone P settings around g w.db.pairs hs))

  poll_pairs-err :
      (g : ById) (w w' : Worker) (e : Error)
      → poll_pairs P settings around g w ≡ (err e, w')
      → FailsSafe w e w'
  unfolding poll_pairs
  poll_pairs-err g w w' e h = elim (Bool-cases (is_empty (targets_of g w.db.pairs []))) [
    | inl no_targets ↦ delete_batch-err w w w' _ e refl (rw (poll_pairs, no_targets) at h)
    | inr targets ↦
        elim (Result-cases
          (around.get_quotes (names P settings around (targets_of g w.db.pairs [])))) [
            | inr (_, fails) ↦
                delete_batch-err w w w' _ e refl (rw (poll_pairs, targets, fails) at h)
            | inl (quotes, q) ↦
                complete-err (dropped g w.db.pairs) w w' _ e (rw (poll_pairs, targets, q) at h)
          ]
  ]

  -- A batch that returns deletes a message only if it names a pair that is not in the table, or a
  -- pair of which the committed history has a row with the time of this batch.
  pub process_batch-ok :
      (messages : List Message) (w w' : Worker)
      → process_batch P settings around messages w ≡ (ok tt, w')
      → Deletes w w'
  unfolding process_batch
  process_batch-ok messages w w' h =
      elim (Result-cases (group_messages P settings around messages [])) [
        | inr (e, fails) ↦ absurd (cc (value_of (rw (process_batch, fails) at h)))
        | inl (g, e) ↦ elim (Bool-cases (is_empty g)) [
          | inl nothing ↦
              subst (λ x. Deletes w x) (state_of (rw (process_batch, e, nothing) at h))
                (nothing_deleted w)
          | inr some_pair ↦
              poll_pairs-ok g w w' (group_messages-NamesPair P settings around messages [] g tt e)
                (rw (process_batch, e, some_pair) at h)
        ]
      ]

  -- A batch that raises deletes no message, and unless what raised is the deletion itself, leaves
  -- the committed rows as they were.
  pub process_batch-err :
      (messages : List Message) (w w' : Worker) (e : Error)
      → process_batch P settings around messages w ≡ (err e, w')
      → FailsSafe w e w'
  unfolding process_batch
  process_batch-err messages w w' e h =
      elim (Result-cases (group_messages P settings around messages [])) [
        | inr (_, fails) ↦ unchanged (state_of (rw (process_batch, fails) at h))
        | inl (g, q) ↦ elim (Bool-cases (is_empty g)) [
          | inl nothing ↦ absurd (cc (value_of (rw (process_batch, q, nothing) at h)))
          | inr some_pair ↦ poll_pairs-err g w w' e (rw (process_batch, q, some_pair) at h)
        ]
      ]
    where
      unchanged : w ≡ w' → FailsSafe w e w'
      unchanged k =
          (sym (ap (λ (x : Worker). x.deleted) k), inl (sym (ap (λ (x : Worker). x.db) k)))
