-- ===== src/Scheduler/Stops.antt =====
-- workers/scheduler.py: a tick of `enqueue_due_pairs` that raises.
use dropwatch.Base.{
  ℕ, suc, ◌+◌, arith, Bool, true, false, List, [], ◌∷◌, ◌++◌, ◌==◌, ◌≡◌, refl, sym, ◌∙◌, ap, All,
  length, Bool-cases, Result-cases, ◌⊎◌, inl, inr, Result, ok, err, Error, queue_error,
  commit_error, err-injective, value_of, state_of,
}
use mathlib.Core.Path.{subst}
use mathlib.Core.List.{append_assoc, append-nil, map-append}
use dropwatch.Settings.{Settings}
use dropwatch.Models.{Pair}
use dropwatch.Platform.{Platform}
use dropwatch.Scheduler.{
  get_due_pairs, Tick, sent, enqueue_from, enqueue_due_pairs, delay_of, settle,
}
use dropwatch.Scheduler.Claims.{ids, queued_ids, enqueue_from-ok}

module _ (P : Platform) (settings : Settings) (send : ℕ → Bool) (commits : Bool)
    (claimed_at : ℕ) where
  -- Why a tick that enqueues `total` pairs raised `e` before the due pairs `after`, of which the first
  -- has the number `index`: its message was refused, or its delay raised, or after all messages the
  -- commit failed.
  abbrev pub Stopped : (total index : ℕ) → Error → (after : List Pair) → Type 0
  Stopped total index e [] = (commits ≡ false) × (e ≡ commit_error)
  Stopped total index e (p ∷ ps) =
      ((send p.id ≡ false) × (e ≡ queue_error))
      ⊎ (delay_of P settings send claimed_at total index ≡ err e)

  -- The messages of the due pairs `before` were accepted and are in the queue, and the tick stopped
  -- before the due pairs `after`.
  pub record StopsAt (total index : ℕ) (due : List Pair) (e : Error) (t u : Tick) : Type 0 where
    pub before : List Pair
    pub after : List Pair
    pub split : due ≡ before ++ after
    pub accepted : All (λ p. send p.id ≡ true) before
    pub queued : queued_ids u ≡ queued_ids t ++ ids before
    pub stopped : Stopped total (index + length before) e after

  enqueue_from-err :
      (total index : ℕ) (due : List Pair) (e : Error) (t u : Tick)
      → enqueue_from P settings send claimed_at total index due t ≡ (err e, u)
      → StopsAt total index due e t u
  unfolding enqueue_from
  enqueue_from-err total index [] e t u h = absurd (cc (value_of h))
  enqueue_from-err total index (p ∷ ps) e t u h =
      elim (Result-cases (delay_of P settings send claimed_at total index)) [
        | inr (f, fails) ↦
            let h' : (◌≡◌ {A = Result (Unit {0}) × Tick} (err f, t) (err e, u)) =
              rw (fails, enqueue_from) at h in
            at_once (state_of h') (inr (fails ∙ ap err (err-injective (value_of h'))))
        | inl (delay, d) ↦ elim (Bool-cases (send p.id)) [
          | inr refused ↦
              let h' : (◌≡◌ {A = Result (Unit {0}) × Tick} (err queue_error, t) (err e, u)) =
                rw (d, enqueue_from, refused) at h in
              at_once (state_of h') (inl (refused, sym (err-injective (value_of h'))))
          | inl accepted ↦ further accepted delay (
              enqueue_from-err total (suc index) ps e (sent claimed_at delay p t) u
                (rw (d, enqueue_from, accepted) at h))
        ]
      ]
    where
      at_once : t ≡ u → Stopped total index e (p ∷ ps) → StopsAt total index (p ∷ ps) e t u
      at_once same why = record {
        before = [];
        after = p ∷ ps;
        split = refl;
        accepted = tt;
        queued = ap queued_ids (sym same) ∙ sym (append-nil (queued_ids t));
        stopped =
            let none_before : index + 0 ≡ index = omega arith in
            subst (λ n. Stopped total n e (p ∷ ps)) (sym none_before) why;
      }

      further :
          send p.id ≡ true
          → (delay : ℕ) → StopsAt total (suc index) ps e (sent claimed_at delay p t) u
          → StopsAt total index (p ∷ ps) e t u
      further taken delay s = record {
        before = p ∷ s.before;
        after = s.after;
        split = ap (λ l. p ∷ l) s.split;
        accepted = (taken, s.accepted);
        queued = s.queued ∙ rw (map-append, append_assoc);
        stopped =
            let moved : suc index + length s.before ≡ index + length (p ∷ s.before) = omega arith in
            subst (λ n. Stopped total n e s.after) moved s.stopped;
      }

  -- A loop that comes to its end has sent all its messages.
  enqueue_from-accepted :
      (total index : ℕ) (due : List Pair) (t u : Tick)
      → enqueue_from P settings send claimed_at total index due t ≡ (ok tt, u)
      → All (λ p. send p.id ≡ true) due
  unfolding enqueue_from
  enqueue_from-accepted total index [] t u h = tt
  enqueue_from-accepted total index (p ∷ ps) t u h =
      elim (Result-cases (delay_of P settings send claimed_at total index)) [
        | inr (e, fails) ↦
            absurd (cc (ap (λ (x : Result (Unit {0}) × Tick). x.0) (rw (fails, enqueue_from) at h)))
        | inl (delay, d) ↦ elim (Bool-cases (send p.id)) [
          | inr refused ↦
              absurd (
                cc
                  (ap (λ (x : Result (Unit {0}) × Tick). x.0) (rw (d, enqueue_from, refused) at h)))
          | inl accepted ↦ (
            accepted,
            enqueue_from-accepted total (suc index) ps (sent claimed_at delay p t) u
                (rw (d, enqueue_from, accepted) at h),
          )
        ]
      ]

  module _ (due : List Pair) (e : Error) (t u : Tick) where
    raised :
        (f : Error) (v : Tick)
        → enqueue_from P settings send claimed_at (length due) 0 due t ≡ (err f, v)
        → (◌≡◌ {A = Result ℕ × Tick} (err f, record v { pairs = t.pairs }) (err e, u))
        → (u.pairs ≡ t.pairs) × StopsAt (length due) 0 due e t u
    raised f v ended h =
        let s = enqueue_from-err (length due) 0 due f t v ended in
        (
          ap (λ (x : Tick). x.pairs) (sym (state_of h)),
          record {
            before = s.before;
            after = s.after;
            split = s.split;
            accepted = s.accepted;
            queued = ap queued_ids (sym (state_of h)) ∙ s.queued;
            stopped =
                subst (λ x. Stopped (length due) (0 + length s.before) x s.after)
                  (err-injective (value_of h)) s.stopped;
          },
        )

    settled :
        (c : Bool) (m : Result (Unit {0}) × Tick)
        → commits ≡ c
        → enqueue_from P settings send claimed_at (length due) 0 due t ≡ m
        → settle c t.pairs (length due) m ≡ (err e, u)
        → (u.pairs ≡ t.pairs) × StopsAt (length due) 0 due e t u
    settled true (ok _, v) _ ended h = absurd (cc (value_of h))
    settled false (ok _, v) fails ended h = (
      ap (λ (x : Tick). x.pairs) (sym (state_of h)),
      record {
        before = due;
        after = [];
        split = sym (append-nil due);
        accepted = enqueue_from-accepted (length due) 0 due t v ended;
        queued =
            ap queued_ids (sym (state_of h))
            ∙ (enqueue_from-ok P settings send commits claimed_at (length due) 0 due t v ended).1;
        stopped = (fails, sym (err-injective (value_of h)));
      },
    )
    settled true (err f, v) _ ended h = raised f v ended h
    settled false (err f, v) _ ended h = raised f v ended h

  -- A tick that raises leaves every row as it was, and in the queue the messages of the first due
  -- pairs, which were all accepted: those before the pair whose message was refused or whose delay
  -- raised, or else all of them, where the commit failed.
  pub enqueue_due_pairs-err :
      (now : ℕ) (e : Error) (t u : Tick)
      → enqueue_due_pairs P settings send commits now claimed_at t ≡ (err e, u)
      → (u.pairs ≡ t.pairs)
        × StopsAt (length (get_due_pairs now t.pairs)) 0 (get_due_pairs now t.pairs) e t u
  unfolding enqueue_due_pairs
  enqueue_due_pairs-err now e t u h =
      let due = get_due_pairs now t.pairs in
      elim (Bool-cases (length due == 0)) [
        | inl idle ↦ absurd (cc (ap (λ (x : Result ℕ × Tick). x.0) (rw idle at h)))
        | inr busy ↦
            settled due e t u commits (enqueue_from P settings send claimed_at (length due) 0 due t)
              refl refl (rw busy at h)
      ]
