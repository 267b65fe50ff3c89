-- ===== src/Scheduler/Claims.antt =====
-- workers/scheduler.py: the claims of `enqueue_due_pairs`, and the ticks that follow.
use dropwatch.Base.{
  ℕ, suc, ◌+◌, ◌*◌, ◌<◌, Bool, true, false, some, List, [], ◌∷◌, ◌++◌, map, ◌==◌, ◌≡◌, refl, sym,
  ◌∙◌, ap, arith, if◌then◌else◌, any, length, All, Bool-cases, Result-cases, inl, inr, Result, ok,
  err, ok-injective, value_of, state_of,
}
use mathlib.Core.List.{append_assoc, append-nil, map-append}
use dropwatch.Settings.{Settings}
use dropwatch.Models.{Pair}
use dropwatch.Platform.{Platform}
use dropwatch.Scheduler.{
  is_due, get_due_pairs, Tick, claim, sent, enqueue_from, enqueue_due_pairs, delay_of, settle,
}

abbrev pub is_among : List Pair → Pair → Bool
is_among due p = any (λ q. q.id == p.id) due

-- The row of a pair after a tick that enqueued the pairs `due`.
abbrev pub claimed : (due : List Pair) → (claimed_at : ℕ) → Pair → Pair
claimed due claimed_at p =
    if is_among due p then record p { last_checked_at = some claimed_at } else p

==_comm : (a b : ℕ) → (a == b) ≡ (b == a)
==_comm a b = ground arith

claimed-claim :
    (q : Pair) (due : List Pair) (claimed_at : ℕ) (p : Pair)
    → claimed due claimed_at (claim q.id claimed_at p) ≡ claimed (q ∷ due) claimed_at p
claimed-claim q due claimed_at p = elim (Bool-cases (p.id == q.id)) [
  | inl this ↦ elim (Bool-cases (is_among due p)) [
    | inl again ↦ rw (this, ==_comm q.id p.id, this, again)
    | inr once ↦ rw (this, ==_comm q.id p.id, this, once)
  ]
  | inr other ↦ rw (other, ==_comm q.id p.id, other)
]

map-claimed :
    (q : Pair) (due : List Pair) (claimed_at : ℕ) (ps : List Pair)
    → map (claimed due claimed_at) (map (claim q.id claimed_at) ps)
      ≡ map (claimed (q ∷ due) claimed_at) ps
map-claimed q due claimed_at [] = refl
map-claimed q due claimed_at (p ∷ ps) =
    λ i. claimed-claim q due claimed_at p i ∷ map-claimed q due claimed_at ps i

map-claimed-nil : (claimed_at : ℕ) (ps : List Pair) → map (claimed [] claimed_at) ps ≡ ps
map-claimed-nil claimed_at [] = refl
map-claimed-nil claimed_at (p ∷ ps) = rw (map-claimed-nil claimed_at ps)

abbrev pub ids : List Pair → List ℕ
ids = map (λ p. p.id)

abbrev pub queued_ids : Tick → List ℕ
queued_ids t = map (λ m. m.pair_id) t.queue

settle-ok :
    (commits : Bool) (before : List Pair) (count n : ℕ) (m : Result (Unit {0}) × Tick) (u : Tick)
    → settle commits before count m ≡ (ok n, u)
    → (m ≡ (ok tt, u)) × (n ≡ count)
settle-ok true before count n (ok _, t) u h =
    (λ i. (ok tt, state_of h i), sym (ok-injective (value_of h)))
settle-ok false before count n (ok _, t) u h = absurd (cc (value_of h))
settle-ok true before count n (err e, t) u h = absurd (cc (value_of h))
settle-ok false before count n (err e, t) u h = absurd (cc (value_of h))

empty_of_length : (ps : List Pair) → (length ps == 0) ≡ true → ps ≡ []
empty_of_length [] h = refl
empty_of_length (p ∷ ps) h = absurd (ground arith)

module _ (P : Platform) (settings : Settings) (send : ℕ → Bool) (commits : Bool)
    (claimed_at : ℕ) where
  -- The loop, when it comes to its end.
  pub enqueue_from-ok :
      (total index : ℕ) (due : List Pair) (t u : Tick)
      → enqueue_from P settings send claimed_at total index due t ≡ (ok tt, u)
      → (u.pairs ≡ map (claimed due claimed_at) t.pairs) × (queued_ids u ≡ queued_ids t ++ ids due)
  unfolding enqueue_from
  enqueue_from-ok total index [] t u h =
      let same : t ≡ u = ap (λ (x : Result (Unit {0}) × Tick). x.1) h in
      (
        sym (ap (λ (v : Tick). v.pairs) same) ∙ sym (map-claimed-nil claimed_at t.pairs),
        sym (ap queued_ids same) ∙ sym (append-nil (queued_ids t)),
      )
  enqueue_from-ok total index (p ∷ ps) t u h =
      elim (Result-cases (delay_of P settings send claimed_at total index)) [
        | inr (e, fails) ↦
            absurd (cc (ap (λ (x : Result (Unit {0}) × Tick). x.0) (rw (fails, enqueue_from) at h)))
        | inl (delay, e) ↦ elim (Bool-cases (send p.id)) [
          | inr refused ↦
              absurd (
                cc
                  (ap (λ (x : Result (Unit {0}) × Tick). x.0) (rw (e, enqueue_from, refused) at h)))
          | inl accepted ↦
              let (pairs, queue) =
                enqueue_from-ok total (suc index) ps (sent claimed_at delay p t) u
                  (rw (e, enqueue_from, accepted) at h) in
              (pairs ∙ map-claimed p ps claimed_at t.pairs, queue ∙ rw (map-append, append_assoc))
        ]
      ]

  -- A tick that returns has claimed exactly the pairs that were due, has sent one message for each
  -- of them in their order, and returns their number; every other row is as it was.
  pub enqueue_due_pairs-ok :
      (now n : ℕ) (t u : Tick)
      → enqueue_due_pairs P settings send commits now claimed_at t ≡ (ok n, u)
      → (u.pairs ≡ map (claimed (get_due_pairs now t.pairs) claimed_at) t.pairs)
        × (queued_ids u ≡ queued_ids t ++ ids (get_due_pairs now t.pairs))
        × (n ≡ length (get_due_pairs now t.pairs))
  unfolding enqueue_due_pairs
  enqueue_due_pairs-ok now n t u h = elim (Bool-cases (length due == 0)) [
    | inl idle ↦
        let h' : (ok 0, t) ≡ (ok n, u) = rw idle at h in
        let same : t ≡ u = ap (λ (x : Result ℕ × Tick). x.1) h' in
        let none_due = sym (empty_of_length due idle) in
        (
          sym (ap (λ (v : Tick). v.pairs) same)
              ∙ sym (map-claimed-nil claimed_at t.pairs)
              ∙ ap (λ d. map (claimed d claimed_at) t.pairs) none_due,
          sym (ap queued_ids same)
              ∙ sym (append-nil (queued_ids t))
              ∙ ap (λ d. queued_ids t ++ ids d) none_due,
          sym (ok-injective (ap (λ (x : Result ℕ × Tick). x.0) h')) ∙ ap length none_due,
        )
    | inr busy ↦
        let (ended, count) =
          settle-ok commits t.pairs (length due) n
            (enqueue_from P settings send claimed_at (length due) 0 due t) u (rw busy at h) in
        let (pairs, queue) = enqueue_from-ok (length due) 0 due t u ended in (pairs, queue, count)
  ]
    where
      due : List Pair
      due = get_due_pairs now t.pairs

still_claimed :
    (due : List Pair) (claimed_at now' : ℕ) (ps : List Pair)
    → All (λ p. now' < claimed_at + p.poll_interval_seconds * 1000000) ps
    → All (λ p. is_among due p ≡ false) (get_due_pairs now' (map (claimed due claimed_at) ps))
unfolding get_due_pairs
still_claimed due claimed_at now' [] h = tt
still_claimed due claimed_at now' (p ∷ ps) (soon, h) = elim (Bool-cases (is_among due p)) [
  | inl taken ↦
      let quiet : is_due now' (record p { last_checked_at = some claimed_at }) ≡ false =
        ground arith in
      rw (taken, quiet) (still_claimed due claimed_at now' ps h)
  | inr other ↦ elim (Bool-cases (is_due now' p)) [
    | inl again ↦ rw (other, again) (other, still_claimed due claimed_at now' ps h)
    | inr later ↦ rw (other, later) (still_claimed due claimed_at now' ps h)
  ]
]

module _ (P : Platform) (settings : Settings) (send : ℕ → Bool) (commits : Bool) where
  -- After a tick that returned, while no pair's interval since the claim is over, a later tick finds
  -- none of the pairs due that the tick enqueued.
  pub no_double_enqueue :
      (now claimed_at now' n : ℕ) (t u : Tick)
      → enqueue_due_pairs P settings send commits now claimed_at t ≡ (ok n, u)
      → All (λ p. now' < claimed_at + p.poll_interval_seconds * 1000000) t.pairs
      → All (λ p. is_among (get_due_pairs now t.pairs) p ≡ false) (get_due_pairs now' u.pairs)
  no_double_enqueue now claimed_at now' n t u h soon =
      let (pairs, _, _) = enqueue_due_pairs-ok P settings send commits claimed_at now n t u h in
      rw pairs (still_claimed (get_due_pairs now t.pairs) claimed_at now' t.pairs soon)
