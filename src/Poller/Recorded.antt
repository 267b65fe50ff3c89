-- ===== src/Poller/Recorded.antt =====
-- workers/poller.py: the messages that one batch reads, drops and observes.
use text.Mathlib.Text.{◌==◌ as str_eq}
use mathlib.Core.Path.{subst}
use dropwatch.Base.{
  ℕ, Bool, true, false, ◌&&◌, Option, none, some, List, [], ◌∷◌, String, ◌==◌, is_some, any,
  any-append, All, ◌≡◌, sym, ◌∙◌, ap, arith, ==_refl, ==_iff, Bool-cases, Option-cases,
  Result-cases, ◌⊎◌, inl, inr, Result, ok, ok-injective, >>=-eq-ok, value_of, state_of,
}
use dropwatch.Settings.{Settings}
use dropwatch.Models.{Pair, PriceHistory, get_pair}
use dropwatch.Platform.{Platform}
use dropwatch.Session.{Session, and_then-eq-ok}
use dropwatch.Evaluator.Firing.{Observation}
use dropwatch.Evaluator.Evaluate.{evaluate_rules_for_pair, candidates_for}
use dropwatch.RuleIndex.{rules_for_pair}
use dropwatch.Evaluator.Frame.{Extends, Extends-refl, fire_candidates-Extends}
use dropwatch.Base.Dicts.{put_id, put_name, lookup_name}
use dropwatch.Poller.{
  Quote, Message, Surroundings, ById, Targets, noted, add_target, dropped, targets_of, record_price,
  parse_pair_id, group_messages, observe, observe_all,
}

-- An evaluation, also one that raises, extends the session.
pub evaluate-Extends :
    (P : Platform) (settings : Settings) (o : Observation) (s : Session)
    → Extends s (evaluate_rules_for_pair P settings o s).1
unfolding evaluate_rules_for_pair
evaluate-Extends P settings o s =
    elim (Result-cases
      (candidates_for P settings s.db.price_history o (rules_for_pair s.index o.pair.id))) [
        | inl ((c, rules), e) ↦ rw (evaluate_rules_for_pair, e) (fire_candidates-Extends c rules s)
        | inr (e, fails) ↦ rw (evaluate_rules_for_pair, fails) (Extends-refl s)
      ]

some-injective : {A : Type 0} {a b : A} → some a ≡ some b → a ≡ b
some-injective h = cc

get_pair-id : (k : ℕ) (ps : List Pair) (p : Pair) → get_pair k ps ≡ some p → p.id ≡ k
get_pair-id k [] p h = absurd (cc h)
get_pair-id k (q ∷ ps) p h = elim (Bool-cases (q.id == k)) [
  | inl here ↦
      ap (λ (x : Pair). x.id) (sym (some-injective (rw here at h))) ∙ (==_iff q.id k).0 here
  | inr there ↦ get_pair-id k ps p (rw there at h)
]

-- A row of the pair `k`, observed at `t`.
abbrev pub has_price : (k t : ℕ) → List PriceHistory → Bool
has_price k t = any (λ h. h.pair_id == k && h.observed_at == t)

record_price-has_price :
    (t : ℕ) (p : Pair) (q : Quote) (s : Session)
    → has_price p.id t (record_price t p q s).db.price_history ≡ true
unfolding record_price
record_price-has_price t p q s = rw (any-append, ==_refl p.id, ==_refl t) (ground arith)

record_price-keeps :
    (k t : ℕ) (p : Pair) (q : Quote) (s : Session)
    → has_price k t s.db.price_history ≡ true
    → has_price k t (record_price t p q s).db.price_history ≡ true
unfolding record_price
record_price-keeps k t p q s h = rw (any-append, h)

module _ (P : Platform) (settings : Settings) (around : Surroundings) where
  open around use {observed_at}

  -- The message names a pair, of which there is a row of this batch.
  abbrev pub IsRecorded : List PriceHistory → Message → Type 0
  IsRecorded history m =
      (k : ℕ) × (parse_pair_id P settings around m ≡ ok (some k))
      × (has_price k observed_at history ≡ true)

  -- The message names a pair that is not in the table.
  abbrev pub IsGone : List Pair → Message → Type 0
  IsGone pairs m =
      (k : ℕ) × (parse_pair_id P settings around m ≡ ok (some k))
      × (is_some (get_pair k pairs) ≡ false)

  abbrev pub NamesPair : ℕ × Message → Type 0
  NamesPair (k, m) = parse_pair_id P settings around m ≡ ok (some k)

  abbrev pub AimsAt : String × (Message × Pair) → Type 0
  AimsAt (name, (m, p)) = parse_pair_id P settings around m ≡ ok (some p.id)

  put_id-NamesPair :
      (k : ℕ) (m : Message) (g : ById)
      → NamesPair (k, m)
      → All NamesPair g
      → All NamesPair (put_id k m g)
  unfolding put_id
  put_id-NamesPair k m [] h hs = (h, tt)
  put_id-NamesPair k m ((j, n) ∷ rest) h (g, hs) = elim (Bool-cases (j == k)) [
    | inl same ↦ rw same (h ∙ ap (λ (x : ℕ). ok (some x)) (sym ((==_iff j k).0 same)), hs)
    | inr apart ↦ rw apart (g, put_id-NamesPair k m rest h hs)
  ]

  noted-NamesPair :
      (k : Option ℕ) (m : Message) (g : ById)
      → parse_pair_id P settings around m ≡ ok k
      → All NamesPair g
      → All NamesPair (noted k m g)
  noted-NamesPair none m g h hs = hs
  noted-NamesPair (some k) m g h hs = put_id-NamesPair k m g h hs

  pub group_messages-NamesPair :
      (ms : List Message) (g g' : ById)
      → All NamesPair g
      → group_messages P settings around ms g ≡ ok g'
      → All NamesPair g'
  unfolding group_messages
  group_messages-NamesPair [] g g' hs h = subst (λ x. All NamesPair x) (ok-injective h) hs
  group_messages-NamesPair (m ∷ ms) g g' hs h =
      let (k, e, h') = >>=-eq-ok (parse_pair_id P settings around m) _ h in
      group_messages-NamesPair ms (noted k m g) g' (noted-NamesPair k m g e hs) h'

  pub dropped-IsGone :
      (g : ById) (pairs : List Pair) → All NamesPair g → All (IsGone pairs) (dropped g pairs)
  unfolding dropped
  dropped-IsGone [] pairs hs = tt
  dropped-IsGone ((k, m) ∷ rest) pairs (h, hs) = elim (Bool-cases (is_some (get_pair k pairs))) [
    | inl there ↦ rw there (dropped-IsGone rest pairs hs)
    | inr gone ↦ rw gone ((k, h, gone), dropped-IsGone rest pairs hs)
  ]

  put_name-AimsAt :
      (name : String) (m : Message) (p : Pair) (ts : Targets)
      → AimsAt (name, (m, p))
      → All AimsAt ts
      → All AimsAt (put_name name (m, p) ts)
  unfolding put_name
  put_name-AimsAt name m p [] h hs = (h, tt)
  put_name-AimsAt name m p ((j, w) ∷ rest) h (g, hs) = elim (Bool-cases (str_eq j name)) [
    | inl same ↦ rw same (h, hs)
    | inr apart ↦ rw apart (g, put_name-AimsAt name m p rest h hs)
  ]

  pub targets_of-AimsAt :
      (g : ById) (pairs : List Pair) (ts : Targets)
      → All NamesPair g
      → All AimsAt ts
      → All AimsAt (targets_of g pairs ts)
  unfolding targets_of
  targets_of-AimsAt [] pairs ts hs ts_aim = ts_aim
  targets_of-AimsAt ((k, m) ∷ rest) pairs ts (h, hs) ts_aim =
      targets_of-AimsAt rest pairs _ hs (added (Option-cases (get_pair k pairs)))
    where
      added :
          (get_pair k pairs ≡ none) ⊎ ((p : Pair) × (get_pair k pairs ≡ some p))
          → All AimsAt (add_target (get_pair k pairs) m ts)
      added (inl gone) = rw gone ts_aim
      added (inr (p, found)) = rw found (
          put_name-AimsAt p.kraken_pair_name m p ts
            (h ∙ ap (λ (x : ℕ). ok (some x)) (sym (get_pair-id k pairs p found))) ts_aim)

  observed-history :
      (p : Pair) (q : Quote) (s : Session)
      → (observe P settings around p q s).1.db.price_history
        ≡ (record_price observed_at p q s).db.price_history
  observed-history p q s = (evaluate-Extends P settings _ (record_price observed_at p q s)).history

  IsRecorded-keeps :
      (before after : List PriceHistory)
      → ((k : ℕ) → has_price k observed_at before ≡ true → has_price k observed_at after ≡ true)
      → (ms : List Message) → All (IsRecorded before) ms
      → All (IsRecorded after) ms
  IsRecorded-keeps before after keeps [] hs = tt
  IsRecorded-keeps before after keeps (m ∷ ms) ((k, e, h), hs) =
      ((k, e, keeps k h), IsRecorded-keeps before after keeps ms hs)

  -- All of `ms` are recorded in `u`, and what `s` has recorded still is.
  abbrev pub Progress : Session → List Message → Session → Type 0
  Progress s ms u =
      All (IsRecorded u.db.price_history) ms
      × ((k : ℕ)
          → has_price k observed_at s.db.price_history ≡ true
          → has_price k observed_at u.db.price_history ≡ true)

  Progress-at :
      (s u v : Session) (ms done : List Message)
      → (◌≡◌ {A = Result (List Message) × Session} (ok done, v) (ok ms, u))
      → Progress s done v
      → Progress s ms u
  Progress-at s u v ms done h progress =
      subst (λ x. Progress s x u) (ok-injective (value_of h))
        (subst (λ x. Progress s done x) (state_of h) progress)

  Progress-cons :
      (m : Message) (p : Pair) (q : Quote) (s u : Session) (ms : List Message)
      → AimsAt (m.message_id, (m, p))
      → Progress (observe P settings around p q s).1 ms u
      → Progress s (m ∷ ms) u
  Progress-cons m p q s u ms aims (recorded, keeps) = (
    (
      (
        p.id,
        aims,
        keeps p.id (rw (observed-history p q s) (record_price-has_price observed_at p q s)),
      ),
      recorded,
    ),
    λ k g. keeps k (rw (observed-history p q s) (record_price-keeps k observed_at p q s g)),
  )

  pub observe_all-IsRecorded :
      (quotes : List (String × Quote)) (ts : Targets) (s : Session) (ms : List Message)
      (u : Session)
      → All AimsAt ts
      → observe_all P settings around quotes ts s ≡ (ok ms, u)
      → Progress s ms u
  unfolding observe_all
  observe_all-IsRecorded quotes [] s ms u hs h = Progress-at s u s ms [] h (tt, λ k g. g)
  observe_all-IsRecorded quotes ((name, (m, p)) ∷ rest) s ms u (aims, hs) h =
      elim (Option-cases (lookup_name name quotes)) [
        | inl no_quote ↦
            observe_all-IsRecorded quotes rest s ms u hs (rw (no_quote, observe_all) at h)
        | inr (q, quoted) ↦
            let (fired, e, h1) =
              and_then-eq-ok (observe P settings around p q s) _ (rw (quoted, observe_all) at h) in
            let (done, f, h2) =
              and_then-eq-ok
                (observe_all P settings around quotes rest (observe P settings around p q s).1) _
                h1 in
            let v =
              (observe_all P settings around quotes rest (observe P settings around p q s).1).1 in
            Progress-at s u v ms (m ∷ done) h2 (
              Progress-cons m p q s v done aims (
                observe_all-IsRecorded quotes rest (observe P settings around p q s).1 done v hs
                  (λ i. (f i, v))))
      ]
