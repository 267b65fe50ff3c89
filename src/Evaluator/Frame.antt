-- ===== src/Evaluator/Frame.antt =====
-- rules/evaluator.py: the parts of the session that an evaluation reads and does not write.
use dropwatch.Base.{
  ℕ, ◌+◌, Bool, true, false, not, ◌||◌, none, List, [], ◌∷◌, ◌++◌, map, String, ◌≡◌, refl, ◌∙◌,
  arith, is_some, ◌==◌, any-append, Bool-cases, Result-cases, inl, inr, Result, ok, err,
}
use dropwatch.Models.{AlertRule, Db, get_rule, get_pair, Notification}
use dropwatch.Platform.{Platform}
use dropwatch.RuleIndex.{PairRules, Buckets, lookup_bucket}
use dropwatch.Session.{Session, Exec, and_then}
use dropwatch.Evaluator.{in_cooldown}
use dropwatch.Evaluator.Firing.{
  Observation, has_key, fired_at, touch_buckets, advance, Context, finish, deliver, fire_candidate,
  fire_candidates, message_of, add_event, new_notification, key_of,
}

-- A rule without its `last_fired_at`: what the rule says, as against when it fired.
abbrev pub undated : AlertRule → AlertRule
undated r = record r { last_fired_at = none }

abbrev pub undated_bucket : PairRules → PairRules
undated_bucket b = record {
  absolute_below = map undated b.absolute_below;
  absolute_above = map undated b.absolute_above;
  zscore_move = map undated b.zscore_move;
  percent_change = map undated b.percent_change;
  spread_widen = map undated b.spread_widen;
}

abbrev pub undated_buckets : Buckets → Buckets
undated_buckets [] = []
undated_buckets ((k, b) ∷ rest) = (k, undated_bucket b) ∷ undated_buckets rest

undated-fired_at : (k t : ℕ) (r : AlertRule) → undated (fired_at k t r) ≡ undated r
undated-fired_at k t r = ground arith

undated-touch :
    (k t : ℕ) (rs : List AlertRule) → map undated (map (fired_at k t) rs) ≡ map undated rs
undated-touch k t [] = refl
undated-touch k t (r ∷ rs) = rw (undated-fired_at k t r, undated-touch k t rs)

undated-touch_buckets :
    (k t : ℕ) (g : Buckets) → undated_buckets (touch_buckets k t g) ≡ undated_buckets g
unfolding touch_buckets
undated-touch_buckets k t [] = refl
undated-touch_buckets k t ((p, b) ∷ rest) = simp (undated-touch, undated-touch_buckets k t rest)

pub lookup-undated :
    (g : Buckets) (p : ℕ) → lookup_bucket (undated_buckets g) p ≡ undated_bucket (lookup_bucket g p)
unfolding lookup_bucket
lookup-undated [] p = refl
lookup-undated ((k, b) ∷ rest) p = elim (Bool-cases (k == p)) [
  | inl here ↦ rw here
  | inr there ↦ rw there (lookup-undated rest p)
]

-- Whether a rule with an id is in the table does not depend on the dates.
pub get_rule-undated :
    (k : ℕ) (rs : List AlertRule) → is_some (get_rule k (map undated rs)) ≡ is_some (get_rule k rs)
get_rule-undated k [] = refl
get_rule-undated k (r ∷ rs) = elim (Bool-cases (r.id == k)) [
  | inl here ↦ rw here
  | inr there ↦ rw there (get_rule-undated k rs)
]

pub record Extends (s t : Session) : Type 0 where
  pub history : t.db.price_history ≡ s.db.price_history
  pub pairs : t.db.pairs ≡ s.db.pairs
  pub users : t.db.users ≡ s.db.users
  pub now : t.db.now ≡ s.db.now
  pub rules : map undated t.db.alert_rules ≡ map undated s.db.alert_rules
  pub index : undated_buckets t.index.buckets ≡ undated_buckets s.index.buckets
  pub keys :
      (k : String) → has_key k s.db.notifications ≡ true → has_key k t.db.notifications ≡ true

pub Extends-refl : (s : Session) → Extends s s
Extends-refl s = record {
  history = refl;
  pairs = refl;
  users = refl;
  now = refl;
  rules = refl;
  index = refl;
  keys = λ k h. h;
}

pub Extends-trans : {s t u : Session} → Extends s t → Extends t u → Extends s u
Extends-trans a b = record {
  history = b.history ∙ a.history;
  pairs = b.pairs ∙ a.pairs;
  users = b.users ∙ a.users;
  now = b.now ∙ a.now;
  rules = b.rules ∙ a.rules;
  index = b.index ∙ a.index;
  keys = λ k h. b.keys k (a.keys k h);
}

Extends-advance : (k t : ℕ) {s u : Session} → Extends s u → Extends s (advance k t u)
unfolding advance
Extends-advance k t {s} {u} h = record {
  history = h.history;
  pairs = h.pairs;
  users = h.users;
  now = h.now;
  rules = undated-touch k t u.db.alert_rules ∙ h.rules;
  index = undated-touch_buckets k t u.index.buckets ∙ h.index;
  keys = h.keys;
}

has_key-append :
    (k : String) (ns : List Notification) (n : Notification)
    → has_key k ns ≡ true
    → has_key k (ns ++ n ∷ []) ≡ true
has_key-append k ns n h = rw (any-append, h)

-- Whether a candidate will create nothing: its key is taken, or the insert is refused.
abbrev pub blocked : (P : Platform) → Observation → Db → AlertRule → Bool
blocked P o db r =
    o.race (key_of P o r)
    || has_key (key_of P o r) db.notifications
    || not (is_some (get_rule r.id db.alert_rules))
    || not (is_some (get_pair o.pair.id db.pairs))

-- The session with the candidate's notification in it.
abbrev pub with_notification : (P : Platform) → Observation → AlertRule → Session → Session
with_notification P o r s = record s {
  db = record (s.db) {
    notifications = s.db.notifications ++ new_notification P o r s.db ∷ [];
    next_id = s.db.next_id + 1;
  };
}

pub and_then-Extends :
    {A B : Type 0} {s : Session} (m : Result A × Session) (f : A → Exec B)
    → Extends s m.1
    → ((a : A) (t : Session) → Extends t (f a t).1)
    → Extends s (and_then m f).1
and_then-Extends (ok a, t) f h k = Extends-trans h (k a t)
and_then-Extends (err e, t) f h k = h

module _ {P : Platform} (c : Context P) where
  pub finish-Extends :
      (r : AlertRule) (n : Notification) {s u : Session}
      → Extends s u
      → Extends s (finish P c r n u).1
  unfolding finish
  finish-Extends r n {s} {u} h = elim (Bool-cases (in_cooldown r c.observed_at)) [
    | inl cooling ↦ rw cooling (Extends-advance r.id c.observed_at h)
    | inr due ↦ elim (Result-cases (message_of P c r)) [
      | inl (message, e) ↦ rw (due, deliver, e) (Extends-advance r.id c.observed_at (added message))
      | inr (e, fails) ↦ rw (due, deliver, fails) h
    ]
  ]
    where
      added : (message : String) → Extends s (add_event P c r n message u).1
      added message = record {
        history = h.history;
        pairs = h.pairs;
        users = h.users;
        now = h.now;
        rules = h.rules;
        index = h.index;
        keys = h.keys;
      }

  pub fire_candidate-blocked :
      (r : AlertRule) (s : Session)
      → blocked P c.observation s.db r ≡ true
      → fire_candidate P c r s ≡ (ok none, s)
  unfolding fire_candidate
  fire_candidate-blocked r s h =
      elim (Bool-cases (has_key (key_of P c.observation r) s.db.notifications)) [
        | inl taken ↦ rw taken
        | inr free ↦ rw (free, rw free at h)
      ]

  pub fire_candidate-free :
      (r : AlertRule) (s : Session)
      → blocked P c.observation s.db r ≡ false
      → fire_candidate P c r s
        ≡ finish P c r
            (new_notification P c.observation r s.db)
            (with_notification P c.observation r s)
  unfolding fire_candidate
  fire_candidate-free r s h =
      elim (Bool-cases (has_key (key_of P c.observation r) s.db.notifications)) [
        | inl taken ↦ absurd (ground arith)
        | inr free ↦ rw (free, rw free at h)
      ]

  pub fire_candidate-Extends : (r : AlertRule) (s : Session) → Extends s (fire_candidate P c r s).1
  fire_candidate-Extends r s = elim (Bool-cases (blocked P c.observation s.db r)) [
    | inl stop ↦ rw (fire_candidate-blocked r s stop) (Extends-refl s)
    | inr go ↦ rw (fire_candidate-free r s go) (finish-Extends r _ added)
  ]
    where
      added : Extends s (with_notification P c.observation r s)
      added = record {
        history = refl;
        pairs = refl;
        users = refl;
        now = refl;
        rules = refl;
        index = refl;
        keys = λ k. has_key-append k s.db.notifications _;
      }

  pub fire_candidates-Extends :
      (rs : List AlertRule) (s : Session) → Extends s (fire_candidates P c rs s).1
  unfolding fire_candidates
  fire_candidates-Extends [] s = Extends-refl s
  fire_candidates-Extends (r ∷ rs) s =
      and_then-Extends (fire_candidate P c r s) _ (fire_candidate-Extends r s) λ created t.
        and_then-Extends (fire_candidates P c rs t) _ (fire_candidates-Extends rs t)
          λ rest u. Extends-refl u
