-- ===== src/Scripts/Subscriptions.antt =====
-- scripts/setup_sns.py and scripts/seed_user.py: that they may be run again.
use dropwatch.Base.{
  max, Bool, true, any, none, some, List, [], ◌∷◌, ◌++◌, String, find, length, ◌≡◌, refl, sym, ◌∙◌,
  ap, arith, Option-cases, Bool-cases, inl, inr,
}
use dropwatch.Models.{User, Db}
use dropwatch.Scripts.Setup.{
  Subscription, SnsAdmin, is_email_to, existing_email_subscription, ensure_email_subscription,
  ensure_sns, ensure_user,
}

abbrev pub flatten : {A : Type 0} → List (List A) → List A
flatten [] = []
flatten (page ∷ pages) = page ++ flatten pages

-- What the SNS documentation says of the calls.
pub record SnsLaws {State Arn : Type 0} (sns : SnsAdmin State Arn) : Type 0 where
  -- To create a topic that is there gives its ARN.
  pub topic_again :
      (name : String) (s : State)
      → sns.create_topic name (sns.create_topic name s).1 ≡ sns.create_topic name s
  pub topic_kept :
      (name email : String) (arn topic : Arn) (s : State)
      → sns.create_topic name s ≡ (arn, s)
      → sns.create_topic name (sns.subscribe topic email s).1
        ≡ (arn, (sns.subscribe topic email s).1)
  -- A subscription that is asked for is listed, over however many pages, with whatever ARN: while it is
  -- not confirmed, that is another text than `subscribe` returned.
  pub subscribed :
      (topic : Arn) (email : String) (s : State)
      → any
          (is_email_to email)
          (flatten (sns.subscription_pages topic (sns.subscribe topic email s).1))
        ≡ true

find-any :
    (test : Subscription → Bool) (xs : List Subscription)
    → any test xs ≡ true
    → (x : Subscription) × (find test xs ≡ some x)
find-any test [] h = absurd (cc h)
find-any test (x ∷ xs) h = elim (Bool-cases (test x)) [
  | inl passes ↦ (x, rw passes refl)
  | inr fails ↦ let (y, e) = find-any test xs (rw fails at h) in (y, rw fails e)
]

find-append :
    (test : Subscription → Bool) (xs ys : List Subscription)
    → find test xs ≡ none
    → find test (xs ++ ys) ≡ find test ys
find-append test [] ys h = refl
find-append test (x ∷ xs) ys h = elim (Bool-cases (test x)) [
  | inl passes ↦ absurd (cc (rw passes at h))
  | inr fails ↦ rw fails (find-append test xs ys (rw fails at h))
]

find-append_found :
    (test : Subscription → Bool) (xs ys : List Subscription) (x : Subscription)
    → find test xs ≡ some x
    → find test (xs ++ ys) ≡ some x
find-append_found test [] ys x h = absurd (cc h)
find-append_found test (y ∷ xs) ys x h = elim (Bool-cases (test y)) [
  | inl passes ↦ rw passes (rw passes at h)
  | inr fails ↦ rw fails (find-append_found test xs ys x (rw fails at h))
]

-- The search over the pages is a search over all their subscriptions.
existing-flatten :
    (email : String) (pages : List (List Subscription))
    → existing_email_subscription email pages ≡ find (is_email_to email) (flatten pages)
unfolding existing_email_subscription
existing-flatten email [] = refl
existing-flatten email (page ∷ pages) = elim (Option-cases (find (is_email_to email) page)) [
  | inl missing ↦
      rw (existing_email_subscription, missing)
        (existing-flatten email pages
          ∙ sym (find-append (is_email_to email) page (flatten pages) missing))
  | inr (s, there) ↦
      rw (existing_email_subscription, there)
        (sym (find-append_found (is_email_to email) page (flatten pages) s there))
]

module _ {State Arn : Type 0} (sns : SnsAdmin State Arn) (laws : SnsLaws sns) where
  ensure-there :
      (topic : Arn) (email : String) (s : State) (x : Subscription)
      → existing_email_subscription email (sns.subscription_pages topic s) ≡ some x
      → ensure_email_subscription sns topic email s ≡ (x.subscription_arn, s)
  unfolding ensure_email_subscription
  ensure-there topic email s x h = rw (ensure_email_subscription, h) refl

  ensure-missing :
      (topic : Arn) (email : String) (s : State)
      → existing_email_subscription email (sns.subscription_pages topic s) ≡ none
      → ensure_email_subscription sns topic email s ≡ sns.subscribe topic email s
  unfolding ensure_email_subscription
  ensure-missing topic email s h = rw (ensure_email_subscription, h) refl

  -- A second call finds the subscription, and changes nothing.
  ensure_email_subscription-again :
      (topic : Arn) (email : String) (s : State)
      → (ensure_email_subscription sns topic email
          (ensure_email_subscription sns topic email s).1).1
        ≡ (ensure_email_subscription sns topic email s).1
  ensure_email_subscription-again topic email s =
      elim (Option-cases (existing_email_subscription email (sns.subscription_pages topic s))) [
        | inr (x, there) ↦
            ap (λ (o : String × State). (ensure_email_subscription sns topic email o.1).1)
              (ensure-there topic email s x there)
        | inl missing ↦
            let (x, found) =
              find-any (is_email_to email) (flatten (sns.subscription_pages topic u))
                (laws.subscribed topic email s) in
            ap (λ (o : String × State). (ensure_email_subscription sns topic email o.1).1)
              (ensure-missing topic email s missing)
            ∙ ap (λ (o : String × State). o.1)
                (ensure-there topic email u x
                  (existing-flatten email (sns.subscription_pages topic u) ∙ found))
            ∙ ap (λ (o : String × State). o.1) (sym (ensure-missing topic email s missing))
      ]
    where
      u : State
      u = (sns.subscribe topic email s).1

  topic-kept :
      (name email : String) (arn topic : Arn) (s : State)
      → sns.create_topic name s ≡ (arn, s)
      → sns.create_topic name (ensure_email_subscription sns topic email s).1
        ≡ (arn, (ensure_email_subscription sns topic email s).1)
  unfolding ensure_email_subscription
  topic-kept name email arn topic s h =
      elim (Option-cases (existing_email_subscription email (sns.subscription_pages topic s))) [
        | inr (x, there) ↦ rw (ensure_email_subscription, there) h
        | inl missing ↦
            rw (ensure_email_subscription, missing) (laws.topic_kept name email arn topic s h)
      ]

  -- The set-up of the topic and its subscription, made again, gives the same topic and changes nothing,
  -- also where the subscription is still pending: no second confirmation is sent.
  pub ensure_sns-again :
      (name email : String) (s : State)
      → ((ensure_sns sns name email (ensure_sns sns name email s).1).1
          ≡ (ensure_sns sns name email s).1)
        × ((ensure_sns sns name email (ensure_sns sns name email s).1).0.0
            ≡ (ensure_sns sns name email s).0.0)
  unfolding ensure_sns
  ensure_sns-again name email s =
      let topic =
        topic-kept name email (sns.create_topic name s).0 (sns.create_topic name s).0
          (sns.create_topic name s).1 (laws.topic_again name s) in
      (
        rw topic (
            ensure_email_subscription-again (sns.create_topic name s).0 email
              (sns.create_topic name s).1),
        rw topic refl,
      )

-- Seeding the user, and again with any address, gives the same user and changes nothing the second
-- time; and there is one user afterwards, or as many as there were before.
pub ensure_user-again :
    (first second : String) (db : Db)
    → (ensure_user second (ensure_user first db).1 ≡ ensure_user first db)
      × (length (ensure_user first db).1.users ≡ max 1 (length db.users))
unfolding ensure_user
ensure_user-again first second db = go db.users
  where
    go :
        (users : List User)
        → (ensure_user second (ensure_user first (record db { users = users })).1
            ≡ ensure_user first (record db { users = users }))
          × (length (ensure_user first (record db { users = users })).1.users
              ≡ max 1 (length users))
    go [] = (refl, refl)
    go (user ∷ users) = (refl, omega arith)
