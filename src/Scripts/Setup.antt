-- ===== src/Scripts/Setup.antt =====
-- scripts/setup_sqs.py, scripts/setup_sns.py and scripts/seed_user.py: the set-up of the queues, the
-- topic and the user. SQS and SNS are parameters: a state, and the calls that the scripts make.
use text.Mathlib.Text.{◌==◌ as str_eq}
use dropwatch.Base.{◌+◌, Bool, ◌&&◌, Option, none, some, List, [], ◌∷◌, String, find}
use dropwatch.Models.{User, Db}

-- What the scripts call of the SQS client. `get_queue_url` gives none where it raises
-- `QueueDoesNotExist`.
pub record Sqs (State Url Attributes : Type 0) : Type 0 where
  pub get_queue_url : String → State → Option Url
  pub create_queue : String → Attributes → State → Url × State
  pub queue_arn : Url → State → String
  pub set_queue_attributes : Url → Attributes → State → State

-- The names of the two queues, and the attributes that the poll queue should have for a dead-letter
-- queue's ARN.
pub record QueueSettings (Attributes : Type 0) : Type 0 where
  pub sqs_poll_queue_name : String
  pub sqs_poll_dlq_name : String
  pub no_attributes : Attributes
  pub desired_attributes : (dlq_arn : String) → Attributes

module _ {State Url Attributes : Type 0} (sqs : Sqs State Url Attributes)
    (settings : QueueSettings Attributes) where
  open sqs use {get_queue_url, create_queue, queue_arn, set_queue_attributes}
  open settings use {sqs_poll_queue_name, sqs_poll_dlq_name, no_attributes, desired_attributes}

  -- `_get_or_create_queue_url`
  unfoldable pub get_or_create_queue_url : String → Attributes → State → Url × State
  get_or_create_queue_url name attributes s = elim (get_queue_url name s) [
    | some url ↦ (url, s)
    | none ↦ create_queue name attributes s
  ]

  unfoldable pub ensure_dlq : State → (Url × String) × State
  unfolding get_or_create_queue_url
  ensure_dlq s =
      let (url, t) = get_or_create_queue_url sqs_poll_dlq_name no_attributes s in
      ((url, queue_arn url t), t)

  unfoldable pub ensure_poll_queue : (dlq_arn : String) → State → Url × State
  unfolding get_or_create_queue_url
  ensure_poll_queue dlq_arn s =
      let (url, t) = get_or_create_queue_url sqs_poll_queue_name (desired_attributes dlq_arn) s in
      (url, set_queue_attributes url (desired_attributes dlq_arn) t)

  -- The poll queue's URL and the dead-letter queue's.
  unfoldable pub ensure_queues : State → (Url × Url) × State
  unfolding ensure_dlq ensure_poll_queue
  ensure_queues s =
      let (dlq, t) = ensure_dlq s in
      let (poll_url, u) = ensure_poll_queue dlq.1 t in ((poll_url, dlq.0), u)

pub record Subscription : Type 0 where
  pub protocol : String
  pub endpoint : String
  pub subscription_arn : String

-- What the scripts call of the SNS client; the pages of the paginator as lists.
pub record SnsAdmin (State Arn : Type 0) : Type 0 where
  pub create_topic : String → State → Arn × State
  pub subscription_pages : Arn → State → List (List Subscription)
  pub subscribe : Arn → (email : String) → State → String × State

abbrev pub is_email_to : String → Subscription → Bool
is_email_to email s = str_eq s.protocol "email" && str_eq s.endpoint email

-- The two loops of `_existing_email_subscription`.
unfoldable pub existing_email_subscription : String → List (List Subscription) → Option Subscription
existing_email_subscription email [] = none
existing_email_subscription email (page ∷ pages) =
    let later = existing_email_subscription email pages in
    elim (find (is_email_to email) page) [ some s ↦ some s | none ↦ later ]

module _ {State Arn : Type 0} (sns : SnsAdmin State Arn) where
  open sns use {create_topic, subscription_pages, subscribe}

  unfoldable pub ensure_email_subscription : Arn → (email : String) → State → String × State
  unfolding existing_email_subscription
  ensure_email_subscription topic_arn email s =
      elim (existing_email_subscription email (subscription_pages topic_arn s)) [
        | some existing ↦ (existing.subscription_arn, s)
        | none ↦ subscribe topic_arn email s
      ]

  -- `ensure_topic`, then the subscription.
  unfoldable pub ensure_sns : (sns_topic_name alert_email : String) → State → (Arn × String) × State
  unfolding ensure_email_subscription
  ensure_sns sns_topic_name alert_email s =
      let (topic_arn, t) = create_topic sns_topic_name s in
      let (subscription_arn, u) = ensure_email_subscription topic_arn alert_email t in
      ((topic_arn, subscription_arn), u)

-- `ensure_user`: some row, or else the new one.
unfoldable pub ensure_user : (alert_email : String) → Db → User × Db
ensure_user alert_email db = elim db.users [
  | user ∷ users ↦ (user, db)
  | [] ↦
      let user : User = record { id = db.next_id; contact = alert_email; created_at = db.now } in
      (user, record db { users = user ∷ []; next_id = db.next_id + 1 })
]
