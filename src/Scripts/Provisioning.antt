-- ===== src/Scripts/Provisioning.antt =====
-- scripts/setup_sqs.py, scripts/setup_sns.py and scripts/seed_user.py: that they may be run again.
use dropwatch.Base.{some, String, ◌≡◌, refl, ◌∙◌, Option-cases, inl, inr}
use dropwatch.Scripts.Setup.{
  Sqs, QueueSettings, get_or_create_queue_url, ensure_dlq, ensure_poll_queue, ensure_queues,
}

-- What the SQS documentation says of the calls.
pub record SqsLaws {State Url Attributes : Type 0} (sqs : Sqs State Url Attributes) : Type 0 where
  -- A queue that was created is there under its name.
  pub created :
      (name : String) (a : Attributes) (s : State)
      → sqs.get_queue_url name (sqs.create_queue name a s).1 ≡ some (sqs.create_queue name a s).0
  -- A queue that is there stays there, with its ARN, when another call is made.
  pub create_keeps :
      (name other : String) (url : Url) (a : Attributes) (s : State)
      → sqs.get_queue_url other s ≡ some url
      → (sqs.get_queue_url other (sqs.create_queue name a s).1 ≡ some url)
        × (sqs.queue_arn url (sqs.create_queue name a s).1 ≡ sqs.queue_arn url s)
  pub set_keeps :
      (name : String) (url : Url) (a : Attributes) (s : State)
      → sqs.get_queue_url name (sqs.set_queue_attributes url a s) ≡ sqs.get_queue_url name s
  pub set_keeps_arn :
      (url other : Url) (a : Attributes) (s : State)
      → sqs.queue_arn other (sqs.set_queue_attributes url a s) ≡ sqs.queue_arn other s
  -- Attributes that are set once more are the same.
  pub set_again :
      (url : Url) (a : Attributes) (s : State)
      → sqs.set_queue_attributes url a (sqs.set_queue_attributes url a s)
        ≡ sqs.set_queue_attributes url a s

module _ {State Url Attributes : Type 0} (sqs : Sqs State Url Attributes) (laws : SqsLaws sqs)
    (settings : QueueSettings Attributes) where
  open settings use {sqs_poll_queue_name, sqs_poll_dlq_name, no_attributes, desired_attributes}

  get_or_create-there :
      (name : String) (a : Attributes) (s : State)
      → sqs.get_queue_url name (get_or_create_queue_url sqs settings name a s).1
        ≡ some (get_or_create_queue_url sqs settings name a s).0
  unfolding get_or_create_queue_url
  get_or_create-there name a s = elim (Option-cases (sqs.get_queue_url name s)) [
    | inl missing ↦ rw (get_or_create_queue_url, missing) (laws.created name a s)
    | inr (url, there) ↦ rw (get_or_create_queue_url, there) there
  ]

  get_or_create-keeps :
      (name other : String) (url : Url) (a : Attributes) (s : State)
      → sqs.get_queue_url other s ≡ some url
      → (sqs.get_queue_url other (get_or_create_queue_url sqs settings name a s).1 ≡ some url)
        × (sqs.queue_arn url (get_or_create_queue_url sqs settings name a s).1
            ≡ sqs.queue_arn url s)
  unfolding get_or_create_queue_url
  get_or_create-keeps name other url a s h = elim (Option-cases (sqs.get_queue_url name s)) [
    | inl missing ↦ rw (get_or_create_queue_url, missing) (laws.create_keeps name other url a s h)
    | inr (u, there) ↦ rw (get_or_create_queue_url, there) (h, refl)
  ]

  get_or_create-found :
      (name : String) (url : Url) (a : Attributes) (s : State)
      → sqs.get_queue_url name s ≡ some url
      → get_or_create_queue_url sqs settings name a s ≡ (url, s)
  unfolding get_or_create_queue_url
  get_or_create-found name url a s h = rw (get_or_create_queue_url, h) refl

  -- The set-up of the queues, made again, gives the same URLs and changes nothing.
  pub ensure_queues-again :
      (s : State)
      → ensure_queues sqs settings (ensure_queues sqs settings s).1 ≡ ensure_queues sqs settings s
  unfolding ensure_queues ensure_dlq ensure_poll_queue
  ensure_queues-again s =
      rw
        (
          get_or_create-found sqs_poll_dlq_name d no_attributes u dlq_there,
          arn_same,
          get_or_create-found sqs_poll_queue_name p wanted u poll_there,
          laws.set_again p wanted t1,
        )
        refl
    where
      d : Url
      d = (get_or_create_queue_url sqs settings sqs_poll_dlq_name no_attributes s).0

      t : State
      t = (get_or_create_queue_url sqs settings sqs_poll_dlq_name no_attributes s).1

      wanted : Attributes
      wanted = desired_attributes (sqs.queue_arn d t)

      p : Url
      p = (get_or_create_queue_url sqs settings sqs_poll_queue_name wanted t).0

      t1 : State
      t1 = (get_or_create_queue_url sqs settings sqs_poll_queue_name wanted t).1

      u : State
      u = sqs.set_queue_attributes p wanted t1

      kept :
          (sqs.get_queue_url sqs_poll_dlq_name t1 ≡ some d)
          × (sqs.queue_arn d t1 ≡ sqs.queue_arn d t)
      kept =
          get_or_create-keeps sqs_poll_queue_name sqs_poll_dlq_name d wanted t
            (get_or_create-there sqs_poll_dlq_name no_attributes s)

      dlq_there : sqs.get_queue_url sqs_poll_dlq_name u ≡ some d
      dlq_there = laws.set_keeps sqs_poll_dlq_name p wanted t1 ∙ kept.0

      poll_there : sqs.get_queue_url sqs_poll_queue_name u ≡ some p
      poll_there =
          laws.set_keeps sqs_poll_queue_name p wanted t1
          ∙ get_or_create-there sqs_poll_queue_name wanted t

      arn_same : sqs.queue_arn d u ≡ sqs.queue_arn d t
      arn_same = laws.set_keeps_arn p d wanted t1 ∙ kept.1
