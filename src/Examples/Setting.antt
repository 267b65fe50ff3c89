-- ===== src/Examples/Setting.antt =====
-- A small SQS and SNS on which the set-up runs.
use text.Mathlib.Text.{◌==◌ as str_eq}
use text.Mathlib.TextPositions.{eq_refl}
use dropwatch.Base.{
  Bool, true, false, ◌||◌, none, some, List, [], ◌∷◌, String, length, if◌then◌else◌, ◌≡◌, refl,
  arith,
}
use dropwatch.Models.{Db}
use dropwatch.Scripts.Setup.{
  Sqs, QueueSettings, ensure_queues, Subscription, SnsAdmin, ensure_sns, ensure_user,
}
use dropwatch.Scripts.Provisioning.{SqsLaws, ensure_queues-again}
use dropwatch.Scripts.Subscriptions.{SnsLaws, ensure_sns-again, ensure_user-again}
use dropwatch.Examples.Fixtures.{small_db}

-- Which queues there are, and their attributes.
abbrev Queues : Type 0
Queues = (String → Bool) × (String → String)

abbrev test_sqs : Sqs Queues String String
test_sqs = record {
  get_queue_url = λ name s. if s.0 name then some name else none;
  create_queue =
      λ name a s. (name, (λ n. str_eq n name || s.0 n, λ n. if str_eq n name then a else s.1 n));
  queue_arn = λ url s. url;
  set_queue_attributes = λ url a s. (s.0, λ n. if str_eq n url then a else s.1 n);
}

test_sqs-laws : SqsLaws test_sqs
test_sqs-laws = record {
  created = λ name a s. rw (eq_refl name) refl;
  create_keeps = λ name other url a s h. (kept name other url s h, refl);
  set_keeps = λ name url a s. refl;
  set_keeps_arn = λ url other a s. refl;
  set_again = λ url a s i. (s.0, λ n. twice (str_eq n url) a (s.1 n) i);
}
  where
    twice : (b : Bool) (a c : String) → (if b then a else if b then a else c) ≡ (if b then a else c)
    twice true a c = refl
    twice false a c = refl

    kept :
        (name other url : String) (s : Queues)
        → (if s.0 other then some other else none) ≡ some url
        → (if str_eq other name || s.0 other then some other else none) ≡ some url
    kept name other url s h = ground arith

abbrev queue_settings : QueueSettings String
queue_settings = record {
  sqs_poll_queue_name = "poll";
  sqs_poll_dlq_name = "poll-dlq";
  no_attributes = "";
  desired_attributes = λ arn. arn;
}

abbrev no_queues : Queues
no_queues = (λ n. false, λ n. "")

ensure_queues-again_example :
    ensure_queues test_sqs queue_settings (ensure_queues test_sqs queue_settings no_queues).1
    ≡ ensure_queues test_sqs queue_settings no_queues
ensure_queues-again_example = ensure_queues-again test_sqs test_sqs-laws queue_settings no_queues

-- One topic, whose subscriptions are one page and stay pending.
abbrev pending : String → Subscription
pending email = record {
  protocol = "email";
  endpoint = email;
  subscription_arn = "PendingConfirmation";
}

abbrev test_sns : SnsAdmin (List Subscription) String
test_sns = record {
  create_topic = λ name s. (name, s);
  subscription_pages = λ topic s. s ∷ [];
  subscribe = λ topic email s. ("pending confirmation", pending email ∷ s);
}

test_sns-laws : SnsLaws test_sns
test_sns-laws = record {
  topic_again = λ name s. refl;
  topic_kept = λ name email arn topic s h i. ((h i).0, (test_sns.subscribe topic email s).1);
  subscribed = λ topic email s. rw (eq_refl email) refl;
}

ensure_sns-again_example :
    ((ensure_sns test_sns "alerts" "me" (ensure_sns test_sns "alerts" "me" []).1).1
      ≡ (ensure_sns test_sns "alerts" "me" []).1)
    × ((ensure_sns test_sns "alerts" "me" (ensure_sns test_sns "alerts" "me" []).1).0.0
        ≡ (ensure_sns test_sns "alerts" "me" []).0.0)
ensure_sns-again_example = ensure_sns-again test_sns test_sns-laws "alerts" "me" []

abbrev no_users : Db
no_users = record small_db { users = [] }

ensure_user-again_example :
    (ensure_user "you" (ensure_user "me" no_users).1 ≡ ensure_user "me" no_users)
    × (length (ensure_user "me" no_users).1.users ≡ 1)
ensure_user-again_example = ensure_user-again "me" "you" no_users
