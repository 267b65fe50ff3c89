-- ===== src/Lib.antt =====
-- dropwatch: price alerts on Kraken pairs. This library models the workers and the handlers that
-- decide which alerts are created, delivered and repeated. Paths are from the repository's root.
--
-- The program. The scheduler (workers/scheduler.py) sends one message for every pair that is due to
-- the poll queue. The poller (workers/poller.py) takes a batch of messages, fetches the quotes, adds
-- a row of price_history for every quote and, in the same transaction, evaluates the pair's rules
-- (rules/evaluator.py) against the index that the process keeps in memory (workers/rule_index.py).
-- A rule that fires becomes a notification and, unless it is in its cooldown, an outbox event, which
-- the publisher (workers/outbox_publisher.py) sends to SNS with retries. The discovery
-- (workers/discovery.py) keeps the table of pairs; the HTTP API (api/routes) writes rules and replays
-- them over the past.
--
-- The files.
--   Base, Base/Tests, Base/Lists, Base/Results, Base/Int, Base/Dicts, Base/Sorting: shared names and
--     lemmas; `Result` is a Python call that may raise, a dict is an association list, `sorted` is
--     Python's stable sort.
--   Decimal, Decimal/Order: `decimal.Decimal` in its default context, for finite values.
--   Platform: what the code takes from floats, the hash and the rendering of text, as parameters.
--   Settings, Models: config/settings.py and db/models.py. A row's id is a number, a time is a number
--     of microseconds; `Db` is the list of rows of each table.
--   Zscore, Zscore/Window, Zscore/Recent: workers/zscore_filter.py.
--   RuleIndex, RuleIndex/Buckets: workers/rule_index.py, the index and its rebuild;
--     RuleIndex/Freshness: its listener, its periodic refresh, and the halves of their rebuilds.
--   Session: the rows in the open transaction and the index, and calls that change them and may raise.
--   Evaluator: the tests of the five rule types, the cooldown and the queries; Evaluator/Text: the
--     hash, the key and the message; Evaluator/Firing: the loop that records the fires;
--     Evaluator/Evaluate: evaluate_rules_for_pair; Evaluator/Matching, Evaluator/Frame,
--     Evaluator/Idempotency, Evaluator/Consistency and Evaluator/Single: its proofs.
--   Scheduler, Scheduler/Claims, Scheduler/Stops: enqueue_due_pairs, get_due_pairs.
--   Outbox: publish_pending, _get_due_events, backoff_seconds; Outbox/Ticks, Outbox/Backoff,
--     Outbox/Returns, Outbox/Delivery, Outbox/Consistency: its proofs.
--   Discovery, Discovery/Hysteresis, Discovery/Decisions: run_discovery.
--   Poller, Poller/Recorded, Poller/Commit: process_batch.
--   Api/Rules, Api/Backtest, Api/Validity, Api/Cooldown: api/routes/rules.py.
--   Api/Pairs, Api/Tracking: api/routes/pairs.py.
--   Api/Alerts, Api/Diagnostics: api/routes/alerts.py.
--   Kraken/Symbols, Kraken/Requests, Kraken/Market: providers/kraken.py, the resolution of a symbol, the
--     throttle with the cache, and the three methods; Kraken/Suffix, Kraken/Resolution,
--     Kraken/Canonical, Kraken/Throttle, Kraken/Cache and Kraken/Snapshot: its proofs.
--   System/Steps: the whole program as a step relation, over the turns of the workers' loops and the
--     requests that write; System/Rows, System/Batches: what each step leaves as it is;
--     System/Soundness, System/Matches, System/Loads, System/Staleness: what holds of all reachable
--     states; System/Refresh: the periodic refresh from any state.
--   Scripts/Measure, Scripts/Rates: scripts/measure_zscore_filter.py; Scripts/Sweep, Scripts/Reduction,
--     Scripts/Moves: its proofs.
--   Scripts/Setup: scripts/setup_sqs.py, scripts/setup_sns.py, scripts/seed_user.py;
--     Scripts/Provisioning, Scripts/Subscriptions: their proofs.
--   Scripts/Survey, Scripts/Ranking: main.py.
--   Examples and the files below it: tests on a small database.
--
-- State. A function that changes rows takes a `Db` or a `Session` and gives the new one with its
-- result. An exception is a value: the evaluator keeps what it had written, and the caller that owns
-- the transaction gives back the rows it started from. The index is not rolled back, as in the code,
-- where the objects of the index are mutated before the commit. The objects of a rule in the index
-- are one object for each id.
--
-- Recursion is structural, on lists; the number of digits of a decimal is counted on fuel, of which
-- the number itself is enough, as it has no more digits than its value and one.
--
-- The steps. A transaction is one step. A rebuild of the index by one of the two tasks is two, its load
-- and its swap, with any steps between them, those of the other task's rebuild among them; the load may
-- fail. Time passes in steps of its own, of any length. A message of Redis may come or fail to come at
-- any step. Two fields of the state are not the program's: when the rules in the index were read, and
-- when a rule was last written.
--
-- Not modelled: the HTTP and AWS clients, Redis, the database driver, `time.monotonic`, the parsing of
-- numbers, `str.strip` and `str.upper`, which are parameters or absent; log output and the texts of the
-- reports; scripts/benchmark_rule_index.py and scripts/build_zscore_fixture.py, which time queries and
-- download data; the migrations; concurrent pollers, but for a key that another transaction has
-- inserted (`race`); negative window_seconds; NaN and infinite decimals; the rounding of stored prices to
-- eight decimals; integers beyond 32 bits, which the columns refuse; the rounding of floats in the
-- throttle's times. A query without an order gives the rows in the order of the table.
pub mod Base
pub mod Decimal
pub mod Settings
pub mod Models
pub mod Platform
pub mod Zscore
pub mod RuleIndex
pub mod Session
pub mod Evaluator
pub mod Scheduler
pub mod Outbox
pub mod Discovery
pub mod Poller
pub mod Api
pub mod System
pub mod Kraken
pub mod Scripts
mod Examples
