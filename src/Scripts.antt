-- ===== src/Scripts.antt =====
-- scripts/*.py: the offline measurement of the filter, and the set-up of the user and the queues.
pub mod Measure
pub mod Sweep
pub mod Reduction
pub mod Setup
pub mod Rates
pub mod Moves
pub mod Survey
pub mod Ranking
pub mod Provisioning
pub mod Subscriptions
