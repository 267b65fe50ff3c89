-- ===== src/Examples.antt =====
-- Tests of the modelled code, and its properties at concrete inputs.
mod Fixtures
mod Running
mod Provider
mod Setting
mod Measurement
mod Replay
mod Evaluation
mod Index
mod Queues
mod Markets
mod Polling
mod Scores
