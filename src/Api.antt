-- ===== src/Api.antt =====
-- api/routes: the handlers of the HTTP API.
pub mod Rules
pub mod Pairs
pub mod Tracking
pub mod Alerts
pub mod Diagnostics
pub mod Backtest
pub mod Cooldown
pub mod Validity
