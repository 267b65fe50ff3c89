-- ===== src/Kraken.antt =====
-- providers/kraken.py: the provider of quotes and market data. What comes over the network, the clock
-- and the parsing of numbers are parameters.
pub mod Symbols
pub mod Suffix
pub mod Requests
pub mod Market
pub mod Resolution
pub mod Canonical
pub mod Throttle
pub mod Cache
pub mod Snapshot
