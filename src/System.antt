-- ===== src/System.antt =====
-- The program as a whole: the workers and the handlers over one database, each transaction one step, and
-- each rebuild of the index two.
pub mod Steps
pub mod Batches
pub mod Rows
pub mod Soundness
pub mod Matches
pub mod Loads
pub mod Staleness
pub mod Refresh
