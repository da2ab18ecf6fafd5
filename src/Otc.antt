-- ===== src/Otc.antt =====
-- Options traded over the counter: services/otc-service.
pub mod State
pub mod Money
pub mod Statements
pub mod Compensation
pub mod Exercise
pub mod Parties
pub mod Columns
pub mod Stages
pub mod Undo
pub mod Reads
pub mod Runs
pub mod Whole
pub mod Balances
pub mod Shares
pub mod Holdings
pub mod Restored
pub mod Recovery
pub mod Recovered
pub mod Refused
mod Tests
pub mod Reverted
pub mod Portfolios
