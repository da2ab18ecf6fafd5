-- ===== src/Payment/Interbank.antt =====
-- services/payment-service/handlers/interbank.go: the receiving side of the interbank two-phase
-- commit. The bank that sends prepares a transaction, this bank votes, and a commit or a rollback
-- follows. Routing numbers are only compared, so they are naturals.
pub mod State
pub mod Prepare
pub mod Commit
pub mod Postings
pub mod Votes
pub mod Acceptance
pub mod Settlement
pub mod Faults
mod Tests
