-- ===== src/Loan.antt =====
-- Loans: services/loan-service.
pub mod State
pub mod Rates
pub mod Application
pub mod Collection
pub mod Lifecycle
pub mod Tiers
pub mod Charged
pub mod Approved
mod Tests
