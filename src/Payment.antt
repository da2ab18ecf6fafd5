-- ===== src/Payment.antt =====
-- services/payment-service: payments between accounts, and the receiving side of interbank
-- payments.
pub mod Interbank
pub mod Quote
pub mod Create
pub mod Allowed
pub mod Direct
mod Tests
