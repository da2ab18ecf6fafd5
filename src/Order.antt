-- ===== src/Order.antt =====
-- services/order-service: prices and commissions, approval by supervisors, and the settlement and
-- execution of orders.
pub mod State
pub mod Pricing
pub mod Limits
pub mod Approval
pub mod Decisions
pub mod Settlement
pub mod Funds
pub mod Execution
pub mod Within
pub mod Fills
mod Tests
