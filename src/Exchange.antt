-- ===== src/Exchange.antt =====
-- services/exchange-service: the rates of a day, and the exchange of money between two accounts.
pub mod Rates
pub mod Convert
pub mod Converted
mod Tests
