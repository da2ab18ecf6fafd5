-- ===== src/Card.antt =====
-- services/card-service: card numbers, limits, the life of a card, and requests for new cards.
pub mod Luhn
pub mod Brand
pub mod Number
pub mod State
pub mod Lifecycle
pub mod Creation
pub mod Deactivated
pub mod Drawn
pub mod Terminal
mod Tests
