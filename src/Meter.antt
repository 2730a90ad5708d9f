-- ===== src/Meter.antt =====
-- internal/meter: the cost of a call from the model's price.
pub mod Pricing
pub mod Cost
pub mod Prefix
pub mod Encoding
mod Examples
