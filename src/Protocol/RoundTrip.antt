-- ===== src/Protocol/RoundTrip.antt =====
-- `DeserializeMessage` reads back what `SerializeMessage` writes.
mod Items
mod Parsed
mod Printed
mod Lookups
pub mod Messages
