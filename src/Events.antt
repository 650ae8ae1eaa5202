-- ===== src/Events.antt =====
-- The events package: the event store, its HTTP surface and the schema of an event.
pub mod Store
pub mod App
pub mod Schema
