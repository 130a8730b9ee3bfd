-- ===== src/Examples.antt =====
-- Example requests, and each theorem of the library at one of them.
mod Data
mod Payments
mod Replaying
mod Proxying
mod Settings
mod Access
mod Limiting
mod Reaching
mod Routing
mod Rolling
mod Administering
mod Operating
mod Tests
