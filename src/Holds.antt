-- ===== src/Holds.antt =====
-- internal/domain/inventory/hold_service.go and hold_sweeper.go, over the ports of
-- internal/domain/ports.go. A port is a record of operations on a world `W`, which holds the state
-- of everything outside the service. What the environment supplies (the time, random values, the
-- state of the request's context) is an argument.
pub mod Ports
pub mod Service
pub mod Sweeper
pub mod System
pub mod Compensation
pub mod Expiry
pub mod Clearing
pub mod Api
pub mod Booking
pub mod Tests
