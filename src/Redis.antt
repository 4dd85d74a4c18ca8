-- ===== src/Redis.antt =====
-- The Redis commands that internal/adapter/cache/redis calls, as an interface: the server is not
-- part of the repository, so it is a record of operations with the laws that its documentation
-- states. `Keys` has the key names and the entries, `Scripts` the two Lua scripts, `Adapter` the
-- Go client of the scripts.
pub mod Keys
pub mod Server
pub mod Scripts
pub mod View
pub mod Adapter
pub mod Claims
pub mod Booked
pub mod Ledger
pub mod Memory
pub mod Tests
