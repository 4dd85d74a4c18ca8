-- ===== src/Lib.antt =====
-- Models of the booking backend of Doki Hotels, a Go service. Its core is a two-tier inventory
-- engine: Redis counts short-lived holds of rooms by two Lua scripts, and PostgreSQL keeps the
-- reservations and the daily allocations. Around it stand the property and user accounts, with
-- role and scope checks on the admin routes.
--
-- The parts, and the files that model them:
-- - Prelude: numbers, lists and tests. Prelude.Int: integers, with Go's 64-bit wrap-around.
-- - Errors (internal/domain/errors.go, internal/domain/identity/repository.go,
--   internal/domain/property/repository.go): the sentinel errors, wrapped errors and `errors.Is`.
--   Two variables of one name in two packages are two constructors.
-- - Money (pkg/types/money.go): `NewMoney` is new_money, `Add` add, `Percentage` percentage,
--   `String` print. JSON and database encodings are the standard library's and are left out.
-- - Clock: times are nanoseconds from the zero time, and dates are days; the loop over the nights of
--   a stay is nights_loop.
-- - Redis: internal/adapter/cache/redis. Redis.Server is an interface of the commands that the
--   scripts use, a parameter of everything above it, with the documented behaviour of each command
--   as laws; Redis.Memory is an instance of it that can be run. Redis.Scripts holds
--   scripts/inventory_hold.lua and scripts/inventory_release.lua, Redis.Adapter the client of
--   inventory_hold_adapter.go (`AcquireFastHold` is acquire_fast_hold, `ReleaseFastHold` is
--   release_fast_hold, the retry of EvalSha by Eval is eval). A network is a list of what becomes of
--   the calls: a call may be refused, or run and lose its reply. Redis.Booked has the steps that
--   clients can take in any order, and the invariant of the server; Redis.Ledger is an abstract
--   ledger of claims, without counters and lists, that the scripts are measured against.
-- - Reservations: internal/adapter/repository/postgres/reservation_repo.go over the table of
--   migrations/000004_init_reservation_schema.up.sql, a list of rows. A list of faults says what
--   becomes of the calls: refused, or run with the reply lost.
-- - Holds: internal/domain/inventory/hold_service.go (Holds.Service) and hold_sweeper.go
--   (Holds.Sweeper) over the ports of internal/domain/ports.go (Holds.Ports); Holds.System fills the
--   ports with the Redis client and the reservations, as cmd/api/main.go and cmd/worker/main.go do.
--   Holds.Api is the handler of internal/adapter/http/v1/hold_handler.go by its statuses, with
--   `time.Parse` as Clock.Dates.parse_date and `uuid.Parse` as a parameter.
-- - Inventory: internal/adapter/repository/postgres/inventory_repo.go over the table of
--   migrations/000003_init_inventory_schema.up.sql with its check and its unique key. A
--   transaction works on a table aside until its commit.
-- - Allocations: internal/domain/inventory/allocation_service.go over its two repositories.
-- - Access: internal/adapter/http/middleware/rbac.go, the roles of internal/domain/identity/user.go,
--   and the admin routes of internal/adapter/http/router.go (Access.Routes). `uuid.Parse` is a
--   parameter.
-- - Identity: internal/adapter/repository/postgres/user_repo.go (Identity),
--   internal/domain/identity/auth_service.go (Identity.Service) and the statuses of
--   internal/adapter/http/v1/auth_handler.go (Identity.Api). bcrypt and the issuer of tokens are
--   parameters. Identity.Registering follows a registration to the first login.
--   Identity.Tokens has the issuer of internal/platform/auth/jwt.go and `AuthMiddleware` of
--   internal/adapter/http/middleware/auth.go; the JWT library is a parameter with its laws.
-- - Properties: internal/domain/property/property.go with the tables of
--   migrations/000002_init_property_schema.up.sql (Properties), the repository of
--   internal/adapter/repository/postgres/property_repo.go (Properties.Repo), the service of
--   internal/domain/property/service.go (Properties.Service) and the handlers of
--   internal/adapter/http/v1/admin_property_handler.go (Properties.Api). Unicode's table of capital
--   letters, the database's collation and its casts of times and coordinates are parameters.
-- - Search: internal/adapter/http/v1/search_handler.go. Search.Query is the availability query over
--   the tables of Properties and Inventory, Search.Handler the reading of the parameters and the
--   answer, and Search the grouping of the rows and the pages, with 64-bit indices; a panic is
--   `none`. ILIKE is a parameter. A stay is taken to be shorter than the 292 years of a
--   `time.Duration`.
-- - Idempotency: internal/adapter/http/middleware/idempotency.go, the requests with one key as a
--   state machine over the two Redis keys that they share.
-- - Workers: internal/platform/worker/hold_expiry_worker.go (`Run` is run_hold_expiry_worker, `RunOnce`
--   expiry_sweep) and allocation_sweeper.go (run_allocation_sweeper, allocation_sweep), and the `-once`
--   mode of cmd/worker/main.go (run_once). What `select` receives is a list of events.
-- - Migrate: cmd/migrate/main.go (`main` is run_migrate) over the engine of golang-migrate, a parameter
--   with its documented behaviour as laws.
-- - Columns: how PostgreSQL assigns a text to a VARCHAR(n) of the tables in migrations.
-- - Faults: a call of a database that may be refused, or whose reply may be lost.
-- - The Tests modules run the models and apply the theorems to concrete inputs.
--
-- State is passed explicitly; a method takes the state and returns its result with the new state.
-- Random ids, tokens and the time are arguments. An error is a value of Err, and a Go pair of a
-- value and an error is a Result. UUIDs are numbers, with 0 for the nil UUID.
--
-- Fuel: only the loop over the nights of a stay has any, one round for each begun day of the stay
-- and two more, which is more than the loop can use. Every other loop is structural.
--
-- Left out: logging, metrics and connection pools (internal/platform), the wiring, flags and signals
-- (cmd), the intervals of the workers' tickers, the parsing of JSON (internal/adapter/http/v1/dto has its shapes),
-- the times at which rows were made, and the types of internal/domain/billing, which no code uses.
-- Concurrent transactions of PostgreSQL are taken one after the other, as its row locks order them;
-- the rows that another sweeper has locked are skipped, and
-- no other client writes between the select and the updates of a sweep, though the code's locks end
-- with the select. The lifetime of keys is modelled in the Redis
-- server, and the steps of Redis.Booked and Redis.Ledger are those within the lifetime of the keys.
pub mod Prelude
pub mod Errors
pub mod Money
pub mod Clock
pub mod Redis
pub mod Reservations
pub mod Holds
pub mod Inventory
pub mod Allocations
pub mod Access
pub mod Identity
pub mod Search
pub mod Idempotency
pub mod Columns
pub mod Faults
pub mod Properties
pub mod Migrate
pub mod Workers
pub mod Tests
