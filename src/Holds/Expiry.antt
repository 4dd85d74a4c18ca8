-- ===== src/Holds/Expiry.antt =====
-- What a sweep of internal/domain/inventory/hold_sweeper.go does to the reservations.
use doki_core_backend.Prelude.{◌≡◌, refl, List, Option, none, some}
use doki_core_backend.Prelude.Int.{ℤ}
use doki_core_backend.Errors.{Result, ok, err}
use doki_core_backend.Redis.Keys.{Token, no_token, hold_tok, short_tok}
use doki_core_backend.Redis.Server.{Redis}
use doki_core_backend.Reservations.{Reservation, Db}
use doki_core_backend.Reservations.Repo.{query_failed}
use doki_core_backend.Reservations.Expiring.{IsDue, All}
use doki_core_backend.Holds.Sweeper.{released}
use doki_core_backend.Holds.System.{World, redis_port, postgres_port}

-- A query changes no row, and the holds that it returns are due.
abbrev Selects : ℤ → List Reservation → Result (List Reservation) × Db → Type 0
Selects cutoff rows (ok holds, db) = (db.rows ≡ rows) × All (λ a. IsDue cutoff a.id rows) holds
Selects cutoff rows (err e, db) = db.rows ≡ rows

abbrev queried : Result (List Reservation) × Db → Result (List Reservation) × Db
queried (reply, db) = (query_failed reply, db)

module _ (r : Redis) where
  pub released_db :
      (token : Option Token) (w : World r)
      → (released (some (redis_port r)) (postgres_port r) token w).db ≡ w.db
  unfolding released
  released_db none w = refl
  released_db (some no_token) w = refl
  released_db (some (hold_tok u)) w = refl
  released_db (some (short_tok p q u)) w = refl
