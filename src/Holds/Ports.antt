-- ===== src/Holds/Ports.antt =====
-- `FastHoldPort` and the part of `ReservationRepository` that the hold services use, of
-- internal/domain/ports.go.
use doki_core_backend.Prelude.{ℕ, String, List}
use doki_core_backend.Prelude.Int.{ℤ}
use doki_core_backend.Errors.{Result}
use doki_core_backend.Redis.Keys.{Token}
use doki_core_backend.Reservations.{InventoryHold, Reservation}

-- `acquire` is given the time and the random UUID of the token.
pub record FastHoldPort (W : Type 0) : Type 0 where
  pub acquire : ℕ → ℕ → ℕ → ℕ → ℕ → ℕ → ℤ → ℤ → W → Result (Token × ℤ) × W
  pub release : Token → W → Result (Unit {0}) × W

-- `create_hold` is given the random id and booking reference, and the time; `mark_expired` the time.
pub record ReservationPort (W : Type 0) : Type 0 where
  pub create_hold : ℕ → String → ℕ → InventoryHold → String → String → W → Result ℕ × W
  pub get_expired : ℤ → ℤ → W → Result (List Reservation) × W
  pub mark_expired : ℕ → ℕ → W → Result (Unit {0}) × W
