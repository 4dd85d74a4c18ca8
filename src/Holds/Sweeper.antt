-- ===== src/Holds/Sweeper.antt =====
-- `HoldSweeperService.SweepExpiredHolds` of internal/domain/inventory/hold_sweeper.go. The logging
-- is left out, and what other clients write to the table between the select and the updates of a
-- sweep.
use doki_core_backend.Prelude.{ℕ, zero, suc, ◌+◌, List, [], ◌∷◌, Option, none, some}
use doki_core_backend.Prelude.Int.{ℤ, pos, negsuc}
use doki_core_backend.Errors.{Err, wrapped, Result, ok, err}
use doki_core_backend.Redis.Keys.{Token, no_token}
use doki_core_backend.Reservations.{Reservation}
use doki_core_backend.Holds.Ports.{FastHoldPort, ReservationPort}

-- `batchSize <= 0` means 100.
unfoldable pub batch_of : ℤ → ℤ
batch_of (pos zero) = pos 100
batch_of (pos (suc n)) = pos (suc n)
batch_of (negsuc n) = pos 100

-- The redis adapter may be nil.
module _ {W : Type 0} (fast : Option (FastHoldPort W)) (repo : ReservationPort W) where
  -- A failed release is logged, and the sweep goes on.
  unfoldable pub released : Option Token → W → W
  released none w = w
  released (some no_token) w = w
  released (some token) w = elim fast [ none ↦ w | some f ↦ (f.release token w).1 ]

  unfoldable pub counted : Result (Unit {0}) → ℕ → ℕ
  counted (ok _) swept = swept + 1
  counted (err e) swept = swept

  unfoldable pub sweep_loop : ℕ → List Reservation → ℕ → W → ℕ × W
  unfolding released counted
  sweep_loop now [] swept w = (swept, w)
  sweep_loop now (res ∷ holds) swept w =
      let (marked, w1) = repo.mark_expired now res.id (released res.hold_token w) in
      sweep_loop now holds (counted marked swept) w1

  unfoldable pub swept_of : ℕ → Result (List Reservation) → W → Result ℕ × W
  unfolding sweep_loop
  swept_of now (err e) w = (err (wrapped "fetch expired holds" e), w)
  swept_of now (ok holds) w = let (swept, w1) = sweep_loop now holds 0 w in (ok swept, w1)

  unfoldable pub sweep_expired_holds : Option Err → ℕ → ℤ → W → Result ℕ × W
  unfolding swept_of
  sweep_expired_holds ctx_err now batch w = elim ctx_err [
    | some e ↦ (err e, w)
    | none ↦
        let (reply, w1) = repo.get_expired (pos now) (batch_of batch) w in swept_of now reply w1
  ]
