-- ===== src/Workers.antt =====
-- The background workers: internal/platform/worker/allocation_sweeper.go and
-- hold_expiry_worker.go, and the `-once` mode of cmd/worker/main.go. The ticker and the end of the
-- context are events; the intervals between ticks, logging and metrics are left out.
pub mod Backlog
pub mod Tests
use doki_core_backend.Prelude.{ℕ, zero, suc, List, [], ◌∷◌, Option, none, some}
use doki_core_backend.Prelude.Int.{ℤ, pos, negsuc}
use doki_core_backend.Errors.{Err, Result, ok, err}
use doki_core_backend.Allocations.{AllocationPorts, Env, process_all_active_properties}
use doki_core_backend.Holds.Ports.{FastHoldPort, ReservationPort}
use doki_core_backend.Holds.Sweeper.{sweep_expired_holds}

-- What the `select` of `Run` receives: a tick, with what a sweep then takes from its surroundings,
-- or the end of the context, with its error. A tick may come while the context has ended.
pub data Received : Type 0 where
  tick : Env → Received
  done : Err → Received

-- `Run` after its first sweep: no result while events may still come.
unfoldable pub run_loop : {W : Type 0} → (Env → W → W) → List Received → W → Option Err × W
run_loop sweep [] w = (none, w)
run_loop sweep (done e ∷ events) w = (some e, w)
run_loop sweep (tick env ∷ events) w = run_loop sweep events (sweep env w)

-- `NewAllocationSweeper`: `daysAhead <= 0` means 365.
unfoldable pub days_of : ℤ → ℤ
days_of (pos zero) = pos 365
days_of (pos (suc n)) = pos (suc n)
days_of (negsuc n) = pos 365

-- `NewHoldExpiryWorker`: `batchSize <= 0` means 100.
unfoldable pub batch_size : ℤ → ℤ
batch_size (pos zero) = pos 100
batch_size (pos (suc n)) = pos (suc n)
batch_size (negsuc n) = pos 100

module _ {W : Type 0} (ports : AllocationPorts W) (days_ahead : ℤ) where
  -- `sweep` of the AllocationSweeper, which is also its `RunOnce`.
  unfoldable pub allocation_sweep : Env → W → Option Err × W
  allocation_sweep env w =
      let (out, w1) = process_all_active_properties ports env (days_of days_ahead) w in (out.0, w1)

  -- Its `Run`, whose first sweep does not wait for a tick.
  unfoldable pub run_allocation_sweeper : Env → List Received → W → Option Err × W
  run_allocation_sweeper env events w =
      run_loop (λ e v. (allocation_sweep e v).1) events (allocation_sweep env w).1

module _ {W : Type 0} (fast : Option (FastHoldPort W)) (repo : ReservationPort W) (batch : ℤ) where
  unfoldable pub error_of : {A : Type 0} → Result A → Option Err
  error_of (ok a) = none
  error_of (err e) = some e

  -- `sweep` of the HoldExpiryWorker, which is also its `RunOnce`.
  unfoldable pub expiry_sweep : Env → W → Option Err × W
  unfolding error_of
  expiry_sweep env w =
      let (swept, w1) = sweep_expired_holds fast repo env.ctx_err env.now (batch_size batch) w in
      (error_of swept, w1)

  -- Its `Run`.
  unfoldable pub run_hold_expiry_worker : Env → List Received → W → Option Err × W
  run_hold_expiry_worker env events w =
      run_loop (λ e v. (expiry_sweep e v).1) events (expiry_sweep env w).1

-- The `-once` mode: an error of one sweep is logged, and the other is done all the same.
unfoldable pub run_once :
    {W : Type 0}
    → AllocationPorts W
    → Option (FastHoldPort W)
    → ReservationPort W
    → ℤ
    → Env
    → Env
    → W
    → W
run_once ports fast repo days_ahead env env1 w =
    (expiry_sweep fast repo (pos 100) env1 (allocation_sweep ports days_ahead env w).1).1
