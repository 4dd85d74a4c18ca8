-- ===== src/Workers/Tests.antt =====
-- Runs of the workers of internal/platform/worker and cmd/worker/main.go.
use doki_core_backend.Prelude.{
  arith, ℕ, ◌-◌, ◌*◌, ◌≤◌, ◌≡◌, refl, String, List, [], ◌∷◌, ◌++◌, Option, none, some, suc,
}
use doki_core_backend.Prelude.Int.{pos}
use doki_core_backend.Errors.{Err, cancelled, plain, ok, err}
use doki_core_backend.Redis.Keys.{hold_tok}
use doki_core_backend.Redis.Memory.{memory, fresh}
use doki_core_backend.Redis.Adapter.Atomic.{healthy}
use doki_core_backend.Allocations.{AllocationPorts, Env, process_all_active_properties}
use doki_core_backend.Reservations.{Reservation}
use doki_core_backend.Reservations.Repo.{is_expired, affected}
use doki_core_backend.Holds.Sweeper.{sweep_expired_holds}
use doki_core_backend.Holds.Ports.{ReservationPort}
use doki_core_backend.Holds.System.{redis_port, postgres_port}
use doki_core_backend.Holds.Clearing.{calm}
use doki_core_backend.Workers.{
  Received, tick, done, run_loop, allocation_sweep, expiry_sweep, run_hold_expiry_worker,
  run_allocation_sweeper, run_once,
}
use doki_core_backend.Workers.Backlog.{sweeps, per_sweep, run_hold_expiry_worker-works_off}

abbrev at : Option Err → ℕ → Env
at ctx now = record { ctx_err = ctx; now = now; uuids = λ i. i }

abbrev held : ℕ → ℕ → Reservation
held id expires = record {
  id = id;
  booking_reference = "DK-AAAA2222";
  property_id = 1;
  room_type_id = 2;
  guest_name = "Abebe";
  guest_phone = "0911";
  check_in_date = 100;
  check_out_date = 102;
  status = "INVENTORY_HOLD";
  hold_token = some (hold_tok id);
  hold_expires_at = some (pos expires);
  created_at = 0;
  updated_at = 0;
}

-- Two holds are past their time at 1000, and the youngest stands first.
abbrev backlog : List Reservation
backlog = held 1 1200 ∷ held 2 950 ∷ held 3 900 ∷ []

-- One tick comes while the context has ended, and one after the worker has stopped.
abbrev events : List Received
events =
    tick (at (some cancelled) 1100)
    ∷ tick (at none 1300)
    ∷ done cancelled
    ∷ tick (at none 1400)
    ∷ []

run_hold_expiry_worker-works_off_example :
    affected
      (is_expired (pos 1000))
      (run_hold_expiry_worker
        (some (redis_port memory))
        (postgres_port memory)
        (pos 1)
        (at none 1000)
        events
        (record { redis = healthy memory fresh; db = calm backlog })).1.db.rows
    ≤ affected (is_expired (pos 1000)) backlog - suc (sweeps events) * per_sweep (pos 1)
run_hold_expiry_worker-works_off_example =
    run_hold_expiry_worker-works_off memory (at none 1000) events (pos 1) backlog
      (healthy memory fresh) refl (omega arith, (omega arith, (omega arith, tt)))
      (refl, (refl, (refl, tt)))

-- The first bound is met: two holds, two sweeps of one each.
backlog_is_two : affected (is_expired (pos 1000)) backlog ≡ 2
unfolding affected is_expired
backlog_is_two = refl

-- A world that only lists the calls.
abbrev calls : AllocationPorts (List String)
calls = record {
  batch_upsert = λ rows w. (ok tt, w ++ "upsert" ∷ []);
  list_active = λ limit w. (err (plain "down"), w ++ "list" ∷ []);
  list_room_types = λ p w. (ok [], w ++ "room types" ∷ []);
}

abbrev holds : ReservationPort (List String)
holds = record {
  create_hold = λ id ref now hold name phone w. (ok 0, w ++ "create" ∷ []);
  get_expired = λ cutoff limit w. (ok (held 3 900 ∷ []), w ++ "get" ∷ []);
  mark_expired = λ now id w. (ok tt, w ++ "mark" ∷ []);
}

-- In the `-once` mode the holds are swept though the allocations fail.
once_goes_on :
    run_once calls none holds (pos 30) (at none 1000) (at none 1000) []
    ≡ "list" ∷ "get" ∷ "mark" ∷ []
unfolding run_once expiry_sweep sweep_expired_holds allocation_sweep process_all_active_properties
once_goes_on = refl

-- The allocation worker outlives failing sweeps and returns the error of its context.
worker_goes_on :
    run_allocation_sweeper calls
      (pos 0)
      (at none 1000)
      (tick (at none 2000) ∷ done cancelled ∷ [])
      []
    ≡ (some cancelled, "list" ∷ "list" ∷ [])
unfolding run_allocation_sweeper run_loop allocation_sweep process_all_active_properties
worker_goes_on = refl
