-- ===== src/Workers/Backlog.antt =====
-- How fast the worker of internal/platform/worker/hold_expiry_worker.go works off a backlog.
use doki_core_backend.Prelude.{
  ℕ, suc, ◌+◌, ◌-◌, ◌*◌, ◌≤◌, ◌≡◌, refl, ap, List, [], ◌∷◌, Option, none, some, arith, take, ◌==◌,
}
use doki_core_backend.Prelude.Int.{ℤ, pos}
use doki_core_backend.Errors.{Err}
use doki_core_backend.Redis.Server.{Redis}
use doki_core_backend.Redis.Adapter.{Client}
use doki_core_backend.Allocations.{Env}
use doki_core_backend.Reservations.{Reservation}
use doki_core_backend.Reservations.Repo.{
  is_expired, expired_rows, order_by_expiry, limit_of, affected, set_status,
}
use doki_core_backend.Reservations.Expiring.{UniqueIds}
use doki_core_backend.Reservations.Oldest.{nobody}
use doki_core_backend.Reservations.Marking.{mark_all, UniqueIds-mark_all, oldest-marked}
use doki_core_backend.Holds.Sweeper.{sweep_loop, swept_of, batch_of, sweep_expired_holds}
use doki_core_backend.Holds.System.{World, redis_port, postgres_port}
use doki_core_backend.Holds.Expiry.{released_db}
use doki_core_backend.Holds.Clearing.{calm, mark_calm, get_calm}
use doki_core_backend.Workers.{
  Received, tick, done, run_loop, batch_size, expiry_sweep, run_hold_expiry_worker,
}

-- How many holds a sweep may mark.
abbrev pub per_sweep : ℤ → ℕ
per_sweep batch = limit_of (batch_of (batch_size batch))

-- The holds that a sweep at that time selects.
abbrev selected : ℤ → ℕ → List Reservation → List Reservation
selected batch now rows =
    take (per_sweep batch) (order_by_expiry (expired_rows (pos now) nobody rows))

abbrev one_if_live : Option Err → ℕ
one_if_live none = 1
one_if_live (some e) = 0

-- The sweeps that follow the first one: the ticks before the end at which the context is alive.
abbrev pub sweeps : List Received → ℕ
sweeps [] = 0
sweeps (done e ∷ events) = 0
sweeps (tick env ∷ events) = one_if_live env.ctx_err + sweeps events

-- No tick is earlier than the start.
abbrev pub Follows : ℕ → List Received → Type 0
Follows start [] = Unit
Follows start (done e ∷ events) = Follows start events
Follows start (tick env ∷ events) = (start ≤ env.now) × Follows start events

sub_sweeps : (a b p n : ℕ) → n - (a + b) * p ≡ n - a * p - b * p
sub_sweeps a b p n = grind arith

no_sweeps : (p n : ℕ) → n - 0 * p ≡ n
no_sweeps p n = omega arith

module _ (r : Redis) where
  sweep_loop-mark_all :
      (now : ℕ) (holds rows : List Reservation) (swept : ℕ) (w : World r)
      → w.db ≡ calm rows
      → (sweep_loop (some (redis_port r)) (postgres_port r) now holds swept w).1.db
        ≡ calm (mark_all now holds rows)
  unfolding sweep_loop
  sweep_loop-mark_all now [] rows swept w h = h
  sweep_loop-mark_all now (a ∷ holds) rows swept w h =
      sweep_loop-mark_all now holds (set_status now "EXPIRED" (λ row. row.id == a.id) rows) _ _
        (rw (released_db r a.hold_token w, h) (mark_calm now a rows))

  swept_calm :
      (now : ℕ) (batch : ℤ) (rows : List Reservation) (w : World r)
      → w.db ≡ calm rows
      → (sweep_expired_holds
          (some (redis_port r))
          (postgres_port r)
          none
          now
          (batch_size batch)
          w).1.db
        ≡ calm (mark_all now (selected batch now rows) rows)
  unfolding sweep_expired_holds swept_of
  swept_calm now batch rows w h =
      rw (h, get_calm (pos now) (batch_of (batch_size batch)) rows)
        (sweep_loop-mark_all now (selected batch now rows) rows 0
          (record { redis = w.redis; db = calm rows }) refl)

  -- A table that is calm, and has at most so many holds past the cutoff.
  Within : ℤ → ℕ → World r → Type 0
  Within cutoff n w =
      (rows : List Reservation) × (w.db ≡ calm rows)
      × UniqueIds rows
      × (affected (is_expired cutoff) rows ≤ n)

  calm-Within :
      (cutoff : ℤ) (rows : List Reservation) (w : World r)
      → w.db ≡ calm rows
      → UniqueIds rows
      → Within cutoff (affected (is_expired cutoff) rows) w
  unfolding Within
  calm-Within cutoff rows w e u = (rows, e, u, omega arith)

  Within-affected :
      (cutoff : ℤ) (n : ℕ) (w : World r)
      → Within cutoff n w
      → affected (is_expired cutoff) w.db.rows ≤ n
  unfolding Within
  Within-affected cutoff n w (rows, e, u, k) = rw e k

  sweep-Within :
      (ctx : Option Err) (start now : ℕ) (batch : ℤ) (n : ℕ) (w : World r)
      → start ≤ now
      → Within (pos start) n w
      → Within
          (pos start)
          (n - one_if_live ctx * per_sweep batch)
          (sweep_expired_holds
            (some (redis_port r))
            (postgres_port r)
            ctx
            now
            (batch_size batch)
            w).1
  unfolding Within sweep_expired_holds
  sweep-Within (some x) start now batch n w h (rows, e, u, k) = (rows, e, u, omega (arith, k))
  sweep-Within none start now batch n w h (rows, e, u, k) = (
    mark_all now (selected batch now rows) rows,
    swept_calm now batch rows w e,
    UniqueIds-mark_all now (selected batch now rows) rows u,
    omega (
      arith,
      k,
      oldest-marked (pos start) (pos now) (omega (arith, h)) now (per_sweep batch) rows u,
    ),
  )

  -- A sweep at a time not before the cutoff, with its context alive or not.
  expiry_sweep-Within :
      (start : ℕ) (batch : ℤ) (env : Env) (n : ℕ) (w : World r)
      → start ≤ env.now
      → Within (pos start) n w
      → Within
          (pos start)
          (n - one_if_live env.ctx_err * per_sweep batch)
          (expiry_sweep (some (redis_port r)) (postgres_port r) batch env w).1
  unfolding expiry_sweep
  expiry_sweep-Within start batch env n w h k = sweep-Within env.ctx_err start env.now batch n w h k

  run_loop-Within :
      (start : ℕ) (batch : ℤ) (events : List Received) (n : ℕ) (w : World r)
      → Follows start events
      → Within (pos start) n w
      → Within
          (pos start)
          (n - sweeps events * per_sweep batch)
          (run_loop
            (λ env v. (expiry_sweep (some (redis_port r)) (postgres_port r) batch env v).1)
            events
            w).1
  unfolding run_loop
  run_loop-Within start batch [] n w f h = rw (no_sweeps (per_sweep batch) n) h
  run_loop-Within start batch (done e ∷ events) n w f h = rw (no_sweeps (per_sweep batch) n) h
  run_loop-Within start batch (tick env ∷ events) n w f h =
      rw (sub_sweeps (one_if_live env.ctx_err) (sweeps events) (per_sweep batch) n)
        (run_loop-Within start batch events _ _ f.1 (expiry_sweep-Within start batch env n w f.0 h))

  -- With a database that answers, no row locked by another and unique ids, and whatever Redis does:
  -- of the holds past their time when the worker starts with a live context, each sweep takes away
  -- as many as its batch, or all that are left; the ticks with a live context before the worker is
  -- stopped count, and none of them is earlier than the start.
  pub run_hold_expiry_worker-works_off :
      (env : Env) (events : List Received) (batch : ℤ) (rows : List Reservation) (redis : Client r)
      → env.ctx_err ≡ none
      → Follows env.now events
      → UniqueIds rows
      → affected
          (is_expired (pos env.now))
          (run_hold_expiry_worker
            (some (redis_port r))
            (postgres_port r)
            batch
            env
            events
            (record { redis = redis; db = calm rows })).1.db.rows
        ≤ affected (is_expired (pos env.now)) rows - suc (sweeps events) * per_sweep batch
  unfolding run_hold_expiry_worker
  run_hold_expiry_worker-works_off env events batch rows redis live f u =
      let w : World r = record { redis = redis; db = calm rows } in
      let n = affected (is_expired (pos env.now)) rows in
      let first =
        expiry_sweep-Within env.now batch env n w (omega arith) (calm-Within _ rows w refl u) in
      let all = run_loop-Within env.now batch events _ _ f first in
      omega (
        arith,
        Within-affected _ _ _ all,
        sub_sweeps 1 (sweeps events) (per_sweep batch) n,
        ap (λ c. n - one_if_live c * per_sweep batch - sweeps events * per_sweep batch) live,
      )
