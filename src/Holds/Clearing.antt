-- ===== src/Holds/Clearing.antt =====
-- What a sweep of internal/domain/inventory/hold_sweeper.go achieves where the database answers.
use doki_core_backend.Prelude.{
  ℕ, ◌≤◌, ◌≡◌, refl, false, true, List, [], ◌∷◌, none, some, ◌==◌, take,
}
use doki_core_backend.Prelude.Int.{ℤ, pos}
use doki_core_backend.Errors.{ok}
use doki_core_backend.Redis.Server.{Redis}
use doki_core_backend.Redis.Adapter.{Client}
use doki_core_backend.Reservations.{Reservation, Db, deliver, call}
use doki_core_backend.Reservations.Repo.{
  is_expired, set_status, expired_rows, order_by_expiry, limit_of, select_expired, query_failed,
  get_expired_holds, affected, update_status_of, mark_reservation_expired,
}
use doki_core_backend.Reservations.Clearing.{
  Covers, selected-Covers, Covers-set_status, Covers-none,
}
use doki_core_backend.Holds.Sweeper.{sweep_loop, swept_of, batch_of, sweep_expired_holds}
use doki_core_backend.Holds.System.{World, redis_port, postgres_port}
use doki_core_backend.Holds.Expiry.{released_db}

-- A database whose calls all go well and in which no row is locked by another.
abbrev pub calm : List Reservation → Db
calm rows = record {
  rows = rows;
  locked = λ id. false;
  property_known = λ id. true;
  room_type_known = λ id. true;
  faults = [];
}

pub mark_calm :
    (now : ℕ) (a : Reservation) (rows : List Reservation)
    → (mark_reservation_expired now a.id (calm rows)).1
      ≡ calm (set_status now "EXPIRED" (λ row. row.id == a.id) rows)
unfolding mark_reservation_expired call deliver update_status_of
mark_calm now a rows = refl

pub get_calm :
    (cutoff limit : ℤ) (rows : List Reservation)
    → get_expired_holds cutoff limit (calm rows) ≡ (
      ok (take (limit_of limit) (order_by_expiry (expired_rows cutoff (λ id. false) rows))),
      calm rows,
    )
unfolding get_expired_holds call deliver select_expired query_failed
get_calm cutoff limit rows = refl

module _ (r : Redis) where
  sweep_loop-clears :
      (cutoff : ℤ) (now : ℕ) (holds rows : List Reservation) (swept : ℕ) (w : World r)
      → w.db ≡ calm rows
      → Covers cutoff holds rows
      → affected
          (is_expired cutoff)
          (sweep_loop (some (redis_port r)) (postgres_port r) now holds swept w).1.db.rows
        ≡ 0
  unfolding sweep_loop
  sweep_loop-clears cutoff now [] rows swept w h c = rw h (Covers-none cutoff rows c)
  sweep_loop-clears cutoff now (a ∷ holds) rows swept w h c =
      sweep_loop-clears cutoff now holds (set_status now "EXPIRED" (λ row. row.id == a.id) rows) _ _
        (rw (released_db r a.hold_token w, h) (mark_calm now a rows))
        (Covers-set_status cutoff now a holds rows c)

  -- With a database that answers and no row locked by another, and whatever Redis does: a sweep
  -- whose batch is not smaller than the number of holds past their time leaves none of them.
  pub sweep_expired_holds-clears :
      (now : ℕ) (batch : ℤ) (rows : List Reservation) (redis : Client r)
      → affected (is_expired (pos now)) rows ≤ limit_of (batch_of batch)
      → affected
          (is_expired (pos now))
          (sweep_expired_holds
            (some (redis_port r))
            (postgres_port r)
            none
            now
            batch
            (record { redis = redis; db = calm rows })).1.db.rows
        ≡ 0
  unfolding sweep_expired_holds swept_of
  sweep_expired_holds-clears now batch rows redis few =
      rw (get_calm (pos now) (batch_of batch) rows) (
        sweep_loop-clears (pos now) now _ rows 0 (record { redis = redis; db = calm rows }) refl
          (selected-Covers (pos now) (limit_of (batch_of batch)) rows few))
