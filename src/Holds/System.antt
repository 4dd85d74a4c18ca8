-- ===== src/Holds/System.antt =====
-- The ports as the Redis adapter and the PostgreSQL repository fill them: cmd/api/main.go and
-- cmd/worker/main.go wire them so.
use doki_core_backend.Redis.Server.{Redis}
use doki_core_backend.Redis.Adapter.{Client, acquire_fast_hold, release_fast_hold}
use doki_core_backend.Reservations.{Db, create_hold}
use doki_core_backend.Reservations.Repo.{get_expired_holds, mark_reservation_expired}
use doki_core_backend.Holds.Ports.{FastHoldPort, ReservationPort}

module _ (r : Redis) where
  pub record World : Type 0 where
    pub redis : Client r
    pub db : Db

  abbrev pub redis_port : FastHoldPort World
  redis_port = record {
    acquire = λ now uuid p q check_in check_out capacity ttl w.
        let (reply, c) = acquire_fast_hold r now uuid p q check_in check_out capacity ttl w.redis in
        (reply, record { redis = c; db = w.db });
    release = λ token w.
        let (reply, c) = release_fast_hold r token w.redis in
        (reply, record { redis = c; db = w.db });
  }

  abbrev pub postgres_port : ReservationPort World
  postgres_port = record {
    create_hold = λ id ref now hold name phone w.
        let (reply, db1) = create_hold id ref now hold name phone w.db in
        (reply, record { redis = w.redis; db = db1 });
    get_expired = λ cutoff limit w.
        let (reply, db1) = get_expired_holds cutoff limit w.db in
        (reply, record { redis = w.redis; db = db1 });
    mark_expired = λ now id w.
        let (reply, db1) = mark_reservation_expired now id w.db in
        (reply, record { redis = w.redis; db = db1 });
  }
