-- ===== src/Holds/Compensation.antt =====
-- `HoldService.CreateHold` on the Redis adapter and the PostgreSQL repository: Redis counts a room
-- exactly if a reservation came back.
use doki_core_backend.Prelude.{
  ℕ, suc, ◌+◌, ◌*◌, ◌≡◌, refl, ap, sym, String, [], ◌∷◌, ◌++◌, Option, none, some, arith, inl, inr,
  Bool-cases, ltb, lt→ltb,
}
use mathlib.Core.Path.{subst}
use doki_core_backend.Prelude.Int.{ℤ, pos, ◌+ℤ◌}
use doki_core_backend.Errors.{Err, Result, ok, err}
use doki_core_backend.Clock.{day, midnight}
use doki_core_backend.Redis.Keys.{Token, hold_tok}
use doki_core_backend.Redis.Server.{Redis}
use doki_core_backend.Redis.View.{IsTyped, held}
use doki_core_backend.Redis.Adapter.{Client}
use doki_core_backend.Redis.Adapter.Atomic.{healthy, nights, SameHolds, HeldOver, release-healthy}
use doki_core_backend.Redis.Adapter.Stay.{Acquires, acquire_fast_hold-Acquires}
use doki_core_backend.Reservations.{Db, InventoryHold, hold_row, create_hold as insert_hold}
use doki_core_backend.Reservations.Rows.{Creates, create_hold-Creates}
use doki_core_backend.Holds.Service.{
  Env, CreateHoldRequest, CreateHoldResult, capacity_of, default_hold_ttl, create_hold,
  validate_and_hold, acquired, acquire_and_persist, persisted,
}
use doki_core_backend.Holds.System.{World, redis_port, postgres_port}

module _ (r : Redis) (env : Env) (p q n k : ℕ) (capacity : ℤ) (name phone : String) where
  -- A request for the nights from day `n` on, `k + 1` of them.
  abbrev pub stay : CreateHoldRequest
  stay = record {
    property_id = p;
    room_type_id = q;
    check_in = n * day;
    check_out = (n + suc k) * day;
    total_capacity = capacity;
    guest_name = name;
    guest_phone = phone;
  }

  abbrev pub token : Token
  token = hold_tok env.token_uuid

  abbrev pub stay_hold : InventoryHold
  stay_hold = record {
    token = token;
    property_id = p;
    room_type_id = q;
    check_in = n * day;
    check_out = (n + suc k) * day;
    expires_at = pos env.now +ℤ default_hold_ttl;
  }

  -- A result comes with one more hold on every night, listed under the returned token, and with the
  -- row of the reservation. An error leaves every count and every token as before.
  abbrev pub Compensated : r.Store → Db → Result CreateHoldResult × World r → Type 0
  Compensated s db (ok out, w) =
      (out.hold_token ≡ token)
      × (out.reservation_id ≡ env.reservation_id)
      × (w.db.rows
          ≡ db.rows
            ++ hold_row env.reservation_id env.booking_reference env.now stay_hold name phone ∷ [])
      × ((s' : r.Store) × (w.redis ≡ healthy r s')
          × HeldOver r p q env.token_uuid s (nights r p q env.token_uuid n (suc k)) s')
  Compensated s db (err e, w) = (s' : r.Store) × (w.redis ≡ healthy r s') × SameHolds r s s'

  persisted-Compensated :
      (s s' : r.Store) (db db' : Db) (reply : Result ℕ) (expires : ℤ)
      → held r s token ≡ []
      → HeldOver r p q env.token_uuid s (nights r p q env.token_uuid n (suc k)) s'
      → Creates env.reservation_id env.booking_reference env.now stay_hold name phone db
          (reply, db')
      → Compensated s db (
          persisted
            (redis_port r)
            (postgres_port r)
            token
            expires
            reply
            (record { redis = healthy r s'; db = db' }))
  unfolding persisted
  persisted-Compensated s s' db db' (ok i) expires fresh over c = (refl, c.0, c.2, (s', refl, over))
  persisted-Compensated s s' db db' (err e) expires fresh over c =
      release-healthy r p q env.token_uuid fresh over

  abbrev handed : Db → Result (Token × ℤ) × Client r → Result CreateHoldResult × World r
  handed db x =
      acquired (redis_port r) (postgres_port r) env stay x.0 (record { redis = x.1; db = db })

  handed-Compensated :
      (s : r.Store) (db : Db) (out : Result (Token × ℤ) × Client r)
      → held r s token ≡ []
      → IsTyped r s
      → Acquires r p q env.token_uuid
          (capacity_of capacity)
          (pos env.now +ℤ default_hold_ttl)
          s
          n
          (suc k)
          out
      → Compensated s db (handed db out)
  unfolding acquired
  handed-Compensated s db out fresh typed (inl (free, (s', e, over))) =
      let reply =
        insert_hold env.reservation_id env.booking_reference env.now stay_hold name phone db in
      subst (Compensated s db) (sym (ap (handed db) e)) (
        persisted-Compensated s s' db reply.1 reply.0 (pos env.now +ℤ default_hold_ttl) fresh over (
          create_hold-Creates env.reservation_id env.booking_reference env.now stay_hold name phone
            db))
  handed-Compensated s db out fresh typed (inr (full, (s', e, same))) =
      subst (Compensated s db) (sym (ap (handed db) e)) (s', refl, same)

  pub unchanged : (s : r.Store) → IsTyped r s → SameHolds r s s
  unchanged s typed = record { counts = λ k. refl; lists = λ u. refl; typed = typed }

  validate-Compensated :
      (ctx : Option Err) (s : r.Store) (db : Db)
      → IsTyped r s
      → held r s token ≡ []
      → Compensated s db (
          validate_and_hold
            (redis_port r)
            (postgres_port r)
            ctx
            env
            stay
            (record { redis = healthy r s; db = db }))
  unfolding validate_and_hold acquire_and_persist
  validate-Compensated (some e) s db typed fresh = (s, refl, unchanged s typed)
  validate-Compensated none s db typed fresh =
      rw (lt→ltb (n * day) ((n + suc k) * day) (omega arith))
        (elim (Bool-cases (ltb (n * day) (midnight env.now))) [
          | inl past ↦ rw past (s, refl, unchanged s typed)
          | inr future ↦ rw future (
              handed-Compensated s db _ fresh typed (
                acquire_fast_hold-Acquires r p q env.token_uuid (capacity_of capacity) env.now n k s
                  typed fresh))
        ])

  -- For a stay between two midnights, a Redis that delivers, a token that holds nothing yet, and
  -- whatever the database does: `CreateHold` returns a result only with the row of its reservation
  -- written and one more hold on every night, and on every error it leaves the count of every night
  -- and the nights of every token as they were.
  pub create_hold-Compensated :
      (s : r.Store) (db : Db)
      → IsTyped r s
      → held r s token ≡ []
      → Compensated s db (
          create_hold
            (redis_port r)
            (postgres_port r)
            env
            stay
            (record { redis = healthy r s; db = db }))
  unfolding create_hold
  create_hold-Compensated s db typed fresh = validate-Compensated env.ctx_err s db typed fresh
