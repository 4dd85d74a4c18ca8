-- ===== src/Holds/Booking.antt =====
-- POST /v1/reservations/hold from the body to the two stores: hold_handler.go, hold_service.go,
-- inventory_hold_adapter.go and reservation_repo.go together.
use Prim.Native.String.{len}
use text.Mathlib.Text.{◌==◌ as str_eq}
use doki_core_backend.Prelude.{
  ℕ, suc, ◌+◌, ◌-◌, ◌*◌, ◌≡◌, ◌≢◌, ◌⊎◌, inl, inr, refl, ap, ◌∙◌, false, not, ◌||◌, String, [], ◌∷◌,
  ◌++◌, Option, none, some, arith, ltb, Bool-cases,
}
use doki_core_backend.Errors.{Err, Result, ok, err}
use doki_core_backend.Clock.{day, midnight}
use doki_core_backend.Clock.Dates.{parse_date}
use doki_core_backend.Redis.Keys.{hold_tok}
use doki_core_backend.Redis.Server.{Redis}
use doki_core_backend.Redis.View.{IsTyped, held}
use doki_core_backend.Redis.Adapter.Atomic.{healthy, nights, SameHolds, HeldOver}
use doki_core_backend.Reservations.{Db, hold_row}
use doki_core_backend.Holds.Service.{Env, CreateHoldResult}
use doki_core_backend.Holds.System.{World, redis_port, postgres_port}
use doki_core_backend.Holds.Compensation.{Compensated, stay, stay_hold, create_hold-Compensated}
use doki_core_backend.Holds.Api.{
  HoldBody, accept, RoomTypes, capacity_for, validated, read_out, read_in, read_room_type,
  read_property, read_body, hold_status, serve, handle_create_hold,
}

module _ (r : Redis) (parse_uuid : String → Option ℕ) (room_types : RoomTypes) (env : Env)
    (s : r.Store) (db : Db) where
  abbrev pub before : World r
  before = record { redis = healthy r s; db = db }

  -- The stay that a body asks for: `k + 1` nights from day `n` on, not in the past.
  abbrev pub Asks : HoldBody → ℕ → ℕ → ℕ → ℕ → Type 0
  Asks body p q n k =
      (parse_uuid body.property_id ≡ some p)
      × (parse_uuid body.room_type_id ≡ some q)
      × (parse_date body.check_in ≡ some n)
      × (parse_date body.check_out ≡ some (n + suc k))
      × (ltb (n * day) (midnight env.now) ≡ false)

  -- The hold is counted on each night of the stay and its row is written.
  abbrev pub Holds : HoldBody → ℕ → ℕ → ℕ → ℕ → World r → Type 0
  Holds body p q n k w =
      (w.db.rows
        ≡ db.rows
          ++ hold_row env.reservation_id env.booking_reference env.now
              (stay_hold r env p q n k (capacity_for room_types q) body.guest_name body.guest_phone)
              body.guest_name body.guest_phone
            ∷ [])
      × ((s' : r.Store) × (w.redis ≡ healthy r s')
          × HeldOver r p q env.token_uuid s (nights r p q env.token_uuid n (suc k)) s')

  -- What a reply goes with.
  abbrev pub Books : HoldBody → ℕ × World r → Type 0
  Books body (status, w) =
      (status ≡ 201)
        × ((p : ℕ) × (q : ℕ) × (n : ℕ) × (k : ℕ) × Asks body p q n k × Holds body p q n k w)
      ⊎ (status ≢ 201) × ((s' : r.Store) × (w.redis ≡ healthy r s') × SameHolds r s s')

  refuse-Books :
      (body : HoldBody) (status : ℕ) → IsTyped r s → status ≢ 201 → Books body (status, before)
  refuse-Books body status typed ne =
      inr (ne, (s, refl, record { counts = λ k. refl; lists = λ u. refl; typed = typed }))

  failure_status : (e : Err) → hold_status (err e) ≢ 201
  unfolding hold_status
  failure_status e = ground arith

  module _ (body : HoldBody) (typed : IsTyped r s)
      (fresh : held r s (hold_tok env.token_uuid) ≡ []) where
    served-Books :
        (p q n k : ℕ) (out : Result CreateHoldResult × World r)
        → Asks body p q n k
        → Compensated r env p q n k
            (capacity_for room_types q)
            body.guest_name
            body.guest_phone
            s
            db
            out
        → Books body (hold_status out.0, out.1)
    unfolding hold_status
    served-Books p q n k (ok result, w) asks h = inl (refl, (p, q, n, k, asks, (h.2, h.3)))
    served-Books p q n k (err e, w) asks h = inr (failure_status e, h)

    accept-Books :
        (p q n k : ℕ)
        → Asks body p q n k
        → Books body (
            serve
              (redis_port r)
              (postgres_port r)
              parse_uuid
              room_types
              env
              (accept
                (stay r env p q n k (capacity_for room_types q) body.guest_name body.guest_phone))
              before)
    unfolding serve
    accept-Books p q n k asks = served-Books p q n k _ asks (
        create_hold-Compensated r env p q n k (capacity_for room_types q) body.guest_name
          body.guest_phone s db typed fresh)

    validated-Books :
        (p q n m : ℕ)
        → parse_uuid body.property_id ≡ some p
        → parse_uuid body.room_type_id ≡ some q
        → parse_date body.check_in ≡ some n
        → parse_date body.check_out ≡ some m
        → Books body (
            serve
              (redis_port r)
              (postgres_port r)
              parse_uuid
              room_types
              env
              (validated parse_uuid room_types env.now body p q n m)
              before)
    unfolding validated serve
    validated-Books p q n m ep eq en em =
        elim (Bool-cases (not (ltb (n * day) (m * day)) || ltb (n * day) (midnight env.now))) [
          | inl bad ↦ rw bad (refuse-Books body 422 typed (omega arith))
          | inr good ↦
              elim (Bool-cases (str_eq body.guest_name "" || ltb 150 (len body.guest_name))) [
                | inl nameless ↦ rw (good, nameless) (refuse-Books body 400 typed (omega arith))
                | inr named ↦ elim (Bool-cases (str_eq body.guest_phone "")) [
                  | inl phoneless ↦
                      rw (good, named, phoneless) (refuse-Books body 400 typed (omega arith))
                  | inr phoned ↦
                      let order : m ≡ n + suc (m - n - 1) = ground (arith, good) in
                      rw (good, named, phoned)
                        (rw order (
                          accept-Books p q n (m - n - 1)
                            (ep, eq, en, em ∙ ap some order, ground (arith, good))))
                ]
              ]
        ]

    read_out-Books :
        (p q n : ℕ) (o : Option ℕ)
        → parse_uuid body.property_id ≡ some p
        → parse_uuid body.room_type_id ≡ some q
        → parse_date body.check_in ≡ some n
        → parse_date body.check_out ≡ o
        → Books body (
            serve
              (redis_port r)
              (postgres_port r)
              parse_uuid
              room_types
              env
              (read_out parse_uuid room_types env.now body p q n o)
              before)
    unfolding read_out serve
    read_out-Books p q n none ep eq en em = refuse-Books body 400 typed (omega arith)
    read_out-Books p q n (some m) ep eq en em = validated-Books p q n m ep eq en em

    read_in-Books :
        (p q : ℕ) (o : Option ℕ)
        → parse_uuid body.property_id ≡ some p
        → parse_uuid body.room_type_id ≡ some q
        → parse_date body.check_in ≡ o
        → Books body (
            serve
              (redis_port r)
              (postgres_port r)
              parse_uuid
              room_types
              env
              (read_in parse_uuid room_types env.now body p q o)
              before)
    unfolding read_in serve
    read_in-Books p q none ep eq en = refuse-Books body 400 typed (omega arith)
    read_in-Books p q (some n) ep eq en =
        read_out-Books p q n (parse_date body.check_out) ep eq en refl

    read_room_type-Books :
        (p : ℕ) (o : Option ℕ)
        → parse_uuid body.property_id ≡ some p
        → parse_uuid body.room_type_id ≡ o
        → Books body (
            serve
              (redis_port r)
              (postgres_port r)
              parse_uuid
              room_types
              env
              (read_room_type parse_uuid room_types env.now body p o)
              before)
    unfolding read_room_type serve
    read_room_type-Books p none ep eq = refuse-Books body 400 typed (omega arith)
    read_room_type-Books p (some q) ep eq = read_in-Books p q (parse_date body.check_in) ep eq refl

    read_property-Books :
        (o : Option ℕ)
        → parse_uuid body.property_id ≡ o
        → Books body (
            serve
              (redis_port r)
              (postgres_port r)
              parse_uuid
              room_types
              env
              (read_property parse_uuid room_types env.now body o)
              before)
    unfolding read_property serve
    read_property-Books none ep = refuse-Books body 400 typed (omega arith)
    read_property-Books (some p) ep = read_room_type-Books p (parse_uuid body.room_type_id) ep refl

    -- For a Redis that delivers, a token that holds nothing yet, and whatever the database does: the
    -- handler answers 201 only for a stay of one night or more that is not in the past, with the row
    -- of its reservation written and one more hold counted on each of its nights; with any other
    -- status the count of every night and the nights of every token are as they were.
    pub handle_create_hold-Books : Books body (
        handle_create_hold
          (redis_port r)
          (postgres_port r)
          parse_uuid
          room_types
          env
          (some body)
          before)
    unfolding handle_create_hold read_body
    handle_create_hold-Books = read_property-Books (parse_uuid body.property_id) refl
