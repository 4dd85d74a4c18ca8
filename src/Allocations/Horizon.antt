-- ===== src/Allocations/Horizon.antt =====
-- The rolling horizon of internal/domain/inventory/allocation_service.go on the PostgreSQL
-- repository: each day from today on has its row.
use mathlib.Core.Path.{subst}
use doki_core_backend.Prelude.{
  ℕ, zero, suc, ◌+◌, ◌≤◌, ◌<◌, ◌≡◌, ◌⊎◌, inl, inr, refl, true, ◌||◌, List, [], ◌∷◌, ◌++◌, arith,
  leb, ◌==◌, Bool-cases, length, Option-cases,
}
use doki_core_backend.Prelude.Int.{ℤ}
use doki_core_backend.Errors.{Result, ok, err}
use doki_core_backend.Clock.{date}
use doki_core_backend.Inventory.{DailyAllocation, Inventory}
use doki_core_backend.Inventory.Commit.Bounded.{AllBounded}
use doki_core_backend.Inventory.Upsert.{has_slot, batch_upsert_daily_allocations}
use doki_core_backend.Inventory.Upsert.Keeps.{Keeps, Keeps-same, Keeps-trans, Keeps-has_slot}
use doki_core_backend.Inventory.Upsert.Batch.{AllHave, Upserts, batch_upsert-Upserts}
use doki_core_backend.Allocations.{
  AllocationPorts, RoomType, Env, horizon_of, allocation, written, generate_loop,
  generate_rolling_allocations,
}

-- Every row is kept and the bounds hold on.
abbrev pub Extends : List DailyAllocation → List DailyAllocation → Type 0
Extends rows rows' = Keeps rows rows' × (AllBounded rows → AllBounded rows')

Extends-trans : (xs ys zs : List DailyAllocation) → Extends xs ys → Extends ys zs → Extends xs zs
Extends-trans xs ys zs h k = (Keeps-trans xs ys zs h.0 k.0, λ b. k.1 (h.1 b))

module _ (uuids : ℕ → ℕ) (list_active : ℕ → Inventory → Result (List ℕ) × Inventory)
    (list_room_types : ℕ → Inventory → Result (List RoomType) × Inventory) where
  -- The service on the repository.
  abbrev pub ports : AllocationPorts Inventory
  ports = record {
    batch_upsert = batch_upsert_daily_allocations uuids;
    list_active = list_active;
    list_room_types = list_room_types;
  }

  module _ (env : Env) (p q : ℕ) (total rate : ℤ) where
    abbrev alloc : ℕ → DailyAllocation
    alloc = allocation env p q total rate

    -- The days from `i` on, so many, have rows.
    abbrev pub Days : ℕ → ℕ → List DailyAllocation → Type 0
    Days i n rows = (j : ℕ) → i ≤ j → j < i + n → has_slot p q (date env.now + j) rows ≡ true

    -- The outcome of the loop from day `i` on, where the days from `from` on wait in the chunk.
    abbrev pub Provides : ℕ → ℕ → List DailyAllocation → Result (Unit {0}) × Inventory → Type 0
    Provides from n rows (ok _, db) = Extends rows db.rows × Days from n db.rows
    Provides from n rows (err e, db) = Extends rows db.rows

    abbrev pending : ℕ → ℕ → List DailyAllocation
    pending from zero = []
    pending from (suc n) = alloc from ∷ pending (suc from) n

    pending_next : (from n : ℕ) → pending from n ++ alloc (from + n) ∷ [] ≡ pending from (suc n)
    pending_next from zero = rw (let e : from + 0 ≡ from = omega arith in e) refl
    pending_next from (suc n) =
        let e : from + suc n ≡ suc from + n = omega arith in
        rw e (rw (pending_next (suc from) n) refl)

    Days-pending :
        (from n : ℕ) (rows : List DailyAllocation)
        → AllHave (pending from n) rows
        → Days from n rows
    Days-pending from zero rows h j lo hi = absurd (omega arith)
    Days-pending from (suc n) rows h j lo hi = elim (Bool-cases (j == from)) [
      | inl here ↦
          let e : j ≡ from = ground (arith, here) in
          subst (λ (k : ℕ). has_slot p q (date env.now + k) rows ≡ true)
            (let e' : from ≡ j = omega (arith, e) in e') h.0
      | inr there ↦ Days-pending (suc from) n rows h.1 j (ground (arith, there)) (omega arith)
    ]

    Days-Extends :
        (from n : ℕ) (xs ys : List DailyAllocation)
        → Extends xs ys
        → Days from n xs
        → Days from n ys
    Days-Extends from n xs ys h k j lo hi =
        Keeps-has_slot p q (date env.now + j) xs ys h.0 (k j lo hi)

    Provides-after :
        (from m n : ℕ) (rows rows1 : List DailyAllocation) (out : Result (Unit {0}) × Inventory)
        → Extends rows rows1
        → Days from m rows1
        → Provides (from + m) n rows1 out
        → Provides from (m + n) rows out
    Provides-after from m n rows rows1 (err e, db) h d k = Extends-trans rows rows1 db.rows h k
    Provides-after from m n rows rows1 (ok _, db) h d k = (
      Extends-trans rows rows1 db.rows h k.0,
      λ j lo hi. elim (Bool-cases (leb (from + m) j)) [
        | inl late ↦ k.1 j (ground (arith, late)) (omega arith)
        | inr early ↦ Days-Extends from m rows1 db.rows k.0 d j lo (ground (arith, early))
      ],
    )

    written-Provides :
        (from m days : ℕ) (rows : List DailyAllocation) (out : Result (Unit {0}) × Inventory)
        → ((db : Inventory)
            → Provides (from + m) days db.rows (generate_loop ports alloc days (from + m) [] db))
        → Upserts (pending from m) rows out
        → Provides from
            (m + days)
            rows
            (written ports (generate_loop ports alloc days (from + m) []) out)
    unfolding written
    written-Provides from m days rows (err e, db) go (inl same) = rw same (Keeps-same rows, λ b. b)
    written-Provides from m days rows (err e, db) go (inr h) = (h.0, h.1)
    written-Provides from m days rows (ok _, db) go h =
        Provides-after from m days rows db.rows (generate_loop ports alloc days (from + m) [] db)
          (h.0, h.1) (Days-pending from m db.rows h.2) (go db)

    generate_loop-Provides :
        (days from m : ℕ) (db : Inventory)
        → (m ≡ 0) ⊎ (1 ≤ days)
        → Provides from
            (m + days)
            db.rows
            (generate_loop ports alloc days (from + m) (pending from m) db)
    unfolding generate_loop
    generate_loop-Provides zero from m db h =
        ((Keeps-same db.rows, λ b. b), λ j lo hi. absurd (ground (arith, h, lo, hi)))
    generate_loop-Provides (suc days) from m db h =
        let next_i : suc (from + m) ≡ from + suc m = omega arith in
        let count : m + suc days ≡ suc m + days = omega arith in
        rw (pending_next from m, next_i, count)
          (elim (Bool-cases (leb 100 (length (pending from (suc m))) || days == 0)) [
            | inr wait ↦
                rw wait (generate_loop-Provides days from (suc m) db (inr (ground (arith, wait))))
            | inl full ↦ rw full (
                written-Provides from (suc m) days db.rows
                  (batch_upsert_daily_allocations uuids (pending from (suc m)) db)
                  (λ db1.
                    let start : from + suc m + 0 ≡ from + suc m = omega arith in
                    let none : 0 + days ≡ days = omega arith in
                    rw (start, none) at
                      (generate_loop-Provides days (from + suc m) 0 db1 (inl refl)))
                  (batch_upsert-Upserts uuids (pending from (suc m)) db))
          ])

    -- Whatever the database does: a successful run of `GenerateRollingAllocations` leaves a row for
    -- the room type on each of the days of the horizon, from today on. On every outcome the rows
    -- that were there are kept with their counts, with total and rate where units are allocated,
    -- and the bounds of the table hold on.
    pub generate_rolling_allocations-Provides :
        (days_ahead : ℤ) (db : Inventory)
        → Provides 0
            (horizon_of days_ahead)
            db.rows
            (generate_rolling_allocations ports env p q total rate days_ahead db)
    unfolding generate_rolling_allocations
    generate_rolling_allocations-Provides days_ahead db = elim (Option-cases env.ctx_err) [
      | inl none_e ↦
          let sum : 0 + horizon_of days_ahead ≡ horizon_of days_ahead = omega arith in
          rw none_e (rw sum at (generate_loop-Provides (horizon_of days_ahead) 0 0 db (inl refl)))
      | inr (e, some_e) ↦ rw some_e (Keeps-same db.rows, λ b. b)
    ]
