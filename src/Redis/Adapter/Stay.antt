-- ===== src/Redis/Adapter/Stay.antt =====
-- `AcquireFastHold` and `ReleaseFastHold` of internal/adapter/cache/redis/inventory_hold_adapter.go
-- for a stay between two midnights, on a network that delivers.
use doki_core_backend.Prelude.{ℕ, suc, ◌+◌, ◌*◌, ◌≡◌, ap, ◌∙◌, [], arith, inl, inr, ◌⊎◌, lt→ltb}
use doki_core_backend.Prelude.Int.{ℤ, pos, ◌+ℤ◌}
use doki_core_backend.Errors.{Result, ok, err, sentinel, inventory_unavailable}
use doki_core_backend.Clock.{day}
use doki_core_backend.Clock.Nights.{stay_dates_days, days_from}
use doki_core_backend.Redis.Keys.{Token, hold_tok}
use doki_core_backend.Redis.Server.{Redis}
use doki_core_backend.Redis.View.{IsTyped, held}
use doki_core_backend.Redis.Adapter.{Client, acquire_nights, acquire_fast_hold}
use doki_core_backend.Redis.Adapter.Atomic.{
  healthy, nights, SameHolds, HeldOver, AllFree, acquire_nights-AllOrNone,
}

module _ (r : Redis) (p q uuid : ℕ) (capacity : ℤ) where
  -- What a call for `k` nights from day `n` on returns, and the client that it leaves.
  abbrev pub Acquires : ℤ → r.Store → ℕ → ℕ → Result (Token × ℤ) × Client r → Type 0
  Acquires expires s n k out =
      AllFree r p q uuid 899 capacity s n k
        × ((s' : r.Store) × (out ≡ (ok (hold_tok uuid, expires), healthy r s'))
            × HeldOver r p q uuid s (nights r p q uuid n k) s')
      ⊎ (¬ AllFree r p q uuid 899 capacity s n k)
        × ((s' : r.Store) × (out ≡ (err (sentinel inventory_unavailable), healthy r s'))
            × SameHolds r s s')

  -- The result of the loop as `AcquireFastHold` returns it.
  abbrev returned : ℤ → Result (Unit {0}) × Client r → Result (Token × ℤ) × Client r
  returned expires x = (elim x.0 [ err e ↦ err e | ok _ ↦ ok (hold_tok uuid, expires) ], x.1)

  -- For a stay between two midnights and the lifetime of 15 minutes that the hold service asks for,
  -- `AcquireFastHold` succeeds exactly if each night has fewer holds than the capacity; it then
  -- holds one more room on each night. Otherwise it leaves every count and every token as before.
  pub acquire_fast_hold-Acquires :
      (now n k : ℕ) (s : r.Store)
      → IsTyped r s
      → held r s (hold_tok uuid) ≡ []
      → Acquires (pos now +ℤ pos 900000000000) s n (suc k) (
          acquire_fast_hold r now uuid p q
            (n * day)
            ((n + suc k) * day)
            capacity
            (pos 900000000000)
            (healthy r s))
  unfolding acquire_fast_hold
  acquire_fast_hold-Acquires now n k s typed fresh =
      let expires = pos now +ℤ pos 900000000000 in
      let path : acquire_fast_hold r now uuid p q (n * day) ((n + suc k) * day) capacity
            (pos 900000000000) (healthy r s)
          ≡ returned expires (
              acquire_nights r p q (hold_tok uuid) 900 capacity (days_from n (suc k))
                (healthy r s)) =
        rw (lt→ltb (n * day) ((n + suc k) * day) (omega arith), stay_dates_days n (suc k)) in
      elim (acquire_nights-AllOrNone r p q uuid 899 capacity n (suc k) s typed fresh) [
        | inl (free, (s', run, over)) ↦ inl (free, (s', path ∙ ap (returned expires) run, over))
        | inr (full, (s', run, same)) ↦ inr (full, (s', path ∙ ap (returned expires) run, same))
      ]
