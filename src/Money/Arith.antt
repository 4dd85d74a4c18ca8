-- ===== src/Money/Arith.antt =====
-- Laws of the arithmetic of pkg/types/money.go.
use text.Mathlib.TextEquality.{eq_iff}
use doki_core_backend.Prelude.{ℕ, ◌+◌, ◌*◌, ◌/◌, ◌≤◌, ◌<◌, ◌≡◌, String, arith}
use doki_core_backend.Prelude.Int.{pos, ◌*ℤ◌, IsInt64, wrap64-fits, wrap64_back}
use doki_core_backend.Errors.{ok}
use doki_core_backend.Money.{Money, add, sub, percentage}

-- If two 64-bit amounts can be added at all, subtracting the second from the sum gives back the
-- first, also where the sum wrapped around.
pub sub-add :
    (m other : Money) {total : Money}
    → IsInt64 m.amount_minor
    → IsInt64 other.amount_minor
    → add m other ≡ ok total
    → sub total other ≡ ok m
unfolding add sub
sub-add m other h k e =
    ground
      (arith, eq_iff m.currency other.currency, wrap64_back m.amount_minor other.amount_minor h k)

product_pos : (a b : ℕ) → pos a *ℤ pos b ≡ pos (a * b)
unfolding ◌*ℤ◌
product_pos a b = ground arith

-- A share of at most 100.00% of an amount that is not negative, if the product does not overflow,
-- is the exact share rounded down, and at most the amount.
pub percentage_floor :
    (a bp : ℕ) (c : String)
    → bp ≤ 10000
    → a * bp < 9223372036854775808
    → (q : ℕ) × (percentage (record { amount_minor = pos a; currency = c }) (pos bp)
        ≡ record { amount_minor = pos q; currency = c })
      × (q * 10000 ≤ a * bp)
      × (a * bp < (q + 1) * 10000)
      × (q ≤ a)
unfolding percentage
percentage_floor a bp c h fits =
    let q = a * bp / 10000 in
    (
      q,
      rw (product_pos a bp, wrap64-fits (pos (a * bp)) fits) (ground arith),
      omega arith,
      omega arith,
      grind arith,
    )
