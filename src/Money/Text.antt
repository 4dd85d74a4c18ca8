-- ===== src/Money/Text.antt =====
-- What `Money.String` of pkg/types/money.go shows of an amount.
use doki_core_backend.Prelude.{ℕ, suc, ◌+◌, ◌*◌, ◌<◌, ◌≡◌, arith, String}
use doki_core_backend.Prelude.Int.{ℤ, pos, negsuc, ◌-ℤ◌, pos_part, neg_part}
use doki_core_backend.Money.{Money, Printed, print}

-- The printed parts against the amount that they show.
abbrev pub Shows : ℤ → Printed → Type 0
Shows a p =
    ((pos_part p.major + neg_part p.major) * 100 + pos_part p.minor ≡ pos_part a + neg_part a)
    × (pos_part p.minor < 100)
    × (neg_part p.minor ≡ 0)

print-Shows : (a : ℤ) (c : String) → Shows a (print (record { amount_minor = a; currency = c }))
unfolding print ◌-ℤ◌
print-Shows (pos n) c = ground arith
print-Shows (negsuc n) c = ground arith

-- The text determines the size of the amount, and its cents are two digits without a sign.
pub print_value : (m : Money) → Shows m.amount_minor (print m)
print_value m = print-Shows m.amount_minor m.currency

-- A debt of less than one major unit is printed without its sign, exactly as the same credit.
pub print_loses_sign :
    (n : ℕ) (c : String)
    → suc n < 100
    → print (record { amount_minor = negsuc n; currency = c })
      ≡ print (record { amount_minor = pos (suc n); currency = c })
unfolding print ◌-ℤ◌
print_loses_sign n c h = ground arith
