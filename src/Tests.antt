-- ===== src/Tests.antt =====
-- The theorems about money and the clock at concrete inputs.
use doki_core_backend.Prelude.{suc, ◌+◌, ◌*◌, ◌≡◌, [], ◌∷◌, arith}
use doki_core_backend.Prelude.Int.{ℤ, pos, negsuc}
use doki_core_backend.Clock.{stay_dates, nights_loop, nights_between, day}
use doki_core_backend.Clock.Nights.{stay_dates_days, stay_dates_ends}
use doki_core_backend.Money.{Money, print}
use doki_core_backend.Money.Text.{print_loses_sign}

stay_dates_days_example : stay_dates (200 * day) ((200 + 3) * day) ≡ 200 ∷ 201 ∷ 202 ∷ []
stay_dates_days_example = stay_dates_days 200 3

stay_dates_ends_example :
    nights_loop (suc (suc (nights_between 5 (2 * day))) + 4) 5 (2 * day) ≡ stay_dates 5 (2 * day)
stay_dates_ends_example = stay_dates_ends 5 (2 * day) 4

abbrev birr : ℤ → Money
birr a = record { amount_minor = a; currency = "ETB" }

print_loses_sign_example : print (birr (negsuc 49)) ≡ print (birr (pos 50))
print_loses_sign_example = print_loses_sign 49 "ETB" (omega arith)
