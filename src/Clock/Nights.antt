-- ===== src/Clock/Nights.antt =====
-- The nights of a stay.
use doki_core_backend.Prelude.{
  ℕ, zero, suc, ◌+◌, ◌*◌, ◌≤◌, ◌<◌, ◌≡◌, refl, ap, ◌∙◌, List, [], ◌∷◌, arith, length,
}
use doki_core_backend.Clock.{day, nights_between, nights_loop, stay_dates}

-- More fuel than the stay has nights changes nothing, so the loop ends by its own test.
nights_loop_enough :
    (fuel d check_out : ℕ)
    → check_out ≤ d + fuel * day
    → nights_loop (suc fuel) d check_out ≡ nights_loop fuel d check_out
unfolding nights_loop
nights_loop_enough zero d check_out h = ground arith
nights_loop_enough (suc fuel) d check_out h =
    ground (arith, nights_loop_enough fuel (d + day) check_out)

-- The dates from day `n` on, `k` of them.
abbrev pub days_from : ℕ → ℕ → List ℕ
days_from n zero = []
days_from n (suc k) = n ∷ days_from (n + 1) k

pub length-days_from : (n k : ℕ) → length (days_from n k) ≡ k
length-days_from n zero = refl
length-days_from n (suc k) = omega (arith, length-days_from (n + 1) k)

nights_loop_days :
    (f k n t check_out : ℕ)
    → t ≡ n * day
    → check_out ≡ (n + k) * day
    → k < f
    → nights_loop f t check_out ≡ days_from n k
unfolding nights_loop
nights_loop_days zero k n t check_out e g h = absurd (omega arith)
nights_loop_days (suc f) zero n t check_out e g h = ground arith
nights_loop_days (suc f) (suc k) n t check_out e g h = ground (
  arith,
  nights_loop_days f k (n + 1) (t + day) check_out (omega arith) (omega arith) (omega arith),
)

-- Between two midnights the loop visits every night from the arrival on, the departure left out.
pub stay_dates_days : (n k : ℕ) → stay_dates (n * day) ((n + k) * day) ≡ days_from n k
unfolding stay_dates
stay_dates_days n k =
    nights_loop_days (suc (suc (nights_between (n * day) ((n + k) * day)))) k n (n * day)
      ((n + k) * day) refl refl (omega arith)

-- For any two times, more rounds than `stay_dates` allows visit no further night: the loop has
-- ended by its own test.
pub stay_dates_ends :
    (check_in check_out extra : ℕ)
    → nights_loop (suc (suc (nights_between check_in check_out)) + extra) check_in check_out
      ≡ stay_dates check_in check_out
unfolding stay_dates
stay_dates_ends check_in check_out zero =
    ap (λ f. nights_loop f check_in check_out) {y = suc (suc (nights_between check_in check_out))}
      (omega arith)
stay_dates_ends check_in check_out (suc extra) =
    let f : ℕ = suc (suc (nights_between check_in check_out)) + extra in
    ap (λ g. nights_loop g check_in check_out) {y = suc f} (omega arith)
    ∙ nights_loop_enough f check_in check_out (omega arith)
    ∙ stay_dates_ends check_in check_out extra
