-- ===== src/Clock.antt =====
-- `time.Time` as the code uses it: nanoseconds, in UTC, since the zero time of package `time`,
-- which is a midnight; times before that do not occur. A date text "2006-01-02" is kept as the
-- number of its day, which it prints injectively.
pub mod Nights
pub mod Dates
use doki_core_backend.Prelude.{
  ℕ, zero, suc, ◌+◌, ◌-◌, ◌*◌, ◌/◌, ◌<◌, List, [], ◌∷◌, ltb, if◌then◌else◌,
}

-- `24 * time.Hour`.
abbrev pub day : ℕ
day = 86400000000000

-- `time.Second`.
abbrev pub second : ℕ
second = 1000000000

-- `t.Truncate(24 * time.Hour)`.
abbrev pub midnight : ℕ → ℕ
midnight t = t / day * day

-- `t.Format("2006-01-02")`.
abbrev pub date : ℕ → ℕ
date t = t / day

-- `int(checkOut.Sub(checkIn).Hours() / 24)` of two times in order.
abbrev pub nights_between : ℕ → ℕ → ℕ
nights_between check_in check_out = (check_out - check_in) / day

-- `for d := checkIn; d.Before(checkOut); d = d.Add(24 * time.Hour)`, the dates in turn.
pub nights_loop : ℕ → ℕ → ℕ → List ℕ
nights_loop zero d check_out = []
nights_loop (suc fuel) d check_out =
    let rest = nights_loop fuel (d + day) check_out in if ltb d check_out then date d ∷ rest else []

-- One round for each begun day, and one for the last test.
unfoldable pub stay_dates : ℕ → ℕ → List ℕ
unfolding nights_loop
stay_dates check_in check_out =
    nights_loop (suc (suc (nights_between check_in check_out))) check_in check_out
