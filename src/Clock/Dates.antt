-- ===== src/Clock/Dates.antt =====
-- `time.Parse("2006-01-02", text)`, as the handlers of internal/adapter/http/v1 use it: four digits,
-- two digits and two digits, of a day that the calendar has. The year 0000, which lies before the
-- zero time, is read as the year 0001.
use Prim.Native.Char.{code}
use doki_core_backend.Prelude.{
  ℕ, ◌+◌, ◌-◌, ◌*◌, ◌/◌, ◌%◌, Bool, ◌&&◌, ◌||◌, not, String, List, [], ◌∷◌, Option, none, some, leb,
  ltb, ◌==◌, if◌then◌else◌, ◌≡◌, refl,
}

codes : String → List ℕ
codes String.[] = []
codes (String.◌∷◌ c s) = code c ∷ codes s

is_digit : ℕ → Bool
is_digit c = leb 48 c && leb c 57

is_leap : ℕ → Bool
is_leap y = y % 4 == 0 && (not (y % 100 == 0) || y % 400 == 0)

-- The days of a year before a month, and the days of a month.
days_before : ℕ → ℕ → ℕ
unfolding is_leap
days_before y m =
    let leap = if is_leap y && ltb 2 m then 1 else 0 in
    leap + (367 * m - 362) / 12 - (if ltb 2 m then 2 else 0)

days_in : ℕ → ℕ → ℕ
unfolding is_leap
days_in y m =
    if m == 2
    then (if is_leap y then 29 else 28)
    else (if (m == 4 || m == 6) || (m == 9 || m == 11) then 30 else 31)

-- The day number of a date.
day_number : ℕ → ℕ → ℕ → ℕ
unfolding days_before
day_number y m d =
    let years = y - 1 in
    years * 365 + years / 4 - years / 100 + years / 400 + days_before y m + (d - 1)

dated : ℕ → ℕ → ℕ → Option ℕ
unfolding day_number days_in
dated y m d =
    if (leb 1 m && leb m 12) && (leb 1 d && leb d (days_in y m))
    then some (day_number y m d)
    else none

read_date : List ℕ → Option ℕ
unfolding is_digit dated
read_date (a ∷ b ∷ c ∷ d ∷ dash1 ∷ e ∷ f ∷ dash2 ∷ g ∷ h ∷ []) =
    if ((((is_digit a && is_digit b) && (is_digit c && is_digit d)) && (is_digit e && is_digit f))
        && (is_digit g && is_digit h))
      && (dash1 == 45 && dash2 == 45)
    then dated ((a - 48) * 1000 + (b - 48) * 100 + (c - 48) * 10 + (d - 48))
        ((e - 48) * 10 + (f - 48)) ((g - 48) * 10 + (h - 48))
    else none
read_date _ = none

unfoldable pub parse_date : String → Option ℕ
unfolding read_date codes
parse_date text = read_date (codes text)

first_day : parse_date "0001-01-01" ≡ some 0
unfolding parse_date
first_day = refl

unix_epoch : parse_date "1970-01-01" ≡ some 719162
unfolding parse_date
unix_epoch = refl

leap_day : parse_date "2024-02-29" ≡ some 738944
unfolding parse_date
leap_day = refl

no_leap_day : parse_date "2023-02-29" ≡ none
unfolding parse_date
no_leap_day = refl

last_day : parse_date "2025-12-31" ≡ some 739615
unfolding parse_date
last_day = refl

one_digit : parse_date "2025-1-01" ≡ none
unfolding parse_date
one_digit = refl
