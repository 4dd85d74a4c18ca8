-- ===== src/Search/Handler.antt =====
-- `SearchProperties` of internal/adapter/http/v1/search_handler.go: the reading of the parameters,
-- and the answer. A parameter that is missing is the empty text.
use Prim.Native.Char.{code}
use text.Mathlib.Text.{◌==◌ as str_eq}
use doki_core_backend.Prelude.{
  ℕ, zero, suc, ◌+◌, ◌-◌, ◌*◌, ◌&&◌, ◌||◌, not, String, List, Option, none, some, ltb, leb, ◌==◌,
  if◌then◌else◌, length,
}
use doki_core_backend.Prelude.Int.{pos}
use doki_core_backend.Errors.{Result, ok, err}
use doki_core_backend.Clock.{day, midnight, nights_between}
use doki_core_backend.Clock.Dates.{parse_date}
use doki_core_backend.Search.{PropertySearchResult, page_of}
use doki_core_backend.Search.Query.{SearchDb, Asked, query_available_properties}

-- Decimal digits after those that make `n`, `none` where another letter comes.
unfoldable pub read_digits : ℕ → String → Option ℕ
read_digits n String.[] = some n
read_digits n (String.◌∷◌ c s) =
    let rest = read_digits (n * 10 + (code c - 48)) s in
    if leb 48 (code c) && leb (code c) 57 then rest else none

-- At least one digit.
unfoldable pub read_natural : String → Option ℕ
read_natural String.[] = none
read_natural (String.◌∷◌ c s) = read_digits 0 (String.◌∷◌ c s)

abbrev pub below : ℕ → Option ℕ → Option ℕ
below bound none = none
below bound (some n) = if ltb n bound then some n else none

-- `strconv.Atoi` where its result is above zero, and `none` for its errors and for other numbers.
unfoldable pub positive_of : String → Option ℕ
positive_of String.[] = none
positive_of (String.◌∷◌ c s) =
    below 9223372036854775808 (read_natural (if code c == 43 then s else String.◌∷◌ c s))

unfoldable pub or_number : ℕ → Option ℕ → ℕ
or_number d none = d
or_number d (some zero) = d
or_number d (some (suc n)) = suc n

unfoldable pub page_size_of : Option ℕ → ℕ
page_size_of none = 20
page_size_of (some zero) = 20
page_size_of (some (suc n)) = if leb (suc n) 50 then suc n else 20

-- The parameters of the URL.
pub record SearchParams : Type 0 where
  pub check_in : String
  pub check_out : String
  pub guests : String
  pub page : String
  pub page_size : String
  pub region : String
  pub city : String

-- The answer: a status without results, a panic, or a page of the results with its number, its size
-- and the number of all results.
pub data SearchAnswer : Type 0 where
  failure : ℕ → SearchAnswer
  panic : SearchAnswer
  found : List PropertySearchResult → ℕ → ℕ → ℕ → SearchAnswer

abbrev pub asked_of : SearchParams → ℕ → ℕ → Asked
asked_of params check_in check_out = record {
  from_day = check_in;
  to_day = check_out;
  nights = nights_between (check_in * day) (check_out * day);
  guests = or_number 2 (positive_of params.guests);
  region = params.region;
  city = params.city;
}

unfoldable pub paged : ℕ → ℕ → ℕ → Option (List PropertySearchResult) → SearchAnswer
paged page size total none = panic
paged page size total (some results) = found results page size total

unfoldable pub answer_page : ℕ → ℕ → Result (List PropertySearchResult) → SearchAnswer
answer_page page size (err e) = failure 500
answer_page page size (ok results) =
    paged page size (length results) (page_of (pos page) (pos size) results)

module _ (now read : ℕ) (db : SearchDb) (params : SearchParams) where
  unfoldable pub search_days : Option ℕ → Option ℕ → SearchAnswer
  search_days none check_out = failure 400
  search_days (some check_in) none = failure 400
  search_days (some check_in) (some check_out) =
      if not (ltb (check_in * day) (check_out * day)) || ltb (check_in * day) (midnight now)
      then failure 400
      else answer_page (or_number 1 (positive_of params.page))
          (page_size_of (positive_of params.page_size))
          (query_available_properties read db (asked_of params check_in check_out))

  -- `SearchProperties`.
  unfoldable pub search_properties : SearchAnswer
  search_properties =
      if str_eq params.check_in "" || str_eq params.check_out ""
      then failure 400
      else search_days (parse_date params.check_in) (parse_date params.check_out)
