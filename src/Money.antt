-- ===== src/Money.antt =====
-- pkg/types/money.go. An amount is an `int64`, kept as an integer with its wrap-around written out.
pub mod Arith
pub mod Text
use text.Mathlib.Text.{◌==◌ as str_eq}
use doki_core_backend.Prelude.{ℕ, ◌/◌, ◌%◌, Bool, String, if◌then◌else◌}
use doki_core_backend.Prelude.Int.{
  ℤ, pos, pos_part, neg_part, sub_ℕ, ◌+ℤ◌, ◌-ℤ◌, ◌*ℤ◌, ltb_ℤ, wrap64,
}
use doki_core_backend.Errors.{Result, ok, err, plain}

pub record Money : Type 0 where
  pub amount_minor : ℤ
  pub currency : String

-- Go's `/` and `%` by a positive constant: both truncate towards zero.
abbrev pub quot : ℤ → ℕ → ℤ
quot a d = sub_ℕ (pos_part a / d) (neg_part a / d)

abbrev pub rem : ℤ → ℕ → ℤ
rem a d = sub_ℕ (pos_part a % d) (neg_part a % d)

unfoldable pub new_money : ℤ → String → Money
new_money amount currency = record {
  amount_minor = amount;
  currency = if str_eq currency "" then "ETB" else currency;
}

unfoldable pub zero_money : String → Money
zero_money currency = new_money (pos 0) currency

unfoldable pub is_zero : Money → Bool
is_zero m =
    if ltb_ℤ m.amount_minor (pos 0)
    then Bool.false
    else if ltb_ℤ (pos 0) m.amount_minor
    then Bool.false
    else Bool.true

unfoldable pub is_positive : Money → Bool
is_positive m = ltb_ℤ (pos 0) m.amount_minor

unfoldable pub is_negative : Money → Bool
is_negative m = ltb_ℤ m.amount_minor (pos 0)

-- `Money.Add`.
unfoldable pub add : Money → Money → Result Money
add m other =
    if str_eq m.currency other.currency
    then ok (record {
      amount_minor = wrap64 (m.amount_minor +ℤ other.amount_minor);
      currency = m.currency;
    })
    else err (plain "currency mismatch")

-- `Money.Sub`.
unfoldable pub sub : Money → Money → Result Money
sub m other =
    if str_eq m.currency other.currency
    then ok (record {
      amount_minor = wrap64 (m.amount_minor -ℤ other.amount_minor);
      currency = m.currency;
    })
    else err (plain "currency mismatch")

unfoldable pub multiply : Money → ℤ → Money
multiply m factor = record {
  amount_minor = wrap64 (m.amount_minor *ℤ factor);
  currency = m.currency;
}

-- `Money.Percentage`: the product wraps before the division.
unfoldable pub percentage : Money → ℤ → Money
percentage m basis_points = record {
  amount_minor = quot (wrap64 (m.amount_minor *ℤ basis_points)) 10000;
  currency = m.currency;
}

-- What `Money.String` hands to `fmt.Sprintf("%d.%02d %s")`.
pub record Printed : Type 0 where
  pub major : ℤ
  pub minor : ℤ
  pub unit : String

unfoldable pub print : Money → Printed
print m =
    let minor = rem m.amount_minor 100 in
    record {
      major = quot m.amount_minor 100;
      minor = if ltb_ℤ minor (pos 0) then pos 0 -ℤ minor else minor;
      unit = m.currency;
    }
