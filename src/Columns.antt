-- ===== src/Columns.antt =====
-- The columns of the tables of migrations: how PostgreSQL assigns a text to a VARCHAR(n).
use Prim.Native.Char.{code}
use doki_core_backend.Prelude.{
  ℕ, zero, suc, Bool, true, false, String, Option, none, some, ◌==◌, if◌then◌else◌,
}

-- What is too long is dropped where it is blanks alone, and is an error otherwise.
unfoldable pub varchar : ℕ → String → Option String
varchar n String.[] = some ""
varchar zero (String.◌∷◌ c s) = if code c == 32 then varchar zero s else none
varchar (suc n) (String.◌∷◌ c s) = elim (varchar n s) [
  | none ↦ none
  | some t ↦ some (String.◌∷◌ c t)
]

-- Whether a text can be assigned, and what is then kept of it.
unfoldable pub is_assignable : ℕ → String → Bool
unfolding varchar
is_assignable n s = elim (varchar n s) [ none ↦ false | some t ↦ true ]

unfoldable pub kept_text : ℕ → String → String
unfolding varchar
kept_text n s = elim (varchar n s) [ none ↦ s | some t ↦ t ]

unfoldable pub is_assignable_or_null : ℕ → Option String → Bool
unfolding is_assignable
is_assignable_or_null n none = true
is_assignable_or_null n (some s) = is_assignable n s

unfoldable pub kept_or_null : ℕ → Option String → Option String
unfolding kept_text
kept_or_null n none = none
kept_or_null n (some s) = some (kept_text n s)
