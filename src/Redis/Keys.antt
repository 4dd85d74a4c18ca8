-- ===== src/Redis/Keys.antt =====
-- The names of the keys of internal/adapter/cache/redis/inventory_hold_adapter.go and of its
-- scripts, and what a key holds. A name is kept as the parts that it is printed from: `%s` of a
-- UUID and of a date have a fixed width, and the prefixes differ, so equal names have equal parts.
use doki_core_backend.Prelude.{
  ℕ, ◌+◌, ◌≡◌, refl, ap, Bool, true, false, ◌&&◌, List, [], ◌∷◌, ◌++◌, Option, none, some, arith,
  ◌==◌,
}

-- A hold token: the empty text, "hold:tok:<uuid>" of the Redis adapter, or the text
-- "hold:<8 digits>:<8 digits>:<8 digits>" of the PostgreSQL repository.
pub data Token : Type 0 where
  no_token : Token
  hold_tok : ℕ → Token
  short_tok : ℕ → ℕ → ℕ → Token

-- "inv:hold:<property>:<room type>:<date>" and "inv:token:<token>".
pub data Key : Type 0 where
  hold_key : ℕ → ℕ → ℕ → Key
  token_key : Token → Key

abbrev pub token_eq : Token → Token → Bool
token_eq no_token no_token = true
token_eq (hold_tok u) (hold_tok v) = u == v
token_eq (short_tok p r u) (short_tok q s v) = p == q && (r == s && u == v)
token_eq _ _ = false

abbrev pub key_eq : Key → Key → Bool
key_eq (hold_key p r d) (hold_key q s e) = p == q && (r == s && d == e)
key_eq (token_key t) (token_key u) = token_eq t u
key_eq _ _ = false

pub token_eq_refl : (t : Token) → token_eq t t ≡ true
token_eq_refl no_token = refl
token_eq_refl (hold_tok u) = ground arith
token_eq_refl (short_tok p r u) = ground arith

pub eq_of_token_eq : (t u : Token) → token_eq t u ≡ true → t ≡ u
eq_of_token_eq no_token no_token h = refl
eq_of_token_eq (hold_tok u) (hold_tok v) h = ground arith
eq_of_token_eq (short_tok p r u) (short_tok q s v) h = ground arith
eq_of_token_eq no_token (hold_tok v) h = cc
eq_of_token_eq no_token (short_tok q s v) h = cc
eq_of_token_eq (hold_tok u) no_token h = cc
eq_of_token_eq (hold_tok u) (short_tok q s v) h = cc
eq_of_token_eq (short_tok p r u) no_token h = cc
eq_of_token_eq (short_tok p r u) (hold_tok v) h = cc

pub key_eq_refl : (k : Key) → key_eq k k ≡ true
key_eq_refl (hold_key p r d) = ground arith
key_eq_refl (token_key t) = token_eq_refl t

pub eq_of_key_eq : (k j : Key) → key_eq k j ≡ true → k ≡ j
eq_of_key_eq (hold_key p r d) (hold_key q s e) h = ground arith
eq_of_key_eq (token_key t) (token_key u) h = ap token_key (eq_of_token_eq t u h)
eq_of_key_eq (hold_key p r d) (token_key u) h = cc
eq_of_key_eq (token_key t) (hold_key q s e) h = cc

-- What a live key holds, with the second at which it expires: a string of digits, a string that
-- names a key, or a list.
pub data Entry : Type 0 where
  counter : ℕ → Option ℕ → Entry
  text : Key → Option ℕ → Entry
  items : List Key → Option ℕ → Entry

-- A string reply: absent, a number, another text, or the error WRONGTYPE.
pub data Reply : Type 0 where
  nil wrong_type : Reply
  digits : ℕ → Reply
  word : Key → Reply

-- GET.
abbrev pub read : Option Entry → Reply
read none = nil
read (some (counter n x)) = digits n
read (some (text k x)) = word k
read (some (items l x)) = wrong_type

-- LRANGE 0 -1; `none` is WRONGTYPE.
abbrev pub read_items : Option Entry → Option (List Key)
read_items none = some []
read_items (some (counter n x)) = none
read_items (some (text k x)) = none
read_items (some (items l x)) = some l

-- INCR; `none` is an error.
abbrev pub bump : Option Entry → Option Entry
bump none = some (counter 1 none)
bump (some (counter n x)) = some (counter (n + 1) x)
bump (some (text k x)) = none
bump (some (items l x)) = none

-- RPUSH; `none` is WRONGTYPE.
abbrev pub pushed : Key → Option Entry → Option Entry
pushed k none = some (items (k ∷ []) none)
pushed k (some (counter n x)) = none
pushed k (some (text j x)) = none
pushed k (some (items l x)) = some (items (l ++ k ∷ []) x)

-- EXPIRE.
abbrev pub until : ℕ → Option Entry → Option Entry
until t none = none
until t (some (counter n x)) = some (counter n (some t))
until t (some (text k x)) = some (text k (some t))
until t (some (items l x)) = some (items l (some t))
