-- ===== src/Redis/Scripts.antt =====
-- internal/adapter/cache/redis/scripts/inventory_hold.lua and inventory_release.lua. Redis runs a
-- script atomically; an error reply ends it and keeps what it has written.
pub mod HoldEffect
pub mod ReleaseEffect
use doki_core_backend.Prelude.{ℕ, suc, List, [], ◌∷◌, Option, none, some, if◌then◌else◌}
use doki_core_backend.Prelude.Int.{ℤ, pos, leb_ℤ}
use doki_core_backend.Redis.Keys.{Token, Key, token_key, Reply, nil, wrong_type, digits, word}
use doki_core_backend.Redis.Server.{Redis}

-- `tonumber(reply) or 0`.
abbrev pub number : Reply → ℕ
number nil = 0
number wrong_type = 0
number (digits n) = n
number (word k) = 0

module _ (r : Redis) where
  open r use {Store, get, lrange, incr, decr, rpush, expire, del}

  -- What the script replies (`none`: an error), and the store that it leaves.
  abbrev pub Script : Type 0
  Script = Store → Option ℕ × Store

  -- The writes of `inventory_hold.lua`, from its INCR on.
  hold_writes : Key → Token → ℕ → Script
  hold_writes key token ttl s = elim (incr key s) [
    | none ↦ (none, s)
    | some s1 ↦
        let s2 = expire key ttl s1 in
        elim (rpush (token_key token) key s2) [
          | none ↦ (none, s2)
          | some s3 ↦ (some 1, expire (token_key token) ttl s3)
        ]
  ]

  -- inventory_hold.lua.
  unfoldable pub hold_script : Key → Token → ℕ → ℤ → Script
  unfolding hold_writes
  hold_script key token ttl capacity s = elim (get key s) [
    | wrong_type ↦ (none, s)
    | reply ↦
        if leb_ℤ capacity (pos (number reply)) then (some 0, s) else hold_writes key token ttl s
  ]

  -- `if count > 0 then DECR`, for one key.
  lower : Key → Script
  lower key s = elim (get key s) [
    | wrong_type ↦ (none, s)
    | digits (suc n) ↦ (some 1, decr key s)
    | _ ↦ (some 1, s)
  ]

  -- The loop over the keys of a token.
  lower_all : List Key → Script
  unfolding lower
  lower_all [] s = (some 1, s)
  lower_all (key ∷ keys) s =
      let (reply, s1) = lower key s in elim reply [ none ↦ (none, s1) | some _ ↦ lower_all keys s1 ]

  -- The fallback for a token that holds a single key as a string.
  release_single : Token → Script
  unfolding lower
  release_single token s = elim (get (token_key token) s) [
    | wrong_type ↦ (none, s)
    | word key ↦
        let (reply, s1) = lower key s in
        elim reply [ none ↦ (none, s1) | some _ ↦ (some 1, del (token_key token) s1) ]
    | digits n ↦ (some 1, del (token_key token) s)
    | nil ↦ (some 0, s)
  ]

  -- inventory_release.lua.
  unfoldable pub release_script : Token → Script
  unfolding lower_all release_single
  release_script token s = elim (lrange (token_key token) s) [
    | none ↦ (none, s)
    | some [] ↦ release_single token s
    | some (key ∷ keys) ↦
        let (reply, s1) = lower_all (key ∷ keys) s in
        elim reply [ none ↦ (none, s1) | some _ ↦ (some 1, del (token_key token) s1) ]
  ]
