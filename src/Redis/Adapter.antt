-- ===== src/Redis/Adapter.antt =====
-- internal/adapter/cache/redis/inventory_hold_adapter.go: the client of the two scripts. The
-- network is a list of outcomes, one for each call: a call may not reach the server, or its reply
-- may be lost after the script has run. An empty list means that all goes well.
pub mod AnyNetwork
pub mod Atomic
pub mod Stay
use doki_core_backend.Prelude.{
  ℕ, zero, suc, ◌/◌, List, [], ◌∷◌, Option, none, some, Bool, true, false, ltb, ◌==◌, if◌then◌else◌,
}
use doki_core_backend.Prelude.Int.{ℤ, pos, negsuc, ◌+ℤ◌}
use doki_core_backend.Errors.{
  Err, sentinel, plain, wrapped, redis_nil, Result, ok, err, invalid_date_range,
  inventory_unavailable,
}
use doki_core_backend.Clock.{second, stay_dates}
use doki_core_backend.Redis.Keys.{Token, no_token, hold_tok, Key, hold_key}
use doki_core_backend.Redis.Server.{Redis}
use doki_core_backend.Redis.Scripts.{Script, hold_script, release_script}

pub data Delivery : Type 0 where
  delivered refused reply_lost : Delivery

-- `int(ttl.Seconds())`, or 900 where that is not positive. `ttl` is in nanoseconds.
unfoldable pub ttl_seconds : ℤ → ℕ
ttl_seconds (pos n) = elim (n / second) [ zero ↦ 900 | suc s ↦ suc s ]
ttl_seconds (negsuc n) = 900

module _ (r : Redis) where
  pub record Client : Type 0 where
    pub store : r.Store
    pub net : List Delivery

  -- The script runs and its reply arrives; an error reply is an error of the call.
  answered : Option ℕ × r.Store → List Delivery → Result ℕ × Client
  answered (some n, s) net = (ok n, record { store = s; net = net })
  answered (none, s) net = (err (plain "script error"), record { store = s; net = net })

  -- `client.EvalSha(...).Result()` and `client.Eval(...).Result()`: one call of a script.
  eval_with : Script r → r.Store → List Delivery → Result ℕ × Client
  unfolding answered
  eval_with script s [] = answered (script s) []
  eval_with script s (delivered ∷ net) = answered (script s) net
  eval_with script s (refused ∷ net) =
      (err (plain "connection refused"), record { store = s; net = net })
  eval_with script s (reply_lost ∷ net) =
      (err (plain "i/o timeout"), record { store = (script s).1; net = net })

  -- A second call where the first one failed.
  retry : Script r → Result ℕ → Client → Result ℕ × Client
  retry script (ok n) c = (ok n, c)
  retry script (err e) c = eval_with script c.store c.net

  -- `EvalSha`, and `Eval` where it failed.
  unfoldable pub eval : Script r → Client → Result ℕ × Client
  unfolding retry eval_with
  eval script c = let (reply, c1) = eval_with script c.store c.net in retry script reply c1

  is_redis_nil : Err → Bool
  is_redis_nil (wrapped text e) = is_redis_nil e
  is_redis_nil redis_nil = true
  is_redis_nil _ = false

  -- What `ReleaseFastHold` makes of the reply of the script.
  release_reply : Result ℕ → Result (Unit {0})
  unfolding is_redis_nil
  release_reply (ok n) = ok tt
  release_reply (err e) = if is_redis_nil e then ok tt else err (wrapped "release fast hold" e)

  -- `ReleaseFastHold`.
  unfoldable pub release_fast_hold : Token → Client → Result (Unit {0}) × Client
  unfolding release_reply
  release_fast_hold no_token c = (ok tt, c)
  release_fast_hold token c =
      let (reply, c1) = eval (release_script r token) c in (release_reply reply, c1)

  -- One turn of the loop of `AcquireFastHold`, from the reply for a night on. Whatever went wrong,
  -- the nights that the token holds so far are released, and the outcome of that is dropped.
  after_night : Token → Result ℕ → Client → Result (Unit {0}) × Client → Result (Unit {0}) × Client
  after_night token (err e) c rest =
      (err (wrapped "redis eval hold on date" e), (release_fast_hold token c).1)
  after_night token (ok success) c rest =
      if success == 1
      then rest
      else (err (sentinel inventory_unavailable), (release_fast_hold token c).1)

  -- The loop of `AcquireFastHold` over the dates of the stay.
  unfoldable pub acquire_nights :
      ℕ → ℕ → Token → ℕ → ℤ → List ℕ → Client → Result (Unit {0}) × Client
  unfolding after_night
  acquire_nights property room_type token ttl capacity [] c = (ok tt, c)
  acquire_nights property room_type token ttl capacity (d ∷ dates) c =
      let (reply, c1) = eval (hold_script r (hold_key property room_type d) token ttl capacity) c in
      let rest = acquire_nights property room_type token ttl capacity dates c1 in
      after_night token reply c1 rest

  -- `AcquireFastHold` at the time `now`, with the random UUID of its token.
  unfoldable pub acquire_fast_hold :
      ℕ → ℕ → ℕ → ℕ → ℕ → ℕ → ℤ → ℤ → Client → Result (Token × ℤ) × Client
  unfolding ttl_seconds
  acquire_fast_hold now uuid property room_type check_in check_out capacity ttl c =
      if ltb check_in check_out
      then (let token = hold_tok uuid in
          let (reply, c1) =
            acquire_nights property room_type token (ttl_seconds ttl) capacity
              (stay_dates check_in check_out) c in
          (elim reply [ err e ↦ err e | ok _ ↦ ok (token, pos now +ℤ ttl) ], c1))
      else (err (sentinel invalid_date_range), c)
