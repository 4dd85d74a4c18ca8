-- ===== src/Redis/Adapter/AnyNetwork.antt =====
-- What internal/adapter/cache/redis/inventory_hold_adapter.go keeps whatever the network does.
use doki_core_backend.Prelude.{
  ℕ, zero, suc, ◌/◌, ◌≡◌, refl, true, false, List, [], ◌∷◌, Option, some, none, arith, inl, inr,
  Bool-cases, ◌==◌, ltb,
}
use doki_core_backend.Prelude.Int.{ℤ, pos, negsuc, ◌≤ℤ◌}
use doki_core_backend.Errors.{Result, ok, err}
use doki_core_backend.Clock.{second, stay_dates}
use doki_core_backend.Redis.Keys.{Token, no_token, hold_tok, short_tok, Key, hold_key}
use doki_core_backend.Redis.Server.{Redis}
use doki_core_backend.Redis.Scripts.{Script, hold_script, release_script}
use doki_core_backend.Redis.Claims.{member}
use doki_core_backend.Redis.Booked.{IsBooked, Step-IsBooked, issue, hold, release}
use doki_core_backend.Redis.Adapter.{
  Delivery, delivered, refused, reply_lost, Client, answered, eval_with, retry, eval,
  release_fast_hold, after_night, acquire_nights, acquire_fast_hold, ttl_seconds,
}

module _ (r : Redis) where
  -- A property of the store that the script keeps, a call of the script keeps, delivered or not.
  module _ (P : r.Store → Type 0) (script : Script r)
      (keeps : (s : r.Store) → P s → P (script s).1) where
    answered-keeps :
        (a : Option ℕ × r.Store) (net : List Delivery) → P a.1 → P (answered r a net).1.store
    unfolding answered
    answered-keeps (some n, s) net h = h
    answered-keeps (none, s) net h = h

    eval_with-keeps :
        (s : r.Store) (net : List Delivery) → P s → P (eval_with r script s net).1.store
    unfolding eval_with
    eval_with-keeps s [] h = answered-keeps (script s) [] (keeps s h)
    eval_with-keeps s (delivered ∷ net) h = answered-keeps (script s) net (keeps s h)
    eval_with-keeps s (refused ∷ net) h = h
    eval_with-keeps s (reply_lost ∷ net) h = keeps s h

    retry-keeps : (reply : Result ℕ) (c : Client r) → P c.store → P (retry r script reply c).1.store
    unfolding retry
    retry-keeps (ok n) c h = h
    retry-keeps (err e) c h = eval_with-keeps c.store c.net h

    pub eval-keeps : (c : Client r) → P c.store → P (eval r script c).1.store
    unfolding eval
    eval-keeps c h =
        let first = eval_with r script c.store c.net in
        retry-keeps first.0 first.1 (eval_with-keeps c.store c.net h)

  module _ (cap : Key → ℕ) (ts : List Token) where
    -- A release leaves the counters equal to the claims, on any network.
    pub release_fast_hold-IsBooked :
        (token : Token) (c : Client r)
        → IsBooked r cap ts c.store
        → IsBooked r cap ts (release_fast_hold r token c).1.store
    unfolding release_fast_hold
    release_fast_hold-IsBooked no_token c b = b
    release_fast_hold-IsBooked (hold_tok u) c b =
        eval-keeps (IsBooked r cap ts) (release_script r (hold_tok u))
          (λ s. Step-IsBooked r cap (release (hold_tok u))) c b
    release_fast_hold-IsBooked (short_tok p q u) c b =
        eval-keeps (IsBooked r cap ts) (release_script r (short_tok p q u))
          (λ s. Step-IsBooked r cap (release (short_tok p q u))) c b

    after_night-IsBooked :
        (token : Token) (reply : Result ℕ) (c : Client r) (rest : Result (Unit {0}) × Client r)
        → IsBooked r cap ts c.store
        → IsBooked r cap ts rest.1.store
        → IsBooked r cap ts (after_night r token reply c rest).1.store
    unfolding after_night
    after_night-IsBooked token (err e) c rest b k = release_fast_hold-IsBooked token c b
    after_night-IsBooked token (ok success) c rest b k = elim (Bool-cases (success == 1)) [
      | inl done ↦ rw done k
      | inr full ↦ rw full (release_fast_hold-IsBooked token c b)
    ]

    -- However many calls fail or lose their replies on the way, and whether it ends well or not,
    -- the loop of `AcquireFastHold` leaves every counter equal to the claims of the issued tokens
    -- on its night, and no night claimed beyond its capacity.
    pub acquire_nights-IsBooked :
        (p q : ℕ) (token : Token) (ttl : ℕ) (capacity : ℤ) (dates : List ℕ) (c : Client r)
        → member ts token ≡ true
        → ((d : ℕ) → capacity ≤ℤ pos (cap (hold_key p q d)))
        → IsBooked r cap ts c.store
        → IsBooked r cap ts (acquire_nights r p q token (suc ttl) capacity dates c).1.store
    unfolding acquire_nights
    acquire_nights-IsBooked p q token ttl capacity [] c issued within b = b
    acquire_nights-IsBooked p q token ttl capacity (d ∷ dates) c issued within b =
        let script = hold_script r (hold_key p q d) token (suc ttl) capacity in
        let b1 =
          eval-keeps (IsBooked r cap ts) script
            (λ s. Step-IsBooked r cap (hold p q d token ttl capacity issued (within d))) c b in
        let c1 = (eval r script c).1 in
        after_night-IsBooked token (eval r script c).0 c1 _ b1
          (acquire_nights-IsBooked p q token ttl capacity dates c1 issued within b1)

ttl_seconds-pos : (ttl : ℤ) → (n : ℕ) × (ttl_seconds ttl ≡ suc n)
unfolding ttl_seconds
ttl_seconds-pos (pos n) = go (n / second)
  where
    go : (s : ℕ) → (m : ℕ) × ((elim s [ zero ↦ 900 | suc s' ↦ suc s' ]) ≡ suc m)
    go zero = (899, refl)
    go (suc s) = (s, refl)
ttl_seconds-pos (negsuc n) = (899, refl)

-- Whatever the network does, `AcquireFastHold` under a fresh token and within the capacity leaves
-- every counter equal to the claims of the tokens issued so far, its own among them, and no night
-- claimed beyond its capacity.
pub acquire_fast_hold-IsBooked :
    (r : Redis) (cap : Key → ℕ) (ts : List Token) (now uuid p q check_in check_out : ℕ)
    (capacity ttl : ℤ) (c : Client r)
    → member ts (hold_tok uuid) ≡ false
    → ((d : ℕ) → capacity ≤ℤ pos (cap (hold_key p q d)))
    → IsBooked r cap ts c.store
    → IsBooked r cap
        (hold_tok uuid ∷ ts)
        (acquire_fast_hold r now uuid p q check_in check_out capacity ttl c).1.store
unfolding acquire_fast_hold
acquire_fast_hold-IsBooked r cap ts now uuid p q check_in check_out capacity ttl c fresh within b =
    let token = hold_tok uuid in
    let b' = Step-IsBooked r cap (issue token fresh) b in
    let (n, e) = ttl_seconds-pos ttl in
    let done =
      acquire_nights-IsBooked r cap (token ∷ ts) p q token n capacity
        (stay_dates check_in check_out) c (ground arith) within b' in
    elim (Bool-cases (ltb check_in check_out)) [
      | inl valid ↦ rw (valid, e) done
      | inr invalid ↦ rw invalid b'
    ]
