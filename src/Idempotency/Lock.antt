-- ===== src/Idempotency/Lock.antt =====
-- The lock of internal/adapter/http/middleware/idempotency.go keeps the requests with one key apart.
use doki_core_backend.Prelude.{
  ℕ, zero, suc, ◌+◌, ◌-◌, ◌≤◌, ◌≡◌, refl, Bool, true, false, List, [], ◌∷◌, ◌++◌, Option, none,
  some, arith, get_elem?, set, inl, inr, Bool-cases,
}
use doki_core_backend.Errors.{Err, redis_nil}
use doki_core_backend.Reservations.{Fault, no_fault, refused, lost}
use doki_core_backend.Properties.Keys.{All}
use doki_core_backend.Idempotency.{
  CachedResponse, SharedKeys, Phase, arriving, missed, running, passing, storing, unlocking,
  finished, look, lock_failed, take_lock, after_handler, passed, cache, unlock, next_call, System,
  Event, arrives, moves, lock_expires, response_expires, move_at, happen, run,
}

-- A request has the lock from its SETNX to its DEL.
unfoldable pub holds : Phase → ℕ
holds running = 1
holds (storing c) = 1
holds (unlocking out) = 1
holds arriving = 0
holds missed = 0
holds passing = 0
holds (finished out) = 0

unfoldable pub holders : List Phase → ℕ
holders [] = 0
holders (x ∷ xs) = holds x + holders xs

abbrev pub bit : Bool → ℕ
bit true = 1
bit false = 0

bit-le : (b : Bool) → bit b ≤ 1
bit-le true = omega arith
bit-le false = omega arith

holds-holders :
    (xs : List Phase) (i : ℕ) (x : Phase) → get_elem? xs i ≡ some x → holds x ≤ holders xs
unfolding holders
holds-holders [] i x h = cc
holds-holders (z ∷ xs) zero x h = let same : z ≡ x = cc in rw same (omega arith)
holds-holders (z ∷ xs) (suc i) x h = omega (arith, holds-holders xs i x h)

holders-append : (xs : List Phase) (y : Phase) → holders (xs ++ y ∷ []) ≡ holders xs + holds y
unfolding holders
holders-append [] y = omega arith
holders-append (x ∷ xs) y = omega (arith, holders-append xs y)

holders-set :
    (xs : List Phase) (i : ℕ) (x y : Phase)
    → get_elem? xs i ≡ some x
    → holders (set xs i y) + holds x ≡ holders xs + holds y
unfolding holders
holders-set [] i x y h = cc
holders-set (z ∷ xs) zero x y h = let same : z ≡ x = cc in rw same (omega arith)
holders-set (z ∷ xs) (suc i) x y h = omega (arith, holders-set xs i x y h)

lock_failed-holds : (e : Err) → holds (lock_failed e) ≡ 0
unfolding lock_failed holds
lock_failed-holds redis_nil = refl
lock_failed-holds e = refl

look-holds : (f : Fault) (response : Option CachedResponse) → holds (look f response) ≡ 0
unfolding look holds
look-holds no_fault none = refl
look-holds no_fault (some c) = refl
look-holds (refused e) response = refl
look-holds (lost e) response = refl

take_lock-holds :
    (f : Fault) (store : SharedKeys) (rest : ℕ)
    → rest + 0 ≤ bit store.locked
    → rest + holds (take_lock f store).0 ≤ bit (take_lock f store).1.locked
unfolding take_lock holds
take_lock-holds no_fault store rest h = elim (Bool-cases store.locked) [
  | inl held ↦ simp held (omega (arith, h, bit-le store.locked))
  | inr free ↦ simp free (omega (arith, let none_held : rest + 0 ≤ 0 = simp free at h in none_held))
]
take_lock-holds (refused e) store rest h = omega (arith, h, lock_failed-holds e)
take_lock-holds (lost e) store rest h = omega (arith, h, lock_failed-holds e, bit-le store.locked)

handler-holds : (r : Option CachedResponse) → holds (after_handler r) ≡ 1
unfolding after_handler holds
handler-holds none = refl
handler-holds (some r) = ground arith

passed-holds : (r : Option CachedResponse) → holds (passed r) ≡ 0
unfolding passed holds
passed-holds none = refl
passed-holds (some r) = refl

cache-locked :
    (f : Fault) (c : CachedResponse) (store : SharedKeys) → (cache f c store).locked ≡ store.locked
unfolding cache
cache-locked no_fault c store = refl
cache-locked (refused e) c store = refl
cache-locked (lost e) c store = refl

unlock-bit :
    (f : Fault) (store : SharedKeys) (rest : ℕ)
    → rest + 1 ≤ bit store.locked
    → rest + 0 ≤ bit (unlock f store).locked
unfolding unlock
unlock-bit no_fault store rest h = omega (arith, h, bit-le store.locked)
unlock-bit (refused e) store rest h = omega (arith, h)
unlock-bit (lost e) store rest h = omega (arith, h, bit-le store.locked)

-- What a call of one request does to the lock, where the others hold it `rest` times.
next_call-holds :
    (f : Fault) (r : Option CachedResponse) (phase : Phase) (store : SharedKeys) (n rest : ℕ)
    → rest + holds phase ≤ bit store.locked
    → rest + holds (next_call f r phase store n).phase
      ≤ bit (next_call f r phase store n).store.locked
unfolding next_call holds
next_call-holds f r arriving store n rest h = omega (arith, h, look-holds f store.response)
next_call-holds f r missed store n rest h = take_lock-holds f store rest h
next_call-holds f r running store n rest h = omega (arith, h, handler-holds r)
next_call-holds f r passing store n rest h = omega (arith, h, passed-holds r)
next_call-holds f r (storing c) store n rest h = rw (cache-locked f c store) h
next_call-holds f r (unlocking out) store n rest h = unlock-bit f store rest h
next_call-holds f r (finished out) store n rest h = h

module _ (i : ℕ) (f : Fault) (r : Option CachedResponse) where
  move-holders :
      (phase : Option Phase) (s : System)
      → get_elem? s.requests i ≡ phase
      → holders s.requests ≤ bit s.store.locked
      → holders (move_at i f r phase s).requests ≤ bit (move_at i f r phase s).store.locked
  unfolding move_at
  move-holders none s e h = h
  move-holders (some phase) s e h =
      let turn = next_call f r phase s.store s.runs in
      let rest = holders s.requests - holds phase in
      let room : rest + holds phase ≤ bit s.store.locked =
        omega (arith, h, holds-holders s.requests i phase e) in
      let kept : rest + holds turn.phase ≤ bit turn.store.locked =
        next_call-holds f r phase s.store s.runs rest room in
      let moved : holders (set s.requests i turn.phase) ≤ bit turn.store.locked = omega (
        arith,
        kept,
        holders-set s.requests i phase turn.phase e,
        holds-holders s.requests i phase e,
      ) in
      moved

-- Events in which the lock does not run out.
abbrev pub Lasts : Event → Type 0
Lasts arrives = Unit
Lasts (moves i f r) = Unit
Lasts lock_expires = ⊥
Lasts response_expires = Unit

happen-holders :
    (e : Event) (s : System)
    → Lasts e
    → holders s.requests ≤ bit s.store.locked
    → holders (happen e s).requests ≤ bit (happen e s).store.locked
unfolding happen holds
happen-holders arrives s l h = omega (arith, h, holders-append s.requests arriving)
happen-holders (moves i f r) s l h = move-holders i f r (get_elem? s.requests i) s refl h
happen-holders lock_expires s l h = elim l [ ]
happen-holders response_expires s l h = h

-- As long as the lock does not run out under its owner, at most one request with the key holds it,
-- whatever Redis refuses or loses and in whatever order the requests move; and where one holds it,
-- the lock is set.
pub run-holders :
    (es : List Event) (s : System)
    → All Lasts es
    → holders s.requests ≤ bit s.store.locked
    → holders (run es s).requests ≤ bit (run es s).store.locked
unfolding run
run-holders [] s l h = h
run-holders (e ∷ es) s l h = run-holders es (happen e s) l.1 (happen-holders e s l.0 h)
