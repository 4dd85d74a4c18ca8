-- ===== src/Idempotency.antt =====
-- `IdempotencyMiddleware` of internal/adapter/http/middleware/idempotency.go: the requests with one
-- key, and the two Redis keys that they share. Requests with other keys touch other Redis keys.
pub mod Lock
pub mod Retries
pub mod Twice
pub mod Tests
use Prim.Native.String.{len}
use text.Mathlib.Text.{◌==◌ as str_eq}
use doki_core_backend.Prelude.{
  ℕ, zero, suc, ◌+◌, Bool, true, false, ◌&&◌, ◌||◌, String, List, [], ◌∷◌, ◌++◌, Option, none, some,
  ltb, leb, if◌then◌else◌, get_elem?, set,
}
use doki_core_backend.Errors.{Err, redis_nil}
use doki_core_backend.Reservations.{Fault, no_fault, refused, lost}

-- `CachedResponse`, with the one header that is kept.
pub record CachedResponse : Type 0 where
  pub status_code : ℕ
  pub content_type : String
  pub body : String

-- `idemp:resp:<key>` and whether `idemp:lock:<key>` is set.
pub record SharedKeys : Type 0 where
  pub response : Option CachedResponse
  pub locked : Bool

pub data Outcome : Type 0 where
  replayed executed : CachedResponse → Outcome
  in_flight invalid_key panicked : Outcome

-- Where a request stands: before GET, before SETNX, in the handler with the lock, in the handler
-- without it, before SET, before DEL, and answered.
pub data Phase : Type 0 where
  arriving missed running passing : Phase
  storing : CachedResponse → Phase
  unlocking finished : Outcome → Phase

-- The way in: whether the key is a UUID is `uuid.Parse`'s to say.
unfoldable pub enter : Bool → String → String → Phase
enter is_uuid key method =
    if str_eq key "" || (str_eq method "GET" || (str_eq method "HEAD" || str_eq method "OPTIONS"))
    then passing
    else (if is_uuid || leb 8 (len key) then arriving else finished invalid_key)

-- GET; an error is taken for a missing key.
unfoldable pub look : Fault → Option CachedResponse → Phase
look no_fault (some cached) = finished (replayed cached)
look no_fault none = missed
look (refused e) response = missed
look (lost e) response = missed

-- An error of SETNX lets the request pass, unless it is redis.Nil.
unfoldable pub lock_failed : Err → Phase
lock_failed redis_nil = finished in_flight
lock_failed e = passing

-- SETNX.
unfoldable pub take_lock : Fault → SharedKeys → Phase × SharedKeys
take_lock no_fault store =
    if store.locked then (finished in_flight, store) else (running, record store { locked = true })
take_lock (refused e) store = (lock_failed e, store)
take_lock (lost e) store = (lock_failed e, record store { locked = true })

-- What the handler answers; `none` is a panic, which runs the deferred DEL.
unfoldable pub after_handler : Option CachedResponse → Phase
after_handler none = unlocking panicked
after_handler (some r) =
    if leb 200 r.status_code && ltb r.status_code 500 then storing r else unlocking (executed r)

unfoldable pub passed : Option CachedResponse → Phase
passed none = finished panicked
passed (some r) = finished (executed r)

-- SET.
unfoldable pub cache : Fault → CachedResponse → SharedKeys → SharedKeys
cache (refused e) r store = store
cache no_fault r store = record store { response = some r }
cache (lost e) r store = record store { response = some r }

-- DEL.
unfoldable pub unlock : Fault → SharedKeys → SharedKeys
unlock (refused e) store = store
unlock no_fault store = record store { locked = false }
unlock (lost e) store = record store { locked = false }

-- A request, what it shares, and how often the handler has run.
pub record Turn : Type 0 where
  pub phase : Phase
  pub store : SharedKeys
  pub runs : ℕ

-- The next call of a request: its Redis command under a fault, or the handler with its answer.
unfoldable pub next_call : Fault → Option CachedResponse → Phase → SharedKeys → ℕ → Turn
next_call f r arriving store n = record { phase = look f store.response; store = store; runs = n }
next_call f r missed store n =
    let (phase, store1) = take_lock f store in record { phase = phase; store = store1; runs = n }
next_call f r running store n = record { phase = after_handler r; store = store; runs = suc n }
next_call f r passing store n = record { phase = passed r; store = store; runs = suc n }
next_call f r (storing c) store n = record {
  phase = unlocking (executed c);
  store = cache f c store;
  runs = n;
}
next_call f r (unlocking out) store n = record {
  phase = finished out;
  store = unlock f store;
  runs = n;
}
next_call f r (finished out) store n = record { phase = finished out; store = store; runs = n }

pub record System : Type 0 where
  pub store : SharedKeys
  pub requests : List Phase
  pub runs : ℕ

-- A new request, the next call of a request, or the end of the lifetime of one of the keys.
pub data Event : Type 0 where
  arrives : Event
  moves : ℕ → Fault → Option CachedResponse → Event
  lock_expires response_expires : Event

unfoldable pub move_at : ℕ → Fault → Option CachedResponse → Option Phase → System → System
move_at i f r none s = s
move_at i f r (some phase) s =
    let turn = next_call f r phase s.store s.runs in
    record { store = turn.store; requests = set s.requests i turn.phase; runs = turn.runs }

unfoldable pub happen : Event → System → System
happen arrives s = record s { requests = s.requests ++ arriving ∷ [] }
happen (moves i f r) s = move_at i f r (get_elem? s.requests i) s
happen lock_expires s = record s { store = record s.store { locked = false } }
happen response_expires s = record s { store = record s.store { response = none } }

unfoldable pub run : List Event → System → System
run [] s = s
run (e ∷ es) s = run es (happen e s)

-- Nothing is set, and nobody has come.
abbrev pub start : System
start = record { store = record { response = none; locked = false }; requests = []; runs = 0 }
