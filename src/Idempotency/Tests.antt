-- ===== src/Idempotency/Tests.antt =====
-- Requests with one key at concrete inputs.
use mathlib.Core.Path.{subst}
use doki_core_backend.Prelude.{
  ap, sym, ◌≤◌, ◌≡◌, refl, List, [], ◌∷◌, ◌++◌, none, some, false, true, arith,
}
use doki_core_backend.Errors.{cancelled}
use doki_core_backend.Reservations.{no_fault, lost}
use doki_core_backend.Properties.Keys.{All}
use doki_core_backend.Idempotency.{
  CachedResponse, System, Event, arrives, moves, lock_expires, response_expires, finished, run,
  start, happen, move_at, next_call, look, take_lock, after_handler, cache, unlocking, executed,
  enter, passing, invalid_key,
}
use doki_core_backend.Idempotency.Lock.{holders, bit, Lasts, run-holders}
use doki_core_backend.Idempotency.Retries.{Reliable, Settled, Answers, run-Answers}
use doki_core_backend.Idempotency.Twice.{looks_from, served_from, runs_for_each}

abbrev reply_201 : CachedResponse
reply_201 = record { status_code = 201; content_type = "application/json"; body = "{}" }

-- Two requests; the reply to the second one's SETNX is lost, and the response runs out.
abbrev two_requests : List Event
two_requests =
    arrives
    ∷ arrives
    ∷ moves 0 no_fault none
    ∷ moves 1 no_fault none
    ∷ moves 0 no_fault none
    ∷ moves 1 (lost cancelled) none
    ∷ moves 0 no_fault (some reply_201)
    ∷ response_expires
    ∷ []

run-holders_example :
    holders (run two_requests start).requests ≤ bit (run two_requests start).store.locked
unfolding holders
run-holders_example =
    run-holders two_requests start (tt, (tt, (tt, (tt, (tt, (tt, (tt, (tt, tt)))))))) (omega arith)

-- The first request has looked, taken the lock, run the handler and stored its response.
abbrev cached_state : System
cached_state =
    run
      (arrives
        ∷ moves 0 no_fault none
        ∷ moves 0 no_fault none
        ∷ moves 0 no_fault (some reply_201)
        ∷ moves 0 no_fault none
        ∷ [])
      start

cached_state_lem : cached_state ≡ record {
  store = record { response = some reply_201; locked = true };
  requests = unlocking (executed reply_201) ∷ [];
  runs = 1;
}
unfolding run happen move_at next_call look take_lock after_handler cache
cached_state_lem = refl

-- A retry comes before the lock is given back.
abbrev retried_events : List Event
retried_events = arrives ∷ moves 1 no_fault none ∷ moves 0 no_fault none ∷ lock_expires ∷ []

run-Answers_example :
    Answers reply_201 cached_state.runs cached_state.requests (run retried_events cached_state)
run-Answers_example =
    run-Answers reply_201 retried_events cached_state (tt, (tt, (tt, (tt, tt))))
      (ap (λ (s : System). s.store.response) cached_state_lem)
      (subst (λ (s : System). All Settled s.requests) (sym cached_state_lem) (tt, tt))

runs_for_each_example :
    let es = looks_from 0 2 ++ served_from reply_201 0 2 in
    All Reliable es × All Lasts es × ((run es start).runs ≡ 2)
runs_for_each_example = runs_for_each reply_201 2 refl

get_passes : enter false "retry-0001" "GET" ≡ passing
unfolding enter
get_passes = refl

short_key : enter false "retry" "POST" ≡ finished invalid_key
unfolding enter
short_key = refl
