-- ===== src/Idempotency/Twice.antt =====
-- How often the handler runs for one key (internal/adapter/http/middleware/idempotency.go).
use mathlib.Core.List.{append-nil, append_assoc}
use native.Mathlib.Nat.{zero-add}
use doki_core_backend.Prelude.{
  ℕ, zero, suc, ◌+◌, ◌≡◌, refl, sym, ap, ◌∙◌, true, false, ◌&&◌, List, [], ◌∷◌, ◌++◌, Option, none,
  some, arith, get_elem?, set, length, length-append, replicate, leb, ltb,
}
use doki_core_backend.Reservations.{no_fault}
use doki_core_backend.Properties.Keys.{All}
use doki_core_backend.Idempotency.{
  CachedResponse, SharedKeys, Phase, arriving, missed, running, storing, unlocking, finished,
  executed, look, take_lock, after_handler, cache, unlock, next_call, System, Event, arrives, moves,
  move_at, happen, run, start,
}
use doki_core_backend.Idempotency.Lock.{Lasts}
use doki_core_backend.Idempotency.Retries.{Reliable}

-- Requests number `k` and on, so many, come and look.
abbrev pub looks_from : ℕ → ℕ → List Event
looks_from k zero = []
looks_from k (suc n) = arrives ∷ moves k no_fault none ∷ looks_from (suc k) n

-- They are served one after the other, with the answer `r`.
abbrev pub served_from : CachedResponse → ℕ → ℕ → List Event
served_from r k zero = []
served_from r k (suc n) =
    let move = moves k no_fault (some r) in move ∷ move ∷ move ∷ move ∷ served_from r (suc k) n

module _ {A : Type 0} (x y : A) where
  get-middle : (xs ys : List A) → get_elem? (xs ++ x ∷ ys) (length xs) ≡ some x
  get-middle [] ys = refl
  get-middle (z ∷ xs) ys = get-middle xs ys

  set-middle : (xs ys : List A) → set (xs ++ x ∷ ys) (length xs) y ≡ xs ++ y ∷ ys
  set-middle [] ys = refl
  set-middle (z ∷ xs) ys = ap (λ zs. z ∷ zs) (set-middle xs ys)

length-snoc : {A : Type 0} (xs : List A) (x : A) → length (xs ++ x ∷ []) ≡ suc (length xs)
length-snoc xs x = omega (arith, length-append {0} xs (x ∷ []))

abbrev system : Option CachedResponse → List Phase → ℕ → System
system response requests n = record {
  store = record { response = response; locked = false };
  requests = requests;
  runs = n;
}

one_look :
    (xs : List Phase)
    → run (arrives ∷ moves (length xs) no_fault none ∷ []) (system none xs 0)
      ≡ system none (xs ++ missed ∷ []) 0
unfolding run happen move_at next_call look
one_look xs = rw (get-middle arriving missed xs [], set-middle arriving missed xs []) refl

run-append : (es fs : List Event) (s : System) → run (es ++ fs) s ≡ run fs (run es s)
unfolding run
run-append [] fs s = refl
run-append (e ∷ es) fs s = run-append es fs (happen e s)

run_looks :
    (n : ℕ) (xs : List Phase)
    → run (looks_from (length xs) n) (system none xs 0) ≡ system none (xs ++ replicate n missed) 0
run_looks zero xs = unfold run in ap (λ ys. system none ys 0) (sym (append-nil xs))
run_looks (suc n) xs =
    run-append (arrives ∷ moves (length xs) no_fault none ∷ []) (looks_from (suc (length xs)) n)
      (system none xs 0)
    ∙ ap (run (looks_from (suc (length xs)) n)) (one_look xs)
    ∙ ap (λ k. run (looks_from k n) (system none (xs ++ missed ∷ []) 0))
        (sym (length-snoc xs missed))
    ∙ run_looks n (xs ++ missed ∷ [])
    ∙ ap (λ ys. system none ys 0) (append_assoc xs (missed ∷ []) (replicate n missed))

-- A good answer, which is cached.
abbrev pub Good : CachedResponse → Type 0
Good r = (leb 200 r.status_code && ltb r.status_code 500) ≡ true

module _ (r : CachedResponse) where
  next_turn : Phase → SharedKeys → ℕ → List Phase → List Phase → System
  next_turn phase store n xs ys =
      let turn = next_call no_fault (some r) phase store n in
      record { store = turn.store; requests = xs ++ turn.phase ∷ ys; runs = turn.runs }

  move-next :
      (phase : Phase) (store : SharedKeys) (n : ℕ) (xs ys : List Phase)
      → happen
          (moves (length xs) no_fault (some r))
          (record { store = store; requests = xs ++ phase ∷ ys; runs = n })
        ≡ next_turn phase store n xs ys
  unfolding happen move_at next_turn
  move-next phase store n xs ys =
      let turn = next_call no_fault (some r) phase store n in
      rw (get-middle phase turn.phase xs ys, set-middle phase turn.phase xs ys) refl

  one_service :
      (old : Option CachedResponse) (xs ys : List Phase) (n : ℕ)
      → Good r
      → let move = moves (length xs) no_fault (some r) in
        run (move ∷ move ∷ move ∷ move ∷ []) (system old (xs ++ missed ∷ ys) n)
        ≡ system (some r) (xs ++ finished (executed r) ∷ ys) (suc n)
  unfolding run next_turn next_call take_lock after_handler cache unlock
  one_service old xs ys n good =
      let move = moves (length xs) no_fault (some r) in
      let held : SharedKeys = record { response = old; locked = true } in
      let stored : SharedKeys = record { response = some r; locked = true } in
      let handled : after_handler (some r) ≡ storing r = rw good refl in
      ap (λ s. happen move (happen move (happen move s)))
        (move-next missed (record { response = old; locked = false }) n xs ys)
      ∙ ap (λ s. happen move (happen move s)) (move-next running held n xs ys)
      ∙ ap
          (λ p.
            happen move
              (happen move (record { store = held; requests = xs ++ p ∷ ys; runs = suc n })))
          handled
      ∙ ap (happen move) (move-next (storing r) held (suc n) xs ys)
      ∙ move-next (unlocking (executed r)) stored (suc n) xs ys

  runs_served :
      (n m : ℕ) (old : Option CachedResponse) (xs : List Phase)
      → Good r
      → (run (served_from r (length xs) n) (system old (xs ++ replicate n missed) m)).runs ≡ m + n
  runs_served zero m old xs good = unfold run in omega arith
  runs_served (suc n) m old xs good =
      let move = moves (length xs) no_fault (some r) in
      let done = xs ++ finished (executed r) ∷ [] in
      let served : run (served_from r (length xs) (suc n))
            (system old (xs ++ replicate (suc n) missed) m)
          ≡ run (served_from r (length done) n)
              (system (some r) (done ++ replicate n missed) (suc m)) =
        run-append (move ∷ move ∷ move ∷ move ∷ []) (served_from r (suc (length xs)) n)
          (system old (xs ++ missed ∷ replicate n missed) m)
        ∙ ap (run (served_from r (suc (length xs)) n))
            (one_service old xs (replicate n missed) m good)
        ∙ ap
            (λ k.
              run (served_from r k n)
                (system (some r) (xs ++ finished (executed r) ∷ replicate n missed) (suc m)))
            (sym (length-snoc xs (finished (executed r))))
        ∙ ap (λ ys. run (served_from r (length done) n) (system (some r) ys (suc m)))
            (sym (append_assoc xs (finished (executed r) ∷ []) (replicate n missed))) in
      omega (arith, ap (λ (s : System). s.runs) served, runs_served n (suc m) (some r) done good)

  -- What holds of calls without faults holds of all these events.
  module _ (P : Event → Type 0) (comes : P arrives)
      (calls : (i : ℕ) (answer : Option CachedResponse) → P (moves i no_fault answer)) where
    calm_service : (k n : ℕ) → All P (served_from r k n)
    calm_service k zero = tt
    calm_service k (suc n) =
        let move = calls k (some r) in (move, (move, (move, (move, calm_service (suc k) n))))

    calm_looks : (k n : ℕ) (es : List Event) → All P es → All P (looks_from k n ++ es)
    calm_looks k zero es h = h
    calm_looks k (suc n) es h = (comes, (calls k none, calm_looks (suc k) n es h))

    calm : (n : ℕ) → All P (looks_from 0 n ++ served_from r 0 n)
    calm n = calm_looks 0 n (served_from r 0 n) (calm_service 0 n)

  -- Of any number `n` of requests with one key the handler can run for each, and each with an answer
  -- that is cached: Redis answers every call, and neither the lock nor the response runs out. All
  -- look for a response before the first has one.
  pub runs_for_each :
      (n : ℕ)
      → Good r
      → let es = looks_from 0 n ++ served_from r 0 n in
        All Reliable es × All Lasts es × ((run es start).runs ≡ n)
  runs_for_each n good = (
    calm Reliable tt (λ i a. tt) n,
    calm Lasts tt (λ i a. tt) n,
    (let fresh : System = system none (replicate n missed) 0 in
        ap (λ (s : System). s.runs)
          (run-append (looks_from 0 n) (served_from r 0 n) start
            ∙ ap (run (served_from r 0 n)) (run_looks n []))
        ∙ runs_served n 0 none [] good
        ∙ zero-add n),
  )
