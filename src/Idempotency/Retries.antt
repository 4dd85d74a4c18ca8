-- ===== src/Idempotency/Retries.antt =====
-- Requests that come when a response is cached (internal/adapter/http/middleware/idempotency.go).
use mathlib.Core.Path.{subst}
use doki_core_backend.Prelude.{
  ℕ, zero, suc, ◌≡◌, ◌⊎◌, inl, inr, refl, ap, List, [], ◌∷◌, ◌++◌, Option, none, some, get_elem?,
  set,
}
use doki_core_backend.Reservations.{no_fault, refused, lost}
use doki_core_backend.Properties.Keys.{All, All-snoc}
use doki_core_backend.Idempotency.{
  CachedResponse, Phase, arriving, missed, running, passing, storing, unlocking, finished, replayed,
  look, unlock, next_call, System, Event, arrives, moves, lock_expires, response_expires, move_at,
  happen, run,
}

-- Redis answers, and the response does not run out.
abbrev pub Reliable : Event → Type 0
Reliable arrives = Unit
Reliable (moves i no_fault r) = Unit
Reliable (moves i (refused e) r) = ⊥
Reliable (moves i (lost e) r) = ⊥
Reliable lock_expires = Unit
Reliable response_expires = ⊥

-- A request that has not looked, that has been answered, or that has only its lock to give back.
abbrev pub Settled : Phase → Type 0
Settled arriving = Unit
Settled (finished out) = Unit
Settled (unlocking out) = Unit
Settled missed = ⊥
Settled running = ⊥
Settled passing = ⊥
Settled (storing r) = ⊥

module _ (c : CachedResponse) where
  -- A request that has not looked, or has been answered with the cached response.
  abbrev pub Replays : Phase → Type 0
  Replays q = (q ≡ arriving) ⊎ (q ≡ finished (replayed c))

  -- What may have become of a request.
  abbrev pub After : Phase → Phase → Type 0
  After arriving q = Replays q
  After (finished out) q = q ≡ finished out
  After (unlocking out) q = (q ≡ unlocking out) ⊎ (q ≡ finished out)
  After missed q = ⊥
  After running q = ⊥
  After passing q = ⊥
  After (storing r) q = ⊥

  -- The requests that were there, in their order, and behind them those that have come since.
  abbrev pub Answered : List Phase → List Phase → Type 0
  Answered [] qs = All Replays qs
  Answered (p ∷ ps) [] = ⊥
  Answered (p ∷ ps) (q ∷ qs) = After p q × Answered ps qs

  abbrev step : Phase → Phase
  step arriving = finished (replayed c)
  step (finished out) = finished out
  step (unlocking out) = finished out
  step missed = missed
  step running = running
  step passing = passing
  step (storing r) = storing r

  Replays-step : (q : Phase) → Replays q → Replays (step q)
  Replays-step q (inl e) = inr (ap step e)
  Replays-step q (inr e) = inr (ap step e)

  After-step : (p q : Phase) → After p q → After p (step q)
  After-step arriving q h = Replays-step q h
  After-step (finished out) q h = ap step h
  After-step (unlocking out) q (inl e) = inr (ap step e)
  After-step (unlocking out) q (inr e) = inr (ap step e)
  After-step missed q h = elim h [ ]
  After-step running q h = elim h [ ]
  After-step passing q h = elim h [ ]
  After-step (storing r) q h = elim h [ ]

  Replays-Settled : (q : Phase) → Replays q → Settled q
  Replays-Settled q (inl e) = rw e tt
  Replays-Settled q (inr e) = rw e tt

  After-Settled : (p q : Phase) → After p q → Settled q
  After-Settled arriving q h = Replays-Settled q h
  After-Settled (finished out) q h = rw h tt
  After-Settled (unlocking out) q (inl e) = rw e tt
  After-Settled (unlocking out) q (inr e) = rw e tt
  After-Settled missed q h = elim h [ ]
  After-Settled running q h = elim h [ ]
  After-Settled passing q h = elim h [ ]
  After-Settled (storing r) q h = elim h [ ]

  Settled-After : (p : Phase) → Settled p → After p p
  Settled-After arriving h = inl refl
  Settled-After (finished out) h = refl
  Settled-After (unlocking out) h = inl refl
  Settled-After missed h = elim h [ ]
  Settled-After running h = elim h [ ]
  Settled-After passing h = elim h [ ]
  Settled-After (storing r) h = elim h [ ]

  Answered-refl : (ps : List Phase) → All Settled ps → Answered ps ps
  Answered-refl [] h = tt
  Answered-refl (p ∷ ps) h = (Settled-After p h.0, Answered-refl ps h.1)

  Answered-snoc : (ps qs : List Phase) → Answered ps qs → Answered ps (qs ++ arriving ∷ [])
  Answered-snoc [] qs h = All-snoc Replays qs arriving h (inl refl)
  Answered-snoc (p ∷ ps) [] h = elim h [ ]
  Answered-snoc (p ∷ ps) (q ∷ qs) h = (h.0, Answered-snoc ps qs h.1)

  Answered-Settled :
      (ps qs : List Phase) (i : ℕ) (q : Phase)
      → Answered ps qs
      → get_elem? qs i ≡ some q
      → Settled q
  Answered-Settled [] [] i q h e = cc
  Answered-Settled [] (r ∷ qs) zero q h e = subst Settled (cc e) (Replays-Settled r h.0)
  Answered-Settled [] (r ∷ qs) (suc i) q h e = Answered-Settled [] qs i q h.1 e
  Answered-Settled (p ∷ ps) [] i q h e = elim h [ ]
  Answered-Settled (p ∷ ps) (r ∷ qs) zero q h e = subst Settled (cc e) (After-Settled p r h.0)
  Answered-Settled (p ∷ ps) (r ∷ qs) (suc i) q h e = Answered-Settled ps qs i q h.1 e

  Answered-set :
      (ps qs : List Phase) (i : ℕ) (q : Phase)
      → Answered ps qs
      → get_elem? qs i ≡ some q
      → Answered ps (set qs i (step q))
  Answered-set [] [] i q h e = tt
  Answered-set [] (r ∷ qs) zero q h e =
      (subst (λ x. Replays (step x)) (cc e) (Replays-step r h.0), h.1)
  Answered-set [] (r ∷ qs) (suc i) q h e = (h.0, Answered-set [] qs i q h.1 e)
  Answered-set (p ∷ ps) [] i q h e = elim h [ ]
  Answered-set (p ∷ ps) (r ∷ qs) zero q h e =
      (subst (λ x. After p (step x)) (cc e) (After-step p r h.0), h.1)
  Answered-set (p ∷ ps) (r ∷ qs) (suc i) q h e = (h.0, Answered-set ps qs i q h.1 e)

  -- The handler has run as often as `n` says, and the response is still there.
  pub record Answers (n : ℕ) (ps : List Phase) (s : System) : Type 0 where
    pub runs : s.runs ≡ n
    pub cached : s.store.response ≡ some c
    pub requests : Answered ps s.requests

  look-cached :
      (response : Option CachedResponse)
      → response ≡ some c
      → look no_fault response ≡ finished (replayed c)
  unfolding look
  look-cached response e = rw e refl

  move-Answers :
      (n i : ℕ) (ps : List Phase) (r : Option CachedResponse) (phase : Option Phase) (s : System)
      → get_elem? s.requests i ≡ phase
      → Answers n ps s
      → Answers n ps (move_at i no_fault r phase s)
  unfolding move_at next_call unlock
  move-Answers n i ps r none s e a = a
  move-Answers n i ps r (some arriving) s e a = record {
    runs = a.runs;
    cached = a.cached;
    requests =
        rw (look-cached s.store.response a.cached)
          (Answered-set ps s.requests i arriving a.requests e);
  }
  move-Answers n i ps r (some (finished out)) s e a = record {
    runs = a.runs;
    cached = a.cached;
    requests = Answered-set ps s.requests i (finished out) a.requests e;
  }
  move-Answers n i ps r (some (unlocking out)) s e a = record {
    runs = a.runs;
    cached = a.cached;
    requests = Answered-set ps s.requests i (unlocking out) a.requests e;
  }
  move-Answers n i ps r (some missed) s e a =
      absurd (Answered-Settled ps s.requests i missed a.requests e)
  move-Answers n i ps r (some running) s e a =
      absurd (Answered-Settled ps s.requests i running a.requests e)
  move-Answers n i ps r (some passing) s e a =
      absurd (Answered-Settled ps s.requests i passing a.requests e)
  move-Answers n i ps r (some (storing d)) s e a =
      absurd (Answered-Settled ps s.requests i (storing d) a.requests e)

  happen-Answers :
      (n : ℕ) (ps : List Phase) (e : Event) (s : System)
      → Reliable e
      → Answers n ps s
      → Answers n ps (happen e s)
  unfolding happen
  happen-Answers n ps arrives s h a = record {
    runs = a.runs;
    cached = a.cached;
    requests = Answered-snoc ps s.requests a.requests;
  }
  happen-Answers n ps (moves i no_fault r) s h a =
      move-Answers n i ps r (get_elem? s.requests i) s refl a
  happen-Answers n ps (moves i (refused e) r) s h a = elim h [ ]
  happen-Answers n ps (moves i (lost e) r) s h a = elim h [ ]
  happen-Answers n ps lock_expires s h a = record {
    runs = a.runs;
    cached = a.cached;
    requests = a.requests;
  }
  happen-Answers n ps response_expires s h a = elim h [ ]

  run_from :
      (n : ℕ) (ps : List Phase) (es : List Event) (s : System)
      → All Reliable es
      → Answers n ps s
      → Answers n ps (run es s)
  unfolding run
  run_from n ps [] s h a = a
  run_from n ps (e ∷ es) s h a = run_from n ps es (happen e s) h.1 (happen-Answers n ps e s h.0 a)

  -- Once a response is cached and every request has not yet looked, has been answered or has only
  -- its lock to give back, and as long as Redis answers and the response does not run out: the
  -- handler does not run again, every request that had not looked or comes later is answered with
  -- that response if it is answered at all, and the other answers stay as they were.
  pub run-Answers :
      (es : List Event) (s : System)
      → All Reliable es
      → s.store.response ≡ some c
      → All Settled s.requests
      → Answers s.runs s.requests (run es s)
  run-Answers es s h cached settled =
      run_from s.runs s.requests es s h
        (record { runs = refl; cached = cached; requests = Answered-refl s.requests settled })
