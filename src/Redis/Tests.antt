-- ===== src/Redis/Tests.antt =====
-- Runs of the Redis scripts and of their client on the server in memory, and the theorems of the
-- Redis modules at concrete inputs.
use doki_core_backend.Prelude.{ℕ, List, map, true, false, ◌≡◌, ◌*◌, refl, ◌⊎◌, [], ◌∷◌, some, arith}
use doki_core_backend.Prelude.Int.{pos, ◌≤ℤ◌, ◌+ℤ◌}
use doki_core_backend.Redis.Keys.{hold_tok, Key, hold_key}
use doki_core_backend.Redis.Scripts.{hold_script, release_script}
use doki_core_backend.Redis.Scripts.HoldEffect.{Holds, hold_script-Holds}
use doki_core_backend.Redis.Scripts.ReleaseEffect.{Releases, release_script-Releases}
use doki_core_backend.Redis.View.{IsTyped, count_at, held}
use doki_core_backend.Redis.Booked.{IsBooked, start, next, issue, hold, release, Run-IsBooked}
use doki_core_backend.Redis.Ledger.{
  Ledger, Operation, draw, ask, give_up, specified, grant, forget, performed, reply_of, Represents,
  performed-specified,
}
use doki_core_backend.Redis.Adapter.{Client, reply_lost, eval, acquire_nights, acquire_fast_hold}
use doki_core_backend.Redis.Adapter.AnyNetwork.{acquire_fast_hold-IsBooked}
use doki_core_backend.Redis.Adapter.Atomic.{AllOrNone, healthy, acquire_nights-AllOrNone}
use doki_core_backend.Redis.Adapter.Stay.{Acquires, acquire_fast_hold-Acquires}
use doki_core_backend.Clock.{day}
use doki_core_backend.Redis.Memory.{Store, memory, fresh}

-- Room for two holds a night.
abbrev two : Key → ℕ
two k = 2

fresh-IsTyped : IsTyped memory fresh
fresh-IsTyped k = tt

fresh-IsBooked : IsBooked memory two [] fresh
fresh-IsBooked = record {
  typed = λ k. tt;
  distinct = tt;
  idle = λ t h. refl;
  counted = λ k. refl;
  bounded = λ k. omega arith;
}

abbrev losing : Client memory
losing = record { store = fresh; net = reply_lost ∷ [] }

-- A lost reply makes the fallback hold the night a second time, for the one token.
lost_reply_holds_twice :
    let c = (acquire_nights memory 1 1 (hold_tok 7) 900 (pos 5) (100 ∷ []) losing).1 in
    (count_at memory c.store (hold_key 1 1 100) ≡ 2)
    × (held memory c.store (hold_tok 7) ≡ hold_key 1 1 100 ∷ hold_key 1 1 100 ∷ [])
unfolding acquire_nights eval hold_script
lost_reply_holds_twice = (refl, refl)

-- The store in which two tokens hold the night of day 100.
abbrev full : Store
full =
    (hold_script memory (hold_key 1 1 100) (hold_tok 9) 900 (pos 2)
      (hold_script memory (hold_key 1 1 100) (hold_tok 8) 900 (pos 2) fresh).1).1

full_counts : count_at memory full (hold_key 1 1 100) ≡ 2
unfolding hold_script
full_counts = refl

full-IsBooked : IsBooked memory two (hold_tok 9 ∷ hold_tok 8 ∷ []) full
full-IsBooked =
    Run-IsBooked memory two
      (next
        (next (next (next start (issue (hold_tok 8) refl)) (issue (hold_tok 9) refl))
          (hold 1 1 100 (hold_tok 8) 899 (pos 2) refl (omega arith)))
        (hold 1 1 100 (hold_tok 9) 899 (pos 2) refl (omega arith)))
      fresh-IsBooked

Run-IsBooked_example :
    IsBooked memory two (hold_tok 9 ∷ hold_tok 8 ∷ []) (release_script memory (hold_tok 8) full).1
Run-IsBooked_example =
    Run-IsBooked memory two {ts = hold_tok 9 ∷ hold_tok 8 ∷ []} {s = full}
      (next start (release (hold_tok 8))) full-IsBooked

acquire_fast_hold-IsBooked_example :
    IsBooked memory two
      (hold_tok 7 ∷ [])
      (acquire_fast_hold memory 0 7 1 1 0 172800000000000 (pos 2) (pos 900000000000) losing).1.store
acquire_fast_hold-IsBooked_example =
    acquire_fast_hold-IsBooked memory two [] 0 7 1 1 0 172800000000000 (pos 2) (pos 900000000000)
      losing refl (λ d. omega arith) fresh-IsBooked

acquire_nights-AllOrNone_example : AllOrNone memory 1 1 7 899 (pos 2) full 99 2 [] full
unfolding hold_script
acquire_nights-AllOrNone_example =
    acquire_nights-AllOrNone memory 1 1 7 899 (pos 2) 99 2 full full-IsBooked.typed refl

hold_script-Holds_example :
    (pos 2 ≤ℤ pos (count_at memory full (hold_key 1 1 100)))
      × (hold_script memory (hold_key 1 1 100) (hold_tok 7) 900 (pos 2) full ≡ (some 0, full))
    ⊎ (s' : Store) × ¬ (pos 2 ≤ℤ pos (count_at memory full (hold_key 1 1 100)))
      × (hold_script memory (hold_key 1 1 100) (hold_tok 7) 900 (pos 2) full ≡ (some 1, s'))
      × Holds memory full (hold_key 1 1 100) (hold_tok 7) 900 s'
hold_script-Holds_example =
    hold_script-Holds memory 1 1 100 (hold_tok 7) 899 (pos 2) full full-IsBooked.typed

release_script-Releases_example :
    (s' : Store) × (release_script memory (hold_tok 8) full ≡ (some 1, s'))
    × Releases memory full (hold_tok 8) s'
unfolding hold_script
release_script-Releases_example =
    release_script-Releases memory (hold_tok 8) full full-IsBooked.typed

-- Token 8 holds the night at second 0; token 9 does at second 600.
abbrev renewed : Store
renewed =
    (hold_script memory (hold_key 1 1 100) (hold_tok 9) 900 (pos 2) (
      memory.advance 600
        (hold_script memory (hold_key 1 1 100) (hold_tok 8) 900 (pos 2) fresh).1)).1

acquire_fast_hold-Acquires_example :
    Acquires memory 1 1 7 (pos 2) (pos 0 +ℤ pos 900000000000) full 99 2 (
      acquire_fast_hold memory 0 7 1 1
        (99 * day)
        (101 * day)
        (pos 2)
        (pos 900000000000)
        (healthy memory full))
unfolding hold_script
acquire_fast_hold-Acquires_example =
    acquire_fast_hold-Acquires memory 1 1 7 (pos 2) 0 99 1 full full-IsBooked.typed refl

-- Two tokens ask for a night with room for one, and the second asks again after the first is given
-- up.
abbrev operations : List Operation
operations =
    draw (hold_tok 8)
    ∷ draw (hold_tok 9)
    ∷ ask 1 1 100 (hold_tok 8) 899 (pos 1)
    ∷ ask 1 1 100 (hold_tok 9) 899 (pos 1)
    ∷ give_up (hold_tok 8)
    ∷ ask 1 1 100 (hold_tok 9) 899 (pos 1)
    ∷ []

abbrev empty_ledger : Ledger
empty_ledger = record { drawn = []; claims = λ t k. 0 }

performed-specified_example :
    ((performed memory two operations fresh).0 ≡ map reply_of (specified operations empty_ledger).0)
    × Represents memory two
        (performed memory two operations fresh).1
        (specified operations empty_ledger).1
performed-specified_example =
    performed-specified memory two operations fresh empty_ledger
      (refl, (refl, (refl, omega arith, (refl, omega arith, (refl, omega arith, tt)))))
      (record { booked = fresh-IsBooked; same = λ t k. refl })

ledger_answers : (specified operations empty_ledger).0 ≡ true ∷ false ∷ true ∷ []
unfolding specified grant forget
ledger_answers = refl
