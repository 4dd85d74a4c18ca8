-- ===== src/Redis/Adapter/Atomic.antt =====
-- `AcquireFastHold` of internal/adapter/cache/redis/inventory_hold_adapter.go on a network that
-- delivers: all nights or none.
use doki_core_backend.Prelude.{
  ℕ, zero, suc, ◌+◌, ◌≤◌, ◌≡◌, refl, ap, sym, ◌∙◌, false, List, [], ◌∷◌, ◌++◌, some, arith, inl,
  inr, ◌⊎◌, Bool-cases,
}
use mathlib.Core.List.{append_assoc, append-nil}
use doki_core_backend.Prelude.Int.{ℤ, pos, ◌≤ℤ◌}
use doki_core_backend.Errors.{ok, err, sentinel, inventory_unavailable}
use doki_core_backend.Clock.Nights.{days_from}
use doki_core_backend.Redis.Keys.{
  Token, hold_tok, Key, hold_key, token_eq, token_eq_refl, eq_of_token_eq,
}
use doki_core_backend.Redis.Server.{Redis}
use doki_core_backend.Redis.Scripts.{Script, hold_script, release_script}
use doki_core_backend.Redis.Scripts.HoldEffect.{
  Holds, hold_script-Holds, Holds-IsTyped, Holds-count, Holds-held,
}
use doki_core_backend.Redis.Scripts.ReleaseEffect.{Releases, release_script-Releases}
use doki_core_backend.Redis.View.{IsTyped, count_at, held, occurrences, occurrences-append}
use doki_core_backend.Redis.Adapter.{
  Client, answered, eval_with, retry, eval, release_fast_hold, after_night, acquire_nights,
}

module _ (r : Redis) where
  -- A client on a network that delivers every call and every reply.
  abbrev pub healthy : r.Store → Client r
  healthy s = record { store = s; net = [] }

  eval-healthy :
      (script : Script r) (s s' : r.Store) (n : ℕ)
      → script s ≡ (some n, s')
      → eval r script (healthy s) ≡ (ok n, healthy s')
  unfolding eval eval_with answered retry
  eval-healthy script s s' n e = rw e

  -- `s'` reads as `s` everywhere.
  pub record SameHolds (s s' : r.Store) : Type 0 where
    pub counts : (k : Key) → count_at r s' k ≡ count_at r s k
    pub lists : (u : Token) → held r s' u ≡ held r s u
    pub typed : IsTyped r s'

  module _ (p q uuid : ℕ) where
    abbrev pub night : ℕ → Key
    night d = hold_key p q d

    -- The night keys of `k` days from day `n` on.
    abbrev pub nights : ℕ → ℕ → List Key
    nights n zero = []
    nights n (suc k) = hold_key p q n ∷ nights (n + 1) k

    -- `s` is `s0` with the nights `done` held under the token.
    pub record HeldOver (s0 : r.Store) (done : List Key) (s : r.Store) : Type 0 where
      pub counts : (k : Key) → count_at r s k ≡ count_at r s0 k + occurrences k done
      pub mine : held r s (hold_tok uuid) ≡ done
      pub others : (u : Token) → token_eq (hold_tok uuid) u ≡ false → held r s u ≡ held r s0 u
      pub typed : IsTyped r s

    hold-HeldOver :
        {s0 s s' : r.Store} {done : List Key} {ttl : ℕ} (d : ℕ)
        → HeldOver s0 done s
        → Holds r s (hold_key p q d) (hold_tok uuid) ttl s'
        → HeldOver s0 (done ++ hold_key p q d ∷ []) s'
    hold-HeldOver {s0} {s} {s'} {done} d o h = record {
      counts = λ k. ground (
        arith,
        Holds-count r h o.typed k,
        o.counts k,
        occurrences-append k done (hold_key p q d ∷ []),
      );
      mine = Holds-held r h (hold_tok uuid) ∙ rw (token_eq_refl (hold_tok uuid), o.mine);
      others = λ u other. ground (arith, Holds-held r h u, o.others u other);
      typed = Holds-IsTyped r h o.typed;
    }

    release-SameHolds :
        {s0 s s' : r.Store} {done : List Key}
        → held r s0 (hold_tok uuid) ≡ []
        → HeldOver s0 done s
        → Releases r s (hold_tok uuid) s'
        → SameHolds s0 s'
    release-SameHolds {s0} {s} {s'} {done} fresh o h = record {
      counts = λ k. omega (arith, h.counts k, o.counts k, ap (occurrences k) o.mine);
      lists = λ u. elim (Bool-cases (token_eq (hold_tok uuid) u)) [
        | inl same ↦
            let e : hold_tok uuid ≡ u = eq_of_token_eq (hold_tok uuid) u same in
            h.lists u ∙ rw same (sym (ap (held r s0) (sym e) ∙ fresh))
        | inr other ↦ h.lists u ∙ rw other (o.others u other)
      ];
      typed = h.typed;
    }

    pub release-healthy :
        {s0 s : r.Store} {done : List Key}
        → held r s0 (hold_tok uuid) ≡ []
        → HeldOver s0 done s
        → (s' : r.Store) × ((release_fast_hold r (hold_tok uuid) (healthy s)).1 ≡ healthy s')
          × SameHolds s0 s'
    unfolding release_fast_hold
    release-healthy {s0} {s} fresh o =
        let (s', e, h) = release_script-Releases r (hold_tok uuid) s o.typed in
        (
          s',
          ap (λ x. x.1) (eval-healthy (release_script r (hold_tok uuid)) s s' _ e),
          release-SameHolds fresh o h,
        )

    module _ (ttl : ℕ) (capacity : ℤ) where
      -- Each of the `k` nights from day `n` on has fewer holds than the capacity.
      abbrev pub AllFree : r.Store → ℕ → ℕ → Type 0
      AllFree s n zero = Unit
      AllFree s n (suc k) =
          (¬ (capacity ≤ℤ pos (count_at r s (hold_key p q n)))) × AllFree s (n + 1) k

      abbrev pub AllOrNone : r.Store → ℕ → ℕ → List Key → r.Store → Type 0
      AllOrNone s0 n k done s =
          AllFree s0 n k
            × ((s' : r.Store) × (acquire_nights r p q (hold_tok uuid) (suc ttl) capacity
                    (days_from n k) (healthy s)
                  ≡ (ok tt, healthy s'))
                × HeldOver s0 (done ++ nights n k) s')
          ⊎ (¬ AllFree s0 n k)
            × ((s' : r.Store) × (acquire_nights r p q (hold_tok uuid) (suc ttl) capacity
                    (days_from n k) (healthy s)
                  ≡ (err (sentinel inventory_unavailable), healthy s'))
                × SameHolds s0 s')

      night_path :
          (k n success : ℕ) (s s1 : r.Store)
          → hold_script r (hold_key p q n) (hold_tok uuid) (suc ttl) capacity s ≡ (some success, s1)
          → acquire_nights r p q
              (hold_tok uuid)
              (suc ttl)
              capacity
              (days_from n (suc k))
              (healthy s)
            ≡ after_night r (hold_tok uuid) (ok success) (healthy s1) (
                acquire_nights r p q
                  (hold_tok uuid)
                  (suc ttl)
                  capacity
                  (days_from (n + 1) k)
                  (healthy s1))
      unfolding acquire_nights
      night_path k n success s s1 e =
          let script = hold_script r (hold_key p q n) (hold_tok uuid) (suc ttl) capacity in
          ap
            (λ x.
              after_night r (hold_tok uuid) x.0 x.1
                (acquire_nights r p q (hold_tok uuid) (suc ttl) capacity (days_from (n + 1) k) x.1))
            (eval-healthy script s s1 success e)

      -- The keys that are held lie before day `n`.
      abbrev Before : ℕ → List Key → Type 0
      Before n done = (d : ℕ) → n ≤ d → occurrences (hold_key p q d) done ≡ 0

      Before-push :
          (n : ℕ) (done : List Key) → Before n done → Before (n + 1) (done ++ hold_key p q n ∷ [])
      Before-push n done b d h =
          ground (
            arith,
            b d (omega arith),
            occurrences-append (hold_key p q d) done (hold_key p q n ∷ []),
          )

      -- The loop from day `n` on, where the token holds the nights `done` before it.
      acquire_from :
          (k n : ℕ) (s0 s : r.Store) (done : List Key)
          → held r s0 (hold_tok uuid) ≡ []
          → HeldOver s0 done s
          → Before n done
          → AllOrNone s0 n k done s
      unfolding acquire_nights after_night
      acquire_from zero n s0 s done fresh o clear = inl (tt, (s, refl, rw (append-nil done) o))
      acquire_from (suc k) n s0 s done fresh o clear =
          elim (hold_script-Holds r p q n (hold_tok uuid) ttl capacity s o.typed) [
            | inl (full, e) ↦
                let (s', e', same) = release-healthy fresh o in
                let full0 : capacity ≤ℤ pos (count_at r s0 (hold_key p q n)) =
                  omega (arith, o.counts (hold_key p q n), clear n (omega arith)) in
                inr (
                  (λ f. f.0 full0),
                  (
                    s',
                    night_path k n 0 s s e ∙ ap (λ c. (err (sentinel inventory_unavailable), c)) e',
                    same,
                  ),
                )
            | inr (s1, free, e, h) ↦
                let free0 : ¬ (capacity ≤ℤ pos (count_at r s0 (hold_key p q n))) =
                  λ f. free (omega (arith, o.counts (hold_key p q n), clear n (omega arith))) in
                let path = night_path k n 1 s s1 e in
                elim (acquire_from k (n + 1) s0 s1 _ fresh (hold-HeldOver n o h)
                  (Before-push n done clear)) [
                    | inl (f, (s', run, ho)) ↦ inl (
                      (free0, f),
                      (
                        s',
                        path ∙ run,
                        rw (append_assoc done (hold_key p q n ∷ []) (nights (n + 1) k)) at ho,
                      ),
                    )
                    | inr (blocked, (s', run, same)) ↦
                        inr ((λ f. blocked f.1), (s', path ∙ run, same))
                  ]
          ]

      -- On a network that delivers, for a token that holds nothing yet, the loop of
      -- `AcquireFastHold` over `k` nights succeeds exactly if each of them has fewer holds than the
      -- capacity. It then adds one hold to each night and lists them under the token. Otherwise it
      -- fails with ErrInventoryUnavailable, and every counter and every token reads as before.
      pub acquire_nights-AllOrNone :
          (n k : ℕ) (s : r.Store)
          → IsTyped r s
          → held r s (hold_tok uuid) ≡ []
          → AllOrNone s n k [] s
      acquire_nights-AllOrNone n k s typed fresh =
          acquire_from k n s s [] fresh
            (record {
              counts = λ j. omega arith;
              mine = fresh;
              others = λ u other. refl;
              typed = typed;
            })
            (λ d h. refl)
