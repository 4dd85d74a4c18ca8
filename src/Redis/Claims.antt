-- ===== src/Redis/Claims.antt =====
-- How often a night is claimed by the tokens that have been issued: the abstract view of the fast
-- holds, against which the counters of Redis are measured.
use doki_core_backend.Prelude.{
  ℕ, ◌+◌, ◌≡◌, refl, ap, Bool, true, false, ◌||◌, List, [], ◌∷◌, arith, Bool-cases, inl, inr,
}
use doki_core_backend.Redis.Keys.{Token, Key, token_eq, eq_of_token_eq}
use doki_core_backend.Redis.View.{occurrences}

abbrev pub member : List Token → Token → Bool
member [] t = false
member (u ∷ ts) t = token_eq t u || member ts t

pub member_ne :
    (ts : List Token) (t u : Token)
    → member ts t ≡ true
    → member ts u ≡ false
    → token_eq t u ≡ false
member_ne ts t u h k = elim (Bool-cases (token_eq t u)) [
  | inl same ↦ absurd (cc (h, ap (member ts) (eq_of_token_eq t u same), k))
  | inr other ↦ other
]

abbrev pub Distinct : List Token → Type 0
Distinct [] = Unit
Distinct (t ∷ ts) = (member ts t ≡ false) × Distinct ts

-- The claims on the night `k`, where `f` gives the nights of each token.
abbrev pub total : (Token → List Key) → List Token → Key → ℕ
total f [] k = 0
total f (t ∷ ts) k = occurrences k (f t) + total f ts k

-- A change at one token alone.
abbrev pub ChangesAt : (Token → List Key) → Token → (Token → List Key) → Type 0
ChangesAt f t f' = (u : Token) → token_eq t u ≡ false → f' u ≡ f u

module _ (f f' : Token → List Key) (t : Token) (only : ChangesAt f t f') (k : Key) where
  pub total_unclaimed : (ts : List Token) → member ts t ≡ false → total f' ts k ≡ total f ts k
  total_unclaimed [] h = refl
  total_unclaimed (u ∷ ts) h =
      ground (arith, only u, ap (occurrences k) (only u (ground arith)), total_unclaimed ts)

  pub total_changed :
      (ts : List Token)
      → member ts t ≡ true
      → Distinct ts
      → total f' ts k + occurrences k (f t) ≡ total f ts k + occurrences k (f' t)
  total_changed [] h distinct = cc
  total_changed (u ∷ ts) h distinct = elim (Bool-cases (token_eq t u)) [
    | inl same ↦
        let e : t ≡ u = eq_of_token_eq t u same in
        rw (← e) (omega (arith, total_unclaimed ts (rw (← e) at distinct.0)))
    | inr other ↦ ground (arith, ap (occurrences k) (only u other), total_changed ts, distinct.1)
  ]
