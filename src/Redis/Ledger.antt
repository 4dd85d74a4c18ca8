-- ===== src/Redis/Ledger.antt =====
-- What the two Lua scripts of internal/adapter/cache/redis/scripts promise, without counters and
-- lists of keys: a ledger of the claims that each token has on each night. The scripts on a booked
-- store are refined from it.
use mathlib.Core.Path.{subst}
use doki_core_backend.Prelude.{
  ℕ, suc, ◌+◌, ◌≡◌, refl, sym, ap, ◌∙◌, Bool, true, false, ◌&&◌, List, [], ◌∷◌, Option, some, arith,
  inl, inr, if◌then◌else◌, Bool-cases, map,
}
use doki_core_backend.Prelude.Int.{ℤ, pos, leb_ℤ, ◌≤ℤ◌}
use doki_core_backend.Redis.Keys.{Token, Key, hold_key, key_eq, token_eq, eq_of_token_eq}
use doki_core_backend.Redis.Server.{Redis}
use doki_core_backend.Redis.Scripts.{hold_script, release_script}
use doki_core_backend.Redis.Scripts.HoldEffect.{Holds, hold_script-Holds, Holds-held}
use doki_core_backend.Redis.Scripts.ReleaseEffect.{Releases, release_script-Releases}
use doki_core_backend.Redis.View.{count_at, held, occurrences, occurrences-append}
use doki_core_backend.Redis.Claims.{member, total}
use doki_core_backend.Redis.Booked.{IsBooked, issue, hold, release, Step-IsBooked}

-- The claims of each token on each night, and the tokens that have been issued.
pub record Ledger : Type 0 where
  pub drawn : List Token
  pub claims : Token → Key → ℕ

abbrev pub claims_on : (Token → Key → ℕ) → List Token → Key → ℕ
claims_on claims [] k = 0
claims_on claims (t ∷ ts) k = claims t k + claims_on claims ts k

-- What clients do: draw a token, ask for a night under a token, or give up a token.
pub data Operation : Type 0 where
  draw give_up : Token → Operation
  ask : ℕ → ℕ → ℕ → Token → ℕ → ℤ → Operation

-- A night is granted as long as its claims are below the capacity.
unfoldable pub grant : Token → Key → ℤ → Ledger → Bool × Ledger
grant t k capacity l = if leb_ℤ capacity (pos (claims_on l.claims l.drawn k)) then (false, l) else (
  true,
  record l { claims = λ u j. l.claims u j + (if token_eq t u && key_eq k j then 1 else 0) },
)

unfoldable pub forget : Token → Ledger → Ledger
forget t l = record l { claims = λ u j. if token_eq t u then 0 else l.claims u j }

-- The answers to the questions, and the ledger after them.
unfoldable pub specified : List Operation → Ledger → List Bool × Ledger
specified [] l = ([], l)
specified (draw t ∷ ops) l = specified ops (record l { drawn = t ∷ l.drawn })
specified (give_up t ∷ ops) l = specified ops (forget t l)
specified (ask p q d t ttl capacity ∷ ops) l =
    let (granted, l1) = grant t (hold_key p q d) capacity l in
    let (answers, l2) = specified ops l1 in (granted ∷ answers, l2)

-- Tokens are fresh when they are drawn, and drawn before they are used; nobody asks for more than
-- the capacity of a night.
abbrev pub Legal : (Key → ℕ) → List Operation → List Token → Type 0
Legal cap [] ts = Unit
Legal cap (draw t ∷ ops) ts = (member ts t ≡ false) × Legal cap ops (t ∷ ts)
Legal cap (give_up t ∷ ops) ts = Legal cap ops ts
Legal cap (ask p q d t ttl capacity ∷ ops) ts =
    (member ts t ≡ true) × (capacity ≤ℤ pos (cap (hold_key p q d))) × Legal cap ops ts

abbrev pub reply_of : Bool → Option ℕ
reply_of true = some 1
reply_of false = some 0

grant-drawn :
    (t : Token) (k : Key) (capacity : ℤ) (l : Ledger) → (grant t k capacity l).1.drawn ≡ l.drawn
unfolding grant
grant-drawn t k capacity l =
    elim (Bool-cases (leb_ℤ capacity (pos (claims_on l.claims l.drawn k)))) [
      | inl full ↦ rw full refl
      | inr free ↦ rw free refl
    ]

module _ (r : Redis) (cap : Key → ℕ) where
  -- The same with the scripts: their replies to the questions, and the store.
  unfoldable pub performed : List Operation → r.Store → List (Option ℕ) × r.Store
  performed [] s = ([], s)
  performed (draw t ∷ ops) s = performed ops s
  performed (give_up t ∷ ops) s = performed ops (release_script r t s).1
  performed (ask p q d t ttl capacity ∷ ops) s =
      let (reply, s1) = hold_script r (hold_key p q d) t (suc ttl) capacity s in
      let (replies, s2) = performed ops s1 in (reply ∷ replies, s2)

  -- The token's list names each night as often as the ledger says.
  pub record Represents (s : r.Store) (l : Ledger) : Type 0 where
    pub booked : IsBooked r cap l.drawn s
    pub same : (t : Token) (k : Key) → occurrences k (held r s t) ≡ l.claims t k

  claims_on-total :
      (f : Token → List Key) (claims : Token → Key → ℕ) (ts : List Token) (k : Key)
      → ((t : Token) → occurrences k (f t) ≡ claims t k)
      → total f ts k ≡ claims_on claims ts k
  claims_on-total f claims [] k h = refl
  claims_on-total f claims (t ∷ ts) k h = omega (arith, h t, claims_on-total f claims ts k h)

  -- The counter of a night is the number of its claims.
  counter-claims :
      (s : r.Store) (l : Ledger) (k : Key)
      → Represents s l
      → count_at r s k ≡ claims_on l.claims l.drawn k
  counter-claims s l k h =
      h.booked.counted k ∙ claims_on-total (held r s) l.claims l.drawn k (λ t. h.same t k)

  draw-Represents :
      (s : r.Store) (l : Ledger) (t : Token)
      → member l.drawn t ≡ false
      → Represents s l
      → Represents s (record l { drawn = t ∷ l.drawn })
  draw-Represents s l t fresh h = record {
    booked = Step-IsBooked r cap (issue t fresh) h.booked;
    same = h.same;
  }

  forgotten :
      (s : r.Store) (t u : Token) (k : Key) {n : ℕ} {reply : Option ℕ}
      → (s' : r.Store) × (release_script r t s ≡ (reply, s')) × Releases r s t s'
      → occurrences k (held r s u) ≡ n
      → occurrences k (held r (release_script r t s).1 u) ≡ (if token_eq t u then 0 else n)
  forgotten s t u k (s', e, h) same = rw e (ground (arith, ap (occurrences k) (h.lists u), same))

  forget-Represents :
      (s : r.Store) (l : Ledger) (t : Token)
      → Represents s l
      → Represents (release_script r t s).1 (forget t l)
  unfolding forget
  forget-Represents s l t h = record {
    booked = Step-IsBooked r cap (release t) h.booked;
    same = λ u k. forgotten s t u k (release_script-Releases r t s h.booked.typed) (h.same u k);
  }

  -- An answer of the script with the answer of the ledger.
  pub record Agrees (out : Option ℕ × r.Store) (spec : Bool × Ledger) : Type 0 where
    pub reply : out.0 ≡ reply_of spec.0
    pub store : Represents out.1 spec.1

  granted_same :
      (s s' : r.Store) (l : Ledger) (p q d : ℕ) (t : Token) (ttl : ℕ)
      → Represents s l
      → Holds r s (hold_key p q d) t ttl s'
      → (u : Token) (k : Key)
      → occurrences k (held r s' u)
        ≡ l.claims u k + (if token_eq t u && key_eq (hold_key p q d) k then 1 else 0)
  granted_same s s' l p q d t ttl h w u k =
      let now = ap (occurrences k) (Holds-held r w u) in
      elim (Bool-cases (token_eq t u)) [
        | inl mine ↦
            let own : t ≡ u = eq_of_token_eq t u mine in
            ground (
              arith,
              now,
              mine,
              occurrences-append k (held r s t) (hold_key p q d ∷ []),
              ap (λ v. occurrences k (held r s v)) own,
              h.same u k,
            )
        | inr other ↦ ground (arith, now, other, h.same u k)
      ]

  ask-Agrees :
      (s : r.Store) (l : Ledger) (p q d : ℕ) (t : Token) (ttl : ℕ) (capacity : ℤ)
      → member l.drawn t ≡ true
      → capacity ≤ℤ pos (cap (hold_key p q d))
      → Represents s l
      → Agrees
          (hold_script r (hold_key p q d) t (suc ttl) capacity s)
          (grant t (hold_key p q d) capacity l)
  unfolding grant
  ask-Agrees s l p q d t ttl capacity issued within h =
      let key = hold_key p q d in
      let count = counter-claims s l key h in
      elim (hold_script-Holds r p q d t ttl capacity s h.booked.typed) [
        | inl (full, e) ↦
            let refused : leb_ℤ capacity (pos (claims_on l.claims l.drawn key)) ≡ true =
              ground (arith, full, count) in
            rw (e, refused) (record { reply = refl; store = h })
        | inr (s', free, e, w) ↦
            let taken : leb_ℤ capacity (pos (claims_on l.claims l.drawn key)) ≡ false =
              ground (arith, free, count) in
            let booked : IsBooked r cap l.drawn s' =
              subst (λ (out : Option ℕ × r.Store). IsBooked r cap l.drawn out.1) e
                (Step-IsBooked r cap (hold p q d t ttl capacity issued within) h.booked) in
            rw (e, taken)
              (record {
                reply = refl;
                store = record {
                  booked = booked;
                  same = granted_same s s' l p q d t (suc ttl) h w;
                };
              })
      ]

  -- Whatever clients do, in any order, the scripts reply as the ledger answers, 1 where it grants a
  -- night and 0 where it does not, and the store that they leave represents the ledger that is left:
  -- its lists of keys are the claims, and its counters their sums.
  pub performed-specified :
      (ops : List Operation) (s : r.Store) (l : Ledger)
      → Legal cap ops l.drawn
      → Represents s l
      → ((performed ops s).0 ≡ map reply_of (specified ops l).0)
        × Represents (performed ops s).1 (specified ops l).1
  unfolding performed specified
  performed-specified [] s l legal h = (refl, h)
  performed-specified (draw t ∷ ops) s l legal h =
      performed-specified ops s (record l { drawn = t ∷ l.drawn }) legal.1
        (draw-Represents s l t legal.0 h)
  performed-specified (give_up t ∷ ops) s l legal h =
      performed-specified ops (release_script r t s).1 (forget t l) (unfold forget in legal)
        (forget-Represents s l t h)
  performed-specified (ask p q d t ttl capacity ∷ ops) s l legal h =
      let key = hold_key p q d in
      let agrees = ask-Agrees s l p q d t ttl capacity legal.0 legal.1 h in
      let later =
        subst (λ (ts : List Token). Legal cap ops ts) (sym (grant-drawn t key capacity l))
          legal.2 in
      let rest =
        performed-specified ops (hold_script r key t (suc ttl) capacity s).1
          (grant t key capacity l).1 later agrees.store in
      (
        ap (λ a. a ∷ (performed ops (hold_script r key t (suc ttl) capacity s).1).0) agrees.reply
            ∙ ap (λ replies. reply_of (grant t key capacity l).0 ∷ replies) rest.0,
        rest.1,
      )
