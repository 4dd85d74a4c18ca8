-- ===== src/Redis/Scripts/HoldEffect.antt =====
-- What inventory_hold.lua does to a typed store.
use doki_core_backend.Prelude.{
  ℕ, suc, ◌+◌, ◌≡◌, refl, ◌∙◌, [], ◌∷◌, ◌++◌, Option, none, some, arith, if◌then◌else◌, Bool-cases,
  inl, inr, ◌⊎◌,
}
use doki_core_backend.Prelude.Int.{ℤ, pos, leb_ℤ, ◌≤ℤ◌}
use doki_core_backend.Redis.Keys.{
  Token, Key, hold_key, token_key, Entry, counter, text, items, key_eq, read, nil, digits, bump,
  pushed, until, key_eq_refl, eq_of_key_eq, token_eq, token_eq_refl,
}
use doki_core_backend.Redis.Server.{Redis, Puts}
use doki_core_backend.Redis.Scripts.{hold_script, hold_writes}
use doki_core_backend.Redis.View.{
  count_of, list_of, Fits, Fits-update, token_count, Nights-push, token_nights, IsTyped, count_at,
  held,
}

expiry_of : Option Entry → Option ℕ
expiry_of none = none
expiry_of (some (counter n x)) = x
expiry_of (some (text k x)) = x
expiry_of (some (items l x)) = x

bump-Fits :
    (p q d : ℕ) (e : Option Entry)
    → Fits (hold_key p q d) e
    → bump e ≡ some (counter (suc (count_of e)) (expiry_of e))
unfolding expiry_of
bump-Fits p q d none h = refl
bump-Fits p q d (some (counter n x)) h = ground arith
bump-Fits p q d (some (text k x)) h = elim h [ ]
bump-Fits p q d (some (items l x)) h = elim h [ ]

pushed-Fits :
    (t : Token) (k : Key) (e : Option Entry)
    → Fits (token_key t) e
    → pushed k e ≡ some (items (list_of e ++ k ∷ []) (expiry_of e))
unfolding expiry_of
pushed-Fits t k none h = refl
pushed-Fits t k (some (counter n x)) h = elim h [ ]
pushed-Fits t k (some (text j x)) h = elim h [ ]
pushed-Fits t k (some (items l x)) h = refl

module _ (r : Redis) where
  open r use {Store, clock, entry, incr, rpush, expire}

  -- The store after a hold of the night `key` under the token `t`.
  pub record Holds (s : Store) (key : Key) (t : Token) (ttl : ℕ) (s' : Store) : Type 0 where
    pub same_clock : clock s' ≡ clock s
    pub entry_of :
        (j : Key)
        → entry s' j ≡ (
            if key_eq (token_key t) j
            then some (items (list_of (entry s (token_key t)) ++ key ∷ []) (some (clock s + ttl)))
            else if key_eq key j
            then some (counter (suc (count_of (entry s key))) (some (clock s + ttl)))
            else entry s j)

  incr-Fits :
      (p q d : ℕ) (s : Store)
      → let key = hold_key p q d in
        Fits key (entry s key)
        → (s' : Store) × (incr key s ≡ some s')
          × Puts clock entry s key
              (some (counter (suc (count_of (entry s key))) (expiry_of (entry s key))))
              s'
  incr-Fits p q d s h = rw (bump-Fits p q d _ h) at (r.incr_lem (hold_key p q d) s)

  rpush-Fits :
      (t : Token) (k : Key) (s : Store)
      → Fits (token_key t) (entry s (token_key t))
      → (s' : Store) × (rpush (token_key t) k s ≡ some s')
        × Puts clock entry s
            (token_key t)
            (some (
              items
                (list_of (entry s (token_key t)) ++ k ∷ [])
                (expiry_of (entry s (token_key t)))))
            s'
  rpush-Fits t k s h = rw (pushed-Fits t k _ h) at (r.rpush_lem (token_key t) k s)

  module _ (p q d : ℕ) (t : Token) (ttl : ℕ) (s s1 s2 s3 s4 : Store) {x1 x3 : Option ℕ} where
    Puts-Holds :
        Puts clock entry s
          (hold_key p q d)
          (some (counter (suc (count_of (entry s (hold_key p q d)))) x1))
          s1
        → Puts clock entry s1
            (hold_key p q d)
            (until (clock s1 + suc ttl) (entry s1 (hold_key p q d)))
            s2
        → Puts clock entry s2
            (token_key t)
            (some (items (list_of (entry s2 (token_key t)) ++ (hold_key p q d) ∷ []) x3))
            s3
        → Puts clock entry s3 (token_key t) (until (clock s3 + suc ttl) (entry s3 (token_key t))) s4
        → Holds s (hold_key p q d) t (suc ttl) s4
    Puts-Holds w1 w2 w3 w4 = record {
      same_clock = w4.same_clock ∙ w3.same_clock ∙ w2.same_clock ∙ w1.same_clock;
      entry_of = λ j. go j;
    }
      where
        c1 : clock s1 ≡ clock s
        c1 = w1.same_clock

        c3 : clock s3 ≡ clock s
        c3 = w3.same_clock ∙ w2.same_clock ∙ w1.same_clock

        written :
            entry s1 (hold_key p q d)
            ≡ some (counter (suc (count_of (entry s (hold_key p q d)))) x1)
        written = w1.entry_of (hold_key p q d) ∙ rw (key_eq_refl (hold_key p q d))

        same : entry s2 (token_key t) ≡ entry s (token_key t)
        same = w2.entry_of (token_key t) ∙ w1.entry_of (token_key t)

        listed :
            entry s3 (token_key t)
            ≡ some (items (list_of (entry s (token_key t)) ++ (hold_key p q d) ∷ []) x3)
        listed = w3.entry_of (token_key t) ∙ rw (token_eq_refl t, same)

        go :
            (j : Key)
            → entry s4 j ≡ (
                if key_eq (token_key t) j
                then some (
                    items
                      (list_of (entry s (token_key t)) ++ (hold_key p q d) ∷ [])
                      (some (clock s + suc ttl)))
                else if key_eq (hold_key p q d) j
                then some
                    (counter (suc (count_of (entry s (hold_key p q d)))) (some (clock s + suc ttl)))
                else entry s j)
        go (hold_key p' q' d') = ground (
          arith,
          c1,
          written,
          w1.entry_of (hold_key p' q' d'),
          w2.entry_of (hold_key p' q' d'),
          w3.entry_of (hold_key p' q' d'),
          w4.entry_of (hold_key p' q' d'),
        )
        go (token_key u) = ground (
          arith,
          c3,
          listed,
          same,
          w1.entry_of (token_key u),
          w2.entry_of (token_key u),
          w3.entry_of (token_key u),
          w4.entry_of (token_key u),
        )

  hold_writes-Holds :
      (p q d : ℕ) (t : Token) (ttl : ℕ) (s : Store)
      → let key = hold_key p q d in
        Fits key (entry s key)
        → Fits (token_key t) (entry s (token_key t))
        → (s' : Store) × (hold_writes r key t (suc ttl) s ≡ (some 1, s'))
          × Holds s key t (suc ttl) s'
  unfolding hold_writes
  hold_writes-Holds p q d t ttl s h k =
      let key = hold_key p q d in
      let tok = token_key t in
      let (s1, e1, w1) = incr-Fits p q d s h in
      let s2 = expire key (suc ttl) s1 in
      let w2 = r.expire_lem key ttl s1 in
      let tok1 : entry s1 tok ≡ entry s tok = w1.entry_of tok in
      let tok2 : entry s2 tok ≡ entry s tok = w2.entry_of tok ∙ tok1 in
      let (s3, e3, w3) = rpush-Fits t key s2 (rw tok2 k) in
      let w4 = r.expire_lem tok ttl s3 in
      (
        expire tok (suc ttl) s3,
        rw (e1, hold_writes, e3),
        Puts-Holds p q d t ttl s s1 s2 s3 _ w1 w2 w3 w4,
      )

  -- The holds of a night as `tonumber(GET)` reads them.
  read_cases :
      (p q d : ℕ) (e : Option Entry)
      → Fits (hold_key p q d) e
      → (read e ≡ nil) × (count_of e ≡ 0) ⊎ (read e ≡ digits (count_of e))
  read_cases p q d none h = inl (refl, refl)
  read_cases p q d (some (counter n x)) h = inr refl
  read_cases p q d (some (text k x)) h = elim h [ ]
  read_cases p q d (some (items l x)) h = elim h [ ]

  hold_script_lem :
      (p q d : ℕ) (t : Token) (ttl : ℕ) (capacity : ℤ) (s : Store)
      → Fits (hold_key p q d) (entry s (hold_key p q d))
      → hold_script r (hold_key p q d) t ttl capacity s ≡ (
          if leb_ℤ capacity (pos (count_at r s (hold_key p q d)))
          then (some 0, s)
          else hold_writes r (hold_key p q d) t ttl s)
  unfolding hold_script
  hold_script_lem p q d t ttl capacity s h =
      let g = r.get_lem (hold_key p q d) s in
      elim (read_cases p q d _ h) [
        | inl (e, c) ↦ rw (g ∙ e, hold_script, c)
        | inr e ↦ rw (g ∙ e, hold_script)
      ]

  -- inventory_hold.lua on a typed store: it refuses, changing nothing, exactly if the night has as
  -- many holds as its capacity, and otherwise counts one more hold and lists the night.
  pub hold_script-Holds :
      (p q d : ℕ) (t : Token) (ttl : ℕ) (capacity : ℤ) (s : Store)
      → IsTyped r s
      → let key = hold_key p q d in
        (capacity ≤ℤ pos (count_at r s key))
          × (hold_script r key t (suc ttl) capacity s ≡ (some 0, s))
        ⊎ (s' : Store) × ¬ (capacity ≤ℤ pos (count_at r s key))
          × (hold_script r key t (suc ttl) capacity s ≡ (some 1, s'))
          × Holds s key t (suc ttl) s'
  hold_script-Holds p q d t ttl capacity s typed =
      let key = hold_key p q d in
      let (s', e, h) = hold_writes-Holds p q d t ttl s (typed key) (typed (token_key t)) in
      let run = hold_script_lem p q d t (suc ttl) capacity s (typed key) in
      elim (Bool-cases (leb_ℤ capacity (pos (count_at r s key)))) [
        | inl full ↦ inl (ground arith, rw (run, full))
        | inr free ↦ inr (s', (λ f. ground arith), rw (run, free) e, h)
      ]

  -- A hold keeps the store typed.
  pub Holds-IsTyped :
      {p q d : ℕ} {t : Token} {ttl : ℕ} {s s' : Store}
      → Holds s (hold_key p q d) t ttl s'
      → IsTyped r s
      → IsTyped r s'
  Holds-IsTyped {p} {q} {d} {t} {ttl} {s} h typed k = rw (h.entry_of k) (
      Fits-update (token_key t) k _ _ (Nights-push _ _ (token_nights t _ (typed (token_key t))) tt)
        (Fits-update (hold_key p q d) k _ _ tt (typed k)))

  -- Only the night's counter rises.
  pub Holds-count :
      {p q d : ℕ} {t : Token} {ttl : ℕ} {s s' : Store}
      → Holds s (hold_key p q d) t ttl s'
      → IsTyped r s
      → (k : Key) → count_at r s' k ≡ count_at r s k + (if key_eq (hold_key p q d) k then 1 else 0)
  Holds-count {p} {q} {d} h typed (hold_key p' q' d') =
      ground
        (arith, h.entry_of (hold_key p' q' d'), eq_of_key_eq (hold_key p q d) (hold_key p' q' d'))
  Holds-count h typed (token_key u) =
      ground (arith, h.entry_of (token_key u), token_count u _ (typed (token_key u)))

  -- Only the token's list grows, by the night.
  pub Holds-held :
      {p q d : ℕ} {t : Token} {ttl : ℕ} {s s' : Store}
      → Holds s (hold_key p q d) t ttl s'
      → (u : Token)
      → held r s' u ≡ (if token_eq t u then held r s t ++ hold_key p q d ∷ [] else held r s u)
  Holds-held h u = ground (arith, h.entry_of (token_key u))
