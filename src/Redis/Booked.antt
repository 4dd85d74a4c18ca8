-- ===== src/Redis/Booked.antt =====
-- The fast-hold engine as a step relation. Redis runs each script alone, so whatever the clients
-- of inventory_hold_adapter.go do at the same time is a sequence of such steps.
use doki_core_backend.Prelude.{
  ℕ, suc, ◌≤◌, ◌≡◌, ap, ◌∙◌, true, false, List, [], ◌∷◌, ◌++◌, arith, inl, inr, if◌then◌else◌,
  Bool-cases,
}
use doki_core_backend.Prelude.Int.{ℤ, pos, ◌≤ℤ◌}
use doki_core_backend.Redis.Keys.{Token, Key, hold_key, eq_of_key_eq, token_eq, token_eq_refl}
use doki_core_backend.Redis.Server.{Redis}
use doki_core_backend.Redis.Scripts.{hold_script, release_script}
use doki_core_backend.Redis.Scripts.HoldEffect.{
  Holds, hold_script-Holds, Holds-IsTyped, Holds-count, Holds-held,
}
use doki_core_backend.Redis.Scripts.ReleaseEffect.{Releases, release_script-Releases}
use doki_core_backend.Redis.View.{IsTyped, count_at, held, occurrences, occurrences-append}
use doki_core_backend.Redis.Claims.{
  member, member_ne, Distinct, ChangesAt, total, total_unclaimed, total_changed,
}

module _ (r : Redis) (cap : Key → ℕ) where
  -- Every counter is the number of claims that the issued tokens have on its night, and no night
  -- is claimed beyond its capacity. A token that is not issued claims nothing.
  pub record IsBooked (ts : List Token) (s : r.Store) : Type 0 where
    pub typed : IsTyped r s
    pub distinct : Distinct ts
    pub idle : (t : Token) → member ts t ≡ false → held r s t ≡ []
    pub counted : (k : Key) → count_at r s k ≡ total (held r s) ts k
    pub bounded : (k : Key) → count_at r s k ≤ cap k

  -- A client draws a fresh token, or one script runs. A hold asks for at most the capacity.
  pub data Step : List Token → r.Store → List Token → r.Store → Type 0 where
    issue : {ts : List Token} {s : r.Store} (t : Token) → member ts t ≡ false → Step ts s (t ∷ ts) s
    hold :
        {ts : List Token} {s : r.Store} (p q d : ℕ) (t : Token) (ttl : ℕ) (capacity : ℤ)
        → member ts t ≡ true
        → capacity ≤ℤ pos (cap (hold_key p q d))
        → Step ts s ts (hold_script r (hold_key p q d) t (suc ttl) capacity s).1
    release : {ts : List Token} {s : r.Store} (t : Token) → Step ts s ts (release_script r t s).1

  pub data Run (ts : List Token) (s : r.Store) : List Token → r.Store → Type 0 where
    start : Run ts s ts s
    next :
        {us vs : List Token} {s' s'' : r.Store}
        → Run ts s us s'
        → Step us s' vs s''
        → Run ts s vs s''

  issue-IsBooked :
      {ts : List Token} {s : r.Store} (t : Token)
      → member ts t ≡ false
      → IsBooked ts s
      → IsBooked (t ∷ ts) s
  issue-IsBooked {ts} {s} t fresh b = record {
    typed = b.typed;
    distinct = (fresh, b.distinct);
    idle = λ u h. b.idle u (ground arith);
    counted = λ k. ground (arith, b.counted k, b.idle t fresh);
    bounded = b.bounded;
  }

  hold_counted :
      {ts : List Token} {s s' : r.Store} (p q d : ℕ) (t : Token) {ttl : ℕ}
      → member ts t ≡ true
      → Holds r s (hold_key p q d) t ttl s'
      → IsBooked ts s
      → (k : Key) → count_at r s' k ≡ total (held r s') ts k
  hold_counted {ts} {s} {s'} p q d t issued h b k =
      let only : ChangesAt (held r s) t (held r s') = λ u other. Holds-held r h u ∙ rw other in
      let mine : held r s' t ≡ held r s t ++ hold_key p q d ∷ [] =
        Holds-held r h t ∙ rw (token_eq_refl t) in
      ground (
        arith,
        total_changed (held r s) (held r s') t only k ts issued b.distinct,
        ap (occurrences k) mine ∙ occurrences-append k (held r s t) (hold_key p q d ∷ []),
        Holds-count r h b.typed k,
        b.counted k,
      )

  emptied :
      (s s' : r.Store) (t : Token)
      → held r s' t ≡ (if token_eq t t then [] else held r s t)
      → held r s' t ≡ []
  emptied s s' t e = rw (token_eq_refl t) at e

  release_counted :
      {ts : List Token} {s s' : r.Store} (t : Token)
      → Releases r s t s'
      → IsBooked ts s
      → (k : Key) → count_at r s' k ≡ total (held r s') ts k
  release_counted {ts} {s} {s'} t h b k =
      let only : ChangesAt (held r s) t (held r s') = λ u other. h.lists u ∙ rw other in
      let none_left : occurrences k (held r s' t) ≡ 0 =
        ap (occurrences k) (emptied s s' t (h.lists t)) in
      elim (Bool-cases (member ts t)) [
        | inl issued ↦ omega (
          arith,
          total_changed (held r s) (held r s') t only k ts issued b.distinct,
          none_left,
          h.counts k,
          b.counted k,
        )
        | inr fresh ↦ omega (
          arith,
          total_unclaimed (held r s) (held r s') t only k ts fresh,
          ap (occurrences k) (b.idle t fresh),
          h.counts k,
          b.counted k,
        )
      ]

  hold-IsBooked :
      {ts : List Token} {s s' : r.Store} (p q d : ℕ) (t : Token) (ttl : ℕ) (capacity : ℤ)
      → member ts t ≡ true
      → capacity ≤ℤ pos (cap (hold_key p q d))
      → ¬ (capacity ≤ℤ pos (count_at r s (hold_key p q d)))
      → Holds r s (hold_key p q d) t (suc ttl) s'
      → IsBooked ts s
      → IsBooked ts s'
  hold-IsBooked {ts} {s} {s'} p q d t ttl capacity issued within free h b = record {
    typed = Holds-IsTyped r h b.typed;
    distinct = b.distinct;
    idle =
        λ u other. ground (arith, Holds-held r h u, b.idle u other, member_ne ts t u issued other);
    counted = hold_counted p q d t issued h b;
    bounded = λ k.
        ground (arith, Holds-count r h b.typed k, b.bounded k, eq_of_key_eq (hold_key p q d) k);
  }

  release-IsBooked :
      {ts : List Token} {s s' : r.Store} (t : Token)
      → Releases r s t s'
      → IsBooked ts s
      → IsBooked ts s'
  release-IsBooked {ts} {s} {s'} t h b = record {
    typed = h.typed;
    distinct = b.distinct;
    idle = λ u other. ground (arith, h.lists u, b.idle u other);
    counted = release_counted t h b;
    bounded = λ k. omega (arith, h.counts k, b.bounded k);
  }

  -- Every step keeps the counters equal to the claims, and the claims within the capacity.
  pub Step-IsBooked :
      {ts us : List Token} {s s' : r.Store} → Step ts s us s' → IsBooked ts s → IsBooked us s'
  Step-IsBooked (issue t fresh) b = issue-IsBooked t fresh b
  Step-IsBooked {s = s} (hold p q d t ttl capacity issued within) b =
      elim (hold_script-Holds r p q d t ttl capacity s b.typed) [
        | inl (full, e) ↦ rw e b
        | inr (s', free, e, h) ↦ rw e (hold-IsBooked p q d t ttl capacity issued within free h b)
      ]
  Step-IsBooked {s = s} (release t) b =
      let (s', e, h) = release_script-Releases r t s b.typed in rw e (release-IsBooked t h b)

  -- After any sequence of steps that starts with counters equal to the claims and within the
  -- capacity, every counter still equals the claims of the issued tokens, and none exceeds the
  -- capacity of its night. (No key expires during the sequence.)
  pub Run-IsBooked :
      {ts : List Token} {s : r.Store} {us : List Token} {s' : r.Store}
      → Run ts s us s'
      → IsBooked ts s
      → IsBooked us s'
  Run-IsBooked start b = b
  Run-IsBooked (next run step) b = Step-IsBooked step (Run-IsBooked run b)
