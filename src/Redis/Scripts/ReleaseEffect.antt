-- ===== src/Redis/Scripts/ReleaseEffect.antt =====
-- What inventory_release.lua does to a typed store.
use doki_core_backend.Prelude.{
  ℕ, zero, suc, ◌-◌, ◌≡◌, refl, ap, sym, ◌∙◌, List, [], ◌∷◌, Option, none, some, arith,
  if◌then◌else◌,
}
use doki_core_backend.Redis.Keys.{
  Token, Key, hold_key, token_key, Entry, counter, text, items, key_eq, nil, read, read_items,
  eq_of_key_eq, token_eq, eq_of_token_eq,
}
use doki_core_backend.Redis.Server.{Redis}
use doki_core_backend.Redis.Scripts.{lower, lower_all, release_single, release_script}
use doki_core_backend.Redis.View.{
  count_of, list_of, AllNights, Fits, Fits-update, token_count, IsTyped, count_at, held,
  occurrences,
}

module _ (r : Redis) where
  open r use {Store, clock, entry, decr, del}

  -- The counters fall by what `down` says, and no list changes.
  pub record Lowers (s : Store) (down : Key → ℕ) (s' : Store) : Type 0 where
    pub same_clock : clock s' ≡ clock s
    pub counts : (k : Key) → count_at r s' k ≡ count_at r s k - down k
    pub lists : (t : Token) → entry s' (token_key t) ≡ entry s (token_key t)
    pub typed : IsTyped r s'

  abbrev once : Key → Key → ℕ
  once key k = if key_eq key k then 1 else 0

  decr-Lowers :
      (p q d n : ℕ) (x : Option ℕ) (s : Store)
      → IsTyped r s
      → entry s (hold_key p q d) ≡ some (counter (suc n) x)
      → Lowers s (once (hold_key p q d)) (decr (hold_key p q d) s)
  decr-Lowers p q d n x s typed e =
      let w = r.decr_lem (hold_key p q d) s n x e in
      record {
        same_clock = w.same_clock;
        counts = λ k. ground (arith, e, w.entry_of k, eq_of_key_eq (hold_key p q d) k);
        lists = λ t. w.entry_of (token_key t);
        typed = λ k. rw (w.entry_of k) (Fits-update (hold_key p q d) k _ _ tt (typed k));
      }

  Lowers-idle :
      (s : Store) (down : Key → ℕ)
      → ((k : Key) → count_at r s k - down k ≡ count_at r s k)
      → IsTyped r s
      → Lowers s down s
  Lowers-idle s down h typed = record {
    same_clock = refl;
    counts = λ k. sym (h k);
    lists = λ t. refl;
    typed = typed;
  }

  -- One turn of the loop of inventory_release.lua.
  lower-Lowers :
      (p q d : ℕ) (s : Store)
      → IsTyped r s
      → (s' : Store) × (lower r (hold_key p q d) s ≡ (some 1, s'))
        × Lowers s (once (hold_key p q d)) s'
  unfolding lower
  lower-Lowers p q d s typed = go (entry s key) refl (typed key)
    where
      key : Key
      key = hold_key p q d

      idle : count_at r s key ≡ 0 → (k : Key) → count_at r s k - once key k ≡ count_at r s k
      idle e k = ground (arith, e, eq_of_key_eq key k)

      go :
          (e : Option Entry)
          → entry s key ≡ e
          → Fits key e
          → (s' : Store) × (lower r key s ≡ (some 1, s')) × Lowers s (once key) s'
      go none e h = (
        s,
        rw (r.get_lem key s ∙ ap read e, lower),
        Lowers-idle s (once key) (idle (ap count_of e)) typed,
      )
      go (some (counter zero x)) e h = (
        s,
        rw (r.get_lem key s ∙ ap read e, lower),
        Lowers-idle s (once key) (idle (ap count_of e)) typed,
      )
      go (some (counter (suc n) x)) e h =
          (decr key s, rw (r.get_lem key s ∙ ap read e, lower), decr-Lowers p q d n x s typed e)
      go (some (text k x)) e h = elim h [ ]
      go (some (items l x)) e h = elim h [ ]

  -- The loop over the keys of a token.
  lower_all-Lowers :
      (l : List Key) (s : Store)
      → AllNights l
      → IsTyped r s
      → (s' : Store) × (lower_all r l s ≡ (some 1, s')) × Lowers s (λ k. occurrences k l) s'
  unfolding lower_all
  lower_all-Lowers [] s nights typed = (s, refl, Lowers-idle s _ (λ k. omega arith) typed)
  lower_all-Lowers (token_key t ∷ l) s nights typed = elim (nights.0) [ ]
  lower_all-Lowers (hold_key p q d ∷ l) s nights typed =
      let (s1, e1, w1) = lower-Lowers p q d s typed in
      let (s2, e2, w2) = lower_all-Lowers l s1 nights.1 w1.typed in
      (
        s2,
        rw (e1, lower_all) (rw e1 e2),
        record {
          same_clock = w2.same_clock ∙ w1.same_clock;
          counts = λ k. ground (arith, w1.counts k, w2.counts k);
          lists = λ t. w2.lists t ∙ w1.lists t;
          typed = w2.typed;
        },
      )

  -- The store after a release of the token `t`: the counters of its nights fall, and it is gone.
  pub record Releases (s : Store) (t : Token) (s' : Store) : Type 0 where
    pub same_clock : clock s' ≡ clock s
    pub counts : (k : Key) → count_at r s' k ≡ count_at r s k - occurrences k (held r s t)
    pub lists : (u : Token) → held r s' u ≡ (if token_eq t u then [] else held r s u)
    pub typed : IsTyped r s'

  del_counts :
      (t : Token) (l : List Key) (s s1 : Store)
      → held r s t ≡ l
      → Lowers s (λ k. occurrences k l) s1
      → (k : Key)
      → count_at r (del (token_key t) s1) k ≡ count_at r s k - occurrences k (held r s t)
  del_counts t l s s1 e w (hold_key p q d) =
      let x = r.del_lem (token_key t) s1 in
      ground (arith, e, w.counts (hold_key p q d), x.entry_of (hold_key p q d))
  del_counts t l s s1 e w (token_key u) =
      let x = r.del_lem (token_key t) s1 in
      ground (
        arith,
        e,
        w.counts (token_key u),
        x.entry_of (token_key u),
        token_count u _ (w.typed (token_key u)),
      )

  del-Releases :
      (t : Token) (l : List Key) (s s1 : Store)
      → held r s t ≡ l
      → Lowers s (λ k. occurrences k l) s1
      → Releases s t (del (token_key t) s1)
  del-Releases t l s s1 e w =
      let d = r.del_lem (token_key t) s1 in
      record {
        same_clock = d.same_clock ∙ w.same_clock;
        counts = del_counts t l s s1 e w;
        lists = λ u. ground (arith, w.lists u, d.entry_of (token_key u));
        typed = λ k. rw (d.entry_of k) (Fits-update (token_key t) k _ _ tt (w.typed k));
      }

  released : (t : Token) (s : Store) → held r s t ≡ [] → IsTyped r s → Releases s t s
  released t s e typed = record {
    same_clock = refl;
    counts = λ k. rw e (omega arith);
    lists = λ u. ground (arith, e, eq_of_token_eq t u);
    typed = typed;
  }

  -- inventory_release.lua on a typed store: it never fails, lowers the counter of each night by
  -- the number of times that the token lists it (not below 0), and forgets the token. It replies
  -- 0 exactly if the token holds nothing.
  pub release_script-Releases :
      (t : Token) (s : Store)
      → IsTyped r s
      → (s' : Store) × (release_script r t s
          ≡ (some (elim (held r s t) [ [] ↦ 0 | _ ∷ _ ↦ 1 ]), s'))
        × Releases s t s'
  unfolding release_script release_single
  release_script-Releases t s typed = go (entry s (token_key t)) refl (typed (token_key t))
    where
      go :
          (e : Option Entry)
          → entry s (token_key t) ≡ e
          → Fits (token_key t) e
          → (s' : Store) × (release_script r t s
              ≡ (some (elim (held r s t) [ [] ↦ 0 | _ ∷ _ ↦ 1 ]), s'))
            × Releases s t s'
      go none e h =
          let nothing : r.lrange (token_key t) s ≡ some [] =
            r.lrange_lem (token_key t) s ∙ ap read_items e in
          let absent : r.get (token_key t) s ≡ nil = r.get_lem (token_key t) s ∙ ap read e in
          (
            s,
            rw e (rw (nothing, release_script) (rw (absent, release_single))),
            released t s (ap list_of e) typed,
          )
      go (some (items [] x)) e h = elim h [ ]
      go (some (items (k ∷ l) x)) e h =
          let (s1, e1, w1) = lower_all-Lowers (k ∷ l) s h typed in
          let keys : r.lrange (token_key t) s ≡ some (k ∷ l) =
            r.lrange_lem (token_key t) s ∙ ap read_items e in
          (
            del (token_key t) s1,
            rw e (rw (keys, release_script) (rw e1 (rw e1))),
            del-Releases t (k ∷ l) s s1 (ap list_of e) w1,
          )
      go (some (counter n x)) e h = elim h [ ]
      go (some (text k x)) e h = elim h [ ]

  pub release_absent :
      (t : Token) (s : Store) → entry s (token_key t) ≡ none → release_script r t s ≡ (some 0, s)
  unfolding release_script release_single
  release_absent t s e =
      let nothing : r.lrange (token_key t) s ≡ some [] =
        r.lrange_lem (token_key t) s ∙ ap read_items e in
      let absent : r.get (token_key t) s ≡ nil = r.get_lem (token_key t) s ∙ ap read e in
      rw (nothing, release_script) (rw (absent, release_single))
