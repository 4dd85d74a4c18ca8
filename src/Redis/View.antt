-- ===== src/Redis/View.antt =====
-- What the hold engine reads in a store: the count of holds of a night, and the keys that a token
-- lists. A store is typed if night keys hold counters and token keys hold lists of night keys.
use doki_core_backend.Prelude.{
  ℕ, suc, ◌+◌, ◌≡◌, refl, List, [], ◌∷◌, ◌++◌, Option, none, some, arith, if◌then◌else◌, Bool-cases,
  inl, inr,
}
use doki_core_backend.Redis.Keys.{
  Token, Key, hold_key, token_key, Entry, counter, text, items, read, key_eq, eq_of_key_eq,
}
use mathlib.Core.Path.{subst}
use doki_core_backend.Redis.Server.{Redis}
use doki_core_backend.Redis.Scripts.{number}

abbrev pub count_of : Option Entry → ℕ
count_of none = 0
count_of (some (counter n x)) = n
count_of (some (text k x)) = 0
count_of (some (items l x)) = 0

abbrev pub list_of : Option Entry → List Key
list_of none = []
list_of (some (counter n x)) = []
list_of (some (text k x)) = []
list_of (some (items l x)) = l

abbrev pub IsNight : Key → Type 0
IsNight (hold_key p q d) = Unit
IsNight (token_key t) = ⊥

abbrev pub AllNights : List Key → Type 0
AllNights [] = Unit
AllNights (k ∷ l) = IsNight k × AllNights l

-- Redis keeps no empty list.
abbrev pub Nights : List Key → Type 0
Nights [] = ⊥
Nights (k ∷ l) = AllNights (k ∷ l)

abbrev pub Fits : Key → Option Entry → Type 0
Fits k none = Unit
Fits (hold_key p q d) (some (counter n x)) = Unit
Fits (hold_key p q d) (some (text k x)) = ⊥
Fits (hold_key p q d) (some (items l x)) = ⊥
Fits (token_key t) (some (counter n x)) = ⊥
Fits (token_key t) (some (text k x)) = ⊥
Fits (token_key t) (some (items l x)) = Nights l

pub AllNights-append : (l m : List Key) → AllNights l → AllNights m → AllNights (l ++ m)
AllNights-append [] m h k = k
AllNights-append (x ∷ l) m h k = (h.0, AllNights-append l m h.1 k)

pub Nights-push : (l : List Key) (k : Key) → AllNights l → IsNight k → Nights (l ++ k ∷ [])
Nights-push [] k h i = (i, tt)
Nights-push (x ∷ l) k h i = (h.0, AllNights-append l (k ∷ []) h.1 (i, tt))

pub Nights-AllNights : (l : List Key) → Nights l → AllNights l
Nights-AllNights [] h = tt
Nights-AllNights (k ∷ l) h = h

pub token_nights : (t : Token) (e : Option Entry) → Fits (token_key t) e → AllNights (list_of e)
token_nights t none h = tt
token_nights t (some (counter n x)) h = elim h [ ]
token_nights t (some (text k x)) h = elim h [ ]
token_nights t (some (items l x)) h = Nights-AllNights l h

-- How often a token's list names a night.
abbrev pub occurrences : Key → List Key → ℕ
occurrences k [] = 0
occurrences k (j ∷ l) = if key_eq j k then suc (occurrences k l) else occurrences k l

pub occurrences-append :
    (k : Key) (l m : List Key) → occurrences k (l ++ m) ≡ occurrences k l + occurrences k m
occurrences-append k [] m = omega arith
occurrences-append k (j ∷ l) m = ground (arith, occurrences-append k l m)

-- A counter that fits a night.
pub number-read :
    (p q d : ℕ) (e : Option Entry) → Fits (hold_key p q d) e → number (read e) ≡ count_of e
number-read p q d none h = refl
number-read p q d (some (counter n x)) h = refl
number-read p q d (some (text k x)) h = elim h [ ]
number-read p q d (some (items l x)) h = elim h [ ]

pub token_count : (t : Token) (e : Option Entry) → Fits (token_key t) e → count_of e ≡ 0
token_count t none h = refl
token_count t (some (counter n x)) h = elim h [ ]
token_count t (some (text k x)) h = elim h [ ]
token_count t (some (items l x)) h = refl

-- An update at a key that fits it keeps the store typed.
pub Fits-update :
    (key k : Key) (e f : Option Entry)
    → Fits key e
    → Fits k f
    → Fits k (if key_eq key k then e else f)
Fits-update key k e f h i = elim (Bool-cases (key_eq key k)) [
  | inl same ↦ rw same (subst (λ j. Fits j e) (eq_of_key_eq key k same) h)
  | inr other ↦ rw other i
]

module _ (r : Redis) where
  abbrev pub IsTyped : r.Store → Type 0
  IsTyped s = (k : Key) → Fits k (r.entry s k)

  -- The holds that Redis counts for a night.
  abbrev pub count_at : r.Store → Key → ℕ
  count_at s k = count_of (r.entry s k)

  -- The night keys that a token holds.
  abbrev pub held : r.Store → Token → List Key
  held s t = list_of (r.entry s (token_key t))
