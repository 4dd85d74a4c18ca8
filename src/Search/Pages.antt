-- ===== src/Search/Pages.antt =====
-- The page that internal/adapter/http/v1/search_handler.go cuts out of its results.
use doki_core_backend.Prelude.{
  ℕ, zero, suc, ◌+◌, ◌-◌, ◌*◌, ◌≤◌, ◌<◌, ◌≡◌, refl, ap, List, [], ◌∷◌, none, some, arith, inl, inr,
  if◌then◌else◌, Bool-cases, length, length-drop, take, drop, ltb,
}
use doki_core_backend.Prelude.Int.{pos, negsuc, ◌+ℤ◌, ◌-ℤ◌, ◌*ℤ◌, wrap64}
use doki_core_backend.Search.{slice, at_most, page_of}

module _ {A : Type 0} where
  drop_past : (n : ℕ) (xs : List A) → length xs ≤ n → drop n xs ≡ []
  drop_past zero [] h = refl
  drop_past zero (x ∷ xs) h = absurd (omega (arith, h))
  drop_past (suc n) [] h = refl
  drop_past (suc n) (x ∷ xs) h = drop_past n xs (omega (arith, h))

  take_past : (m n : ℕ) (xs : List A) → length xs ≤ m → length xs ≤ n → take m xs ≡ take n xs
  take_past zero zero xs h k = refl
  take_past zero (suc n) [] h k = refl
  take_past zero (suc n) (x ∷ xs) h k = absurd (omega (arith, h))
  take_past (suc m) zero [] h k = refl
  take_past (suc m) zero (x ∷ xs) h k = absurd (omega (arith, k))
  take_past (suc m) (suc n) [] h k = refl
  take_past (suc m) (suc n) (x ∷ xs) h k =
      ap (λ ys. x ∷ ys) (take_past m n xs (omega (arith, h)) (omega (arith, k)))

-- The first index, before it is held at the number of results.
start_index :
    (k s : ℕ)
    → k < 9223372036854775807
    → k * s < 9223372036854775808
    → wrap64 (wrap64 (pos (suc k) -ℤ pos 1) *ℤ pos s) ≡ pos (k * s)
unfolding wrap64 ◌-ℤ◌ ◌*ℤ◌
start_index k s h j =
    let minus : wrap64 (pos (suc k) -ℤ pos 1) ≡ pos k = ground (arith, h) in
    rw minus (ground (arith, j))

abbrev clip : ℕ → ℕ → ℕ
clip total n = if ltb total n then total else n

at_most_pos : (total n : ℕ) → at_most total (pos n) ≡ pos (clip total n)
unfolding at_most
at_most_pos total n = ground arith

sum : (a s : ℕ) → a + s < 9223372036854775808 → wrap64 (pos a +ℤ pos s) ≡ pos (a + s)
unfolding wrap64 ◌+ℤ◌
sum a s h = ground (arith, h)

module _ {A : Type 0} where
  cut_clipped :
      (n s : ℕ) (xs : List A)
      → take
          (clip (length xs) (clip (length xs) n + s) - clip (length xs) n)
          (drop (clip (length xs) n) xs)
        ≡ take s (drop n xs)
  cut_clipped n s xs = elim (Bool-cases (ltb (length xs) n)) [
    | inl past ↦
        rw (past, drop_past (length xs) xs (omega arith), drop_past n xs (ground (arith, past)))
          (take_past _ s [] (omega arith) (omega arith))
    | inr within ↦ elim (Bool-cases (ltb (length xs) (n + s))) [
      | inl over ↦
          rw (within, over)
            (take_past (length xs - n) s (drop n xs) (omega (arith, length-drop n xs))
              (ground (arith, length-drop n xs, over)))
      | inr under ↦ let same : n + s - n ≡ s = omega arith in rw (within, under, same) refl
    ]
  ]

  -- The page from a first index on.
  cut :
      (n s : ℕ) (xs : List A)
      → length xs + s < 9223372036854775808
      → slice
          (at_most (length xs) (pos n))
          (at_most (length xs) (wrap64 (at_most (length xs) (pos n) +ℤ pos s)))
          xs
        ≡ some (take s (drop n xs))
  unfolding slice
  cut n s xs room =
      let low : clip (length xs) n + s < 9223372036854775808 = ground (arith, room) in
      rw
        (
          at_most_pos (length xs) n,
          sum (clip (length xs) n) s low,
          at_most_pos (length xs) (clip (length xs) n + s),
        )
        (ap (λ ys. some ys) (cut_clipped n s xs))

  -- Page `k + 1` of pages of size `s` is made of the results from number `k * s` on, `s` of them or
  -- as many as there are, where neither that number nor the number of results is near 2^63.
  pub page_of_lem :
      (k s : ℕ) (xs : List A)
      → k < 9223372036854775807
      → k * s < 9223372036854775808
      → length xs + s < 9223372036854775808
      → page_of (pos (suc k)) (pos s) xs ≡ some (take s (drop (k * s) xs))
  unfolding page_of
  page_of_lem k s xs h j room = rw (start_index k s h j) (cut (k * s) s xs room)

at_most_negsuc : (total n : ℕ) → at_most total (negsuc n) ≡ negsuc n
unfolding at_most
at_most_negsuc total n = ground arith

sum_negsuc :
    (n s : ℕ) → s ≤ n → n < 9223372036854775808 → wrap64 (negsuc n +ℤ pos s) ≡ negsuc (n - s)
unfolding wrap64 ◌+ℤ◌
sum_negsuc n s h j = ground (arith, h, j)

slice_negsuc :
    {A : Type 0} (n s : ℕ) (xs : List A)
    → 1 ≤ s
    → s ≤ n
    → slice (negsuc n) (negsuc (n - s)) xs ≡ none
unfolding slice
slice_negsuc n s xs one h = ground (arith, one, h)

start_overflows :
    (k s : ℕ)
    → k < 9223372036854775807
    → 9223372036854775808 ≤ k * s
    → k * s < 18446744073709551566
    → wrap64 (wrap64 (pos (suc k) -ℤ pos 1) *ℤ pos s) ≡ negsuc (18446744073709551615 - k * s)
unfolding wrap64 ◌-ℤ◌ ◌*ℤ◌
start_overflows k s h lo hi =
    let minus : wrap64 (pos (suc k) -ℤ pos 1) ≡ pos k = ground (arith, h) in
    rw minus (ground (arith, lo, hi))

-- Page `k + 1` panics where the number `k * s` of its first result is from 2^63 on and below
-- 2^64 - 50, and pages have one to 50 results: the product wraps around to a negative index.
pub page_of_overflow :
    {A : Type 0} (k s : ℕ) (xs : List A)
    → k < 9223372036854775807
    → 1 ≤ s
    → s ≤ 50
    → 9223372036854775808 ≤ k * s
    → k * s < 18446744073709551566
    → page_of (pos (suc k)) (pos s) xs ≡ none
unfolding page_of
page_of_overflow k s xs h one fifty lo hi =
    let n = 18446744073709551615 - k * s in
    rw
      (
        start_overflows k s h lo hi,
        at_most_negsuc (length xs) n,
        sum_negsuc n s (omega (arith, fifty, hi)) (omega (arith, lo)),
        at_most_negsuc (length xs) (n - s),
      )
      (slice_negsuc n s xs one (omega (arith, fifty, hi)))
