-- ===== src/Inventory/Upsert/Keeps.antt =====
-- What BatchUpsertDailyAllocations of internal/adapter/repository/postgres/inventory_repo.go may
-- change of the table of daily allocations.
use doki_core_backend.Prelude.{
  ℕ, ◌≡◌, ◌⊎◌, inl, inr, refl, sym, ◌∙◌, true, false, ◌&&◌, not, List, [], ◌∷◌, arith, ◌==◌,
  Bool-cases,
}
use doki_core_backend.Errors.{Result, ok, err}
use doki_core_backend.Inventory.{DailyAllocation}
use doki_core_backend.Inventory.Commit.Bounded.{bounded, AllBounded}
use doki_core_backend.Inventory.Upsert.{
  same_slot, has_slot, id_taken, refreshed, prepend, upsert_row, upsert_item,
}

-- A row after an upsert: its slot and its counts are as before, and where units are allocated so
-- are its total and its rate.
pub record Kept (a b : DailyAllocation) : Type 0 where
  pub id : b.id ≡ a.id
  pub property : b.property_id ≡ a.property_id
  pub room_type : b.room_type_id ≡ a.room_type_id
  pub date : b.stay_date ≡ a.stay_date
  pub allocated : b.allocated_count ≡ a.allocated_count
  pub blocked : b.blocked_count ≡ a.blocked_count
  pub sold :
      (a.allocated_count ≡ 0) ⊎ (b.total_units ≡ a.total_units) × (b.rate_minor ≡ a.rate_minor)

-- The rows in turn are kept, and new rows stand behind them.
abbrev pub Keeps : List DailyAllocation → List DailyAllocation → Type 0
Keeps [] ys = Unit
Keeps (a ∷ xs) [] = ⊥
Keeps (a ∷ xs) (b ∷ ys) = Kept a b × Keeps xs ys

Kept-same : (a : DailyAllocation) → Kept a a
Kept-same a = record {
  id = refl;
  property = refl;
  room_type = refl;
  date = refl;
  allocated = refl;
  blocked = refl;
  sold = inr (refl, refl);
}

Kept-trans : {a b c : DailyAllocation} → Kept a b → Kept b c → Kept a c
Kept-trans {a} {b} {c} h k = record {
  id = k.id ∙ h.id;
  property = k.property ∙ h.property;
  room_type = k.room_type ∙ h.room_type;
  date = k.date ∙ h.date;
  allocated = k.allocated ∙ h.allocated;
  blocked = k.blocked ∙ h.blocked;
  sold = elim h.sold [
    | inl none ↦ inl none
    | inr (t, r) ↦ elim k.sold [
      | inl none ↦ inl (sym h.allocated ∙ none)
      | inr (t', r') ↦ inr (t' ∙ t, r' ∙ r)
    ]
  ];
}

pub Keeps-same : (xs : List DailyAllocation) → Keeps xs xs
Keeps-same [] = tt
Keeps-same (a ∷ xs) = (Kept-same a, Keeps-same xs)

pub Keeps-trans : (xs ys zs : List DailyAllocation) → Keeps xs ys → Keeps ys zs → Keeps xs zs
Keeps-trans [] ys zs h k = tt
Keeps-trans (a ∷ xs) [] zs h k = elim h [ ]
Keeps-trans (a ∷ xs) (b ∷ ys) [] h k = elim k [ ]
Keeps-trans (a ∷ xs) (b ∷ ys) (c ∷ zs) h k = (Kept-trans h.0 k.0, Keeps-trans xs ys zs h.1 k.1)

refreshed-Kept : (item a : DailyAllocation) → Kept a (refreshed item a)
unfolding refreshed
refreshed-Kept item a = elim (Bool-cases (a.allocated_count == 0)) [
  | inl free ↦ rw free (record {
    id = refl;
    property = refl;
    room_type = refl;
    date = refl;
    allocated = refl;
    blocked = refl;
    sold = inl (ground (arith, free));
  })
  | inr sold ↦ rw sold (Kept-same a)
]

-- The table after an upsert of one item: it is kept and bounded, and the item has its row.
abbrev pub Upserted :
    DailyAllocation → List DailyAllocation → Result (List DailyAllocation) → Type 0
Upserted item rows (err e) = Unit
Upserted item rows (ok rows') =
    Keeps rows rows'
    × (AllBounded rows → AllBounded rows')
    × (has_slot item.property_id item.room_type_id item.stay_date rows' ≡ true)

prepend-Upserted :
    (item a : DailyAllocation) (rows : List DailyAllocation) (out : Result (List DailyAllocation))
    → same_slot item a ≡ false
    → Upserted item rows out
    → Upserted item (a ∷ rows) (prepend a out)
unfolding prepend
prepend-Upserted item a rows (err e) other h = tt
prepend-Upserted item a rows (ok rows') other h =
    ((Kept-same a, h.0), (λ k. (k.0, h.1 k.1)), rw other h.2)

refreshed_slot :
    (item a : DailyAllocation) → same_slot item a ≡ true → same_slot item (refreshed item a) ≡ true
unfolding refreshed
refreshed_slot item a h = elim (Bool-cases (a.allocated_count == 0)) [
  | inl free ↦ rw free h
  | inr sold ↦ rw sold h
]

upsert_row-Upserted :
    (item : DailyAllocation) (rows : List DailyAllocation)
    → bounded item ≡ true
    → Upserted item rows (upsert_row item rows)
unfolding upsert_row
upsert_row-Upserted item [] fits = (tt, (λ k. (fits, tt)), ground arith)
upsert_row-Upserted item (a ∷ rows) fits = elim (Bool-cases (same_slot item a)) [
  | inr other ↦ rw other (
      prepend-Upserted item a rows (upsert_row item rows) other
        (upsert_row-Upserted item rows fits))
  | inl same ↦ elim (Bool-cases (bounded (refreshed item a))) [
    | inr over ↦ rw (same, over) tt
    | inl under ↦
        rw (same, under)
          (
            (refreshed-Kept item a, Keeps-same rows),
            (λ k. (under, k.1)),
            rw (refreshed_slot item a same) refl,
          )
  ]
]

pub upsert_item-Upserted :
    (item : DailyAllocation) (rows : List DailyAllocation)
    → Upserted item rows (upsert_item item rows)
unfolding upsert_item
upsert_item-Upserted item rows = elim (Bool-cases (bounded item)) [
  | inr over ↦ rw over tt
  | inl fits ↦
      elim (Bool-cases (
        id_taken item.id rows
        && not (has_slot item.property_id item.room_type_id item.stay_date rows))) [
          | inl clash ↦ rw (fits, clash) tt
          | inr free ↦ rw (fits, free) (upsert_row-Upserted item rows fits)
        ]
]

-- A slot that has a row keeps it.
pub Keeps-has_slot :
    (p q d : ℕ) (xs ys : List DailyAllocation)
    → Keeps xs ys
    → has_slot p q d xs ≡ true
    → has_slot p q d ys ≡ true
Keeps-has_slot p q d [] ys h k = absurd (ground (arith, k))
Keeps-has_slot p q d (a ∷ xs) [] h k = elim h [ ]
Keeps-has_slot p q d (a ∷ xs) (b ∷ ys) h k =
    elim (Bool-cases ((p == a.property_id && q == a.room_type_id) && d == a.stay_date)) [
      | inl here ↦ rw (h.0.property, h.0.room_type, h.0.date, here) refl
      | inr there ↦
          rw (h.0.property, h.0.room_type, h.0.date, there)
            (Keeps-has_slot p q d xs ys h.1 (rw there at k))
    ]
