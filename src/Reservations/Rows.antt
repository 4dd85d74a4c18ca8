-- ===== src/Reservations/Rows.antt =====
-- What a hold that is written does to the table of reservations.
use doki_core_backend.Prelude.{
  ℕ, ◌≡◌, ◌≢◌, refl, sym, ◌∙◌, List, true, false, String, [], ◌∷◌, ◌++◌, ◌⊎◌, inl, inr, Bool-cases,
}
use doki_core_backend.Errors.{pg_error, Err, Result, ok, err}
use doki_core_backend.Reservations.{
  InventoryHold, Db, Fault, no_fault, refused, lost, first_fault, hold_row, clashes, create_hold,
  call, deliver, texts_fit, linked_in, insert_row, inserted, Reservation,
}

module _ (id : ℕ) (ref : String) (now : ℕ) (hold : InventoryHold) (name phone : String) where
  -- What the table must let in: texts that fit, a new id and a new reference, and a property and a
  -- room type that exist.
  abbrev pub Writable : Db → Type 0
  Writable db =
      (texts_fit ref name phone ≡ true)
      × (clashes id ref db.rows ≡ false)
      × (db.property_known hold.property_id ≡ true)
      × (db.room_type_known hold.room_type_id ≡ true)

  -- The outcome of `CreateHold`: the new row and its id, or an error. An error comes of a fault of
  -- the call or of a row that cannot be written; it leaves the table as it was, unless the reply of
  -- the statement was lost, which has then written the row.
  abbrev pub Creates : Db → Result ℕ × Db → Type 0
  Creates db (ok i, db') =
      (i ≡ id)
      × Writable db
      × (db'.rows ≡ db.rows ++ hold_row id ref now hold name phone ∷ [])
      × (first_fault db.faults ≡ no_fault)
  Creates db (err e, db') =
      (db'.rows ≡ db.rows) × ((first_fault db.faults ≢ no_fault) ⊎ ¬ (Writable db))
      ⊎ ((e' : Err) × (first_fault db.faults ≡ lost e')
          × Writable db
          × (db'.rows ≡ db.rows ++ hold_row id ref now hold name phone ∷ []))

  abbrev inserting : Db → Result (Unit {0}) × List Reservation
  inserting db =
      insert_row (texts_fit ref name phone) (linked_in db hold.property_id hold.room_type_id)
        (hold_row id ref now hold name phone) db.rows

  -- What the statement does on its own.
  abbrev Inserts : Db → Result (Unit {0}) × List Reservation → Type 0
  Inserts db out =
      Writable db × (out ≡ (ok tt, db.rows ++ hold_row id ref now hold name phone ∷ []))
      ⊎ ¬ (Writable db) × ((e : Err) × (out ≡ (err e, db.rows)))

  inserting-Inserts : (db : Db) → Inserts db (inserting db)
  unfolding insert_row linked_in
  inserting-Inserts db = elim (Bool-cases (texts_fit ref name phone)) [
    | inr long ↦ inr (λ w. cc (sym long ∙ w.0), (pg_error "22001", rw long refl))
    | inl fit ↦ elim (Bool-cases (clashes id ref db.rows)) [
      | inl clash ↦ inr (λ w. cc (sym clash ∙ w.1), (pg_error "23505", rw (fit, clash) refl))
      | inr free ↦ elim (Bool-cases (db.property_known hold.property_id)) [
        | inr gone ↦ inr (λ w. cc (sym gone ∙ w.2), (pg_error "23503", rw (fit, free, gone) refl))
        | inl there ↦ elim (Bool-cases (db.room_type_known hold.room_type_id)) [
          | inr gone ↦
              inr (λ w. cc (sym gone ∙ w.3), (pg_error "23503", rw (fit, free, there, gone) refl))
          | inl both ↦ inl ((fit, free, there, both), rw (fit, free, there, both) refl)
        ]
      ]
    ]
  ]

  abbrev replied : Result (Unit {0}) × Db → Result ℕ × Db
  replied out = (inserted id out.0, out.1)

  delivered-Creates :
      (f : Fault) (db : Db) (out : Result (Unit {0}) × List Reservation)
      → first_fault db.faults ≡ f
      → Inserts db out
      → Creates db (replied (deliver f out db))
  unfolding deliver inserted
  delivered-Creates no_fault db out h (inl (w, e)) = rw e (refl, w, refl, h)
  delivered-Creates no_fault db out h (inr (n, (x, e))) = rw e (inl (refl, inr n))
  delivered-Creates (refused c) db out h i = inl (refl, inl (λ k. cc (sym h ∙ k)))
  delivered-Creates (lost c) db out h (inl (w, e)) = rw e (inr (c, h, w, refl))
  delivered-Creates (lost c) db out h (inr (n, (x, e))) =
      rw e (inl (refl, inl (λ k. cc (sym h ∙ k))))

  pub create_hold-Creates : (db : Db) → Creates db (create_hold id ref now hold name phone db)
  unfolding create_hold call
  create_hold-Creates db =
      delivered-Creates (first_fault db.faults) db (inserting db) refl (inserting-Inserts db)
