-- ===== src/Properties/Updating.antt =====
-- What `UpdateProperty` of internal/adapter/http/v1/admin_property_handler.go does to the table.
use Prim.Native.Char.{Char}
use mathlib.Core.Path.{subst}
use doki_core_backend.Prelude.{
  ℕ, ◌≡◌, refl, sym, ◌∙◌, ap, ◌⊎◌, inl, inr, String, List, [], ◌∷◌, Option, none, some, ◌==◌,
  Bool-cases, length,
}
use doki_core_backend.Errors.{Err, Result, ok, err}
use doki_core_backend.Reservations.{Fault, no_fault, refused, lost, first_fault, later_faults}
use doki_core_backend.Faults.{under}
use doki_core_backend.Properties.{Property, Tables, Db, call, is_profile, degrees, property_key}
use doki_core_backend.Identity.{is_no_rows}
use doki_core_backend.Properties.Keys.{Distinct, Listed, first-Listed}
use doki_core_backend.Properties.Repo.{
  set_profile, profile_of, placed, set_placed, update_profile, updated, select_rows, first, scanned,
}
use doki_core_backend.Properties.Repo
use doki_core_backend.Properties.Service.{
  World, on_db, update_row, after_get, merged, newer_at, resulting,
}
use doki_core_backend.Properties.Service
use doki_core_backend.Properties.Api.{
  UpdatePropertyRequest, PropertyResponse, Answer, success, failure, replied_with,
  to_property_response, property_update, update_parsed, handle_update_property, find_error,
}
use doki_core_backend.Properties.Asked.{
  Requested, merged-Requested, Keeps, placed-Keeps, Replaced, set_profile-Replaced, first-id,
}

module _ (p : Property) where
  -- The row that a look-up by the id finds.
  abbrev pub Found : Db → Result Property × Db → Type 0
  Found db (err e, db1) = db1 ≡ record db { faults = later_faults db.faults }
  Found db (ok row, db1) =
      (db1 ≡ record db { faults = later_faults db.faults })
      × (first (select_rows (λ r. r.id == p.id) db.tables.properties) ≡ ok row)

  scan_error :
      (e : Err) (db : Db)
      → Found db
          (scanned "get property by id" (err e), record db { faults = later_faults db.faults })
  unfolding scanned
  scan_error e db = elim (Bool-cases (is_no_rows e)) [
    | inl absent ↦ rw absent refl
    | inr other ↦ rw other refl
  ]

  get_under :
      (f : Fault) (db : Db) (found : Result Property)
      → first (select_rows (λ r. r.id == p.id) db.tables.properties) ≡ found
      → Found db (
          let (reply, tables) = under f db.tables (found, db.tables) in
          (
            scanned "get property by id" reply,
            record db { tables = tables; faults = later_faults db.faults },
          ))
  unfolding under
  get_under no_fault db (ok row) h = unfold scanned in (refl, h)
  get_under no_fault db (err e) h = scan_error e db
  get_under (refused e) db found h = scan_error e db
  get_under (lost e) db found h = scan_error e db

  get-Found : (db : Db) → Found db (Repo.get_property_by_id p.id db)
  unfolding Repo.get_property_by_id call
  get-Found db =
      get_under (first_fault db.faults) db
        (first (select_rows (λ r. r.id == p.id) db.tables.properties)) refl

  -- What an update has written: `m` is the row of the id under the request.
  abbrev pub Written : Db → Property → Tables → Type 0
  Written db m t =
      (row : Property) × Listed row db.tables.properties
      × (row.id ≡ p.id)
      × Requested p row m
      × ((kept : Property) × Keeps db m kept × Replaced p.id kept db.tables.properties t.properties)
      × (t ≡ record db.tables { properties = t.properties })

  -- What an answer says, and the tables that go with it.
  abbrev pub Updates : Db → Answer PropertyResponse × Tables → Type 0
  Updates db (success code body, t) =
      (code ≡ 200) × ((m : Property) × (body ≡ to_property_response m) × Written db m t)
  Updates db (failure code, t) =
      (t ≡ db.tables)
      ⊎ ((e : Err) × (first_fault (later_faults db.faults) ≡ lost e)
          × ((m : Property) × Written db m t))

  abbrev replied : Property → Result ℕ → Answer PropertyResponse
  replied row reply =
      replied_with find_error 200 to_property_response
        (resulting "update property" (merged p row) (updated reply))

  affected_one :
      {A : Type 0} (xs : List A) (x : A) → first xs ≡ ok x → updated (ok (length xs)) ≡ ok tt
  unfolding first updated
  affected_one [] x h = cc
  affected_one (y ∷ ys) x h = refl

  failing : (row : Property) (e : Err) (db : Db) → Updates db (replied row (err e), db.tables)
  unfolding updated replied_with resulting
  failing row e db = inl refl

  affected_by :
      (id : ℕ) (rows : List Property) (row : Property)
      → id ≡ p.id
      → first (select_rows (λ r. r.id == p.id) rows) ≡ ok row
      → updated (ok (length (select_rows (λ r. r.id == id) rows))) ≡ ok tt
  affected_by id rows row same found =
      rw same (affected_one (select_rows (λ r. r.id == p.id) rows) row found)

  module _ (db : Db) (row : Property)
      (found : first (select_rows (λ r. r.id == p.id) db.tables.properties) ≡ ok row)
      (keys : Distinct property_key db.tables.properties) where
    abbrev rewritten : Property → Tables
    rewritten q = record db.tables { properties = set_profile q db.tables.properties }

    written : (q : Property) → Keeps db (merged p row) q → Written db (merged p row) (rewritten q)
    written q k =
        let own = first-id p row db.tables.properties found in
        let same : q.id ≡ p.id = ap (λ (r : Property). r.id) k.2 ∙ own in
        (
          row,
          first-Listed (λ r. r.id == p.id) db.tables.properties row found,
          own,
          merged-Requested p row,
          (
            q,
            k,
            set_profile-Replaced p row q q db.tables.properties keys found same
                (subst (λ (r : Property). profile_of r row ≡ r) (sym k.2) refl),
          ),
          refl,
        )

    succeeding :
        (q : Property)
        → Keeps db (merged p row) q
        → Updates db (
          replied row (ok (length (select_rows (λ r. r.id == q.id) db.tables.properties))),
          rewritten q,
        )
    unfolding replied_with resulting
    succeeding q k =
        let own = first-id p row db.tables.properties found in
        let same : q.id ≡ p.id = ap (λ (r : Property). r.id) k.2 ∙ own in
        rw (affected_by q.id db.tables.properties row same found)
          (refl, (merged p row, refl, written q k))

    lost_write :
        (e : Err) (q : Property)
        → Keeps db (merged p row) q
        → first_fault (later_faults db.faults) ≡ lost e
        → Updates db (replied row (err e), rewritten q)
    unfolding updated replied_with resulting
    lost_write e q k h = inr (e, h, (merged p row, written q k))

    write_under :
        (f : Fault) (kept : Option Property)
        → ((q : Property) → kept ≡ some q → Keeps db (merged p row) q)
        → first_fault (later_faults db.faults) ≡ f
        → Updates db (
            let (reply, t) = under f db.tables (set_placed kept db.tables) in
            (replied row reply, t))
    unfolding under set_placed
    write_under (refused e) kept k h = failing row e db
    write_under (lost e) none k h = failing row e db
    write_under no_fault none k h = failing row _ db
    write_under (lost e) (some q) k h = elim (Bool-cases (is_profile q)) [
      | inl valid ↦ simp valid (lost_write e q (k q refl) h)
      | inr bad ↦ simp bad (failing row e db)
    ]
    write_under no_fault (some q) k h = elim (Bool-cases (is_profile q)) [
      | inl valid ↦ simp valid (succeeding q (k q refl))
      | inr bad ↦ simp bad (failing row _ db)
    ]

  after_get-Updates :
      (db : Db) (got : Result Property × Db)
      → Distinct property_key db.tables.properties
      → Found db got
      → Updates db (
          let (reply, db1) = after_get p got.0 got.1 in
          (replied_with find_error 200 to_property_response reply, db1.tables))
  unfolding after_get Repo.update_property call update_profile degrees
  after_get-Updates db (err e, db1) keys h =
      unfold replied_with in inl (ap (λ (d : Db). d.tables) h)
  after_get-Updates db (ok row, db1) keys h = rw h.0 (
      write_under db row h.1 keys (first_fault (later_faults db.faults)) _
        (λ q. placed-Keeps (merged p row) q _ _) refl)

-- The request of an update that has its path and its body, where the rows have distinct keys: the
-- answer 200 shows the row of the id with every value that the request has, and the others as they
-- were; it goes with a table in which that row alone is replaced, by the shown one with the
-- coordinates as the database rounds them, and with no other change. Any other answer goes with
-- tables as they were, unless the reply of the write was lost. The users stay.
pub handle_update_property-Updates :
    (parse_uuid : String → Option ℕ) (table : Char → Char) (ctx : Option Err) (uuid id : ℕ)
    (path : String) (req : UpdatePropertyRequest) (w : World)
    → Distinct property_key w.db.tables.properties
    → parse_uuid path ≡ some id
    → let (reply, w1) = handle_update_property parse_uuid table ctx uuid path (some req) w in
      Updates (property_update parse_uuid table ctx uuid id req) w.db (reply, w1.db.tables)
      × (w1.users ≡ w.users)
unfolding handle_update_property update_parsed Service.update_property on_db update_row
handle_update_property-Updates parse_uuid table (some e) uuid id path req w keys h =
    rw h (unfold replied_with in (inl refl, refl))
handle_update_property-Updates parse_uuid table none uuid id path req w keys h =
    let p = property_update parse_uuid table none uuid id req in
    rw h (after_get-Updates p w.db (Repo.get_property_by_id id w.db) keys (get-Found p w.db), refl)
