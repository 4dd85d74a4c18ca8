-- ===== src/Properties/Creating.antt =====
-- What the creation of a property by internal/adapter/http/v1/admin_property_handler.go does.
use Prim.Native.Char.{Char}
use mathlib.Core.Path.{subst}
use text.Mathlib.Text.{◌==◌ as str_eq}
use doki_core_backend.Prelude.{
  ℕ, ◌≡◌, refl, ◌⊎◌, inl, inr, Bool, true, false, ◌&&◌, String, Option, none, some, arith,
  Bool-cases, if◌then◌else◌,
}
use doki_core_backend.Prelude.Int.{ℤ}
use doki_core_backend.Errors.{Err, Result, ok, err}
use doki_core_backend.Reservations.{
  is_unique_violation, Fault, no_fault, refused, lost, first_fault,
}
use doki_core_backend.Columns.{varchar}
use doki_core_backend.Faults.{under}
use doki_core_backend.Identity.Text.{trim_space}
use doki_core_backend.Properties.{
  Property, Tables, Db, call, any, property_key, owner_known, insert_outcome, is_profile,
  is_identity, add_property, degrees, kept_as, columns, insert_columns, insert_property,
}
use doki_core_backend.Properties.Repo.{saved_as, or_fresh, with_defaults}
use doki_core_backend.Properties.Repo
use doki_core_backend.Properties.Service.{
  World, owner_of, to_upper, trimmed, lacks_text, filled, create_trimmed, after_create,
  assign_owner,
}
use doki_core_backend.Properties.Service
use doki_core_backend.Properties.Api.{
  CreatePropertyRequest, PropertyResponse, Answer, success, failure, replied_with,
  to_property_response, new_property, parsed_owner, handle_create_property, create_error,
}

-- The row that the columns keep of `p`: the casts of its times, its coordinates and its currency, and
-- all else as it is.
abbrev pub StoredAs : Db → Property → Property → Type 0
StoredAs db p row =
    (db.cast_time p.check_in_time ≡ some row.check_in_time)
    × (db.cast_time p.check_out_time ≡ some row.check_out_time)
    × (degrees db 10 p.latitude ≡ some row.latitude)
    × (degrees db 11 p.longitude ≡ some row.longitude)
    × (varchar 3 p.base_currency ≡ some row.base_currency)
    × (row ≡ record p {
      check_in_time = row.check_in_time;
      check_out_time = row.check_out_time;
      latitude = row.latitude;
      longitude = row.longitude;
      base_currency = row.base_currency;
    })

-- The row is at the end of the table that follows, and could be added.
abbrev pub Added : Property → Db → Tables → Type 0
Added p db t =
    (row : Property) × StoredAs db p row
    × (t ≡ add_property row db.tables)
    × (any (λ q. property_key q row) db.tables.properties ≡ false)
    × (owner_known db.owners row.owner_user_id ≡ true)

abbrev Inserts : Db → Property → Result (Unit {0}) × Tables → Type 0
Inserts db p (ok _, t) = Added p db t
Inserts db p (err e, t) = t ≡ db.tables

same_row : {p q : Property} → some p ≡ some q → p ≡ q
same_row h = cc

kept_as-StoredAs :
    (p row : Property) (a d : Option String) (la lo : Option (Option ℤ)) (c : Option String)
    → kept_as p a d la lo c ≡ some row
    → (a ≡ some row.check_in_time)
      × (d ≡ some row.check_out_time)
      × (la ≡ some row.latitude)
      × (lo ≡ some row.longitude)
      × (c ≡ some row.base_currency)
      × (row ≡ record p {
        check_in_time = row.check_in_time;
        check_out_time = row.check_out_time;
        latitude = row.latitude;
        longitude = row.longitude;
        base_currency = row.base_currency;
      })
unfolding kept_as
kept_as-StoredAs p row (some a) (some d) (some la) (some lo) (some c) h =
    subst
      (λ (r : Property).
        (some a ≡ some r.check_in_time)
        × (some d ≡ some r.check_out_time)
        × (some la ≡ some r.latitude)
        × (some lo ≡ some r.longitude)
        × (some c ≡ some r.base_currency)
        × (r ≡ record p {
          check_in_time = r.check_in_time;
          check_out_time = r.check_out_time;
          latitude = r.latitude;
          longitude = r.longitude;
          base_currency = r.base_currency;
        }))
      (same_row h) (refl, refl, refl, refl, refl, refl)
kept_as-StoredAs p row none d la lo c h = cc
kept_as-StoredAs p row (some a) none la lo c h = cc
kept_as-StoredAs p row (some a) (some d) none lo c h = cc
kept_as-StoredAs p row (some a) (some d) (some la) none c h = cc
kept_as-StoredAs p row (some a) (some d) (some la) (some lo) none h = cc

insert_outcome-Inserts :
    (db : Db) (p row : Property) (valid clash linked : Bool)
    → StoredAs db p row
    → any (λ q. property_key q row) db.tables.properties ≡ clash
    → owner_known db.owners row.owner_user_id ≡ linked
    → Inserts db p (insert_outcome valid clash linked db.tables (add_property row db.tables))
unfolding insert_outcome
insert_outcome-Inserts db p row false clash linked s c l = refl
insert_outcome-Inserts db p row true true linked s c l = refl
insert_outcome-Inserts db p row true false false s c l = refl
insert_outcome-Inserts db p row true false true s c l = (row, s, refl, c, l)

columns-Inserts :
    (db : Db) (p : Property) (kept : Option Property)
    → columns db p ≡ kept
    → Inserts db p (insert_columns db.owners kept db.tables)
unfolding insert_columns columns
columns-Inserts db p none h = refl
columns-Inserts db p (some row) h =
    insert_outcome-Inserts db p row (is_profile row && is_identity row) _ _
      (kept_as-StoredAs p row _ _ _ _ _ h) refl refl

-- What an INSERT comes to under a fault.
abbrev Delivers : Db → Property → Fault → Result (Unit {0}) × Tables → Type 0
Delivers db p f (ok _, t) = Added p db t
Delivers db p f (err e, t) = (t ≡ db.tables) ⊎ ((c : Err) × (f ≡ lost c) × Added p db t)

under-Delivers :
    (db : Db) (p : Property) (f : Fault) (out : Result (Unit {0}) × Tables)
    → Inserts db p out
    → Delivers db p f (under f db.tables out)
unfolding under
under-Delivers db p no_fault (ok _, t) h = h
under-Delivers db p no_fault (err e, t) h = inl h
under-Delivers db p (refused e) out h = inl refl
under-Delivers db p (lost e) (ok _, t) h = inr (e, refl, h)
under-Delivers db p (lost e) (err c, t) h = inl h

abbrev pub Creates : Bool → Property → World → Answer PropertyResponse × World → Type 0
Creates lacks p w (success code body, w1) =
    (code ≡ 201)
    × (lacks ≡ false)
    × (body ≡ to_property_response p)
    × Added p w.db w1.db.tables
    × (w1.users ≡ assign_owner p.owner_user_id p.id w.users)
Creates lacks p w (failure code, w1) =
    (w1.users ≡ w.users)
    × ((w1.db.tables ≡ w.db.tables)
        ⊎ ((e : Err) × (first_fault w.db.faults ≡ lost e)
            × (lacks ≡ false)
            × Added p w.db w1.db.tables))

abbrev to_answer : Result Property × World → Answer PropertyResponse × World
to_answer (reply, w) = (replied_with create_error 201 to_property_response reply, w)

fails-Creates :
    (p : Property) (w w1 : World) (e : Err)
    → w1.users ≡ w.users
    → (w1.db.tables ≡ w.db.tables)
      ⊎ ((c : Err) × (first_fault w.db.faults ≡ lost c) × Added p w.db w1.db.tables)
    → Creates false p w (to_answer (after_create (err e) w1))
unfolding replied_with after_create
fails-Creates p w w1 e u (inl s) = (u, inl s)
fails-Creates p w w1 e u (inr (c, l, a)) = (u, inr (c, l, refl, a))

saved_as-Creates :
    (p : Property) (w : World) (f : Fault) (reply : Result (Unit {0})) (db1 : Db)
    → first_fault w.db.faults ≡ f
    → Delivers w.db p f (reply, db1.tables)
    → Creates false p w
        (to_answer (after_create (saved_as "insert property" p reply) (record w { db = db1 })))
unfolding saved_as
saved_as-Creates p w f (ok _) db1 h d =
    unfold after_create replied_with in (refl, refl, refl, d, refl)
saved_as-Creates p w f (err e) db1 h d = elim (Bool-cases (is_unique_violation e)) [
  | inl clash ↦ rw clash (fails-Creates p w (record w { db = db1 }) _ refl (rw h d))
  | inr other ↦ rw other (fails-Creates p w (record w { db = db1 }) _ refl (rw h d))
]

-- The property that a request asks for.
abbrev pub requested : (Char → Char) → ℕ → Option ℕ → CreatePropertyRequest → Property
requested table uuid owner req = record {
  id = uuid;
  code = to_upper table (trim_space req.code);
  name = trim_space req.name;
  category = if str_eq req.category "" then "BRANDED" else req.category;
  status = "DRAFT";
  region = trim_space req.region;
  city = trim_space req.city;
  latitude = req.latitude;
  longitude = req.longitude;
  base_currency = if str_eq req.base_currency "" then "ETB" else req.base_currency;
  check_in_time = "14:00:00";
  check_out_time = "11:00:00";
  owner_user_id = owner;
}

owner_of_self : (owner : Option ℕ) → owner_of owner owner ≡ owner
unfolding owner_of
owner_of_self none = refl
owner_of_self (some id) = ground arith

or_fresh_self : (uuid : ℕ) → or_fresh uuid uuid ≡ uuid
or_fresh_self uuid = ground arith

-- The insert of a property that has its defaults.
abbrev inserting : World → Property → Result Property × World
inserting w p =
    let (reply, db) = call (insert_property w.db p) w.db in
    after_create (saved_as "insert property" p reply) (record w { db = db })

inserting-Creates : (w : World) (p : Property) → Creates false p w (to_answer (inserting w p))
unfolding call insert_property
inserting-Creates w p = saved_as-Creates p w (first_fault w.db.faults) _ _ refl (
    under-Delivers w.db p (first_fault w.db.faults) _
      (columns-Inserts w.db p (columns w.db p) refl))

trimmed-Creates :
    (uuid : ℕ) (owner : Option ℕ) (q p : Property) (w : World)
    → with_defaults uuid (filled uuid owner q) ≡ p
    → Creates (lacks_text q) p w (to_answer (create_trimmed uuid q owner w))
unfolding create_trimmed Repo.create_property
trimmed-Creates uuid owner q p w e = elim (Bool-cases (lacks_text q)) [
  | inl lacks ↦ rw lacks (unfold replied_with in (refl, inl refl))
  | inr full ↦ rw full (
      subst
        (λ (r : Property).
          Creates false r w (to_answer (inserting w (with_defaults uuid (filled uuid owner q)))))
        e (inserting-Creates w (with_defaults uuid (filled uuid owner q))))
]

module _ (parse_uuid : String → Option ℕ) (table : Char → Char) (uuid : ℕ) where
  requested_lem :
      (id : ℕ) (owner : Option ℕ) (req : CreatePropertyRequest)
      → with_defaults id (
          filled id owner (
            trimmed table
              (record (new_property parse_uuid table none id req) { owner_user_id = owner })))
        ≡ requested table id owner req
  requested_lem id owner req = rw (owner_of_self owner, or_fresh_self id, or_fresh_self id) refl

  -- A request that has its body: the answer 201 shows the requested values, a draft with the code in
  -- upper case, and goes with a row of them at the end of the table, as the columns keep them (the
  -- coordinates rounded by the database), and no other change but the assignment of the owner; code,
  -- name, city and region are then not blank, neither the id nor the code was in the table, and the
  -- owner, if there is one, is a user. Any other answer goes with tables as they were, unless the
  -- reply of the insert was lost.
  pub handle_create_property-Creates :
      (ctx : Option Err) (req : CreatePropertyRequest) (w : World)
      → let p =
          requested table uuid (parsed_owner parse_uuid table ctx uuid req.owner_user_id) req in
        Creates (lacks_text p) p w (handle_create_property parse_uuid table ctx uuid (some req) w)
  unfolding handle_create_property Service.create_property replied_with create_trimmed lacks_text
  handle_create_property-Creates (some e) req w = unfold replied_with in (refl, inl refl)
  handle_create_property-Creates none req w =
      let owner = parsed_owner parse_uuid table none uuid req.owner_user_id in
      trimmed-Creates uuid owner (trimmed table (new_property parse_uuid table none uuid req))
        (requested table uuid owner req) w (requested_lem uuid owner req)
