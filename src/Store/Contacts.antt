-- ===== src/Store/Contacts.antt =====
-- The statements of contacts.sql.go that the contacts service runs.
use fieldwatchai_comms_openk.Prelude.{
  ℕ, Bool, ◌&&◌, ◌||◌, Option, true, false, List, [], ◌∷◌, any, find, keep, ltb, ◌==◌,
  comparable_nat, comparable_list, if◌then◌else◌,
}
use fieldwatchai_comms_openk.Store.{
  Text, Contact, Db, unique_violation, foreign_key_violation, Result, ok, err,
}
use fieldwatchai_comms_openk.Store.Select.{one, sort_by, set_where}
use fieldwatchai_comms_openk.Store.Accounts.{has_tenant}

-- `id = $1 AND tenant_id = $2`
abbrev pub is_contact_row : ℕ → ℕ → Contact → Bool
is_contact_row id tenant_id c = c.id == id && c.tenant_id == tenant_id

-- `tenant_id = $1 AND short_id = $2`
abbrev pub has_short_id : ℕ → Text → Contact → Bool
has_short_id tenant_id short_id c = c.tenant_id == tenant_id && c.short_id == short_id

-- `UpdateContactParams`
pub record ContactChange : Type 0 where
  pub display_name : Text
  pub aoi_id : Option Text
  pub role : Option Text
  pub status : Text
  pub metadata : Text
  pub updated_at : ℕ

unfoldable pub changed_contact : ContactChange → Contact → Contact
changed_contact p c = record c {
  display_name = p.display_name;
  aoi_id = p.aoi_id;
  role = p.role;
  status = p.status;
  metadata = p.metadata;
  updated_at = p.updated_at;
}

-- A text comes before another: `ORDER BY short_id`, by code points.
unfoldable pub text_before : Text → Text → Bool
text_before s [] = false
text_before [] (d ∷ t) = true
text_before (c ∷ s) (d ∷ t) =
    let rest = text_before s t in if ltb c d then true else (c == d && rest)

module _ {F : Type 0} where
  -- `CreateContact`, with the two unique keys and the reference to the tenant.
  unfoldable pub create_contact : Contact → Db F → Result Contact × Db F
  create_contact c db =
      if any (λ b. b.id == c.id || has_short_id c.tenant_id c.short_id b) db.contacts
      then (err unique_violation, db)
      else if has_tenant c.tenant_id db
      then (ok c, record db { contacts = c ∷ db.contacts })
      else (err foreign_key_violation, db)

  -- `GetContactByShortID`
  unfoldable pub get_contact_by_short_id : ℕ → Text → Db F → Result Contact × Db F
  get_contact_by_short_id tenant_id short_id db =
      (one (find (has_short_id tenant_id short_id) db.contacts), db)

  -- `GetContactForTenant`
  unfoldable pub get_contact_for_tenant : ℕ → ℕ → Db F → Result Contact × Db F
  get_contact_for_tenant id tenant_id db =
      (one (find (is_contact_row id tenant_id) db.contacts), db)

  -- `ListContactsForTenant`
  unfoldable pub list_contacts_for_tenant : ℕ → Db F → Result (List Contact) × Db F
  list_contacts_for_tenant tenant_id db = (
    ok (
        sort_by (λ a b. text_before a.short_id b.short_id)
          (keep (λ c. c.tenant_id == tenant_id) db.contacts)),
    db,
  )

  -- `UpdateContact`
  unfoldable pub update_contact : ℕ → ℕ → ContactChange → Db F → Result Contact × Db F
  update_contact id tenant_id p db =
      let rows = set_where (is_contact_row id tenant_id) (changed_contact p) db.contacts in
      (one (find (is_contact_row id tenant_id) rows), record db { contacts = rows })
