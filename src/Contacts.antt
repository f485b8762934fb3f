-- ===== src/Contacts.antt =====
-- The contacts of a tenant: channels-go/internal/contacts/service.go and contact.go.
pub mod Check
pub mod Import
pub mod Counts
mod Examples
use fieldwatchai_comms_openk.Prelude.{
  ℕ, Bool, true, false, ◌&&◌, ◌||◌, Option, none, some, List, [], ◌∷◌, map, ltb, leb, ◌==◌,
  comparable_nat, comparable_list, codes, if◌then◌else◌,
}
use fieldwatchai_comms_openk.Strdist.{levenshtein}
use fieldwatchai_comms_openk.Store.{
  Text, Contact, Db, no_rows, unique_violation, foreign_key_violation, unavailable, Result, ok, err,
}
use fieldwatchai_comms_openk.Store.Queries.{list_contact_short_ids}
use fieldwatchai_comms_openk.Store.Erasing.{delete_contact_row}
use fieldwatchai_comms_openk.Store.Contacts.{
  ContactChange, create_contact, get_contact_by_short_id, get_contact_for_tenant,
  list_contacts_for_tenant, update_contact,
}
use fieldwatchai_comms_openk.World.{M, ◌>>=◌, pure, query, new_id}
use fieldwatchai_comms_openk.Admin.Accounts.{is_blank, or_text, or_else}

-- `ErrNotFound`, `ErrConflict`, `ErrInvalid`, and every other error.
pub data Failure : Type 0 where
  not_found conflict invalid internal : Failure

pub data Outcome (A : Type 0) : Type 0 where
  done : A → Outcome A
  failed : Failure → Outcome A

-- The API view of a contact, which has no default channel.
pub record ContactView : Type 0 where
  pub id : ℕ
  pub tenant_id : ℕ
  pub short_id : Text
  pub display_name : Text
  pub aoi_id : Option Text
  pub role : Option Text
  pub status : Text
  pub metadata : Text
  pub created_at : ℕ
  pub updated_at : ℕ

-- `toAPI`
unfoldable pub view_of : Contact → ContactView
view_of c = record {
  id = c.id;
  tenant_id = c.tenant_id;
  short_id = c.short_id;
  display_name = c.display_name;
  aoi_id = c.aoi_id;
  role = c.role;
  status = c.status;
  metadata = c.metadata;
  created_at = c.created_at;
  updated_at = c.updated_at;
}

-- `CreateInput`
pub record ContactInput : Type 0 where
  pub tenant_id : ℕ
  pub short_id : Text
  pub display_name : Text
  pub aoi_id : Option Text
  pub role : Option Text
  pub status : Text
  pub metadata : Text

-- `UpdateInput`
pub record ContactUpdate : Type 0 where
  pub display_name : Option Text
  pub aoi_id : Option Text
  pub role : Option Text
  pub status : Option Text
  pub metadata : Text

-- `ShortIDCheckResult`
pub record ShortIdCheck : Type 0 where
  pub is_taken : Bool
  pub suggestions : List Text

-- A result of a query as that of a method.
unfoldable pub found : {A B : Type 0} → (A → B) → Result A → Outcome B
found g (ok a) = done (g a)
found g (err no_rows) = failed not_found
found g (err unique_violation) = failed internal
found g (err foreign_key_violation) = failed internal
found g (err unavailable) = failed internal

-- The same where no rows are no special case.
unfoldable pub stored : {A B : Type 0} → (A → B) → Result A → Outcome B
stored g (ok a) = done (g a)
stored g (err e) = failed internal

unfoldable pub deleted : Result ℕ → Outcome (Unit {0})
deleted (err e) = failed internal
deleted (ok n) = if n == 0 then failed not_found else done tt

-- `d > 0 && d <= 2`
unfoldable pub is_near : ℕ → Bool
is_near d = ltb 0 d && leb d 2

-- The loop of `ShortIDCheck` over the rows.
unfoldable pub compare_ids : Text → List Contact → ShortIdCheck
compare_ids short_id [] = record { is_taken = false; suggestions = [] }
compare_ids short_id (r ∷ rows) =
    let rest = compare_ids short_id rows in
    if r.short_id == short_id
    then record rest { is_taken = true }
    else if is_near (levenshtein short_id r.short_id)
    then record rest { suggestions = r.short_id ∷ rest.suggestions }
    else rest

abbrev or_some : Option Text → Option Text → Option Text
or_some none b = b
or_some (some a) b = some a

module _ (ids : ℕ → ℕ) (now : ℕ) where
  -- The parameters of `CreateContact`.
  unfoldable pub contact_row : ContactInput → ℕ → Contact
  contact_row in_ id = record {
    id = id;
    tenant_id = in_.tenant_id;
    short_id = in_.short_id;
    display_name = in_.display_name;
    aoi_id = in_.aoi_id;
    role = in_.role;
    default_channel_id = none;
    status = or_text in_.status (codes "active");
    metadata = or_text in_.metadata (codes "{}");
    created_at = now;
    updated_at = now;
  }

  -- `Create` after the check for a collision.
  unfoldable pub create_unless_taken :
      {F : Type 0} → ContactInput → Result Contact → M F (Outcome ContactView)
  create_unless_taken in_ (ok c) = pure (failed conflict)
  create_unless_taken in_ (err no_rows) = do
    id ← new_id ids
    r ← query (create_contact (contact_row in_ id))
    pure (stored view_of r)
  create_unless_taken in_ (err unique_violation) = pure (failed internal)
  create_unless_taken in_ (err foreign_key_violation) = pure (failed internal)
  create_unless_taken in_ (err unavailable) = pure (failed internal)

  -- `Create`
  unfoldable pub new_contact : {F : Type 0} → ContactInput → M F (Outcome ContactView)
  new_contact in_ =
      if in_.tenant_id == 0 || is_blank in_.short_id || is_blank in_.display_name
      then pure (failed invalid)
      else (do
        r ← query (get_contact_by_short_id in_.tenant_id in_.short_id)
        create_unless_taken in_ r)

  unfoldable pub change_of : ContactUpdate → Contact → ContactChange
  change_of in_ cur = record {
    display_name = or_else in_.display_name cur.display_name;
    aoi_id = or_some in_.aoi_id cur.aoi_id;
    role = or_some in_.role cur.role;
    status = or_else in_.status cur.status;
    metadata = or_text in_.metadata cur.metadata;
    updated_at = now;
  }

  unfoldable pub change_loaded :
      {F : Type 0} → ℕ → ℕ → ContactUpdate → Result Contact → M F (Outcome ContactView)
  change_loaded id tenant_id in_ (err e) = pure (found view_of (err e))
  change_loaded id tenant_id in_ (ok cur) = do
    r ← query (update_contact id tenant_id (change_of in_ cur))
    pure (stored view_of r)

  -- `Update`
  unfoldable pub change_contact : {F : Type 0} → ℕ → ℕ → ContactUpdate → M F (Outcome ContactView)
  change_contact id tenant_id in_ = do
    r ← query (get_contact_for_tenant id tenant_id)
    change_loaded id tenant_id in_ r

module _ {F : Type 0} where
  -- `Get`
  unfoldable pub get_contact : ℕ → ℕ → M F (Outcome ContactView)
  get_contact id tenant_id = do
    r ← query (get_contact_for_tenant id tenant_id)
    pure (found view_of r)

  -- `List`
  unfoldable pub list_contacts : ℕ → M F (Outcome (List ContactView))
  list_contacts tenant_id = do
    r ← query (list_contacts_for_tenant tenant_id)
    pure (stored (map view_of) r)

  -- `Delete`
  unfoldable pub remove_contact : ℕ → ℕ → M F (Outcome (Unit {0}))
  remove_contact id tenant_id = do r ← query (delete_contact_row tenant_id id); pure (deleted r)

  -- `ShortIDCheck`
  unfoldable pub short_id_check : ℕ → Text → M F (Outcome ShortIdCheck)
  short_id_check tenant_id short_id = do
    r ← query (list_contact_short_ids tenant_id)
    pure (stored (compare_ids short_id) r)
