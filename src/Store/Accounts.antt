-- ===== src/Store/Accounts.antt =====
-- The statements of tenants.sql.go and accounts.sql.go that the administrative services run.
use fieldwatchai_comms_openk.Prelude.{
  ℕ, Bool, not, ◌&&◌, ◌||◌, Option, none, some, List, ◌∷◌, map, any, find, keep, ltb, ◌==◌,
  comparable_nat, comparable_list, comparable_option, codes, if◌then◌else◌,
}
use fieldwatchai_comms_openk.Store.{
  Text, Tenant, Account, Channel, Db, no_rows, unique_violation, foreign_key_violation, Result, ok,
  err,
}
use fieldwatchai_comms_openk.Store.Select.{one, sort_by, set_where}
use fieldwatchai_comms_openk.Store.Queries.{inbound_channel}

-- `id = $1 AND tenant_id = $2`
abbrev pub is_account : ℕ → ℕ → Account → Bool
is_account id tenant_id a = a.id == id && a.tenant_id == tenant_id

-- `UpdateAccountParams`
pub record AccountChange : Type 0 where
  pub label : Text
  pub status : Text
  pub capabilities : List Text
  pub credentials_encrypted : Text

unfoldable pub changed_account : AccountChange → Account → Account
changed_account c a = record a {
  label = c.label;
  status = c.status;
  capabilities = c.capabilities;
  credentials_encrypted = c.credentials_encrypted;
}

module _ {F : Type 0} where
  abbrev pub has_tenant : ℕ → Db F → Bool
  has_tenant id db = any (λ t. t.id == id) db.tenants

  -- `CreateTenant`: where the id exists nothing is done, and no row returned.
  unfoldable pub create_tenant : Tenant → Db F → Result Tenant × Db F
  create_tenant t db =
      if has_tenant t.id db
      then (err no_rows, db)
      else (ok t, record db { tenants = t ∷ db.tenants })

  -- `GetTenant`
  unfoldable pub get_tenant : ℕ → Db F → Result Tenant × Db F
  get_tenant id db = (one (find (λ t. t.id == id) db.tenants), db)

  -- `ListTenants`
  unfoldable pub list_tenants : Db F → Result (List Tenant) × Db F
  list_tenants db = (ok (sort_by (λ s t. ltb s.created_at t.created_at) db.tenants), db)

  -- `CreateAccount`, with the two unique keys and the reference to the tenant.
  unfoldable pub create_account : Account → Db F → Result Account × Db F
  create_account a db =
      if any
        (λ b. b.id == a.id || (b.type == a.type && b.platform_identifier == a.platform_identifier))
        db.accounts
      then (err unique_violation, db)
      else if has_tenant a.tenant_id db
      then (ok a, record db { accounts = a ∷ db.accounts })
      else (err foreign_key_violation, db)

  -- `GetAccountForTenant`
  unfoldable pub get_account_for_tenant : ℕ → ℕ → Db F → Result Account × Db F
  get_account_for_tenant id tenant_id db = (one (find (is_account id tenant_id) db.accounts), db)

  -- The accounts of a tenant, the newest first.
  abbrev pub accounts_of : ℕ → Db F → List Account
  accounts_of tenant_id db =
      sort_by (λ a b. ltb b.created_at a.created_at)
        (keep (λ a. a.tenant_id == tenant_id) db.accounts)

  -- `ListAccountsForTenant`
  unfoldable pub list_accounts_for_tenant : ℕ → Db F → Result (List Account) × Db F
  list_accounts_for_tenant tenant_id db = (ok (accounts_of tenant_id db), db)

  abbrev pub id_of : Option (Channel F) → Option ℕ
  id_of none = none
  id_of (some c) = some c.id

  -- `ListAccountsWithRoutingForTenant`: each account with the channel of its inbound link of the highest
  -- priority.
  unfoldable pub list_accounts_with_routing_for_tenant :
      ℕ → Db F → Result (List (Account × Option ℕ)) × Db F
  list_accounts_with_routing_for_tenant tenant_id db =
      (ok (map (λ a. (a, id_of (inbound_channel a.id db))) (accounts_of tenant_id db)), db)

  -- `LookupAccount`
  unfoldable pub lookup_account : Text → Text → Db F → Result Account × Db F
  lookup_account type platform_identifier db = (
    one (
        find
          (λ a.
            a.type == type
            && a.platform_identifier == platform_identifier
            && a.status == codes "active")
          db.accounts),
    db,
  )

  -- `UpdateAccount`
  unfoldable pub update_account : ℕ → ℕ → AccountChange → Db F → Result Account × Db F
  update_account id tenant_id change db = elim (find (is_account id tenant_id) db.accounts) [
    | none ↦ (err no_rows, db)
    | some a ↦ (
      ok (changed_account change a),
      record db {
        accounts = set_where (is_account id tenant_id) (changed_account change) db.accounts;
      },
    )
  ]

  -- A link, a contact's endpoint or a message refers to the account.
  abbrev pub refers_to_account : ℕ → Db F → Bool
  refers_to_account id db =
      any (λ l. l.account_id == id) db.links
      || any (λ e. e.account_id == id) db.endpoints
      || any (λ m. m.account_id == some id) db.messages

  -- `DeleteAccount`, with the number of rows that it deletes.
  unfoldable pub delete_account : ℕ → ℕ → Db F → Result ℕ × Db F
  delete_account id tenant_id db =
      if any (is_account id tenant_id) db.accounts
      then if refers_to_account id db then (err foreign_key_violation, db) else (
        ok 1,
        record db { accounts = keep (λ a. not (is_account id tenant_id a)) db.accounts },
      )
      else (ok 0, db)
