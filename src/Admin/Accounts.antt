-- ===== src/Admin/Accounts.antt =====
-- channels-go/internal/tenants/tenants.go and internal/accounts/service.go.
use fieldwatchai_comms_openk.Prelude.{
  ℕ, Bool, true, false, not, ◌||◌, Option, none, some, List, [], ◌∷◌, map, any, ◌==◌,
  comparable_nat, comparable_list, codes, if◌then◌else◌,
}
use fieldwatchai_comms_openk.Parser.{trim_space}
use fieldwatchai_comms_openk.Policy.Float.{Float64}
use fieldwatchai_comms_openk.Store.{
  Text, Tenant, Account, no_rows, unique_violation, foreign_key_violation, unavailable, Result, ok,
  err,
}
use fieldwatchai_comms_openk.Store.Accounts.{
  AccountChange, create_tenant, get_tenant, list_tenants, create_account, get_account_for_tenant,
  list_accounts_for_tenant, list_accounts_with_routing_for_tenant, lookup_account, update_account,
  delete_account,
}
use fieldwatchai_comms_openk.World.{M, ◌>>=◌, pure, fails, query, new_id}
use fieldwatchai_comms_openk.Admin.{
  Deps, not_found, invalid, internal, Outcome, done, failed, missing,
}

abbrev pub is_blank : Text → Bool
is_blank [] = true
is_blank (c ∷ s) = false

-- `validPlans`
abbrev pub valid_plans : List Text
valid_plans = codes "starter" ∷ codes "pro" ∷ codes "enterprise" ∷ []

abbrev pub member : Text → List Text → Bool
member s texts = any (λ t. t == s) texts

abbrev pub or_text : Text → Text → Text
or_text [] t = t
or_text (c ∷ s) t = c ∷ s

-- `tenants.CreateInput`
pub record TenantInput : Type 0 where
  pub id : Option ℕ
  pub name : Text
  pub plan : Text
  pub settings : Text

-- The API view of an account, which has no credentials.
pub record AccountView : Type 0 where
  pub id : ℕ
  pub tenant_id : ℕ
  pub type : Text
  pub owner_type : Text
  pub label : Text
  pub platform_identifier : Text
  pub capabilities : List Text
  pub status : Text
  pub created_at : ℕ

-- `toAPI`
unfoldable pub view_of : Account → AccountView
view_of a = record {
  id = a.id;
  tenant_id = a.tenant_id;
  type = a.type;
  owner_type = a.owner_type;
  label = a.label;
  platform_identifier = a.platform_identifier;
  capabilities = a.capabilities;
  status = a.status;
  created_at = a.created_at;
}

-- `AccountWithRouting`
pub record RoutedAccount : Type 0 where
  pub account : AccountView
  pub inbound_channel_id : Option ℕ

-- `CreateInput`
pub record AccountInput : Type 0 where
  pub tenant_id : ℕ
  pub type : Text
  pub owner_type : Text
  pub label : Text
  pub platform_identifier : Text
  pub status : Text
  pub capabilities : List Text
  pub credentials : Text

-- `UpdateInput`
pub record AccountUpdate : Type 0 where
  pub label : Option Text
  pub status : Option Text
  pub capabilities : Option (List Text)
  pub credentials : Option Text

-- `LookupResult`
pub record LookupResult : Type 0 where
  pub account_id : ℕ
  pub tenant_id : ℕ

abbrev pub or_else : {A : Type 0} → Option A → A → A
or_else none a = a
or_else (some b) a = b

-- A result of a query as that of a method.
unfoldable pub answered : {A B : Type 0} → (A → B) → Result A → Outcome B
answered g (ok a) = done (g a)
answered g (err e) = failed (missing e)

-- The same where no rows are no special case.
unfoldable pub answered_or_internal : {A B : Type 0} → (A → B) → Result A → Outcome B
answered_or_internal g (ok a) = done (g a)
answered_or_internal g (err e) = failed internal

-- `DeleteAccount` and `UnlinkAccountFromChannel`: no row is not found.
unfoldable pub removed : Result ℕ → Outcome (Unit {0})
removed (err e) = failed internal
removed (ok n) = if n == 0 then failed not_found else done tt

-- `listenerToAccountType`
unfoldable pub account_type_of : Text → Text
account_type_of type = if type == codes "whatsapp-ultramsg" then codes "whatsapp" else type

module _ (f : Float64) (d : Deps f) where
  -- `tenants.Get`
  unfoldable pub get_tenant_by_id : ℕ → M f.F (Outcome Tenant)
  get_tenant_by_id id = do r ← query (get_tenant id); pure (answered (λ t. t) r)

  unfoldable pub created_tenant : ℕ → Result Tenant → M f.F (Outcome Tenant)
  created_tenant id (ok t) = pure (done t)
  created_tenant id (err no_rows) = get_tenant_by_id id
  created_tenant id (err unique_violation) = pure (failed internal)
  created_tenant id (err foreign_key_violation) = pure (failed internal)
  created_tenant id (err unavailable) = pure (failed internal)

  abbrev pub plan_of : TenantInput → Text
  plan_of in_ = or_text in_.plan (codes "starter")

  -- The parameters of `CreateTenant`.
  unfoldable pub tenant_row : TenantInput → ℕ → Tenant
  tenant_row in_ id = record {
    id = id;
    name = in_.name;
    plan = plan_of in_;
    created_at = d.now;
    settings = or_text in_.settings (codes "{}");
  }

  -- `tenants.Create`
  unfoldable pub new_tenant : TenantInput → M f.F (Outcome Tenant)
  new_tenant in_ =
      if is_blank (trim_space in_.name) || not (member (plan_of in_) valid_plans)
      then pure (failed invalid)
      else (do
        fresh ← new_id d.ids
        r ← query (create_tenant (tenant_row in_ (or_else in_.id fresh)))
        created_tenant (or_else in_.id fresh) r)

  -- `tenants.List`
  unfoldable pub list_all_tenants : M f.F (Outcome (List Tenant))
  list_all_tenants = do r ← query list_tenants; pure (answered_or_internal (λ rows. rows) r)

  -- The parameters of `CreateAccount`.
  unfoldable pub account_row : AccountInput → Text → ℕ → Account
  account_row in_ encrypted id = record {
    id = id;
    tenant_id = in_.tenant_id;
    type = in_.type;
    owner_type = in_.owner_type;
    label = in_.label;
    platform_identifier = in_.platform_identifier;
    credentials_encrypted = encrypted;
    capabilities = in_.capabilities;
    status = in_.status;
    created_at = d.now;
  }

  -- `Create` with the encrypted credentials.
  unfoldable pub store_account : AccountInput → Text → M f.F (Outcome AccountView)
  store_account in_ encrypted = do
    id ← new_id d.ids
    r ← query (create_account (account_row in_ encrypted id))
    pure (answered_or_internal view_of r)

  unfoldable pub encrypt_and_store : AccountInput → Text → M f.F (Outcome AccountView)
  encrypt_and_store in_ [] = store_account in_ []
  encrypt_and_store in_ (c ∷ credentials) = do
    unencrypted ← fails
    if unencrypted then pure (failed internal) else store_account in_ (d.encrypt (c ∷ credentials))

  -- `Create`
  unfoldable pub new_account : AccountInput → M f.F (Outcome AccountView)
  new_account in_ =
      if in_.tenant_id == 0
        || is_blank in_.type
        || is_blank in_.owner_type
        || is_blank in_.platform_identifier
        || is_blank in_.status
      then pure (failed invalid)
      else encrypt_and_store in_ in_.credentials

  -- `Get`
  unfoldable pub get_account : ℕ → ℕ → M f.F (Outcome AccountView)
  get_account id tenant_id = do
    r ← query (get_account_for_tenant id tenant_id)
    pure (answered view_of r)

  -- `List`
  unfoldable pub list_accounts : ℕ → M f.F (Outcome (List AccountView))
  list_accounts tenant_id = do
    r ← query (list_accounts_for_tenant tenant_id)
    pure (answered_or_internal (map view_of) r)

  -- `ListWithRouting`
  unfoldable pub list_with_routing : ℕ → M f.F (Outcome (List RoutedAccount))
  list_with_routing tenant_id = do
    r ← query (list_accounts_with_routing_for_tenant tenant_id)
    pure (
        answered_or_internal (map (λ p. record { account = view_of p.0; inbound_channel_id = p.1 }))
          r)

  unfoldable pub change_of : AccountUpdate → Account → Text → AccountChange
  change_of in_ cur encrypted = record {
    label = or_else in_.label cur.label;
    status = or_else in_.status cur.status;
    capabilities = or_else in_.capabilities cur.capabilities;
    credentials_encrypted = encrypted;
  }

  unfoldable pub store_change : ℕ → ℕ → AccountChange → M f.F (Outcome AccountView)
  store_change id tenant_id change = do
    r ← query (update_account id tenant_id change)
    pure (answered_or_internal view_of r)

  unfoldable pub encrypt_and_change :
      ℕ → ℕ → AccountUpdate → Account → Option Text → M f.F (Outcome AccountView)
  encrypt_and_change id tenant_id in_ cur none =
      store_change id tenant_id (change_of in_ cur cur.credentials_encrypted)
  encrypt_and_change id tenant_id in_ cur (some credentials) = do
    unencrypted ← fails
    if unencrypted
        then pure (failed internal)
        else store_change id tenant_id (change_of in_ cur (d.encrypt credentials))

  unfoldable pub change_loaded :
      ℕ → ℕ → AccountUpdate → Result Account → M f.F (Outcome AccountView)
  change_loaded id tenant_id in_ (err e) = pure (failed (missing e))
  change_loaded id tenant_id in_ (ok cur) = encrypt_and_change id tenant_id in_ cur in_.credentials

  -- `Update`
  unfoldable pub change_account : ℕ → ℕ → AccountUpdate → M f.F (Outcome AccountView)
  change_account id tenant_id in_ = do
    r ← query (get_account_for_tenant id tenant_id)
    change_loaded id tenant_id in_ r

  -- `Lookup`
  unfoldable pub lookup : Text → Text → M f.F (Outcome LookupResult)
  lookup type identifier = do
    r ← query (lookup_account (account_type_of type) identifier)
    pure (answered (λ a. record { account_id = a.id; tenant_id = a.tenant_id }) r)

  -- `Delete`
  unfoldable pub remove_account : ℕ → ℕ → M f.F (Outcome (Unit {0}))
  remove_account id tenant_id = do r ← query (delete_account id tenant_id); pure (removed r)
