-- ===== src/Admin/AccountsKept.antt =====
-- The calls of the tenants and accounts services keep the tables sound.
use fieldwatchai_comms_openk.Prelude.{
  ℕ, not, ◌||◌, Option, none, some, [], ◌∷◌, ◌==◌, comparable_nat, if◌then◌else◌,
}
use fieldwatchai_comms_openk.Policy.Float.{Float64}
use fieldwatchai_comms_openk.Store.{
  Text, Tenant, no_rows, unique_violation, foreign_key_violation, unavailable, Account, Result, ok,
  err,
}
use fieldwatchai_comms_openk.World.{◌>>=◌, pure, query}
use fieldwatchai_comms_openk.World.Triple.{if-Triple}
use fieldwatchai_comms_openk.Store.Accounts.{
  AccountChange, create_tenant, get_tenant, create_account, get_account_for_tenant, update_account,
  delete_account,
}
use fieldwatchai_comms_openk.Admin.{Deps, invalid, internal, missing, done, failed}
use fieldwatchai_comms_openk.Parser.{trim_space}
use fieldwatchai_comms_openk.Admin.Accounts.{
  is_blank, member, or_else, plan_of, tenant_row, account_row, valid_plans, answered,
  answered_or_internal, removed, view_of, change_of, TenantInput, AccountInput, AccountUpdate,
  get_tenant_by_id, created_tenant, new_tenant, store_account, encrypt_and_store, new_account,
  store_change, encrypt_and_change, change_loaded, change_account, remove_account,
}
use fieldwatchai_comms_openk.Admin.Kept.{
  create_tenant-IsSound, create_account-IsSound, update_account-IsSound, delete_account-IsSound,
}
use fieldwatchai_comms_openk.Admin.Keeping.{
  Keeps, query-Keeps, new_id-Keeps, fails-Keeps, ask-Keeps, pure-Keeps,
}

module _ (f : Float64) (d : Deps f) where
  -- Each service call of tenants.go and accounts/service.go.
  created_tenant-Keeps : (id : ℕ) (r : Result Tenant) → Keeps f d (created_tenant f d id r)
  unfolding created_tenant get_tenant_by_id get_tenant
  created_tenant-Keeps id (ok t) = pure-Keeps f d (done t)
  created_tenant-Keeps id (err no_rows) =
      ask-Keeps f d (get_tenant id) (answered (λ t. t)) (λ db s. s)
  created_tenant-Keeps id (err unique_violation) = pure-Keeps f d (failed internal)
  created_tenant-Keeps id (err foreign_key_violation) = pure-Keeps f d (failed internal)
  created_tenant-Keeps id (err unavailable) = pure-Keeps f d (failed internal)

  pub new_tenant-Keeps : (in_ : TenantInput) → Keeps f d (new_tenant f d in_)
  unfolding new_tenant
  new_tenant-Keeps in_ =
      let row = λ (i : ℕ). tenant_row f d in_ (or_else in_.id i) in
      if-Triple (is_blank (trim_space in_.name) || not (member (plan_of f d in_) valid_plans)) _ _
        (λ e. pure-Keeps f d (failed invalid))
        (λ e.
          new_id-Keeps f d
            (λ i. query (create_tenant (row i)) >>= created_tenant f d (or_else in_.id i))
            (λ i.
              query-Keeps f d (create_tenant (row i)) (created_tenant f d (or_else in_.id i))
                (λ db s. create_tenant-IsSound f (row i) db s)
                (λ r. created_tenant-Keeps (or_else in_.id i) r)))

  store_account-Keeps :
      (in_ : AccountInput) (encrypted : Text) → Keeps f d (store_account f d in_ encrypted)
  unfolding store_account
  store_account-Keeps in_ encrypted =
      new_id-Keeps f d
        (λ i.
          query (create_account (account_row f d in_ encrypted i))
          >>= (λ r. pure (answered_or_internal view_of r)))
        (λ i.
          ask-Keeps f d (create_account (account_row f d in_ encrypted i))
            (answered_or_internal view_of)
            (λ db s. create_account-IsSound f (account_row f d in_ encrypted i) db s))

  encrypt_and_store-Keeps :
      (in_ : AccountInput) (c : Text) → Keeps f d (encrypt_and_store f d in_ c)
  unfolding encrypt_and_store
  encrypt_and_store-Keeps in_ [] = store_account-Keeps in_ []
  encrypt_and_store-Keeps in_ (c ∷ cs) =
      fails-Keeps f d
        (λ b. if b then pure (failed internal) else store_account f d in_ (d.encrypt (c ∷ cs)))
        (λ b.
          if-Triple b (pure (failed internal)) (store_account f d in_ (d.encrypt (c ∷ cs)))
            (λ e. pure-Keeps f d (failed internal))
            (λ e. store_account-Keeps in_ (d.encrypt (c ∷ cs))))

  pub new_account-Keeps : (in_ : AccountInput) → Keeps f d (new_account f d in_)
  unfolding new_account
  new_account-Keeps in_ =
      if-Triple
        (in_.tenant_id == 0
          || is_blank in_.type
          || is_blank in_.owner_type
          || is_blank in_.platform_identifier
          || is_blank in_.status)
        (pure (failed invalid)) (encrypt_and_store f d in_ in_.credentials)
        (λ e. pure-Keeps f d (failed invalid)) (λ e. encrypt_and_store-Keeps in_ in_.credentials)

  store_change-Keeps :
      (id t : ℕ) (change : AccountChange) → Keeps f d (store_change f d id t change)
  unfolding store_change
  store_change-Keeps id t change =
      ask-Keeps f d (update_account id t change) (answered_or_internal view_of)
        (λ db s. update_account-IsSound f id t change db s)

  encrypt_and_change-Keeps :
      (id t : ℕ) (in_ : AccountUpdate) (cur : Account) (c : Option Text)
      → Keeps f d (encrypt_and_change f d id t in_ cur c)
  unfolding encrypt_and_change
  encrypt_and_change-Keeps id t in_ cur none =
      store_change-Keeps id t (change_of f d in_ cur cur.credentials_encrypted)
  encrypt_and_change-Keeps id t in_ cur (some c) =
      let next = store_change f d id t (change_of f d in_ cur (d.encrypt c)) in
      fails-Keeps f d (λ b. if b then pure (failed internal) else next)
        (λ b.
          if-Triple b (pure (failed internal)) next (λ e. pure-Keeps f d (failed internal))
            (λ e. store_change-Keeps id t (change_of f d in_ cur (d.encrypt c))))

  change_loaded-Keeps :
      (id t : ℕ) (in_ : AccountUpdate) (r : Result Account)
      → Keeps f d (change_loaded f d id t in_ r)
  unfolding change_loaded
  change_loaded-Keeps id t in_ (err e) = pure-Keeps f d (failed (missing e))
  change_loaded-Keeps id t in_ (ok cur) = encrypt_and_change-Keeps id t in_ cur in_.credentials

  pub change_account-Keeps :
      (id t : ℕ) (in_ : AccountUpdate) → Keeps f d (change_account f d id t in_)
  unfolding change_account get_account_for_tenant
  change_account-Keeps id t in_ =
      query-Keeps f d (get_account_for_tenant id t) (change_loaded f d id t in_) (λ db s. s)
        (change_loaded-Keeps id t in_)

  pub remove_account-Keeps : (id t : ℕ) → Keeps f d (remove_account f d id t)
  unfolding remove_account
  remove_account-Keeps id t =
      ask-Keeps f d (delete_account id t) removed (λ db s. delete_account-IsSound f id t db s)
