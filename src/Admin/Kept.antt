-- ===== src/Admin/Kept.antt =====
-- Every statement of the tenants and accounts services keeps the tables sound.
use fieldwatchai_comms_openk.Prelude.{
  ℕ, ◌≡◌, ◌≢◌, inl, inr, refl, sym, ap, ◌∙◌, subst, Bool, true, false, not, ◌&&◌, ◌||◌, Option,
  none, some, List, [], ◌∷◌, arith, keep, any, find, All, All-map, In, ◌==◌, ==_eq, ==_refl,
  comparable_nat, comparable_list, if◌then◌else◌, Bool-cases,
}
use fieldwatchai_comms_openk.Policy.Float.{Float64}
use fieldwatchai_comms_openk.Store.{
  Tenant, Account, Channel, ChannelAccount, Db, no_rows, unique_violation, foreign_key_violation,
  Result, ok, err,
}
use fieldwatchai_comms_openk.Store.Select.{set_where}
use fieldwatchai_comms_openk.Store.Accounts.{
  AccountChange, changed_account, is_account, has_tenant, create_tenant, create_account,
  update_account, refers_to_account, delete_account,
}
use fieldwatchai_comms_openk.Admin.Rows.{
  new_key, any_or, Distinct-keep, Distinct-map, mapped-In, kept-In, any-none,
}
use fieldwatchai_comms_openk.Admin.Sound.{Joined, still-Joined, IsSound}

module _ {F : Type 0} (db db' : Db F) where
  -- The links stay joined where only accounts, or only channels, change.
  pub accounts_moved :
      db'.channels ≡ db.channels
      → ((l : ChannelAccount)
          → In l db.links
          → (a : Account) → In a db.accounts
          → a.id ≡ l.account_id
          → (a' : Account) × In a' db'.accounts × (a'.id ≡ a.id) × (a'.tenant_id ≡ a.tenant_id))
      → (ls : List ChannelAccount) → ((l : ChannelAccount) → In l ls → In l db.links)
      → All (Joined db) ls
      → All (Joined db') ls
  accounts_moved e h [] k j = tt
  accounts_moved e h (l ∷ ls) k j = (
    still-Joined db db' l (λ c i. (c, subst (In c) (sym e) i, refl, refl)) (h l (k l (inl refl)))
        j.0,
    accounts_moved e h ls (λ m i. k m (inr i)) j.1,
  )

  pub channels_moved :
      db'.accounts ≡ db.accounts
      → ((c : Channel F)
          → In c db.channels
          → (c' : Channel F) × In c' db'.channels × (c'.id ≡ c.id) × (c'.tenant_id ≡ c.tenant_id))
      → (ls : List ChannelAccount) → All (Joined db) ls
      → All (Joined db') ls
  channels_moved e h ls j =
      All-map (Joined db) (Joined db') ls
        (λ l k. still-Joined db db' l h (λ a i q. (a, subst (In a) (sym e) i, refl, refl)) k) j

module _ (f : Float64) where
  pub create_tenant-IsSound :
      (t : Tenant) (db : Db f.F) → IsSound f db → IsSound f (create_tenant t db).1
  unfolding create_tenant
  create_tenant-IsSound t db s = by_test (has_tenant t.id db)
    where
      by_test :
          (b : Bool)
          → let r : Result Tenant × Db f.F =
              if b then (err no_rows, db) else (ok t, record db { tenants = t ∷ db.tenants }) in
            IsSound f r.1
      by_test true = s
      by_test false = record {
        channel_ids = s.channel_ids;
        account_ids = s.account_ids;
        joined = channels_moved db _ refl (λ c i. (c, i, refl, refl)) db.links s.joined;
        configured = s.configured;
      }

  pub create_account-IsSound :
      (a : Account) (db : Db f.F) → IsSound f db → IsSound f (create_account a db).1
  unfolding create_account
  create_account-IsSound a db s = by_tests _ (has_tenant a.tenant_id db) refl
    where
      by_tests :
          (b c : Bool)
          → any
              (λ b.
                b.id == a.id
                || (b.type == a.type && b.platform_identifier == a.platform_identifier))
              db.accounts
            ≡ b
          → let r : Result Account × Db f.F =
              if b
              then (err unique_violation, db)
              else if c
              then (ok a, record db { accounts = a ∷ db.accounts })
              else (err foreign_key_violation, db) in
            IsSound f r.1
      by_tests true c e = s
      by_tests false false e = s
      by_tests false true e = record {
        channel_ids = s.channel_ids;
        account_ids =
            (new_key (λ b. b.id) a.id db.accounts (any_or _ _ db.accounts e), s.account_ids);
        joined =
            accounts_moved db _ refl (λ l k b i q. (b, inr i, refl, refl)) db.links (λ l i. i)
              s.joined;
        configured = s.configured;
      }

  pub update_account-IsSound :
      (id tenant_id : ℕ) (change : AccountChange) (db : Db f.F)
      → IsSound f db
      → IsSound f (update_account id tenant_id change db).1
  unfolding update_account changed_account
  update_account-IsSound id tenant_id change db s =
      by_row (find (is_account id tenant_id) db.accounts)
    where
      set : Account → Account
      set a = if is_account id tenant_id a then changed_account change a else a

      set_id : (a : Account) (b : Bool) → (if b then changed_account change a else a).id ≡ a.id
      set_id a true = refl
      set_id a false = refl

      set_tenant :
          (a : Account) (b : Bool)
          → (if b then changed_account change a else a).tenant_id ≡ a.tenant_id
      set_tenant a true = refl
      set_tenant a false = refl

      by_row :
          (o : Option Account)
          → let r : Result Account × Db f.F = elim o [
            | none ↦ (err no_rows, db)
            | some a ↦ (
              ok (changed_account change a),
              record db {
                accounts = set_where (is_account id tenant_id) (changed_account change) db.accounts;
              },
            )
          ] in
            IsSound f r.1
      by_row none = s
      by_row (some a) = record {
        channel_ids = s.channel_ids;
        account_ids =
            Distinct-map (λ a. a.id) set (λ a. set_id a (is_account id tenant_id a)) db.accounts
              s.account_ids;
        joined =
            accounts_moved db _ refl
              (λ l k a i q. (
                set a,
                mapped-In set a db.accounts i,
                set_id a (is_account id tenant_id a),
                set_tenant a (is_account id tenant_id a),
              ))
              db.links (λ l i. i) s.joined;
        configured = s.configured;
      }

  pub delete_account-IsSound :
      (id tenant_id : ℕ) (db : Db f.F) → IsSound f db → IsSound f (delete_account id tenant_id db).1
  unfolding delete_account
  delete_account-IsSound id tenant_id db s =
      by_tests (any (is_account id tenant_id) db.accounts) (refers_to_account id db) refl
    where
      other : (a : Account) → a.id ≢ id → not (is_account id tenant_id a) ≡ true
      other a n = elim (Bool-cases (a.id == id)) [
        | inl e ↦ absurd (n (==_eq a.id id e))
        | inr e ↦ ground (arith, e)
      ]

      unreferred :
          refers_to_account id db ≡ false → (l : ChannelAccount) → In l db.links → l.account_id ≢ id
      unreferred e l i q =
          let none_refers = any-none (λ l. l.account_id == id) l db.links i (ground (arith, e)) in
          let refers = ap (λ n. n == id) q ∙ ==_refl id in cc (none_refers, refers)

      by_tests :
          (b c : Bool)
          → refers_to_account id db ≡ c
          → let r : Result ℕ × Db f.F =
              if b
              then if c then (err foreign_key_violation, db) else (
                ok 1,
                record db { accounts = keep (λ a. not (is_account id tenant_id a)) db.accounts },
              )
              else (ok 0, db) in
            IsSound f r.1
      by_tests false c e = s
      by_tests true true e = s
      by_tests true false e = record {
        channel_ids = s.channel_ids;
        account_ids = Distinct-keep (λ a. a.id) _ db.accounts s.account_ids;
        joined =
            accounts_moved db _ refl
              (λ l k a i q. (
                a,
                kept-In _ a db.accounts i (other a (λ z. unreferred e l k (sym q ∙ z))),
                refl,
                refl,
              ))
              db.links (λ l i. i) s.joined;
        configured = s.configured;
      }
