-- ===== src/Admin/Routes.antt =====
-- Where the administration lets inbound traffic go.
use fieldwatchai_comms_openk.Prelude.{
  ◌≡◌, sym, ap, ◌∙◌, some, List, [], ◌∷◌, arith, In, In-All, ==_eq, comparable_nat,
}
use fieldwatchai_comms_openk.Policy.Float.{Float64}
use fieldwatchai_comms_openk.Store.{Account, Channel, Db}
use fieldwatchai_comms_openk.Store.Queries.{inbound_channel}
use fieldwatchai_comms_openk.Store.Lookup.{IsRoute, inbound_channel_found}
use fieldwatchai_comms_openk.World.{World, M, ◌>>=◌, pure}
use fieldwatchai_comms_openk.World.Triple.{pure-Triple, bind-Triple, then-Triple}
use fieldwatchai_comms_openk.Admin.{Deps}
use fieldwatchai_comms_openk.Admin.Accounts.{
  new_tenant, new_account, change_account, remove_account,
}
use fieldwatchai_comms_openk.Admin.Channels.{new_channel, change_channel, link, unlink}
use fieldwatchai_comms_openk.Admin.Calls.{
  Call, create_tenant, create_account, update_account, delete_account, create_channel,
  update_channel, link_account, unlink_account, serve, serve_all,
}
use fieldwatchai_comms_openk.Admin.Rows.{Distinct-In}
use fieldwatchai_comms_openk.Admin.Sound.{Joined, IsConfigured, IsSound}
use fieldwatchai_comms_openk.Admin.Keeping.{Sound, Keeps}
use fieldwatchai_comms_openk.Admin.AccountsKept.{
  new_tenant-Keeps, new_account-Keeps, change_account-Keeps, remove_account-Keeps,
}
use fieldwatchai_comms_openk.Admin.ChannelsKept.{
  new_channel-Keeps, change_channel-Keeps, link-Keeps, unlink-Keeps,
}

-- The account and the channel of a route in sound tables.
route_lem :
    (f : Float64) (db : Db f.F) (a : Account) (c : Channel f.F)
    → IsSound f db
    → In a db.accounts
    → IsRoute a.id db c
    → (c.tenant_id ≡ a.tenant_id) × IsConfigured f c
route_lem f db a c s i r =
    let j = In-All (Joined db) r.link db.links r.link_row s.joined in
    let mine : r.link.account_id ≡ a.id =
      ==_eq r.link.account_id a.id (ground (arith, r.for_inbound)) in
    let same_channel : j.channel ≡ c =
      Distinct-In (λ k. k.id) j.channel c db.channels s.channel_ids j.channel_row r.channel_row
        (j.channel_id ∙ r.joined) in
    let same_account : j.account ≡ a =
      Distinct-In (λ k. k.id) j.account a db.accounts s.account_ids j.account_row i
        (j.account_id ∙ mine) in
    (
      sym (ap (λ (k : Channel f.F). k.tenant_id) same_channel)
          ∙ (j.tenant ∙ ap (λ (k : Account). k.tenant_id) same_account),
      In-All (IsConfigured f) c db.channels r.channel_row s.configured,
    )

module _ (f : Float64) (d : Deps f) where
  dropped-Keeps : {A : Type 0} (m : M f.F A) → Keeps f d m → Keeps f d (m >>= (λ a. pure tt))
  dropped-Keeps m h =
      bind-Triple (λ r. Sound f d) m (λ a. pure tt) h (λ a. pure-Triple tt (λ db jobs s. s))

  serve-Keeps : (call : Call) → Keeps f d (serve f d call)
  unfolding serve
  serve-Keeps (create_tenant in_) = dropped-Keeps (new_tenant f d in_) (new_tenant-Keeps f d in_)
  serve-Keeps (create_account in_) = dropped-Keeps (new_account f d in_) (new_account-Keeps f d in_)
  serve-Keeps (update_account id t in_) =
      dropped-Keeps (change_account f d id t in_) (change_account-Keeps f d id t in_)
  serve-Keeps (delete_account id t) =
      dropped-Keeps (remove_account f d id t) (remove_account-Keeps f d id t)
  serve-Keeps (create_channel in_) = dropped-Keeps (new_channel f d in_) (new_channel-Keeps f d in_)
  serve-Keeps (update_channel id t in_) =
      dropped-Keeps (change_channel f d id t in_) (change_channel-Keeps f d id t in_)
  serve-Keeps (link_account in_) = dropped-Keeps (link f d in_) (link-Keeps f d in_)
  serve-Keeps (unlink_account c a t) = dropped-Keeps (unlink f d c a t) (unlink-Keeps f d c a t)

  serve_all-Keeps : (calls : List Call) → Keeps f d (serve_all f d calls)
  unfolding serve_all
  serve_all-Keeps [] = pure-Triple tt (λ db jobs s. s)
  serve_all-Keeps (c ∷ calls) =
      then-Triple (Sound f d) (serve f d c) (serve_all f d calls) (serve-Keeps c)
        (serve_all-Keeps calls)

  -- Let tenants, accounts, channels and links be written by any sequence of calls of the services, from
  -- sound tables such as empty ones, whichever statements and encryptions fail. Then the tables are
  -- sound: the ids of channels and of accounts are unique, and every link joins a channel and an
  -- account that exist and belong to one tenant. And if an account of theirs has a channel for its
  -- inbound messages, that channel is of the account's tenant, its parser mode is one that ingest knows,
  -- and its thresholds lie between 0 and 1 with the medium one not above the high one.
  pub serve_all-routes :
      (calls : List Call) (w : World f.F)
      → IsSound f w.db
      → let db = (serve_all f d calls w).1.db in
        IsSound f db
        × ((a : Account) (c : Channel f.F)
            → In a db.accounts
            → inbound_channel a.id db ≡ some c
            → (c.tenant_id ≡ a.tenant_id) × IsConfigured f c)
  serve_all-routes calls w s =
      let v = (serve_all f d calls w).1 in
      let sound = (serve_all-Keeps calls).at w s in
      (sound, λ a c i e. route_lem f v.db a c sound i (inbound_channel_found a.id v.db c e))
