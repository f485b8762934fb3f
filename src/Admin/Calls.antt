-- ===== src/Admin/Calls.antt =====
-- A call of an administrative service, and a sequence of calls.
use fieldwatchai_comms_openk.Prelude.{ℕ, List, [], ◌∷◌}
use fieldwatchai_comms_openk.Policy.Float.{Float64}
use fieldwatchai_comms_openk.World.{M, ◌>>=◌, ◌>>◌, pure}
use fieldwatchai_comms_openk.Admin.{Deps}
use fieldwatchai_comms_openk.Admin.Accounts.{
  TenantInput, AccountInput, AccountUpdate, new_tenant, new_account, change_account, remove_account,
}
use fieldwatchai_comms_openk.Admin.Channels.{
  LinkInput, ChannelInput, ChannelUpdate, new_channel, change_channel, link, unlink,
}

-- The calls that write, with the ids and the tenant of their paths.
pub data Call : Type 0 where
  create_tenant : TenantInput → Call
  create_account : AccountInput → Call
  update_account : ℕ → ℕ → AccountUpdate → Call
  delete_account : ℕ → ℕ → Call
  create_channel : ChannelInput → Call
  update_channel : ℕ → ℕ → ChannelUpdate → Call
  link_account : LinkInput → Call
  unlink_account : ℕ → ℕ → ℕ → Call

module _ (f : Float64) (d : Deps f) where
  abbrev dropped : {A : Type 0} → M f.F A → M f.F (Unit {0})
  dropped m = do a ← m; pure tt

  -- One call, without its result.
  unfoldable pub serve : Call → M f.F (Unit {0})
  serve (create_tenant in_) = dropped (new_tenant f d in_)
  serve (create_account in_) = dropped (new_account f d in_)
  serve (update_account id tenant_id in_) = dropped (change_account f d id tenant_id in_)
  serve (delete_account id tenant_id) = dropped (remove_account f d id tenant_id)
  serve (create_channel in_) = dropped (new_channel f d in_)
  serve (update_channel id tenant_id in_) = dropped (change_channel f d id tenant_id in_)
  serve (link_account in_) = dropped (link f d in_)
  serve (unlink_account channel_id account_id tenant_id) =
      dropped (unlink f d channel_id account_id tenant_id)

  -- The calls, one after the other.
  unfoldable pub serve_all : List Call → M f.F (Unit {0})
  serve_all [] = pure tt
  serve_all (c ∷ calls) = do serve c; serve_all calls
