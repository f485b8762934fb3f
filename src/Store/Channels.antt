-- ===== src/Store/Channels.antt =====
-- The statements of channels.sql.go that the administrative services run.
use fieldwatchai_comms_openk.Prelude.{
  ℕ, Bool, not, ◌&&◌, Option, none, some, List, ◌∷◌, any, find, keep, ltb, ◌==◌, comparable_nat,
  if◌then◌else◌,
}
use fieldwatchai_comms_openk.Store.{
  Text, Account, Channel, ChannelAccount, Db, no_rows, unique_violation, foreign_key_violation,
  Result, ok, err,
}
use fieldwatchai_comms_openk.Store.Select.{one, sort_by, set_where, join}
use fieldwatchai_comms_openk.Store.Accounts.{has_tenant}

-- `UpdateChannelParams` less the ids; `none` leaves a column as it is.
pub record ChannelChange (F : Type 0) : Type 0 where
  pub name : Option Text
  pub parser_config : Option (Option (List Text × Text))
  pub workflow_url : Option Text
  pub reply_policy : Option Text
  pub confidence_thresholds : Option (Option (Option F × Option F))
  pub echo_back_enabled : Option Bool
  pub recall_window_seconds : Option ℕ

-- SQL `COALESCE`
abbrev pub coalesce : {A : Type 0} → Option A → A → A
coalesce none a = a
coalesce (some b) a = b

abbrev pub coalesce_text : Option Text → Option Text → Option Text
coalesce_text none a = a
coalesce_text (some b) a = some b

-- The channel and the account are those of the link.
abbrev pub same_pair : ChannelAccount → ChannelAccount → Bool
same_pair l k = k.channel_id == l.channel_id && k.account_id == l.account_id

abbrev pub its_account : ChannelAccount → Account → Bool
its_account l a = a.id == l.account_id

abbrev pub is_link : ℕ → ℕ → ChannelAccount → Bool
is_link channel_id account_id l = l.channel_id == channel_id && l.account_id == account_id

module _ {F : Type 0} where
  -- `id = $1 AND tenant_id = $2`
  abbrev pub is_channel : ℕ → ℕ → Channel F → Bool
  is_channel id tenant_id c = c.id == id && c.tenant_id == tenant_id

  unfoldable pub changed_channel : ChannelChange F → Channel F → Channel F
  changed_channel change c = record c {
    name = coalesce change.name c.name;
    parser_config = coalesce change.parser_config c.parser_config;
    workflow_url = coalesce_text change.workflow_url c.workflow_url;
    reply_policy = coalesce change.reply_policy c.reply_policy;
    confidence_thresholds = coalesce change.confidence_thresholds c.confidence_thresholds;
    echo_back_enabled = coalesce change.echo_back_enabled c.echo_back_enabled;
    recall_window_seconds = coalesce change.recall_window_seconds c.recall_window_seconds;
  }

  -- `CreateChannel`
  unfoldable pub create_channel : Channel F → Db F → Result (Channel F) × Db F
  create_channel c db =
      if any (λ d. d.id == c.id) db.channels
      then (err unique_violation, db)
      else if has_tenant c.tenant_id db
      then (ok c, record db { channels = c ∷ db.channels })
      else (err foreign_key_violation, db)

  -- `GetChannelForTenant`
  unfoldable pub get_channel_for_tenant : ℕ → ℕ → Db F → Result (Channel F) × Db F
  get_channel_for_tenant id tenant_id db = (one (find (is_channel id tenant_id) db.channels), db)

  -- `ListChannelsForTenant`
  unfoldable pub list_channels_for_tenant : ℕ → Db F → Result (List (Channel F)) × Db F
  list_channels_for_tenant tenant_id db = (
    ok (
        sort_by (λ c d. ltb c.created_at d.created_at)
          (keep (λ c. c.tenant_id == tenant_id) db.channels)),
    db,
  )

  -- `UpdateChannel`
  unfoldable pub update_channel : ℕ → ℕ → ChannelChange F → Db F → Result (Channel F) × Db F
  update_channel id tenant_id change db = elim (find (is_channel id tenant_id) db.channels) [
    | none ↦ (err no_rows, db)
    | some c ↦ (
      ok (changed_channel change c),
      record db {
        channels = set_where (is_channel id tenant_id) (changed_channel change) db.channels;
      },
    )
  ]

  -- `LinkAccountToChannel`: a link of the pair is changed, or the link is added; both must exist.
  unfoldable pub link_account_to_channel : ChannelAccount → Db F → Result ChannelAccount × Db F
  link_account_to_channel l db =
      if any (λ c. c.id == l.channel_id) db.channels && any (λ a. a.id == l.account_id) db.accounts
      then if any (same_pair l) db.links
        then (ok l, record db { links = set_where (same_pair l) (λ k. l) db.links })
        else (ok l, record db { links = l ∷ db.links })
      else (err foreign_key_violation, db)

  -- `ListAccountLinksForChannel`
  unfoldable pub list_account_links_for_channel :
      ℕ → Db F → Result (List (ChannelAccount × Account)) × Db F
  list_account_links_for_channel channel_id db = (
    ok (
        sort_by (λ r s. ltb s.0.priority r.0.priority)
          (join its_account (keep (λ l. l.channel_id == channel_id) db.links) db.accounts)),
    db,
  )

  -- `UnlinkAccountFromChannel`, with the number of rows that it deletes.
  unfoldable pub unlink_account_from_channel : ℕ → ℕ → Db F → Result ℕ × Db F
  unlink_account_from_channel channel_id account_id db =
      if any (is_link channel_id account_id) db.links
      then (ok 1, record db { links = keep (λ l. not (is_link channel_id account_id l)) db.links })
      else (ok 0, db)
