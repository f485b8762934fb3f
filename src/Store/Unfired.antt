-- ===== src/Store/Unfired.antt =====
-- `ListUnfiredForwards` of messages.sql.go: the messages that should have reached a consumer.
use fieldwatchai_comms_openk.Prelude.{
  ℕ, Bool, true, false, not, ◌&&◌, Option, none, some, List, [], ◌∷◌, map, keep, take, ltb, leb,
  ◌==◌, comparable_nat, comparable_list, comparable_option,
}
use fieldwatchai_comms_openk.Store.{Text, Message, Account, Channel, Db, Result, ok}
use fieldwatchai_comms_openk.Store.Select.{join, sort_by}
use fieldwatchai_comms_openk.Store.Queries.{is_inbound, is_forwarded}

-- `ListUnfiredForwardsRow`: the message, the type of its account and the URL of its channel.
pub record UnfiredRow (F : Type 0) : Type 0 where
  pub message : Message F
  pub account_type : Text
  pub workflow_url : Text

-- `ListUnfiredForwardsParams`
pub record UnfiredParams : Type 0 where
  pub tenant_id : ℕ
  pub received_at : ℕ
  pub limit : ℕ
  pub channel_id : Option ℕ

abbrev pub url_of : Option Text → Text
url_of none = []
url_of (some url) = url

abbrev pub is_blank_url : Option Text → Bool
is_blank_url none = true
is_blank_url (some []) = true
is_blank_url (some (c ∷ url)) = false

abbrev pub in_channel : Option ℕ → Option ℕ → Bool
in_channel none c = true
in_channel (some i) c = c == some i

module _ {F : Type 0} where
  -- The conditions on the message.
  unfoldable pub is_unfired : UnfiredParams → Message F → Bool
  is_unfired p m =
      m.tenant_id == p.tenant_id
      && is_inbound m.direction
      && not m.workflow_fired
      && is_forwarded m.policy_action
      && leb p.received_at m.received_at
      && in_channel p.channel_id m.channel_id

  abbrev pub its_channel : Message F → Channel F → Bool
  its_channel m c = m.channel_id == some c.id && not (is_blank_url c.workflow_url)

  abbrev pub its_account : Message F × Channel F → Account → Bool
  its_account mc a = mc.0.account_id == some a.id

  abbrev row_of : (Message F × Channel F) × Account → UnfiredRow F
  row_of ((m, c), a) = record {
    message = m;
    account_type = a.type;
    workflow_url = url_of c.workflow_url;
  }

  -- The rows before `ORDER BY` and `LIMIT`.
  unfoldable pub unfired_rows : UnfiredParams → Db F → List (UnfiredRow F)
  unfired_rows p db = map row_of (
      join its_account (join its_channel (keep (is_unfired p) db.messages) db.channels) db.accounts)

  abbrev pub older : UnfiredRow F → UnfiredRow F → Bool
  older r s = ltb r.message.received_at s.message.received_at

  -- `ListUnfiredForwards`, the oldest first.
  unfoldable pub list_unfired_forwards : UnfiredParams → Db F → Result (List (UnfiredRow F)) × Db F
  list_unfired_forwards p db = (ok (take p.limit (sort_by older (unfired_rows p db))), db)
