-- ===== src/Store/Queries.antt =====
-- The statements of messages.sql.go, accounts.sql.go and channels.sql.go that the services run.
use fieldwatchai_comms_openk.Prelude.{
  ℕ, Bool, true, false, ◌&&◌, ◌||◌, Option, none, some, List, [], ◌∷◌,
}
use fieldwatchai_comms_openk.Prelude.{
  keep, any, find, leb, ◌==◌, comparable_nat, comparable_list, comparable_option, if◌then◌else◌,
  codes,
}
use fieldwatchai_comms_openk.Policy.{Action, echo_back, recalled, routed, execute}
use fieldwatchai_comms_openk.Store.{Contact}
use fieldwatchai_comms_openk.Store.Select.{one, top, join}
use fieldwatchai_comms_openk.Store.{Text, Direction, inbound, outbound}
use fieldwatchai_comms_openk.Store.{
  Message, Account, Channel, ChannelAccount, Db, no_rows, unique_violation, Result, ok, err,
}

abbrev pub is_inbound : Direction → Bool
is_inbound inbound = true
is_inbound outbound = false

abbrev pub is_echo : Option Action → Bool
is_echo (some echo_back) = true
is_echo _ = false

-- `policy_action IN ('routed', 'execute')`
abbrev pub is_forwarded : Option Action → Bool
is_forwarded (some routed) = true
is_forwarded (some execute) = true
is_forwarded _ = false

-- SQL `a = b`, which does not hold of NULL.
abbrev pub sql_eq : Option Text → Option Text → Bool
sql_eq none _ = false
sql_eq (some a) none = false
sql_eq (some a) (some b) = a == b

-- `direction IN ('inbound', 'both')`
abbrev pub is_inbound_link : ℕ → ChannelAccount → Bool
is_inbound_link account_id l =
    l.account_id == account_id && (l.direction == codes "inbound" || l.direction == codes "both")

module _ {F : Type 0} where
  -- `(account_id, platform_message_id)` are those given.
  unfoldable pub has_key : ℕ → Text → Message F → Bool
  has_key account_id platform_message_id m =
      m.account_id == some account_id && m.platform_message_id == platform_message_id

  abbrev pub has_id : ℕ → Message F → Bool
  has_id id m = m.id == id

  abbrev pub holds_key : Message F → List (Message F) → Bool
  holds_key m messages = elim m.account_id [
    | none ↦ false
    | some a ↦ any (has_key a m.platform_message_id) messages
  ]

  -- `CreateInboundMessage`: a row with the key exists, and nothing is done and no row returned; or
  -- the row is inserted.
  unfoldable pub create_inbound_message : Message F → Db F → Result ℕ × Db F
  create_inbound_message m db =
      if holds_key m db.messages
      then (err no_rows, db)
      else if any (has_id m.id) db.messages
      then (err unique_violation, db)
      else (ok m.id, record db { messages = m ∷ db.messages })

  -- `CreateOutboundMessage`
  unfoldable pub create_outbound_message : Message F → Db F → Result ℕ × Db F
  create_outbound_message m db =
      if holds_key m db.messages || any (has_id m.id) db.messages
      then (err unique_violation, db)
      else (ok m.id, record db { messages = m ∷ db.messages })

  -- `GetMessageIDByPlatformID`
  unfoldable pub get_message_id_by_platform_id : ℕ → Text → Db F → Result ℕ × Db F
  get_message_id_by_platform_id account_id platform_message_id db =
      elim (find (has_key account_id platform_message_id) db.messages) [
        | none ↦ (err no_rows, db)
        | some m ↦ (ok m.id, db)
      ]

  -- The `WHERE` of `FindRecentEchoForSender`.
  unfoldable pub is_recent_echo : ℕ → Option Text → ℕ → Message F → Bool
  is_recent_echo account_id sender_endpoint cutoff m =
      m.account_id == some account_id
      && sql_eq m.sender_endpoint sender_endpoint
      && is_inbound m.direction
      && is_echo m.policy_action
      && leb cutoff m.received_at

  -- `ORDER BY received_at DESC LIMIT 1`
  unfoldable pub latest : List (Message F) → Option (Message F)
  latest messages = top (λ m. m.received_at) messages

  -- `FindRecentEchoForSender`
  unfoldable pub find_recent_echo_for_sender :
      ℕ → Option Text → ℕ → Db F → Result (Message F) × Db F
  find_recent_echo_for_sender account_id sender_endpoint cutoff db =
      (one (latest (keep (is_recent_echo account_id sender_endpoint cutoff) db.messages)), db)

  -- `UPDATE messages SET … WHERE …`
  unfoldable pub update :
      (Message F → Bool) → (Message F → Message F) → List (Message F) → List (Message F)
  update p f [] = []
  update p f (m ∷ messages) = (if p m then f m else m) ∷ update p f messages

  -- `MarkMessageRecalled`
  unfoldable pub mark_message_recalled : ℕ → Db F → Result (Unit {0}) × Db F
  mark_message_recalled id db = (
    ok tt,
    record db {
      messages = update (has_id id) (λ m. record m { policy_action = some recalled }) db.messages;
    },
  )

  -- `MarkWorkflowFired`
  unfoldable pub mark_workflow_fired : ℕ → Db F → Result (Unit {0}) × Db F
  mark_workflow_fired id db = (
    ok tt,
    record db {
      messages = update (has_id id) (λ m. record m { workflow_fired = true }) db.messages;
    },
  )

  -- `GetAccountByID`
  unfoldable pub get_account_by_id : ℕ → Db F → Result Account × Db F
  get_account_by_id id db = (one (find (λ a. a.id == id) db.accounts), db)

  abbrev pub of_channel : ChannelAccount → Channel F → Bool
  of_channel l c = l.channel_id == c.id

  -- The channels that an account is linked to for inbound traffic, with their links.
  unfoldable pub inbound_links : ℕ → Db F → List (ChannelAccount × Channel F)
  inbound_links account_id db =
      join of_channel (keep (is_inbound_link account_id) db.links) db.channels

  abbrev pub channel_in : Option (ChannelAccount × Channel F) → Option (Channel F)
  channel_in none = none
  channel_in (some (l, c)) = some c

  -- The link of the highest priority decides.
  unfoldable pub inbound_channel : ℕ → Db F → Option (Channel F)
  inbound_channel account_id db = channel_in (top (λ r. r.0.priority) (inbound_links account_id db))

  -- `GetInboundChannelForAccount`
  unfoldable pub get_inbound_channel_for_account : ℕ → Db F → Result (Channel F) × Db F
  get_inbound_channel_for_account account_id db = (one (inbound_channel account_id db), db)

  -- `ListContactShortIDs`
  unfoldable pub list_contact_short_ids : ℕ → Db F → Result (List Contact) × Db F
  list_contact_short_ids tenant_id db = (ok (keep (λ c. c.tenant_id == tenant_id) db.contacts), db)
