-- ===== src/Outbound/Api.antt =====
-- channels-go/internal/outboundapi/outboundapi.go: messages to users, as replies or of their own.
use fieldwatchai_comms_openk.Prelude.{
  ℕ, false, Option, none, some, [], ◌∷◌, ◌++◌, ◌==◌, comparable_nat, comparable_list, if◌then◌else◌,
}
use fieldwatchai_comms_openk.Policy.{sent}
use fieldwatchai_comms_openk.Store.{
  Text, Raw, null, empty, outbound, Message, Account, ContactEndpoint, Contact, ChannelAccount,
  Channel, DbError, no_rows, unavailable, unique_violation, foreign_key_violation, Result, ok, err,
}
use fieldwatchai_comms_openk.Store.Queries.{get_account_by_id, create_outbound_message}
use fieldwatchai_comms_openk.Store.Outbound.{
  get_message_for_outbound, get_outbound_endpoint_for_contact, get_outbound_account_for_channel,
}
use fieldwatchai_comms_openk.World.{M, ◌>>=◌, pure, query, fails, new_id, Outgoing, plain, Send}
use fieldwatchai_comms_openk.Outbound.{
  Mailer, Registry, Adapter, get, handed, tokenless, email_ses, build_reply, build_new,
}

-- `Service`, less the store: the adapters, the mails, the id that a platform gives a sent message,
-- the new ids and the time of the call.
pub record Service : Type 0 where
  pub registry : Registry
  pub mailer : Mailer
  pub platform_id : Send → Text
  pub ids : ℕ → ℕ
  pub show_uuid : ℕ → Text
  pub now : ℕ

-- `ErrBadRequest`, `ErrNotFound`, and every other error.
pub data Failure : Type 0 where
  bad_request not_found internal : Failure

-- `Result`
pub record Receipt : Type 0 where
  pub message_id : ℕ
  pub dispatched_to : Text

pub data Outcome : Type 0 where
  done : Receipt → Outcome
  failed : Failure → Outcome

-- `target`
pub record Target : Type 0 where
  pub tenant_id : ℕ
  pub account_id : ℕ
  pub endpoint : Text
  pub contact_id : Option ℕ
  pub in_reply_to : Option ℕ
  pub raw_payload : Raw

-- `pgx.ErrNoRows` is not found.
unfoldable pub missing : DbError → Failure
missing no_rows = not_found
missing unique_violation = internal
missing foreign_key_violation = internal
missing unavailable = internal

module _ (s : Service) where
  -- The message that `send` builds.
  unfoldable pub message_for : Account → Target → Text → Text → Outgoing
  message_for acct tgt text subject =
      if acct.type == email_ses
      then elim tgt.in_reply_to [
        | none ↦ build_new s.mailer acct.platform_identifier tgt.endpoint subject text
        | some id ↦ build_reply s.mailer acct.platform_identifier tgt.endpoint text tgt.raw_payload
      ]
      else plain tgt.endpoint text

-- The result of `CreateOutboundMessage`.
unfoldable pub recorded : Target → Result ℕ → Outcome
recorded tgt (err e) = failed internal
recorded tgt (ok id) = done (record { message_id = id; dispatched_to = tgt.endpoint })

abbrev pub contact_target : ℕ → ContactEndpoint → Contact → Target
contact_target contact_id e c = record {
  tenant_id = c.tenant_id;
  account_id = e.account_id;
  endpoint = e.endpoint;
  contact_id = some contact_id;
  in_reply_to = none;
  raw_payload = null;
}

module _ {F : Type 0} where
  -- The target of a reply: the account and the sender of the message, if it has both.
  unfoldable pub reply_target : ℕ → Message F → Option Target
  reply_target in_reply_to row = elim row.account_id [
    | none ↦ none
    | some account_id ↦ elim row.sender_endpoint [
      | none ↦ none
      | some [] ↦ none
      | some (c ∷ endpoint) ↦ some (record {
        tenant_id = row.tenant_id;
        account_id = account_id;
        endpoint = c ∷ endpoint;
        contact_id = row.sender_contact_id;
        in_reply_to = some in_reply_to;
        raw_payload = row.raw_payload;
      })
    ]
  ]

  abbrev pub endpoint_target : ChannelAccount → Channel F → Text → Target
  endpoint_target l c endpoint = record {
    tenant_id = c.tenant_id;
    account_id = l.account_id;
    endpoint = endpoint;
    contact_id = none;
    in_reply_to = none;
    raw_payload = null;
  }

module _ {F : Type 0} (s : Service) where
  -- The parameters of `CreateOutboundMessage`.
  unfoldable pub sent_row : Target → Text → Text → ℕ → Message F
  sent_row tgt text platform_message_id id = record {
    id = id;
    tenant_id = tgt.tenant_id;
    account_id = some tgt.account_id;
    channel_id = none;
    direction = outbound;
    sender_contact_id = none;
    recipient_contact_id = tgt.contact_id;
    sender_endpoint = none;
    body_text = text;
    body_attachments = none;
    body_location = none;
    parsed = none;
    policy_action = some sent;
    workflow_fired = false;
    in_reply_to_message_id = tgt.in_reply_to;
    platform_message_id = platform_message_id;
    raw_payload = empty;
    received_at = s.now;
    processed_at = some s.now;
  }

  -- The adapter takes the message; a new id stands for one that the platform does not give.
  unfoldable pub transmit : Send → M F Text
  transmit out w =
      let sent_w = record w { sends = w.sends ++ out ∷ [] } in
      elim (s.platform_id out) [
        | [] ↦ let (id, w') = new_id s.ids sent_w in (s.show_uuid id, w')
        | c ∷ id ↦ (c ∷ id, sent_w)
      ]

  unfoldable pub record_sent : Target → Text → Send → M F Outcome
  record_sent tgt text out = do
    platform_message_id ← transmit out
    id ← new_id s.ids
    r ← query (create_outbound_message (sent_row tgt text platform_message_id id))
    pure (recorded tgt r)

  -- `Dispatch` with the adapter, and what follows it.
  unfoldable pub with_adapter : Account → Target → Text → Text → Option Adapter → M F Outcome
  with_adapter acct tgt text subject none = pure (failed internal)
  with_adapter acct tgt text subject (some adapter) = do
    refused ← fails
    if refused
        then pure (failed internal)
        else record_sent tgt text (record {
          account_id = acct.id;
          message = handed adapter (message_for s acct tgt text subject);
        })

  unfoldable pub dispatch_to : Account → Target → Text → Text → M F Outcome
  dispatch_to acct tgt text subject = with_adapter acct tgt text subject (get acct.type s.registry)

  -- `send` with an account that needs credentials: if there are none, or they do not decrypt, it ends.
  unfoldable pub with_credentials : Account → Target → Text → Text → Text → M F Outcome
  with_credentials acct tgt text subject [] = pure (failed internal)
  with_credentials acct tgt text subject (c ∷ credentials) = do
    undecryptable ← fails
    if undecryptable then pure (failed internal) else dispatch_to acct tgt text subject

  unfoldable pub send_from : Account → Target → Text → Text → M F Outcome
  send_from acct tgt text subject =
      if tokenless acct.type
      then dispatch_to acct tgt text subject
      else with_credentials acct tgt text subject acct.credentials_encrypted

  unfoldable pub with_account : Target → Text → Text → Result Account → M F Outcome
  with_account tgt text subject (err e) = pure (failed (missing e))
  with_account tgt text subject (ok acct) = send_from acct tgt text subject

  -- `send`
  unfoldable pub send : Target → Text → Text → M F Outcome
  send tgt text subject = do
    r ← query (get_account_by_id tgt.account_id)
    with_account tgt text subject r

  unfoldable pub send_to : Text → Text → Option Target → M F Outcome
  send_to text subject none = pure (failed not_found)
  send_to text subject (some tgt) = send tgt text subject

  unfoldable pub with_message : ℕ → Text → Result (Message F) → M F Outcome
  with_message in_reply_to text (err e) = pure (failed (missing e))
  with_message in_reply_to text (ok row) = send_to text [] (reply_target in_reply_to row)

  -- `ReplyToMessage`
  unfoldable pub reply_to_message : ℕ → Text → M F Outcome
  reply_to_message in_reply_to [] = pure (failed bad_request)
  reply_to_message in_reply_to (c ∷ text) = do
    r ← query (get_message_for_outbound in_reply_to)
    with_message in_reply_to (c ∷ text) r

  unfoldable pub with_endpoint : ℕ → Text → Text → Result (ContactEndpoint × Contact) → M F Outcome
  with_endpoint contact_id text subject (err e) = pure (failed (missing e))
  with_endpoint contact_id text subject (ok (e, c)) =
      send (contact_target contact_id e c) text subject

  -- `SendToContact`
  unfoldable pub send_to_contact : ℕ → Option ℕ → Text → Text → M F Outcome
  send_to_contact contact_id channel_id [] subject = pure (failed bad_request)
  send_to_contact contact_id channel_id (c ∷ text) subject = do
    r ← query (get_outbound_endpoint_for_contact contact_id channel_id)
    with_endpoint contact_id (c ∷ text) subject r

  unfoldable pub with_outlet :
      Text → Text → Text → Result (ChannelAccount × Channel F) → M F Outcome
  with_outlet endpoint text subject (err e) = pure (failed (missing e))
  with_outlet endpoint text subject (ok (l, c)) = send (endpoint_target l c endpoint) text subject

  -- `SendToEndpoint`
  unfoldable pub send_to_endpoint : ℕ → Text → Text → Text → M F Outcome
  send_to_endpoint channel_id endpoint [] subject = pure (failed bad_request)
  send_to_endpoint channel_id [] (c ∷ text) subject = pure (failed bad_request)
  send_to_endpoint channel_id (d ∷ endpoint) (c ∷ text) subject = do
    r ← query (get_outbound_account_for_channel channel_id)
    with_outlet (d ∷ endpoint) (c ∷ text) subject r
