-- ===== src/Ingest/Base.antt =====
-- The collaborators of the ingest service, the channel of a message, and the rows and payloads that
-- are made of it.
use fieldwatchai_comms_openk.Prelude.{
  ℕ, Bool, true, false, Option, none, some, List, [], ◌∷◌, ltb, ◌||◌,
}
use fieldwatchai_comms_openk.Prelude.{◌==◌, comparable_nat, comparable_list, if◌then◌else◌, codes}
use fieldwatchai_comms_openk.Canonical
use fieldwatchai_comms_openk.Canonical.{Location, Attachment}
use fieldwatchai_comms_openk.Parser.{Unicode, Config}
use fieldwatchai_comms_openk.Policy.{Action, no_target, Thresholds}
use fieldwatchai_comms_openk.Policy.Float.{Float64}
use fieldwatchai_comms_openk.Store.{
  Text, inbound, Parsed, Raw, null, envelope, Point, Message, Account, Channel, Result, ok, err,
}
use fieldwatchai_comms_openk.Store.Queries.{get_inbound_channel_for_account}
use fieldwatchai_comms_openk.World.{Send, M, ◌>>=◌, pure, query}
use fieldwatchai_comms_openk.Workflow.{Forward}

-- `Deps`, less the database, and the library functions that the service calls: `uuid.Parse`,
-- `uuid.UUID.String`, `time.Parse`, `UTC().Format` for RFC 3339, `json.Marshal` of attachments and `%q`. `ids` are the new ids,
-- `now` the time of the call, `registered` the account types with an adapter, and `platform_id` the
-- id that a platform gives a sent message.
pub record Deps (f : Float64) : Type 0 where
  pub unicode : Unicode
  pub parser_cfg : Config
  pub thresholds : Thresholds f
  pub has_forwarder : Bool
  pub registered : Text → Bool
  pub platform_id : Send → Text
  pub ids : ℕ → ℕ
  pub now : ℕ
  pub parse_uuid : Text → Option ℕ
  pub show_uuid : ℕ → Text
  pub parse_time : Text → Option ℕ
  pub utc_time : ℕ → Text
  pub marshal_attachments : List Attachment → Text
  pub quote : Text → Text

-- The errors of `Ingest`; `internal` is any that wraps a failed query.
pub data Failure : Type 0 where
  invalid_account account_not_found account_inactive internal : Failure

-- `Result`
pub record Receipt : Type 0 where
  pub message_id : ℕ
  pub is_replay : Bool
  pub action : Action

pub data Outcome : Type 0 where
  done : Receipt → Outcome
  failed : Failure → Outcome

-- `channelCtx`
pub record ChannelCtx (f : Float64) : Type 0 where
  pub id : Option ℕ
  pub parser_cfg : Config
  pub thresholds : Thresholds f
  pub recall_seconds : ℕ
  pub workflow_url : Text
  pub mode : Text

-- `defaultRecallSeconds`
abbrev pub default_recall_seconds : ℕ
default_recall_seconds = 120

-- `deref`
unfoldable pub deref : Option Text → Text
deref none = []
deref (some s) = s

-- `textOrNull`
unfoldable pub text_or_null : Text → Option Text
text_or_null [] = none
text_or_null (c ∷ s) = some (c ∷ s)

-- `rawOrNull`
unfoldable pub raw_or_null : Text → Raw
raw_or_null [] = null
raw_or_null (c ∷ s) = envelope (c ∷ s)

-- `ewktPoint`: longitude first.
unfoldable pub ewkt_point : Option Location → Option Point
ewkt_point none = none
ewkt_point (some l) = some (record { x = l.lng; y = l.lat })

-- `outbound.Platform`
unfoldable pub platform : Text → Text
platform type =
    if type == codes "whatsapp" || type == codes "whatsapp-twilio"
    then codes "whatsapp"
    else if type == codes "sms-twilio"
    then codes "sms"
    else if type == codes "email-ses"
    then codes "email"
    else type

module _ (f : Float64) (d : Deps f) where
  -- `attachmentsJSON`
  unfoldable pub attachments_json : List Attachment → Option Text
  attachments_json [] = none
  attachments_json (a ∷ atts) = some (d.marshal_attachments (a ∷ atts))

  -- `receivedAt`
  unfoldable pub received_at : Text → ℕ
  received_at raw = elim (d.parse_time raw) [ none ↦ d.now | some t ↦ t ]

  abbrev pub defaults : ChannelCtx f
  defaults = record {
    id = none;
    parser_cfg = d.parser_cfg;
    thresholds = d.thresholds;
    recall_seconds = default_recall_seconds;
    workflow_url = [];
    mode = [];
  }

  abbrev or_else : {A : Type 0} → Option A → A → A
  or_else none a = a
  or_else (some a) _ = a

  abbrev config_of : Option (List Text × Text) → Config
  config_of none = d.parser_cfg
  config_of (some ([], mode)) = d.parser_cfg
  config_of (some (c ∷ commands, mode)) = record { commands = c ∷ commands }

  abbrev mode_of : Option (List Text × Text) → Text
  mode_of none = []
  mode_of (some (commands, mode)) = mode

  abbrev thresholds_of : Option (Option f.F × Option f.F) → Thresholds f
  thresholds_of none = d.thresholds
  thresholds_of (some (high, medium)) = record {
    high = or_else high d.thresholds.high;
    medium = or_else medium d.thresholds.medium;
  }

  -- The configuration of a channel over the defaults.
  unfoldable pub channel_ctx : Channel f.F → ChannelCtx f
  channel_ctx row = record {
    id = some row.id;
    parser_cfg = config_of row.parser_config;
    thresholds = thresholds_of row.confidence_thresholds;
    recall_seconds =
        if ltb 0 row.recall_window_seconds
        then row.recall_window_seconds
        else default_recall_seconds;
    workflow_url = or_else row.workflow_url [];
    mode = mode_of row.parser_config;
  }

  abbrev pub ctx_of : Result (Channel f.F) → ChannelCtx f
  ctx_of (ok row) = channel_ctx row
  ctx_of (err e) = defaults

  -- `resolveChannel`
  unfoldable pub resolve_channel : ℕ → M f.F (ChannelCtx f)
  resolve_channel account_id = do
    r ← query (get_inbound_channel_for_account account_id)
    pure (ctx_of r)

  -- A `parsedDoc` with no field set but its kind and the empty alternatives.
  abbrev pub blank_doc : Parsed f.F
  blank_doc = record {
    ok = false;
    short_id = [];
    command = [];
    known_command = false;
    target = [];
    target_kind = no_target;
    payload = [];
    short_id_match = none;
    contact_id = none;
    alternatives = [];
    confidence = f.tenths 0;
    recall = false;
    passthrough = false;
    redacted = false;
  }

  -- The parameters of `CreateInboundMessage` for a routed message.
  unfoldable pub message_row :
      Account → ℕ → Canonical.Message → ChannelCtx f → Parsed f.F → Action → ℕ → Message f.F
  message_row acct account_id msg ch doc action id = record {
    id = id;
    tenant_id = acct.tenant_id;
    account_id = some account_id;
    channel_id = ch.id;
    direction = inbound;
    sender_contact_id = none;
    recipient_contact_id = none;
    sender_endpoint = text_or_null msg.sender_endpoint;
    body_text = deref msg.body.text;
    body_attachments = attachments_json msg.body.attachments;
    body_location = ewkt_point msg.body.location;
    parsed = some doc;
    policy_action = some action;
    workflow_fired = false;
    in_reply_to_message_id = none;
    platform_message_id = msg.meta.platform_message_id;
    raw_payload = raw_or_null msg.meta.raw_payload;
    received_at = received_at msg.meta.received_at;
    processed_at = some d.now;
  }

  -- Those for a recall: no channel, no attachments and no location.
  unfoldable pub recall_row : Account → ℕ → Canonical.Message → Action → ℕ → Message f.F
  unfolding message_row
  recall_row acct account_id msg action id =
      record (message_row acct account_id msg defaults (record blank_doc { recall = true }) action
        id) { body_attachments = none; body_location = none }

  -- `buildForward`
  unfoldable pub build_forward :
      Account → ChannelCtx f → Canonical.Message → Parsed f.F → ℕ → Forward
  build_forward acct ch msg doc id = record {
    message_id = id;
    tenant_id = acct.tenant_id;
    channel_id = ch.id;
    account_id = some acct.id;
    account_type = acct.type;
    platform = platform acct.type;
    contact_id = doc.contact_id;
    sender_endpoint = msg.sender_endpoint;
    command = doc.command;
    payload = doc.payload;
    text = deref msg.body.text;
    attachments = attachments_json msg.body.attachments;
    location = msg.body.location;
    received_at = d.utc_time (received_at msg.meta.received_at);
  }
