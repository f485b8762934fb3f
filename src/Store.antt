-- ===== src/Store.antt =====
-- The database of channels-go as its queries see it (internal/queries/goqueries, migrations): the
-- rows, the tables, and the actions of a service on them.
pub mod Select
pub mod Queries
pub mod Lookup
pub mod Keys
pub mod Erasing
pub mod Unfired
pub mod Outbound
pub mod Samples
pub mod Accounts
pub mod Channels
pub mod Contacts
use fieldwatchai_comms_openk.Prelude.{
  ℕ, ◌+◌, Bool, true, false, Option, none, some, List, [], ◌∷◌, ◌++◌,
}
use fieldwatchai_comms_openk.Policy.{Action, ShortIdMatch, TargetKind}
use fieldwatchai_comms_openk.Resolver.{Alt}

abbrev pub Text : Type 0
Text = List ℕ

pub data Direction : Type 0 where
  inbound outbound : Direction

-- `parsedDoc`, the JSON of `messages.parsed`, with the mark that an erasure adds. `F` is float64.
pub record Parsed (F : Type 0) : Type 0 where
  pub ok : Bool
  pub short_id : Text
  pub command : Text
  pub known_command : Bool
  pub target : Text
  pub target_kind : TargetKind
  pub payload : Text
  pub short_id_match : Option ShortIdMatch
  pub contact_id : Option ℕ
  pub alternatives : List Alt
  pub confidence : F
  pub recall : Bool
  pub passthrough : Bool
  pub redacted : Bool

-- `messages.raw_payload`: the provider's envelope, JSON `null`, `{}`, or the mark of an erasure.
pub data Raw : Type 0 where
  null empty redacted : Raw
  envelope : Text → Raw

-- A PostGIS point: `x` is the longitude.
pub record Point : Type 0 where
  pub x : Text
  pub y : Text

-- `Message`, a row of the table `messages`. Ids are numbers, times are seconds.
pub record Message (F : Type 0) : Type 0 where
  pub id : ℕ
  pub tenant_id : ℕ
  pub account_id : Option ℕ
  pub channel_id : Option ℕ
  pub direction : Direction
  pub sender_contact_id : Option ℕ
  pub recipient_contact_id : Option ℕ
  pub sender_endpoint : Option Text
  pub body_text : Text
  pub body_attachments : Option Text
  pub body_location : Option Point
  pub parsed : Option (Parsed F)
  pub policy_action : Option Action
  pub workflow_fired : Bool
  pub in_reply_to_message_id : Option ℕ
  pub platform_message_id : Text
  pub raw_payload : Raw
  pub received_at : ℕ
  pub processed_at : Option ℕ

-- `Tenant`; `settings` is its JSON text.
pub record Tenant : Type 0 where
  pub id : ℕ
  pub name : Text
  pub plan : Text
  pub created_at : ℕ
  pub settings : Text

-- `Account`
pub record Account : Type 0 where
  pub id : ℕ
  pub tenant_id : ℕ
  pub type : Text
  pub owner_type : Text
  pub label : Text
  pub platform_identifier : Text
  pub credentials_encrypted : Text
  pub capabilities : List Text
  pub status : Text
  pub created_at : ℕ

-- `Channel`. The JSON columns are what the services decode of them, `none` where they do not decode:
-- the commands and the mode, and the two thresholds. A window that is not positive is 0.
pub record Channel (F : Type 0) : Type 0 where
  pub id : ℕ
  pub tenant_id : ℕ
  pub name : Text
  pub parser_config : Option (List Text × Text)
  pub workflow_url : Option Text
  pub reply_policy : Text
  pub confidence_thresholds : Option (Option F × Option F)
  pub echo_back_enabled : Bool
  pub recall_window_seconds : ℕ
  pub audit_retention_years : ℕ
  pub created_at : ℕ

-- `ChannelAccount`, the link of an account to a channel. Priorities, which are only compared, are
-- counted from the least int32.
pub record ChannelAccount : Type 0 where
  pub channel_id : ℕ
  pub account_id : ℕ
  pub direction : Text
  pub priority : ℕ
  pub routing_filter : Text

-- `Contact`
pub record Contact : Type 0 where
  pub id : ℕ
  pub tenant_id : ℕ
  pub short_id : Text
  pub display_name : Text
  pub aoi_id : Option Text
  pub role : Option Text
  pub default_channel_id : Option ℕ
  pub status : Text
  pub metadata : Text
  pub created_at : ℕ
  pub updated_at : ℕ

-- `ContactEndpoint`, less the two columns that no service reads.
pub record ContactEndpoint : Type 0 where
  pub id : ℕ
  pub contact_id : ℕ
  pub channel_id : ℕ
  pub account_id : ℕ
  pub endpoint : Text
  pub priority : ℕ
  pub capabilities : List Text

-- The tables.
pub record Db (F : Type 0) : Type 0 where
  pub messages : List (Message F)
  pub tenants : List Tenant
  pub accounts : List Account
  pub channels : List (Channel F)
  pub links : List ChannelAccount
  pub contacts : List Contact
  pub endpoints : List ContactEndpoint

-- The errors of a query: no row, a violated key, or a failure of the database.
pub data DbError : Type 0 where
  no_rows unique_violation foreign_key_violation unavailable : DbError

pub data Result {ℓ} (A : Type ℓ) : Type ℓ where
  ok : A → Result A
  err : DbError → Result A
