-- ===== src/Store/Samples.antt =====
-- A small database for the tests: tenant 1 has a Telegram account on one channel, and one contact.
use fieldwatchai_comms_openk.Prelude.{ℕ, true, false, none, some, [], ◌∷◌, codes}
use fieldwatchai_comms_openk.Policy.{routed}
use fieldwatchai_comms_openk.Store.{
  Tenant, Account, Channel, ChannelAccount, Contact, ContactEndpoint, Message, Db, inbound, null,
}
use fieldwatchai_comms_openk.World.{World}

abbrev pub tenant : Tenant
tenant = record {
  id = 1;
  name = codes "Acme";
  plan = codes "open-core";
  created_at = 0;
  settings = codes "{}";
}

abbrev pub account : Account
account = record {
  id = 7;
  tenant_id = 1;
  type = codes "telegram";
  owner_type = codes "tenant";
  label = codes "Bot";
  platform_identifier = codes "bot";
  credentials_encrypted = codes "key";
  capabilities = [];
  status = codes "active";
  created_at = 0;
}

abbrev pub channel : Channel ℕ
channel = record {
  id = 4;
  tenant_id = 1;
  name = codes "field";
  parser_config = none;
  workflow_url = some (codes "http://hub");
  reply_policy = [];
  confidence_thresholds = none;
  echo_back_enabled = true;
  recall_window_seconds = 120;
  audit_retention_years = 7;
  created_at = 0;
}

abbrev pub link : ChannelAccount
link = record {
  channel_id = 4;
  account_id = 7;
  direction = codes "both";
  priority = 0;
  routing_filter = codes "{}";
}

abbrev pub contact : Contact
contact = record {
  id = 5;
  tenant_id = 1;
  short_id = codes "42";
  display_name = codes "Anna";
  aoi_id = none;
  role = none;
  default_channel_id = none;
  status = codes "active";
  metadata = codes "{}";
  created_at = 0;
  updated_at = 0;
}

abbrev pub endpoint : ContactEndpoint
endpoint = record {
  id = 6;
  contact_id = 5;
  channel_id = 4;
  account_id = 7;
  endpoint = codes "anna";
  priority = 0;
  capabilities = codes "outbound" ∷ [];
}

-- A routed message that no consumer has acknowledged.
abbrev pub message : ℕ → ℕ → Message ℕ
message id received_at = record {
  id = id;
  tenant_id = 1;
  account_id = some 7;
  channel_id = some 4;
  direction = inbound;
  sender_contact_id = some 5;
  recipient_contact_id = none;
  sender_endpoint = some (codes "anna");
  body_text = codes "here";
  body_attachments = none;
  body_location = none;
  parsed = none;
  policy_action = some routed;
  workflow_fired = false;
  in_reply_to_message_id = none;
  platform_message_id = codes "m";
  raw_payload = null;
  received_at = received_at;
  processed_at = none;
}

abbrev pub db : Db ℕ
db = record {
  messages = message 2 500 ∷ message 1 400 ∷ [];
  tenants = tenant ∷ [];
  accounts = account ∷ [];
  channels = channel ∷ [];
  links = link ∷ [];
  contacts = contact ∷ [];
  endpoints = endpoint ∷ [];
}

abbrev pub world : World ℕ
world = record { db = db; faults = []; drawn = 0; jobs = []; sends = []; forwards = [] }
