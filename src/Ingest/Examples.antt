-- ===== src/Ingest/Examples.antt =====
-- Runs of `Ingest`, and the theorems at concrete messages.
use fieldwatchai_comms_openk.Prelude.{
  ℕ, ◌≡◌, refl, true, false, Option, none, some, [], ◌∷◌, ◌+◌, ◌||◌, ◌&&◌, leb, length, codes, any,
  is_upper, is_lower, to_upper, to_lower, is_space,
}
use fieldwatchai_comms_openk.Canonical
use fieldwatchai_comms_openk.Parser.{Unicode, equal_fold, trim_space, trim_left, trim_right}
use fieldwatchai_comms_openk.Policy.{echo_back, recalled}
use fieldwatchai_comms_openk.Policy.Float.{millionths}
use fieldwatchai_comms_openk.Store.{Text, Message, Account, inbound, null, ok}
use fieldwatchai_comms_openk.Store.Queries.{
  update, has_key, get_account_by_id, get_inbound_channel_for_account, create_inbound_message,
  find_recent_echo_for_sender, mark_message_recalled, latest, is_recent_echo,
}
use fieldwatchai_comms_openk.Store.Select.{top, join}
use fieldwatchai_comms_openk.Store.Queries.{inbound_channel, inbound_links}
use fieldwatchai_comms_openk.World.{World, fails, answer, query, new_id, spawn}
use fieldwatchai_comms_openk.Ingest.Base.{
  Deps, resolve_channel, message_row, recall_row, text_or_null, deref,
}
use fieldwatchai_comms_openk.Ingest.Steps.{
  receipt, ingest, ingest_for, is_recall, handle_recall, store_recall, persist, finish_recall,
}
use fieldwatchai_comms_openk.World.{Job, dispatch}
use fieldwatchai_comms_openk.Ingest.Jobs.{run_job}
use fieldwatchai_comms_openk.Ingest.Work.{Worked, run_job-Worked}
use fieldwatchai_comms_openk.Ingest.Effect.{Effect}
use fieldwatchai_comms_openk.Ingest.Total.{Succeeds, calm, ingest_total}
use fieldwatchai_comms_openk.Ingest.Repeat.{ingest_known, ingest_twice}

abbrev ascii : Unicode
ascii = record {
  letter = λ r. is_upper r || is_lower r;
  digit = λ r. leb b'0' r && leb r b'9';
  upper = to_upper;
  lower = to_lower;
  fold = to_lower;
}

abbrev parse_one : Text → Option ℕ
parse_one [] = none
parse_one (c ∷ s) = some 7

abbrev deps : Deps millionths
deps = record {
  unicode = ascii;
  parser_cfg = record { commands = codes "STATUS" ∷ [] };
  thresholds = record { high = 900000; medium = 500000 };
  has_forwarder = true;
  registered = λ type. true;
  platform_id = λ send. codes "sent";
  ids = λ n. n + 100;
  now = 1000;
  parse_uuid = parse_one;
  show_uuid = λ n. codes "id";
  parse_time = λ s. none;
  utc_time = λ t. codes "utc";
  marshal_attachments = λ atts. [];
  quote = λ s. s;
}

abbrev account : Account
account = record {
  id = 7;
  tenant_id = 1;
  type = codes "telegram";
  owner_type = codes "tenant";
  label = codes "Bot";
  platform_identifier = codes "bot";
  credentials_encrypted = [];
  capabilities = [];
  status = codes "active";
  created_at = 0;
}

-- A message of the sender that was echoed a minute ago.
abbrev echoed : Message ℕ
echoed = record {
  id = 3;
  tenant_id = 1;
  account_id = some 7;
  channel_id = none;
  direction = inbound;
  sender_contact_id = none;
  recipient_contact_id = none;
  sender_endpoint = some (codes "anna");
  body_text = codes "42 DAMAGE";
  body_attachments = none;
  body_location = none;
  parsed = none;
  policy_action = some echo_back;
  workflow_fired = false;
  in_reply_to_message_id = none;
  platform_message_id = codes "m1";
  raw_payload = null;
  received_at = 940;
  processed_at = none;
}

abbrev message : Text → Text → Canonical.Message
message id text = record {
  sender_endpoint = codes "anna";
  body = record { text = some text; attachments = []; location = none };
  meta = record {
    platform_message_id = id;
    received_at = [];
    account_id = codes "acc";
    raw_payload = [];
  };
}

abbrev world : World ℕ
world = record {
  db = record {
    messages = echoed ∷ [];
    tenants = [];
    accounts = account ∷ [];
    channels = [];
    links = [];
    contacts = [];
    endpoints = [];
  };
  faults = [];
  drawn = 0;
  jobs = [];
  sends = [];
  forwards = [];
}

abbrev oops : Canonical.Message
oops = message (codes "m2") (codes "oops ")

-- The recall is stored as `recalled`, one acknowledgement is started, and the old message is marked.
recall_run :
    ((ingest millionths deps oops world).0 ≡ receipt 100 false recalled)
    × (length (ingest millionths deps oops world).1.jobs ≡ 1)
    × (length (ingest millionths deps oops world).1.db.messages ≡ 2)
unfolding ingest ingest_for get_account_by_id query fails answer resolve_channel
    get_inbound_channel_for_account is_recall equal_fold trim_space trim_left trim_right is_space
    to_lower handle_recall find_recent_echo_for_sender latest is_recent_echo store_recall persist
    new_id create_inbound_message recall_row message_row has_key finish_recall mark_message_recalled
    spawn deref text_or_null update top join inbound_channel inbound_links
recall_run = (refl, refl, refl)

ingest_known_example :
    ((ingest millionths deps (message (codes "m1") (codes "hello")) world).1.db ≡ world.db)
    × ((ingest millionths deps (message (codes "m1") (codes "hello")) world).1.jobs ≡ world.jobs)
unfolding has_key
ingest_known_example =
    ingest_known millionths deps (message (codes "m1") (codes "hello")) 7 world refl refl

abbrev after : World ℕ
after = record (ingest millionths deps oops world).1 { faults = true ∷ [] }

ingest_twice_example :
    ((ingest millionths deps oops after).1.db ≡ (ingest millionths deps oops world).1.db)
    × ((ingest millionths deps oops after).1.jobs ≡ (ingest millionths deps oops world).1.jobs)
ingest_twice_example =
    ingest_twice millionths deps oops 7 world
      (record { message_id = 100; is_replay = false; action = recalled }) (true ∷ []) refl
      recall_run.0

account_found : (get_account_by_id 7 world.db).0 ≡ ok account
unfolding get_account_by_id
account_found = refl

ingest_total_example :
    let r = ingest millionths deps oops (calm millionths deps world) in
    Succeeds millionths deps r × (any (has_key 7 (codes "m2")) r.1.db.messages ≡ true)
ingest_total_example =
    ingest_total millionths deps oops 7 account world refl account_found refl refl

abbrev reply : Job
reply =
    dispatch (record account { credentials_encrypted = codes "key" }) 3 (codes "anna") (codes "ok")
      recalled

run_job-Worked_example : Worked millionths deps reply world (run_job millionths deps reply world).1
run_job-Worked_example = run_job-Worked millionths deps reply world
