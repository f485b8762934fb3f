-- ===== src/Replay/Examples.antt =====
-- A replay of two messages, and the theorems at it.
use fieldwatchai_comms_openk.Prelude.{
  ℕ, ◌≡◌, ◌≢◌, ◌≤◌, refl, true, false, none, some, [], ◌∷◌, ◌+◌, In, map, take, codes, ◌||◌, ◌&&◌,
  leb, is_upper, is_lower, to_upper, to_lower,
}
use fieldwatchai_comms_openk.Canonical
use fieldwatchai_comms_openk.Canonical.{Attachment, Location}
use fieldwatchai_comms_openk.Parser.{Unicode}
use fieldwatchai_comms_openk.Policy.{no_target, routed}
use fieldwatchai_comms_openk.Policy.Float.{millionths}
use fieldwatchai_comms_openk.Store.{Text, Parsed}
use fieldwatchai_comms_openk.Store.Select.{insert_by, sort_by, join}
use fieldwatchai_comms_openk.Store.Queries.{mark_workflow_fired, update}
use fieldwatchai_comms_openk.Store.Unfired.{is_unfired, unfired_rows, list_unfired_forwards}
use fieldwatchai_comms_openk.Store.Samples.{account, world}
use fieldwatchai_comms_openk.World.{World, fails, query, answer}
use fieldwatchai_comms_openk.Ingest.Base.{
  Deps, ChannelCtx, message_row, build_forward, attachments_json,
}
use fieldwatchai_comms_openk.Replay.{
  Reading, Request, refused, invalid, already_running, done, unmarked, limit_of, acquire, release,
  delivered, replay_one, told, replay_rows, run_listed, run_rows, run_acquired, run,
  rebuild_forward, stored_json,
}
use fieldwatchai_comms_openk.Replay.Effect.{Ran}
use fieldwatchai_comms_openk.Replay.Guard.{run-Ran}
use fieldwatchai_comms_openk.Replay.Rebuild.{rebuild_forward-message_row}
use fieldwatchai_comms_openk.Replay.Turns.{
  Turns, Run, start, count, enter, next, ended, runs-Exclusive,
}

-- A server in UTC+1, whose database puts a blank before each JSON text and keeps three characters
-- of a coordinate.
abbrev reading : Reading
reading = record {
  coordinates = λ p. take 3 p.x ∷ take 3 p.y ∷ [];
  json_text = λ s. b' ' ∷ s;
  zoned_time = λ t. codes "+01:00";
}

abbrev request : Request
request = record { tenant_id = 1; channel_id = none; since = 0; limit = 0; dry_run = false }

-- The second mark fails.
abbrev failing : World ℕ
failing = record world { faults = false ∷ false ∷ false ∷ false ∷ true ∷ [] }

-- Both are delivered, the oldest first, and the second is reported as not marked.
run_two :
    ((run reading [] request failing).0.0
      ≡ done (record {
        candidates = 2;
        replayed = 1;
        failed = 1;
        dry_run = false;
        failures = record { message_id = 2; error = unmarked } ∷ [];
        message_ids = 1 ∷ 2 ∷ [];
      }))
    × (map (λ s. s.1.message_id) (run reading [] request failing).1.forwards ≡ 1 ∷ 2 ∷ [])
unfolding run run_acquired acquire release run_rows run_listed limit_of query fails answer
    list_unfired_forwards unfired_rows is_unfired insert_by sort_by join replay_rows replay_one
    delivered told mark_workflow_fired update rebuild_forward
run_two = (refl, refl)

run-Ran_example :
    let r = run reading [] request failing in
    (r.0.1 ≡ [])
    × Ran reading request failing r.0.0 r.1
    × ((request.tenant_id ≡ 0) → r.0.0 ≡ refused invalid)
    × (request.tenant_id ≢ 0
        → request.dry_run ≡ false
        → In request.tenant_id []
        → r.0.0 ≡ refused already_running)
run-Ran_example = run-Ran reading [] request failing

abbrev one_run : Turns
one_run = record { running = 1 ∷ []; at_work = 1 ∷ [] }

reached : Run start one_run
unfolding acquire
reached = next (enter 1 (1 ∷ []) refl) ended

runs-Exclusive_example : count 1 one_run.at_work ≤ 1
runs-Exclusive_example = runs-Exclusive one_run reached 1

abbrev ascii : Unicode
ascii = record {
  letter = λ r. is_upper r || is_lower r;
  digit = λ r. leb b'0' r && leb r b'9';
  upper = to_upper;
  lower = to_lower;
  fold = to_lower;
}

abbrev deps : Deps millionths
deps = record {
  unicode = ascii;
  parser_cfg = record { commands = codes "STATUS" ∷ [] };
  thresholds = record { high = 900000; medium = 500000 };
  has_forwarder = true;
  registered = λ type. true;
  platform_id = λ send. codes "sent";
  ids = λ n. n + 100;
  now = 1000;
  parse_uuid = λ s. none;
  show_uuid = λ n. codes "id";
  parse_time = λ s. none;
  utc_time = λ t. codes "utc";
  marshal_attachments = λ atts. codes "[{}]";
  quote = λ s. s;
}

abbrev context : ChannelCtx millionths
context = record {
  id = some 4;
  parser_cfg = deps.parser_cfg;
  thresholds = deps.thresholds;
  recall_seconds = 120;
  workflow_url = codes "http://hub";
  mode = [];
}

abbrev sighting : Canonical.Message
sighting = record {
  sender_endpoint = codes "anna";
  body = record {
    text = some (codes "42 STATUS");
    attachments = [];
    location = some (record { lat = codes "50.1"; lng = codes "8.6" });
  };
  meta = record {
    platform_message_id = codes "m1";
    received_at = [];
    account_id = codes "acc";
    raw_payload = [];
  };
}

abbrev parsed : Parsed ℕ
parsed = record {
  ok = true;
  short_id = codes "42";
  command = codes "STATUS";
  known_command = true;
  target = [];
  target_kind = no_target;
  payload = [];
  short_id_match = none;
  contact_id = some 5;
  alternatives = [];
  confidence = 1000000;
  recall = false;
  passthrough = false;
  redacted = false;
}

abbrev short : Text → Text
short s = take 3 s

rebuild_forward-message_row_example :
    rebuild_forward reading (record {
      message = message_row millionths deps account account.id sighting context parsed routed 9;
      account_type = account.type;
      workflow_url = codes "http://hub";
    })
    ≡ record (build_forward millionths deps account context sighting parsed 9) {
      attachments = stored_json reading (attachments_json millionths deps []);
      location = some (record { lat = codes "50."; lng = codes "8.6" });
      received_at = codes "+01:00";
    }
rebuild_forward-message_row_example =
    rebuild_forward-message_row millionths deps reading account context sighting parsed routed 9
      (codes "http://hub") short (λ e. cc e) (λ a atts e. cc e) (λ l e. refl)
