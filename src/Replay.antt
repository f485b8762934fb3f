-- ===== src/Replay.antt =====
-- channels-go/internal/replay/replay.go: the forwards that no consumer has acknowledged are built
-- again from the stored messages, and delivered.
pub mod Rebuild
pub mod Effect
pub mod Guard
pub mod Turns
mod Examples
use fieldwatchai_comms_openk.Prelude.{
  ℕ, suc, ◌+◌, Bool, true, false, not, Option, none, some, List, [], ◌∷◌, ◌++◌, length, keep, any,
  ltb, ◌==◌, comparable_nat, if◌then◌else◌,
}
use fieldwatchai_comms_openk.Canonical.{Location}
use fieldwatchai_comms_openk.Store.{Text, Parsed, Point, Message, Db, DbError, Result, ok, err}
use fieldwatchai_comms_openk.Store.Queries.{mark_workflow_fired}
use fieldwatchai_comms_openk.Store.Unfired.{UnfiredRow, UnfiredParams, list_unfired_forwards}
use fieldwatchai_comms_openk.Workflow.{Forward}
use fieldwatchai_comms_openk.World.{World, M, ◌>>=◌, pure, query, fails}
use fieldwatchai_comms_openk.Ingest.Base.{platform, deref}

-- `Request`; `since` is 0 for the zero time, and a limit that is not positive is 0.
pub record Request : Type 0 where
  pub tenant_id : ℕ
  pub channel_id : Option ℕ
  pub since : ℕ
  pub limit : ℕ
  pub dry_run : Bool

-- The errors of `replayOne`: the delivery failed, or it could not be marked.
pub data Cause : Type 0 where
  undelivered unmarked : Cause

-- `Failure`
pub record Failure : Type 0 where
  pub message_id : ℕ
  pub error : Cause

-- `Result`
pub record Summary : Type 0 where
  pub candidates : ℕ
  pub replayed : ℕ
  pub failed : ℕ
  pub dry_run : Bool
  pub failures : List Failure
  pub message_ids : List ℕ

-- The errors of `Run`.
pub data Refusal : Type 0 where
  invalid already_running : Refusal
  list_failed : DbError → Refusal

pub data Outcome : Type 0 where
  done : Summary → Outcome
  refused : Refusal → Outcome

-- `defaultLimit` and `maxLimit`
abbrev pub default_limit : ℕ
default_limit = 100

abbrev pub max_limit : ℕ
max_limit = 1000

-- The limit that `Run` passes on.
unfoldable pub limit_of : ℕ → ℕ
limit_of n =
    let limit = if n == 0 then default_limit else n in
    if ltb max_limit limit then max_limit else limit

-- `acquire` and `release`, on the tenants whose entry in `running` is true.
unfoldable pub acquire : ℕ → List ℕ → Bool × List ℕ
acquire tenant running =
    if any (λ t. t == tenant) running then (false, running) else (true, tenant ∷ running)

unfoldable pub release : ℕ → List ℕ → List ℕ
release tenant running = keep (λ t. not (t == tenant)) running

-- What reading a stored message gives: the coordinates that `json.Unmarshal` decodes of what
-- `ST_AsGeoJSON` writes for a point, none where it fails; the text of a JSONB column of attachments;
-- and `Format` for RFC 3339 of a time in the zone that the driver gives it.
pub record Reading : Type 0 where
  pub coordinates : Point → List Text
  pub json_text : Text → Text
  pub zoned_time : ℕ → Text

-- `locationJSON` of the decoded coordinates: longitude first, and null for fewer than two.
unfoldable pub location_of_coordinates : List Text → Option Location
location_of_coordinates [] = none
location_of_coordinates (lng ∷ []) = none
location_of_coordinates (lng ∷ lat ∷ more) = some (record { lat = lat; lng = lng })

-- A contact id, unless it is `uuid.Nil`.
abbrev pub contact_of : Option ℕ → Option ℕ
contact_of none = none
contact_of (some i) = if i == 0 then none else some i

abbrev pub nonempty : Option Text → Option Text
nonempty none = none
nonempty (some []) = none
nonempty (some (c ∷ s)) = some (c ∷ s)

-- The parameters of the look-up.
abbrev pub params_of : Request → UnfiredParams
params_of req = record {
  tenant_id = req.tenant_id;
  received_at = req.since;
  limit = limit_of req.limit;
  channel_id = req.channel_id;
}

module _ (r : Reading) where
  -- `locationJSON` of a stored point.
  unfoldable pub location_of : Option Point → Option Location
  unfolding location_of_coordinates
  location_of none = none
  location_of (some p) = location_of_coordinates (r.coordinates p)

  -- `BodyAttachments`, as it is read.
  abbrev pub stored_json : Option Text → Option Text
  stored_json none = none
  stored_json (some s) = some (r.json_text s)

module _ {F : Type 0} where
  abbrev command_of : Option (Parsed F) → Text
  command_of none = []
  command_of (some p) = p.command

  abbrev payload_of : Option (Parsed F) → Text
  payload_of none = []
  payload_of (some p) = p.payload

  abbrev contact_id_of : Option (Parsed F) → Option ℕ
  contact_id_of none = none
  contact_id_of (some p) = contact_of p.contact_id

  -- What a round of the loop adds to the result.
  unfoldable pub told : UnfiredRow F → Option Cause → Summary → Summary
  told row none res = record res {
    replayed = suc res.replayed;
    message_ids = res.message_ids ++ row.message.id ∷ [];
  }
  told row (some cause) res = record res {
    failed = suc res.failed;
    failures = res.failures ++ record { message_id = row.message.id; error = cause } ∷ [];
    message_ids = res.message_ids ++ row.message.id ∷ [];
  }

  -- The loop of a dry run.
  unfoldable pub list_rows : List (UnfiredRow F) → Summary → Summary
  list_rows [] res = res
  list_rows (row ∷ rows) res =
      list_rows rows (record res { message_ids = res.message_ids ++ row.message.id ∷ [] })

  -- The result before the first row.
  abbrev pub begun : List (UnfiredRow F) → Bool → Summary
  begun rows dry = record {
    candidates = length rows;
    replayed = 0;
    failed = 0;
    dry_run = dry;
    failures = [];
    message_ids = [];
  }

module _ (r : Reading) {F : Type 0} where
  -- `buildForward`
  unfoldable pub rebuild_forward : UnfiredRow F → Forward
  rebuild_forward row =
      let m = row.message in
      record {
        message_id = m.id;
        tenant_id = m.tenant_id;
        channel_id = m.channel_id;
        account_id = m.account_id;
        account_type = row.account_type;
        platform = platform row.account_type;
        contact_id = contact_id_of m.parsed;
        sender_endpoint = deref m.sender_endpoint;
        command = command_of m.parsed;
        payload = payload_of m.parsed;
        text = m.body_text;
        attachments = nonempty (stored_json r m.body_attachments);
        location = location_of r m.body_location;
        received_at = r.zoned_time m.received_at;
      }

  -- The forward reaches the consumer.
  unfoldable pub delivered : UnfiredRow F → M F (Option Cause)
  delivered row w =
      (none, record w { forwards = w.forwards ++ (row.workflow_url, rebuild_forward row) ∷ [] })

  -- `replayOne`; `none` is success.
  unfoldable pub replay_one : UnfiredRow F → M F (Option Cause)
  replay_one row = do
    failed ← fails
    if failed then pure (some undelivered) else do
      sent ← delivered row
      marked ← query (mark_workflow_fired row.message.id)
      pure (elim marked [ ok u ↦ none | err e ↦ some unmarked ])

  -- The loop of `Run` that delivers.
  unfoldable pub replay_rows : List (UnfiredRow F) → Summary → M F Summary
  replay_rows [] res = pure res
  replay_rows (row ∷ rows) res = do cause ← replay_one row; replay_rows rows (told row cause res)

  -- `Run` after the look-up.
  unfoldable pub run_listed : Request → Result (List (UnfiredRow F)) → M F Outcome
  run_listed req (err e) = pure (refused (list_failed e))
  run_listed req (ok rows) =
      if req.dry_run
      then pure (done (list_rows rows (begun rows req.dry_run)))
      else (do told ← replay_rows rows (begun rows req.dry_run); pure (done told))

  -- `Run` behind the guard.
  unfoldable pub run_rows : Request → M F Outcome
  run_rows req = do listed ← query (list_unfired_forwards (params_of req)); run_listed req listed

  -- `Run` after `acquire`, with the tenants that run before and after it.
  unfoldable pub run_acquired : Request → Bool × List ℕ → M F (Outcome × List ℕ)
  run_acquired req (false, running) = pure (refused already_running, running)
  run_acquired req (true, running) = do
    out ← run_rows req
    pure (out, release req.tenant_id running)

  unfoldable pub run_dry : Request → List ℕ → M F (Outcome × List ℕ)
  run_dry req running = do out ← run_rows req; pure (out, running)

  -- `Run`; `uuid.Nil` is 0.
  unfoldable pub run : List ℕ → Request → M F (Outcome × List ℕ)
  run running req =
      if req.tenant_id == 0
      then pure (refused invalid, running)
      else if req.dry_run
      then run_dry req running
      else run_acquired req (acquire req.tenant_id running)
