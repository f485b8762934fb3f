-- ===== src/Ingest/Steps.antt =====
-- `Ingest` and its handlers. A message is stored once for each account and platform message id.
use fieldwatchai_comms_openk.Prelude.{
  ℕ, ◌-◌, Bool, true, false, ◌&&◌, Option, none, some, List, [], ◌∷◌, ◌++◌, map,
}
use fieldwatchai_comms_openk.Prelude.{◌==◌, comparable_nat, comparable_list, if◌then◌else◌, codes}
use fieldwatchai_comms_openk.Canonical
use fieldwatchai_comms_openk.Parser.{Config, ParseResult, parse, trim_space, equal_fold}
use fieldwatchai_comms_openk.Policy.{
  Action, execute, echo_back, clarify, routed, recalled, echoed_back,
}
use fieldwatchai_comms_openk.Policy.{
  TargetMatch, no_target, to_target, Thresholds, score, decide, echo_text,
}
use fieldwatchai_comms_openk.Policy.Float.{Float64}
use fieldwatchai_comms_openk.Resolver
use fieldwatchai_comms_openk.Resolver.{Row, Match}
use fieldwatchai_comms_openk.Store.{Text, Parsed, Message, Account, Contact, no_rows, ok, err}
use fieldwatchai_comms_openk.Store.Queries.{
  get_account_by_id, create_inbound_message, get_message_id_by_platform_id,
  find_recent_echo_for_sender, mark_message_recalled, list_contact_short_ids,
}
use fieldwatchai_comms_openk.World.{dispatch, deliver, M, ◌>>=◌, ◌>>◌, pure, query, new_id, spawn}
use fieldwatchai_comms_openk.Ingest.Base.{
  Deps, invalid_account, account_not_found, account_inactive, internal, Outcome, done, failed,
  ChannelCtx, deref, text_or_null, resolve_channel, blank_doc, message_row, recall_row,
  build_forward,
}

-- What `decide` returns: the document, the action and the description of the target.
pub record Decision (F : Type 0) : Type 0 where
  pub doc : Parsed F
  pub action : Action
  pub target_desc : Text

abbrev pub receipt : ℕ → Bool → Action → Outcome
receipt id is_replay action =
    done (record { message_id = id; is_replay = is_replay; action = action })

abbrev pub has_command : Text → Bool
has_command [] = false
has_command (c ∷ command) = true

module _ (f : Float64) (d : Deps f) where
  -- The statements of `decide` behind the parser and the resolver.
  unfoldable pub decision : ParseResult → Thresholds f → Match → Decision f.F
  decision pr th m =
      let kind = if pr.has_target then to_target else no_target in
      let confidence = score f (record {
        short_id_match = m.short_id_match;
        has_target = pr.has_target;
        target_match = TargetMatch.other;
        has_command = has_command pr.command;
        known_command = pr.known_command;
      }) in
      record {
        doc = record (blank_doc f d) {
          ok = true;
          short_id = pr.short_id;
          command = pr.command;
          known_command = pr.known_command;
          target = pr.target;
          target_kind = kind;
          payload = pr.payload;
          short_id_match = some m.short_id_match;
          contact_id = m.contact_id;
          alternatives = m.alternatives;
          confidence = confidence;
        };
        action = decide f d.unicode.upper confidence pr.command kind th;
        target_desc = if pr.has_target then b'@' ∷ pr.target else pr.short_id;
      }

  abbrev pub rows_of : List Contact → List Row
  rows_of contacts = map (λ c. record { id = c.id; short_id = c.short_id }) contacts

  -- `decide`; `none` is an error of the resolver's query.
  unfoldable pub decide_text : ℕ → Text → Config → Thresholds f → M f.F (Option (Decision f.F))
  decide_text tenant_id text cfg th =
      let pr = parse d.unicode text cfg in
      let refused : Decision f.F = record {
        doc = blank_doc f d;
        action = clarify;
        target_desc = [];
      } in
      let resolved : M f.F (Option (Decision f.F)) = do
        r ← query (list_contact_short_ids tenant_id)
        elim r [
          | err e ↦ pure none
          | ok contacts ↦ pure (
              some (
                decision pr th (
                  Resolver.resolve d.unicode.upper d.unicode.lower pr.short_id (rows_of contacts))))
        ]
      in if pr.ok then resolved else pure (some refused)

  -- `CreateInboundMessage` with its errors: a row that exists is looked up and reported as a replay,
  -- and only a new row is followed by `continue`.
  unfoldable pub persist :
      (ℕ → Message f.F) → ℕ → Text → Action → (ℕ → M f.F (Unit {0})) → M f.F Outcome
  persist row account_id platform_message_id action continue = do
    id ← new_id d.ids
    r ← query (create_inbound_message (row id))
    elim r [
      | ok stored ↦ do continue stored; pure (receipt stored false action)
      | err no_rows ↦ do
        existing ← query (get_message_id_by_platform_id account_id platform_message_id)
        pure (elim existing [ ok old ↦ receipt old true action | err e ↦ failed internal ])
      | err e ↦ pure (failed internal)
    ]

  -- The forward to the consumer product, if one is configured.
  unfoldable pub spawn_forward :
      Account → ChannelCtx f → Canonical.Message → Parsed f.F → ℕ → M f.F (Unit {0})
  spawn_forward acct ch msg doc id =
      if has_command ch.workflow_url && d.has_forwarder
      then spawn (deliver ch.workflow_url id (build_forward f d acct ch msg doc id))
      else pure tt

  -- What follows a stored message of the command grammar.
  unfoldable pub follow_up :
      Account → ChannelCtx f → Canonical.Message → Decision f.F → ℕ → M f.F (Unit {0})
  follow_up acct ch msg dec id = elim dec.action [
    | echo_back ↦ spawn (
        dispatch acct id msg.sender_endpoint
          (echo_text dec.target_desc (deref msg.body.text) ch.recall_seconds) echoed_back)
    | execute ↦ spawn_forward acct ch msg dec.doc id
    | _ ↦ pure tt
  ]

  -- `handlePassthrough`
  unfoldable pub handle_passthrough : Account → ℕ → Canonical.Message → ChannelCtx f → M f.F Outcome
  handle_passthrough acct account_id msg ch =
      let doc = record (blank_doc f d) {
        ok = true;
        passthrough = true;
        payload = deref msg.body.text;
      } in
      persist (message_row f d acct account_id msg ch doc routed) account_id
        msg.meta.platform_message_id routed (spawn_forward acct ch msg doc)

  -- The acknowledgement of a recall.
  unfoldable pub recall_ack : Text → Text
  recall_ack body = codes "RECALLED — " ++ (d.quote body ++ codes " was not forwarded.")

  -- What follows a stored recall: the message found is marked, and its sender told.
  unfoldable pub finish_recall : Account → Text → Option (Message f.F) → ℕ → M f.F (Unit {0})
  finish_recall acct to none id = pure tt
  finish_recall acct to (some m) id = do
    r ← query (mark_message_recalled m.id)
    elim r [
      | ok u ↦ spawn (dispatch acct m.id to (recall_ack m.body_text) recalled)
      | err e ↦ pure tt
    ]

  unfoldable pub store_recall :
      Account → ℕ → Canonical.Message → Option (Message f.F) → M f.F Outcome
  store_recall acct account_id msg found =
      let action : Action = elim found [ none ↦ clarify | some m ↦ recalled ] in
      persist (recall_row f d acct account_id msg action) account_id msg.meta.platform_message_id
        action (finish_recall acct msg.sender_endpoint found)

  -- `handleRecall`; `-` stops at 0, before which no message was received.
  unfoldable pub handle_recall : Account → ℕ → Canonical.Message → ℕ → M f.F Outcome
  handle_recall acct account_id msg recall_seconds = do
    r ← query (
        find_recent_echo_for_sender account_id (text_or_null msg.sender_endpoint)
          (d.now - recall_seconds))
    elim r [
      | ok m ↦ store_recall acct account_id msg (some m)
      | err no_rows ↦ store_recall acct account_id msg none
      | err e ↦ pure (failed internal)
    ]

  -- A message of the command grammar.
  unfoldable pub handle_command : Account → ℕ → Canonical.Message → ChannelCtx f → M f.F Outcome
  handle_command acct account_id msg ch = do
    r ← decide_text acct.tenant_id (deref msg.body.text) ch.parser_cfg ch.thresholds
    elim r [
      | none ↦ pure (failed internal)
      | some dec ↦
          persist (message_row f d acct account_id msg ch dec.doc dec.action) account_id
            msg.meta.platform_message_id dec.action (follow_up acct ch msg dec)
    ]

  unfoldable pub is_recall : Text → Bool
  is_recall text = equal_fold d.unicode (trim_space text) (codes "OOPS")

  -- `Ingest` for an account that exists.
  unfoldable pub ingest_for : Account → ℕ → Canonical.Message → M f.F Outcome
  ingest_for acct account_id msg =
      let accept : M f.F Outcome = do
        ch ← resolve_channel f d account_id
        if is_recall (deref msg.body.text)
            then handle_recall acct account_id msg ch.recall_seconds
            else if ch.mode == codes "passthrough"
            then handle_passthrough acct account_id msg ch
            else handle_command acct account_id msg ch
      in if acct.status == codes "active" then accept else pure (failed account_inactive)

  -- `Ingest`
  unfoldable pub ingest : Canonical.Message → M f.F Outcome
  ingest msg = elim (d.parse_uuid msg.meta.account_id) [
    | none ↦ pure (failed invalid_account)
    | some account_id ↦ do
      r ← query (get_account_by_id account_id)
      elim r [
        | ok acct ↦ ingest_for acct account_id msg
        | err no_rows ↦ pure (failed account_not_found)
        | err e ↦ pure (failed internal)
      ]
  ]
