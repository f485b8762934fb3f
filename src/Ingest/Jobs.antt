-- ===== src/Ingest/Jobs.antt =====
-- The background work of the ingest service, and its runs between calls of `Ingest`.
use fieldwatchai_comms_openk.Prelude.{ℕ, false, none, some, [], ◌∷◌, ◌++◌, if◌then◌else◌}
use fieldwatchai_comms_openk.Policy.{Action}
use fieldwatchai_comms_openk.Policy.Float.{Float64}
use fieldwatchai_comms_openk.Store.{Text, outbound, empty, Message, Account}
use fieldwatchai_comms_openk.Store.Queries.{create_outbound_message, mark_workflow_fired}
use fieldwatchai_comms_openk.Workflow.{Forward}
use fieldwatchai_comms_openk.World.{
  plain, Job, dispatch, deliver, Send, M, ◌>>=◌, pure, fails, query, new_id,
}
use fieldwatchai_comms_openk.Ingest.Base.{Deps}

module _ (f : Float64) (d : Deps f) where
  -- The parameters of `CreateOutboundMessage` for a reply.
  unfoldable pub reply_row : Account → ℕ → Text → Action → Text → ℕ → Message f.F
  reply_row acct in_reply_to body label platform_message_id id = record {
    id = id;
    tenant_id = acct.tenant_id;
    account_id = some acct.id;
    channel_id = none;
    direction = outbound;
    sender_contact_id = none;
    recipient_contact_id = none;
    sender_endpoint = none;
    body_text = body;
    body_attachments = none;
    body_location = none;
    parsed = none;
    policy_action = some label;
    workflow_fired = false;
    in_reply_to_message_id = some in_reply_to;
    platform_message_id = platform_message_id;
    raw_payload = empty;
    received_at = d.now;
    processed_at = some d.now;
  }

  -- `adapter.Send`, and a new id where the platform gives none.
  unfoldable pub send : Send → M f.F Text
  send s w =
      let sent_w = record w { sends = w.sends ++ s ∷ [] } in
      elim (d.platform_id s) [
        | [] ↦ let (id, w') = new_id d.ids sent_w in (d.show_uuid id, w')
        | c ∷ id ↦ (c ∷ id, sent_w)
      ]

  unfoldable pub record_reply : Account → ℕ → Text → Text → Action → M f.F (Unit {0})
  record_reply acct in_reply_to to body label = do
    platform_message_id ← send (record { account_id = acct.id; message = plain to body })
    id ← new_id d.ids
    r ←
        query
          (create_outbound_message (reply_row acct in_reply_to body label platform_message_id id))
    pure tt

  -- `dispatchOutbound`: without credentials, if they do not decrypt, without an adapter, or if the
  -- platform refuses the message, nothing is sent and nothing recorded.
  unfoldable pub dispatch_outbound : Account → ℕ → Text → Text → Action → M f.F (Unit {0})
  dispatch_outbound acct in_reply_to to body label = elim acct.credentials_encrypted [
    | [] ↦ pure tt
    | c ∷ credentials ↦ do
      undecryptable ← fails
      if undecryptable
          then pure tt
          else if d.registered acct.type
          then (do
            refused ← fails
            if refused then pure tt else record_reply acct in_reply_to to body label)
          else pure tt
  ]

  -- The goroutine of `spawnForward`: the mark is set only behind a delivery.
  unfoldable pub run_forward : Text → ℕ → Forward → M f.F (Unit {0})
  run_forward url id fw = do
    undelivered ← fails
    if undelivered
        then pure tt
        else (λ w.
            query (mark_workflow_fired id) (record w { forwards = w.forwards ++ (url, fw) ∷ [] }))
          >>= λ r. pure tt

  unfoldable pub run_job : Job → M f.F (Unit {0})
  run_job (dispatch acct in_reply_to to body label) =
      dispatch_outbound acct in_reply_to to body label
  run_job (deliver url id fw) = run_forward url id fw
