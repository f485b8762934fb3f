-- ===== src/Ingest/Once.antt =====
-- `Ingest` stores a message once, whatever its action, and a failed call leaves no trace.
use fieldwatchai_comms_openk.Prelude.{
  ℕ, ◌-◌, ◌≡◌, ◌⊎◌, inl, inr, refl, sym, ap, ◌∙◌, subst, true, Option, none, some, List, In,
  if◌then◌else◌, ◌==◌, comparable_nat, comparable_list, codes, keep,
}
use fieldwatchai_comms_openk.Canonical
use fieldwatchai_comms_openk.Parser.{Config, parse}
use fieldwatchai_comms_openk.Policy.{clarify, routed, recalled, Thresholds}
use fieldwatchai_comms_openk.Policy.Float.{Float64}
use fieldwatchai_comms_openk.Store.{
  Text, Message, Account, Channel, Contact, Db, no_rows, unique_violation, foreign_key_violation,
  unavailable, Result, ok, err,
}
use fieldwatchai_comms_openk.Store.Queries.{
  is_recent_echo, latest, find_recent_echo_for_sender, get_inbound_channel_for_account,
  inbound_channel, list_contact_short_ids, get_account_by_id,
}
use fieldwatchai_comms_openk.Store.Select.{one}
use fieldwatchai_comms_openk.Store.Lookup.{recent_echo_found, IsRoute, inbound_channel_found}
use fieldwatchai_comms_openk.World.{Job, World, M, pure}
use fieldwatchai_comms_openk.World.Triple.{
  Cond, Triple, pure-Triple, bind-Triple, if-Triple, query-Triple,
}
use fieldwatchai_comms_openk.Ingest.Base.{
  Deps, internal, account_not_found, Outcome, failed, ChannelCtx, text_or_null, channel_ctx,
  resolve_channel, message_row, recall_row, deref, defaults, ctx_of,
}
use fieldwatchai_comms_openk.Ingest.Steps.{
  Decision, decide_text, handle_passthrough, handle_command, handle_recall, store_recall,
  ingest_for, ingest, is_recall, persist, follow_up,
}
use fieldwatchai_comms_openk.Ingest.Effect.{Same, Effect}
use fieldwatchai_comms_openk.Ingest.Persist.{persist-Triple}
use fieldwatchai_comms_openk.Ingest.Handlers.{
  spawn_forward-Triple, follow_up-Triple, finish_recall-Triple, finish_nothing-Triple,
}

module _ (f : Float64) (d : Deps f) (db0 : Db f.F) where
  -- The channel is that of the account, or the defaults stand for it.
  abbrev pub IsChannelOf : ℕ → ChannelCtx f → Type 0
  IsChannelOf a ch =
      (ch ≡ defaults f d) ⊎ ((c : Channel f.F) × IsRoute a db0 c × (ch ≡ channel_ctx f d c))

  -- A message that the sender can recall: echoed, received on the account from the sender, and within
  -- the window of the channel.
  abbrev pub IsRecallable : ℕ → Text → Message f.F → Type 0
  IsRecallable a sender m =
      (ch : ChannelCtx f) × IsChannelOf a ch
      × (is_recent_echo a (text_or_null sender) (d.now - ch.recall_seconds) m ≡ true)

module _ (f : Float64) (d : Deps f) (db0 : Db f.F) (jobs0 : List Job) (a : ℕ)
    (msg : Canonical.Message) where
  abbrev Recallable : Message f.F → Type 0
  Recallable = IsRecallable f d db0 a msg.sender_endpoint

  abbrev Unchanged : Cond f.F
  Unchanged = Same db0 jobs0 Recallable

  abbrev Ends : Outcome → Cond f.F
  Ends = Effect db0 jobs0 Recallable a msg.meta.platform_message_id

  abbrev Read : Result (Channel f.F) → Cond f.F
  Read (ok row) db jobs = IsChannelOf f d db0 a (channel_ctx f d row) × Unchanged db jobs
  Read (err e) db jobs = Unchanged db jobs

  get-Read :
      (db : Db f.F) (jobs : List Job) (o : Option (Channel f.F))
      → inbound_channel a db ≡ o
      → Unchanged db jobs
      → Read (one o) db jobs
  get-Read db jobs none e s = s
  get-Read db jobs (some row) e s =
      (inr (row, inbound_channel_found a db0 row (ap (inbound_channel a) (sym s.0) ∙ e), refl), s)

  abbrev Resolved : ChannelCtx f → Cond f.F
  Resolved ch db jobs = IsChannelOf f d db0 a ch × Unchanged db jobs

  resolve_channel-Triple : Triple Unchanged (resolve_channel f d a) Resolved
  unfolding resolve_channel get_inbound_channel_for_account
  resolve_channel-Triple =
      bind-Triple Read _ _
        (query-Triple _ (λ db jobs s. s) (λ db jobs s. get-Read db jobs _ refl s)) ctx
    where
      ctx : (r : Result (Channel f.F)) → Triple (Read r) (pure (ctx_of f d r)) Resolved
      ctx (ok row) = pure-Triple _ (λ db jobs h. h)
      ctx (err e) = pure-Triple _ (λ db jobs h. (inl refl, h))

  decide_text-Triple :
      (tenant_id : ℕ) (text : Text) (cfg : Config) (th : Thresholds f)
      → Triple Unchanged (decide_text f d tenant_id text cfg th) (λ _. Unchanged)
  unfolding decide_text list_contact_short_ids
  decide_text-Triple tenant_id text cfg th =
      if-Triple (parse d.unicode text cfg).ok _ _
        (λ _.
          bind-Triple (λ _. Unchanged) _ _ (query-Triple _ (λ db jobs s. s) (λ db jobs s. s))
            (rest _))
        (λ _. pure-Triple _ (λ db jobs s. s))
    where
      rest :
          (g : List Contact → Decision f.F) (r : Result (List Contact))
          → Triple Unchanged
              (elim r [ err e ↦ pure none | ok contacts ↦ pure (some (g contacts)) ])
              (λ _. Unchanged)
      rest g (ok contacts) = pure-Triple _ (λ db jobs s. s)
      rest g (err e) = pure-Triple _ (λ db jobs s. s)

  handle_passthrough-Triple :
      (acct : Account) (ch : ChannelCtx f)
      → Triple Unchanged (handle_passthrough f d acct a msg ch) Ends
  unfolding handle_passthrough message_row
  handle_passthrough-Triple acct ch =
      persist-Triple f d db0 jobs0 Recallable _ a _ routed _ (λ id. (refl, refl, refl, refl))
        (λ id.
          spawn_forward-Triple f d db0 jobs0 Recallable a _ routed _ acct ch msg _ id
            (refl, refl, refl, refl) (λ url. refl))

  handle_command-Triple :
      (acct : Account) (ch : ChannelCtx f)
      → Triple Unchanged (handle_command f d acct a msg ch) Ends
  unfolding handle_command message_row
  handle_command-Triple acct ch =
      bind-Triple (λ _. Unchanged) _ _ (decide_text-Triple _ _ _ _) decided
    where
      decided :
          (r : Option (Decision f.F))
          → Triple Unchanged
              (elim r [
                | none ↦ pure (failed internal)
                | some dec ↦
                    persist f d
                      (message_row f d acct a msg ch dec.doc dec.action)
                      a
                      msg.meta.platform_message_id
                      dec.action
                      (follow_up f d acct ch msg dec)
              ])
              Ends
      decided none = pure-Triple _ (λ db jobs s. s)
      decided (some dec) =
          persist-Triple f d db0 jobs0 Recallable _ a _ dec.action _
            (λ id. (refl, refl, refl, refl))
            (λ id.
              follow_up-Triple f d db0 jobs0 Recallable a _ dec.action _ acct ch msg dec id refl
                (refl, refl, refl, refl))

  store_recall-Triple :
      (acct : Account) (m : Message f.F)
      → In m db0.messages
      → Recallable m
      → Triple Unchanged (store_recall f d acct a msg (some m)) Ends
  unfolding store_recall recall_row
  store_recall-Triple acct m i q =
      persist-Triple f d db0 jobs0 Recallable _ a _ recalled _ (λ id. (refl, refl, refl, refl))
        (λ id.
          finish_recall-Triple f d db0 jobs0 Recallable acct _ a _ id _ m (refl, refl, refl, refl) i
            q)

  store_no_recall-Triple :
      (acct : Account) → Triple Unchanged (store_recall f d acct a msg none) Ends
  unfolding store_recall recall_row
  store_no_recall-Triple acct =
      persist-Triple f d db0 jobs0 Recallable _ a _ clarify _ (λ id. (refl, refl, refl, refl))
        (λ id.
          finish_nothing-Triple f d db0 jobs0 Recallable acct _ a _ id _ (refl, refl, refl, refl))

  -- How the search for the message to recall ends.
  abbrev Searched : Result (Message f.F) → Cond f.F
  Searched (ok m) db jobs = In m db0.messages × Recallable m × Unchanged db jobs
  Searched (err e) db jobs = Unchanged db jobs

  search-Searched :
      (ch : ChannelCtx f)
      → IsChannelOf f d db0 a ch
      → (db : Db f.F) (jobs : List Job) (o : Option (Message f.F))
      → latest (
          keep
            (is_recent_echo a (text_or_null msg.sender_endpoint) (d.now - ch.recall_seconds))
            db.messages)
        ≡ o
      → Unchanged db jobs
      → Searched (one o) db jobs
  search-Searched ch c db jobs none e s = s
  search-Searched ch c db jobs (some m) e s =
      let r = recent_echo_found a _ _ db m e in
      (subst (λ (x : Db f.F). In m x.messages) s.0 r.0, (ch, c, r.1), s)

  handle_recall-Triple :
      (acct : Account) (ch : ChannelCtx f)
      → IsChannelOf f d db0 a ch
      → Triple Unchanged (handle_recall f d acct a msg ch.recall_seconds) Ends
  unfolding handle_recall find_recent_echo_for_sender
  handle_recall-Triple acct ch c =
      bind-Triple Searched _ _
        (query-Triple _ (λ db jobs s. s) (λ db jobs s. search-Searched ch c db jobs _ refl s))
        searched
    where
      searched :
          (r : Result (Message f.F))
          → Triple
              (Searched r)
              (elim r [
                | ok m ↦ store_recall f d acct a msg (some m)
                | err no_rows ↦ store_recall f d acct a msg none
                | err e ↦ pure (failed internal)
              ])
              Ends
      searched (ok m) = record { at = λ w h. (store_recall-Triple acct m h.0 h.1).at w h.2 }
      searched (err no_rows) = store_no_recall-Triple acct
      searched (err unique_violation) = pure-Triple _ (λ db jobs s. s)
      searched (err foreign_key_violation) = pure-Triple _ (λ db jobs s. s)
      searched (err unavailable) = pure-Triple _ (λ db jobs s. s)

  -- What an accepted message is given to.
  abbrev handler : Account → ChannelCtx f → M f.F Outcome
  handler acct ch =
      if is_recall f d (deref msg.body.text)
      then handle_recall f d acct a msg ch.recall_seconds
      else if ch.mode == codes "passthrough"
      then handle_passthrough f d acct a msg ch
      else handle_command f d acct a msg ch

  handler-Triple :
      (acct : Account) (ch : ChannelCtx f)
      → IsChannelOf f d db0 a ch
      → Triple Unchanged (handler acct ch) Ends
  handler-Triple acct ch c =
      if-Triple (is_recall f d (deref msg.body.text)) _ _ (λ _. handle_recall-Triple acct ch c)
        (λ _.
          if-Triple (ch.mode == codes "passthrough") _ _ (λ _. handle_passthrough-Triple acct ch)
            (λ _. handle_command-Triple acct ch))

  -- Whatever the account, its status and its channel.
  ingest_for-Triple : (acct : Account) → Triple Unchanged (ingest_for f d acct a msg) Ends
  unfolding ingest_for
  ingest_for-Triple acct =
      if-Triple (acct.status == codes "active") _ _
        (λ _.
          bind-Triple Resolved _ (handler acct) resolve_channel-Triple
            (λ ch. record { at = λ w h. (handler-Triple acct ch h.0).at w h.1 }))
        (λ _. pure-Triple _ (λ db jobs s. s))

  answered :
      (r : Result Account)
      → Triple Unchanged
          (elim r [
            | ok acct ↦ ingest_for f d acct a msg
            | err no_rows ↦ pure (failed account_not_found)
            | err e ↦ pure (failed internal)
          ])
          Ends
  answered (ok acct) = ingest_for-Triple acct
  answered (err no_rows) = pure-Triple _ (λ db jobs s. s)
  answered (err unique_violation) = pure-Triple _ (λ db jobs s. s)
  answered (err foreign_key_violation) = pure-Triple _ (λ db jobs s. s)
  answered (err unavailable) = pure-Triple _ (λ db jobs s. s)

  pub ingest-Triple :
      d.parse_uuid msg.meta.account_id ≡ some a → Triple Unchanged (ingest f d msg) Ends
  unfolding ingest get_account_by_id
  ingest-Triple e =
      rw (ingest, e)
        (bind-Triple (λ _. Unchanged) _ _ (query-Triple _ (λ db jobs s. s) (λ db jobs s. s))
          answered)

module _ (f : Float64) (d : Deps f) where
  pub ingest-Effect :
      (msg : Canonical.Message) (a : ℕ) (w : World f.F)
      → d.parse_uuid msg.meta.account_id ≡ some a
      → Effect w.db w.jobs
          (IsRecallable f d w.db a msg.sender_endpoint)
          a
          msg.meta.platform_message_id
          (ingest f d msg w).0
          (ingest f d msg w).1.db
          (ingest f d msg w).1.jobs
  ingest-Effect msg a w e = (ingest-Triple f d w.db w.jobs a msg e).at w (refl, refl)
