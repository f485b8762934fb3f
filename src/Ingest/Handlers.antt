-- ===== src/Ingest/Handlers.antt =====
-- The handlers of `Ingest`: each stores the message once and starts the work that its action names.
use fieldwatchai_comms_openk.Prelude.{
  ℕ, ◌≡◌, inl, inr, refl, ap, ◌∙◌, false, none, some, List, [], ◌∷◌, ◌++◌, any, In, comparable_nat,
}
use fieldwatchai_comms_openk.Canonical
use fieldwatchai_comms_openk.Policy.{
  Action, execute, echo_back, clarify, routed, recalled, echoed_back, sent,
}
use fieldwatchai_comms_openk.Policy.Float.{Float64}
use fieldwatchai_comms_openk.Store.{Text, Message, Account, Parsed, Db, Result, ok, err}
use fieldwatchai_comms_openk.Store.Queries.{has_id, holds_key, update, mark_message_recalled}
use fieldwatchai_comms_openk.Store.Lookup.{other_id}
use fieldwatchai_comms_openk.World.{Job, query, pure, spawn, deliver, dispatch}
use fieldwatchai_comms_openk.World.Triple.{
  Cond, Triple, pure-Triple, bind-Triple, if-Triple, query-Triple, spawn-Triple,
}
use fieldwatchai_comms_openk.Ingest.Base.{Deps, ChannelCtx, build_forward}
use fieldwatchai_comms_openk.Ingest.Steps.{
  Decision, spawn_forward, follow_up, finish_recall, recall_ack,
}
use fieldwatchai_comms_openk.Ingest.Effect.{IsWork, IsRowOf, IsStored, mark}
use fieldwatchai_comms_openk.Ingest.Persist.{Fresh, stored_lem}

module _ (f : Float64) (d : Deps f) (db0 : Db f.F) (jobs0 : List Job)
    (Q : Message f.F → Type 0) where
  module _ (a : ℕ) (p : Text) (id : ℕ) (action : Action) (m : Message f.F)
      (of : IsRowOf a p id action m) where
    -- Nothing follows.
    idle : Triple (Fresh f d db0 jobs0 Q m) (pure tt) (λ _. IsStored db0 jobs0 Q a p id action)
    idle = pure-Triple _ (λ db jobs h.
        stored_lem f d db0 jobs0 Q a p id action m db jobs of h.0.0 h.0.1 (inl h.0.2) (inl h.1))

    -- One job follows.
    work :
        (j : Job)
        → IsWork action id j
        → Triple (Fresh f d db0 jobs0 Q m) (spawn j) (λ _. IsStored db0 jobs0 Q a p id action)
    work j k = spawn-Triple j (λ db jobs h.
        stored_lem f d db0 jobs0 Q a p id action m db _ of h.0.0 h.0.1 (inl h.0.2)
          (inr (j, k, ap (λ x. x ++ j ∷ []) h.1)))

  pub spawn_forward-Triple :
      (a : ℕ) (p : Text) (action : Action) (m : Message f.F) (acct : Account) (ch : ChannelCtx f)
      (msg : Canonical.Message) (doc : Parsed f.F) (id : ℕ)
      → IsRowOf a p id action m
      → ((url : Text) → IsWork action id (deliver url id (build_forward f d acct ch msg doc id)))
      → Triple
          (Fresh f d db0 jobs0 Q m)
          (spawn_forward f d acct ch msg doc id)
          (λ _. IsStored db0 jobs0 Q a p id action)
  unfolding spawn_forward
  spawn_forward-Triple a p action m acct ch msg doc id of k =
      if-Triple _ _ _ (λ _. work a p id action m of _ (k ch.workflow_url))
        (λ _. idle a p id action m of)

  pub follow_up-Triple :
      (a : ℕ) (p : Text) (action : Action) (m : Message f.F) (acct : Account) (ch : ChannelCtx f)
      (msg : Canonical.Message) (dec : Decision f.F) (id : ℕ)
      → dec.action ≡ action
      → IsRowOf a p id action m
      → Triple
          (Fresh f d db0 jobs0 Q m)
          (follow_up f d acct ch msg dec id)
          (λ _. IsStored db0 jobs0 Q a p id action)
  unfolding follow_up
  follow_up-Triple a p execute m acct ch msg dec id e of =
      rw e (spawn_forward-Triple a p execute m acct ch msg dec.doc id of (λ url. refl))
  follow_up-Triple a p echo_back m acct ch msg dec id e of =
      rw e (work a p id echo_back m of _ (refl, refl))
  follow_up-Triple a p clarify m acct ch msg dec id e of = rw e (idle a p id clarify m of)
  follow_up-Triple a p routed m acct ch msg dec id e of = rw e (idle a p id routed m of)
  follow_up-Triple a p recalled m acct ch msg dec id e of = rw e (idle a p id recalled m of)
  follow_up-Triple a p sent m acct ch msg dec id e of = rw e (idle a p id sent m of)
  follow_up-Triple a p echoed_back m acct ch msg dec id e of = rw e (idle a p id echoed_back m of)

  -- The marked message is an old one: the new row stays as it is.
  mark_lem :
      (row m : Message f.F) (ms : List (Message f.F))
      → any (has_id row.id) ms ≡ false
      → In m ms
      → mark m.id (row ∷ ms) ≡ row ∷ mark m.id ms
  unfolding update
  mark_lem row m ms h i = rw (other_id row.id m ms h i) refl

  -- How the mark of a recall ends.
  abbrev Marked : Message f.F → Message f.F → Result (Unit {0}) → Cond f.F
  Marked row m (err e) db jobs = Fresh f d db0 jobs0 Q row db jobs
  Marked row m (ok u) db jobs =
      (holds_key row db0.messages ≡ false)
      × (any (has_id row.id) db0.messages ≡ false)
      × (db ≡ record db0 { messages = row ∷ mark m.id db0.messages })
      × (jobs ≡ jobs0)

  mark-Marked :
      (row m : Message f.F)
      → In m db0.messages
      → Triple (Fresh f d db0 jobs0 Q row) (query (mark_message_recalled m.id)) (Marked row m)
  unfolding mark_message_recalled
  mark-Marked row m i =
      query-Triple _ (λ db jobs h. h)
        (λ db jobs h. (
          h.0.0,
          h.0.1,
          ap (λ (x : Db f.F). record x { messages = mark m.id x.messages }) h.0.2
              ∙ ap (λ (x : List (Message f.F)). record db0 { messages = x })
                  (mark_lem row m db0.messages h.0.1 i),
          h.1,
        ))

  module _ (acct : Account) (to : Text) (a : ℕ) (p : Text) (id : ℕ) (row : Message f.F) where
    acknowledged :
        (m : Message f.F) (r : Result (Unit {0}))
        → IsRowOf a p id recalled row
        → In m db0.messages
        → Q m
        → Triple
            (Marked row m r)
            (elim r [
              | ok u ↦ spawn (dispatch acct m.id to (recall_ack f d m.body_text) recalled)
              | err e ↦ pure tt
            ])
            (λ _. IsStored db0 jobs0 Q a p id recalled)
    acknowledged m (err e) of i q = idle a p id recalled row of
    acknowledged m (ok u) of i q = spawn-Triple _ (λ db jobs h.
        let job : Job = dispatch acct m.id to (recall_ack f d m.body_text) recalled in
        stored_lem f d db0 jobs0 Q a p id recalled row db _ of h.0 h.1 (inr (m, refl, i, q, h.2))
          (inr (job, refl, ap (λ x. x ++ job ∷ []) h.3)))

    pub finish_recall-Triple :
        (m : Message f.F)
        → IsRowOf a p id recalled row
        → In m db0.messages
        → Q m
        → Triple
            (Fresh f d db0 jobs0 Q row)
            (finish_recall f d acct to (some m) id)
            (λ _. IsStored db0 jobs0 Q a p id recalled)
    unfolding finish_recall
    finish_recall-Triple m of i q =
        bind-Triple (Marked row m) _ _ (mark-Marked row m i) (λ r. acknowledged m r of i q)

    pub finish_nothing-Triple :
        IsRowOf a p id clarify row
        → Triple
            (Fresh f d db0 jobs0 Q row)
            (finish_recall f d acct to none id)
            (λ _. IsStored db0 jobs0 Q a p id clarify)
    unfolding finish_recall
    finish_nothing-Triple of = idle a p id clarify row of
