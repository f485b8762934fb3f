-- ===== src/Ingest/Effect.antt =====
-- What a call of `Ingest` does to the database and to the started work.
use fieldwatchai_comms_openk.Prelude.{
  ℕ, ◌≡◌, ◌⊎◌, refl, sym, ap, ◌∙◌, Bool, true, false, Option, none, some, List, [], ◌∷◌, ◌++◌, any,
  find, In, find-some, if◌then◌else◌,
}
use fieldwatchai_comms_openk.Policy.{Action, execute, echo_back, routed, recalled, echoed_back}
use fieldwatchai_comms_openk.Store.{Text, Message, Db, no_rows, unique_violation, Result, ok, err}
use fieldwatchai_comms_openk.Store.Queries.{
  has_key, has_id, holds_key, update, create_inbound_message, get_message_id_by_platform_id,
}
use fieldwatchai_comms_openk.World.{Job, dispatch, deliver}
use fieldwatchai_comms_openk.World.Triple.{Cond}
use fieldwatchai_comms_openk.Ingest.Base.{Outcome, done, failed}

-- The work that a stored message may start: a delivery of the message itself, the echo of it, or the
-- acknowledgement of a recall.
abbrev pub IsWork : Action → ℕ → Job → Type 0
IsWork execute id (deliver url i forward) = i ≡ id
IsWork routed id (deliver url i forward) = i ≡ id
IsWork echo_back id (dispatch acct i to body action) = (i ≡ id) × (action ≡ echoed_back)
IsWork recalled id (dispatch acct i to body action) = action ≡ recalled
IsWork _ _ _ = ⊥

-- The key, the id and the action of a stored row.
abbrev pub IsRowOf : {F : Type 0} → ℕ → Text → ℕ → Action → Message F → Type 0
IsRowOf a p id action m =
    (m.id ≡ id)
    × (m.account_id ≡ some a)
    × (m.platform_message_id ≡ p)
    × (m.policy_action ≡ some action)

-- The messages, with that of an id marked as recalled.
abbrev pub mark : {F : Type 0} → ℕ → List (Message F) → List (Message F)
mark id messages = update (has_id id) (λ m. record m { policy_action = some recalled }) messages

module _ {F : Type 0} (db0 : Db F) (jobs0 : List Job) (Q : Message F → Type 0) where
  -- Nothing has happened.
  abbrev pub Same : Cond F
  Same db jobs = (db ≡ db0) × (jobs ≡ jobs0)

  -- The row is new, and added.
  abbrev pub IsAdded : Message F → Db F → Type 0
  IsAdded m db =
      (holds_key m db0.messages ≡ false)
      × (any (has_id m.id) db0.messages ≡ false)
      × (db ≡ record db0 { messages = m ∷ db0.messages })

  -- A row is added, and nothing else has changed but the mark of a recalled message.
  abbrev pub Change : Action → Message F → Db F → Type 0
  Change action row db =
      (db ≡ record db0 { messages = row ∷ db0.messages })
      ⊎ ((m : Message F) × (action ≡ recalled)
          × In m db0.messages
          × Q m
          × (db ≡ record db0 { messages = row ∷ mark m.id db0.messages }))

  -- The key was new, the message is stored under it with its id and action, and at most one job has
  -- been started.
  pub record IsStored (a : ℕ) (p : Text) (id : ℕ) (action : Action) (db : Db F) (jobs : List Job)
      : Type 0 where
    pub new_key : any (has_key a p) db0.messages ≡ false
    pub new_id : any (has_id id) db0.messages ≡ false
    pub row : Message F
    pub of : IsRowOf a p id action row
    pub change : Change action row db
    pub started : (jobs ≡ jobs0) ⊎ ((j : Job) × IsWork action id j × (jobs ≡ jobs0 ++ j ∷ []))

  -- The message was there, under its key, and nothing has happened.
  pub record IsReplayOf (a : ℕ) (p : Text) (id : ℕ) (db : Db F) (jobs : List Job) : Type 0 where
    pub row : Message F
    pub present : In row db0.messages
    pub keyed : has_key a p row ≡ true
    pub named : row.id ≡ id
    pub same : Same db jobs

  abbrev pub Received : ℕ → Text → ℕ → Action → Bool → Cond F
  Received a p id action true db jobs = IsReplayOf a p id db jobs
  Received a p id action false db jobs = IsStored a p id action db jobs

  -- The effect of `Ingest`, by its outcome: a failure has done nothing.
  abbrev pub Effect : ℕ → Text → Outcome → Cond F
  Effect a p (failed e) db jobs = Same db jobs
  Effect a p (done r) db jobs = Received a p r.message_id r.action r.is_replay db jobs

  -- How `CreateInboundMessage` ends.
  abbrev pub Created : Message F → Result ℕ → Cond F
  Created m (ok id) db jobs = (id ≡ m.id) × IsAdded m db × (jobs ≡ jobs0)
  Created m (err e) db jobs = Same db jobs

  created_if :
      (m : Message F) (jobs : List Job) (h k : Bool)
      → holds_key m db0.messages ≡ h
      → any (has_id m.id) db0.messages ≡ k
      → jobs ≡ jobs0
      → let r : Result ℕ × Db F =
          if h
          then (err no_rows, db0)
          else if k
          then (err unique_violation, db0)
          else (ok m.id, record db0 { messages = m ∷ db0.messages }) in
        Created m r.0 r.1 jobs
  created_if m jobs true k e1 e2 s = (refl, s)
  created_if m jobs false true e1 e2 s = (refl, s)
  created_if m jobs false false e1 e2 s = (refl, (e1, e2, refl), s)

  pub create-Created :
      (m : Message F) (db : Db F) (jobs : List Job)
      → Same db jobs
      → Created m (create_inbound_message m db).0 (create_inbound_message m db).1 jobs
  unfolding create_inbound_message
  create-Created m db jobs s = rw s.0 (created_if m jobs _ _ refl refl s.1)

  -- How the look-up of the stored message ends.
  abbrev pub Found : ℕ → Text → Result ℕ → Cond F
  Found a p (ok id) db jobs = IsReplayOf a p id db jobs
  Found a p (err e) db jobs = Same db jobs

  found_if :
      (a : ℕ) (p : Text) (db : Db F) (jobs : List Job) (o : Option (Message F))
      → find (has_key a p) db.messages ≡ o
      → Same db jobs
      → let r : Result ℕ × Db F = elim o [ none ↦ (err no_rows, db) | some m ↦ (ok m.id, db) ] in
        Found a p r.0 r.1 jobs
  found_if a p db jobs none e s = s
  found_if a p db jobs (some m) e s =
      let r =
        find-some (has_key a p) db0.messages m
          (ap (λ x. find (has_key a p) x.messages) (sym s.0) ∙ e) in
      record { row = m; present = r.0; keyed = r.1; named = refl; same = s }

  pub get-Found :
      (a : ℕ) (p : Text) (db : Db F) (jobs : List Job)
      → Same db jobs
      → Found a p
          (get_message_id_by_platform_id a p db).0
          (get_message_id_by_platform_id a p db).1
          jobs
  unfolding get_message_id_by_platform_id
  get-Found a p db jobs s = found_if a p db jobs _ refl s
