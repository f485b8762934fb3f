-- ===== src/Ingest/Repeat.antt =====
-- Repeated deliveries of a message.
use fieldwatchai_comms_openk.Prelude.{
  ℕ, ◌≡◌, inl, inr, sym, subst, Bool, true, false, some, List, any, arith,
}
use fieldwatchai_comms_openk.Canonical
use fieldwatchai_comms_openk.Policy.{Action}
use fieldwatchai_comms_openk.Policy.Float.{Float64}
use fieldwatchai_comms_openk.Store.{Text, Message, Db}
use fieldwatchai_comms_openk.Store.Queries.{has_key}
use fieldwatchai_comms_openk.Store.Keys.{any-In, has_key_lem}
use fieldwatchai_comms_openk.World.{Job, World}
use fieldwatchai_comms_openk.Ingest.Base.{Deps, Receipt, Outcome, done, failed}
use fieldwatchai_comms_openk.Ingest.Steps.{ingest}
use fieldwatchai_comms_openk.Ingest.Effect.{IsRowOf, Received, Same, Change, Effect}
use fieldwatchai_comms_openk.Ingest.Once.{IsRecallable, ingest-Effect}

module _ {F : Type 0} (db0 : Db F) (jobs0 : List Job) (Q : Message F → Type 0) (a : ℕ)
    (p : Text) where
  known_received :
      (i : ℕ) (action : Action) (b : Bool) (db : Db F) (jobs : List Job)
      → Received db0 jobs0 Q a p i action b db jobs
      → any (has_key a p) db0.messages ≡ true
      → Same db0 jobs0 Q db jobs
  known_received i action true db jobs h k = h.same
  known_received i action false db jobs h k = absurd (ground (arith, h.new_key, k))

  pub known_same :
      (o : Outcome) (db : Db F) (jobs : List Job)
      → Effect db0 jobs0 Q a p o db jobs
      → any (has_key a p) db0.messages ≡ true
      → Same db0 jobs0 Q db jobs
  known_same (failed e) db jobs h k = h
  known_same (done r) db jobs h k = known_received r.message_id r.action r.is_replay db jobs h k

  Change-has_key :
      (id : ℕ) (action : Action) (row : Message F) (db : Db F)
      → IsRowOf a p id action row
      → Change db0 jobs0 Q action row db
      → any (has_key a p) db.messages ≡ true
  Change-has_key id action row db of (inl e) =
      let h = has_key_lem a p row of.1 of.2 in rw e (ground (arith, h))
  Change-has_key id action row db of (inr x) =
      let h = has_key_lem a p row of.1 of.2 in rw x.4 (ground (arith, h))

  pub received_key :
      (i : ℕ) (action : Action) (b : Bool) (db : Db F) (jobs : List Job)
      → Received db0 jobs0 Q a p i action b db jobs
      → any (has_key a p) db.messages ≡ true
  received_key i action true db jobs h =
      subst (λ (x : Db F). any (has_key a p) x.messages ≡ true) (sym h.same.0)
        (any-In (has_key a p) h.row db0.messages h.present h.keyed)
  received_key i action false db jobs h = Change-has_key i action h.row db h.of h.change

module _ (f : Float64) (d : Deps f) (msg : Canonical.Message) (a : ℕ) where
  -- A message whose account id parses and whose key is stored is not stored again: whatever the
  -- outcome of the call and whichever statements fail, the database and the started work are as
  -- they were.
  pub ingest_known :
      (w : World f.F)
      → d.parse_uuid msg.meta.account_id ≡ some a
      → any (has_key a msg.meta.platform_message_id) w.db.messages ≡ true
      → ((ingest f d msg w).1.db ≡ w.db) × ((ingest f d msg w).1.jobs ≡ w.jobs)
  ingest_known w e k =
      let r = ingest f d msg w in
      known_same w.db w.jobs (IsRecallable f d w.db a msg.sender_endpoint) a _ r.0 r.1.db r.1.jobs
        (ingest-Effect f d msg a w e) k

  -- A call that reports success, for an account id that parses, is repeated without effect on the
  -- database and the started work, whichever queries fail the second time.
  pub ingest_twice :
      (w : World f.F) (r : Receipt) (faults : List Bool)
      → d.parse_uuid msg.meta.account_id ≡ some a
      → (ingest f d msg w).0 ≡ done r
      → let once = (ingest f d msg w).1 in
        let twice = (ingest f d msg (record once { faults = faults })).1 in
        (twice.db ≡ once.db) × (twice.jobs ≡ once.jobs)
  ingest_twice w r faults e ok =
      let once = (ingest f d msg w).1 in
      let Q = IsRecallable f d w.db a msg.sender_endpoint in
      ingest_known (record once { faults = faults }) e
        (received_key w.db w.jobs Q a _ r.message_id r.action r.is_replay once.db once.jobs (
          subst (λ o. Effect w.db w.jobs Q a msg.meta.platform_message_id o once.db once.jobs) ok
            (ingest-Effect f d msg a w e)))
