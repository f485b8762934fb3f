-- ===== src/Replay/Effect.antt =====
-- What a replay delivers, marks and reports, whichever deliveries and statements fail.
use fieldwatchai_comms_openk.Prelude.{
  ℕ, suc, ◌+◌, ◌≡◌, ◌⊎◌, inl, inr, refl, sym, ap, ◌∙◌, Bool, true, false, Option, none, some, List,
  [], ◌∷◌, ◌++◌, take, map, append_assoc, append-nil, arith, length, length-append, comparable_nat,
  Bool-cases,
}
use fieldwatchai_comms_openk.Store.{Text, Db, ok, err}
use fieldwatchai_comms_openk.Store.Queries.{mark_workflow_fired}
use fieldwatchai_comms_openk.Store.Unfired.{UnfiredRow, list_unfired_forwards, unfired_rows, older}
use fieldwatchai_comms_openk.Store.Select.{sort_by}
use fieldwatchai_comms_openk.Workflow.{Forward}
use fieldwatchai_comms_openk.World.{World, query, fails, answer, next_fault, later_faults}
use fieldwatchai_comms_openk.World.Cases.{if_lem}
use fieldwatchai_comms_openk.Replay.{
  Request, Cause, undelivered, unmarked, Failure, Reading, Summary, Refusal, Outcome, done, refused,
  rebuild_forward, delivered, replay_one, told, replay_rows, list_rows, begun, params_of,
  run_listed, run_rows, limit_of,
}

module _ (r : Reading) {F : Type 0} where
  -- What one row adds to the forwards, to the marked ids and to the failures, by its outcome.
  abbrev pub sent : UnfiredRow F → Option Cause → List (Text × Forward)
  sent row none = (row.workflow_url, rebuild_forward r row) ∷ []
  sent row (some unmarked) = (row.workflow_url, rebuild_forward r row) ∷ []
  sent row (some undelivered) = []

  abbrev pub fired : UnfiredRow F → Option Cause → List ℕ
  fired row none = row.message.id ∷ []
  fired row (some cause) = []

  abbrev pub failed : UnfiredRow F → Option Cause → List Failure
  failed row none = []
  failed row (some cause) = record { message_id = row.message.id; error = cause } ∷ []

  -- The same of all rows with their outcomes.
  abbrev pub all_of :
      {A : Type 0}
      → (UnfiredRow F → Option Cause → List A)
      → List (UnfiredRow F × Option Cause)
      → List A
  all_of g [] = []
  all_of g ((row, cause) ∷ pairs) = g row cause ++ all_of g pairs

  -- The marks of `MarkWorkflowFired`, one by one.
  abbrev pub mark_all : List ℕ → Db F → Db F
  mark_all [] db = db
  mark_all (id ∷ ids) db = mark_all ids (mark_workflow_fired id db).1

  mark_all-append :
      (xs ys : List ℕ) (db : Db F) → mark_all (xs ++ ys) db ≡ mark_all ys (mark_all xs db)
  mark_all-append [] ys db = refl
  mark_all-append (x ∷ xs) ys db = mark_all-append xs ys (mark_workflow_fired x db).1

  -- The effect of one delivery.
  record One (row : UnfiredRow F) (w : World F) (cause : Option Cause) (v : World F) : Type 0 where
    forwards : v.forwards ≡ w.forwards ++ sent row cause
    db : v.db ≡ mark_all (fired row cause) w.db

  marked_if :
      (row : UnfiredRow F) (w x : World F)
      → x.db ≡ w.db
      → x.forwards ≡ w.forwards ++ (row.workflow_url, rebuild_forward r row) ∷ []
      → (b : Bool)
      → let v = answer b (mark_workflow_fired row.message.id) x in
        let cause : Option Cause = elim v.0 [ ok u ↦ none | err e ↦ some unmarked ] in
        One row w cause v.1
  unfolding answer mark_workflow_fired
  marked_if row w x e1 e2 true = record { forwards = e2; db = e1 }
  marked_if row w x e1 e2 false = record {
    forwards = e2;
    db = ap (λ (y : Db F). (mark_workflow_fired row.message.id y).1) e1;
  }

  one_lem :
      (row : UnfiredRow F) (w : World F) → One row w (replay_one r row w).0 (replay_one r row w).1
  unfolding replay_one fails delivered query
  one_lem row w =
      let x = record w { faults = later_faults w.faults } in
      let y = record x {
        faults = later_faults x.faults;
        forwards = w.forwards ++ (row.workflow_url, rebuild_forward r row) ∷ [];
      } in
      if_lem (next_fault w.faults) _ _ (λ x. One row w x.0 x.1) x
        (record { forwards = sym (append-nil w.forwards); db = refl })
        (marked_if row w y refl refl (next_fault x.faults))

  -- The rows of a run with their outcomes, and the effect of the run.
  pub record Replayed (rows : List (UnfiredRow F)) (w : World F) (res : Summary) (v : World F)
      : Type 0 where
    pub outcomes : List (UnfiredRow F × Option Cause)
    pub of_rows : map (λ p. p.0) outcomes ≡ rows
    pub forwards : v.forwards ≡ w.forwards ++ all_of sent outcomes
    pub db : v.db ≡ mark_all (all_of fired outcomes) w.db
    pub replayed : res.replayed ≡ length (all_of fired outcomes)
    pub failures : res.failures ≡ all_of failed outcomes
    pub counted : res.replayed + res.failed ≡ length rows
    pub message_ids : res.message_ids ≡ map (λ r. r.message.id) rows

  -- The rows of a run from a result that is begun.
  record More (rows : List (UnfiredRow F)) (w : World F) (res : Summary) (out : Summary)
      (v : World F) : Type 0 where
    outcomes : List (UnfiredRow F × Option Cause)
    of_rows : map (λ p. p.0) outcomes ≡ rows
    forwards : v.forwards ≡ w.forwards ++ all_of sent outcomes
    db : v.db ≡ mark_all (all_of fired outcomes) w.db
    replayed : out.replayed ≡ res.replayed + length (all_of fired outcomes)
    failures : out.failures ≡ res.failures ++ all_of failed outcomes
    counted : out.replayed + out.failed ≡ res.replayed + res.failed + length rows
    message_ids : out.message_ids ≡ res.message_ids ++ map (λ r. r.message.id) rows
    candidates : out.candidates ≡ res.candidates
    dry : out.dry_run ≡ res.dry_run

  told_lem :
      (row : UnfiredRow F) (cause : Option Cause) (res : Summary)
      → ((told row cause res).replayed ≡ res.replayed + length (fired row cause))
        × ((told row cause res).failures ≡ res.failures ++ failed row cause)
        × ((told row cause res).replayed + (told row cause res).failed
            ≡ suc (res.replayed + res.failed))
        × ((told row cause res).message_ids ≡ res.message_ids ++ row.message.id ∷ [])
        × ((told row cause res).candidates ≡ res.candidates)
        × ((told row cause res).dry_run ≡ res.dry_run)
  unfolding told
  told_lem row none res =
      (omega arith, sym (append-nil res.failures), omega arith, refl, refl, refl)
  told_lem row (some cause) res = (omega arith, refl, omega arith, refl, refl, refl)

  rows_lem :
      (rows : List (UnfiredRow F)) (res : Summary) (w : World F)
      → More rows w res (replay_rows r rows res w).0 (replay_rows r rows res w).1
  unfolding replay_rows told
  rows_lem [] res w = record {
    outcomes = [];
    of_rows = refl;
    forwards = sym (append-nil w.forwards);
    db = refl;
    replayed = omega arith;
    failures = sym (append-nil res.failures);
    counted = omega arith;
    message_ids = sym (append-nil res.message_ids);
    candidates = refl;
    dry = refl;
  }
  rows_lem (row ∷ rows) res w =
      let cause = (replay_one r row w).0 in
      let v = (replay_one r row w).1 in
      let one = one_lem row w in
      let t = told_lem row cause res in
      let rest = rows_lem rows (told row cause res) v in
      record {
        outcomes = (row, cause) ∷ rest.outcomes;
        of_rows = ap (λ rs. row ∷ rs) rest.of_rows;
        forwards =
            rw (rest.forwards, one.forwards)
              (append_assoc w.forwards (sent row cause) (all_of sent rest.outcomes));
        db =
            rest.db
            ∙ ap (mark_all (all_of fired rest.outcomes)) one.db
            ∙ sym (mark_all-append (fired row cause) (all_of fired rest.outcomes) w.db);
        replayed = omega (
          arith,
          rest.replayed,
          t.0,
          length-append (fired row cause) (all_of fired rest.outcomes),
        );
        failures =
            rw (rest.failures, t.1)
              (append_assoc res.failures (failed row cause) (all_of failed rest.outcomes));
        counted = omega (arith, rest.counted, t.2);
        message_ids =
            rw (rest.message_ids, t.3)
              (append_assoc res.message_ids (row.message.id ∷ []) (map (λ r. r.message.id) rows));
        candidates = rest.candidates ∙ t.4;
        dry = rest.dry ∙ t.5;
      }

  replayed_lem :
      (rows : List (UnfiredRow F)) (w x : World F)
      → x.db ≡ w.db
      → x.forwards ≡ w.forwards
      → let y = replay_rows r rows (begun rows false) x in Replayed rows w y.0 y.1
  replayed_lem rows w x e1 e2 =
      let m = rows_lem rows (begun rows false) x in
      record {
        outcomes = m.outcomes;
        of_rows = m.of_rows;
        forwards = m.forwards ∙ ap (λ z. z ++ all_of sent m.outcomes) e2;
        db = m.db ∙ ap (mark_all (all_of fired m.outcomes)) e1;
        replayed = omega (arith, m.replayed);
        failures = m.failures;
        counted = omega (arith, m.counted);
        message_ids = m.message_ids;
      }

  list_rows_lem :
      (rows : List (UnfiredRow F)) (res : Summary)
      → list_rows rows res
        ≡ record res { message_ids = res.message_ids ++ map (λ r. r.message.id) rows }
  unfolding list_rows
  list_rows_lem [] res = λ i. record res { message_ids = sym (append-nil res.message_ids) i }
  list_rows_lem (row ∷ rows) res =
      list_rows_lem rows (record res { message_ids = res.message_ids ++ row.message.id ∷ [] })
      ∙ (λ i. record res {
        message_ids =
            append_assoc res.message_ids (row.message.id ∷ []) (map (λ r. r.message.id) rows) i;
      })

  -- The rows that a request selects.
  abbrev pub rows_of : Request → Db F → List (UnfiredRow F)
  rows_of req db = take (limit_of req.limit) (sort_by older (unfired_rows (params_of req) db))

  -- The outcome and the effect of a run.
  abbrev pub Ran : Request → World F → Outcome → World F → Type 0
  Ran req w out v =
      ((why : Refusal) × (out ≡ refused why) × (v.db ≡ w.db) × (v.forwards ≡ w.forwards))
      ⊎ ((req.dry_run ≡ true)
          × (out
              ≡ done (record (begun (rows_of req w.db) true) {
                message_ids = map (λ r. r.message.id) (rows_of req w.db);
              }))
          × (v.db ≡ w.db)
          × (v.forwards ≡ w.forwards))
      ⊎ ((req.dry_run ≡ false)
          × ((res : Summary) × (out ≡ done res) × Replayed (rows_of req w.db) w res v))

  listed_lem :
      (req : Request) (w x : World F) (b : Bool)
      → x.db ≡ w.db
      → x.forwards ≡ w.forwards
      → req.dry_run ≡ b
      → let y = run_listed r req (ok (rows_of req w.db)) x in Ran req w y.0 y.1
  unfolding run_listed
  listed_lem req w x true e1 e2 e = rw e (
      inr (
        inl (
          refl,
          ap done (list_rows_lem (rows_of req w.db) (begun (rows_of req w.db) true)),
          e1,
          e2,
        )))
  listed_lem req w x false e1 e2 e =
      rw e (inr (inr (refl, (_, refl, replayed_lem (rows_of req w.db) w x e1 e2))))

  pub run_rows-Ran :
      (req : Request) (w : World F) → Ran req w (run_rows r req w).0 (run_rows r req w).1
  unfolding run_rows query fails answer list_unfired_forwards run_listed
  run_rows-Ran req w = by_fault (next_fault w.faults)
    where
      by_fault :
          (b : Bool)
          → let x =
              answer b
                (list_unfired_forwards (params_of req))
                (record w { faults = later_faults w.faults }) in
            let y = run_listed r req x.0 x.1 in Ran req w y.0 y.1
      by_fault true = inl (_, refl, refl, refl)
      by_fault false = elim (Bool-cases req.dry_run) [
        | inl e ↦ listed_lem req w _ true refl refl e
        | inr e ↦ listed_lem req w _ false refl refl e
      ]
