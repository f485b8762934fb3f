-- ===== src/Ingest/Work.antt =====
-- What a started goroutine does: nothing is recorded that has not left the process.
use fieldwatchai_comms_openk.Prelude.{
  ℕ, suc, ◌≡◌, ◌≢◌, ◌⊎◌, inl, inr, refl, ap, ◌∙◌, subst, Bool, true, false, List, [], ◌∷◌, ◌++◌,
  if◌then◌else◌,
}
use fieldwatchai_comms_openk.Policy.{Action}
use fieldwatchai_comms_openk.Policy.Float.{Float64}
use fieldwatchai_comms_openk.Store.{Text, Account, Db, Result}
use fieldwatchai_comms_openk.Store.Queries.{create_outbound_message, mark_workflow_fired}
use fieldwatchai_comms_openk.World.{
  plain, Send, World, Job, dispatch, deliver, M, pure, query, fails, answer, new_id, next_fault,
  later_faults,
}
use fieldwatchai_comms_openk.Workflow.{Forward}
use fieldwatchai_comms_openk.Ingest.Base.{Deps}
use fieldwatchai_comms_openk.Ingest.Jobs.{
  reply_row, send, record_reply, dispatch_outbound, run_forward, run_job,
}

module _ {F : Type 0} where
  -- A statement that fails has no effect, and one that does not has its effect; it sends nothing.
  abbrev pub Written : {A : Type 0} → (Db F → Result A × Db F) → List Bool → Db F → Db F → Type 0
  Written q faults db db' =
      ((next_fault faults ≡ true) × (db' ≡ db)) ⊎ ((next_fault faults ≡ false) × (db' ≡ (q db).1))

  query_lem :
      {A : Type 0} (q : Db F → Result A × Db F) (w : World F)
      → Written q w.faults w.db (query q w).1.db
        × ((query q w).1.sends ≡ w.sends)
        × ((query q w).1.forwards ≡ w.forwards)
  unfolding query fails
  query_lem q w = by_fault (next_fault w.faults) refl
    where
      by_fault :
          (b : Bool)
          → next_fault w.faults ≡ b
          → let v = (answer b q (record w { faults = later_faults w.faults })).1 in
            Written q w.faults w.db v.db × (v.sends ≡ w.sends) × (v.forwards ≡ w.forwards)
      by_fault true e = (inl (e, refl), refl, refl)
      by_fault false e = (inr (e, refl), refl, refl)

  -- A test, with what it has shown.
  tested_lem :
      {A : Type 0} (b : Bool) (m n : M F A) (P : A × World F → Type 0) (w : World F)
      → (b ≡ true → P (m w))
      → (b ≡ false → P (n w))
      → P ((if b then m else n) w)
  tested_lem true m n P w x y = x refl
  tested_lem false m n P w x y = y refl

  credentials_lem :
      (credentials : Text) (m : M F (Unit {0})) (P : Unit {0} × World F → Type 0) (w : World F)
      → (credentials ≡ [] → P (tt, w))
      → (credentials ≢ [] → P (m w))
      → P ((elim credentials as (λ x. M F (Unit {0})) [ [] ↦ pure tt | c ∷ rest ↦ m ]) w)
  credentials_lem [] m P w x y = x refl
  credentials_lem (c ∷ rest) m P w x y = y (λ e. cc e)

module _ (f : Float64) (d : Deps f) where
  -- Why a reply is not sent: no credentials, credentials that do not decrypt, no adapter, or a
  -- platform that refuses it.
  abbrev pub IsUnsendable : Account → List Bool → Type 0
  IsUnsendable acct faults =
      (acct.credentials_encrypted ≡ [])
      ⊎ (next_fault faults ≡ true)
      ⊎ (d.registered acct.type ≡ false)
      ⊎ (next_fault (later_faults faults) ≡ true)

  -- The effect of a job, by the calls that fail.
  abbrev pub Worked : Job → World f.F → World f.F → Type 0
  Worked (deliver url id fw) w v =
      ((next_fault w.faults ≡ true) × (v.db ≡ w.db) × (v.forwards ≡ w.forwards))
      ⊎ ((next_fault w.faults ≡ false)
          × (v.forwards ≡ w.forwards ++ (url, fw) ∷ [])
          × Written (mark_workflow_fired id) (later_faults w.faults) w.db v.db)
  Worked (dispatch acct i to body label) w v =
      (IsUnsendable acct w.faults × (v.db ≡ w.db) × (v.sends ≡ w.sends))
      ⊎ ((¬ IsUnsendable acct w.faults)
          × (v.sends ≡ w.sends ++ record { account_id = acct.id; message = plain to body } ∷ [])
          × ((pmid : Text) × (id : ℕ) × Written
                (create_outbound_message (reply_row f d acct i body label pmid id))
                (later_faults (later_faults w.faults)) w.db v.db))

  deliver_lem :
      (url : Text) (id : ℕ) (fw : Forward) (w : World f.F)
      → Worked (deliver url id fw) w (run_forward f d url id fw w).1
  unfolding run_forward fails
  deliver_lem url id fw w =
      let x = record w { faults = later_faults w.faults } in
      let r =
        query_lem (mark_workflow_fired id) (record x { forwards = w.forwards ++ (url, fw) ∷ [] }) in
      tested_lem (next_fault w.faults) _ _ (λ v. Worked (deliver url id fw) w v.1) x
        (λ e. inl (e, refl, refl)) (λ e. inr (e, r.2, r.0))

  send_lem :
      (s : Send) (w : World f.F)
      → ((send f d s w).1.db ≡ w.db)
        × ((send f d s w).1.sends ≡ w.sends ++ s ∷ [])
        × ((send f d s w).1.faults ≡ w.faults)
  unfolding send new_id
  send_lem s w = sent (d.platform_id s)
    where
      sent :
          (id : Text)
          → let y = record w { sends = w.sends ++ s ∷ [] } in
            let v : Text × World f.F = elim id [
              | [] ↦ (d.show_uuid (d.ids w.drawn), record y { drawn = suc w.drawn })
              | c ∷ rest ↦ (c ∷ rest, y)
            ] in
            (v.1.db ≡ w.db) × (v.1.sends ≡ w.sends ++ s ∷ []) × (v.1.faults ≡ w.faults)
      sent [] = (refl, refl, refl)
      sent (c ∷ id) = (refl, refl, refl)

  record_lem :
      (acct : Account) (i : ℕ) (to body : Text) (label : Action) (w x : World f.F)
      → ¬ IsUnsendable acct w.faults
      → x.db ≡ w.db
      → x.sends ≡ w.sends
      → x.faults ≡ later_faults (later_faults w.faults)
      → Worked (dispatch acct i to body label) w (record_reply f d acct i to body label x).1
  unfolding record_reply new_id
  record_lem acct i to body label w x s e1 e2 e3 =
      let reply : Send = record { account_id = acct.id; message = plain to body } in
      let sent = send_lem reply x in
      let y = (send f d reply x).1 in
      let row = reply_row f d acct i body label (send f d reply x).0 (d.ids y.drawn) in
      let r = query_lem (create_outbound_message row) (record y { drawn = suc y.drawn }) in
      inr (
        s,
        r.1 ∙ (sent.1 ∙ ap (λ z. z ++ reply ∷ []) e2),
        (
          (send f d reply x).0,
          d.ids y.drawn,
          moved (create_outbound_message row) y.faults (sent.2 ∙ e3) y.db (sent.0 ∙ e1) r.0,
        ),
      )
    where
      moved :
          {A : Type 0} (q : Db f.F → Result A × Db f.F) (faults : List Bool)
          → {later : List Bool} → faults ≡ later
          → (db : Db f.F) → {db0 db' : Db f.F} → db ≡ db0
          → Written q faults db db'
          → Written q later db0 db'
      moved q faults {later} p db {db0} {db'} e h =
          subst (λ l. Written q l db0 db') p (subst (λ z. Written q faults z db') e h)

  dispatch_lem :
      (acct : Account) (i : ℕ) (to body : Text) (label : Action) (w : World f.F)
      → Worked (dispatch acct i to body label) w (dispatch_outbound f d acct i to body label w).1
  unfolding dispatch_outbound fails
  dispatch_lem acct i to body label w =
      let x = record w { faults = later_faults w.faults } in
      let y = record x { faults = later_faults x.faults } in
      let P : Unit {0} × World f.F → Type 0 = λ v. Worked (dispatch acct i to body label) w v.1 in
      credentials_lem acct.credentials_encrypted _ P w (λ e. inl (inl e, refl, refl))
        (λ c.
          tested_lem (next_fault w.faults) _ _ P x (λ e. inl (inr (inl e), refl, refl))
            (λ u.
              tested_lem (d.registered acct.type) _ _ P x
                (λ g.
                  tested_lem (next_fault x.faults) _ _ P y
                    (λ e. inl (inr (inr (inr e)), refl, refl))
                    (λ a.
                      record_lem acct i to body label w y (sendable acct w.faults c u g a) refl refl
                        refl))
                (λ e. inl (inr (inr (inl e)), refl, refl))))
    where
      sendable :
          (acct : Account) (faults : List Bool)
          → acct.credentials_encrypted ≢ []
          → next_fault faults ≡ false
          → d.registered acct.type ≡ true
          → next_fault (later_faults faults) ≡ false
          → ¬ IsUnsendable acct faults
      sendable acct faults c u g a (inl e) = c e
      sendable acct faults c u g a (inr (inl e)) = cc (u, e)
      sendable acct faults c u g a (inr (inr (inl e))) = cc (g, e)
      sendable acct faults c u g a (inr (inr (inr e))) = cc (a, e)

  -- A job, whichever calls fail. A delivery that fails changes nothing; one that succeeds has
  -- forwarded its payload once, and marks the message as fired, unless that statement fails and
  -- changes nothing. A reply is not sent, and nothing recorded, exactly if the account has no
  -- credentials, they do not decrypt, its type has no adapter, or the platform refuses the reply;
  -- else it is sent once, to the address and with the text of the job, and is recorded by one
  -- outbound row that names the message it replies to, unless that statement fails and changes
  -- nothing.
  pub run_job-Worked : (job : Job) (w : World f.F) → Worked job w (run_job f d job w).1
  unfolding run_job
  run_job-Worked (deliver url id fw) w = deliver_lem url id fw w
  run_job-Worked (dispatch acct i to body label) w = dispatch_lem acct i to body label w
