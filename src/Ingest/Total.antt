-- ===== src/Ingest/Total.antt =====
-- `Ingest` where nothing fails: it succeeds.
use fieldwatchai_comms_openk.Prelude.{
  ℕ, suc, ◌-◌, keep, ◌≡◌, ◌⊎◌, inl, inr, refl, sym, ap, subst, Bool, true, false, Option, none,
  some, List, [], ◌∷◌, any, find, arith, ◌==◌, comparable_nat, comparable_list, codes,
  if◌then◌else◌, Bool-cases,
}
use fieldwatchai_comms_openk.Canonical
use fieldwatchai_comms_openk.Parser.{parse}
use fieldwatchai_comms_openk.Policy.{Action}
use fieldwatchai_comms_openk.Policy.Float.{Float64}
use fieldwatchai_comms_openk.Store.{Text, Message, Account, Db, no_rows, Result, ok, err}
use fieldwatchai_comms_openk.Store.Queries.{
  has_key, has_id, get_account_by_id, create_inbound_message, get_message_id_by_platform_id,
  find_recent_echo_for_sender, latest, is_recent_echo, list_contact_short_ids,
  get_inbound_channel_for_account,
}
use fieldwatchai_comms_openk.Store.Select.{one}
use fieldwatchai_comms_openk.World.{World, M, ◌>>=◌, ◌>>◌, pure, query, fails, answer, new_id}
use fieldwatchai_comms_openk.World.Cases.{if_lem}
use fieldwatchai_comms_openk.Ingest.Base.{
  Deps, Receipt, Outcome, done, failed, internal, invalid_account, account_not_found, text_or_null,
  ChannelCtx, deref, message_row, recall_row, resolve_channel,
}
use fieldwatchai_comms_openk.Ingest.Steps.{
  Decision, is_recall, receipt, follow_up, decide_text, persist, handle_command, handle_passthrough,
  handle_recall, store_recall, ingest_for, ingest,
}
use fieldwatchai_comms_openk.Ingest.Effect.{Effect}
use fieldwatchai_comms_openk.Ingest.Once.{IsRecallable, ingest-Effect}
use fieldwatchai_comms_openk.Ingest.Repeat.{received_key}

module _ {A : Type 0} where
  find-any : (p : A → Bool) (xs : List A) → any p xs ≡ true → (x : A) × (find p xs ≡ some x)
  find-any p [] e = absurd (cc e)
  find-any p (x ∷ xs) e = elim (Bool-cases (p x)) [
    | inl h ↦ (x, ground (arith, h))
    | inr h ↦ let r = find-any p xs (ground (arith, e, h)) in (r.0, ground (arith, h, r.1))
  ]

module _ (f : Float64) (d : Deps f) where
  abbrev pub Succeeds : Outcome × World f.F → Type 0
  Succeeds r = (x : Receipt) × (r.0 ≡ done x)

  -- The world with no failures to come.
  abbrev pub calm : World f.F → World f.F
  calm w = record w { faults = [] }

  -- The next id is that of no message.
  abbrev pub IsFresh : World f.F → Type 0
  IsFresh w = any (has_id (d.ids w.drawn)) w.db.messages ≡ false

  -- A statement that does not fail, and what follows it.
  calm_query :
      {A B : Type 0} (q : Db f.F → Result A × Db f.F) (k : Result A → M f.F B) (w : World f.F)
      (r : Result A) (db : Db f.F) (P : B × World f.F → Type 0)
      → q w.db ≡ (r, db)
      → P (k r (calm (record w { db = db })))
      → P (k (query q (calm w)).0 (query q (calm w)).1)
  unfolding query fails answer
  calm_query q k w r db P e x = subst (λ z. P (k z.0 (calm (record w { db = z.1 })))) (sym e) x

  present_lem :
      (a : ℕ) (p : Text) (db : Db f.F)
      → any (has_key a p) db.messages ≡ true
      → (i : ℕ) × (get_message_id_by_platform_id a p db ≡ (ok i, db))
  unfolding get_message_id_by_platform_id
  present_lem a p db e =
      let r = find-any (has_key a p) db.messages e in
      (r.0.id, rw (r.1, get_message_id_by_platform_id) refl)

  created_lem :
      (m : Message f.F) (a : ℕ) (p : Text) (db : Db f.F)
      → m.account_id ≡ some a
      → m.platform_message_id ≡ p
      → any (has_id m.id) db.messages ≡ false
      → ((any (has_key a p) db.messages ≡ true) × (create_inbound_message m db ≡ (err no_rows, db)))
        ⊎ (create_inbound_message m db ≡ (ok m.id, record db { messages = m ∷ db.messages }))
  unfolding create_inbound_message
  created_lem m a p db e1 e2 new = elim (Bool-cases (any (has_key a p) db.messages)) [
    | inl h ↦ inl (h, rw (e1, e2, h) refl)
    | inr h ↦ inr (rw (e1, e2, h, new) refl)
  ]

  abbrev looked_up : Action → Result ℕ → M f.F Outcome
  looked_up action existing =
      pure (elim existing [ ok old ↦ receipt old true action | err e ↦ failed internal ])

  abbrev answered : ℕ → Text → Action → (ℕ → M f.F (Unit {0})) → Result ℕ → M f.F Outcome
  answered a p action continue r = elim r [
    | ok stored ↦ do continue stored; pure (receipt stored false action)
    | err no_rows ↦ query (get_message_id_by_platform_id a p) >>= looked_up action
    | err e ↦ pure (failed internal)
  ]

  persist_total :
      (row : ℕ → Message f.F) (a : ℕ) (p : Text) (action : Action) (continue : ℕ → M f.F (Unit {0}))
      (w : World f.F)
      → ((i : ℕ) → (row i).id ≡ i)
      → ((i : ℕ) → (row i).account_id ≡ some a)
      → ((i : ℕ) → (row i).platform_message_id ≡ p)
      → IsFresh w
      → Succeeds (persist f d row a p action continue (calm w))
  unfolding persist new_id
  persist_total row a p action continue w ids accounts platforms fresh =
      let i = d.ids w.drawn in
      let drawn = record w { drawn = suc w.drawn } in
      let new = subst (λ j. any (has_id j) w.db.messages ≡ false) (sym (ids i)) fresh in
      elim (created_lem (row i) a p w.db (accounts i) (platforms i) new) [
        | inl h ↦
            let r = present_lem a p w.db h.0 in
            calm_query (create_inbound_message (row i)) (answered a p action continue) drawn
              (err no_rows) w.db Succeeds h.1
              (calm_query (get_message_id_by_platform_id a p) (looked_up action) drawn (ok r.0) w.db
                Succeeds r.1 (record { message_id = r.0; is_replay = true; action = action }, refl))
        | inr h ↦
            calm_query (create_inbound_message (row i)) (answered a p action continue) drawn
              (ok (row i).id) (record w.db { messages = row i ∷ w.db.messages }) Succeeds h
              (record { message_id = (row i).id; is_replay = false; action = action }, refl)
      ]

  handle_passthrough_total :
      (acct : Account) (a : ℕ) (msg : Canonical.Message) (ch : ChannelCtx f) (w : World f.F)
      → IsFresh w
      → Succeeds (handle_passthrough f d acct a msg ch (calm w))
  unfolding handle_passthrough message_row
  handle_passthrough_total acct a msg ch w fresh =
      persist_total _ a msg.meta.platform_message_id _ _ w (λ i. refl) (λ i. refl) (λ i. refl) fresh

  store_recall_total :
      (acct : Account) (a : ℕ) (msg : Canonical.Message) (found : Option (Message f.F))
      (w : World f.F)
      → IsFresh w
      → Succeeds (store_recall f d acct a msg found (calm w))
  unfolding store_recall recall_row message_row
  store_recall_total acct a msg found w fresh =
      persist_total _ a msg.meta.platform_message_id _ _ w (λ i. refl) (λ i. refl) (λ i. refl) fresh

  abbrev recalled_of : Account → ℕ → Canonical.Message → Result (Message f.F) → M f.F Outcome
  recalled_of acct a msg r = elim r [
    | ok m ↦ store_recall f d acct a msg (some m)
    | err no_rows ↦ store_recall f d acct a msg none
    | err e ↦ pure (failed internal)
  ]

  handle_recall_total :
      (acct : Account) (a : ℕ) (msg : Canonical.Message) (seconds : ℕ) (w : World f.F)
      → IsFresh w
      → Succeeds (handle_recall f d acct a msg seconds (calm w))
  unfolding handle_recall find_recent_echo_for_sender
  handle_recall_total acct a msg seconds w fresh =
      by_echo
        (latest (
          keep (is_recent_echo a (text_or_null msg.sender_endpoint) (d.now - seconds))
            w.db.messages))
        refl
    where
      q : Db f.F → Result (Message f.F) × Db f.F
      q = find_recent_echo_for_sender a (text_or_null msg.sender_endpoint) (d.now - seconds)

      by_echo :
          (o : Option (Message f.F))
          → latest (
              keep
                (is_recent_echo a (text_or_null msg.sender_endpoint) (d.now - seconds))
                w.db.messages)
            ≡ o
          → Succeeds ((query q >>= recalled_of acct a msg) (calm w))
      by_echo none e =
          calm_query q (recalled_of acct a msg) w (err no_rows) w.db Succeeds
            (ap (λ x. (one x, w.db)) e) (store_recall_total acct a msg none w fresh)
      by_echo (some m) e =
          calm_query q (recalled_of acct a msg) w (ok m) w.db Succeeds (ap (λ x. (one x, w.db)) e)
            (store_recall_total acct a msg (some m) w fresh)

  abbrev decided :
      Account → ℕ → Canonical.Message → ChannelCtx f → Option (Decision f.F) → M f.F Outcome
  decided acct a msg ch r = elim r [
    | none ↦ pure (failed internal)
    | some dec ↦
        persist f d (message_row f d acct a msg ch dec.doc dec.action) a
          msg.meta.platform_message_id dec.action (follow_up f d acct ch msg dec)
  ]

  decided_total :
      (acct : Account) (a : ℕ) (msg : Canonical.Message) (ch : ChannelCtx f) (dec : Decision f.F)
      (w : World f.F)
      → IsFresh w
      → Succeeds (decided acct a msg ch (some dec) (calm w))
  unfolding message_row
  decided_total acct a msg ch dec w fresh =
      persist_total _ a msg.meta.platform_message_id _ _ w (λ i. refl) (λ i. refl) (λ i. refl) fresh

  -- Without failures the text is decided, and nothing changes.
  decide_text_total :
      (tenant_id : ℕ) (text : Text) (ch : ChannelCtx f) (w : World f.F)
      → (dec : Decision f.F) × (decide_text f d tenant_id text ch.parser_cfg ch.thresholds (calm w)
          ≡ (some dec, calm w))
  unfolding decide_text query fails answer list_contact_short_ids
  decide_text_total tenant_id text ch w =
      if_lem (parse d.unicode text ch.parser_cfg).ok _ _
        (λ r. (dec : Decision f.F) × (r ≡ (some dec, calm w))) (calm w) (_, refl) (_, refl)

  handle_command_total :
      (acct : Account) (a : ℕ) (msg : Canonical.Message) (ch : ChannelCtx f) (w : World f.F)
      → IsFresh w
      → Succeeds (handle_command f d acct a msg ch (calm w))
  unfolding handle_command
  handle_command_total acct a msg ch w fresh =
      let r = decide_text_total acct.tenant_id (deref msg.body.text) ch w in
      subst (λ z. Succeeds (decided acct a msg ch z.0 z.1)) (sym r.1)
        (decided_total acct a msg ch r.0 w fresh)

  active_lem :
      (b : Bool) (m n : M f.F Outcome) (w : World f.F)
      → b ≡ true
      → Succeeds (m w)
      → Succeeds ((if b then m else n) w)
  active_lem true m n w e x = x
  active_lem false m n w e x = cc e

  ingest_for_total :
      (acct : Account) (a : ℕ) (msg : Canonical.Message) (w : World f.F)
      → acct.status ≡ codes "active"
      → IsFresh w
      → Succeeds (ingest_for f d acct a msg (calm w))
  unfolding ingest_for resolve_channel query fails answer get_inbound_channel_for_account
  ingest_for_total acct a msg w active fresh =
      let ch = (resolve_channel f d a (calm w)).0 in
      active_lem (acct.status == codes "active") _ _ (calm w)
        (subst (λ s. (s == codes "active") ≡ true) (sym active) refl)
        (if_lem (is_recall f d (deref msg.body.text)) _ _ Succeeds (calm w)
          (handle_recall_total acct a msg ch.recall_seconds w fresh)
          (if_lem (ch.mode == codes "passthrough") _ _ Succeeds (calm w)
            (handle_passthrough_total acct a msg ch w fresh)
            (handle_command_total acct a msg ch w fresh)))

  -- `Ingest` for an account id that parses, where the account exists and is active, no statement
  -- fails, and the next new id is that of no message: it succeeds, whatever the message, and a message
  -- with its account and platform message id is stored afterwards.
  pub ingest_total :
      (msg : Canonical.Message) (a : ℕ) (acct : Account) (w : World f.F)
      → d.parse_uuid msg.meta.account_id ≡ some a
      → (get_account_by_id a w.db).0 ≡ ok acct
      → acct.status ≡ codes "active"
      → IsFresh w
      → let r = ingest f d msg (calm w) in
        Succeeds r × (any (has_key a msg.meta.platform_message_id) r.1.db.messages ≡ true)
  unfolding ingest get_account_by_id
  ingest_total msg a acct w parses exists active fresh =
      let r = ingest f d msg (calm w) in
      let accept : Result Account → M f.F Outcome = λ x. elim x [
        | ok acct ↦ ingest_for f d acct a msg
        | err no_rows ↦ pure (failed account_not_found)
        | err e ↦ pure (failed internal)
      ] in
      let whole : Option ℕ → M f.F Outcome = λ o. elim o [
        | none ↦ pure (failed invalid_account)
        | some a ↦ do
          x ← query (get_account_by_id a)
          elim x [
            | ok acct ↦ ingest_for f d acct a msg
            | err no_rows ↦ pure (failed account_not_found)
            | err e ↦ pure (failed internal)
          ]
      ] in
      let done_ : Succeeds r =
        subst (λ o. Succeeds (whole o (calm w))) (sym parses)
          (calm_query (get_account_by_id a) accept w (ok acct) w.db Succeeds
            (ap (λ x. (x, w.db)) exists) (ingest_for_total acct a msg w active fresh)) in
      let Q = IsRecallable f d w.db a msg.sender_endpoint in
      let x = done_.0 in
      (
        done_,
        received_key w.db w.jobs Q a _ x.message_id x.action x.is_replay r.1.db r.1.jobs (
            subst (λ o. Effect w.db w.jobs Q a msg.meta.platform_message_id o r.1.db r.1.jobs)
              done_.1 (ingest-Effect f d msg a (calm w) parses)),
      )
