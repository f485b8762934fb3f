-- ===== src/Outbound/Sending.antt =====
-- `send` of outboundapi.go: what is sent and what is recorded.
use fieldwatchai_comms_openk.Prelude.{
  ℕ, suc, ◌≡◌, ◌⊎◌, inl, inr, refl, sym, ap, ◌∙◌, Bool, true, false, Option, none, some, [], ◌∷◌,
  ◌++◌, In, any, find, find-some, ◌==◌, ==_eq, comparable_nat, comparable_list, if◌then◌else◌, ◌||◌,
}
use fieldwatchai_comms_openk.Store.{Text, Message, Account, Db, unique_violation, Result, ok, err}
use fieldwatchai_comms_openk.Store.Select.{one}
use fieldwatchai_comms_openk.Store.Queries.{
  get_account_by_id, create_outbound_message, holds_key, has_id,
}
use fieldwatchai_comms_openk.World.{World, fails, new_id, pure, next_fault, Outgoing, plain, Send}
use fieldwatchai_comms_openk.World.Cases.{if_lem, spent, query_cases}
use fieldwatchai_comms_openk.Outbound.{
  Adapter, chat, rich, get, handed, tokenless, email_ses, build_reply, build_new,
}
use fieldwatchai_comms_openk.Outbound.Api.{
  Service, Failure, internal, Outcome, done, failed, Target, message_for, sent_row, transmit,
  recorded, record_sent, dispatch_to, with_adapter, with_credentials, send_from, with_account, send,
}

-- The two outcomes of `CreateOutboundMessage`.
create_cases :
    {F : Type 0} (m : Message F) (db : Db F)
    → (((create_outbound_message m db).0 ≡ err unique_violation)
        × ((create_outbound_message m db).1 ≡ db))
      ⊎ (((create_outbound_message m db).0 ≡ ok m.id)
          × ((create_outbound_message m db).1 ≡ record db { messages = m ∷ db.messages }))
unfolding create_outbound_message
create_cases {F} m db = by_test (holds_key m db.messages || any (has_id m.id) db.messages)
  where
    by_test :
        (b : Bool)
        → let r : Result ℕ × Db F =
            if b
            then (err unique_violation, db)
            else (ok m.id, record db { messages = m ∷ db.messages }) in
          ((r.0 ≡ err unique_violation) × (r.1 ≡ db))
          ⊎ ((r.0 ≡ ok m.id) × (r.1 ≡ record db { messages = m ∷ db.messages }))
    by_test true = inl (refl, refl)
    by_test false = inr (refl, refl)

handed-message_for :
    (s : Service) (adapter : Adapter) (acct : Account) (tgt : Target) (text subject : Text)
    → let msg = handed adapter (message_for s acct tgt text subject) in
      (msg.to ≡ tgt.endpoint) × (msg.body ≡ text)
unfolding message_for handed build_new build_reply
handed-message_for s adapter acct tgt text subject =
    by_type (acct.type == email_ses) adapter tgt.in_reply_to
  where
    by_type :
        (b : Bool) (adapter : Adapter) (o : Option ℕ)
        → let built : Outgoing =
            if b
            then elim o [
              | none ↦ build_new s.mailer acct.platform_identifier tgt.endpoint subject text
              | some id ↦
                  build_reply s.mailer acct.platform_identifier tgt.endpoint text tgt.raw_payload
            ]
            else plain tgt.endpoint text in
          let msg = handed adapter built in (msg.to ≡ tgt.endpoint) × (msg.body ≡ text)
    by_type true chat none = (refl, refl)
    by_type true chat (some id) = (refl, refl)
    by_type true rich none = (refl, refl)
    by_type true rich (some id) = (refl, refl)
    by_type false chat o = (refl, refl)
    by_type false rich o = (refl, refl)

module _ {F : Type 0} (s : Service) where
  -- The message is one of the account that the target names, to the target's address, with the text.
  pub record IsFor (tgt : Target) (text : Text) (db : Db F) (out : Send) : Type 0 where
    pub account : Account
    pub account_row : In account db.accounts
    pub named : account.id ≡ tgt.account_id
    pub from : out.account_id ≡ account.id
    pub to : out.message.to ≡ tgt.endpoint
    pub body : out.message.body ≡ text

  -- The outcome and the effect of a call: nothing is sent; or one message is, and it is recorded in one
  -- row, or the call fails.
  abbrev pub Sent : Target → Text → World F → Outcome → World F → Type 0
  Sent tgt text w out v =
      ((why : Failure) × (out ≡ failed why) × (v.db ≡ w.db) × (v.sends ≡ w.sends))
      ⊎ ((msg : Send) × IsFor tgt text w.db msg
          × (v.sends ≡ w.sends ++ msg ∷ [])
          × (((out ≡ failed internal) × (v.db ≡ w.db))
              ⊎ ((id : ℕ) × (platform_message_id : Text) × (out
                    ≡ done (record { message_id = id; dispatched_to = tgt.endpoint }))
                  × (v.db ≡ record w.db {
                    messages = sent_row s tgt text platform_message_id id ∷ w.db.messages;
                  }))))

  transmit_lem :
      (out : Send) (w : World F)
      → ((transmit s out w).1.db ≡ w.db) × ((transmit s out w).1.sends ≡ w.sends ++ out ∷ [])
  unfolding transmit new_id
  transmit_lem out w = by_id (s.platform_id out)
    where
      by_id :
          (id : Text)
          → let y = record w { sends = w.sends ++ out ∷ [] } in
            let v : Text × World F = elim id [
              | [] ↦ (s.show_uuid (s.ids w.drawn), record y { drawn = suc w.drawn })
              | c ∷ rest ↦ (c ∷ rest, y)
            ] in
            (v.1.db ≡ w.db) × (v.1.sends ≡ w.sends ++ out ∷ [])
      by_id [] = (refl, refl)
      by_id (c ∷ id) = (refl, refl)

  record_sent_lem :
      (tgt : Target) (text : Text) (out : Send) (w x : World F)
      → x.db ≡ w.db
      → x.sends ≡ w.sends
      → IsFor tgt text w.db out
      → Sent tgt text w (record_sent s tgt text out x).0 (record_sent s tgt text out x).1
  unfolding record_sent new_id recorded sent_row
  record_sent_lem tgt text out w x e1 e2 h =
      let t = transmit_lem out x in
      let y = (transmit s out x).1 in
      let z = record y { drawn = suc y.drawn } in
      let row = sent_row s tgt text (transmit s out x).0 (s.ids y.drawn) in
      let base : y.db ≡ w.db = t.0 ∙ e1 in
      let gone : y.sends ≡ w.sends ++ out ∷ [] = t.1 ∙ ap (λ l. l ++ out ∷ []) e2 in
      query_cases (create_outbound_message row) (λ r. pure (recorded tgt r))
        (λ v. Sent tgt text w v.0 v.1) z (inr (out, h, gone, inl (refl, base)))
        (elim (create_cases row y.db) [
          | inl c ↦ inr (out, h, gone, inl (ap (recorded tgt) c.0, c.1 ∙ base))
          | inr c ↦ inr (
            out,
            h,
            gone,
            inr (
              s.ids y.drawn,
              (transmit s out x).0,
              ap (recorded tgt) c.0,
              c.1 ∙ ap (λ (db : Db F). record db { messages = row ∷ db.messages }) base,
            ),
          )
        ])

  dispatch_to_lem :
      (acct : Account) (tgt : Target) (text subject : Text) (w x : World F)
      → x.db ≡ w.db
      → x.sends ≡ w.sends
      → In acct w.db.accounts
      → acct.id ≡ tgt.account_id
      → (o : Option Adapter)
      → let r = with_adapter s acct tgt text subject o x in Sent tgt text w r.0 r.1
  unfolding with_adapter fails
  dispatch_to_lem acct tgt text subject w x e1 e2 i n none = inl (internal, refl, e1, e2)
  dispatch_to_lem acct tgt text subject w x e1 e2 i n (some adapter) =
      let m = handed-message_for s adapter acct tgt text subject in
      if_lem (next_fault x.faults) _ _ (λ r. Sent tgt text w r.0 r.1) (spent x)
        (inl (internal, refl, e1, e2))
        (record_sent_lem tgt text _ w (spent x) e1 e2 (record {
          account = acct;
          account_row = i;
          named = n;
          from = refl;
          to = m.0;
          body = m.1;
        }))

  credentials_lem :
      (acct : Account) (tgt : Target) (text subject : Text) (w x : World F)
      → x.db ≡ w.db
      → x.sends ≡ w.sends
      → In acct w.db.accounts
      → acct.id ≡ tgt.account_id
      → (credentials : Text)
      → let r = with_credentials s acct tgt text subject credentials x in Sent tgt text w r.0 r.1
  unfolding with_credentials fails dispatch_to
  credentials_lem acct tgt text subject w x e1 e2 i n [] = inl (internal, refl, e1, e2)
  credentials_lem acct tgt text subject w x e1 e2 i n (c ∷ credentials) =
      if_lem (next_fault x.faults) _ _ (λ r. Sent tgt text w r.0 r.1) (spent x)
        (inl (internal, refl, e1, e2))
        (dispatch_to_lem acct tgt text subject w (spent x) e1 e2 i n (get acct.type s.registry))

  with_account_lem :
      (tgt : Target) (text subject : Text) (w x : World F)
      → x.db ≡ w.db
      → x.sends ≡ w.sends
      → (o : Option Account) → find (λ a. a.id == tgt.account_id) w.db.accounts ≡ o
      → let r = with_account s tgt text subject (one o) x in Sent tgt text w r.0 r.1
  unfolding with_account send_from dispatch_to
  with_account_lem tgt text subject w x e1 e2 none e = inl (_, refl, e1, e2)
  with_account_lem tgt text subject w x e1 e2 (some acct) e =
      let f = find-some (λ a. a.id == tgt.account_id) w.db.accounts acct e in
      let n = ==_eq acct.id tgt.account_id f.1 in
      if_lem (tokenless acct.type) _ _ (λ r. Sent tgt text w r.0 r.1) x
        (dispatch_to_lem acct tgt text subject w x e1 e2 f.0 n (get acct.type s.registry))
        (credentials_lem acct tgt text subject w x e1 e2 f.0 n acct.credentials_encrypted)

  -- A call of `send` from a world whose database and sent messages are those of `w`.
  pub send-Sent :
      (tgt : Target) (text subject : Text) (w x : World F)
      → x.db ≡ w.db
      → x.sends ≡ w.sends
      → let r = send s tgt text subject x in Sent tgt text w r.0 r.1
  unfolding send get_account_by_id with_account
  send-Sent tgt text subject w x e1 e2 =
      query_cases (get_account_by_id tgt.account_id) (with_account s tgt text subject)
        (λ r. Sent tgt text w r.0 r.1) x (inl (_, refl, e1, e2))
        (with_account_lem tgt text subject w (spent x) e1 e2
          (find (λ a. a.id == tgt.account_id) x.db.accounts)
          (ap (λ (db : Db F). find (λ a. a.id == tgt.account_id) db.accounts) (sym e1)))
