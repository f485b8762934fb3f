-- ===== src/Outbound/Effect.antt =====
-- `ReplyToMessage`, `SendToContact` and `SendToEndpoint`: where the message goes, and who sends it.
use fieldwatchai_comms_openk.Prelude.{
  ℕ, ◌≡◌, ◌≢◌, ◌⊎◌, inl, inr, refl, subst, arith, Option, none, some, [], ◌∷◌, In, find, find-some,
  ==_eq, comparable_nat,
}
use fieldwatchai_comms_openk.Store.{
  Text, Message, ContactEndpoint, Contact, ChannelAccount, Channel, Db, Result, ok, err,
}
use fieldwatchai_comms_openk.Store.Select.{one}
use fieldwatchai_comms_openk.Store.Queries.{has_id}
use fieldwatchai_comms_openk.Store.Outbound.{
  get_message_for_outbound, get_outbound_endpoint_for_contact, get_outbound_account_for_channel,
  IsSender, endpoint_found, IsOutlet, account_found,
}
use fieldwatchai_comms_openk.World.{World}
use fieldwatchai_comms_openk.World.Cases.{spent, query_cases}
use fieldwatchai_comms_openk.Outbound.Api.{
  Service, Failure, Outcome, failed, Target, reply_target, send_to, with_message, with_endpoint,
  with_outlet, contact_target, endpoint_target, reply_to_message, send_to_contact, send_to_endpoint,
}
use fieldwatchai_comms_openk.Outbound.Sending.{Sent, send-Sent}

module _ {F : Type 0} where
  -- The target is the sender of a stored message, over the account that the message came by.
  pub record IsReply (in_reply_to : ℕ) (db : Db F) (tgt : Target) : Type 0 where
    pub message : Message F
    pub message_row : In message db.messages
    pub id : message.id ≡ in_reply_to
    pub account : message.account_id ≡ some tgt.account_id
    pub sender : message.sender_endpoint ≡ some tgt.endpoint
    pub addressed : tgt.endpoint ≢ []
    pub tenant : tgt.tenant_id ≡ message.tenant_id
    pub contact : tgt.contact_id ≡ message.sender_contact_id
    pub replied : tgt.in_reply_to ≡ some in_reply_to

  -- A call that neither sends nor stores anything.
  abbrev pub Refused : World F → Outcome → World F → Type 0
  Refused w out v = (why : Failure) × (out ≡ failed why) × (v.db ≡ w.db) × (v.sends ≡ w.sends)

  target_IsReply :
      (id : ℕ) (db : Db F) (m : Message F)
      → In m db.messages
      → m.id ≡ id
      → (tgt : Target) → reply_target id m ≡ some tgt
      → IsReply id db tgt
  unfolding reply_target
  target_IsReply id db m i n tgt h = by_columns m.account_id m.sender_endpoint refl refl h
    where
      by_columns :
          (a : Option ℕ) (e : Option Text)
          → m.account_id ≡ a
          → m.sender_endpoint ≡ e
          → reply_target id (record m { account_id = a; sender_endpoint = e }) ≡ some tgt
          → IsReply id db tgt
      by_columns none e p q h = cc h
      by_columns (some a) none p q h = cc h
      by_columns (some a) (some []) p q h = cc h
      by_columns (some a) (some (c ∷ e)) p q h =
          let built : Target = record {
            tenant_id = m.tenant_id;
            account_id = a;
            endpoint = c ∷ e;
            contact_id = m.sender_contact_id;
            in_reply_to = some id;
            raw_payload = m.raw_payload;
          } in
          let k : built ≡ tgt = ground (arith, h) in
          subst (IsReply id db) k (record {
            message = m;
            message_row = i;
            id = n;
            account = p;
            sender = q;
            addressed = λ x. cc x;
            tenant = refl;
            contact = refl;
            replied = refl;
          })

module _ {F : Type 0} (s : Service) where
  with_message_lem :
      (i : ℕ) (text : Text) (w x : World F)
      → x.db ≡ w.db
      → x.sends ≡ w.sends
      → (o : Option (Message F)) → find (has_id i) w.db.messages ≡ o
      → let r = with_message s i text (one o) x in
        Refused w r.0 r.1 ⊎ ((tgt : Target) × IsReply i w.db tgt × Sent s tgt text w r.0 r.1)
  unfolding with_message send_to
  with_message_lem i text w x e1 e2 none e = inl (_, refl, e1, e2)
  with_message_lem i text w x e1 e2 (some m) e = by_target (reply_target i m) refl
    where
      by_target :
          (o : Option Target)
          → reply_target i m ≡ o
          → let r = send_to s text [] o x in
            Refused w r.0 r.1 ⊎ ((tgt : Target) × IsReply i w.db tgt × Sent s tgt text w r.0 r.1)
      by_target none q = inl (_, refl, e1, e2)
      by_target (some tgt) q =
          let f = find-some (has_id i) w.db.messages m e in
          inr (
            tgt,
            target_IsReply i w.db m f.0 (==_eq m.id i f.1) tgt q,
            send-Sent s tgt text [] w x e1 e2,
          )

  with_endpoint_lem :
      (i : ℕ) (channel_id : Option ℕ) (text subject : Text) (w x : World F)
      → x.db ≡ w.db
      → x.sends ≡ w.sends
      → (q : Result (ContactEndpoint × Contact))
      → (get_outbound_endpoint_for_contact i channel_id w.db).0 ≡ q
      → let r = with_endpoint s i text subject q x in
        Refused w r.0 r.1
        ⊎ ((e : ContactEndpoint) × (c : Contact) × IsSender i channel_id w.db e c
            × Sent s (contact_target i e c) text w r.0 r.1)
  unfolding with_endpoint
  with_endpoint_lem i ch text subject w x e1 e2 (err e) q = inl (_, refl, e1, e2)
  with_endpoint_lem i ch text subject w x e1 e2 (ok (e, c)) q = inr (
    e,
    c,
    endpoint_found i ch w.db e c q,
    send-Sent s (contact_target i e c) text subject w x e1 e2,
  )

  with_outlet_lem :
      (i : ℕ) (endpoint text subject : Text) (w x : World F)
      → x.db ≡ w.db
      → x.sends ≡ w.sends
      → (q : Result (ChannelAccount × Channel F)) → (get_outbound_account_for_channel i w.db).0 ≡ q
      → let r = with_outlet s endpoint text subject q x in
        Refused w r.0 r.1
        ⊎ ((l : ChannelAccount) × (c : Channel F) × IsOutlet i w.db l c
            × Sent s (endpoint_target l c endpoint) text w r.0 r.1)
  unfolding with_outlet
  with_outlet_lem i endpoint text subject w x e1 e2 (err e) q = inl (_, refl, e1, e2)
  with_outlet_lem i endpoint text subject w x e1 e2 (ok (l, c)) q = inr (
    l,
    c,
    account_found i w.db l c q,
    send-Sent s (endpoint_target l c endpoint) text subject w x e1 e2,
  )

  reply_lem :
      (i : ℕ) (text : Text) (w : World F)
      → let r = reply_to_message s i text w in
        Refused w r.0 r.1 ⊎ ((tgt : Target) × IsReply i w.db tgt × Sent s tgt text w r.0 r.1)
  unfolding reply_to_message get_message_for_outbound with_message
  reply_lem i [] w = inl (_, refl, refl, refl)
  reply_lem i (c ∷ text) w =
      query_cases (get_message_for_outbound i) (with_message s i (c ∷ text))
        (λ r.
          Refused w r.0 r.1
          ⊎ ((tgt : Target) × IsReply i w.db tgt × Sent s tgt (c ∷ text) w r.0 r.1))
        w (inl (_, refl, refl, refl))
        (with_message_lem i (c ∷ text) w (spent w) refl refl (find (has_id i) w.db.messages) refl)

  contact_lem :
      (i : ℕ) (channel_id : Option ℕ) (text subject : Text) (w : World F)
      → let r = send_to_contact s i channel_id text subject w in
        Refused w r.0 r.1
        ⊎ ((e : ContactEndpoint) × (c : Contact) × IsSender i channel_id w.db e c
            × Sent s (contact_target i e c) text w r.0 r.1)
  unfolding send_to_contact get_outbound_endpoint_for_contact with_endpoint
  contact_lem i ch [] subject w = inl (_, refl, refl, refl)
  contact_lem i ch (c ∷ text) subject w =
      query_cases (get_outbound_endpoint_for_contact i ch) (with_endpoint s i (c ∷ text) subject)
        (λ r.
          Refused w r.0 r.1
          ⊎ ((e : ContactEndpoint) × (k : Contact) × IsSender i ch w.db e k
              × Sent s (contact_target i e k) (c ∷ text) w r.0 r.1))
        w (inl (_, refl, refl, refl))
        (with_endpoint_lem i ch (c ∷ text) subject w (spent w) refl refl _ refl)

  address_lem :
      (i : ℕ) (endpoint text subject : Text) (w : World F)
      → let r = send_to_endpoint s i endpoint text subject w in
        Refused w r.0 r.1
        ⊎ ((l : ChannelAccount) × (c : Channel F) × IsOutlet i w.db l c
            × Sent s (endpoint_target l c endpoint) text w r.0 r.1)
  unfolding send_to_endpoint get_outbound_account_for_channel with_outlet
  address_lem i endpoint [] subject w = inl (_, refl, refl, refl)
  address_lem i [] (c ∷ text) subject w = inl (_, refl, refl, refl)
  address_lem i (d ∷ endpoint) (c ∷ text) subject w =
      query_cases (get_outbound_account_for_channel i)
        (with_outlet s (d ∷ endpoint) (c ∷ text) subject)
        (λ r.
          Refused w r.0 r.1
          ⊎ ((l : ChannelAccount) × (k : Channel F) × IsOutlet i w.db l k
              × Sent s (endpoint_target l k (d ∷ endpoint)) (c ∷ text) w r.0 r.1))
        w (inl (_, refl, refl, refl))
        (with_outlet_lem i (d ∷ endpoint) (c ∷ text) subject w (spent w) refl refl _ refl)

  -- The three calls, whichever statements and remote calls fail. A call is refused, and then nothing is
  -- sent or stored; or it sends for one target. The target of a reply is the sender of the stored
  -- message replied to, over the account that it came by. The target for a contact is an endpoint of the contact that can
  -- send, of the channel if one is given, such that no other has a higher priority. The target of an
  -- address is that address, over the account of an outbound link of the channel such that no other
  -- has a higher priority.
  pub outbound-Sent :
      (i : ℕ) (channel_id : Option ℕ) (endpoint text subject : Text) (w : World F)
      → let reply = reply_to_message s i text w in
        let contact = send_to_contact s i channel_id text subject w in
        let address = send_to_endpoint s i endpoint text subject w in
        (Refused w reply.0 reply.1
          ⊎ ((tgt : Target) × IsReply i w.db tgt × Sent s tgt text w reply.0 reply.1))
        × (Refused w contact.0 contact.1
            ⊎ ((e : ContactEndpoint) × (c : Contact) × IsSender i channel_id w.db e c
                × Sent s (contact_target i e c) text w contact.0 contact.1))
        × (Refused w address.0 address.1
            ⊎ ((l : ChannelAccount) × (c : Channel F) × IsOutlet i w.db l c
                × Sent s (endpoint_target l c endpoint) text w address.0 address.1))
  outbound-Sent i channel_id endpoint text subject w = (
    reply_lem i text w,
    contact_lem i channel_id text subject w,
    address_lem i endpoint text subject w,
  )
