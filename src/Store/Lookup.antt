-- ===== src/Store/Lookup.antt =====
-- What the look-ups of the message table find.
use fieldwatchai_comms_openk.Prelude.{
  ℕ, ◌≡◌, inl, inr, refl, sym, ap, ◌∙◌, ◌≤◌, subst, All, true, false, Option, none, some, List, [],
  ◌∷◌, arith, In, any, keep, Bool-cases, ◌==◌, ==_eq, ==_ne, comparable_nat,
}
use fieldwatchai_comms_openk.Store.{Text, Message, Channel, ChannelAccount, Db}
use fieldwatchai_comms_openk.Store.Select.{top, top-In, In-keep, In-join}
use fieldwatchai_comms_openk.Store.Queries.{
  has_id, latest, is_recent_echo, is_inbound_link, inbound_links, of_channel, channel_in,
  inbound_channel,
}

module _ {F : Type 0} where
  -- A row with a new id is no row of the table.
  pub other_id :
      (i : ℕ) (m : Message F) (ms : List (Message F))
      → any (has_id i) ms ≡ false
      → In m ms
      → (i == m.id) ≡ false
  other_id i m [] h k = absurd k
  other_id i m (n ∷ ms) h (inl e) = elim (Bool-cases (i == m.id)) [
    | inl q ↦ absurd (==_ne n.id i (ground (arith, h)) (sym (==_eq i m.id q ∙ ap (λ x. x.id) e)))
    | inr q ↦ q
  ]
  other_id i m (n ∷ ms) h (inr k) = other_id i m ms (ground (arith, h)) k

-- What `FindRecentEchoForSender` finds.
pub recent_echo_found :
    {F : Type 0} (a : ℕ) (s : Option Text) (cutoff : ℕ) (db : Db F) (m : Message F)
    → latest (keep (is_recent_echo a s cutoff) db.messages) ≡ some m
    → In m db.messages × (is_recent_echo a s cutoff m ≡ true)
unfolding latest
recent_echo_found a s cutoff db m e = In-keep _ m db.messages (top-In (λ x. x.received_at) m _ e).0

-- A link and its channel that take an account's inbound messages: no such link has a higher priority.
pub record IsRoute {F : Type 0} (a : ℕ) (db : Db F) (c : Channel F) : Type 0 where
  pub link : ChannelAccount
  pub link_row : In link db.links
  pub channel_row : In c db.channels
  pub for_inbound : is_inbound_link a link ≡ true
  pub joined : link.channel_id ≡ c.id
  pub highest : All (λ r. r.0.priority ≤ link.priority) (inbound_links a db)

-- What `GetInboundChannelForAccount` finds.
pub inbound_channel_found :
    {F : Type 0} (a : ℕ) (db : Db F) (c : Channel F)
    → inbound_channel a db ≡ some c
    → IsRoute a db c
unfolding inbound_channel inbound_links
inbound_channel_found {F} a db c e = found (top (λ r. r.0.priority) (inbound_links a db)) refl e
  where
    found :
        (o : Option (ChannelAccount × Channel F))
        → top (λ r. r.0.priority) (inbound_links a db) ≡ o
        → channel_in o ≡ some c
        → IsRoute a db c
    found none q e = cc e
    found (some r) q e =
        let t =
          top-In (λ (x : ChannelAccount × Channel F). x.0.priority) r (inbound_links a db) q in
        let j = In-join of_channel r (keep (is_inbound_link a) db.links) db.channels t.0 in
        let k = In-keep (is_inbound_link a) r.0 db.links j.0 in
        let same : r.1 ≡ c = ground (arith, e) in
        record {
          link = r.0;
          link_row = k.0;
          channel_row = subst (λ x. In x db.channels) same j.1;
          for_inbound = k.1;
          joined = ==_eq r.0.channel_id r.1.id j.2 ∙ ap (λ (x : Channel F). x.id) same;
          highest = t.1;
        }
