-- ===== src/Store/Outbound.antt =====
-- The statements that resolve where an outbound message goes and which account sends it.
use fieldwatchai_comms_openk.Prelude.{
  ℕ, ◌≡◌, ◌≤◌, All, In, Bool, true, ◌&&◌, ◌||◌, Option, none, some, List, any, find, keep, ◌==◌,
  ==_eq, comparable_nat, comparable_list, codes,
}
use fieldwatchai_comms_openk.Store.{
  Text, Message, Channel, ChannelAccount, Contact, ContactEndpoint, Db, Result, ok,
}
use fieldwatchai_comms_openk.Store.Select.{one, one_lem, top, top-In, join, In-keep, In-join}
use fieldwatchai_comms_openk.Store.Queries.{has_id, of_channel}

abbrev pub has_text : Text → List Text → Bool
has_text t ts = any (λ x. x == t) ts

-- `direction IN ('outbound', 'both')`
abbrev pub is_outbound_link : ℕ → ChannelAccount → Bool
is_outbound_link channel_id l =
    l.channel_id == channel_id && (l.direction == codes "outbound" || l.direction == codes "both")

abbrev pub can_send : ℕ → Option ℕ → ContactEndpoint → Bool
can_send contact_id none e =
    e.contact_id == contact_id && has_text (codes "outbound") e.capabilities
can_send contact_id (some c) e =
    e.contact_id == contact_id && has_text (codes "outbound") e.capabilities && e.channel_id == c

abbrev pub of_contact : ContactEndpoint → Contact → Bool
of_contact e c = c.id == e.contact_id

module _ {F : Type 0} where
  -- `GetMessageForOutbound`
  unfoldable pub get_message_for_outbound : ℕ → Db F → Result (Message F) × Db F
  get_message_for_outbound id db = (one (find (has_id id) db.messages), db)

  -- `GetOutboundEndpointForContact`, with the contact's row.
  unfoldable pub get_outbound_endpoint_for_contact :
      ℕ → Option ℕ → Db F → Result (ContactEndpoint × Contact) × Db F
  get_outbound_endpoint_for_contact contact_id channel_id db = (
    one (
        top (λ r. r.0.priority)
          (join of_contact (keep (can_send contact_id channel_id) db.endpoints) db.contacts)),
    db,
  )

  -- `GetOutboundAccountForChannel`, with the channel's row.
  unfoldable pub get_outbound_account_for_channel :
      ℕ → Db F → Result (ChannelAccount × Channel F) × Db F
  get_outbound_account_for_channel channel_id db = (
    one (
        top (λ r. r.0.priority)
          (join of_channel (keep (is_outbound_link channel_id) db.links) db.channels)),
    db,
  )

  -- The endpoint and the contact found: no endpoint that can send has a higher priority.
  pub record IsSender (contact_id : ℕ) (channel_id : Option ℕ) (db : Db F) (e : ContactEndpoint)
      (c : Contact) : Type 0 where
    pub endpoint_row : In e db.endpoints
    pub contact_row : In c db.contacts
    pub sends : can_send contact_id channel_id e ≡ true
    pub joined : c.id ≡ e.contact_id
    pub highest :
        All
          (λ r. r.0.priority ≤ e.priority)
          (join of_contact (keep (can_send contact_id channel_id) db.endpoints) db.contacts)

  pub endpoint_found :
      (i : ℕ) (ch : Option ℕ) (db : Db F) (e : ContactEndpoint) (c : Contact)
      → (get_outbound_endpoint_for_contact i ch db).0 ≡ ok (e, c)
      → IsSender i ch db e c
  unfolding get_outbound_endpoint_for_contact
  endpoint_found i ch db e c q =
      let rows = join of_contact (keep (can_send i ch) db.endpoints) db.contacts in
      let t =
        top-In (λ (r : ContactEndpoint × Contact). r.0.priority) (e, c) rows (one_lem _ _ q) in
      let j = In-join of_contact (e, c) (keep (can_send i ch) db.endpoints) db.contacts t.0 in
      let k = In-keep (can_send i ch) e db.endpoints j.0 in
      record {
        endpoint_row = k.0;
        contact_row = j.1;
        sends = k.1;
        joined = ==_eq c.id e.contact_id j.2;
        highest = t.1;
      }

  -- The link and the channel found: no outbound link of the channel has a higher priority.
  pub record IsOutlet (channel_id : ℕ) (db : Db F) (l : ChannelAccount) (c : Channel F)
      : Type 0 where
    pub link_row : In l db.links
    pub channel_row : In c db.channels
    pub for_outbound : is_outbound_link channel_id l ≡ true
    pub joined : l.channel_id ≡ c.id
    pub highest :
        All
          (λ r. r.0.priority ≤ l.priority)
          (join of_channel (keep (is_outbound_link channel_id) db.links) db.channels)

  pub account_found :
      (i : ℕ) (db : Db F) (l : ChannelAccount) (c : Channel F)
      → (get_outbound_account_for_channel i db).0 ≡ ok (l, c)
      → IsOutlet i db l c
  unfolding get_outbound_account_for_channel
  account_found i db l c q =
      let rows = join of_channel (keep (is_outbound_link i) db.links) db.channels in
      let t =
        top-In (λ (r : ChannelAccount × Channel F). r.0.priority) (l, c) rows (one_lem _ _ q) in
      let j = In-join of_channel (l, c) (keep (is_outbound_link i) db.links) db.channels t.0 in
      let k = In-keep (is_outbound_link i) l db.links j.0 in
      record {
        link_row = k.0;
        channel_row = j.1;
        for_outbound = k.1;
        joined = ==_eq l.channel_id c.id j.2;
        highest = t.1;
      }
