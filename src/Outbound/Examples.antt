-- ===== src/Outbound/Examples.antt =====
-- Messages to a contact, and the theorems at them.
use fieldwatchai_comms_openk.Prelude.{
  ℕ, ◌≡◌, ◌≢◌, ◌⊎◌, ◌<◌, refl, none, some, [], ◌∷◌, ◌+◌, codes, is_upper, is_lower, to_upper,
  to_lower, ◌||◌, ◌&&◌, leb,
}
use fieldwatchai_comms_openk.Parser.{Unicode}
use fieldwatchai_comms_openk.Store.{ContactEndpoint, Contact, ChannelAccount, Channel}
use fieldwatchai_comms_openk.Store.Select.{top, join}
use fieldwatchai_comms_openk.Store.Queries.{create_outbound_message, get_account_by_id, has_key}
use fieldwatchai_comms_openk.Store.Outbound.{get_outbound_endpoint_for_contact, IsSender, IsOutlet}
use fieldwatchai_comms_openk.Store.Samples.{world}
use fieldwatchai_comms_openk.World.{plain, query, fails, answer, new_id}
use fieldwatchai_comms_openk.Outbound.{chat, rich, get, handed, tokenless, email_ses}
use fieldwatchai_comms_openk.Outbound.Api.{
  Service, done, Target, contact_target, endpoint_target, reply_to_message, send_to_contact,
  send_to_endpoint, with_endpoint, send, with_account, send_from, with_credentials, dispatch_to,
  with_adapter, message_for, record_sent, transmit, sent_row, recorded,
}
use fieldwatchai_comms_openk.Outbound.Sending.{Sent}
use fieldwatchai_comms_openk.Outbound.Effect.{IsReply, Refused, outbound-Sent}
use fieldwatchai_comms_openk.Outbound.Handler.{SendRequest}
use fieldwatchai_comms_openk.Outbound.Handler
use fieldwatchai_comms_openk.Outbound.Answer.{Answered, send-Answered}

abbrev ascii : Unicode
ascii = record {
  letter = λ r. is_upper r || is_lower r;
  digit = λ r. leb b'0' r && leb r b'9';
  upper = to_upper;
  lower = to_lower;
  fold = to_lower;
}

abbrev service : Service
service = record {
  registry = (codes "telegram", chat) ∷ (email_ses, rich) ∷ [];
  mailer = record {
    unicode = ascii;
    headers_of = λ raw. none;
    fallback_domain = codes "mail.fieldwatchai.io";
    default_subject = codes "New message";
  };
  platform_id = λ out. codes "p1";
  ids = λ n. n + 100;
  show_uuid = λ n. codes "id";
  now = 1000;
}

contact_run :
    ((send_to_contact service 5 none (codes "hello") [] world).0
      ≡ done (record { message_id = 100; dispatched_to = codes "anna" }))
    × ((send_to_contact service 5 none (codes "hello") [] world).1.sends
        ≡ record { account_id = 7; message = plain (codes "anna") (codes "hello") } ∷ [])
unfolding send_to_contact query fails answer get_outbound_endpoint_for_contact top join
    with_endpoint send get_account_by_id with_account send_from tokenless with_credentials
    dispatch_to get with_adapter handed message_for record_sent transmit new_id
    create_outbound_message sent_row has_key recorded
contact_run = (refl, refl)

outbound-Sent_example :
    let reply = reply_to_message service 5 (codes "hello") world in
    let contact = send_to_contact service 5 none (codes "hello") [] world in
    let address = send_to_endpoint service 5 (codes "ben") (codes "hello") [] world in
    (Refused world reply.0 reply.1
      ⊎ ((tgt : Target) × IsReply 5 world.db tgt
          × Sent service tgt (codes "hello") world reply.0 reply.1))
    × (Refused world contact.0 contact.1
        ⊎ ((e : ContactEndpoint) × (c : Contact) × IsSender 5 none world.db e c
            × Sent service (contact_target 5 e c) (codes "hello") world contact.0 contact.1))
    × (Refused world address.0 address.1
        ⊎ ((l : ChannelAccount) × (c : Channel ℕ) × IsOutlet 5 world.db l c
            × Sent service
                (endpoint_target l c (codes "ben"))
                (codes "hello")
                world
                address.0
                address.1))
outbound-Sent_example = outbound-Sent service 5 none (codes "ben") (codes "hello") [] world

abbrev request : SendRequest
request = record {
  in_reply_to_message_id = [];
  recipient = some (record { contact_id = codes "c"; endpoint = [] });
  channel_id = [];
  subject = [];
  text = codes "hello";
}

send-Answered_example :
    let r = Handler.send service (λ s. some 5) (some request) world in
    Answered (codes "hello") world r.0 r.1
    × (Handler.status_of r.0 ≢ 202
        → Handler.status_of r.0 < 500
        → (r.1.db ≡ world.db) × (r.1.sends ≡ world.sends))
send-Answered_example = send-Answered service (λ s. some 5) request world
