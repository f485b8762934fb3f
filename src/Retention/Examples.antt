-- ===== src/Retention/Examples.antt =====
-- Runs of the purge and the erasures, and the theorems at a small database of two tenants.
use fieldwatchai_comms_openk.Prelude.{
  ℕ, ◌-◌, ◌*◌, ◌≡◌, refl, inl, inr, true, false, Option, none, some, [], ◌∷◌, keep, any, In, subst,
  ◌==◌, comparable_nat, codes, is_space,
}
use fieldwatchai_comms_openk.Parser.{trim_space, trim_left, trim_right}
use fieldwatchai_comms_openk.Policy.{no_target}
use fieldwatchai_comms_openk.Store.{Contact, ContactEndpoint, Parsed, Message, inbound, null}
use fieldwatchai_comms_openk.Store.Erasing.{
  is_old, replies_to, update_rows, count_rows, is_contact, count_messages_for_contact,
  count_messages_for_endpoint, redact_messages_for_endpoint, redact_messages_for_contact,
  list_endpoints_for_contact, detach_messages_from_contact, delete_endpoints_for_contact,
  delete_contact_row,
}
use fieldwatchai_comms_openk.World.{World, query, fails, answer}
use fieldwatchai_comms_openk.Retention.{
  report, refuse, not_found, after, purge, erase_endpoint, erase, erase_contact, count_endpoints,
  redact_endpoints,
}
use fieldwatchai_comms_openk.Retention.Isolation.{of, retention_isolated, retention_dry_run}
use fieldwatchai_comms_openk.Retention.Effect.{Purged, purge-Purged, purge_total}
use fieldwatchai_comms_openk.Retention.Erasure.{Erased, erase_endpoint-Erased}
use fieldwatchai_comms_openk.Retention.Refusal.{erase_not_found}

abbrev void : Parsed ℕ
void = record {
  ok = false;
  short_id = [];
  command = [];
  known_command = false;
  target = [];
  target_kind = no_target;
  payload = [];
  short_id_match = none;
  contact_id = none;
  alternatives = [];
  confidence = 0;
  recall = false;
  passthrough = false;
  redacted = false;
}

abbrev message : ℕ → ℕ → Option ℕ → ℕ → Message ℕ
message id tenant_id reply received_at = record {
  id = id;
  tenant_id = tenant_id;
  account_id = some tenant_id;
  channel_id = none;
  direction = inbound;
  sender_contact_id = none;
  recipient_contact_id = none;
  sender_endpoint = some (codes "anna");
  body_text = codes "here";
  body_attachments = none;
  body_location = none;
  parsed = none;
  policy_action = none;
  workflow_fired = false;
  in_reply_to_message_id = reply;
  platform_message_id = codes "m";
  raw_payload = null;
  received_at = received_at;
  processed_at = none;
}

abbrev contact : Contact
contact = record {
  id = 5;
  tenant_id = 2;
  short_id = codes "42";
  display_name = codes "Anna";
  aoi_id = none;
  role = none;
  default_channel_id = none;
  status = codes "active";
  metadata = codes "{}";
  created_at = 0;
  updated_at = 0;
}

abbrev contact_endpoint : ContactEndpoint
contact_endpoint = record {
  id = 6;
  contact_id = 5;
  channel_id = 1;
  account_id = 1;
  endpoint = codes "anna";
  priority = 0;
  capabilities = codes "outbound" ∷ [];
}

-- Message 2 replies to message 1, which is old. The contact is tenant 2's.
abbrev world : World ℕ
world = record {
  db = record {
    messages = message 1 1 none 50 ∷ message 2 1 (some 1) 900000 ∷ message 3 2 none 50 ∷ [];
    tenants = [];
    accounts = [];
    channels = [];
    links = [];
    contacts = contact ∷ [];
    endpoints = contact_endpoint ∷ [];
  };
  faults = [];
  drawn = 0;
  jobs = [];
  sends = [];
  forwards = [];
}

-- Tenant 1 erases the contact of tenant 2: it is told that there is none.
foreign_run : (erase void 1 5 false world).0 ≡ refuse not_found
unfolding erase after query fails answer count_messages_for_contact count_rows
    list_endpoints_for_contact trim_space trim_left trim_right is_space count_endpoints
    count_messages_for_endpoint redact_endpoints redact_messages_for_endpoint update_rows
    erase_contact redact_messages_for_contact detach_messages_from_contact
    delete_endpoints_for_contact delete_contact_row is_contact
foreign_run = refl

erase_not_found_example :
    (any (is_contact 1 5) world.db.contacts ≡ false)
    × (any (λ e. e.contact_id == 5) (erase void 1 5 false world).1.db.endpoints ≡ false)
erase_not_found_example = erase_not_found void 1 5 world foreign_run

retention_isolated_example :
    (keep (of 2) (purge 1000000 1 7 false world).1.db.messages ≡ keep (of 2) world.db.messages)
    × (keep (of 2) (erase_endpoint void 1 (codes "anna") false world).1.db.messages
        ≡ keep (of 2) world.db.messages)
    × (keep (of 2) (erase void 1 5 false world).1.db.messages ≡ keep (of 2) world.db.messages)
retention_isolated_example = retention_isolated void 2 1 refl 1000000 7 5 (codes "anna") false world

retention_dry_run_example :
    ((purge 1000000 1 7 true world).1.db ≡ world.db)
    × ((erase_endpoint void 1 (codes "anna") true world).1.db ≡ world.db)
    × ((erase void 1 5 true world).1.db ≡ world.db)
retention_dry_run_example = retention_dry_run void 1 1000000 7 5 (codes "anna") world

purge-Purged_example :
    Purged 1
      (1000000 - 7 * 86400)
      world.db
      (purge 1000000 1 7 false world).0
      (purge 1000000 1 7 false world).1.db
purge-Purged_example = purge-Purged 1000000 1 7 false world

-- Replies to the messages of tenant 1 are its own.
within :
    (m : Message ℕ)
    → In m world.db.messages
    → replies_to (λ o. o.tenant_id == 1) world.db.messages m ≡ true
    → (m.tenant_id == 1) ≡ true
within m (inl e) h = rw e refl
within m (inr (inl e)) h = rw e refl
within m (inr (inr (inl e))) h =
    cc (subst (λ x. replies_to (λ o. o.tenant_id == 1) world.db.messages x ≡ true) e h)
within m (inr (inr (inr i))) h = absurd i

purge_total_example :
    (purge 1000000 1 7 false world).0
    ≡ report (record {
      dry_run = false;
      older_than_days = 7;
      cutoff = 395200;
      messages_matched = 1;
      messages_deleted = 1;
    })
unfolding is_old
purge_total_example = purge_total 1000000 1 7 world refl within

erase_endpoint-Erased_example :
    Erased void 1
      (codes "anna")
      world.db
      (erase_endpoint void 1 (codes "anna") false world).0
      (erase_endpoint void 1 (codes "anna") false world).1.db
erase_endpoint-Erased_example = erase_endpoint-Erased void 1 (codes "anna") false world
