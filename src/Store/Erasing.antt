-- ===== src/Store/Erasing.antt =====
-- The statements of internal/queries/goqueries/retention.sql.go. A statement that violates a key it
-- refers by does nothing.
use fieldwatchai_comms_openk.Prelude.{
  ℕ, Bool, true, false, not, ◌&&◌, ◌||◌, none, some, List, [], map, length, keep, any, ltb, ◌==◌,
  comparable_nat, comparable_list, comparable_option, if◌then◌else◌,
}
use fieldwatchai_comms_openk.Store.{
  Text, Parsed, Raw, Message, Contact, Db, foreign_key_violation, Result, ok, err,
}
use fieldwatchai_comms_openk.Store.Queries.{has_id, sql_eq, update}

-- `id = $1 AND tenant_id = $2`
unfoldable pub is_contact : ℕ → ℕ → Contact → Bool
is_contact tenant_id contact_id c = c.id == contact_id && c.tenant_id == tenant_id

module _ {F : Type 0} where
  -- `UPDATE` and `SELECT count(*)` with the number of the rows that they touch.
  unfoldable pub update_rows : (Message F → Bool) → (Message F → Message F) → Db F → Result ℕ × Db F
  update_rows p g db =
      (ok (length (keep p db.messages)), record db { messages = update p g db.messages })

  unfoldable pub count_rows : (Message F → Bool) → Db F → Result ℕ × Db F
  count_rows p db = (ok (length (keep p db.messages)), db)

  -- `tenant_id = $1 AND received_at < $2`
  unfoldable pub is_old : ℕ → ℕ → Message F → Bool
  is_old tenant_id cutoff m = m.tenant_id == tenant_id && ltb m.received_at cutoff

  abbrev pub replies_to : (Message F → Bool) → List (Message F) → Message F → Bool
  replies_to p messages m = elim m.in_reply_to_message_id [
    | none ↦ false
    | some i ↦ any (λ o. has_id i o && p o) messages
  ]

  -- `CountMessagesOlderThan`
  unfoldable pub count_messages_older_than : ℕ → ℕ → Db F → Result ℕ × Db F
  unfolding count_rows
  count_messages_older_than tenant_id cutoff = count_rows (is_old tenant_id cutoff)

  abbrev pub unlinked : Message F → Message F
  unlinked m = record m { in_reply_to_message_id = none }

  -- `ClearReplyLinksToPurgedMessages`
  unfoldable pub clear_reply_links : ℕ → ℕ → Db F → Result ℕ × Db F
  unfolding update_rows
  clear_reply_links tenant_id cutoff db =
      update_rows
        (λ m. m.tenant_id == tenant_id && replies_to (is_old tenant_id cutoff) db.messages m)
        unlinked db

  -- `PurgeMessagesOlderThan`; a reply that is left to a deleted message violates its key.
  unfoldable pub purge_messages_older_than : ℕ → ℕ → Db F → Result ℕ × Db F
  purge_messages_older_than tenant_id cutoff db =
      let left = keep (λ m. not (is_old tenant_id cutoff m)) db.messages in
      if any (replies_to (is_old tenant_id cutoff) db.messages) left
      then (err foreign_key_violation, db)
      else (ok (length (keep (is_old tenant_id cutoff) db.messages)), record db { messages = left })

  -- `tenant_id = $1 AND sender_endpoint = $2`
  unfoldable pub is_from : ℕ → Text → Message F → Bool
  is_from tenant_id endpoint m =
      m.tenant_id == tenant_id && sql_eq m.sender_endpoint (some endpoint)

  -- `tenant_id = $1 AND (sender_contact_id = $2 OR recipient_contact_id = $2)`
  unfoldable pub is_with : ℕ → ℕ → Message F → Bool
  is_with tenant_id contact_id m =
      m.tenant_id == tenant_id
      && (m.sender_contact_id == some contact_id || m.recipient_contact_id == some contact_id)

  -- `CountMessagesForEndpoint` and `CountMessagesForContact`
  unfoldable pub count_messages_for_endpoint : ℕ → Text → Db F → Result ℕ × Db F
  unfolding count_rows
  count_messages_for_endpoint tenant_id endpoint = count_rows (is_from tenant_id endpoint)

  unfoldable pub count_messages_for_contact : ℕ → ℕ → Db F → Result ℕ × Db F
  unfolding count_rows
  count_messages_for_contact tenant_id contact_id = count_rows (is_with tenant_id contact_id)

  -- `ListEndpointsForContact`
  unfoldable pub list_endpoints_for_contact : ℕ → Db F → Result (List Text) × Db F
  list_endpoints_for_contact contact_id db =
      (ok (map (λ e. e.endpoint) (keep (λ e. e.contact_id == contact_id) db.endpoints)), db)

  -- `DetachMessagesFromContact`
  unfoldable pub detach_messages_from_contact : ℕ → ℕ → Db F → Result ℕ × Db F
  unfolding update_rows
  detach_messages_from_contact tenant_id contact_id =
      update_rows (is_with tenant_id contact_id)
        (λ m. record m { sender_contact_id = none; recipient_contact_id = none })

  -- `DeleteEndpointsForContact`
  unfoldable pub delete_endpoints_for_contact : ℕ → Db F → Result ℕ × Db F
  delete_endpoints_for_contact contact_id db = (
    ok (length (keep (λ e. e.contact_id == contact_id) db.endpoints)),
    record db { endpoints = keep (λ e. not (e.contact_id == contact_id)) db.endpoints },
  )

  abbrev mentions : ℕ → Message F → Bool
  mentions contact_id m =
      m.sender_contact_id == some contact_id || m.recipient_contact_id == some contact_id

  -- `DeleteContactRow`; its endpoints go with it.
  unfoldable pub delete_contact_row : ℕ → ℕ → Db F → Result ℕ × Db F
  delete_contact_row tenant_id contact_id db =
      if not (any (is_contact tenant_id contact_id) db.contacts)
      then (ok 0, db)
      else if any (mentions contact_id) db.messages
      then (err foreign_key_violation, db)
      else (
        ok (length (keep (is_contact tenant_id contact_id) db.contacts)),
        record db {
          contacts = keep (λ c. not (is_contact tenant_id contact_id c)) db.contacts;
          endpoints = keep (λ e. not (e.contact_id == contact_id)) db.endpoints;
        },
      )

  -- The columns that both redactions set; `void` is what the JSON `{}` decodes to.
  module _ (void : Parsed F) where
    unfoldable pub redact : Message F → Message F
    redact m = record m {
      sender_endpoint = none;
      body_text = [];
      body_attachments = none;
      body_location = none;
      raw_payload = Raw.redacted;
      parsed = some (record (elim m.parsed [ none ↦ void | some p ↦ p ]) { redacted = true });
    }

    -- `RedactMessagesForEndpoint` and `RedactMessagesForContact`
    unfoldable pub redact_messages_for_endpoint : ℕ → Text → Db F → Result ℕ × Db F
    unfolding update_rows
    redact_messages_for_endpoint tenant_id endpoint =
        update_rows (is_from tenant_id endpoint) redact

    unfoldable pub redact_messages_for_contact : ℕ → ℕ → Db F → Result ℕ × Db F
    unfolding update_rows
    redact_messages_for_contact tenant_id contact_id =
        update_rows (is_with tenant_id contact_id) redact
