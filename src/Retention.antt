-- ===== src/Retention.antt =====
-- channels-go/internal/retention/retention.go: the purge of old messages, and the erasure of what a
-- person has sent.
pub mod Isolation
pub mod Links
pub mod Effect
pub mod Erasure
pub mod Refusal
mod Examples
use fieldwatchai_comms_openk.Prelude.{
  ℕ, ◌+◌, ◌*◌, ◌-◌, Bool, true, false, not, ◌||◌, Option, none, some, List, [], ◌∷◌, keep, ltb,
  ◌==◌, comparable_nat, if◌then◌else◌,
}
use fieldwatchai_comms_openk.Parser.{trim_space}
use fieldwatchai_comms_openk.Store.{Text, Parsed, Db, DbError, Result, ok, err}
use fieldwatchai_comms_openk.Store.Erasing.{
  count_messages_older_than, clear_reply_links, purge_messages_older_than,
  count_messages_for_contact, count_messages_for_endpoint, redact_messages_for_endpoint,
  redact_messages_for_contact, list_endpoints_for_contact, detach_messages_from_contact,
  delete_endpoints_for_contact, delete_contact_row,
}
use fieldwatchai_comms_openk.World.{World, M, ◌>>=◌, pure, query}

-- `MinRetentionDays`
abbrev pub min_retention_days : ℕ
min_retention_days = 7

-- The errors: `ErrInvalid`, `ErrNotFound`, and that of a statement.
pub data Fault : Type 0 where
  invalid not_found : Fault
  statement : DbError → Fault

pub data Answer (A : Type 0) : Type 0 where
  report : A → Answer A
  refuse : Fault → Answer A

-- `PurgeResult`; the cutoff is in seconds.
pub record PurgeResult : Type 0 where
  pub dry_run : Bool
  pub older_than_days : ℕ
  pub cutoff : ℕ
  pub messages_matched : ℕ
  pub messages_deleted : ℕ

-- `ErasureResult`
pub record ErasureResult : Type 0 where
  pub dry_run : Bool
  pub contact_id : Option ℕ
  pub endpoints : List Text
  pub messages_matched : ℕ
  pub messages_redacted : ℕ
  pub endpoints_deleted : ℕ
  pub contact_deleted : Bool

abbrev pub is_blank : Text → Bool
is_blank s = elim (trim_space s) [ [] ↦ true | c ∷ rest ↦ false ]

module _ {F : Type 0} where
  -- A statement, the end with its error, and otherwise what follows.
  unfoldable pub after :
      {A B : Type 0} → (Db F → Result A × Db F) → (A → M F (Answer B)) → M F (Answer B)
  after q next = do r ← query q; elim r [ ok a ↦ next a | err e ↦ pure (refuse (statement e)) ]

  -- The statements of `Purge` that write.
  unfoldable pub purge_rows : ℕ → PurgeResult → M F (Answer PurgeResult)
  purge_rows tenant_id res = after (clear_reply_links tenant_id res.cutoff) (λ cleared.
      after (purge_messages_older_than tenant_id res.cutoff)
        (λ deleted. pure (report (record res { messages_deleted = deleted }))))

  -- `Purge`; `-` stops at 0, before which no message was received.
  unfoldable pub purge : ℕ → ℕ → ℕ → Bool → M F (Answer PurgeResult)
  purge now tenant_id older_than_days dry_run =
      let cutoff = now - older_than_days * 86400 in
      let counted : M F (Answer PurgeResult) =
        after (count_messages_older_than tenant_id cutoff) (λ matched.
          let res : PurgeResult = record {
            dry_run = dry_run;
            older_than_days = older_than_days;
            cutoff = cutoff;
            messages_matched = matched;
            messages_deleted = 0;
          } in
          if dry_run || matched == 0 then pure (report res) else purge_rows tenant_id res) in
      if ltb older_than_days min_retention_days then pure (refuse invalid) else counted

  -- The loop over the endpoints that counts.
  unfoldable pub count_endpoints :
      ℕ → List Text → (ℕ → M F (Answer ErasureResult)) → M F (Answer ErasureResult)
  count_endpoints tenant_id [] next = next 0
  count_endpoints tenant_id (e ∷ eps) next =
      after (count_messages_for_endpoint tenant_id e)
        (λ n. count_endpoints tenant_id eps (λ k. next (n + k)))

  module _ (void : Parsed F) where
    -- `EraseEndpoint`
    unfoldable pub erase_endpoint : ℕ → Text → Bool → M F (Answer ErasureResult)
    erase_endpoint tenant_id endpoint dry_run =
        let counted : M F (Answer ErasureResult) =
          after (count_messages_for_endpoint tenant_id endpoint) (λ matched.
            let res : ErasureResult = record {
              dry_run = dry_run;
              contact_id = none;
              endpoints = endpoint ∷ [];
              messages_matched = matched;
              messages_redacted = 0;
              endpoints_deleted = 0;
              contact_deleted = false;
            } in
            if dry_run || matched == 0
            then pure (report res)
            else after (redact_messages_for_endpoint void tenant_id endpoint)
                (λ n. pure (report (record res { messages_redacted = n })))) in
        if is_blank endpoint then pure (refuse invalid) else counted

    -- The loop over the endpoints that redacts.
    unfoldable pub redact_endpoints :
        ℕ → List Text → (ℕ → M F (Answer ErasureResult)) → M F (Answer ErasureResult)
    redact_endpoints tenant_id [] next = next 0
    redact_endpoints tenant_id (e ∷ eps) next =
        after (redact_messages_for_endpoint void tenant_id e)
          (λ n. redact_endpoints tenant_id eps (λ k. next (n + k)))

    -- The statements of `Erase` behind the redaction by endpoints.
    unfoldable pub erase_contact : ℕ → ℕ → ErasureResult → M F (Answer ErasureResult)
    erase_contact tenant_id contact_id res =
        after (redact_messages_for_contact void tenant_id contact_id) (λ redacted.
          after (detach_messages_from_contact tenant_id contact_id) (λ detached.
            after (delete_endpoints_for_contact contact_id) (λ deleted.
              after (delete_contact_row tenant_id contact_id) (λ n.
                if n == 0
                then pure (refuse not_found)
                else pure (
                    report (record res {
                      messages_redacted = res.messages_redacted + redacted;
                      endpoints_deleted = deleted;
                      contact_deleted = true;
                    }))))))

    -- `Erase`
    unfoldable pub erase : ℕ → ℕ → Bool → M F (Answer ErasureResult)
    erase tenant_id contact_id dry_run =
        after (count_messages_for_contact tenant_id contact_id) (λ matched.
          after (list_endpoints_for_contact contact_id) (λ listed.
            let eps = keep (λ e. not (is_blank e)) listed in
            count_endpoints tenant_id eps (λ found.
              let res : ErasureResult = record {
                dry_run = dry_run;
                contact_id = some contact_id;
                endpoints = eps;
                messages_matched = matched + found;
                messages_redacted = 0;
                endpoints_deleted = 0;
                contact_deleted = false;
              } in
              if dry_run
              then pure (report res)
              else redact_endpoints tenant_id eps (λ n.
                erase_contact tenant_id contact_id (record res { messages_redacted = n })))))
