-- ===== src/Retention/Erasure.antt =====
-- What the erasures do, whichever statements fail.
use fieldwatchai_comms_openk.Prelude.{
  ℕ, ◌≡◌, ◌⊎◌, inl, inr, refl, sym, ap, ◌∙◌, Bool, true, false, not, ◌||◌, none, List, [], ◌∷◌,
  arith, length, keep, any, ◌==◌, ==_eq, comparable_nat, if◌then◌else◌, Bool-cases,
}
use fieldwatchai_comms_openk.Store.{Text, Parsed, Message, Db, Result, ok, err}
use fieldwatchai_comms_openk.Store.Queries.{update}
use fieldwatchai_comms_openk.Store.Erasing.{
  update_rows, count_rows, is_from, redact, count_messages_for_endpoint,
  redact_messages_for_endpoint,
}
use fieldwatchai_comms_openk.World.{Job, World, pure}
use fieldwatchai_comms_openk.World.Triple.{Cond, Triple, pure-Triple, if-Triple, query-Triple}
use fieldwatchai_comms_openk.Retention.{
  Answer, report, refuse, Fault, ErasureResult, after, erase_endpoint, is_blank,
}
use fieldwatchai_comms_openk.Retention.Effect.{steps-Triple}

module _ {A : Type 0} where
  pub none_kept : (p : A → Bool) (xs : List A) → length (keep p xs) ≡ 0 → any p xs ≡ false
  none_kept p [] h = refl
  none_kept p (x ∷ xs) h = elim (Bool-cases (p x)) [
    | inl e ↦ absurd (ground (arith, h, e))
    | inr e ↦ ground (arith, e, none_kept p xs (ground (arith, h, e)))
  ]

  pub none_left : (p : A → Bool) (xs : List A) → any p (keep (λ x. not (p x)) xs) ≡ false
  none_left p [] = refl
  none_left p (x ∷ xs) = elim (Bool-cases (p x)) [
    | inl e ↦ ground (arith, e, none_left p xs)
    | inr e ↦ ground (arith, e, none_left p xs)
  ]

module _ {F : Type 0} (void : Parsed F) (u : ℕ) (endpoint : Text) (db0 : Db F) where
  abbrev from : Message F → Bool
  from = is_from u endpoint

  abbrev pub redacted : Db F
  redacted = record db0 { messages = update from (redact void) db0.messages }

  -- A redacted message is from no one.
  none_from : (ms : List (Message F)) → any from (update from (redact void) ms) ≡ false
  unfolding update is_from redact
  none_from [] = refl
  none_from (m ∷ ms) = elim (Bool-cases (from m)) [
    | inl e ↦ ground (arith, e, none_from ms)
    | inr e ↦ ground (arith, e, none_from ms)
  ]

  -- The effect of `EraseEndpoint`, by its answer.
  pub data Erased : Answer ErasureResult → Db F → Type 0 where
    refused : {e : Fault} {db : Db F} → db ≡ db0 → Erased (refuse e) db
    counted :
        {r : ErasureResult} {db : Db F}
        → db ≡ db0
        → r.messages_matched ≡ length (keep from db0.messages)
        → r.messages_redacted ≡ 0
        → r.dry_run ≡ true
        → Erased (report r) db
    erased :
        {r : ErasureResult} {db : Db F}
        → any from db.messages ≡ false
        → r.messages_redacted ≡ length (keep from db0.messages)
        → (db ≡ db0) ⊎ (db ≡ redacted)
        → r.dry_run ≡ false
        → Erased (report r) db

  abbrev Counted : Result ℕ → Cond F
  Counted (ok n) db jobs = (n ≡ length (keep from db0.messages)) × (db ≡ db0)
  Counted (err e) db jobs = db ≡ db0

  abbrev Redacted : Result ℕ → Cond F
  Redacted (ok n) db jobs = (n ≡ length (keep from db0.messages)) × (db ≡ redacted)
  Redacted (err e) db jobs = db ≡ db0

  redact-Redacted :
      (db : Db F) (jobs : List Job)
      → db ≡ db0
      → Redacted
          (redact_messages_for_endpoint void u endpoint db).0
          (redact_messages_for_endpoint void u endpoint db).1
          jobs
  unfolding redact_messages_for_endpoint update_rows
  redact-Redacted db jobs e = (
    ap (λ (x : Db F). length (keep from x.messages)) e,
    ap (λ (x : Db F). record x { messages = update from (redact void) x.messages }) e,
  )

  abbrev result : Bool → ℕ → ℕ → ErasureResult
  result dry_run matched n = record {
    dry_run = dry_run;
    contact_id = none;
    endpoints = endpoint ∷ [];
    messages_matched = matched;
    messages_redacted = n;
    endpoints_deleted = 0;
    contact_deleted = false;
  }

  erase_counted :
      (dry_run b : Bool) (n : ℕ)
      → (dry_run || n == 0) ≡ b
      → Triple
          (Counted (ok n))
          (if b
            then pure (report (result dry_run n 0))
            else after
                (redact_messages_for_endpoint void u endpoint)
                (λ k. pure (report (result dry_run n k))))
          (λ r db jobs. Erased r db)
  erase_counted true true n e = pure-Triple _ (λ db jobs h. counted h.1 h.0 refl refl)
  erase_counted true false n e = absurd (ground (arith, e))
  erase_counted false true n e = pure-Triple _ (λ db jobs h.
      let z : length (keep from db0.messages) ≡ 0 = sym h.0 ∙ ==_eq n 0 e in
      erased (ap (λ (x : Db F). any from x.messages) h.1 ∙ none_kept from db0.messages z) (sym z)
        (inl h.1) refl)
  erase_counted false false n e =
      steps-Triple Redacted _ _
        (query-Triple _ (λ db jobs h. h.1) (λ db jobs h. redact-Redacted db jobs h.1))
        (λ k. pure-Triple _ (λ db jobs h.
          erased (ap (λ (x : Db F). any from x.messages) h.1 ∙ none_from db0.messages) h.0 (inr h.1)
            refl))
        (λ e db jobs h. refused h)

-- An erasure by endpoint, whichever statements fail, is refused and has changed nothing; or is a dry
-- run, reports the number of the tenant's messages from the endpoint and has changed nothing; or none
-- of the tenant's messages is from the endpoint any more, nothing but the redaction of those messages
-- has happened, and their number is reported.
pub erase_endpoint-Erased :
    {F : Type 0} (void : Parsed F) (u : ℕ) (endpoint : Text) (dry_run : Bool) (w : World F)
    → Erased void u endpoint w.db
        (erase_endpoint void u endpoint dry_run w).0
        (erase_endpoint void u endpoint dry_run w).1.db
unfolding erase_endpoint count_messages_for_endpoint count_rows
erase_endpoint-Erased {F} void u endpoint dry_run w =
    (if-Triple {P = λ db jobs. db ≡ w.db} {Q = λ r db jobs. Erased void u endpoint w.db r db}
        (is_blank endpoint) _ _ (λ _. pure-Triple _ (λ db jobs h. refused h))
        (λ _.
          steps-Triple (Counted void u endpoint w.db) _ _
            (query-Triple _ (λ db jobs h. h)
              (λ db jobs h.
                (ap (λ (x : Db F). length (keep (is_from u endpoint) x.messages)) h, h)))
            (λ n. erase_counted void u endpoint w.db dry_run _ n refl)
            (λ e db jobs h. refused h))).at
      w refl
