-- ===== src/Retention/Effect.antt =====
-- What a purge and an erasure by endpoint do, whichever statements fail.
use fieldwatchai_comms_openk.Prelude.{
  ℕ, ◌-◌, ◌*◌, ◌≡◌, ◌⊎◌, inl, inr, refl, sym, ap, ◌∙◌, Bool, true, false, not, ◌||◌, List, [],
  arith, length, keep, ltb, ◌==◌, ==_eq, comparable_nat, if◌then◌else◌, Bool-cases, In,
}
use fieldwatchai_comms_openk.Store.{Message, Db, foreign_key_violation, Result, ok, err}
use fieldwatchai_comms_openk.Store.Queries.{update}
use fieldwatchai_comms_openk.Store.Erasing.{
  update_rows, count_rows, is_old, unlinked, replies_to, count_messages_older_than,
  clear_reply_links, purge_messages_older_than,
}
use fieldwatchai_comms_openk.World.{Job, World, M, query, fails, answer, pure}
use fieldwatchai_comms_openk.World.Triple.{
  Cond, Triple, pure-Triple, bind-Triple, if-Triple, query-Triple,
}
use fieldwatchai_comms_openk.Retention.{
  Answer, report, refuse, invalid, statement, PurgeResult, after, purge, purge_rows,
  min_retention_days,
}
use fieldwatchai_comms_openk.Retention.Links.{
  length-keep-update, cleared, is_cleared, cleared_links,
}

-- A statement that ends in `R`, and then what ends in `Q`.
pub steps-Triple :
    {F A B : Type 0} {P : Cond F} {Q : Answer B → Cond F} (R : Result A → Cond F)
    (q : Db F → Result A × Db F) (next : A → M F (Answer B))
    → Triple P (query q) R
    → ((a : A) → Triple (R (ok a)) (next a) Q)
    → ((e : _) (db : Db F) (jobs : List Job) → R (err e) db jobs → Q (refuse (statement e)) db jobs)
    → Triple P (after q next) Q
unfolding after
steps-Triple {F} {A} {B} {P} {Q} R q next one rest bad = bind-Triple R _ _ one ends
  where
    ends :
        (r : Result A)
        → Triple (R r) (elim r [ ok a ↦ next a | err e ↦ pure (refuse (statement e)) ]) Q
    ends (ok a) = rest a
    ends (err e) = pure-Triple _ (bad e)

module _ {F : Type 0} (u cutoff : ℕ) (db0 : Db F) where
  abbrev old : Message F → Bool
  old = is_old u cutoff

  -- The links to old messages are cleared.
  abbrev pub linked : Db F
  linked = record db0 { messages = cleared u cutoff db0.messages }

  -- And the old messages deleted.
  abbrev pub purged : Db F
  purged = record db0 { messages = keep (λ m. not (old m)) (cleared u cutoff db0.messages) }

  abbrev pub matched : ℕ
  matched = length (keep old db0.messages)

  -- The effect of `Purge`, by its answer.
  pub data Purged : Answer PurgeResult → Db F → Type 0 where
    refused : {db : Db F} → db ≡ db0 → Purged (refuse invalid) db
    broken : {e : _} {db : Db F} → (db ≡ db0) ⊎ (db ≡ linked) → Purged (refuse (statement e)) db
    counted :
        {r : PurgeResult} {db : Db F}
        → db ≡ db0
        → r.messages_matched ≡ matched
        → r.messages_deleted ≡ 0
        → (r.dry_run ≡ true) ⊎ (matched ≡ 0)
        → Purged (report r) db
    deleted :
        {r : PurgeResult} {db : Db F}
        → db ≡ purged
        → r.messages_matched ≡ matched
        → r.messages_deleted ≡ matched
        → r.dry_run ≡ false
        → Purged (report r) db

  abbrev Ends : Answer PurgeResult → Cond F
  Ends r db jobs = Purged r db

  abbrev Counted : Result ℕ → Cond F
  Counted (ok n) db jobs = (n ≡ matched) × (db ≡ db0)
  Counted (err e) db jobs = db ≡ db0

  abbrev Linked : Result ℕ → Cond F
  Linked (ok n) db jobs = db ≡ linked
  Linked (err e) db jobs = db ≡ db0

  abbrev Deleted : Result ℕ → Cond F
  Deleted (ok n) db jobs = (n ≡ matched) × (db ≡ purged)
  Deleted (err e) db jobs = db ≡ linked

  clear-Linked :
      (db : Db F) (jobs : List Job)
      → db ≡ db0
      → Linked (clear_reply_links u cutoff db).0 (clear_reply_links u cutoff db).1 jobs
  unfolding clear_reply_links update_rows
  clear-Linked db jobs e = ap (λ (x : Db F). record x { messages = cleared u cutoff x.messages }) e

  delete_if :
      (b : Bool) (n : ℕ) (jobs : List Job)
      → n ≡ matched
      → let r : Result ℕ × Db F =
          if b then (err foreign_key_violation, linked) else (ok n, purged) in
        Deleted r.0 r.1 jobs
  delete_if true n jobs e = refl
  delete_if false n jobs e = (e, refl)

  pub length-old : length (keep old (cleared u cutoff db0.messages)) ≡ matched
  unfolding is_old
  length-old =
      length-keep-update old (is_cleared u cutoff db0.messages) unlinked db0.messages (λ m. refl)

  purge-Deleted :
      (db : Db F) (jobs : List Job)
      → db ≡ linked
      → Deleted
          (purge_messages_older_than u cutoff db).0
          (purge_messages_older_than u cutoff db).1
          jobs
  unfolding purge_messages_older_than
  purge-Deleted db jobs e = rw e (delete_if _ _ jobs length-old)

  purge_rows-Triple :
      (res : PurgeResult)
      → res.cutoff ≡ cutoff
      → res.messages_matched ≡ matched
      → res.dry_run ≡ false
      → Triple (λ db jobs. db ≡ db0) (purge_rows u res) Ends
  unfolding purge_rows
  purge_rows-Triple res c k d = rw c (
      steps-Triple Linked _ _ (query-Triple _ (λ db jobs h. h) clear-Linked)
        (λ n.
          steps-Triple Deleted _ _ (query-Triple _ (λ db jobs h. h) purge-Deleted)
            (λ n. pure-Triple _ (λ db jobs h. deleted h.1 k h.0 d)) (λ e db jobs h. broken (inr h)))
        (λ e db jobs h. broken (inl h)))

  purge_counted :
      (days now : ℕ) (dry_run b : Bool) (n : ℕ)
      → (dry_run || n == 0) ≡ b
      → Triple
          (Counted (ok n))
          (if b
            then pure (
                report (record {
                  dry_run = dry_run;
                  older_than_days = days;
                  cutoff = cutoff;
                  messages_matched = n;
                  messages_deleted = 0;
                }))
            else purge_rows u (record {
              dry_run = dry_run;
              older_than_days = days;
              cutoff = cutoff;
              messages_matched = n;
              messages_deleted = 0;
            }))
          Ends
  purge_counted days now true true n e =
      pure-Triple _ (λ db jobs h. counted h.1 h.0 refl (inl refl))
  purge_counted days now true false n e = absurd (ground (arith, e))
  purge_counted days now false true n e =
      pure-Triple _ (λ db jobs h. counted h.1 h.0 refl (inr (sym h.0 ∙ ==_eq n 0 e)))
  purge_counted days now false false n e = record {
    at = λ w h. (purge_rows-Triple _ refl h.0 refl).at w h.1;
  }

-- A purge, whichever statements fail, either is refused and has changed nothing; or it breaks off and
-- has at most cleared the links of its tenant's replies to old messages; or it reports the number of
-- old messages, and has changed nothing, being a dry run or having found none; or it has cleared these
-- links, deleted exactly the old messages of its tenant, and reports their number.
pub purge-Purged :
    {F : Type 0} (now u days : ℕ) (dry_run : Bool) (w : World F)
    → Purged u
        (now - days * 86400)
        w.db
        (purge now u days dry_run w).0
        (purge now u days dry_run w).1.db
unfolding purge count_messages_older_than count_rows
purge-Purged {F} now u days dry_run w =
    (if-Triple {P = λ db jobs. db ≡ w.db} {Q = λ r db jobs. Purged u (now - days * 86400) w.db r db}
        (ltb days min_retention_days) _ _ (λ _. pure-Triple _ (λ db jobs h. refused h))
        (λ _.
          steps-Triple (Counted u (now - days * 86400) w.db) _ _
            (query-Triple _ (λ db jobs h. h)
              (λ db jobs h.
                (ap (λ (x : Db F). length (keep (is_old u (now - days * 86400)) x.messages)) h, h)))
            (λ n. purge_counted u (now - days * 86400) w.db days now dry_run _ n refl)
            (λ e db jobs h. broken (inl h)))).at
      w refl

-- If nothing fails, the window is not below the floor, and every reply to a message of the tenant is
-- the tenant's, a purge reports that it has deleted every old message: no key is in its way.
pub purge_total :
    {F : Type 0} (now u days : ℕ) (w : World F)
    → ltb days min_retention_days ≡ false
    → ((m : Message F)
        → In m w.db.messages
        → replies_to (λ o. o.tenant_id == u) w.db.messages m ≡ true
        → (m.tenant_id == u) ≡ true)
    → let n = matched u (now - days * 86400) w.db in
      (purge now u days false (record w { faults = [] })).0
      ≡ report (record {
        dry_run = false;
        older_than_days = days;
        cutoff = now - days * 86400;
        messages_matched = n;
        messages_deleted = n;
      })
unfolding purge purge_rows after query fails answer count_messages_older_than count_rows
    clear_reply_links update_rows purge_messages_older_than update
purge_total {F} now u days w h within =
    let cutoff = now - days * 86400 in
    let n = matched u cutoff w.db in
    let links =
      cleared_links u cutoff w.db.messages (λ m. not (is_old u cutoff m)) w.db.messages within in
    let same = length-old u cutoff w.db in
    let told : ℕ → PurgeResult = λ k. record {
      dry_run = false;
      older_than_days = days;
      cutoff = cutoff;
      messages_matched = n;
      messages_deleted = k;
    } in
    elim (Bool-cases (n == 0)) [
      | inl e ↦ rw (h, e) (ap (λ k. report (told k)) (sym (==_eq n 0 e)))
      | inr e ↦ rw (h, e, links, same) refl
    ]
