-- ===== src/Retention/Isolation.antt =====
-- What retention leaves alone: the messages of the other tenants, and in a dry run everything.
use fieldwatchai_comms_openk.Prelude.{
  ℕ, ◌≡◌, refl, ◌∙◌, Bool, true, false, not, ◌&&◌, ◌||◌, List, [], ◌∷◌, arith, keep, ltb, ◌==◌,
  ==_eq, comparable_nat, Bool-cases, inl, inr,
}
use fieldwatchai_comms_openk.Store.{Text, Parsed, Message, Db, Result, ok, err}
use fieldwatchai_comms_openk.Store.Queries.{update}
use fieldwatchai_comms_openk.Store.Erasing.{
  update_rows, count_rows, is_old, is_from, is_with, redact, count_messages_older_than,
  clear_reply_links, purge_messages_older_than, count_messages_for_contact,
  count_messages_for_endpoint, redact_messages_for_endpoint, redact_messages_for_contact,
  list_endpoints_for_contact, detach_messages_from_contact, delete_endpoints_for_contact,
  delete_contact_row,
}
use fieldwatchai_comms_openk.World.{World, M, pure}
use fieldwatchai_comms_openk.World.Triple.{
  Cond, Triple, pure-Triple, bind-Triple, if-Triple, query-Triple,
}
use fieldwatchai_comms_openk.Retention.{
  Answer, refuse, statement, ErasureResult, after, purge, purge_rows, count_endpoints,
  redact_endpoints, erase_endpoint, erase_contact, erase, is_blank, min_retention_days,
}

module _ {F : Type 0} (I : Db F → Type 0) where
  abbrev Holds : Cond F
  Holds db jobs = I db

  -- A statement that keeps `I`, and then what keeps it.
  pub after-Triple :
      {A B : Type 0} (q : Db F → Result A × Db F) (next : A → M F (Answer B))
      → ((db : Db F) → I db → I (q db).1)
      → ((a : A) → Triple Holds (next a) (λ _. Holds))
      → Triple Holds (after q next) (λ _. Holds)
  unfolding after
  after-Triple q next keeps rest =
      bind-Triple (λ _. Holds) _ _ (query-Triple _ (λ db jobs h. h) (λ db jobs h. keeps db h)) ends
    where
      ends :
          (r : Result _)
          → Triple Holds
              (elim r [ ok a ↦ next a | err e ↦ pure (refuse (statement e)) ])
              (λ _. Holds)
      ends (ok a) = rest a
      ends (err e) = pure-Triple _ (λ db jobs h. h)

  pub count_endpoints-Triple :
      (tenant_id : ℕ) (eps : List Text) (next : ℕ → M F (Answer ErasureResult))
      → ((n : ℕ) → Triple Holds (next n) (λ _. Holds))
      → Triple Holds (count_endpoints tenant_id eps next) (λ _. Holds)
  unfolding count_endpoints count_messages_for_endpoint count_rows
  count_endpoints-Triple tenant_id [] next h = h 0
  count_endpoints-Triple tenant_id (e ∷ eps) next h =
      after-Triple _ _ (λ db i. i) (λ n. count_endpoints-Triple tenant_id eps _ (λ k. h _))

-- The messages of a tenant.
abbrev pub of : {F : Type 0} → ℕ → Message F → Bool
of t m = m.tenant_id == t

module _ {F : Type 0} (t : ℕ) where
  -- A change of rows of another tenant keeps those of this one.
  update_other :
      (p : Message F → Bool) (g : Message F → Message F) (ms : List (Message F))
      → ((m : Message F) → p m ≡ true → (of t m ≡ false) × (of t (g m) ≡ false))
      → keep (of t) (update p g ms) ≡ keep (of t) ms
  unfolding update
  update_other p g [] h = refl
  update_other p g (m ∷ ms) h = elim (Bool-cases (p m)) [
    | inl e ↦ let k = h m e in ground (arith, e, k.0, k.1, update_other p g ms h)
    | inr e ↦ ground (arith, e, update_other p g ms h)
  ]

  keep_other :
      (p : Message F → Bool) (ms : List (Message F))
      → ((m : Message F) → p m ≡ true → of t m ≡ false)
      → keep (of t) (keep (λ m. not (p m)) ms) ≡ keep (of t) ms
  keep_other p [] h = refl
  keep_other p (m ∷ ms) h = elim (Bool-cases (p m)) [
    | inl e ↦ let k = h m e in ground (arith, e, k, keep_other p ms h)
    | inr e ↦ ground (arith, e, keep_other p ms h)
  ]

module _ {F : Type 0} (t u : ℕ) (other : (u == t) ≡ false) (kept : List (Message F)) where
  -- The messages of tenant `t` are those kept.
  abbrev Kept : Db F → Type 0
  Kept db = keep (of t) db.messages ≡ kept

  foreign : (m : Message F) (b : Bool) → (m.tenant_id == u && b) ≡ true → of t m ≡ false
  foreign m b h = elim (Bool-cases (m.tenant_id == u)) [
    | inl e ↦ let q = ==_eq m.tenant_id u e in rw q other
    | inr e ↦ absurd (ground (arith, e, h))
  ]

  update_keeps :
      (p : Message F → Bool) (g : Message F → Message F) (db : Db F)
      → ((m : Message F) → p m ≡ true → of t m ≡ false)
      → ((m : Message F) → of t (g m) ≡ of t m)
      → Kept db
      → Kept (update_rows p g db).1
  unfolding update_rows
  update_keeps p g db h k i = update_other t p g db.messages (λ m e. (h m e, k m ∙ h m e)) ∙ i

  clear_keeps : (cutoff : ℕ) (db : Db F) → Kept db → Kept (clear_reply_links u cutoff db).1
  unfolding clear_reply_links
  clear_keeps cutoff db i = update_keeps _ _ db (λ m e. foreign m _ e) (λ m. refl) i

  purge_keeps : (cutoff : ℕ) (db : Db F) → Kept db → Kept (purge_messages_older_than u cutoff db).1
  unfolding purge_messages_older_than is_old
  purge_keeps cutoff db i =
      ground (arith, i, keep_other t (is_old u cutoff) db.messages (λ m e. foreign m _ e))

  from_keeps :
      (void : Parsed F) (e : Text) (db : Db F)
      → Kept db
      → Kept (redact_messages_for_endpoint void u e db).1
  unfolding redact_messages_for_endpoint is_from redact
  from_keeps void e db i = update_keeps _ _ db (λ m e. foreign m _ e) (λ m. refl) i

  with_keeps :
      (void : Parsed F) (c : ℕ) (db : Db F)
      → Kept db
      → Kept (redact_messages_for_contact void u c db).1
  unfolding redact_messages_for_contact is_with redact
  with_keeps void c db i = update_keeps _ _ db (λ m e. foreign m _ e) (λ m. refl) i

  detach_keeps : (c : ℕ) (db : Db F) → Kept db → Kept (detach_messages_from_contact u c db).1
  unfolding detach_messages_from_contact is_with
  detach_keeps c db i = update_keeps _ _ db (λ m e. foreign m _ e) (λ m. refl) i

  delete_keeps : (c : ℕ) (db : Db F) → Kept db → Kept (delete_contact_row u c db).1
  unfolding delete_contact_row
  delete_keeps c db i = ground (arith, i)

  purge-Keeps :
      (now days : ℕ) (dry_run : Bool)
      → Triple (Holds Kept) (purge now u days dry_run) (λ _. Holds Kept)
  unfolding purge purge_rows count_messages_older_than count_rows
  purge-Keeps now days dry_run =
      if-Triple (ltb days min_retention_days) _ _ (λ _. pure-Triple _ (λ db jobs h. h))
        (λ _.
          after-Triple Kept _ _ (λ db i. i)
            (λ n.
              if-Triple (dry_run || n == 0) _ _ (λ _. pure-Triple _ (λ db jobs h. h))
                (λ _. after-Triple Kept _ _ (clear_keeps _) (λ k.
                  after-Triple Kept _ _ (purge_keeps _) (λ k. pure-Triple _ (λ db jobs h. h))))))

  erase_endpoint-Keeps :
      (void : Parsed F) (e : Text) (dry_run : Bool)
      → Triple (Holds Kept) (erase_endpoint void u e dry_run) (λ _. Holds Kept)
  unfolding erase_endpoint count_messages_for_endpoint count_rows
  erase_endpoint-Keeps void e dry_run =
      if-Triple (is_blank e) _ _ (λ _. pure-Triple _ (λ db jobs h. h))
        (λ _.
          after-Triple Kept _ _ (λ db i. i)
            (λ n.
              if-Triple (dry_run || n == 0) _ _ (λ _. pure-Triple _ (λ db jobs h. h))
                (λ _.
                  after-Triple Kept _ _ (from_keeps void e) (λ k. pure-Triple _ (λ db jobs h. h)))))

  redact_endpoints-Keeps :
      (void : Parsed F) (eps : List Text) (next : ℕ → M F (Answer ErasureResult))
      → ((n : ℕ) → Triple (Holds Kept) (next n) (λ _. Holds Kept))
      → Triple (Holds Kept) (redact_endpoints void u eps next) (λ _. Holds Kept)
  unfolding redact_endpoints
  redact_endpoints-Keeps void [] next h = h 0
  redact_endpoints-Keeps void (e ∷ eps) next h =
      after-Triple Kept _ _ (from_keeps void e) (λ n. redact_endpoints-Keeps void eps _ (λ k. h _))

  erase_contact-Keeps :
      (void : Parsed F) (c : ℕ) (res : ErasureResult)
      → Triple (Holds Kept) (erase_contact void u c res) (λ _. Holds Kept)
  unfolding erase_contact delete_endpoints_for_contact
  erase_contact-Keeps void c res = after-Triple Kept _ _ (with_keeps void c) (λ n.
      after-Triple Kept _ _ (detach_keeps c) (λ k.
        after-Triple Kept _ _ (λ db i. i)
          (λ d. after-Triple Kept _ _ (delete_keeps c) (λ n.
            if-Triple (n == 0) _ _ (λ _. pure-Triple _ (λ db jobs h. h))
              (λ _. pure-Triple _ (λ db jobs h. h))))))

  erase-Keeps :
      (void : Parsed F) (c : ℕ) (dry_run : Bool)
      → Triple (Holds Kept) (erase void u c dry_run) (λ _. Holds Kept)
  unfolding erase count_messages_for_contact count_rows list_endpoints_for_contact
  erase-Keeps void c dry_run =
      after-Triple Kept _ _ (λ db i. i)
        (λ n.
          after-Triple Kept _ _ (λ db i. i)
            (λ listed. count_endpoints-Triple Kept u _ _ (λ found.
              if-Triple dry_run _ _ (λ _. pure-Triple _ (λ db jobs h. h))
                (λ _. redact_endpoints-Keeps void _ _ (λ k. erase_contact-Keeps void c _)))))

-- A purge and both erasures, of one tenant, leave the messages of every other tenant as they are,
-- whichever statements fail.
pub retention_isolated :
    {F : Type 0} (void : Parsed F) (t u : ℕ)
    → (u == t) ≡ false
    → (now days contact_id : ℕ) (endpoint : Text) (dry_run : Bool) (w : World F)
    → (keep (of t) (purge now u days dry_run w).1.db.messages ≡ keep (of t) w.db.messages)
      × (keep (of t) (erase_endpoint void u endpoint dry_run w).1.db.messages
          ≡ keep (of t) w.db.messages)
      × (keep (of t) (erase void u contact_id dry_run w).1.db.messages ≡ keep (of t) w.db.messages)
retention_isolated void t u other now days contact_id endpoint dry_run w =
    let kept = keep (of t) w.db.messages in
    (
      (purge-Keeps t u other kept now days dry_run).at w refl,
      (erase_endpoint-Keeps t u other kept void endpoint dry_run).at w refl,
      (erase-Keeps t u other kept void contact_id dry_run).at w refl,
    )

-- A dry run, of a purge or of either erasure, changes nothing in the database.
pub retention_dry_run :
    {F : Type 0} (void : Parsed F) (tenant_id now days contact_id : ℕ) (endpoint : Text)
    (w : World F)
    → ((purge now tenant_id days true w).1.db ≡ w.db)
      × ((erase_endpoint void tenant_id endpoint true w).1.db ≡ w.db)
      × ((erase void tenant_id contact_id true w).1.db ≡ w.db)
unfolding purge erase_endpoint erase count_messages_older_than count_rows
    count_messages_for_endpoint count_messages_for_contact list_endpoints_for_contact
retention_dry_run {F} void tenant_id now days contact_id endpoint w =
    let Same : Db F → Type 0 = λ db. db ≡ w.db in
    (
      (if-Triple {P = Holds Same} {Q = λ _. Holds Same} (ltb days min_retention_days) _ _
            (λ _. pure-Triple _ (λ db jobs h. h))
            (λ _. after-Triple Same _ _ (λ db i. i) (λ n. pure-Triple _ (λ db jobs h. h)))).at
          w refl,
      (if-Triple {P = Holds Same} {Q = λ _. Holds Same} (is_blank endpoint) _ _
            (λ _. pure-Triple _ (λ db jobs h. h))
            (λ _. after-Triple Same _ _ (λ db i. i) (λ n. pure-Triple _ (λ db jobs h. h)))).at
          w refl,
      (after-Triple Same _ _ (λ db i. i)
            (λ n.
              after-Triple Same _ _ (λ db i. i)
                (λ listed.
                  count_endpoints-Triple Same tenant_id _ _
                    (λ found. pure-Triple _ (λ db jobs h. h))))).at
          w refl,
    )
