-- ===== src/Retention/Refusal.antt =====
-- An erasure of a contact that the tenant does not have: what is gone when it is refused.
use fieldwatchai_comms_openk.Prelude.{
  ℕ, ◌≡◌, ◌⊎◌, inl, inr, refl, sym, ap, ◌∙◌, subst, Bool, true, false, not, List, [], ◌∷◌, arith,
  length, keep, any, ◌==◌, ==_eq, comparable_nat, if◌then◌else◌, Bool-cases,
}
use fieldwatchai_comms_openk.Store.{
  Text, Parsed, Contact, ContactEndpoint, Db, foreign_key_violation, Result, ok, err,
}
use fieldwatchai_comms_openk.Store.Erasing.{
  update_rows, count_rows, is_contact, count_messages_for_contact, count_messages_for_endpoint,
  redact_messages_for_endpoint, redact_messages_for_contact, list_endpoints_for_contact,
  detach_messages_from_contact, delete_endpoints_for_contact, delete_contact_row,
}
use fieldwatchai_comms_openk.World.{Job, World, M, pure}
use fieldwatchai_comms_openk.World.Triple.{Cond, Triple, pure-Triple, query-Triple}
use fieldwatchai_comms_openk.Retention.{
  Answer, report, refuse, invalid, not_found, statement, ErasureResult, after, count_endpoints,
  redact_endpoints, erase_contact, erase,
}
use fieldwatchai_comms_openk.Retention.Effect.{steps-Triple}
use fieldwatchai_comms_openk.Retention.Erasure.{none_kept, none_left}

module _ {F : Type 0} (void : Parsed F) (u c : ℕ) (contacts : List Contact) where
  abbrev is_of : ContactEndpoint → Bool
  is_of e = e.contact_id == c

  abbrev Start : Cond F
  Start db jobs = db.contacts ≡ contacts

  -- The endpoints of the contact are gone.
  abbrev Gone : Cond F
  Gone db jobs = (db.contacts ≡ contacts) × (any is_of db.endpoints ≡ false)

  abbrev Refused : Answer ErasureResult → Cond F
  Refused (refuse not_found) db jobs =
      (any (is_contact u c) contacts ≡ false) × (any is_of db.endpoints ≡ false)
  Refused (refuse invalid) db jobs = Unit
  Refused (refuse (statement e)) db jobs = Unit
  Refused (report r) db jobs = Unit

  abbrev Passed : {A : Type 0} → Cond F → Result A → Cond F
  Passed Next (ok a) db jobs = Next db jobs
  Passed Next (err e) db jobs = Unit

  passed :
      {A : Type 0} (Next : Cond F) (r : Result A) (db : Db F) (jobs : List Job)
      → Next db jobs
      → Passed Next r db jobs
  passed Next (ok a) db jobs h = h
  passed Next (err e) db jobs h = tt

  -- A statement that ends in `Next` unless it fails.
  pass :
      {A : Type 0} {P : Cond F} (Next : Cond F) (q : Db F → Result A × Db F)
      (next : A → M F (Answer ErasureResult))
      → ((db : Db F) (jobs : List Job) → P db jobs → Next (q db).1 jobs)
      → ((a : A) → Triple Next (next a) Refused)
      → Triple P (after q next) Refused
  pass Next q next keeps rest =
      steps-Triple (Passed Next) q next
        (query-Triple q (λ db jobs h. tt)
          (λ db jobs h. passed Next (q db).0 (q db).1 jobs (keeps db jobs h)))
        rest (λ e db jobs h. tt)

  counting :
      (eps : List Text) (next : ℕ → M F (Answer ErasureResult))
      → ((n : ℕ) → Triple Start (next n) Refused)
      → Triple Start (count_endpoints u eps next) Refused
  unfolding count_endpoints count_messages_for_endpoint count_rows
  counting [] next h = h 0
  counting (e ∷ eps) next h = pass Start _ _ (λ db jobs i. i) (λ n. counting eps _ (λ k. h _))

  redacting :
      (eps : List Text) (next : ℕ → M F (Answer ErasureResult))
      → ((n : ℕ) → Triple Start (next n) Refused)
      → Triple Start (redact_endpoints void u eps next) Refused
  unfolding redact_endpoints redact_messages_for_endpoint update_rows
  redacting [] next h = h 0
  redacting (e ∷ eps) next h = pass Start _ _ (λ db jobs i. i) (λ n. redacting eps _ (λ k. h _))

  -- How the deletion of the contact ends: no row, or some.
  abbrev Deleted : Result ℕ → Cond F
  Deleted (ok n) db jobs =
      ((any (is_contact u c) contacts ≡ false) × (any is_of db.endpoints ≡ false))
      ⊎ ((n == 0) ≡ false)
  Deleted (err e) db jobs = Unit

  some_kept :
      (xs : List Contact)
      → any (is_contact u c) xs ≡ true
      → (length (keep (is_contact u c) xs) == 0) ≡ false
  some_kept xs h = elim (Bool-cases (length (keep (is_contact u c) xs) == 0)) [
    | inl e ↦
        let q = none_kept (is_contact u c) xs (==_eq (length (keep (is_contact u c) xs)) 0 e) in
        absurd (ground (arith, h, q))
    | inr e ↦ e
  ]

  delete_if :
      (db left : Db F) (jobs : List Job) (b m : Bool)
      → Gone db jobs
      → any (is_contact u c) db.contacts ≡ b
      → let r : Result ℕ × Db F =
          if not b
          then (ok 0, db)
          else if m
          then (err foreign_key_violation, db)
          else (ok (length (keep (is_contact u c) db.contacts)), left) in
        Deleted r.0 r.1 jobs
  delete_if db left jobs false m h e = inl (ap (any (is_contact u c)) (sym h.0) ∙ e, h.1)
  delete_if db left jobs true true h e = tt
  delete_if db left jobs true false h e = inr (some_kept db.contacts e)

  delete-Deleted :
      (db : Db F) (jobs : List Job)
      → Gone db jobs
      → Deleted (delete_contact_row u c db).0 (delete_contact_row u c db).1 jobs
  unfolding delete_contact_row
  delete-Deleted db jobs h = delete_if db _ jobs _ _ h refl

  ending :
      (n : ℕ) (res : ErasureResult) (b : Bool)
      → (n == 0) ≡ b
      → Triple (Deleted (ok n)) (if b then pure (refuse not_found) else pure (report res)) Refused
  ending n res true e =
      pure-Triple _ (λ db jobs h. elim h [ inl g ↦ g | inr k ↦ absurd (ground (arith, e, k)) ])
  ending n res false e = pure-Triple _ (λ db jobs h. tt)

  erase_contact-Refused : (res : ErasureResult) → Triple Start (erase_contact void u c res) Refused
  unfolding erase_contact redact_messages_for_contact detach_messages_from_contact update_rows
      delete_endpoints_for_contact
  erase_contact-Refused res =
      pass Start _ _ (λ db jobs i. i)
        (λ n.
          pass Start _ _ (λ db jobs i. i)
            (λ k.
              pass Gone _ _ (λ db jobs i. (i, none_left is_of db.endpoints))
                (λ d.
                  steps-Triple Deleted _ _ (query-Triple _ (λ db jobs h. tt) delete-Deleted)
                    (λ n. ending n _ _ refl) (λ e db jobs h. tt))))

  erase-Refused : Triple Start (erase void u c false) Refused
  unfolding erase count_messages_for_contact count_rows list_endpoints_for_contact
  erase-Refused =
      pass Start _ _ (λ db jobs i. i)
        (λ n.
          pass Start _ _ (λ db jobs i. i)
            (λ listed. counting _ _ (λ found. redacting _ _ (λ k. erase_contact-Refused _))))

-- If an erasure ends with `ErrNotFound`, the tenant has no contact with the id, and every endpoint of
-- the contact with the id, whose tenant is another if it exists, has been deleted.
pub erase_not_found :
    {F : Type 0} (void : Parsed F) (u c : ℕ) (w : World F)
    → (erase void u c false w).0 ≡ refuse not_found
    → (any (is_contact u c) w.db.contacts ≡ false)
      × (any (λ e. e.contact_id == c) (erase void u c false w).1.db.endpoints ≡ false)
erase_not_found {F} void u c w e =
    subst
      (λ r.
        Refused void u c w.db.contacts r (erase void u c false w).1.db
          (erase void u c false w).1.jobs)
      e ((erase-Refused void u c w.db.contacts).at w refl)
