-- ===== src/Contacts/Check.antt =====
-- What `ShortIDCheck` of channels-go/internal/contacts/service.go reports.
use fieldwatchai_comms_openk.Prelude.{
  ℕ, ◌≤◌, ◌≡◌, ◌↔◌, ◌⊎◌, inl, inr, refl, sym, Bool, true, false, List, [], ◌∷◌, map, arith, keep,
  In, ◌==◌, ==_eq, ==_ne, comparable_nat, comparable_list, if◌then◌else◌,
}
use fieldwatchai_comms_openk.Strdist.{levenshtein}
use fieldwatchai_comms_openk.Strdist.Metric.{levenshtein_metric}
use fieldwatchai_comms_openk.Store.{Text, Contact, Db}
use fieldwatchai_comms_openk.Store.Queries.{list_contact_short_ids}
use fieldwatchai_comms_openk.World.{World}
use fieldwatchai_comms_openk.World.Cases.{query_cases, spent}
use fieldwatchai_comms_openk.Contacts.{
  Outcome, done, failed, internal, ShortIdCheck, is_near, compare_ids, stored, short_id_check,
}

-- The short ids of a tenant.
abbrev pub short_ids : {F : Type 0} → ℕ → Db F → List Text
short_ids tenant_id db = map (λ c. c.short_id) (keep (λ c. c.tenant_id == tenant_id) db.contacts)

-- Whether the id is there, and the others that at most two edits lead to.
abbrev pub Compared : Text → List Text → ShortIdCheck → Type 0
Compared short_id known c =
    ((c.is_taken ≡ true) ↔ In short_id known)
    × ((s : Text)
        → In s c.suggestions ↔ (In s known × ¬ (s ≡ short_id) × (levenshtein short_id s ≤ 2)))

abbrev texts_of : List Contact → List Text
texts_of rows = map (λ c. c.short_id) rows

is_near_lem : (a b : Text) → ¬ (b ≡ a) → (is_near (levenshtein a b) ≡ true) ↔ (levenshtein a b ≤ 2)
unfolding is_near
is_near_lem a b ne =
    let m = levenshtein_metric a b b in
    let pos : ¬ (levenshtein a b ≡ 0) = λ z. ne (sym (m.0.0 z)) in
    (λ h. ground (arith, h), λ h. ground (arith, h, pos))

compare_ids-Compared :
    (short_id : Text) (rows : List Contact)
    → Compared short_id (texts_of rows) (compare_ids short_id rows)
unfolding compare_ids
compare_ids-Compared short_id [] =
    ((λ e. cc e, λ i. absurd i), λ s. (λ i. absurd i, λ i. absurd i.0))
compare_ids-Compared short_id (r ∷ rows) =
    by_equal (r.short_id == short_id) refl (compare_ids short_id rows)
      (compare_ids-Compared short_id rows)
  where
    taken :
        r.short_id ≡ short_id
        → (c : ShortIdCheck) → Compared short_id (texts_of rows) c
        → Compared short_id (r.short_id ∷ texts_of rows) (record c { is_taken = true })
    taken e c h = (
      (λ _. inl (sym e), λ _. refl),
      λ s. (
        λ i. let k = (h.1 s).0 i in (inr k.0, k.1, k.2),
        λ k. elim k.0 [ inl q ↦ absurd (k.1 (rw q e)) | inr i ↦ (h.1 s).1 (i, k.1, k.2) ],
      ),
    )

    other :
        ¬ (r.short_id ≡ short_id)
        → (c : ShortIdCheck) → ((c.is_taken ≡ true) ↔ In short_id (texts_of rows))
        → (c.is_taken ≡ true) ↔ In short_id (r.short_id ∷ texts_of rows)
    other ne c h = (λ e. inr (h.0 e), λ i. elim i [ inl q ↦ absurd (ne (sym q)) | inr k ↦ h.1 k ])

    by_near :
        (near : Bool)
        → is_near (levenshtein short_id r.short_id) ≡ near
        → ¬ (r.short_id ≡ short_id)
        → (c : ShortIdCheck) → Compared short_id (texts_of rows) c
        → Compared short_id
            (r.short_id ∷ texts_of rows)
            (if near then record c { suggestions = r.short_id ∷ c.suggestions } else c)
    by_near true e ne c h = (
      other ne c h.0,
      λ s. (
        λ i. elim i [
          | inl q ↦ rw q (inl refl, ne, (is_near_lem short_id r.short_id ne).0 e)
          | inr k ↦ let r = (h.1 s).0 k in (inr r.0, r.1, r.2)
        ],
        λ k. elim k.0 [ inl q ↦ inl q | inr i ↦ inr ((h.1 s).1 (i, k.1, k.2)) ],
      ),
    )
    by_near false e ne c h = (
      other ne c h.0,
      λ s. (
        λ i. let r = (h.1 s).0 i in (inr r.0, r.1, r.2),
        λ k. elim k.0 [
          | inl q ↦
              let l = (is_near_lem short_id r.short_id ne).1 (rw (sym q) k.2) in absurd (cc (l, e))
          | inr i ↦ (h.1 s).1 (i, k.1, k.2)
        ],
      ),
    )

    by_equal :
        (same : Bool)
        → (r.short_id == short_id) ≡ same
        → (c : ShortIdCheck) → Compared short_id (texts_of rows) c
        → Compared short_id (r.short_id ∷ texts_of rows) (
            if same
            then record c { is_taken = true }
            else if is_near (levenshtein short_id r.short_id)
            then record c { suggestions = r.short_id ∷ c.suggestions }
            else c)
    by_equal true e c h = taken (==_eq r.short_id short_id e) c h
    by_equal false e c h =
        by_near (is_near (levenshtein short_id r.short_id)) refl (==_ne r.short_id short_id e) c h

-- The report, or an internal error where the statement fails; nothing is written.
abbrev pub Checked : {F : Type 0} → ℕ → Text → World F → Outcome ShortIdCheck × World F → Type 0
Checked tenant_id short_id w r =
    (r.1 ≡ spent w)
    × ((r.0 ≡ failed internal)
        ⊎ ((c : ShortIdCheck) × (r.0 ≡ done c) × Compared short_id (short_ids tenant_id w.db) c))

module _ {F : Type 0} (tenant_id : ℕ) (short_id : Text) (w : World F) where
  -- `ShortIDCheck` writes nothing; unless its statement fails, which is an internal error, it says
  -- that the short id is taken exactly where a contact of the tenant has it, and its suggestions are
  -- exactly the other short ids of the tenant at an edit distance of at most 2.
  pub short_id_check-Checked : Checked tenant_id short_id w (short_id_check tenant_id short_id w)
  unfolding short_id_check stored list_contact_short_ids
  short_id_check-Checked =
      query_cases (list_contact_short_ids tenant_id) (λ r w'. (stored (compare_ids short_id) r, w'))
        (Checked tenant_id short_id w) w (refl, inl refl)
        (
          refl,
          inr (
            compare_ids short_id (keep (λ c. c.tenant_id == tenant_id) w.db.contacts),
            refl,
            compare_ids-Compared short_id (keep (λ c. c.tenant_id == tenant_id) w.db.contacts),
          ),
        )
