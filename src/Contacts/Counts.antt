-- ===== src/Contacts/Counts.antt =====
-- What channels-go/internal/contacts/bulkimport.go counts, and the short ids of a tenant.
use fieldwatchai_comms_openk.Prelude.{
  ℕ, suc, ◌+◌, ◌≤◌, ◌≡◌, refl, Bool, true, false, ◌||◌, Option, none, some, List, [], ◌∷◌, length,
  arith, any, All, All-map, ◌==◌, comparable_nat, comparable_list, if◌then◌else◌, codes,
}
use fieldwatchai_comms_openk.Store.{
  Text, Contact, Db, no_rows, unique_violation, foreign_key_violation, unavailable, Result, ok, err,
}
use fieldwatchai_comms_openk.Store.Accounts.{has_tenant}
use fieldwatchai_comms_openk.Store.Contacts.{create_contact, get_contact_by_short_id, has_short_id}
use fieldwatchai_comms_openk.World.{World, M, new_id, query, pure, ◌>>=◌}
use fieldwatchai_comms_openk.World.Cases.{query_cases, if_lem, spent}
use fieldwatchai_comms_openk.Contacts.{
  Outcome, done, failed, ContactView, ContactInput, invalid, view_of, stored, contact_row,
  create_unless_taken, new_contact,
}
use fieldwatchai_comms_openk.Admin.Accounts.{is_blank}
use fieldwatchai_comms_openk.Contacts.Import.{
  RowError, BulkResult, Line, tally, column, input_of, import_rows, import_after, with_columns,
  bulk_import, Import, imported, unreadable,
}

-- No two contacts of a tenant have one short id.
abbrev pub Apart : List Contact → Type 0
Apart [] = Unit
Apart (c ∷ cs) = All (λ b. has_short_id c.tenant_id c.short_id b ≡ false) cs × Apart cs

abbrev grown : {A : Type 0} → Outcome A → ℕ
grown (done a) = 1
grown (failed e) = 0

-- The contacts afterwards: `n` more, still apart.
abbrev pub Grown : {F : Type 0} → World F → ℕ → World F → Type 0
Grown w n v = (length v.db.contacts ≡ n + length w.db.contacts) × Apart v.db.contacts

free_lem :
    (c : Contact) (cs : List Contact)
    → any (λ b. b.id == c.id || has_short_id c.tenant_id c.short_id b) cs ≡ false
    → All (λ b. has_short_id c.tenant_id c.short_id b ≡ false) cs
free_lem c [] e = tt
free_lem c (b ∷ cs) e = (ground (arith, e), free_lem c cs (ground (arith, e)))

module _ {F : Type 0} where
  create_contact-Grown :
      (c : Contact) (w : World F)
      → Apart w.db.contacts
      → let r = create_contact c w.db in
        (length r.1.contacts ≡ grown (stored (λ x. x) r.0) + length w.db.contacts)
        × Apart r.1.contacts
  unfolding create_contact stored
  create_contact-Grown c w h =
      by_unique (any (λ b. b.id == c.id || has_short_id c.tenant_id c.short_id b) w.db.contacts)
        (has_tenant c.tenant_id w.db) refl
    where
      by_unique :
          (b t : Bool)
          → any (λ b. b.id == c.id || has_short_id c.tenant_id c.short_id b) w.db.contacts ≡ b
          → let r : Result Contact × Db F =
              if b
              then (err unique_violation, w.db)
              else if t
              then (ok c, record w.db { contacts = c ∷ w.db.contacts })
              else (err foreign_key_violation, w.db) in
            (length r.1.contacts ≡ grown (stored (λ x. x) r.0) + length w.db.contacts)
            × Apart r.1.contacts
      by_unique true t e = (omega arith, h)
      by_unique false true e = (omega arith, (free_lem c w.db.contacts e, h))
      by_unique false false e = (omega arith, h)

view-grown :
    {A B C : Type 0} (g : A → B) (h : A → C) (r : Result A)
    → grown (stored g r) ≡ grown (stored h r)
unfolding stored
view-grown g h (ok a) = refl
view-grown g h (err e) = refl

module _ {F : Type 0} (ids : ℕ → ℕ) (now : ℕ) where
  abbrev Stepped : World F → Outcome ContactView × World F → Type 0
  Stepped w r = Grown w (grown r.0) r.1

  create_unless_taken-Grown :
      (in_ : ContactInput) (r : Result Contact) (w : World F)
      → Apart w.db.contacts
      → Stepped w (create_unless_taken ids now in_ r w)
  unfolding create_unless_taken new_id stored
  create_unless_taken-Grown in_ (ok c) w h = (omega arith, h)
  create_unless_taken-Grown in_ (err no_rows) w h =
      let c = contact_row ids now in_ (ids w.drawn) in
      let k = create_contact-Grown c w h in
      query_cases (create_contact c) (λ r v. (stored view_of r, v)) (Stepped w)
        (record w { drawn = suc w.drawn }) (omega arith, h)
        (rw (view-grown view_of (λ x. x) (create_contact c w.db).0) k)
  create_unless_taken-Grown in_ (err unique_violation) w h = (omega arith, h)
  create_unless_taken-Grown in_ (err foreign_key_violation) w h = (omega arith, h)
  create_unless_taken-Grown in_ (err unavailable) w h = (omega arith, h)

  new_contact-Grown :
      (in_ : ContactInput) (w : World F)
      → Apart w.db.contacts
      → Stepped w (new_contact ids now in_ w)
  unfolding new_contact get_contact_by_short_id
  new_contact-Grown in_ w h =
      if_lem (in_.tenant_id == 0 || is_blank in_.short_id || is_blank in_.display_name)
        (pure (failed invalid))
        (query (get_contact_by_short_id in_.tenant_id in_.short_id)
          >>= create_unless_taken ids now in_)
        (Stepped w) w (omega arith, h)
        (query_cases (get_contact_by_short_id in_.tenant_id in_.short_id)
          (create_unless_taken ids now in_) (Stepped w) w
          (create_unless_taken-Grown in_ (err unavailable) (spent w) h)
          (create_unless_taken-Grown in_ (get_contact_by_short_id in_.tenant_id in_.short_id w.db).0
            (spent w) h))

-- What the loop has counted when it ends.
abbrev pub Tallied : {F : Type 0} → ℕ → List Line → World F → BulkResult × World F → Type 0
Tallied n lines w r =
    Grown w r.0.created r.1
    × (r.0.created + length r.0.errors ≡ length lines)
    × All (λ e. (suc n ≤ e.row) × (e.row ≤ n + length lines)) r.0.errors

abbrev From : ℕ → ℕ → RowError → Type 0
From n k e = (suc n ≤ e.row) × (e.row ≤ n + k)

later_errors : (n k : ℕ) (es : List RowError) → All (From (suc n) k) es → All (From n (suc k)) es
later_errors n k es h =
    All-map (From (suc n) k) (From n (suc k)) es (λ e l. (omega (arith, l.0), omega (arith, l.1))) h

module _ {F : Type 0} where
  tally-Tallied :
      (n : ℕ) (l : Line) (lines : List Line) (w v : World F) (c : Outcome ContactView)
      (t : BulkResult × World F)
      → Grown w (grown c) v
      → Tallied (suc n) lines v t
      → Tallied n (l ∷ lines) w (tally (suc n) c t.0, t.1)
  unfolding tally
  tally-Tallied n l lines w v (done c) t g k = (
    (omega (arith, g.0, k.0.0), k.0.1),
    omega (arith, k.1),
    later_errors n (length lines) t.0.errors k.2,
  )
  tally-Tallied n l lines w v (failed e) t g k = (
    (omega (arith, g.0, k.0.0), k.0.1),
    omega (arith, k.1),
    ((omega arith, omega arith), later_errors n (length lines) t.0.errors k.2),
  )

module _ (to_lower : Text → Text) (ids : ℕ → ℕ) (now : ℕ) {F : Type 0} where
  import_rows-Tallied :
      (tenant_id : ℕ) (header : List Text) (n : ℕ) (lines : List Line) (w : World F)
      → Apart w.db.contacts
      → Tallied n lines w (import_rows to_lower ids now tenant_id header n lines w)
  unfolding import_rows
  import_rows-Tallied tenant_id header n [] w h = ((omega arith, h), omega arith, tt)
  import_rows-Tallied tenant_id header n (none ∷ lines) w h =
      let k = import_rows-Tallied tenant_id header (suc n) lines w h in
      (k.0, omega (arith, k.1), ((omega arith, omega arith), later_errors n (length lines) _ k.2))
  import_rows-Tallied tenant_id header n (some r ∷ lines) w h =
      let s = new_contact ids now (input_of to_lower tenant_id header r) w in
      let g = new_contact-Grown ids now (input_of to_lower tenant_id header r) w h in
      let k = import_rows-Tallied tenant_id header (suc n) lines s.1 g.1 in
      tally-Tallied n (some r) lines w s.1 s.0
        (import_rows to_lower ids now tenant_id header (suc n) lines s.1) g k

-- A file that is refused as a whole changes nothing. Of any other each line is created or skipped,
-- the contacts grow by what is counted as created, and each error names a line of the file.
abbrev pub Imported : {F : Type 0} → List Line → World F → Import × World F → Type 0
Imported lines w (imported res, v) =
    Grown w res.created v
    × (res.created + res.skipped ≡ length lines)
    × (res.skipped ≡ length res.errors)
    × All (λ e. (1 ≤ e.row) × (e.row ≤ length lines)) res.errors
Imported lines w (unreadable e, v) = v ≡ w

abbrev pub data_lines : List Line → List Line
data_lines [] = []
data_lines (header ∷ lines) = lines

module _ {F : Type 0} where
  with_columns-Imported :
      (o p : Option ℕ) (lines : List Line) (m : M F BulkResult) (w : World F)
      → Tallied 0 lines w (m w)
      → Imported lines w (with_columns o p m w)
  unfolding with_columns
  with_columns-Imported none p lines m w k = refl
  with_columns-Imported (some i) none lines m w k = refl
  with_columns-Imported (some i) (some j) lines m w k = (
    k.0,
    k.1,
    refl,
    All-map (From 0 (length lines)) (λ e. (1 ≤ e.row) × (e.row ≤ length lines)) (m w).0.errors
        (λ e l. (omega (arith, l.0), omega (arith, l.1))) k.2,
  )

module _ (to_lower : Text → Text) (ids : ℕ → ℕ) (now : ℕ) {F : Type 0} where
  import_after-Imported :
      (tenant_id : ℕ) (header : List Text) (lines : List Line) (w : World F)
      → Apart w.db.contacts
      → Imported lines w (import_after to_lower ids now tenant_id header lines w)
  unfolding import_after
  import_after-Imported tenant_id header lines w h =
      with_columns-Imported (column to_lower (codes "short_id") 0 header)
        (column to_lower (codes "display_name") 0 header) lines
        (import_rows to_lower ids now tenant_id header 0 lines) w
        (import_rows-Tallied to_lower ids now tenant_id header 0 lines w h)

  -- A bulk import into contacts with distinct short ids per tenant keeps them distinct. Either the
  -- file is refused as a whole and nothing changes, or each line behind the header is counted as
  -- created or skipped, the contacts grow by exactly the number created, whatever fails, and there
  -- is one error for each skipped line, which names a line of the file.
  pub bulk_import-Imported :
      (tenant_id : ℕ) (lines : List Line) (w : World F)
      → Apart w.db.contacts
      → Imported (data_lines lines) w (bulk_import to_lower ids now tenant_id lines w)
  unfolding bulk_import
  bulk_import-Imported tenant_id [] w h = refl
  bulk_import-Imported tenant_id (none ∷ lines) w h = refl
  bulk_import-Imported tenant_id (some header ∷ lines) w h =
      import_after-Imported tenant_id header lines w h
