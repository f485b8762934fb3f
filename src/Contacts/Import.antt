-- ===== src/Contacts/Import.antt =====
-- channels-go/internal/contacts/bulkimport.go.
use fieldwatchai_comms_openk.Prelude.{
  ℕ, zero, suc, Bool, Option, none, some, List, [], ◌∷◌, length, ◌==◌, comparable_nat,
  comparable_list, codes, if◌then◌else◌,
}
use fieldwatchai_comms_openk.Parser.{trim_space}
use fieldwatchai_comms_openk.Store.{Text}
use fieldwatchai_comms_openk.World.{M, ◌>>=◌, pure}
use fieldwatchai_comms_openk.Contacts.{
  Failure, Outcome, done, failed, ContactView, ContactInput, new_contact,
}

-- Why a row was skipped: the reader refused it, or `Create` did.
pub data Reason : Type 0 where
  malformed : Reason
  refused : Failure → Reason

pub record RowError : Type 0 where
  pub row : ℕ
  pub reason : Reason

pub record BulkResult : Type 0 where
  pub created : ℕ
  pub skipped : ℕ
  pub errors : List RowError

-- The file that cannot be imported at all.
pub data Refusal : Type 0 where
  no_header no_short_id no_display_name : Refusal

pub data Import : Type 0 where
  imported : BulkResult → Import
  unreadable : Refusal → Import

-- `cr.Read()`: a record, or none where it is malformed.
abbrev pub Line : Type 0
Line = Option (List Text)

abbrev or_here : Option ℕ → Bool → ℕ → Option ℕ
or_here (some j) b i = some j
or_here none b i = if b then some i else none

-- `optPtr`
unfoldable pub opt_ptr : Text → Option Text
opt_ptr [] = none
opt_ptr (c ∷ s) = some (c ∷ s)

abbrev at : List Text → ℕ → Text
at [] i = []
at (s ∷ record_) zero = s
at (s ∷ record_) (suc i) = at record_ i

-- One row that `Create` has answered, before what the later rows give.
unfoldable pub tally : ℕ → Outcome ContactView → BulkResult → BulkResult
tally n (done c) res = record res { created = suc res.created }
tally n (failed e) res = record res { errors = record { row = n; reason = refused e } ∷ res.errors }

-- The two required columns, and what `BulkResult` counts as skipped.
unfoldable pub with_columns : {F : Type 0} → Option ℕ → Option ℕ → M F BulkResult → M F Import
with_columns none j m = pure (unreadable no_short_id)
with_columns (some i) none m = pure (unreadable no_display_name)
with_columns (some i) (some j) m = do
  res ← m
  pure (imported (record res { skipped = length res.errors }))

-- `strings.ToLower` is a parameter.
module _ (to_lower : Text → Text) where
  -- `col[name]`: a later column of the same name replaces an earlier one.
  unfoldable pub column : Text → ℕ → List Text → Option ℕ
  column name i [] = none
  column name i (h ∷ header) =
      or_here (column name (suc i) header) (to_lower (trim_space h) == name) i

  -- `get`
  unfoldable pub field : List Text → List Text → Text → Text
  field header record_ name = elim (column name 0 header) [
    | none ↦ []
    | some i ↦ trim_space (at record_ i)
  ]

  unfoldable pub input_of : ℕ → List Text → List Text → ContactInput
  input_of tenant_id header r = record {
    tenant_id = tenant_id;
    short_id = field header r (codes "short_id");
    display_name = field header r (codes "display_name");
    role = opt_ptr (field header r (codes "role"));
    aoi_id = opt_ptr (field header r (codes "aoi_id"));
    status = field header r (codes "status");
    metadata = [];
  }

module _ (to_lower : Text → Text) (ids : ℕ → ℕ) (now : ℕ) where
  -- The loop, `n` being `rowNum`.
  unfoldable pub import_rows : {F : Type 0} → ℕ → List Text → ℕ → List Line → M F BulkResult
  import_rows tenant_id header n [] = pure (record { created = 0; skipped = 0; errors = [] })
  import_rows tenant_id header n (none ∷ lines) = do
    res ← import_rows tenant_id header (suc n) lines
    pure (record res { errors = record { row = suc n; reason = malformed } ∷ res.errors })
  import_rows tenant_id header n (some r ∷ lines) = do
    c ← new_contact ids now (input_of to_lower tenant_id header r)
    res ← import_rows tenant_id header (suc n) lines
    pure (tally (suc n) c res)

  -- The rest of `BulkImport` behind the header.
  unfoldable pub import_after : {F : Type 0} → ℕ → List Text → List Line → M F Import
  import_after tenant_id header lines =
      with_columns (column to_lower (codes "short_id") 0 header)
        (column to_lower (codes "display_name") 0 header) (import_rows tenant_id header 0 lines)

  -- `BulkImport` of a file that reads as these lines.
  unfoldable pub bulk_import : {F : Type 0} → ℕ → List Line → M F Import
  bulk_import tenant_id [] = pure (unreadable no_header)
  bulk_import tenant_id (none ∷ lines) = pure (unreadable no_header)
  bulk_import tenant_id (some header ∷ lines) = import_after tenant_id header lines
