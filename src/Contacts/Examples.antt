-- ===== src/Contacts/Examples.antt =====
-- A tenant with one contact, and a file of four lines.
use fieldwatchai_comms_openk.Prelude.{◌+◌, ◌≡◌, refl, none, some, List, [], ◌∷◌, codes, is_space}
use fieldwatchai_comms_openk.Parser.{trim_space, trim_left, trim_right}
use fieldwatchai_comms_openk.Store.{Text}
use fieldwatchai_comms_openk.Store.Samples.{contact, world}
use fieldwatchai_comms_openk.Store.Contacts.{create_contact, get_contact_by_short_id}
use fieldwatchai_comms_openk.World.{query, fails, answer, new_id}
use fieldwatchai_comms_openk.Contacts.{
  conflict, invalid, short_id_check, new_contact, create_unless_taken, contact_row, stored, view_of,
}
use fieldwatchai_comms_openk.Contacts.Check.{Checked, short_id_check-Checked}
use fieldwatchai_comms_openk.Contacts.Import.{
  Line, malformed, refused, imported, bulk_import, import_after, with_columns, import_rows, column,
  field, input_of, opt_ptr, tally,
}
use fieldwatchai_comms_openk.Contacts.Counts.{Imported, data_lines, bulk_import-Imported}

abbrev same : Text → Text
same s = s

abbrev file : List Line
file =
    some (codes "short_id" ∷ codes "display_name" ∷ [])
    ∷ some (codes "77" ∷ codes "Shelter" ∷ [])
    ∷ none
    ∷ some (codes "77" ∷ codes "Again" ∷ [])
    ∷ some (codes "78" ∷ [])
    ∷ []

-- One row is new, one malformed, one repeated, and one has no name.
import_run :
    (bulk_import same (λ n. n + 100) 9 contact.tenant_id file world).0
    ≡ imported (record {
      created = 1;
      skipped = 3;
      errors =
          record { row = 2; reason = malformed }
          ∷ record { row = 3; reason = refused conflict }
          ∷ record { row = 4; reason = refused invalid }
          ∷ [];
    })
unfolding bulk_import import_after with_columns import_rows column field input_of opt_ptr tally
    trim_space trim_left trim_right is_space new_contact create_unless_taken contact_row
    get_contact_by_short_id create_contact query fails answer new_id stored view_of
import_run = refl

bulk_import-Imported_example :
    Imported
      (data_lines file)
      world
      (bulk_import same (λ n. n + 100) 9 contact.tenant_id file world)
bulk_import-Imported_example =
    bulk_import-Imported same (λ n. n + 100) 9 contact.tenant_id file world (tt, tt)

short_id_check-Checked_example :
    Checked contact.tenant_id
      (codes "43")
      world
      (short_id_check contact.tenant_id (codes "43") world)
short_id_check-Checked_example = short_id_check-Checked contact.tenant_id (codes "43") world
