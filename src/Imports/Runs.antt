-- ===== src/Imports/Runs.antt =====
-- backend/src/backend/domain/imports/import_run.py and
-- infrastructure/database/repositories/drama_import_repository.py: the runs of an import. A row is
-- kept as the run that was written; `_dump_preview` and `_load_preview`, the text of its preview in
-- JSON, are left out, and so is the time of the last change, which nothing reads.
pub mod Claims
use automated_short_drama.Prelude.{
  ℕ, String, ◌==◌, Bool, true, false, ◌&&◌, Option, none, some, List, [], ◌∷◌, ◌++◌, nat_eq, leb,
  if◌then◌else◌, select, any, find, sort, length,
}
use automated_short_drama.Prelude.Rows.{update_where}
use automated_short_drama.Errors.{Result, ok, err, DomainError, value_error, integrity}
use automated_short_drama.Imports.Sheet.{Date, same_date}
use automated_short_drama.Imports.Preview.{DramaImportPreview}

pub data ImportRunStatus : Type 0 where
  previewed running completed failed : ImportRunStatus

pub record DramaImportRun : Type 0 where
  pub id : String
  pub preview : DramaImportPreview
  pub expected_revision : ℕ
  pub status : ImportRunStatus
  pub inserted_count : ℕ
  pub inserted_rows : List ℕ
  pub verified : Bool
  pub error_message : Option DomainError
  pub created_at : ℕ

abbrev pub RunTable : Type 0
RunTable = List DramaImportRun

abbrev pub is_previewed : ImportRunStatus → Bool
is_previewed previewed = true
is_previewed _ = false

abbrev pub is_completed : ImportRunStatus → Bool
is_completed completed = true
is_completed _ = false

abbrev pub has_id : String → DramaImportRun → Bool
has_id id r = r.id == id

unfoldable pub add : DramaImportRun → RunTable → Result RunTable
add run runs = if any (has_id run.id) runs then err integrity else ok (runs ++ run ∷ [])

unfoldable pub get : String → RunTable → Option DramaImportRun
get id runs = find (has_id id) runs

unfoldable pub list_completed_by_business_date : Date → RunTable → List DramaImportRun
list_completed_by_business_date day runs =
    sort (λ a b. leb b.created_at a.created_at)
      (select (λ r. same_date r.preview.business_date day && is_completed r.status) runs)

abbrev pub claimable : String → DramaImportRun → Bool
claimable id r = has_id id r && is_previewed r.status

-- The run that was claimed, or None, and the table after it.
unfoldable pub claim : String → RunTable → Option DramaImportRun × RunTable
claim id runs =
    let after = update_where (claimable id) (λ r. record r { status = running }) runs in
    (if nat_eq (length (select (claimable id) runs)) 1 then get id after else none, after)

-- `_required_record` and the change of that record.
abbrev pub on_found :
    String
    → (DramaImportRun → DramaImportRun)
    → RunTable
    → Option DramaImportRun
    → Result (DramaImportRun × RunTable)
on_found id change runs none = err value_error
on_found id change runs (some r) = ok (change r, update_where (has_id id) change runs)

abbrev pub on_record :
    String → (DramaImportRun → DramaImportRun) → RunTable → Result (DramaImportRun × RunTable)
on_record id change runs = on_found id change runs (get id runs)

unfoldable pub complete : String → ℕ → List ℕ → Bool → RunTable → Result (DramaImportRun × RunTable)
complete id inserted_count inserted_rows verified runs =
    on_record id
      (λ r. record r {
        status = completed;
        inserted_count = inserted_count;
        inserted_rows = inserted_rows;
        verified = verified;
        error_message = none;
      })
      runs

unfoldable pub fail : String → DomainError → RunTable → Result (DramaImportRun × RunTable)
fail id message runs =
    on_record id (λ r. record r { status = failed; error_message = some message }) runs
