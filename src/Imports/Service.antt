-- ===== src/Imports/Service.antt =====
-- backend/src/backend/application/services/drama_import_service.py on the persisted runs, and
-- get_session of infrastructure/database/session.py, in which a request to it runs. The sheet is a
-- parameter: its state and what its methods answer.
pub mod Once
use automated_short_drama.Prelude.{
  ℕ, String, Bool, Option, none, some, List, [], ◌∷◌, ◌++◌, if◌then◌else◌,
}
use automated_short_drama.Errors.{
  Result, ok, err, ◌>>=◌, DomainError, not_found, conflict, other_worker,
}
use automated_short_drama.Imports.SourceKey.{TextLibrary}
use automated_short_drama.Imports.Sheet.{PublicDramaRow, PrivateDramaRow, Date}
use automated_short_drama.Imports.Preview.{DramaImportPreview, build_import_preview}
use automated_short_drama.Imports.Runs.{
  DramaImportRun, RunTable, ImportRunStatus, previewed, is_completed, add, get, claim, complete,
  fail, list_completed_by_business_date,
}

-- What the sheet answers to an insertion.
pub record Inserted : Type 0 where
  pub inserted_count : ℕ
  pub inserted_rows : List ℕ
  pub verified : Bool

pub record ImportRunResult : Type 0 where
  pub run_id : String
  pub inserted_count : ℕ
  pub inserted_rows : List ℕ
  pub verified : Bool

-- DramaSheetPort: a method takes the sheet's state and gives an answer or raises.
pub record DramaSheet (Sheet : Type 0) : Type 0 where
  pub read_public_rows : Date → Sheet → Result (List PublicDramaRow)
  pub read_private_rows : Sheet → Result (List (List (List ℕ)))
  pub private_revision : Sheet → Result ℕ
  pub insert_private_rows : List PrivateDramaRow → ℕ → Sheet → Result Inserted × Sheet

unfoldable pub to_run_result : DramaImportRun → ImportRunResult
to_run_result run = record {
  run_id = run.id;
  inserted_count = run.inserted_count;
  inserted_rows = run.inserted_rows;
  verified = run.verified;
}

-- What is returned or raised, the table of runs in the session, and the sheet.
abbrev pub Outcome : Type 0 → Type 0 → Type 0
Outcome Sheet Answer = Result Answer × RunTable × Sheet

module _ {Sheet : Type 0} (port : DramaSheet Sheet) where
  -- `preview` with the new id and the time of its creation.
  unfoldable pub preview :
      TextLibrary
      → Date
      → List ℕ
      → Bool
      → String
      → ℕ
      → RunTable
      → Sheet
      → Result (DramaImportPreview × RunTable)
  preview lib business_date operator_name match_group preview_id now runs sheet =
      port.read_public_rows business_date sheet >>= (λ public_rows.
        port.read_private_rows sheet >>= (λ private_rows.
          build_import_preview lib public_rows private_rows business_date operator_name match_group
          >>= (λ built. port.private_revision sheet >>= (λ revision.
              add
                (record {
                  id = preview_id;
                  preview = built;
                  expected_revision = revision;
                  status = previewed;
                  inserted_count = 0;
                  inserted_rows = [];
                  verified = Bool.false;
                  error_message = none;
                  created_at = now;
                })
                runs
              >>= (λ after. ok (built, after))))))

  -- `raise` after the failure is recorded.
  abbrev pub after_fail :
      DomainError
      → RunTable
      → Sheet
      → Result (DramaImportRun × RunTable)
      → Outcome Sheet ImportRunResult
  after_fail e runs sheet (err raised) = (err raised, runs, sheet)
  after_fail e runs sheet (ok after) = (err e, after.1, sheet)

  abbrev pub after_complete :
      RunTable → Sheet → Result (DramaImportRun × RunTable) → Outcome Sheet ImportRunResult
  after_complete runs sheet (err raised) = (err raised, runs, sheet)
  after_complete runs sheet (ok after) = (ok (to_run_result after.0), after.1, sheet)

  -- What `_confirm_persisted` does with the answer of the sheet.
  abbrev pub with_insertion :
      String → RunTable → Result Inserted × Sheet → Outcome Sheet ImportRunResult
  with_insertion id runs (err e, sheet) = after_fail e runs sheet (fail id e runs)
  with_insertion id runs (ok inserted, sheet) =
      after_complete runs sheet
        (complete id inserted.inserted_count inserted.inserted_rows inserted.verified runs)

  -- The run is read again where another one has claimed it.
  abbrev pub not_claimed : Option DramaImportRun → Result ImportRunResult
  not_claimed none = err (conflict other_worker)
  not_claimed (some latest) =
      if is_completed latest.status then ok (to_run_result latest) else err (conflict other_worker)

  abbrev pub with_claim :
      String → Option DramaImportRun × RunTable → Sheet → Outcome Sheet ImportRunResult
  with_claim id (none, runs) sheet = (not_claimed (get id runs), runs, sheet)
  with_claim id (some claimed, runs) sheet =
      with_insertion id runs
        (port.insert_private_rows claimed.preview.rows claimed.expected_revision sheet)

  abbrev pub with_existing :
      String → Option DramaImportRun → RunTable → Sheet → Outcome Sheet ImportRunResult
  with_existing id none runs sheet = (err not_found, runs, sheet)
  with_existing id (some existing) runs sheet =
      if is_completed existing.status
      then (ok (to_run_result existing), runs, sheet)
      else with_claim id (claim id runs) sheet

  unfoldable pub confirm_persisted : String → RunTable → Sheet → Outcome Sheet ImportRunResult
  confirm_persisted id runs sheet = with_existing id (get id runs) runs sheet

unfoldable get_run : String → RunTable → Result DramaImportRun
get_run id runs = elim (get id runs) [ none ↦ err not_found | some run ↦ ok run ]

-- get_session: the tables are kept only where nothing is raised; the sheet is no part of them.
module _ {Sheet Answer : Type 0} where
  abbrev pub commit_or_rollback : RunTable → Outcome Sheet Answer → Outcome Sheet Answer
  commit_or_rollback before (err e, runs, sheet) = (err e, before, sheet)
  commit_or_rollback before (ok answer, runs, sheet) = (ok answer, runs, sheet)

  unfoldable pub get_session :
      (RunTable → Sheet → Outcome Sheet Answer) → RunTable → Sheet → Outcome Sheet Answer
  get_session request runs sheet = commit_or_rollback runs (request runs sheet)
