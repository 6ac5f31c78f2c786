-- ===== src/Tasks/Task.antt =====
-- backend/src/backend/domain/tasks/drama_task.py and domain/rules/confirmed_drama_match.py.
-- The times of creation and change, which the database sets, are left out.
use automated_short_drama.Prelude.{ℕ, String, Bool, Option, List, nat_eq}

pub data TaskStatus : Type 0 where
  waiting_time ready running completed manual_review failed dry_run link_extracted link_ready
        cancelled :
      TaskStatus

abbrev ordinal : TaskStatus → ℕ
ordinal waiting_time = 0
ordinal ready = 1
ordinal running = 2
ordinal completed = 3
ordinal manual_review = 4
ordinal failed = 5
ordinal dry_run = 6
ordinal link_extracted = 7
ordinal link_ready = 8
ordinal cancelled = 9

abbrev pub status_eq : TaskStatus → TaskStatus → Bool
status_eq s t = nat_eq (ordinal s) (ordinal t)

-- dict[str, str] with its keys in the order of insertion.
abbrev Links : Type 0
Links = List (String × String)

pub record ConfirmedDramaMatch : Type 0 where
  pub locator_key : String
  pub available_minute : ℕ
  pub confirmed_at : ℕ

pub record DramaTask : Type 0 where
  pub drama_name : String
  pub platform : String
  pub available_time : ℕ
  pub end_type : String
  pub id : String
  pub source_key : String
  pub sheet_row : Option ℕ
  pub owner : Option String
  pub status : TaskStatus
  pub source_links : Links
  pub link_set : Links
  pub link_status : String
  pub current_stage : String
  pub target_stage : String
  pub delivery_drama_id : String
  pub promotion_configs : Links
  pub confirmed_drama_match : Option ConfirmedDramaMatch
