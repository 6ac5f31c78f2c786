-- ===== src/Workflow/State.antt =====
-- backend/src/backend/application/services/link_readiness_service.py: its outcomes, what it reads of
-- a task, and its state. The task is an object that the steps change: it is part of the state, as
-- are the tables and the systems outside. The `details` of outcomes and errors and the messages are
-- left out.
use automated_short_drama.Prelude.{
  ℕ, String, ◌==◌, Bool, true, false, not, ◌&&◌, Option, none, some, List, [], ◌∷◌, select,
  if◌then◌else◌, codes,
}
use automated_short_drama.Prelude.Dicts.{lookup}
use automated_short_drama.Errors.{
  Result, ok, err, DomainError, not_found, validation, drama_mismatch, value_error, integrity,
  multiple_results, conflict, configuration, external,
}
use automated_short_drama.Tasks
use automated_short_drama.Tasks.Task.{DramaTask, TaskStatus}
use automated_short_drama.Tasks.Repository.{TaskTable}
use automated_short_drama.Delivery.Flow.{DramaAsset, ◌>>>◌}
use automated_short_drama.Workflow.Stage
use automated_short_drama.Workflow.Steps.{StepRun, Workflows}

pub record LinkReadinessOutcome : Type 0 where
  pub status : String
  pub failure_code : Option String

-- What prepare_task answers.
pub record PreparationOutcome : Type 0 where
  pub status : String
  pub failure_code : Option String

-- TaskPreparationService.prepare_task, which may change the task and its table, uuid4, and the
-- clock.
pub record Preparation (World : Type 0) : Type 0 where
  pub prepare_task :
      DramaTask
      → Bool
      → ℕ
      → TaskTable
      → World
      → Result PreparationOutcome × (DramaTask × (TaskTable × World))
  pub uuid4 : World → String × World
  pub utcnow : World → ℕ

pub record ReadinessState (World : Type 0) : Type 0 where
  pub task : DramaTask
  pub tasks : TaskTable
  pub workflows : Workflows
  pub world : World

abbrev pub outcome_of : String → Option String → LinkReadinessOutcome
outcome_of status failure_code = record { status = status; failure_code = failure_code }

-- `error.code`, or else the name of the class.
abbrev pub code_of : DomainError → String
code_of not_found = "NOT_FOUND"
code_of validation = "VALIDATION_ERROR"
code_of drama_mismatch = "DRAMA_MISMATCH"
code_of value_error = "ValueError"
code_of integrity = "IntegrityError"
code_of multiple_results = "MultipleResultsFound"
code_of (conflict reason) = "CONFLICT"
code_of configuration = "CONFIGURATION_ERROR"
code_of (external code) = code

-- `outcome.failure_code or outcome.status`
abbrev pub failure_or_status : Option String → String → String
failure_or_status none status = status
failure_or_status (some code) status = if code == "" then status else code

abbrev pub is_empty : List (String × String) → Bool
is_empty [] = true
is_empty (link ∷ links) = false

abbrev pub is_filled : Option String → Bool
is_filled none = false
is_filled (some link) = not (link == "")

abbrev pub link_or : Option String → Result String → Result String
link_or none other = other
link_or (some link) other = if link == "" then other else ok link

-- _primary_link
unfoldable pub primary_link : List (String × String) → Result String
primary_link links =
    link_or (lookup "IAA" links)
      (link_or (lookup "2.9" links) (link_or (lookup "9.9" links) (err value_error)))

-- The links of a task that are not empty and have no promotion content yet.
unfoldable pub missing_of : DramaTask → List (String × String)
missing_of task =
    select (λ l. not (l.1 == "") && not (is_filled (lookup l.0 task.promotion_configs)))
      task.link_set

-- A task whose links are extracted.
abbrev pub has_links : DramaTask → Bool
has_links task = task.link_status == "VALIDATED" && not (is_empty task.link_set)

abbrev pub asset_of : DramaTask → String → DramaAsset
asset_of task link = record {
  delivery_drama_id = task.delivery_drama_id;
  drama_name = codes task.drama_name;
  link = codes link;
  album_id = "";
}

module _ {World : Type 0} where
  abbrev pub at_stage : String → ReadinessState World → ReadinessState World
  at_stage stage s = record s { task = record s.task { current_stage = stage } }

  abbrev pub in_review : String → ReadinessState World → ReadinessState World
  in_review stage s = record s {
    task = record s.task { current_stage = stage; status = TaskStatus.manual_review };
  }

  abbrev pub written :
      ReadinessState World → Result (DramaTask × TaskTable) → Result {0} Unit × ReadinessState World
  written s (err e) = (err e, s)
  written s (ok (row, ts)) = (ok tt, record s { tasks = ts })

  -- self._task_repo.update(task)
  unfoldable pub save : ReadinessState World → Result {0} Unit × ReadinessState World
  save s = written s (Tasks.Repository.update s.task s.tasks)

  abbrev pub recorded :
      ReadinessState World → Result (StepRun × Workflows) → Result StepRun × ReadinessState World
  recorded s (err e) = (err e, s)
  recorded s (ok (step, db)) = (ok step, record s { workflows = db })

  abbrev pub called {ℓ} :
      {Answer : Type ℓ}
      → ReadinessState World
      → Result Answer × World
      → Result Answer × ReadinessState World
  called s (answer, w) = (answer, record s { world = w })

  abbrev pub prepared :
      ReadinessState World
      → Result PreparationOutcome × (DramaTask × (TaskTable × World))
      → Result PreparationOutcome × ReadinessState World
  prepared s (answer, (task, (ts, w))) = (answer, record s { task = task; tasks = ts; world = w })

  abbrev pub conclude_ready :
      ReadinessState World → Result LinkReadinessOutcome × ReadinessState World
  conclude_ready s =
      save (record s {
        task = record s.task { current_stage = Stage.link_ready; status = TaskStatus.link_ready };
      })
      >>> (λ done t. (ok (outcome_of Stage.link_ready none), t))
