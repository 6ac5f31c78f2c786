-- ===== src/Workflow/Steps.antt =====
-- backend/src/backend/infrastructure/database/repositories/workflow_repository.py, with
-- domain/workflow/workflow_run.py and step_run.py: the runs and the steps of a task. A row is kept
-- as what was written: the column in JSON reads back what was put in. The ids and times that the
-- code makes are arguments. Of an error its code is kept, and the message is left out.
use automated_short_drama.Prelude.{
  ℕ, String, ◌==◌, Bool, Option, none, some, List, [], ◌∷◌, ◌++◌, if◌then◌else◌, any, find,
}
use automated_short_drama.Prelude.Rows.{update_where}
use automated_short_drama.Errors.{Result, ok, err, ◌>>=◌, value_error, integrity}

pub data StepStatus : Type 0 where
  pending running completed skipped failed : StepStatus

-- The dicts that the stages write as the result of a step.
pub data StepResult : Type 0 where
  found_links : List (String × String) → StepResult
  found_drama : (delivery_drama_id album_id : String) → StepResult
  found_configs : List (String × String) → StepResult

pub record StepRun : Type 0 where
  pub workflow_run_id : String
  pub step_name : String
  pub status : StepStatus
  pub started_at : Option ℕ
  pub finished_at : Option ℕ
  pub result_json : Option StepResult
  pub error_code : Option String
  pub id : String

pub record WorkflowRun : Type 0 where
  pub task_id : String
  pub status : StepStatus
  pub started_at : Option ℕ
  pub finished_at : Option ℕ
  pub id : String

pub record Workflows : Type 0 where
  pub runs : List WorkflowRun
  pub steps : List StepRun

abbrev pub is_run : String → WorkflowRun → Bool
is_run id run = run.id == id

abbrev pub is_step : String → StepRun → Bool
is_step id step = step.id == id

unfoldable pub add_workflow : WorkflowRun → Workflows → Result (WorkflowRun × Workflows)
add_workflow run db =
    if any (is_run run.id) db.runs
    then err integrity
    else ok (run, record db { runs = db.runs ++ run ∷ [] })

unfoldable get_workflow : String → Workflows → Option WorkflowRun
get_workflow id db = find (is_run id) db.runs

unfoldable update_workflow : WorkflowRun → Workflows → Result (WorkflowRun × Workflows)
update_workflow run db =
    if any (is_run run.id) db.runs
    then ok (run, record db { runs = update_where (is_run run.id) (λ _. run) db.runs })
    else err value_error

unfoldable pub add_step : StepRun → Workflows → Result (StepRun × Workflows)
add_step step db =
    if any (is_step step.id) db.steps
    then err integrity
    else ok (step, record db { steps = db.steps ++ step ∷ [] })

unfoldable get_step : String → Workflows → Option StepRun
get_step id db = find (is_step id) db.steps

unfoldable pub update_step : StepRun → Workflows → Result (StepRun × Workflows)
update_step step db =
    if any (is_step step.id) db.steps
    then ok (step, record db { steps = update_where (is_step step.id) (λ _. step) db.steps })
    else err value_error

abbrev new_run : String → String → ℕ → WorkflowRun
new_run id task_id now = record {
  task_id = task_id;
  status = running;
  started_at = some now;
  finished_at = none;
  id = id;
}

abbrev new_step : String → String → String → ℕ → StepRun
new_step id run_id step_name now = record {
  workflow_run_id = run_id;
  step_name = step_name;
  status = running;
  started_at = some now;
  finished_at = none;
  result_json = none;
  error_code = none;
  id = id;
}

-- start_step, with the ids of the run and of the step.
unfoldable pub start_step :
    String → String → ℕ → String → String → Workflows → Result (StepRun × Workflows)
start_step run_id step_id now task_id step_name db =
    add_workflow (new_run run_id task_id now) db
    >>= (λ added. add_step (new_step step_id added.0.id step_name now) added.1)

unfoldable pub finish_step : ℕ → StepRun → StepResult → Workflows → Result (StepRun × Workflows)
finish_step now step result db =
    update_step
      (record step { status = completed; finished_at = some now; result_json = some result }) db

unfoldable pub fail_step : ℕ → StepRun → String → Workflows → Result (StepRun × Workflows)
fail_step now step error_code db =
    update_step
      (record step { status = failed; finished_at = some now; error_code = some error_code }) db
