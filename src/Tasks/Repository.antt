-- ===== src/Tasks/Repository.antt =====
-- backend/src/backend/infrastructure/database/repositories/task_repository.py: the table of tasks.
-- A row is kept as the task that was written: the columns in JSON read back what was put in, and
-- the empty source key stands for NULL. `list_by_filters` is not modelled.
use automated_short_drama.Prelude.{
  ℕ, String, ◌==◌, Bool, true, false, not, ◌&&◌, Option, none, some, List, [], ◌∷◌, ◌++◌, map,
  nat_eq, if◌then◌else◌, select, any, find,
}
use automated_short_drama.Prelude.Rows.{update_where}
use automated_short_drama.Errors.{Result, ok, err, value_error, integrity, multiple_results}
use automated_short_drama.Tasks.Task.{
  DramaTask, TaskStatus, completed, cancelled, dry_run, status_eq,
}

abbrev pub TaskTable : Type 0
TaskTable = List DramaTask

-- `column or default`
abbrev pub or_else : String → String → String
or_else s default = if s == "" then default else s

abbrev pub to_domain : DramaTask → DramaTask
to_domain r = record r {
  end_type = or_else r.end_type "NATIVE";
  current_stage = or_else r.current_stage "WAITING_AVAILABLE_TIME";
  target_stage = or_else r.target_stage "LINK_READY";
}

abbrev pub has_task_id : String → DramaTask → Bool
has_task_id id r = r.id == id

unfoldable pub add : DramaTask → TaskTable → Result (DramaTask × TaskTable)
add task ts =
    if any (has_task_id task.id) ts then err integrity else ok (to_domain task, ts ++ task ∷ [])

unfoldable pub get : String → TaskTable → Option DramaTask
get id ts = elim (find (has_task_id id) ts) [ none ↦ none | some r ↦ some (to_domain r) ]

unfoldable pub update : DramaTask → TaskTable → Result (DramaTask × TaskTable)
update task ts =
    if any (has_task_id task.id) ts
    then ok (to_domain task, update_where (has_task_id task.id) (λ _. task) ts)
    else err value_error

unfoldable pub list_by_state : TaskStatus → TaskTable → List DramaTask
list_by_state s ts = map to_domain (select (λ r. status_eq r.status s) ts)

-- scalar_one_or_none
abbrev one_or_none : List DramaTask → Result (Option DramaTask)
one_or_none [] = ok none
one_or_none (r ∷ []) = ok (some (to_domain r))
one_or_none (r ∷ s ∷ rs) = err multiple_results

unfoldable pub get_by_source_key : String → TaskTable → Result (Option DramaTask)
get_by_source_key key ts =
    if key == "" then ok none else one_or_none (select (λ r. r.source_key == key) ts)

abbrev is_closed : TaskStatus → Bool
is_closed completed = true
is_closed cancelled = true
is_closed dry_run = true
is_closed _ = false

unfoldable pub get_by_drama_and_time : String → ℕ → String → TaskTable → Result (Option DramaTask)
get_by_drama_and_time drama_name available_time platform ts = one_or_none (
    select
      (λ r.
        r.drama_name == drama_name
        && (nat_eq r.available_time available_time
            && (r.platform == platform && not (is_closed r.status))))
      ts)
