-- ===== src/Queue/Completion/Tests.antt =====
-- A completion on concrete tables.
use automated_short_drama.Prelude.{◌≡◌, refl, none, some, [], ◌∷◌}
use automated_short_drama.Prelude.Rows.{update_where}
use automated_short_drama.Errors.{err, conflict, bad_state}
use automated_short_drama.Tasks.Task.{DramaTask, TaskStatus}
use automated_short_drama.Tasks.Ledger.{TaskLedger}
use automated_short_drama.Tasks
use automated_short_drama.Queue.Item.{completed}
use automated_short_drama.Queue.Machine.{transition}
use automated_short_drama.Queue.Repository.{get, update}
use automated_short_drama.Queue.Completion.{
  Session, LedgerFields, new_ledger, write_ledger, complete_task,
}
use automated_short_drama.Queue.Completion.Once.{complete_task-again}
use automated_short_drama.Queue.Tests.{held}
use automated_short_drama.Queue.Scheduler.Tests.{sheet_task}

abbrev drama : DramaTask
drama = record sheet_task { id = "task" }

abbrev fields : LedgerFields
fields = record {
  album_id = some "album";
  product_id = none;
  external_task_id = none;
  task_name = none;
  rule_version = none;
  config_version = none;
}

abbrev session : Session
session = record { queue = held "q1" 0 ∷ []; tasks = drama ∷ []; ledgers = [] }

abbrev ledger : TaskLedger
ledger = new_ledger "l1" 50 fields drama

abbrev after_session : Session
after_session = record {
  queue = record (held "q1" 0) { state = completed } ∷ [];
  tasks = record drama { status = TaskStatus.completed } ∷ [];
  ledgers = ledger ∷ [];
}

complete_task-again_example :
    complete_task "l2" 60 "q1" "w1" fields after_session ≡ (err (conflict bad_state), after_session)
unfolding complete_task get transition update Tasks.Repository.get Tasks.Repository.update
    write_ledger Tasks.Ledger.list_by_task Tasks.Ledger.add update_where
complete_task-again_example =
    complete_task-again "l1" "l2" 50 60 "q1" "w1" fields fields session after_session ledger
      (refl, tt) refl
