-- ===== src/Queue/Completion.antt =====
-- backend/src/backend/application/services/completion_service.py. What was written before a raise
-- stays written in the session, so the tables come back beside an error too.
pub mod Once
mod Tests
use automated_short_drama.Prelude.{ℕ, String, Option, none, some, List, [], ◌∷◌, if◌then◌else◌}
use automated_short_drama.Errors.{
  Result, ok, err, not_found, conflict, other_worker, bad_state, ◌>>=◌,
}
use automated_short_drama.Tasks.Task.{TaskStatus, DramaTask}
use automated_short_drama.Tasks.Repository.{TaskTable}
use automated_short_drama.Tasks.Ledger.{TaskLedger, Ledgers}
use automated_short_drama.Tasks
use automated_short_drama.Queue.Item.{QueueItem, completed, is_text}
use automated_short_drama.Queue.Machine.{transition}
use automated_short_drama.Queue.Repository.{Queue, get, update, is_active}

pub record Session : Type 0 where
  pub queue : Queue
  pub tasks : TaskTable
  pub ledgers : Ledgers

-- ledger_fields: a key may be absent.
pub record LedgerFields : Type 0 where
  pub album_id : Option String
  pub product_id : Option String
  pub external_task_id : Option String
  pub task_name : Option String
  pub rule_version : Option String
  pub config_version : Option String

abbrev default_to : Option String → String → String
default_to none d = d
default_to (some v) d = v

abbrev refreshed : ℕ → LedgerFields → TaskLedger → TaskLedger
refreshed now fields ledger = record ledger {
  final_status = "COMPLETED";
  completed_at = some now;
  album_id = default_to fields.album_id ledger.album_id;
  product_id = default_to fields.product_id ledger.product_id;
  external_task_id = default_to fields.external_task_id ledger.external_task_id;
  task_name = default_to fields.task_name ledger.task_name;
  rule_version = default_to fields.rule_version ledger.rule_version;
  config_version = default_to fields.config_version ledger.config_version;
}

abbrev pub new_ledger : String → ℕ → LedgerFields → DramaTask → TaskLedger
new_ledger uuid now fields task = record {
  id = uuid;
  task_id = task.id;
  drama_name = task.drama_name;
  platform = task.platform;
  final_status = "COMPLETED";
  completed_at = some now;
  album_id = default_to fields.album_id "";
  product_id = default_to fields.product_id "";
  external_task_id = default_to fields.external_task_id "";
  task_name = default_to fields.task_name "";
  rule_version = default_to fields.rule_version "";
  config_version = default_to fields.config_version "";
}

-- Step 6: the first ledger of the task is used again, else one is added.
unfoldable pub write_ledger :
    String
    → ℕ
    → LedgerFields
    → DramaTask
    → List TaskLedger
    → Ledgers
    → Result (TaskLedger × Ledgers)
write_ledger uuid now fields task [] ls = Tasks.Ledger.add (new_ledger uuid now fields task) ls
write_ledger uuid now fields task (l ∷ _) ls = Tasks.Ledger.update (refreshed now fields l) ls

abbrev pub with_ledger : Result (TaskLedger × Ledgers) → Session → Result TaskLedger × Session
with_ledger (ok (ledger, ls)) s = (ok ledger, record s { ledgers = ls })
with_ledger (err e) s = (err e, s)

-- Steps 5 and 6, by the result of writing the task.
abbrev pub after_task :
    String
    → ℕ
    → LedgerFields
    → DramaTask
    → Result (DramaTask × TaskTable)
    → Session
    → Result TaskLedger × Session
after_task uuid now fields task (err e) s = (err e, s)
after_task uuid now fields task (ok (_, ts)) s =
    with_ledger
      (write_ledger uuid now fields task (Tasks.Ledger.list_by_task task.id s.ledgers) s.ledgers)
      (record s { tasks = ts })

abbrev pub finish_task :
    String → ℕ → LedgerFields → Option DramaTask → Session → Result TaskLedger × Session
finish_task uuid now fields none s = (err not_found, s)
finish_task uuid now fields (some task) s =
    after_task uuid now fields task
      (Tasks.Repository.update (record task { status = TaskStatus.completed }) s.tasks) s

-- Steps 2 to 4 on the item that was read.
abbrev pub release_item : String → QueueItem → Queue → Result (QueueItem × Queue)
release_item worker_id item q =
    if is_text item.claimed_by worker_id
    then (if is_active item.state
        then (do s ← transition item.state completed; update (record item { state = s }) q)
        else err (conflict bad_state))
    else err (conflict other_worker)

abbrev pub after_item :
    String
    → ℕ
    → LedgerFields
    → String
    → Result (QueueItem × Queue)
    → Session
    → Result TaskLedger × Session
after_item uuid now fields task_id (err e) s = (err e, s)
after_item uuid now fields task_id (ok (_, q)) s =
    finish_task uuid now fields (Tasks.Repository.get task_id s.tasks) (record s { queue = q })

abbrev pub complete_item :
    String → ℕ → String → LedgerFields → Option QueueItem → Session → Result TaskLedger × Session
complete_item uuid now worker_id fields none s = (err not_found, s)
complete_item uuid now worker_id fields (some item) s =
    after_item uuid now fields item.task_id (release_item worker_id item s.queue) s

-- `uuid` and `now` are what uuid4 and the clock give.
unfoldable pub complete_task :
    String → ℕ → String → String → LedgerFields → Session → Result TaskLedger × Session
complete_task uuid now queue_item_id worker_id fields s =
    complete_item uuid now worker_id fields (get queue_item_id s.queue) s
