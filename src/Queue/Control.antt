-- ===== src/Queue/Control.antt =====
-- backend/src/backend/application/services/task_control_service.py: pause, resume, cancel, retry and
-- hand-over to a person. A service that raises has written nothing.
use automated_short_drama.Prelude.{
  String, Bool, true, false, not, ◌&&◌, Option, none, some, if◌then◌else◌,
}
use automated_short_drama.Errors.{
  Result, ok, err, not_found, conflict, other_worker, bad_state, final_state, uncertain_result,
  Reason, ◌>>=◌,
}
use automated_short_drama.Tasks.Task.{TaskStatus}
use automated_short_drama.Tasks.Repository.{TaskTable}
use automated_short_drama.Tasks.Task
use automated_short_drama.Tasks
use automated_short_drama.Queue.Item.{
  QueueItem, QueueState, queued, paused, cancelled, manual_review, failed, retry_wait, is_text,
}
use automated_short_drama.Queue.Machine.{transition, is_final}
use automated_short_drama.Queue.Repository.{Queue, get, update, is_active}

-- Each service is its reading of the item and what it does with the item read.

-- The two tables that the services write.
pub record Tables : Type 0 where
  pub queue : Queue
  pub tasks : TaskTable

abbrev pub guard : Bool → Reason → Result (Unit {0})
guard true e = ok tt
guard false e = err (conflict e)

abbrev pub found : Option QueueItem → Result QueueItem
found none = err not_found
found (some item) = ok item

abbrev pub get_item : String → Tables → Result QueueItem
get_item id db = found (get id db.queue)

abbrev require_worker : QueueItem → String → Result (Unit {0})
require_worker item worker_id = guard (is_text item.claimed_by worker_id) other_worker

-- The check of the worker is made only of an item that a worker holds.
abbrev require_holder : QueueItem → String → Result (Unit {0})
require_holder item worker_id =
    if is_active item.state then require_worker item worker_id else ok tt

abbrev pub clear_claim : QueueItem → QueueItem
clear_claim item = record item { claimed_by = none; lease_until = none }

abbrev set_status : TaskStatus → Option Task.DramaTask → TaskTable → Result TaskTable
set_status status none ts = ok ts
set_status status (some task) ts =
    Tasks.Repository.update (record task { status = status }) ts >>= λ (_, ts'). ok ts'

unfoldable pub sync_task_status : String → TaskStatus → TaskTable → Result TaskTable
sync_task_status task_id status ts = set_status status (Tasks.Repository.get task_id ts) ts

abbrev is_paused : QueueState → Bool
is_paused paused = true
is_paused _ = false

abbrev is_retryable : QueueState → Bool
is_retryable manual_review = true
is_retryable failed = true
is_retryable retry_wait = true
is_retryable _ = false

-- The end that the services share: the task follows, and the item is written.
unfoldable pub save : TaskStatus → QueueItem → Tables → Result (QueueItem × Tables)
save status item db = do
  ts ← sync_task_status item.task_id status db.tasks
  written ← update item db.queue
  ok (written.0, record { queue = written.1; tasks = ts })

unfoldable pub pause : String → Tables → QueueItem → Result (QueueItem × Tables)
pause worker_id db item = do
  _ ← guard (not (is_final item.state)) final_state
  _ ← require_holder item worker_id
  s ← transition item.state paused
  save Task.running (clear_claim (record item { state = s })) db

unfoldable pub pause_task : String → String → Tables → Result (QueueItem × Tables)
pause_task id worker_id db = do item ← get_item id db; pause worker_id db item

unfoldable pub resume : Tables → QueueItem → Result (QueueItem × Tables)
resume db item = do
  _ ← guard (is_paused item.state) bad_state
  s ← transition item.state queued
  save Task.ready (record item { state = s }) db

unfoldable pub resume_task : String → Tables → Result (QueueItem × Tables)
resume_task id db = do item ← get_item id db; resume db item

unfoldable pub cancel : String → Tables → QueueItem → Result (QueueItem × Tables)
cancel worker_id db item = do
  _ ← guard (not (is_final item.state)) final_state
  _ ← require_holder item worker_id
  s ← transition item.state cancelled
  save Task.cancelled (clear_claim (record item { state = s })) db

unfoldable pub cancel_task : String → String → Tables → Result (QueueItem × Tables)
cancel_task id worker_id db = do item ← get_item id db; cancel worker_id db item

unfoldable pub retry : Tables → QueueItem → Result (QueueItem × Tables)
retry db item = do
  _ ← guard (is_retryable item.state) bad_state
  _ ←
      guard (not (is_text item.failure_code "RESULT_UNCERTAIN" && not item.retry_safe))
        uncertain_result
  s ← transition item.state queued
  save Task.ready
      (record (clear_claim (record item { state = s; attempt_count = 0 })) {
        failure_code = none;
        retry_safe = false;
      })
      db

unfoldable pub retry_task : String → Tables → Result (QueueItem × Tables)
retry_task id db = do item ← get_item id db; retry db item

unfoldable pub review : String → Tables → QueueItem → Result (QueueItem × Tables)
review worker_id db item = do
  _ ← guard (is_active item.state) bad_state
  _ ← require_worker item worker_id
  s ← transition item.state manual_review
  save Task.manual_review (clear_claim (record item { state = s })) db

unfoldable pub mark_manual_review : String → String → Tables → Result (QueueItem × Tables)
mark_manual_review id worker_id db = do item ← get_item id db; review worker_id db item
