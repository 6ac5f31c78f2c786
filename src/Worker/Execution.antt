-- ===== src/Worker/Execution.antt =====
-- backend/src/backend/application/services/worker_execution.py: what a worker does with the item
-- that it has claimed. The executor is a parameter, which may change the task, the tables and the
-- systems outside; the id and the time of a new ledger are arguments. Of an event the message, the
-- context and the times are left out.
pub mod Rows
pub mod Events
mod Tests
use automated_short_drama.Prelude.{
  ℕ, suc, String, ◌==◌, Bool, true, false, not, ◌&&◌, Option, none, some, List, [], ◌∷◌, ◌++◌,
  if◌then◌else◌, any,
}
use automated_short_drama.Errors.{Result, ok, err, not_found, value_error}
use automated_short_drama.Tasks
use automated_short_drama.Tasks.Task.{DramaTask, TaskStatus}
use automated_short_drama.Tasks.Repository.{TaskTable}
use automated_short_drama.Tasks.Ledger.{TaskLedger}
use automated_short_drama.Delivery.Flow.{◌>>>◌}
use automated_short_drama.Queue.Item.{QueueItem, QueueState, state_eq}
use automated_short_drama.Queue.Machine.{transition}
use automated_short_drama.Queue.Repository.{Queue, update}
use automated_short_drama.Queue.Completion.{Session, LedgerFields, complete_task}

pub data EventLevel : Type 0 where
  info warning error : EventLevel

pub record ExecutionEvent : Type 0 where
  pub task_id : String
  pub event_type : String
  pub level : EventLevel

pub record ExecutionOutcome : Type 0 where
  pub status : String
  pub external_task_id : Option String
  pub ledger_fields : LedgerFields
  pub events : List ExecutionEvent
  pub failure_code : Option String
  pub retry_safe : Bool

pub record CycleResult : Type 0 where
  pub queue_item_id : String
  pub final_queue_state : QueueState
  pub ledger_id : Option String
  pub event_count : ℕ

pub record WorkerState (World : Type 0) : Type 0 where
  pub session : Session
  pub events : List ExecutionEvent
  pub world : World

-- The outcomes that a worker knows.
pub data OutcomeStatus : Type 0 where
  completed manual_review failed dry_run link_extracted link_ready : OutcomeStatus

abbrev pub status_of : String → Result OutcomeStatus
status_of s =
    if s == "COMPLETED"
    then ok completed
    else if s == "MANUAL_REVIEW"
    then ok manual_review
    else if s == "FAILED"
    then ok failed
    else if s == "DRY_RUN"
    then ok dry_run
    else if s == "LINK_EXTRACTED"
    then ok link_extracted
    else if s == "LINK_READY"
    then ok link_ready
    else err value_error

abbrev pub is_error : ExecutionEvent → Bool
is_error event = is_error_level event.level
  where
    is_error_level : EventLevel → Bool
    is_error_level error = true
    is_error_level _ = false

-- The outcomes that need an event of the level ERROR.
abbrev pub needs_error : OutcomeStatus → Bool
needs_error manual_review = true
needs_error failed = true
needs_error _ = false

abbrev event_of : DramaTask → String → ExecutionEvent
event_of task event_type = record { task_id = task.id; event_type = event_type; level = error }

-- _build_events
unfoldable pub build_events : DramaTask → OutcomeStatus → List ExecutionEvent → List ExecutionEvent
build_events task status events =
    if needs_error status && not (any is_error events)
    then events ++ event_of task "STATUS_CHANGED" ∷ []
    else events

abbrev no_fields : LedgerFields
no_fields = record {
  album_id = none;
  product_id = none;
  external_task_id = none;
  task_name = none;
  rule_version = none;
  config_version = none;
}

-- The outcome of an executor that raised.
abbrev raised : DramaTask → ExecutionOutcome
raised task = record {
  status = "MANUAL_REVIEW";
  external_task_id = none;
  ledger_fields = no_fields;
  events = event_of task "EXECUTION_ERROR" ∷ [];
  failure_code = none;
  retry_safe = false;
}

abbrev or_field : Option String → Option String → Option String
or_field none field = field
or_field (some id) field = some id

abbrev fields_of : ExecutionOutcome → LedgerFields
fields_of outcome = record outcome.ledger_fields {
  external_task_id = or_field outcome.external_task_id outcome.ledger_fields.external_task_id;
}

abbrev pub cycle : String → QueueState → Option String → ℕ → CycleResult
cycle id state ledger_id count = record {
  queue_item_id = id;
  final_queue_state = state;
  ledger_id = ledger_id;
  event_count = count;
}

abbrev length : List ExecutionEvent → ℕ
length [] = 0
length (event ∷ events) = suc (length events)

module _ {World : Type 0} where
  abbrev pub queue_written :
      WorkerState World → Result (QueueItem × Queue) → Result {0} Unit × WorkerState World
  queue_written s (err e) = (err e, s)
  queue_written s (ok (row, q)) = (ok tt, record s { session = record s.session { queue = q } })

  abbrev pub task_written :
      WorkerState World → Result (DramaTask × TaskTable) → Result {0} Unit × WorkerState World
  task_written s (err e) = (err e, s)
  task_written s (ok (row, ts)) = (ok tt, record s { session = record s.session { tasks = ts } })

  abbrev pub save_item : QueueItem → WorkerState World → Result {0} Unit × WorkerState World
  save_item item s = queue_written s (update item s.session.queue)

  abbrev pub save_task : DramaTask → WorkerState World → Result {0} Unit × WorkerState World
  save_task task s = task_written s (Tasks.Repository.update task s.session.tasks)

  abbrev pub completed_with :
      QueueItem
      → ℕ
      → WorkerState World
      → Result TaskLedger × Session
      → Result CycleResult × WorkerState World
  completed_with item count s (err e, session) = (err e, record s { session = session })
  completed_with item count s (ok ledger, session) = (
    ok (cycle item.id QueueState.completed (some ledger.id) count),
    record s { session = session },
  )

  -- The end of a cycle without a ledger.
  abbrev pub conclude :
      QueueItem
      → DramaTask
      → QueueState
      → TaskStatus
      → Option String
      → Bool
      → ℕ
      → WorkerState World
      → Result CycleResult × WorkerState World
  conclude item task target status failure_code retry_safe count s =
      (transition item.state target, s) >>> (λ state t.
        save_item
          (record item { state = state; failure_code = failure_code; retry_safe = retry_safe }) t
        >>> (λ done u.
            save_task (record task { status = status }) u
            >>> (λ saved v. (ok (cycle item.id state none count), v))))

  module _ (worker_id uuid : String) (completed_at : ℕ) where
    abbrev pub settle_as :
        QueueItem
        → DramaTask
        → ExecutionOutcome
        → ℕ
        → WorkerState World
        → OutcomeStatus
        → Result CycleResult × WorkerState World
    settle_as item task outcome count s completed =
        completed_with item count s
          (complete_task uuid completed_at item.id worker_id (fields_of outcome) s.session)
    settle_as item task outcome count s link_extracted =
        conclude item task QueueState.completed TaskStatus.link_extracted none false count s
    settle_as item task outcome count s link_ready =
        conclude item task QueueState.completed TaskStatus.link_ready none false count s
    settle_as item task outcome count s manual_review =
        conclude item task QueueState.manual_review TaskStatus.manual_review outcome.failure_code
          outcome.retry_safe count s
    settle_as item task outcome count s failed =
        conclude item task QueueState.failed TaskStatus.failed outcome.failure_code
          outcome.retry_safe count s
    settle_as item task outcome count s dry_run =
        conclude item task QueueState.dry_run TaskStatus.dry_run outcome.failure_code
          outcome.retry_safe count s

    -- The events are written before the tables.
    abbrev pub settle :
        QueueItem
        → DramaTask
        → ExecutionOutcome
        → WorkerState World
        → OutcomeStatus
        → Result CycleResult × WorkerState World
    settle item task outcome s status =
        let events = build_events task status outcome.events in
        settle_as item task outcome (length events) (record s { events = s.events ++ events })
          status

    -- _invoke_executor, on what the executor did.
    abbrev pub invoked :
        QueueItem
        → WorkerState World
        → Result ExecutionOutcome × (DramaTask × (Session × World))
        → Result CycleResult × WorkerState World
    invoked item s (err e, (task, (session, w))) =
        settle item task (raised task) (record s { session = session; world = w }) manual_review
    invoked item s (ok outcome, (task, (session, w))) =
        (status_of outcome.status, record s { session = session; world = w })
        >>> (λ status t. settle item task outcome t status)

    module _
        (executor : DramaTask
          → QueueItem
          → Session
          → World
          → Result ExecutionOutcome × (DramaTask × (Session × World))) where
      abbrev pub run_task :
          QueueItem → Option DramaTask → WorkerState World → Result CycleResult × WorkerState World
      run_task item none s = (err not_found, s)
      run_task item (some row) s =
          let task = record row { status = TaskStatus.running } in
          save_task task s >>> (λ saved t. invoked item t (executor task item t.session t.world))

      unfoldable pub process_claimed :
          QueueItem → WorkerState World → Result CycleResult × WorkerState World
      process_claimed item s =
          if state_eq item.state QueueState.claimed
          then (transition item.state QueueState.running, s) >>> (λ state t.
              let running = record item { state = state } in
              save_item running t >>> (λ done u.
                run_task running (Tasks.Repository.get item.task_id u.session.tasks) u))
          else (ok (cycle item.id item.state none 0), s)
