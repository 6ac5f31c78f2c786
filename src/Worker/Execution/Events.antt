-- ===== src/Worker/Execution/Events.antt =====
-- The events that a cycle of a worker leaves.
use automated_short_drama.Prelude.{
  ℕ, String, ◌≡◌, refl, Bool, true, false, ◌||◌, Option, none, some, List, [], ◌∷◌, ◌++◌, any,
  any-append, Bool-cases, inl, inr, if◌then◌else◌, arith,
}
use automated_short_drama.Errors.{Result, ok, err}
use automated_short_drama.Tasks
use automated_short_drama.Tasks.Task.{DramaTask, TaskStatus}
use automated_short_drama.Tasks.Repository.{TaskTable}
use automated_short_drama.Tasks.Ledger.{TaskLedger}
use automated_short_drama.Delivery.Flow.{◌>>>◌}
use automated_short_drama.Queue.Item.{QueueItem, QueueState, state_eq}
use automated_short_drama.Queue.Machine.{transition, can_transition}
use automated_short_drama.Queue.Repository.{Queue, update}
use automated_short_drama.Queue.Completion.{Session}
use automated_short_drama.Workflow.Ends.{Holds, Holds->>>, Holds-then, Holds-eq-ok}
use automated_short_drama.Worker.Execution.{
  OutcomeStatus, ExecutionEvent, ExecutionOutcome, CycleResult, WorkerState, status_of, is_error,
  needs_error, build_events, queue_written, task_written, save_item, save_task, completed_with,
  conclude, settle, invoked, run_task, process_claimed, cycle, raised, event_of,
}

abbrev is_failure : QueueState → Bool
is_failure state = state_eq state QueueState.manual_review || state_eq state QueueState.failed

build_events-is_error :
    (task : DramaTask) (status : OutcomeStatus) (events : List ExecutionEvent)
    → needs_error status ≡ true
    → any is_error (build_events task status events) ≡ true
unfolding build_events
build_events-is_error task status events h =
    ground (arith, h, any-append is_error events (event_of task "STATUS_CHANGED" ∷ []))

transition-Holds :
    {World : Type 0} (current target : QueueState) (s : WorkerState World)
    → Holds
        (λ (state : QueueState) (t : WorkerState World). (state ≡ target) × (t ≡ s))
        (transition current target, s)
unfolding transition
transition-Holds current target s = elim (Bool-cases (can_transition current target)) [
  | inl e ↦ rw e (refl, refl)
  | inr e ↦ rw e tt
]

logged-is_error :
    (task : DramaTask) (status : OutcomeStatus) (before events : List ExecutionEvent)
    → needs_error status ≡ true
    → any is_error (before ++ build_events task status events) ≡ true
logged-is_error task status before events h = ground (
  arith,
  any-append is_error before (build_events task status events),
  build_events-is_error task status events h,
)

module _ {World : Type 0} where
  abbrev logged :
      DramaTask → ExecutionOutcome → OutcomeStatus → WorkerState World → WorkerState World
  logged task outcome status s = record s {
    events = s.events ++ build_events task status outcome.events;
  }

  -- What an answer says of the events: one of the level ERROR, if the item failed.
  abbrev Told : CycleResult → WorkerState World → Type 0
  Told result s = is_failure result.final_queue_state ≡ true → any is_error s.events ≡ true

  queue_written-events :
      (s : WorkerState World) (w : Result (QueueItem × Queue))
      → Holds (λ (done : Unit {0}) t. t.events ≡ s.events) (queue_written s w)
  queue_written-events s (err e) = tt
  queue_written-events s (ok w) = refl

  task_written-events :
      (s : WorkerState World) (w : Result (DramaTask × TaskTable))
      → Holds (λ (done : Unit {0}) t. t.events ≡ s.events) (task_written s w)
  task_written-events s (err e) = tt
  task_written-events s (ok w) = refl

  conclude-Told :
      (item : QueueItem) (task : DramaTask) (target : QueueState) (status : TaskStatus)
      (code : Option String) (safe : Bool) (count : ℕ) (s : WorkerState World)
      → (is_failure target ≡ true → any is_error s.events ≡ true)
      → Holds Told (conclude item task target status code safe count s)
  conclude-Told item task target status code safe count s h =
      Holds-then (λ (state : QueueState) t. (state ≡ target) × (t ≡ s)) Told
        (transition item.state target, s) _ (transition-Holds item.state target s)
        (λ state t p.
          let next = record item { state = state; failure_code = code; retry_safe = safe } in
          Holds-then (λ (done : Unit {0}) u. u.events ≡ t.events) Told (save_item next t) _
            (queue_written-events t (update next t.session.queue))
            (λ done u q.
              Holds-then (λ (saved : Unit {0}) v. v.events ≡ u.events) Told
                (save_task (record task { status = status }) u) _ (task_written-events u _)
                (λ saved v r f. rw (r, q, p.1) (h (rw (← p.0) f)))))

  completed_with-Told :
      (item : QueueItem) (count : ℕ) (s : WorkerState World) (r : Result TaskLedger × Session)
      → Holds Told (completed_with item count s r)
  completed_with-Told item count s (err e, t) = tt
  completed_with-Told item count s (ok ledger, t) = λ h. cc

  module _ (worker_id uuid : String) (completed_at : ℕ) where
    settle-Told :
        (item : QueueItem) (task : DramaTask) (outcome : ExecutionOutcome) (s : WorkerState World)
        (status : OutcomeStatus)
        → Holds Told (settle worker_id uuid completed_at item task outcome s status)
    settle-Told item task outcome s OutcomeStatus.completed =
        completed_with-Told item _ (logged task outcome OutcomeStatus.completed s) _
    settle-Told item task outcome s OutcomeStatus.link_extracted =
        conclude-Told item task QueueState.completed _ _ _ _
          (logged task outcome OutcomeStatus.link_extracted s) (λ h. cc)
    settle-Told item task outcome s OutcomeStatus.link_ready =
        conclude-Told item task QueueState.completed _ _ _ _
          (logged task outcome OutcomeStatus.link_ready s) (λ h. cc)
    settle-Told item task outcome s OutcomeStatus.manual_review =
        conclude-Told item task QueueState.manual_review _ _ _ _
          (logged task outcome OutcomeStatus.manual_review s)
          (λ h. logged-is_error task OutcomeStatus.manual_review s.events outcome.events refl)
    settle-Told item task outcome s OutcomeStatus.failed =
        conclude-Told item task QueueState.failed _ _ _ _
          (logged task outcome OutcomeStatus.failed s)
          (λ h. logged-is_error task OutcomeStatus.failed s.events outcome.events refl)
    settle-Told item task outcome s OutcomeStatus.dry_run =
        conclude-Told item task QueueState.dry_run _ _ _ _
          (logged task outcome OutcomeStatus.dry_run s) (λ h. cc)

    invoked-Told :
        (item : QueueItem) (s : WorkerState World)
        (r : Result ExecutionOutcome × (DramaTask × (Session × World)))
        → Holds Told (invoked worker_id uuid completed_at item s r)
    invoked-Told item s (err e, x) = settle-Told item x.0 (raised x.0) _ OutcomeStatus.manual_review
    invoked-Told item s (ok outcome, x) =
        Holds->>> Told (status_of outcome.status, record s { session = x.1.0; world = x.1.1 }) _
          (λ status t. settle-Told item x.0 outcome t status)

    module _
        (executor : DramaTask
          → QueueItem
          → Session
          → World
          → Result ExecutionOutcome × (DramaTask × (Session × World))) where
      run_task-Told :
          (item : QueueItem) (o : Option DramaTask) (s : WorkerState World)
          → Holds Told (run_task worker_id uuid completed_at executor item o s)
      run_task-Told item none s = tt
      run_task-Told item (some row) s =
          Holds->>> Told (save_task _ s) _
            (λ saved t. invoked-Told item t (executor _ item t.session t.world))

      -- A cycle on a claimed item that ends in MANUAL_REVIEW or FAILED, also because the executor
      -- raised, leaves an event of the level ERROR.
      pub process_claimed-is_error :
          (item : QueueItem) (s t : WorkerState World) (result : CycleResult)
          → state_eq item.state QueueState.claimed ≡ true
          → process_claimed worker_id uuid completed_at executor item s ≡ (ok result, t)
          → (state_eq result.final_queue_state QueueState.manual_review
              || state_eq result.final_queue_state QueueState.failed)
            ≡ true
          → any is_error t.events ≡ true
      unfolding process_claimed
      process_claimed-is_error item s t result c e =
          Holds-eq-ok Told (process_claimed worker_id uuid completed_at executor item s) result t
            (by_state (state_eq item.state QueueState.claimed) c) e
        where
          by_state :
              (b : Bool)
              → b ≡ true
              → Holds Told (
                  if b
                  then (transition item.state QueueState.running, s) >>> (λ state t.
                      let running = record item { state = state } in
                      save_item running t >>> (λ done u.
                        run_task worker_id uuid completed_at executor running
                          (Tasks.Repository.get item.task_id u.session.tasks)
                          u))
                  else (ok (cycle item.id item.state none 0), s))
          by_state true h =
              Holds->>> Told (transition item.state QueueState.running, s) _
                (λ state u.
                  Holds->>> Told (save_item _ u) _ (λ done v.
                    run_task-Told _ (Tasks.Repository.get item.task_id v.session.tasks) v))
          by_state false h = cc
