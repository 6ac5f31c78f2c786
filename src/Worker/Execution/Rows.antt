-- ===== src/Worker/Execution/Rows.antt =====
-- The row of the item and the events that a cycle of a worker leaves.
use automated_short_drama.Prelude.{
  ℕ, String, ◌==◌, ◌≡◌, refl, sym, Bool, true, false, Option, none, some, [], ◌∷◌, Bool-cases, inl,
  inr, if◌then◌else◌, arith,
}
use mathlib.Core.Path.{subst}
use automated_short_drama.Prelude.Rows.{update_where}
use automated_short_drama.Errors.{Result, ok, err}
use automated_short_drama.Tasks
use automated_short_drama.Tasks.Task.{DramaTask, TaskStatus}
use automated_short_drama.Tasks.Repository.{TaskTable}
use automated_short_drama.Tasks.Ledger.{TaskLedger}
use automated_short_drama.Delivery.Flow.{◌>>>◌}
use automated_short_drama.Queue.Item.{QueueItem, QueueState, state_eq}
use automated_short_drama.Queue.Machine.{transition}
use automated_short_drama.Queue.Repository.{Queue, get, update, overwrite, has_id}
use automated_short_drama.Queue.Moving.{get-id}
use automated_short_drama.Queue.Completion.{
  Session, LedgerFields, complete_task, complete_item, after_item, finish_task, release_item,
}
use automated_short_drama.Queue.Completion.Once.{done, finish_task-queue, release_item-table}
use automated_short_drama.Workflow.Ends.{Holds, Holds->>>, Holds-then, Holds-eq-ok}
use automated_short_drama.Worker.Execution.{
  OutcomeStatus, ExecutionOutcome, CycleResult, WorkerState, status_of, queue_written, task_written,
  save_item, save_task, completed_with, conclude, settle_as, invoked, run_task, process_claimed,
  cycle, raised,
}

-- The row of that id has that state.
abbrev pub HasState : String → QueueState → Queue → Type 0
HasState id state q = (row : QueueItem) × (get id q ≡ some row) × (row.state ≡ state)

get-overwrite :
    (item r : QueueItem) (q : Queue)
    → get item.id q ≡ some r
    → HasState item.id item.state (update_where (has_id item.id) (overwrite item) q)
unfolding update_where get
get-overwrite item r [] h = cc
get-overwrite item r (x ∷ q) h = elim (Bool-cases (x.id == item.id)) [
  | inl e ↦ (overwrite item x, ground (arith, e), refl)
  | inr n ↦
      let w = get-overwrite item r q (ground (arith, n, h)) in (w.0, ground (arith, n, w.1), w.2)
]

update-HasState :
    (item : QueueItem) (q : Queue) (w : QueueItem × Queue)
    → update item q ≡ ok w
    → HasState item.id item.state w.1
unfolding update
update-HasState item q w h = by_row (get item.id q) refl
  where
    by_row : (o : Option QueueItem) → get item.id q ≡ o → HasState item.id item.state w.1
    by_row none e = ground (arith, e, h)
    by_row (some r) e =
        subst (HasState item.id item.state) (ground (arith, e, h)) (get-overwrite item r q e)

complete_task-HasState :
    (uuid : String) (now : ℕ) (id worker_id : String) (fields : LedgerFields) (s : Session)
    → Holds
        (λ (ledger : TaskLedger) (t : Session). HasState id QueueState.completed t.queue)
        (complete_task uuid now id worker_id fields s)
unfolding complete_task
complete_task-HasState uuid now id worker_id fields s = by_item (get id s.queue) refl
  where
    Done : TaskLedger → Session → Type 0
    Done ledger t = HasState id QueueState.completed t.queue

    finished :
        (task_id : String) (q : Queue)
        → HasState id QueueState.completed q
        → (r : Result TaskLedger × Session) → r.1.queue ≡ q
        → Holds Done r
    finished task_id q h (err e, t) k = tt
    finished task_id q h (ok ledger, t) k = subst (HasState id QueueState.completed) (sym k) h

    by_release :
        (item : QueueItem)
        → get id s.queue ≡ some item
        → (r : Result (QueueItem × Queue)) → release_item worker_id item s.queue ≡ r
        → Holds Done (after_item uuid now fields item.task_id r s)
    by_release item g (err e) h = tt
    by_release item g (ok r) h =
        finished item.task_id r.1
          (subst (HasState id QueueState.completed)
            (sym (release_item-table worker_id item s.queue r h).2)
            (subst
              (λ i.
                HasState i QueueState.completed
                  (update_where (has_id item.id) (overwrite (done item)) s.queue))
              (get-id id s.queue item g)
              (get-overwrite (done item) item s.queue
                (subst (λ i. get i s.queue ≡ some item) (sym (get-id id s.queue item g)) g))))
          (finish_task uuid now fields (Tasks.Repository.get item.task_id s.tasks)
            (record s { queue = r.1 }))
          (finish_task-queue uuid now fields (Tasks.Repository.get item.task_id s.tasks)
            (record s { queue = r.1 }))

    by_item :
        (o : Option QueueItem)
        → get id s.queue ≡ o
        → Holds Done (complete_item uuid now worker_id fields o s)
    by_item none g = tt
    by_item (some item) g = by_release item g (release_item worker_id item s.queue) refl

module _ {World : Type 0} where
  abbrev Row : QueueItem → QueueState → WorkerState World → Type 0
  Row item state s = HasState item.id state s.session.queue

  abbrev Reported : QueueItem → CycleResult → WorkerState World → Type 0
  Reported item result s = HasState item.id result.final_queue_state s.session.queue

  save_item-Row :
      (item : QueueItem) (s : WorkerState World)
      → Holds (λ done t. Row item item.state t) (save_item item s)
  save_item-Row item s = by_update (update item s.session.queue) refl
    where
      by_update :
          (w : Result (QueueItem × Queue))
          → update item s.session.queue ≡ w
          → Holds (λ done t. Row item item.state t) (queue_written s w)
      by_update (err e) h = tt
      by_update (ok w) h = update-HasState item s.session.queue w h

  save_task-Row :
      (item : QueueItem) (state : QueueState) (task : DramaTask) (s : WorkerState World)
      → Row item state s
      → Holds (λ done t. Row item state t) (save_task task s)
  save_task-Row item state task s r = by_update (Tasks.Repository.update task s.session.tasks)
    where
      by_update :
          (w : Result (DramaTask × TaskTable))
          → Holds (λ done t. Row item state t) (task_written s w)
      by_update (err e) = tt
      by_update (ok w) = r

  conclude-Reported :
      (item : QueueItem) (task : DramaTask) (target : QueueState) (status : TaskStatus)
      (code : Option String) (safe : Bool) (count : ℕ) (s : WorkerState World)
      → Holds (Reported item) (conclude item task target status code safe count s)
  conclude-Reported item task target status code safe count s =
      Holds->>> (Reported item) (transition item.state target, s) _
        (λ state t.
          let next = record item { state = state; failure_code = code; retry_safe = safe } in
          Holds-then (λ done u. Row next state u) (Reported item) (save_item next t) _
            (save_item-Row next t)
            (λ done u r.
              Holds-then (λ saved v. Row next state v) (Reported item)
                (save_task (record task { status = status }) u) _ (save_task-Row next state _ u r)
                (λ saved v m. m)))

  completed_with-Reported :
      (item : QueueItem) (count : ℕ) (s : WorkerState World) (r : Result TaskLedger × Session)
      → Holds
          (λ (ledger : TaskLedger) (t : Session). HasState item.id QueueState.completed t.queue)
          r
      → Holds (Reported item) (completed_with item count s r)
  completed_with-Reported item count s (err e, t) h = tt
  completed_with-Reported item count s (ok ledger, t) h = h

  module _ (worker_id uuid : String) (completed_at : ℕ) where
    settle_as-Reported :
        (item : QueueItem) (task : DramaTask) (outcome : ExecutionOutcome) (count : ℕ)
        (s : WorkerState World) (status : OutcomeStatus)
        → Holds
            (Reported item)
            (settle_as worker_id uuid completed_at item task outcome count s status)
    settle_as-Reported item task outcome count s OutcomeStatus.completed =
        completed_with-Reported item count s _
          (complete_task-HasState uuid completed_at item.id worker_id _ s.session)
    settle_as-Reported item task outcome count s OutcomeStatus.link_extracted =
        conclude-Reported item task QueueState.completed _ _ _ count s
    settle_as-Reported item task outcome count s OutcomeStatus.link_ready =
        conclude-Reported item task QueueState.completed _ _ _ count s
    settle_as-Reported item task outcome count s OutcomeStatus.manual_review =
        conclude-Reported item task QueueState.manual_review _ _ _ count s
    settle_as-Reported item task outcome count s OutcomeStatus.failed =
        conclude-Reported item task QueueState.failed _ _ _ count s
    settle_as-Reported item task outcome count s OutcomeStatus.dry_run =
        conclude-Reported item task QueueState.dry_run _ _ _ count s

    invoked-Reported :
        (item : QueueItem) (s : WorkerState World)
        (r : Result ExecutionOutcome × (DramaTask × (Session × World)))
        → Holds (Reported item) (invoked worker_id uuid completed_at item s r)
    invoked-Reported item s (err e, x) =
        settle_as-Reported item x.0 (raised x.0) _ _ OutcomeStatus.manual_review
    invoked-Reported item s (ok outcome, x) =
        Holds->>> (Reported item)
          (status_of outcome.status, record s { session = x.1.0; world = x.1.1 }) _
          (λ status t. settle_as-Reported item x.0 outcome _ _ status)

    module _
        (executor : DramaTask
          → QueueItem
          → Session
          → World
          → Result ExecutionOutcome × (DramaTask × (Session × World))) where
      run_task-Reported :
          (item : QueueItem) (o : Option DramaTask) (s : WorkerState World)
          → Holds (Reported item) (run_task worker_id uuid completed_at executor item o s)
      run_task-Reported item none s = tt
      run_task-Reported item (some row) s =
          Holds->>> (Reported item) (save_task _ s) _
            (λ saved t. invoked-Reported item t (executor _ item t.session t.world))

      -- If a cycle on a claimed item returns a result, then the row of the item in the queue has the
      -- state that the result names, whatever the executor did to the tables.
      pub process_claimed-HasState :
          (item : QueueItem) (s t : WorkerState World) (result : CycleResult)
          → state_eq item.state QueueState.claimed ≡ true
          → process_claimed worker_id uuid completed_at executor item s ≡ (ok result, t)
          → HasState item.id result.final_queue_state t.session.queue
      unfolding process_claimed
      process_claimed-HasState item s t result c e =
          Holds-eq-ok (Reported item) (process_claimed worker_id uuid completed_at executor item s)
            result t (by_state (state_eq item.state QueueState.claimed) c) e
        where
          by_state :
              (b : Bool)
              → b ≡ true
              → Holds (Reported item) (
                  if b
                  then (transition item.state QueueState.running, s) >>> (λ state t.
                      let running = record item { state = state } in
                      save_item running t >>> (λ done u.
                        run_task worker_id uuid completed_at executor running
                          (Tasks.Repository.get item.task_id u.session.tasks)
                          u))
                  else (ok (cycle item.id item.state none 0), s))
          by_state true h =
              Holds->>> (Reported item) (transition item.state QueueState.running, s) _
                (λ state u. Holds->>> (Reported item) (save_item _ u) _ (λ done v.
                  run_task-Reported _ (Tasks.Repository.get item.task_id v.session.tasks) v))
          by_state false h = cc
