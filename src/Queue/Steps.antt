-- ===== src/Queue/Steps.antt =====
-- The operations on rows of the queue as data: the claim, the release and the recovery, the services
-- of Control, the enqueueing and the completion.
use automated_short_drama.Tasks.Ledger.{Ledgers}
use automated_short_drama.Queue.Service.{is_due}
use automated_short_drama.Queue.Advancing.{enqueued, queue_due, queue_due_lem}
use automated_short_drama.Queue.Completion.{Session, LedgerFields, complete_task}
use automated_short_drama.Prelude.{ℕ, ◌+◌, String, ◌≡◌, refl, true, List, [], ◌∷◌, arith}
use automated_short_drama.Prelude.Rows.{update_where-Rows, update_where-All, All-In}
use automated_short_drama.Errors.{Result, ok, err}
use automated_short_drama.Queue.Item.{
  QueueItem, QueueState, queued, paused, cancelled, manual_review, seconds,
}
use automated_short_drama.Queue.Repository.{
  Queue, get, overwrite, has_id, claim_next, release_claimed, recover_expired,
}
use automated_short_drama.Queue.Repository.Ids.{UniqueIds, update_where-UniqueIds, find-In}
use automated_short_drama.Queue.Control.{
  Tables, pause_task, resume_task, cancel_task, retry_task, mark_manual_review,
}
use automated_short_drama.Queue.Moving.{Moves, Moves-refl, claim_fits, Effect}
use automated_short_drama.Queue.Lifecycle.{
  pause_task-Effect, resume_task-Effect, cancel_task-Effect, retry_task-Effect,
  mark_manual_review-Effect,
}
use automated_short_drama.Queue.Sound.{
  IsSound, same-IsSound, candidate-IsSound, release-IsSound, recover-IsSound, due-Moves,
  complete-IsSound,
}

-- The operations on rows that are in the table, with their arguments; a completion also reads and
-- writes the ledgers, which may be any.
pub data Operation : Type 0 where
  claim_op : (worker_id : String) (lease_seconds now : ℕ) → Operation
  release_op : (id worker_id : String) → Operation
  recover_op : (now max_attempts : ℕ) → Operation
  pause_op cancel_op review_op : (id worker_id : String) → Operation
  resume_op retry_op : (id : String) → Operation
  enqueue_op : (now : ℕ) → Operation
  complete_op :
      (uuid : String) (now : ℕ) (id worker_id : String) (fields : LedgerFields) (ledgers : Ledgers)
      → Operation

-- A service that raises leaves the tables as they are.
abbrev pub after : Result (QueueItem × Tables) → Tables → Tables
after (ok (item, db')) db = db'
after (err e) db = db

abbrev after_enqueue : Result Queue → Tables → Tables
after_enqueue (ok q) db = record db { queue = q }
after_enqueue (err e) db = db

-- What a completion has written, beside any table of ledgers.
abbrev after_complete : Session → Tables
after_complete s = record { queue = s.queue; tasks = s.tasks }

unfoldable pub run : Operation → Tables → Tables
run (claim_op w l now) db = record db { queue = (claim_next w l now db.queue).1 }
run (release_op id w) db = record db { queue = (release_claimed id w db.queue).1 }
run (recover_op now m) db = record db { queue = (recover_expired now m db.queue).1 }
run (pause_op id w) db = after (pause_task id w db) db
run (cancel_op id w) db = after (cancel_task id w db) db
run (review_op id w) db = after (mark_manual_review id w db) db
run (resume_op id) db = after (resume_task id db) db
run (retry_op id) db = after (retry_task id db) db
run (enqueue_op now) db = after_enqueue (queue_due now db.queue) db
run (complete_op uuid now id w fields ledgers) db =
    after_complete
      (complete_task uuid now id w fields
        (record { queue = db.queue; tasks = db.tasks; ledgers = ledgers })).1

unfoldable pub run_all : List Operation → Tables → Tables
run_all [] db = db
run_all (op ∷ ops) db = run_all ops (run op db)

after-IsSound :
    (id : String) (target : QueueState) (db : Tables) (r : Result (QueueItem × Tables))
    → UniqueIds db.queue
    → ((res : QueueItem × Tables) → r ≡ ok res → Effect id target db res.1 res.0)
    → IsSound db.queue (after r db).queue
after-IsSound id target db (err e) u h = same-IsSound db.queue u
after-IsSound id target db (ok (item, db')) u h =
    let e = h (item, db') refl in
    record {
      rows = e.rows;
      unique = e.unique;
      fitting = λ all. rw e.table (
          update_where-All (λ r. claim_fits r ≡ true) (has_id id) (overwrite item)
            (λ r t _. e.claims (
              All-In (λ r. claim_fits r ≡ true) e.row db.queue all
                (find-In id e.row db.queue (unfold get in e.was_there))))
            db.queue all);
    }

enqueue-IsSound :
    (now : ℕ) (db : Tables)
    → UniqueIds db.queue
    → IsSound db.queue (after_enqueue (queue_due now db.queue) db).queue
enqueue-IsSound now db u = rw (queue_due_lem now db.queue u) (record {
  rows = update_where-Rows Moves (is_due now) enqueued Moves-refl (due-Moves now) db.queue;
  unique = update_where-UniqueIds enqueued (λ r. refl) (is_due now) db.queue u;
  fitting =
      update_where-All (λ r. claim_fits r ≡ true) (is_due now) enqueued (λ r e h. ground arith)
        db.queue;
})

-- Every operation moves rows only along the whitelist, keeps the ids unique, and keeps the claims
-- fitting the states.
pub run-IsSound :
    (op : Operation) (db : Tables) → UniqueIds db.queue → IsSound db.queue (run op db).queue
unfolding run
run-IsSound (claim_op w l now) db u =
    unfold claim_next in candidate-IsSound w (now + seconds l) db.queue _ u refl
run-IsSound (release_op id w) db u = release-IsSound id w db.queue u
run-IsSound (recover_op now m) db u = recover-IsSound now m db.queue u
run-IsSound (pause_op id w) db u = after-IsSound id paused db _ u (pause_task-Effect id w db u)
run-IsSound (cancel_op id w) db u = after-IsSound id cancelled db _ u (cancel_task-Effect id w db u)
run-IsSound (review_op id w) db u =
    after-IsSound id manual_review db _ u (mark_manual_review-Effect id w db u)
run-IsSound (resume_op id) db u = after-IsSound id queued db _ u (resume_task-Effect id db u)
run-IsSound (retry_op id) db u = after-IsSound id queued db _ u (retry_task-Effect id db u)
run-IsSound (enqueue_op now) db u = enqueue-IsSound now db u
run-IsSound (complete_op uuid now id w fields ledgers) db u =
    complete-IsSound uuid now id w fields
      (record { queue = db.queue; tasks = db.tasks; ledgers = ledgers }) u
