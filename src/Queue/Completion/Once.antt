-- ===== src/Queue/Completion/Once.antt =====
-- Completing an item again, and what a completion writes into the queue.
use automated_short_drama.Prelude.{
  inl, inr, ◌⊎◌, ℕ, String, ◌≡◌, refl, sym, ap, ◌∙◌, Bool, true, false, Option, none, some, arith,
  if◌then◌else◌,
}
use mathlib.Core.Path.{subst}
use automated_short_drama.Prelude.Rows.{update_where}
use automated_short_drama.Errors.{
  Result, ok, err, conflict, bad_state, other_worker, ◌>>=◌, >>=-eq-ok,
}
use automated_short_drama.Tasks.Task.{DramaTask}
use automated_short_drama.Tasks.Repository.{TaskTable}
use automated_short_drama.Tasks.Ledger.{TaskLedger, Ledgers}
use automated_short_drama.Tasks
use automated_short_drama.Queue.Item.{QueueItem, QueueState, completed, is_text}
use automated_short_drama.Queue.Machine.{transition}
use automated_short_drama.Queue.Repository.{Queue, get, update, overwrite, has_id, is_active}
use automated_short_drama.Queue.Repository.Ids.{UniqueIds, find-In}
use automated_short_drama.Queue.Claiming.{find-update}
use automated_short_drama.Queue.Moving.{get-id}
use automated_short_drama.Queue.Scheduler.OnePerTask.{update-table}
use automated_short_drama.Queue.Completion.{
  Session, LedgerFields, write_ledger, with_ledger, after_task, finish_task, release_item,
  after_item, complete_item, complete_task,
}

-- The ledger of a task does not touch the queue.
with_ledger-queue :
    (r : Result (TaskLedger × Ledgers)) (s : Session) → (with_ledger r s).1.queue ≡ s.queue
with_ledger-queue (ok w) s = refl
with_ledger-queue (err e) s = refl

after_task-queue :
    (uuid : String) (now : ℕ) (fields : LedgerFields) (task : DramaTask)
    (r : Result (DramaTask × TaskTable)) (s : Session)
    → (after_task uuid now fields task r s).1.queue ≡ s.queue
after_task-queue uuid now fields task (err e) s = refl
after_task-queue uuid now fields task (ok (t, ts)) s =
    with_ledger-queue
      (write_ledger uuid now fields task (Tasks.Ledger.list_by_task task.id s.ledgers) s.ledgers)
      (record s { tasks = ts })

pub finish_task-queue :
    (uuid : String) (now : ℕ) (fields : LedgerFields) (o : Option DramaTask) (s : Session)
    → (finish_task uuid now fields o s).1.queue ≡ s.queue
finish_task-queue uuid now fields none s = refl
finish_task-queue uuid now fields (some task) s = after_task-queue uuid now fields task _ s

abbrev pub done : QueueItem → QueueItem
done item = record item { state = completed }

pub release_item-table :
    (w : String) (item : QueueItem) (q : Queue) (r : QueueItem × Queue)
    → release_item w item q ≡ ok r
    → (is_text item.claimed_by w ≡ true)
      × (is_active item.state ≡ true)
      × (r.1 ≡ update_where (has_id item.id) (overwrite (done item)) q)
unfolding transition
release_item-table w item q r h =
    by_worker (is_text item.claimed_by w) (is_active item.state) refl refl h
  where
    written :
        (s : QueueState)
        → transition item.state completed ≡ ok s
        → update (record item { state = s }) q ≡ ok r
        → r.1 ≡ update_where (has_id item.id) (overwrite (done item)) q
    written s moved k =
        let there : s ≡ completed = ground arith in
        update-table (record item { state = s }) q r k
        ∙ ap (λ t. update_where (has_id item.id) (overwrite (record item { state = t })) q) there

    by_worker :
        (held active : Bool)
        → is_text item.claimed_by w ≡ held
        → is_active item.state ≡ active
        → (if held
            then (if active
                then (transition item.state completed >>= λ s. update (record item { state = s }) q)
                else err (conflict bad_state))
            else err (conflict other_worker))
          ≡ ok r
        → (is_text item.claimed_by w ≡ true)
          × (is_active item.state ≡ true)
          × (r.1 ≡ update_where (has_id item.id) (overwrite (done item)) q)
    by_worker false active e a k = cc
    by_worker true false e a k = cc
    by_worker true true e a k =
        let (s, moved, kept) =
          >>=-eq-ok (transition item.state completed) (λ s. update (record item { state = s }) q)
            k in
        (e, a, written s moved kept)

-- A completion leaves the queue, or writes an active item as completed.
pub complete_task-queue :
    (uuid : String) (now : ℕ) (id w : String) (fields : LedgerFields) (s : Session)
    → ((complete_task uuid now id w fields s).1.queue ≡ s.queue)
      ⊎ ((item : QueueItem) × (get id s.queue ≡ some item)
          × (is_active item.state ≡ true)
          × ((complete_task uuid now id w fields s).1.queue
              ≡ update_where (has_id item.id) (overwrite (done item)) s.queue))
unfolding complete_task
complete_task-queue uuid now id w fields s = by_item (get id s.queue) refl
  where
    by_release :
        (item : QueueItem) (r : Result (QueueItem × Queue))
        → get id s.queue ≡ some item
        → release_item w item s.queue ≡ r
        → ((after_item uuid now fields item.task_id r s).1.queue ≡ s.queue)
          ⊎ ((it : QueueItem) × (get id s.queue ≡ some it)
              × (is_active it.state ≡ true)
              × ((after_item uuid now fields item.task_id r s).1.queue
                  ≡ update_where (has_id it.id) (overwrite (done it)) s.queue))
    by_release item (err e) there released = inl refl
    by_release item (ok r) there released =
        let t = release_item-table w item s.queue r released in
        inr (
          item,
          there,
          t.1,
          finish_task-queue uuid now fields (Tasks.Repository.get item.task_id s.tasks)
                (record s { queue = r.1 })
              ∙ t.2,
        )

    by_item :
        (o : Option QueueItem)
        → get id s.queue ≡ o
        → ((complete_item uuid now w fields o s).1.queue ≡ s.queue)
          ⊎ ((it : QueueItem) × (get id s.queue ≡ some it)
              × (is_active it.state ≡ true)
              × ((complete_item uuid now w fields o s).1.queue
                  ≡ update_where (has_id it.id) (overwrite (done it)) s.queue))
    by_item none there = inl refl
    by_item (some item) there = by_release item (release_item w item s.queue) there refl

get-done :
    (id : String) (item : QueueItem) (q q' : Queue)
    → UniqueIds q
    → get id q ≡ some item
    → q' ≡ update_where (has_id item.id) (overwrite (done item)) q
    → get id q' ≡ some (done item)
unfolding get
get-done id item q q' u there table =
    let found =
      find-update (overwrite (done item)) item q (λ r. refl) u (find-In id item q there) in
    subst (λ k. get k q' ≡ some (done item)) (get-id id q item there)
      (ap (get item.id) table ∙ found)

-- On a table whose ids are unique, once a completion has returned, a second one by the same worker
-- raises the conflict of the state and writes nothing: no second ledger and no second change.
pub complete_task-again :
    (uuid uuid' : String) (now later : ℕ) (id w : String) (fields fields' : LedgerFields)
    (s s' : Session) (ledger : TaskLedger)
    → UniqueIds s.queue
    → complete_task uuid now id w fields s ≡ (ok ledger, s')
    → complete_task uuid' later id w fields' s' ≡ (err (conflict bad_state), s')
unfolding complete_task
complete_task-again uuid uuid' now later id w fields fields' s s' ledger u h =
    by_item (get id s.queue) refl h
  where
    again :
        (item : QueueItem) (r : Result (QueueItem × Queue))
        → get id s.queue ≡ some item
        → release_item w item s.queue ≡ r
        → after_item uuid now fields item.task_id r s ≡ (ok ledger, s')
        → (is_text item.claimed_by w ≡ true) × (get id s'.queue ≡ some (done item))
    again item (err e) there released k = cc
    again item (ok r) there released k =
        let t = release_item-table w item s.queue r released in
        let queue : r.1 ≡ s'.queue =
          sym (
            finish_task-queue uuid now fields (Tasks.Repository.get item.task_id s.tasks)
              (record s { queue = r.1 }))
          ∙ (λ i. (k i).1.queue) in
        (t.0, get-done id item s.queue s'.queue u there (sym queue ∙ t.2))

    by_item :
        (o : Option QueueItem)
        → get id s.queue ≡ o
        → complete_item uuid now w fields o s ≡ (ok ledger, s')
        → complete_item uuid' later w fields' (get id s'.queue) s' ≡ (err (conflict bad_state), s')
    by_item none there k = cc
    by_item (some item) there k =
        let a = again item (release_item w item s.queue) there refl k in rw (a.1, a.0) refl
