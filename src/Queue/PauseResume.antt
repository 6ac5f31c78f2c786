-- ===== src/Queue/PauseResume.antt =====
-- Resuming what was paused.
use automated_short_drama.Prelude.{
  String, ◌≡◌, refl, sym, ap, true, Option, none, some, [], ◌∷◌, arith, eq_iff, any, find,
}
use mathlib.Core.Path.{subst}
use automated_short_drama.Prelude.Rows.{update_where}
use automated_short_drama.Errors.{ok}
use automated_short_drama.Tasks.Task.{TaskStatus, DramaTask}
use automated_short_drama.Tasks.Repository.{TaskTable, has_task_id, to_domain}
use automated_short_drama.Tasks
use automated_short_drama.Queue.Item.{QueueItem, paused, queued}
use automated_short_drama.Queue.Machine.{transition}
use automated_short_drama.Queue.Repository.{get, update, overwrite, has_id}
use automated_short_drama.Queue.Repository.Ids.{UniqueIds, find-In}
use automated_short_drama.Queue.Control.{
  Tables, save, sync_task_status, resume, pause_task, resume_task,
}
use automated_short_drama.Queue.Moving.{get-id}
use automated_short_drama.Queue.Lifecycle.{pause_task-Effect}
use automated_short_drama.Queue.Claiming.{find-update}

found_any :
    (id : String) (ts : TaskTable) (t : DramaTask)
    → find (has_task_id id) ts ≡ some t
    → any (has_task_id t.id) ts ≡ true
found_any id [] t e = cc
found_any id (x ∷ xs) t e = ground (arith, eq_iff x.id id, eq_iff x.id t.id, found_any id xs t)

-- The task that a service reads can be written back, so the task table never stops a service.
set_status_total :
    (id : String) (status : TaskStatus) (ts : TaskTable) (o : Option DramaTask)
    → find (has_task_id id) ts ≡ o
    → (ts' : TaskTable) × (sync_task_status id status ts ≡ ok ts')
unfolding sync_task_status Tasks.Repository.get Tasks.Repository.update
set_status_total id status ts none e = (ts, ground arith)
set_status_total id status ts (some t) e = (
  update_where (has_task_id t.id) (λ _. record (to_domain t) { status = status }) ts,
  ground (arith, found_any id ts t),
)

save_total :
    (status : TaskStatus) (item r : QueueItem) (db : Tables)
    → get item.id db.queue ≡ some r
    → (res : QueueItem × Tables) × (save status item db ≡ ok res) × (res.0 ≡ overwrite item r)
unfolding save update
save_total status item r db e =
    let (ts, saved) = set_status_total item.task_id status db.tasks _ refl in
    (
      (
        overwrite item r,
        record { queue = update_where (has_id item.id) (overwrite item) db.queue; tasks = ts },
      ),
      ground arith,
      refl,
    )

paused-transition : transition paused queued ≡ ok queued
unfolding transition
paused-transition = refl

resume-paused :
    (id : String) (r : QueueItem) (db : Tables)
    → get id db.queue ≡ some r
    → r.state ≡ paused
    → (res : QueueItem × Tables) × (resume_task id db ≡ ok res) × (res.0.state ≡ queued)
unfolding resume_task resume
resume-paused id r db e s =
    let same : get r.id db.queue ≡ some r =
      subst (λ k. get k db.queue ≡ some r) (sym (get-id id db.queue r e)) e in
    let (res, saved, got) = save_total TaskStatus.ready (record r { state = queued }) r db same in
    (res, ground (arith, paused-transition), ap (λ (x : QueueItem). x.state) got)

-- On a table whose ids are unique, what a pause returned can be resumed: the item is then queued,
-- whatever worker paused it and in whatever state.
pub resume_task-pause_task :
    (id w : String) (db : Tables) (res : QueueItem × Tables)
    → UniqueIds db.queue
    → pause_task id w db ≡ ok res
    → (back : QueueItem × Tables) × (resume_task id res.1 ≡ ok back) × (back.0.state ≡ queued)
unfolding get
resume_task-pause_task id w db res u h =
    let e = pause_task-Effect id w db u res h in
    let write = overwrite res.0 in
    let kept =
      find-update write e.row db.queue (λ r. refl) u (find-In id e.row db.queue e.was_there) in
    let there =
      subst (λ k. find (has_id k) (update_where (has_id k) write db.queue) ≡ some (write e.row))
        (get-id id db.queue e.row e.was_there) kept in
    resume-paused id (write e.row) res.1
      (subst (λ q. find (has_id id) q ≡ some (write e.row)) (sym e.table) there) e.reached
