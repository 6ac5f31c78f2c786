-- ===== src/Queue/Scheduler/Unique.antt =====
-- The items of each task over a scan, and its counts.
use automated_short_drama.Prelude.{
  ℕ, ◌+◌, String, ◌≡◌, refl, sym, Bool, true, false, not, ◌&&◌, nat_eq, Option, none, some, List,
  [], ◌∷◌, ◌++◌, inl, inr, arith, if◌then◌else◌, any, find, select, length, Bool-cases,
}
use mathlib.Core.Path.{subst}
use automated_short_drama.Errors.{ok, ◌>>=◌, >>=-eq-ok}
use automated_short_drama.Tasks.Task.{DramaTask, TaskStatus, status_eq}
use automated_short_drama.Queue.Item.{QueueItem, waiting_time, state_eq}
use automated_short_drama.Queue.Repository.{Queue, add, update, has_id, list_by_task}
use automated_short_drama.Queue.Control.{Tables}
use automated_short_drama.Queue.Scheduler.{
  Source, ScanResult, is_terminal, find_existing_task, write_task, new_queue_item, follow_time,
  ensure_by, ensure_queue_item, count, scan_one, scan, tick,
}
use automated_short_drama.Queue.Scheduler.OnePerTask.{
  of_task, UniqueTasks, overwrite-UniqueTasks, append-UniqueTasks, sort-empty, select-any, no_items,
  update-table, returned-UniqueTasks,
}

follow_time-UniqueTasks :
    (task : DramaTask) (active : QueueItem) (q : Queue) (w : Bool × Queue)
    → follow_time task active q ≡ ok w
    → UniqueTasks q
    → UniqueTasks w.1
follow_time-UniqueTasks task active q w h u =
    by_test
      (state_eq active.state waiting_time && not (nat_eq active.available_at task.available_time)) h
  where
    by_test :
        (b : Bool)
        → (if b
            then (update (record active { available_at = task.available_time }) q >>= λ (_, q').
                ok (false, q'))
            else ok (false, q))
          ≡ ok w
        → UniqueTasks w.1
    by_test true k =
        let (x, written, returned) =
          >>=-eq-ok (update (record active { available_at = task.available_time }) q)
            (λ (_, q'). ok (false, q')) k in
        returned-UniqueTasks false x.1 w returned (
          subst UniqueTasks
            (sym (update-table (record active { available_at = task.available_time }) q x written))
            (overwrite-UniqueTasks (record active { available_at = task.available_time })
              (has_id active.id) q u))
    by_test false k = returned-UniqueTasks false q w k u

add-UniqueTasks :
    (now : ℕ) (item : QueueItem) (q : Queue) (w : QueueItem × Queue)
    → add now item q ≡ ok w
    → any (of_task item.task_id) q ≡ false
    → UniqueTasks q
    → UniqueTasks w.1
unfolding add
add-UniqueTasks now item q w h n u =
    let row = record item { created_at = now } in
    let table : q ++ row ∷ [] ≡ w.1 = ground arith in
    subst UniqueTasks table (append-UniqueTasks q row u n)

none_of_task :
    (id : String) (q : Queue)
    → find (λ i. not (is_terminal i.state)) (list_by_task id q) ≡ none
    → any (λ i. is_terminal i.state) (list_by_task id q) ≡ false
    → any (of_task id) q ≡ false
unfolding list_by_task
none_of_task id q f n =
    select-any id q (sort-empty (select (of_task id) q) (no_items (list_by_task id q) f n))

-- What making sure of the item of a task does to the table.
ensure_by-UniqueTasks :
    (now : ℕ) (uuid : String) (task : DramaTask) (o : Option QueueItem) (q : Queue)
    (w : Bool × Queue)
    → find (λ i. not (is_terminal i.state)) (list_by_task task.id q) ≡ o
    → ensure_by now uuid task (list_by_task task.id q) o q ≡ ok w
    → UniqueTasks q
    → UniqueTasks w.1
ensure_by-UniqueTasks now uuid task (some active) q w f h u =
    follow_time-UniqueTasks task active q w h u
ensure_by-UniqueTasks now uuid task none q w f h u =
    by_test (any (λ i. is_terminal i.state) (list_by_task task.id q)) refl h
  where
    by_test :
        (b : Bool)
        → any (λ i. is_terminal i.state) (list_by_task task.id q) ≡ b
        → (if b
            then ok (false, q)
            else (add now (new_queue_item uuid task) q >>= λ (_, q'). ok (true, q')))
          ≡ ok w
        → UniqueTasks w.1
    by_test true e k = returned-UniqueTasks false q w k u
    by_test false e k =
        let (x, written, returned) =
          >>=-eq-ok (add now (new_queue_item uuid task) q) (λ (_, q'). ok (true, q')) k in
        returned-UniqueTasks true x.1 w returned (
          add-UniqueTasks now (new_queue_item uuid task) q x written (none_of_task task.id q f e) u)

ensure_queue_item-UniqueTasks :
    (now : ℕ) (uuid : String) (task : DramaTask) (q : Queue) (w : Bool × Queue)
    → ensure_queue_item now uuid task q ≡ ok w
    → UniqueTasks q
    → UniqueTasks w.1
unfolding ensure_queue_item
ensure_queue_item-UniqueTasks now uuid task q w h u =
    elim (Bool-cases (status_eq task.status TaskStatus.dry_run)) [
      | inl e ↦ returned-UniqueTasks false q w (ground arith) u
      | inr e ↦
          ensure_by-UniqueTasks now uuid task
            (find (λ i. not (is_terminal i.state)) (list_by_task task.id q)) q w refl (rw e at h) u
    ]

-- How the counts of a scan grow by one turn of its loop.
record Counts (n : ℕ) (before after : ScanResult) : Type 0 where
  pub tasks :
      after.created_tasks + after.updated_tasks ≡ n + (before.created_tasks + before.updated_tasks)
  pub items : after.enqueued + after.skipped ≡ n + (before.enqueued + before.skipped)

count-Counts :
    (was_created was_enqueued : Bool) (r : ScanResult)
    → Counts 1 r (count was_created was_enqueued r)
count-Counts was_created was_enqueued r = record { tasks = ground arith; items = ground arith }

scan_one-UniqueTasks :
    (now : ℕ) (s : Source) (r : ScanResult) (db : Tables) (w : ScanResult × Tables)
    → scan_one now s (r, db) ≡ ok w
    → UniqueTasks db.queue
    → UniqueTasks w.1.queue × Counts 1 r w.0
unfolding scan_one
scan_one-UniqueTasks now s r db w h u =
    let (found, _, h1) = >>=-eq-ok (find_existing_task s.task db.tasks) _ h in
    let (t, _, h2) = >>=-eq-ok (write_task s db.tasks found) _ h1 in
    let (e, ensured, h3) = >>=-eq-ok (ensure_queue_item now s.item_uuid t.1.0 db.queue) _ h2 in
    let pair : (count t.0 e.0 r, record { queue = e.1; tasks = t.1.1 }) ≡ w = cc in
    let unique = ensure_queue_item-UniqueTasks now s.item_uuid t.1.0 db.queue e ensured u in
    (
      subst (λ (x : ScanResult × Tables). UniqueTasks x.1.queue) pair unique,
      subst (λ (x : ScanResult × Tables). Counts 1 r x.0) pair (count-Counts t.0 e.0 r),
    )

scan-UniqueTasks :
    (now : ℕ) (sources : List Source) (r : ScanResult) (db : Tables) (w : ScanResult × Tables)
    → scan now sources (r, db) ≡ ok w
    → UniqueTasks db.queue
    → UniqueTasks w.1.queue × Counts (length sources) r w.0
unfolding scan
scan-UniqueTasks now [] r db w h u =
    let pair : (r, db) ≡ w = cc in
    (
      subst (λ (x : ScanResult × Tables). UniqueTasks x.1.queue) pair u,
      subst (λ (x : ScanResult × Tables). Counts 0 r x.0) pair
          (record { tasks = omega arith; items = omega arith }),
    )
scan-UniqueTasks now (s ∷ sources) r db w h u =
    let (x, one, more) = >>=-eq-ok (scan_one now s (r, db)) _ h in
    let first = scan_one-UniqueTasks now s r db x one u in
    let rest = scan-UniqueTasks now sources x.0 x.1 w more first.0 in
    (
      rest.0,
      record {
        tasks = omega (arith, rest.1.tasks, first.1.tasks);
        items = omega (arith, rest.1.items, first.1.items);
      },
    )

-- A scan that returns keeps at most one item of each task, where no task had two, and its counts add
-- up: each of the tasks of the sheet was added or synchronised, and enqueued or skipped.
pub tick-UniqueTasks :
    (now : ℕ) (sources : List Source) (db : Tables) (w : ScanResult × Tables)
    → UniqueTasks db.queue
    → tick now sources db ≡ ok w
    → UniqueTasks w.1.queue
      × (w.0.created_tasks + w.0.updated_tasks ≡ length sources)
      × (w.0.enqueued + w.0.skipped ≡ length sources)
unfolding tick
tick-UniqueTasks now sources db w u h =
    let s = scan-UniqueTasks now sources _ db w h u in
    (s.0, omega (arith, s.1.tasks), omega (arith, s.1.items))
