-- ===== src/Queue/Scheduler.antt =====
-- backend/src/backend/application/services/delivery_scheduler.py, over the repositories of the
-- database. The tasks that the sheet has for the day are an argument, each with the two ids that uuid4
-- would make for it; `now` is the clock of the inserts. `run_forever` is not modelled.
pub mod OnePerTask
pub mod Unique
pub mod Tests
use automated_short_drama.Prelude.{
  ℕ, suc, String, Bool, true, false, not, ◌&&◌, ◌==◌, Option, none, some, List, [], ◌∷◌,
  if◌then◌else◌, any, find, nat_eq,
}
use automated_short_drama.Prelude.Int.{pos}
use automated_short_drama.Errors.{Result, ok, err, ◌>>=◌}
use automated_short_drama.Tasks.Task.{DramaTask, TaskStatus, status_eq}
use automated_short_drama.Tasks.Repository.{
  TaskTable, or_else, get_by_source_key, get_by_drama_and_time,
}
use automated_short_drama.Tasks
use automated_short_drama.Queue.Item.{
  QueueItem, QueueState, waiting_time, completed, cancelled, dry_run, state_eq,
}
use automated_short_drama.Queue.Repository.{Queue, add, update, list_by_task}
use automated_short_drama.Queue.Control.{Tables}

pub record Source : Type 0 where
  pub task : DramaTask
  pub task_uuid : String
  pub item_uuid : String

pub record ScanResult : Type 0 where
  pub created_tasks : ℕ
  pub updated_tasks : ℕ
  pub enqueued : ℕ
  pub skipped : ℕ

abbrev pub is_terminal : QueueState → Bool
is_terminal completed = true
is_terminal cancelled = true
is_terminal dry_run = true
is_terminal _ = false

abbrev pub new_task : Source → DramaTask
new_task s = record {
  drama_name = s.task.drama_name;
  platform = s.task.platform;
  available_time = s.task.available_time;
  end_type = "NATIVE";
  id = if s.task.source_key == "" then s.task.id else s.task_uuid;
  source_key = s.task.source_key;
  sheet_row = s.task.sheet_row;
  owner = s.task.owner;
  status = TaskStatus.waiting_time;
  source_links = s.task.source_links;
  link_set = s.task.link_set;
  link_status = s.task.link_status;
  current_stage = "WAITING_AVAILABLE_TIME";
  target_stage = "LINK_READY";
  delivery_drama_id = "";
  promotion_configs = [];
  confirmed_drama_match = none;
}

abbrev is_filled : List (String × String) → Bool
is_filled [] = false
is_filled (l ∷ ls) = true

-- The two last statements of `_sync_task`, and the whole.
abbrev sync_links : DramaTask → DramaTask → DramaTask
sync_links existing source =
    if existing.link_status == "VALIDATED"
    then existing
    else record existing { source_links = source.source_links }

abbrev sync_link_set : DramaTask → DramaTask → DramaTask
sync_link_set existing source =
    if source.link_status == "VALIDATED" && is_filled source.link_set
    then record existing { link_set = source.link_set; link_status = "VALIDATED" }
    else existing

abbrev sync_task : DramaTask → DramaTask → DramaTask
sync_task existing source =
    sync_link_set
      (sync_links
        (record existing {
          sheet_row = source.sheet_row;
          source_key = or_else source.source_key existing.source_key;
          drama_name = source.drama_name;
          platform = source.platform;
          available_time = source.available_time;
        })
        source)
      source

-- `_find_existing_task`: by the key, else by name, time and platform, else by the id.
abbrev or_by_id : DramaTask → TaskTable → Option DramaTask → Option DramaTask
or_by_id source ts none = Tasks.Repository.get source.id ts
or_by_id source ts (some task) = some (record task { source_key = source.source_key })

abbrev or_by_time : DramaTask → TaskTable → Option DramaTask → Result (Option DramaTask)
or_by_time source ts none =
    get_by_drama_and_time source.drama_name source.available_time source.platform ts >>= λ found.
    ok (or_by_id source ts found)
or_by_time source ts (some task) = ok (some task)

unfoldable pub find_existing_task : DramaTask → TaskTable → Result (Option DramaTask)
find_existing_task source ts =
    get_by_source_key source.source_key ts >>= λ found. or_by_time source ts found

-- The task is added or synchronised; the Boolean says that it was added.
abbrev pub write_task :
    Source → TaskTable → Option DramaTask → Result (Bool × (DramaTask × TaskTable))
write_task s ts none = Tasks.Repository.add (new_task s) ts >>= λ r. ok (true, r)
write_task s ts (some existing) =
    Tasks.Repository.update (sync_task existing s.task) ts >>= λ r. ok (false, r)

abbrev pub new_queue_item : String → DramaTask → QueueItem
new_queue_item uuid task = record {
  id = uuid;
  task_id = task.id;
  state = waiting_time;
  priority = pos 0;
  available_at = task.available_time;
  claimed_by = none;
  lease_until = none;
  attempt_count = 0;
  next_run_at = none;
  failure_code = none;
  retry_safe = false;
  created_at = 0;
}

-- An active item keeps its state, and one that waits follows the time of its task.
abbrev pub follow_time : DramaTask → QueueItem → Queue → Result (Bool × Queue)
follow_time task active q =
    if state_eq active.state waiting_time && not (nat_eq active.available_at task.available_time)
    then (update (record active { available_at = task.available_time }) q >>= λ (_, q').
        ok (false, q'))
    else ok (false, q)

abbrev pub ensure_by :
    ℕ → String → DramaTask → List QueueItem → Option QueueItem → Queue → Result (Bool × Queue)
ensure_by now uuid task items (some active) q = follow_time task active q
ensure_by now uuid task items none q =
    if any (λ i. is_terminal i.state) items
    then ok (false, q)
    else add now (new_queue_item uuid task) q >>= λ (_, q'). ok (true, q')

unfoldable pub ensure_queue_item : ℕ → String → DramaTask → Queue → Result (Bool × Queue)
ensure_queue_item now uuid task q =
    let items = list_by_task task.id q in
    if status_eq task.status TaskStatus.dry_run
    then ok (false, q)
    else ensure_by now uuid task items (find (λ i. not (is_terminal i.state)) items) q

abbrev pub count : Bool → Bool → ScanResult → ScanResult
count was_created was_enqueued r = record {
  created_tasks = if was_created then suc r.created_tasks else r.created_tasks;
  updated_tasks = if was_created then r.updated_tasks else suc r.updated_tasks;
  enqueued = if was_enqueued then suc r.enqueued else r.enqueued;
  skipped = if was_enqueued then r.skipped else suc r.skipped;
}

-- The body of the loop of `tick`.
unfoldable pub scan_one : ℕ → Source → ScanResult × Tables → Result (ScanResult × Tables)
scan_one now s (r, db) = find_existing_task s.task db.tasks >>= λ found.
    write_task s db.tasks found >>= λ (was_created, (task, ts)).
    ensure_queue_item now s.item_uuid task db.queue >>= λ (was_enqueued, q).
    ok (count was_created was_enqueued r, record { queue = q; tasks = ts })

unfoldable pub scan : ℕ → List Source → ScanResult × Tables → Result (ScanResult × Tables)
scan now [] state = ok state
scan now (s ∷ sources) state = scan_one now s state >>= λ state'. scan now sources state'

unfoldable pub tick : ℕ → List Source → Tables → Result (ScanResult × Tables)
tick now sources db =
    scan now sources
      (record { created_tasks = 0; updated_tasks = 0; enqueued = 0; skipped = 0 }, db)
