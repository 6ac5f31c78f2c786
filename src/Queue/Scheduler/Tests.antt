-- ===== src/Queue/Scheduler/Tests.antt =====
-- A scan on concrete tasks.
use automated_short_drama.Prelude.{◌+◌, ◌≡◌, refl, none, some, List, [], ◌∷◌, sort}
use automated_short_drama.Prelude.Rows.{update_where}
use automated_short_drama.Tasks.Task.{DramaTask, TaskStatus}
use automated_short_drama.Tasks.Repository.{get_by_source_key, get_by_drama_and_time}
use automated_short_drama.Tasks
use automated_short_drama.Queue.Repository.{add, list_by_task}
use automated_short_drama.Queue.Control.{Tables}
use automated_short_drama.Queue.Scheduler.{
  Source, ScanResult, new_task, new_queue_item, find_existing_task, ensure_queue_item, scan_one,
  scan, tick,
}
use automated_short_drama.Queue.Scheduler.OnePerTask.{UniqueTasks}
use automated_short_drama.Queue.Scheduler.Unique.{tick-UniqueTasks}

abbrev pub sheet_task : DramaTask
sheet_task = record {
  drama_name = "Moon";
  platform = "TOMATO";
  available_time = 5;
  end_type = "NATIVE";
  id = "";
  source_key = "k1";
  sheet_row = some 2;
  owner = none;
  status = TaskStatus.waiting_time;
  source_links = [];
  link_set = [];
  link_status = "NOT_STARTED";
  current_stage = "WAITING_AVAILABLE_TIME";
  target_stage = "LINK_READY";
  delivery_drama_id = "";
  promotion_configs = [];
  confirmed_drama_match = none;
}

abbrev source : Source
source = record { task = sheet_task; task_uuid = "t1"; item_uuid = "q1" }

-- The sheet has the task twice: the second time it is found again.
abbrev sources : List Source
sources = source ∷ source ∷ []

abbrev scanned : ScanResult × Tables
scanned = (
  record { created_tasks = 1; updated_tasks = 1; enqueued = 1; skipped = 1 },
  record {
    queue = record (new_queue_item "q1" (new_task source)) { created_at = 9 } ∷ [];
    tasks = new_task source ∷ [];
  },
)

tick-UniqueTasks_example : UniqueTasks scanned.1.queue × (1 + 1 ≡ 2) × (1 + 1 ≡ 2)
unfolding tick scan scan_one find_existing_task get_by_source_key get_by_drama_and_time
    Tasks.Repository.get Tasks.Repository.add ensure_queue_item list_by_task sort add
    Tasks.Repository.update update_where
tick-UniqueTasks_example =
    tick-UniqueTasks 9 sources (record { queue = []; tasks = [] }) scanned tt refl
