-- ===== src/Worker/Execution/Tests.antt =====
-- A cycle whose executor raises.
use automated_short_drama.Prelude.{ℕ, ◌≡◌, refl, true, false, none, some, [], ◌∷◌, any}
use automated_short_drama.Prelude.Int.{pos}
use automated_short_drama.Prelude.Rows.{update_where}
use automated_short_drama.Errors.{Result, ok, err, value_error}
use automated_short_drama.Tasks
use automated_short_drama.Tasks.Task.{DramaTask, TaskStatus}
use automated_short_drama.Queue.Item.{QueueItem, QueueState}
use automated_short_drama.Queue.Machine.{transition}
use automated_short_drama.Queue.Repository.{update}
use automated_short_drama.Queue.Completion.{Session}
use automated_short_drama.Worker.Execution.{
  ExecutionOutcome, WorkerState, CycleResult, is_error, build_events, cycle, process_claimed,
}
use automated_short_drama.Worker.Execution.Rows.{HasState, process_claimed-HasState}
use automated_short_drama.Worker.Execution.Events.{process_claimed-is_error}

abbrev item : QueueItem
item = record {
  id = "q";
  task_id = "t";
  state = QueueState.claimed;
  priority = pos 0;
  available_at = 0;
  claimed_by = some "w";
  lease_until = some 9;
  attempt_count = 1;
  next_run_at = none;
  failure_code = none;
  retry_safe = false;
  created_at = 0;
}

abbrev task : DramaTask
task = record {
  drama_name = "d";
  platform = "TOMATO";
  available_time = 3;
  end_type = "NATIVE";
  id = "t";
  source_key = "";
  sheet_row = some 3;
  owner = none;
  status = TaskStatus.ready;
  source_links = [];
  link_set = [];
  link_status = "";
  current_stage = "";
  target_stage = "";
  delivery_drama_id = "";
  promotion_configs = [];
  confirmed_drama_match = none;
}

abbrev state : WorkerState ℕ
state = record {
  session = record { queue = item ∷ []; tasks = task ∷ []; ledgers = [] };
  events = [];
  world = 0;
}

-- An executor that raises.
abbrev executor :
    DramaTask → QueueItem → Session → ℕ → Result ExecutionOutcome × (DramaTask × (Session × ℕ))
executor running i session w = (err value_error, (running, (session, w)))

abbrev result : CycleResult
result = cycle "q" QueueState.manual_review none 1

abbrev left : WorkerState ℕ
left = (process_claimed "w" "l" 5 executor item state).1

left_is : process_claimed "w" "l" 5 executor item state ≡ (ok result, left)
unfolding process_claimed transition update Tasks.Repository.get Tasks.Repository.update
    update_where build_events
left_is = refl

process_claimed-HasState_example : HasState "q" QueueState.manual_review left.session.queue
process_claimed-HasState_example =
    process_claimed-HasState "w" "l" 5 executor item state left result refl left_is

process_claimed-is_error_example : any is_error left.events ≡ true
process_claimed-is_error_example =
    process_claimed-is_error "w" "l" 5 executor item state left result refl left_is refl
