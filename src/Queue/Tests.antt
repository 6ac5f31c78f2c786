-- ===== src/Queue/Tests.antt =====
-- The queue on concrete tables.
use automated_short_drama.Prelude.{
  ℕ, select, String, ◌≡◌, ◌≢◌, refl, true, false, none, some, List, [], ◌∷◌, map, All, head?, least,
}
use automated_short_drama.Prelude.Int.{pos}
use automated_short_drama.Prelude.Rows.{Rows, update_where}
use automated_short_drama.Errors.{ok}
use automated_short_drama.Queue.Item.{
  QueueItem, QueueState, waiting_time, queued, running, paused, completed, failed, manual_review,
}
use mathlib.Core.Option
use automated_short_drama.Tasks
use automated_short_drama.Queue.Machine.{transition, can_transition}
use automated_short_drama.Queue.Repository.{
  Queue, get, update, claim, claim_next, is_ahead, recover_expired, give_back,
}
use automated_short_drama.Queue.Repository.Ids.{UniqueIds}
use automated_short_drama.Queue.Service.{peek_next, is_due, advance_queue, release_claimed}
use automated_short_drama.Queue.Advancing.{enqueued, advance_queue-one_pass}
use automated_short_drama.Queue.Claiming.{claim_next-peek_next, claim_next-ne}
use automated_short_drama.Queue.Recovery.{recover_expired-lists}
use automated_short_drama.Queue.Control.{
  Tables, pause, save, sync_task_status, pause_task, resume_task,
}
use automated_short_drama.Queue.Moving.{Moves, claim_fits}
use automated_short_drama.Queue.Outcomes.{release_item, release_claimed-release_item}
use automated_short_drama.Queue.PauseResume.{resume_task-pause_task}
use automated_short_drama.Queue.Steps.{
  Operation, claim_op, recover_op, pause_op, resume_op, run, run_all,
}
use automated_short_drama.Queue.Trace.{
  kept_if_final, run_all-Moves, run_all-claim_fits, run_all-final,
}

abbrev pub item : String → QueueState → ℕ → ℕ → QueueItem
item id state priority attempts = record {
  id = id;
  task_id = "task";
  state = state;
  priority = pos priority;
  available_at = 5;
  claimed_by = none;
  lease_until = none;
  attempt_count = attempts;
  next_run_at = none;
  failure_code = none;
  retry_safe = false;
  created_at = 3;
}

abbrev pub held : String → ℕ → QueueItem
held id attempts = record (item id running 1 attempts) {
  claimed_by = some "w1";
  lease_until = some 10;
}

abbrev uncertain : QueueItem
uncertain = record (item "q4" failed 1 1) { failure_code = some "RESULT_UNCERTAIN" }

abbrev table : Queue
table =
    item "q1" queued 1 0
    ∷ item "q2" queued 9 0
    ∷ held "q3" 0
    ∷ uncertain
    ∷ item "q5" completed 1 1
    ∷ held "q6" 7
    ∷ []

abbrev db : Tables
db = record { queue = table; tasks = [] }

table-UniqueIds : UniqueIds table
table-UniqueIds = (refl, (refl, (refl, (refl, (refl, (refl, tt))))))

abbrev ops : List Operation
ops = claim_op "w1" 60 20 ∷ pause_op "q2" "w1" ∷ recover_op 30 3 ∷ resume_op "q2" ∷ []

-- The item of the higher priority is claimed.
claim_next-urgent : Option.map (λ r. r.id) (claim_next "w1" 60 20 table).0 ≡ some "q2"
unfolding claim_next is_ahead least update_where
claim_next-urgent = refl

run_all-Moves_example :
    Rows Moves (run_all ops db).queue (run (pause_op "q3" "w2") (run_all ops db)).queue
    × UniqueIds (run_all ops db).queue
run_all-Moves_example = run_all-Moves ops (pause_op "q3" "w2") db table-UniqueIds

run_all-claim_fits_example : All (λ r. claim_fits r ≡ true) (run_all ops db).queue
run_all-claim_fits_example =
    run_all-claim_fits ops db table-UniqueIds (refl, (refl, (refl, (refl, (refl, (refl, tt))))))

run_all-final_example :
    Rows (λ r s. (s.id ≡ r.id) × (kept_if_final r s ≡ true)) table (run_all ops db).queue
run_all-final_example = run_all-final ops db table-UniqueIds

claim_next-peek_next_example :
    (claim_next "w1" 60 20 table).0 ≡ Option.map (claim "w1" 60000020) (head? (peek_next 1 table))
claim_next-peek_next_example = claim_next-peek_next "w1" 60 20 table table-UniqueIds

claim_next-ne_example : (claim "w1" 60000020 (item "q2" queued 9 0)).id ≢ "q1"
unfolding claim_next is_ahead least update_where
claim_next-ne_example =
    claim_next-ne "w1" "w2" 60 60 20 30 table (claim "w1" 60000020 (item "q2" queued 9 0))
      (claim "w2" 60000030 (item "q1" queued 1 0)) table-UniqueIds refl refl

recover_expired-lists_example :
    ((recover_expired 20 3 table).0.0 ≡ map (give_back queued) (held "q3" 0 ∷ []))
    × ((recover_expired 20 3 table).0.1 ≡ map (give_back manual_review) (held "q6" 7 ∷ []))
recover_expired-lists_example = recover_expired-lists 20 3 table table-UniqueIds

release_claimed-release_item_example :
    release_claimed "q3" "w2" table ≡ release_item "q3" "w2" table (some (held "q3" 0))
unfolding get
release_claimed-release_item_example = release_claimed-release_item "q3" "w2" table table-UniqueIds

abbrev small : Tables
small = record { queue = held "q3" 0 ∷ []; tasks = [] }

abbrev paused_item : QueueItem
paused_item = record (item "q3" paused 1 0) { id = "q3" }

abbrev paused_db : Tables
paused_db = record { queue = paused_item ∷ []; tasks = [] }

resume_task-pause_task_example :
    (back : QueueItem × Tables) × (resume_task "q3" paused_db ≡ ok back) × (back.0.state ≡ queued)
unfolding pause_task pause get transition can_transition save sync_task_status update update_where
    Tasks.Repository.get
resume_task-pause_task_example =
    resume_task-pause_task "q3" "w1" small (paused_item, paused_db) (refl, tt) refl

abbrev waiting_table : Queue
waiting_table = item "q1" waiting_time 1 0 ∷ item "q2" paused 9 0 ∷ []

advance_queue-one_pass_example :
    let q' = update_where (is_due 7) enqueued waiting_table in
    let c = claim_next "w1" 60 7 q' in
    advance_queue 7 "w1" 60 waiting_table
    ≡ ok ((map enqueued (select (is_due 7) waiting_table), c.0), c.1)
advance_queue-one_pass_example = advance_queue-one_pass 7 "w1" 60 waiting_table (refl, (refl, tt))
