-- ===== src/Workflow/Tests.antt =====
-- Runs of the preparation on concrete tasks.
use automated_short_drama.Prelude.{ℕ, ◌+◌, ◌≡◌, refl, true, false, none, some, [], ◌∷◌, All}
use automated_short_drama.Prelude.Dicts.{lookup, put}
use automated_short_drama.Prelude.Rows.{update_where}
use automated_short_drama.Errors.{ok, err, external}
use automated_short_drama.Tasks
use automated_short_drama.Tasks.Task.{DramaTask, TaskStatus}
use automated_short_drama.Tasks.Repository.{to_domain}
use automated_short_drama.Delivery.Flow.{Platform}
use automated_short_drama.Workflow.Stage
use automated_short_drama.Workflow.Steps.{
  start_step, finish_step, fail_step, add_workflow, add_step, update_step,
}
use automated_short_drama.Workflow.State.{
  Preparation, ReadinessState, outcome_of, missing_of, save, primary_link,
}
use automated_short_drama.Workflow.Readiness.{
  execute, ensure_links, ensure_delivery_drama, ensure_promotion_configs, start, create_configs,
}
use automated_short_drama.Workflow.Readiness.Reported.{agrees, execute-Told}
use automated_short_drama.Workflow.Readiness.Prepared.{wrote, made_ready, execute-prepared}
use automated_short_drama.Workflow.Readiness.Closed.{IsDone}
use automated_short_drama.Workflow.Readiness.Closed.Stages.{execute-closed}

-- The delivery system makes dramas, and fails at promotion contents.
abbrev platform : Platform ℕ
platform = record {
  find_or_create_drama_asset = λ drama link w. (
    ok (record { delivery_drama_id = "a"; drama_name = drama; link = link; album_id = "" }),
    w + 1,
  );
  ensure_promotion_config = λ asset link_type link drama name w. (err (external "TIMEOUT"), w + 1);
  submit_plan = λ form w. (ok "", w);
  find_task_by_idempotency_key = λ key w. (ok none, w);
  poll_task_status = λ id w. (ok "", w);
  write_completion = λ key w. (ok tt, w);
  now = λ w. w;
  sleep = λ n w. w + n;
}

abbrev preparation : Preparation ℕ
preparation = record {
  prepare_task = λ task dry_run now ts w.
      (ok (record { status = "READY"; failure_code = none }), (task, (ts, w)));
  uuid4 = λ w. ("u", w + 1);
  utcnow = λ w. w;
}

abbrev task : DramaTask
task = record {
  drama_name = "d";
  platform = "TOMATO";
  available_time = 3;
  end_type = "NATIVE";
  id = "t";
  source_key = "";
  sheet_row = some 3;
  owner = none;
  status = TaskStatus.running;
  source_links = [];
  link_set = ("IAA", "x") ∷ [];
  link_status = "VALIDATED";
  current_stage = "";
  target_stage = "";
  delivery_drama_id = "a";
  promotion_configs = [];
  confirmed_drama_match = none;
}

abbrev state : DramaTask → ReadinessState ℕ
state row = record {
  task = row;
  tasks = row ∷ [];
  workflows = record { runs = []; steps = [] };
  world = 0;
}

abbrev failed : ReadinessState ℕ
failed = (execute platform preparation "LINK_READY" false 5 (state task)).1

failed_is :
    execute platform preparation "LINK_READY" false 5 (state task)
    ≡ (ok (outcome_of "MANUAL_REVIEW" (some "TIMEOUT")), failed)
unfolding execute Stage.validate ensure_links save Tasks.Repository.update ensure_delivery_drama
    update_where ensure_promotion_configs missing_of lookup start start_step add_workflow add_step
    primary_link create_configs fail_step put Tasks.Repository.get finish_step update_step
failed_is = refl

execute-Told_example :
    (Tasks.Repository.get failed.task.id failed.tasks ≡ some (to_domain failed.task))
    × (agrees (outcome_of "MANUAL_REVIEW" (some "TIMEOUT")) failed.task ≡ true)
execute-Told_example =
    execute-Told platform preparation "LINK_READY" false 5 (state task) failed
      (outcome_of "MANUAL_REVIEW" (some "TIMEOUT")) failed_is

execute-closed_example : All IsDone failed.workflows.steps
execute-closed_example =
    execute-closed platform preparation "LINK_READY" false 5 (state task) failed
      (outcome_of "MANUAL_REVIEW" (some "TIMEOUT")) tt failed_is

abbrev whole : DramaTask
whole = record task { promotion_configs = ("IAA", "c") ∷ [] }

execute-prepared_example :
    execute platform preparation Stage.link_ready false 5 (state whole)
    ≡ (ok (outcome_of Stage.link_ready none), wrote "t" (made_ready whole) (state whole))
unfolding missing_of lookup
execute-prepared_example =
    execute-prepared platform preparation (state whole) refl false 5 refl refl refl refl
