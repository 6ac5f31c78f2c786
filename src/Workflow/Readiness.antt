-- ===== src/Workflow/Readiness.antt =====
-- backend/src/backend/application/services/link_readiness_service.py: the stages of a run, which see
-- to the links of a task, its drama in the delivery system and its promotion contents.
pub mod Reported
pub mod Prepared
pub mod Closed
use automated_short_drama.Prelude.{
  ℕ, String, ◌==◌, Bool, true, false, not, ◌&&◌, Option, none, some, List, [], ◌∷◌, select,
  if◌then◌else◌, ltb, codes,
}
use automated_short_drama.Prelude.Dicts.{lookup, put}
use automated_short_drama.Errors.{
  Result, ok, err, DomainError, not_found, validation, drama_mismatch, value_error, integrity,
  multiple_results, conflict, configuration, external,
}
use automated_short_drama.Tasks
use automated_short_drama.Tasks.Task.{DramaTask, TaskStatus}
use automated_short_drama.Tasks.Repository.{TaskTable}
use automated_short_drama.Delivery.Flow.{
  Platform, DramaAsset, ensure_drama_asset, ensure_promotion_config, ◌>>>◌,
}
use automated_short_drama.Workflow.Stage
use automated_short_drama.Workflow.Steps.{
  StepRun, StepResult, found_links, found_drama, found_configs, Workflows, start_step, finish_step,
  fail_step,
}
use automated_short_drama.Workflow.State.{
  outcome_of, code_of, failure_or_status, is_empty, is_filled, link_or, primary_link, missing_of,
  has_links, asset_of, at_stage, in_review, written, save, recorded, called, prepared,
  conclude_ready, LinkReadinessOutcome, PreparationOutcome, Preparation, ReadinessState,
}

module _ {World : Type 0} (platform : Platform World) (preparation : Preparation World) where
  unfoldable pub start : String → ReadinessState World → Result StepRun × ReadinessState World
  start stage s =
      let first = preparation.uuid4 s.world in
      let second = preparation.uuid4 first.1 in
      recorded (record s { world = second.1 })
        (start_step first.0 second.0 (preparation.utcnow s.world) s.task.id stage s.workflows)

  abbrev pub finish :
      StepRun → StepResult → ReadinessState World → Result StepRun × ReadinessState World
  finish step result s =
      recorded s (finish_step (preparation.utcnow s.world) step result s.workflows)

  abbrev pub fail : StepRun → String → ReadinessState World → Result StepRun × ReadinessState World
  fail step code s = recorded s (fail_step (preparation.utcnow s.world) step code s.workflows)

  -- The end of a failure: the step fails, and the task goes to the review.
  abbrev pub fail_with :
      StepRun
      → String
      → String
      → ReadinessState World
      → Result LinkReadinessOutcome × ReadinessState World
  fail_with step stage code s = fail step code s >>> (λ failed t.
      save (in_review stage t) >>> (λ done u. (ok (outcome_of "MANUAL_REVIEW" (some code)), u)))

  -- _stage_failure
  abbrev pub stage_failure :
      StepRun
      → String
      → DomainError
      → ReadinessState World
      → Result LinkReadinessOutcome × ReadinessState World
  stage_failure step stage error s = fail_with step stage (code_of error) s

  -- `except Exception`
  abbrev pub caught {ℓ} :
      {Value : Type ℓ}
      → (LinkReadinessOutcome → Value)
      → StepRun
      → String
      → Result Value × ReadinessState World
      → Result Value × ReadinessState World
  caught failed_as step stage (ok value, s) = (ok value, s)
  caught failed_as step stage (err e, s) =
      stage_failure step stage e s >>> (λ outcome t. (ok (failed_as outcome), t))

  abbrev reloaded :
      StepRun
      → ReadinessState World
      → Option DramaTask
      → Result LinkReadinessOutcome × ReadinessState World
  reloaded step s none = (err value_error, s)
  reloaded step s (some row) =
      save (record s {
        task = record s.task {
          link_set = row.link_set;
          source_links = row.source_links;
          link_status = row.link_status;
          status = row.status;
          current_stage = Stage.link_extraction;
        };
      })
      >>> (λ done t.
          finish step (found_links t.task.link_set) t
          >>> (λ finished u. (ok (outcome_of "READY" none), u)))

  abbrev extract :
      Bool → ℕ → StepRun → ReadinessState World → Result LinkReadinessOutcome × ReadinessState World
  extract dry_run now step s =
      prepared s (preparation.prepare_task s.task dry_run now s.tasks s.world) >>> (λ outcome t.
        if outcome.status == "READY"
        then reloaded step t (Tasks.Repository.get t.task.id t.tasks)
        else fail_with step Stage.link_extraction
            (failure_or_status outcome.failure_code outcome.status) t)

  unfoldable pub ensure_links :
      Bool → ℕ → ReadinessState World → Result LinkReadinessOutcome × ReadinessState World
  ensure_links dry_run now s =
      if has_links s.task
      then save (at_stage Stage.link_extraction s) >>> (λ done t. (ok (outcome_of "READY" none), t))
      else start Stage.link_extraction s >>> (λ step t.
        caught (λ outcome. outcome) step Stage.link_extraction (extract dry_run now step t))

  abbrev find_drama :
      StepRun → ReadinessState World → Result (Option LinkReadinessOutcome) × ReadinessState World
  find_drama step s = (primary_link s.task.link_set, s) >>> (λ link t.
      called t (ensure_drama_asset platform (codes t.task.drama_name) (codes link) t.world)
      >>> (λ asset u.
          save (record u {
            task = record u.task {
              delivery_drama_id = asset.delivery_drama_id;
              current_stage = Stage.delivery_drama;
            };
          })
          >>> (λ done v.
              finish step (found_drama asset.delivery_drama_id asset.album_id) v
              >>> (λ finished x. (ok none, x)))))

  unfoldable pub ensure_delivery_drama :
      ReadinessState World → Result (Option LinkReadinessOutcome) × ReadinessState World
  ensure_delivery_drama s =
      if s.task.delivery_drama_id == ""
      then start Stage.delivery_drama s
        >>> (λ step t. caught some step Stage.delivery_drama (find_drama step t))
      else save (at_stage Stage.delivery_drama s) >>> (λ done t. (ok none, t))

  -- The loop over the links that have no promotion content: each one is written at once.
  unfoldable pub create_configs :
      DramaAsset
      → List (String × String)
      → ReadinessState World
      → Result {0} Unit × ReadinessState World
  create_configs asset [] s = (ok tt, s)
  create_configs asset ((link_type, link) ∷ links) s =
      called s (
        ensure_promotion_config platform asset link_type (codes link) (codes s.task.platform)
          s.world)
      >>> (λ id t.
          save (record t {
            task = record t.task { promotion_configs = put link_type id t.task.promotion_configs };
          })
          >>> (λ done u. create_configs asset links u))

  abbrev fill_configs :
      List (String × String)
      → DramaAsset
      → StepRun
      → ReadinessState World
      → Result (Option LinkReadinessOutcome) × ReadinessState World
  fill_configs missing asset step s = create_configs asset missing s >>> (λ created t.
      save (at_stage Stage.promotion_config t) >>> (λ done u.
        finish step (found_configs u.task.promotion_configs) u >>> (λ finished v. (ok none, v))))

  abbrev configs_for :
      List (String × String)
      → ReadinessState World
      → Result (Option LinkReadinessOutcome) × ReadinessState World
  configs_for [] s = save (at_stage Stage.promotion_config s) >>> (λ done t. (ok none, t))
  configs_for (link ∷ links) s = start Stage.promotion_config s >>> (λ step t.
      (primary_link t.task.link_set, t) >>> (λ primary u.
        caught some step Stage.promotion_config
          (fill_configs (link ∷ links) (asset_of u.task primary) step u)))

  unfoldable pub ensure_promotion_configs :
      ReadinessState World → Result (Option LinkReadinessOutcome) × ReadinessState World
  ensure_promotion_configs s = configs_for (missing_of s.task) s

  abbrev after_configs :
      Option LinkReadinessOutcome
      → ReadinessState World
      → Result LinkReadinessOutcome × ReadinessState World
  after_configs (some outcome) s = (ok outcome, s)
  after_configs none s = conclude_ready s

  abbrev after_drama :
      Option LinkReadinessOutcome
      → ReadinessState World
      → Result LinkReadinessOutcome × ReadinessState World
  after_drama (some outcome) s = (ok outcome, s)
  after_drama none s = ensure_promotion_configs s >>> after_configs

  abbrev after_links :
      String
      → LinkReadinessOutcome
      → ReadinessState World
      → Result LinkReadinessOutcome × ReadinessState World
  after_links target outcome s =
      if outcome.status == "MANUAL_REVIEW"
      then (ok outcome, s)
      else if target == Stage.link_extraction
      then save (record s { task = record s.task { status = TaskStatus.link_extracted } })
        >>> (λ done t. (ok (outcome_of "LINK_EXTRACTED" none), t))
      else if s.task.end_type == "MINIPROGRAM"
      then conclude_ready s
      else ensure_delivery_drama s >>> after_drama

  unfoldable pub execute :
      String → Bool → ℕ → ReadinessState World → Result LinkReadinessOutcome × ReadinessState World
  execute target_stage dry_run now s = (Stage.validate target_stage, s) >>> (λ target r.
      let t = record r { task = record r.task { target_stage = target } } in
      if ltb now t.task.available_time
      then save (at_stage Stage.waiting_available_time t)
        >>> (λ done u. (ok (outcome_of Stage.waiting_available_time none), u))
      else ensure_links dry_run now t >>> after_links target)
