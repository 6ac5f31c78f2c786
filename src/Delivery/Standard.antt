-- ===== src/Delivery/Standard.antt =====
-- backend/src/backend/application/services/standard_delivery_service.py: a plan is validated,
-- admitted, submitted, polled and entered in the ledger. The texts of a plan become strings by the
-- parameter `to_string`; the ids and times that the code makes are arguments.
pub mod Completed
pub mod Failed
pub mod Retry
pub mod Unique
use automated_short_drama.Prelude.{
  ℕ, zero, suc, String, ◌==◌, Bool, true, false, Option, none, some, List, [], ◌∷◌, if◌then◌else◌,
  ltb, map,
}
use automated_short_drama.Errors.{Result, ok, err, DomainError, external, not_found, value_error}
use automated_short_drama.Tasks
use automated_short_drama.Tasks.Task.{DramaTask}
use automated_short_drama.Tasks.Ledger.{TaskLedger, Ledgers}
use automated_short_drama.Tasks.Repository.{TaskTable}
use automated_short_drama.Plans.Spec.{DatetimeLibrary, Config, PlanSpec}
use automated_short_drama.Plans.Form.{DeliveryFormSpec, build_delivery_form_spec}
use automated_short_drama.Plans.Validation.{ValidationIssue, ValidationReport, validate}
use automated_short_drama.Delivery.Flow.{
  Platform, DramaAsset, CompletionKey, sheet_row, task, BlockReason, can_submit, ◌>>>◌,
  ensure_drama_asset, ensure_promotion_config, submit_plan, poll_times, poll_until_completed,
}

pub data DeliveryStatus : Type 0 where
  validation_failed dry_run completed manual_review : DeliveryStatus

pub data DeliveryIssue : Type 0 where
  found : ValidationIssue → DeliveryIssue
  submit_blocked : BlockReason → DeliveryIssue
  delivery_form_invalid : DeliveryIssue

pub record DeliveryOutcome : Type 0 where
  pub status : DeliveryStatus
  pub external_task_id : Option String
  pub issues : List DeliveryIssue
  pub ledger_id : Option String
  pub failure_code : Option String
  pub retry_safe : Bool

-- What the service is constructed with; `on_poll_wait` may be None.
pub record DeliverySettings (World : Type 0) : Type 0 where
  pub allow_final_submit : Bool
  pub use_real_adapters : Bool
  pub poll_interval_seconds : ℕ
  pub poll_timeout_seconds : ℕ
  pub on_poll_wait : Option (World → Result {0} Unit × World)

-- The tables, and the systems outside.
pub record DeliveryState (World : Type 0) : Type 0 where
  pub tasks : TaskTable
  pub ledgers : Ledgers
  pub world : World

-- What the submission came to: the task on the platform, or a result that stays uncertain.
pub data Submission : Type 0 where
  on_platform : String → Submission
  uncertain : Submission

abbrev pub refused : DeliveryStatus → List DeliveryIssue → DeliveryOutcome
refused status issues = record {
  status = status;
  external_task_id = none;
  issues = issues;
  ledger_id = none;
  failure_code = none;
  retry_safe = false;
}

abbrev pub review : Option String → Option String → Option String → Bool → DeliveryOutcome
review external_task_id ledger_id failure_code retry_safe = record {
  status = manual_review;
  external_task_id = external_task_id;
  issues = [];
  ledger_id = ledger_id;
  failure_code = failure_code;
  retry_safe = retry_safe;
}

-- `except ExternalAdapterError` and `except Exception`.
abbrev code_of : DomainError → Option String
code_of (external code) = some code
code_of _ = none

abbrev pub is_result_uncertain : DomainError → Bool
is_result_uncertain (external code) = code == "RESULT_UNCERTAIN"
is_result_uncertain _ = false

abbrev pub failed_with : Option String → DomainError → DeliveryOutcome
failed_with id e = review id none (code_of e) false

abbrev pub submission_of : Option String → Submission
submission_of none = uncertain
submission_of (some id) = on_platform id

-- next(iter(links.values()))
abbrev pub first_link : List (String × List ℕ) → Result (List ℕ)
first_link [] = err value_error
first_link ((t, link) ∷ links) = ok link

abbrev pub completion_key : Option ℕ → String → CompletionKey
completion_key none id = task id
completion_key (some row) id = sheet_row row

module _ {World : Type 0} (platform : Platform World) (settings : DeliverySettings World) where
  unfoldable pub create_configs :
      DramaAsset → List (String × List ℕ) → List ℕ → World → Result {0} Unit × World
  create_configs asset [] platform_name w = (ok tt, w)
  create_configs asset ((link_type, link) ∷ links) platform_name w =
      ensure_promotion_config platform asset link_type link platform_name w
      >>> (λ id after. create_configs asset links platform_name after)

  -- The submission that was answered so: after an uncertain one the task is looked for.
  abbrev pub after_submit : List ℕ → Result String × World → Result Submission × World
  after_submit task_name (ok id, w) = (ok (on_platform id), w)
  after_submit task_name (err e, w) =
      if is_result_uncertain e
      then platform.find_task_by_idempotency_key task_name w
        >>> (λ id after. (ok (submission_of id), after))
      else (err e, w)

  unfoldable pub submit : PlanSpec → DeliveryFormSpec → World → Result Submission × World
  submit plan form w =
      (first_link plan.link_set, w)
      >>> (λ link w. ensure_drama_asset platform plan.drama_name link w)
      >>> (λ asset w. create_configs asset plan.link_set plan.platform w)
      >>> (λ done w. after_submit plan.task_name (submit_plan platform form w))

  -- A polling that ran out of fuel, which none does, stands as an error.
  abbrev polled : Option (Result String) × World → Result String × World
  polled (none, w) = (err value_error, w)
  polled (some r, w) = (r, w)

  unfoldable pub poll : String → World → Result String × World
  poll id w =
      if ltb 0 settings.poll_interval_seconds
      then polled (
          poll_until_completed platform settings.on_poll_wait settings.poll_interval_seconds 30
            settings.poll_timeout_seconds id w)
      else poll_times platform 24 id w

  module _ (to_string : List ℕ → String) (ledger_id task_id : String) (now : ℕ)
      (plan : PlanSpec) where
    abbrev pub new_ledger : DramaTask → String → TaskLedger
    new_ledger t external_task_id = record {
      task_id = task_id;
      drama_name = t.drama_name;
      platform = t.platform;
      album_id = "";
      product_id = "";
      external_task_id = external_task_id;
      task_name = to_string plan.task_name;
      final_status = "COMPLETED";
      rule_version = elim plan.rule_version [ none ↦ "" | some v ↦ to_string v ];
      config_version = "";
      completed_at = some now;
      id = ledger_id;
    }

    abbrev pub demoted : TaskLedger → TaskLedger
    demoted saved = record saved { final_status = "FAILED" }

    -- After the ledger was marked as failed, since the mark in the sheet was not.
    abbrev pub after_demotion :
        String
        → TaskLedger
        → DeliveryState World
        → Result (TaskLedger × Ledgers)
        → Result DeliveryOutcome × DeliveryState World
    after_demotion id saved s (err e) = (err e, s)
    after_demotion id saved s (ok updated) =
        (ok (review (some id) (some saved.id) none false), record s { ledgers = updated.1 })

    -- After `write_completion`, with the ledger that was saved.
    abbrev pub after_mark :
        String
        → TaskLedger
        → DeliveryState World
        → Result {0} Unit × World
        → Result DeliveryOutcome × DeliveryState World
    after_mark id saved s (err e, w) =
        after_demotion id saved (record s { world = w })
          (Tasks.Ledger.update (demoted saved) s.ledgers)
    after_mark id saved s (ok done, w) = (
      ok (record {
        status = completed;
        external_task_id = some id;
        issues = [];
        ledger_id = some saved.id;
        failure_code = none;
        retry_safe = false;
      }),
      record s { world = w },
    )

    abbrev pub with_ledger :
        DramaTask
        → String
        → DeliveryState World
        → Result (TaskLedger × Ledgers)
        → Result DeliveryOutcome × DeliveryState World
    with_ledger t id s (err e) = (err e, s)
    with_ledger t id s (ok saved) =
        after_mark id saved.0 (record s { ledgers = saved.1 })
          (platform.write_completion (completion_key t.sheet_row task_id) s.world)

    abbrev pub with_task :
        String
        → DeliveryState World
        → Option DramaTask
        → Result DeliveryOutcome × DeliveryState World
    with_task id s none = (err not_found, s)
    with_task id s (some t) = with_ledger t id s (Tasks.Ledger.add (new_ledger t id) s.ledgers)

    unfoldable pub finalize_completed :
        String → DeliveryState World → Result DeliveryOutcome × DeliveryState World
    finalize_completed id s = with_task id s (Tasks.Repository.get task_id s.tasks)

    abbrev pub settle_final :
        String
        → Result DeliveryOutcome × DeliveryState World
        → DeliveryOutcome × DeliveryState World
    settle_final id (err e, s) = (failed_with (some id) e, s)
    settle_final id (ok outcome, s) = (outcome, s)

    abbrev pub settle_poll :
        String → DeliveryState World → Result String × World → DeliveryOutcome × DeliveryState World
    settle_poll id s (err e, w) = (failed_with (some id) e, record s { world = w })
    settle_poll id s (ok status, w) =
        if status == "COMPLETED"
        then settle_final id (finalize_completed id (record s { world = w }))
        else (review (some id) none none false, record s { world = w })

    abbrev pub settle :
        DeliveryState World → Result Submission × World → DeliveryOutcome × DeliveryState World
    settle s (err e, w) = (failed_with none e, record s { world = w })
    settle s (ok uncertain, w) =
        (review none none (some "RESULT_UNCERTAIN") true, record s { world = w })
    settle s (ok (on_platform id), w) = settle_poll id s (poll id w)

    module _ (lib : DatetimeLibrary) (validated_at : ℕ) (cid_configs : List Config) where
      abbrev pub with_form :
          DeliveryState World → Result DeliveryFormSpec → DeliveryOutcome × DeliveryState World
      with_form s (err e) = (refused validation_failed (delivery_form_invalid ∷ []), s)
      with_form s (ok form) = settle s (submit plan form s.world)

      abbrev pub with_decision :
          DeliveryState World → Option BlockReason → DeliveryOutcome × DeliveryState World
      with_decision s (some reason) = (refused dry_run (submit_blocked reason ∷ []), s)
      with_decision s none = with_form s (build_delivery_form_spec lib plan cid_configs)

      abbrev pub with_report :
          DeliveryState World → Bool → List ValidationIssue → DeliveryOutcome × DeliveryState World
      with_report s false issues = (refused validation_failed (map found issues), s)
      with_report s true issues =
          with_decision s (can_submit settings.allow_final_submit settings.use_real_adapters)

      unfoldable pub execute : DeliveryState World → DeliveryOutcome × DeliveryState World
      execute s =
          let report = validate lib validated_at cid_configs plan in
          with_report s report.passed report.issues
