-- ===== src/Workflow/Readiness/Closed/Stages.antt =====
-- The steps of each stage are done at its end.
use mathlib.Core.Path.{subst}
use automated_short_drama.Prelude.{
  ℕ, String, ◌==◌, ◌≡◌, Bool, Option, none, some, List, [], ◌∷◌, All, ltb, codes,
}
use automated_short_drama.Errors.{Result, ok}
use automated_short_drama.Tasks
use automated_short_drama.Tasks.Task.{DramaTask}
use automated_short_drama.Tasks.Repository.{TaskTable}
use automated_short_drama.Delivery.Flow.{
  Platform, DramaAsset, ensure_drama_asset, ensure_promotion_config, ◌>>>◌,
}
use automated_short_drama.Workflow.Stage
use automated_short_drama.Workflow.Steps.{found_links, found_drama, found_configs, StepRun}
use automated_short_drama.Workflow.State.{
  outcome_of, LinkReadinessOutcome, Preparation, ReadinessState, save, has_links, missing_of,
  prepared, called, primary_link, asset_of,
}
use automated_short_drama.Workflow.Readiness.{
  start, extract, ensure_links, find_drama, ensure_delivery_drama, reloaded, create_configs,
  fill_configs, configs_for, ensure_promotion_configs, after_configs, after_drama, after_links,
  execute,
}
use automated_short_drama.Workflow.Ends.{Ends->>>, Ends-if}
use automated_short_drama.Workflow.Readiness.Closed.{
  IsDone, IsOpen, IsOpenFor, IsClosed, Kept, Tried, Returned, save-Ends, start_step-IsOpen,
  called-Kept, prepared-Kept, pure-Ends, saved-Returned, fail_with-Tried, caught-Returned,
  saved_finish-Tried,
}

module _ {World : Type 0} where
  module _ (platform : Platform World) (preparation : Preparation World) where
    reloaded-Tried :
        (step : StepRun) (s : ReadinessState World) (row : Option DramaTask)
        → IsOpenFor step.id s
        → Tried step.id (reloaded platform preparation step s row)
    reloaded-Tried step s none h = h
    reloaded-Tried step s (some row) h =
        saved_finish-Tried platform preparation step (λ t. found_links t.task.link_set) _
          (outcome_of "READY" none) h

    extract-Tried :
        (dry_run : Bool) (now : ℕ) (step : StepRun) (s : ReadinessState World)
        → IsOpenFor step.id s
        → Tried step.id (extract platform preparation dry_run now step s)
    extract-Tried dry_run now step s h =
        Ends->>> (IsOpenFor step.id) (λ outcome t. IsOpenFor step.id t) (λ outcome t. IsClosed t)
          (prepared s (preparation.prepare_task s.task dry_run now s.tasks s.world)) _
          (prepared-Kept step.id s (preparation.prepare_task s.task dry_run now s.tasks s.world) h)
          (λ outcome t k.
            Ends-if (IsOpenFor step.id) (λ outcome u. IsClosed u) (outcome.status == "READY") _ _
              (reloaded-Tried step t (Tasks.Repository.get t.task.id t.tasks) k)
              (fail_with-Tried platform preparation step Stage.link_extraction _ t k))

    -- A stage that records a step.
    started-Returned {ℓ} :
        {Value : Type ℓ} (stage : String) (s : ReadinessState World)
        (next : StepRun → ReadinessState World → Result Value × ReadinessState World)
        → IsClosed s
        → ((step : StepRun) (t : ReadinessState World)
            → IsOpenFor step.id t
            → Returned (next step t))
        → Returned (start platform preparation stage s >>> next)
    unfolding start
    started-Returned stage s next h k =
        Ends->>> (λ t. Unit) (λ step t. IsOpenFor step.id t) (λ value t. IsClosed t)
          (start platform preparation stage s) next (start_step-IsOpen _ _ _ _ stage _ h) k

    ensure_links-Returned :
        (dry_run : Bool) (now : ℕ) (s : ReadinessState World)
        → IsClosed s
        → Returned (ensure_links platform preparation dry_run now s)
    unfolding ensure_links
    ensure_links-Returned dry_run now s h =
        Ends-if (λ t. Unit) (λ outcome t. IsClosed t) (has_links s.task) _ _
          (saved-Returned _ (outcome_of "READY" none) h)
          (started-Returned Stage.link_extraction s _ h (λ step t k.
            caught-Returned platform preparation (λ outcome. outcome) step Stage.link_extraction
              (extract platform preparation dry_run now step t)
              (extract-Tried dry_run now step t k)))

    find_drama-Tried :
        (step : StepRun) (s : ReadinessState World)
        → IsOpenFor step.id s
        → Tried step.id (find_drama platform preparation step s)
    find_drama-Tried step s h =
        Ends->>> (IsOpenFor step.id) (λ link t. IsOpenFor step.id t) (λ failed t. IsClosed t)
          (primary_link s.task.link_set, s) _
          (pure-Ends (IsOpenFor step.id) (IsOpenFor step.id) s (primary_link s.task.link_set) h h)
          (λ link t k.
            Ends->>> (IsOpenFor step.id) (λ asset u. IsOpenFor step.id u) (λ failed u. IsClosed u)
              (called t
                (ensure_drama_asset platform (codes t.task.drama_name) (codes link) t.world))
              _
              (called-Kept step.id t
                (ensure_drama_asset platform (codes t.task.drama_name) (codes link) t.world) k)
              (λ asset u m.
                saved_finish-Tried platform preparation step
                  (λ v. found_drama asset.delivery_drama_id asset.album_id) _ none m))

    ensure_delivery_drama-Returned :
        (s : ReadinessState World)
        → IsClosed s
        → Returned (ensure_delivery_drama platform preparation s)
    unfolding ensure_delivery_drama
    ensure_delivery_drama-Returned s h =
        Ends-if (λ t. Unit) (λ failed t. IsClosed t) (s.task.delivery_drama_id == "") _ _
          (started-Returned Stage.delivery_drama s _ h (λ step t k.
            caught-Returned platform preparation some step Stage.delivery_drama
              (find_drama platform preparation step t) (find_drama-Tried step t k)))
          (saved-Returned _ none h)

    create_configs-Kept :
        (id : String) (asset : DramaAsset) (links : List (String × String))
        (s : ReadinessState World)
        → IsOpenFor id s
        → Kept id (create_configs platform preparation asset links s)
    unfolding create_configs
    create_configs-Kept id asset [] s h = h
    create_configs-Kept id asset ((link_type, link) ∷ links) s h =
        Ends->>> (IsOpenFor id) (λ config t. IsOpenFor id t) (λ done t. IsOpenFor id t)
          (called s (
            ensure_promotion_config platform asset link_type (codes link) (codes s.task.platform)
              s.world))
          _
          (called-Kept id s
            (ensure_promotion_config platform asset link_type (codes link) (codes s.task.platform)
              s.world)
            h)
          (λ config t k.
            Ends->>> (IsOpenFor id) (λ done u. IsOpenFor id u) (λ done u. IsOpenFor id u) (save _) _
              (save-Ends (All (IsOpen id)) _ k)
              (λ done u m. create_configs-Kept id asset links u m))

    configs_for-Returned :
        (missing : List (String × String)) (s : ReadinessState World)
        → IsClosed s
        → Returned (configs_for platform preparation missing s)
    configs_for-Returned [] s h = saved-Returned _ none h
    configs_for-Returned (link ∷ links) s h =
        started-Returned Stage.promotion_config s _ h (λ step t k.
          Ends->>> (λ u. Unit) (λ primary u. IsOpenFor step.id u) (λ failed u. IsClosed u)
            (primary_link t.task.link_set, t) _
            (pure-Ends (λ u. Unit) (IsOpenFor step.id) t (primary_link t.task.link_set) tt k)
            (λ primary u m.
              caught-Returned platform preparation some step Stage.promotion_config
                (fill_configs platform preparation (link ∷ links) (asset_of u.task primary) step u)
                (Ends->>> (IsOpenFor step.id) (λ created v. IsOpenFor step.id v)
                  (λ failed v. IsClosed v)
                  (create_configs platform preparation (asset_of u.task primary) (link ∷ links) u) _
                  (create_configs-Kept step.id (asset_of u.task primary) (link ∷ links) u m)
                  (λ created v n.
                    saved_finish-Tried platform preparation step
                      (λ x. found_configs x.task.promotion_configs) _ none n))))

    after_configs-Returned :
        (failed : Option LinkReadinessOutcome) (s : ReadinessState World)
        → IsClosed s
        → Returned (after_configs platform preparation failed s)
    after_configs-Returned (some outcome) s h = h
    after_configs-Returned none s h = saved-Returned _ (outcome_of Stage.link_ready none) h

    after_drama-Returned :
        (failed : Option LinkReadinessOutcome) (s : ReadinessState World)
        → IsClosed s
        → Returned (after_drama platform preparation failed s)
    unfolding ensure_promotion_configs
    after_drama-Returned (some outcome) s h = h
    after_drama-Returned none s h =
        Ends->>> (λ t. Unit) (λ failed t. IsClosed t) (λ outcome t. IsClosed t)
          (ensure_promotion_configs platform preparation s) _
          (configs_for-Returned (missing_of s.task) s h) after_configs-Returned

    after_links-Returned :
        (target : String) (outcome : LinkReadinessOutcome) (s : ReadinessState World)
        → IsClosed s
        → Returned (after_links platform preparation target outcome s)
    after_links-Returned target outcome s h =
        Ends-if (λ t. Unit) (λ outcome t. IsClosed t) (outcome.status == "MANUAL_REVIEW") _ _ h
          (Ends-if (λ t. Unit) (λ outcome t. IsClosed t) (target == Stage.link_extraction) _ _
            (saved-Returned _ (outcome_of "LINK_EXTRACTED" none) h)
            (Ends-if (λ t. Unit) (λ outcome t. IsClosed t) (s.task.end_type == "MINIPROGRAM") _ _
              (saved-Returned _ (outcome_of Stage.link_ready none) h)
              (Ends->>> (λ t. Unit) (λ failed t. IsClosed t) (λ outcome t. IsClosed t)
                (ensure_delivery_drama platform preparation s) _
                (ensure_delivery_drama-Returned s h) after_drama-Returned)))

    -- If no step was running, and a run of the preparation returns an outcome, then no step is
    -- running: whatever failed in a stage, its step was finished or failed.
    pub execute-closed :
        (target : String) (dry_run : Bool) (now : ℕ) (s t : ReadinessState World)
        (outcome : LinkReadinessOutcome)
        → All IsDone s.workflows.steps
        → execute platform preparation target dry_run now s ≡ (ok outcome, t)
        → All IsDone t.workflows.steps
    unfolding execute
    execute-closed target dry_run now s t outcome h e = subst Returned e (
        Ends->>> (λ r. Unit) (λ valid r. IsClosed r) (λ outcome r. IsClosed r)
          (Stage.validate target, s) _
          (pure-Ends (λ r. Unit) IsClosed s (Stage.validate target) tt h)
          (λ valid r k.
            Ends-if (λ u. Unit) (λ outcome u. IsClosed u) (ltb now r.task.available_time) _ _
              (saved-Returned _ (outcome_of Stage.waiting_available_time none) k)
              (Ends->>> (λ u. Unit) (λ outcome u. IsClosed u) (λ outcome u. IsClosed u)
                (ensure_links platform preparation dry_run now _) _
                (ensure_links-Returned dry_run now _ k) (after_links-Returned valid))))
