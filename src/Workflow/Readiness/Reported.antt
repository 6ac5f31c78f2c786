-- ===== src/Workflow/Readiness/Reported.antt =====
-- What a run of the preparation reports is what the table of tasks says.
use mathlib.Core.Path.{subst}
use automated_short_drama.Prelude.{
  ℕ, String, ◌==◌, ◌≡◌, refl, sym, Bool, true, ◌&&◌, Option, none, some, List, [], ◌∷◌, any, find,
  if◌then◌else◌, Bool-cases, inl, inr, ltb, codes, arith, eq_iff,
}
use automated_short_drama.Prelude.Rows.{update_where}
use automated_short_drama.Errors.{Result, ok, err}
use automated_short_drama.Tasks
use automated_short_drama.Tasks.Task.{DramaTask, TaskStatus, status_eq}
use automated_short_drama.Tasks.Repository.{TaskTable, has_task_id, to_domain}
use automated_short_drama.Delivery.Flow.{Platform, ensure_drama_asset, ◌>>>◌}
use automated_short_drama.Workflow.Stage
use automated_short_drama.Workflow.Steps.{StepRun}
use automated_short_drama.Workflow.State.{
  LinkReadinessOutcome, Preparation, ReadinessState, save, has_links, missing_of, prepared, called,
  primary_link, asset_of, conclude_ready, outcome_of,
}
use automated_short_drama.Workflow.Readiness.{
  stage_failure, fail_with, fail, caught, start, extract, ensure_links, find_drama,
  ensure_delivery_drama, reloaded, finish, create_configs, fill_configs, configs_for,
  ensure_promotion_configs, after_configs, after_drama, after_links, execute,
}
use automated_short_drama.Workflow.Ends.{
  Holds, Holds->>>, Holds-then, Holds-if, Holds-weaken, Holds-eq-ok,
}

-- What a run may report, with the status and the stage that the task then has.
abbrev pub agrees : LinkReadinessOutcome → DramaTask → Bool
agrees outcome task =
    if outcome.status == "MANUAL_REVIEW"
    then status_eq task.status TaskStatus.manual_review
    else if outcome.status == "LINK_EXTRACTED"
    then status_eq task.status TaskStatus.link_extracted
    else if outcome.status == Stage.link_ready
    then status_eq task.status TaskStatus.link_ready && task.current_stage == Stage.link_ready
    else outcome.status == Stage.waiting_available_time
      && task.current_stage == Stage.waiting_available_time

find-update_where :
    (task : DramaTask) (ts : TaskTable)
    → any (has_task_id task.id) ts ≡ true
    → find (has_task_id task.id) (update_where (has_task_id task.id) (λ _. task) ts) ≡ some task
unfolding update_where
find-update_where task [] h = cc
find-update_where task (t ∷ ts) h =
    ground (arith, eq_iff t.id task.id, eq_iff task.id task.id, find-update_where task ts)

get-update_where :
    (task : DramaTask) (ts : TaskTable)
    → any (has_task_id task.id) ts ≡ true
    → Tasks.Repository.get task.id (update_where (has_task_id task.id) (λ _. task) ts)
      ≡ some (to_domain task)
unfolding Tasks.Repository.get
get-update_where task ts h =
    subst
      (λ (o : Option DramaTask).
        elim o [ none ↦ none | some r ↦ some (to_domain r) ] ≡ some (to_domain task))
      (sym (find-update_where task ts h)) refl

module _ {World : Type 0} where
  abbrev Saved : ReadinessState World → Type 0
  Saved s = Tasks.Repository.get s.task.id s.tasks ≡ some (to_domain s.task)

  abbrev Told : LinkReadinessOutcome → ReadinessState World → Type 0
  Told outcome s = Saved s × (agrees outcome s.task ≡ true)

  save-Told :
      (outcome : LinkReadinessOutcome) (s : ReadinessState World)
      → agrees outcome s.task ≡ true
      → Holds Told (save s >>> (λ done t. (ok outcome, t)))
  unfolding save Tasks.Repository.update
  save-Told outcome s h = elim (Bool-cases (any (has_task_id s.task.id) s.tasks)) [
    | inl e ↦ rw e (get-update_where s.task s.tasks e, h)
    | inr n ↦ rw n tt
  ]

  -- A stage that failed: the task of its outcome is in the table.
  abbrev Failed : Option LinkReadinessOutcome → ReadinessState World → Type 0
  Failed none s = Unit
  Failed (some outcome) s = Told outcome s

  -- A stage that answered READY has no outcome yet.
  abbrev Linked : LinkReadinessOutcome → ReadinessState World → Type 0
  Linked outcome s = (outcome.status == "MANUAL_REVIEW") ≡ true → Told outcome s

  module _ (platform : Platform World) (preparation : Preparation World) where
    fail_with-Told :
        (step : StepRun) (stage code : String) (s : ReadinessState World)
        → Holds Told (fail_with platform preparation step stage code s)
    fail_with-Told step stage code s =
        Holds->>> Told (fail platform preparation step code s) _
          (λ failed t. save-Told (outcome_of "MANUAL_REVIEW" (some code)) _ refl)

    caught-Holds {ℓ} :
        {Value : Type ℓ} (P : Value → ReadinessState World → Type 0)
        (failed_as : LinkReadinessOutcome → Value) (step : StepRun) (stage : String)
        (r : Result Value × ReadinessState World)
        → ((outcome : LinkReadinessOutcome) (t : ReadinessState World)
            → Told outcome t
            → P (failed_as outcome) t)
        → Holds P r
        → Holds P (caught platform preparation failed_as step stage r)
    caught-Holds P failed_as step stage (ok value, s) h k = k
    caught-Holds P failed_as step stage (err e, s) h k =
        Holds-then Told P (stage_failure platform preparation step stage e s) _
          (fail_with-Told step stage _ s) h

    reloaded-Linked :
        (step : StepRun) (s : ReadinessState World) (row : Option DramaTask)
        → Holds Linked (reloaded platform preparation step s row)
    reloaded-Linked step s none = tt
    reloaded-Linked step s (some row) =
        Holds->>> Linked (save _) _
          (λ done t. Holds->>> Linked (finish platform preparation step _ t) _ (λ finished u h. cc))

    extract-Linked :
        (dry_run : Bool) (now : ℕ) (step : StepRun) (s : ReadinessState World)
        → Holds Linked (extract platform preparation dry_run now step s)
    extract-Linked dry_run now step s =
        Holds->>> Linked (prepared s (preparation.prepare_task s.task dry_run now s.tasks s.world))
          _
          (λ outcome t.
            Holds-if Linked (outcome.status == "READY") _ _
              (λ e. reloaded-Linked step t (Tasks.Repository.get t.task.id t.tasks))
              (λ e.
                Holds-weaken Told Linked
                  (fail_with platform preparation step Stage.link_extraction _ t) (λ o u h k. h)
                  (fail_with-Told step Stage.link_extraction _ t)))

    ensure_links-Linked :
        (dry_run : Bool) (now : ℕ) (s : ReadinessState World)
        → Holds Linked (ensure_links platform preparation dry_run now s)
    unfolding ensure_links
    ensure_links-Linked dry_run now s =
        Holds-if Linked (has_links s.task) _ _ (λ e. Holds->>> Linked (save _) _ (λ done t h. cc))
          (λ e. Holds->>> Linked (start platform preparation Stage.link_extraction s) _ (λ step t.
            caught-Holds Linked (λ outcome. outcome) step Stage.link_extraction
              (extract platform preparation dry_run now step t) (λ outcome u h k. h)
              (extract-Linked dry_run now step t)))

    ensure_delivery_drama-Failed :
        (s : ReadinessState World) → Holds Failed (ensure_delivery_drama platform preparation s)
    unfolding ensure_delivery_drama
    ensure_delivery_drama-Failed s =
        Holds-if Failed (s.task.delivery_drama_id == "") _ _
          (λ e. Holds->>> Failed (start platform preparation Stage.delivery_drama s) _ (λ step t.
            caught-Holds Failed some step Stage.delivery_drama
              (find_drama platform preparation step t) (λ outcome u h. h)
              (Holds->>> Failed (primary_link t.task.link_set, t) _
                (λ link u.
                  Holds->>> Failed
                    (called u
                      (ensure_drama_asset platform (codes u.task.drama_name) (codes link) u.world))
                    _
                    (λ asset v. Holds->>> Failed (save _) _ (λ done x.
                      Holds->>> Failed (finish platform preparation step _ x) _
                        (λ finished y. tt)))))))
          (λ e. Holds->>> Failed (save _) _ (λ done t. tt))

    configs_for-Failed :
        (missing : List (String × String)) (s : ReadinessState World)
        → Holds Failed (configs_for platform preparation missing s)
    configs_for-Failed [] s = Holds->>> Failed (save _) _ (λ done t. tt)
    configs_for-Failed (link ∷ links) s =
        Holds->>> Failed (start platform preparation Stage.promotion_config s) _ (λ step t.
          Holds->>> Failed (primary_link t.task.link_set, t) _
            (λ primary u.
              caught-Holds Failed some step Stage.promotion_config
                (fill_configs platform preparation (link ∷ links) (asset_of u.task primary) step u)
                (λ outcome v h. h)
                (Holds->>> Failed
                  (create_configs platform preparation (asset_of u.task primary) (link ∷ links) u) _
                  (λ created v. Holds->>> Failed (save _) _ (λ done x.
                    Holds->>> Failed (finish platform preparation step _ x) _
                      (λ finished y. tt))))))

    conclude_ready-Told : (s : ReadinessState World) → Holds Told (conclude_ready s)
    conclude_ready-Told s = save-Told (outcome_of Stage.link_ready none) _ refl

    after_configs-Told :
        (failed : Option LinkReadinessOutcome) (s : ReadinessState World)
        → Failed failed s
        → Holds Told (after_configs platform preparation failed s)
    after_configs-Told (some outcome) s h = h
    after_configs-Told none s h = conclude_ready-Told s

    after_drama-Told :
        (failed : Option LinkReadinessOutcome) (s : ReadinessState World)
        → Failed failed s
        → Holds Told (after_drama platform preparation failed s)
    unfolding ensure_promotion_configs
    after_drama-Told (some outcome) s h = h
    after_drama-Told none s h =
        Holds-then Failed Told (ensure_promotion_configs platform preparation s) _
          (configs_for-Failed (missing_of s.task) s) after_configs-Told

    after_links-Told :
        (target : String) (outcome : LinkReadinessOutcome) (s : ReadinessState World)
        → Linked outcome s
        → Holds Told (after_links platform preparation target outcome s)
    after_links-Told target outcome s h =
        Holds-if Told (outcome.status == "MANUAL_REVIEW") _ _ h (λ e.
          Holds-if Told (target == Stage.link_extraction) _ _
            (λ e. save-Told (outcome_of "LINK_EXTRACTED" none) _ refl)
            (λ e.
              Holds-if Told (s.task.end_type == "MINIPROGRAM") _ _ (λ e. conclude_ready-Told s)
                (λ e.
                  Holds-then Failed Told (ensure_delivery_drama platform preparation s) _
                    (ensure_delivery_drama-Failed s) after_drama-Told)))

    -- If a run of the preparation returns an outcome, then the row of the task is the task that the
    -- run leaves, as the repository reads it, and its status is the outcome's: MANUAL_REVIEW,
    -- LINK_EXTRACTED, LINK_READY with that stage, or else the outcome is WAITING_AVAILABLE_TIME and
    -- that is the task's stage. No other outcome is returned.
    pub execute-Told :
        (target : String) (dry_run : Bool) (now : ℕ) (s t : ReadinessState World)
        (outcome : LinkReadinessOutcome)
        → execute platform preparation target dry_run now s ≡ (ok outcome, t)
        → (Tasks.Repository.get t.task.id t.tasks ≡ some (to_domain t.task))
          × (agrees outcome t.task ≡ true)
    unfolding execute
    execute-Told target dry_run now s t outcome e =
        Holds-eq-ok Told (execute platform preparation target dry_run now s) outcome t
          (Holds->>> Told (Stage.validate target, s) _
            (λ valid r.
              Holds-if Told (ltb now r.task.available_time) _ _
                (λ e. save-Told (outcome_of Stage.waiting_available_time none) _ refl)
                (λ e.
                  Holds-then Linked Told (ensure_links platform preparation dry_run now _) _
                    (ensure_links-Linked dry_run now _) (after_links-Told valid))))
          e
