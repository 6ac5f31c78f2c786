-- ===== src/Workflow/Readiness/Closed.antt =====
-- The steps that a run of the preparation records, and the runs that it opens for them.
pub mod Stages
use mathlib.Core.Path.{subst}
use automated_short_drama.Prelude.{
  ℕ, String, ◌==◌, ◌≡◌, refl, Bool, true, false, ◌||◌, Option, none, some, List, [], ◌∷◌, ◌++◌, All,
  All-append, any, if◌then◌else◌, Bool-cases, inl, inr, ltb, codes, arith, eq_iff,
}
use automated_short_drama.Prelude.Rows.{update_where}
use automated_short_drama.Errors.{Result, ok, err, DomainError}
use automated_short_drama.Tasks
use automated_short_drama.Tasks.Task.{DramaTask}
use automated_short_drama.Tasks.Repository.{TaskTable}
use automated_short_drama.Delivery.Flow.{
  Platform, DramaAsset, ensure_drama_asset, ensure_promotion_config, ◌>>>◌,
}
use automated_short_drama.Workflow.Stage
use automated_short_drama.Workflow.Steps.{
  found_links, found_drama, found_configs, StepStatus, StepRun, StepResult, Workflows, is_run,
  is_step, start_step, finish_step, fail_step, add_workflow, add_step, update_step,
}
use automated_short_drama.Workflow.State.{
  outcome_of, LinkReadinessOutcome, PreparationOutcome, Preparation, ReadinessState, save,
  has_links, missing_of, prepared, written, called, recorded, primary_link, asset_of,
  conclude_ready,
}
use automated_short_drama.Workflow.Readiness.{
  stage_failure, fail_with, fail, caught, start, extract, ensure_links, find_drama,
  ensure_delivery_drama, reloaded, finish, create_configs, fill_configs, configs_for,
  ensure_promotion_configs, after_configs, after_drama, after_links, execute,
}
use automated_short_drama.Workflow.Ends.{Ends, Ends->>>, Ends-if}

abbrev pub is_running : StepStatus → Bool
is_running StepStatus.running = true
is_running _ = false

abbrev pub IsDone : StepRun → Type 0
IsDone step = is_running step.status ≡ false

-- Only the steps of this id may be running.
abbrev pub IsOpen : String → StepRun → Type 0
IsOpen id step = is_running step.status ≡ true → step.id ≡ id

All-IsOpen : (id : String) (xs : List StepRun) → All IsDone xs → All (IsOpen id) xs
All-IsOpen id [] h = tt
All-IsOpen id (x ∷ xs) h = ((λ e. cc), All-IsOpen id xs h.1)

close-IsDone :
    (id : String) (u x : StepRun) → IsDone u → IsOpen id x → IsDone (if x.id == id then u else x)
close-IsDone id u x h k = elim (Bool-cases (is_running x.status)) [
  | inl e ↦ ground (arith, eq_iff x.id id, k e)
  | inr e ↦ ground arith
]

update_where-IsDone :
    (id : String) (u : StepRun) (xs : List StepRun)
    → IsDone u
    → All (IsOpen id) xs
    → All IsDone (update_where (is_step id) (λ _. u) xs)
unfolding update_where
update_where-IsDone id u [] h k = tt
update_where-IsDone id u (x ∷ xs) h k =
    (close-IsDone id u x h k.0, update_where-IsDone id u xs h k.1)

module _ {World : Type 0} where
  abbrev pub IsClosed : ReadinessState World → Type 0
  IsClosed s = All IsDone s.workflows.steps

  abbrev pub IsOpenFor : String → ReadinessState World → Type 0
  IsOpenFor id s = All (IsOpen id) s.workflows.steps

  -- A call inside of a step: the steps after it may still be open, or are done.
  abbrev pub Kept {ℓ} : {Value : Type ℓ} → String → Result Value × ReadinessState World → Type 0
  Kept id r = Ends (IsOpenFor id) (λ value s. IsOpenFor id s) r

  -- The body of a step.
  abbrev pub Tried {ℓ} : {Value : Type ℓ} → String → Result Value × ReadinessState World → Type 0
  Tried id r = Ends (IsOpenFor id) (λ value s. IsClosed s) r

  -- A whole stage.
  abbrev pub Returned {ℓ} : {Value : Type ℓ} → Result Value × ReadinessState World → Type 0
  Returned r = Ends (λ s. Unit) (λ value s. IsClosed s) r

  written-Ends :
      (Q : List StepRun → Type 0) (s : ReadinessState World) (r : Result (DramaTask × TaskTable))
      → Q s.workflows.steps
      → Ends (λ t. Q t.workflows.steps) (λ done t. Q t.workflows.steps) (written s r)
  written-Ends Q s (err e) h = h
  written-Ends Q s (ok row) h = h

  pub save-Ends :
      (Q : List StepRun → Type 0) (s : ReadinessState World)
      → Q s.workflows.steps
      → Ends (λ t. Q t.workflows.steps) (λ done t. Q t.workflows.steps) (save s)
  unfolding save
  save-Ends Q s h = written-Ends Q s (Tasks.Repository.update s.task s.tasks) h

  step-Tried :
      (u : StepRun) (s : ReadinessState World)
      → IsDone u
      → IsOpenFor u.id s
      → Tried u.id (recorded s (update_step u s.workflows))
  unfolding update_step
  step-Tried u s d h = elim (Bool-cases (any (is_step u.id) s.workflows.steps)) [
    | inl e ↦ rw e (update_where-IsDone u.id u s.workflows.steps d h)
    | inr e ↦ rw e h
  ]

  pub start_step-IsOpen :
      (run_id step_id : String) (now : ℕ) (task_id stage : String) (s : ReadinessState World)
      → IsClosed s
      → Ends
          (λ t. Unit)
          (λ (step : StepRun) t. IsOpenFor step.id t)
          (recorded s (start_step run_id step_id now task_id stage s.workflows))
  unfolding start_step add_workflow add_step
  start_step-IsOpen run_id step_id now task_id stage s h =
      elim (Bool-cases (any (is_run run_id) s.workflows.runs)) [
        | inl e ↦ rw e tt
        | inr e ↦ rw e (elim (Bool-cases (any (is_step step_id) s.workflows.steps)) [
          | inl f ↦ rw f tt
          | inr f ↦ rw f (
              All-append _ s.workflows.steps _ (All-IsOpen step_id s.workflows.steps h)
                ((λ r. refl), tt))
        ])
      ]

  pub called-Kept {ℓ} :
      {Answer : Type ℓ} (id : String) (s : ReadinessState World) (r : Result Answer × World)
      → IsOpenFor id s
      → Kept id (called s r)
  called-Kept id s (err e, w) h = h
  called-Kept id s (ok answer, w) h = h

  pub prepared-Kept :
      (id : String) (s : ReadinessState World)
      (r : Result PreparationOutcome × (DramaTask × (TaskTable × World)))
      → IsOpenFor id s
      → Kept id (prepared s r)
  prepared-Kept id s (err e, w) h = h
  prepared-Kept id s (ok answer, w) h = h

  pub pure-Ends :
      (E P : ReadinessState World → Type 0) (s : ReadinessState World) (r : Result String)
      → E s
      → P s
      → Ends E (λ link t. P t) (r, s)
  pure-Ends E P s (err e) h k = h
  pure-Ends E P s (ok link) h k = k

  -- Calls of which an error may leave less.
  Ends-weaken {ℓ} :
      {Value : Type ℓ} (E F : ReadinessState World → Type 0)
      (P : Value → ReadinessState World → Type 0) (r : Result Value × ReadinessState World)
      → ((s : ReadinessState World) → E s → F s)
      → Ends E P r
      → Ends F P r
  Ends-weaken E F P (err e, s) h k = h s k
  Ends-weaken E F P (ok value, s) h k = k

  -- A save at the end of a stage, after which every step is done.
  pub saved-Returned {ℓ} :
      {Value : Type ℓ} (s : ReadinessState World) (next : Value)
      → IsClosed s
      → Returned (save s >>> (λ done t. (ok next, t)))
  saved-Returned s next h =
      Ends->>> (λ t. Unit) (λ done t. IsClosed t) (λ value t. IsClosed t) (save s) _
        (Ends-weaken IsClosed (λ t. Unit) (λ done t. IsClosed t) (save s) (λ t k. tt)
          (save-Ends (All IsDone) s h))
        (λ done t k. k)

  module _ (platform : Platform World) (preparation : Preparation World) where
    finish-Tried :
        (step : StepRun) (result : StepResult) (s : ReadinessState World)
        → IsOpenFor step.id s
        → Tried step.id (finish platform preparation step result s)
    unfolding finish_step
    finish-Tried step result s h =
        step-Tried
          (record step {
            status = StepStatus.completed;
            finished_at = some (preparation.utcnow s.world);
            result_json = some result;
          })
          s refl h

    fail-Tried :
        (step : StepRun) (code : String) (s : ReadinessState World)
        → IsOpenFor step.id s
        → Tried step.id (fail platform preparation step code s)
    unfolding fail_step
    fail-Tried step code s h =
        step-Tried
          (record step {
            status = StepStatus.failed;
            finished_at = some (preparation.utcnow s.world);
            error_code = some code;
          })
          s refl h

    pub fail_with-Tried :
        (step : StepRun) (stage code : String) (s : ReadinessState World)
        → IsOpenFor step.id s
        → Tried step.id (fail_with platform preparation step stage code s)
    fail_with-Tried step stage code s h =
        Ends->>> (IsOpenFor step.id) (λ failed t. IsClosed t) (λ outcome t. IsClosed t)
          (fail platform preparation step code s) _ (fail-Tried step code s h)
          (λ failed t k.
            Ends->>> (IsOpenFor step.id) (λ done u. IsClosed u) (λ outcome u. IsClosed u) (save _) _
              (Ends-weaken IsClosed (IsOpenFor step.id) (λ done u. IsClosed u) (save _)
                (λ u m. All-IsOpen step.id u.workflows.steps m) (save-Ends (All IsDone) _ k))
              (λ done u m. m))

    pub caught-Returned {ℓ} :
        {Value : Type ℓ} (failed_as : LinkReadinessOutcome → Value) (step : StepRun)
        (stage : String) (r : Result Value × ReadinessState World)
        → Tried step.id r
        → Returned (caught platform preparation failed_as step stage r)
    caught-Returned failed_as step stage (ok value, s) h = h
    caught-Returned failed_as step stage (err e, s) h =
        Ends->>> (λ t. Unit) (λ outcome t. IsClosed t) (λ value t. IsClosed t)
          (stage_failure platform preparation step stage e s) _
          (Ends-weaken (IsOpenFor step.id) (λ t. Unit) (λ outcome t. IsClosed t)
            (stage_failure platform preparation step stage e s) (λ t k. tt)
            (fail_with-Tried step stage _ s h))
          (λ outcome t k. k)

    -- The last two calls of the body of a step.
    pub saved_finish-Tried {ℓ} :
        {Value : Type ℓ} (step : StepRun) (result_of : ReadinessState World → StepResult)
        (s : ReadinessState World) (next : Value)
        → IsOpenFor step.id s
        → Tried step.id (
            save s >>> (λ done t.
              finish platform preparation step (result_of t) t >>> (λ finished u. (ok next, u))))
    saved_finish-Tried step result_of s next h =
        Ends->>> (IsOpenFor step.id) (λ done t. IsOpenFor step.id t) (λ value t. IsClosed t)
          (save s) _ (save-Ends (All (IsOpen step.id)) s h)
          (λ done t k.
            Ends->>> (IsOpenFor step.id) (λ finished u. IsClosed u) (λ value u. IsClosed u)
              (finish platform preparation step (result_of t) t) _
              (finish-Tried step (result_of t) t k) (λ finished u m. m))
