-- ===== src/Workflow/Readiness/Prepared.antt =====
-- A run for a task that has all it needs.
use automated_short_drama.Prelude.{
  ℕ, String, ◌==◌, ◌≡◌, refl, ap, ◌∙◌, Bool, true, false, none, [], ◌∷◌, any, if◌then◌else◌,
  Bool-cases, inl, inr, ltb, arith, eq_iff,
}
use automated_short_drama.Prelude.Rows.{update_where}
use automated_short_drama.Errors.{Result, ok}
use automated_short_drama.Tasks
use automated_short_drama.Tasks.Task.{DramaTask, TaskStatus}
use automated_short_drama.Tasks.Repository.{TaskTable, has_task_id}
use automated_short_drama.Delivery.Flow.{Platform, ◌>>>◌}
use automated_short_drama.Workflow.Stage
use automated_short_drama.Workflow.State.{
  Preparation, ReadinessState, save, has_links, missing_of, conclude_ready, outcome_of,
}
use automated_short_drama.Workflow.Readiness.{
  ensure_links, ensure_delivery_drama, configs_for, ensure_promotion_configs, after_drama, execute,
}

if-true {ℓ} : {A : Type ℓ} (b : Bool) (x y : A) → b ≡ true → (if b then x else y) ≡ x
if-true true x y h = refl
if-true false x y h = cc

if-false {ℓ} : {A : Type ℓ} (b : Bool) (x y : A) → b ≡ false → (if b then x else y) ≡ y
if-false true x y h = cc
if-false false x y h = refl

>>>-eq {ℓ κ μ} :
    {Value : Type ℓ} {Next : Type κ} {State : Type μ} (r : Result Value × State)
    (next : Value → State → Result Next × State) (value : Value) (s : State)
    → r ≡ (ok value, s)
    → (r >>> next) ≡ next value s
>>>-eq r next value s h = ap (λ x. x >>> next) h

any-update_where :
    (id : String) (t : DramaTask) (ts : TaskTable)
    → t.id ≡ id
    → any (has_task_id id) ts ≡ true
    → any (has_task_id id) (update_where (has_task_id id) (λ _. t) ts) ≡ true
unfolding update_where
any-update_where id t [] e h = h
any-update_where id t (r ∷ ts) e h =
    ground (arith, eq_iff t.id id, eq_iff r.id id, any-update_where id t ts)

update_where-update_where :
    (id : String) (t u : DramaTask) (ts : TaskTable)
    → t.id ≡ id
    → update_where (has_task_id id) (λ _. u) (update_where (has_task_id id) (λ _. t) ts)
      ≡ update_where (has_task_id id) (λ _. u) ts
unfolding update_where
update_where-update_where id t u [] e = refl
update_where-update_where id t u (r ∷ ts) e =
    ground (arith, eq_iff t.id id, eq_iff r.id id, update_where-update_where id t u ts)

-- The task at a stage, on the way to its links.
abbrev moved : String → DramaTask → DramaTask
moved stage task = record task { current_stage = stage; target_stage = Stage.link_ready }

-- The task whose links are ready.
abbrev pub made_ready : DramaTask → DramaTask
made_ready task = record task {
  current_stage = Stage.link_ready;
  target_stage = Stage.link_ready;
  status = TaskStatus.link_ready;
}

module _ {World : Type 0} where
  -- The state in which the object of the task and the row of that id are this task.
  abbrev pub wrote : String → DramaTask → ReadinessState World → ReadinessState World
  wrote id task s = record s {
    task = task;
    tasks = update_where (has_task_id id) (λ _. task) s.tasks;
  }

  save-first :
      (s : ReadinessState World)
      → any (has_task_id s.task.id) s.tasks ≡ true
      → save s ≡ (ok tt, wrote s.task.id s.task s)
  unfolding save Tasks.Repository.update
  save-first s h = rw h refl

  save-wrote :
      (t u : DramaTask) (s : ReadinessState World)
      → t.id ≡ u.id
      → any (has_task_id u.id) s.tasks ≡ true
      → save (record (wrote u.id t s) { task = u }) ≡ (ok tt, wrote u.id u s)
  unfolding save Tasks.Repository.update
  save-wrote t u s e h =
      rw (any-update_where u.id t s.tasks e h, update_where-update_where u.id t u s.tasks e) refl

  module _ (platform : Platform World) (preparation : Preparation World) (s : ReadinessState World)
      (is_row : any (has_task_id s.task.id) s.tasks ≡ true) where
    ensure_links-eq :
        (dry_run : Bool) (now : ℕ)
        → has_links s.task ≡ true
        → ensure_links platform preparation dry_run now
            (record s { task = record s.task { target_stage = Stage.link_ready } })
          ≡ (ok (outcome_of "READY" none), wrote s.task.id (moved Stage.link_extraction s.task) s)
    unfolding ensure_links
    ensure_links-eq dry_run now h =
        if-true (has_links s.task) _ _ h
        ∙ >>>-eq _ _ tt _
            (save-first (record s { task = moved Stage.link_extraction s.task }) is_row)

    ensure_delivery_drama-eq :
        (s.task.delivery_drama_id == "") ≡ false
        → ensure_delivery_drama platform preparation
            (wrote s.task.id (moved Stage.link_extraction s.task) s)
          ≡ (ok none, wrote s.task.id (moved Stage.delivery_drama s.task) s)
    unfolding ensure_delivery_drama
    ensure_delivery_drama-eq h =
        if-false (s.task.delivery_drama_id == "") _ _ h
        ∙ >>>-eq _ _ tt _ (save-wrote _ (moved Stage.delivery_drama s.task) s refl is_row)

    ensure_promotion_configs-eq :
        missing_of s.task ≡ []
        → ensure_promotion_configs platform preparation
            (wrote s.task.id (moved Stage.delivery_drama s.task) s)
          ≡ (ok none, wrote s.task.id (moved Stage.promotion_config s.task) s)
    unfolding ensure_promotion_configs missing_of
    ensure_promotion_configs-eq h =
        ap
          (λ missing.
            configs_for platform preparation missing
              (wrote s.task.id (moved Stage.delivery_drama s.task) s))
          h
        ∙ >>>-eq _ _ tt _ (save-wrote _ (moved Stage.promotion_config s.task) s refl is_row)

    conclude_ready-eq :
        (stage : String)
        → conclude_ready (wrote s.task.id (moved stage s.task) s)
          ≡ (ok (outcome_of Stage.link_ready none), wrote s.task.id (made_ready s.task) s)
    conclude_ready-eq stage = >>>-eq _ _ tt _ (save-wrote _ (made_ready s.task) s refl is_row)

    native-eq :
        (s.task.delivery_drama_id == "") ≡ false
        → missing_of s.task ≡ []
        → (ensure_delivery_drama platform preparation
              (wrote s.task.id (moved Stage.link_extraction s.task) s)
            >>> after_drama platform preparation)
          ≡ (ok (outcome_of Stage.link_ready none), wrote s.task.id (made_ready s.task) s)
    native-eq d m =
        >>>-eq _ _ none _ (ensure_delivery_drama-eq d)
        ∙ (>>>-eq _ _ none _ (ensure_promotion_configs-eq m)
            ∙ conclude_ready-eq Stage.promotion_config)

    -- Once a task with a row in the table is due, its links are validated, it has its drama in the
    -- delivery system and a promotion content for each of its links, a run to LINK_READY answers
    -- LINK_READY, calls nothing outside, records no step, and changes no more of the state than
    -- that the task and its row have that status, stage and target.
    pub execute-prepared :
        (dry_run : Bool) (now : ℕ)
        → ltb now s.task.available_time ≡ false
        → has_links s.task ≡ true
        → (s.task.delivery_drama_id == "") ≡ false
        → missing_of s.task ≡ []
        → execute platform preparation Stage.link_ready dry_run now s
          ≡ (ok (outcome_of Stage.link_ready none), wrote s.task.id (made_ready s.task) s)
    unfolding execute Stage.validate
    execute-prepared dry_run now a h d m =
        if-false (ltb now s.task.available_time) _ _ a
        ∙ (>>>-eq _ _ _ _ (ensure_links-eq dry_run now h)
            ∙ elim (Bool-cases (s.task.end_type == "MINIPROGRAM")) [
              | inl e ↦
                  if-true (s.task.end_type == "MINIPROGRAM") _ _ e
                  ∙ conclude_ready-eq Stage.link_extraction
              | inr e ↦ if-false (s.task.end_type == "MINIPROGRAM") _ _ e ∙ native-eq d m
            ])
