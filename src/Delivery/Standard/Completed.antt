-- ===== src/Delivery/Standard/Completed.antt =====
-- What the ledger shows after the execution of a delivery plan.
use mathlib.Core.Path.{subst}
use automated_short_drama.Prelude.{
  ℕ, String, ◌==◌, ◌≡◌, refl, ap, Bool, true, false, ◌&&◌, ◌||◌, Option, none, some, List, [], ◌∷◌,
  ◌++◌, any, Bool-cases, inl, inr,
}
use automated_short_drama.Prelude.Rows.{In}
use automated_short_drama.Errors.{Result, ok, err, DomainError, guard-eq-ok}
use automated_short_drama.Tasks
use automated_short_drama.Tasks.Task.{DramaTask}
use automated_short_drama.Tasks.Ledger.{TaskLedger, Ledgers, of_task, is_ledger}
use automated_short_drama.Plans.Spec.{DatetimeLibrary, Config, PlanSpec}
use automated_short_drama.Plans.Form.{DeliveryFormSpec, build_delivery_form_spec}
use automated_short_drama.Plans.Validation.{validate}
use automated_short_drama.Delivery.Flow.{Platform, BlockReason, can_submit}
use automated_short_drama.Delivery.Standard.{
  completed, DeliveryOutcome, DeliverySettings, DeliveryState, Submission, on_platform, uncertain,
  failed_with, completion_key, submit, poll, new_ledger, after_demotion, after_mark, with_ledger,
  with_task, finalize_completed, settle_final, settle_poll, settle, with_form, with_decision,
  with_report, execute,
}

In-last : {A : Type 0} (a : A) (xs : List A) → In a (xs ++ a ∷ [])
In-last a [] = inl refl
In-last a (x ∷ xs) = inr (In-last a xs)

module _ {World : Type 0} (platform : Platform World) (settings : DeliverySettings World)
    (to_string : List ℕ → String) (ledger_id task_id : String) (now : ℕ) (plan : PlanSpec) where
  -- The ledger of a completed outcome is in the table.
  abbrev pub Shown : DeliveryOutcome → DeliveryState World → Type 0
  Shown o s =
      (l : TaskLedger) × In l s.ledgers
      × (l.task_id ≡ task_id)
      × (l.final_status ≡ "COMPLETED")
      × (some l.external_task_id ≡ o.external_task_id)
      × (some l.id ≡ o.ledger_id)

  abbrev Entered : DeliveryOutcome → DeliveryState World → Type 0
  Entered o s = o.status ≡ completed → Shown o s

  abbrev Final : Result DeliveryOutcome × DeliveryState World → Type 0
  Final (err e, s) = Unit
  Final (ok o, s) = Entered o s

  failed_with-Entered :
      (id : Option String) (e : DomainError) (s : DeliveryState World)
      → Entered (failed_with id e) s
  failed_with-Entered id e s h = cc

  after_demotion-Final :
      (id : String) (saved : TaskLedger) (s : DeliveryState World)
      (u : Result (TaskLedger × Ledgers))
      → Final (after_demotion platform settings to_string ledger_id task_id now plan id saved s u)
  after_demotion-Final id saved s (err e) = tt
  after_demotion-Final id saved s (ok u) = λ h. cc

  after_mark-Final :
      (id : String) (saved : TaskLedger) (s : DeliveryState World) (m : Result {0} Unit × World)
      → In saved s.ledgers
      → saved.task_id ≡ task_id
      → saved.final_status ≡ "COMPLETED"
      → saved.external_task_id ≡ id
      → Final (after_mark platform settings to_string ledger_id task_id now plan id saved s m)
  after_mark-Final id saved s (err e, w) i t f x = after_demotion-Final id saved _ _
  after_mark-Final id saved s (ok done, w) i t f x = λ h. (saved, i, t, f, ap some x, refl)

  with_ledger-Final :
      (t : DramaTask) (id : String) (s : DeliveryState World)
      → Final (
          with_ledger platform settings to_string ledger_id task_id now plan t id s (
            Tasks.Ledger.add
              (new_ledger platform settings to_string ledger_id task_id now plan t id)
              s.ledgers))
  unfolding Tasks.Ledger.add
  with_ledger-Final t id s = by_add (Tasks.Ledger.add ledger s.ledgers) refl
    where
      ledger : TaskLedger
      ledger = new_ledger platform settings to_string ledger_id task_id now plan t id

      by_add :
          (r : Result (TaskLedger × Ledgers))
          → Tasks.Ledger.add ledger s.ledgers ≡ r
          → Final (with_ledger platform settings to_string ledger_id task_id now plan t id s r)
      by_add (err e) q = tt
      by_add (ok saved) q =
          let g =
            guard-eq-ok
              (any (is_ledger ledger.id) s.ledgers || any (of_task ledger.task_id) s.ledgers) _ q in
          let l : ledger ≡ saved.0 = cc in
          let ls : s.ledgers ++ ledger ∷ [] ≡ saved.1 = cc in
          after_mark-Final id saved.0 (record s { ledgers = saved.1 })
            (platform.write_completion (completion_key t.sheet_row task_id) s.world)
            (subst (λ x. In saved.0 x) ls
              (subst (λ x. In x (s.ledgers ++ ledger ∷ [])) l (In-last ledger s.ledgers)))
            (cc) (cc) (cc)

  with_task-Final :
      (id : String) (s : DeliveryState World) (o : Option DramaTask)
      → Final (with_task platform settings to_string ledger_id task_id now plan id s o)
  with_task-Final id s none = tt
  with_task-Final id s (some t) = with_ledger-Final t id s

  settle_final-Entered :
      (id : String) (r : Result DeliveryOutcome × DeliveryState World)
      → Final r
      → let done = settle_final platform settings to_string ledger_id task_id now plan id r in
        Entered done.0 done.1
  settle_final-Entered id (err e, s) h = λ c. cc
  settle_final-Entered id (ok o, s) h = h

  settle_poll-Entered :
      (id : String) (s : DeliveryState World) (r : Result String × World)
      → let done = settle_poll platform settings to_string ledger_id task_id now plan id s r in
        Entered done.0 done.1
  unfolding finalize_completed
  settle_poll-Entered id s (err e, w) = λ c. cc
  settle_poll-Entered id s (ok status, w) = elim (Bool-cases (status == "COMPLETED")) [
    | inl t ↦ rw t (
        settle_final-Entered id _
          (with_task-Final id (record s { world = w }) (Tasks.Repository.get task_id s.tasks)))
    | inr f ↦ rw f (λ c. cc)
  ]

  settle-Entered :
      (s : DeliveryState World) (r : Result Submission × World)
      → let done = settle platform settings to_string ledger_id task_id now plan s r in
        Entered done.0 done.1
  settle-Entered s (err e, w) = λ c. cc
  settle-Entered s (ok uncertain, w) = λ c. cc
  settle-Entered s (ok (on_platform id), w) = settle_poll-Entered id s (poll platform settings id w)

  module _ (lib : DatetimeLibrary) (validated_at : ℕ) (cid_configs : List Config) where
    can_submit-none :
        (allow real : Bool) → can_submit allow real ≡ none → (allow ≡ true) × (real ≡ true)
    unfolding can_submit
    can_submit-none false real e = cc
    can_submit-none true false e = cc
    can_submit-none true true e = (refl, refl)

    with_form-Entered :
        (s : DeliveryState World) (f : Result DeliveryFormSpec)
        → let done =
            with_form platform settings to_string ledger_id task_id now plan lib validated_at
              cid_configs s f in
          Entered done.0 done.1
    with_form-Entered s (err e) = λ c. cc
    with_form-Entered s (ok form) = settle-Entered s (submit platform settings plan form s.world)

    with_decision-completed :
        (s : DeliveryState World) (d : Option BlockReason)
        → let done =
            with_decision platform settings to_string ledger_id task_id now plan lib validated_at
              cid_configs s d in
          (done.0).status ≡ completed → (d ≡ none) × Shown done.0 done.1
    with_decision-completed s (some reason) c = cc
    with_decision-completed s none c =
        (refl, with_form-Entered s (build_delivery_form_spec lib plan cid_configs) c)

    -- An outcome is "completed" only if the plan passed the validation, both switches of the final
    -- submission are on, and the ledger has an entry of the task with the status COMPLETED, the
    -- outcome's id of the task on the platform and the outcome's ledger id.
    pub execute-completed :
        (s : DeliveryState World)
        → let done =
            execute platform settings to_string ledger_id task_id now plan lib validated_at
              cid_configs s in
          (done.0).status ≡ completed
          → ((validate lib validated_at cid_configs plan).passed ≡ true)
            × (settings.allow_final_submit ≡ true)
            × (settings.use_real_adapters ≡ true)
            × Shown done.0 done.1
    unfolding execute
    execute-completed s = by_report (validate lib validated_at cid_configs plan).passed
      where
        by_report :
            (passed : Bool)
            → let done =
                with_report platform settings to_string ledger_id task_id now plan lib validated_at
                  cid_configs s passed
                  (validate lib validated_at cid_configs plan).issues in
              (done.0).status ≡ completed
              → (passed ≡ true)
                × (settings.allow_final_submit ≡ true)
                × (settings.use_real_adapters ≡ true)
                × Shown done.0 done.1
        by_report false c = cc
        by_report true c =
            let d =
              with_decision-completed s
                (can_submit settings.allow_final_submit settings.use_real_adapters) c in
            let a = can_submit-none _ _ d.0 in (refl, a.0, a.1, d.1)

    -- A plan that fails the validation, or meets a switch that is off, leaves the tables and the
    -- systems outside as they were.
    pub execute-refused :
        (s : DeliveryState World)
        → ((validate lib validated_at cid_configs plan).passed
            && (settings.allow_final_submit && settings.use_real_adapters))
          ≡ false
        → (execute platform settings to_string ledger_id task_id now plan lib validated_at
            cid_configs s).1
          ≡ s
    unfolding execute can_submit
    execute-refused s =
        by_switches (validate lib validated_at cid_configs plan).passed settings.allow_final_submit
          settings.use_real_adapters refl refl
      where
        by_switches :
            (passed allow real : Bool)
            → settings.allow_final_submit ≡ allow
            → settings.use_real_adapters ≡ real
            → (passed && (allow && real)) ≡ false
            → (with_report platform settings to_string ledger_id task_id now plan lib validated_at
                cid_configs s passed
                (validate lib validated_at cid_configs plan).issues).1
              ≡ s
        by_switches false allow real a r e = refl
        by_switches true false real a r e = rw a refl
        by_switches true true false a r e = rw a (rw r refl)
        by_switches true true true a r e = cc
