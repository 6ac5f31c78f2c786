-- ===== src/Delivery/Standard/Retry.antt =====
-- When an execution reports that a retry is safe.
use automated_short_drama.Prelude.{
  ℕ, String, ◌==◌, ◌≡◌, refl, Bool, true, false, Option, none, some, List, if◌then◌else◌,
  Bool-cases, inl, inr,
}
use automated_short_drama.Errors.{Result, ok, err}
use automated_short_drama.Tasks
use automated_short_drama.Tasks.Task.{DramaTask}
use automated_short_drama.Tasks.Ledger.{TaskLedger, Ledgers}
use automated_short_drama.Plans.Spec.{DatetimeLibrary, Config, PlanSpec}
use automated_short_drama.Plans.Form.{DeliveryFormSpec, build_delivery_form_spec}
use automated_short_drama.Plans.Validation.{validate}
use automated_short_drama.Delivery.Flow.{
  Platform, BlockReason, can_submit, ◌>>>◌, submit_plan, ensure_drama_asset,
}
use automated_short_drama.Delivery.Standard.{
  DeliveryOutcome, DeliverySettings, DeliveryState, Submission, on_platform, uncertain,
  submission_of, submit, after_submit, create_configs, first_link, poll, new_ledger, after_mark,
  after_demotion, demoted, completion_key, is_result_uncertain, with_ledger, with_task,
  finalize_completed, settle_final, settle_poll, settle, with_form, with_decision, with_report,
  execute,
}

-- A chain that returned: its first call did, and so did the rest.
>>>-eq-ok :
    {Value Next State : Type 0} (call : Result Value × State)
    (next : Value → State → Result Next × State) (answer : Next)
    → (call >>> next).0 ≡ ok answer
    → (value : Value) × ((next value call.1).0 ≡ ok answer) × ((call >>> next) ≡ next value call.1)
>>>-eq-ok (err e, s) next answer h = cc
>>>-eq-ok (ok value, s) next answer h = (value, h, refl)

module _ {World : Type 0} (platform : Platform World) (settings : DeliverySettings World)
    (plan : PlanSpec) where
  -- The task was looked for on the platform by its name, last of all, and was not there.
  abbrev NotFound : World → Type 0
  NotFound after =
      (w : World) × (platform.find_task_by_idempotency_key plan.task_name w ≡ (ok none, after))

  submission_of-uncertain : (o : Option String) → submission_of o ≡ uncertain → o ≡ none
  submission_of-uncertain none e = refl
  submission_of-uncertain (some id) e = cc

  found_none :
      (w : World) (r : Result (Option String) × World)
      → platform.find_task_by_idempotency_key plan.task_name w ≡ r
      → let done = r >>> (λ id after. (ok (submission_of id), after)) in
        done.0 ≡ ok uncertain → NotFound (done.1)
  found_none w (err e, after) q h = cc
  found_none w (ok o, after) q h =
      let p : submission_of o ≡ uncertain = cc in
      (w, found_nothing o (submission_of-uncertain o p) q)
    where
      found_nothing :
          (o : Option String)
          → o ≡ none
          → platform.find_task_by_idempotency_key plan.task_name w ≡ (ok o, after)
          → platform.find_task_by_idempotency_key plan.task_name w ≡ (ok none, after)
      found_nothing o e q = rw e at q

  after_submit-uncertain :
      (r : Result String × World)
      → let done = after_submit platform settings plan.task_name r in
        done.0 ≡ ok uncertain → NotFound done.1
  after_submit-uncertain (ok id, w) h = cc
  after_submit-uncertain (err e, w) h = by_code (is_result_uncertain e) h
    where
      by_code :
          (b : Bool)
          → let done =
              (if b
                then platform.find_task_by_idempotency_key plan.task_name w
                  >>> (λ id after. (ok (submission_of id), after))
                else (err e, w)) in
            done.0 ≡ ok uncertain → NotFound done.1
      by_code true h = found_none w _ refl h
      by_code false h = cc

  submit-uncertain :
      (form : DeliveryFormSpec) (w : World)
      → let done = submit platform settings plan form w in done.0 ≡ ok uncertain → NotFound done.1
  unfolding submit
  submit-uncertain form w h =
      let prepared =
        (first_link plan.link_set, w)
        >>> (λ link w. ensure_drama_asset platform plan.drama_name link w)
        >>> (λ asset w. create_configs platform settings asset plan.link_set plan.platform w) in
      let a =
        >>>-eq-ok prepared
          (λ done w. after_submit platform settings plan.task_name (submit_plan platform form w))
          uncertain h in
      rw (a.2) (after_submit-uncertain (submit_plan platform form prepared.1) a.1)

module _ {World : Type 0} (platform : Platform World) (settings : DeliverySettings World)
    (to_string : List ℕ → String) (ledger_id task_id : String) (now : ℕ) (plan : PlanSpec) where
  abbrev Unsafe : Result DeliveryOutcome × DeliveryState World → Type 0
  Unsafe (err e, s) = Unit
  Unsafe (ok o, s) = o.retry_safe ≡ false

  after_mark-Unsafe :
      (id : String) (l : TaskLedger) (s : DeliveryState World) (m : Result {0} Unit × World)
      → Unsafe (after_mark platform settings to_string ledger_id task_id now plan id l s m)
  after_mark-Unsafe id l s (ok done, w) = refl
  after_mark-Unsafe id l s (err e, w) = by_update (
      Tasks.Ledger.update (demoted platform settings to_string ledger_id task_id now plan l)
        s.ledgers)
    where
      by_update :
          (u : Result (TaskLedger × Ledgers))
          → Unsafe (
              after_demotion platform settings to_string ledger_id task_id now plan id l
                (record s { world = w })
                u)
      by_update (err e) = tt
      by_update (ok u) = refl

  with_task-Unsafe :
      (id : String) (s : DeliveryState World) (o : Option DramaTask)
      → Unsafe (with_task platform settings to_string ledger_id task_id now plan id s o)
  with_task-Unsafe id s none = tt
  with_task-Unsafe id s (some t) = by_add (
      Tasks.Ledger.add (new_ledger platform settings to_string ledger_id task_id now plan t id)
        s.ledgers)
    where
      by_add :
          (r : Result (TaskLedger × Ledgers))
          → Unsafe (with_ledger platform settings to_string ledger_id task_id now plan t id s r)
      by_add (err e) = tt
      by_add (ok saved) =
          after_mark-Unsafe id saved.0 (record s { ledgers = saved.1 })
            (platform.write_completion (completion_key t.sheet_row task_id) s.world)

  settle_final-Unsafe :
      (id : String) (r : Result DeliveryOutcome × DeliveryState World)
      → Unsafe r
      → (settle_final platform settings to_string ledger_id task_id now plan id r).0.retry_safe
        ≡ false
  settle_final-Unsafe id (err e, s) h = refl
  settle_final-Unsafe id (ok o, s) h = h

  settle_poll-Unsafe :
      (id : String) (s : DeliveryState World) (r : Result String × World)
      → (settle_poll platform settings to_string ledger_id task_id now plan id s r).0.retry_safe
        ≡ false
  unfolding finalize_completed
  settle_poll-Unsafe id s (err e, w) = refl
  settle_poll-Unsafe id s (ok status, w) = elim (Bool-cases (status == "COMPLETED")) [
    | inl t ↦ rw t (
        settle_final-Unsafe id _
          (with_task-Unsafe id (record s { world = w }) (Tasks.Repository.get task_id s.tasks)))
    | inr f ↦ rw f refl
  ]

  -- Nothing but the systems outside has changed, and the task is not on the platform.
  abbrev pub NothingSubmitted : DeliveryState World → DeliveryState World → Type 0
  NothingSubmitted s after =
      NotFound platform settings plan after.world
      × (after.tasks ≡ s.tasks)
      × (after.ledgers ≡ s.ledgers)

  settle-NothingSubmitted :
      (s : DeliveryState World) (r : Result Submission × World)
      → (r.0 ≡ ok uncertain → NotFound platform settings plan r.1)
      → let done = settle platform settings to_string ledger_id task_id now plan s r in
        (done.0).retry_safe ≡ true → NothingSubmitted s done.1
  settle-NothingSubmitted s (err e, w) f h = cc
  settle-NothingSubmitted s (ok uncertain, w) f h = (f refl, refl, refl)
  settle-NothingSubmitted s (ok (on_platform id), w) f h =
      let u = settle_poll-Unsafe id s (poll platform settings id w) in cc

  module _ (lib : DatetimeLibrary) (validated_at : ℕ) (cid_configs : List Config) where
    -- An outcome says that a retry is safe only if the last thing that was asked of the platform was
    -- a search for the task by its name, which found none, and the tables are as they were.
    pub execute-retry_safe :
        (s : DeliveryState World)
        → let done =
            execute platform settings to_string ledger_id task_id now plan lib validated_at
              cid_configs s in
          (done.0).retry_safe ≡ true → NothingSubmitted s done.1
    unfolding execute
    execute-retry_safe s = by_report (validate lib validated_at cid_configs plan).passed
      where
        by_form :
            (f : Result DeliveryFormSpec)
            → let done =
                with_form platform settings to_string ledger_id task_id now plan lib validated_at
                  cid_configs s f in
              (done.0).retry_safe ≡ true → NothingSubmitted s done.1
        by_form (err e) = λ c. cc
        by_form (ok form) =
            settle-NothingSubmitted s (submit platform settings plan form s.world)
              (submit-uncertain platform settings plan form s.world)

        by_decision :
            (d : Option BlockReason)
            → let done =
                with_decision platform settings to_string ledger_id task_id now plan lib
                  validated_at cid_configs s d in
              (done.0).retry_safe ≡ true → NothingSubmitted s done.1
        by_decision (some reason) = λ c. cc
        by_decision none = by_form (build_delivery_form_spec lib plan cid_configs)

        by_report :
            (passed : Bool)
            → let done =
                with_report platform settings to_string ledger_id task_id now plan lib validated_at
                  cid_configs s passed
                  (validate lib validated_at cid_configs plan).issues in
              (done.0).retry_safe ≡ true → NothingSubmitted s done.1
        by_report false = λ c. cc
        by_report true =
            by_decision (can_submit settings.allow_final_submit settings.use_real_adapters)
