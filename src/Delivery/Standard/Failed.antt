-- ===== src/Delivery/Standard/Failed.antt =====
-- What an execution that did not complete leaves in the ledger, and when a retry is safe.
use automated_short_drama.Prelude.{
  ℕ, String, ◌==◌, ◌≡◌, ◌≢◌, refl, Bool, true, false, ◌&&◌, ◌||◌, Option, none, some, List, [], ◌∷◌,
  ◌++◌, any, arith, eq_iff, Bool-cases, inl, inr,
}
use automated_short_drama.Prelude.Rows.{update_where}
use automated_short_drama.Errors.{Result, ok, err}
use automated_short_drama.Tasks
use automated_short_drama.Tasks.Task.{DramaTask}
use automated_short_drama.Tasks.Ledger.{TaskLedger, Ledgers, of_task, is_ledger}
use automated_short_drama.Plans.Spec.{DatetimeLibrary, Config, PlanSpec}
use automated_short_drama.Plans.Form.{DeliveryFormSpec, build_delivery_form_spec}
use automated_short_drama.Plans.Validation.{validate}
use automated_short_drama.Delivery.Flow.{Platform, BlockReason, can_submit}
use automated_short_drama.Delivery.Standard.{
  completed, DeliveryOutcome, DeliverySettings, DeliveryState, Submission, on_platform, uncertain,
  submit, poll, new_ledger, demoted, after_mark, with_ledger, with_task, finalize_completed,
  settle_final, settle_poll, settle, with_form, with_decision, with_report, execute,
}

-- An entry of the ledger for the task that says COMPLETED.
abbrev pub is_done : String → TaskLedger → Bool
is_done task_id l = of_task task_id l && l.final_status == "COMPLETED"

module _ {World : Type 0} (platform : Platform World) (settings : DeliverySettings World)
    (to_string : List ℕ → String) (ledger_id task_id : String) (now : ℕ) (plan : PlanSpec) where
  abbrev Same : DeliveryState World → DeliveryState World → Type 0
  Same s after = any (is_done task_id) after.ledgers ≡ any (is_done task_id) s.ledgers

  abbrev Kept : DeliveryState World → DeliveryOutcome → DeliveryState World → Type 0
  Kept s o after = o.status ≢ completed → Same s after

  abbrev FinalKept : DeliveryState World → Result DeliveryOutcome × DeliveryState World → Type 0
  FinalKept s (err e, after) = Same s after
  FinalKept s (ok o, after) = Kept s o after

  demoted_last :
      (l : TaskLedger) (ls : Ledgers)
      → any (is_ledger l.id) ls ≡ false
      → any (is_done task_id) (
          update_where
            (is_ledger l.id)
            (λ _. demoted platform settings to_string ledger_id task_id now plan l)
            (ls ++ l ∷ []))
        ≡ any (is_done task_id) ls
  unfolding update_where
  demoted_last l [] h =
      let same : (l.id == l.id) ≡ true = ground (arith, eq_iff l.id l.id) in rw same (ground arith)
  demoted_last l (x ∷ ls) h = ground (arith, demoted_last l ls)

  has_last : (l : TaskLedger) (ls : Ledgers) → any (is_ledger l.id) (ls ++ l ∷ []) ≡ true
  has_last l [] = ground (arith, eq_iff l.id l.id)
  has_last l (x ∷ ls) = ground (arith, has_last l ls)

  after_mark-Kept :
      (id : String) (l : TaskLedger) (s : DeliveryState World) (m : Result {0} Unit × World)
      → any (is_ledger l.id) s.ledgers ≡ false
      → FinalKept s (
          after_mark platform settings to_string ledger_id task_id now plan id l
            (record s { ledgers = s.ledgers ++ l ∷ [] })
            m)
  unfolding Tasks.Ledger.update
  after_mark-Kept id l s (err e, w) h = rw (has_last l s.ledgers) (λ c. demoted_last l s.ledgers h)
  after_mark-Kept id l s (ok done, w) h = λ c. absurd (c refl)

  with_ledger-Kept :
      (t : DramaTask) (id : String) (s : DeliveryState World)
      → FinalKept s (
          with_ledger platform settings to_string ledger_id task_id now plan t id s (
            Tasks.Ledger.add
              (new_ledger platform settings to_string ledger_id task_id now plan t id)
              s.ledgers))
  unfolding Tasks.Ledger.add
  with_ledger-Kept t id s =
      elim (Bool-cases (any (is_ledger ledger_id) s.ledgers || any (of_task task_id) s.ledgers)) [
        | inl t ↦ rw t refl
        | inr f ↦ rw f (
            after_mark-Kept id
              (new_ledger platform settings to_string ledger_id task_id now plan t id) s _
              (ground arith))
      ]

  with_task-Kept :
      (id : String) (s : DeliveryState World) (o : Option DramaTask)
      → FinalKept s (with_task platform settings to_string ledger_id task_id now plan id s o)
  with_task-Kept id s none = refl
  with_task-Kept id s (some t) = with_ledger-Kept t id s

  settle_final-Kept :
      (id : String) (s : DeliveryState World) (r : Result DeliveryOutcome × DeliveryState World)
      → FinalKept s r
      → let done = settle_final platform settings to_string ledger_id task_id now plan id r in
        Kept s done.0 done.1
  settle_final-Kept id s (err e, after) h = λ c. h
  settle_final-Kept id s (ok o, after) h = h

  settle_poll-Kept :
      (id : String) (s : DeliveryState World) (r : Result String × World)
      → let done = settle_poll platform settings to_string ledger_id task_id now plan id s r in
        Kept s done.0 done.1
  unfolding finalize_completed
  settle_poll-Kept id s (err e, w) = λ c. refl
  settle_poll-Kept id s (ok status, w) = elim (Bool-cases (status == "COMPLETED")) [
    | inl t ↦ rw t (
        settle_final-Kept id s _
          (with_task-Kept id (record s { world = w }) (Tasks.Repository.get task_id s.tasks)))
    | inr f ↦ rw f (λ c. refl)
  ]

  settle-Kept :
      (s : DeliveryState World) (r : Result Submission × World)
      → let done = settle platform settings to_string ledger_id task_id now plan s r in
        Kept s done.0 done.1
  settle-Kept s (err e, w) = λ c. refl
  settle-Kept s (ok uncertain, w) = λ c. refl
  settle-Kept s (ok (on_platform id), w) = settle_poll-Kept id s (poll platform settings id w)

  module _ (lib : DatetimeLibrary) (validated_at : ℕ) (cid_configs : List Config) where
    -- An outcome other than "completed", that of a failed mark in the sheet included, leaves no
    -- entry of the ledger that says COMPLETED for the task where there was none, and takes none
    -- away.
    pub execute-not_completed :
        (s : DeliveryState World)
        → let done =
            execute platform settings to_string ledger_id task_id now plan lib validated_at
              cid_configs s in
          (done.0).status ≢ completed
          → any (is_done task_id) (done.1).ledgers ≡ any (is_done task_id) s.ledgers
    unfolding execute
    execute-not_completed s = by_report (validate lib validated_at cid_configs plan).passed
      where
        by_form :
            (f : Result DeliveryFormSpec)
            → let done =
                with_form platform settings to_string ledger_id task_id now plan lib validated_at
                  cid_configs s f in
              Kept s done.0 done.1
        by_form (err e) = λ c. refl
        by_form (ok form) = settle-Kept s (submit platform settings plan form s.world)

        by_decision :
            (d : Option BlockReason)
            → let done =
                with_decision platform settings to_string ledger_id task_id now plan lib
                  validated_at cid_configs s d in
              Kept s done.0 done.1
        by_decision (some reason) = λ c. refl
        by_decision none = by_form (build_delivery_form_spec lib plan cid_configs)

        by_report :
            (passed : Bool)
            → let done =
                with_report platform settings to_string ledger_id task_id now plan lib validated_at
                  cid_configs s passed
                  (validate lib validated_at cid_configs plan).issues in
              Kept s done.0 done.1
        by_report false = λ c. refl
        by_report true =
            by_decision (can_submit settings.allow_final_submit settings.use_real_adapters)
