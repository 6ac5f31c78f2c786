-- ===== src/Lib.antt =====
-- Short-drama delivery workbench: the queue of drama tasks, the workers that lease and run its
-- items, the acquisition of promotion links and the stages that prepare them, the assignment of
-- accounts, the rules, validation and execution of delivery plans, and the import of dramas from
-- a public sheet. Paths are below backend/src/backend/ of the repository.
--
-- Parts and files:
-- Errors: domain/errors/domain_error.py. A raise is the `err` of `Result`; `>>=` is what comes
--   behind a call that may raise.
-- Tasks: the drama task (Tasks/Task), its table (Tasks/Repository: task_repository.py) and the
--   ledger of finished tasks (Tasks/Ledger: ledger_repository.py).
-- Queue: Item and Machine are domain/queue/; Repository is queue_repository.py; Service is
--   queue_service.py, claim_service.py, recovery_service.py (`recover`) and queue_cycle.py;
--   Control is task_control_service.py; Completion is completion_service.py; Scheduler is
--   delivery_scheduler.py, which fills the queue from the sheet. Order, Claiming, Advancing,
--   Recovery, Moving, Lifecycle, Outcomes, PauseResume, Sound, Steps and Trace hold the proofs.
--   The queue is a list of rows in the order of insertion, written by `update_where`, the list
--   form of UPDATE ... SET ... WHERE. Steps has the operations as data, so that any sequence of
--   them, by any workers, is a list.
-- Worker: Lease is worker_lease.py and worker_lease_repository.py, Heartbeat is
--   worker_heartbeat.py, which also renews the lease of an item of the queue.
-- Plans/Material: MaterialGroupRule of application/services/plan_rules.py.
-- Accounts/Allocation: application/services/account_allocation_service.py.
-- Acquisition: Asset (domain/assets/promotion_asset.py), CreateGuard (create_safety_guard.py),
--   Fallback (fallback_chain.py) and Matcher (promotion_matcher.py) of domain/acquisition/.
--   DramaMatch is domain/rules/drama_match.py, which returns the candidate of an outside platform,
--   and Validator is promotion_asset_validator.py, which uses it. Pipeline is v2_pipeline.py,
--   which runs a provider and the validator and freezes the links.
-- Imports: SourceKey is domain/tasks/source_key.py and end_type.py. Sheet and Preview are
--   domain/imports/drama_import.py, the loop of build_import_preview as a recursion on the public
--   rows that hands on the keys seen so far. Runs is import_run.py with
--   drama_import_repository.py. Service is drama_import_service.py on the persisted runs, with
--   get_session of infrastructure/database/session.py.
-- Plans: Spec is domain/plans/plan_spec.py with the dicts of the configuration, Builder is
--   application/services/plan_spec_service.py with the rules of accounts, promotion contents and
--   names of plan_rules.py, Validation is plan_validation_service.py and Form is
--   domain/plans/delivery_form_spec.py.
-- Delivery: Flow is delivery_flow_service.py with submit_guard.py, Standard is
--   standard_delivery_service.py, which calls Plans, the ledger and the platform. The polling is
--   on fuel, the timeout in ticks of the clock: each round waits for at least one tick.
-- Workflow: Stage is domain/workflow/link_stage.py and native_stage.py, Steps is
--   workflow_repository.py with step_run.py and workflow_run.py, State and Readiness are
--   application/services/link_readiness_service.py, which calls the delivery flow, the table of
--   tasks and the steps, and takes the preparation of tasks as a parameter.
-- Worker/Execution: application/services/worker_execution.py with
--   domain/execution/execution_event.py, the cycle that runs a claimed item, writes its events and
--   completes it through Queue/Completion.
-- Accounts/Assignment: with Accounts/Blocks, application/services/account_assignment_service.py
--   and domain/rules/account_sheet.py, which plans blocks by Accounts/Allocation, writes them to
--   the sheet and reads them back.
-- Prelude: lists, dicts, signed integers, texts and tables of rows.
--
-- Conventions. Datetimes are the microseconds of their UTC instant, so they are compared as the
-- database compares them; `now` is an argument. Texts are strings, compared by code points;
-- where the code cuts and joins them, as in Imports and Plans, they are lists of code points.
-- Ids that uuid4 makes are arguments. Priorities and the numbers of rules are signed. Loops over
-- lists are structural recursion; only the polling of Delivery is on fuel. A statement of SQL is
-- one step; two sessions interleave only between statements that each commit.
--
-- Not modelled: the database and browser set-up, HTTP routes, adapters of outside platforms,
-- logging, messages of errors, the times of change, the preparation of tasks, the native
-- workflow and the mini programs.
pub mod Prelude
pub mod Errors
pub mod Tasks
pub mod Queue
pub mod Worker
pub mod Plans
pub mod Accounts
pub mod Acquisition
pub mod Imports
pub mod Delivery
pub mod Workflow
