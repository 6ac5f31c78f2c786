-- ===== src/Delivery/Tests.antt =====
-- The execution of a delivery plan against a platform that counts the calls on its clock.
use automated_short_drama.Prelude.{
  ℕ, ◌+◌, ◌≡◌, ◌≢◌, refl, String, Bool, true, false, none, some, List, [], ◌∷◌, codes, arith, map,
  any, length, All, ◌↔◌,
}
use automated_short_drama.Prelude.Dicts.{lookup, has_key}
use automated_short_drama.Prelude.Chars.{
  strip, chars_eq, drop_spaces, contains, starts_with, ends_with, distinct,
}
use automated_short_drama.Prelude.Rows.{update_where}
use automated_short_drama.Errors.{Result, ok, err, external}
use automated_short_drama.Tasks.Repository.{get}
use automated_short_drama.Tasks.Ledger.{add, update}
use automated_short_drama.Tasks.Task.{DramaTask, running}
use automated_short_drama.Plans.Spec.{DatetimeLibrary, Value, text, flag, null, Config, PlanSpec}
use automated_short_drama.Plans.Form.{
  free, DeliveryFormSpec, build_delivery_form_spec, rows_of, link_of_delivery_type,
}
use automated_short_drama.Plans.Form.Rows.{Supported, Complete, build_delivery_form_spec-Supported}
use automated_short_drama.Plans.Validation.{validate, issues_of, check_cid_configs, is_effective}
use automated_short_drama.Plans.Validation.Passed.{Valid, validate-Valid}
use automated_short_drama.Delivery.Flow.{Platform, poll_until_completed, poll_times, can_submit}
use automated_short_drama.Delivery.Flow.Ends.{poll_until_completed-ends}
use automated_short_drama.Delivery.Standard.{
  DeliverySettings, DeliveryState, execute, create_configs, finalize_completed, poll, submit,
  completed, manual_review,
}
use automated_short_drama.Delivery.Standard.Completed.{execute-completed, execute-refused, Shown}
use automated_short_drama.Delivery.Standard.Failed.{execute-not_completed, is_done}
use automated_short_drama.Delivery.Standard.Retry.{execute-retry_safe, NothingSubmitted}

abbrev lib : DatetimeLibrary
lib = record { show = λ aware t. []; fromisoformat = λ s. some (length s) }

abbrev config : String → Value → Config
config cid enabled =
    ("cid", text (codes cid))
    ∷ ("subject", text (codes "s"))
    ∷ ("delivery_type", text (codes "B1"))
    ∷ ("enabled", enabled)
    ∷ ("effective_from", text (codes "t"))
    ∷ ("effective_to", null)
    ∷ ("douyin_account", text (codes "d"))
    ∷ ("ad_preset", text (codes "a"))
    ∷ ("account_open_preset", text (codes "o"))
    ∷ []

abbrev plan : PlanSpec
plan = record {
  drama_name = codes "长安";
  platform = codes "TOMATO";
  task_name = codes "TOMATO#bxr";
  link_set = ("IAA", codes "https://x") ∷ [];
  account_cids = codes "1" ∷ [];
  product_id = none;
  promotion_configs = ("IAA", codes "iaa-番茄-长安") ∷ [];
  material_groups = some (record {
    base_groups = 3;
    copy_count = 0;
    final_group_count = 3;
    ad_limit_per_project = 1;
    project_count = 3;
  });
  expected_project_count = 3;
  material_ids = codes "m1" ∷ codes "m2" ∷ [];
  title_packages = codes "a" ∷ codes "b" ∷ codes "c" ∷ codes "d" ∷ codes "e" ∷ codes "f" ∷ [];
  rule_version = none;
}

abbrev configs : List Config
configs = config "1" (flag true) ∷ config "2" (flag false) ∷ []

abbrev value : {A : Type 0} → A → Result A → A
value default (err e) = default
value default (ok a) = a

abbrev no_form : DeliveryFormSpec
no_form = record {
  drama_name = [];
  task_name = [];
  plan_type = free;
  cid_rows = [];
  material_ids = [];
  title_packages = [];
  material_group_count = 0;
  ad_limit_per_project = 0;
  project_count = 0;
}

abbrev form : DeliveryFormSpec
form = value no_form (build_delivery_form_spec lib plan configs)

form_is : build_delivery_form_spec lib plan configs ≡ ok form
unfolding build_delivery_form_spec rows_of chars_eq lookup link_of_delivery_type has_key strip
    ends_with starts_with distinct
form_is = refl

build_delivery_form_spec-Supported_example :
    (map (λ r. r.cid) form.cid_rows ≡ plan.account_cids)
    × All (Supported lib plan configs) form.cid_rows
    × Complete lib plan configs form
build_delivery_form_spec-Supported_example =
    build_delivery_form_spec-Supported lib plan configs form form_is

validate-Valid_example : ((validate lib 9 configs plan).passed ≡ true) ↔ Valid lib 9 configs plan
validate-Valid_example = validate-Valid lib 9 configs plan

-- The submission answers so; the search finds nothing; a poll finds the task completed.
abbrev platform : Result String → Result {0} Unit → Platform ℕ
platform submitted marked = record {
  find_or_create_drama_asset = λ drama link w. (
    ok (record { delivery_drama_id = "a"; drama_name = drama; link = link; album_id = "" }),
    w + 1,
  );
  ensure_promotion_config = λ asset link_type link drama name w. (ok "p", w + 1);
  submit_plan = λ form w. (submitted, w + 1);
  find_task_by_idempotency_key = λ name w. (ok none, w + 1);
  poll_task_status = λ id w. (ok "COMPLETED", w + 1);
  write_completion = λ key w. (marked, w + 1);
  now = λ w. w;
  sleep = λ n w. w + n;
}

abbrev settings : Bool → DeliverySettings ℕ
settings allow = record {
  allow_final_submit = allow;
  use_real_adapters = true;
  poll_interval_seconds = 0;
  poll_timeout_seconds = 7200;
  on_poll_wait = none;
}

abbrev task : DramaTask
task = record {
  drama_name = "长安";
  platform = "TOMATO";
  available_time = 0;
  end_type = "NATIVE";
  id = "t1";
  source_key = "";
  sheet_row = some 3;
  owner = none;
  status = running;
  source_links = [];
  link_set = [];
  link_status = "";
  current_stage = "";
  target_stage = "";
  delivery_drama_id = "";
  promotion_configs = [];
  confirmed_drama_match = none;
}

abbrev state : DeliveryState ℕ
state = record { tasks = task ∷ []; ledgers = []; world = 0 }

poll_until_completed-ends_example :
    (poll_until_completed (platform (ok "x") (ok tt)) none 5 2 20 "x" 0).0 ≢ none
poll_until_completed-ends_example =
    poll_until_completed-ends (platform (ok "x") (ok tt)) (λ n w. omega arith) (λ id w. omega arith)
      none tt 5 2 20 "x" 0

execute-completed_example :
    let done =
      execute
        (platform (ok "x") (ok tt))
        (settings true)
        (λ s. "name")
        "l1"
        "t1"
        7
        plan
        lib
        9
        configs
        state in
    ((validate lib 9 configs plan).passed ≡ true)
    × (true ≡ true)
    × (true ≡ true)
    × Shown (platform (ok "x") (ok tt)) (settings true) (λ s. "name") "l1" "t1" 7 plan done.0 done.1
unfolding validate issues_of check_cid_configs chars_eq lookup strip is_effective has_key contains
    starts_with execute can_submit build_delivery_form_spec rows_of link_of_delivery_type ends_with
    distinct poll_times create_configs finalize_completed poll submit drop_spaces update_where add
    update get
execute-completed_example =
    execute-completed (platform (ok "x") (ok tt)) (settings true) (λ s. "name") "l1" "t1" 7 plan lib
      9 configs state refl

execute-refused_example :
    (execute
      (platform (ok "x") (ok tt))
      (settings false)
      (λ s. "name")
      "l1"
      "t1"
      7
      plan
      lib
      9
      configs
      state).1
    ≡ state
unfolding validate issues_of check_cid_configs chars_eq lookup strip is_effective has_key contains
    starts_with
execute-refused_example =
    execute-refused (platform (ok "x") (ok tt)) (settings false) (λ s. "name") "l1" "t1" 7 plan lib
      9 configs state refl

not_completed : manual_review ≢ completed
not_completed e = cc

execute-not_completed_example :
    let done =
      execute
        (platform (ok "x") (err (external "E")))
        (settings true)
        (λ s. "name")
        "l1"
        "t1"
        7
        plan
        lib
        9
        configs
        state in
    any (is_done "t1") (done.1).ledgers ≡ false
unfolding validate issues_of check_cid_configs chars_eq lookup strip is_effective has_key contains
    starts_with execute can_submit build_delivery_form_spec rows_of link_of_delivery_type ends_with
    distinct poll_times create_configs finalize_completed poll submit drop_spaces update_where add
    update get
execute-not_completed_example =
    execute-not_completed (platform (ok "x") (err (external "E"))) (settings true) (λ s. "name")
      "l1" "t1" 7 plan lib 9 configs state not_completed

execute-retry_safe_example :
    let done =
      execute
        (platform (err (external "RESULT_UNCERTAIN")) (ok tt))
        (settings true)
        (λ s. "name")
        "l1"
        "t1"
        7
        plan
        lib
        9
        configs
        state in
    NothingSubmitted
      (platform (err (external "RESULT_UNCERTAIN")) (ok tt))
      (settings true)
      (λ s. "name")
      "l1"
      "t1"
      7
      plan
      state
      done.1
unfolding validate issues_of check_cid_configs chars_eq lookup strip is_effective has_key contains
    starts_with execute can_submit build_delivery_form_spec rows_of link_of_delivery_type ends_with
    distinct poll_times create_configs finalize_completed poll submit drop_spaces update_where add
    update get
execute-retry_safe_example =
    execute-retry_safe (platform (err (external "RESULT_UNCERTAIN")) (ok tt)) (settings true)
      (λ s. "name") "l1" "t1" 7 plan lib 9 configs state refl

abbrev twice : List Config
twice = config "1" (flag true) ∷ config "1" (flag false) ∷ []

-- The plan passes the validation all the same.
twice_passes : (validate lib 9 twice plan).passed ≡ true
unfolding validate issues_of check_cid_configs chars_eq lookup strip is_effective has_key contains
    starts_with
twice_passes = refl
