-- ===== src/Plans/Builder/Tests.antt =====
-- A plan that is built from concrete accounts.
use automated_short_drama.Prelude.{◌≡◌, refl, String, true, false, none, [], ◌∷◌, ◌||◌, codes}
use automated_short_drama.Prelude.Chars.{distinct, member, chars_eq}
use automated_short_drama.Prelude.Dicts.{lookup, has_key}
use automated_short_drama.Prelude.Int.{pos}
use automated_short_drama.Errors.{Result, ok, err}
use automated_short_drama.Plans.Material.{calculate}
use automated_short_drama.Plans.Spec.{DatetimeLibrary, text, Config, PlanSpec}
use automated_short_drama.Plans.Validation.{check_task_name}
use automated_short_drama.Plans.Builder.{
  Calendar, PlanRequest, build, build_name, link_set_of, account_cids_of, dedupe, cids_by_roles,
}
use automated_short_drama.Plans.Builder.Cids.{build-account_cids, serves, tests}
use automated_short_drama.Plans.Builder.Names.{is_named, build-names}

abbrev lib : DatetimeLibrary
lib = record { show = λ aware t. []; fromisoformat = λ s. none }

abbrev calendar : Calendar
calendar = record {
  date_text = λ t. codes "20261126";
  shanghai_date = λ t. codes "20261126";
  shanghai_time = λ t. codes "100000";
}

abbrev account : String → String → Config
account cid role = ("cid", text (codes cid)) ∷ ("role", text (codes role)) ∷ []

abbrev request : PlanRequest
request = record {
  drama_name = codes "长安";
  platform = codes "TOMATO";
  available_time = 0;
  links = ("2.9", codes "") ∷ ("IAA", codes "https://x") ∷ ("9.9", codes "https://y") ∷ [];
  accounts = account "1" "B1" ∷ account "2" "B1-9.9" ∷ account "1" "B7" ∷ account "3" "B2-2.9" ∷ [];
  product_id = none;
  material_count = pos 0;
  material_ranges = [];
  rule_version = none;
  include_test = false;
  material_ids = [];
  title_packages = [];
  now = 0;
}

abbrev empty : PlanSpec
empty = record {
  drama_name = [];
  platform = [];
  task_name = [];
  link_set = [];
  account_cids = [];
  product_id = none;
  promotion_configs = [];
  material_groups = none;
  expected_project_count = 0;
  material_ids = [];
  title_packages = [];
  rule_version = none;
}

abbrev value : Result PlanSpec → PlanSpec
value (err e) = empty
value (ok plan) = plan

abbrev plan : PlanSpec
plan = value (build lib calendar request)

plan_is : build lib calendar request ≡ ok plan
unfolding build calculate build_name chars_eq has_key link_set_of lookup
plan_is = refl

plan_cids : plan.account_cids ≡ codes "1" ∷ codes "2" ∷ []
unfolding build calculate build_name chars_eq has_key link_set_of lookup account_cids_of dedupe
    cids_by_roles
plan_cids = refl

build-account_cids_example :
    (distinct plan.account_cids ≡ true)
    × (member (codes "2") plan.account_cids ≡ (
        serves lib plan.link_set (codes "2") request.accounts
        || tests lib request.include_test plan.link_set (codes "2") request.accounts))
build-account_cids_example = build-account_cids lib calendar request plan (codes "2") plan_is

build-names_example :
    (check_task_name lib 0 [] plan ≡ [])
    × (has_key "9.9" plan.promotion_configs ≡ has_key "9.9" plan.link_set)
    × (is_named plan.drama_name (lookup "9.9" plan.promotion_configs) ≡ true)
build-names_example = build-names lib calendar request plan 0 [] "9.9" plan_is
