-- ===== src/Plans/Builder.antt =====
-- backend/src/backend/application/services/plan_spec_service.py, with the rules of accounts, promotion
-- contents and names of application/services/plan_rules.py. The calendar is a parameter.
pub mod Cids
pub mod Names
mod Tests
use automated_short_drama.Prelude.{
  ℕ, String, ◌==◌, Bool, true, false, not, ◌&&◌, ◌||◌, Option, none, some, List, [], ◌∷◌, ◌++◌, map,
  if◌then◌else◌, codes, select, find, any, head?, nat_eq,
}
use automated_short_drama.Prelude.Chars.{chars_eq, member}
use automated_short_drama.Prelude.Chars.Blank.{is_blank}
use automated_short_drama.Prelude.Dicts.{lookup, has_key}
use automated_short_drama.Prelude.Int.{ℤ}
use automated_short_drama.Errors.{Result, ok, err, ◌>>=◌, value_error}
use automated_short_drama.Plans.Material.{MaterialRuleRange, MaterialPlan, calculate}
use automated_short_drama.Plans.Spec.{DatetimeLibrary, Value, flag, Config, PlanSpec, text_of}

abbrev pub link_types : List String
link_types = "IAA" ∷ "9.9" ∷ "2.9" ∷ []

-- What `date.strftime` and `datetime.astimezone` compute.
pub record Calendar : Type 0 where
  -- available_time.date().strftime("%Y%m%d")
  pub date_text : ℕ → List ℕ
  -- now.astimezone(_SHANGHAI_TZ).strftime("%Y%m%d")
  pub shanghai_date : ℕ → List ℕ
  -- now.astimezone(_SHANGHAI_TZ).strftime("%H%M%S")
  pub shanghai_time : ℕ → List ℕ

-- The plan types are texts of the code: 端付, 端免 and 测试.
abbrev pub plan_type_paid : List ℕ
plan_type_paid = codes "端付"

abbrev pub plan_type_free : List ℕ
plan_type_free = codes "端免"

abbrev pub plan_type_test : List ℕ
plan_type_test = codes "测试"

-- _NAME_MARKERS.get(plan_type)
abbrev pub name_marker : List ℕ → Option (List ℕ)
name_marker plan_type =
    if chars_eq plan_type plan_type_paid
    then some (codes "ubr")
    else if chars_eq plan_type plan_type_free
    then some (codes "bxr")
    else if chars_eq plan_type plan_type_test
    then some (codes "cbo")
    else none

-- `PLATFORM_LABELS.get(platform, platform)`
abbrev platform_label : List ℕ → List ℕ
platform_label platform =
    if chars_eq platform (codes "TOMATO")
    then codes "番茄"
    else if chars_eq platform (codes "JUBIAN")
    then codes "剧变"
    else if chars_eq platform (codes "OCEAN")
    then codes "巨量"
    else if chars_eq platform (codes "DELIVERY")
    then codes "投放系统"
    else platform

-- The prefix of one of the three link types.
abbrev prefix_of : String → List ℕ
prefix_of link_type =
    if link_type == "IAA"
    then codes "iaa"
    else if link_type == "9.9"
    then codes "9.9"
    else codes "2.9"

unfoldable pub build_promotion_config_name : String → List ℕ → List ℕ → List ℕ
build_promotion_config_name link_type platform drama_name =
    prefix_of link_type ++ (codes "-" ++ (platform_label platform ++ (codes "-" ++ drama_name)))

-- PromotionContentMappingRule.build
abbrev promotion_configs_of : List ℕ → List ℕ → List (String × List ℕ) → List (String × List ℕ)
promotion_configs_of platform drama_name links =
    map (λ t. (t, build_promotion_config_name t platform drama_name))
      (select (λ t. has_key t links) link_types)

abbrev pub filled_link : Option (List ℕ) → Bool
filled_link none = false
filled_link (some link) = not (is_blank link)

abbrev pub link_or_empty : Option (List ℕ) → List ℕ
link_or_empty none = []
link_or_empty (some link) = link

-- {t: links[t] for t in LINK_TYPES if links.get(t)}
unfoldable pub link_set_of : List (String × List ℕ) → List (String × List ℕ)
link_set_of links =
    map (λ t. (t, link_or_empty (lookup t links)))
      (select (λ t. filled_link (lookup t links)) link_types)

abbrev pub primary_plan_type : List (String × List ℕ) → Bool → List ℕ
primary_plan_type link_set include_test =
    if include_test
    then plan_type_test
    else if has_key "9.9" link_set || has_key "2.9" link_set
    then plan_type_paid
    else plan_type_free

-- What a plan is built from: of the task its name, platform and time are read.
pub record PlanRequest : Type 0 where
  pub drama_name : List ℕ
  pub platform : List ℕ
  pub available_time : ℕ
  pub links : List (String × List ℕ)
  pub accounts : List Config
  pub product_id : Option (List ℕ)
  pub material_count : ℤ
  pub material_ranges : List MaterialRuleRange
  pub rule_version : Option (List ℕ)
  pub include_test : Bool
  pub material_ids : List (List ℕ)
  pub title_packages : List (List ℕ)
  pub now : ℕ

module _ (calendar : Calendar) where
  abbrev pub name_with : List ℕ → List ℕ → ℕ → ℕ → List ℕ → Option (List ℕ) → Result (List ℕ)
  name_with platform drama_name available_time now plan_type none = err value_error
  name_with platform drama_name available_time now plan_type (some marker) = ok (
      platform
      ++ (codes "#"
          ++ (plan_type
              ++ (drama_name
                  ++ (calendar.date_text available_time
                      ++ (marker
                          ++ (codes "-"
                              ++ (calendar.shanghai_date now
                                  ++ (codes "-"
                                      ++ (calendar.shanghai_time now ++ codes "-1"))))))))))

  -- TaskNameRule.build
  unfoldable pub build_name : List ℕ → List ℕ → ℕ → ℕ → List ℕ → Result (List ℕ)
  build_name platform drama_name available_time now plan_type =
      name_with platform drama_name available_time now plan_type (name_marker plan_type)

-- The CIDs of a list, each where it first stands; `seen` are those before it.
unfoldable pub dedupe : List (List ℕ) → List (List ℕ) → List (List ℕ)
dedupe seen [] = []
dedupe seen (v ∷ vs) =
    let known = member v seen in
    let rest = dedupe (if known then seen else v ∷ seen) vs in if known then rest else v ∷ rest

abbrev pub is_iaa_role : List ℕ → Bool
is_iaa_role s =
    chars_eq s (codes "B1")
    || (chars_eq s (codes "B4") || (chars_eq s (codes "B7") || chars_eq s (codes "BX")))

-- role.split("-")[0]
unfoldable pub before_dash : List ℕ → List ℕ
before_dash [] = []
before_dash (c ∷ s) = let rest = before_dash s in if nat_eq c 0x2d then [] else c ∷ rest

abbrev is_test : Option Value → Bool
is_test (some (flag true)) = true
is_test _ = false

abbrev or_first : Option Config → List Config → Option Config
or_first none candidates = head? candidates
or_first (some a) candidates = some a

abbrev with_cid : List (List ℕ) → List ℕ → List (List ℕ)
with_cid cids cid = if not (is_blank cid) && not (member cid cids) then cids ++ cid ∷ [] else cids

module _ (lib : DatetimeLibrary) where
  abbrev pub role_of : Config → List ℕ
  role_of account = text_of lib "role" account

  abbrev pub cid_of : Config → List ℕ
  cid_of account = text_of lib "cid" account

  -- _cids_by_roles: the CIDs of the accounts whose role fits.
  unfoldable pub cids_by_roles : (List ℕ → Bool) → List Config → List (List ℕ)
  cids_by_roles fits accounts =
      dedupe [] (map cid_of (select (λ a. fits (role_of a) && not (is_blank (cid_of a))) accounts))

  -- The account that is marked as a test one, or else the first with a role of B4.
  unfoldable pub test_account : List Config → Option Config
  test_account accounts =
      let candidates = select (λ a. chars_eq (before_dash (role_of a)) (codes "B4")) accounts in
      or_first (find (λ a. is_test (lookup "is_test" a)) candidates) candidates

  abbrev with_test : List (List ℕ) → Option Config → List (List ℕ)
  with_test cids none = cids
  with_test cids (some a) = with_cid cids (cid_of a)

  abbrev iaa_cids : List Config → Bool → List (List ℕ)
  iaa_cids accounts include_test =
      let cids = cids_by_roles is_iaa_role accounts in
      if include_test then with_test cids (test_account accounts) else cids

  -- AccountRoutingRule.build, read at a link type.
  abbrev pub routed : List (String × List ℕ) → List Config → Bool → String → List (List ℕ)
  routed link_set accounts include_test link_type =
      if not (has_key link_type link_set)
      then []
      else if link_type == "IAA"
      then iaa_cids accounts include_test
      else if link_type == "9.9"
      then cids_by_roles (λ s. chars_eq s (codes "B1-9.9")) accounts
      else cids_by_roles (λ s. chars_eq s (codes "B2-2.9")) accounts

  unfoldable pub account_cids_of : List (String × List ℕ) → List Config → Bool → List (List ℕ)
  account_cids_of link_set accounts include_test = dedupe [] (
      routed link_set accounts include_test "IAA"
      ++ (routed link_set accounts include_test "9.9"
          ++ routed link_set accounts include_test "2.9"))

  abbrev pub plan_with : PlanRequest → MaterialPlan → List ℕ → PlanSpec
  plan_with request material_groups task_name = record {
    drama_name = request.drama_name;
    platform = request.platform;
    task_name = task_name;
    link_set = link_set_of request.links;
    account_cids =
        account_cids_of (link_set_of request.links) request.accounts request.include_test;
    product_id = request.product_id;
    promotion_configs =
        promotion_configs_of request.platform request.drama_name (link_set_of request.links);
    material_groups = some material_groups;
    expected_project_count = material_groups.project_count;
    material_ids = request.material_ids;
    title_packages = request.title_packages;
    rule_version = request.rule_version;
  }

  -- PlanSpecBuilder.build
  unfoldable pub build : Calendar → PlanRequest → Result PlanSpec
  build calendar request =
      calculate request.material_count request.material_ranges >>= (λ material_groups.
        build_name calendar request.platform request.drama_name request.available_time request.now
          (primary_plan_type (link_set_of request.links) request.include_test)
        >>= (λ task_name. ok (plan_with request material_groups task_name)))
