-- ===== src/Plans/Form.antt =====
-- backend/src/backend/domain/plans/delivery_form_spec.py: the form of the delivery page. The three
-- rules with fixed texts and the switches, which are constants of the class, are left out.
pub mod Rows
use automated_short_drama.Prelude.{
  ℕ, zero, suc, String, Bool, true, false, not, ◌&&◌, ◌||◌, Option, none, some, List, [], ◌∷◌, ◌++◌,
  map, if◌then◌else◌, codes, select, length, nat_eq,
}
use automated_short_drama.Prelude.Chars.{chars_eq, strip, ends_with, distinct}
use automated_short_drama.Prelude.Chars.Blank.{is_blank, blank}
use automated_short_drama.Prelude.Dicts.{lookup, has_key}
use automated_short_drama.Errors.{Result, ok, err, ◌>>=◌, validation}
use automated_short_drama.Plans.Material.{MaterialPlan}
use automated_short_drama.Plans.Spec.{DatetimeLibrary, Config, PlanSpec, text_of}

pub record CidFormRow : Type 0 where
  pub cid : List ℕ
  pub douyin_account : List ℕ
  pub account_open_preset : List ℕ
  pub ad_preset : List ℕ
  pub promotion_content : List ℕ
  pub link_type : String

pub data PlanType : Type 0 where
  paid free : PlanType

pub record DeliveryFormSpec : Type 0 where
  pub drama_name : List ℕ
  pub task_name : List ℕ
  pub plan_type : PlanType
  pub cid_rows : List CidFormRow
  pub material_ids : List (List ℕ)
  pub title_packages : List (List ℕ)
  pub material_group_count : ℕ
  pub ad_limit_per_project : ℕ
  pub project_count : ℕ

abbrev named : List ℕ → String → Bool
named s constant = chars_eq s (codes constant)

-- _DELIVERY_TYPE_TO_LINK.get(delivery_type)
unfoldable pub link_of_delivery_type : List ℕ → Option String
link_of_delivery_type s =
    if named s "IAA" || (named s "B1" || (named s "B4" || (named s "B7" || named s "BX")))
    then some "IAA"
    else if named s "B1-9.9" || named s "9.9"
    then some "9.9"
    else if named s "B2-2.9" || named s "2.9"
    then some "2.9"
    else none

abbrev empty_or : Option (List ℕ) → List ℕ
empty_or none = []
empty_or (some s) = s

-- str(plan.promotion_configs.get(link_type, "")).strip()
abbrev pub promotion_of : PlanSpec → String → List ℕ
promotion_of plan link_type = strip (empty_or (lookup link_type plan.promotion_configs))

module _ (lib : DatetimeLibrary) (plan : PlanSpec) (cid_configs : List Config) where
  -- by_cid.get(cid, [])
  abbrev pub configs_of : List ℕ → List Config
  configs_of cid = select (λ c. chars_eq (text_of lib "cid" c) cid) cid_configs

  -- The link type of a configuration, where the plan has a link of it.
  abbrev pub linked : Option String → Result String
  linked none = err validation
  linked (some link_type) = if has_key link_type plan.link_set then ok link_type else err validation

  abbrev pub promoted : String → Result (List ℕ)
  promoted link_type =
      let promotion = promotion_of plan link_type in
      if is_blank promotion
      then err validation
      else if ends_with (codes "-" ++ plan.drama_name) promotion
      then ok promotion
      else err validation

  abbrev field : String → Config → List ℕ
  field key config = strip (text_of lib key config)

  -- `missing`
  abbrev pub incomplete : Config → Bool
  incomplete config =
      is_blank (field "douyin_account" config)
      || (is_blank (field "account_open_preset" config) || is_blank (field "ad_preset" config))

  abbrev pub complete_row : List ℕ → Config → String → List ℕ → CidFormRow
  complete_row cid config link_type promotion = record {
    cid = cid;
    douyin_account = field "douyin_account" config;
    account_open_preset = field "account_open_preset" config;
    ad_preset = field "ad_preset" config;
    promotion_content = promotion;
    link_type = link_type;
  }

  abbrev pub row_with : List ℕ → Config → String → List ℕ → Result CidFormRow
  row_with cid config link_type promotion =
      if incomplete config then err validation else ok (complete_row cid config link_type promotion)

  abbrev pub configured : List ℕ → Config → Result CidFormRow
  configured cid config =
      linked (link_of_delivery_type (text_of lib "delivery_type" config)) >>= (λ link_type.
        promoted link_type >>= (λ promotion. row_with cid config link_type promotion))

  -- The row of a CID that has exactly one configuration.
  abbrev pub unique_row : List ℕ → List Config → Result CidFormRow
  unique_row cid (config ∷ []) = configured cid config
  unique_row cid _ = err validation

  unfoldable pub rows_of : List (List ℕ) → Result (List CidFormRow)
  rows_of [] = ok []
  rows_of (cid ∷ cids) =
      let rest = rows_of cids in
      unique_row cid (configs_of cid) >>= (λ row. rest >>= (λ rows. ok (row ∷ rows)))

  -- tuple(item.strip() for item in items if item.strip())
  abbrev pub filled : List (List ℕ) → List (List ℕ)
  filled items = map strip (select (λ item. not (blank item)) items)

  abbrev pub no_rows : List CidFormRow → Bool
  no_rows [] = true
  no_rows (r ∷ rs) = false

  abbrev no_texts : List (List ℕ) → Bool
  no_texts [] = true
  no_texts (t ∷ ts) = false

  abbrev plan_type_of : PlanType
  plan_type_of = if has_key "9.9" plan.link_set || has_key "2.9" plan.link_set then paid else free

  abbrev pub form_with : List CidFormRow → Option MaterialPlan → Result DeliveryFormSpec
  form_with rows none = err validation
  form_with rows (some groups) = ok (record {
    drama_name = plan.drama_name;
    task_name = plan.task_name;
    plan_type = plan_type_of;
    cid_rows = rows;
    material_ids = filled plan.material_ids;
    title_packages = filled plan.title_packages;
    material_group_count = groups.final_group_count;
    ad_limit_per_project = groups.ad_limit_per_project;
    project_count = plan.expected_project_count;
  })

  abbrev pub bad_materials : List (List ℕ) → Bool
  bad_materials materials = no_texts materials || not (distinct materials)

  abbrev pub bad_titles : List (List ℕ) → Bool
  bad_titles titles = not (nat_eq (length titles) 6) || not (distinct titles)

  abbrev pub checked_form : List CidFormRow → Result DeliveryFormSpec
  checked_form rows =
      if no_rows rows
      then err validation
      else if bad_materials (filled plan.material_ids)
      then err validation
      else if bad_titles (filled plan.title_packages)
      then err validation
      else form_with rows plan.material_groups

  unfoldable pub build_delivery_form_spec : Result DeliveryFormSpec
  build_delivery_form_spec = rows_of plan.account_cids >>= (λ rows. checked_form rows)
