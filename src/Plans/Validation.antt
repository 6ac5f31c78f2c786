-- ===== src/Plans/Validation.antt =====
-- backend/src/backend/application/services/plan_validation_service.py: the checks of a plan before
-- it is submitted. Of an issue its code and its field are kept, not its message.
pub mod Passed
use automated_short_drama.Prelude.{
  ℕ, String, ◌==◌, Bool, true, false, not, ◌&&◌, ◌||◌, Option, none, some, List, [], ◌∷◌, ◌++◌,
  if◌then◌else◌, codes, select, any, ltb,
}
use automated_short_drama.Prelude.Chars.{chars_eq, strip, contains}
use automated_short_drama.Prelude.Chars.Blank.{blank}
use automated_short_drama.Prelude.Dicts.{lookup, has_key}
use automated_short_drama.Plans.Material.{MaterialPlan}
use automated_short_drama.Plans.Spec.{
  DatetimeLibrary, Value, text, flag, moment, null, Config, PlanSpec, text_of,
}

pub data IssueCode : Type 0 where
  link_set_empty cid_config_missing douyin_account_empty preset_incomplete template_account_mismatch
        material_count_invalid task_name_invalid :
      IssueCode

pub record ValidationIssue : Type 0 where
  pub code : IssueCode
  pub field : String

pub record ValidationReport : Type 0 where
  pub passed : Bool
  pub issues : List ValidationIssue

-- _non_empty(config.get(key))
abbrev pub non_empty : Option Value → Bool
non_empty (some (text s)) = not (blank s)
non_empty _ = false

abbrev is_true : Option Value → Bool
is_true (some (flag true)) = true
is_true _ = false

abbrev issue : IssueCode → String → ValidationIssue
issue code field = record { code = code; field = field }

-- The issue of a check that failed.
abbrev pub unless : Bool → IssueCode → String → List ValidationIssue
unless true code field = []
unless false code field = issue code field ∷ []

-- delivery_type in _LINK_TYPE_ROLES[link_type]
abbrev pub has_role : String → List ℕ → Bool
has_role link_type delivery_type =
    if link_type == "9.9"
    then chars_eq delivery_type (codes "B1-9.9") || chars_eq delivery_type (codes "9.9")
    else chars_eq delivery_type (codes "B2-2.9") || chars_eq delivery_type (codes "2.9")

module _ (lib : DatetimeLibrary) (now : ℕ) where
  -- _as_aware_datetime
  abbrev as_aware_datetime : Option Value → Option ℕ
  as_aware_datetime (some (moment aware t)) = some t
  as_aware_datetime (some (text s)) = lib.fromisoformat s
  as_aware_datetime _ = none

  abbrev has_begun : Option ℕ → Bool
  has_begun none = false
  has_begun (some t) = not (ltb now t)

  abbrev not_over : Option ℕ → Bool
  not_over none = false
  not_over (some t) = not (ltb t now)

  -- `config.get("effective_to")` where the key is missing or None.
  abbrev open_or_not_over : Option Value → Bool
  open_or_not_over none = true
  open_or_not_over (some null) = true
  open_or_not_over (some v) = not_over (as_aware_datetime (some v))

  unfoldable pub is_effective : Config → Bool
  is_effective config =
      has_begun (as_aware_datetime (lookup "effective_from" config))
      && open_or_not_over (lookup "effective_to" config)

  abbrev is_valid_for : List ℕ → Config → Bool
  is_valid_for cid config =
      chars_eq (text_of lib "cid" config) cid
      && (non_empty (lookup "subject" config)
          && (non_empty (lookup "delivery_type" config)
              && (is_true (lookup "enabled" config) && is_effective config)))

  module _ (cid_configs : List Config) where
    abbrev pub valid_configs_for : List ℕ → List Config
    valid_configs_for cid = select (is_valid_for cid) cid_configs

    -- The issues of a CID with its valid configurations.
    abbrev pub config_issues : List Config → List ValidationIssue
    config_issues (config ∷ []) =
        unless (non_empty (lookup "douyin_account" config)) douyin_account_empty
          "cid_configs.douyin_account"
        ++ unless
            (non_empty (lookup "ad_preset" config)
              && non_empty (lookup "account_open_preset" config))
            preset_incomplete "cid_configs.presets"
    config_issues _ = issue cid_config_missing "account_cids" ∷ []

    unfoldable pub check_cid_configs : List (List ℕ) → List ValidationIssue
    check_cid_configs [] = []
    check_cid_configs (cid ∷ cids) = config_issues (valid_configs_for cid) ++ check_cid_configs cids

    -- The delivery type of a CID with exactly one valid configuration.
    abbrev pub covers_with : String → List Config → Bool
    covers_with link_type (config ∷ []) = has_role link_type (text_of lib "delivery_type" config)
    covers_with link_type _ = false

    -- link_type in covered
    abbrev pub is_covered : String → List (List ℕ) → Bool
    is_covered link_type cids = any (λ cid. covers_with link_type (valid_configs_for cid)) cids

    abbrev pub check_template : PlanSpec → String → String → List ValidationIssue
    check_template spec link_type field =
        unless (not (has_key link_type spec.link_set) || is_covered link_type spec.account_cids)
          template_account_mismatch field

    abbrev pub check_template_accounts : PlanSpec → List ValidationIssue
    check_template_accounts spec =
        check_template spec "9.9" "link_set.9.9" ++ check_template spec "2.9" "link_set.2.9"

    abbrev pub is_filled {ℓ} : {A : Type ℓ} → List A → Bool
    is_filled [] = false
    is_filled (x ∷ xs) = true

    abbrev pub check_link_set : PlanSpec → List ValidationIssue
    check_link_set spec = unless (is_filled spec.link_set) link_set_empty "link_set"

    abbrev pub has_groups : Option MaterialPlan → ℕ → Bool
    has_groups none count = false
    has_groups (some groups) count = ltb 0 count

    abbrev pub check_material_count : PlanSpec → List ValidationIssue
    check_material_count spec =
        unless (has_groups spec.material_groups spec.expected_project_count) material_count_invalid
          "material_groups"

    abbrev pub has_marker : List ℕ → Bool
    has_marker name =
        contains (codes "ubr") name || (contains (codes "bxr") name || contains (codes "cbo") name)

    abbrev pub check_task_name : PlanSpec → List ValidationIssue
    check_task_name spec = unless (has_marker spec.task_name) task_name_invalid "task_name"

    abbrev pub no_issues : List ValidationIssue → Bool
    no_issues [] = true
    no_issues (i ∷ issues) = false

    unfoldable pub issues_of : PlanSpec → List ValidationIssue
    issues_of spec =
        check_link_set spec
        ++ (check_cid_configs spec.account_cids
            ++ (check_template_accounts spec
                ++ (check_material_count spec ++ check_task_name spec)))

    unfoldable pub validate : PlanSpec → ValidationReport
    validate spec = record { passed = no_issues (issues_of spec); issues = issues_of spec }
