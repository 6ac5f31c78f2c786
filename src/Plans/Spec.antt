-- ===== src/Plans/Spec.antt =====
-- backend/src/backend/domain/plans/plan_spec.py, and the dicts by which accounts and CIDs are
-- configured. A text is the list of its code points; the keys of dicts are strings.
use automated_short_drama.Prelude.{ℕ, String, Bool, true, false, Option, none, some, List, codes}
use automated_short_drama.Prelude.Dicts.{lookup}
use automated_short_drama.Plans.Material.{MaterialPlan}

-- A value of a configuration. A datetime is whether it has a time zone and its microseconds, in UTC
-- where it has one.
pub data Value : Type 0 where
  text : List ℕ → Value
  flag : Bool → Value
  moment : Bool → ℕ → Value
  null : Value

abbrev pub Config : Type 0
Config = List (String × Value)

-- What `datetime` computes.
pub record DatetimeLibrary : Type 0 where
  -- str(moment)
  pub show : Bool → ℕ → List ℕ
  -- datetime.fromisoformat(s.replace("Z", "+00:00")), in UTC, a time without a zone read as UTC.
  pub fromisoformat : List ℕ → Option ℕ

abbrev bool_text : Bool → List ℕ
bool_text true = codes "True"
bool_text false = codes "False"

-- str(value)
abbrev as_text : DatetimeLibrary → Value → List ℕ
as_text lib (text s) = s
as_text lib (flag b) = bool_text b
as_text lib (moment aware t) = lib.show aware t
as_text lib null = codes "None"

abbrev text_or_empty : DatetimeLibrary → Option Value → List ℕ
text_or_empty lib none = codes ""
text_or_empty lib (some v) = as_text lib v

-- str(config.get(key, ""))
abbrev pub text_of : DatetimeLibrary → String → Config → List ℕ
text_of lib key config = text_or_empty lib (lookup key config)

pub record PlanSpec : Type 0 where
  pub drama_name : List ℕ
  pub platform : List ℕ
  pub task_name : List ℕ
  pub link_set : List (String × List ℕ)
  pub account_cids : List (List ℕ)
  pub product_id : Option (List ℕ)
  pub promotion_configs : List (String × List ℕ)
  pub material_groups : Option MaterialPlan
  pub expected_project_count : ℕ
  pub material_ids : List (List ℕ)
  pub title_packages : List (List ℕ)
  pub rule_version : Option (List ℕ)
