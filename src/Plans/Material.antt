-- ===== src/Plans/Material.antt =====
-- The grouping of materials in backend/src/backend/application/services/plan_rules.py, with
-- domain/rules/material_rule_range.py and MaterialPlan of domain/plans/plan_spec.py.
-- `math.ceil(a / b)` is the exact quotient rounded up, as it is for counts below 2^53.
pub mod Bounds
use automated_short_drama.Prelude.{
  ℕ, zero, suc, ◌+◌, ◌-◌, ◌*◌, ◌/◌, String, Bool, true, false, ◌&&◌, Option, none, some, List, [],
  ◌∷◌, if◌then◌else◌, select, least, ltb, leb,
}
use Prim.Native.Nat.{max, min}
use text.Mathlib.Text.{starts_with}
use automated_short_drama.Prelude.Int.{ℤ, pos, negsuc, int_leb}
use automated_short_drama.Errors.{Result, ok, err, value_error}

pub record MaterialRuleRange : Type 0 where
  pub min_material_count : ℤ
  pub max_material_count : Option ℤ
  pub strategy : String
  pub base_group_count : ℤ
  pub copy_count : ℤ
  pub group_size_cap : ℤ
  pub target_project_count : ℤ

pub record MaterialPlan : Type 0 where
  pub base_groups : ℕ
  pub copy_count : ℕ
  pub final_group_count : ℕ
  pub ad_limit_per_project : ℕ
  pub project_count : ℕ

-- max(z, n) for n ≥ 0
abbrev pub at_least : ℕ → ℤ → ℕ
at_least n (pos z) = max z n
at_least n (negsuc z) = n

-- math.ceil(a / b) for b > 0
abbrev pub ceil_div : ℕ → ℕ → ℕ
ceil_div a b = (a + b - 1) / b

unfoldable pub ceil_to_three_multiple : ℕ → ℕ
ceil_to_three_multiple value = ceil_div value 3 * 3

abbrev is_below_max : ℤ → Option ℤ → Bool
is_below_max count none = true
is_below_max count (some m) = int_leb count m

abbrev pub covers : ℤ → MaterialRuleRange → Bool
covers count rule =
    int_leb rule.min_material_count count && is_below_max count rule.max_material_count

-- max(..., key=min_material_count): the first of the greatest.
abbrev starts_later : MaterialRuleRange → MaterialRuleRange → Bool
starts_later a b = int_leb b.min_material_count a.min_material_count

unfoldable pub match_range : List MaterialRuleRange → ℕ → Option MaterialRuleRange
match_range ranges count = least starts_later (select (covers (pos count)) ranges)

-- The greatest of the caps that are positive, or else 30.
unfoldable pub greatest_cap : List MaterialRuleRange → ℕ
greatest_cap [] = 0
greatest_cap (r ∷ rs) = max (at_least 0 r.group_size_cap) (greatest_cap rs)

abbrev pub or_thirty : ℕ → ℕ
or_thirty zero = 30
or_thirty (suc n) = suc n

abbrev pub default_cap : List MaterialRuleRange → ℕ
default_cap ranges = or_thirty (greatest_cap ranges)

-- `_calculate_normal` without and with a range that covers the count.
unfoldable pub unmatched_plan : ℕ → ℕ → MaterialPlan
unmatched_plan count cap =
    let final_groups = ceil_to_three_multiple (ceil_div count cap) in
    record {
      base_groups = final_groups;
      copy_count = 0;
      final_group_count = final_groups;
      ad_limit_per_project = final_groups / 3;
      project_count = 3;
    }

abbrev normal_groups : ℕ → ℕ → ℕ → ℕ → ℕ
normal_groups count base copies cap =
    if leb (ceil_div count base) cap
    then base * (copies + 1)
    else ceil_to_three_multiple (ceil_div count cap)

unfoldable pub matched_plan : ℕ → MaterialRuleRange → MaterialPlan
matched_plan count rule =
    let base = at_least 1 rule.base_group_count in
    let copies = at_least 0 rule.copy_count in
    let final_groups = normal_groups count base copies (at_least 1 rule.group_size_cap) in
    record {
      base_groups = base;
      copy_count = copies;
      final_group_count = final_groups;
      ad_limit_per_project = final_groups / 3;
      project_count = at_least 1 rule.target_project_count;
    }

unfoldable pub normal_plan : ℕ → ℕ → Option MaterialRuleRange → MaterialPlan
normal_plan count cap none = unmatched_plan count cap
normal_plan count cap (some rule) = matched_plan count rule

unfoldable pub calculate_normal : ℕ → List MaterialRuleRange → MaterialPlan
calculate_normal count ranges = normal_plan count (default_cap ranges) (match_range ranges count)

abbrev per_group : ℕ → Option MaterialRuleRange → ℕ
per_group count none = if ltb count 20 then 2 else 3
per_group count (some rule) = at_least 1 rule.base_group_count

-- `_calculate_test` with the number of materials of a group.
unfoldable pub test_plan : ℕ → ℕ → MaterialPlan
test_plan count size =
    let groups = ceil_div count size in
    let ad_limit = min 10 (ceil_div groups 3) in
    record {
      base_groups = groups;
      copy_count = 0;
      final_group_count = groups;
      ad_limit_per_project = ad_limit;
      project_count = if ltb 0 ad_limit then ceil_div groups ad_limit else 0;
    }

unfoldable pub calculate_test : ℕ → List MaterialRuleRange → MaterialPlan
calculate_test count ranges = test_plan count (per_group count (match_range ranges count))

abbrev is_test_rule : MaterialRuleRange → Bool
is_test_rule rule = starts_with rule.strategy "TEST_"

abbrev test_or_normal : ℕ → List MaterialRuleRange → List MaterialRuleRange → MaterialPlan
test_or_normal count ranges [] = calculate_normal count ranges
test_or_normal count ranges (t ∷ ts) = calculate_test count (t ∷ ts)

abbrev empty_plan : MaterialPlan
empty_plan = record {
  base_groups = 0;
  copy_count = 0;
  final_group_count = 0;
  ad_limit_per_project = 0;
  project_count = 0;
}

unfoldable pub calculate : ℤ → List MaterialRuleRange → Result MaterialPlan
calculate (negsuc n) ranges = err value_error
calculate (pos zero) ranges = ok empty_plan
calculate (pos (suc n)) ranges = ok (test_or_normal (suc n) ranges (select is_test_rule ranges))
