-- ===== src/Plans/Tests.antt =====
-- The grouping of materials on concrete rules.
use automated_short_drama.Prelude.{◌⊎◌, some, [], ◌∷◌}
use automated_short_drama.Prelude.Int.{pos}
use automated_short_drama.Plans.Material.{MaterialRuleRange, match_range, calculate_normal}
use automated_short_drama.Plans.Material.Bounds.{
  Copied, Regrouped, group_cap, calculate_normal-holds,
}

abbrev rule : MaterialRuleRange
rule = record {
  min_material_count = pos 1;
  max_material_count = some (pos 100);
  strategy = "NORMAL";
  base_group_count = pos 2;
  copy_count = pos 1;
  group_size_cap = pos 30;
  target_project_count = pos 3;
}

calculate_normal-holds_example :
    Copied 40 (group_cap (rule ∷ []) (match_range (rule ∷ []) 40)) (calculate_normal 40 (rule ∷ []))
    ⊎ Regrouped 40
        (group_cap (rule ∷ []) (match_range (rule ∷ []) 40))
        (calculate_normal 40 (rule ∷ []))
calculate_normal-holds_example = calculate_normal-holds 40 (rule ∷ [])
