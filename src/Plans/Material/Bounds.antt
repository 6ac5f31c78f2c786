-- ===== src/Plans/Material/Bounds.antt =====
-- The groups of a plan against its materials, their cap and its projects.
use automated_short_drama.Prelude.{
  ℕ, zero, suc, ◌+◌, ◌-◌, ◌*◌, ◌/◌, ◌%◌, ◌≤◌, ◌<◌, ◌≡◌, ◌≢◌, true, Option, none, some, List, arith,
  leb, ltb, Bool-cases, ◌⊎◌, refl, inl, inr,
}
use Prim.Native.Nat.{min}
use native.Mathlib.Decide.{dec_lt}
use native.Mathlib.Nat.{lt-div-mul-add, div-lt_iff_lt-mul}
use automated_short_drama.Prelude.Int.{ℤ, pos, negsuc}
use automated_short_drama.Plans.Material.{
  MaterialRuleRange, MaterialPlan, at_least, ceil_div, ceil_to_three_multiple, default_cap,
  unmatched_plan, matched_plan, normal_plan, calculate_normal, test_plan, match_range, or_thirty,
  greatest_cap,
}

ceil_div_covers : (a b : ℕ) → 0 < b → a ≤ ceil_div a b * b
ceil_div_covers a b h = omega (arith, lt-div-mul-add {a = a + b - 1} h)

ceil_div_tight : (a b k : ℕ) → 0 < b → a ≤ k * b → ceil_div a b ≤ k
ceil_div_tight a b k h le =
    let below : a + b - 1 < (k + 1) * b = omega arith in
    omega (arith, (div-lt_iff_lt-mul {x = a + b - 1} {y = k + 1} h).1 below)

ceil_three :
    (n : ℕ)
    → (n ≤ ceil_to_three_multiple n)
      × (ceil_to_three_multiple n ≤ n + 2)
      × (ceil_to_three_multiple n % 3 ≡ 0)
unfolding ceil_to_three_multiple
ceil_three n = (omega arith, omega arith, omega arith)

mul_mono : (a b c : ℕ) → a ≤ b → a * c ≤ b * c
mul_mono a b c h = grind arith

-- The cap of a group that the rules give: that of the range, or the default.
abbrev pub group_cap : List MaterialRuleRange → Option MaterialRuleRange → ℕ
group_cap ranges none = default_cap ranges
group_cap ranges (some rule) = at_least 1 rule.group_size_cap

default_cap-pos : (ranges : List MaterialRuleRange) → 0 < default_cap ranges
default_cap-pos ranges = thirty_pos (greatest_cap ranges)
  where
    thirty_pos : (n : ℕ) → 0 < or_thirty n
    thirty_pos zero = omega arith
    thirty_pos (suc n) = omega arith

at_least-le : (n : ℕ) (z : ℤ) → n ≤ at_least n z
at_least-le n (pos z) = omega arith
at_least-le n (negsuc z) = omega arith

-- The base groups hold the materials, none above the cap, and all else are copies of them.
abbrev pub Copied : ℕ → ℕ → MaterialPlan → Type 0
Copied count cap p =
    (p.final_group_count ≡ p.base_groups * (p.copy_count + 1)) × (count ≤ p.base_groups * cap)

-- The base groups do not hold the materials, and there are other groups in their place: as many as
-- hold them, none above the cap, in three projects alike, and at most two more than needed.
abbrev pub Regrouped : ℕ → ℕ → MaterialPlan → Type 0
Regrouped count cap p =
    (p.base_groups * cap < count)
    × (count ≤ p.final_group_count * cap)
    × (p.final_group_count ≡ p.ad_limit_per_project * 3)
    × (p.final_group_count ≤ ceil_div count cap + 2)

three_groups : (count cap : ℕ) → 0 < cap → count ≤ ceil_to_three_multiple (ceil_div count cap) * cap
three_groups count cap h = omega (
  arith,
  ceil_div_covers count cap h,
  mul_mono (ceil_div count cap) (ceil_to_three_multiple (ceil_div count cap)) cap
      (ceil_three (ceil_div count cap)).0,
)

base_short : (count base cap : ℕ) → 0 < base → cap < ceil_div count base → base * cap < count
base_short count base cap hb big = elim (dec_lt (base * cap) count) [
  | yes h ↦ h
  | no n ↦
      let swapped : base * cap ≡ cap * base = omega arith in
      absurd (omega (arith, ceil_div_tight count base cap hb (omega arith)))
]

matched_plan-holds :
    (count : ℕ) (rule : MaterialRuleRange)
    → Copied count (at_least 1 rule.group_size_cap) (matched_plan count rule)
      ⊎ Regrouped count (at_least 1 rule.group_size_cap) (matched_plan count rule)
unfolding matched_plan
matched_plan-holds count rule =
    let base = at_least 1 rule.base_group_count in
    let cap = at_least 1 rule.group_size_cap in
    let hb = at_least-le 1 rule.base_group_count in
    let hc = at_least-le 1 rule.group_size_cap in
    elim (Bool-cases (leb (ceil_div count base) cap)) [
      | inl fits ↦
          let within : ceil_div count base ≤ cap = ground arith in
          inl (
            rw fits refl,
            omega (
              arith,
              ceil_div_covers count base hb,
              mul_mono (ceil_div count base) cap base within,
            ),
          )
      | inr big ↦
          let above : cap < ceil_div count base = ground arith in
          let three = ceil_three (ceil_div count cap) in
          rw big (
            inr (
              base_short count base cap hb above,
              three_groups count cap hc,
              omega (arith, three.2),
              three.1,
            ))
    ]

-- In a normal plan no group is above the cap of the rules, that of the range which covers the count
-- or the default. Either the base groups alone hold all materials, and the final groups are they and
-- their copies; or the base groups would not hold them, and the final groups hold them, are three
-- times the limit of a project, and are at most two more than must be.
pub calculate_normal-holds :
    (count : ℕ) (ranges : List MaterialRuleRange)
    → let cap = group_cap ranges (match_range ranges count) in
      Copied count cap (calculate_normal count ranges)
      ⊎ Regrouped count cap (calculate_normal count ranges)
unfolding calculate_normal
calculate_normal-holds count ranges = by_range (match_range ranges count)
  where
    by_range :
        (o : Option MaterialRuleRange)
        → Copied count (group_cap ranges o) (normal_plan count (default_cap ranges) o)
          ⊎ Regrouped count (group_cap ranges o) (normal_plan count (default_cap ranges) o)
    by_range none =
        unfold normal_plan unmatched_plan in
        inl (omega arith, three_groups count (default_cap ranges) (default_cap-pos ranges))
    by_range (some rule) = unfold normal_plan in matched_plan-holds count rule

-- For a cap above zero, where no range covers the count, the three projects take exactly the groups, and there are at most
-- two groups more than any split into groups of at most `cap` materials needs.
unmatched_plan-exact :
    (count cap k : ℕ)
    → 0 < cap
    → count ≤ k * cap
    → let p = unmatched_plan count cap in
      (p.ad_limit_per_project * p.project_count ≡ p.final_group_count)
      × (p.final_group_count ≤ k + 2)
unfolding unmatched_plan
unmatched_plan-exact count cap k h le =
    let three = ceil_three (ceil_div count cap) in
    (omega (arith, three.2), omega (arith, three.1, ceil_div_tight count cap k h le))

pos_of_mul : (a b : ℕ) → 0 < a * b → 0 < a
pos_of_mul zero b h = omega arith
pos_of_mul (suc a) b h = omega arith

ceil_div_minimal : (a b : ℕ) → 0 < b → 0 < a → (ceil_div a b - 1) * b < a
ceil_div_minimal a b hb ha = elim (dec_lt ((ceil_div a b - 1) * b) a) [
  | yes h ↦ h
  | no n ↦
      let some_part : 0 < ceil_div a b =
        pos_of_mul (ceil_div a b) b (omega (arith, ceil_div_covers a b hb)) in
      absurd (omega (arith, ceil_div_tight a b (ceil_div a b - 1) hb (omega arith)))
]

-- For at least one material and a size above zero, a test plan holds all materials in groups of `size`; no project gets more than ten advertisements;
-- the projects take all groups; and with one project less they would not.
test_plan-exact :
    (count size : ℕ)
    → 0 < count
    → 0 < size
    → let p = test_plan count size in
      (count ≤ p.final_group_count * size)
      × (p.ad_limit_per_project ≤ 10)
      × (p.final_group_count ≤ p.project_count * p.ad_limit_per_project)
      × ((p.project_count - 1) * p.ad_limit_per_project < p.final_group_count)
unfolding test_plan
test_plan-exact count size hc hs =
    let groups = ceil_div count size in
    let some_group : 0 < groups =
      pos_of_mul groups size (omega (arith, ceil_div_covers count size hs)) in
    let limit = min 10 (ceil_div groups 3) in
    let some_limit : 0 < limit = omega arith in
    let tested : ltb 0 limit ≡ true = ground arith in
    (
      ceil_div_covers count size hs,
      omega arith,
      rw tested (ceil_div_covers groups limit some_limit),
      rw tested (ceil_div_minimal groups limit some_limit some_group),
    )

thirds_short : (x t : ℕ) → (x % 3 ≢ 0) → t ≤ 3 → x / 3 * t < x
thirds_short x t odd few = let thirds : x / 3 * t ≤ x / 3 * 3 = grind arith in omega arith

-- A range whose base and copies make a number of groups that three does not divide, with three
-- projects or fewer, leaves groups without a project: the projects take fewer than there are.
matched_plan-short :
    (count : ℕ) (rule : MaterialRuleRange)
    → (matched_plan count rule).final_group_count % 3 ≢ 0
    → at_least 1 rule.target_project_count ≤ 3
    → let p = matched_plan count rule in
      p.ad_limit_per_project * p.project_count < p.final_group_count
unfolding matched_plan
matched_plan-short count rule odd few =
    thirds_short (matched_plan count rule).final_group_count (at_least 1 rule.target_project_count)
      odd few
