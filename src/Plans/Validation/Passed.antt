-- ===== src/Plans/Validation/Passed.antt =====
-- The plans that pass the validation.
use automated_short_drama.Prelude.{
  ℕ, String, ◌<◌, ◌≡◌, ◌≢◌, ◌↔◌, refl, sym, ◌∙◌, Bool, true, false, not, ◌&&◌, ◌||◌, Option, none,
  some, List, [], ◌∷◌, ◌++◌, All, arith, Bool-cases, inl, inr,
}
use automated_short_drama.Prelude.Rows.{In}
use automated_short_drama.Prelude.Dicts.{lookup, has_key}
use automated_short_drama.Plans.Material.{MaterialPlan}
use automated_short_drama.Plans.Spec.{DatetimeLibrary, Config, PlanSpec, text_of}
use automated_short_drama.Plans.Validation.{
  IssueCode, ValidationIssue, non_empty, unless, has_role, valid_configs_for, config_issues,
  check_cid_configs, covers_with, is_covered, check_template, check_template_accounts, is_filled,
  check_link_set, has_groups, check_material_count, has_marker, check_task_name, no_issues,
  issues_of, validate, template_account_mismatch, douyin_account_empty, preset_incomplete,
  link_set_empty, material_count_invalid, task_name_invalid,
}

module _ (lib : DatetimeLibrary) (now : ℕ) (cid_configs : List Config) where
  -- The CID has exactly one valid configuration, whose account and presets are texts that are not
  -- blank.
  abbrev pub Ready : List ℕ → Type 0
  Ready cid =
      (config : Config) × (valid_configs_for lib now cid_configs cid ≡ config ∷ [])
      × (non_empty (lookup "douyin_account" config) ≡ true)
      × (non_empty (lookup "ad_preset" config) ≡ true)
      × (non_empty (lookup "account_open_preset" config) ≡ true)

  -- A CID of the plan has exactly one valid configuration and by it a role for the link type.
  abbrev pub Covered : String → List (List ℕ) → Type 0
  Covered link_type cids =
      (cid : List ℕ) × (config : Config) × In cid cids
      × (valid_configs_for lib now cid_configs cid ≡ config ∷ [])
      × (has_role link_type (text_of lib "delivery_type" config) ≡ true)

  abbrev pub Valid : PlanSpec → Type 0
  Valid spec =
      (spec.link_set ≢ [])
      × All Ready spec.account_cids
      × (has_key "9.9" spec.link_set ≡ true → Covered "9.9" spec.account_cids)
      × (has_key "2.9" spec.link_set ≡ true → Covered "2.9" spec.account_cids)
      × (spec.material_groups ≢ none)
      × (0 < spec.expected_project_count)
      × (has_marker lib now cid_configs spec.task_name ≡ true)

  none_left : List ValidationIssue → Bool
  none_left issues = no_issues lib now cid_configs issues

  none_left-append :
      (xs ys : List ValidationIssue) → none_left (xs ++ ys) ≡ (none_left xs && none_left ys)
  unfolding none_left
  none_left-append [] ys = refl
  none_left-append (x ∷ xs) ys = refl

  none_left-unless :
      (b : Bool) (code : IssueCode) (field : String) → none_left (unless b code field) ≡ b
  unfolding none_left
  none_left-unless true code field = refl
  none_left-unless false code field = refl

  config_issues-one :
      (x : Config)
      → none_left (config_issues lib now cid_configs (x ∷ [])) ≡ (
          non_empty (lookup "douyin_account" x)
          && (non_empty (lookup "ad_preset" x) && non_empty (lookup "account_open_preset" x)))
  config_issues-one x =
      let both = non_empty (lookup "ad_preset" x) && non_empty (lookup "account_open_preset" x) in
      none_left-append
        (unless (non_empty (lookup "douyin_account" x)) douyin_account_empty
          "cid_configs.douyin_account")
        (unless both preset_incomplete "cid_configs.presets")
      ∙ rw
          (none_left-unless (non_empty (lookup "douyin_account" x)) douyin_account_empty
            "cid_configs.douyin_account")
          (rw (none_left-unless both preset_incomplete "cid_configs.presets") refl)

  config_issues-Ready :
      (cid : List ℕ) (cs : List Config)
      → valid_configs_for lib now cid_configs cid ≡ cs
      → none_left (config_issues lib now cid_configs cs) ≡ true
      → Ready cid
  unfolding none_left
  config_issues-Ready cid [] c e = cc
  config_issues-Ready cid (x ∷ []) c e =
      let d = non_empty (lookup "douyin_account" x) in
      let a = non_empty (lookup "ad_preset" x) in
      let p = non_empty (lookup "account_open_preset" x) in
      let all : (d && (a && p)) ≡ true = sym (config_issues-one x) ∙ e in
      (x, c, ground arith, ground arith, ground arith)
  config_issues-Ready cid (x ∷ y ∷ cs) c e = cc

  Ready-config_issues :
      (cid : List ℕ)
      → Ready cid
      → none_left (config_issues lib now cid_configs (valid_configs_for lib now cid_configs cid))
        ≡ true
  unfolding none_left
  Ready-config_issues cid (config, c, d, a, p) = rw c (rw d (rw a (rw p refl)))

  check_cid_configs-Ready :
      (cids : List (List ℕ))
      → none_left (check_cid_configs lib now cid_configs cids) ≡ true
      → All Ready cids
  unfolding check_cid_configs
  check_cid_configs-Ready [] e = tt
  check_cid_configs-Ready (cid ∷ cids) e =
      let split =
        none_left-append
          (config_issues lib now cid_configs (valid_configs_for lib now cid_configs cid))
          (check_cid_configs lib now cid_configs cids) in
      (config_issues-Ready cid _ refl (ground arith), check_cid_configs-Ready cids (ground arith))

  Ready-check_cid_configs :
      (cids : List (List ℕ))
      → All Ready cids
      → none_left (check_cid_configs lib now cid_configs cids) ≡ true
  unfolding check_cid_configs none_left
  Ready-check_cid_configs [] h = refl
  Ready-check_cid_configs (cid ∷ cids) h =
      none_left-append
        (config_issues lib now cid_configs (valid_configs_for lib now cid_configs cid)) _
      ∙ ground (arith, Ready-config_issues cid h.0, Ready-check_cid_configs cids h.1)

  covers_with-Covered :
      (link_type : String) (cs : List Config)
      → covers_with lib now cid_configs link_type cs ≡ true
      → (config : Config) × (cs ≡ config ∷ [])
        × (has_role link_type (text_of lib "delivery_type" config) ≡ true)
  covers_with-Covered link_type [] e = cc
  covers_with-Covered link_type (x ∷ []) e = (x, refl, e)
  covers_with-Covered link_type (x ∷ y ∷ cs) e = cc

  is_covered-Covered :
      (link_type : String) (cids : List (List ℕ))
      → is_covered lib now cid_configs link_type cids ≡ true
      → Covered link_type cids
  is_covered-Covered link_type [] e = cc
  is_covered-Covered link_type (cid ∷ cids) e =
      elim (Bool-cases
        (covers_with lib now cid_configs link_type (valid_configs_for lib now cid_configs cid))) [
          | inl t ↦ let c = covers_with-Covered link_type _ t in (cid, c.0, inl refl, c.1, c.2)
          | inr f ↦
              let r = is_covered-Covered link_type cids (ground arith) in
              (r.0, r.1, inr r.2, r.3, r.4)
        ]

  Covered-is_covered :
      (link_type : String) (cids : List (List ℕ))
      → Covered link_type cids
      → is_covered lib now cid_configs link_type cids ≡ true
  Covered-is_covered link_type [] (cid, config, i, c, r) = absurd i
  Covered-is_covered link_type (x ∷ cids) (cid, config, inl p, c, r) = rw p (rw c (rw r refl))
  Covered-is_covered link_type (x ∷ cids) (cid, config, inr i, c, r) =
      ground (arith, Covered-is_covered link_type cids (cid, config, i, c, r))

  template_ok : PlanSpec → String → Bool
  template_ok spec link_type =
      not (has_key link_type spec.link_set)
      || is_covered lib now cid_configs link_type spec.account_cids

  no_issues-issues_of :
      (spec : PlanSpec)
      → none_left (issues_of lib now cid_configs spec) ≡ (
          is_filled lib now cid_configs spec.link_set
          && (none_left (check_cid_configs lib now cid_configs spec.account_cids)
              && ((template_ok spec "9.9" && template_ok spec "2.9")
                  && (has_groups lib now cid_configs spec.material_groups
                        spec.expected_project_count
                      && has_marker lib now cid_configs spec.task_name))))
  unfolding issues_of template_ok
  no_issues-issues_of spec =
      let cids = check_cid_configs lib now cid_configs spec.account_cids in
      let template = check_template_accounts lib now cid_configs spec in
      let material = check_material_count lib now cid_configs spec in
      let name = check_task_name lib now cid_configs spec in
      ground (
        arith,
        none_left-append (check_link_set lib now cid_configs spec)
            (cids ++ (template ++ (material ++ name))),
        none_left-append cids (template ++ (material ++ name)),
        none_left-append template (material ++ name),
        none_left-append material name,
        none_left-append (check_template lib now cid_configs spec "9.9" "link_set.9.9")
            (check_template lib now cid_configs spec "2.9" "link_set.2.9"),
        none_left-unless (is_filled lib now cid_configs spec.link_set) link_set_empty "link_set",
        none_left-unless (template_ok spec "9.9") template_account_mismatch "link_set.9.9",
        none_left-unless (template_ok spec "2.9") template_account_mismatch "link_set.2.9",
        none_left-unless
            (has_groups lib now cid_configs spec.material_groups spec.expected_project_count)
            material_count_invalid "material_groups",
        none_left-unless (has_marker lib now cid_configs spec.task_name) task_name_invalid
            "task_name",
      )

  is_filled-ne : {A : Type 0} (xs : List A) → is_filled lib now cid_configs xs ≡ true → xs ≢ []
  is_filled-ne [] e k = cc
  is_filled-ne (x ∷ xs) e k = cc

  ne-is_filled : {A : Type 0} (xs : List A) → xs ≢ [] → is_filled lib now cid_configs xs ≡ true
  ne-is_filled [] k = absurd (k refl)
  ne-is_filled (x ∷ xs) k = refl

  has_groups-both :
      (groups : Option MaterialPlan) (n : ℕ)
      → has_groups lib now cid_configs groups n ≡ true
      → (groups ≢ none) × (0 < n)
  has_groups-both none n e = cc
  has_groups-both (some g) n e = ((λ k. cc), ground arith)

  both-has_groups :
      (groups : Option MaterialPlan) (n : ℕ)
      → groups ≢ none
      → 0 < n
      → has_groups lib now cid_configs groups n ≡ true
  both-has_groups none n k h = absurd (k refl)
  both-has_groups (some g) n k h = ground arith

  template_ok-Covered :
      (spec : PlanSpec) (link_type : String)
      → template_ok spec link_type ≡ true
      → has_key link_type spec.link_set ≡ true
      → Covered link_type spec.account_cids
  unfolding template_ok
  template_ok-Covered spec link_type e h =
      is_covered-Covered link_type spec.account_cids (ground arith)

  Covered-template_ok :
      (spec : PlanSpec) (link_type : String)
      → (has_key link_type spec.link_set ≡ true → Covered link_type spec.account_cids)
      → template_ok spec link_type ≡ true
  unfolding template_ok
  Covered-template_ok spec link_type f = elim (Bool-cases (has_key link_type spec.link_set)) [
    | inl t ↦ rw (Covered-is_covered link_type spec.account_cids (f t)) (ground arith)
    | inr n ↦ ground arith
  ]

  -- A plan passes the validation exactly if it has a link, each of its CIDs has exactly one
  -- configuration that is valid at the time, with an account and presets that are not blank, each
  -- of the links 9.9 and 2.9 that it has is covered by a CID of that role, it has a grouping of its
  -- materials and at least one project, and its name has a marker of a template.
  pub validate-Valid :
      (spec : PlanSpec) → ((validate lib now cid_configs spec).passed ≡ true) ↔ Valid spec
  unfolding validate none_left
  validate-Valid spec = (to, from)
    where
      to : none_left (issues_of lib now cid_configs spec) ≡ true → Valid spec
      to e =
          let all = sym (no_issues-issues_of spec) ∙ e in
          let groups =
            has_groups-both spec.material_groups spec.expected_project_count (ground arith) in
          (
            is_filled-ne spec.link_set (ground arith),
            check_cid_configs-Ready spec.account_cids (ground arith),
            template_ok-Covered spec "9.9" (ground arith),
            template_ok-Covered spec "2.9" (ground arith),
            groups.0,
            groups.1,
            ground arith,
          )

      from : Valid spec → none_left (issues_of lib now cid_configs spec) ≡ true
      from (links, cids, nine, two, groups, count, name) =
          no_issues-issues_of spec
          ∙ ground (
            arith,
            ne-is_filled spec.link_set links,
            Ready-check_cid_configs spec.account_cids cids,
            Covered-template_ok spec "9.9" nine,
            Covered-template_ok spec "2.9" two,
            both-has_groups spec.material_groups spec.expected_project_count groups count,
          )
