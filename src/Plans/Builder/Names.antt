-- ===== src/Plans/Builder/Names.antt =====
-- The names of a plan that was built.
use mathlib.Core.Path.{subst}
use automated_short_drama.Prelude.{
  ℕ, String, ◌==◌, ◌≡◌, refl, sym, ap, ◌&&◌, Bool, true, Option, none, some, List, [], ◌∷◌, ◌++◌,
  map, codes, select, any, arith, Bool-cases, inl, inr, eq_iff,
}
use automated_short_drama.Prelude.Chars.{chars_eq, contains, ends_with}
use automated_short_drama.Prelude.Chars.Parts.{
  contains_self, contains-behind, ends_with_self, ends_with-behind,
}
use automated_short_drama.Prelude.Dicts.{lookup, has_key}
use automated_short_drama.Errors.{ok, >>=-eq-ok}
use automated_short_drama.Plans.Material.{MaterialPlan, calculate}
use automated_short_drama.Plans.Spec.{DatetimeLibrary, Config, PlanSpec}
use automated_short_drama.Plans.Validation.{has_marker, check_task_name}
use automated_short_drama.Plans.Builder.{
  link_or_empty, filled_link, Calendar, PlanRequest, link_types, name_marker,
  build_promotion_config_name, link_set_of, name_with, build_name, primary_plan_type, plan_with,
  build, plan_type_paid, plan_type_free, plan_type_test,
}

name-ends :
    (link_type : String) (platform drama_name : List ℕ)
    → ends_with
        (codes "-" ++ drama_name)
        (build_promotion_config_name link_type platform drama_name)
      ≡ true
unfolding build_promotion_config_name
name-ends link_type platform drama_name = ends_with-behind (codes "-" ++ drama_name) _ _ (
    ends_with-behind (codes "-" ++ drama_name) (codes "-") _ (
      ends_with-behind (codes "-" ++ drama_name) _ (codes "-" ++ drama_name)
        (ends_with_self (codes "-" ++ drama_name))))

has_key-select :
    {V : Type 0} (f : String → V) (p : String → Bool) (t : String) (ts : List String)
    → has_key t (map (λ x. (x, f x)) (select p ts)) ≡ (any (λ x. x == t) ts && p t)
unfolding has_key
has_key-select f p t [] = refl
has_key-select f p t (x ∷ ts) = elim (Bool-cases (x == t)) [
  | inl y ↦
      let same : x ≡ t = ground (arith, eq_iff x t) in
      ground (arith, ap p same, has_key-select f p t ts)
  | inr n ↦ ground (arith, has_key-select f p t ts)
]

-- A promotion content, if there is one, ends in a dash and the name of the drama.
abbrev pub is_named : List ℕ → Option (List ℕ) → Bool
is_named drama_name none = true
is_named drama_name (some content) = ends_with (codes "-" ++ drama_name) content

is_named-lookup :
    (drama_name : List ℕ) (f : String → List ℕ) (t : String) (ts : List String)
    → ((x : String) → ends_with (codes "-" ++ drama_name) (f x) ≡ true)
    → is_named drama_name (lookup t (map (λ x. (x, f x)) ts)) ≡ true
unfolding lookup
is_named-lookup drama_name f t [] h = refl
is_named-lookup drama_name f t (x ∷ ts) h = elim (Bool-cases (x == t)) [
  | inl y ↦ rw y (h x)
  | inr n ↦ rw n (is_named-lookup drama_name f t ts h)
]

module _ (calendar : Calendar) (platform drama_name : List ℕ) (available_time now : ℕ)
    (plan_type name : List ℕ) where
  name_with-contains :
      (o : Option (List ℕ))
      → name_with calendar platform drama_name available_time now plan_type o ≡ ok name
      → (marker : List ℕ) × (o ≡ some marker) × (contains marker name ≡ true)
  name_with-contains none e = cc
  name_with-contains (some marker) e = (marker, refl, full name (cc))
    where
      rest : List ℕ
      rest =
          codes "-"
          ++ (calendar.shanghai_date now
              ++ (codes "-" ++ (calendar.shanghai_time now ++ codes "-1")))

      full :
          (n : List ℕ)
          → platform
              ++ (codes "#"
                  ++ (plan_type
                      ++ (drama_name ++ (calendar.date_text available_time ++ (marker ++ rest)))))
            ≡ n
          → contains marker n ≡ true
      full n p =
          subst (λ x. contains marker x ≡ true) p
            (contains-behind marker platform _ (
              contains-behind marker (codes "#") _ (
                contains-behind marker plan_type _ (
                  contains-behind marker drama_name _ (
                    contains-behind marker (calendar.date_text available_time) (marker ++ rest)
                      (contains_self marker rest))))))

module _ (lib : DatetimeLibrary) (now : ℕ) (cid_configs : List Config) where
  marked :
      (plan_type marker name : List ℕ)
      → name_marker plan_type ≡ some marker
      → contains marker name ≡ true
      → has_marker lib now cid_configs name ≡ true
  marked plan_type marker name m h = elim (Bool-cases (chars_eq plan_type plan_type_paid)) [
    | inl a ↦
        let p : codes "ubr" ≡ marker = ground arith in
        let c : contains (codes "ubr") name ≡ true =
          subst (λ x. contains x name ≡ true) (sym p) h in
        rw c refl
    | inr a ↦ elim (Bool-cases (chars_eq plan_type plan_type_free)) [
      | inl b ↦
          let p : codes "bxr" ≡ marker = ground arith in
          let c : contains (codes "bxr") name ≡ true =
            subst (λ x. contains x name ≡ true) (sym p) h in
          ground arith
      | inr b ↦ elim (Bool-cases (chars_eq plan_type plan_type_test)) [
        | inl c ↦
            let p : codes "cbo" ≡ marker = ground arith in
            let c : contains (codes "cbo") name ≡ true =
              subst (λ x. contains x name ≡ true) (sym p) h in
            ground arith
        | inr c ↦ ground arith
      ]
    ]
  ]

module _ (lib : DatetimeLibrary) (calendar : Calendar) (request : PlanRequest)
    (plan : PlanSpec) where
  -- The name of a plan that was built has a marker that the validation asks for. For any link type,
  -- the plan has a promotion content exactly if it has that link, and the content ends in a dash and
  -- the name of the drama.
  pub build-names :
      (now : ℕ) (cid_configs : List Config) (link_type : String)
      → build lib calendar request ≡ ok plan
      → (check_task_name lib now cid_configs plan ≡ [])
        × (has_key link_type plan.promotion_configs ≡ has_key link_type plan.link_set)
        × (is_named plan.drama_name (lookup link_type plan.promotion_configs) ≡ true)
  unfolding build build_name link_set_of
  build-names now cid_configs link_type e =
      let type = primary_plan_type (link_set_of request.links) request.include_test in
      let m = >>=-eq-ok (calculate request.material_count request.material_ranges) _ e in
      let n =
        >>=-eq-ok
          (build_name calendar request.platform request.drama_name request.available_time
            request.now type)
          _ m.2 in
      let p : plan_with lib request m.0 n.0 ≡ plan = cc in
      of_plan m.0 n.0 p (
        name_with-contains calendar request.platform request.drama_name request.available_time
          request.now type n.0 (name_marker type) n.1)
    where
      Named : PlanSpec → Type 0
      Named x =
          (check_task_name lib now cid_configs x ≡ [])
          × (has_key link_type x.promotion_configs ≡ has_key link_type x.link_set)
          × (is_named x.drama_name (lookup link_type x.promotion_configs) ≡ true)

      of_plan :
          (groups : MaterialPlan) (name : List ℕ)
          → plan_with lib request groups name ≡ plan
          → ((marker : List ℕ) × (name_marker
                  (primary_plan_type (link_set_of request.links) request.include_test)
                ≡ some marker)
              × (contains marker name ≡ true))
          → Named plan
      of_plan groups name p (marker, is_marker, c) =
          let links = link_set_of request.links in
          let f : String → List ℕ =
            λ t. build_promotion_config_name t request.platform request.drama_name in
          let filled : String → Bool = λ t. filled_link (lookup t request.links) in
          subst Named p (
            rw
                (marked lib now cid_configs (primary_plan_type links request.include_test) marker
                  name is_marker c)
                refl,
            ground (
              arith,
              has_key-select f (λ t. has_key t links) link_type link_types,
              has_key-select (λ t. link_or_empty (lookup t request.links)) filled link_type
                  link_types,
            ),
            is_named-lookup request.drama_name f link_type
                (select (λ t. has_key t links) link_types)
                (λ t. name-ends t request.platform request.drama_name),
          )
