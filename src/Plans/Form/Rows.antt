-- ===== src/Plans/Form/Rows.antt =====
-- The rows and the lists of a form that was built.
use mathlib.Core.Path.{subst}
use automated_short_drama.Prelude.{
  ℕ, String, ◌≡◌, ◌≢◌, refl, ap, sym, ◌∙◌, true, false, Option, none, some, List, [], ◌∷◌, ◌++◌,
  map, codes, length, All, arith,
}
use automated_short_drama.Prelude.Chars.{ends_with, distinct}
use automated_short_drama.Prelude.Chars.Blank.{is_blank}
use automated_short_drama.Prelude.Dicts.{has_key}
use automated_short_drama.Errors.{ok, >>=-eq-ok, guard-eq-ok, accept-eq-ok, validation}
use automated_short_drama.Plans.Material.{MaterialPlan}
use automated_short_drama.Plans.Spec.{DatetimeLibrary, Config, PlanSpec, text_of}
use automated_short_drama.Plans.Form.{
  CidFormRow, DeliveryFormSpec, link_of_delivery_type, configs_of, linked, promoted, promotion_of,
  incomplete, complete_row, no_rows, bad_materials, bad_titles, row_with, configured, unique_row,
  rows_of, filled, form_with, checked_form, build_delivery_form_spec,
}

module _ (lib : DatetimeLibrary) (plan : PlanSpec) (cid_configs : List Config) where
  -- What a row of the form shows of the plan and of the configurations.
  abbrev pub Supported : CidFormRow → Type 0
  Supported r =
      (length (configs_of lib plan cid_configs r.cid) ≡ 1)
      × (has_key r.link_type plan.link_set ≡ true)
      × (r.promotion_content ≡ promotion_of plan r.link_type)
      × (is_blank r.promotion_content ≡ false)
      × (ends_with (codes "-" ++ plan.drama_name) r.promotion_content ≡ true)
      × (is_blank r.douyin_account ≡ false)
      × (is_blank r.account_open_preset ≡ false)
      × (is_blank r.ad_preset ≡ false)

  linked-ok :
      (o : Option String) (link_type : String)
      → linked lib plan cid_configs o ≡ ok link_type
      → has_key link_type plan.link_set ≡ true
  linked-ok none link_type e = cc
  linked-ok (some t) link_type e =
      let a = accept-eq-ok (has_key t plan.link_set) _ e in
      subst (λ x. has_key x plan.link_set ≡ true) a.1 a.0

  promoted-ok :
      (link_type : String) (p : List ℕ)
      → promoted lib plan cid_configs link_type ≡ ok p
      → (p ≡ promotion_of plan link_type)
        × (is_blank p ≡ false)
        × (ends_with (codes "-" ++ plan.drama_name) p ≡ true)
  promoted-ok link_type p e =
      let promotion = promotion_of plan link_type in
      let g = guard-eq-ok (is_blank promotion) _ e in
      let a = accept-eq-ok (ends_with (codes "-" ++ plan.drama_name) promotion) _ g.1 in
      subst
        (λ x.
          (x ≡ promotion)
          × (is_blank x ≡ false)
          × (ends_with (codes "-" ++ plan.drama_name) x ≡ true))
        a.1 (refl, g.0, a.0)

  abbrev Made : List ℕ → String → List ℕ → CidFormRow → Type 0
  Made cid link_type p r =
      (r.cid ≡ cid)
      × (r.link_type ≡ link_type)
      × (r.promotion_content ≡ p)
      × (is_blank r.douyin_account ≡ false)
      × (is_blank r.account_open_preset ≡ false)
      × (is_blank r.ad_preset ≡ false)

  row_with-ok :
      (cid : List ℕ) (config : Config) (link_type : String) (p : List ℕ) (r : CidFormRow)
      → row_with lib plan cid_configs cid config link_type p ≡ ok r
      → Made cid link_type p r
  row_with-ok cid config link_type p r e =
      let g = guard-eq-ok (incomplete lib plan cid_configs config) validation e in
      of_row (complete_row lib plan cid_configs cid config link_type p) g.1
        (refl, refl, refl, ground arith, ground arith, ground arith)
    where
      of_row : (x : CidFormRow) → ok x ≡ ok r → Made cid link_type p x → Made cid link_type p r
      of_row x q m = let same : x ≡ r = cc in subst (Made cid link_type p) same m

  configured-Supported :
      (cid : List ℕ) (config : Config) (r : CidFormRow)
      → length (configs_of lib plan cid_configs cid) ≡ 1
      → configured lib plan cid_configs cid config ≡ ok r
      → (r.cid ≡ cid) × Supported r
  configured-Supported cid config r one e =
      let l =
        >>=-eq-ok
          (linked lib plan cid_configs (link_of_delivery_type (text_of lib "delivery_type" config)))
          _ e in
      let p = >>=-eq-ok (promoted lib plan cid_configs l.0) _ l.2 in
      let has_link =
        linked-ok (link_of_delivery_type (text_of lib "delivery_type" config)) l.0 l.1 in
      let good = promoted-ok l.0 p.0 p.1 in
      let made = row_with-ok cid config l.0 p.0 r p.2 in
      (
        made.0,
        (
          subst (λ x. length (configs_of lib plan cid_configs x) ≡ 1) (sym made.0) one,
          subst (λ x. has_key x plan.link_set ≡ true) (sym made.1) has_link,
          made.2 ∙ good.0 ∙ ap (promotion_of plan) (sym made.1),
          subst (λ x. is_blank x ≡ false) (sym made.2) good.1,
          subst (λ x. ends_with (codes "-" ++ plan.drama_name) x ≡ true) (sym made.2) good.2,
          made.3,
          made.4,
          made.5,
        ),
      )

  unique_row-Supported :
      (cid : List ℕ) (cs : List Config) (r : CidFormRow)
      → configs_of lib plan cid_configs cid ≡ cs
      → unique_row lib plan cid_configs cid cs ≡ ok r
      → (r.cid ≡ cid) × Supported r
  unique_row-Supported cid [] r c e = cc
  unique_row-Supported cid (x ∷ []) r c e = configured-Supported cid x r (ap length c) e
  unique_row-Supported cid (x ∷ y ∷ cs) r c e = cc

  rows_of-Supported :
      (cids : List (List ℕ)) (rows : List CidFormRow)
      → rows_of lib plan cid_configs cids ≡ ok rows
      → (map (λ r. r.cid) rows ≡ cids) × All Supported rows
  unfolding rows_of
  rows_of-Supported [] rows e =
      let p : [] ≡ rows = cc in
      subst (λ x. (map (λ r. r.cid) x ≡ []) × All Supported x) p (refl, tt)
  rows_of-Supported (cid ∷ cids) rows e =
      let a =
        >>=-eq-ok (unique_row lib plan cid_configs cid (configs_of lib plan cid_configs cid)) _ e in
      let b = >>=-eq-ok (rows_of lib plan cid_configs cids) _ a.2 in
      let u = unique_row-Supported cid _ a.0 refl a.1 in
      let r = rows_of-Supported cids b.0 b.1 in
      let same : a.0 ∷ b.0 ≡ rows = cc in
      subst (λ x. (map (λ r. r.cid) x ≡ cid ∷ cids) × All Supported x) same
        ((λ i. u.0 i ∷ r.0 i), (u.1, r.1))

  -- What the lists of a form show.
  abbrev pub Complete : DeliveryFormSpec → Type 0
  Complete form =
      (form.cid_rows ≢ [])
      × (form.material_ids ≢ [])
      × (distinct form.material_ids ≡ true)
      × (length form.title_packages ≡ 6)
      × (distinct form.title_packages ≡ true)

  checked_form-Complete :
      (rows : List CidFormRow) (form : DeliveryFormSpec)
      → checked_form lib plan cid_configs rows ≡ ok form
      → (form.cid_rows ≡ rows) × Complete form
  checked_form-Complete rows form e =
      let materials = filled lib plan cid_configs plan.material_ids in
      let titles = filled lib plan cid_configs plan.title_packages in
      let a = guard-eq-ok (no_rows lib plan cid_configs rows) validation e in
      let b = guard-eq-ok (bad_materials lib plan cid_configs materials) validation a.1 in
      let c = guard-eq-ok (bad_titles lib plan cid_configs titles) validation b.1 in
      by_groups plan.material_groups a.0 b.0 c.0 c.1
    where
      some_rows : (xs : List CidFormRow) → no_rows lib plan cid_configs xs ≡ false → xs ≢ []
      some_rows [] h k = cc
      some_rows (x ∷ xs) h k = cc

      good_materials :
          (xs : List (List ℕ))
          → bad_materials lib plan cid_configs xs ≡ false
          → (xs ≢ []) × (distinct xs ≡ true)
      good_materials [] h = cc
      good_materials (x ∷ xs) h = ((λ k. cc), ground arith)

      good_titles :
          (xs : List (List ℕ))
          → bad_titles lib plan cid_configs xs ≡ false
          → (length xs ≡ 6) × (distinct xs ≡ true)
      good_titles xs h = (ground arith, ground arith)

      by_groups :
          (groups : Option MaterialPlan)
          → no_rows lib plan cid_configs rows ≡ false
          → bad_materials lib plan cid_configs (filled lib plan cid_configs plan.material_ids)
            ≡ false
          → bad_titles lib plan cid_configs (filled lib plan cid_configs plan.title_packages)
            ≡ false
          → form_with lib plan cid_configs rows groups ≡ ok form
          → (form.cid_rows ≡ rows) × Complete form
      by_groups none a b c f = cc
      by_groups (some g) a b c f =
          let r : rows ≡ form.cid_rows = cc in
          let m : filled lib plan cid_configs plan.material_ids ≡ form.material_ids = cc in
          let t : filled lib plan cid_configs plan.title_packages ≡ form.title_packages = cc in
          let h = good_materials _ b in
          let k = good_titles _ c in
          (
            sym r,
            (
              subst (λ x. x ≢ []) r (some_rows rows a),
              subst (λ x. x ≢ []) m h.0,
              subst (λ x. distinct x ≡ true) m h.1,
              subst (λ x. length x ≡ 6) t k.0,
              subst (λ x. distinct x ≡ true) t k.1,
            ),
          )

  -- A form that was built has one row for each CID of the plan, in its order. A row's CID has
  -- exactly one configuration, its link type is one of the plan's links, its promotion content is
  -- that of the plan for the link type, is not blank and ends in the name of the drama, and none of
  -- its account and presets is blank. The form has a row and a material, exactly six title packages,
  -- and no material and no title package twice.
  pub build_delivery_form_spec-Supported :
      (form : DeliveryFormSpec)
      → build_delivery_form_spec lib plan cid_configs ≡ ok form
      → (map (λ r. r.cid) form.cid_rows ≡ plan.account_cids)
        × All Supported form.cid_rows
        × Complete form
  unfolding build_delivery_form_spec
  build_delivery_form_spec-Supported form e =
      let a = >>=-eq-ok (rows_of lib plan cid_configs plan.account_cids) _ e in
      let r = rows_of-Supported plan.account_cids a.0 a.1 in
      let c = checked_form-Complete a.0 form a.2 in
      (
        subst (λ x. map (λ r. r.cid) x ≡ plan.account_cids) (sym c.0) r.0,
        subst (All Supported) (sym c.0) r.1,
        c.1,
      )
