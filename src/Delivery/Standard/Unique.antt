-- ===== src/Delivery/Standard/Unique.antt =====
-- A plan whose form cannot be built.
use mathlib.Core.Path.{subst}
use automated_short_drama.Prelude.{
  ℕ, String, ◌≡◌, ◌≢◌, refl, Bool, true, false, Option, none, some, List, [], ◌∷◌, map, length, inl,
  inr, sym, All,
}
use automated_short_drama.Prelude.Rows.{In}
use automated_short_drama.Errors.{Result, ok, err}
use automated_short_drama.Plans.Spec.{DatetimeLibrary, Config, PlanSpec}
use automated_short_drama.Plans.Form.{
  CidFormRow, DeliveryFormSpec, configs_of, build_delivery_form_spec,
}
use automated_short_drama.Plans.Form.Rows.{Supported, build_delivery_form_spec-Supported}
use automated_short_drama.Plans.Validation.{validate}
use automated_short_drama.Delivery.Flow.{Platform, BlockReason, can_submit}
use automated_short_drama.Delivery.Standard.{
  DeliverySettings, DeliveryState, with_form, with_decision, with_report, execute,
}

module _ (lib : DatetimeLibrary) (plan : PlanSpec) (cid_configs : List Config) where
  Supported-unique :
      (cid : List ℕ) (rows : List CidFormRow)
      → In cid (map (λ r. r.cid) rows)
      → All (Supported lib plan cid_configs) rows
      → length (configs_of lib plan cid_configs cid) ≡ 1
  Supported-unique cid [] i h = absurd i
  Supported-unique cid (r ∷ rows) (inl p) h =
      subst (λ x. length (configs_of lib plan cid_configs x) ≡ 1) p (h.0).0
  Supported-unique cid (r ∷ rows) (inr i) h = Supported-unique cid rows i h.1

  form_unique :
      (cid : List ℕ) (form : DeliveryFormSpec)
      → In cid plan.account_cids
      → build_delivery_form_spec lib plan cid_configs ≡ ok form
      → length (configs_of lib plan cid_configs cid) ≡ 1
  form_unique cid form i e =
      let r = build_delivery_form_spec-Supported lib plan cid_configs form e in
      Supported-unique cid form.cid_rows (subst (λ x. In cid x) (sym r.0) i) r.1

module _ {World : Type 0} (platform : Platform World) (settings : DeliverySettings World)
    (to_string : List ℕ → String) (ledger_id task_id : String) (now : ℕ) (plan : PlanSpec)
    (lib : DatetimeLibrary) (validated_at : ℕ) (cid_configs : List Config) where
  -- A plan with a CID that has no configuration or several, be they disabled or expired, is not
  -- submitted: the tables and the systems outside are as they were.
  execute-not_unique :
      (cid : List ℕ) (s : DeliveryState World)
      → In cid plan.account_cids
      → length (configs_of lib plan cid_configs cid) ≢ 1
      → (execute platform settings to_string ledger_id task_id now plan lib validated_at cid_configs
          s).1
        ≡ s
  unfolding execute
  execute-not_unique cid s i n = by_report (validate lib validated_at cid_configs plan).passed
    where
      by_form :
          (f : Result DeliveryFormSpec)
          → build_delivery_form_spec lib plan cid_configs ≡ f
          → (with_form platform settings to_string ledger_id task_id now plan lib validated_at
              cid_configs s f).1
            ≡ s
      by_form (err e) q = refl
      by_form (ok form) q = absurd (n (form_unique lib plan cid_configs cid form i q))

      by_decision :
          (d : Option BlockReason)
          → (with_decision platform settings to_string ledger_id task_id now plan lib validated_at
              cid_configs s d).1
            ≡ s
      by_decision (some reason) = refl
      by_decision none = by_form (build_delivery_form_spec lib plan cid_configs) refl

      by_report :
          (passed : Bool)
          → (with_report platform settings to_string ledger_id task_id now plan lib validated_at
              cid_configs s passed
              (validate lib validated_at cid_configs plan).issues).1
            ≡ s
      by_report false = refl
      by_report true =
          by_decision (can_submit settings.allow_final_submit settings.use_real_adapters)
