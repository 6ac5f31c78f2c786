-- ===== src/Acquisition/Pipeline/Ready.antt =====
-- What the pipeline freezes, and when it is ready.
use automated_short_drama.Prelude.{
  ℕ, String, ◌≡◌, refl, sym, ap, ◌∙◌, Bool, true, false, not, ◌&&◌, ◌||◌, ◌==◌, eq_iff, List, [],
  ◌∷◌, inl, inr, arith, any, select, All, Bool-cases,
}
use automated_short_drama.Prelude.Dicts
use automated_short_drama.Prelude.Chars.{starts_with, strip, drop_spaces}
use automated_short_drama.Tasks.Task.{DramaTask}
use automated_short_drama.Acquisition.Asset.{PromotionAsset, AcquisitionResult}
use automated_short_drama.Acquisition.Fallback.{holds, is_complete}
use automated_short_drama.Acquisition.Fallback.Growth.{types}
use automated_short_drama.Acquisition.Validator.{valid_url, valid_tomato_url, validate}
use automated_short_drama.Acquisition.Validator.Judgement.{is_accepted, Checked}
use automated_short_drama.Acquisition.Validator.Verdicts.{validate-types, is_complete-validate}
use automated_short_drama.Acquisition.Pipeline.{
  is_ready, is_frozen, freeze, determine_status, has_all, is_empty, run,
}

no_empty_url : (platform : String) → valid_url platform "" ≡ false
unfolding valid_url valid_tomato_url starts_with strip drop_spaces
no_empty_url platform = elim (Bool-cases (platform == "TOMATO")) [
  | inl e ↦ rw e refl
  | inr e ↦ rw e refl
]

same_url : {url : String} → (url == "") ≡ true → url ≡ ""
same_url {url} e = ground (arith, eq_iff url "")

valid_url-ne : (platform url : String) → valid_url platform url ≡ true → (url == "") ≡ false
valid_url-ne platform url h = elim (Bool-cases (url == "")) [
  | inl e ↦ absurd (cc (h, no_empty_url platform, ap (valid_url platform) (same_url e)))
  | inr e ↦ e
]

module _ (nfkc : List ℕ → List ℕ) (task : DramaTask) where
  Checked-is_frozen : (a : PromotionAsset) → Checked nfkc task a → is_frozen a ≡ true
  Checked-is_frozen a c =
      rw (c.marked, c.verified, valid_url-ne task.platform a.promotion_url c.url) refl

  has_key-freeze :
      (k : String) (assets : List PromotionAsset) (d : List (String × String))
      → All (Checked nfkc task) assets
      → Dicts.has_key k (freeze assets d) ≡ (holds k (types assets) || Dicts.has_key k d)
  unfolding freeze
  has_key-freeze k [] d h = refl
  has_key-freeze k (a ∷ assets) d h = rw (Checked-is_frozen a h.0) (
      has_key-freeze k assets (Dicts.put a.link_type a.promotion_url d) h.1
      ∙ ground (arith, Dicts.has_key-put a.link_type k a.promotion_url d, eq_iff a.link_type k))

holds-select :
    (p : String → Bool) (k : String) (ts : List String)
    → holds k (select p ts) ≡ (holds k ts && p k)
holds-select p k [] = refl
holds-select p k (t ∷ ts) = ground (arith, eq_iff t k, holds-select p k ts)

holds-tail :
    (t : String) (us ts : List String)
    → All (λ u. holds u ts ≡ true) us
    → All (λ u. holds u (t ∷ ts) ≡ true) us
holds-tail t [] ts h = tt
holds-tail t (u ∷ us) ts h = (ground arith, holds-tail t us ts h.1)

holds-All : (ts : List String) → All (λ u. holds u ts ≡ true) ts
holds-All [] = tt
holds-All (t ∷ ts) = (ground (arith, eq_iff t t), holds-tail t ts ts (holds-All ts))

has_all-accepted :
    (p : String → Bool) (link_set : List (String × String)) (us ts : List String)
    → ((k : String) → Dicts.has_key k link_set ≡ (holds k ts && p k))
    → All (λ u. holds u ts ≡ true) us
    → has_all us link_set ≡ not (any (λ t. not (p t)) us)
has_all-accepted p link_set [] ts same h = refl
has_all-accepted p link_set (u ∷ us) ts same h =
    ground (arith, same u, has_all-accepted p link_set us ts same h.1)

is_ready-determine_status :
    (r : AcquisitionResult) (link_set : List (String × String))
    → is_complete r.status ≡ has_all r.expected_types link_set
    → is_ready (determine_status r link_set)
      ≡ (not (is_empty r.expected_types) && has_all r.expected_types link_set)
unfolding determine_status is_ready
is_ready-determine_status r link_set h = ground arith

module _ (nfkc : List ℕ → List ℕ) (provide : DramaTask → AcquisitionResult) (task : DramaTask) where
  -- The frozen link set has exactly the expected types that have one candidate, and a valid one.
  has_key-run :
      (k : String)
      → Dicts.has_key k (run nfkc provide task).link_set ≡ (
          holds k (provide task).expected_types
          && is_accepted nfkc task (provide task).candidates k)
  unfolding run Dicts.has_key
  has_key-run k =
      let v = validate-types nfkc task (provide task) in
      has_key-freeze nfkc task k (validate nfkc task (provide task)).selected [] v.1
      ∙ ground (
        arith,
        holds-select (is_accepted nfkc task (provide task).candidates) k
            (provide task).expected_types,
        ap (holds k) v.0,
      )

  -- The pipeline is READY exactly if there are expected types and each has one candidate, a valid one.
  is_ready-run : is_ready (run nfkc provide task).status ≡ (
      not (is_empty (provide task).expected_types)
      && not (
          any
            (λ t. not (is_accepted nfkc task (provide task).candidates t))
            (provide task).expected_types))
  unfolding run validate
  is_ready-run =
      let expected = (provide task).expected_types in
      let link_set = (run nfkc provide task).link_set in
      let all =
        has_all-accepted (is_accepted nfkc task (provide task).candidates) link_set expected
          expected has_key-run (holds-All expected) in
      is_ready-determine_status (validate nfkc task (provide task)) link_set
        (is_complete-validate nfkc task (provide task) ∙ sym all)
      ∙ ap (λ b. not (is_empty expected) && b) all
