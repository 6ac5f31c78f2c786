-- ===== src/Acquisition/Pipeline.antt =====
-- backend/src/backend/domain/acquisition/v2_pipeline.py. The provider is what its `acquire` answers for
-- a task; the diagnostics are left out.
pub mod Ready
use automated_short_drama.Prelude.{
  ℕ, String, Bool, true, false, not, ◌&&◌, ◌==◌, Option, none, some, List, [], ◌∷◌, if◌then◌else◌,
  any, select,
}
use automated_short_drama.Prelude.Dicts
use automated_short_drama.Tasks.Task.{DramaTask}
use automated_short_drama.Acquisition.Asset.{
  PromotionAsset, AssetStatus, VerificationStatus, AcquisitionResult, AcquisitionStatus,
}
use automated_short_drama.Acquisition.Fallback.{holds}
use automated_short_drama.Acquisition.Fallback.Growth.{types}
use automated_short_drama.Acquisition.Validator.{validate}

pub data PipelineOutcome : Type 0 where
  ready manual_review failed partial : PipelineOutcome

pub record PipelineResult : Type 0 where
  pub status : PipelineOutcome
  pub link_set : List (String × String)
  pub missing : List (String × String)
  pub per_type : List (String × String)

unfoldable pub is_ready : PipelineOutcome → Bool
is_ready ready = true
is_ready _ = false

abbrev is_asset_validated : AssetStatus → Bool
is_asset_validated AssetStatus.validated = true
is_asset_validated _ = false

abbrev is_verified : VerificationStatus → Bool
is_verified VerificationStatus.validated = true
is_verified _ = false

abbrev is_confirmed : PromotionAsset → Bool
is_confirmed a = is_asset_validated a.acquisition_status && is_verified a.verification_status

abbrev pub is_frozen : PromotionAsset → Bool
is_frozen a = is_confirmed a && not (a.promotion_url == "")

-- `_freeze_link_set`: the dict comprehension, from the dict of its first turns.
unfoldable pub freeze : List PromotionAsset → List (String × String) → List (String × String)
freeze [] d = d
freeze (a ∷ assets) d =
    freeze assets (if is_frozen a then Dicts.put a.link_type a.promotion_url d else d)

abbrev freeze_link_set : AcquisitionResult → List (String × String)
freeze_link_set r = freeze r.selected []

abbrev or_not_found : Option String → String
or_not_found none = "NOT_FOUND"
or_not_found (some reason) = reason

abbrev type_state : AcquisitionResult → String → String
type_state r t =
    if holds t (types (select is_confirmed r.selected))
    then "FOUND"
    else or_not_found (Dicts.lookup t r.missing)

-- `_build_per_type`, from the dict of its first turns.
unfoldable pub build_per_type :
    AcquisitionResult → List String → List (String × String) → List (String × String)
build_per_type r [] d = d
build_per_type r (t ∷ ts) d = build_per_type r ts (Dicts.put t (type_state r t) d)

abbrev pub is_empty {ℓ} : {A : Type ℓ} → List A → Bool
is_empty [] = true
is_empty (x ∷ xs) = false

abbrev pub is_ambiguous : AcquisitionStatus → Bool
is_ambiguous AcquisitionStatus.ambiguous = true
is_ambiguous _ = false

abbrev is_failed : AcquisitionStatus → Bool
is_failed AcquisitionStatus.failed = true
is_failed _ = false

abbrev is_not_found : AcquisitionStatus → Bool
is_not_found AcquisitionStatus.not_found = true
is_not_found _ = false

-- `set(...) <= set(...)`, the one of expected types, the other of keys.
abbrev pub has_all : List String → List (String × String) → Bool
has_all ts link_set = not (any (λ t. not (Dicts.has_key t link_set)) ts)

unfoldable pub determine_status : AcquisitionResult → List (String × String) → PipelineOutcome
determine_status r link_set =
    if is_ambiguous r.status
    then manual_review
    else if is_failed r.status && (not (is_empty r.candidates) && is_empty link_set)
    then manual_review
    else if is_not_found r.status && is_empty link_set
    then failed
    else if not (is_empty r.expected_types) && has_all r.expected_types link_set
    then ready
    else if not (is_empty link_set)
    then partial
    else if not (is_empty r.missing)
    then manual_review
    else failed

unfoldable pub run :
    (List ℕ → List ℕ) → (DramaTask → AcquisitionResult) → DramaTask → PipelineResult
run nfkc acquire task =
    let validated = validate nfkc task (acquire task) in
    let link_set = freeze_link_set validated in
    record {
      status = determine_status validated link_set;
      link_set = link_set;
      missing = validated.missing;
      per_type = build_per_type validated validated.expected_types [];
    }
