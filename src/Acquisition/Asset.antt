-- ===== src/Acquisition/Asset.antt =====
-- backend/src/backend/domain/assets/promotion_asset.py and domain/acquisition/acquisition_result.py.
-- Of an asset the fields `price`, `raw_data`, `created_at` and `updated_at`, and of a result the
-- free-form `diagnostics`, are left out: no code modelled here reads them.
use automated_short_drama.Prelude.{
  ℕ, String, Bool, true, false, ◌==◌, Option, none, some, List, if◌then◌else◌,
}

pub data AssetStatus : Type 0 where
  discovered validated ambiguous failed expected_absent unverified : AssetStatus

pub data VerificationStatus : Type 0 where
  unverified validated invalid : VerificationStatus

pub record PromotionAsset : Type 0 where
  pub id : String
  pub task_id : String
  pub source_platform : String
  pub drama_name : String
  pub link_type : String
  pub promotion_url : String
  pub external_drama_id : Option String
  pub promotion_id : Option String
  pub episode : Option ℕ
  pub template_id : Option String
  pub template_name : Option String
  pub acquisition_method : String
  pub acquisition_status : AssetStatus
  pub verification_status : VerificationStatus
  pub created_or_existing : String

pub data AcquisitionStatus : Type 0 where
  complete partial not_found ambiguous failed : AcquisitionStatus

-- `missing` is a dict with its keys in the order of insertion.
pub record AcquisitionResult : Type 0 where
  pub status : AcquisitionStatus
  pub expected_types : List String
  pub candidates : List PromotionAsset
  pub selected : List PromotionAsset
  pub missing : List (String × String)
  pub warnings : List String

-- The truth of an optional text: neither None nor empty.
abbrev pub is_given : Option String → Bool
is_given none = false
is_given (some s) = if s == "" then false else true
