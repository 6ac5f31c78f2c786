-- ===== src/Acquisition/Validator.antt =====
-- backend/src/backend/domain/acquisition/promotion_asset_validator.py. `nfkc` is the Unicode normalisation of `unicodedata.normalize`, a
-- parameter. The candidates are marked in place, so they are passed on with their marks; the selected
-- ones are the marked objects.
pub mod Judgement
pub mod Verdicts
use automated_short_drama.Prelude.{
  ℕ, String, Bool, true, false, not, ◌&&◌, ◌==◌, Option, none, some, List, [], ◌∷◌, ◌++◌, length,
  if◌then◌else◌, select, nat_eq, codes, is_some,
}
use automated_short_drama.Prelude.Dicts
use automated_short_drama.Prelude.Rows.{update_where}
use automated_short_drama.Prelude.Chars.{strip, chars_eq, starts_with, contains, behind}
use automated_short_drama.Tasks.Task.{DramaTask}
use automated_short_drama.Acquisition.DramaMatch.{normalize_drama_name}
use automated_short_drama.Acquisition.Asset.{
  PromotionAsset, AssetStatus, VerificationStatus, AcquisitionResult, AcquisitionStatus, complete,
  partial,
}

-- `_valid_tomato_url`: the protocol, and a query behind the first question mark with a parameter.
abbrev has_parameter : Option (List ℕ) → Bool
has_parameter none = false
has_parameter (some query) = contains (codes "=") query

unfoldable pub valid_tomato_url : List ℕ → Bool
valid_tomato_url url = starts_with (codes "aweme://") url && has_parameter (behind b'?' url)

abbrev is_blank : List ℕ → Bool
is_blank [] = true
is_blank (c ∷ cs) = false

unfoldable pub valid_url : String → String → Bool
unfolding valid_tomato_url
valid_url platform url =
    if starts_with (codes "mock://") (codes url)
    then true
    else if platform == "TOMATO"
    then valid_tomato_url (codes url)
    else not (is_blank (strip (codes url)))

abbrev pub of_type : String → PromotionAsset → Bool
of_type link_type a = a.link_type == link_type

abbrev pub as_ambiguous : PromotionAsset → PromotionAsset
as_ambiguous a = record a { acquisition_status = AssetStatus.ambiguous }

abbrev pub as_invalid : PromotionAsset → PromotionAsset
as_invalid a = record a {
  acquisition_status = AssetStatus.failed;
  verification_status = VerificationStatus.invalid;
}

abbrev pub as_validated : PromotionAsset → PromotionAsset
as_validated a = record a {
  acquisition_status = AssetStatus.validated;
  verification_status = VerificationStatus.validated;
}

-- The variables of the loop.
pub record Progress : Type 0 where
  pub candidates : List PromotionAsset
  pub selected : List PromotionAsset
  pub missing : List (String × String)
  pub has_ambiguous : Bool

abbrev mark : (PromotionAsset → PromotionAsset) → String → Progress → List PromotionAsset
mark f link_type p = update_where (of_type link_type) f p.candidates

-- missing.setdefault(k, v)
abbrev set_default : String → String → List (String × String) → List (String × String)
set_default k v d = if Dicts.has_key k d then d else Dicts.put k v d

abbrev pub is_empty : List PromotionAsset → Bool
is_empty [] = true
is_empty (a ∷ more) = false

abbrev status_of : List String → Progress → AcquisitionStatus
status_of expected p =
    if p.has_ambiguous
    then AcquisitionStatus.ambiguous
    else if nat_eq (length p.selected) (length expected)
    then complete
    else if not (is_empty p.selected)
    then partial
    else if not (is_empty p.candidates)
    then AcquisitionStatus.failed
    else AcquisitionStatus.not_found

abbrev pub begin : AcquisitionResult → Progress
begin r = record {
  candidates = r.candidates;
  selected = [];
  missing = r.missing;
  has_ambiguous = false;
}

module _ (nfkc : List ℕ → List ℕ) where
  unfoldable pub invalid_reason : DramaTask → PromotionAsset → Option String
  invalid_reason task a =
      if not (a.task_id == task.id)
      then some "TASK_IDENTITY_MISMATCH"
      else if not (a.source_platform == task.platform)
      then some "PLATFORM_IDENTITY_MISMATCH"
      else if not (
          chars_eq (normalize_drama_name nfkc a.drama_name)
            (normalize_drama_name nfkc task.drama_name))
      then some "DRAMA_IDENTITY_MISMATCH"
      else if not (valid_url a.source_platform a.promotion_url)
      then some "INVALID_URL"
      else none

  -- What the loop does with the only candidate of a type.
  unfoldable pub settle : String → PromotionAsset → Option String → Progress → Progress
  settle link_type a (some reason) p = record p {
    candidates = mark as_invalid link_type p;
    missing = Dicts.put link_type reason p.missing;
  }
  settle link_type a none p = record p {
    candidates = mark as_validated link_type p;
    selected = p.selected ++ as_validated a ∷ [];
    missing = Dicts.remove link_type p.missing;
  }

  -- The body of the loop, by the candidates of the type.
  unfoldable pub judge : DramaTask → String → List PromotionAsset → Progress → Progress
  judge task link_type [] p = record p { missing = set_default link_type "NOT_FOUND" p.missing }
  judge task link_type (a ∷ []) p = settle link_type a (invalid_reason task a) p
  judge task link_type (a ∷ b ∷ more) p = record p {
    candidates = mark as_ambiguous link_type p;
    missing = Dicts.put link_type "MULTIPLE_CANDIDATES" p.missing;
    has_ambiguous = true;
  }

  unfoldable pub judge_all : DramaTask → List String → Progress → Progress
  judge_all task [] p = p
  judge_all task (t ∷ ts) p = judge_all task ts (judge task t (select (of_type t) p.candidates) p)

  unfoldable pub validate : DramaTask → AcquisitionResult → AcquisitionResult
  validate task r =
      let p = judge_all task r.expected_types (begin r) in
      record {
        status = status_of r.expected_types p;
        expected_types = r.expected_types;
        candidates = p.candidates;
        selected = p.selected;
        missing = p.missing;
        warnings = r.warnings;
      }
