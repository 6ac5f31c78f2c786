-- ===== src/Acquisition/CreateGuard.antt =====
-- backend/src/backend/domain/acquisition/create_safety_guard.py. The two callbacks act on a world
-- `W` outside the program, which is passed on explicitly.
pub mod Safety
use automated_short_drama.Prelude.{
  String, Bool, true, false, not, ◌==◌, Option, none, some, List, [], ◌∷◌, if◌then◌else◌,
}
use automated_short_drama.Acquisition.Asset.{PromotionAsset}

pub data CreateStep : Type 0 where
  query create requery validate : CreateStep

pub data CreateOutcome : Type 0 where
  reused created uncertain not_found ambiguous : CreateOutcome

pub record CreateResult : Type 0 where
  pub outcome : CreateOutcome
  pub asset : Option PromotionAsset
  pub link_type : String
  pub steps : List CreateStep

-- `_default_validate`: the URL is not empty.
unfoldable default_validate : PromotionAsset → Bool
default_validate asset = not (asset.promotion_url == "")

module _ (validate_fn : PromotionAsset → Bool) where
  -- After the second query: whatever the creation returned, only what the query finds counts.
  unfoldable pub after_requery : String → List PromotionAsset → CreateResult
  after_requery link_type [] = record {
    outcome = uncertain;
    asset = none;
    link_type = link_type;
    steps = query ∷ create ∷ requery ∷ [];
  }
  after_requery link_type (asset ∷ []) = record {
    outcome = if validate_fn asset then created else uncertain;
    asset = some asset;
    link_type = link_type;
    steps = query ∷ create ∷ requery ∷ validate ∷ [];
  }
  after_requery link_type (a ∷ b ∷ more) = record {
    outcome = ambiguous;
    asset = none;
    link_type = link_type;
    steps = query ∷ create ∷ requery ∷ [];
  }

module _ {W : Type 0} (validate_fn : PromotionAsset → Bool)
    (query_fn : String → W → List PromotionAsset × W)
    (create_fn : String → W → Option PromotionAsset × W) where
  create_and_requery : String → W → CreateResult × W
  create_and_requery link_type w =
      let (answer, w1) = create_fn link_type w in
      let (requeried, w2) = query_fn link_type w1 in
      (after_requery validate_fn link_type requeried, w2)

  -- After the first query: only an empty answer leads to a creation.
  after_query : String → List PromotionAsset → W → CreateResult × W
  after_query link_type [] w = create_and_requery link_type w
  after_query link_type (asset ∷ []) w = (
    record {
      outcome = if validate_fn asset then reused else uncertain;
      asset = some asset;
      link_type = link_type;
      steps = query ∷ validate ∷ [];
    },
    w,
  )
  after_query link_type (a ∷ b ∷ more) w =
      (record { outcome = ambiguous; asset = none; link_type = link_type; steps = query ∷ [] }, w)

  unfoldable pub execute : String → W → CreateResult × W
  unfolding after_query create_and_requery after_requery
  execute link_type w = let (found, w1) = query_fn link_type w in after_query link_type found w1
