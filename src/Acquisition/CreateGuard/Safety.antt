-- ===== src/Acquisition/CreateGuard/Safety.antt =====
-- What the guard calls, how often, and what it lets into production.
use automated_short_drama.Prelude.{
  ℕ, suc, String, ◌≡◌, refl, sym, Bool, true, false, Option, some, List, [], ◌∷◌, ◌++◌, arith,
  if◌then◌else◌,
}
use automated_short_drama.Acquisition.Asset.{PromotionAsset}
use automated_short_drama.Acquisition.CreateGuard.{
  CreateStep, CreateOutcome, CreateResult, query, create, requery, validate, reused, created,
  after_requery, create_and_requery, after_query, execute,
}

pub data Call : Type 0 where
  query_call create_call : Call

-- The calls to the outside that a list of steps stands for.
abbrev pub calls_of : List CreateStep → List Call
calls_of [] = []
calls_of (query ∷ steps) = query_call ∷ calls_of steps
calls_of (create ∷ steps) = create_call ∷ calls_of steps
calls_of (requery ∷ steps) = query_call ∷ calls_of steps
calls_of (validate ∷ steps) = calls_of steps

abbrev pub creations : List Call → ℕ
creations [] = 0
creations (query_call ∷ calls) = creations calls
creations (create_call ∷ calls) = suc (creations calls)

abbrev pub is_empty : List PromotionAsset → Bool
is_empty [] = true
is_empty (a ∷ assets) = false

-- An answer that production may use.
abbrev is_usable : CreateOutcome → Bool
is_usable reused = true
is_usable created = true
is_usable _ = false

-- The result carries the only asset of an answer, and it is valid.
pub record Sole (validate_fn : PromotionAsset → Bool) (r : CreateResult)
    (found : List PromotionAsset) : Type 0 where
  pub sole : PromotionAsset
  pub only : found ≡ sole ∷ []
  pub asset : r.asset ≡ some sole
  pub valid : validate_fn sole ≡ true

module _ {W : Type 0} (validate_fn : PromotionAsset → Bool)
    (query_fn : String → W → List PromotionAsset × W)
    (create_fn : String → W → Option PromotionAsset × W) where
  -- The callbacks, with each call recorded behind the world.
  abbrev pub recorded_query : String → W × List Call → List PromotionAsset × (W × List Call)
  recorded_query link_type (w, calls) =
      let (found, w') = query_fn link_type w in (found, (w', calls ++ query_call ∷ []))

  abbrev pub recorded_create : String → W × List Call → Option PromotionAsset × (W × List Call)
  recorded_create link_type (w, calls) =
      let (answer, w') = create_fn link_type w in (answer, (w', calls ++ create_call ∷ []))

  -- What the last query of a run found.
  abbrev last_found : String → List PromotionAsset → W → List PromotionAsset
  last_found lt found w = if is_empty found then (query_fn lt (create_fn lt w).1).0 else found

  after_requery-calls :
      (lt : String) (assets : List PromotionAsset)
      → calls_of (after_requery validate_fn lt assets).steps
        ≡ query_call ∷ create_call ∷ query_call ∷ []
  unfolding after_requery
  after_requery-calls lt [] = refl
  after_requery-calls lt (a ∷ []) = refl
  after_requery-calls lt (a ∷ b ∷ more) = refl

  after_query-calls :
      (lt : String) (found : List PromotionAsset) (w : W)
      → (let r =
            after_query validate_fn recorded_query recorded_create lt found (w, query_call ∷ []) in
          (r.1.1 ≡ calls_of r.0.steps) × (creations r.1.1 ≡ (if is_empty found then 1 else 0)))
  unfolding after_query create_and_requery
  after_query-calls lt [] w =
      (sym (after_requery-calls lt (query_fn lt (create_fn lt w).1).0), refl)
  after_query-calls lt (a ∷ []) w = (refl, refl)
  after_query-calls lt (a ∷ b ∷ more) w = (refl, refl)

  -- The steps reported are the calls made, in their order; the creation is called once if the first
  -- query found nothing, and never otherwise.
  pub execute-calls :
      (lt : String) (w : W)
      → (let r = execute validate_fn recorded_query recorded_create lt (w, []) in
          (r.1.1 ≡ calls_of r.0.steps)
          × (creations r.1.1 ≡ (if is_empty (query_fn lt w).0 then 1 else 0)))
  unfolding execute
  execute-calls lt w = after_query-calls lt (query_fn lt w).0 (query_fn lt w).1

  requery-usable :
      (lt : String) (assets : List PromotionAsset)
      → is_usable (after_requery validate_fn lt assets).outcome ≡ true
      → Sole validate_fn (after_requery validate_fn lt assets) assets
  unfolding after_requery
  requery-usable lt [] h = cc
  requery-usable lt (a ∷ []) h = record {
    sole = a;
    only = refl;
    asset = refl;
    valid = ground arith;
  }
  requery-usable lt (a ∷ b ∷ more) h = cc

  query-usable :
      (lt : String) (found : List PromotionAsset) (w : W)
      → is_usable (after_query validate_fn query_fn create_fn lt found w).0.outcome ≡ true
      → Sole validate_fn
          (after_query validate_fn query_fn create_fn lt found w).0
          (if is_empty found then (query_fn lt (create_fn lt w).1).0 else found)
  unfolding after_query create_and_requery
  query-usable lt [] w h = requery-usable lt (query_fn lt (create_fn lt w).1).0 h
  query-usable lt (a ∷ []) w h = record {
    sole = a;
    only = refl;
    asset = refl;
    valid = ground arith;
  }
  query-usable lt (a ∷ b ∷ more) w h = cc

  -- A usable outcome carries the one asset that the last query found, and that asset is valid: the
  -- answer of the creation is never trusted.
  pub execute-usable :
      (lt : String) (w : W)
      → is_usable (execute validate_fn query_fn create_fn lt w).0.outcome ≡ true
      → Sole validate_fn
          (execute validate_fn query_fn create_fn lt w).0
          (last_found lt (query_fn lt w).0 (query_fn lt w).1)
  unfolding execute
  execute-usable lt w h = query-usable lt (query_fn lt w).0 (query_fn lt w).1 h
