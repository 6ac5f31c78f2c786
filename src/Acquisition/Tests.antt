-- ===== src/Acquisition/Tests.antt =====
-- The acquisition of links on concrete assets, providers and tasks.
use automated_short_drama.Prelude.{String, ◌≡◌, refl, true, Option, none, some, List, [], ◌∷◌}
use automated_short_drama.Prelude.Chars.{chars_eq, strip}
use automated_short_drama.Tasks.Task.{DramaTask, ready}
use automated_short_drama.Acquisition.Asset.{
  PromotionAsset, AssetStatus, VerificationStatus, complete, partial,
}
use automated_short_drama.Acquisition.CreateGuard.{execute, after_requery}
use automated_short_drama.Acquisition.CreateGuard.Safety.{
  calls_of, creations, Sole, recorded_query, recorded_create, execute-calls, execute-usable,
}
use automated_short_drama.Acquisition.Fallback.{Provider}
use automated_short_drama.Acquisition.Matcher.{
  names_match_exact, match_type, match_levels, match_by_external_id, match_by_promotion_id,
  match_by_template_id, match_by_confirmed, match_by_exact_name,
}
use automated_short_drama.Acquisition.Matcher.Levels.{Alone, match_type-Alone}

abbrev pub asset : String → String → PromotionAsset
asset link_type name = record {
  id = "a1";
  task_id = "t1";
  source_platform = "TOMATO";
  drama_name = name;
  link_type = link_type;
  promotion_url = "aweme://playlet?playlet_id=7";
  external_drama_id = some "other";
  promotion_id = none;
  episode = none;
  template_id = none;
  template_name = none;
  acquisition_method = "API";
  acquisition_status = AssetStatus.discovered;
  verification_status = VerificationStatus.unverified;
  created_or_existing = "EXISTING";
}

abbrev pub task : DramaTask
task = record {
  drama_name = "Moon";
  platform = "TOMATO";
  available_time = 5;
  end_type = "NATIVE";
  id = "t1";
  source_key = "k1";
  sheet_row = none;
  owner = none;
  status = ready;
  source_links = [];
  link_set = [];
  link_status = "NONE";
  current_stage = "LINK";
  target_stage = "LINK";
  delivery_drama_id = "";
  promotion_configs = [];
  confirmed_drama_match =
      some (record { locator_key = "wanted"; available_minute = 5; confirmed_at = 6 });
}

-- The world of the callbacks: the assets that exist outside.
abbrev query_fn : String → List PromotionAsset → List PromotionAsset × List PromotionAsset
query_fn link_type w = (w, w)

abbrev create_fn : String → List PromotionAsset → Option PromotionAsset × List PromotionAsset
create_fn link_type w = (none, asset link_type "Moon" ∷ w)

execute-calls_example :
    let r =
      execute
        (λ a. true)
        (recorded_query (λ a. true) query_fn create_fn)
        (recorded_create (λ a. true) query_fn create_fn)
        "IAA"
        ([], []) in
    (r.1.1 ≡ calls_of r.0.steps) × (creations r.1.1 ≡ 1)
execute-calls_example = execute-calls (λ a. true) query_fn create_fn "IAA" []

execute-usable_example :
    Sole (λ a. true) (execute (λ a. true) query_fn create_fn "IAA" []).0 (asset "IAA" "Moon" ∷ [])
unfolding execute after_requery
execute-usable_example = execute-usable (λ a. true) query_fn create_fn "IAA" [] refl

-- The first provider misses the type that the second one finds.
abbrev without_iaa : Provider
without_iaa = record {
  name_attr = some "API";
  type_name = "ApiProvider";
  acquire = λ t. record {
    status = partial;
    expected_types = "IAA" ∷ [];
    candidates = [];
    selected = [];
    missing = ("IAA", "NOT_FOUND") ∷ [];
    warnings = [];
  };
}

abbrev with_iaa : Provider
with_iaa = record {
  name_attr = none;
  type_name = "DomProvider";
  acquire = λ t. record {
    status = complete;
    expected_types = "IAA" ∷ [];
    candidates = asset "IAA" "Moon" ∷ [];
    selected = asset "IAA" "Moon" ∷ [];
    missing = [];
    warnings = [];
  };
}

match_type-Alone_example :
    Alone
      (λ s. s)
      task
      (asset "IAA" "Moon" ∷ [])
      (match_type (λ s. s) task "IAA" (asset "IAA" "Moon" ∷ []))
unfolding match_type match_levels match_by_external_id match_by_promotion_id match_by_template_id
    match_by_confirmed match_by_exact_name names_match_exact chars_eq strip
match_type-Alone_example = match_type-Alone (λ s. s) task "IAA" (asset "IAA" "Moon" ∷ []) refl
