-- ===== src/Acquisition/Matcher.antt =====
-- backend/src/backend/domain/acquisition/promotion_matcher.py. `lower` is the Unicode case mapping of
-- `str.lower`, a parameter.
pub mod Levels
use automated_short_drama.Prelude.{
  ℕ, String, Bool, true, false, not, ◌&&◌, ◌||◌, ◌==◌, Option, none, some, List, [], ◌∷◌,
  if◌then◌else◌, select, codes,
}
use automated_short_drama.Prelude.Dicts
use automated_short_drama.Prelude.Chars.{strip, without_char, chars_eq, drop_suffix}
use automated_short_drama.Tasks.Task.{DramaTask, ConfirmedDramaMatch}
use automated_short_drama.Acquisition.Asset.{PromotionAsset, is_given}

pub data MatchConfidence : Type 0 where
  fuzzy_name exact_name confirmed_match template_id promotion_id external_id : MatchConfidence

pub record MatchResult : Type 0 where
  pub is_matched : Bool
  pub is_ambiguous : Bool
  pub selected : Option PromotionAsset
  pub ambiguous_candidates : List PromotionAsset
  pub confidence : Option MatchConfidence

abbrev pub matched : PromotionAsset → MatchConfidence → MatchResult
matched a c = record {
  is_matched = true;
  is_ambiguous = false;
  selected = some a;
  ambiguous_candidates = [];
  confidence = some c;
}

abbrev pub ambiguous : List PromotionAsset → MatchConfidence → MatchResult
ambiguous assets c = record {
  is_matched = false;
  is_ambiguous = true;
  selected = none;
  ambiguous_candidates = assets;
  confidence = some c;
}

abbrev pub not_found : MatchResult
not_found = record {
  is_matched = false;
  is_ambiguous = false;
  selected = none;
  ambiguous_candidates = [];
  confidence = none;
}

-- `x if x else None` of a list.
abbrev pub or_none : List PromotionAsset → Option (List PromotionAsset)
or_none [] = none
or_none (a ∷ more) = some (a ∷ more)

-- `_names_match_exact`
unfoldable pub names_match_exact : String → String → Bool
names_match_exact a b =
    if a == "" || b == "" then false else chars_eq (strip (codes a)) (strip (codes b))

-- `x == key` of an optional text.
abbrev pub is_key : Option String → String → Bool
is_key none key = false
is_key (some s) key = s == key

abbrev pub matches_key : String → PromotionAsset → Bool
matches_key key c =
    is_key c.promotion_id key
    || (is_key c.template_id key || chars_eq (strip (codes c.drama_name)) (codes key))

-- The locator of a confirmation, where there is one and it is not empty.
abbrev pub locator : Option ConfirmedDramaMatch → Option String
locator none = none
locator (some m) = if m.locator_key == "" then none else some m.locator_key

unfoldable pub match_by_promotion_id : List PromotionAsset → Option (List PromotionAsset)
match_by_promotion_id cs = or_none (select (λ c. is_given c.promotion_id) cs)

unfoldable pub match_by_template_id : List PromotionAsset → Option (List PromotionAsset)
match_by_template_id cs = or_none (select (λ c. is_given c.template_id) cs)

abbrev pub by_locator : Option String → List PromotionAsset → Option (List PromotionAsset)
by_locator none cs = none
by_locator (some key) cs = or_none (select (matches_key key) cs)

unfoldable pub match_by_confirmed : DramaTask → List PromotionAsset → Option (List PromotionAsset)
match_by_confirmed task cs = by_locator (locator task.confirmed_drama_match) cs

unfoldable pub match_by_exact_name : DramaTask → List PromotionAsset → Option (List PromotionAsset)
match_by_exact_name task cs =
    or_none (select (λ c. names_match_exact c.drama_name task.drama_name) cs)

-- One level of the loop: the next one is asked where this one answers None.
abbrev pub at_level :
    MatchConfidence → Bool → Option (List PromotionAsset) → MatchResult → MatchResult
at_level confidence always_ambiguous none next = next
at_level confidence always_ambiguous (some []) next = ambiguous [] confidence
at_level confidence always_ambiguous (some (a ∷ [])) next =
    if always_ambiguous then ambiguous (a ∷ []) confidence else matched a confidence
at_level confidence always_ambiguous (some (a ∷ b ∷ more)) next =
    ambiguous (a ∷ b ∷ more) confidence

abbrev pub is_empty : List ℕ → Bool
is_empty [] = true
is_empty (c ∷ cs) = false

abbrev pub first_given :
    Option (List PromotionAsset) → Option (List PromotionAsset) → Option (List PromotionAsset)
first_given none other = other
first_given (some found) other = some found

module _ (lower : List ℕ → List ℕ) where
  -- `_normalize_name`
  unfoldable pub normalize_name : String → List ℕ
  normalize_name name =
      let s0 = without_char 0x3000 (without_char b' ' (lower (strip (codes name)))) in
      let s1 = drop_suffix (codes "全集") s0 in
      let s2 = drop_suffix (codes "完整版") s1 in
      let s3 = drop_suffix (codes "独家") s2 in
      let s4 = drop_suffix (codes "高清") s3 in drop_suffix (codes "正版") s4

  unfoldable pub names_match_fuzzy : String → String → Bool
  names_match_fuzzy a b =
      if is_empty (normalize_name a) || is_empty (normalize_name b)
      then false
      else chars_eq (normalize_name a) (normalize_name b)

  unfoldable pub match_by_fuzzy_name :
      DramaTask → List PromotionAsset → Option (List PromotionAsset)
  match_by_fuzzy_name task cs =
      or_none (select (λ c. names_match_fuzzy c.drama_name task.drama_name) cs)

  -- `_filter_by_best_name_match`, whose empty list is None here.
  unfoldable pub best_name_match : DramaTask → List PromotionAsset → Option (List PromotionAsset)
  best_name_match task cs = first_given (match_by_exact_name task cs) (match_by_fuzzy_name task cs)

  abbrev pub external_by_locator :
      DramaTask → Option String → List PromotionAsset → Option (List PromotionAsset)
  external_by_locator task none with_id = best_name_match task with_id
  external_by_locator task (some key) with_id =
      or_none (select (λ c. is_key c.external_drama_id key) with_id)

  abbrev pub external_with : DramaTask → List PromotionAsset → Option (List PromotionAsset)
  external_with task [] = none
  external_with task (c ∷ cs) =
      external_by_locator task (locator task.confirmed_drama_match) (c ∷ cs)

  unfoldable pub match_by_external_id :
      DramaTask → List PromotionAsset → Option (List PromotionAsset)
  match_by_external_id task cs = external_with task (select (λ c. is_given c.external_drama_id) cs)

  unfoldable pub match_levels : DramaTask → List PromotionAsset → MatchResult
  match_levels task cs = at_level external_id false (match_by_external_id task cs) (
      at_level promotion_id false (match_by_promotion_id cs) (
        at_level template_id false (match_by_template_id cs) (
          at_level confirmed_match false (match_by_confirmed task cs) (
            at_level exact_name false (match_by_exact_name task cs)
              (at_level fuzzy_name true (match_by_fuzzy_name task cs) not_found)))))

  abbrev pub match_same_type : DramaTask → List PromotionAsset → MatchResult
  match_same_type task [] = not_found
  match_same_type task (c ∷ cs) = match_levels task (c ∷ cs)

  unfoldable pub match_type : DramaTask → String → List PromotionAsset → MatchResult
  match_type task expected candidates =
      match_same_type task (select (λ c. c.link_type == expected) candidates)

  -- `match_all_types`: the dict by type; a type that stands twice in the list gives one entry.
  unfoldable match_all_types :
      DramaTask
      → List PromotionAsset
      → List String
      → List (String × MatchResult)
      → List (String × MatchResult)
  match_all_types task candidates [] results = results
  match_all_types task candidates (t ∷ ts) results =
      match_all_types task candidates ts (Dicts.put t (match_type task t candidates) results)
