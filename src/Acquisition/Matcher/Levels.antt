-- ===== src/Acquisition/Matcher/Levels.antt =====
-- What a match may select, and at which level.
use automated_short_drama.Prelude.{
  ℕ, String, ◌≡◌, ◌≢◌, refl, Bool, true, false, ◌==◌, ◌&&◌, ◌||◌, Option, none, some, List, [], ◌∷◌,
  inl, arith, select, codes,
}
use automated_short_drama.Prelude.Rows.{In, In-select}
use automated_short_drama.Prelude.Chars.{strip, chars_eq}
use automated_short_drama.Tasks.Task.{DramaTask}
use automated_short_drama.Acquisition.Asset.{PromotionAsset, is_given}
use automated_short_drama.Acquisition.Matcher.{
  MatchConfidence, MatchResult, fuzzy_name, exact_name, confirmed_match, template_id, promotion_id,
  external_id, matched, not_found, or_none, names_match_exact, is_key, matches_key, locator,
  match_by_promotion_id, match_by_template_id, by_locator, match_by_confirmed, match_by_exact_name,
  at_level, names_match_fuzzy, match_by_fuzzy_name, first_given, best_name_match,
  external_by_locator, external_with, match_by_external_id, match_levels, match_same_type,
  match_type,
}

-- What a level answers comes from the candidates and has what the level asks for.
abbrev Among : (PromotionAsset → Bool) → List PromotionAsset → Option (List PromotionAsset) → Type 0
Among q cs none = Unit
Among q cs (some found) = (a : PromotionAsset) → In a found → In a cs × (q a ≡ true)

or_none-Among :
    (q : PromotionAsset → Bool) (cs found : List PromotionAsset)
    → ((a : PromotionAsset) → In a found → In a cs × (q a ≡ true))
    → Among q cs (or_none found)
or_none-Among q cs [] h = tt
or_none-Among q cs (a ∷ more) h = h

select-Among :
    (q : PromotionAsset → Bool) (cs : List PromotionAsset) → Among q cs (or_none (select q cs))
select-Among q cs = or_none-Among q cs (select q cs) (λ a. In-select q a cs)

first_given-Among :
    (q : PromotionAsset → Bool) (cs : List PromotionAsset) (o p : Option (List PromotionAsset))
    → Among q cs o
    → Among q cs p
    → Among q cs (first_given o p)
first_given-Among q cs none p ho hp = hp
first_given-Among q cs (some found) p ho hp = ho

Among-more :
    (q r : PromotionAsset → Bool) (cs ds : List PromotionAsset) (o : Option (List PromotionAsset))
    → ((a : PromotionAsset) → In a ds → r a ≡ true → In a cs × (q a ≡ true))
    → Among r ds o
    → Among q cs o
Among-more q r cs ds none sub h = tt
Among-more q r cs ds (some found) sub h = λ a i. let k = h a i in sub a k.0 k.1

module _ (lower : List ℕ → List ℕ) (task : DramaTask) where
  -- The candidates that a level finds.
  abbrev pub answer : MatchConfidence → List PromotionAsset → Option (List PromotionAsset)
  answer external_id cs = match_by_external_id lower task cs
  answer promotion_id cs = match_by_promotion_id cs
  answer template_id cs = match_by_template_id cs
  answer confirmed_match cs = match_by_confirmed task cs
  answer exact_name cs = match_by_exact_name task cs
  answer fuzzy_name cs = match_by_fuzzy_name lower task cs

  -- What the levels ask of a candidate. That of the external id is content with a fuzzy name where
  -- the task has no confirmed locator.
  abbrev is_external : Option String → PromotionAsset → Bool
  is_external none c =
      names_match_exact c.drama_name task.drama_name
      || names_match_fuzzy lower c.drama_name task.drama_name
  is_external (some key) c = is_key c.external_drama_id key

  abbrev pub is_confirmed : Option String → PromotionAsset → Bool
  is_confirmed none c = false
  is_confirmed (some key) c = matches_key key c

  abbrev qualifies : MatchConfidence → PromotionAsset → Bool
  qualifies external_id c =
      is_given c.external_drama_id && is_external (locator task.confirmed_drama_match) c
  qualifies promotion_id c = is_given c.promotion_id
  qualifies template_id c = is_given c.template_id
  qualifies confirmed_match c = is_confirmed (locator task.confirmed_drama_match) c
  qualifies exact_name c = names_match_exact c.drama_name task.drama_name
  qualifies fuzzy_name c = false

  -- The selected asset is the only one that its level finds, and it has what the level asks for.
  pub record Alone (cs : List PromotionAsset) (r : MatchResult) : Type 0 where
    pub sole : PromotionAsset
    pub level : MatchConfidence
    pub selected : r.selected ≡ some sole
    pub among : In sole cs
    pub confidence : r.confidence ≡ some level
    pub alone : answer level cs ≡ some (sole ∷ [])
    pub fits : qualifies level sole ≡ true

  best-Among :
      (cs : List PromotionAsset) → Among (is_external none) cs (best_name_match lower task cs)
  unfolding best_name_match match_by_exact_name match_by_fuzzy_name
  best-Among cs =
      let exact : PromotionAsset → Bool = λ c. names_match_exact c.drama_name task.drama_name in
      let fuzzy : PromotionAsset → Bool =
        λ c. names_match_fuzzy lower c.drama_name task.drama_name in
      first_given-Among (is_external none) cs (match_by_exact_name task cs)
        (match_by_fuzzy_name lower task cs)
        (Among-more (is_external none) exact cs cs (match_by_exact_name task cs)
          (λ a i e. (i, ground (arith, e))) (select-Among exact cs))
        (Among-more (is_external none) fuzzy cs cs (match_by_fuzzy_name lower task cs)
          (λ a i e. (i, ground (arith, e))) (select-Among fuzzy cs))

  external_by_locator-Among :
      (o : Option String) (cs : List PromotionAsset)
      → Among (is_external o) cs (external_by_locator lower task o cs)
  external_by_locator-Among none cs = best-Among cs
  external_by_locator-Among (some key) cs = select-Among (λ c. is_key c.external_drama_id key) cs

  external_with-Among :
      (cs : List PromotionAsset)
      → Among (is_external (locator task.confirmed_drama_match)) cs (external_with lower task cs)
  external_with-Among [] = tt
  external_with-Among (c ∷ cs) =
      external_by_locator-Among (locator task.confirmed_drama_match) (c ∷ cs)

  by_locator-Among :
      (o : Option String) (cs : List PromotionAsset) → Among (is_confirmed o) cs (by_locator o cs)
  by_locator-Among none cs = tt
  by_locator-Among (some key) cs = select-Among (matches_key key) cs

  answer-Among :
      (level : MatchConfidence) (cs : List PromotionAsset)
      → level ≢ fuzzy_name
      → Among (qualifies level) cs (answer level cs)
  unfolding match_by_external_id match_by_promotion_id match_by_template_id match_by_confirmed
      match_by_exact_name match_by_fuzzy_name
  answer-Among external_id cs ne =
      let given : PromotionAsset → Bool = λ c. is_given c.external_drama_id in
      Among-more (qualifies external_id) (is_external (locator task.confirmed_drama_match)) cs
        (select given cs) (external_with lower task (select given cs))
        (λ a i e. let k = In-select given a cs i in (k.0, rw (k.1) e))
        (external_with-Among (select given cs))
  answer-Among promotion_id cs ne = select-Among (λ c. is_given c.promotion_id) cs
  answer-Among template_id cs ne = select-Among (λ c. is_given c.template_id) cs
  answer-Among confirmed_match cs ne = by_locator-Among (locator task.confirmed_drama_match) cs
  answer-Among exact_name cs ne =
      select-Among (λ c. names_match_exact c.drama_name task.drama_name) cs
  answer-Among fuzzy_name cs ne = absurd (ne refl)

  at_level-Alone :
      (cs : List PromotionAsset) (level : MatchConfidence) (o : Option (List PromotionAsset))
      (next : MatchResult)
      → answer level cs ≡ o
      → Among (qualifies level) cs o
      → (next.is_matched ≡ true → Alone cs next)
      → (at_level level false o next).is_matched ≡ true
      → Alone cs (at_level level false o next)
  at_level-Alone cs level none next e am ih h = ih h
  at_level-Alone cs level (some []) next e am ih h = cc
  at_level-Alone cs level (some (a ∷ [])) next e am ih h = record {
    sole = a;
    level = level;
    selected = refl;
    among = (am a (inl refl)).0;
    confidence = refl;
    alone = e;
    fits = (am a (inl refl)).1;
  }
  at_level-Alone cs level (some (a ∷ b ∷ more)) next e am ih h = cc

  fuzzy-never :
      (o : Option (List PromotionAsset)) → (at_level fuzzy_name true o not_found).is_matched ≡ false
  fuzzy-never none = refl
  fuzzy-never (some []) = refl
  fuzzy-never (some (a ∷ [])) = refl
  fuzzy-never (some (a ∷ b ∷ more)) = refl

  level-Alone :
      (cs : List PromotionAsset) (level : MatchConfidence) (next : MatchResult)
      → level ≢ fuzzy_name
      → (next.is_matched ≡ true → Alone cs next)
      → (at_level level false (answer level cs) next).is_matched ≡ true
      → Alone cs (at_level level false (answer level cs) next)
  level-Alone cs level next ne ih h =
      at_level-Alone cs level (answer level cs) next refl (answer-Among level cs ne) ih h

  match_levels-Alone :
      (cs : List PromotionAsset)
      → (match_levels lower task cs).is_matched ≡ true
      → Alone cs (match_levels lower task cs)
  unfolding match_levels
  match_levels-Alone cs =
      level-Alone cs external_id _ (λ e. cc)
        (level-Alone cs promotion_id _ (λ e. cc)
          (level-Alone cs template_id _ (λ e. cc)
            (level-Alone cs confirmed_match _ (λ e. cc)
              (level-Alone cs exact_name _ (λ e. cc)
                (λ h. cc (fuzzy-never (match_by_fuzzy_name lower task cs), h))))))

  match_same_type-Alone :
      (cs : List PromotionAsset)
      → (match_same_type lower task cs).is_matched ≡ true
      → Alone cs (match_same_type lower task cs)
  match_same_type-Alone [] h = cc
  match_same_type-Alone (c ∷ cs) h = match_levels-Alone (c ∷ cs) h

  -- A match selects a candidate of the wanted type that is the only one its level finds, so that the
  -- matcher never picks one of several, and the candidate has what the level asks for: it has the
  -- confirmed locator as its external id, or, at that level and without a locator, an external id and
  -- the task's name, exact or only after the fuzzy normalisation; or a promotion id; or a template id;
  -- or the locator as an id or name; or the exact name. The level of fuzzy names selects nothing.
  pub match_type-Alone :
      (expected : String) (candidates : List PromotionAsset)
      → (match_type lower task expected candidates).is_matched ≡ true
      → Alone
          (select (λ c. c.link_type == expected) candidates)
          (match_type lower task expected candidates)
  unfolding match_type
  match_type-Alone expected candidates h =
      match_same_type-Alone (select (λ c. c.link_type == expected) candidates) h

  -- A confirmed locator does not keep other dramas out: one candidate whose external id is not the
  -- locator, with neither a promotion id nor a template id, and whose name is that of the task and not the
  -- locator, is
  -- selected by its name.
  match_type-passes_locator :
      (expected key other : String) (c : PromotionAsset)
      → (c.link_type == expected) ≡ true
      → locator task.confirmed_drama_match ≡ some key
      → c.external_drama_id ≡ some other
      → (other == "") ≡ false
      → (other == key) ≡ false
      → c.promotion_id ≡ none
      → c.template_id ≡ none
      → chars_eq (strip (codes c.drama_name)) (codes key) ≡ false
      → names_match_exact c.drama_name task.drama_name ≡ true
      → match_type lower task expected (c ∷ []) ≡ matched c exact_name
  unfolding match_type match_levels match_by_external_id match_by_promotion_id match_by_template_id
      match_by_confirmed match_by_exact_name
  match_type-passes_locator expected key other c t l x ne nk p tp n m = ground arith
