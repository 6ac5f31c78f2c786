-- ===== src/Acquisition/Validator/Judgement.antt =====
-- What judging one type does to the variables of the validator.
use automated_short_drama.Prelude.{
  ℕ, String, ◌≡◌, refl, sym, ap, ◌∙◌, Bool, true, false, not, ◌||◌, ◌==◌, eq_iff, Option, none,
  some, List, [], ◌∷◌, ◌++◌, map, inl, inr, arith, if◌then◌else◌, select, is_some, All, All-append,
  Bool-cases,
}
use mathlib.Core.List.{append-nil, map-append}
use mathlib.Core.Path.{subst}
use automated_short_drama.Prelude.Dicts
use automated_short_drama.Prelude.Chars.{chars_eq}
use automated_short_drama.Prelude.Rows.{update_where}
use automated_short_drama.Tasks.Task.{DramaTask}
use automated_short_drama.Acquisition.Asset.{PromotionAsset, AssetStatus, VerificationStatus}
use automated_short_drama.Acquisition.Fallback.Growth.{types}
use automated_short_drama.Acquisition.DramaMatch.{normalize_drama_name}
use automated_short_drama.Acquisition.Validator.{
  of_type, as_ambiguous, as_invalid, as_validated, Progress, invalid_reason, settle, judge,
  valid_url,
}

-- A candidate without its marks.
abbrev pub bare : PromotionAsset → PromotionAsset
bare a = record a {
  acquisition_status = AssetStatus.discovered;
  verification_status = VerificationStatus.unverified;
}

bare-update_where :
    (p : PromotionAsset → Bool) (f : PromotionAsset → PromotionAsset) (cs : List PromotionAsset)
    → ((a : PromotionAsset) → bare (f a) ≡ bare a)
    → map bare (update_where p f cs) ≡ map bare cs
unfolding update_where
bare-update_where p f [] same = refl
bare-update_where p f (a ∷ cs) same = elim (Bool-cases (p a)) [
  | inl e ↦ rw (e, same a, bare-update_where p f cs same)
  | inr e ↦ rw (e, bare-update_where p f cs same)
]

select-bare :
    (t : String) (cs : List PromotionAsset)
    → select (of_type t) (map bare cs) ≡ map bare (select (of_type t) cs)
select-bare t [] = refl
select-bare t (a ∷ cs) = elim (Bool-cases (of_type t a)) [
  | inl e ↦ rw (e, select-bare t cs)
  | inr e ↦ rw (e, select-bare t cs)
]

abbrev pub is_several : List PromotionAsset → Bool
is_several (a ∷ b ∷ more) = true
is_several _ = false

is_several-bare : (cs : List PromotionAsset) → is_several (map bare cs) ≡ is_several cs
is_several-bare [] = refl
is_several-bare (a ∷ []) = refl
is_several-bare (a ∷ b ∷ more) = refl

module _ (nfkc : List ℕ → List ℕ) (task : DramaTask) where
  -- The type has exactly one candidate, and it is valid.
  abbrev pub accepts : List PromotionAsset → Bool
  accepts [] = false
  accepts (a ∷ []) = not (is_some (invalid_reason nfkc task a))
  accepts (a ∷ b ∷ more) = false

  abbrev pub is_accepted : List PromotionAsset → String → Bool
  is_accepted cs t = accepts (select (of_type t) cs)

  -- A selected asset is marked as validated, is of the task, its platform and its drama, and has a
  -- valid URL.
  pub record Checked (a : PromotionAsset) : Type 0 where
    pub marked : a.acquisition_status ≡ AssetStatus.validated
    pub verified : a.verification_status ≡ VerificationStatus.validated
    pub of_task : a.task_id ≡ task.id
    pub of_platform : a.source_platform ≡ task.platform
    pub of_drama :
        chars_eq
          (normalize_drama_name nfkc a.drama_name)
          (normalize_drama_name nfkc task.drama_name)
        ≡ true
    pub url : valid_url task.platform a.promotion_url ≡ true

  validated-Checked :
      (a : PromotionAsset) → invalid_reason nfkc task a ≡ none → Checked (as_validated a)
  unfolding invalid_reason
  validated-Checked a h =
      let platform : a.source_platform ≡ task.platform =
        ground (arith, eq_iff a.source_platform task.platform) in
      record {
        marked = refl;
        verified = refl;
        of_task = ground (arith, eq_iff a.task_id task.id);
        of_platform = platform;
        of_drama = ground arith;
        url = subst (λ s. valid_url s a.promotion_url ≡ true) platform (ground arith);
      }

  accepts-bare : (cs : List PromotionAsset) → accepts (map bare cs) ≡ accepts cs
  unfolding invalid_reason
  accepts-bare [] = refl
  accepts-bare (a ∷ []) = refl
  accepts-bare (a ∷ b ∷ more) = refl

  pub is_accepted-bare :
      (cs ds : List PromotionAsset) (t : String)
      → map bare cs ≡ map bare ds
      → (is_accepted cs t ≡ is_accepted ds t)
        × (is_several (select (of_type t) cs) ≡ is_several (select (of_type t) ds))
  is_accepted-bare cs ds t e =
      let typed : map bare (select (of_type t) cs) ≡ map bare (select (of_type t) ds) =
        sym (select-bare t cs) ∙ ap (λ l. select (of_type t) l) e ∙ select-bare t ds in
      (
        sym (accepts-bare _) ∙ ap accepts typed ∙ accepts-bare _,
        sym (is_several-bare _) ∙ ap is_several typed ∙ is_several-bare _,
      )

  -- What judging the type `t` does, where `ok` says that it is accepted and `many` that it has several
  -- candidates.
  pub record Judged (t : String) (ok many : Bool) (p q : Progress) : Type 0 where
    pub same : map bare q.candidates ≡ map bare p.candidates
    pub selected : types q.selected ≡ types p.selected ++ (if ok then t ∷ [] else [])
    pub missing :
        (k : String)
        → Dicts.has_key k q.missing ≡ (if t == k then not ok else Dicts.has_key k p.missing)
    pub several : q.has_ambiguous ≡ (p.has_ambiguous || many)
    pub checked : All Checked p.selected → All Checked q.selected

  settle-Judged :
      (t : String) (a : PromotionAsset) (o : Option String) (p : Progress)
      → invalid_reason nfkc task a ≡ o
      → a.link_type ≡ t
      → Judged t (not (is_some o)) false p (settle nfkc t a o p)
  unfolding settle
  settle-Judged t a (some reason) p h e = record {
    same = bare-update_where (of_type t) as_invalid p.candidates (λ b. refl);
    selected = sym (append-nil _);
    missing = λ k. Dicts.has_key-put t k reason p.missing;
    several = ground arith;
    checked = λ c. c;
  }
  settle-Judged t a none p h e = record {
    same = bare-update_where (of_type t) as_validated p.candidates (λ b. refl);
    selected = map-append _ _ _ ∙ ap (λ (s : String). types p.selected ++ s ∷ []) e;
    missing = λ k. Dicts.has_key-remove t k p.missing;
    several = ground arith;
    checked =
        λ c. All-append Checked p.selected (as_validated a ∷ []) c (validated-Checked a h, tt);
  }

  pub judge-Judged :
      (t : String) (typed : List PromotionAsset) (p : Progress)
      → All (λ a. of_type t a ≡ true) typed
      → Judged t (accepts typed) (is_several typed) p (judge nfkc task t typed p)
  unfolding judge
  judge-Judged t [] p h = record {
    same = refl;
    selected = sym (append-nil _);
    missing = λ k. ground (arith, Dicts.has_key-put t k "NOT_FOUND" p.missing, eq_iff t k);
    several = ground arith;
    checked = λ c. c;
  }
  judge-Judged t (a ∷ []) p h =
      settle-Judged t a (invalid_reason nfkc task a) p refl (ground (arith, eq_iff a.link_type t))
  judge-Judged t (a ∷ b ∷ more) p h = record {
    same = bare-update_where (of_type t) as_ambiguous p.candidates (λ b. refl);
    selected = sym (append-nil _);
    missing = λ k. Dicts.has_key-put t k "MULTIPLE_CANDIDATES" p.missing;
    several = ground arith;
    checked = λ c. c;
  }
