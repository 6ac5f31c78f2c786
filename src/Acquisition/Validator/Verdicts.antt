-- ===== src/Acquisition/Validator/Verdicts.antt =====
-- Which candidates the validator selects, what it reports missing, and when it reports completeness.
use automated_short_drama.Prelude.{
  ℕ, String, ◌≡◌, refl, sym, ap, ◌∙◌, Bool, true, false, not, ◌||◌, eq_iff, List, [], ◌∷◌, ◌++◌,
  map, arith, length, length-select-le, if◌then◌else◌, select, any, nat_eq, All, All-select,
}
use mathlib.Core.List.{append_assoc, append-nil}
use automated_short_drama.Prelude.Dicts
use automated_short_drama.Tasks.Task.{DramaTask}
use automated_short_drama.Acquisition.Asset.{PromotionAsset, AcquisitionResult}
use automated_short_drama.Acquisition.Fallback.{holds, is_complete}
use automated_short_drama.Acquisition.Fallback.Growth.{types}
use automated_short_drama.Acquisition.Validator.{
  of_type, Progress, judge, judge_all, begin, validate,
}
use automated_short_drama.Acquisition.Validator.Judgement.{
  bare, is_several, accepts, is_accepted, is_accepted-bare, Checked, judge-Judged,
}

module _ (nfkc : List ℕ → List ℕ) (task : DramaTask) where
  abbrev has_several : List PromotionAsset → String → Bool
  has_several cs t = is_several (select (of_type t) cs)

  -- The whole loop, by the candidates `cs` that it began with.
  record JudgedAll (cs : List PromotionAsset) (ts : List String) (p q : Progress) : Type 0 where
    selected : types q.selected ≡ types p.selected ++ select (is_accepted nfkc task cs) ts
    missing :
        (k : String)
        → Dicts.has_key k q.missing
          ≡ (if holds k ts then not (is_accepted nfkc task cs k) else Dicts.has_key k p.missing)
    several : q.has_ambiguous ≡ (p.has_ambiguous || any (has_several cs) ts)
    checked : All (Checked nfkc task) p.selected → All (Checked nfkc task) q.selected

  judge_all-JudgedAll :
      (cs : List PromotionAsset) (ts : List String) (p : Progress)
      → map bare p.candidates ≡ map bare cs
      → JudgedAll cs ts p (judge_all nfkc task ts p)
  unfolding judge_all
  judge_all-JudgedAll cs [] p e = record {
    selected = sym (append-nil _);
    missing = λ k. refl;
    several = ground arith;
    checked = λ c. c;
  }
  judge_all-JudgedAll cs (t ∷ ts) p e =
      let typed = select (of_type t) p.candidates in
      let q = judge nfkc task t typed p in
      let j = judge-Judged nfkc task t typed p (All-select (of_type t) p.candidates) in
      let rest = judge_all-JudgedAll cs ts q (j.same ∙ e) in
      let same = is_accepted-bare nfkc task p.candidates cs t e in
      record {
        selected =
            rest.selected
            ∙ rw j.selected (
                append_assoc (types p.selected)
                  (if is_accepted nfkc task p.candidates t then t ∷ [] else [])
                  (select (is_accepted nfkc task cs) ts)
                ∙ ap (λ l. types p.selected ++ l)
                    (first_selected ts t (is_accepted nfkc task p.candidates t) same.0));
        missing = λ k. ground (arith, rest.missing k, j.missing k, same.0, eq_iff t k);
        several = ground (arith, rest.several, j.several, same.1);
        checked = λ c. rest.checked (j.checked c);
      }
    where
      first_selected :
          (us : List String) (u : String) (b : Bool)
          → b ≡ is_accepted nfkc task cs u
          → (if b then u ∷ [] else []) ++ select (is_accepted nfkc task cs) us
            ≡ select (is_accepted nfkc task cs) (u ∷ us)
      first_selected us u true h = rw (sym h) refl
      first_selected us u false h = rw (sym h) refl

select-all :
    (p : String → Bool) (ts : List String)
    → nat_eq (length (select p ts)) (length ts) ≡ not (any (λ t. not (p t)) ts)
select-all p [] = refl
select-all p (t ∷ ts) = ground (arith, select-all p ts, length-select-le p ts)

length-types : (assets : List PromotionAsset) → length (types assets) ≡ length assets
length-types [] = refl
length-types (a ∷ assets) = omega (arith, length-types assets)

module _ (nfkc : List ℕ → List ℕ) (task : DramaTask) (r : AcquisitionResult) where
  run :
      JudgedAll nfkc task r.candidates r.expected_types
        (begin r)
        (judge_all nfkc task r.expected_types (begin r))
  run = judge_all-JudgedAll nfkc task r.candidates r.expected_types (begin r) refl

  -- The selected assets are, in the order of the expected types, one of each type that has exactly one
  -- candidate, which is valid; each is marked as validated and is of the task, its platform and its
  -- drama, with a valid URL.
  pub validate-types :
      (types (validate nfkc task r).selected
        ≡ select (is_accepted nfkc task r.candidates) r.expected_types)
      × All (Checked nfkc task) (validate nfkc task r).selected
  unfolding validate
  validate-types = (run.selected, run.checked tt)

  -- An expected type is reported missing exactly if it is not accepted, whatever was reported before.
  validate-missing :
      (k : String)
      → holds k r.expected_types ≡ true
      → Dicts.has_key k (validate nfkc task r).missing ≡ not (is_accepted nfkc task r.candidates k)
  unfolding validate
  validate-missing k h = ground (arith, run.missing k)

  several-accepts : (cs : List PromotionAsset) → is_several cs ≡ true → accepts nfkc task cs ≡ false
  several-accepts [] h = refl
  several-accepts (a ∷ []) h = cc
  several-accepts (a ∷ b ∷ more) h = refl

  several_refused :
      (ts : List String)
      → any (has_several nfkc task r.candidates) ts ≡ true
      → any (λ t. not (is_accepted nfkc task r.candidates t)) ts ≡ true
  several_refused [] h = cc
  several_refused (t ∷ ts) h =
      ground (arith, several_refused ts, several-accepts (select (of_type t) r.candidates))

  -- The status is COMPLETE exactly if every expected type is accepted.
  pub is_complete-validate :
      is_complete (validate nfkc task r).status
      ≡ not (any (λ t. not (is_accepted nfkc task r.candidates t)) r.expected_types)
  unfolding validate
  is_complete-validate =
      let p = judge_all nfkc task r.expected_types (begin r) in
      ground (
        arith,
        run.several,
        several_refused r.expected_types,
        select-all (is_accepted nfkc task r.candidates) r.expected_types,
        length-types p.selected,
        ap (λ (l : List String). length l) run.selected,
      )
