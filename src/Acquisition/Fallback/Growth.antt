-- ===== src/Acquisition/Fallback/Growth.antt =====
-- What one turn of the loops of the chain adds to its variables.
use automated_short_drama.Prelude.{
  String, ◌≡◌, refl, sym, ◌∙◌, true, false, not, ◌&&◌, ◌==◌, eq_iff, List, [], ◌∷◌, ◌++◌, map, inl,
  inr, arith, if◌then◌else◌, Bool-cases,
}
use mathlib.Core.Path.{subst}
use mathlib.Core.List.{append_assoc, append-nil, map-append}
use automated_short_drama.Prelude.Dicts
use automated_short_drama.Prelude.Dicts.{has_key-put}
use automated_short_drama.Tasks.Task.{DramaTask}
use automated_short_drama.Acquisition.Asset.{PromotionAsset}
use automated_short_drama.Acquisition.Fallback.{
  Provider, provider_name, holds, Chain, add_candidate, add_candidates, select_asset, add_selected,
  note_missing, add_missing, visit,
}

abbrev pub types : List PromotionAsset → List String
types assets = map (λ a. a.link_type) assets

-- Of the assets the first of each type that is not yet seen.
unfoldable pub first_of_types : List String → List PromotionAsset → List PromotionAsset
first_of_types seen [] = []
first_of_types seen (a ∷ more) =
    let fresh = a ∷ first_of_types (seen ++ a.link_type ∷ []) more in
    let rest = first_of_types seen more in if holds a.link_type seen then rest else fresh

pub first_of_types-append :
    (seen : List String) (xs ys : List PromotionAsset)
    → first_of_types seen (xs ++ ys)
      ≡ first_of_types seen xs ++ first_of_types (seen ++ types (first_of_types seen xs)) ys
unfolding first_of_types
first_of_types-append seen [] ys = rw append-nil
first_of_types-append seen (a ∷ xs) ys = elim (Bool-cases (holds a.link_type seen)) [
  | inl old ↦ rw old (first_of_types-append seen xs ys)
  | inr new ↦ rw new (rw (first_of_types-append (seen ++ a.link_type ∷ []) xs ys) (rw append_assoc))
]

-- What a part of the loop does: the selection grows by `new`, the providers tried stay, and what
-- is missing stays missing.
pub record Grows (c c' : Chain) (new : List PromotionAsset) : Type 0 where
  pub selected : c'.selected ≡ c.selected ++ new
  pub selected_types : c'.selected_types ≡ c.selected_types ++ types new
  pub tried : c'.providers_tried ≡ c.providers_tried
  pub missing : (k : String) → Dicts.has_key k c.missing ≡ true → Dicts.has_key k c'.missing ≡ true

Grows-refl : (c : Chain) → Grows c c []
Grows-refl c = record {
  selected = sym (append-nil _);
  selected_types = sym (append-nil _);
  tried = refl;
  missing = λ k h. h;
}

Grows-trans :
    {c d e : Chain} {xs ys : List PromotionAsset}
    → Grows c d xs
    → Grows d e ys
    → Grows c e (xs ++ ys)
Grows-trans g h = record {
  selected = rw (h.selected, g.selected, append_assoc);
  selected_types = rw (h.selected_types, g.selected_types, map-append, append_assoc);
  tried = h.tried ∙ g.tried;
  missing = λ k m. h.missing k (g.missing k m);
}

add_candidate-Grows : (a : PromotionAsset) (c : Chain) → Grows c (add_candidate a c) []
unfolding add_candidate
add_candidate-Grows a c = elim (Bool-cases (holds a.link_type c.selected_types)) [
  | inl old ↦ rw old (Grows-refl c)
  | inr new ↦
      let g = Grows-refl c in
      rw new (record {
        selected = g.selected;
        selected_types = g.selected_types;
        tried = refl;
        missing = λ k h. h;
      })
]

add_candidates-Grows :
    (assets : List PromotionAsset) (c : Chain) → Grows c (add_candidates assets c) []
unfolding add_candidates
add_candidates-Grows [] c = Grows-refl c
add_candidates-Grows (a ∷ more) c =
    Grows-trans (add_candidate-Grows a c) (add_candidates-Grows more (add_candidate a c))

select_asset-Grows :
    (name : String) (a : PromotionAsset) (c : Chain)
    → Grows c (select_asset name a c) (first_of_types c.selected_types (a ∷ []))
unfolding select_asset first_of_types
select_asset-Grows name a c = elim (Bool-cases (holds a.link_type c.selected_types)) [
  | inl old ↦ rw old (Grows-refl c)
  | inr new ↦
      rw new (record { selected = refl; selected_types = refl; tried = refl; missing = λ k h. h })
]

add_selected-Grows :
    (name : String) (assets : List PromotionAsset) (c : Chain)
    → Grows c (add_selected name assets c) (first_of_types c.selected_types assets)
unfolding add_selected
add_selected-Grows name [] c = unfold first_of_types in Grows-refl c
add_selected-Grows name (a ∷ more) c =
    let one = select_asset-Grows name a c in
    let ih = add_selected-Grows name more (select_asset name a c) in
    rw (first_of_types-append c.selected_types (a ∷ []) more) (
      Grows-trans one (
        subst
          (λ ts.
            Grows (select_asset name a c) (add_selected name more (select_asset name a c))
              (first_of_types ts more))
          one.selected_types ih))

note_missing-Grows : (lt reason : String) (c : Chain) → Grows c (note_missing lt reason c) []
unfolding note_missing
note_missing-Grows lt reason c =
    elim (Bool-cases (not (holds lt c.selected_types) && not (Dicts.has_key lt c.missing))) [
      | inl new ↦
          let g = Grows-refl c in
          rw new (record {
            selected = g.selected;
            selected_types = g.selected_types;
            tried = refl;
            missing = λ k h. ground (arith, has_key-put lt k reason c.missing);
          })
      | inr old ↦ rw old (Grows-refl c)
    ]

add_missing-Grows : (items : List (String × String)) (c : Chain) → Grows c (add_missing items c) []
unfolding add_missing
add_missing-Grows [] c = Grows-refl c
add_missing-Grows ((lt, reason) ∷ more) c =
    Grows-trans (note_missing-Grows lt reason c) (add_missing-Grows more (note_missing lt reason c))

note_missing-records :
    (lt reason : String) (c : Chain)
    → holds lt c.selected_types ≡ false
    → Dicts.has_key lt (note_missing lt reason c).missing ≡ true
unfolding note_missing
note_missing-records lt reason c n =
    ground (arith, has_key-put lt lt reason c.missing, eq_iff lt lt)

-- A type that the provider reports missing is recorded unless it is selected.
add_missing-records :
    (items : List (String × String)) (c : Chain) (k : String)
    → Dicts.has_key k items ≡ true
    → holds k c.selected_types ≡ false
    → Dicts.has_key k (add_missing items c).missing ≡ true
unfolding add_missing Dicts.has_key
add_missing-records [] c k h n = cc
add_missing-records ((lt, reason) ∷ more) c k h n = elim (Bool-cases (lt == k)) [
  | inl same ↦
      let e : lt ≡ k = (eq_iff lt k).0 same in
      (add_missing-Grows more (note_missing lt reason c)).missing k (
        subst (λ t. Dicts.has_key t (note_missing lt reason c).missing ≡ true) e
          (note_missing-records lt reason c
            (subst (λ t. holds t c.selected_types ≡ false) (sym e) n)))
  | inr other ↦
      add_missing-records more (note_missing lt reason c) k (rw other at h)
        (rw ((note_missing-Grows lt reason c).selected_types, append-nil) n)
]

-- One round of the loop.
pub visit-Grows :
    (task : DramaTask) (p : Provider) (c : Chain)
    → Grows
        (record c { providers_tried = c.providers_tried ++ provider_name p ∷ [] })
        (visit task p c)
        (first_of_types c.selected_types (p.acquire task).selected)
unfolding visit
visit-Grows task p c =
    let c1 : Chain = record c { providers_tried = c.providers_tried ++ provider_name p ∷ [] } in
    let r = p.acquire task in
    let c2 = add_candidates r.candidates c1 in
    let c3 = add_selected (provider_name p) r.selected c2 in
    let g1 = add_candidates-Grows r.candidates c1 in
    let g2 = add_selected-Grows (provider_name p) r.selected c2 in
    let g3 = add_missing-Grows r.missing c3 in
    let same_types : c2.selected_types ≡ c.selected_types = g1.selected_types ∙ append-nil _ in
    let new = first_of_types c.selected_types r.selected in
    let g2' = subst (λ ts. Grows c2 c3 (first_of_types ts r.selected)) same_types g2 in
    let g =
      subst (Grows c1 (add_missing r.missing c3)) (append-nil new)
        (Grows-trans g1 (Grows-trans g2' g3)) in
    record {
      selected = g.selected;
      selected_types = g.selected_types;
      tried = g.tried;
      missing = g.missing;
    }

-- What a provider reports missing is noted by its round, unless the type is selected by then.
pub visit-records :
    (task : DramaTask) (p : Provider) (c : Chain) (k : String)
    → Dicts.has_key k (p.acquire task).missing ≡ true
    → holds k (visit task p c).selected_types ≡ false
    → Dicts.has_key k (visit task p c).missing ≡ true
unfolding visit
visit-records task p c k h n =
    let c1 : Chain = record c { providers_tried = c.providers_tried ++ provider_name p ∷ [] } in
    let r = p.acquire task in
    let c3 = add_selected (provider_name p) r.selected (add_candidates r.candidates c1) in
    add_missing-records r.missing c3 k h (
      subst (λ ts. holds k ts ≡ false)
        ((add_missing-Grows r.missing c3).selected_types ∙ append-nil _) n)
