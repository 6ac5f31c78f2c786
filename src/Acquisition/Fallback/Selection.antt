-- ===== src/Acquisition/Fallback/Selection.antt =====
-- What the chain of providers selects, and what it reports missing.
use automated_short_drama.Prelude.{
  ◌≡◌, refl, sym, ap, ◌∙◌, true, ◌⊎◌, List, [], ◌∷◌, ◌++◌, map, inl, inr, Bool-cases,
}
use mathlib.Core.List.{append_assoc, append-nil, map-append}
use automated_short_drama.Tasks.Task.{DramaTask}
use automated_short_drama.Acquisition.Asset.{PromotionAsset}
use automated_short_drama.Acquisition.Fallback.{
  Provider, provider_name, Chain, visit, is_done, run_chain,
}
use automated_short_drama.Acquisition.Fallback.Growth.{
  types, first_of_types, first_of_types-append, visit-Grows,
}

unfoldable pub all_selected : DramaTask → List Provider → List PromotionAsset
all_selected task [] = []
all_selected task (p ∷ ps) = (p.acquire task).selected ++ all_selected task ps

-- The loop called some first providers in order, and of all that these selected it kept the first
-- asset of each type that was new.
pub record Uses (task : DramaTask) (ps : List Provider) (c c' : Chain) : Type 0 where
  pub used : List Provider
  pub rest : List Provider
  pub in_order : ps ≡ used ++ rest
  pub why :
      (rest ≡ [])
      ⊎ ((front : List Provider) × (last : Provider) × (used ≡ front ++ last ∷ [])
          × (is_done task last c' ≡ true))
  pub tried : c'.providers_tried ≡ c.providers_tried ++ map provider_name used
  pub selected :
      c'.selected ≡ c.selected ++ first_of_types c.selected_types (all_selected task used)
  pub types_too :
      c'.selected_types
      ≡ c.selected_types ++ types (first_of_types c.selected_types (all_selected task used))

Uses-one :
    (task : DramaTask) (p : Provider) (ps : List Provider) (c : Chain)
    → is_done task p (visit task p c) ≡ true
    → Uses task (p ∷ ps) c (visit task p c)
unfolding all_selected
Uses-one task p ps c done =
    let g = visit-Grows task p c in
    record {
      used = p ∷ [];
      rest = ps;
      in_order = refl;
      why = inr ([], p, refl, done);
      tried = g.tried;
      selected = rw append-nil g.selected;
      types_too = rw append-nil g.selected_types;
    }

Uses-more :
    (task : DramaTask) (p : Provider) (ps : List Provider) (c c' : Chain)
    → Uses task ps (visit task p c) c'
    → Uses task (p ∷ ps) c c'
unfolding all_selected
Uses-more task p ps c c' u =
    let g = visit-Grows task p c in
    let split =
      first_of_types-append c.selected_types (p.acquire task).selected (all_selected task u.used) in
    record {
      used = p ∷ u.used;
      rest = u.rest;
      in_order = ap (λ (l : List Provider). p ∷ l) u.in_order;
      why = why_more u.why;
      tried = u.tried ∙ rw (g.tried, append_assoc) refl;
      selected = u.selected ∙ rw (split, g.selected_types, g.selected, append_assoc) refl;
      types_too = u.types_too ∙ rw (split, g.selected_types, map-append, append_assoc) refl;
    }
  where
    why_more :
        (u.rest ≡ [])
          ⊎ ((front : List Provider) × (last : Provider) × (u.used ≡ front ++ last ∷ [])
              × (is_done task last c' ≡ true))
        → (u.rest ≡ [])
          ⊎ ((front : List Provider) × (last : Provider) × (p ∷ u.used ≡ front ++ last ∷ [])
              × (is_done task last c' ≡ true))
    why_more (inl e) = inl e
    why_more (inr (front, last, e, d)) =
        inr (p ∷ front, last, ap (λ (l : List Provider). p ∷ l) e, d)

pub run_chain-Uses :
    (task : DramaTask) (ps : List Provider) (c : Chain) → Uses task ps c (run_chain task ps c)
unfolding run_chain
run_chain-Uses task [] c =
    unfold all_selected first_of_types in
    record {
      used = [];
      rest = [];
      in_order = refl;
      why = inl refl;
      tried = sym (append-nil _);
      selected = sym (append-nil _);
      types_too = sym (append-nil _);
    }
run_chain-Uses task (p ∷ ps) c = elim (Bool-cases (is_done task p (visit task p c))) [
  | inl done ↦ rw done (Uses-one task p ps c done)
  | inr more ↦ rw more (Uses-more task p ps c _ (run_chain-Uses task ps (visit task p c)))
]
