-- ===== src/Acquisition/Fallback/Outcome.antt =====
-- The result of the chain of providers: its priorities, its types, and what stays missing.
use automated_short_drama.Prelude.{
  String, ◌≡◌, refl, sym, ap, ◌∙◌, ◌⊎◌, ◌||◌, true, false, List, [], ◌∷◌, ◌++◌, inl, inr, arith,
  Bool-cases,
}
use mathlib.Core.Path.{subst}
use automated_short_drama.Prelude.Dicts
use automated_short_drama.Tasks.Task.{DramaTask}
use automated_short_drama.Acquisition.Asset.{PromotionAsset, partial}
use automated_short_drama.Acquisition.Fallback.{
  Provider, holds, Chain, start, visit, is_done, run_chain, chain_status, acquire, is_empty,
  is_complete, has_all_types,
}
use automated_short_drama.Acquisition.Fallback.Growth.{
  types, first_of_types, visit-Grows, visit-records,
}
use automated_short_drama.Acquisition.Fallback.Selection.{all_selected, Uses, run_chain-Uses}

-- What the selection of a run tells of the providers: which were asked, what was kept of their
-- answers, and why no further one was asked.
record Asked (task : DramaTask) (ps : List Provider) (selected : List PromotionAsset) : Type 0 where
  pub used : List Provider
  pub rest : List Provider
  pub in_order : ps ≡ used ++ rest
  pub firsts : selected ≡ first_of_types [] (all_selected task used)
  pub stop :
      (rest ≡ [])
      ⊎ ((front : List Provider) × (last : Provider) × (used ≡ front ++ last ∷ [])
          × ((is_complete (last.acquire task).status || has_all_types (types selected)) ≡ true))

chain-Asked :
    (task : DramaTask) (ps : List Provider) (c : Chain)
    → Uses task ps start c
    → Asked task ps c.selected
chain-Asked task ps c u = record {
  used = u.used;
  rest = u.rest;
  in_order = u.in_order;
  firsts = u.selected;
  stop = stop_of u.why;
}
  where
    same : c.selected_types ≡ types c.selected
    same = u.types_too ∙ sym (ap types u.selected)

    stop_of :
        (u.rest ≡ [])
          ⊎ ((front : List Provider) × (last : Provider) × (u.used ≡ front ++ last ∷ [])
              × (is_done task last c ≡ true))
        → (u.rest ≡ [])
          ⊎ ((front : List Provider) × (last : Provider) × (u.used ≡ front ++ last ∷ [])
              × ((is_complete (last.acquire task).status || has_all_types (types c.selected))
                  ≡ true))
    stop_of (inl e) = inl e
    stop_of (inr (front, last, e, d)) = inr (
      front,
      last,
      e,
      subst (λ ts. (is_complete (last.acquire task).status || has_all_types ts) ≡ true) same d,
    )

-- The chain asks the first providers in their order up to one that reports completeness or with
-- which all three types are selected, or all of them, and selects of each type the first asset that
-- any asked one selected: a later provider never replaces what an earlier one found.
acquire-Asked : (ps : List Provider) (task : DramaTask) → Asked task ps (acquire ps task).selected
unfolding acquire
acquire-Asked [] task =
    unfold first_of_types all_selected in
    record { used = []; rest = []; in_order = refl; firsts = refl; stop = inl refl }
acquire-Asked (p ∷ ps) task =
    chain-Asked task (p ∷ ps) (run_chain task (p ∷ ps) start) (run_chain-Uses task (p ∷ ps) start)

-- No text of the list stands in it twice, nor in `seen`.
abbrev Fresh : List String → List String → Type 0
Fresh seen [] = Unit
Fresh seen (t ∷ ts) = (holds t seen ≡ false) × Fresh (seen ++ t ∷ []) ts

first_of_types-Fresh :
    (seen : List String) (assets : List PromotionAsset)
    → Fresh seen (types (first_of_types seen assets))
unfolding first_of_types
first_of_types-Fresh seen [] = tt
first_of_types-Fresh seen (a ∷ more) = elim (Bool-cases (holds a.link_type seen)) [
  | inl old ↦ rw old (first_of_types-Fresh seen more)
  | inr new ↦ rw new (new, first_of_types-Fresh (seen ++ a.link_type ∷ []) more)
]

-- No type is selected twice.
acquire-Fresh :
    (ps : List Provider) (task : DramaTask) → Fresh [] (types (acquire ps task).selected)
acquire-Fresh ps task =
    let a = acquire-Asked ps task in
    subst (λ l. Fresh [] (types l)) (sym a.firsts)
      (first_of_types-Fresh [] (all_selected task a.used))

holds-first_of_types :
    (t : String) (seen : List String) (assets : List PromotionAsset)
    → holds t (types assets) ≡ false
    → holds t (types (first_of_types seen assets)) ≡ false
unfolding first_of_types
holds-first_of_types t seen [] h = refl
holds-first_of_types t seen (a ∷ more) h = ground (
  arith,
  holds-first_of_types t seen more,
  holds-first_of_types t (seen ++ a.link_type ∷ []) more,
)

run_chain-missing :
    (task : DramaTask) (ps : List Provider) (c : Chain) (k : String)
    → Dicts.has_key k c.missing ≡ true
    → Dicts.has_key k (run_chain task ps c).missing ≡ true
unfolding run_chain
run_chain-missing task [] c k h = h
run_chain-missing task (p ∷ ps) c k h =
    let kept = (visit-Grows task p c).missing k h in
    elim (Bool-cases (is_done task p (visit task p c))) [
      | inl done ↦ rw done kept
      | inr more ↦ rw more (run_chain-missing task ps (visit task p c) k kept)
    ]

has_key-is_empty :
    (m : List (String × String)) (k : String) → Dicts.has_key k m ≡ true → is_empty m ≡ false
unfolding Dicts.has_key
has_key-is_empty [] k h = cc
has_key-is_empty (i ∷ m) k h = refl

missing-status :
    (c : Chain) (k : String) → Dicts.has_key k c.missing ≡ true → chain_status c ≡ partial
missing-status c k h = ground (arith, has_key-is_empty c.missing k)

run_chain-stops :
    (task : DramaTask) (p : Provider) (ps : List Provider) (c : Chain) (k : String)
    → Dicts.has_key k (visit task p c).missing ≡ true
    → Dicts.has_key k (run_chain task (p ∷ ps) c).missing ≡ true
unfolding run_chain
run_chain-stops task p ps c k h = elim (Bool-cases (is_done task p (visit task p c))) [
  | inl done ↦ rw done h
  | inr more ↦ rw more (run_chain-missing task ps (visit task p c) k h)
]

-- What the first provider reports missing and does not select stays missing, and the status is
-- PARTIAL, even if a later provider selects that very type.
acquire-stale_missing :
    (p : Provider) (ps : List Provider) (task : DramaTask) (k : String)
    → Dicts.has_key k (p.acquire task).missing ≡ true
    → holds k (types (p.acquire task).selected) ≡ false
    → (Dicts.has_key k (acquire (p ∷ ps) task).missing ≡ true)
      × ((acquire (p ∷ ps) task).status ≡ partial)
unfolding acquire
acquire-stale_missing p ps task k h n =
    let new = holds-first_of_types k [] (p.acquire task).selected n in
    let noted =
      visit-records task p start k h
        (subst (λ ts. holds k ts ≡ false) (sym (visit-Grows task p start).selected_types) new) in
    let kept = run_chain-stops task p ps start k noted in
    (kept, missing-status (run_chain task (p ∷ ps) start) k kept)
