-- ===== src/Imports/Runs/Claims.antt =====
-- The runs that `claim` can take, under every change of the table.
use automated_short_drama.Prelude.{
  ℕ, String, ◌==◌, ◌≡◌, refl, ◌∙◌, Bool, true, false, Option, none, some, List, [], ◌∷◌, ◌++◌,
  select, any, find, arith, eq_iff, Bool-cases, any-append, inl, inr,
}
use automated_short_drama.Prelude.Rows.{update_where}
use automated_short_drama.Errors.{Result, ok, err, DomainError}
use automated_short_drama.Imports.Runs.{
  DramaImportRun, RunTable, running, is_previewed, has_id, claimable, add, get, claim, complete,
  fail, on_record, on_found,
}

-- A step of the repository, by whichever request.
pub data RunStep : Type 0 where
  add_run : DramaImportRun → RunStep
  claim_run : String → RunStep
  complete_run : String → ℕ → List ℕ → Bool → RunStep
  fail_run : String → DomainError → RunStep

abbrev table_after : RunTable → Result (DramaImportRun × RunTable) → RunTable
table_after runs (err e) = runs
table_after runs (ok done) = done.1

abbrev added : RunTable → Result RunTable → RunTable
added runs (err e) = runs
added runs (ok after) = after

-- The table after a step; one that raises leaves it.
unfoldable pub run_step : RunStep → RunTable → RunTable
run_step (add_run run) runs = added runs (add run runs)
run_step (claim_run id) runs = (claim id runs).1
run_step (complete_run id count rows verified) runs =
    table_after runs (complete id count rows verified runs)
run_step (fail_run id message) runs = table_after runs (fail id message runs)

unfoldable pub run_steps : List RunStep → RunTable → RunTable
run_steps [] runs = runs
run_steps (s ∷ ss) runs = run_steps ss (run_step s runs)

-- The run is in the table and no claim can take it.
abbrev Taken : String → RunTable → Type 0
Taken id runs = (any (has_id id) runs ≡ true) × (any (claimable id) runs ≡ false)

-- A change that keeps the ids and makes no run claimable.
abbrev Keeps : (DramaImportRun → DramaImportRun) → Type 0
Keeps change =
    (r : DramaImportRun) → ((change r).id ≡ r.id) × (is_previewed (change r).status ≡ false)

any-update_where :
    (id : String) (p : DramaImportRun → Bool) (change : DramaImportRun → DramaImportRun)
    → Keeps change
    → (runs : RunTable) → any (has_id id) (update_where p change runs) ≡ any (has_id id) runs
unfolding update_where
any-update_where id p change k [] = refl
any-update_where id p change k (r ∷ rs) = ground (arith, (k r).0, any-update_where id p change k rs)

claimable-update_where :
    (id : String) (p : DramaImportRun → Bool) (change : DramaImportRun → DramaImportRun)
    → Keeps change
    → (runs : RunTable) → any (claimable id) runs ≡ false
    → any (claimable id) (update_where p change runs) ≡ false
unfolding update_where
claimable-update_where id p change k [] h = refl
claimable-update_where id p change k (r ∷ rs) h =
    ground (arith, (k r).1, claimable-update_where id p change k rs)

update-Taken :
    (id : String) (p : DramaImportRun → Bool) (change : DramaImportRun → DramaImportRun)
    → Keeps change
    → (runs : RunTable) → Taken id runs
    → Taken id (update_where p change runs)
update-Taken id p change k runs h =
    (any-update_where id p change k runs ∙ h.0, claimable-update_where id p change k runs h.1)

on_record-Taken :
    (id : String) (other : String) (change : DramaImportRun → DramaImportRun)
    → Keeps change
    → (runs : RunTable) → Taken id runs
    → Taken id (table_after runs (on_record other change runs))
on_record-Taken id other change k runs h = by_get (get other runs)
  where
    by_get :
        (o : Option DramaImportRun) → Taken id (table_after runs (on_found other change runs o))
    by_get none = h
    by_get (some r) = update-Taken id (has_id other) change k runs h

add-Taken :
    (id : String) (run : DramaImportRun) (runs : RunTable)
    → Taken id runs
    → Taken id (added runs (add run runs))
unfolding add
add-Taken id run runs h = elim (Bool-cases (any (has_id run.id) runs)) [
  | inl t ↦ rw t h
  | inr f ↦ rw f (appended (run.id == id) refl f)
]
  where
    appended :
        (same : Bool)
        → (run.id == id) ≡ same
        → any (has_id run.id) runs ≡ false
        → Taken id (runs ++ run ∷ [])
    appended true e f =
        let i : run.id ≡ id = ground (arith, eq_iff run.id id) in
        let t : any (has_id run.id) runs ≡ true = rw i h.0 in cc
    appended false e f = (
      any-append (has_id id) runs (run ∷ []) ∙ ground (arith, h.0),
      any-append (claimable id) runs (run ∷ []) ∙ ground (arith, h.1),
    )

run_step-Taken :
    (id : String) (s : RunStep) (runs : RunTable) → Taken id runs → Taken id (run_step s runs)
unfolding run_step claim complete fail
run_step-Taken id (add_run run) runs h = add-Taken id run runs h
run_step-Taken id (claim_run other) runs h =
    update-Taken id (claimable other) (λ r. record r { status = running }) (λ r. (refl, refl)) runs
      h
run_step-Taken id (complete_run other count rows verified) runs h =
    on_record-Taken id other _ (λ r. (refl, refl)) runs h
run_step-Taken id (fail_run other message) runs h =
    on_record-Taken id other _ (λ r. (refl, refl)) runs h

run_steps-Taken :
    (id : String) (ss : List RunStep) (runs : RunTable)
    → Taken id runs
    → Taken id (run_steps ss runs)
unfolding run_steps
run_steps-Taken id [] runs h = h
run_steps-Taken id (s ∷ ss) runs h =
    run_steps-Taken id ss (run_step s runs) (run_step-Taken id s runs h)

select-none :
    (p : DramaImportRun → Bool) (runs : RunTable) → any p runs ≡ false → select p runs ≡ []
select-none p [] h = refl
select-none p (r ∷ rs) h = ground (arith, select-none p rs)

claim-Taken-none : (id : String) (runs : RunTable) → Taken id runs → (claim id runs).0 ≡ none
unfolding claim
claim-Taken-none id runs h = rw (select-none (claimable id) runs h.1) refl

find-any :
    (id : String) (runs : RunTable) (r : DramaImportRun)
    → find (has_id id) runs ≡ some r
    → any (has_id id) runs ≡ true
find-any id [] r e = cc
find-any id (s ∷ rs) r e = ground (arith, find-any id rs r)

claimed_rows :
    (id : String) (runs : RunTable)
    → any (claimable id) (update_where (claimable id) (λ r. record r { status = running }) runs)
      ≡ false
unfolding update_where
claimed_rows id [] = refl
claimed_rows id (r ∷ rs) = ground (arith, claimed_rows id rs)

claim-Taken :
    (id : String) (runs : RunTable) (r : DramaImportRun)
    → (claim id runs).0 ≡ some r
    → Taken id (claim id runs).1
unfolding claim get
claim-Taken id runs r e = (find-any id _ r (ground arith), claimed_rows id runs)

-- Once a claim has taken a run, no later claim takes it, whatever runs are added, claimed,
-- completed or failed in between.
pub claim-run_steps :
    (id : String) (runs : RunTable) (r : DramaImportRun) (ss : List RunStep)
    → (claim id runs).0 ≡ some r
    → (claim id (run_steps ss (claim id runs).1)).0 ≡ none
claim-run_steps id runs r ss e =
    claim-Taken-none id _ (run_steps-Taken id ss _ (claim-Taken id runs r e))
