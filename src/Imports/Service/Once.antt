-- ===== src/Imports/Service/Once.antt =====
-- What a second confirmation of an import does, and what one that fails leaves.
use mathlib.Core.Path.{subst}
use automated_short_drama.Prelude.{
  ℕ, String, ◌≡◌, ◌≢◌, refl, ap, Bool, true, false, Option, none, some, List, [], ◌∷◌,
  if◌then◌else◌, select, find, length, arith,
}
use automated_short_drama.Prelude.Rows.{update_where}
use automated_short_drama.Errors.{Result, ok, err, DomainError, conflict, other_worker}
use automated_short_drama.Imports.Runs.{
  DramaImportRun, RunTable, running, completed, is_completed, is_previewed, has_id, claimable, get,
  claim, complete, fail, on_found,
}
use automated_short_drama.Imports.Service.{
  Inserted, ImportRunResult, DramaSheet, to_run_result, Outcome, after_fail, after_complete,
  with_insertion, with_claim, with_existing, not_claimed, confirm_persisted, get_session,
  commit_or_rollback,
}

-- A run that is completed and gives the answer.
abbrev Answers : String → ImportRunResult → RunTable → Type 0
Answers id answer runs =
    (r : DramaImportRun) × (get id runs ≡ some r)
    × (is_completed r.status ≡ true)
    × (to_run_result r ≡ answer)

find-update_where :
    (id : String) (change : DramaImportRun → DramaImportRun)
    → ((r : DramaImportRun) → (change r).id ≡ r.id)
    → (runs : RunTable) (r : DramaImportRun) → find (has_id id) runs ≡ some r
    → find (has_id id) (update_where (has_id id) change runs) ≡ some (change r)
unfolding update_where
find-update_where id change k [] r e = cc
find-update_where id change k (s ∷ rs) r e = ground (arith, k s, find-update_where id change k rs r)

module _ {Sheet : Type 0} (port : DramaSheet Sheet) where
  confirm-Answers :
      (id : String) (answer : ImportRunResult) (runs : RunTable) (sheet : Sheet)
      → Answers id answer runs
      → confirm_persisted port id runs sheet ≡ (ok answer, runs, sheet)
  unfolding confirm_persisted
  confirm-Answers id answer runs sheet (r, e, c, a) = rw e (rw c (rw a refl))

  complete-Answers :
      (id : String) (count : ℕ) (rows : List ℕ) (verified : Bool) (runs : RunTable)
      (done : DramaImportRun × RunTable)
      → complete id count rows verified runs ≡ ok done
      → Answers id (to_run_result done.0) done.1
  unfolding complete get
  complete-Answers id count rows verified runs done e = by_get (find (has_id id) runs) refl e
    where
      finish : DramaImportRun → DramaImportRun
      finish r = record r {
        status = completed;
        inserted_count = count;
        inserted_rows = rows;
        verified = verified;
        error_message = none;
      }

      by_get :
          (o : Option DramaImportRun)
          → find (has_id id) runs ≡ o
          → on_found id finish runs o ≡ ok done
          → Answers id (to_run_result done.0) done.1
      by_get none g e = cc
      by_get (some r) g e =
          let a : finish r ≡ done.0 = cc in
          let b : update_where (has_id id) finish runs ≡ done.1 = cc in
          let f = find-update_where id finish (λ x. refl) runs r g in
          subst (λ (d : DramaImportRun × RunTable). Answers id (to_run_result d.0) d.1)
            (λ i. (a i, b i)) (finish r, f, refl, refl)

  abbrev Same : (id : String) (answer : ImportRunResult) → Outcome Sheet ImportRunResult → Type 0
  Same id answer done = done.0 ≡ ok answer → Answers id answer done.1

  after_fail-err :
      (e : DomainError) (answer : ImportRunResult) (runs : RunTable) (sheet : Sheet)
      (f : Result (DramaImportRun × RunTable))
      → (after_fail port e runs sheet f).0 ≢ ok answer
  after_fail-err e answer runs sheet (err raised) h = cc
  after_fail-err e answer runs sheet (ok after) h = cc

  after_complete-Same :
      (id : String) (answer : ImportRunResult) (count : ℕ) (rows : List ℕ) (verified : Bool)
      (runs : RunTable) (sheet : Sheet) (c : Result (DramaImportRun × RunTable))
      → complete id count rows verified runs ≡ c
      → Same id answer (after_complete port runs sheet c)
  after_complete-Same id answer count rows verified runs sheet (err raised) e h = cc
  after_complete-Same id answer count rows verified runs sheet (ok done) e h =
      let a : to_run_result done.0 ≡ answer = cc in
      subst (λ x. Answers id x done.1) a (complete-Answers id count rows verified runs done e)

  with_insertion-Same :
      (id : String) (answer : ImportRunResult) (runs : RunTable) (i : Result Inserted × Sheet)
      → Same id answer (with_insertion port id runs i)
  with_insertion-Same id answer runs (err e, sheet) h =
      absurd (after_fail-err e answer runs sheet _ h)
  with_insertion-Same id answer runs (ok i, sheet) h =
      after_complete-Same id answer i.inserted_count i.inserted_rows i.verified runs sheet _ refl h

  not_claimed-Same :
      (id : String) (answer : ImportRunResult) (runs : RunTable) (o : Option DramaImportRun)
      → get id runs ≡ o
      → not_claimed port o ≡ ok answer
      → Answers id answer runs
  not_claimed-Same id answer runs none g h = cc
  not_claimed-Same id answer runs (some r) g h = by_status (is_completed r.status) refl h
    where
      by_status :
          (b : Bool)
          → is_completed r.status ≡ b
          → (if b then ok (to_run_result r) else err (conflict other_worker)) ≡ ok answer
          → Answers id answer runs
      by_status true c e = (r, g, c, cc)
      by_status false c e = cc

  with_claim-Same :
      (id : String) (answer : ImportRunResult) (c : Option DramaImportRun × RunTable)
      (sheet : Sheet)
      → Same id answer (with_claim port id c sheet)
  with_claim-Same id answer (none, runs) sheet h =
      not_claimed-Same id answer runs (get id runs) refl h
  with_claim-Same id answer (some claimed, runs) sheet h = with_insertion-Same id answer runs _ h

  with_existing-Same :
      (id : String) (answer : ImportRunResult) (o : Option DramaImportRun) (runs : RunTable)
      (sheet : Sheet)
      → get id runs ≡ o
      → Same id answer (with_existing port id o runs sheet)
  with_existing-Same id answer none runs sheet g h = cc
  with_existing-Same id answer (some r) runs sheet g h = by_status (is_completed r.status) refl h
    where
      by_status :
          (b : Bool)
          → is_completed r.status ≡ b
          → Same id answer (
              if b
              then (ok (to_run_result r), runs, sheet)
              else with_claim port id (claim id runs) sheet)
      by_status true c e = (r, g, c, cc)
      by_status false c e = with_claim-Same id answer (claim id runs) sheet e

  -- A confirmation that returned is repeated by every later one: it returns the same answer, from
  -- the table of runs that the first left, and changes neither that table nor the sheet, whatever
  -- the sheet has become.
  pub confirm_persisted-again :
      (id : String) (answer : ImportRunResult) (runs : RunTable) (sheet later : Sheet)
      → let done = confirm_persisted port id runs sheet in
        done.0 ≡ ok answer → confirm_persisted port id (done.1) later ≡ (ok answer, done.1, later)
  unfolding confirm_persisted
  confirm_persisted-again id answer runs sheet later e =
      confirm-Answers id answer _ later
        (with_existing-Same id answer (get id runs) runs sheet refl e)

abbrev to_running : DramaImportRun → DramaImportRun
to_running x = record x { status = running }

find-claimable :
    (id : String) (r : DramaImportRun) (runs : RunTable)
    → find (has_id id) runs ≡ some r
    → is_previewed r.status ≡ true
    → find (has_id id) (update_where (claimable id) to_running runs) ≡ some (to_running r)
unfolding update_where
find-claimable id r [] g p = cc
find-claimable id r (s ∷ rs) g p = ground (arith, find-claimable id r rs)

module _ {Sheet : Type 0} (port : DramaSheet Sheet) (id : String) (runs : RunTable) (sheet : Sheet)
    (r : DramaImportRun) (e : DomainError) where
  abbrev after_claim : RunTable
  after_claim = update_where (claimable id) to_running runs

  claim-some :
      find (has_id id) runs ≡ some r
      → is_previewed r.status ≡ true
      → length (select (claimable id) runs) ≡ 1
      → claim id runs ≡ (some (to_running r), after_claim)
  unfolding claim get
  claim-some g p one = rw one (λ i. (find-claimable id r runs g p i, after_claim))

  on_found-err :
      (change : DramaImportRun → DramaImportRun) (rows : RunTable) (o : Option DramaImportRun)
      (x : DramaImportRun)
      → o ≡ some x
      → (n : DomainError) → on_found id change rows o ≢ err n
  on_found-err change rows none x h n k = cc
  on_found-err change rows (some y) x h n k = cc

  fail-some :
      (m : DomainError) (rows : RunTable) (x : DramaImportRun)
      → find (has_id id) rows ≡ some x
      → (n : DomainError) → fail id m rows ≢ err n
  unfolding fail get
  fail-some m rows x h n k = on_found-err _ rows (find (has_id id) rows) x h n k

  raises :
      (answer : Result Inserted × Sheet)
      → answer.0 ≡ err e
      → find (has_id id) after_claim ≡ some (to_running r)
      → let done = with_insertion port id after_claim answer in
        (done.0 ≡ err e) × (done.2 ≡ answer.1)
  raises (err x, s) q h = by_fail (fail id x after_claim) (fail-some x after_claim (to_running r) h)
    where
      by_fail :
          (o : Result (DramaImportRun × RunTable))
          → ((m : DomainError) → o ≢ err m)
          → ((after_fail port x after_claim s o).0 ≡ err e)
            × ((after_fail port x after_claim s o).2 ≡ s)
      by_fail (err m) k = absurd (k m refl)
      by_fail (ok after) k = let same : x ≡ e = cc in (ap err same, refl)
  raises (ok i, s) q h = cc

  -- A request to confirm a run that awaits confirmation, under an insertion that raises, raises the
  -- same error and leaves the table of runs as it was, with the run still awaiting confirmation,
  -- while the sheet is what the insertion made of it.
  pub get_session-confirm_persisted :
      get id runs ≡ some r
      → is_previewed r.status ≡ true
      → length (select (claimable id) runs) ≡ 1
      → let answer = port.insert_private_rows r.preview.rows r.expected_revision sheet in
        answer.0 ≡ err e
        → get_session (confirm_persisted port id) runs sheet ≡ (err e, runs, answer.1)
  unfolding get_session confirm_persisted get
  get_session-confirm_persisted g p one q =
      let answer = port.insert_private_rows r.preview.rows r.expected_revision sheet in
      let not_completed : is_completed r.status ≡ false = ground arith in
      let d : with_existing port id (find (has_id id) runs) runs sheet
          ≡ with_insertion port id after_claim answer =
        rw g (rw not_completed (rw (claim-some g p one) refl)) in
      let raised = raises answer q (find-claimable id r runs g p) in
      rw d (rolled_back (with_insertion port id after_claim answer) raised.0 raised.1)
    where
      rolled_back :
          (x : Outcome Sheet ImportRunResult) {s : Sheet}
          → x.0 ≡ err e
          → x.2 ≡ s
          → commit_or_rollback runs x ≡ (err e, runs, s)
      rolled_back (err f, rows, s) a b = λ i. (a i, runs, b i)
      rolled_back (ok answer, rows, s) a b = cc
