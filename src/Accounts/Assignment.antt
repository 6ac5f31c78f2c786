-- ===== src/Accounts/Assignment.antt =====
-- backend/src/backend/application/services/account_assignment_service.py: the assignment of blocks of
-- accounts to a drama, from the plan to the rows that are written and read back.
pub mod DryRun
use automated_short_drama.Prelude.{
  ℕ, suc, ◌+◌, String, ◌==◌, Bool, true, false, not, ◌&&◌, ◌||◌, Option, none, some, List, [], ◌∷◌,
  ◌++◌, map, if◌then◌else◌, select, any, find, take, length, leb, nat_eq,
}
use automated_short_drama.Prelude.Dicts.{lookup}
use automated_short_drama.Errors.{Result, ok, err}
use automated_short_drama.Delivery.Flow.{◌>>>◌}
use automated_short_drama.Accounts.Allocation.{
  AccountRow, BlockDefinition, BlockAllocation, iaa_block, groups_of, block_size, find_iaa_block,
  find_iap_block,
}
use automated_short_drama.Accounts.Blocks.{
  Planned, has_link, is_numbered, by_row, is_available, all_rows, still_available, is_number,
  is_written, write_confirmed, is_test_row, accounts_of, is_usable, is_block, or_here,
  latest_append_template, preview_appended_rows, later_of, or_one, max_row, patterns_of, taken_cids,
  finished, AssignmentStatus, Account, AccountAssignmentResult, AccountUsage, AccountSheet,
  UsageRepository, AssignmentRequest, Planning, confirmed, conflict, partial_write, dry_run,
  unavailable, stopped, block,
}

module _ {World : Type 0} (sheet : AccountSheet World) (request : AssignmentRequest World) where
  abbrev allocate : String → List String → List AccountRow → List String → Option BlockAllocation
  allocate kind required rows cids =
      if kind == "IAA"
      then find_iaa_block request.drama_name rows cids
      else find_iap_block request.drama_name rows cids required

  abbrev checked_by :
      Option (List Account → World → Result {0} Unit × World)
      → List Account
      → World
      → Result {0} Unit × World
  checked_by none accounts w = (ok tt, w)
  checked_by (some validator) accounts w = validator accounts w

  -- candidate_validator(accounts)
  abbrev pub validated : List Account → World → Result {0} Unit × World
  validated accounts w = checked_by request.candidate_validator accounts w

  abbrev pub previewed :
      String
      → List String
      → List String
      → ℕ
      → List AccountRow
      → Option BlockAllocation
      → World
      → Result (Option BlockAllocation) × World
  previewed kind required used last_row template none w = (ok none, w)
  previewed kind required used last_row template (some preview) w =
      validated (accounts_of ((kind, preview) ∷ []) request.include_test) w >>> (λ done v.
        if request.dry_run
        then (ok (some preview), v)
        else sheet.append_account_block kind last_row template v
          >>> (λ appended u. (ok (allocate kind required appended used), u)))

  abbrev pub appended_to :
      String
      → List String
      → List String
      → List AccountRow
      → Option (List AccountRow)
      → World
      → Result (Option BlockAllocation) × World
  appended_to kind required used rows none w = (ok none, w)
  appended_to kind required used rows (some template) w =
      let last_row = or_one (max_row rows) in
      previewed kind required used last_row template
        (allocate kind required (preview_appended_rows last_row template) used) w

  -- _append_and_allocate
  abbrev append_and_allocate :
      String
      → List String
      → List String
      → List AccountRow
      → World
      → Result (Option BlockAllocation) × World
  append_and_allocate kind required used rows w =
      appended_to kind required used rows (latest_append_template (patterns_of kind) used rows) w

  -- What the attempt to append came to, any error of which is a conflict.
  abbrev pub attempted :
      List String → Result (Option BlockAllocation) × World → Result Planning × World
  attempted reserved (err e, w) = (ok (stopped conflict), w)
  attempted reserved (ok none, w) = (ok (stopped unavailable), w)
  attempted reserved (ok (some allocation), w) = (ok (block allocation reserved), w)

  abbrev pub found :
      String
      → List String
      → List String
      → List String
      → List AccountRow
      → Option BlockAllocation
      → World
      → Result Planning × World
  found kind required used reserved rows (some allocation) w = (ok (block allocation reserved), w)
  found kind required used reserved rows none w =
      attempted reserved (append_and_allocate kind required used rows w)

  unfoldable pub plan_kind :
      String → List String → List String → List String → World → Result Planning × World
  plan_kind kind required used reserved w = sheet.read_account_rows kind w >>> (λ rows v.
      let all_reserved = reserved ++ taken_cids rows in
      found kind required used all_reserved rows (allocate kind required rows all_reserved) v)

  -- The rows of the plan are read again before they are written.
  unfoldable pub recheck : Planned → World → Result Bool × World
  recheck [] w = (ok true, w)
  recheck ((kind, allocation) ∷ planned) w = sheet.read_account_rows kind w >>> (λ latest v.
      elim (still_available allocation.rows latest) [
        | true ↦ recheck planned v
        | false ↦ (ok false, v)
      ])

  abbrev usages : String → ℕ → List Account → List AccountUsage
  usages task_id day accounts =
      map
        (λ account. record {
          task_id = task_id;
          drama_name = request.drama_name;
          usage_day = day;
          cid = account.cid;
          role = account.role;
          sheet_kind = account.sheet_kind;
          row_number = account.row_number;
        })
        accounts

  abbrev record_usages :
      Option (UsageRepository World)
      → Option String
      → Option ℕ
      → List Account
      → World
      → Result {0} Unit × World
  record_usages (some repo) (some task_id) (some day) accounts w =
      repo.record_confirmed (usages task_id day accounts) w
  record_usages _ _ _ accounts w = (ok tt, w)

  abbrev test_number : Option AccountRow → Option ℕ
  test_number none = none
  test_number (some row) = if request.include_test then some row.row_number else none

  abbrev write_flags : String → Option ℕ → World → Result {0} Unit × World
  write_flags kind none w = (ok tt, w)
  write_flags kind (some n) w = sheet.write_account_test_flags kind n w

  -- The writing of one block, and whether the sheet then reads so.
  abbrev write_block : String → BlockAllocation → World → Result Bool × World
  write_block kind allocation w =
      let number = test_number allocation.test_account_row in
      write_flags kind number w >>> (λ done v.
        sheet.read_account_rows kind v
        >>> (λ rows u. (ok (write_confirmed allocation.rows rows request.drama_name number), u)))

  abbrev after_block :
      (World → Option AssignmentStatus × (Bool × World))
      → Result Bool × World
      → Option AssignmentStatus × (Bool × World)
  after_block rest (err e, w) = (some partial_write, (true, w))
  after_block rest (ok false, w) = (some partial_write, (true, w))
  after_block rest (ok true, w) = rest w

  abbrev after_names :
      (World → Result Bool × World)
      → (World → Option AssignmentStatus × (Bool × World))
      → Bool
      → Result {0} Unit × World
      → Option AssignmentStatus × (Bool × World)
  after_names check rest written (err e, w) =
      (some (if written then partial_write else conflict), (written, w))
  after_names check rest written (ok done, w) = after_block rest (check w)

  -- The loop of writes: the status that it ends with, if it ends before its end. An error after the
  -- first block of names is a partial write, and one before it a conflict.
  unfoldable pub write_blocks : Planned → Bool → World → Option AssignmentStatus × (Bool × World)
  write_blocks [] written w = (none, (written, w))
  write_blocks ((kind, allocation) ∷ planned) written w =
      after_names (write_block kind allocation) (write_blocks planned true) written (
        sheet.write_account_names kind
          (map (λ row. (row.row_number, request.drama_name)) allocation.rows) w)

  abbrev recorded :
      List Account → Bool → Result {0} Unit × World → Result AccountAssignmentResult × World
  recorded accounts written (err e, w) =
      (ok (finished (if written then partial_write else conflict) accounts), w)
  recorded accounts written (ok done, w) = (ok (finished confirmed accounts), w)

  abbrev wrote_blocks :
      List Account
      → Option AssignmentStatus × (Bool × World)
      → Result AccountAssignmentResult × World
  wrote_blocks accounts (some status, (written, w)) = (ok (finished status accounts), w)
  wrote_blocks accounts (none, (written, w)) =
      recorded accounts written
        (record_usages request.usage_repo request.task_id request.usage_day accounts w)

  abbrev pub after_validation :
      Planned → List Account → Result {0} Unit × World → Result AccountAssignmentResult × World
  after_validation planned accounts (err e, w) = (ok (finished conflict accounts), w)
  after_validation planned accounts (ok done, w) =
      if request.dry_run
      then (ok (finished dry_run accounts), w)
      else recheck planned w >>> (λ available v.
        if available
        then wrote_blocks accounts (write_blocks planned false v)
        else (ok (finished conflict accounts), v))

  abbrev pub commit : Planned → World → Result AccountAssignmentResult × World
  commit [] w = (ok (finished unavailable []), w)
  commit (p ∷ planned) w =
      let accounts = accounts_of (p ∷ planned) request.include_test in
      after_validation (p ∷ planned) accounts (validated accounts w)

  abbrev pub after_iap : Planned → Planning → World → Result AccountAssignmentResult × World
  after_iap planned (stopped status) w = (ok (finished status []), w)
  after_iap planned (block allocation reserved) w = commit (planned ++ ("IAP", allocation) ∷ []) w

  abbrev pub plan_paid :
      List String
      → Planned
      → List String
      → List String
      → World
      → Result AccountAssignmentResult × World
  plan_paid [] planned used reserved w = commit planned w
  plan_paid (t ∷ types) planned used reserved w =
      plan_kind "IAP" (t ∷ types) used reserved w >>> after_iap planned

  abbrev paid_types : List String
  paid_types = select (λ t. has_link (lookup t request.links)) ("9.9" ∷ "2.9" ∷ [])

  abbrev pub after_iaa : List String → Planning → World → Result AccountAssignmentResult × World
  after_iaa used (stopped status) w = (ok (finished status []), w)
  after_iaa used (block allocation reserved) w =
      plan_paid paid_types (("IAA", allocation) ∷ []) (used ++ allocation.cids)
        (reserved ++ allocation.cids) w

  abbrev pub used_today :
      Option (UsageRepository World) → Option ℕ → World → Result (List String) × World
  used_today (some repo) (some day) w =
      repo.used_cids day w >>> (λ cids v. (ok (request.allocated_cids ++ cids), v))
  used_today _ _ w = (ok request.allocated_cids, w)

  unfoldable pub assign : World → Result AccountAssignmentResult × World
  assign w = used_today request.usage_repo request.usage_day w >>> (λ used v.
      if has_link (lookup "IAA" request.links)
      then plan_kind "IAA" [] used used v >>> after_iaa used
      else plan_paid paid_types [] used used v)
