-- ===== src/Accounts/Tests.antt =====
-- The search for a block on a concrete table.
use automated_short_drama.Prelude.{ℕ, ◌+◌, String, ◌≡◌, refl, true, false, none, List, [], ◌∷◌, map}
use automated_short_drama.Prelude.Dicts.{lookup}
use automated_short_drama.Errors.{ok}
use automated_short_drama.Accounts.Blocks.{
  AccountSheet, AssignmentRequest, dry_run, finished, accounts_of,
}
use automated_short_drama.Accounts.Assignment.{assign, plan_kind}
use automated_short_drama.Accounts.Assignment.DryRun.{assign-dry_run}
use automated_short_drama.Accounts.Allocation.{
  AccountRow, BlockDefinition, find_iap_block, find_block, first_block, allocation, matches_pattern,
  block_size, groups_of,
}
use automated_short_drama.Accounts.Allocation.Windows.{IsFirst, find_block-IsFirst}

abbrev row : ℕ → String → String → AccountRow
row n group drama = record {
  row_number = n;
  name = "account";
  cid = "cid";
  group = group;
  enabled = true;
  is_test = false;
  drama_name = drama;
}

abbrev pair : BlockDefinition
pair = record { block_type = "IAP"; group_patterns = ("B1", 1) ∷ ("B4", 1) ∷ [] }

abbrev rows : List AccountRow
rows = row 1 "B1" "taken" ∷ row 2 "B4" "" ∷ row 3 "B1" "" ∷ row 4 "B4" "" ∷ []

find_block-IsFirst_example :
    IsFirst [] pair.group_patterns rows (row 3 "B1" "" ∷ row 4 "B4" "" ∷ [])
unfolding find_block first_block matches_pattern block_size groups_of
find_block-IsFirst_example =
    find_block-IsFirst "drama" rows [] pair
      (allocation "drama" "IAP" (row 3 "B1" "" ∷ row 4 "B4" "" ∷ [])) refl

abbrev free_row : ℕ → AccountRow
free_row n = row n "B2-2.9" ""

-- A sheet with a free block; each write counts.
abbrev sheet : AccountSheet ℕ
sheet = record {
  read_account_rows = λ kind w. (ok (free_row 1 ∷ free_row 2 ∷ free_row 3 ∷ []), w);
  write_account_names = λ kind names w. (ok tt, w + 1);
  write_account_test_flags = λ kind n w. (ok tt, w + 1);
  append_account_block = λ kind last template w. (ok template, w + 1);
}

abbrev request : AssignmentRequest ℕ
request = record {
  drama_name = "Moon";
  links = ("2.9", "https://x") ∷ [];
  allocated_cids = [];
  dry_run = true;
  include_test = false;
  task_id = none;
  usage_day = none;
  candidate_validator = none;
  usage_repo = none;
}

assign_is :
    (assign sheet request 0).0
    ≡ ok (
        finished dry_run (
          map
            (λ r. record {
              role = "B2-2.9";
              cid = "cid";
              is_test = false;
              row_number = r.row_number;
              sheet_kind = "IAP";
            })
            (free_row 1 ∷ free_row 2 ∷ free_row 3 ∷ [])))
unfolding assign lookup plan_kind find_iap_block find_block first_block block_size matches_pattern
    groups_of accounts_of
assign_is = refl

assign-dry_run_example : (assign sheet request 0).1 ≡ 0
assign-dry_run_example =
    assign-dry_run sheet request (λ kind w. refl) (λ validator e. cc) (λ repo e. cc) refl 0
