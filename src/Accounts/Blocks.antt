-- ===== src/Accounts/Blocks.antt =====
-- backend/src/backend/application/services/account_assignment_service.py: its results and what it
-- reads of the rows of a sheet, with domain/rules/account_sheet.py. The sheet, the table of usages
-- and the validator of candidates are parameters that may raise and may find the sheet changed. Sets
-- are lists of their members, and the reasons of results are left out.
use automated_short_drama.Prelude.{
  ℕ, suc, String, ◌==◌, Bool, true, false, not, ◌&&◌, ◌||◌, Option, none, some, List, [], ◌∷◌, ◌++◌,
  map, if◌then◌else◌, select, any, take, leb, nat_eq,
}
use automated_short_drama.Errors.{Result}
use automated_short_drama.Accounts.Allocation.{
  AccountRow, BlockAllocation, iaa_block, groups_of, block_size,
}

pub data AssignmentStatus : Type 0 where
  confirmed conflict partial_write dry_run unavailable : AssignmentStatus

-- The dict of one account.
pub record Account : Type 0 where
  pub role : String
  pub cid : String
  pub is_test : Bool
  pub row_number : ℕ
  pub sheet_kind : String

pub record AccountAssignmentResult : Type 0 where
  pub status : AssignmentStatus
  pub accounts : List Account

pub record AccountUsage : Type 0 where
  pub task_id : String
  pub drama_name : String
  pub usage_day : ℕ
  pub cid : String
  pub role : String
  pub sheet_kind : String
  pub row_number : ℕ

pub record AccountSheet (World : Type 0) : Type 0 where
  pub read_account_rows : String → World → Result (List AccountRow) × World
  pub write_account_names : String → List (ℕ × String) → World → Result {0} Unit × World
  pub write_account_test_flags : String → ℕ → World → Result {0} Unit × World
  pub append_account_block : String → ℕ → List AccountRow → World → Result (List AccountRow) × World

pub record UsageRepository (World : Type 0) : Type 0 where
  pub used_cids : ℕ → World → Result (List String) × World
  pub record_confirmed : List AccountUsage → World → Result {0} Unit × World

pub record AssignmentRequest (World : Type 0) : Type 0 where
  pub drama_name : String
  pub links : List (String × String)
  pub allocated_cids : List String
  pub dry_run : Bool
  pub include_test : Bool
  pub task_id : Option String
  pub usage_day : Option ℕ
  pub candidate_validator : Option (List Account → World → Result {0} Unit × World)
  pub usage_repo : Option (UsageRepository World)

abbrev pub Planned : Type 0
Planned = List (String × BlockAllocation)

-- One kind of sheet: the run ends, or a block is planned, with the CIDs that are reserved by then.
pub data Planning : Type 0 where
  stopped : AssignmentStatus → Planning
  block : BlockAllocation → List String → Planning

abbrev pub has_link : Option String → Bool
has_link none = false
has_link (some link) = not (link == "")

abbrev pub is_numbered : ℕ → AccountRow → Bool
is_numbered n row = nat_eq row.row_number n

-- The last row of that number, as a dict of the rows by number has it.
unfoldable pub by_row : ℕ → List AccountRow → Option AccountRow → Option AccountRow
by_row n [] last = last
by_row n (row ∷ rows) last = by_row n rows (if is_numbered n row then some row else last)

abbrev pub is_available : AccountRow → Option AccountRow → Bool
is_available original none = false
is_available original (some current) =
    current.cid == original.cid
    && (current.group == original.group && (current.enabled && current.drama_name == ""))

abbrev pub all_rows : (AccountRow → Bool) → List AccountRow → Bool
all_rows holds rows = not (any (λ row. not (holds row)) rows)

unfoldable pub still_available : List AccountRow → List AccountRow → Bool
still_available expected latest =
    all_rows (λ row. is_available row (by_row row.row_number latest none)) expected

abbrev pub is_number : Option ℕ → ℕ → Bool
is_number none n = false
is_number (some t) n = nat_eq t n

abbrev pub is_written : String → Option ℕ → AccountRow → Option AccountRow → Bool
is_written drama_name test_row_number original none = false
is_written drama_name test_row_number original (some current) =
    current.cid == original.cid
    && (current.drama_name == drama_name
        && (not (is_number test_row_number original.row_number) || current.is_test))

unfoldable pub write_confirmed : List AccountRow → List AccountRow → String → Option ℕ → Bool
write_confirmed expected latest drama_name test_row_number =
    all_rows (λ row. is_written drama_name test_row_number row (by_row row.row_number latest none))
      expected

abbrev pub is_test_row : Option AccountRow → ℕ → Bool
is_test_row none n = false
is_test_row (some row) n = nat_eq n row.row_number

-- _accounts
unfoldable pub accounts_of : Planned → Bool → List Account
accounts_of [] include_test = []
accounts_of ((kind, allocation) ∷ planned) include_test =
    map
      (λ row. record {
        role = row.group;
        cid = row.cid;
        is_test =
            row.is_test || (include_test && is_test_row allocation.test_account_row row.row_number);
        row_number = row.row_number;
        sheet_kind = kind;
      })
      allocation.rows
    ++ accounts_of planned include_test

abbrev pub is_usable : List String → AccountRow → Bool
is_usable used row =
    row.enabled
    && (not (row.cid == "") && (not (row.name == "") && not (any (λ c. c == row.cid) used)))

abbrev pub is_block : List String → List String → List AccountRow → Bool
is_block used [] [] = true
is_block used [] (row ∷ rows) = false
is_block used (g ∷ groups) [] = false
is_block used (g ∷ groups) (row ∷ rows) =
    (row.group == g && is_usable used row) && is_block used groups rows

abbrev pub or_here : Option (List AccountRow) → Bool → List AccountRow → Option (List AccountRow)
or_here (some later) here rows = some later
or_here none here rows = if here then some rows else none

-- _latest_append_template: the last window of the size of a block that is one.
unfoldable pub latest_append_template :
    List (String × ℕ) → List String → List AccountRow → Option (List AccountRow)
latest_append_template patterns used [] = or_here none (is_block used (groups_of patterns) []) []
latest_append_template patterns used (row ∷ rows) =
    let window = take (block_size patterns) (row ∷ rows) in
    or_here (latest_append_template patterns used rows) (is_block used (groups_of patterns) window)
      window

-- _preview_appended_rows
unfoldable pub preview_appended_rows : ℕ → List AccountRow → List AccountRow
preview_appended_rows last_row [] = []
preview_appended_rows last_row (row ∷ rows) =
    record row { row_number = suc last_row; is_test = false; drama_name = "" }
    ∷ preview_appended_rows (suc last_row) rows

abbrev pub later_of : ℕ → Option ℕ → Option ℕ
later_of n none = some n
later_of n (some m) = some (if leb m n then n else m)

abbrev pub or_one : Option ℕ → ℕ
or_one none = 1
or_one (some n) = n

unfoldable pub max_row : List AccountRow → Option ℕ
max_row [] = none
max_row (row ∷ rows) = later_of row.row_number (max_row rows)

-- BLOCK_DEFINITIONS[kind]
abbrev pub patterns_of : String → List (String × ℕ)
patterns_of kind =
    if kind == "IAA" then iaa_block.group_patterns else ("B1-9.9", 3) ∷ ("B2-2.9", 3) ∷ []

abbrev pub taken_cids : List AccountRow → List String
taken_cids rows = map (λ row. row.cid) (select (λ row. not (row.drama_name == "")) rows)

abbrev pub finished : AssignmentStatus → List Account → AccountAssignmentResult
finished status accounts = record { status = status; accounts = accounts }
