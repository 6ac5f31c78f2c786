-- ===== src/Accounts/Allocation.antt =====
-- backend/src/backend/application/services/account_allocation_service.py and
-- domain/rules/account_block.py.
pub mod Windows
use automated_short_drama.Prelude.{
  ℕ, zero, suc, ◌+◌, String, Bool, true, false, not, ◌&&◌, ◌||◌, ◌==◌, Option, none, some, List, [],
  ◌∷◌, ◌++◌, map, if◌then◌else◌, any, find, take, length, leb, nat_eq,
}

pub record AccountRow : Type 0 where
  pub row_number : ℕ
  pub name : String
  pub cid : String
  pub group : String
  pub enabled : Bool
  pub is_test : Bool
  pub drama_name : String

-- Groups with the number of rows of each.
pub record BlockDefinition : Type 0 where
  pub block_type : String
  pub group_patterns : List (String × ℕ)

abbrev pub iaa_block : BlockDefinition
iaa_block = record {
  block_type = "IAA";
  group_patterns = ("B1", 3) ∷ ("B4", 3) ∷ ("B7", 3) ∷ ("BX", 1) ∷ [];
}

-- What the plan writes into a row.
pub record Entry : Type 0 where
  pub drama_name : String
  pub is_test : Bool

pub record BlockAllocation : Type 0 where
  pub block_type : String
  pub rows : List AccountRow
  pub cids : List String
  pub test_account_row : Option AccountRow
  pub write_plan : List (ℕ × Entry)

abbrev replicate : ℕ → String → List String
replicate zero g = []
replicate (suc n) g = g ∷ replicate n g

-- The group that each row of a block must have.
unfoldable pub groups_of : List (String × ℕ) → List String
groups_of [] = []
groups_of ((g, n) ∷ patterns) = replicate n g ++ groups_of patterns

unfoldable pub block_size : List (String × ℕ) → ℕ
block_size [] = 0
block_size ((g, n) ∷ patterns) = n + block_size patterns

abbrev pub is_free : List String → AccountRow → Bool
is_free allocated row =
    row.enabled && (row.drama_name == "" && not (any (λ c. c == row.cid) allocated))

-- `_matches_pattern`, which walks the block with the groups.
unfoldable pub matches_pattern : List String → List String → List AccountRow → Bool
matches_pattern allocated [] [] = true
matches_pattern allocated [] (row ∷ rows) = false
matches_pattern allocated (g ∷ gs) [] = false
matches_pattern allocated (g ∷ gs) (row ∷ rows) =
    (row.group == g && is_free allocated row) && matches_pattern allocated gs rows

unfoldable pub pick_test_row : List AccountRow → Option AccountRow
pick_test_row block = find (λ r. r.group == "B4" && (r.enabled && not r.is_test)) block

abbrev is_test_number : Option AccountRow → ℕ → Bool
is_test_number none n = false
is_test_number (some t) n = nat_eq n t.row_number

-- plan[row_number] = entry
unfoldable pub put_row : ℕ → Entry → List (ℕ × Entry) → List (ℕ × Entry)
put_row k v [] = (k, v) ∷ []
put_row k v ((j, w) ∷ d) = if nat_eq j k then (j, v) ∷ d else (j, w) ∷ put_row k v d

unfoldable pub build_write_plan :
    String → Option AccountRow → List AccountRow → List (ℕ × Entry) → List (ℕ × Entry)
build_write_plan drama test_row [] plan = plan
build_write_plan drama test_row (r ∷ rows) plan = build_write_plan drama test_row rows (
    put_row r.row_number
      (record { drama_name = drama; is_test = is_test_number test_row r.row_number }) plan)

abbrev pub allocation : String → String → List AccountRow → BlockAllocation
allocation drama block_type block =
    let test_row = pick_test_row block in
    record {
      block_type = block_type;
      rows = block;
      cids = map (λ r. r.cid) block;
      test_account_row = test_row;
      write_plan = build_write_plan drama test_row block [];
    }

-- The block that starts at the first row is whole and free.
abbrev pub fits_here : List String → List (String × ℕ) → List AccountRow → Bool
fits_here allocated patterns rows =
    leb (block_size patterns) (length rows)
    && matches_pattern allocated (groups_of patterns) (take (block_size patterns) rows)

unfoldable pub first_block :
    List String → List (String × ℕ) → List AccountRow → Option (List AccountRow)
first_block allocated patterns [] = if fits_here allocated patterns [] then some [] else none
first_block allocated patterns (r ∷ rows) =
    let later = first_block allocated patterns rows in
    if fits_here allocated patterns (r ∷ rows)
    then some (take (block_size patterns) (r ∷ rows))
    else later

abbrev pub map_block : String → String → Option (List AccountRow) → Option BlockAllocation
map_block drama block_type none = none
map_block drama block_type (some block) = some (allocation drama block_type block)

unfoldable pub find_block :
    String → List AccountRow → List String → BlockDefinition → Option BlockAllocation
find_block drama rows allocated definition =
    map_block drama definition.block_type (first_block allocated definition.group_patterns rows)

unfoldable pub find_iaa_block : String → List AccountRow → List String → Option BlockAllocation
find_iaa_block drama rows allocated = find_block drama rows allocated iaa_block

abbrev iap_patterns : List String → List (String × ℕ)
iap_patterns required =
    (if any (λ t. t == "9.9") required then ("B1-9.9", 3) ∷ [] else [])
    ++ (if any (λ t. t == "2.9") required then ("B2-2.9", 3) ∷ [] else [])

abbrev find_patterns :
    String → List AccountRow → List String → List (String × ℕ) → Option BlockAllocation
find_patterns drama rows allocated [] = none
find_patterns drama rows allocated (p ∷ ps) =
    find_block drama rows allocated (record { block_type = "IAP"; group_patterns = p ∷ ps })

unfoldable pub find_iap_block :
    String → List AccountRow → List String → List String → Option BlockAllocation
find_iap_block drama rows allocated required =
    find_patterns drama rows allocated (iap_patterns required)
