-- ===== src/Imports/Tests.antt =====
-- The import of dramas on a concrete sheet.
use automated_short_drama.Prelude.{
  at, ℕ, ◌+◌, ◌-◌, ◌≡◌, refl, String, true, false, none, some, List, [], ◌∷◌, ◌++◌, map, codes, leb,
  ◌⊎◌, ◌&&◌, if◌then◌else◌,
}
use automated_short_drama.Prelude.Chars.{
  strip, chars_eq, join, words, drop_spaces, contains, starts_with,
}
use automated_short_drama.Prelude.Rows.{update_where}
use automated_short_drama.Errors.{Result, ok, err, value_error}
use automated_short_drama.Imports.SourceKey.{
  validate, platform_alias, TextLibrary, build_task_source_key, native, normalize,
}
use automated_short_drama.Imports.SourceKey.Injective.{Same, Collision, build_task_source_key-eq}
use automated_short_drama.Imports.Sheet.{
  PublicDramaRow, Date, resolve_import_operator, is_business_day_value, date_prefix, digits,
  is_operator_row,
}
use automated_short_drama.Imports.Preview.{
  DramaImportPreview, gather, map_public_row, private_identity, build_import_preview, existing_keys,
}
use automated_short_drama.Imports.Preview.Counts.{
  build_import_preview-NewKeys, NewKeys, DistinctKeys,
}
use automated_short_drama.Imports.Preview.Again.{build_import_preview-again}
use automated_short_drama.Imports.Runs.{DramaImportRun, previewed, claim, get, complete}
use automated_short_drama.Imports.Runs.Claims.{
  add_run, claim_run, fail_run, run_steps, claim-run_steps,
}
use automated_short_drama.Imports.Service.{
  DramaSheet, Inserted, ImportRunResult, to_run_result, confirm_persisted, get_session,
}
use automated_short_drama.Imports.Service.Once.{
  confirm_persisted-again, get_session-confirm_persisted,
}

-- Texts without letters to fold, and a digest that no two of them share.
abbrev lib : TextLibrary
lib = record {
  nfkc = λ s. s;
  lower = λ s. s;
  upper = λ s. s;
  decimal = λ c. if leb 0x30 c && leb c 0x39 then some (c - 0x30) else none;
  sha256 = λ s. 1 ∷ s;
}

tail : List ℕ → List ℕ
tail [] = []
tail (c ∷ s) = s

build_task_source_key-eq_example :
    Same lib
      (codes " 长安  夜")
      (codes "番茄")
      (codes "2026-11-26 10:00 ")
      native
      (codes "长安 夜")
      (codes "TOMATO")
      (codes "2026-11-26 10:00")
      native
    ⊎ Collision lib
        (codes " 长安  夜")
        (codes "番茄")
        (codes "2026-11-26 10:00 ")
        native
        (codes "长安 夜")
        (codes "TOMATO")
        (codes "2026-11-26 10:00")
        native
unfolding build_task_source_key validate chars_eq join normalize words strip drop_spaces
    platform_alias
build_task_source_key-eq_example =
    build_task_source_key-eq lib (codes " 长安  夜") (codes "番茄") (codes "2026-11-26 10:00 ") native
      (codes "长安 夜") (codes "TOMATO") (codes "2026-11-26 10:00") native
      (1 ∷ codes "长安 夜\u{1f}TOMATO\u{1f}NATIVE\u{1f}2026-11-26 10:00") refl refl

abbrev public_row : ℕ → String → String → PublicDramaRow
public_row number drama time = record {
  row_number = number;
  cells =
      map codes ("" ∷ "" ∷ "B田雨" ∷ "" ∷ time ∷ drama ∷ "" ∷ "" ∷ "" ∷ "" ∷ "番茄" ∷ "" ∷ "a" ∷ []);
  fill_colors = [];
}

abbrev public_rows : List PublicDramaRow
public_rows =
    public_row 2 "长安" "2026-11-26 10:00"
    ∷ public_row 3 " 长安" "2026-11-26 10:00"
    ∷ public_row 4 "" "2026/11/26"
    ∷ public_row 5 "洛阳" "2026-11-27"
    ∷ []

abbrev day : Date
day = record { year = 2026; month = 11; day = 26 }

abbrev value : {A : Type 0} → A → Result A → A
value default (err e) = default
value default (ok a) = a

abbrev nothing : DramaImportPreview
nothing = record {
  business_date = day;
  source_count = 0;
  new_count = 0;
  duplicate_count = 0;
  invalid_count = 0;
  rows = [];
  errors = [];
  operator_name = [];
}

abbrev first : DramaImportPreview
first = value nothing (build_import_preview lib public_rows [] day (codes "田雨") false)

abbrev inserted : List (List (List ℕ))
inserted = map (λ r. r.cells) first.rows ++ []

abbrev second : DramaImportPreview
second = value nothing (build_import_preview lib public_rows inserted day (codes "田雨") false)

first_is : build_import_preview lib public_rows [] day (codes "田雨") false ≡ ok first
unfolding build_import_preview resolve_import_operator chars_eq strip
first_is = refl

first_counts :
    (first.source_count ≡ 3)
    × (first.new_count ≡ 1)
    × (first.duplicate_count ≡ 1)
    × (first.invalid_count ≡ 1)
unfolding build_import_preview resolve_import_operator chars_eq strip gather is_business_day_value
    date_prefix digits at is_operator_row contains starts_with map_public_row build_task_source_key
    validate join normalize words platform_alias drop_spaces private_identity
first_counts = (refl, refl, refl, refl)

build_import_preview-NewKeys_example :
    NewKeys (existing_keys lib []) first.rows × DistinctKeys first.rows
build_import_preview-NewKeys_example =
    build_import_preview-NewKeys lib public_rows [] day (codes "田雨") false first first_is

second_is : build_import_preview lib public_rows inserted day (codes "田雨") false ≡ ok second
unfolding build_import_preview resolve_import_operator chars_eq strip
second_is = refl

build_import_preview-again_example : second.new_count ≡ 0
build_import_preview-again_example =
    build_import_preview-again lib (λ s. refl) public_rows [] day (codes "田雨") false first second
      first_is second_is

abbrev run : DramaImportRun
run = record {
  id = "r1";
  preview = first;
  expected_revision = 7;
  status = previewed;
  inserted_count = 0;
  inserted_rows = [];
  verified = false;
  error_message = none;
  created_at = 0;
}

claim-run_steps_example :
    let after = (claim "r1" (run ∷ [])).1 in
    (claim "r1" (run_steps (add_run run ∷ fail_run "r1" value_error ∷ claim_run "r1" ∷ []) after)).0
    ≡ none
unfolding claim get update_where
claim-run_steps_example =
    claim-run_steps "r1" (run ∷ []) _
      (add_run run ∷ fail_run "r1" value_error ∷ claim_run "r1" ∷ []) refl

-- A sheet that counts the insertions, and answers or raises.
abbrev counting : Result Inserted → DramaSheet ℕ
counting answer = record {
  read_public_rows = λ d n. ok [];
  read_private_rows = λ n. ok [];
  private_revision = λ n. ok 0;
  insert_private_rows = λ rows revision n. (answer, n + 1);
}

abbrev one_row : Inserted
one_row = record { inserted_count = 1; inserted_rows = 3 ∷ []; verified = true }

abbrev one_row_result : ImportRunResult
one_row_result = record {
  run_id = "r1";
  inserted_count = 1;
  inserted_rows = 3 ∷ [];
  verified = true;
}

confirm_persisted-again_example :
    let done = confirm_persisted (counting (ok one_row)) "r1" (run ∷ []) 0 in
    confirm_persisted (counting (ok one_row)) "r1" (done.1) 1 ≡ (ok one_row_result, done.1, 1)
unfolding confirm_persisted get claim update_where complete to_run_result
confirm_persisted-again_example =
    confirm_persisted-again (counting (ok one_row)) "r1" one_row_result (run ∷ []) 0 1 refl

get_session-confirm_persisted_example :
    get_session (confirm_persisted (counting (err value_error)) "r1") (run ∷ []) 0
    ≡ (err value_error, run ∷ [], 1)
unfolding get
get_session-confirm_persisted_example =
    get_session-confirm_persisted (counting (err value_error)) "r1" (run ∷ []) 0 run value_error
      refl refl refl refl
