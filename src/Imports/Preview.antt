-- ===== src/Imports/Preview.antt =====
-- backend/src/backend/domain/imports/drama_import.py: the preview of an import.
pub mod Counts
pub mod Again
use automated_short_drama.Prelude.{
  padded, at, ◌⊎◌, inl, inr, ℕ, zero, suc, ◌+◌, ◌≡◌, Bool, true, false, not, ◌&&◌, ◌||◌, Option,
  none, some, List, [], ◌∷◌, ◌++◌, map, if◌then◌else◌, codes, String, any, length, select,
}
use automated_short_drama.Prelude.Chars.{chars_eq, strip}
use automated_short_drama.Prelude.Chars.Blank.{is_blank, blank}
use automated_short_drama.Errors.{Result, ok, err, ◌>>=◌, value_error}
use automated_short_drama.Imports.SourceKey.{TextLibrary, build_task_source_key, native}
use automated_short_drama.Imports.Sheet.{
  PublicDramaRow, PrivateDramaRow, Date, ImportOperator, resolve_import_operator, cell,
  mapped_cells, mapped_colors, is_business_day_value, is_operator_row, cell_or_empty,
}

-- The ValueError that a row may raise, with its message.
pub data RowError : Type 0 where
  no_drama_name no_time no_platform bad_key : RowError

pub record ImportRowError : Type 0 where
  pub source_row : ℕ
  pub message : RowError

pub record DramaImportPreview : Type 0 where
  pub business_date : Date
  pub source_count : ℕ
  pub new_count : ℕ
  pub duplicate_count : ℕ
  pub invalid_count : ℕ
  pub rows : List PrivateDramaRow
  pub errors : List ImportRowError
  pub operator_name : List ℕ

-- key in keys
abbrev pub has : List ℕ → List (List ℕ) → Bool
has key keys = any (λ k. chars_eq k key) keys

-- How the loop takes one public row.
pub data Verdict : Type 0 where
  skipped duplicate : Verdict
  invalid : RowError → Verdict
  fresh : PrivateDramaRow → Verdict

-- What the loop has gathered.
pub record Gathered : Type 0 where
  pub source_count : ℕ
  pub duplicates : ℕ
  pub rows : List PrivateDramaRow
  pub errors : List ImportRowError

abbrev pub verdict_of : List (List ℕ) → PrivateDramaRow ⊎ RowError → Verdict
verdict_of existing (inr e) = invalid e
verdict_of existing (inl row) = if has row.source_key existing then duplicate else fresh row

abbrev pub keys_after : Verdict → List (List ℕ) → List (List ℕ)
keys_after (fresh row) existing = row.source_key ∷ existing
keys_after _ existing = existing

abbrev pub note : ℕ → Verdict → Gathered → Gathered
note number skipped rest = rest
note number duplicate rest = record rest {
  source_count = suc rest.source_count;
  duplicates = suc rest.duplicates;
}
note number (invalid e) rest = record rest {
  source_count = suc rest.source_count;
  errors = record { source_row = number; message = e } ∷ rest.errors;
}
note number (fresh row) rest = record rest {
  source_count = suc rest.source_count;
  rows = row ∷ rest.rows;
}

abbrev pub preview_of : ImportOperator → Date → Gathered → DramaImportPreview
preview_of operator business_day gathered = record {
  business_date = business_day;
  source_count = gathered.source_count;
  new_count = length gathered.rows;
  duplicate_count = gathered.duplicates;
  invalid_count = length gathered.errors;
  rows = gathered.rows;
  errors = gathered.errors;
  operator_name = operator.name;
}

module _ (lib : TextLibrary) where
  abbrev pub identity_key : List ℕ → List ℕ → List ℕ → Result (List ℕ)
  identity_key drama_name platform raw_time =
      build_task_source_key lib drama_name platform raw_time native

  abbrev validated_links : List (List ℕ) → Bool
  validated_links mapped =
      chars_eq (lib.upper (strip (at [] 13 mapped))) (codes "OK")
      && (not (blank (at [] 9 mapped))
          || (not (blank (at [] 10 mapped)) || not (blank (at [] 11 mapped))))

  abbrev pub keyed :
      PublicDramaRow → ℕ → List (List ℕ) → Result (List ℕ) → PrivateDramaRow ⊎ RowError
  keyed row column mapped (err e) = inr bad_key
  keyed row column mapped (ok key) = inl (record {
    source_row = row.row_number;
    source_key = key;
    cells = mapped;
    has_validated_links = validated_links mapped;
    fill_colors = mapped_colors column (padded 28 none row.fill_colors);
  })

  unfoldable pub map_public_row : PublicDramaRow → ℕ → PrivateDramaRow ⊎ RowError
  map_public_row row completion_column =
      let cells = padded 28 [] row.cells in
      if blank (at [] 5 cells)
      then inr no_drama_name
      else if blank (at [] 4 cells)
      then inr no_time
      else if blank (at [] 10 cells)
      then inr no_platform
      else let mapped = mapped_cells completion_column cells in
        keyed row completion_column mapped
          (identity_key (at [] 5 mapped) (at [] 7 mapped) (at [] 4 mapped))

  abbrev key_or_empty : Result (List ℕ) → List ℕ
  key_or_empty (err e) = []
  key_or_empty (ok key) = key

  -- `_private_identity`; the end type of the key is valid, so that no error is passed over.
  unfoldable pub private_identity : List (List ℕ) → List ℕ
  private_identity raw =
      let cells = padded 14 [] raw in
      if blank (at [] 4 cells) || (blank (at [] 5 cells) || blank (at [] 7 cells))
      then []
      else key_or_empty (identity_key (at [] 5 cells) (at [] 7 cells) (at [] 4 cells))

  module _ (operator : ImportOperator) (match_group : Bool) (business_day : Date) where
    abbrev pub is_source : PublicDramaRow → Bool
    is_source row =
        is_business_day_value lib.decimal (cell_or_empty 4 row) business_day
        && is_operator_row row operator match_group

    abbrev pub judge : List (List ℕ) → PublicDramaRow → Verdict
    judge existing row =
        if is_source row
        then verdict_of existing (map_public_row row operator.completion_column)
        else skipped

    -- The loop of `build_import_preview`, from its last row on.
    unfoldable pub gather : List (List ℕ) → List PublicDramaRow → Gathered
    gather existing [] = record { source_count = 0; duplicates = 0; rows = []; errors = [] }
    gather existing (source ∷ more) =
        let verdict = judge existing source in
        note source.row_number verdict (gather (keys_after verdict existing) more)

  -- The keys of the private sheet, the empty one discarded.
  abbrev pub existing_keys : List (List (List ℕ)) → List (List ℕ)
  existing_keys private_rows =
      select (λ key. not (is_blank key)) (map private_identity private_rows)

  unfoldable pub build_import_preview :
      List PublicDramaRow → List (List (List ℕ)) → Date → List ℕ → Bool → Result DramaImportPreview
  build_import_preview public_rows private_rows business_day operator_name match_group =
      resolve_import_operator operator_name >>= (λ operator. ok (
        preview_of operator business_day
          (gather operator match_group business_day (existing_keys private_rows) public_rows)))
