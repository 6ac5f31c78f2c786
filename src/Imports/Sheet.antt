-- ===== src/Imports/Sheet.antt =====
-- backend/src/backend/domain/imports/drama_import.py: the rows of both sheets, the operators, and
-- the map of a public row to a private one. A colour is a text.
use automated_short_drama.Prelude.{
  ℕ, zero, suc, ◌+◌, ◌*◌, Bool, true, false, ◌&&◌, ◌||◌, Option, none, some, List, [], ◌∷◌, map,
  if◌then◌else◌, codes, String, nat_eq, find, at,
}
use automated_short_drama.Prelude.Chars.{
  chars_eq, strip, is_space, drop_spaces, contains, starts_with,
}
use automated_short_drama.Errors.{Result, ok, err, value_error}

pub record PublicDramaRow : Type 0 where
  pub row_number : ℕ
  pub cells : List (List ℕ)
  pub fill_colors : List (Option (List ℕ))

pub record PrivateDramaRow : Type 0 where
  pub source_row : ℕ
  pub source_key : List ℕ
  pub cells : List (List ℕ)
  pub has_validated_links : Bool
  pub fill_colors : List (Option (List ℕ))

pub record Date : Type 0 where
  pub year : ℕ
  pub month : ℕ
  pub day : ℕ

pub record ImportOperator : Type 0 where
  pub name : List ℕ
  pub group_prefix : List ℕ
  pub completion_column : ℕ

abbrev operator : String → String → ℕ → ImportOperator
operator name group_prefix column = record {
  name = codes name;
  group_prefix = codes group_prefix;
  completion_column = column;
}

abbrev import_operators : List ImportOperator
import_operators =
    operator "赖亚健" "A" 15
    ∷ operator "韩亚栋" "A" 16
    ∷ operator "高有闯" "A" 17
    ∷ operator "史浩镔" "A" 18
    ∷ operator "陈冠鑫" "B" 19
    ∷ operator "施凯波" "B" 20
    ∷ operator "田雨" "B" 21
    ∷ operator "张朔" "B" 22
    ∷ operator "刘婧雯" "C" 23
    ∷ operator "甘心远" "C" 24
    ∷ operator "林浩东" "C" 25
    ∷ operator "张子豪" "C" 26
    ∷ []

-- _OPERATORS_BY_NAME.get(name)
abbrev operator_named : List ℕ → Option ImportOperator
operator_named name = find (λ o. chars_eq o.name name) import_operators

unfoldable pub resolve_import_operator : List ℕ → Result ImportOperator
resolve_import_operator name = elim (operator_named (strip name)) [
  | none ↦ err value_error
  | some o ↦ ok o
]

abbrev pub cell : ℕ → List (List ℕ) → List ℕ
cell n cells = at [] n cells

-- _PUBLIC_TO_PRIVATE_COLUMNS from column 6 of the private sheet on.
abbrev later_columns : ℕ → List ℕ
later_columns completion_column = 9 ∷ 10 ∷ 11 ∷ 12 ∷ 13 ∷ 14 ∷ completion_column ∷ 27 ∷ []

abbrev pub mapped_cells : ℕ → List (List ℕ) → List (List ℕ)
mapped_cells completion_column cells =
    cell 0 cells
    ∷ cell 1 cells
    ∷ cell 2 cells
    ∷ cell 3 cells
    ∷ cell 4 cells
    ∷ strip (cell 5 cells)
    ∷ map (λ n. cell n cells) (later_columns completion_column)

abbrev pub mapped_colors : ℕ → List (Option (List ℕ)) → List (Option (List ℕ))
mapped_colors completion_column colors =
    map (λ n. at none n colors) (0 ∷ 1 ∷ 2 ∷ 3 ∷ 4 ∷ 5 ∷ later_columns completion_column)

-- A digit and what follows it.
abbrev digit : (ℕ → Option ℕ) → List ℕ → Option (ℕ × List ℕ)
digit decimal [] = none
digit decimal (c ∷ s) = elim (decimal c) [ none ↦ none | some d ↦ some (d, s) ]

-- `\d{n}` with the number read so far.
unfoldable pub digits : (ℕ → Option ℕ) → ℕ → ℕ → List ℕ → Option (ℕ × List ℕ)
digits decimal zero value s = some (value, s)
digits decimal (suc n) value s = elim (digit decimal s) [
  | none ↦ none
  | some found ↦ digits decimal n (value * 10 + found.0) found.1
]

-- `\d{1,2}`: what may follow it is no digit, so that the longer match is the only one.
abbrev one_or_two_digits : (ℕ → Option ℕ) → List ℕ → Option (ℕ × List ℕ)
one_or_two_digits decimal s = elim (digit decimal s) [
  | none ↦ none
  | some first ↦ elim (digit decimal first.1) [
    | none ↦ some first
    | some second ↦ some (first.0 * 10 + second.0, second.1)
  ]
]

-- `[-/]`
abbrev separator : Option (ℕ × List ℕ) → Option (ℕ × List ℕ)
separator none = none
separator (some (n, [])) = none
separator (some (n, c ∷ s)) = if nat_eq c 0x2d || nat_eq c 0x2f then some (n, s) else none

-- `(?:\s|$)`
abbrev ends : List ℕ → Bool
ends [] = true
ends (c ∷ s) = is_space c

-- The three groups of _DATE_PREFIX_RE.
unfoldable pub date_prefix : (ℕ → Option ℕ) → List ℕ → Option Date
date_prefix decimal raw = elim (separator (digits decimal 4 0 (drop_spaces raw))) [
  | none ↦ none
  | some year ↦ elim (separator (one_or_two_digits decimal year.1)) [
    | none ↦ none
    | some month ↦ elim (one_or_two_digits decimal month.1) [
      | none ↦ none
      | some day ↦
          if ends day.1 then some (record { year = year.0; month = month.0; day = day.0 }) else none
    ]
  ]
]

abbrev pub same_date : Date → Date → Bool
same_date a b = nat_eq a.year b.year && (nat_eq a.month b.month && nat_eq a.day b.day)

unfoldable pub is_business_day_value : (ℕ → Option ℕ) → List ℕ → Date → Bool
is_business_day_value decimal raw business_day = elim (date_prefix decimal raw) [
  | none ↦ false
  | some d ↦ same_date d business_day
]

-- `row.cells[n] if len(row.cells) > n else ""`
abbrev pub cell_or_empty : ℕ → PublicDramaRow → List ℕ
cell_or_empty n row = cell n row.cells

unfoldable pub is_operator_row : PublicDramaRow → ImportOperator → Bool → Bool
is_operator_row row o match_group =
    let group = strip (cell_or_empty 2 row) in
    contains o.name group || (match_group && starts_with o.group_prefix group)
