-- ===== src/Acquisition/DramaMatch.antt =====
-- backend/src/backend/domain/rules/drama_match.py. `nfkc` is the Unicode normalisation of
-- `unicodedata.normalize`, a parameter. A datetime with a time zone is the microseconds of its UTC
-- instant; Shanghai is eight hours ahead, so its minutes are those of UTC.
pub mod Choice
pub mod Decision
mod Tests
use automated_short_drama.Prelude.{
  ℕ, ◌+◌, ◌-◌, ◌*◌, ◌/◌, String, Bool, true, false, not, ◌&&◌, ◌||◌, List, [], ◌∷◌, if◌then◌else◌,
  any, select, least, least_or, leb, nat_eq, codes,
}
use automated_short_drama.Prelude.Chars.{without_spaces, chars_eq, contains}
use automated_short_drama.Errors.{Result, ok, err, DomainError, drama_mismatch, value_error}

pub data Datetime : Type 0 where
  aware : (utc_microseconds : ℕ) → Datetime
  naive : (microseconds : ℕ) → Datetime

pub record DramaCandidate : Type 0 where
  pub drama_name : String
  pub available_time : Datetime
  pub locator_key : String
  pub raw_time : String
  pub page_order : ℕ

abbrev pub minute : ℕ
minute = 60000000

unfoldable pub shanghai_minute : Datetime → Result ℕ
shanghai_minute (aware t) = ok (t / minute * minute)
shanghai_minute (naive t) = err value_error

abbrev absolute_difference : ℕ → ℕ → ℕ
absolute_difference a b = if leb a b then b - a else a - b

-- int(abs((left - right).total_seconds()) // 60)
unfoldable pub minute_difference : ℕ → ℕ → ℕ
minute_difference left right = absolute_difference left right / 1000000 / 60

abbrev pub is_naive : DramaCandidate → Bool
is_naive c = elim c.available_time [ aware t ↦ false | naive t ↦ true ]

-- The minute of a candidate, read only where no candidate is naive.
abbrev known_minute : Result ℕ → ℕ
known_minute (ok m) = m
known_minute (err e) = 0

abbrev pub minute_of : DramaCandidate → ℕ
minute_of c = known_minute (shanghai_minute c.available_time)

module _ (nfkc : List ℕ → List ℕ) where
  unfoldable pub normalize_drama_name : String → List ℕ
  normalize_drama_name value = without_spaces (nfkc (codes value))

  module _ (expected_name : String) (expected_minute : ℕ) where
    abbrev pub same_name : DramaCandidate → Bool
    same_name c = chars_eq (normalize_drama_name c.drama_name) (normalize_drama_name expected_name)

    abbrev pub related_name : DramaCandidate → Bool
    related_name c =
        (contains (normalize_drama_name expected_name) (normalize_drama_name c.drama_name)
          || contains (normalize_drama_name c.drama_name) (normalize_drama_name expected_name))
        && not (same_name c)

    abbrev pub distance : DramaCandidate → ℕ
    distance c = minute_difference (minute_of c) expected_minute

    abbrev pub at_minute : DramaCandidate → Bool
    at_minute c = nat_eq (minute_of c) expected_minute

    abbrev pub within_tolerance : DramaCandidate → Bool
    within_tolerance c = leb (distance c) 5

    abbrev pub nearer : DramaCandidate → DramaCandidate → Bool
    nearer a b = leb (distance a) (distance b)

    -- The four selections in the order of the code, the last one first.
    abbrev pub by_fuzzy_tolerance : List DramaCandidate → Result DramaCandidate
    by_fuzzy_tolerance [] = err drama_mismatch
    by_fuzzy_tolerance (c ∷ []) = ok c
    by_fuzzy_tolerance (a ∷ b ∷ more) = ok (least_or nearer a (least nearer (b ∷ more)))

    abbrev pub by_fuzzy_exact : List DramaCandidate → List DramaCandidate → Result DramaCandidate
    by_fuzzy_exact cs (c ∷ []) = ok c
    by_fuzzy_exact cs _ = by_fuzzy_tolerance (select (λ c. related_name c && within_tolerance c) cs)

    abbrev pub by_exact_tolerance :
        List DramaCandidate → List DramaCandidate → Result DramaCandidate
    by_exact_tolerance cs [] = by_fuzzy_exact cs (select (λ c. related_name c && at_minute c) cs)
    by_exact_tolerance cs (c ∷ []) = ok c
    by_exact_tolerance cs (a ∷ b ∷ more) = err drama_mismatch

    abbrev pub by_exact : List DramaCandidate → List DramaCandidate → Result DramaCandidate
    by_exact cs (c ∷ []) = ok c
    by_exact cs _ = by_exact_tolerance cs (select (λ c. same_name c && within_tolerance c) cs)

    unfoldable pub choose : List DramaCandidate → Result DramaCandidate
    choose cs =
        if any is_naive cs
        then err drama_mismatch
        else by_exact cs (select (λ c. same_name c && at_minute c) cs)

  abbrev match_at : String → Result ℕ → List DramaCandidate → Result DramaCandidate
  match_at expected_name (err e) cs = err drama_mismatch
  match_at expected_name (ok m) cs = choose expected_name m cs

  unfoldable pub match_unique_drama :
      String → Datetime → List DramaCandidate → Result DramaCandidate
  match_unique_drama expected_name expected_time cs =
      match_at expected_name (shanghai_minute expected_time) cs
