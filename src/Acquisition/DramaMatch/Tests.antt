-- ===== src/Acquisition/DramaMatch/Tests.antt =====
-- The match of a drama on concrete candidates.
use automated_short_drama.Prelude.{ℕ, String, ◌≡◌, refl, not, ◌&&◌, List, [], ◌∷◌, any}
use automated_short_drama.Prelude.Chars.{chars_eq}
use automated_short_drama.Acquisition.DramaMatch.{
  aware, DramaCandidate, is_naive, minute_difference, normalize_drama_name, shanghai_minute, choose,
  match_unique_drama,
}
use automated_short_drama.Acquisition.DramaMatch.Choice.{Match, match_unique_drama-Match}
use automated_short_drama.Acquisition.DramaMatch.Decision.{
  raised, mismatch_unless, is_decided, raised-match_unique_drama,
}

abbrev candidate : String → ℕ → DramaCandidate
candidate name t = record {
  drama_name = name;
  available_time = aware t;
  locator_key = "key";
  raw_time = "time";
  page_order = 1;
}

-- Two minutes later than expected.
abbrev candidates : List DramaCandidate
candidates = candidate "Moon" 120000000 ∷ candidate "Moon 2" 0 ∷ []

match_unique_drama-Match_example : Match (λ s. s) "Moon" 0 candidates (candidate "Moon" 120000000)
unfolding match_unique_drama choose shanghai_minute chars_eq normalize_drama_name minute_difference
match_unique_drama-Match_example =
    match_unique_drama-Match (λ s. s) "Moon" 7 candidates (candidate "Moon" 120000000) refl

raised-match_unique_drama_example :
    raised (match_unique_drama (λ s. s) "Moon" (aware 7) candidates)
    ≡ mismatch_unless (not (any is_naive candidates) && is_decided (λ s. s) "Moon" 0 candidates)
raised-match_unique_drama_example = raised-match_unique_drama (λ s. s) "Moon" 7 candidates
