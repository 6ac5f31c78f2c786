-- ===== src/Acquisition/DramaMatch/Decision.antt =====
-- When there is a match at all.
use automated_short_drama.Prelude.{
  ℕ, ◌/◌, ◌*◌, String, ◌≡◌, refl, ap, Bool, true, false, not, ◌&&◌, ◌||◌, Option, none, some, List,
  [], ◌∷◌, Bool-cases, inl, inr, arith, any, select,
}
use automated_short_drama.Errors.{Result, ok, err, DomainError, drama_mismatch}
use automated_short_drama.Acquisition.DramaMatch.{
  DramaCandidate, minute_of, shanghai_minute, same_name, related_name, at_minute, within_tolerance,
  by_fuzzy_tolerance, by_fuzzy_exact, by_exact_tolerance, by_exact, choose, match_unique_drama,
  is_naive, aware, minute,
}
use automated_short_drama.Acquisition.DramaMatch.Choice.{minute_difference-same}

-- What a call raised, if it did.
abbrev pub raised : Result DramaCandidate → Option DomainError
raised (ok c) = none
raised (err e) = some e

-- No error, or else the mismatch.
abbrev pub mismatch_unless : Bool → Option DomainError
mismatch_unless true = none
mismatch_unless false = some drama_mismatch

abbrev is_sole : List DramaCandidate → Bool
is_sole (c ∷ []) = true
is_sole _ = false

abbrev is_none : List DramaCandidate → Bool
is_none [] = true
is_none (c ∷ cs) = false

-- Minutes that are equal are within the tolerance.
select-tolerance :
    (nfkc : List ℕ → List ℕ) (name : String) (m : ℕ) (kind : DramaCandidate → Bool)
    (cs : List DramaCandidate)
    → is_none (select (λ e. kind e && within_tolerance nfkc name m e) cs) ≡ true
    → is_none (select (λ e. kind e && at_minute nfkc name m e) cs) ≡ true
select-tolerance nfkc name m kind [] h = refl
select-tolerance nfkc name m kind (c ∷ cs) h =
    ground (arith, select-tolerance nfkc name m kind cs, minute_difference-same (minute_of c) m)

module _ (nfkc : List ℕ → List ℕ) (name : String) (m : ℕ) (cs : List DramaCandidate) where
  -- The candidates of a kind that the code counts.
  abbrev at_once : (DramaCandidate → Bool) → List DramaCandidate
  at_once kind = select (λ e. kind e && at_minute nfkc name m e) cs

  abbrev within_time : (DramaCandidate → Bool) → List DramaCandidate
  within_time kind = select (λ e. kind e && within_tolerance nfkc name m e) cs

  raised-fuzzy_tolerance :
      (l : List DramaCandidate)
      → raised (by_fuzzy_tolerance nfkc name m l) ≡ mismatch_unless (not (is_none l))
  raised-fuzzy_tolerance [] = refl
  raised-fuzzy_tolerance (a ∷ []) = refl
  raised-fuzzy_tolerance (a ∷ b ∷ more) = refl

  raised-fuzzy_exact :
      (l : List DramaCandidate)
      → at_once (related_name nfkc name m) ≡ l
      → raised (by_fuzzy_exact nfkc name m cs l)
        ≡ mismatch_unless (not (is_none (within_time (related_name nfkc name m))))
  raised-fuzzy_exact [] e = raised-fuzzy_tolerance _
  raised-fuzzy_exact (c ∷ []) e =
      ground (arith, ap is_none e, select-tolerance nfkc name m (related_name nfkc name m) cs)
  raised-fuzzy_exact (a ∷ b ∷ more) e = raised-fuzzy_tolerance _

  raised-exact_tolerance :
      (l : List DramaCandidate)
      → raised (by_exact_tolerance nfkc name m cs l)
        ≡ mismatch_unless
            (is_sole l || (is_none l && not (is_none (within_time (related_name nfkc name m)))))
  raised-exact_tolerance [] = raised-fuzzy_exact _ refl
  raised-exact_tolerance (c ∷ []) = refl
  raised-exact_tolerance (a ∷ b ∷ more) = refl

  -- One candidate is certain by its name, or none of the name is in time and a related one is.
  abbrev pub is_decided : Bool
  is_decided =
      is_sole (at_once (same_name nfkc name m))
      || (is_sole (within_time (same_name nfkc name m))
          || (is_none (within_time (same_name nfkc name m))
              && not (is_none (within_time (related_name nfkc name m)))))

  raised-exact :
      (l : List DramaCandidate)
      → raised (by_exact nfkc name m cs l)
        ≡ mismatch_unless (
            is_sole l
            || (is_sole (within_time (same_name nfkc name m))
                || (is_none (within_time (same_name nfkc name m))
                    && not (is_none (within_time (related_name nfkc name m))))))
  raised-exact [] = raised-exact_tolerance _
  raised-exact (c ∷ []) = refl
  raised-exact (a ∷ b ∷ more) = raised-exact_tolerance _

-- For an expected time with a time zone, a candidate is returned exactly if all candidates have time
-- zones, and one candidate of the expected name is the only one in its minute or the only one within
-- the tolerance, or none of the name is within it and some related one is, however many related ones
-- there are; all else raises the mismatch of dramas, and no other error.
pub raised-match_unique_drama :
    (nfkc : List ℕ → List ℕ) (name : String) (t : ℕ) (cs : List DramaCandidate)
    → raised (match_unique_drama nfkc name (aware t) cs)
      ≡ mismatch_unless (not (any is_naive cs) && is_decided nfkc name (t / minute * minute) cs)
unfolding match_unique_drama choose shanghai_minute
raised-match_unique_drama nfkc name t cs = elim (Bool-cases (any is_naive cs)) [
  | inl n ↦ rw n refl
  | inr n ↦ rw n (raised-exact nfkc name (t / minute * minute) cs _)
]
