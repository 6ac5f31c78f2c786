-- ===== src/Acquisition/DramaMatch/Choice.antt =====
-- Which candidate is the match.
use automated_short_drama.Prelude.{
  ℕ, ◌/◌, ◌*◌, String, ◌≡◌, refl, sym, ap, Bool, true, not, ◌&&◌, ◌||◌, some, List, [], ◌∷◌, inl,
  inr, ◌⊎◌, arith, select, least, least_or, leb, nat_eq, All, Bool-cases,
}
use mathlib.Core.Path.{subst}
use automated_short_drama.Prelude.Rows.{In, In-select, least-In}
use automated_short_drama.Errors.{ok}
use automated_short_drama.Acquisition.DramaMatch.{
  DramaCandidate, minute_difference, minute_of, shanghai_minute, same_name, related_name, distance,
  at_minute, within_tolerance, nearer, by_fuzzy_tolerance, by_fuzzy_exact, by_exact_tolerance,
  by_exact, choose, match_unique_drama, aware, minute,
}

module _ {A : Type 0} (key : A → ℕ) where
  at_least_as_near :
      (x z : A) (ys : List A)
      → leb (key x) (key z) ≡ true
      → All (λ y. leb (key z) (key y) ≡ true) ys
      → All (λ y. leb (key x) (key y) ≡ true) ys
  at_least_as_near x z [] e h = tt
  at_least_as_near x z (y ∷ ys) e h = (ground arith, at_least_as_near x z ys e h.1)

  least_or-All :
      (x z : A) (ys : List A)
      → All (λ y. leb (key z) (key y) ≡ true) ys
      → All
          (λ y. leb (key (least_or (λ a b. leb (key a) (key b)) x (some z))) (key y) ≡ true)
          (x ∷ ys)
  unfolding least_or
  least_or-All x z ys h = elim (Bool-cases (leb (key x) (key z))) [
    | inl e ↦ no_farther x ys (ground arith) (ground arith, at_least_as_near x z ys e h)
    | inr e ↦ no_farther z ys (ground arith) (ground arith, h)
  ]
    where
      no_farther :
          (w : A) (zs : List A)
          → w ≡ least_or (λ a b. leb (key a) (key b)) x (some z)
          → All (λ y. leb (key w) (key y) ≡ true) (x ∷ zs)
          → All
              (λ y. leb (key (least_or (λ a b. leb (key a) (key b)) x (some z))) (key y) ≡ true)
              (x ∷ zs)
      no_farther w zs q k = subst (λ v. All (λ y. leb (key v) (key y) ≡ true) (x ∷ zs)) q k

  -- min(...) with a key is no farther than any member.
  least-All :
      (x : A) (xs : List A)
      → All
          (λ y.
            leb
              (key
                (least_or (λ a b. leb (key a) (key b)) x (least (λ a b. leb (key a) (key b)) xs)))
              (key y)
            ≡ true)
          (x ∷ xs)
  unfolding least_or least
  least-All x [] = (ground arith, tt)
  least-All x (y ∷ ys) =
      least_or-All x
        (least_or (λ a b. leb (key a) (key b)) y (least (λ a b. leb (key a) (key b)) ys)) (y ∷ ys)
        (least-All y ys)

pub minute_difference-same : (a b : ℕ) → nat_eq a b ≡ true → minute_difference a b ≡ 0
unfolding minute_difference
minute_difference-same a b h = ground arith

module _ (nfkc : List ℕ → List ℕ) (name : String) (m : ℕ) (cs : List DramaCandidate) where
  -- What a match tells: the candidate, whose name is the expected one or related to it, and which is
  -- the nearest in time of all candidates of its kind, and within the tolerance.
  pub record Chosen (c : DramaCandidate) (kind : DramaCandidate → Bool) : Type 0 where
    pub member : In c cs
    pub of_kind : kind c ≡ true
    pub tolerated : within_tolerance nfkc name m c ≡ true
    pub nearest : All (λ d. (not (kind d) || nearer nfkc name m c d) ≡ true) cs

  All-nearest :
      (c : DramaCandidate) (kind : DramaCandidate → Bool) (ds : List DramaCandidate)
      → within_tolerance nfkc name m c ≡ true
      → All
          (λ d. nearer nfkc name m c d ≡ true)
          (select (λ d. kind d && within_tolerance nfkc name m d) ds)
      → All (λ d. (not (kind d) || nearer nfkc name m c d) ≡ true) ds
  All-nearest c kind [] t h = tt
  All-nearest c kind (d ∷ ds) t h = elim (Bool-cases (kind d && within_tolerance nfkc name m d)) [
    | inl e ↦ let k = rw e at h in (ground arith, All-nearest c kind ds t k.1)
    | inr e ↦ let k = rw e at h in (ground arith, All-nearest c kind ds t k)
  ]

  tolerant-Chosen :
      (c : DramaCandidate) (kind : DramaCandidate → Bool)
      → In c (select (λ d. kind d && within_tolerance nfkc name m d) cs)
      → All
          (λ d. nearer nfkc name m c d ≡ true)
          (select (λ d. kind d && within_tolerance nfkc name m d) cs)
      → Chosen c kind
  tolerant-Chosen c kind i h =
      let s = In-select (λ d. kind d && within_tolerance nfkc name m d) c cs i in
      let t : within_tolerance nfkc name m c ≡ true = ground arith in
      record {
        member = s.0;
        of_kind = ground arith;
        tolerated = t;
        nearest = All-nearest c kind cs t h;
      }

  All-zero :
      (c : DramaCandidate) (kind : DramaCandidate → Bool) (ds : List DramaCandidate)
      → distance nfkc name m c ≡ 0
      → All (λ d. (not (kind d) || nearer nfkc name m c d) ≡ true) ds
  All-zero c kind [] z = tt
  All-zero c kind (d ∷ ds) z = (ground arith, All-zero c kind ds z)

  minute-Chosen :
      (c : DramaCandidate) (kind : DramaCandidate → Bool)
      → In c (select (λ d. kind d && at_minute nfkc name m d) cs)
      → Chosen c kind
  minute-Chosen c kind i =
      let s = In-select (λ d. kind d && at_minute nfkc name m d) c cs i in
      let z : distance nfkc name m c ≡ 0 = minute_difference-same (minute_of c) m (ground arith) in
      record {
        member = s.0;
        of_kind = ground arith;
        tolerated = ground arith;
        nearest = All-zero c kind cs z;
      }

  sole_at_minute :
      (c d : DramaCandidate) (kind : DramaCandidate → Bool)
      → select (λ e. kind e && at_minute nfkc name m e) cs ≡ d ∷ []
      → d ≡ c
      → Chosen c kind
  sole_at_minute c d kind e q = minute-Chosen c kind (subst (λ l. In c l) (sym e) (inl q))

  sole_within :
      (c d : DramaCandidate) (kind : DramaCandidate → Bool)
      → select (λ e. kind e && within_tolerance nfkc name m e) cs ≡ d ∷ []
      → d ≡ c
      → Chosen c kind
  sole_within c d kind e q = tolerant-Chosen c kind (subst (λ l. In c l) (sym e) (inl q)) (
      subst (λ l. All (λ x. nearer nfkc name m c x ≡ true) l) (sym e)
        (ground (arith, ap (distance nfkc name m) q), tt))

  by_fuzzy_tolerance-Chosen :
      (c : DramaCandidate) (l : List DramaCandidate)
      → select (λ e. related_name nfkc name m e && within_tolerance nfkc name m e) cs ≡ l
      → by_fuzzy_tolerance nfkc name m l ≡ ok c
      → Chosen c (related_name nfkc name m)
  unfolding least
  by_fuzzy_tolerance-Chosen c [] e h = cc
  by_fuzzy_tolerance-Chosen c (d ∷ []) e h = sole_within c d (related_name nfkc name m) e cc
  by_fuzzy_tolerance-Chosen c (a ∷ b ∷ more) e h =
      let q : least_or (nearer nfkc name m) a (least (nearer nfkc name m) (b ∷ more)) ≡ c = cc in
      let i : In c (a ∷ b ∷ more) =
        least-In (nearer nfkc name m) c (a ∷ b ∷ more) (ap (λ (x : DramaCandidate). some x) q) in
      tolerant-Chosen c (related_name nfkc name m) (subst (λ l. In c l) (sym e) i) (
        subst (λ l. All (λ x. nearer nfkc name m c x ≡ true) l) (sym e)
          (subst (λ y. All (λ x. nearer nfkc name m y x ≡ true) (a ∷ b ∷ more)) q
            (least-All (distance nfkc name m) a (b ∷ more))))

  by_fuzzy_exact-Chosen :
      (c : DramaCandidate) (l : List DramaCandidate)
      → select (λ e. related_name nfkc name m e && at_minute nfkc name m e) cs ≡ l
      → by_fuzzy_exact nfkc name m cs l ≡ ok c
      → Chosen c (related_name nfkc name m)
  by_fuzzy_exact-Chosen c [] e h = by_fuzzy_tolerance-Chosen c _ refl h
  by_fuzzy_exact-Chosen c (d ∷ []) e h = sole_at_minute c d (related_name nfkc name m) e cc
  by_fuzzy_exact-Chosen c (a ∷ b ∷ more) e h = by_fuzzy_tolerance-Chosen c _ refl h

  -- The match by the exact name, or without one within the tolerance by a related name.
  abbrev pub Match : DramaCandidate → Type 0
  Match c =
      Chosen c (same_name nfkc name m)
      ⊎ Chosen c (related_name nfkc name m)
        × (select (λ e. same_name nfkc name m e && within_tolerance nfkc name m e) cs ≡ [])

  by_exact_tolerance-Match :
      (c : DramaCandidate) (l : List DramaCandidate)
      → select (λ e. same_name nfkc name m e && within_tolerance nfkc name m e) cs ≡ l
      → by_exact_tolerance nfkc name m cs l ≡ ok c
      → Match c
  by_exact_tolerance-Match c [] e h = inr (by_fuzzy_exact-Chosen c _ refl h, e)
  by_exact_tolerance-Match c (d ∷ []) e h = inl (sole_within c d (same_name nfkc name m) e cc)
  by_exact_tolerance-Match c (a ∷ b ∷ more) e h = cc

  by_exact-Match :
      (c : DramaCandidate) (l : List DramaCandidate)
      → select (λ e. same_name nfkc name m e && at_minute nfkc name m e) cs ≡ l
      → by_exact nfkc name m cs l ≡ ok c
      → Match c
  by_exact-Match c [] e h = by_exact_tolerance-Match c _ refl h
  by_exact-Match c (d ∷ []) e h = inl (sole_at_minute c d (same_name nfkc name m) e cc)
  by_exact-Match c (a ∷ b ∷ more) e h = by_exact_tolerance-Match c _ refl h

-- A candidate that is returned is one of the list, within five minutes of the expected time, and
-- nearest to it of all candidates of its kind: those with the expected name, or, only where none of
-- these is within the tolerance, those whose name holds the expected one or is held by it.
pub match_unique_drama-Match :
    (nfkc : List ℕ → List ℕ) (name : String) (t : ℕ) (cs : List DramaCandidate) (c : DramaCandidate)
    → match_unique_drama nfkc name (aware t) cs ≡ ok c
    → Match nfkc name (t / minute * minute) cs c
unfolding match_unique_drama choose shanghai_minute
match_unique_drama-Match nfkc name t cs c h =
    by_exact-Match nfkc name (t / minute * minute) cs c _ refl (ground arith)
