-- ===== src/Accounts/Allocation/Windows.antt =====
-- Which rows the block that is found has, and when none is found.
use automated_short_drama.Prelude.{
  ℕ, zero, suc, String, ◌≡◌, refl, ap, true, false, ◌==◌, eq_iff, Option, none, some, List, [], ◌∷◌,
  ◌++◌, map, inl, inr, arith, take, All, Bool-cases,
}
use mathlib.Core.List.{tail-eq_of_cons-eq}
use mathlib.Core.Path.{subst}
use automated_short_drama.Accounts.Allocation.{
  AccountRow, groups_of, block_size, is_free, matches_pattern, fits_here, first_block,
  BlockDefinition, BlockAllocation, find_block, map_block,
}

drop : ℕ → List AccountRow → List AccountRow
drop zero rows = rows
drop (suc n) [] = []
drop (suc n) (r ∷ rows) = drop n rows

take-drop : (n : ℕ) (rows : List AccountRow) → rows ≡ take n rows ++ drop n rows
unfolding drop
take-drop zero rows = refl
take-drop (suc n) [] = refl
take-drop (suc n) (r ∷ rows) = ap (λ (l : List AccountRow). r ∷ l) (take-drop n rows)

-- A block that matches has the groups in order, and each row of it is free.
matches-groups :
    (allocated gs : List String) (block : List AccountRow)
    → matches_pattern allocated gs block ≡ true
    → (map (λ r. r.group) block ≡ gs) × All (λ r. is_free allocated r ≡ true) block
unfolding matches_pattern
matches-groups allocated [] [] h = (refl, tt)
matches-groups allocated [] (r ∷ rows) h = cc
matches-groups allocated (g ∷ gs) [] h = cc
matches-groups allocated (g ∷ gs) (r ∷ rows) h =
    let here : (r.group == g) ≡ true = ground arith in
    let free : is_free allocated r ≡ true = ground arith in
    let rest : matches_pattern allocated gs rows ≡ true = ground arith in
    let more = matches-groups allocated gs rows rest in
    let e : r.group ≡ g = ground (arith, eq_iff r.group g) in
    ((λ i. e i ∷ more.0 i), (free, more.1))

module _ (allocated : List String) (patterns : List (String × ℕ)) where
  -- No block starts at a row of `before`, with `rest` behind it.
  abbrev NoneBefore : List AccountRow → List AccountRow → Type 0
  NoneBefore [] rest = Unit
  NoneBefore (r ∷ before) rest =
      (fits_here allocated patterns (r ∷ (before ++ rest)) ≡ false) × NoneBefore before rest

  -- The block stands in the table, has the groups, is free, and no block starts at an earlier row.
  pub record IsFirst (rows block : List AccountRow) : Type 0 where
    pub before : List AccountRow
    pub behind : List AccountRow
    pub place : rows ≡ before ++ (block ++ behind)
    pub groups : map (λ r. r.group) block ≡ groups_of patterns
    pub free : All (λ r. is_free allocated r ≡ true) block
    pub first : NoneBefore before (block ++ behind)

  here-IsFirst :
      (rows : List AccountRow)
      → fits_here allocated patterns rows ≡ true
      → IsFirst rows (take (block_size patterns) rows)
  here-IsFirst rows h =
      let m : matches_pattern allocated (groups_of patterns) (take (block_size patterns) rows)
          ≡ true =
        ground arith in
      let g = matches-groups allocated (groups_of patterns) (take (block_size patterns) rows) m in
      record {
        before = [];
        behind = drop (block_size patterns) rows;
        place = take-drop (block_size patterns) rows;
        groups = g.0;
        free = g.1;
        first = tt;
      }

  later-IsFirst :
      (r : AccountRow) (rows block : List AccountRow)
      → fits_here allocated patterns (r ∷ rows) ≡ false
      → IsFirst rows block
      → IsFirst (r ∷ rows) block
  later-IsFirst r rows block n f = record {
    before = r ∷ f.before;
    behind = f.behind;
    place = ap (λ (l : List AccountRow). r ∷ l) f.place;
    groups = f.groups;
    free = f.free;
    first = (subst (λ l. fits_here allocated patterns (r ∷ l) ≡ false) f.place n, f.first);
  }

  first_block-IsFirst :
      (rows block : List AccountRow)
      → first_block allocated patterns rows ≡ some block
      → IsFirst rows block
  unfolding first_block
  first_block-IsFirst [] block e = elim (Bool-cases (fits_here allocated patterns [])) [
    | inl yes' ↦ subst (IsFirst []) (ground arith) (here-IsFirst [] yes')
    | inr no' ↦ absurd (ground arith)
  ]
  first_block-IsFirst (r ∷ rows) block e =
      elim (Bool-cases (fits_here allocated patterns (r ∷ rows))) [
        | inl yes' ↦ subst (IsFirst (r ∷ rows)) (ground arith) (here-IsFirst (r ∷ rows) yes')
        | inr no' ↦ later-IsFirst r rows block no' (first_block-IsFirst rows block (ground arith))
      ]

  -- Where no block is found, none starts at any row.
  first_block-none :
      (rows xs ys : List AccountRow)
      → first_block allocated patterns rows ≡ none
      → rows ≡ xs ++ ys
      → fits_here allocated patterns ys ≡ false
  unfolding first_block
  first_block-none [] [] ys n e =
      subst (λ l. fits_here allocated patterns l ≡ false) e (ground arith)
  first_block-none [] (x ∷ xs) ys n e = cc
  first_block-none (r ∷ rows) [] ys n e =
      subst (λ l. fits_here allocated patterns l ≡ false) e (ground arith)
  first_block-none (r ∷ rows) (x ∷ xs) ys n e =
      first_block-none rows xs ys (ground arith) (tail-eq_of_cons-eq e)

map_block-rows :
    (drama block_type : String) (found : Option (List AccountRow)) (b : BlockAllocation)
    → map_block drama block_type found ≡ some b
    → found ≡ some b.rows
map_block-rows drama block_type none b e = cc
map_block-rows drama block_type (some block) b e =
    ap (λ (o : Option BlockAllocation). elim o [ none ↦ some block | some c ↦ some c.rows ]) e

map_block-none :
    (drama block_type : String) (found : Option (List AccountRow))
    → map_block drama block_type found ≡ none
    → found ≡ none
map_block-none drama block_type none e = refl
map_block-none drama block_type (some block) e = cc

-- A plan that is returned is for the first rows of the table that are a whole free block: they stand
-- next to each other, have the groups of the definition in order, are all enabled, without a drama
-- and not allocated, and no block starts at an earlier row.
pub find_block-IsFirst :
    (drama : String) (rows : List AccountRow) (allocated : List String)
    (definition : BlockDefinition) (b : BlockAllocation)
    → find_block drama rows allocated definition ≡ some b
    → IsFirst allocated definition.group_patterns rows b.rows
unfolding find_block
find_block-IsFirst drama rows allocated definition b e =
    first_block-IsFirst allocated definition.group_patterns rows b.rows (
      map_block-rows drama definition.block_type
        (first_block allocated definition.group_patterns rows) b e)

-- Where no plan is returned, the rows from any row of the table on do not begin with a whole free
-- block.
find_block-none :
    (drama : String) (rows xs ys : List AccountRow) (allocated : List String)
    (definition : BlockDefinition)
    → find_block drama rows allocated definition ≡ none
    → rows ≡ xs ++ ys
    → fits_here allocated definition.group_patterns ys ≡ false
unfolding find_block
find_block-none drama rows xs ys allocated definition n e =
    first_block-none allocated definition.group_patterns rows xs ys
      (map_block-none drama definition.block_type
        (first_block allocated definition.group_patterns rows) n)
      e
