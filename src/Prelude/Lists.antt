-- ===== src/Prelude/Lists.antt =====
-- Lists by Boolean tests: what a `where` clause selects, tests of all and of any member, the least
-- member of an order, and a stable sort.
use Prim.Native.Nat.{ℕ, zero, suc, ◌≤◌}
use mathlib.Core.Path.{◌≡◌, refl}
use mathlib.Core.Bool.{Bool, true, false, ◌||◌}
use mathlib.Core.Option.{Option, none, some}
use mathlib.Core.List.{List, [], ◌∷◌, ◌++◌}
use native.Mathlib.Omega.{arith}
use automated_short_drama.Prelude.Tests.{if◌then◌else◌}

module _ {ℓ} {A : Type ℓ} where
  abbrev pub length : List A → ℕ
  length [] = 0
  length (x ∷ xs) = suc (length xs)

  abbrev pub take : ℕ → List A → List A
  take zero xs = []
  take (suc n) [] = []
  take (suc n) (x ∷ xs) = x ∷ take n xs

  abbrev pub replicate : ℕ → A → List A
  replicate zero x = []
  replicate (suc n) x = x ∷ replicate n x

  -- `[*xs, *([default] * n)][:n]`
  abbrev pub padded : ℕ → A → List A → List A
  padded n default xs = take n (xs ++ replicate n default)

  -- `xs[index]`, with the default where the index is out of range.
  unfoldable pub at : A → ℕ → List A → A
  at default n [] = default
  at default zero (x ∷ xs) = x
  at default (suc n) (x ∷ xs) = at default n xs

  abbrev pub head? : List A → Option A
  head? [] = none
  head? (x ∷ xs) = some x

  -- The rows that pass a test, in order: a comprehension with `if`.
  abbrev pub select : (A → Bool) → List A → List A
  select p [] = []
  select p (x ∷ xs) = if p x then x ∷ select p xs else select p xs

  -- `any(...)`.
  abbrev pub any : (A → Bool) → List A → Bool
  any p [] = false
  any p (x ∷ xs) = p x || any p xs

  -- `next((x for x in xs if p x), None)`.
  abbrev pub find : (A → Bool) → List A → Option A
  find p [] = none
  find p (x ∷ xs) = if p x then some x else find p xs

  -- A predicate of every member, as nested pairs.
  abbrev pub All {κ} : (A → Type κ) → List A → Type κ
  All P [] = Unit
  All P (x ∷ xs) = P x × All P xs

  pub length-select-le : (p : A → Bool) (xs : List A) → length (select p xs) ≤ length xs
  length-select-le p [] = omega arith
  length-select-le p (x ∷ xs) = ground (arith, length-select-le p xs)

  pub All-select : (p : A → Bool) (xs : List A) → All (λ x. p x ≡ true) (select p xs)
  All-select p [] = tt
  All-select p (x ∷ xs) = ground (arith, All-select p xs)

  pub any-append : (p : A → Bool) (xs ys : List A) → any p (xs ++ ys) ≡ (any p xs || any p ys)
  any-append p [] ys = refl
  any-append p (x ∷ xs) ys = ground (arith, any-append p xs ys)

  pub All-append {κ} : (P : A → Type κ) (xs ys : List A) → All P xs → All P ys → All P (xs ++ ys)
  All-append P [] ys hx hy = hy
  All-append P (x ∷ xs) ys hx hy = (hx.0, All-append P xs ys hx.1 hy)

module _ {ℓ} {A : Type ℓ} (le : A → A → Bool) where
  -- ORDER BY ... LIMIT 1: the first of the least rows.
  unfoldable pub least_or : A → Option A → A
  least_or x none = x
  least_or x (some y) = if le x y then x else y

  unfoldable pub least : List A → Option A
  unfolding least_or
  least [] = none
  least (x ∷ xs) = some (least_or x (least xs))

  -- A stable sort: an earlier member stays before an equal one.
  insert : A → List A → List A
  insert x [] = x ∷ []
  insert x (y ∷ ys) = if le x y then x ∷ y ∷ ys else y ∷ insert x ys

  unfoldable pub sort : List A → List A
  unfolding insert
  sort [] = []
  sort (x ∷ xs) = insert x (sort xs)

  head-insert : (x : A) (ys : List A) → head? (insert x ys) ≡ some (least_or x (head? ys))
  unfolding insert least_or
  head-insert x [] = refl
  head-insert x (y ∷ ys) = ground arith

  pub head-sort : (xs : List A) → head? (sort xs) ≡ least xs
  unfolding sort least
  head-sort [] = refl
  head-sort (x ∷ xs) = ground (arith, head-insert x (sort xs), head-sort xs)
