-- ===== src/Prelude/Rows.antt =====
-- Tables as lists of rows: `UPDATE ... SET ... WHERE ...`, membership, and relations that hold
-- row by row.
use mathlib.Core.Path.{◌≡◌, refl, subst}
use mathlib.Core.Logic.{◌⊎◌, inl, inr}
use mathlib.Core.Bool.{Bool, true, false}
use mathlib.Core.Option.{Option, none, some}
use mathlib.Core.List.{List, [], ◌∷◌}
use automated_short_drama.Prelude.Tests.{if◌then◌else◌, Bool-cases}
use automated_short_drama.Prelude.Lists.{select, All, least, least_or}

module _ {A : Type 0} where
  unfoldable pub update_where : (A → Bool) → (A → A) → List A → List A
  update_where p f [] = []
  update_where p f (x ∷ xs) = (if p x then f x else x) ∷ update_where p f xs

  abbrev pub In : A → List A → Type 0
  In a [] = ⊥
  In a (x ∷ xs) = (x ≡ a) ⊎ In a xs

  -- Two tables with related rows at the same places.
  abbrev pub Rows : (A → A → Type 0) → List A → List A → Type 0
  Rows R [] [] = Unit
  Rows R [] (y ∷ ys) = ⊥
  Rows R (x ∷ xs) [] = ⊥
  Rows R (x ∷ xs) (y ∷ ys) = R x y × Rows R xs ys

  pub Rows-refl : (R : A → A → Type 0) → ((x : A) → R x x) → (xs : List A) → Rows R xs xs
  Rows-refl R r [] = tt
  Rows-refl R r (x ∷ xs) = (r x, Rows-refl R r xs)

  pub Rows-map :
      (R S : A → A → Type 0)
      → ((x y : A) → R x y → S x y)
      → (xs ys : List A) → Rows R xs ys
      → Rows S xs ys
  Rows-map R S f [] [] h = h
  Rows-map R S f [] (y ∷ ys) h = h
  Rows-map R S f (x ∷ xs) [] h = h
  Rows-map R S f (x ∷ xs) (y ∷ ys) h = (f x y h.0, Rows-map R S f xs ys h.1)

  pub Rows-trans :
      (R : A → A → Type 0)
      → ((x y z : A) → R x y → R y z → R x z)
      → (xs ys zs : List A) → Rows R xs ys
      → Rows R ys zs
      → Rows R xs zs
  Rows-trans R t [] [] zs h k = k
  Rows-trans R t [] (y ∷ ys) zs h k = absurd h
  Rows-trans R t (x ∷ xs) [] zs h k = absurd h
  Rows-trans R t (x ∷ xs) (y ∷ ys) [] h k = absurd k
  Rows-trans R t (x ∷ xs) (y ∷ ys) (z ∷ zs) h k = (t x y z h.0 k.0, Rows-trans R t xs ys zs h.1 k.1)

  if-Rows :
      (R : A → A → Type 0) (b : Bool) (x y : A)
      → R x x
      → (b ≡ true → R x y)
      → R x (if b then y else x)
  if-Rows R true x y r h = h refl
  if-Rows R false x y r h = r

  pub update_where-Rows :
      (R : A → A → Type 0) (p : A → Bool) (f : A → A)
      → ((x : A) → R x x)
      → ((x : A) → p x ≡ true → R x (f x))
      → (xs : List A) → Rows R xs (update_where p f xs)
  unfolding update_where
  update_where-Rows R p f r h [] = tt
  update_where-Rows R p f r h (x ∷ xs) =
      (if-Rows R (p x) x (f x) (r x) (h x), update_where-Rows R p f r h xs)

  if-All : (P : A → Type 0) (b : Bool) (x y : A) → P x → (b ≡ true → P y) → P (if b then y else x)
  if-All P true x y r h = h refl
  if-All P false x y r h = r

  pub update_where-All :
      (P : A → Type 0) (p : A → Bool) (f : A → A)
      → ((x : A) → p x ≡ true → P x → P (f x))
      → (xs : List A) → All P xs
      → All P (update_where p f xs)
  unfolding update_where
  update_where-All P p f h [] k = tt
  update_where-All P p f h (x ∷ xs) k =
      (if-All P (p x) x (f x) k.0 (λ e. h x e k.0), update_where-All P p f h xs k.1)

  pub All-In : (P : A → Type 0) (a : A) (xs : List A) → All P xs → In a xs → P a
  All-In P a [] h i = absurd i
  All-In P a (x ∷ xs) h (inl e) = subst_at e h.0
    where
      subst_at : x ≡ a → P x → P a
      subst_at e p = rw e at p
  All-In P a (x ∷ xs) h (inr i) = All-In P a xs h.1 i

  In-if-cons :
      (b : Bool) (p : A → Bool) (a x : A) (xs ys : List A)
      → p x ≡ b
      → (In a ys → In a xs × (p a ≡ true))
      → In a (if b then x ∷ ys else ys)
      → In a (x ∷ xs) × (p a ≡ true)
  In-if-cons true p a x xs ys e ih (inl q) = (inl q, rw (← q) e)
  In-if-cons true p a x xs ys e ih (inr i) = let r = ih i in (inr r.0, r.1)
  In-if-cons false p a x xs ys e ih i = let r = ih i in (inr r.0, r.1)

  pub In-select : (p : A → Bool) (a : A) (xs : List A) → In a (select p xs) → In a xs × (p a ≡ true)
  In-select p a [] i = absurd i
  In-select p a (x ∷ xs) i = In-if-cons (p x) p a x xs (select p xs) refl (In-select p a xs) i

  least_or-In :
      (le : A → A → Bool) (x a : A) (xs : List A) (o : Option A)
      → ((b : A) → o ≡ some b → In b xs)
      → least_or le x o ≡ a
      → In a (x ∷ xs)
  unfolding least_or
  least_or-In le x a xs none h e = inl e
  least_or-In le x a xs (some y) h e = elim (Bool-cases (le x y)) [
    | inl t ↦ inl (rw t at e)
    | inr f ↦ inr (subst (λ z. In z xs) (rw f at e) (h y refl))
  ]

  pub least-In : (le : A → A → Bool) (a : A) (xs : List A) → least le xs ≡ some a → In a xs
  unfolding least
  least-In le a [] e = cc
  least-In le a (x ∷ xs) e = least_or-In le x a xs (least le xs) (λ b. least-In le b xs) (cc)
