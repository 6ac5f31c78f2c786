-- ===== src/Prelude/Chars/Parts.antt =====
-- The parts of a text.
use mathlib.Core.Path.{◌≡◌, refl, sym, subst}
use Prim.Native.Nat.{ℕ}
use mathlib.Core.Bool.{true}
use mathlib.Core.List.{List, [], ◌∷◌, ◌++◌, reverse, reverse-append}
use native.Mathlib.Omega.{arith}
use automated_short_drama.Prelude.Chars.{starts_with, contains, ends_with}

starts_with_self : (p s : List ℕ) → starts_with p (p ++ s) ≡ true
unfolding starts_with
starts_with_self [] s = refl
starts_with_self (c ∷ p) s = ground (arith, starts_with_self p s)

starts_with-append : (p s t : List ℕ) → starts_with p s ≡ true → starts_with p (s ++ t) ≡ true
unfolding starts_with
starts_with-append [] s t h = refl
starts_with-append (c ∷ p) [] t h = cc
starts_with-append (c ∷ p) (d ∷ s) t h = ground (arith, starts_with-append p s t)

starts_with-contains : (p s : List ℕ) → starts_with p s ≡ true → contains p s ≡ true
unfolding contains
starts_with-contains p [] h = h
starts_with-contains p (c ∷ s) h = rw h refl

-- A text stands in what begins with it, and in what has it behind something else.
pub contains_self : (p s : List ℕ) → contains p (p ++ s) ≡ true
contains_self p s = starts_with-contains p (p ++ s) (starts_with_self p s)

pub contains-behind : (p x s : List ℕ) → contains p s ≡ true → contains p (x ++ s) ≡ true
unfolding contains
contains-behind p [] s h = h
contains-behind p (c ∷ x) s h = ground (arith, contains-behind p x s)

starts_with_refl : (p : List ℕ) → starts_with p p ≡ true
unfolding starts_with
starts_with_refl [] = refl
starts_with_refl (c ∷ p) = ground (arith, starts_with_refl p)

pub ends_with_self : (s : List ℕ) → ends_with s s ≡ true
unfolding ends_with
ends_with_self s = starts_with_refl (reverse s)

pub ends_with-behind : (p x s : List ℕ) → ends_with p s ≡ true → ends_with p (x ++ s) ≡ true
unfolding ends_with
ends_with-behind p x s h =
    subst (λ t. starts_with (reverse p) t ≡ true) (sym (reverse-append x s))
      (starts_with-append (reverse p) (reverse s) (reverse x) h)
