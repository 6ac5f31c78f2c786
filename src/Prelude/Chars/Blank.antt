-- ===== src/Prelude/Chars/Blank.antt =====
-- Texts with no visible character.
use mathlib.Core.Path.{◌≡◌, refl, ◌∙◌, sym, ap}
use Prim.Native.Nat.{ℕ}
use mathlib.Core.Bool.{Bool, true, false, not, ◌||◌}
use mathlib.Core.List.{List, [], ◌∷◌, ◌++◌, reverse, reverse-cons}
use native.Mathlib.Omega.{arith}
use automated_short_drama.Prelude.Lists.{any}
use automated_short_drama.Prelude.Chars.{is_space, drop_spaces, strip}

abbrev pub is_blank : List ℕ → Bool
is_blank [] = true
is_blank (c ∷ s) = false

-- not s.strip()
abbrev pub blank : List ℕ → Bool
blank s = is_blank (strip s)

abbrev visible : List ℕ → Bool
visible s = any (λ c. not (is_space c)) s

visible-append : (s t : List ℕ) → visible (s ++ t) ≡ (visible s || visible t)
visible-append [] t = refl
visible-append (c ∷ s) t = ground (arith, visible-append s t)

visible-reverse : (s : List ℕ) → visible (reverse s) ≡ visible s
visible-reverse [] = refl
visible-reverse (c ∷ s) =
    rw (reverse-cons c s) (ground (arith, visible-append (reverse s) (c ∷ []), visible-reverse s))

visible-drop_spaces : (s : List ℕ) → visible (drop_spaces s) ≡ visible s
unfolding drop_spaces
visible-drop_spaces [] = refl
visible-drop_spaces (c ∷ s) = ground (arith, visible-drop_spaces s)

is_blank-drop_spaces : (s : List ℕ) → is_blank (drop_spaces s) ≡ not (visible s)
unfolding drop_spaces
is_blank-drop_spaces [] = refl
is_blank-drop_spaces (c ∷ s) = ground (arith, is_blank-drop_spaces s)

is_blank-reverse : (s : List ℕ) → is_blank (reverse s) ≡ is_blank s
is_blank-reverse [] = refl
is_blank-reverse (c ∷ s) = rw (reverse-cons c s) (ends (reverse s))
  where
    ends : (t : List ℕ) → is_blank (t ++ c ∷ []) ≡ false
    ends [] = refl
    ends (d ∷ t) = refl

blank-visible : (s : List ℕ) → blank s ≡ not (visible s)
unfolding strip
blank-visible s =
    is_blank-reverse (drop_spaces (reverse (drop_spaces s)))
    ∙ is_blank-drop_spaces (reverse (drop_spaces s))
    ∙ ap not (visible-reverse (drop_spaces s) ∙ visible-drop_spaces s)

visible-strip : (s : List ℕ) → visible (strip s) ≡ visible s
unfolding strip
visible-strip s =
    visible-reverse (drop_spaces (reverse (drop_spaces s)))
    ∙ visible-drop_spaces (reverse (drop_spaces s))
    ∙ visible-reverse (drop_spaces s)
    ∙ visible-drop_spaces s

-- (not s.strip().strip()) == (not s.strip())
pub blank-strip : (s : List ℕ) → blank (strip s) ≡ blank s
blank-strip s = blank-visible (strip s) ∙ ap not (visible-strip s) ∙ sym (blank-visible s)
