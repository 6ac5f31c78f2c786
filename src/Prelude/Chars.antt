-- ===== src/Prelude/Chars.antt =====
-- Python's text methods on lists of code points.
pub mod Blank
pub mod Parts
use Prim.Native.Nat.{ℕ}
use mathlib.Core.Path.{◌≡◌, refl}
use native.Mathlib.Omega.{arith}
use mathlib.Core.Bool.{Bool, true, false, not, ◌||◌, ◌&&◌}
use mathlib.Core.Option.{Option, none, some}
use mathlib.Core.List.{List, [], ◌∷◌, ◌++◌, reverse}
use automated_short_drama.Prelude.Tests.{leb, nat_eq, if◌then◌else◌}
use automated_short_drama.Prelude.Lists.{select, any}

-- str.isspace of one character.
abbrev pub is_space : ℕ → Bool
is_space c =
    (leb 9 c && leb c 13)
    || ((leb 28 c && leb c 32)
        || (nat_eq c 0x85
            || (nat_eq c 0xa0
                || (nat_eq c 0x1680
                    || ((leb 0x2000 c && leb c 0x200a)
                        || ((leb 0x2028 c && leb c 0x2029)
                            || (nat_eq c 0x202f || (nat_eq c 0x205f || nat_eq c 0x3000))))))))

unfoldable pub drop_spaces : List ℕ → List ℕ
drop_spaces [] = []
drop_spaces (c ∷ cs) = let rest = drop_spaces cs in if is_space c then rest else c ∷ cs

-- s.strip()
unfoldable pub strip : List ℕ → List ℕ
unfolding drop_spaces
strip s = reverse (drop_spaces (reverse (drop_spaces s)))

-- s.replace(c, "") for one character.
abbrev pub without_char : ℕ → List ℕ → List ℕ
without_char c s = select (λ d. not (nat_eq d c)) s

-- "".join(s.split())
abbrev pub without_spaces : List ℕ → List ℕ
without_spaces s = select (λ c. not (is_space c)) s

-- s == t
unfoldable pub chars_eq : List ℕ → List ℕ → Bool
chars_eq [] [] = true
chars_eq [] (d ∷ t) = false
chars_eq (c ∷ s) [] = false
chars_eq (c ∷ s) (d ∷ t) = nat_eq c d && chars_eq s t

-- The part of `s` before `suffix`, where it ends so; on texts that are turned round.
unfoldable drop_prefix_or_same : List ℕ → List ℕ → List ℕ → List ℕ
drop_prefix_or_same whole [] s = s
drop_prefix_or_same whole (p ∷ ps) [] = whole
drop_prefix_or_same whole (p ∷ ps) (c ∷ s) =
    let rest = drop_prefix_or_same whole ps s in if nat_eq p c then rest else whole

-- `if s.endswith(suffix): s = s[:-len(suffix)]`
unfoldable pub drop_suffix : List ℕ → List ℕ → List ℕ
unfolding drop_prefix_or_same
drop_suffix suffix s = reverse (drop_prefix_or_same (reverse s) (reverse suffix) (reverse s))

-- s.startswith(prefix)
unfoldable pub starts_with : List ℕ → List ℕ → Bool
starts_with [] s = true
starts_with (p ∷ ps) [] = false
starts_with (p ∷ ps) (c ∷ s) = nat_eq p c && starts_with ps s

-- part in s
unfoldable pub contains : List ℕ → List ℕ → Bool
contains part [] = starts_with part []
contains part (c ∷ s) = starts_with part (c ∷ s) || contains part s

-- s.split(c, 1)[1], where `c` is in `s`.
unfoldable pub behind : ℕ → List ℕ → Option (List ℕ)
behind c [] = none
behind c (d ∷ s) = let rest = behind c s in if nat_eq d c then some s else rest

-- Whether a word ends before `s`.
abbrev pub ends_word : List ℕ → Bool
ends_word [] = true
ends_word (c ∷ s) = is_space c

abbrev pub attach : ℕ → List (List ℕ) → List (List ℕ)
attach c [] = (c ∷ []) ∷ []
attach c (w ∷ ws) = (c ∷ w) ∷ ws

-- s.split()
unfoldable pub words : List ℕ → List (List ℕ)
words [] = []
words (c ∷ s) =
    let rest = words s in
    if is_space c then rest else if ends_word s then (c ∷ []) ∷ rest else attach c rest

-- separator.join(parts)
unfoldable pub join : List ℕ → List (List ℕ) → List ℕ
join separator [] = []
join separator (w ∷ []) = w
join separator (w ∷ v ∷ ws) = w ++ (separator ++ join separator (v ∷ ws))

pub chars_eq-eq : (s t : List ℕ) → chars_eq s t ≡ true → s ≡ t
unfolding chars_eq
chars_eq-eq [] [] e = refl
chars_eq-eq [] (d ∷ t) e = cc
chars_eq-eq (c ∷ s) [] e = cc
chars_eq-eq (c ∷ s) (d ∷ t) e = ground (arith, chars_eq-eq s t)

pub chars_eq_refl : (s : List ℕ) → chars_eq s s ≡ true
unfolding chars_eq
chars_eq_refl [] = refl
chars_eq_refl (c ∷ s) = ground (arith, chars_eq_refl s)

-- s.endswith(suffix)
unfoldable pub ends_with : List ℕ → List ℕ → Bool
ends_with suffix s = starts_with (reverse suffix) (reverse s)

-- s in texts
abbrev pub member : List ℕ → List (List ℕ) → Bool
member s texts = any (chars_eq s) texts

-- len(texts) == len(set(texts))
unfoldable pub distinct : List (List ℕ) → Bool
distinct [] = true
distinct (s ∷ texts) = not (member s texts) && distinct texts
