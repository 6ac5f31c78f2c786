-- ===== src/Prelude/Texts.antt =====
-- The order of texts by code points, which is the order of both Python's `str` and SQLite's BINARY
-- collation of UTF-8.
use Prim.Native.Nat.{ℕ}
use Prim.Native.Char.{code}
use Prim.Native.String.{String}
use mathlib.Core.Bool.{Bool, true, false}
use mathlib.Core.List.{List, [], ◌∷◌}
use automated_short_drama.Prelude.Tests.{ltb, nat_eq, if◌then◌else◌}

abbrev pub codes : String → List ℕ
codes String.[] = []
codes (String.◌∷◌ c s) = code c ∷ codes s

lex_leb : List ℕ → List ℕ → Bool
lex_leb [] ys = true
lex_leb (x ∷ xs) [] = false
lex_leb (x ∷ xs) (y ∷ ys) = if ltb x y then true else if nat_eq x y then lex_leb xs ys else false

unfoldable pub text_leb : String → String → Bool
unfolding lex_leb
text_leb s t = lex_leb (codes s) (codes t)
