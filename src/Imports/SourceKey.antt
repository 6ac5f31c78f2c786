-- ===== src/Imports/SourceKey.antt =====
-- backend/src/backend/domain/tasks/source_key.py and end_type.py. A text is the list of its code
-- points. What Python's Unicode tables and hashlib compute is a parameter, the record TextLibrary.
pub mod Injective
use automated_short_drama.Prelude.{
  ℕ, Bool, true, false, Option, List, [], ◌∷◌, ◌++◌, if◌then◌else◌, codes, ◌||◌,
}
use automated_short_drama.Prelude.Chars.{chars_eq, strip, words, join}
use automated_short_drama.Errors.{◌>>=◌, Result, ok, err, value_error}

pub record TextLibrary : Type 0 where
  -- unicodedata.normalize("NFKC", s)
  pub nfkc : List ℕ → List ℕ
  -- s.lower()
  pub lower : List ℕ → List ℕ
  -- s.upper()
  pub upper : List ℕ → List ℕ
  -- The value of a character that `\d` matches.
  pub decimal : ℕ → Option ℕ
  -- hashlib.sha256(s.encode("utf-8")).hexdigest()
  pub sha256 : List ℕ → List ℕ

abbrev pub native : List ℕ
native = codes "NATIVE"

abbrev pub miniprogram : List ℕ
miniprogram = codes "MINIPROGRAM"

-- EndType.validate
unfoldable pub validate : List ℕ → Result (List ℕ)
validate value =
    if chars_eq value native || chars_eq value miniprogram then ok value else err value_error

module _ (lib : TextLibrary) where
  unfoldable pub normalize : List ℕ → List ℕ
  normalize value = join (codes " ") (words (lib.lower (strip (lib.nfkc value))))

  -- _PLATFORM_ALIASES.get(key, default)
  unfoldable pub platform_alias : List ℕ → List ℕ → List ℕ
  platform_alias key default =
      if chars_eq key (codes "番茄") || chars_eq key (codes "TOMATO")
      then codes "TOMATO"
      else if chars_eq key (codes "剧变") || chars_eq key (codes "JUBIAN")
      then codes "JUBIAN"
      else default

  abbrev pub canonical_platform : List ℕ → List ℕ
  canonical_platform platform = platform_alias (lib.upper (normalize platform)) (normalize platform)

  abbrev pub digest : List ℕ → List ℕ → List ℕ → List ℕ → List ℕ
  digest name platform end_type time =
      lib.sha256 (join (0x1f ∷ []) (name ∷ platform ∷ end_type ∷ time ∷ []))

  unfoldable pub build_task_source_key : List ℕ → List ℕ → List ℕ → List ℕ → Result (List ℕ)
  build_task_source_key drama_name platform raw_time end_type = validate end_type >>= (λ valid.
      ok (digest (normalize drama_name) (canonical_platform platform) valid (strip raw_time)))
