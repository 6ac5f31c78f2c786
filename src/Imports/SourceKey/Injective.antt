-- ===== src/Imports/SourceKey/Injective.antt =====
-- What the source key of a task tells of it.
use mathlib.Core.Path.{subst}
use automated_short_drama.Prelude.{
  ◌≢◌, ◌⊎◌, Bool-cases, inl, inr, ℕ, ◌≡◌, refl, sym, ◌∙◌, Bool, true, false, List, [], ◌∷◌, ◌++◌,
  if◌then◌else◌, codes, any, All, nat_eq, arith,
}
use automated_short_drama.Prelude.Chars.{
  chars_eq, chars_eq-eq, chars_eq_refl, strip, words, join, is_space, attach, ends_word,
}
use automated_short_drama.Errors.{>>=-eq-ok, ok}
use automated_short_drama.Imports.SourceKey.{
  TextLibrary, validate, normalize, platform_alias, canonical_platform, digest,
  build_task_source_key, native, miniprogram,
}

abbrev unit_separator : ℕ
unit_separator = 0x1f

abbrev HasNone : List ℕ → Type 0
HasNone s = any (nat_eq unit_separator) s ≡ false

HasNone-append : (s t : List ℕ) → HasNone s → HasNone t → HasNone (s ++ t)
HasNone-append [] t h k = k
HasNone-append (c ∷ s) t h k = ground (arith, HasNone-append s t)

not_space : (c : ℕ) → is_space c ≡ false → nat_eq unit_separator c ≡ false
not_space c h = ground arith

attach-HasNone :
    (c : ℕ) (ws : List (List ℕ))
    → nat_eq unit_separator c ≡ false
    → All HasNone ws
    → All HasNone (attach c ws)
attach-HasNone c [] h k = (ground arith, tt)
attach-HasNone c (w ∷ ws) h k = (ground (arith, k.0), k.1)

add_word :
    (space last : Bool) (c : ℕ) (rest : List (List ℕ))
    → (space ≡ false → nat_eq unit_separator c ≡ false)
    → All HasNone rest
    → All HasNone (if space then rest else if last then (c ∷ []) ∷ rest else attach c rest)
add_word true last c rest h k = k
add_word false true c rest h k = (ground (arith, h refl), k)
add_word false false c rest h k = attach-HasNone c rest (h refl) k

words-HasNone : (s : List ℕ) → All HasNone (words s)
unfolding words
words-HasNone [] = tt
words-HasNone (c ∷ s) =
    add_word (is_space c) (ends_word s) c (words s) (not_space c) (words-HasNone s)

join-HasNone : (ws : List (List ℕ)) → All HasNone ws → HasNone (join (codes " ") ws)
unfolding join
join-HasNone [] h = refl
join-HasNone (w ∷ []) h = h.0
join-HasNone (w ∷ v ∷ ws) h =
    HasNone-append w (codes " " ++ join (codes " ") (v ∷ ws)) h.0 (join-HasNone (v ∷ ws) h.1)

normalize-HasNone : (lib : TextLibrary) (s : List ℕ) → HasNone (normalize lib s)
unfolding normalize
normalize-HasNone lib s = join-HasNone _ (words-HasNone _)

platform_alias-HasNone :
    (lib : TextLibrary) (key default : List ℕ)
    → HasNone default
    → HasNone (platform_alias lib key default)
unfolding platform_alias
platform_alias-HasNone lib key default h = ground arith

unjoin :
    (a b c d : List ℕ)
    → HasNone a
    → HasNone c
    → a ++ unit_separator ∷ b ≡ c ++ unit_separator ∷ d
    → (a ≡ c) × (b ≡ d)
unjoin [] b [] d h k e = (refl, cc)
unjoin [] b (y ∷ c) d h k e = ground arith
unjoin (x ∷ a) b [] d h k e = ground arith
unjoin (x ∷ a) b (y ∷ c) d h k e =
    let r = unjoin a b c d (ground arith) (ground arith) (cc) in (ap2 (cc) r.0, r.1)
  where
    ap2 : x ≡ y → a ≡ c → x ∷ a ≡ y ∷ c
    ap2 p q = cc

validate-HasNone :
    (value valid : List ℕ) → validate value ≡ ok valid → (valid ≡ value) × HasNone valid
unfolding validate
validate-HasNone value valid e = elim (Bool-cases (chars_eq value native)) [
  | inl t ↦ let p = chars_eq-eq value native t in known native p refl
  | inr f ↦ elim (Bool-cases (chars_eq value miniprogram)) [
    | inl t ↦ let p = chars_eq-eq value miniprogram t in known miniprogram p refl
    | inr g ↦ ground arith
  ]
]
  where
    known :
        (constant : List ℕ) → value ≡ constant → HasNone constant → (valid ≡ value) × HasNone valid
    known constant p h = let q : valid ≡ value = ground arith in (q, rw (q, p) h)

module _ (lib : TextLibrary) where
  platform-HasNone : (platform : List ℕ) → HasNone (canonical_platform lib platform)
  platform-HasNone platform = platform_alias-HasNone lib _ _ (normalize-HasNone lib platform)

  -- The text of which the key of a task is the digest.
  abbrev key_text : List ℕ → List ℕ → List ℕ → List ℕ → List ℕ
  key_text name platform time end_type =
      join (unit_separator ∷ [])
        (normalize lib name ∷ canonical_platform lib platform ∷ end_type ∷ strip time ∷ [])

  -- The key of a task that has one, with its end type.
  built :
      (name platform time end_type key : List ℕ)
      → build_task_source_key lib name platform time end_type ≡ ok key
      → HasNone end_type × (lib.sha256 (key_text name platform time end_type) ≡ key)
  unfolding build_task_source_key
  built name platform time end_type key e =
      let a = >>=-eq-ok (validate end_type) _ e in
      let h = validate-HasNone end_type a.0 a.1 in
      let of : List ℕ → List ℕ =
        λ v. digest lib (normalize lib name) (canonical_platform lib platform) v (strip time) in
      let k : of a.0 ≡ key = cc in (subst HasNone h.0 h.1, subst (λ v. of v ≡ key) h.0 k)

  module _ (name platform time end_type name' platform' time' end_type' : List ℕ) where
    -- The two tasks are one to the program.
    abbrev pub Same : Type 0
    Same =
        (normalize lib name ≡ normalize lib name')
        × (canonical_platform lib platform ≡ canonical_platform lib platform')
        × (end_type ≡ end_type')
        × (strip time ≡ strip time')

    -- Two other texts with one digest.
    abbrev pub Collision : Type 0
    Collision =
        (key_text name platform time end_type ≢ key_text name' platform' time' end_type')
        × (lib.sha256 (key_text name platform time end_type)
            ≡ lib.sha256 (key_text name' platform' time' end_type'))

    same :
        HasNone end_type
        → HasNone end_type'
        → key_text name platform time end_type ≡ key_text name' platform' time' end_type'
        → Same
    unfolding join
    same h h' j =
        let p = unjoin _ _ _ _ (normalize-HasNone lib name) (normalize-HasNone lib name') j in
        let q = unjoin _ _ _ _ (platform-HasNone platform) (platform-HasNone platform') p.1 in
        let r = unjoin _ _ _ _ h h' q.1 in (p.0, q.0, r.0, r.1)

    -- Two tasks have one source key only if their names agree when normalised, their platforms are
    -- one platform, their end types are equal and so are their times in column E less the spaces
    -- around them, or else if their two joined texts, which differ, have one SHA-256.
    pub build_task_source_key-eq :
        (key : List ℕ)
        → build_task_source_key lib name platform time end_type ≡ ok key
        → build_task_source_key lib name' platform' time' end_type' ≡ ok key
        → Same ⊎ Collision
    build_task_source_key-eq key e e' =
        let a = built name platform time end_type key e in
        let b = built name' platform' time' end_type' key e' in
        elim (Bool-cases (
          chars_eq (key_text name platform time end_type)
            (key_text name' platform' time' end_type'))) [
              | inl t ↦ inl (same a.0 b.0 (chars_eq-eq _ _ t))
              | inr f ↦ inr (
                (λ p. cc (f, p, chars_eq_refl (key_text name platform time end_type))),
                a.1 ∙ sym b.1,
              )
            ]
