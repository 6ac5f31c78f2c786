-- ===== src/Imports/Preview/Again.antt =====
-- What a second import of the same public rows finds.
use mathlib.Core.Path.{subst}
use automated_short_drama.Prelude.{
  padded, at, ℕ, ◌≡◌, refl, ap, ◌∙◌, Bool, true, false, ◌⊎◌, inl, inr, List, [], ◌∷◌, ◌++◌, map,
  if◌then◌else◌, length, All, arith, Bool-cases,
}
use automated_short_drama.Prelude.Chars.{chars_eq, chars_eq-eq, chars_eq_refl}
use automated_short_drama.Prelude.Chars.Blank.{is_blank, blank, blank-strip}
use automated_short_drama.Errors.{ok, >>=-eq-ok}
use automated_short_drama.Imports.SourceKey.{TextLibrary, build_task_source_key, validate}
use automated_short_drama.Imports.Sheet.{
  PublicDramaRow, PrivateDramaRow, Date, ImportOperator, resolve_import_operator, mapped_cells,
}
use automated_short_drama.Imports.Preview.{
  DramaImportPreview, RowError, Gathered, skipped, duplicate, fresh, has, gather, note, keys_after,
  verdict_of, existing_keys, preview_of, build_import_preview, map_public_row, private_identity,
  keyed, identity_key, no_drama_name, no_time, no_platform,
}

abbrev Covers : List (List ℕ) → List (List ℕ) → Type 0
Covers keys more = (k : List ℕ) → has k keys ≡ true → has k more ≡ true

abbrev Covered : List (List ℕ) → Gathered → Type 0
Covered keys g = All (λ r. has r.source_key keys ≡ true) g.rows

Covers-cons :
    (key : List ℕ) (keys more : List (List ℕ))
    → Covers keys more
    → has key more ≡ true
    → Covers (key ∷ keys) more
Covers-cons key keys more c h k e = elim (Bool-cases (chars_eq key k)) [
  | inl t ↦ subst (λ j. has j more ≡ true) (chars_eq-eq key k t) h
  | inr f ↦ c k (ground arith)
]

-- One step of two runs of the loop.
again_step :
    (n : ℕ) (is_source : Bool) (m : PrivateDramaRow ⊎ RowError) (keys more : List (List ℕ))
    (rest : List (List ℕ) → Gathered)
    → Covers keys more
    → ((before : List (List ℕ))
        → Covers before more
        → Covered more (rest before)
        → (rest more).rows ≡ [])
    → let v = if is_source then verdict_of keys m else skipped in
      let w = if is_source then verdict_of more m else skipped in
      Covered more (note n v (rest (keys_after v keys)))
      → (note n w (rest (keys_after w more))).rows ≡ []
again_step n false m keys more rest c ih h = ih keys c h
again_step n true (inr e) keys more rest c ih h = ih keys c h
again_step n true (inl r) keys more rest c ih h =
    taken (has r.source_key keys) (has r.source_key more) refl refl h
  where
    taken :
        (a b : Bool)
        → has r.source_key keys ≡ a
        → has r.source_key more ≡ b
        → Covered more (
            note n
              (if a then duplicate else fresh r)
              (rest (keys_after (if a then duplicate else fresh r) keys)))
        → (note n
            (if b then duplicate else fresh r)
            (rest (keys_after (if b then duplicate else fresh r) more))).rows
          ≡ []
    taken true true e f h = ih keys c h
    taken true false e f h = let t = c r.source_key e in cc
    taken false true e f h = ih (r.source_key ∷ keys) (Covers-cons r.source_key keys more c f) h.1
    taken false false e f h = let t = h.0 in cc

module _ (lib : TextLibrary) (o : ImportOperator) (match_group : Bool) (day : Date) where
  gather-again :
      (public : List PublicDramaRow) (keys more : List (List ℕ))
      → Covers keys more
      → Covered more (gather lib o match_group day keys public)
      → (gather lib o match_group day more public).rows ≡ []
  unfolding gather
  gather-again [] keys more c h = refl
  gather-again (p ∷ ps) keys more c h =
      again_step p.row_number _ _ keys more (λ keys. gather lib o match_group day keys ps) c
        (λ before. gather-again ps before more) h

Stable : TextLibrary → PrivateDramaRow → Type 0
Stable lib r = (private_identity lib r.cells ≡ r.source_key) × (is_blank r.source_key ≡ false)

note-All :
    (P : PrivateDramaRow → Type 0) (n : ℕ) (is_source : Bool) (m : PrivateDramaRow ⊎ RowError)
    (keys : List (List ℕ)) (g : Gathered)
    → ((r : PrivateDramaRow) → m ≡ inl r → P r)
    → All P g.rows
    → All P (note n (if is_source then verdict_of keys m else skipped) g).rows
note-All P n false m keys g f h = h
note-All P n true (inr e) keys g f h = h
note-All P n true (inl r) keys g f h = elim (Bool-cases (has r.source_key keys)) [
  | inl t ↦ rw t h
  | inr e ↦ rw e (f r refl, h)
]

module _ (lib : TextLibrary) (sha256-filled : (s : List ℕ) → is_blank (lib.sha256 s) ≡ false) where
  map_public_row-Stable :
      (p : PublicDramaRow) (column : ℕ) (r : PrivateDramaRow)
      → map_public_row lib p column ≡ inl r
      → Stable lib r
  unfolding map_public_row private_identity Stable build_task_source_key validate chars_eq at
  map_public_row-Stable p column r e =
      by_blanks (blank (at [] 5 cells)) (blank (at [] 4 cells)) (blank (at [] 10 cells)) refl refl
        refl e
    where
      cells : List (List ℕ)
      cells = padded 28 [] p.cells

      of_row :
          (x : PrivateDramaRow) (m : PrivateDramaRow ⊎ RowError)
          → m ≡ inl x
          → m ≡ inl r
          → Stable lib x
          → Stable lib r
      of_row x m m_x m_r h = let p : x ≡ r = cc in subst (Stable lib) p h

      by_blanks :
          (name time platform : Bool)
          → blank (at [] 5 cells) ≡ name
          → blank (at [] 4 cells) ≡ time
          → blank (at [] 10 cells) ≡ platform
          → (if name
              then inr no_drama_name
              else if time
              then inr no_time
              else if platform
              then inr no_platform
              else keyed lib p column (mapped_cells column cells) (
                  identity_key lib
                    (at [] 5 (mapped_cells column cells))
                    (at [] 7 (mapped_cells column cells))
                    (at [] 4 (mapped_cells column cells))))
            ≡ inl r
          → Stable lib r
      by_blanks true time platform n t f e = cc
      by_blanks false true platform n t f e = cc
      by_blanks false false true n t f e = cc
      by_blanks false false false n t f e =
          of_row _ _ refl e
            (rw t (rw (blank-strip (at [] 5 cells) ∙ n) (rw f refl)), sha256-filled _)

  Covers-add :
      (cells : List (List ℕ)) (private : List (List (List ℕ)))
      → Covers (existing_keys lib private) (existing_keys lib (cells ∷ private))
  Covers-add cells private k e = ground (arith)

  Covers-insert :
      (rows : List PrivateDramaRow) (private : List (List (List ℕ)))
      → Covers (existing_keys lib private) (existing_keys lib (map (λ r. r.cells) rows ++ private))
  Covers-insert [] private k e = e
  Covers-insert (r ∷ rs) private k e =
      Covers-add r.cells (map (λ r. r.cells) rs ++ private) k (Covers-insert rs private k e)

  All-Covers :
      (keys more : List (List ℕ)) (rows : List PrivateDramaRow)
      → Covers keys more
      → All (λ r. has r.source_key keys ≡ true) rows
      → All (λ r. has r.source_key more ≡ true) rows
  All-Covers keys more [] c h = tt
  All-Covers keys more (r ∷ rs) c h = (c r.source_key h.0, All-Covers keys more rs c h.1)

  has-insert :
      (r : PrivateDramaRow) (private : List (List (List ℕ)))
      → Stable lib r
      → has r.source_key (existing_keys lib (r.cells ∷ private)) ≡ true
  unfolding Stable
  has-insert r private h = rw (h.0) (rw (h.1) (ground (arith, chars_eq_refl r.source_key)))

  inserted :
      (rows : List PrivateDramaRow) (private : List (List (List ℕ)))
      → All (Stable lib) rows
      → All
          (λ r. has r.source_key (existing_keys lib (map (λ r. r.cells) rows ++ private)) ≡ true)
          rows
  inserted [] private h = tt
  inserted (r ∷ rs) private h =
      let all = map (λ r. r.cells) rs ++ private in
      (has-insert r all h.0, All-Covers _ _ rs (Covers-add r.cells all) (inserted rs private h.1))

  module _ (o : ImportOperator) (match_group : Bool) (day : Date) where
    gather-Stable :
        (public : List PublicDramaRow) (keys : List (List ℕ))
        → All (Stable lib) (gather lib o match_group day keys public).rows
    unfolding gather
    gather-Stable [] keys = tt
    gather-Stable (p ∷ ps) keys =
        note-All (Stable lib) p.row_number _ _ keys _ (map_public_row-Stable p o.completion_column)
          (gather-Stable ps _)

module _ (lib : TextLibrary) (sha256-filled : (s : List ℕ) → is_blank (lib.sha256 s) ≡ false)
    (public : List PublicDramaRow) (private : List (List (List ℕ))) (day : Date) (name : List ℕ)
    (match_group : Bool) (preview again : DramaImportPreview) where
  second :
      (o : ImportOperator)
      → let rows = (gather lib o match_group day (existing_keys lib private) public).rows in
        (gather lib o match_group day
          (existing_keys lib (map (λ r. r.cells) rows ++ private))
          public).rows
        ≡ []
  second o =
      let keys = existing_keys lib private in
      let rows = (gather lib o match_group day keys public).rows in
      gather-again lib o match_group day public keys
        (existing_keys lib (map (λ r. r.cells) rows ++ private))
        (Covers-insert lib sha256-filled rows private)
        (inserted lib sha256-filled rows private
          (gather-Stable lib sha256-filled o match_group day public keys))

  -- Once the rows of a preview stand at the top of the private sheet, a second preview of the same
  -- public rows has no new row, provided that no text has the empty SHA-256.
  pub build_import_preview-again :
      build_import_preview lib public private day name match_group ≡ ok preview
      → build_import_preview lib public
          (map (λ r. r.cells) preview.rows ++ private)
          day
          name
          match_group
        ≡ ok again
      → again.new_count ≡ 0
  unfolding build_import_preview
  build_import_preview-again e f =
      let a = >>=-eq-ok (resolve_import_operator name) _ e in
      let b = >>=-eq-ok (resolve_import_operator name) _ f in
      let p : preview_of b.0 day (gather lib b.0 match_group day (existing_keys lib private) public)
          ≡ preview =
        of_operator a.0 b.0 (cc) (cc) in
      let q : preview_of b.0 day (
            gather lib b.0 match_group day
              (existing_keys lib (map (λ r. r.cells) preview.rows ++ private)) public)
          ≡ again =
        cc in
      subst (λ x. x.new_count ≡ 0) q
        (ap length (
          subst
            (λ x.
              (gather lib b.0 match_group day
                (existing_keys lib (map (λ r. r.cells) x.rows ++ private)) public).rows
              ≡ [])
            p (second b.0)))
    where
      of_operator :
          (o o' : ImportOperator)
          → o ≡ o'
          → preview_of o day (gather lib o match_group day (existing_keys lib private) public)
            ≡ preview
          → preview_of o' day (gather lib o' match_group day (existing_keys lib private) public)
            ≡ preview
      of_operator o o' q p =
          subst
            (λ x.
              preview_of x day (gather lib x match_group day (existing_keys lib private) public)
              ≡ preview)
            q p
