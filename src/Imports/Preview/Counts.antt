-- ===== src/Imports/Preview/Counts.antt =====
-- The counts of an import's preview, and the keys of the rows that are new.
use mathlib.Core.Path.{subst}
use automated_short_drama.Prelude.{
  ℕ, ◌+◌, ◌≡◌, refl, Bool, true, false, ◌⊎◌, inl, inr, List, [], ◌∷◌, if◌then◌else◌, length, All,
  arith, Bool-cases,
}
use automated_short_drama.Prelude.Chars.{chars_eq}
use automated_short_drama.Errors.{ok, >>=-eq-ok}
use automated_short_drama.Imports.SourceKey.{TextLibrary}
use automated_short_drama.Imports.Sheet.{
  PublicDramaRow, PrivateDramaRow, Date, ImportOperator, resolve_import_operator,
}
use automated_short_drama.Imports.Preview.{
  DramaImportPreview, RowError, Verdict, Gathered, skipped, duplicate, invalid, fresh, has, gather,
  judge, note, keys_after, verdict_of, existing_keys, preview_of, build_import_preview,
}

-- No two rows have one key.
abbrev pub DistinctKeys : List PrivateDramaRow → Type 0
DistinctKeys [] = Unit
DistinctKeys (r ∷ rs) = All (λ s. chars_eq r.source_key s.source_key ≡ false) rs × DistinctKeys rs

abbrev pub NewKeys : List (List ℕ) → List PrivateDramaRow → Type 0
NewKeys existing rows = All (λ r. has r.source_key existing ≡ false) rows

abbrev Balanced : Gathered → Type 0
Balanced g = g.source_count ≡ length g.rows + g.duplicates + length g.errors

note-Balanced : (n : ℕ) (v : Verdict) (g : Gathered) → Balanced g → Balanced (note n v g)
note-Balanced n skipped g h = h
note-Balanced n duplicate g h = omega arith
note-Balanced n (invalid e) g h = omega arith
note-Balanced n (fresh r) g h = omega arith

split_new :
    (key : List ℕ) (existing : List (List ℕ)) (rows : List PrivateDramaRow)
    → NewKeys (key ∷ existing) rows
    → NewKeys existing rows × All (λ s. chars_eq key s.source_key ≡ false) rows
split_new key existing [] h = (tt, tt)
split_new key existing (r ∷ rs) h = ground (arith, split_new key existing rs)

abbrev Good : List (List ℕ) → Gathered → Type 0
Good existing g = NewKeys existing g.rows × DistinctKeys g.rows

fresh-Good :
    (n : ℕ) (r : PrivateDramaRow) (existing : List (List ℕ)) (g : Gathered)
    → has r.source_key existing ≡ false
    → Good (r.source_key ∷ existing) g
    → Good existing (note n (fresh r) g)
fresh-Good n r existing g f h =
    let s = split_new r.source_key existing g.rows h.0 in ((f, s.0), (s.1, h.1))

step-Good :
    (n : ℕ) (is_source : Bool) (m : PrivateDramaRow ⊎ RowError) (existing : List (List ℕ))
    (more : List (List ℕ) → Gathered)
    → ((keys : List (List ℕ)) → Good keys (more keys))
    → let v = if is_source then verdict_of existing m else skipped in
      Good existing (note n v (more (keys_after v existing)))
step-Good n false m existing more ih = ih existing
step-Good n true (inr e) existing more ih = ih existing
step-Good n true (inl r) existing more ih = elim (Bool-cases (has r.source_key existing)) [
  | inl t ↦ rw t (ih existing)
  | inr f ↦ rw f (fresh-Good n r existing (more (r.source_key ∷ existing)) f (ih _))
]

module _ (lib : TextLibrary) (o : ImportOperator) (match_group : Bool) (day : Date) where
  gather-Balanced :
      (public : List PublicDramaRow) (existing : List (List ℕ))
      → Balanced (gather lib o match_group day existing public)
  unfolding gather
  gather-Balanced [] existing = refl
  gather-Balanced (p ∷ ps) existing =
      note-Balanced p.row_number (judge lib o match_group day existing p) _ (gather-Balanced ps _)

  gather-Good :
      (public : List PublicDramaRow) (existing : List (List ℕ))
      → Good existing (gather lib o match_group day existing public)
  unfolding gather
  gather-Good [] existing = (tt, tt)
  gather-Good (p ∷ ps) existing =
      step-Good p.row_number _ _ existing (λ keys. gather lib o match_group day keys ps)
        (λ keys. gather-Good ps keys)

module _ (lib : TextLibrary) (public : List PublicDramaRow) (private : List (List (List ℕ)))
    (day : Date) (name : List ℕ) (match_group : Bool) (preview : DramaImportPreview) where
  -- In a preview that was built, every row of the day and operator is counted once: as new, as a
  -- duplicate or as invalid.
  build_import_preview-counts :
      build_import_preview lib public private day name match_group ≡ ok preview
      → preview.source_count ≡ preview.new_count + preview.duplicate_count + preview.invalid_count
  unfolding build_import_preview
  build_import_preview-counts e =
      let b = >>=-eq-ok (resolve_import_operator name) _ e in
      let p : preview_of b.0 day (gather lib b.0 match_group day (existing_keys lib private) public)
          ≡ preview =
        cc in
      subst (λ q. q.source_count ≡ q.new_count + q.duplicate_count + q.invalid_count) p
        (gather-Balanced lib b.0 match_group day public (existing_keys lib private))

  -- The rows of a preview that was built have keys that no row of the private sheet has, and no
  -- two of them have one key.
  pub build_import_preview-NewKeys :
      build_import_preview lib public private day name match_group ≡ ok preview
      → NewKeys (existing_keys lib private) preview.rows × DistinctKeys preview.rows
  unfolding build_import_preview
  build_import_preview-NewKeys e =
      let b = >>=-eq-ok (resolve_import_operator name) _ e in
      let p : preview_of b.0 day (gather lib b.0 match_group day (existing_keys lib private) public)
          ≡ preview =
        cc in
      subst (λ q. NewKeys (existing_keys lib private) q.rows × DistinctKeys q.rows) p
        (gather-Good lib b.0 match_group day public (existing_keys lib private))
