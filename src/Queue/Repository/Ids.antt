-- ===== src/Queue/Repository/Ids.antt =====
-- Tables whose ids are the primary key, and rows that are found by them.
use automated_short_drama.Prelude.{
  String, ◌≡◌, refl, Bool, true, false, some, List, [], ◌∷◌, arith, ◌==◌, eq_iff, inl, inr, any,
  find, Bool-cases,
}
use automated_short_drama.Prelude.Rows.{In, update_where}
use automated_short_drama.Queue.Item.{QueueItem}

-- No two rows have one id.
abbrev pub UniqueIds : List QueueItem → Type 0
UniqueIds [] = Unit
UniqueIds (r ∷ rs) = (any (λ s. s.id == r.id) rs ≡ false) × UniqueIds rs

pub any-In :
    (id : String) (a : QueueItem) (rs : List QueueItem)
    → In a rs
    → a.id ≡ id
    → any (λ s. s.id == id) rs ≡ true
any-In id a [] i e = absurd i
any-In id a (r ∷ rs) (inl q) e = ground (arith, eq_iff r.id id, ap_id q)
  where
    ap_id : r ≡ a → r.id ≡ a.id
    ap_id p = λ i. (p i).id
any-In id a (r ∷ rs) (inr j) e = ground (arith, any-In id a rs j e)

module _ (f : QueueItem → QueueItem) (keeps : (r : QueueItem) → (f r).id ≡ r.id) where
  any-update_where :
      (p : QueueItem → Bool) (id : String) (rs : List QueueItem)
      → any (λ s. s.id == id) (update_where p f rs) ≡ any (λ s. s.id == id) rs
  unfolding update_where
  any-update_where p id [] = refl
  any-update_where p id (r ∷ rs) = elim (Bool-cases (p r)) [
    | inl e ↦ rw (e, keeps r, any-update_where p id rs)
    | inr e ↦ rw (e, any-update_where p id rs)
  ]

  pub update_where-UniqueIds :
      (p : QueueItem → Bool) (rs : List QueueItem) → UniqueIds rs → UniqueIds (update_where p f rs)
  unfolding update_where
  update_where-UniqueIds p [] u = tt
  update_where-UniqueIds p (r ∷ rs) u = elim (Bool-cases (p r)) [
    | inl e ↦ (rw (e, keeps r, any-update_where p r.id rs) u.0, update_where-UniqueIds p rs u.1)
    | inr e ↦ (rw (e, any-update_where p r.id rs) u.0, update_where-UniqueIds p rs u.1)
  ]

pub find-In :
    (id : String) (a : QueueItem) (rs : List QueueItem)
    → find (λ s. s.id == id) rs ≡ some a
    → In a rs
find-In id a [] e = cc
find-In id a (r ∷ rs) e = elim (Bool-cases (r.id == id)) [
  | inl t ↦ inl (ground arith)
  | inr n ↦ inr (find-In id a rs (ground arith))
]

pub In-find :
    (a : QueueItem) (rs : List QueueItem)
    → UniqueIds rs
    → In a rs
    → find (λ s. s.id == a.id) rs ≡ some a
In-find a [] u i = absurd i
In-find a (r ∷ rs) u (inl e) = rw e (ground (arith, eq_iff a.id a.id))
In-find a (r ∷ rs) u (inr i) =
    ground (arith, eq_iff r.id a.id, any-In r.id a rs i, In-find a rs u.1 i)
