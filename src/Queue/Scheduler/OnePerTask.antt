-- ===== src/Queue/Scheduler/OnePerTask.antt =====
-- Tables that have at most one item of each task, and the writes to them.
use automated_short_drama.Prelude.{
  String, ◌≡◌, refl, ap, Bool, false, not, ◌==◌, Option, none, some, List, [], ◌∷◌, ◌++◌, inl, inr,
  arith, any, find, select, sort, least, head?, head-sort, Bool-cases, eq_iff,
}
use mathlib.Core.Path.{subst}
use automated_short_drama.Prelude.Rows.{update_where}
use automated_short_drama.Errors.{ok}
use automated_short_drama.Queue.Item.{QueueItem}
use automated_short_drama.Queue.Repository.{Queue, get, update, overwrite, has_id, newer}
use automated_short_drama.Queue.Scheduler.{is_terminal}

abbrev pub of_task : String → QueueItem → Bool
of_task id r = r.task_id == id

-- No two rows have one task.
abbrev pub UniqueTasks : Queue → Type 0
UniqueTasks [] = Unit
UniqueTasks (r ∷ rs) = (any (of_task r.task_id) rs ≡ false) × UniqueTasks rs

any-overwrite :
    (item : QueueItem) (p : QueueItem → Bool) (id : String) (rs : Queue)
    → any (of_task id) (update_where p (overwrite item) rs) ≡ any (of_task id) rs
unfolding update_where
any-overwrite item p id [] = refl
any-overwrite item p id (r ∷ rs) = elim (Bool-cases (p r)) [
  | inl e ↦ rw (e, any-overwrite item p id rs)
  | inr e ↦ rw (e, any-overwrite item p id rs)
]

pub overwrite-UniqueTasks :
    (item : QueueItem) (p : QueueItem → Bool) (rs : Queue)
    → UniqueTasks rs
    → UniqueTasks (update_where p (overwrite item) rs)
unfolding update_where
overwrite-UniqueTasks item p [] u = tt
overwrite-UniqueTasks item p (r ∷ rs) u = elim (Bool-cases (p r)) [
  | inl e ↦ (rw (e, any-overwrite item p r.task_id rs) u.0, overwrite-UniqueTasks item p rs u.1)
  | inr e ↦ (rw (e, any-overwrite item p r.task_id rs) u.0, overwrite-UniqueTasks item p rs u.1)
]

any-append :
    (id : String) (rs : Queue) (r : QueueItem)
    → any (of_task id) rs ≡ false
    → of_task id r ≡ false
    → any (of_task id) (rs ++ r ∷ []) ≡ false
any-append id [] r h n = ground arith
any-append id (s ∷ rs) r h n = ground (arith, any-append id rs r)

pub append-UniqueTasks :
    (rs : Queue) (r : QueueItem)
    → UniqueTasks rs
    → any (of_task r.task_id) rs ≡ false
    → UniqueTasks (rs ++ r ∷ [])
append-UniqueTasks [] r u n = (refl, tt)
append-UniqueTasks (s ∷ rs) r u n = (
  any-append s.task_id rs r u.0
      (ground (arith, eq_iff s.task_id r.task_id, eq_iff r.task_id s.task_id)),
  append-UniqueTasks rs r u.1 (ground arith),
)

-- Without an item in the list there is none in the table.
pub sort-empty : (xs : List QueueItem) → sort newer xs ≡ [] → xs ≡ []
unfolding least
sort-empty [] h = refl
sort-empty (x ∷ xs) h = cc (head-sort newer (x ∷ xs), ap (λ (l : List QueueItem). head? l) h)

pub select-any :
    (id : String) (rs : Queue) → select (of_task id) rs ≡ [] → any (of_task id) rs ≡ false
select-any id [] h = refl
select-any id (r ∷ rs) h = elim (Bool-cases (of_task id r)) [
  | inl e ↦ absurd (filled (rw e at h))
  | inr e ↦ rw e (select-any id rs (rw e at h))
]
  where
    filled : {xs : List QueueItem} → r ∷ xs ≡ [] → ⊥
    filled q = cc

pub no_items :
    (items : List QueueItem)
    → find (λ i. not (is_terminal i.state)) items ≡ none
    → any (λ i. is_terminal i.state) items ≡ false
    → items ≡ []
no_items [] h n = refl
no_items (i ∷ items) h n = elim (Bool-cases (is_terminal i.state)) [
  | inl e ↦ absurd (ground arith)
  | inr e ↦ absurd (ground arith)
]

pub update-table :
    (item : QueueItem) (q : Queue) (w : QueueItem × Queue)
    → update item q ≡ ok w
    → w.1 ≡ update_where (has_id item.id) (overwrite item) q
unfolding update
update-table item q w h = by_row (get item.id q) refl
  where
    by_row :
        (o : Option QueueItem)
        → get item.id q ≡ o
        → w.1 ≡ update_where (has_id item.id) (overwrite item) q
    by_row none e = ground arith
    by_row (some r) e = ground arith

-- A result that is the pair of an answer and a table.
pub returned-UniqueTasks :
    (b : Bool) (q : Queue) (w : Bool × Queue) → ok (b, q) ≡ ok w → UniqueTasks q → UniqueTasks w.1
returned-UniqueTasks b q w h u =
    let pair : (b, q) ≡ w = cc in let table : q ≡ w.1 = λ i. (pair i).1 in subst UniqueTasks table u
