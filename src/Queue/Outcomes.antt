-- ===== src/Queue/Outcomes.antt =====
-- Who may do what to an item, and with which answer.
use automated_short_drama.Prelude.{
  String, ◌≡◌, ◌≢◌, refl, Bool, true, false, not, ◌&&◌, Option, none, some, [], ◌∷◌, inl, inr,
  arith, ◌==◌, eq_iff, if◌then◌else◌, any, Bool-cases,
}
use mathlib.Core.Path.{subst}
use automated_short_drama.Prelude.Rows.{update_where}
use automated_short_drama.Errors.{Result, ok, err, not_found, conflict, other_worker, bad_state}
use automated_short_drama.Queue.Item.{QueueItem, is_text}
use automated_short_drama.Queue.Repository.{
  Queue, get, update, overwrite, has_id, is_active, is_releasable, requeue,
}
use automated_short_drama.Queue.Repository
use automated_short_drama.Queue.Repository.Ids.{UniqueIds}
use automated_short_drama.Queue.Service.{release_claimed}
use automated_short_drama.Queue.Control.{
  Tables, pause, cancel, retry, review, pause_task, cancel_task, retry_task, mark_manual_review,
}
use automated_short_drama.Queue.Moving.{update_where-absent}

-- The release as its documentation puts it: by the item's presence, its worker and its state.
abbrev pub release_item : String → String → Queue → Option QueueItem → Result Queue
release_item id worker_id q none = err not_found
release_item id worker_id q (some r) =
    if not (is_text r.claimed_by worker_id)
    then err (conflict other_worker)
    else if not (is_active r.state)
    then err (conflict bad_state)
    else ok (update_where (has_id id) requeue q)

abbrev holds : String → Option QueueItem → Bool
holds w none = false
holds w (some r) = is_text r.claimed_by w && is_active r.state

absent :
    (id : String) (r : QueueItem) (rs : Queue)
    → UniqueIds (r ∷ rs)
    → r.id ≡ id
    → any (has_id id) rs ≡ false
absent id r rs u e = subst (λ k. any (has_id k) rs ≡ false) e u.0

releasable-absent :
    (id w : String) (q : Queue)
    → any (has_id id) q ≡ false
    → (any (is_releasable id w) q ≡ false)
      × (update_where (is_releasable id w) requeue q ≡ update_where (has_id id) requeue q)
unfolding update_where
releasable-absent id w [] e = (refl, refl)
releasable-absent id w (r ∷ rs) e = ground (arith, releasable-absent id w rs)

-- With unique ids the conditional update asks only the row of the id, and hits it alone.
releasable_row :
    (id w : String) (q : Queue)
    → UniqueIds q
    → (any (is_releasable id w) q ≡ holds w (get id q))
      × (holds w (get id q) ≡ true
          → update_where (is_releasable id w) requeue q ≡ update_where (has_id id) requeue q)
      × (holds w (get id q) ≡ false → update_where (is_releasable id w) requeue q ≡ q)
unfolding get update_where
releasable_row id w [] u = (refl, (λ e. refl), λ e. refl)
releasable_row id w (r ∷ rs) u = elim (Bool-cases (r.id == id)) [
  | inl t ↦
      let gone = absent id r rs u ((eq_iff r.id id).0 t) in
      let none_left = releasable-absent id w rs gone in
      let same = update_where-absent requeue id rs gone in rw t (ground arith)
  | inr n ↦ rw n (ground (arith, releasable_row id w rs u.1))
]

release-cases :
    (id w : String) (q : Queue) (o : Option QueueItem)
    → get id q ≡ o
    → UniqueIds q
    → release_claimed id w q ≡ release_item id w q o
unfolding release_claimed Repository.release_claimed
release-cases id w q none e u = ground (arith, releasable_row id w q u)
release-cases id w q (some r) e u = ground (arith, releasable_row id w q u)

-- On a table whose ids are unique a release answers by the item alone: not found without one, a
-- conflict where another worker or nobody holds it, another conflict where its state allows no
-- release, and else the table with exactly that item back in the queue.
pub release_claimed-release_item :
    (id w : String) (q : Queue)
    → UniqueIds q
    → release_claimed id w q ≡ release_item id w q (get id q)
release_claimed-release_item id w q u = release-cases id w q (get id q) refl u

-- No worker but the holder can pause, cancel or hand over an item in hand: each answers with the
-- conflict of the worker, and so writes nothing.
other_worker_refused :
    (id w : String) (db : Tables) (r : QueueItem)
    → get id db.queue ≡ some r
    → is_active r.state ≡ true
    → is_text r.claimed_by w ≡ false
    → (pause_task id w db ≡ err (conflict other_worker))
      × (cancel_task id w db ≡ err (conflict other_worker))
      × (mark_manual_review id w db ≡ err (conflict other_worker))
unfolding pause_task cancel_task mark_manual_review pause cancel review
other_worker_refused id w db r e a n = ground arith

-- An item whose submission has an uncertain result is never retried until it is marked safe.
retry_task-uncertain :
    (id : String) (db : Tables) (r : QueueItem)
    → get id db.queue ≡ some r
    → is_text r.failure_code "RESULT_UNCERTAIN" ≡ true
    → r.retry_safe ≡ false
    → (res : QueueItem × Tables) → retry_task id db ≢ ok res
unfolding retry_task retry
retry_task-uncertain id db r e f n res h = ground arith
