-- ===== src/Queue/Advancing.antt =====
-- What the cycle of the queue does to the due items.
use automated_short_drama.Prelude.{
  ℕ, String, ◌≡◌, refl, sym, ap, ◌∙◌, true, false, some, List, [], ◌∷◌, ◌++◌, map, inl, inr, arith,
  eq_iff, any, find, select, Bool-cases,
}
use mathlib.Core.List.{append_assoc}
use mathlib.Core.Path.{subst}
use automated_short_drama.Prelude.Rows.{update_where}
use automated_short_drama.Errors.{Result, ok, ◌>>=◌}
use automated_short_drama.Queue.Item.{QueueItem, queued, waiting_time}
use automated_short_drama.Queue.Machine.{transition, can_transition}
use automated_short_drama.Queue.Repository.{
  Queue, get, update, overwrite, has_id, list_by_state, claim_next,
}
use automated_short_drama.Queue.Repository.Ids.{UniqueIds, update_where-UniqueIds}
use automated_short_drama.Queue.Moving.{update_where-absent}
use automated_short_drama.Queue.Service.{
  is_due, enqueue_when_ready, update_all, claim_next_task, advance_queue,
}

-- A due item is queued.
abbrev pub enqueued : QueueItem → QueueItem
enqueued r = record r { state = queued }

due_transition :
    (now : ℕ) (r : QueueItem) → is_due now r ≡ true → transition r.state queued ≡ ok queued
unfolding transition can_transition
due_transition now r e = ground arith

enqueue_lem :
    (now : ℕ) (items : List QueueItem)
    → enqueue_when_ready now items ≡ ok (map enqueued (select (is_due now) items))
unfolding enqueue_when_ready
enqueue_lem now [] = refl
enqueue_lem now (r ∷ rs) = elim (Bool-cases (is_due now r)) [
  | inl e ↦ rw (e, due_transition now r e, enqueue_lem now rs) refl
  | inr e ↦ rw e (enqueue_lem now rs)
]

select-due :
    (now : ℕ) (q : Queue)
    → select (is_due now) (list_by_state waiting_time q) ≡ select (is_due now) q
unfolding list_by_state
select-due now [] = refl
select-due now (r ∷ rs) = ground (arith, select-due now rs)

any-behind :
    (id : String) (front : Queue) (r : QueueItem) (rs : Queue)
    → any (has_id id) (front ++ r ∷ rs) ≡ false
    → any (has_id id) (r ∷ rs) ≡ false
any-behind id [] r rs h = h
any-behind id (x ∷ front) r rs h = any-behind id front r rs (ground arith)

alone :
    (front : Queue) (r : QueueItem) (rs : Queue)
    → UniqueIds (front ++ r ∷ rs)
    → (any (has_id r.id) front ≡ false) × (any (has_id r.id) rs ≡ false)
alone [] r rs u = (refl, u.0)
alone (x ∷ front) r rs u = ground (
  arith,
  alone front r rs u.1,
  any-behind x.id front r rs u.0,
  eq_iff r.id x.id,
  eq_iff x.id r.id,
)

-- The write of the item of a row changes that row alone.
write_row :
    (f : QueueItem → QueueItem) (front : Queue) (r : QueueItem) (rs : Queue)
    → any (has_id r.id) front ≡ false
    → any (has_id r.id) rs ≡ false
    → (update_where (has_id r.id) f (front ++ r ∷ rs) ≡ front ++ f r ∷ rs)
      × (find (has_id r.id) (front ++ r ∷ rs) ≡ some r)
unfolding update_where
write_row f [] r rs a b = ground (arith, eq_iff r.id r.id, update_where-absent f r.id rs)
write_row f (x ∷ front) r rs a b = ground (arith, write_row f front r rs)

update_row :
    (front : Queue) (r : QueueItem) (rs : Queue)
    → UniqueIds (front ++ r ∷ rs)
    → update (enqueued r) (front ++ r ∷ rs) ≡ ok (enqueued r, front ++ enqueued r ∷ rs)
unfolding update get
update_row front r rs u =
    let a = alone front r rs u in
    let w = write_row (overwrite (enqueued r)) front r rs a.0 a.1 in ground (arith, w.0, w.1)

-- The row behind `front` is settled, and becomes a part of it.
step_over :
    (items : List QueueItem) (front : Queue) (r : QueueItem) (rs rs' : Queue)
    → update_all items ((front ++ r ∷ []) ++ rs) ≡ ok ((front ++ r ∷ []) ++ rs')
    → update_all items (front ++ r ∷ rs) ≡ ok (front ++ r ∷ rs')
step_over items front r rs rs' h =
    ap (λ l. update_all items l) (sym (append_assoc front (r ∷ []) rs))
    ∙ h
    ∙ ap (λ (l : Queue). ok l) (append_assoc front (r ∷ []) rs')

enqueued-UniqueIds :
    (front : Queue) (r : QueueItem) (rs : Queue)
    → UniqueIds (front ++ r ∷ rs)
    → UniqueIds ((front ++ enqueued r ∷ []) ++ rs)
enqueued-UniqueIds front r rs u =
    let a = alone front r rs u in
    subst UniqueIds
      ((write_row enqueued front r rs a.0 a.1).0 ∙ sym (append_assoc front (enqueued r ∷ []) rs))
      (update_where-UniqueIds enqueued (λ s. refl) (has_id r.id) (front ++ r ∷ rs) u)

update_all_lem :
    (now : ℕ) (front rs : Queue)
    → UniqueIds (front ++ rs)
    → update_all (map enqueued (select (is_due now) rs)) (front ++ rs)
      ≡ ok (front ++ update_where (is_due now) enqueued rs)
unfolding update_all update_where
update_all_lem now front [] u = refl
update_all_lem now front (r ∷ rs) u = elim (Bool-cases (is_due now r)) [
  | inl e ↦
      rw (e, update_row front r rs u)
        (step_over (map enqueued (select (is_due now) rs)) front (enqueued r) rs
          (update_where (is_due now) enqueued rs)
          (update_all_lem now (front ++ enqueued r ∷ []) rs (enqueued-UniqueIds front r rs u)))
  | inr e ↦ rw e (
      step_over (map enqueued (select (is_due now) rs)) front r rs
        (update_where (is_due now) enqueued rs)
        (update_all_lem now (front ++ r ∷ []) rs
          (subst UniqueIds (sym (append_assoc front (r ∷ []) rs)) u)))
]

-- The first half of the cycle: the due items are queued and written.
abbrev pub queue_due : ℕ → Queue → Result Queue
queue_due now q =
    enqueue_when_ready now (list_by_state waiting_time q) >>= λ items. update_all items q

pub queue_due_lem :
    (now : ℕ) (q : Queue)
    → UniqueIds q
    → queue_due now q ≡ ok (update_where (is_due now) enqueued q)
queue_due_lem now q u =
    rw (enqueue_lem now (list_by_state waiting_time q), select-due now q)
      (update_all_lem now [] q u)

-- On a table whose ids are unique the cycle never raises: it queues exactly the waiting items that
-- are due, in one pass, returns them, and claims from the table that this leaves.
pub advance_queue-one_pass :
    (now : ℕ) (w : String) (lease_seconds : ℕ) (q : Queue)
    → UniqueIds q
    → let q' = update_where (is_due now) enqueued q in
      let c = claim_next w lease_seconds now q' in
      advance_queue now w lease_seconds q ≡ ok ((map enqueued (select (is_due now) q), c.0), c.1)
unfolding advance_queue claim_next_task
advance_queue-one_pass now w lease_seconds q u =
    rw (enqueue_lem now (list_by_state waiting_time q), select-due now q, update_all_lem now [] q u)
      refl
