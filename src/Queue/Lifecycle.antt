-- ===== src/Queue/Lifecycle.antt =====
-- What the services of Control do to the rows of the queue.
use automated_short_drama.Prelude.{String, ◌≡◌, refl, sym, ◌∙◌, true, false, none, some, inr, arith}
use mathlib.Core.Path.{subst}
use automated_short_drama.Prelude.Rows.{update_where}
use automated_short_drama.Errors.{Result, ok, ◌>>=◌, >>=-eq-ok}
use automated_short_drama.Tasks.Task.{TaskStatus}
use automated_short_drama.Queue.Item.{
  QueueItem, QueueState, queued, paused, cancelled, manual_review,
}
use automated_short_drama.Queue.Machine.{can_transition, transition}
use automated_short_drama.Queue.Repository.{get, overwrite, has_id}
use automated_short_drama.Queue.Repository.Ids.{UniqueIds, update_where-UniqueIds}
use automated_short_drama.Queue.Control.{
  Tables, get_item, clear_claim, save, pause, resume, cancel, retry, review, pause_task,
  resume_task, cancel_task, retry_task, mark_manual_review,
}
use automated_short_drama.Queue.Moving.{
  Moves, Moves-refl, claim_fits, write-Rows, get-id, update_lem, save-queue, Effect, found-ok,
}

-- The row that a retry writes.
abbrev fresh : QueueItem → QueueItem
fresh r = record (clear_claim (record r { state = queued; attempt_count = 0 })) {
  failure_code = none;
  retry_safe = false;
}

module _ (id : String) (target : QueueState) (status : TaskStatus) (f : QueueItem → QueueItem)
    (keeps : (r : QueueItem) → (f r).id ≡ r.id) (sets : (r : QueueItem) → (f r).state ≡ target)
    (db : Tables) (u : UniqueIds db.queue) where
  save-Effect :
      (item : QueueItem) (res : QueueItem × Tables)
      → get id db.queue ≡ some item
      → can_transition item.state target ≡ true
      → save status (f item) db ≡ ok res
      → (claim_fits item ≡ true → claim_fits (f item) ≡ true)
      → Effect id target db res.1 res.0
  save-Effect item res there allowed h fits =
      let same : (f item).id ≡ id = keeps item ∙ get-id id db.queue item there in
      let w =
        update_lem (f item) item db.queue (res.0, res.1.queue)
          (subst (λ k. get k db.queue ≡ some item) (sym same) there)
          (save-queue status (f item) db res h) in
      let got : res.0 ≡ overwrite (f item) item = λ i. (w i).0 in
      let written : res.1.queue ≡ update_where (has_id (f item).id) (overwrite (f item)) db.queue =
        λ i. (w i).1 in
      let move : Moves item (overwrite (f item) item) = record {
        same_id = refl;
        same_task = refl;
        state = inr (subst (λ t. can_transition item.state t ≡ true) (sym (sets item)) allowed);
      } in
      record {
        row = item;
        was_there = there;
        allowed = allowed;
        reached = (λ i. (w i).0.state) ∙ sets item;
        table =
            subst (λ k. res.1.queue ≡ update_where (has_id k) (overwrite res.0) db.queue) same
              (subst (λ x. res.1.queue ≡ update_where (has_id (f item).id) (overwrite x) db.queue)
                (sym got) written);
        claims = λ c. subst (λ x. claim_fits x ≡ true) (sym got) (fits c);
        rows = rw written (
            write-Rows Moves Moves-refl (overwrite (f item)) (f item).id item db.queue u
              (unfold get in subst (λ k. get k db.queue ≡ some item) (sym same) there) move);
        unique = rw written (
            update_where-UniqueIds (overwrite (f item)) (λ r. refl) (has_id (f item).id) db.queue
              u);
      }

  service-Effect :
      (body : QueueItem → Result (QueueItem × Tables)) (res : QueueItem × Tables)
      → ((item : QueueItem)
          → body item ≡ ok res
          → (can_transition item.state target ≡ true)
            × (save status (f item) db ≡ ok res)
            × (claim_fits item ≡ true → claim_fits (f item) ≡ true))
      → (get_item id db >>= body) ≡ ok res
      → Effect id target db res.1 res.0
  service-Effect body res inv h =
      let read = >>=-eq-ok (get_item id db) body h in
      let saved = inv read.0 read.2 in
      save-Effect read.0 res (found-ok (get id db.queue) read.0 read.1) saved.0 saved.1 saved.2

module _ (db : Tables) (item : QueueItem) (res : QueueItem × Tables) where
  pause-save :
      (w : String)
      → pause w db item ≡ ok res
      → (can_transition item.state paused ≡ true)
        × (save TaskStatus.running (clear_claim (record item { state = paused })) db ≡ ok res)
        × (claim_fits item ≡ true
            → claim_fits (clear_claim (record item { state = paused })) ≡ true)
  unfolding pause transition
  pause-save w h = ground arith

  resume-save :
      resume db item ≡ ok res
      → (can_transition item.state queued ≡ true)
        × (save TaskStatus.ready (record item { state = queued }) db ≡ ok res)
        × (claim_fits item ≡ true → claim_fits (record item { state = queued }) ≡ true)
  unfolding resume transition
  resume-save h = ground arith

  cancel-save :
      (w : String)
      → cancel w db item ≡ ok res
      → (can_transition item.state cancelled ≡ true)
        × (save TaskStatus.cancelled (clear_claim (record item { state = cancelled })) db ≡ ok res)
        × (claim_fits item ≡ true
            → claim_fits (clear_claim (record item { state = cancelled })) ≡ true)
  unfolding cancel transition
  cancel-save w h = ground arith

  retry-save :
      retry db item ≡ ok res
      → (can_transition item.state queued ≡ true)
        × (save TaskStatus.ready (fresh item) db ≡ ok res)
        × (claim_fits item ≡ true → claim_fits (fresh item) ≡ true)
  unfolding retry transition
  retry-save h = ground arith

  review-save :
      (w : String)
      → review w db item ≡ ok res
      → (can_transition item.state manual_review ≡ true)
        × (save TaskStatus.manual_review (clear_claim (record item { state = manual_review })) db
            ≡ ok res)
        × (claim_fits item ≡ true
            → claim_fits (clear_claim (record item { state = manual_review })) ≡ true)
  unfolding review transition
  review-save w h = ground arith

module _ (id w : String) (db : Tables) (u : UniqueIds db.queue) (res : QueueItem × Tables) where
  pub pause_task-Effect : pause_task id w db ≡ ok res → Effect id paused db res.1 res.0
  unfolding pause_task
  pause_task-Effect =
      service-Effect id paused TaskStatus.running (λ r. clear_claim (record r { state = paused }))
        (λ r. refl) (λ r. refl) db u (pause w db) res (λ item. pause-save db item res w)

  pub cancel_task-Effect : cancel_task id w db ≡ ok res → Effect id cancelled db res.1 res.0
  unfolding cancel_task
  cancel_task-Effect =
      service-Effect id cancelled TaskStatus.cancelled
        (λ r. clear_claim (record r { state = cancelled })) (λ r. refl) (λ r. refl) db u
        (cancel w db) res (λ item. cancel-save db item res w)

  pub mark_manual_review-Effect :
      mark_manual_review id w db ≡ ok res → Effect id manual_review db res.1 res.0
  unfolding mark_manual_review
  mark_manual_review-Effect =
      service-Effect id manual_review TaskStatus.manual_review
        (λ r. clear_claim (record r { state = manual_review })) (λ r. refl) (λ r. refl) db u
        (review w db) res (λ item. review-save db item res w)

module _ (id : String) (db : Tables) (u : UniqueIds db.queue) (res : QueueItem × Tables) where
  pub resume_task-Effect : resume_task id db ≡ ok res → Effect id queued db res.1 res.0
  unfolding resume_task
  resume_task-Effect =
      service-Effect id queued TaskStatus.ready (λ r. record r { state = queued }) (λ r. refl)
        (λ r. refl) db u (resume db) res (λ item. resume-save db item res)

  pub retry_task-Effect : retry_task id db ≡ ok res → Effect id queued db res.1 res.0
  unfolding retry_task
  retry_task-Effect =
      service-Effect id queued TaskStatus.ready fresh (λ r. refl) (λ r. refl) db u (retry db) res
        (λ item. retry-save db item res)
