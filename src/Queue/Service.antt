-- ===== src/Queue/Service.antt =====
-- The services over the queue, in backend/src/backend/application/services: queue_service.py,
-- claim_service.py, recovery_service.py and queue_cycle.py. A service gets the table and returns
-- the new one beside its result; one that raises returns no table.
use automated_short_drama.Prelude.{
  ℕ, String, Bool, not, ◌&&◌, Option, none, some, List, [], ◌∷◌, leb, ltb, nat_eq, if◌then◌else◌,
  select, take, sort, text_leb,
}
use automated_short_drama.Prelude.Int.{int_leb, int_neg, int_eq}
use automated_short_drama.Errors.{
  Result, ok, err, not_found, conflict, other_worker, bad_state, ◌>>=◌,
}
use automated_short_drama.Queue.Item.{waiting_time, queued, claimed, QueueItem, state_eq, is_text}
use automated_short_drama.Queue.Machine.{transition}
use automated_short_drama.Queue.Repository.{
  Queue, get, update, list_by_state, is_queued, claim_next, recover_expired,
}
use automated_short_drama.Queue.Repository

abbrev pub is_due : ℕ → QueueItem → Bool
is_due now item = state_eq item.state waiting_time && leb item.available_at now

-- The loop raises where a transition is refused, and then returns nothing.
unfoldable pub enqueue_when_ready : ℕ → List QueueItem → Result (List QueueItem)
enqueue_when_ready now [] = ok []
enqueue_when_ready now (item ∷ items) =
    let rest = enqueue_when_ready now items in
    if is_due now item
    then (do s ← transition item.state queued; r ← rest; ok (record item { state = s } ∷ r))
    else rest

-- The order of the keys (-priority, available_at, id), which Python compares part by part.
unfoldable pub key_leb : QueueItem → QueueItem → Bool
key_leb a b =
    if not (int_eq (int_neg a.priority) (int_neg b.priority))
    then int_leb (int_neg a.priority) (int_neg b.priority)
    else if not (nat_eq a.available_at b.available_at)
    then ltb a.available_at b.available_at
    else text_leb a.id b.id

unfoldable pub peek_next : ℕ → List QueueItem → List QueueItem
peek_next limit items = take limit (sort key_leb (select is_queued items))

unfoldable to_claimed : String → ℕ → QueueItem → Result QueueItem
to_claimed worker_id lease_until item = do
  s ← transition item.state claimed
  ok (record item { state = s; claimed_by = some worker_id; lease_until = some lease_until })

unfoldable pub claim_next_task : String → ℕ → ℕ → Queue → Option QueueItem × Queue
claim_next_task worker_id lease_seconds now q = claim_next worker_id lease_seconds now q

-- What `release_claimed` raises where the conditional update hit no row.
abbrev pub refusal : Option QueueItem → String → Result Queue
refusal none worker_id = err not_found
refusal (some item) worker_id =
    if not (is_text item.claimed_by worker_id)
    then err (conflict other_worker)
    else err (conflict bad_state)

unfoldable pub release_claimed : String → String → Queue → Result Queue
release_claimed id worker_id q =
    let (released, q') = Repository.release_claimed id worker_id q in
    if released then ok q' else refusal (get id q') worker_id

pub record RecoveryResult : Type 0 where
  pub requeued : List QueueItem
  pub manual_review : List QueueItem

unfoldable pub recover : ℕ → ℕ → Queue → RecoveryResult × Queue
recover now max_attempts q =
    let ((requeued, manual), q') = recover_expired now max_attempts q in
    (record { requeued = requeued; manual_review = manual }, q')

-- `for item in enqueued: queue_repo.update(item)`
unfoldable pub update_all : List QueueItem → Queue → Result Queue
update_all [] q = ok q
update_all (item ∷ items) q = update item q >>= λ (_, q'). update_all items q'

unfoldable pub advance_queue :
    ℕ → String → ℕ → Queue → Result ((List QueueItem × Option QueueItem) × Queue)
advance_queue now worker_id lease_seconds q = do
  enqueued ← enqueue_when_ready now (list_by_state waiting_time q)
  q' ← update_all enqueued q
  let claimed_and_rest = claim_next_task worker_id lease_seconds now q'
  ok ((enqueued, claimed_and_rest.0), claimed_and_rest.1)
