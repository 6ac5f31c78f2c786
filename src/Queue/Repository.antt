-- ===== src/Queue/Repository.antt =====
-- backend/src/backend/infrastructure/database/repositories/queue_repository.py. The table is the
-- list of its rows in the order of insertion; a statement of SQL is a function on it.
pub mod Ids
use automated_short_drama.Prelude.{
  ℕ, ◌+◌, String, ◌==◌, Bool, true, false, not, ◌&&◌, ◌||◌, Option, none, some, List, [], ◌∷◌, ◌++◌,
  map, leb, ltb, nat_eq, if◌then◌else◌, select, any, find, least, sort, text_leb,
}
use automated_short_drama.Prelude.Int.{int_leb}
use automated_short_drama.Prelude.Rows.{update_where}
use automated_short_drama.Errors.{Result, ok, err, value_error, integrity}
use automated_short_drama.Queue.Item.{
  QueueState, queued, claimed, running, manual_review, QueueItem, state_eq, is_text, is_before,
  seconds,
}

abbrev pub Queue : Type 0
Queue = List QueueItem

abbrev pub has_id : String → QueueItem → Bool
has_id id r = r.id == id

-- INSERT; the primary key refuses a second row with the id.
unfoldable pub add : ℕ → QueueItem → Queue → Result (QueueItem × Queue)
add now item q =
    let row = record item { created_at = now } in
    if any (has_id item.id) q then err integrity else ok (row, q ++ row ∷ [])

unfoldable pub get : String → Queue → Option QueueItem
get id q = find (has_id id) q

-- The fields that `update` copies: all but the keys and the time of creation.
abbrev pub overwrite : QueueItem → QueueItem → QueueItem
overwrite item r = record item { id = r.id; task_id = r.task_id; created_at = r.created_at }

unfoldable pub update : QueueItem → Queue → Result (QueueItem × Queue)
unfolding get
update item q = elim (get item.id q) [
  | none ↦ err value_error
  | some r ↦ ok (overwrite item r, update_where (has_id item.id) (overwrite item) q)
]

unfoldable pub list_by_state : QueueState → Queue → List QueueItem
list_by_state s q = select (λ r. state_eq r.state s) q

-- ORDER BY created_at DESC, id DESC
abbrev pub newer : QueueItem → QueueItem → Bool
newer a b =
    ltb b.created_at a.created_at || (nat_eq a.created_at b.created_at && text_leb b.id a.id)

unfoldable list_all : Queue → List QueueItem
list_all q = sort newer q

unfoldable pub list_by_task : String → Queue → List QueueItem
list_by_task task_id q = sort newer (select (λ r. r.task_id == task_id) q)

-- ORDER BY priority DESC, available_at ASC, id ASC
unfoldable pub is_ahead : QueueItem → QueueItem → Bool
is_ahead a b =
    not (int_leb a.priority b.priority)
    || (int_leb b.priority a.priority
        && (ltb a.available_at b.available_at
            || (nat_eq a.available_at b.available_at && text_leb a.id b.id)))

abbrev pub is_queued : QueueItem → Bool
is_queued r = state_eq r.state queued

abbrev pub claim : String → ℕ → QueueItem → QueueItem
claim worker_id lease_until r = record r {
  state = claimed;
  claimed_by = some worker_id;
  lease_until = some lease_until;
}

-- The UPDATE hits no row where the subquery is empty; the second SELECT reads the row again.
abbrev pub claim_candidate : String → ℕ → Queue → Option QueueItem → Option QueueItem × Queue
claim_candidate worker_id lease_until q none = (none, q)
claim_candidate worker_id lease_until q (some c) =
    let q' = update_where (has_id c.id) (claim worker_id lease_until) q in
    (find (has_id c.id) q', q')

unfoldable pub claim_next : String → ℕ → ℕ → Queue → Option QueueItem × Queue
claim_next worker_id lease_seconds now q =
    claim_candidate worker_id (now + seconds lease_seconds) q (least is_ahead (select is_queued q))

abbrev pub is_active : QueueState → Bool
is_active claimed = true
is_active running = true
is_active _ = false

abbrev pub is_expired : ℕ → QueueItem → Bool
is_expired now r = is_active r.state && is_before r.lease_until now

unfoldable pub find_expired : ℕ → Queue → List QueueItem
find_expired now q = select (is_expired now) q

abbrev pub is_releasable : String → String → QueueItem → Bool
is_releasable item_id worker_id r =
    has_id item_id r && (is_text r.claimed_by worker_id && is_active r.state)

abbrev pub requeue : QueueItem → QueueItem
requeue r = record r { state = queued; claimed_by = none; lease_until = none }

unfoldable pub release_claimed : String → String → Queue → Bool × Queue
release_claimed item_id worker_id q = (
  any (is_releasable item_id worker_id) q,
  update_where (is_releasable item_id worker_id) requeue q,
)

-- The two statements of `recover_expired`: their tests and the rows that they write.
abbrev pub may_retry : ℕ → ℕ → QueueItem → Bool
may_retry now max_attempts r = is_expired now r && leb (r.attempt_count + 1) max_attempts

abbrev pub is_exhausted : ℕ → ℕ → QueueItem → Bool
is_exhausted now max_attempts r = is_expired now r && ltb max_attempts (r.attempt_count + 1)

abbrev pub give_back : QueueState → QueueItem → QueueItem
give_back s r = record r {
  state = s;
  attempt_count = r.attempt_count + 1;
  claimed_by = none;
  lease_until = none;
}

unfoldable pub requeue_expired : ℕ → ℕ → Queue → Queue
requeue_expired now max_attempts q = update_where (may_retry now max_attempts) (give_back queued) q

unfoldable pub review_expired : ℕ → ℕ → Queue → Queue
review_expired now max_attempts q =
    update_where (is_exhausted now max_attempts) (give_back manual_review) q

-- RETURNING id
abbrev pub ids : List QueueItem → List String
ids rows = map (λ r. r.id) rows

-- `[by_id[i] for i in ids]`
unfoldable pub rows_of : List String → Queue → List QueueItem
rows_of [] q = []
rows_of (i ∷ is) q = elim (find (has_id i) q) [ none ↦ rows_of is q | some r ↦ r ∷ rows_of is q ]

unfoldable pub recover_expired : ℕ → ℕ → Queue → (List QueueItem × List QueueItem) × Queue
unfolding requeue_expired review_expired rows_of
recover_expired now max_attempts q =
    let q1 = requeue_expired now max_attempts q in
    let q2 = review_expired now max_attempts q1 in
    let requeued_ids = ids (select (may_retry now max_attempts) q) in
    let manual_ids = ids (select (is_exhausted now max_attempts) q1) in
    ((rows_of requeued_ids q2, rows_of manual_ids q2), q2)
