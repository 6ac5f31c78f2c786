-- ===== src/Queue/Moving.antt =====
-- What a service may do to the row that it writes, and to the table.
use automated_short_drama.Prelude.{
  String, ◌≡◌, refl, sym, Bool, true, false, not, ◌&&◌, is_some, Option, none, some, [], ◌∷◌, ◌⊎◌,
  inl, inr, arith, ◌==◌, eq_iff, if◌then◌else◌, any, find, Bool-cases,
}
use mathlib.Core.Path.{subst}
use automated_short_drama.Prelude.Rows.{Rows, Rows-refl, update_where}
use automated_short_drama.Errors.{ok}
use automated_short_drama.Tasks.Task.{TaskStatus}
use automated_short_drama.Queue.Item.{
  QueueItem, QueueState, waiting_time, queued, paused, manual_review,
}
use automated_short_drama.Queue.Machine.{can_transition}
use automated_short_drama.Queue.Repository.{Queue, get, update, overwrite, has_id, is_active}
use automated_short_drama.Queue.Repository.Ids.{UniqueIds}
use automated_short_drama.Queue.Control.{Tables, found, save}

abbrev is_idle : QueueState → Bool
is_idle waiting_time = true
is_idle queued = true
is_idle paused = true
is_idle manual_review = true
is_idle _ = false

-- One row before and after: the same item, its state unchanged or moved along the whitelist.
pub record Moves (r s : QueueItem) : Type 0 where
  pub same_id : s.id ≡ r.id
  pub same_task : s.task_id ≡ r.task_id
  pub state : (s.state ≡ r.state) ⊎ (can_transition r.state s.state ≡ true)

pub Moves-refl : (r : QueueItem) → Moves r r
Moves-refl r = record { same_id = refl; same_task = refl; state = inl refl }

-- An item in hand has a worker and a lease, and one that waits for a worker or for a person has
-- neither.
abbrev pub claim_fits : QueueItem → Bool
claim_fits r =
    if is_active r.state
    then is_some r.claimed_by && is_some r.lease_until
    else if is_idle r.state
    then not (is_some r.claimed_by) && not (is_some r.lease_until)
    else true

-- A write to a row that is not there changes nothing.
pub update_where-absent :
    (f : QueueItem → QueueItem) (id : String) (q : Queue)
    → any (has_id id) q ≡ false
    → update_where (has_id id) f q ≡ q
unfolding update_where
update_where-absent f id [] e = refl
update_where-absent f id (r ∷ rs) e = ground (arith, update_where-absent f id rs)

module _ (R : QueueItem → QueueItem → Type 0) (R-refl : (r : QueueItem) → R r r) where
  -- The write by id changes the row that was read, and no other.
  pub write-Rows :
      (f : QueueItem → QueueItem) (id : String) (r : QueueItem) (q : Queue)
      → UniqueIds q
      → find (has_id id) q ≡ some r
      → R r (f r)
      → Rows R q (update_where (has_id id) f q)
  unfolding update_where
  write-Rows f id r [] u e h = tt
  write-Rows f id r (x ∷ xs) u e h = elim (Bool-cases (x.id == id)) [
    | inl t ↦
        let absent : any (has_id id) xs ≡ false =
          subst (λ k. any (has_id k) xs ≡ false) ((eq_iff x.id id).0 t) u.0 in
        let same_row : x ≡ r = ground arith in
        rw t (
          (
            subst (λ z. R z (f z)) (sym same_row) h,
            rw (update_where-absent f id xs absent) (Rows-refl R R-refl xs),
          ))
    | inr n ↦ rw n ((R-refl x, write-Rows f id r xs u.1 (ground arith) h))
  ]

pub get-id : (id : String) (q : Queue) (r : QueueItem) → get id q ≡ some r → r.id ≡ id
unfolding get
get-id id [] r e = cc
get-id id (x ∷ xs) r e = ground (arith, eq_iff x.id id, get-id id xs r)

pub update_lem :
    (item r : QueueItem) (q : Queue) (w : QueueItem × Queue)
    → get item.id q ≡ some r
    → update item q ≡ ok w
    → w ≡ (overwrite item r, update_where (has_id item.id) (overwrite item) q)
unfolding update
update_lem item r q w e h = ground arith

pub save-queue :
    (status : TaskStatus) (item : QueueItem) (db : Tables) (res : QueueItem × Tables)
    → save status item db ≡ ok res
    → update item db.queue ≡ ok (res.0, res.1.queue)
unfolding save
save-queue status item db res h = ground arith

-- What a service does that moves the item `id` to a state: it found the item, the whitelist has the
-- move, the item returned is in that state, and the table changed as `Moves` allows.
pub record Effect (id : String) (target : QueueState) (before after : Tables) (item : QueueItem)
    : Type 0 where
  pub row : QueueItem
  pub was_there : get id before.queue ≡ some row
  pub allowed : can_transition row.state target ≡ true
  pub reached : item.state ≡ target
  pub table : after.queue ≡ update_where (has_id id) (overwrite item) before.queue
  pub claims : claim_fits row ≡ true → claim_fits item ≡ true
  pub rows : Rows Moves before.queue after.queue
  pub unique : UniqueIds after.queue

pub found-ok : (o : Option QueueItem) (item : QueueItem) → found o ≡ ok item → o ≡ some item
found-ok none item h = cc
found-ok (some r) item h = cc
