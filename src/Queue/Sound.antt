-- ===== src/Queue/Sound.antt =====
-- What each operation on the queue may do to the rows of the table.
use automated_short_drama.Queue.Service.{is_due}
use automated_short_drama.Queue.Advancing.{enqueued}
use automated_short_drama.Queue.Completion.{Session, LedgerFields, complete_task}
use automated_short_drama.Queue.Completion.Once.{done, complete_task-queue}
use automated_short_drama.Prelude.{
  ℕ, String, ◌≡◌, refl, sym, ◌⊎◌, inl, Bool, true, Option, none, some, [], ◌∷◌, map, inr, arith,
  All, select, least,
}
use mathlib.Core.Path.{subst}
use automated_short_drama.Prelude.Rows.{
  Rows, Rows-refl, update_where, update_where-Rows, update_where-All, In-select, least-In,
}
use automated_short_drama.Queue.Item.{QueueItem}
use automated_short_drama.Queue.Machine.{can_transition}
use automated_short_drama.Queue.Repository.{
  Queue, get, overwrite, has_id, is_queued, is_ahead, claim, claim_candidate, requeue,
  release_claimed, is_releasable, is_active, is_expired, recover_expired,
}
use automated_short_drama.Queue.Repository.Ids.{UniqueIds, update_where-UniqueIds, find-In, In-find}
use automated_short_drama.Queue.Recovery.{recovered, recovered-id, recover_expired-one_pass}
use automated_short_drama.Queue.Moving.{Moves, Moves-refl, claim_fits, write-Rows}

-- What one operation does to the table: the rows move, the ids stay unique and the claims fitting.
pub record IsSound (before after : Queue) : Type 0 where
  pub rows : Rows Moves before after
  pub unique : UniqueIds after
  pub fitting : All (λ r. claim_fits r ≡ true) before → All (λ r. claim_fits r ≡ true) after

pub same-IsSound : (q : Queue) → UniqueIds q → IsSound q q
same-IsSound q u = record { rows = Rows-refl Moves Moves-refl q; unique = u; fitting = λ h. h }

update_where-IsSound :
    (p : QueueItem → Bool) (f : QueueItem → QueueItem) (q : Queue)
    → UniqueIds q
    → ((r : QueueItem) → (f r).id ≡ r.id)
    → ((r : QueueItem) → p r ≡ true → Moves r (f r))
    → ((r : QueueItem) → p r ≡ true → claim_fits (f r) ≡ true)
    → IsSound q (update_where p f q)
update_where-IsSound p f q u keeps moves fits = record {
  rows = update_where-Rows Moves p f Moves-refl moves q;
  unique = update_where-UniqueIds f keeps p q u;
  fitting = update_where-All (λ r. claim_fits r ≡ true) p f (λ r e _. fits r e) q;
}

queued-Moves :
    (w : String) (until : ℕ) (r : QueueItem) → is_queued r ≡ true → Moves r (claim w until r)
unfolding can_transition
queued-Moves w until r e = record { same_id = refl; same_task = refl; state = inr (ground arith) }

releasable-Moves :
    (id w : String) (r : QueueItem) → is_releasable id w r ≡ true → Moves r (requeue r)
unfolding can_transition
releasable-Moves id w r e = record { same_id = refl; same_task = refl; state = inr (ground arith) }

pub candidate-IsSound :
    (w : String) (until : ℕ) (q : Queue) (o : Option QueueItem)
    → UniqueIds q
    → least is_ahead (select is_queued q) ≡ o
    → IsSound q (claim_candidate w until q o).1
candidate-IsSound w until q none u e = same-IsSound q u
candidate-IsSound w until q (some c) u e =
    let there = In-select is_queued c q (least-In is_ahead c (select is_queued q) e) in
    record {
      rows =
          write-Rows Moves Moves-refl (claim w until) c.id c q u (In-find c q u there.0)
            (queued-Moves w until c there.1);
      unique = update_where-UniqueIds (claim w until) (λ r. refl) (has_id c.id) q u;
      fitting =
          update_where-All (λ r. claim_fits r ≡ true) (has_id c.id) (claim w until) (λ r t h. refl)
            q;
    }

pub release-IsSound :
    (id w : String) (q : Queue) → UniqueIds q → IsSound q (release_claimed id w q).1
unfolding release_claimed
release-IsSound id w q u =
    update_where-IsSound (is_releasable id w) requeue q u (λ r. refl) (releasable-Moves id w)
      (λ r e. refl)

map-recovered :
    (now m : ℕ) (q : Queue)
    → map (recovered now m) q ≡ update_where (is_expired now) (recovered now m) q
unfolding update_where
map-recovered now m [] = refl
map-recovered now m (r ∷ rs) = ground (arith, map-recovered now m rs)

expired-fits :
    (now m : ℕ) (r : QueueItem) → is_expired now r ≡ true → claim_fits (recovered now m r) ≡ true
expired-fits now m r e = ground arith

expired-allowed :
    (now m : ℕ) (r : QueueItem)
    → is_expired now r ≡ true
    → can_transition r.state (recovered now m r).state ≡ true
unfolding can_transition
expired-allowed now m r e = ground arith

expired-Moves : (now m : ℕ) (r : QueueItem) → is_expired now r ≡ true → Moves r (recovered now m r)
expired-Moves now m r e = record {
  same_id = recovered-id now m r;
  same_task = ground arith;
  state = inr (expired-allowed now m r e);
}

pub recover-IsSound : (now m : ℕ) (q : Queue) → UniqueIds q → IsSound q (recover_expired now m q).1
recover-IsSound now m q u =
    rw (recover_expired-one_pass now m q, map-recovered now m q)
      (update_where-IsSound (is_expired now) (recovered now m) q u (recovered-id now m)
        (expired-Moves now m) (expired-fits now m))

pub due-Moves : (now : ℕ) (r : QueueItem) → is_due now r ≡ true → Moves r (enqueued r)
unfolding can_transition
due-Moves now r e = record { same_id = refl; same_task = refl; state = inr (ground arith) }

done-Moves : (r : QueueItem) → is_active r.state ≡ true → Moves r (overwrite (done r) r)
unfolding can_transition
done-Moves r e = record { same_id = refl; same_task = refl; state = inr (ground arith) }

done-IsSound :
    (id : String) (item : QueueItem) (q : Queue)
    → UniqueIds q
    → get id q ≡ some item
    → is_active item.state ≡ true
    → IsSound q (update_where (has_id item.id) (overwrite (done item)) q)
unfolding get
done-IsSound id item q u there active = record {
  rows =
      write-Rows Moves Moves-refl (overwrite (done item)) item.id item q u
        (In-find item q u (find-In id item q there)) (done-Moves item active);
  unique = update_where-UniqueIds (overwrite (done item)) (λ r. refl) (has_id item.id) q u;
  fitting =
      update_where-All (λ r. claim_fits r ≡ true) (has_id item.id) (overwrite (done item))
        (λ r t h. refl) q;
}

pub complete-IsSound :
    (uuid : String) (now : ℕ) (id w : String) (fields : LedgerFields) (s : Session)
    → UniqueIds s.queue
    → IsSound s.queue (complete_task uuid now id w fields s).1.queue
complete-IsSound uuid now id w fields s u = by_write (complete_task-queue uuid now id w fields s)
  where
    by_write :
        ((complete_task uuid now id w fields s).1.queue ≡ s.queue)
          ⊎ ((item : QueueItem) × (get id s.queue ≡ some item)
              × (is_active item.state ≡ true)
              × ((complete_task uuid now id w fields s).1.queue
                  ≡ update_where (has_id item.id) (overwrite (done item)) s.queue))
        → IsSound s.queue (complete_task uuid now id w fields s).1.queue
    by_write (inl e) = subst (IsSound s.queue) (sym e) (same-IsSound s.queue u)
    by_write (inr (item, there, active, e)) =
        subst (IsSound s.queue) (sym e) (done-IsSound id item s.queue u there active)
