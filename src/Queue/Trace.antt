-- ===== src/Queue/Trace.antt =====
-- Any sequence of queue operations: what it can do to the rows of the table.
use automated_short_drama.Prelude.{
  ◌≡◌, refl, sym, ◌∙◌, Bool, true, false, not, ◌||◌, List, [], ◌∷◌, inl, inr, arith, ◌⊎◌, All,
}
use mathlib.Core.Path.{subst}
use automated_short_drama.Prelude.Rows.{Rows, Rows-refl, Rows-trans, Rows-map}
use automated_short_drama.Queue.Item.{QueueItem, QueueState, state_eq}
use automated_short_drama.Queue.Machine.{can_transition, Reaches, here, step, is_final}
use automated_short_drama.Queue.Repository.Ids.{UniqueIds}
use automated_short_drama.Queue.Control.{Tables}
use automated_short_drama.Queue.Moving.{Moves, claim_fits}
use automated_short_drama.Queue.Steps.{Operation, run, run_all, run-IsSound}

-- The row of an item before and after a sequence of operations.
record Follows (r s : QueueItem) : Type 0 where
  pub same_id : s.id ≡ r.id
  pub same_task : s.task_id ≡ r.task_id
  pub path : Reaches r.state s.state

Reaches-trans : {s t u : QueueState} → Reaches s t → Reaches t u → Reaches s u
Reaches-trans p here = p
Reaches-trans p (step q e) = step (Reaches-trans p q) e

move-Reaches : (s t : QueueState) → (t ≡ s) ⊎ (can_transition s t ≡ true) → Reaches s t
move-Reaches s t (inl e) = subst (Reaches s) (sym e) here
move-Reaches s t (inr e) = step here e

Moves-Follows : (r s : QueueItem) → Moves r s → Follows r s
Moves-Follows r s m = record {
  same_id = m.same_id;
  same_task = m.same_task;
  path = move-Reaches r.state s.state m.state;
}

Follows-trans : (r s t : QueueItem) → Follows r s → Follows s t → Follows r t
Follows-trans r s t f g = record {
  same_id = g.same_id ∙ f.same_id;
  same_task = g.same_task ∙ f.same_task;
  path = Reaches-trans f.path g.path;
}

-- A sequence takes the state of each item along a chain of whitelisted transitions.
run_all-Follows :
    (ops : List Operation) (db : Tables)
    → UniqueIds db.queue
    → Rows Follows db.queue (run_all ops db).queue × UniqueIds (run_all ops db).queue
unfolding run_all
run_all-Follows [] db u =
    (Rows-refl Follows (λ r. record { same_id = refl; same_task = refl; path = here }) db.queue, u)
run_all-Follows (op ∷ ops) db u =
    let first = run-IsSound op db u in
    let rest = run_all-Follows ops (run op db) first.unique in
    (
      Rows-trans Follows Follows-trans db.queue (run op db).queue (run_all ops (run op db)).queue
          (Rows-map Moves Follows Moves-Follows db.queue (run op db).queue first.rows) rest.0,
      rest.1,
    )

-- From a table whose ids are unique, after any sequence of enqueueings, claims, releases,
-- recoveries, completions, pauses, resumptions, cancellations, retries and hand-overs, each with any
-- arguments, the next one of these operations leaves each row at its place with its id and its task,
-- and its state is unchanged or is one that the whitelist allows directly from the state before; the
-- ids are unique on the way.
pub run_all-Moves :
    (ops : List Operation) (op : Operation) (db : Tables)
    → UniqueIds db.queue
    → Rows Moves (run_all ops db).queue (run op (run_all ops db)).queue
      × UniqueIds (run_all ops db).queue
run_all-Moves ops op db u =
    let unique = (run_all-Follows ops db u).1 in
    ((run-IsSound op (run_all ops db) unique).rows, unique)

-- From a table whose ids are unique and whose claims fit the states, after any sequence of
-- enqueueings, claims, releases, recoveries, completions, pauses, resumptions, cancellations,
-- retries and hand-overs each item in hand has a worker and a lease, and each item that waits for a
-- worker, is paused or is in review has neither. The cycle of a worker is none of these operations.
pub run_all-claim_fits :
    (ops : List Operation) (db : Tables)
    → UniqueIds db.queue
    → All (λ r. claim_fits r ≡ true) db.queue
    → All (λ r. claim_fits r ≡ true) (run_all ops db).queue
unfolding run_all
run_all-claim_fits [] db u h = h
run_all-claim_fits (op ∷ ops) db u h =
    let first = run-IsSound op db u in
    run_all-claim_fits ops (run op db) first.unique (first.fitting h)

final-transition : (s t : QueueState) → is_final s ≡ true → can_transition s t ≡ false
unfolding can_transition
final-transition s t e = ground arith

final-Reaches : {s t : QueueState} → is_final s ≡ true → Reaches s t → t ≡ s
final-Reaches e here = refl
final-Reaches {s} {t} e (step {t = m} p a) = cc (final-transition s t e, final-Reaches e p, a)

-- The row of an item that was final: its state is what it was.
abbrev pub kept_if_final : QueueItem → QueueItem → Bool
kept_if_final r s = not (is_final r.state) || state_eq r.state s.state

state_eq_refl : (s : QueueState) → state_eq s s ≡ true
state_eq_refl s = ground arith

Follows-kept : (r s : QueueItem) → Follows r s → kept_if_final r s ≡ true
Follows-kept r s f = by_final (is_final r.state) refl
  where
    by_final : (b : Bool) → is_final r.state ≡ b → kept_if_final r s ≡ true
    by_final true e = ground (arith, final-Reaches e f.path, state_eq_refl r.state)
    by_final false e = rw e

-- On a table whose ids are unique, no sequence of enqueueings, claims, releases, recoveries,
-- completions, pauses, resumptions, cancellations, retries and hand-overs changes the state of an
-- item that is completed, cancelled or a finished dry run. The cycle of a worker is none of these
-- operations.
pub run_all-final :
    (ops : List Operation) (db : Tables)
    → UniqueIds db.queue
    → Rows (λ r s. (s.id ≡ r.id) × (kept_if_final r s ≡ true)) db.queue (run_all ops db).queue
run_all-final ops db u =
    Rows-map Follows (λ r s. (s.id ≡ r.id) × (kept_if_final r s ≡ true))
      (λ r s f. (f.same_id, Follows-kept r s f)) db.queue (run_all ops db).queue
      (run_all-Follows ops db u).0
