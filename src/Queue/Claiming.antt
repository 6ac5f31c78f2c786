-- ===== src/Queue/Claiming.antt =====
-- What claiming does: which item it takes, and to which row it writes.
use automated_short_drama.Prelude.{
  ℕ, ◌+◌, String, ◌≡◌, ◌≢◌, refl, ap, ◌∙◌, Bool, true, Option, none, some, List, [], ◌∷◌, inl, inr,
  arith, eq_iff, head?, select, find, least, sort, take, head-sort,
}
use mathlib.Core.Option
use mathlib.Core.Path.{subst}
use automated_short_drama.Prelude.Rows.{In, update_where, In-select, least-In}
use automated_short_drama.Queue.Item.{QueueState, QueueItem, queued, claimed, seconds, state_eq}
use automated_short_drama.Queue.Repository.{
  Queue, is_ahead, is_queued, claim, claim_candidate, claim_next, has_id,
}
use automated_short_drama.Queue.Repository.Ids.{UniqueIds, any-In, update_where-UniqueIds}
use automated_short_drama.Queue.Service.{key_leb, peek_next}
use automated_short_drama.Queue.Order.{key_leb-eq-is_ahead}

pub find-update :
    (f : QueueItem → QueueItem) (c : QueueItem) (q : Queue)
    → ((r : QueueItem) → (f r).id ≡ r.id)
    → UniqueIds q
    → In c q
    → find (has_id c.id) (update_where (has_id c.id) f q) ≡ some (f c)
unfolding update_where
find-update f c [] keeps u i = absurd i
find-update f c (r ∷ rs) keeps u (inl e) = rw e (ground (arith, eq_iff c.id c.id, keeps c))
find-update f c (r ∷ rs) keeps u (inr i) =
    ground (arith, eq_iff r.id c.id, any-In r.id c rs i, find-update f c rs keeps u.1 i)

sort-key : (xs : List QueueItem) → sort key_leb xs ≡ sort is_ahead xs
sort-key xs =
    ap (λ (le : QueueItem → QueueItem → Bool). sort le xs) (λ i a b. key_leb-eq-is_ahead a b i)

head-take : (xs : List QueueItem) → head? (take 1 xs) ≡ head? xs
head-take [] = refl
head-take (x ∷ xs) = refl

-- The head of `peek_next` is the least row by SQL's order.
queued_of : (s : QueueState) → state_eq s queued ≡ true → s ≡ queued
queued_of s e = ground arith

head-peek : (q : Queue) → head? (peek_next 1 q) ≡ least is_ahead (select is_queued q)
unfolding peek_next
head-peek q =
    head-take _ ∙ ap head? (sort-key (select is_queued q)) ∙ head-sort is_ahead (select is_queued q)

-- What a successful claim tells of the row that it took and of the table after it.
record Claims (w : String) (until : ℕ) (q : Queue) (a : QueueItem) (q' : Queue) : Type 0 where
  pub row : QueueItem
  pub was_there : In row q
  pub was_queued : row.state ≡ queued
  pub was_first : head? (peek_next 1 q) ≡ some row
  pub is_claim : a ≡ claim w until row
  pub table : q' ≡ update_where (has_id row.id) (claim w until) q

module _ (w : String) (until : ℕ) (q : Queue) (u : UniqueIds q) where
  found :
      (c : QueueItem)
      → least is_ahead (select is_queued q) ≡ some c
      → (In c q × (is_queued c ≡ true))
        × (find (has_id c.id) (update_where (has_id c.id) (claim w until) q)
            ≡ some (claim w until c))
  found c e =
      let r = In-select is_queued c q (least-In is_ahead c (select is_queued q) e) in
      (r, find-update (claim w until) c q (λ r. refl) u r.0)

  candidate-result :
      (o : Option QueueItem)
      → least is_ahead (select is_queued q) ≡ o
      → (claim_candidate w until q o).0 ≡ Option.map (claim w until) o
  candidate-result none e = refl
  candidate-result (some c) e = (found c e).1

  candidate-Claims :
      (o : Option QueueItem) (a : QueueItem)
      → least is_ahead (select is_queued q) ≡ o
      → (claim_candidate w until q o).0 ≡ some a
      → Claims w until q a (claim_candidate w until q o).1
  candidate-Claims none a e h = cc
  candidate-Claims (some c) a e h =
      let f = found c e in
      record {
        row = c;
        was_there = f.0.0;
        was_queued = queued_of c.state f.0.1;
        was_first = head-peek q ∙ e;
        is_claim = ground (arith, f.1);
        table = refl;
      }

-- On a table whose ids are unique, the atomic SQL claim returns exactly the item that `peek_next`
-- shows first, with the claim written into it, and nothing where `peek_next` shows nothing.
pub claim_next-peek_next :
    (w : String) (l now : ℕ) (q : Queue)
    → UniqueIds q
    → (claim_next w l now q).0 ≡ Option.map (claim w (now + seconds l)) (head? (peek_next 1 q))
unfolding claim_next
claim_next-peek_next w l now q u =
    rw (head-peek q) (candidate-result w (now + seconds l) q u _ refl)

claim_next-Claims :
    (w : String) (l now : ℕ) (q : Queue) (a : QueueItem)
    → UniqueIds q
    → (claim_next w l now q).0 ≡ some a
    → Claims w (now + seconds l) q a (claim_next w l now q).1
unfolding claim_next
claim_next-Claims w l now q a u e = candidate-Claims w (now + seconds l) q u _ a refl e

candidate-UniqueIds :
    (w : String) (until : ℕ) (q : Queue) (o : Option QueueItem)
    → UniqueIds q
    → UniqueIds (claim_candidate w until q o).1
candidate-UniqueIds w until q none u = u
candidate-UniqueIds w until q (some c) u =
    update_where-UniqueIds (claim w until) (λ r. refl) (has_id c.id) q u

claim_next-UniqueIds :
    (w : String) (l now : ℕ) (q : Queue) → UniqueIds q → UniqueIds (claim_next w l now q).1
unfolding claim_next
claim_next-UniqueIds w l now q u = candidate-UniqueIds w (now + seconds l) q _ u

-- Under the id of the claimed row, the table after the claim holds no queued row.
claimed_row :
    (w id : String) (until : ℕ) (q : Queue) (b : QueueItem)
    → In b (update_where (has_id id) (claim w until) q)
    → b.id ≡ id
    → b.state ≡ claimed
unfolding update_where
claimed_row w id until [] b i e = absurd i
claimed_row w id until (r ∷ rs) b (inl p) e = ground (arith, eq_iff r.id id)
claimed_row w id until (r ∷ rs) b (inr i) e = claimed_row w id until rs b i e

-- On a table whose ids are unique, two claims in a row, by whichever workers and at whichever times,
-- never return one item.
pub claim_next-ne :
    (w v : String) (l k now later : ℕ) (q : Queue) (a b : QueueItem)
    → UniqueIds q
    → (claim_next w l now q).0 ≡ some a
    → (claim_next v k later (claim_next w l now q).1).0 ≡ some b
    → a.id ≢ b.id
claim_next-ne w v l k now later q a b u e f same =
    let c = claim_next-Claims w l now q a u e in
    let d =
      claim_next-Claims v k later (claim_next w l now q).1 b (claim_next-UniqueIds w l now q u) f in
    let was_claimed =
      claimed_row w c.row.id (now + seconds l) q d.row (subst (In d.row) c.table d.was_there)
        (ground (arith, c.is_claim, d.is_claim, same)) in
    ground (arith, was_claimed, d.was_queued)
