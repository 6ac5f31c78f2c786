-- ===== src/Queue/Recovery.antt =====
-- What the recovery of expired leases writes and returns.
use automated_short_drama.Prelude.{
  ℕ, ◌+◌, ◌≡◌, refl, ◌∙◌, Bool, false, some, [], ◌∷◌, map, inl, inr, arith, eq_iff, select, find,
  leb, if◌then◌else◌,
}
use automated_short_drama.Prelude.Rows.{In, update_where, In-select}
use automated_short_drama.Queue.Item.{QueueItem, queued, manual_review}
use automated_short_drama.Queue.Repository.{
  Queue, has_id, is_expired, may_retry, is_exhausted, give_back, requeue_expired, review_expired,
  recover_expired, ids, rows_of, find_expired,
}
use automated_short_drama.Queue.Repository.Ids.{UniqueIds, any-In}

-- What becomes of one row.
abbrev pub recovered : ℕ → ℕ → QueueItem → QueueItem
recovered now max_attempts r =
    if is_expired now r
    then (if leb (r.attempt_count + 1) max_attempts
        then give_back queued r
        else give_back manual_review r)
    else r

module _ (now m : ℕ) where
  recovered_step :
      (r r1 : QueueItem)
      → r1 ≡ (if may_retry now m r then give_back queued r else r)
      → (if is_exhausted now m r1 then give_back manual_review r1 else r1) ≡ recovered now m r
  recovered_step r r1 e = ground arith

  passes : (q : Queue) → review_expired now m (requeue_expired now m q) ≡ map (recovered now m) q
  unfolding requeue_expired review_expired update_where
  passes [] = refl
  passes (r ∷ rs) = λ i. recovered_step r _ refl i ∷ passes rs i

  -- Of the rows that the second statement hits, the ids are as before the first.
  exhausted_ids :
      (q : Queue)
      → ids (select (is_exhausted now m) (requeue_expired now m q))
        ≡ ids (select (is_exhausted now m) q)
  unfolding requeue_expired update_where
  exhausted_ids [] = refl
  exhausted_ids (r ∷ rs) = ground (arith, exhausted_ids rs)

-- One pass that gives each expired row back, to the queue or to a person, is what the two
-- statements do together.
pub recover_expired-one_pass :
    (now m : ℕ) (q : Queue) → (recover_expired now m q).1 ≡ map (recovered now m) q
unfolding recover_expired
recover_expired-one_pass now m q = passes now m q

recovered-not-expired : (now m : ℕ) (r : QueueItem) → is_expired now (recovered now m r) ≡ false
recovered-not-expired now m r = ground arith

find_expired-map : (now m : ℕ) (q : Queue) → find_expired now (map (recovered now m) q) ≡ []
unfolding find_expired
find_expired-map now m [] = refl
find_expired-map now m (r ∷ rs) = rw (recovered-not-expired now m r, find_expired-map now m rs)

-- After the recovery the table holds no expired row, whatever it held before.
find_expired-recover_expired :
    (now m : ℕ) (q : Queue) → find_expired now (recover_expired now m q).1 ≡ []
find_expired-recover_expired now m q =
    rw (recover_expired-one_pass now m q) (find_expired-map now m q)

find-map :
    (f : QueueItem → QueueItem) (c : QueueItem) (q : Queue)
    → ((r : QueueItem) → (f r).id ≡ r.id)
    → UniqueIds q
    → In c q
    → find (has_id c.id) (map f q) ≡ some (f c)
find-map f c [] keeps u i = absurd i
find-map f c (r ∷ rs) keeps u (inl e) = rw e (ground (arith, eq_iff c.id c.id, keeps c))
find-map f c (r ∷ rs) keeps u (inr i) =
    ground (arith, keeps r, eq_iff r.id c.id, any-In r.id c rs i, find-map f c rs keeps u.1 i)

rows_of-ids :
    (f : QueueItem → QueueItem) (xs q : Queue)
    → ((r : QueueItem) → (f r).id ≡ r.id)
    → UniqueIds q
    → ((a : QueueItem) → In a xs → In a q)
    → rows_of (ids xs) (map f q) ≡ map f xs
unfolding rows_of
rows_of-ids f [] q keeps u h = refl
rows_of-ids f (x ∷ xs) q keeps u h = ground (
  arith,
  find-map f x q keeps u (h x (inl refl)),
  rows_of-ids f xs q keeps u (λ a i. h a (inr i)),
)

module _ (now m : ℕ) where
  pub recovered-id : (r : QueueItem) → (recovered now m r).id ≡ r.id
  recovered-id r = ground arith

  map-may_retry :
      (q : Queue)
      → map (recovered now m) (select (may_retry now m) q)
        ≡ map (give_back queued) (select (may_retry now m) q)
  map-may_retry [] = refl
  map-may_retry (r ∷ rs) = ground (arith, map-may_retry rs)

  map-is_exhausted :
      (q : Queue)
      → map (recovered now m) (select (is_exhausted now m) q)
        ≡ map (give_back manual_review) (select (is_exhausted now m) q)
  map-is_exhausted [] = refl
  map-is_exhausted (r ∷ rs) = ground (arith, map-is_exhausted rs)

  selected :
      (p : QueueItem → Bool) (q : Queue)
      → UniqueIds q
      → rows_of (ids (select p q)) (map (recovered now m) q) ≡ map (recovered now m) (select p q)
  selected p q u =
      rows_of-ids (recovered now m) (select p q) q recovered-id u (λ a i. (In-select p a q i).0)

-- On a table whose ids are unique, the two lists that the recovery returns are the expired rows
-- with an attempt left, given back to the queue, and the expired rows with none left, given to a
-- person, each in the order of the table.
pub recover_expired-lists :
    (now m : ℕ) (q : Queue)
    → UniqueIds q
    → ((recover_expired now m q).0.0 ≡ map (give_back queued) (select (may_retry now m) q))
      × ((recover_expired now m q).0.1
          ≡ map (give_back manual_review) (select (is_exhausted now m) q))
unfolding recover_expired
recover_expired-lists now m q u = (
  rw (passes now m q) (selected now m (may_retry now m) q u ∙ map-may_retry now m q),
  rw (exhausted_ids now m q, passes now m q)
      (selected now m (is_exhausted now m) q u ∙ map-is_exhausted now m q),
)
