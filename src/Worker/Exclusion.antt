-- ===== src/Worker/Exclusion.antt =====
-- Which worker may hold a lease beside which.
use automated_short_drama.Prelude.{
  ℕ, ◌<◌, String, ◌≡◌, refl, Bool, true, false, ◌||◌, ◌&&◌, eq_iff, [], ◌∷◌, ◌++◌, inl, inr, arith,
  if◌then◌else◌, any, Bool-cases,
}
use automated_short_drama.Prelude.Rows.{update_where}
use automated_short_drama.Worker.Lease.{
  WorkerLease, Leases, of_worker, may_take_over, is_other_active, renewed, new_lease, upsert,
  acquire, release, is_active, stopped,
}

module _ (w host : String) (pid until now : ℕ) where
  take_over-active :
      (later : ℕ) (ls : Leases)
      → later < until
      → any (may_take_over w now) ls ≡ true
      → is_active w later (update_where (may_take_over w now) (renewed host pid until now) ls)
        ≡ true
  unfolding is_active update_where
  take_over-active later [] lt h = cc
  take_over-active later (l ∷ ls) lt h = ground (arith, take_over-active later ls)

  written-active :
      (later : ℕ) (ls : Leases)
      → later < until
      → any (of_worker w) ls ≡ true
      → is_active w later (update_where (of_worker w) (renewed host pid until now) ls) ≡ true
  unfolding is_active update_where
  written-active later [] lt h = cc
  written-active later (l ∷ ls) lt h = ground (arith, written-active later ls)

  appended-active :
      (later : ℕ) (ls : Leases)
      → later < until
      → is_active w later (ls ++ new_lease w host pid until now ∷ []) ≡ true
  unfolding is_active
  appended-active later [] lt = ground (arith, eq_iff w w)
  appended-active later (l ∷ ls) lt = ground (arith, appended-active later ls)

  upsert-active :
      (later : ℕ) (ls : Leases)
      → later < until
      → is_active w later (upsert w host pid until now ls) ≡ true
  unfolding upsert
  upsert-active later ls lt = elim (Bool-cases (any (of_worker w) ls)) [
    | inl old ↦ rw old (written-active later ls lt old)
    | inr new ↦ rw new (appended-active later ls lt)
  ]

  -- Writes to the rows of the worker itself leave the other workers' leases alone.
  others-update :
      (p : WorkerLease → Bool) (t : ℕ) (ls : Leases)
      → ((l : WorkerLease) → p l ≡ true → of_worker w l ≡ true)
      → any (is_other_active w t) (update_where p (renewed host pid until now) ls)
        ≡ any (is_other_active w t) ls
  unfolding update_where
  others-update p t [] own = refl
  others-update p t (l ∷ ls) own = ground (arith, own l, others-update p t ls own)

  others-append :
      (t : ℕ) (ls : Leases)
      → any (is_other_active w t) (ls ++ new_lease w host pid until now ∷ [])
        ≡ any (is_other_active w t) ls
  others-append t [] = ground (arith, eq_iff w w)
  others-append t (l ∷ ls) = ground (arith, others-append t ls)

  others-upsert :
      (t : ℕ) (ls : Leases)
      → any (is_other_active w t) (upsert w host pid until now ls) ≡ any (is_other_active w t) ls
  unfolding upsert
  others-upsert t ls = elim (Bool-cases (any (of_worker w) ls)) [
    | inl old ↦ rw old (others-update (of_worker w) t ls (λ l h. h))
    | inr new ↦ rw new (others-append t ls)
  ]

  own_row : (l : WorkerLease) → may_take_over w now l ≡ true → of_worker w l ≡ true
  own_row l h = ground arith

  -- What an attempt does, of any worker on any table, for a lease that ends later than `later`:
  -- the worker is active then if the lease was granted, and as it was if not; a refusal has changed
  -- nothing; what the other workers hold is as before; and the lease was granted beside an active
  -- worker exactly if there was one and the worker's own row was stopped or had run out.
  pub acquire-outcome :
      (ls : Leases) (later : ℕ)
      → later < until
      → let r = acquire w host pid until now ls in
        (is_active w later r.1 ≡ (r.0 || is_active w later ls))
        × (r.1 ≡ (if r.0 then r.1 else ls))
        × (any (is_other_active w later) r.1 ≡ any (is_other_active w later) ls)
        × ((r.0 && any (is_other_active w now) r.1)
            ≡ (any (may_take_over w now) ls && any (is_other_active w now) ls))
  unfolding acquire
  acquire-outcome ls later lt = ground (
    arith,
    take_over-active later ls,
    upsert-active later ls,
    others-update (may_take_over w now) later ls own_row,
    others-upsert later ls,
    others-update (may_take_over w now) now ls own_row,
    others-upsert now ls,
  )

stopped-inactive :
    (w : String) (later : ℕ) (ls : Leases)
    → is_active w later (update_where (of_worker w) (λ l. record l { status = stopped }) ls) ≡ false
unfolding is_active update_where
stopped-inactive w later [] = refl
stopped-inactive w later (l ∷ ls) = ground (arith, stopped-inactive w later ls)

absent-inactive :
    (w : String) (later : ℕ) (ls : Leases)
    → any (of_worker w) ls ≡ false
    → is_active w later ls ≡ false
unfolding is_active
absent-inactive w later [] h = refl
absent-inactive w later (l ∷ ls) h = ground (arith, absent-inactive w later ls)

-- After a release the worker holds no active lease at any time, with a row or without.
is_active-release :
    (w : String) (later : ℕ) (ls : Leases) → is_active w later (release w ls).1 ≡ false
unfolding release
is_active-release w later ls = elim (Bool-cases (any (of_worker w) ls)) [
  | inl old ↦ rw old (stopped-inactive w later ls)
  | inr gone ↦ rw gone (absent-inactive w later ls gone)
]
