-- ===== src/Worker/Lease.antt =====
-- backend/src/backend/domain/worker/worker_lease.py and
-- infrastructure/database/repositories/worker_lease_repository.py: the table of leases, whose
-- `worker_id` column is unique.
use automated_short_drama.Prelude.{
  ℕ, String, Bool, true, false, not, ◌&&◌, ◌||◌, ◌==◌, Option, List, [], ◌∷◌, ◌++◌, if◌then◌else◌,
  any, find, select, ltb, leb,
}
use automated_short_drama.Prelude.Rows.{update_where}

pub data LeaseStatus : Type 0 where
  running stopped : LeaseStatus

pub record WorkerLease : Type 0 where
  pub worker_id : String
  pub host : String
  pub pid : ℕ
  pub status : LeaseStatus
  pub heartbeat_at : ℕ
  pub lease_until : ℕ

abbrev pub Leases : Type 0
Leases = List WorkerLease

abbrev pub of_worker : String → WorkerLease → Bool
of_worker w l = l.worker_id == w

abbrev is_running : LeaseStatus → Bool
is_running running = true
is_running stopped = false

-- status = RUNNING and lease_until > now
abbrev is_live : ℕ → WorkerLease → Bool
is_live now l = is_running l.status && ltb now l.lease_until

-- The row of the worker itself, stopped or run out.
abbrev pub may_take_over : String → ℕ → WorkerLease → Bool
may_take_over w now l = of_worker w l && (not (is_running l.status) || leb l.lease_until now)

abbrev pub is_other_active : String → ℕ → WorkerLease → Bool
is_other_active w now l = is_live now l && not (of_worker w l)

abbrev pub renewed : String → ℕ → ℕ → ℕ → WorkerLease → WorkerLease
renewed host pid lease_until heartbeat_at l = record l {
  host = host;
  pid = pid;
  status = running;
  heartbeat_at = heartbeat_at;
  lease_until = lease_until;
}

abbrev pub new_lease : String → String → ℕ → ℕ → ℕ → WorkerLease
new_lease w host pid lease_until heartbeat_at = record {
  worker_id = w;
  host = host;
  pid = pid;
  status = running;
  heartbeat_at = heartbeat_at;
  lease_until = lease_until;
}

-- The row of the worker is written where there is one, and else added.
unfoldable pub upsert : String → String → ℕ → ℕ → ℕ → Leases → Leases
upsert w host pid lease_until heartbeat_at ls =
    if any (of_worker w) ls
    then update_where (of_worker w) (renewed host pid lease_until heartbeat_at) ls
    else ls ++ new_lease w host pid lease_until heartbeat_at ∷ []

unfoldable pub acquire : String → String → ℕ → ℕ → ℕ → Leases → Bool × Leases
unfolding upsert
acquire w host pid lease_until heartbeat_at ls =
    if any (may_take_over w heartbeat_at) ls
    then (
      true,
      update_where (may_take_over w heartbeat_at) (renewed host pid lease_until heartbeat_at) ls,
    )
    else if any (is_other_active w heartbeat_at) ls
    then (false, ls)
    else (true, upsert w host pid lease_until heartbeat_at ls)

unfoldable pub heartbeat : String → String → ℕ → ℕ → ℕ → Leases → Option WorkerLease × Leases
unfolding upsert
heartbeat w host pid lease_until heartbeat_at ls =
    let ls' = upsert w host pid lease_until heartbeat_at ls in (find (of_worker w) ls', ls')

unfoldable pub release : String → Leases → Bool × Leases
release w ls =
    if any (of_worker w) ls
    then (true, update_where (of_worker w) (λ l. record l { status = stopped }) ls)
    else (false, ls)

unfoldable pub is_active : String → ℕ → Leases → Bool
is_active w now ls = any (λ l. of_worker w l && is_live now l) ls

unfoldable pub list_expired : ℕ → Leases → List WorkerLease
list_expired now ls = select (λ l. ltb l.lease_until now) ls
