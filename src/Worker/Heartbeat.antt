-- ===== src/Worker/Heartbeat.antt =====
-- backend/src/backend/application/services/worker_heartbeat.py. `now` is given, or the clock's.
use automated_short_drama.Prelude.{
  ℕ, ◌+◌, String, Bool, true, false, ◌&&◌, Option, none, some, if◌then◌else◌, List,
}
use automated_short_drama.Errors.{Result, ok, ◌>>=◌}
use automated_short_drama.Queue.Item.{QueueItem, is_text, seconds}
use automated_short_drama.Queue.Repository.{Queue, get, update, is_active}
use automated_short_drama.Worker.Lease.{WorkerLease, Leases}
use automated_short_drama.Worker.Lease

unfoldable acquire_lease : String → String → ℕ → ℕ → ℕ → Leases → Bool × Leases
acquire_lease w host pid lease_seconds now ls =
    Lease.acquire w host pid (now + seconds lease_seconds) now ls

unfoldable pub heartbeat : String → String → ℕ → ℕ → ℕ → Leases → Option WorkerLease × Leases
heartbeat w host pid lease_seconds now ls =
    Lease.heartbeat w host pid (now + seconds lease_seconds) now ls

abbrev renew_item : String → ℕ → Option QueueItem → Queue → Result (Bool × Queue)
renew_item w lease_until none q = ok (false, q)
renew_item w lease_until (some item) q =
    if is_text item.claimed_by w && is_active item.state
    then (do
      written ← update (record item { lease_until = some lease_until }) q
      ok (true, written.1))
    else ok (false, q)

unfoldable renew_execution_lease :
    String → String → String → ℕ → ℕ → ℕ → Leases → Queue → Result (Bool × (Leases × Queue))
renew_execution_lease queue_item_id w host pid lease_seconds now ls q = do
  let ls' = (heartbeat w host pid lease_seconds now ls).1
  renewed ← renew_item w (now + seconds lease_seconds) (get queue_item_id q) q
  ok (renewed.0, (ls', renewed.1))

unfoldable release_lease : String → Leases → Bool × Leases
release_lease w ls = Lease.release w ls

unfoldable is_lease_active : String → ℕ → Leases → Bool
is_lease_active w now ls = Lease.is_active w now ls

unfoldable list_expired_leases : ℕ → Leases → List WorkerLease
list_expired_leases now ls = Lease.list_expired now ls
