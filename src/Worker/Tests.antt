-- ===== src/Worker/Tests.antt =====
-- The leases on concrete tables.
use automated_short_drama.Prelude.{ℕ, String, ◌≡◌, ◌||◌, ◌&&◌, if◌then◌else◌, [], ◌∷◌, any, arith}
use automated_short_drama.Worker.Lease.{
  LeaseStatus, running, stopped, WorkerLease, Leases, acquire, is_other_active, is_active,
  may_take_over,
}
use automated_short_drama.Worker.Exclusion.{acquire-outcome}

abbrev lease : String → LeaseStatus → ℕ → WorkerLease
lease w status until = record {
  worker_id = w;
  host = "host";
  pid = 7;
  status = status;
  heartbeat_at = 1;
  lease_until = until;
}

abbrev leases : Leases
leases = lease "w1" stopped 90 ∷ lease "w2" running 50 ∷ []

-- At 60 the other worker's lease has run out.
acquire-outcome_example :
    let r = acquire "w3" "host" 8 99 60 leases in
    (is_active "w3" 70 r.1 ≡ (r.0 || is_active "w3" 70 leases))
    × (r.1 ≡ (if r.0 then r.1 else leases))
    × (any (is_other_active "w3" 70) r.1 ≡ any (is_other_active "w3" 70) leases)
    × ((r.0 && any (is_other_active "w3" 60) r.1)
        ≡ (any (may_take_over "w3" 60) leases && any (is_other_active "w3" 60) leases))
acquire-outcome_example = acquire-outcome "w3" "host" 8 99 60 leases 70 (omega arith)
