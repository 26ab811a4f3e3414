-- ===== src/Scan/Examples.antt =====
-- Scans at concrete values: a targeted scan of one device that two callers share.
use nm_daemon.Base.{
  ◌≡◌, refl, String, ◌&&◌, none, some, List, [], ◌∷◌, arith, all, ◌||◌, list_eq, nat_eq, string_eq,
  if◌then◌else◌,
}
use nm_daemon.Base.Sets.{has}
use nm_daemon.Base.Map.{lookup}
use nm_daemon.Scan.Scope.{Bytes, normalized_ssids, scan_scope_covers, is_nil}
use nm_daemon.Scan.Scope.Search.{covers-normalized}
use nm_daemon.Scan.Schedule.{DeviceScanState, succeeded, join, wait, idle_device, claim_device}
use nm_daemon.Scan.Schedule.Device.{Operation, claims, completes, consumes, notes, step, run}
use nm_daemon.Scan.Schedule.Ownership.{one_owner}
use nm_daemon.Scan.Schedule.Delivery.{result_delivered}

abbrev home : Bytes
home = 104 ∷ 111 ∷ []

abbrev cafe : Bytes
cafe = 99 ∷ 97 ∷ []

abbrev between : List (Operation String)
between = claims (cafe ∷ []) 3 ∷ notes 4 ∷ []

one_owner_example :
    (claim_device
      (home ∷ [])
      9
      (run (claim_device {R = String} (cafe ∷ home ∷ []) 1 idle_device).0 between)).1
    ≡ (if scan_scope_covers (normalized_ssids (cafe ∷ home ∷ [])) (home ∷ [])
        then join 1
        else wait 1)
unfolding claim_device
one_owner_example =
    one_owner idle_device (cafe ∷ home ∷ []) (home ∷ []) 1 9 1 between refl (tt, (tt, tt))

-- Generation 1 is in flight, and two callers wait for it.
abbrev waited_for : DeviceScanState String
waited_for = record {
  in_flight = some (home ∷ []);
  generation = 1;
  waiters = (1, 2) ∷ [];
  completions = [];
  last_request = some 0;
  previous_request = none;
}

abbrev afterwards : List (Operation String)
afterwards = consumes 1 ∷ claims (cafe ∷ []) 20 ∷ completes 2 succeeded ∷ []

result_delivered_example :
    lookup 1 (run (step waited_for (completes 1 succeeded)) afterwards).completions ≡ some succeeded
unfolding lookup
result_delivered_example =
    result_delivered waited_for (home ∷ []) succeeded 2 afterwards refl (omega arith) refl
      (omega arith) (omega arith)

covers-normalized_example :
    scan_scope_covers (normalized_ssids (home ∷ cafe ∷ home ∷ [])) (cafe ∷ []) ≡ (
      if is_nil (home ∷ cafe ∷ home ∷ []) || is_nil (cafe ∷ [])
      then is_nil (home ∷ cafe ∷ home ∷ []) && is_nil (cafe ∷ [])
      else all (λ ssid. has ssid (home ∷ cafe ∷ home ∷ [])) (cafe ∷ []))
covers-normalized_example = covers-normalized (home ∷ cafe ∷ home ∷ []) (cafe ∷ [])
