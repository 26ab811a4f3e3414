-- ===== src/Scan/Schedule/Ownership.antt =====
-- A claimed device has one owner until the owner's generation completes.
use nm_daemon.Base.{ℕ, ◌≡◌, some, List, [], ◌∷◌, arith, if◌then◌else◌, All, nat_eq}
use nm_daemon.Scan.Scope.{Bytes, normalized_ssids, scan_scope_covers}
use nm_daemon.Scan.Schedule.{
  request, join, wait, DeviceScanState, claim_device, complete_device, consume_device,
}
use nm_daemon.Scan.Schedule.Device.{
  Operation, claims, completes, consumes, notes, step, run, Spares,
}

module _ {R : Type 0} where
  record Owned (scope : List Bytes) (g : ℕ) (s : DeviceScanState R) : Type 0 where
    in_flight : s.in_flight ≡ some scope
    generation : s.generation ≡ g

  claim-Owned :
      (s : DeviceScanState R) (ssids : List Bytes) (now g : ℕ)
      → (claim_device ssids now s).1 ≡ request g
      → Owned (normalized_ssids ssids) g (claim_device ssids now s).0
  unfolding claim_device
  claim-Owned s ssids now g h = ground arith

  step-Owned :
      (scope : List Bytes) (g : ℕ) (s : DeviceScanState R) (o : Operation R)
      → Spares g o
      → Owned scope g s
      → Owned scope g (step s o)
  unfolding step claim_device complete_device consume_device
  step-Owned scope g s (claims ssids now) h v = ground arith
  step-Owned scope g s (completes k o) h v = ground arith
  step-Owned scope g s (consumes k) h v = ground arith
  step-Owned scope g s (notes now) h v = ground arith

  run-Owned :
      (scope : List Bytes) (g : ℕ) (s : DeviceScanState R) (os : List (Operation R))
      → All (Spares g) os
      → Owned scope g s
      → Owned scope g (run s os)
  unfolding run
  run-Owned scope g s [] h v = v
  run-Owned scope g s (o ∷ os) (h, hs) v =
      run-Owned scope g (step s o) os hs (step-Owned scope g s o h v)

  -- Once a caller was told to issue the scan of generation `g`, every later claim of the device, for
  -- any SSIDs, joins that scan where its scope covers them and waits behind it otherwise, whatever
  -- operations ran in between, as long as none of them completed generation `g`.
  pub one_owner :
      (s : DeviceScanState R) (ssids more : List Bytes) (now later g : ℕ) (os : List (Operation R))
      → (claim_device ssids now s).1 ≡ request g
      → All (Spares g) os
      → (claim_device more later (run (claim_device ssids now s).0 os)).1
        ≡ (if scan_scope_covers (normalized_ssids ssids) more then join g else wait g)
  unfolding claim_device
  one_owner s ssids more now later g os h hs =
      let v = run-Owned (normalized_ssids ssids) g _ os hs (claim-Owned s ssids now g h) in
      ground arith
