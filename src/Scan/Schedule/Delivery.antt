-- ===== src/Scan/Schedule/Delivery.antt =====
-- The result of a scan stays until each of its waiters has taken it.
use nm_daemon.Base.{
  ℕ, ◌+◌, ◌-◌, ◌%◌, ◌^◌, ◌<◌, ◌≡◌, none, some, List, [], ◌∷◌, arith, or_else, nat_eq, length,
  Option-cases, inl, inr, ◌⊎◌,
}
use nm_daemon.Base.Map.{lookup, lookup-insert, lookup-remove}
use nm_daemon.Scan.Scope.{Bytes}
use nm_daemon.Scan.Schedule.{
  SharedScanOutcome, DeviceScanState, claim_device, complete_device, consume_device,
}
use nm_daemon.Scan.Schedule.Device.{
  Operation, claims, completes, consumes, notes, step, run, leaving,
}

module _ {R : Type 0} (g : ℕ) (o : SharedScanOutcome R) where
  -- Generation `g` has result `o` and more than `n` waiters; `k` claims were granted since.
  record Kept (n k : ℕ) (s : DeviceScanState R) : Type 0 where
    result : lookup g s.completions ≡ some o
    waiting : n < or_else (lookup g s.waiters) 0
    counted : s.generation ≡ (g + k) % 2 ^ 64
    bounded : g < 2 ^ 64
    retired : k ≡ 0 → s.in_flight ≡ none

  claims-Kept :
      (n k : ℕ) (s : DeviceScanState R) (ssids : List Bytes) (now : ℕ)
      → k + 1 < 2 ^ 64
      → Kept n k s
      → Kept n (k + 1) (step s (claims ssids now)) ⊎ Kept n k (step s (claims ssids now))
  unfolding step claim_device
  claims-Kept n k s ssids now h v = elim (Option-cases s.in_flight) [
    | inl e ↦ inl (ground arith)
    | inr (scope, e) ↦ inr (
        ground (
          arith,
          lookup-insert s.generation g (or_else (lookup s.generation s.waiters) 0 + 1) s.waiters,
        ))
  ]

  completes-Kept :
      (n k : ℕ) (s : DeviceScanState R) (h : ℕ) (p : SharedScanOutcome R)
      → k < 2 ^ 64
      → Kept n k s
      → Kept n k (step s (completes h p))
  unfolding step complete_device
  completes-Kept n k s h p b v = ground (arith, lookup-insert h g p s.completions)

  consumes-Kept :
      (n k : ℕ) (s : DeviceScanState R) (h : ℕ)
      → Kept (leaving {R = R} g (consumes h ∷ []) + n) k s
      → Kept n k (step s (consumes h))
  unfolding step consume_device
  consumes-Kept n k s h v = elim (Option-cases (lookup h s.waiters)) [
    | inl e ↦ ground arith
    | inr (w, e) ↦ ground (
      arith,
      lookup-insert h g (w - 1) s.waiters,
      lookup-remove h g s.waiters,
      lookup-remove h g s.completions,
    )
  ]

  run-result :
      (k : ℕ) (s : DeviceScanState R) (os : List (Operation R))
      → k + length os < 2 ^ 64
      → Kept (leaving g os) k s
      → lookup g (run s os).completions ≡ some o
  unfolding run step
  run-result k s [] b v = v.result
  run-result k s (claims ssids now ∷ os) b v =
      elim (claims-Kept (leaving g os) k s ssids now (omega arith) v) [
        | inl u ↦ run-result (k + 1) (step s (claims ssids now)) os (omega arith) u
        | inr u ↦ run-result k (step s (claims ssids now)) os (omega arith) u
      ]
  run-result k s (completes h p ∷ os) b v =
      run-result k (step s (completes h p)) os (omega arith)
        (completes-Kept (leaving g os) k s h p (omega arith) v)
  run-result k s (consumes h ∷ os) b v =
      run-result k (step s (consumes h)) os (omega arith)
        (consumes-Kept (leaving g os) k s h (ground arith))
  run-result k s (notes now ∷ os) b v =
      run-result k (step s (notes now)) os (omega arith) (ground arith)

module _ {R : Type 0} where
  -- When the scan in flight completes with waiters, its result is what a waiter finds after any
  -- further operations on the device, later completions and new scans included, as long as fewer
  -- waiters have left than were waiting (and fewer than 2^64 operations ran, after which the wrapping
  -- generation could come round).
  pub result_delivered :
      (s : DeviceScanState R) (scope : List Bytes) (o : SharedScanOutcome R) (w : ℕ)
      (os : List (Operation R))
      → s.in_flight ≡ some scope
      → s.generation < 2 ^ 64
      → lookup s.generation s.waiters ≡ some w
      → leaving s.generation os < w
      → length os < 2 ^ 64
      → lookup s.generation (run (step s (completes s.generation o)) os).completions ≡ some o
  unfolding step complete_device
  result_delivered s scope o w os f b e l c =
      run-result s.generation o 0 _ os (omega arith)
        (ground (arith, lookup-insert s.generation s.generation o s.completions))
