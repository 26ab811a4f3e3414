-- ===== src/Scan/Schedule/Device.antt =====
-- One device under every sequence of operations of the scheduler.
use nm_daemon.Base.{some, ◌≢◌, ℕ, List, [], ◌∷◌, ◌==◌, if◌then◌else◌, nat_eq, ◌+◌}
use nm_daemon.Scan.Scope.{Bytes}
use nm_daemon.Scan.Schedule.{
  SharedScanOutcome, DeviceScanState, claim_device, complete_device, consume_device,
}

pub data Operation (R : Type 0) : Type 0 where
  claims : List Bytes → ℕ → Operation R
  completes : ℕ → SharedScanOutcome R → Operation R
  consumes : ℕ → Operation R
  notes : ℕ → Operation R

module _ {R : Type 0} where
  unfoldable pub step : DeviceScanState R → Operation R → DeviceScanState R
  step s (claims ssids now) = (claim_device ssids now s).0
  step s (completes g o) = complete_device g o s
  step s (consumes g) = consume_device g s
  step s (notes now) = record s { last_request = some now }

  unfoldable pub run : DeviceScanState R → List (Operation R) → DeviceScanState R
  run s [] = s
  run s (o ∷ os) = run (step s o) os

  -- How many waiters of generation `g` leave.
  abbrev pub leaving : ℕ → List (Operation R) → ℕ
  leaving g [] = 0
  leaving g (consumes h ∷ os) = if h == g then 1 + leaving g os else leaving g os
  leaving g (claims ssids now ∷ os) = leaving g os
  leaving g (completes h o ∷ os) = leaving g os
  leaving g (notes now ∷ os) = leaving g os

  -- An operation that does not complete generation `g`.
  abbrev pub Spares : ℕ → Operation R → Type 0
  Spares g (completes h o) = h ≢ g
  Spares g (claims ssids now) = Unit
  Spares g (consumes h) = Unit
  Spares g (notes now) = Unit
