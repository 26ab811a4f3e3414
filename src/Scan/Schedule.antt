-- ===== src/Scan/Schedule.antt =====
-- The scheduler of src/nm/scan_schedule.rs. Each operation runs under the mutex, so it is one step;
-- the condition variable only wakes waiters. Instants are milliseconds. The error report that a
-- failed scan carries is never read here and is the parameter `R`.
pub mod Device
pub mod Ownership
pub mod Delivery
pub mod Waiting
use nm_daemon.Base.{
  ℕ, ◌+◌, ◌-◌, ◌^◌, ◌%◌, String, Bool, true, false, ◌&&◌, Option, none, some, List, [], ◌∷◌, ltb,
  leb, ◌==◌, if◌then◌else◌, is_some, or_else, and_then, min, nat_eq, string_eq,
}
use nm_daemon.Base.Map.{Map, lookup, insert, remove, contains}
use nm_daemon.Scan.Scope.{Bytes, normalized_ssids, scan_scope_covers}

pub data ScanTurn : Type 0 where
  request join wait : ℕ → ScanTurn

pub data SharedScanOutcome (R : Type 0) : Type 0 where
  succeeded : SharedScanOutcome R
  failed : R → SharedScanOutcome R

pub data ScanWait (R : Type 0) : Type 0 where
  completed : SharedScanOutcome R → ScanWait R
  cancelled : ScanWait R
  deadline_expired : ScanWait R

pub record DeviceScanState (R : Type 0) : Type 0 where
  pub in_flight : Option (List Bytes)
  pub generation : ℕ  -- u64
  pub waiters : Map ℕ ℕ
  pub completions : Map ℕ (SharedScanOutcome R)
  pub last_request : Option ℕ
  pub previous_request : Option ℕ

abbrev pub Devices : Type 0 → Type 0
Devices R = Map String (DeviceScanState R)

abbrev pub poll_interval : ℕ
poll_interval = 100

module _ {R : Type 0} where
  abbrev pub idle_device : DeviceScanState R
  idle_device = record {
    in_flight = none;
    generation = 0;
    waiters = [];
    completions = [];
    last_request = none;
    previous_request = none;
  }

  -- `claim` on the state of its device.
  unfoldable pub claim_device : List Bytes → ℕ → DeviceScanState R → DeviceScanState R × ScanTurn
  claim_device ssids now s = elim s.in_flight [
    | some scope ↦ (
      record s {
        waiters = insert s.generation (or_else (lookup s.generation s.waiters) 0 + 1) s.waiters;
      },
      if scan_scope_covers scope ssids then join s.generation else wait s.generation,
    )
    | none ↦
        let g = (s.generation + 1) % 2 ^ 64 in
        (
          record s {
            in_flight = some (normalized_ssids ssids);
            generation = g;
            previous_request = s.last_request;
            last_request = some now;
          },
          request g,
        )
  ]

  -- `complete`: the scope is retired even when nobody waits for the result.
  unfoldable pub complete_device : ℕ → SharedScanOutcome R → DeviceScanState R → DeviceScanState R
  complete_device g outcome s =
      if s.generation == g
      then record s {
        in_flight = none;
        completions =
            if is_some s.in_flight && contains g s.waiters
            then insert g outcome s.completions
            else s.completions;
      }
      else s

  -- `consume_waiter`
  unfoldable pub consume_device : ℕ → DeviceScanState R → DeviceScanState R
  consume_device g s = elim (lookup g s.waiters) [
    | none ↦ s
    | some n ↦
        if n - 1 == 0
        then record s { waiters = remove g s.waiters; completions = remove g s.completions }
        else record s { waiters = insert g (n - 1) s.waiters }
  ]

  -- `entry(path).or_default()`, and `get_mut(path)`.
  abbrev pub device : String → Devices R → DeviceScanState R
  device path m = or_else (lookup path m) idle_device

  abbrev pub get_mut : String → (DeviceScanState R → DeviceScanState R) → Devices R → Devices R
  get_mut path f m = elim (lookup path m) [ none ↦ m | some s ↦ insert path (f s) m ]

  unfoldable pub claim : String → List Bytes → ℕ → Devices R → Devices R × ScanTurn
  claim path ssids now m =
      let (s, turn) = claim_device ssids now (device path m) in (insert path s m, turn)

  unfoldable pub complete : String → ℕ → SharedScanOutcome R → Devices R → Devices R
  complete path g outcome = get_mut path (complete_device g outcome)

  unfoldable pub consume_waiter : Devices R → String → ℕ → Devices R
  consume_waiter m path g = get_mut path (consume_device g) m

  unfoldable pub note_request : String → ℕ → Devices R → Devices R
  note_request path now m = insert path (record (device path m) { last_request = some now }) m

  unfoldable pub last_request_before_claim : String → Devices R → Option ℕ
  last_request_before_claim path m = and_then (lookup path m) (λ s. s.previous_request)

-- What a waiting thread sees when it holds the lock: whether its caller cancelled, the time, and
-- the table as the other threads left it.
pub record Wake (R : Type 0) : Type 0 where
  pub is_cancelled : Bool
  pub now : ℕ
  pub devices : Devices R

module _ {R : Type 0} where
  -- One round of the loop of `wait_for_completion`; `none` goes back to sleep.
  unfoldable pub wait_round : String → ℕ → ℕ → Wake R → Option (ScanWait R)
  wait_round path g deadline w =
      if w.is_cancelled
      then some cancelled
      else elim (and_then (lookup path w.devices) (λ s. lookup g s.completions)) [
        | some outcome ↦ some (completed outcome)
        | none ↦ if min poll_interval (deadline - w.now) == 0 then some deadline_expired else none
      ]

  -- The loop over the wakes of the thread, and the consumption of its place; `none` is a thread that
  -- still waits after these wakes.
  unfoldable pub wait_for_completion :
      String → ℕ → ℕ → List (Wake R) → Option (ScanWait R × Devices R)
  wait_for_completion path g deadline [] = none
  wait_for_completion path g deadline (w ∷ ws) =
      let rest = wait_for_completion path g deadline ws in
      elim (wait_round path g deadline w) [
        | some outcome ↦ some (outcome, consume_waiter w.devices path g)
        | none ↦ rest
      ]
