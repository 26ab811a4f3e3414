-- ===== src/Activation/Examples.antt =====
-- A wait and a credential request at concrete values.
use nm_daemon.Base.{
  ℕ, ◌+◌, ◌-◌, ◌≤◌, ◌<◌, ◌≡◌, refl, Bool, true, false, not, ◌&&◌, Option, none, some, List, [], ◌∷◌,
  arith, is_some, any, ok,
}
use nm_daemon.Activation.Credentials.{
  WifiActivationStatus, Credentials, new_credentials, credential_error, stop_error, stop_cancelled,
  stop_expired, live, activation_error,
}
use nm_daemon.Activation.Credentials.Stops.{credentials_expire, run, reads_error, stops}
use nm_daemon.Activation.Wait.{
  Target, wpa, Sample, Round, Abort, no_abort, target_abort, PendingFailure, ActivationWait,
  default_wait, observe, next_wake, connect_error, activation_failure_reason, cancelled_error,
  wait_for_active_target_path, requested_activation_stopped,
}
use nm_daemon.Activation.Wait.Grace.{
  begins, goes_on, FailingSince, Saw, failure_persisted, next_wake_bounds,
}
use nm_daemon.Activation.Wait.Loop.{is_last, shows_target, wait_returns, success_is_active}

abbrev target : Target
target = record { hidden = false; security = some wpa }

abbrev down : WifiActivationStatus
down = record { device_state = 30; device_state_reason = (30, 8); active_connection_state = none }

abbrev up : WifiActivationStatus
up = record { device_state = 100; device_state_reason = (100, 0); active_connection_state = some 2 }

abbrev sample : Option WifiActivationStatus → Bool → ℕ → Sample
sample status matching now = record {
  status = status;
  ssid_matches = matching;
  requested_path = some "/active/1";
  requested_state = some 1;
  now = now;
}

abbrev down_since : ActivationWait
down_since = record {
  saw_progress = true;
  has_current_status = true;
  pending_failure = some (record { since = 1000; status = down });
  last_status = some down;
}

abbrev watched : List Sample
watched = sample (some down) false 1000 ∷ []

failure_persisted_example :
    (since : ℕ) × (st : WifiActivationStatus) × (since + 3000 ≤ 4200)
    × FailingSince since (sample (some down) false 4200 ∷ watched)
    × Saw st (sample (some down) false 4200 ∷ watched)
    × (connect_error (activation_failure_reason target down) (some down)
        ≡ connect_error (activation_failure_reason target st) (some st))
unfolding observe nm_daemon.Activation.Wait.check_terminal_failure
failure_persisted_example =
    failure_persisted target watched down_since down_since (sample (some down) false 4200)
      (connect_error (activation_failure_reason target down) (some down))
      (goes_on (sample (some down) false 1000) begins refl) refl

next_wake_bounds_example :
    (next_wake 90000 1100 down_since ≤ 90000 - 1100)
    × ((p : PendingFailure)
        → down_since.pending_failure ≡ some p
        → is_some (some down) ≡ true
        → next_wake 90000 1100 down_since ≤ p.since + 3000 - 1100)
    × (1100 < 90000
        → next_wake 90000 1100 down_since ≡ 0
        → (p : PendingFailure) × (down_since.pending_failure ≡ some p) × (p.since + 3000 ≤ 1100))
unfolding observe nm_daemon.Activation.Wait.check_terminal_failure
next_wake_bounds_example =
    next_wake_bounds target (sample (some down) false 1000) default_wait down_since 90000 1100 refl

abbrev round : Bool → ℕ → Sample → Round
round stopped now s = record {
  cancelled = stopped;
  scope = none;
  scope_read = now;
  deadline_read = now;
  answer = ok s;
  failed_scope = none;
  failed_read = now;
  abort_read = now;
}

abbrev rounds : List Round
rounds =
    round false 500 (sample (some down) false 500)
    ∷ round false 700 (sample (some up) true 700)
    ∷ round false 90000 (sample none false 90000)
    ∷ []

wait_returns_example :
    is_some (wait_for_active_target_path target (some "/active/1") 90000 rounds default_wait) ≡ true
wait_returns_example = wait_returns target (some "/active/1") 90000 rounds default_wait refl

success_is_active_example : any (λ x. not (is_last 90000 x) && shows_target x.answer) rounds ≡ true
unfolding wait_for_active_target_path observe nm_daemon.Activation.Wait.check_terminal_failure
success_is_active_example =
    success_is_active target (some "/active/1") 90000 rounds default_wait no_abort refl

abbrev stopped : Credentials
stopped = record (new_credentials 90000) { failure = some stop_cancelled }

abbrev asking : Credentials
asking = record (new_credentials 90000) { pending_credentials = 1 }

credentials_expire_example :
    let t = run asking (reads_error 75000 ∷ stops stop_cancelled ∷ []) in
    ((credential_error 75000 asking).1 ≡ some (stop_error stop_expired))
    × ((credential_error 80000 t).1 ≡ some (stop_error stop_expired))
    × ((activation_error 80000 cancelled_error t).1 ≡ stop_error stop_expired)
    × (live 80000 t ≡ false)
credentials_expire_example =
    credentials_expire asking 75000 80000 (stops stop_cancelled ∷ []) cancelled_error refl
      (omega arith) (omega arith)
