-- ===== src/Activation/Wait.antt =====
-- src/connect_wait.rs: the wait for a target to become active, with src/deadline.rs, the parts of
-- src/nm/mod.rs and src/connect_error.rs that it reads, and the cancellation check of
-- src/connect_cancel.rs. NetworkManager's answers and the clock are the samples of each round, in ms.
-- Logging and the messages of errors are left out.
pub mod Grace
pub mod Loop
use nm_daemon.Base.{
  ℕ, ◌+◌, ◌-◌, min, String, Bool, true, false, not, ◌&&◌, ◌||◌, Option, none, some, List, [], ◌∷◌,
  ltb, leb, ◌==◌, nat_eq, if◌then◌else◌, is_some, Result, ok, err, option_filter,
}
use mathlib.Core.Option
use nm_daemon.Model.Failures.{
  ConnectFailureReason, wrong_password, password_unavailable, not_found, timeout, dhcp_failed,
  activation_failed,
}
use nm_daemon.Model.Errors
use nm_daemon.Model.Errors.{code_of}
use nm_daemon.Activation.Credentials.{
  WifiActivationStatus, ConnectError, Credentials, credential_error, activation_error,
}

pub data Security : Type 0 where
  open_network owe owe_transition wpa wpa2_or3 wep enterprise : Security
  other : String → Security

-- What the wait reads of a `WifiConnectTarget`.
pub record Target : Type 0 where
  pub hidden : Bool
  pub security : Option Security

abbrev pub activation_failure_grace : ℕ
activation_failure_grace = 3000

abbrev pub activation_timeout : ℕ
activation_timeout = 90000

-- `WifiActivationStatus::activated`
abbrev pub activated : WifiActivationStatus → Bool
activated st =
    st.device_state == 100 && elim (st.active_connection_state) [ none ↦ false | some c ↦ c == 2 ]

abbrev pub terminal_failure_after_progress : WifiActivationStatus → Bool
terminal_failure_after_progress st = leb st.device_state 30

abbrev pub target_appears_to_need_secret : Target → Bool
target_appears_to_need_secret t = elim (t.security) [
  | none ↦ t.hidden
  | some wpa ↦ true
  | some wpa2_or3 ↦ true
  | some wep ↦ true
  | some _ ↦ false
]

abbrev pub requested_activation_stopped : Option String → Option ℕ → Bool
requested_activation_stopped path state =
    is_some path && elim state [ none ↦ true | some c ↦ leb 3 c ]

-- The reasons of `NMDeviceStateReason` that the code names.
unfoldable pub activation_failure_reason : Target → WifiActivationStatus → ConnectFailureReason
activation_failure_reason t st =
    let r = st.device_state_reason.1 in
    if r == 7
    then password_unavailable
    else if r == 5 || r == 6 || r == 15 || r == 16 || r == 17
    then dhcp_failed
    else if r == 53
    then not_found
    else if r == 11
    then timeout
    else if (r == 8 || r == 9 || r == 10) && target_appears_to_need_secret t
    then wrong_password
    else activation_failed

abbrev as_timeout : ConnectFailureReason → ConnectFailureReason
as_timeout activation_failed = timeout
as_timeout r = r

unfoldable pub timeout_failure_reason : Target → WifiActivationStatus → ConnectFailureReason
timeout_failure_reason t st = as_timeout (activation_failure_reason t st)

-- `activation_error` of connect_wait.rs, and `connect_failure` without a status.
abbrev pub connect_error : ConnectFailureReason → Option WifiActivationStatus → ConnectError
connect_error r st = record { code = code_of r; status = st; credential_outcome = none }

pub record PendingFailure : Type 0 where
  pub since : ℕ
  pub status : WifiActivationStatus

pub record ActivationWait : Type 0 where
  pub saw_progress : Bool
  pub has_current_status : Bool
  pub pending_failure : Option PendingFailure
  pub last_status : Option WifiActivationStatus

abbrev pub default_wait : ActivationWait
default_wait = record {
  saw_progress = false;
  has_current_status = false;
  pending_failure = none;
  last_status = none;
}

-- What one round of the loop observes.
pub record Sample : Type 0 where
  pub status : Option WifiActivationStatus
  pub ssid_matches : Bool
  pub requested_path : Option String
  pub requested_state : Option ℕ
  pub now : ℕ

abbrev pub latch_pending_failure : Option PendingFailure → WifiActivationStatus → ℕ → PendingFailure
latch_pending_failure none st now = record { since = now; status = st }
latch_pending_failure (some p) st now =
    if p.status.device_state_reason.1 == 0 && not (st.device_state_reason.1 == 0)
    then record p { status = st }
    else p

unfoldable pub check_terminal_failure :
    Target
    → WifiActivationStatus
    → Sample
    → ActivationWait
    → ActivationWait × Result ConnectError (Unit {0})
check_terminal_failure t st x w =
    let stopped = requested_activation_stopped x.requested_path x.requested_state in
    if not (w.saw_progress && (terminal_failure_after_progress st || stopped))
    then (record w { pending_failure = none }, ok tt)
    else let p = latch_pending_failure w.pending_failure st x.now in
      let w' = record w { pending_failure = some p } in
      if ltb (x.now - p.since) activation_failure_grace
      then (w', ok tt)
      else (w', err (connect_error (activation_failure_reason t p.status) (some p.status)))

abbrev after_check :
    WifiActivationStatus
    → ActivationWait × Result ConnectError (Unit {0})
    → ActivationWait × Result ConnectError Bool
after_check st (w, ok u) = (record w { last_status = some st }, ok false)
after_check st (w, err e) = (w, err e)

-- `ActivationWait::observe`
unfoldable pub observe :
    Target → Sample → ActivationWait → ActivationWait × Result ConnectError Bool
observe t x w = elim (x.status) [
  | none ↦ (record w { has_current_status = false }, ok x.ssid_matches)
  | some st ↦
      let w' = record w {
        has_current_status = true;
        saw_progress = w.saw_progress || ltb 30 st.device_state || is_some x.requested_path;
      } in
      if x.ssid_matches && activated st
      then (w', ok true)
      else after_check st (check_terminal_failure t st x w')
]

-- `Deadline::wait_at`
abbrev pub wait_at : ℕ → ℕ → Option ℕ → ℕ
wait_at deadline now none = deadline - now
wait_at deadline now (some longest) = min longest (deadline - now)

-- The rest of the grace period, `none` where it does not bound the wait.
abbrev grace_wait : ActivationWait → ℕ → Option ℕ
grace_wait w now =
    option_filter (λ rest. w.has_current_status || not (rest == 0))
      (Option.map (λ p. activation_failure_grace - (now - p.since)) w.pending_failure)

unfoldable pub next_wake : ℕ → ℕ → ActivationWait → ℕ
next_wake deadline now w = wait_at deadline now (grace_wait w now)

unfoldable pub timeout_error : Target → ActivationWait → ConnectError
timeout_error t w = elim (w.last_status) [
  | none ↦ connect_error timeout none
  | some st ↦ connect_error (timeout_failure_reason t st) (some st)
]

-- The deadline that the loop starts with.
abbrev pub wait_deadline : Option Credentials → ℕ → ℕ
wait_deadline none now = now + activation_timeout
wait_deadline (some s) now = s.deadline

-- One round: the flag, the scope and the clocks as the loop reads them, and NetworkManager's answer,
-- which fails with an error of its own.
pub record Round : Type 0 where
  pub cancelled : Bool
  pub scope : Option Credentials
  pub scope_read : ℕ
  pub deadline_read : ℕ
  pub answer : Result ConnectError Sample
  pub failed_scope : Option Credentials  -- the scope when a failure is annotated
  pub failed_read : ℕ
  pub abort_read : ℕ

-- What the loop aborts on the way out.
pub data Abort : Type 0 where
  no_abort target_abort : Abort
  path_abort : String → Abort

abbrev pub abort_requested : Option String → Abort
abort_requested none = no_abort
abort_requested (some path) = path_abort path

abbrev pub scope_error : ℕ → Option Credentials → Option ConnectError
scope_error now none = none
scope_error now (some s) = (credential_error now s).1

-- `activation_scope_error`
unfoldable pub activation_scope_error :
    Option String → Option Credentials → ℕ → ℕ → ConnectError → Abort × ConnectError
activation_scope_error path none now later e = (no_abort, e)
activation_scope_error path (some s) now later e =
    let (s', e') = activation_error now e s in
    (if is_some (credential_error later s').1 then abort_requested path else no_abort, e')

abbrev pub cancelled_error : ConnectError
cancelled_error = record { code = Errors.cancelled; status = none; credential_outcome = none }

abbrev wait_on :
    Option String
    → Round
    → ActivationWait × Result ConnectError Bool
    → (ActivationWait → Option (Abort × Result ConnectError (Unit {0})))
    → Option (Abort × Result ConnectError (Unit {0}))
wait_on path x (w, ok true) rest = some (no_abort, ok tt)
wait_on path x (w, ok false) rest = rest w
wait_on path x (w, err e) rest =
    let (a, e') = activation_scope_error path x.failed_scope x.failed_read x.abort_read e in
    some (a, err e')

abbrev wait_answered :
    Target
    → Option String
    → Round
    → Result ConnectError Sample
    → ActivationWait
    → (ActivationWait → Option (Abort × Result ConnectError (Unit {0})))
    → Option (Abort × Result ConnectError (Unit {0}))
wait_answered t path x (err e) w rest = some (no_abort, err e)
wait_answered t path x (ok sample) w rest =
    wait_on path x (observe t (record sample { requested_path = path }) w) rest

abbrev pub wait_round :
    Target
    → Option String
    → ℕ
    → Round
    → ActivationWait
    → (ActivationWait → Option (Abort × Result ConnectError (Unit {0})))
    → Option (Abort × Result ConnectError (Unit {0}))
wait_round t path deadline x w rest =
    if x.cancelled
    then some (target_abort, err cancelled_error)
    else elim (scope_error x.scope_read x.scope) [
      | some e ↦ some (abort_requested path, err e)
      | none ↦
          if leb deadline x.deadline_read
          then some (abort_requested path, err (timeout_error t w))
          else wait_answered t path x x.answer w rest
    ]

-- The loop of `wait_for_active_target_path`, on the rounds it makes; `none` where they run out.
unfoldable pub wait_for_active_target_path :
    Target
    → Option String
    → ℕ
    → List Round
    → ActivationWait
    → Option (Abort × Result ConnectError (Unit {0}))
wait_for_active_target_path t path deadline [] w = none
wait_for_active_target_path t path deadline (x ∷ xs) w =
    wait_round t path deadline x w (wait_for_active_target_path t path deadline xs)
