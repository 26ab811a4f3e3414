-- ===== src/Activation/Credentials.antt =====
-- `State` of src/activation.rs: the stop that a credential request leaves on its activation. A call
-- holds the lock where it writes, so it is one step; `now` is the clock that the call reads, in ms.
-- The waking of the waiters is left out; Activation/Registry has the registry of activations.
pub mod Stops
use nm_daemon.Base.{
  ℕ, suc, ◌-◌, Bool, true, false, not, ◌&&◌, Option, none, some, ltb, leb, if◌then◌else◌, or_else,
}
use nm_daemon.Model.Failures
use nm_daemon.Model.Failures.{ConnectFailureReason}
use nm_daemon.Model.Errors.{ErrorCode, cancelled, code_of, connect_reason}

pub data CredentialStop : Type 0 where
  stop_cancelled stop_expired stop_unavailable : CredentialStop

-- A device's status, as `WifiActivationStatus` of src/nm/mod.rs has it.
pub record WifiActivationStatus : Type 0 where
  pub device_state : ℕ
  pub device_state_reason : ℕ × ℕ
  pub active_connection_state : Option ℕ

-- A domain error: its code, and the details that a caller reads back.
pub record ConnectError : Type 0 where
  pub code : ErrorCode
  pub status : Option WifiActivationStatus
  pub credential_outcome : Option CredentialStop

pub record Credentials : Type 0 where
  pub deadline : ℕ
  pub finished : Bool
  pub pending_credentials : ℕ
  pub missing_frontend : Bool
  pub failure : Option CredentialStop

abbrev pub authentication_reserve : ℕ
authentication_reserve = 15000

-- `Guard::new`, for the state alone.
abbrev pub new_credentials : ℕ → Credentials
new_credentials deadline = record {
  deadline = deadline;
  finished = false;
  pending_credentials = 0;
  missing_frontend = false;
  failure = none;
}

abbrev is_none : Option CredentialStop → Bool
is_none none = true
is_none (some r) = false

unfoldable pub live : ℕ → Credentials → Bool
live now s = not s.finished && ltb now s.deadline && is_none s.failure

-- `checked_sub`, which fails where the clock starts later than the reserve.
abbrev pub credential_deadline : Credentials → ℕ
credential_deadline s =
    if leb authentication_reserve s.deadline
    then s.deadline - authentication_reserve
    else s.deadline

unfoldable pub note_frontend_availability : Bool → Credentials → Credentials
note_frontend_availability available s = record s { missing_frontend = not available }

-- `stop`: only the first reason stays.
abbrev pub stop : CredentialStop → Credentials → Credentials
stop r s = record s { failure = some (or_else s.failure r) }

unfoldable pub track_credentials : Credentials → Credentials
track_credentials s = record s { pending_credentials = suc s.pending_credentials }

-- `Drop` of `CredentialGuard`.
unfoldable pub untrack_credentials : Credentials → Credentials
untrack_credentials s = record s { pending_credentials = s.pending_credentials - 1 }

-- `Drop` of `Guard`, for the state alone.
unfoldable pub finish : Credentials → Credentials
finish s = record s { finished = true }

abbrev pub stop_error : CredentialStop → ConnectError
stop_error stop_cancelled = record {
  code = cancelled;
  status = none;
  credential_outcome = some stop_cancelled;
}
stop_error stop_expired = record {
  code = code_of Failures.timeout;
  status = none;
  credential_outcome = some stop_expired;
}
stop_error stop_unavailable = record {
  code = code_of Failures.password_unavailable;
  status = none;
  credential_outcome = some stop_unavailable;
}

abbrev pub failure_error : Option CredentialStop → Option ConnectError
failure_error none = none
failure_error (some r) = some (stop_error r)

abbrev pub out_of_time : ℕ → Credentials → Bool
out_of_time now s = not s.finished && ltb 0 s.pending_credentials && leb (credential_deadline s) now

-- `State::error`: the verifier enforces the credential budget as well.
unfoldable pub credential_error : ℕ → Credentials → Credentials × Option ConnectError
credential_error now s =
    let s' = if out_of_time now s then stop stop_expired s else s in (s', failure_error s'.failure)

abbrev asks_for_secret : Option ConnectFailureReason → Bool
asks_for_secret (some Failures.password_unavailable) = true
asks_for_secret (some Failures.secret_required) = true
asks_for_secret _ = false

-- `State::activation_error`
unfoldable pub activation_error : ℕ → ConnectError → Credentials → Credentials × ConnectError
activation_error now e s =
    let s' =
      if s.missing_frontend && asks_for_secret (connect_reason e.code)
      then stop stop_unavailable s
      else s in
    let (t, found) = credential_error now s' in (t, or_else found e)
