-- ===== src/Model/Errors.antt =====
-- `ErrorCode` of src/error.rs, and its correspondence with the reasons of a failed connection.
use nm_daemon.Base.{Option, none, some}
use nm_daemon.Model.Failures
use nm_daemon.Model.Failures.{ConnectFailureReason}

pub data ErrorCode : Type 0 where
  validation_error networkmanager_unavailable conflict authorization_required : ErrorCode
  not_found timeout outcome_unknown cancelled secret_required wrong_password : ErrorCode
  password_unavailable unsupported_auth dhcp_failed activation_failed : ErrorCode
  subprocess_failed internal_error unknown : ErrorCode

-- `From<ConnectFailureReason>`
abbrev pub code_of : ConnectFailureReason → ErrorCode
code_of Failures.secret_required = secret_required
code_of Failures.wrong_password = wrong_password
code_of Failures.password_unavailable = password_unavailable
code_of Failures.authorization_required = authorization_required
code_of Failures.unsupported_auth = unsupported_auth
code_of Failures.validation_error = validation_error
code_of Failures.not_found = not_found
code_of Failures.timeout = timeout
code_of Failures.dhcp_failed = dhcp_failed
code_of Failures.activation_failed = activation_failed
code_of Failures.unknown = unknown

-- `ErrorCode::connect_reason`
abbrev pub connect_reason : ErrorCode → Option ConnectFailureReason
connect_reason validation_error = some Failures.validation_error
connect_reason authorization_required = some Failures.authorization_required
connect_reason not_found = some Failures.not_found
connect_reason timeout = some Failures.timeout
connect_reason cancelled = some Failures.activation_failed
connect_reason activation_failed = some Failures.activation_failed
connect_reason subprocess_failed = some Failures.activation_failed
connect_reason secret_required = some Failures.secret_required
connect_reason wrong_password = some Failures.wrong_password
connect_reason password_unavailable = some Failures.password_unavailable
connect_reason unsupported_auth = some Failures.unsupported_auth
connect_reason dhcp_failed = some Failures.dhcp_failed
connect_reason conflict = none
connect_reason outcome_unknown = none
connect_reason networkmanager_unavailable = none
connect_reason internal_error = none
connect_reason unknown = none
