-- ===== src/Model/Failures.antt =====
-- `ConnectFailureReason` of src/model.rs.
use nm_daemon.Base.{Bool, true, false}

pub data ConnectFailureReason : Type 0 where
  secret_required wrong_password password_unavailable authorization_required : ConnectFailureReason
  unsupported_auth validation_error not_found timeout dhcp_failed : ConnectFailureReason
  activation_failed unknown : ConnectFailureReason

abbrev pub is_wrong_password : ConnectFailureReason → Bool
is_wrong_password wrong_password = true
is_wrong_password _ = false
