-- ===== src/Portal/Intents.antt =====
-- `Mode`, `Intent` and the errors of src/portal.rs and src/portal/ledger.rs.
use nm_daemon.Base.{ℕ, String, Bool, true, false}

pub data Mode : Type 0 where
  automatic manual : Mode

pub record Intent : Type 0 where
  pub launch_id : String
  pub episode : String
  pub url : String
  pub reason : Mode
  pub expires_at_ms : ℕ  -- u64

abbrev pub is_automatic : Mode → Bool
is_automatic automatic = true
is_automatic manual = false

-- One constructor for each message of the two files.
pub data PortalError : Type 0 where
  unavailable busy episode_limit unknown_launch : PortalError
  claimed_or_expired connection_changed not_claimed : PortalError
  byte_limit unserializable write_failed : PortalError
  unsupported corrupt : PortalError
  no_primary no_identity no_proof no_request unexpected_request no_owner : PortalError
  no_random no_snapshot : PortalError
