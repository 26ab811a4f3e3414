-- ===== src/Secret/Policy.antt =====
-- `Policy` of src/daemon_secret/storage.rs: what may be promised about keeping a credential. `flags` reads
-- the secret flags of a key from the profile's settings, as `flags` of src/network_credentials.rs does.
pub mod Choices
use nm_daemon.Base.{
  ℕ, ◌/◌, ◌%◌, String, Bool, true, false, not, ◌&&◌, ◌||◌, Option, none, some, List, [], ◌∷◌,
  Result, ok, err, ◌>>=◌, ◌>>◌, ensure, if◌then◌else◌, ◌==◌, nat_eq, string_eq,
}
use nm_daemon.Base.Sets.{add}

-- The bits AGENT_OWNED and NOT_SAVED of a key's flags.
abbrev pub agent_owned : ℕ → Bool
agent_owned flags = flags % 2 == 1

abbrev pub not_saved : ℕ → Bool
not_saved flags = (flags / 2) % 2 == 1

pub data Rejection : Type 0 where
  temporary_activation_required networkmanager_migration_required : Rejection

pub record Policy : Type 0 where
  pub persistent : List String
  pub migration_required : Bool

abbrev pub default_policy : Policy
default_policy = record { persistent = []; migration_required = false }

-- `flags & (AGENT_OWNED | NOT_SAVED)`: nothing set, only the first set, or anything else.
abbrev noted : String → ℕ → Policy → Policy
noted key flags p =
    if not (agent_owned flags) && not (not_saved flags)
    then record p { persistent = add key p.persistent }
    else if agent_owned flags && not (not_saved flags)
    then record p { migration_required = true }
    else p

module _ (section : String) (flags : String → Result String ℕ) where
  -- The loop of `from_request`.
  unfoldable pub note_keys : List String → Policy → Result String Policy
  note_keys [] p = ok p
  note_keys (key ∷ keys) p = flags key >>= λ f.
      ensure (not (section == "wifi-p2p") || not_saved f)
        "WPS enrollment requires explicit temporary policy"
      >> note_keys keys (noted key f p)

  unfoldable pub from_request : List String → Result String Policy
  from_request [] = err "request has no supported credential names"
  from_request (key ∷ keys) = note_keys (key ∷ keys) default_policy

abbrev is_empty : List String → Bool
is_empty [] = true
is_empty (x ∷ xs) = false

unfoldable pub rejection : Policy → Bool → Option Rejection
rejection p save =
    if not save && not (is_empty p.persistent)
    then some temporary_activation_required
    else if save && p.migration_required
    then some networkmanager_migration_required
    else none
