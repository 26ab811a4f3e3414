-- ===== src/Runtime/Admission.antt =====
-- src/daemon_runtime/admission.rs: which connection attempts may start. Instants and durations are
-- milliseconds; the mutex makes each operation one step. The standard hasher is a parameter.
pub mod Rules
pub mod Retries
pub mod Guards
use nm_daemon.Base.{
  ℕ, ◌+◌, ◌-◌, String, Bool, true, false, not, ◌&&◌, ◌||◌, Option, none, some, List, [], ◌∷◌, ltb,
  if◌then◌else◌, is_some, or_else, and_then, Result, ok, err, nat_eq, string_eq,
}
use nm_daemon.Base.Map.{Map, lookup, insert, remove, filter_values}
use nm_daemon.Base.Sets.{has, add, delete}
use nm_daemon.Model.Failures.{
  ConnectFailureReason, wrong_password, password_unavailable, secret_required, is_wrong_password,
}

abbrev pub wrong_password_retry_delay : ℕ
wrong_password_retry_delay = 10000

pub record ConnectAttemptKey : Type 0 where
  pub identity : String
  pub credential_fingerprint : ℕ  -- u64
  pub supplied_credentials : Bool

-- `ConnectAttemptKey::new` over the hasher.
pub new_key : (List ℕ → ℕ) → String → List ℕ → Bool → ConnectAttemptKey
new_key hash identity material supplied = record {
  identity = identity;
  credential_fingerprint = hash material;
  supplied_credentials = supplied;
}

pub record ConnectAttemptPolicy : Type 0 where
  pub active_identities : List String
  pub blocked_until : Map String (Map ℕ ℕ)
  pub stale_credentials : List String

pub data ConnectAdmission : Type 0 where
  active : ConnectAdmission
  retry_after : ℕ → ConnectAdmission
  credentials_required : ConnectAdmission

abbrev pub default_policy : ConnectAttemptPolicy
default_policy = record { active_identities = []; blocked_until = []; stale_credentials = [] }

abbrev pub is_empty : Map ℕ ℕ → Bool
is_empty [] = true
is_empty (x ∷ m) = false

abbrev pub keep_future : ℕ → ℕ → Option ℕ
keep_future now deadline = if ltb now deadline then some deadline else none

-- The closure of the outer `retain`.
unfoldable pub expire_fingerprints : ℕ → Map ℕ ℕ → Option (Map ℕ ℕ)
expire_fingerprints now m =
    let kept = filter_values (keep_future now) m in if is_empty kept then none else some kept

unfoldable pub expire : ℕ → ConnectAttemptPolicy → ConnectAttemptPolicy
expire now p = record p { blocked_until = filter_values (expire_fingerprints now) p.blocked_until }

abbrev pub deadline_of : ConnectAttemptKey → ConnectAttemptPolicy → Option ℕ
deadline_of a p = and_then (lookup a.identity p.blocked_until) (lookup a.credential_fingerprint)

unfoldable pub admit :
    ConnectAttemptKey
    → ℕ
    → ConnectAttemptPolicy
    → ConnectAttemptPolicy × Result ConnectAdmission (Unit {0})
admit a now p =
    let q = expire now p in
    if has a.identity q.active_identities
    then (q, err active)
    else if has a.identity q.stale_credentials && not a.supplied_credentials
    then (q, err credentials_required)
    else elim (deadline_of a q) [
      | some deadline ↦ (q, err (retry_after (deadline - now)))
      | none ↦ (record q { active_identities = add a.identity q.active_identities }, ok tt)
    ]

unfoldable pub abandon : ConnectAttemptKey → ConnectAttemptPolicy → ConnectAttemptPolicy
abandon a p = record p { active_identities = delete a.identity p.active_identities }

-- The `matches!` of `complete`.
abbrev pub is_credential_failure : Option ConnectFailureReason → Bool
is_credential_failure (some wrong_password) = true
is_credential_failure (some password_unavailable) = true
is_credential_failure (some secret_required) = true
is_credential_failure _ = false

abbrev pub was_wrong_password : Option ConnectFailureReason → Bool
was_wrong_password none = false
was_wrong_password (some r) = is_wrong_password r

unfoldable pub block : ConnectAttemptKey → ℕ → ConnectAttemptPolicy → ConnectAttemptPolicy
block a now p = record p {
  blocked_until =
      insert a.identity
        (insert a.credential_fingerprint (now + wrong_password_retry_delay)
          (or_else (lookup a.identity p.blocked_until) []))
        p.blocked_until;
}

unfoldable pub complete :
    ConnectAttemptKey
    → Option ConnectFailureReason
    → Bool
    → ℕ
    → ConnectAttemptPolicy
    → ConnectAttemptPolicy
unfolding abandon block
complete a reason succeeded now p =
    let q = abandon a p in
    let r =
      if is_credential_failure reason
      then record q { stale_credentials = add a.identity q.stale_credentials }
      else q in
    if succeeded
    then record q {
      stale_credentials = delete a.identity q.stale_credentials;
      blocked_until = remove a.identity q.blocked_until;
    }
    else if was_wrong_password reason
    then block a now r
    else r
