-- ===== src/Forget.antt =====
-- src/forget.rs: disconnect from a network and delete its saved profiles. The methods of the
-- NetworkManager binding are the interface of Forget/Binding; a run keeps the calls that it makes.
-- The loop that waits for the disconnection takes fuel. Messages and logging are left out; a warning
-- is the reason for it. The two cache refreshes that end a run are best effort and leave no trace
-- in the result, so they are left out too.
pub mod Binding
mod Examples
pub mod Execute
pub mod Order
pub mod Safety
pub mod Report
pub mod Termination
use nm_daemon.Base.{
  ℕ, zero, suc, ◌+◌, ◌-◌, String, Bool, true, false, not, ◌&&◌, List, [], ◌∷◌, ◌++◌, Result, ok,
  err, if◌then◌else◌, ltb, leb, min, length, retain, ◌==◌, nat_eq, list_eq, Option, none, some,
}
use nm_daemon.Forget.Binding.{
  event_poll_interval, SavedProfile, Network, Call, listed, observed, observation_failed,
  autoconnect_off, disconnect_asked, deleted,
}

-- FORGET_DEACTIVATION_TIMEOUT, in ms.
abbrev pub deactivation_timeout : ℕ
deactivation_timeout = 10000

pub data ForgetStatus : Type 0 where
  forgotten partial failed not_saved disconnect_pending cancellation_pending : ForgetStatus

pub record ForgetProfile : Type 0 where
  pub id : String
  pub path : String

pub record ForgetProfileFailure : Type 0 where
  pub id : String
  pub path : String
  pub message : String

-- The reasons for the warnings of a run.
pub data Warning : Type 0 where
  autoconnect_kept : (id message : String) → Warning
  not_confirmed : Warning

pub record ForgetResult : Type 0 where
  pub status : ForgetStatus
  pub request_id : String
  pub was_active : Bool
  pub disconnected : Bool
  pub profiles_found : ℕ
  pub deleted_profiles : List ForgetProfile
  pub failed_profiles : List ForgetProfileFailure
  pub cancelled_connect_requests : List String
  pub pending_connect_requests : List String
  pub warnings : List Warning

-- `ForgetResult::base`
abbrev pub base : ForgetStatus → String → ForgetResult
base status request_id = record {
  status = status;
  request_id = request_id;
  was_active = false;
  disconnected = false;
  profiles_found = 0;
  deleted_profiles = [];
  failed_profiles = [];
  cancelled_connect_requests = [];
  pending_connect_requests = [];
  warnings = [];
}

-- `ForgetResult::completed`, by the number of profiles found and of those that failed.
pub completed_status : (found failures : ℕ) → ForgetStatus
completed_status found failures =
    if found == 0
    then not_saved
    else if failures == 0
    then forgotten
    else if found == failures
    then failed
    else partial

pub completed :
    String
    → (was_active disconnected : Bool) → List String
    → List ForgetProfile
    → List ForgetProfileFailure
    → List Warning
    → ForgetResult
completed request_id was_active disconnected cancelled done failures warnings =
    let found = length done + length failures in
    record (base (completed_status found (length failures)) request_id) {
      was_active = was_active;
      disconnected = disconnected;
      profiles_found = found;
      deleted_profiles = done;
      failed_profiles = failures;
      cancelled_connect_requests = cancelled;
      warnings = warnings;
    }

pub cancellation_pending_result : String → List String → List String → ForgetResult
cancellation_pending_result request_id cancelled pending =
    record (base cancellation_pending request_id) {
      cancelled_connect_requests = cancelled;
      pending_connect_requests = pending;
    }

pub disconnect_pending_result : String → ℕ → List String → List Warning → ForgetResult
disconnect_pending_result request_id found cancelled warnings =
    record (base disconnect_pending request_id) {
      was_active = true;
      profiles_found = found;
      cancelled_connect_requests = cancelled;
      warnings = warnings;
    }

-- Why a run stops without a result.
pub data Stop : Type 0 where
  call_failed : String → Stop
  out_of_fuel : Stop

module _ (network : Network) where
  open network use {
    Nm, now, saved_wifi_connections, wifi_connection_active_for_ssid,
    set_connection_autoconnect_by_path, disconnect_wifi_for_ssid, delete_connection_by_path,
    wait_for_event,
  }

  pub record World : Type 0 where
    pub nm : Nm
    pub calls : List Call

  abbrev pub Action : Type 0 → Type 0
  Action A = World → Result Stop A × World

  infixl 5 ◌>>=◌ ◌>>◌
  abbrev pub ◌>>=◌ : {A B : Type 0} → Action A → (A → Action B) → Action B
  ◌>>=◌ m f w = let (r, w') = m w in elim r [ ok a ↦ f a w' | err e ↦ (err e, w') ]

  abbrev pub ◌>>◌ : {B : Type 0} → Action (Unit {0}) → Action B → Action B
  m >> k = m >>= λ _. k

  abbrev pub pure : {A : Type 0} → A → Action A
  pure a w = (ok a, w)

  -- A call of the binding, which goes on the list whether it succeeds or not.
  abbrev logged : {A : Type 0} → (Result String A → Call) → Result String A × Nm → Action A
  logged call (ok a, s) w = (ok a, record { nm = s; calls = call (ok a) ∷ w.calls })
  logged call (err e, s) w =
      (err (call_failed e), record { nm = s; calls = call (err e) ∷ w.calls })

  abbrev pub observation : Result String Bool → Call
  observation (ok active) = observed active
  observation (err e) = observation_failed

  abbrev pub succeeded : Result String (Unit {0}) → Bool
  succeeded (ok u) = true
  succeeded (err e) = false

  unfoldable pub is_active : List ℕ → Action Bool
  is_active ssid w = logged observation (wifi_connection_active_for_ssid ssid w.nm) w

  saved_profiles : Action (List SavedProfile)
  saved_profiles w = logged (λ _. listed) (saved_wifi_connections w.nm) w

  unfoldable pub profiles_for : List ℕ → Action (List SavedProfile)
  unfolding saved_profiles
  profiles_for ssid = do all ← saved_profiles; pure (retain (λ p. p.ssid_bytes == ssid) all)

  -- A failure leaves a warning, and the loop goes on.
  unfoldable pub disable_autoconnect : List SavedProfile → World → List Warning × World
  disable_autoconnect [] w = ([], w)
  disable_autoconnect (p ∷ ps) w =
      let (r, s) = set_connection_autoconnect_by_path p.path false w.nm in
      let (rest, w') =
        disable_autoconnect ps (record { nm = s; calls = autoconnect_off p.path ∷ w.calls }) in
      (elim r [ ok u ↦ rest | err e ↦ autoconnect_kept p.id e ∷ rest ], w')

  -- A wait of at most one poll interval, and not past the deadline.
  abbrev pub waited : ℕ → World → World
  waited deadline w = record w {
    nm = wait_for_event (min event_poll_interval (deadline - now w.nm)) w.nm;
  }

  -- The `while` of `disconnect_and_confirm`: whether the disconnection was confirmed in time.
  unfoldable pub confirm : ℕ → ℕ → List ℕ → Action Bool
  confirm zero deadline ssid w = (err out_of_fuel, w)
  confirm (suc fuel) deadline ssid w =
      if leb deadline (now w.nm)
      then (ok false, w)
      else let (r, w') = is_active ssid w in
        let rest = confirm fuel deadline ssid (waited deadline w') in
        elim r [ err e ↦ (err e, w') | ok active ↦ if active then rest else (ok true, w') ]

  disconnect : List ℕ → Action (Unit {0})
  disconnect ssid w = logged (λ _. disconnect_asked) (disconnect_wifi_for_ssid ssid w.nm) w

  unfoldable pub disconnect_and_confirm : ℕ → List ℕ → Action Bool
  unfolding disconnect
  disconnect_and_confirm fuel ssid = do
    disconnect ssid
    λ w. confirm fuel (now w.nm + deactivation_timeout) ssid w

  abbrev pub delete_one : SavedProfile → World → Result String (Unit {0}) × World
  delete_one p w =
      let (r, s) = delete_connection_by_path p.path w.nm in
      (r, record { nm = s; calls = deleted p.path (succeeded r) ∷ w.calls })

  -- Every profile is tried; what failed is kept with its reason.
  unfoldable pub delete_profiles :
      List SavedProfile → World → (List ForgetProfile × List ForgetProfileFailure) × World
  delete_profiles [] w = (([], []), w)
  delete_profiles (p ∷ ps) w =
      let (r, w1) = delete_one p w in
      let ((done, failures), w') = delete_profiles ps w1 in
      (
        elim r [
          | ok u ↦ (record { id = p.id; path = p.path } ∷ done, failures)
          | err e ↦ (done, record { id = p.id; path = p.path; message = e } ∷ failures)
        ],
        w',
      )

  -- The deletions, and the result of a run that made them.
  unfoldable pub finish_forget :
      String → Bool → Bool → List String → List SavedProfile → List Warning → Action ForgetResult
  finish_forget request_id was_active gone cancelled profiles warnings w =
      let ((done, failures), w') = delete_profiles profiles w in
      (ok (completed request_id was_active gone cancelled done failures warnings), w')

  -- What follows the disconnection of an active network.
  unfoldable pub after_disconnect :
      String → List String → List SavedProfile → List Warning → Bool → Action ForgetResult
  after_disconnect request_id cancelled profiles warnings true =
      finish_forget request_id true true cancelled profiles warnings
  after_disconnect request_id cancelled profiles warnings false = pure (
      disconnect_pending_result request_id (length profiles) cancelled
        (warnings ++ not_confirmed ∷ []))

  unfoldable pub disconnect_first :
      ℕ → String → List ℕ → List String → List SavedProfile → List Warning → Action ForgetResult
  disconnect_first fuel request_id ssid cancelled profiles warnings = do
    gone ← disconnect_and_confirm fuel ssid
    after_disconnect request_id cancelled profiles warnings gone

  unfoldable pub proceed :
      ℕ → String → List ℕ → List String → List SavedProfile → Bool → Action ForgetResult
  proceed fuel request_id ssid cancelled profiles was_active w =
      let (warnings, w') = disable_autoconnect (retain (λ p. p.autoconnect) profiles) w in
      if was_active
      then disconnect_first fuel request_id ssid cancelled profiles warnings w'
      else finish_forget request_id false false cancelled profiles warnings w'

  -- `ForgetService::run`
  unfoldable pub run : ℕ → String → List ℕ → List String → Action ForgetResult
  run fuel request_id ssid cancelled = do
    profiles ← profiles_for ssid
    was_active ← is_active ssid
    proceed fuel request_id ssid cancelled profiles was_active
