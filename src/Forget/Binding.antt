-- ===== src/Forget/Binding.antt =====
-- What src/forget.rs asks of the NetworkManager binding, as an interface, and the calls that a run
-- makes of it. An error is its rendered chain of causes. The calls are kept newest first.
use nm_daemon.Base.{
  ℕ, zero, suc, ◌-◌, min, ◌<◌, ◌≡◌, String, Bool, true, false, List, [], ◌∷◌, Result, if◌then◌else◌,
}

-- `SavedWifiConnection`, as far as forgetting reads it.
pub record SavedProfile : Type 0 where
  pub path : String
  pub id : String
  pub ssid_bytes : List ℕ
  pub autoconnect : Bool

-- The methods of `Nm` that forgetting calls, over the state of NetworkManager and the clock.
pub record Network : Type 1 where
  pub Nm : Type 0
  pub now : Nm → ℕ
  pub saved_wifi_connections : Nm → Result String (List SavedProfile) × Nm
  pub wifi_connection_active_for_ssid : List ℕ → Nm → Result String Bool × Nm
  pub set_connection_autoconnect_by_path : String → Bool → Nm → Result String (Unit {0}) × Nm
  pub disconnect_wifi_for_ssid : List ℕ → Nm → Result String (Unit {0}) × Nm
  pub delete_connection_by_path : String → Nm → Result String (Unit {0}) × Nm
  -- `wait_for_event(event_generation(), timeout)`
  pub wait_for_event : ℕ → Nm → Nm

-- FORGET_EVENT_POLL_INTERVAL, in ms.
abbrev pub event_poll_interval : ℕ
event_poll_interval = 500

-- NetworkManager and the clock after rounds of the loop that waits for a disconnection: a query, and
-- a wait of at most one poll interval, and not past the deadline.
abbrev pub rounds : (n : Network) → ℕ → List ℕ → (deadline : ℕ) → n.Nm → n.Nm
rounds n zero ssid deadline s = s
rounds n (suc k) ssid deadline s =
    let s' = (n.wifi_connection_active_for_ssid ssid s).1 in
    rounds n k ssid deadline (n.wait_for_event (min event_poll_interval (deadline - n.now s')) s')

-- A wait may return at once, when an event came in, and the clock counts whole milliseconds; but so
-- many rounds in a row take at least one.
pub record Advances (n : Network) (pace : ℕ) : Type 0 where
  pub paces :
      (ssid : List ℕ) (deadline : ℕ) (s : n.Nm) → n.now s < n.now (rounds n pace ssid deadline s)

pub data Call : Type 0 where
  listed : Call
  observed : (active : Bool) → Call
  observation_failed : Call
  autoconnect_off : (path : String) → Call
  disconnect_asked : Call
  deleted : (path : String) → (done : Bool) → Call

-- Whether the last thing that NetworkManager said about the network is that it is not active.
abbrev pub last_inactive : List Call → Bool
last_inactive [] = false
last_inactive (observed active ∷ calls) = if active then false else true
last_inactive (observation_failed ∷ calls) = false
last_inactive (listed ∷ calls) = last_inactive calls
last_inactive (autoconnect_off path ∷ calls) = last_inactive calls
last_inactive (disconnect_asked ∷ calls) = last_inactive calls
last_inactive (deleted path done ∷ calls) = last_inactive calls

-- Each deletion follows an observation that the network is not active, with no other observation of
-- the network between the two.
abbrev pub Guarded : List Call → Type 0
Guarded [] = Unit
Guarded (deleted path done ∷ calls) = (last_inactive calls ≡ true) × Guarded calls
Guarded (listed ∷ calls) = Guarded calls
Guarded (observed active ∷ calls) = Guarded calls
Guarded (observation_failed ∷ calls) = Guarded calls
Guarded (autoconnect_off path ∷ calls) = Guarded calls
Guarded (disconnect_asked ∷ calls) = Guarded calls

-- The deletions among the calls, newest first, with their outcomes.
abbrev pub deletions : List Call → List (String × Bool)
deletions [] = []
deletions (deleted path done ∷ calls) = (path, done) ∷ deletions calls
deletions (listed ∷ calls) = deletions calls
deletions (observed active ∷ calls) = deletions calls
deletions (observation_failed ∷ calls) = deletions calls
deletions (autoconnect_off path ∷ calls) = deletions calls
deletions (disconnect_asked ∷ calls) = deletions calls
