-- ===== src/Activation/Registry.antt =====
-- The registry of activations of src/activation.rs, `ACTIVE`, with the guards that hold its states. A state
-- goes by its identity. The registry holds weak references: a state is alive while its guard or a secret
-- request holds it; `held` has the states that requests hold. A key is the owner of the connection with its
-- identity, as `identity` writes it. The waking of a replaced activation's waiter is left out.
pub mod Current
pub mod Live
mod Examples
use nm_daemon.Base.{
  text_pair_eq, ℕ, suc, ◌≡◌, ◌↔◌, String, Bool, true, false, not, ◌&&◌, ◌||◌, Option, none, some,
  List, [], ◌∷◌, arith, if◌then◌else◌, option_filter, and_then, PartialEq, ◌==◌, nat_eq, string_eq,
  option_eq, find, retain, is_some,
}
use nm_daemon.Base.Map.{Map, lookup, insert, remove, filter_values}
use nm_daemon.Base.Sets.{has, add, delete}
use nm_daemon.Activation.Credentials.{
  Credentials, CredentialStop, ConnectError, stop_cancelled, new_credentials, stop, finish,
  track_credentials, untrack_credentials, note_frontend_availability, credential_error,
  activation_error,
}

abbrev pub Key : Type 0
Key = String × String

pub record Guard : Type 0 where
  pub key : Key
  pub state : ℕ

pub record Registry : Type 0 where
  pub active : Map Key ℕ
  pub guards : List Guard
  pub held : List ℕ
  pub states : ℕ → Credentials
  pub made : ℕ  -- how many states there have been

abbrev pub empty_registry : Registry
empty_registry = record {
  active = [];
  guards = [];
  held = [];
  states = λ i. new_credentials 0;
  made = 0;
}

abbrev pub guard_of : ℕ → List Guard → Option Guard
guard_of i gs = find (λ g. g.state == i) gs

-- `Weak::upgrade`
abbrev pub upgrade : Registry → ℕ → Option ℕ
upgrade r i = if is_some (guard_of i r.guards) || has i r.held then some i else none

abbrev pub set_state : ℕ → Credentials → (ℕ → Credentials) → ℕ → Credentials
set_state i s states j = if i == j then s else states j

-- The activation that a new one replaces is finished, and its credentials are cancelled.
abbrev pub retire : Option ℕ → (ℕ → Credentials) → ℕ → Credentials
retire none states = states
retire (some i) states = set_state i (stop stop_cancelled (finish (states i))) states

-- `Guard::new`
unfoldable pub begin_activation : Key → ℕ → Registry → Registry
unfolding finish
begin_activation key deadline r =
    let id = r.made in
    let alive = filter_values (upgrade r) r.active in
    let previous = and_then (lookup key alive) (upgrade r) in
    record r {
      active = insert key id alive;
      guards = record { key = key; state = id } ∷ r.guards;
      states = retire previous (set_state id (new_credentials deadline) r.states);
      made = suc id;
    }

abbrev pub drop_guard : Option Guard → Registry → Registry
drop_guard none r = r
drop_guard (some g) r = record r {
  states = set_state g.state (finish (r.states g.state)) r.states;
  active =
      if and_then (lookup g.key r.active) (upgrade r) == some g.state
      then remove g.key r.active
      else r.active;
  guards = retain (λ h. not (h.state == g.state)) r.guards;
}

-- `Drop` of the guard that holds a state, if there is one.
unfoldable pub end_activation : ℕ → Registry → Registry
unfolding finish
end_activation i r = drop_guard (guard_of i r.guards) r

-- `find`
unfoldable pub find_activation : Key → Registry → Option ℕ
find_activation key r = and_then (lookup key r.active) (upgrade r)

abbrev hold : Option ℕ → Registry → Registry
hold none r = r
hold (some i) r = record r { held = add i r.held }

-- The operations on the state of one activation.
pub data Touch : Type 0 where
  stops : CredentialStop → Touch
  tracks untracks : Touch
  notes : (available : Bool) → Touch
  asks_error : (now : ℕ) → Touch
  fails : (now : ℕ) → ConnectError → Touch

abbrev pub touch : Touch → Credentials → Credentials
touch (stops reason) s = stop reason s
touch tracks s = track_credentials s
touch untracks s = untrack_credentials s
touch (notes available) s = note_frontend_availability available s
touch (asks_error now) s = (credential_error now s).0
touch (fails now e) s = (activation_error now e s).0

pub data Operation : Type 0 where
  begins : Key → (deadline : ℕ) → Operation
  ends : ℕ → Operation
  holds : Key → Operation
  releases : ℕ → Operation
  touches : ℕ → Touch → Operation

unfoldable pub step : Operation → Registry → Registry
step (begins key deadline) r = begin_activation key deadline r
step (ends i) r = end_activation i r
step (holds key) r = hold (find_activation key r) r
step (releases i) r = record r { held = delete i r.held }
step (touches i t) r = record r { states = set_state i (touch t (r.states i)) r.states }

-- The operations, last first.
unfoldable pub run : List Operation → Registry
run [] = empty_registry
run (o ∷ os) = step o (run os)
