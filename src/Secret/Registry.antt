-- ===== src/Secret/Registry.antt =====
-- `PendingRegistry` of src/daemon_secret.rs and its methods. A cancellation flag
-- and a channel go by their identity: `raised` has the flags that are set, and `sent` what went over the
-- channels, newest first. A request's key is the pair that `key_for` joins by a line break, which no
-- object path contains. The receiver of a channel lives as long as its entry is registered, so a send
-- to a registered entry succeeds. `Clock` is what an operation reads: the time in ms, and the states of
-- the activations. The texts of the errors are left out.
use nm_daemon.Base.{
  text_pair_eq, ℕ, String, Bool, true, false, not, ◌&&◌, Option, none, some, List, [], ◌∷◌,
  if◌then◌else◌, ltb, option_filter, ◌==◌, nat_eq, string_eq, option_eq,
}
use nm_daemon.Base.Map.{Map, lookup, insert, remove}
use nm_daemon.Base.Sets.{has, add}
use nm_daemon.Activation.Credentials.{Credentials, live}
use nm_daemon.Secret.Policy.{Policy}

abbrev pub Key : Type 0
Key = String × String

pub data SecretAgentError : Type 0 where
  user_canceled no_secrets agent_failed : SecretAgentError

pub record PendingSecretRequest : Type 0 where
  pub deadline : ℕ
  pub activation : Option ℕ
  pub policy : Policy
  pub cancelled : ℕ  -- the identity of its flag
  pub nm_owner : Option String
  pub id : String
  pub key : Key

pub record SecretResponse : Type 0 where
  pub password : Option String
  pub values : Map String String
  pub save : Bool
  pub cancelled : Bool

-- `SecretResponse::cancelled`
abbrev pub cancelled_response : SecretResponse
cancelled_response = record { password = none; values = []; save = false; cancelled = true }

pub record PendingEntry : Type 0 where
  pub request : PendingSecretRequest
  pub owners : List String
  pub sender : ℕ

pub data Event : Type 0 where
  requested : String → Event
  request_cancelled : String → Event

pub record PendingRegistry : Type 0 where
  pub inflight : Map Key ℕ
  pub nm_owner : Option String
  pub requests : Map String PendingEntry
  pub raised : List ℕ
  pub sent : List (ℕ × SecretResponse)
  pub channels : ℕ  -- how many channels were made
  pub events : List Event

pub record Clock : Type 0 where
  pub now : ℕ
  pub states : ℕ → Credentials

abbrev pub activation_live : Clock → Option ℕ → Bool
activation_live c none = true
activation_live c (some a) = live c.now (c.states a)

-- `PendingSecretRequest::live`
abbrev pub request_live : Clock → PendingRegistry → PendingSecretRequest → Bool
request_live c r q =
    not (has q.cancelled r.raised) && ltb c.now q.deadline && activation_live c q.activation

abbrev pub is_current_owner : Option String → PendingRegistry → Bool
is_current_owner owner r = r.nm_owner == owner

abbrev pub send : ℕ → SecretResponse → PendingRegistry → PendingRegistry
send channel response r = record r { sent = (channel, response) ∷ r.sent }

abbrev pub emit : Event → PendingRegistry → PendingRegistry
emit e r = record r { events = e ∷ r.events }

-- `PendingRegistry::remove`
abbrev pub remove_request : String → PendingRegistry → PendingRegistry × Option ℕ
remove_request id r = (
  record r { requests = remove id r.requests },
  elim (lookup id r.requests) [ none ↦ none | some e ↦ some e.sender ],
)

-- The id that `remove_by_key` finds.
abbrev pub id_of_key : Key → Map String PendingEntry → Option String
id_of_key key [] = none
id_of_key key ((id, e) ∷ m) = if e.request.key == key then some id else id_of_key key m

abbrev pub with_id : String → PendingRegistry × Option ℕ → PendingRegistry × Option (String × ℕ)
with_id id (r, none) = (r, none)
with_id id (r, some channel) = (r, some (id, channel))

abbrev pub remove_found : Option String → PendingRegistry → PendingRegistry × Option (String × ℕ)
remove_found none r = (r, none)
remove_found (some id) r = with_id id (remove_request id r)

-- `PendingRegistry::remove_by_key`
abbrev pub remove_by_key : Key → PendingRegistry → PendingRegistry × Option (String × ℕ)
remove_by_key key r = remove_found (id_of_key key r.requests) r

abbrev pub raise : Option ℕ → PendingRegistry → PendingRegistry
raise none r = r
raise (some flag) r = record r { raised = add flag r.raised }

-- `PendingRegistry::cancel_by_key`
abbrev pub cancel_by_key : Key → PendingRegistry → PendingRegistry × Option (String × ℕ)
cancel_by_key key r = remove_by_key key (raise (lookup key r.inflight) r)

-- What the callers do with an entry that they took out: its caller is told, and the frontends.
abbrev pub tell_cancelled : Option (String × ℕ) → PendingRegistry → PendingRegistry
tell_cancelled none r = r
tell_cancelled (some (id, channel)) r =
    emit (request_cancelled id) (send channel cancelled_response r)

abbrev pub send_cancelled : Option PendingEntry → PendingRegistry → PendingRegistry
send_cancelled none r = r
send_cancelled (some e) r = send e.sender cancelled_response r

-- `PendingRegistry::insert`, after its `remove_by_key`.
abbrev pub put_entry : PendingSecretRequest → List String → ℕ → PendingRegistry → PendingRegistry
put_entry q owners channel r = send_cancelled (lookup q.id r.requests) (record r {
  requests = insert q.id (record { request = q; owners = owners; sender = channel }) r.requests;
})

abbrev pub displace : Option (String × ℕ) → PendingRegistry → PendingRegistry
displace none r = r
displace (some (id, channel)) r = send channel cancelled_response r

abbrev pub displaced_id : Option (String × ℕ) → Option String
displaced_id none = none
displaced_id (some (id, channel)) = some id

-- Whether the caller is one of the frontends that the request was sent to.
abbrev pub answers_for : Option String → PendingEntry → Bool
answers_for none e = false
answers_for (some owner) e = has owner e.owners

-- `PendingRegistry::remove_for_owner`
unfoldable pub remove_for_owner :
    Clock → String → Option String → PendingRegistry → PendingRegistry × Option ℕ
remove_for_owner c id owner r = elim (option_filter (answers_for owner) (lookup id r.requests)) [
  | none ↦ (r, none)
  | some e ↦ (
    record r { requests = remove id r.requests },
    if request_live c r e.request then some e.sender else none,
  )
]
