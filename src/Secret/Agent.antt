-- ===== src/Secret/Agent.antt =====
-- The functions of src/daemon_secret.rs that hold the registry's lock. What a function does once it has
-- given the lock back, a message or an event for an entry that it took out, is part of its step: nobody
-- else holds that entry's channel.
use nm_daemon.Base.{
  text_pair_eq, ℕ, suc, String, Bool, not, ◌&&◌, ◌||◌, Option, none, some, List, [], ◌∷◌, Result,
  ok, err, if◌then◌else◌, and_then, leb, ensure, ◌>>◌, option_filter, ◌==◌, nat_eq, string_eq,
  option_eq,
}
use nm_daemon.Base.Map.{Map, lookup, insert, remove, contains}
use nm_daemon.Base.Sets.{has, add}
use nm_daemon.Secret.Policy.{Rejection, rejection}
use nm_daemon.Secret.Registry.{
  activation_live, request_cancelled, Clock, Key, PendingEntry, PendingRegistry,
  PendingSecretRequest, SecretAgentError, SecretResponse, agent_failed, answers_for, cancel_by_key,
  displace, displaced_id, emit, is_current_owner, no_secrets, put_entry, remove_by_key,
  remove_for_owner, remove_request, request_live, requested, send, tell_cancelled, user_canceled,
}

-- `register_pending`: a fresh channel, its number, and the request that it displaced.
unfoldable pub register_pending :
    Clock
    → PendingSecretRequest
    → List String
    → PendingRegistry
    → PendingRegistry × Result SecretAgentError (ℕ × Option String)
register_pending c q owners r =
    let channel = r.channels in
    let made = record r { channels = suc channel } in
    let (without, displaced) = remove_by_key q.key made in
    if not (is_current_owner q.nm_owner r)
    then (made, err agent_failed)
    else if has q.cancelled r.raised
    then (made, err user_canceled)
    else if not (request_live c r q)
    then (made, err no_secrets)
    else (
      displace displaced (put_entry q owners channel without),
      ok (channel, displaced_id displaced),
    )

-- The publication of the prompt in `wait_for_secret_response`.
unfoldable pub publish :
    Clock
    → PendingSecretRequest
    → PendingRegistry
    → PendingRegistry × Result SecretAgentError (Unit {0})
publish c q r =
    if not (contains q.id r.requests) || not (request_live c r q)
    then (r, err user_canceled)
    else (emit (requested q.id) r, ok tt)

-- `InflightRegistration::new`
unfoldable pub begin_lookup :
    PendingSecretRequest → PendingRegistry → PendingRegistry × Result SecretAgentError (Unit {0})
begin_lookup q r =
    let (without, displaced) = cancel_by_key q.key r in
    let told = tell_cancelled displaced without in
    if not (is_current_owner q.nm_owner r)
    then (r, err agent_failed)
    else (record told { inflight = insert q.key q.cancelled told.inflight }, ok tt)

-- `Drop` of `InflightRegistration`: a late guard leaves its replacement alone.
unfoldable pub end_lookup : Key → ℕ → PendingRegistry → PendingRegistry
end_lookup key flag r =
    if lookup key r.inflight == some flag then record r { inflight = remove key r.inflight } else r

-- `Drop` of `PendingRegistration`, and `remove_pending`.
unfoldable pub end_pending : String → PendingRegistry → PendingRegistry
end_pending id r = (remove_request id r).0

-- `cancel_get_secrets`, once its caller is authorized.
unfoldable pub cancel_get_secrets : Key → PendingRegistry → PendingRegistry
cancel_get_secrets key r =
    let (without, taken) = cancel_by_key key r in tell_cancelled taken without

-- The inflight lookups and the pending requests of a connection, in `cancel_connection`.
abbrev pub raise_of_path : String → Map Key ℕ → List ℕ → List ℕ
raise_of_path path [] raised = raised
raise_of_path path ((key, flag) ∷ m) raised =
    let rest = raise_of_path path m raised in if key.0 == path then add flag rest else rest

abbrev pub keys_of_path : String → Map String PendingEntry → List Key
keys_of_path path [] = []
keys_of_path path ((id, e) ∷ m) =
    let rest = keys_of_path path m in
    if (e.request.key).0 == path then e.request.key ∷ rest else rest

-- Each is taken out and told.
unfoldable pub cancel_keys : List Key → PendingRegistry → PendingRegistry
unfolding cancel_get_secrets
cancel_keys [] r = r
cancel_keys (key ∷ keys) r = cancel_keys keys (cancel_get_secrets key r)

-- `delete_secrets`, once its caller is authorized.
unfoldable pub delete_secrets : String → PendingRegistry → PendingRegistry
unfolding cancel_keys
delete_secrets path r =
    cancel_keys (keys_of_path path r.requests)
      (record r { raised = raise_of_path path r.inflight r.raised })

abbrev pub raise_all : Map Key ℕ → List ℕ → List ℕ
raise_all [] raised = raised
raise_all ((key, flag) ∷ m) raised = add flag (raise_all m raised)

abbrev pub tell_all : Map String PendingEntry → PendingRegistry → PendingRegistry
tell_all [] r = r
tell_all ((id, e) ∷ m) r = tell_all m (tell_cancelled (some (id, e.sender)) r)

-- `change_network_manager_owner`, for the registry.
unfoldable pub change_network_manager_owner : Option String → PendingRegistry → PendingRegistry
change_network_manager_owner owner r = tell_all r.requests (record r {
  nm_owner = owner;
  raised = raise_all r.inflight r.raised;
  inflight = [];
  requests = [];
})

pub record SecretProvideParams : Type 0 where
  pub request_id : String
  pub save : Bool
  pub password : Option String
  pub values : Map String String
  pub cancel : Bool

pub data ProvideStatus : Type 0 where
  answer_cancelled answer_accepted answer_unavailable : ProvideStatus

-- The choice that the request's policy refuses, in the first critical section of `provide`.
unfoldable pub provide_rejection :
    Clock → Option String → SecretProvideParams → PendingRegistry → Option Rejection
provide_rejection c owner p r =
    if p.cancel
    then none
    else and_then
        (option_filter (λ e. answers_for owner e && request_live c r e.request)
          (lookup p.request_id r.requests))
        (λ e. rejection e.request.policy p.save)

abbrev pub response_of : SecretProvideParams → SecretResponse
response_of p = record {
  password = p.password;
  values = p.values;
  save = p.save;
  cancelled = p.cancel;
}

abbrev pub deliver :
    SecretProvideParams
    → PendingRegistry × Option ℕ
    → PendingRegistry × Result Rejection ProvideStatus
deliver p (r, none) = (r, ok answer_unavailable)
deliver p (r, some channel) =
    (send channel (response_of p) r, ok (if p.cancel then answer_cancelled else answer_accepted))

-- `provide`: the lock is given back between the check of the policy, which reads `seen`, and the delivery.
unfoldable pub provide :
    (Clock × PendingRegistry)
    → Clock
    → Option String
    → SecretProvideParams
    → PendingRegistry
    → PendingRegistry × Result Rejection ProvideStatus
unfolding provide_rejection remove_for_owner
provide seen c owner p r = elim (provide_rejection seen.0 owner p seen.1) [
  | some reason ↦ (r, err reason)
  | none ↦ deliver p (remove_for_owner c p.request_id owner r)
]

-- What `recv_timeout` brings: an answer, nothing for a while, or the end of the channel.
pub data Received : Type 0 where
  answered : SecretResponse → Received
  timed_out disconnected : Received

-- `ensure_delivery_live`, with `ensure_request_owner`; the stop of an expired activation is a step of
-- Activation/Credentials.
unfoldable pub ensure_delivery_live :
    Clock → PendingSecretRequest → PendingRegistry → Result SecretAgentError (Unit {0})
ensure_delivery_live c q r =
    if has q.cancelled r.raised
    then err user_canceled
    else if not (is_current_owner q.nm_owner r)
    then err agent_failed
    else if leb q.deadline c.now
    then err no_secrets
    else ensure (activation_live c q.activation) user_canceled

-- One round of `receive_live_response`, which checks before and after it waits; `none` goes on.
abbrev pub receive_round :
    Result SecretAgentError (Unit {0})
    → Result SecretAgentError (Unit {0})
    → Received
    → Option (Result SecretAgentError SecretResponse)
receive_round (err e) after x = some (err e)
receive_round (ok u) after timed_out = none
receive_round (ok u) after (answered a) = some (after >> ok a)
receive_round (ok u) after disconnected = some (after >> err user_canceled)

-- `remove_pending` and `emit_secret_retired`.
abbrev pub retire : PendingSecretRequest → PendingRegistry → PendingRegistry
retire q r = emit (request_cancelled q.id) (remove_request q.id r).0

abbrev pub conclude_wait :
    PendingSecretRequest
    → Option (Result SecretAgentError SecretResponse)
    → PendingRegistry
    → PendingRegistry × Option (Result SecretAgentError SecretResponse)
conclude_wait q none r = (r, none)
conclude_wait q (some (ok a)) r = (r, some (ok a))
conclude_wait q (some (err e)) r = (retire q r, some (err e))

-- The wait of `wait_for_secret_response`, one round: the first check reads `seen`.
unfoldable pub await_response :
    (Clock × PendingRegistry)
    → Clock
    → PendingSecretRequest
    → Received
    → PendingRegistry
    → PendingRegistry × Option (Result SecretAgentError SecretResponse)
await_response seen c q x r =
    conclude_wait q
      (receive_round (ensure_delivery_live seen.0 q seen.1) (ensure_delivery_live c q r) x) r
