-- ===== src/Runtime/Subscriptions.antt =====
-- src/daemon_runtime/subscriptions.rs: the control actor, one message or timer at a time. A hash map
-- is an association list in some order of iteration. What a step sends out is its list of effects; a
-- snapshot's payload, an event's JSON and the answer of the work queue are parameters, and `now` is
-- the clock that a step reads, in ms. Channels that a receiver dropped and logging are left out.
mod Examples
pub mod Refresh
pub mod Owners
use nm_daemon.Base.{
  ℕ, ◌+◌, String, Bool, true, false, not, ◌&&◌, ◌||◌, Option, none, some, List, [], ◌∷◌, ◌++◌, leb,
  ◌==◌, any, retain, if◌then◌else◌, is_some, or_else, option_filter, nat_eq, string_eq, option_eq,
}
use nm_daemon.Base.Sets.{has, add}
use nm_daemon.Base.Map.{Map, lookup, insert, remove}
use nm_daemon.Runtime.Tasks.{
  Stream, stream_eq, network_health, wifi_status, network_connectivity, network_inventory,
  wifi_networks, CancelOutcome,
}
use nm_daemon.Runtime.Feedback.{Health, HealthFeedback, drop_owner, project}

abbrev pub network_change_debounce : ℕ
network_change_debounce = 75

-- What the actor reads of a `SubscriptionState`; `closed` is its emitter's `is_closed`.
pub record Subscription : Type 0 where
  pub owner : Option String
  pub streams : List Stream
  pub closed : Bool

abbrev pub watches : Stream → Subscription → Bool
watches stream s = not s.closed && any (stream_eq stream) s.streams

pub record SharedPayloadDemand : Type 0 where
  pub status : Bool
  pub connectivity : Bool
  pub inventory : Bool
  pub networks : Bool

abbrev pub wants_any : SharedPayloadDemand → Bool
wants_any d = d.status || d.connectivity || d.inventory || d.networks

pub record RefreshGate : Type 0 where
  pub in_flight : Bool
  pub dirty : Bool

abbrev pub watched : Stream → Map String Subscription → Bool
watched stream subscriptions = any (λ p. watches stream p.1) subscriptions

abbrev pub required_shared_payloads : Map String Subscription → SharedPayloadDemand
required_shared_payloads m = record {
  status = watched wifi_status m;
  connectivity = watched network_connectivity m;
  inventory = watched network_inventory m;
  networks = watched wifi_networks m;
}

-- An event's JSON: what the feedback policy reads, and the rest.
pub record Data (B : Type 0) : Type 0 where
  pub health : Health
  pub body : B

pub data Control (B P : Type 0) : Type 0 where
  subscribe : String → Subscription → Control B P
  cancel_subscription : String → Option String → (task_found : Bool) → Control B P
  subscriber_owners : Stream → Control B P
  owners : Control B P
  external_event : Stream → (request_id event : String) → Data B → Control B P
  control_drop_owner : String → Control B P
  health_signal : B → Control B P
  network_changed : Control B P
  refreshed : P → Control B P
  shutdown : Control B P

pub data Effect (B P : Type 0) : Type 0 where
  subscribed : Effect B P
  answers_cancel : CancelOutcome → Effect B P
  answers_owners : List String → Effect B P
  -- `emit_external` to the subscription of this id and owner.
  emits : (id owner : String) → Stream → (request_id event : String) → Data B → Effect B P
  -- `emit_changes` to every subscription.
  publishes : P → Effect B P
  submits_refresh : SharedPayloadDemand → Effect B P
  submits_health : B → Effect B P
  stopped : Effect B P

pub record Actor : Type 0 where
  pub subscriptions : Map String Subscription
  pub refresh : RefreshGate
  pub health_feedback : HealthFeedback
  pub network_change_deadline : Option ℕ

abbrev pub start : Actor
start = record {
  subscriptions = [];
  refresh = record { in_flight = false; dirty = false };
  health_feedback = [];
  network_change_deadline = none;
}

-- What a step finds outside: the clock, whether the work queue takes a job, and the owners that are
-- connecting.
pub record Outside : Type 0 where
  pub now : ℕ
  pub accepts : Bool
  pub is_connecting : String → Bool

abbrev pub set_gate : Bool → Bool → Actor → Actor
set_gate in_flight dirty a = record a { refresh = record { in_flight = in_flight; dirty = dirty } }

abbrev pub drop_subscriptions_for_owner : String → Map String Subscription → Map String Subscription
drop_subscriptions_for_owner owner m = retain (λ p. not ((p.1).owner == some owner)) m

abbrev pub owners_of : Map String Subscription → List String
owners_of [] = []
owners_of ((k, s) ∷ m) =
    let rest = owners_of m in elim (s.owner) [ none ↦ rest | some o ↦ o ∷ rest ]

abbrev distinct_owners : List String → List String
distinct_owners [] = []
distinct_owners (o ∷ os) = add o (distinct_owners os)

abbrev watching : Stream → Map String Subscription → Map String Subscription
watching stream m = retain (λ p. watches stream p.1) m

-- The event as this owner gets it, and the policy's state after it.
abbrev pub projected :
    {B : Type 0} → Outside → Stream → String → Data B → HealthFeedback → HealthFeedback × Data B
projected out stream owner d f =
    let (f', h) = project owner d.health (out.is_connecting owner) out.now f in
    if stream_eq stream network_health then (f', record d { health = h }) else (f, d)

module _ {B P : Type 0} where
  -- `submit_shared_refresh`
  abbrev submit_shared_refresh : Outside → SharedPayloadDemand → Actor → Actor × List (Effect B P)
  submit_shared_refresh out needs a =
      if out.accepts then (set_gate true a.refresh.dirty a, submits_refresh needs ∷ []) else (a, [])

  unfoldable pub request_shared_refresh : Outside → Actor → Actor × List (Effect B P)
  request_shared_refresh out a =
      let needs = required_shared_payloads a.subscriptions in
      if a.refresh.in_flight then (set_gate true true a, []) else elim (a.subscriptions) [
        | [] ↦ (a, [])
        | _ ∷ _ ↦ if wants_any needs then submit_shared_refresh out needs a else (a, [])
      ]

  abbrev prepend : Effect B P → Actor × List (Effect B P) → Actor × List (Effect B P)
  prepend e (a, es) = (a, e ∷ es)

  unfoldable pub add_subscription :
      Outside → String → Subscription → Actor → Actor × List (Effect B P)
  add_subscription out id s a =
      prepend subscribed
        (request_shared_refresh out (record a { subscriptions = insert id s a.subscriptions }))

  unfoldable pub remove_subscription :
      String → Option String → Bool → Actor → Actor × List (Effect B P)
  remove_subscription id owner task_found a =
      let found = is_some (option_filter (λ s. s.owner == owner) (lookup id a.subscriptions)) in
      (
        if found then record a { subscriptions = remove id a.subscriptions } else a,
        answers_cancel (record { task = task_found; subscription = found }) ∷ [],
      )

  -- The loop of `emit_external_to_subscribers`, with the owners that have the event.
  unfoldable pub emit_external_to_subscribers :
      Outside
      → Stream
      → String
      → String
      → Data B
      → List String
      → Map String Subscription
      → HealthFeedback
      → HealthFeedback × List (Effect B P)
  emit_external_to_subscribers out stream request event d done [] f = (f, [])
  emit_external_to_subscribers out stream request event d done ((id, s) ∷ m) f =
      elim (if watches stream s then s.owner else none) [
        | none ↦ emit_external_to_subscribers out stream request event d done m f
        | some o ↦
            if has o done
            then emit_external_to_subscribers out stream request event d done m f
            else let (f', e) = projected out stream o d f in
              let (g, es) =
                emit_external_to_subscribers out stream request event d (o ∷ done) m f' in
              (g, emits id o stream request event e ∷ es)
      ]

  abbrev with_feedback : Actor → HealthFeedback × List (Effect B P) → Actor × List (Effect B P)
  with_feedback a (f, es) = (record a { health_feedback = f }, es)

  unfoldable pub complete_shared_refresh : Outside → P → Actor → Actor × List (Effect B P)
  complete_shared_refresh out payloads a =
      let b = set_gate false false a in
      prepend (publishes payloads)
        (if a.refresh.dirty then request_shared_refresh out b else (b, []))

  -- `handle_control`, and the two messages that `run_event_loop` takes itself.
  unfoldable pub handle_control : Outside → Control B P → Actor → Actor × List (Effect B P)
  handle_control out (subscribe id s) a = add_subscription out id s a
  handle_control out (cancel_subscription id owner task_found) a =
      remove_subscription id owner task_found a
  handle_control out (subscriber_owners stream) a =
      (a, answers_owners (distinct_owners (owners_of (watching stream a.subscriptions))) ∷ [])
  handle_control out owners a = (a, answers_owners (owners_of a.subscriptions) ∷ [])
  handle_control out (external_event stream request event d) a =
      with_feedback a (
        emit_external_to_subscribers out stream request event d [] a.subscriptions
          a.health_feedback)
  handle_control out (control_drop_owner owner) a = (
    record a {
      health_feedback = drop_owner owner a.health_feedback;
      subscriptions = drop_subscriptions_for_owner owner a.subscriptions;
    },
    [],
  )
  handle_control out (health_signal signal) a = (
    a,
    if watched network_health a.subscriptions && out.accepts
        then submits_health signal ∷ []
        else [],
  )
  handle_control out network_changed a = (
    record a {
      network_change_deadline =
          some (or_else a.network_change_deadline (out.now + network_change_debounce));
    },
    [],
  )
  handle_control out (refreshed payloads) a = complete_shared_refresh out payloads a
  handle_control out shutdown a = (record a { subscriptions = [] }, stopped ∷ [])

  -- The timer's branch of `run_event_loop`.
  unfoldable pub debounced : Outside → Actor → Actor × List (Effect B P)
  debounced out a = elim (a.network_change_deadline) [
    | none ↦ (a, [])
    | some deadline ↦
        if leb deadline out.now
        then request_shared_refresh out (record a { network_change_deadline = none })
        else (a, [])
  ]
