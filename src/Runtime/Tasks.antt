-- ===== src/Runtime/Tasks.antt =====
-- The task map and the terminal results of src/daemon_runtime.rs. Each method holds the task lock, so
-- it is one step. A handle's `nm` is the destination of its NetworkManager scope; its cancellation
-- flag, which the worker shares, is a field of the handle, and `token` is the identity of that flag.
mod Examples
pub mod Terminal
pub mod Cancellation
pub mod Final
use nm_daemon.Base.{
  ℕ, ◌+◌, ◌-◌, ◌^◌, min, String, Bool, true, false, not, ◌&&◌, ◌||◌, Option, none, some, List, [],
  ◌∷◌, ◌==◌, if◌then◌else◌, is_some, or_else, option_filter, any, retain, nat_eq, string_eq,
  option_eq, list_eq,
}
use mathlib.Core.Bool.{decide}
use nm_daemon.Base.Map.{Map, lookup, insert, remove, contains}
use nm_daemon.Runtime.Interfaces.{Events, RecentResults}

pub data TaskKind : Type 0 where
  connect scan band statistics hotspot vpn : TaskKind

-- The streams of src/protocol.rs.
pub data Stream : Type 0 where
  wifi_status network_connectivity network_inventory network_statistics hotspot_stream : Stream
  vpn_stream network_health wifi_networks wifi_scan wifi_connect wifi_band wifi_secret : Stream
  daemon_request daemon_subscription : Stream

unfoldable pub Stream-discrete : Discrete Stream
Stream-discrete = hlevel

abbrev pub stream_eq : Stream → Stream → Bool
stream_eq a b = decide (Stream-discrete a b)

-- `TaskKind::stream`
abbrev pub stream_of : TaskKind → Stream
stream_of connect = wifi_connect
stream_of scan = wifi_scan
stream_of band = wifi_band
stream_of statistics = network_statistics
stream_of hotspot = hotspot_stream
stream_of vpn = vpn_stream

abbrev pub is_connect : TaskKind → Bool
is_connect connect = true
is_connect _ = false

abbrev pub saturating_succ : ℕ → ℕ
saturating_succ n = min (n + 1) (2 ^ 64 - 1)

pub record CancelOutcome : Type 0 where
  pub task : Bool
  pub subscription : Bool

pub found : CancelOutcome → Bool
found c = c.task || c.subscription

pub record TerminalRequestResult (E : Type 0) : Type 0 where
  pub stream : Stream
  pub event : E
  pub observation_revision : ℕ

pub record TaskHandle (E : Type 0) : Type 0 where
  pub nm : String
  pub started : ℕ
  pub progress : Option E
  pub observation_revision : ℕ  -- u64
  pub terminal : Bool
  pub timed_out : Bool
  pub kind : TaskKind
  pub owner : Option String
  pub target_ssid : Option (List ℕ)
  pub cancellation : Bool
  pub token : ℕ

pub record CancelledTask : Type 0 where
  pub nm : String
  pub kind : TaskKind
  pub target_ssid : Option (List ℕ)

-- The answers of `request_status`.
pub data Status (E : Type 0) : Type 0 where
  finished : TerminalRequestResult E → Status E
  running :
      Stream
      → (elapsed : ℕ) → Option E
      → (revision : ℕ) → (cancellation timed_out : Bool) → Status E
  unknown : Status E

module _ (events : Events) (recent : RecentResults (TerminalRequestResult (events.Event))) where
  open events use {Event, is_success, as_cancelled, with_revision}
  open recent use {Table, get_owned, put}

  pub record Tasks : Type 0 where
    pub tasks : Map String (TaskHandle Event)
    pub results : Table

  -- `TaskRegistration::new`
  unfoldable pub register :
      String → TaskKind → Option String → Option (List ℕ) → String → ℕ → ℕ → Tasks → Tasks
  register id kind owner ssid nm now token s = record s {
    tasks =
        insert id
          (record {
            nm = nm;
            started = now;
            progress = none;
            observation_revision = 1;
            terminal = false;
            timed_out = false;
            kind = kind;
            owner = owner;
            target_ssid = ssid;
            cancellation = false;
            token = token;
          })
          s.tasks;
  }

  -- `Drop` of the registration: only its own entry goes.
  unfoldable pub unregister : String → ℕ → Tasks → Tasks
  unregister id token s = elim (lookup id s.tasks) [
    | none ↦ s
    | some t ↦ if t.token == token then record s { tasks = remove id s.tasks } else s
  ]

  -- `TaskHandle::request_cancel`
  abbrev pub cancelled_handle : TaskHandle Event → TaskHandle Event
  cancelled_handle t = record t { cancellation = true }

  abbrev pub cancelled_task : TaskHandle Event → CancelledTask
  cancelled_task t = record { nm = t.nm; kind = t.kind; target_ssid = t.target_ssid }

  abbrev pub put_task : String → TaskHandle Event → Tasks → Tasks
  put_task id t s = record s { tasks = insert id t s.tasks }

  abbrev pub owned_task : String → Option String → Tasks → Option (TaskHandle Event)
  owned_task id owner s = option_filter (λ t. t.owner == owner) (lookup id s.tasks)

  -- Whether a success arrives from a scope that is no longer current, checked before the task lock.
  pub owner_changed : (String → Bool) → String → Event → Tasks → Bool
  owner_changed is_current id event s =
      is_success event && elim (lookup id s.tasks) [ none ↦ false | some t ↦ not (is_current t.nm) ]

  -- The event that is stored: a connection's success after a cancellation becomes a cancellation.
  abbrev pub settled : Bool → Option (TaskHandle Event) → Event → Event
  settled changed none event = event
  settled changed (some t) event =
      if is_connect t.kind && (changed || t.cancellation) && is_success event
      then as_cancelled t.timed_out event
      else event

  abbrev pub is_terminal : Option (TaskHandle Event) → Bool
  is_terminal none = false
  is_terminal (some t) = t.terminal

  -- The task that the result belongs to by its stream.
  abbrev pub on_stream : Stream → Option (TaskHandle Event) → Option (TaskHandle Event)
  on_stream stream = option_filter (λ t. stream_eq (stream_of t.kind) stream)

  abbrev pub finish_task : String → Option (TaskHandle Event) → Tasks → Tasks
  finish_task id none s = s
  finish_task id (some t) s =
      put_task id
        (record t {
          terminal = true;
          observation_revision = saturating_succ t.observation_revision;
        })
        s

  abbrev pub final_revision : Option (TaskHandle Event) → ℕ
  final_revision none = 1
  final_revision (some t) = saturating_succ t.observation_revision

  unfoldable pub store_terminal_result :
      String → Option String → Stream → Event → Bool → ℕ → Tasks → Tasks × Option Event
  store_terminal_result id owner stream event changed now s =
      let task = owned_task id owner s in
      elim (get_owned s.results now id owner) [
        | some r ↦ (s, some r.event)
        | none ↦
            if is_terminal task
            then (s, none)
            else let n = final_revision (on_stream stream task) in
              let e = with_revision n (settled changed task event) in
              (
                record (finish_task id (on_stream stream task) s) {
                  results =
                      put s.results now id owner
                        (record { stream = stream; event = e; observation_revision = n });
                },
                some e,
              )
      ]

  unfoldable pub request_status : String → Option String → ℕ → Tasks → Status Event
  request_status id owner now s = elim (get_owned s.results now id owner) [
    | some r ↦ finished r
    | none ↦ elim (option_filter (λ t. t.owner == owner && not t.terminal) (lookup id s.tasks)) [
      | none ↦ unknown
      | some t ↦
          running (stream_of t.kind) (now - t.started) t.progress t.observation_revision
            t.cancellation t.timed_out
    ]
  ]

  pub owner_is_connecting : String → Tasks → Bool
  owner_is_connecting owner s =
      any (λ p. is_connect (p.1).kind && (p.1).owner == some owner) s.tasks

  unfoldable pub store_connect_progress :
      String → Option String → Event → ℕ → Tasks → Tasks × Option Event
  store_connect_progress id owner event now s =
      elim (option_filter (λ t. t.owner == owner && is_connect t.kind) (lookup id s.tasks)) [
        | none ↦ (s, none)
        | some t ↦ elim (get_owned s.results now id owner) [
          | some r ↦ (s, some r.event)
          | none ↦
              if t.terminal
              then (s, none)
              else let n = saturating_succ t.observation_revision in
                let e = with_revision n event in
                (put_task id (record t { observation_revision = n; progress = some e }) s, some e)
        ]
      ]

  -- The deadline of a connection: cancellation is requested, and nothing is completed.
  unfoldable pub expire_connect : String → ℕ → Tasks → Tasks × Option CancelledTask
  expire_connect id now s =
      elim (option_filter (λ t. is_connect t.kind && not t.terminal) (lookup id s.tasks)) [
        | none ↦ (s, none)
        | some t ↦ if is_some (get_owned s.results now id t.owner) then (s, none) else (
          put_task id (record t { timed_out = true; cancellation = true }) s,
          some (cancelled_task t),
        )
      ]

  unfoldable pub cancel_task : String → Option String → ℕ → Tasks → Tasks × Option CancelledTask
  cancel_task id owner now s =
      elim (option_filter (λ t. t.owner == owner && not t.terminal) (lookup id s.tasks)) [
        | none ↦ (s, none)
        | some t ↦
            if is_some (get_owned s.results now id t.owner)
            then (s, none)
            else (put_task id (cancelled_handle t) s, some (cancelled_task t))
      ]

  -- The flag of every handle that passes the test is raised.
  abbrev pub cancel_where :
      (String × TaskHandle Event → Bool)
      → Map String (TaskHandle Event)
      → Map String (TaskHandle Event)
  cancel_where p [] = []
  cancel_where p ((k, t) ∷ m) = (k, if p (k, t) then cancelled_handle t else t) ∷ cancel_where p m

  abbrev pub ids_where :
      (String × TaskHandle Event → Bool) → Map String (TaskHandle Event) → List String
  ids_where p [] = []
  ids_where p ((k, t) ∷ m) = let rest = ids_where p m in if p (k, t) then k ∷ rest else rest

  abbrev connects_to : List ℕ → String × TaskHandle Event → Bool
  connects_to ssid p = is_connect (p.1).kind && (p.1).target_ssid == some ssid

  -- The ids, before they are sorted for the log and the reply.
  unfoldable pub cancel_connects_for_ssid : List ℕ → Tasks → Tasks × List String
  cancel_connects_for_ssid ssid s = (
    record s { tasks = cancel_where (connects_to ssid) s.tasks },
    ids_where (connects_to ssid) s.tasks,
  )

  abbrev open_for : String → ℕ → Table → String × TaskHandle Event → Bool
  open_for owner now results p =
      (p.1).owner == some owner
      && not (p.1).terminal
      && not (is_some (get_owned results now p.0 (some owner)))

  unfoldable pub cancel_tasks_for_owner : String → ℕ → Tasks → Tasks × List String
  cancel_tasks_for_owner owner now s = (
    record s { tasks = cancel_where (open_for owner now s.results) s.tasks },
    ids_where (open_for owner now s.results) s.tasks,
  )

  -- The loop over the tasks in `network_manager_owner_changed`, and the one in `shutdown`.
  unfoldable pub network_manager_owner_changed : Option String → Tasks → Tasks
  network_manager_owner_changed owner s = record s {
    tasks = cancel_where (λ p. not (some (p.1).nm == owner)) s.tasks;
  }

  unfoldable pub shutdown_tasks : Tasks → Tasks
  shutdown_tasks s = record s { tasks = cancel_where (λ p. true) s.tasks }

  -- `pending_task_ids`, before the sort.
  unfoldable pub pending_task_ids : Tasks → List String → List String
  pending_task_ids s = retain (λ id. contains id s.tasks)
