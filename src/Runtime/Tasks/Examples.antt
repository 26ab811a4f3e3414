-- ===== src/Runtime/Tasks/Examples.antt =====
-- A connection at concrete values: registered, cancelled, and finished too late.
use nm_daemon.Base.{
  ℕ, ◌+◌, ltb, Bool-cases, ◌≤◌, ◌≡◌, ◌≢◌, refl, ◌⊎◌, inl, inr, String, Bool, true, false, ◌&&◌,
  Option, none, some, List, [], ◌∷◌, arith, ◌==◌, if◌then◌else◌, ==_refl, string_eq, option_eq,
  option_beq_iff, All,
}
use text.Mathlib.TextEquality.{eq_iff}
use mathlib.Core.Bool.{false≢true}
use nm_daemon.Base.Map.{lookup}
use nm_daemon.Runtime.Sample.{events, recent}
use nm_daemon.Runtime.Tasks.{
  TaskHandle, TaskKind, connect, Stream, wifi_connect, daemon_request, TerminalRequestResult,
  CancelledTask, Status, finished, Tasks, register, store_terminal_result, store_connect_progress,
  request_status, cancel_task,
}
use nm_daemon.Runtime.Tasks.Final.{if_retained, terminal_immutable, no_new_outcome}
use nm_daemon.Runtime.Tasks.Cancellation.{cancellation_wins}
use nm_daemon.Runtime.Tasks.Cancellation.Handles.{Operation, registers, progresses, run, Later}

abbrev shell : Option String
shell = some ":1.7"

abbrev home : Option (List ℕ)
home = some (104 ∷ [])

abbrev idle : Tasks events recent
idle = record { tasks = []; results = λ id o. none }

abbrev connecting : Tasks events recent
connecting = register events recent "connect-1" connect shell home ":1.2" 10 1 idle

abbrev handle : TaskHandle (Bool × ℕ)
handle = record {
  nm = ":1.2";
  started = 10;
  progress = none;
  observation_revision = 1;
  terminal = false;
  timed_out = false;
  kind = connect;
  owner = shell;
  target_ssid = home;
  cancellation = false;
  token = 1;
}

abbrev cancelled_connect : CancelledTask
cancelled_connect = record { nm = ":1.2"; kind = connect; target_ssid = home }

abbrev meanwhile : List (Operation events recent)
meanwhile =
    progresses "connect-1" shell (true, 0) 25
    ∷ registers "scan-1" connect shell none ":1.2" 26 2
    ∷ []

abbrev scan_id : String
scan_id = "scan-1"

abbrev connect_id : String
connect_id = "connect-1"

scan≢connect : scan_id ≢ connect_id
scan≢connect h = false≢true ((eq_iff scan_id connect_id).1 h)

cancellation_wins_example : events.is_success (false, 3) ≡ false
unfolding cancel_task lookup register nm_daemon.Base.Map.insert store_terminal_result run
    nm_daemon.Runtime.Tasks.Cancellation.Handles.step store_connect_progress
    mathlib.Core.Bool.decide nm_daemon.Runtime.Tasks.Stream-discrete
cancellation_wins_example =
    cancellation_wins events recent "connect-1" shell 20 connecting cancelled_connect refl refl
      meanwhile (omega arith, (scan≢connect, tt)) wifi_connect (true, 0) (false, 3) false 30
      (omega arith) refl

abbrev ended : Tasks events recent
ended =
    (store_terminal_result events recent "connect-1" shell wifi_connect (true, 0) false 20
      connecting).0

terminal_immutable_example :
    let s' = run events recent ended meanwhile in
    store_terminal_result events recent "connect-1" shell daemon_request (false, 9) true 30 s'
    ≡ (s', if_retained events recent (true, 2) (recent.get_owned s'.results 30 "connect-1" shell))
unfolding lookup register nm_daemon.Base.Map.insert store_terminal_result mathlib.Core.Bool.decide
    nm_daemon.Runtime.Tasks.Stream-discrete
terminal_immutable_example =
    terminal_immutable events recent "connect-1" wifi_connect (true, 0) (true, 2) false 20
      connecting handle refl refl refl refl meanwhile (omega arith, (scan≢connect, tt))
      daemon_request (false, 9) true 30 (omega arith)

no_new_outcome_example :
    let s' = run events recent ended meanwhile in
    (cancel_task events recent "connect-1" shell 400 s' ≡ (s', none))
    × ((store_connect_progress events recent "connect-1" shell (true, 5) 400 s').0 ≡ s')
    × (((store_connect_progress events recent "connect-1" shell (true, 5) 400 s').1
          ≡ some (true, 2))
        ⊎ ((store_connect_progress events recent "connect-1" shell (true, 5) 400 s').1 ≡ none))
unfolding lookup register nm_daemon.Base.Map.insert store_terminal_result mathlib.Core.Bool.decide
    nm_daemon.Runtime.Tasks.Stream-discrete
no_new_outcome_example =
    no_new_outcome events recent "connect-1" wifi_connect (true, 0) (true, 2) false 20 connecting
      handle refl refl refl refl meanwhile (omega arith, (scan≢connect, tt)) (true, 5) 400
      (omega arith)
