-- ===== src/Forget/Examples.antt =====
-- Forgetting a network against a small NetworkManager that runs.
use nm_daemon.Base.{
  ℕ, ◌+◌, ◌-◌, ◌/◌, ◌<◌, ◌≡◌, ◌≢◌, ◌↔◌, refl, ◌⊎◌, String, Bool, true, false, not, Bool-cases, inl,
  inr, none, some, List, [], ◌∷◌, arith, ok, err, if◌then◌else◌, ltb, retain, ◌==◌, nat_eq,
  string_eq, list_eq,
}
use nm_daemon.Runtime.Tasks.{Tasks, connect, register, cancel_connects_for_ssid}
use nm_daemon.Runtime.Sample.{events, recent}
use nm_daemon.Forget.Binding.{SavedProfile, Network, Advances, Guarded, deletions}
use nm_daemon.Forget.{
  World, ForgetResult, partial, forgotten, failed, not_saved, disconnect_pending, out_of_fuel, run,
}
use nm_daemon.Forget.Execute.{Target, Look, wait_unfinished, ended, still_there, execute}
use nm_daemon.Forget.Report.{successes, failures, paths, paths_onto, forget_reports}
use nm_daemon.Forget.Order.{deletes_safely, execute_ends}

-- Every other wait returns at once, for an event that came in, and the others take a millisecond; the
-- network stays active for as many waits as `active_for` says.
record Station : Type 0 where
  changed : Bool
  clock : ℕ
  active_for : ℕ
  profiles : List SavedProfile

abbrev station : Network
station = record {
  Nm = Station;
  now = λ s. s.clock;
  saved_wifi_connections = λ s. (ok s.profiles, s);
  wifi_connection_active_for_ssid = λ ssid s. (ok (ltb 0 s.active_for), s);
  set_connection_autoconnect_by_path = λ path on s. (ok tt, s);
  disconnect_wifi_for_ssid = λ ssid s. (ok tt, s);
  delete_connection_by_path =
      λ path s. (if path == "/locked" then err "permission denied" else ok tt, s);
  wait_for_event = λ timeout s. record {
    changed = not s.changed;
    clock = if s.changed then s.clock else s.clock + 1;
    active_for = s.active_for - 1;
    profiles = s.profiles;
  };
}

station-Advances : Advances station 2
station-Advances = record {
  paces = λ ssid deadline s. elim (Bool-cases s.changed) [
    | inl c ↦ ground arith
    | inr c ↦ ground arith
  ];
}

abbrev home : List ℕ
home = 104 ∷ 111 ∷ []

abbrev profile : String → List ℕ → SavedProfile
profile path ssid = record { path = path; id = path; ssid_bytes = ssid; autoconnect = true }

abbrev profiles : List SavedProfile
profiles = profile "/1" home ∷ profile "/2" (99 ∷ []) ∷ profile "/locked" home ∷ []

abbrev start : World station
start = record {
  nm = record { changed = true; clock = 0; active_for = 2; profiles = profiles };
  calls = [];
}

abbrev result : ForgetResult
result = record {
  status = partial;
  request_id = "forget-1";
  was_active = true;
  disconnected = true;
  profiles_found = 2;
  deleted_profiles = record { id = "/1"; path = "/1" } ∷ [];
  failed_profiles = record { id = "/locked"; path = "/locked"; message = "permission denied" } ∷ [];
  cancelled_connect_requests = [];
  pending_connect_requests = [];
  warnings = [];
}

runs : (run station 20000 "forget-1" home [] start).0 ≡ ok result
unfolding run nm_daemon.Forget.profiles_for nm_daemon.Forget.is_active nm_daemon.Forget.proceed
    nm_daemon.Forget.disconnect_first nm_daemon.Forget.disconnect_and_confirm
    nm_daemon.Forget.confirm nm_daemon.Forget.disable_autoconnect nm_daemon.Forget.after_disconnect
    nm_daemon.Forget.finish_forget nm_daemon.Forget.completed nm_daemon.Forget.completed_status
    nm_daemon.Forget.delete_profiles
runs = refl

forget_reports_example :
    let d = deletions ((run station 20000 "forget-1" home [] start).1).calls in
    ((result.status ≡ disconnect_pending) × (d ≡ []))
    ⊎ ((paths d ≡ paths_onto (retain (λ p. p.ssid_bytes == home) profiles) [])
        × ((result.status ≡ forgotten) ↔ ((0 < successes d) × (failures d ≡ 0)))
        × ((result.status ≡ partial) ↔ ((0 < successes d) × (0 < failures d)))
        × ((result.status ≡ failed) ↔ ((successes d ≡ 0) × (0 < failures d)))
        × ((result.status ≡ not_saved) ↔ ((successes d ≡ 0) × (failures d ≡ 0))))
forget_reports_example =
    forget_reports station 20000 "forget-1" home [] profiles start result refl refl runs

abbrev idle : Tasks events recent
idle = record { tasks = []; results = λ id o. none }

abbrev connecting : Tasks events recent
connecting = register events recent "connect-1" connect (some ":1.7") (some home) ":1.2" 10 1 idle

abbrev target : Target
target = record { ssid = home; hidden = false; bssid = none }

-- The connection ends after three looks, of which every second one falls in the same millisecond.
abbrev look : ℕ → Look events recent station
look i = record { now = 100 + i / 2; tasks = if ltb i 3 then connecting else idle }

deletes_safely_example :
    let (r, s', w') =
      execute events recent station 20000 20000 100 "forget-1" target none look connecting start in
    Guarded w'.calls
    × ((w'.calls ≡ [])
        ⊎ ((i : ℕ) × (still_there events recent station
                ((cancel_connects_for_ssid events recent home connecting).1)
                (look i).tasks
              ≡ false)))
deletes_safely_example =
    deletes_safely events recent station 20000 20000 100 "forget-1" target none look connecting
      start refl

execute_ends_example :
    let r =
      (execute events recent station 20001 20001 100 "forget-1" target none look connecting
        start).0 in
    (r ≢ wait_unfinished) × (r ≢ ended (err out_of_fuel))
execute_ends_example =
    execute_ends events recent station 2 2 20001 20001 100 "forget-1" target none look connecting
      start station-Advances (λ j. omega arith) (omega arith) (omega arith) (omega arith)
