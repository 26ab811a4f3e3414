-- ===== src/Cache/Examples.antt =====
-- The snapshot cache and its histories at concrete values.
use nm_daemon.Base.{
  ℕ, ◌+◌, ◌≡◌, ◌≢◌, refl, true, false, Option, none, some, List, [], ◌∷◌, if◌then◌else◌, length,
  ◌==◌, nat_eq, list_eq,
}
use nm_daemon.Base.Map.{lookup}
use nm_daemon.Base.{codes}
use nm_daemon.Activation.Wait.{wpa2_or3, open_network}
use nm_daemon.Cache.{
  CacheRead, missing, stale, corrupt, available, AccessPoint, CachedSnapshot, network_key,
}
use nm_daemon.Cache.Update.{
  wrote, CacheError, corrupt_known_connections, Writes, WifiStatus, KnownConnections, Files,
  read_snapshot, known_for_update, read_known, connected_point, cache_connected_network_status,
  attach_connection_details,
}
use nm_daemon.Cache.Update.Connected.{active_points, shown, status_shown}
use nm_daemon.Cache.Update.Remembered.{unusable_kept, connection_remembered}
use nm_daemon.Cache.History.{append_line}
use nm_daemon.Cache.History.Appended.{kept, history_appends}

abbrev home : AccessPoint
home = record {
  ssid = codes "home";
  ssid_bytes = 104 ∷ [];
  active = false;
  security = wpa2_or3;
  bssid = codes "aa:bb";
  path = codes "/ap/1";
  strength = 70;
}

abbrev cafe : AccessPoint
cafe = record home {
  ssid_bytes = 99 ∷ [];
  active = true;
  security = open_network;
  bssid = codes "cc:dd";
  path = codes "/ap/2";
}

abbrev snapshot : CachedSnapshot
snapshot = record {
  version = 2;
  updated_at_ms = 5;
  scanning = true;
  networks_found = 2;
  networks = home ∷ cafe ∷ [];
}

abbrev status : WifiStatus ℕ
status = record { active = true; access_point = some home; details = λ now. now + 1 }

abbrev known : KnownConnections ℕ
known = record { version = 2; updated_at_ms = 3; connections = [] }

abbrev files : Files ℕ
files = record {
  snapshot = available snapshot;
  session = missing;
  active_status = none;
  known = available known;
}

abbrev writes : Writes
writes = record { snapshot = wrote; session = wrote; active_status = wrote; known = wrote }

status_shown_example :
    (t : CachedSnapshot) × (read_snapshot ℕ
        ((cache_connected_network_status ℕ writes 9 status files).1)
      ≡ available t)
    × (active_points t.networks ≡ shown ℕ status)
    × (t.networks_found ≡ length t.networks)
    × (t.scanning ≡ false)
unfolding cache_connected_network_status known_for_update nm_daemon.Cache.Update.cache_connected
    nm_daemon.Cache.Update.update_snapshot
status_shown_example = status_shown ℕ writes 9 status snapshot files refl refl

abbrev ruined : Files ℕ
ruined = record files { known = corrupt; snapshot = stale 1 }

unusable_kept_example :
    (read_known ℕ ruined ≡ corrupt
      → ((cache_connected_network_status ℕ writes 9 status ruined).1).known ≡ corrupt)
    × (((s : CachedSnapshot) → read_snapshot ℕ ruined ≢ available s)
        → ((cache_connected_network_status ℕ writes 9 status ruined).1).snapshot ≡ stale 1)
unusable_kept_example = unusable_kept ℕ writes 9 status ruined

connection_remembered_example :
    attach_connection_details ℕ
      (cafe ∷ home ∷ home ∷ [])
      ((cache_connected_network_status ℕ writes 9 status files).1)
    ≡ available (none ∷ some 10 ∷ some 10 ∷ [], 2)
unfolding known_for_update cache_connected_network_status nm_daemon.Cache.Update.cache_connected
    nm_daemon.Cache.Update.update_snapshot network_key lookup
connection_remembered_example =
    connection_remembered ℕ writes 9 status home (cafe ∷ home ∷ home ∷ []) known files refl refl
      refl

abbrev history : ℕ → Option (List ℕ)
history n = if n == 0 then some (4 ∷ 5 ∷ []) else if n == 1 then some (1 ∷ []) else none

history_appends_example :
    kept ℕ (λ l. l) 2 (append_line ℕ (λ l. l) 10 2 3 history) ≡ 1 ∷ 4 ∷ 5 ∷ 3 ∷ []
history_appends_example = history_appends ℕ (λ l. l) 10 2 3 history
