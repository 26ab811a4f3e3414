-- ===== src/Cache/Update.antt =====
-- The transactions of src/cache.rs on the files of the cache. `Writes` says how each write ends; a file
-- is replaced as a whole, and a write that fails may have replaced it already.
pub mod Connected
pub mod Remembered
use nm_daemon.Base.{
  ℕ, ◌+◌, String, Bool, true, false, not, ◌&&◌, Option, none, some, List, [], ◌∷◌, Result, ok, err,
  if◌then◌else◌, length, is_some, ◌==◌, nat_eq, list_eq,
}
use nm_daemon.Base.Map.{Map, lookup, insert}
use nm_daemon.Base.Text.{Text}
use nm_daemon.Cache.{
  CacheRead, missing, stale, corrupt, available, AccessPoint, CachedSnapshot, cache_version,
  network_key, mark_inactive, upsert_connected_access_point, validate_version,
}

pub data CacheError : Type 0 where
  corrupt_known_connections write_failed : CacheError

-- A write succeeds, or fails before or after the file was replaced.
pub data WriteEnd : Type 0 where
  wrote failed_before failed_after : WriteEnd

-- The writes that an operation may make, by the file.
pub record Writes : Type 0 where
  pub snapshot : WriteEnd
  pub session : WriteEnd
  pub active_status : WriteEnd
  pub known : WriteEnd

module _ (Details : Type 0) where
  pub record KnownConnections : Type 0 where
    pub version : ℕ
    pub updated_at_ms : ℕ
    pub connections : Map Text Details

  -- `WifiStatus`, as far as the cache reads it; `details` is what a connection's record is made from.
  pub record WifiStatus : Type 0 where
    pub active : Bool
    pub access_point : Option AccessPoint
    pub details : ℕ → Details

  pub record Files : Type 0 where
    pub snapshot : CacheRead CachedSnapshot
    pub session : CacheRead CachedSnapshot
    pub active_status : Option (ℕ × WifiStatus)
    pub known : CacheRead KnownConnections

  abbrev pub Outcome : Type 0
  Outcome = Result CacheError (Unit {0}) × Files

  -- What follows a step that succeeded: `?`.
  abbrev pub after : Outcome → (Files → Outcome) → Outcome
  after (ok u, f) next = next f
  after (err e, f) next = (err e, f)

  abbrev pub written : WriteEnd → Files → Files → Outcome
  written wrote g f = (ok tt, g)
  written failed_before g f = (err write_failed, f)
  written failed_after g f = (err write_failed, g)

  abbrev pub write_snapshot_file : Writes → CachedSnapshot → Files → Outcome
  write_snapshot_file w s f = written w.snapshot (record f { snapshot = available s }) f

  abbrev pub write_session_file : Writes → CachedSnapshot → Files → Outcome
  write_session_file w s f = written w.session (record f { session = available s }) f

  abbrev pub write_known_file : Writes → KnownConnections → Files → Outcome
  write_known_file w k f = written w.known (record f { known = available k }) f

  abbrev pub write_active_status : Writes → Option (ℕ × WifiStatus) → Files → Outcome
  write_active_status w s f = written w.active_status (record f { active_status = s }) f

  abbrev pub done : Files → Outcome
  done f = (ok tt, f)

  -- `snapshot_record`
  abbrev pub snapshot_record : ℕ → Bool → List AccessPoint → CachedSnapshot
  snapshot_record now scanning networks = record {
    version = cache_version;
    updated_at_ms = now;
    scanning = scanning;
    networks_found = length networks;
    networks = networks;
  }

  -- A scan that goes on changes the session alone; one that is complete becomes the snapshot.
  unfoldable pub write_live_scan_snapshot : Writes → ℕ → Bool → List AccessPoint → Files → Outcome
  write_live_scan_snapshot w now scanning networks f =
      after
        (if scanning then done f else write_snapshot_file w (snapshot_record now false networks) f)
        (write_session_file w (snapshot_record now scanning networks))

  -- `read_snapshot` and `read_snapshot_locked`
  abbrev pub read_snapshot : Files → CacheRead CachedSnapshot
  read_snapshot f = validate_version (λ s. s.version) f.snapshot

  -- `read_known_connections`
  abbrev pub read_known : Files → CacheRead KnownConnections
  read_known f = validate_version (λ k. k.version) f.known

  -- `empty_known_connections`
  abbrev pub empty_known : ℕ → KnownConnections
  empty_known now = record { version = cache_version; updated_at_ms = now; connections = [] }

  -- `read_known_for_update`: a stale file is replaced, a corrupt one is not.
  unfoldable pub known_for_update : ℕ → CacheRead KnownConnections → Option KnownConnections
  known_for_update now (available k) = some k
  known_for_update now missing = some (empty_known now)
  known_for_update now (stale v) = some (empty_known now)
  known_for_update now corrupt = none

  -- `update_snapshot`: only a snapshot that can be used is written.
  unfoldable pub update_snapshot :
      Writes → CacheRead CachedSnapshot → (List AccessPoint → List AccessPoint) → Files → Outcome
  update_snapshot w (available s) change f =
      let networks = change s.networks in
      write_snapshot_file w
        (record s { networks = networks; scanning = false; networks_found = length networks }) f
  update_snapshot w missing change f = done f
  update_snapshot w (stale v) change f = done f
  update_snapshot w corrupt change f = done f

  -- The record of a connection, under the key of its network.
  abbrev pub remember : ℕ → AccessPoint → (ℕ → Details) → KnownConnections → KnownConnections
  remember now ap details known = record known {
    updated_at_ms = now;
    connections = insert (network_key ap) (details now) known.connections;
  }

  -- The writes for a connected network, once the known connections are read.
  unfoldable pub cache_connected :
      Writes
      → ℕ
      → WifiStatus
      → AccessPoint
      → CacheRead CachedSnapshot
      → KnownConnections
      → Files
      → Outcome
  cache_connected w now status ap snapshot known f =
      after (write_active_status w (some (now, status)) f) (λ g.
        after (write_known_file w (remember now ap status.details known) g)
          (update_snapshot w snapshot (λ networks. upsert_connected_access_point networks ap)))

  -- The writes for a status without a connected network.
  unfoldable pub cache_disconnected :
      Writes → ℕ → WifiStatus → CacheRead CachedSnapshot → Files → Outcome
  cache_disconnected w now status snapshot f =
      after (write_active_status w (some (now, status)) f)
        (update_snapshot w snapshot mark_inactive)

  abbrev pub connected_point : WifiStatus → Option AccessPoint
  connected_point status = if status.active then status.access_point else none

  unfoldable pub cache_connected_network_status : Writes → ℕ → WifiStatus → Files → Outcome
  cache_connected_network_status w now status f = elim (connected_point status) [
    | none ↦ cache_disconnected w now status (read_snapshot f) f
    | some ap ↦ elim (known_for_update now (read_known f)) [
      | none ↦ (err corrupt_known_connections, f)
      | some known ↦ cache_connected w now status ap (read_snapshot f) known f
    ]
  ]

  unfoldable pub clear_active_connection_cache : Writes → Files → Outcome
  clear_active_connection_cache w f =
      after (write_active_status w none f) (update_snapshot w (read_snapshot f) mark_inactive)

  -- `attach_connection_details` of src/cache/merge.rs: the last connection of each network, and how many
  -- have one.
  unfoldable pub attach_details : Map Text Details → List AccessPoint → List (Option Details) × ℕ
  attach_details connections [] = ([], 0)
  attach_details connections (ap ∷ aps) =
      let (rest, n) = attach_details connections aps in
      let found = lookup (network_key ap) connections in
      (found ∷ rest, (if is_some found then 1 else 0) + n)

  abbrev attached :
      List AccessPoint → CacheRead KnownConnections → CacheRead (List (Option Details) × ℕ)
  attached networks missing = missing
  attached networks (stale v) = stale v
  attached networks corrupt = corrupt
  attached networks (available k) = available (attach_details k.connections networks)

  -- `attach_connection_details` of src/cache.rs.
  unfoldable pub attach_connection_details :
      List AccessPoint → Files → CacheRead (List (Option Details) × ℕ)
  attach_connection_details networks f = attached networks (read_known f)
