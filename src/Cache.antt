-- ===== src/Cache.antt =====
-- The snapshot cache: src/cache.rs and src/cache/merge.rs. A file of the cache is what `read_json` finds in
-- it, and a write to it succeeds or fails as the environment says. A transaction holds the lock, so it is
-- one step. What a network was connected with is `details`, opaque here. Paths, permissions and the JSON
-- of the files are left out, and so are the messages.
pub mod Update
pub mod History
mod Examples
use nm_daemon.Base.{
  ℕ, ◌+◌, ◌-◌, String, Bool, true, false, not, ◌&&◌, ◌||◌, Option, none, some, List, [], ◌∷◌, ◌++◌,
  Result, ok, err, ◌>>=◌, ◌>>◌, ensure, if◌then◌else◌, ltb, length, any, is_some, ◌==◌, nat_eq,
  string_eq, list_eq, min,
}
use nm_daemon.Base.Map.{Map, lookup, insert}
use nm_daemon.Base.Text.{Text, ascii_upper, bytes_of}
use nm_daemon.Base.{codes}
use nm_daemon.Activation.Wait.{
  Security, open_network, owe, owe_transition, wpa, wpa2_or3, wep, enterprise, other,
}
use nm_daemon.Qr.{ssid_hex}

abbrev pub cache_version : ℕ
cache_version = 2

-- `CacheRead`
pub data CacheRead (T : Type 0) : Type 0 where
  missing : CacheRead T
  stale : (found_version : ℕ) → CacheRead T
  corrupt : CacheRead T
  available : T → CacheRead T

pub record AccessPoint : Type 0 where
  pub ssid : Text
  pub ssid_bytes : List ℕ
  pub active : Bool
  pub security : Security
  pub bssid : Text
  pub path : Text
  pub strength : ℕ

-- `Security::as_str`
abbrev pub security_name : Security → String
security_name open_network = "--"
security_name owe = "OWE"
security_name owe_transition = "OWE-TM"
security_name wpa = "WPA"
security_name wpa2_or3 = "WPA2/3"
security_name wep = "WEP"
security_name enterprise = "Enterprise"
security_name (other s) = s

abbrev security_tag : Security → ℕ
security_tag open_network = 0
security_tag owe = 1
security_tag owe_transition = 2
security_tag wpa = 3
security_tag wpa2_or3 = 4
security_tag wep = 5
security_tag enterprise = 6
security_tag (other s) = 7

abbrev security_beq : Security → Security → Bool
security_beq a b = security_tag a == security_tag b && security_name a == security_name b

abbrev is_empty : {A : Type 0} → List A → Bool
is_empty [] = true
is_empty (x ∷ xs) = false

-- `AccessPoint::ssid_bytes`
abbrev pub bytes_or_display : AccessPoint → List ℕ
bytes_or_display ap = if is_empty ap.ssid_bytes then bytes_of ap.ssid else ap.ssid_bytes

-- `network_key`
unfoldable pub network_key : AccessPoint → Text
unfolding ssid_hex
network_key ap = ssid_hex (bytes_or_display ap) ++ b'|' ∷ codes (security_name ap.security)

abbrev eq_ignore_ascii_case : Text → Text → Bool
eq_ignore_ascii_case [] [] = true
eq_ignore_ascii_case (c ∷ s) (d ∷ t) = ascii_upper c == ascii_upper d && eq_ignore_ascii_case s t
eq_ignore_ascii_case _ _ = false

unfoldable pub same_access_point : AccessPoint → AccessPoint → Bool
same_access_point l r =
    if not (is_empty l.path) && not (is_empty r.path)
    then l.path == r.path
    else if not (is_empty l.bssid) && not (is_empty r.bssid)
    then eq_ignore_ascii_case l.bssid r.bssid
    else bytes_or_display l == bytes_or_display r && security_beq l.security r.security

abbrev pub inactive : AccessPoint → AccessPoint
inactive ap = record ap { active = false }

unfoldable pub mark_inactive : List AccessPoint → List AccessPoint
mark_inactive [] = []
mark_inactive (ap ∷ aps) = inactive ap ∷ mark_inactive aps

-- The first element that passes is replaced; nothing if none does.
unfoldable pub replace_first : AccessPoint → List AccessPoint → Option (List AccessPoint)
replace_first ap [] = none
replace_first ap (x ∷ xs) =
    let rest : Option (List AccessPoint) = elim (replace_first ap xs) [
      | none ↦ none
      | some ys ↦ some (x ∷ ys)
    ] in
    if same_access_point x ap then some (ap ∷ xs) else rest

unfoldable pub upsert_connected_access_point : List AccessPoint → AccessPoint → List AccessPoint
upsert_connected_access_point networks ap =
    let connected = record ap { active = true } in
    let quiet = mark_inactive networks in
    elim (replace_first connected quiet) [ none ↦ connected ∷ quiet | some changed ↦ changed ]

pub record CachedSnapshot : Type 0 where
  pub version : ℕ
  pub updated_at_ms : ℕ
  pub scanning : Bool
  pub networks_found : ℕ
  pub networks : List AccessPoint

pub record NetworkSnapshotMetadata : Type 0 where
  pub updated_at_ms : ℕ
  pub age_ms : ℕ
  pub is_stale : Bool
  pub scanning : Bool
  pub refresh_requested : Bool

-- NETWORK_SNAPSHOT_STALE_AFTER, in ms.
abbrev pub network_snapshot_stale_after : ℕ
network_snapshot_stale_after = 30000

-- `CachedSnapshot::metadata`, without its source; an age is at most a u64.
unfoldable pub metadata : ℕ → Bool → CachedSnapshot → NetworkSnapshotMetadata
metadata now refresh_requested s =
    let age = min (now - s.updated_at_ms) 0xFFFFFFFFFFFFFFFF in
    record {
      updated_at_ms = s.updated_at_ms;
      age_ms = age;
      is_stale = ltb network_snapshot_stale_after age;
      scanning = s.scanning;
      refresh_requested = refresh_requested;
    }

-- `validate_version`
abbrev pub validate_version : {T : Type 0} → (T → ℕ) → CacheRead T → CacheRead T
validate_version version missing = missing
validate_version version (stale v) = stale v
validate_version version corrupt = corrupt
validate_version version (available t) =
    if version t == cache_version then available t else stale (version t)
