-- ===== src/Portal/Ledger/Launches.antt =====
-- What the ledger's helpers do to the entries: `persist`, `update_launch` and the new entry of
-- `reserve`, read through `attempted`.
use nm_daemon.Base.{
  String, Bool, true, false, ◌≡◌, refl, ◌⊎◌, [], ◌∷◌, arith, or_else, Result, ok, string_eq,
  ==_refl,
}
use text.Mathlib.TextEquality.{eq_iff}
use nm_daemon.Base.Map.{Map, lookup, insert, lookup-insert}
use nm_daemon.Portal.Intents.{Intent, is_automatic, PortalError}
use nm_daemon.Portal.Ledger.{
  Launch, Episode, System, Storage, File, holds, missing, broken, persist, attempted,
  default_episode, reserved_entry, update_launch,
}

-- An episode whose automatic launch is recorded in the file.
abbrev pub filed : String → File → Bool
filed e (holds st) = attempted (lookup e st.episodes)
filed e missing = false
filed e broken = false

-- The memory is left alone, and the file is left alone or brought up to the memory.
pub record Persists (s t : System) (r : Result PortalError (Unit {0})) : Type 0 where
  pub same_state : t.ledger.state ≡ s.ledger.state
  pub disk_choice : (t.disk ≡ s.disk) ⊎ (t.disk ≡ holds (s.ledger.state))
  pub disk_ok : r ≡ ok tt → t.disk ≡ holds (s.ledger.state)
  pub open_ok : r ≡ ok tt → (s.ledger.poisoned ≡ false) × (t.ledger.poisoned ≡ false)

pub persist-Persists :
    (store : Storage) (s : System) → Persists s (persist store s).0 (persist store s).1
unfolding persist
persist-Persists store s = ground arith

pub attempted-update_launch :
    (e id owner : String) (f : Launch → Launch) (m : Map String Episode)
    → attempted (lookup e (update_launch id owner f m)) ≡ attempted (lookup e m)
unfolding lookup update_launch
attempted-update_launch e id owner f [] = refl
attempted-update_launch e id owner f ((k, x) ∷ m) =
    ground (arith, attempted-update_launch e id owner f m)

-- `reserve` never unmarks an episode, and marks its own where the launch is automatic.
pub attempted-insert :
    (e owner : String) (i : Intent) (fallback : Bool) (m : Map String Episode)
    → attempted (lookup e m) ≡ true
    → attempted (
        lookup e (
          insert i.episode
            (reserved_entry i owner fallback (or_else (lookup i.episode m) default_episode))
            m))
      ≡ true
unfolding reserved_entry
attempted-insert e owner i fallback m h = ground (
  arith,
  lookup-insert i.episode e
      (reserved_entry i owner fallback (or_else (lookup i.episode m) default_episode)) m,
  eq_iff i.episode e,
)

pub attempted-insert_self :
    (owner : String) (i : Intent) (fallback : Bool) (x : Episode) (m : Map String Episode)
    → is_automatic i.reason ≡ true
    → attempted (lookup i.episode (insert i.episode (reserved_entry i owner fallback x) m)) ≡ true
unfolding reserved_entry
attempted-insert_self owner i fallback x m h = ground (
  arith,
  lookup-insert i.episode i.episode (reserved_entry i owner fallback x) m,
  ==_refl i.episode,
)
