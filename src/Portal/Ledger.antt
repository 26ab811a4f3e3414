-- ===== src/Portal/Ledger.antt =====
-- src/portal/ledger.rs. The state file is `disk`, what `open` would parse; the JSON encoder and
-- `write_json_atomic` are the parameter `Storage`. Paths, permissions and the lock file are left out.
pub mod Launches
pub mod Replay
pub mod Exclusive
pub mod Claims
pub mod Limits
use mathlib.Core.Option
use nm_daemon.Base.{
  ℕ, ◌+◌, ◌*◌, ◌%◌, String, Bool, true, false, not, ◌&&◌, ◌||◌, Option, none, some, List, [], ◌∷◌,
  ltb, leb, ◌==◌, if◌then◌else◌, length, any, or_else, Result, ok, err, ◌>>=◌, ◌>>◌, ensure, ok_or,
  string_eq, nat_eq,
}
use nm_daemon.Base.Map.{Map, lookup, insert, contains}
use nm_daemon.Portal.Intents.{
  Mode, automatic, manual, Intent, is_automatic, PortalError, unavailable, busy, episode_limit,
  unknown_launch, claimed_or_expired, connection_changed, not_claimed, byte_limit, unserializable,
  write_failed, unsupported, corrupt,
}

pub data Outcome : Type 0 where
  opened failed uncertain : Outcome

pub data Phase : Type 0 where
  reserved claimed complete : Phase

pub record Launch : Type 0 where
  pub intent : Intent
  pub owner : String
  pub phase : Phase
  pub outcome : Option Outcome

pub record Episode : Type 0 where
  pub automatic_attempted : Bool
  pub fallback_index : ℕ
  pub launch : Option Launch

pub record State : Type 0 where
  pub version : ℕ
  pub episodes : Map String Episode

abbrev pub limit : ℕ
limit = 1024

abbrev pub byte_limit_of_file : ℕ
byte_limit_of_file = 2 * 1024 * 1024

-- `FALLBACKS[index % FALLBACKS.len()]`
abbrev pub fallback_url : ℕ → String
fallback_url index =
    if index % 3 == 0
    then "http://captive.apple.com/hotspot-detect.html"
    else if index % 3 == 1
    then "http://www.msftconnecttest.com/connecttest.txt"
    else "http://nmcheck.gnome.org/check_network_status.txt"

abbrev pub default_episode : Episode
default_episode = record { automatic_attempted = false; fallback_index = 0; launch = none }

abbrev pub default_state : State
default_state = record { version = 1; episodes = [] }

pub record Ledger : Type 0 where
  pub state : State
  pub poisoned : Bool

-- What the file holds: nothing, bytes that do not parse, or a state.
pub data File : Type 0 where
  missing broken : File
  holds : State → File

pub record System : Type 0 where
  pub ledger : Ledger
  pub disk : File

-- How a call of `write_json_atomic` ends; a failed one may have committed.
pub data Written : Type 0 where
  committed failed_before failed_after : Written

-- The encoder's length in bytes, `none` where it fails, and the atomic write.
pub record Storage : Type 0 where
  pub encoded_len : State → Option ℕ
  pub write : State → Written

abbrev poison : System → System
poison s = record s { ledger = record (s.ledger) { poisoned = true } }

abbrev commit : System → System
commit s = record s { disk = holds (s.ledger.state) }

write_state : Written → System → System × Result PortalError (Unit {0})
write_state committed s = (commit s, ok tt)
write_state failed_before s = (poison s, err write_failed)
write_state failed_after s = (poison (commit s), err write_failed)

unfoldable pub persist : Storage → System → System × Result PortalError (Unit {0})
unfolding write_state
persist store s =
    if s.ledger.poisoned then (s, err unavailable) else elim (store.encoded_len s.ledger.state) [
      | none ↦ (s, err unserializable)
      | some n ↦
          if ltb byte_limit_of_file n
          then (poison s, err byte_limit)
          else write_state (store.write s.ledger.state) s
    ]

-- `Ledger::open` on what the file holds.
unfoldable pub open_ledger : File → Result PortalError Ledger
open_ledger missing = ok (record { state = default_state; poisoned = false })
open_ledger broken = err corrupt
open_ledger (holds st) =
    if st.version == 1 && leb (length st.episodes) limit
    then ok (record { state = st; poisoned = false })
    else err unsupported

abbrev pub is_complete : Phase → Bool
is_complete complete = true
is_complete _ = false

abbrev pub is_reserved : Phase → Bool
is_reserved reserved = true
is_reserved _ = false

-- A launch that is not complete and has not expired keeps the ledger busy.
abbrev pub is_live : ℕ → Option Launch → Bool
is_live now none = false
is_live now (some l) = not (is_complete l.phase) && ltb now l.intent.expires_at_ms

abbrev pub attempted : Option Episode → Bool
attempted none = false
attempted (some e) = e.automatic_attempted

abbrev pub put_episode : System → String → Episode → System
put_episode s k e = record s {
  ledger = record (s.ledger) {
    state = record (s.ledger.state) { episodes = insert k e s.ledger.state.episodes };
  };
}

-- The intent that goes out, and the entry that it leaves behind.
unfoldable pub reserved_intent : Intent → Bool → Episode → Intent
reserved_intent i fallback e =
    if fallback then record i { url = fallback_url e.fallback_index } else i

unfoldable pub reserved_entry : Intent → String → Bool → Episode → Episode
reserved_entry i owner fallback e = record {
  automatic_attempted = e.automatic_attempted || is_automatic i.reason;
  fallback_index = if fallback then (e.fallback_index % 3 + 1) % 3 else e.fallback_index;
  launch = some (record {
    intent = reserved_intent i fallback e;
    owner = owner;
    phase = reserved;
    outcome = none;
  });
}

abbrev persisted {ℓ} :
    {A : Type ℓ} → System × Result PortalError (Unit {0}) → A → System × Result PortalError A
persisted (s, r) a = (s, r >>= λ _. ok a)

unfoldable pub reserve :
    Storage → Intent → String → Bool → ℕ → System → System × Result PortalError (Option Intent)
reserve store i owner fallback now s =
    let episodes = s.ledger.state.episodes in
    let entry = or_else (lookup i.episode episodes) default_episode in
    if s.ledger.poisoned
    then (s, err unavailable)
    else if is_automatic i.reason && attempted (lookup i.episode episodes)
    then (s, ok none)
    else if any (λ p. is_live now (p.1).launch) episodes
    then (s, err busy)
    else if not (contains i.episode episodes || ltb (length episodes) limit)
    then (s, err episode_limit)
    else persisted (persist store (put_episode s i.episode (reserved_entry i owner fallback entry)))
        (some (reserved_intent i fallback entry))

-- The first launch with this id and owner, in the order of the map.
abbrev pub is_launch : String → String → Option Launch → Bool
is_launch id owner none = false
is_launch id owner (some l) = l.intent.launch_id == id && l.owner == owner

unfoldable pub find_launch : String → String → Map String Episode → Option Launch
find_launch id owner [] = none
find_launch id owner ((k, e) ∷ m) =
    if is_launch id owner e.launch then e.launch else find_launch id owner m

-- A write through the reference that `launch` returns.
unfoldable pub update_launch :
    String → String → (Launch → Launch) → Map String Episode → Map String Episode
update_launch id owner f [] = []
update_launch id owner f ((k, e) ∷ m) =
    if is_launch id owner e.launch
    then (k, record e { launch = Option.map f e.launch }) ∷ m
    else (k, e) ∷ update_launch id owner f m

abbrev pub with_episodes : System → Map String Episode → System
with_episodes s m = record s {
  ledger = record (s.ledger) { state = record (s.ledger.state) { episodes = m } };
}

-- `Ledger::launch`
unfoldable pub launch : System → String → String → Result PortalError Launch
launch s id owner =
    if s.ledger.poisoned
    then err unavailable
    else ok_or (find_launch id owner s.ledger.state.episodes) unknown_launch

-- The two `ensure!`s of `claim`.
unfoldable pub check_claim : String → Bool → ℕ → Launch → Result PortalError Launch
check_claim episode captive now l = do
  ensure (is_reserved l.phase && ltb now l.intent.expires_at_ms) claimed_or_expired
  ensure (l.intent.episode == episode && (not (is_automatic l.intent.reason) || captive))
      connection_changed
  ok l

unfoldable pub claim :
    Storage → String → String → String → Bool → ℕ → System → System × Result PortalError Intent
claim store id owner episode captive now s =
    elim (launch s id owner >>= check_claim episode captive now) [
      | err e ↦ (s, err e)
      | ok l ↦
          persisted
            (persist store (
              with_episodes s (
                update_launch id owner (λ l. record l { phase = claimed })
                  s.ledger.state.episodes)))
            l.intent
    ]

abbrev pub outcome_beq : Outcome → Outcome → Bool
outcome_beq opened opened = true
outcome_beq failed failed = true
outcome_beq uncertain uncertain = true
outcome_beq _ _ = false

abbrev pub may_complete : Outcome → Phase → Option Outcome → Bool
may_complete o reserved old = false
may_complete o claimed old = true
may_complete o complete none = false
may_complete o complete (some old) = outcome_beq old o

-- The `ensure!` of `complete`.
unfoldable pub check_complete : Outcome → Launch → Result PortalError Launch
check_complete o l = do ensure (may_complete o l.phase l.outcome) not_claimed; ok l

unfoldable pub complete_launch :
    Storage → String → String → Outcome → System → System × Result PortalError (Unit {0})
complete_launch store id owner o s = elim (launch s id owner >>= check_complete o) [
  | err e ↦ (s, err e)
  | ok l ↦ persist store (
      with_episodes s (
        update_launch id owner (λ l. record l { phase = complete; outcome = some o })
          s.ledger.state.episodes))
]
