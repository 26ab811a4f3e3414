-- ===== src/Runtime/Feedback.antt =====
-- src/daemon_runtime/health_feedback.rs: which health events a consumer is advised to show. A
-- health event is what the policy reads of its JSON, `none` where a field is missing or no text; time
-- is in ms.
pub mod Repeats
use nm_daemon.Base.{
  ℕ, ◌-◌, String, Bool, true, false, not, ◌&&◌, ◌||◌, Option, none, some, List, [], ◌∷◌, ltb, ◌==◌,
  if◌then◌else◌, or_else, nat_eq, string_eq,
}
use Prim.Native.String.{◌++◌}
use nm_daemon.Base.Map.{Map, lookup, insert, remove}

pub record Health : Type 0 where
  pub notification_recommended : Bool  -- the field is `true`
  pub names : List (Option String)  -- the seven identity fields, in the order of the source
  pub state_name : Option String
  pub reason_name : Option String

abbrev pub HealthFeedback : Type 0
HealthFeedback = Map String (String × ℕ)

-- The first identity that is there and not empty.
abbrev identity : List (Option String) → String
identity [] = "network"
identity (none ∷ ns) = identity ns
identity (some n ∷ ns) = if n == "" then identity ns else n

abbrev pub feedback_key : Health → String
feedback_key h =
    identity h.names
    ++ ("|" ++ (or_else h.state_name "unknown" ++ ("|" ++ or_else h.reason_name "unknown")))

abbrev is_duplicate : String → ℕ → Option (String × ℕ) → Bool
is_duplicate key now none = false
is_duplicate key now (some (old, at)) = old == key && ltb (now - at) 3000

unfoldable pub drop_owner : String → HealthFeedback → HealthFeedback
drop_owner owner last = remove owner last

unfoldable pub project : String → Health → Bool → ℕ → HealthFeedback → HealthFeedback × Health
project owner h connecting now last =
    if not h.notification_recommended
    then (last, h)
    else if connecting || is_duplicate (feedback_key h) now (lookup owner last)
    then (last, record h { notification_recommended = false })
    else (insert owner (feedback_key h, now) last, h)
