-- ===== src/Runtime/Interfaces.antt =====
-- What the runtime takes from the crates that it uses: the table of recent results, and the JSON
-- events that it stores and rewrites.
use nm_daemon.Base.{
  ℕ, ◌≤◌, String, Bool, false, ◌≡◌, ◌⊎◌, Option, none, some, ◌&&◌, ◌==◌, string_eq, option_eq,
}

-- `serde_json` events, as far as the runtime reads and rewrites them.
pub record Events : Type 1 where
  pub Event : Type 0
  -- `event["event"] == "succeeded"`
  pub is_success : Event → Bool
  -- The rewriting of a success into a cancellation, timed out or not.
  pub as_cancelled : Bool → Event → Event
  -- `event["operation_revision"] = n`
  pub with_revision : ℕ → Event → Event
  pub cancelled_fails :
      (timed_out : Bool) (e : Event) → is_success (as_cancelled timed_out e) ≡ false
  pub revision_keeps : (n : ℕ) (e : Event) → is_success (with_revision n e) ≡ is_success e

-- `RecentResults<T>` of the daemon framework: results by request and owner, bounded and with a time
-- to live. A result may go with time or by eviction, and then stays away until it is recorded again.
pub record RecentResults (T : Type 0) : Type 1 where
  pub Table : Type 0
  pub get_owned : Table → ℕ → String → Option String → Option T
  pub put : Table → ℕ → String → Option String → T → Table
  pub get-put_self :
      (t : Table) (now : ℕ) (id : String) (o : Option String) (v : T)
      → get_owned (put t now id o v) now id o ≡ some v
  pub get-put_later :
      (t : Table) (now later : ℕ) (id : String) (o : Option String) (v : T)
      → (get_owned (put t now id o v) later id o ≡ some v)
        ⊎ (get_owned (put t now id o v) later id o ≡ none)
  pub get_gone :
      (t : Table) (now later : ℕ) (id : String) (o : Option String)
      → now ≤ later
      → get_owned t now id o ≡ none
      → get_owned t later id o ≡ none
  pub get-put_other :
      (t : Table) (now later : ℕ) (id j : String) (o p : Option String) (v : T)
      → (id == j && o == p) ≡ false
      → (get_owned (put t now id o v) later j p ≡ get_owned t later j p)
        ⊎ (get_owned (put t now id o v) later j p ≡ none)
