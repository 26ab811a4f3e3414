-- ===== src/Runtime/Sample.antt =====
-- Events and a table of recent results that run: what the examples put in for the parameters of the
-- runtime.
use nm_daemon.Base.{
  ℕ, ◌+◌, ltb, Bool-cases, ◌≤◌, ◌≡◌, refl, ◌⊎◌, inl, inr, String, Bool, false, ◌&&◌, Option, none,
  some, arith, ◌==◌, if◌then◌else◌, string_eq, option_eq, option_beq_iff,
}
use text.Mathlib.TextEquality.{eq_iff}
use nm_daemon.Runtime.Interfaces.{Events, RecentResults}
use nm_daemon.Runtime.Tasks.{TerminalRequestResult}

-- An event is whether it succeeded, and its revision.
abbrev pub events : Events
events = record {
  Event = Bool × ℕ;
  is_success = λ e. e.0;
  as_cancelled = λ b e. (false, e.1);
  with_revision = λ n e. (e.0, n);
  cancelled_fails = λ b e. refl;
  revision_keeps = λ n e. refl;
}

abbrev pub Result : Type 0
Result = TerminalRequestResult (Bool × ℕ)

-- A table whose results live for 300 units of time.
abbrev pub Store : Type 0
Store = String → Option String → Option (ℕ × Result)

abbrev alive : ℕ → Option (ℕ × Result) → Option Result
alive now none = none
alive now (some (at, v)) = if ltb now (at + 300) then some v else none

abbrev get_result : Store → ℕ → String → Option String → Option Result
get_result t now id o = alive now (t id o)

abbrev put_result : Store → ℕ → String → Option String → Result → Store
put_result t now id o v j p = if id == j && o == p then some (now, v) else t j p

put_result_later :
    (t : Store) (now later : ℕ) (id : String) (o : Option String) (v : Result)
    → get_result (put_result t now id o v) later id o
      ≡ (if ltb later (now + 300) then some v else none)
put_result_later t now later id o v = ground (arith, eq_iff id id, option_beq_iff o o)

pub put_result_kept :
    (t : Store) (now later : ℕ) (id : String) (o : Option String) (v : Result)
    → (get_result (put_result t now id o v) later id o ≡ some v)
      ⊎ (get_result (put_result t now id o v) later id o ≡ none)
put_result_kept t now later id o v = elim (Bool-cases (ltb later (now + 300))) [
  | inl b ↦ inl (ground (arith, put_result_later t now later id o v))
  | inr b ↦ inr (ground (arith, put_result_later t now later id o v))
]

pub put_result_self :
    (t : Store) (now : ℕ) (id : String) (o : Option String) (v : Result)
    → get_result (put_result t now id o v) now id o ≡ some v
put_result_self t now id o v = ground (arith, put_result_later t now now id o v)

pub alive_gone :
    (now later : ℕ) (r : Option (ℕ × Result))
    → now ≤ later
    → alive now r ≡ none
    → alive later r ≡ none
alive_gone now later none b h = refl
alive_gone now later (some (at, v)) b h = ground arith

pub put_result_other :
    (t : Store) (now later : ℕ) (id j : String) (o p : Option String) (v : Result)
    → (id == j && o == p) ≡ false
    → (get_result (put_result t now id o v) later j p ≡ get_result t later j p)
      ⊎ (get_result (put_result t now id o v) later j p ≡ none)
put_result_other t now later id j o p v h = inl (ground arith)

abbrev pub recent : RecentResults Result
recent = record {
  Table = Store;
  get_owned = get_result;
  put = put_result;
  get-put_self = put_result_self;
  get-put_later = put_result_kept;
  get_gone = λ t now later id o b h. alive_gone now later (t id o) b h;
  get-put_other = put_result_other;
}
