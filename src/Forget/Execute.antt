-- ===== src/Forget/Execute.antt =====
-- `execute` of src/forget.rs over the task map of src/daemon_runtime.rs: the connections to the network
-- are cancelled and waited for, and only then does the workflow run. The wait looks at the task map
-- again and again: `look` is the clock, in ms, and the map at each look, which other threads change in
-- between. The request id is the normalized one. Text is its bytes in UTF-8.
use nm_daemon.Base.{
  ℕ, zero, suc, ◌+◌, String, Bool, not, ◌&&◌, ◌||◌, Option, none, some, List, [], ◌∷◌, Result, ok,
  if◌then◌else◌, leb, any, all, retain, length, is_some, ◌==◌, nat_eq, string_eq,
}
use nm_daemon.Base.Text.{is_hex_digit}
use nm_daemon.Base.Map.{contains}
use nm_daemon.Runtime.Interfaces.{Events, RecentResults}
use nm_daemon.Runtime.Tasks.{
  Tasks, TerminalRequestResult, cancel_connects_for_ssid, pending_task_ids,
}
use nm_daemon.Forget.Binding.{Network}
use nm_daemon.Forget.{World, ForgetResult, Stop, cancellation_pending_result, run}

-- FORGET_CANCELLATION_TIMEOUT, in ms.
abbrev pub cancellation_timeout : ℕ
cancellation_timeout = 10000

-- `WifiConnectTarget`, as far as forgetting reads it.
pub record Target : Type 0 where
  pub ssid : List ℕ
  pub hidden : Bool
  pub bssid : Option String

abbrev is_separator : ℕ → Bool
is_separator c = c == b':' || c == b'-'

-- Whether each part between two separators is two digits; `part` is the part read so far.
parts_are_octets : List ℕ → List ℕ → Bool
parts_are_octets part [] = length part == 2 && all is_hex_digit part
parts_are_octets part (c ∷ cs) =
    if is_separator c
    then length part == 2 && all is_hex_digit part && parts_are_octets [] cs
    else parts_are_octets (c ∷ part) cs

pub looks_like_bssid : List ℕ → Bool
unfolding parts_are_octets
looks_like_bssid s = length (retain is_separator s) == 5 && parts_are_octets [] s

-- `WifiConnectTarget::validate`
pub validate_target : Target → Bool
unfolding looks_like_bssid
validate_target t = not (t.hidden && not (is_some t.bssid) && looks_like_bssid t.ssid)

module _ (events : Events) (recent : RecentResults (TerminalRequestResult (events.Event)))
    (network : Network) where
  pub record Look : Type 0 where
    pub now : ℕ
    pub tasks : Tasks events recent

  abbrev pub still_there : List String → Tasks events recent → Bool
  still_there ids s = any (λ id. contains id s.tasks) ids

  -- The `while` of `wait_for_tasks`. The look at its end is the one that the answer is read from.
  unfoldable pub wait_loop : ℕ → ℕ → List String → (ℕ → Look) → ℕ → Option Look
  wait_loop zero deadline ids look i = none
  wait_loop (suc fuel) deadline ids look i =
      let rest = wait_loop fuel deadline ids look (suc i) in
      let seen = look i in
      if still_there ids seen.tasks
      then if leb deadline seen.now then some seen else rest
      else some seen

  abbrev answer : List String → Option Look → Option (List String)
  answer ids none = none
  answer ids (some seen) = some (pending_task_ids events recent seen.tasks ids)

  unfoldable pub wait_for_tasks : ℕ → ℕ → List String → (ℕ → Look) → Option (List String)
  wait_for_tasks fuel deadline [] look = some []
  wait_for_tasks fuel deadline (id ∷ ids) look =
      answer (id ∷ ids) (wait_loop fuel deadline (id ∷ ids) look 0)

  pub data Outcome : Type 0 where
    invalid_target : Outcome
    wait_unfinished : Outcome
    lane_refused : String → Outcome
    ended : Result Stop ForgetResult → Outcome

  -- The workflow, once the connections that were cancelled are known.
  unfoldable pub after_cancel :
      ℕ
      → String
      → Target
      → Option String
      → List String
      → Option (List String)
      → World network
      → Outcome × World network
  after_cancel fuel request_id target refusal cancelled none w = (wait_unfinished, w)
  after_cancel fuel request_id target refusal cancelled (some (p ∷ ps)) w =
      (ended (ok (cancellation_pending_result request_id cancelled (p ∷ ps))), w)
  after_cancel fuel request_id target (some e) cancelled (some []) w = (lane_refused e, w)
  after_cancel fuel request_id target none cancelled (some []) w =
      let (r, w') = run network fuel request_id target.ssid cancelled w in (ended r, w')

  -- `refusal` is the error with which the worker lane refuses the job, if it does.
  unfoldable pub execute :
      (wait_fuel fuel now : ℕ)
      → String
      → Target
      → Option String
      → (ℕ → Look)
      → Tasks events recent
      → World network
      → Outcome × Tasks events recent × World network
  execute wait_fuel fuel now request_id target refusal look s w =
      let (s', cancelled) = cancel_connects_for_ssid events recent target.ssid s in
      let pending = wait_for_tasks wait_fuel (now + cancellation_timeout) cancelled look in
      let (r, w') = after_cancel fuel request_id target refusal cancelled pending w in
      if validate_target target then (r, s', w') else (invalid_target, s, w)
