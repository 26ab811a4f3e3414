-- ===== src/Forward.antt =====
-- The forwarding of a command to the daemon over the session bus: src/daemon_forward.rs and
-- src/daemon_forward/safety.rs. `Bus` is what the bus, the daemon and the standard output do in one run;
-- `Run` is the result, the messages that were sent and the responses that were printed. JSON is opaque,
-- read by the accessors of `Json`. The parameters of the methods and the texts of the errors are left
-- out, and so is what goes to the log.
pub mod Transport
pub mod Events
pub mod Reports
pub mod Fallback
pub mod Once
pub mod Success
mod Examples
use nm_daemon.Base.{
  ℕ, String, Bool, true, false, not, ◌&&◌, ◌||◌, Option, none, some, List, [], ◌∷◌, ◌++◌, Result,
  ok, err, if◌then◌else◌, is_some, option_filter, and_then, all, ◌==◌, nat_eq, string_eq, option_eq,
  codes,
}
use nm_daemon.Base.Text.{is_whitespace}
use nm_daemon.Forward.Transport.{
  Json, ForwardOutcome, ForwardError, CallAnswer, Reply, Message, Bus, Sent, Printed, Finish,
  Operation, wifi_connect_target, not_dispatched, call, handled, direct_connect, not_forwardable,
  unavailable, outcome_unknown, reported, other_error, replied, method_error, call_failed, command,
  status_query, response, result_of, error_of, access_points_of, finish_operation_result,
  finish_scan,
}

-- What is forwarded: an operation with its events, or an immediate request.
pub data Forwarded : Type 0 where
  operation : Operation → Forwarded
  immediate : (method : String) → Forwarded

abbrev pub method_of : Forwarded → String
method_of (operation op) = op.method
method_of (immediate method) = method

-- The outcome that leaves the command to run directly.
abbrev pub fallback_of : Forwarded → ForwardOutcome
fallback_of (operation op) = op.unavailable
fallback_of (immediate method) = unavailable

-- `API_VERSION` is a constant of another crate.
module _ (Value : Type 0) (json : Json Value) (api_version : ℕ) where
  open json use {parse, value_at, text_at, number_at, flag_at}

  abbrev pub Run : Type 0
  Run = Result ForwardError ForwardOutcome × List Sent × List (Printed Value)

  abbrev names_api : Value → Bool
  names_api v = text_at "/protocol" v == some "nm-api" && number_at "/version" v == some api_version

  -- `parse_response`
  abbrev pub parse_response : String → Option Value
  parse_response s = option_filter (λ v. names_api v && is_some (flag_at "/ok" v)) (parse s)

  -- `request_id`
  abbrev pub request_id : Value → Option String
  request_id v =
      option_filter (λ id. not (all is_whitespace (codes id))) (text_at "/data/result/request_id" v)

  -- The end of `print_response`: a response with `ok` false is an error once it is printed.
  unfoldable pub print :
      {A : Type 0} → Bool → Bool → A → Printed Value → Result ForwardError A × List (Printed Value)
  print false refusal a p = (err other_error, [])
  print true true a p = (err reported, p ∷ [])
  print true false a p = (ok a, p ∷ [])

  abbrev pub is_false : Option Bool → Bool
  is_false none = false
  is_false (some b) = not b

  abbrev is_true : Option Bool → Bool
  is_true none = false
  is_true (some b) = b

  -- `print_response`
  unfoldable pub print_response :
      Bool → Option Value → Result ForwardError ForwardOutcome × List (Printed Value)
  print_response stdout none = (err other_error, [])
  print_response stdout (some v) = print stdout (is_false (flag_at "/ok" v)) handled (response v)

  abbrev pub is_event : String → Value → Bool
  is_event name e = text_at "/event" e == some name

  -- What a step makes of an event: whether it is the last one, and what is kept of it.
  abbrev Step : Type 0
  Step = Result ForwardError (Bool × Option Value) × List (Printed Value)

  -- `finish_operation_event`; the responses that are printed here are valid by their construction.
  unfoldable pub finish_operation_event : Bool → Value → Step
  finish_operation_event stdout e =
      if is_event "succeeded" e
      then print stdout false (true, none) (result_of e)
      else if is_event "failed" e || is_event "cancelled" e
      then print stdout true (true, none) (error_of e)
      else (ok (false, none), [])

  -- `handle_scan_event`; `kept` is the last snapshot.
  unfoldable pub handle_scan_event : Bool → Bool → Option Value → Value → Step
  handle_scan_event quiet stdout kept e =
      if is_event "warning" e
      then (ok (false, kept), [])
      else if is_event "snapshot" e
      then (ok (false, some e), [])
      else if is_event "complete" e
      then (if quiet
          then (ok (true, kept), [])
          else print stdout false (true, kept) (access_points_of kept))
      else if is_event "failed" e || is_event "cancelled" e
      then print stdout true (true, kept) (error_of e)
      else (ok (false, kept), [])

  abbrev pub handle_event : Finish → Bool → Option Value → Value → Step
  handle_event finish_operation_result stdout kept e = finish_operation_event stdout e
  handle_event (finish_scan quiet) stdout kept e = handle_scan_event quiet stdout kept e

  abbrev pub is_correlated : String → String → String → Value → Bool
  is_correlated stream id s e = s == stream && text_at "/request_id" e == some id

  -- One round of `CorrelatedEvents::next`.
  unfoldable pub correlated : String → String → Message → Result ForwardError (Option Value)
  correlated stream id none = err other_error
  correlated stream id (some (s, event)) = elim (parse event) [
    | none ↦ err other_error
    | some e ↦ ok (if is_correlated stream id s e then some e else none)
  ]

  abbrev pub after_event :
      Step
      → (Option Value → Result ForwardError ForwardOutcome × List (Printed Value))
      → Result ForwardError ForwardOutcome × List (Printed Value)
  after_event (err x, l) next = (err x, l)
  after_event (ok (true, kept), l) next = (ok handled, l)
  after_event (ok (false, kept), l) next = let (r, more) = next kept in (r, l ++ more)

  abbrev pub after_message :
      Result ForwardError (Option Value)
      → Finish
      → Bool
      → Option Value
      → (Option Value → Result ForwardError ForwardOutcome × List (Printed Value))
      → Result ForwardError ForwardOutcome × List (Printed Value)
  after_message (err x) f stdout kept next = (err x, [])
  after_message (ok none) f stdout kept next = next kept
  after_message (ok (some e)) f stdout kept next = after_event (handle_event f stdout kept e) next

  -- The loops of `finish_operation_result` and `finish_scan` over the correlated events.
  unfoldable pub finish_events :
      Finish
      → Bool
      → (stream id : String) → Option Value
      → List Message
      → Result ForwardError ForwardOutcome × List (Printed Value)
  finish_events f stdout stream id kept [] = (err other_error, [])
  finish_events f stdout stream id kept (m ∷ ms) =
      after_message (correlated stream id m) f stdout kept
        (λ k. finish_events f stdout stream id k ms)

  -- The test of `recover_terminal` on the response to its query.
  unfoldable pub terminal_event : (stream id : String) → Value → Option Value
  terminal_event stream id v = and_then (value_at "/data/result" v) λ status.
      option_filter
        (λ e.
          is_true (flag_at "/ok" v)
          && text_at "/request_id" status == some id
          && text_at "/status" status == some "finished"
          && text_at "/stream" status == some stream
          && names_api e
          && text_at "/request_id" e == some id
          && text_at "/stream" e == some stream
          && (is_event "succeeded" e || is_event "failed" e || is_event "cancelled" e))
        (value_at "/event" status)

  -- The daemon that `recover_terminal` asks, if it asks.
  abbrev pub recovers_from : Operation → Option String → Option String
  recovers_from op owner = if op.method == wifi_connect_target then owner else none

  abbrev pub as_handled : Step → Result ForwardError ForwardOutcome × List (Printed Value)
  as_handled (err x, l) = (err x, l)
  as_handled (ok a, l) = (ok handled, l)

  -- `recover_terminal`, from the daemon that it asks.
  abbrev pub recover_terminal : Bus → Operation → (owner id : String) → Option Value
  recover_terminal bus op owner id =
      and_then (and_then (bus.status owner id) parse_response) (terminal_event op.stream id)

  -- What is made of the event that is recovered, if one is.
  abbrev pub report_found :
      Bus → String → Option Value → Result ForwardError ForwardOutcome × List (Printed Value)
  report_found bus id none = (err (outcome_unknown (some id)), [])
  report_found bus id (some e) = as_handled (finish_operation_event bus.stdout e)

  -- The end of `run_operation` when the events ended with an error that is not printed.
  unfoldable pub recovered : Bus → Operation → String → Option String → List (Printed Value) → Run
  recovered bus op id none l = (err (outcome_unknown (some id)), command op.method ∷ [], l)
  recovered bus op id (some owner) l =
      let (r, more) = report_found bus id (recover_terminal bus op owner id) in
      (r, command op.method ∷ status_query owner id ∷ [], l ++ more)

  unfoldable pub concluded :
      Bus
      → Operation
      → String
      → Option String
      → Result ForwardError ForwardOutcome × List (Printed Value)
      → Run
  concluded bus op id owner (ok o, l) = (ok o, command op.method ∷ [], l)
  concluded bus op id owner (err reported, l) = (err reported, command op.method ∷ [], l)
  concluded bus op id owner (err other_error, l) = recovered bus op id (recovers_from op owner) l
  concluded bus op id owner (err (outcome_unknown i), l) =
      recovered bus op id (recovers_from op owner) l

  -- What follows a response that acknowledges the command.
  unfoldable pub accepted : Bus → Operation → List Message → Option String → Option String → Run
  accepted bus op ms owner none = (err (outcome_unknown none), command op.method ∷ [], [])
  accepted bus op ms owner (some id) =
      concluded bus op id owner (finish_events op.finish bus.stdout op.stream id none ms)

  abbrev pub refused : Operation → Result ForwardError ForwardOutcome × List (Printed Value) → Run
  refused op (r, l) = (r, command op.method ∷ [], l)

  unfoldable pub acknowledged : Bus → Operation → List Message → Option String → Option Value → Run
  acknowledged bus op ms owner none = (err (outcome_unknown none), command op.method ∷ [], [])
  acknowledged bus op ms owner (some v) =
      if is_false (flag_at "/ok" v)
      then refused op (print_response bus.stdout (some v))
      else accepted bus op ms owner (request_id v)

  unfoldable pub after_call :
      Bus → Operation → List Message → Result ForwardError (Option Reply) → Run
  after_call bus op ms (err x) = (err x, command op.method ∷ [], [])
  after_call bus op ms (ok none) = (ok op.unavailable, command op.method ∷ [], [])
  after_call bus op ms (ok (some reply)) =
      acknowledged bus op ms reply.owner (parse_response reply.body)

  abbrev pub subscribed : Bus → Operation → Option (List Message) → Run
  subscribed bus op none = (ok op.unavailable, [], [])
  subscribed bus op (some ms) = after_call bus op ms (call bus.answer)

  unfoldable pub run_operation : Bus → Operation → Run
  run_operation bus op = subscribed bus op bus.receive

  -- `forward_immediate`, once the request of the command is known.
  abbrev pub immediate_answer :
      String → Result ForwardError ForwardOutcome × List (Printed Value) → Run
  immediate_answer method (ok o, l) = (ok o, command method ∷ [], l)
  immediate_answer method (err reported, l) = (err reported, command method ∷ [], l)
  immediate_answer method (err other_error, l) =
      (err (outcome_unknown none), command method ∷ [], l)
  immediate_answer method (err (outcome_unknown i), l) =
      (err (outcome_unknown none), command method ∷ [], l)

  abbrev pub immediate_reply : Bus → String → Result ForwardError (Option Reply) → Run
  immediate_reply bus method (err x) = (err x, command method ∷ [], [])
  immediate_reply bus method (ok none) = (ok unavailable, command method ∷ [], [])
  immediate_reply bus method (ok (some reply)) =
      immediate_answer method (print_response bus.stdout (parse_response reply.body))

  unfoldable pub forward_immediate : Bus → String → Run
  forward_immediate bus method = immediate_reply bus method (call bus.answer)

  -- The end of `dispatch_forward`, once the command's request is known.
  unfoldable pub dispatch_forward : Bus → Forwarded → Run
  unfolding forward_immediate
  dispatch_forward bus (operation op) = run_operation bus op
  dispatch_forward bus (immediate method) = forward_immediate bus method
