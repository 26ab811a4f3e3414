-- ===== src/Forward/Fallback.antt =====
-- When a command may run directly, without the daemon, and what was sent to the bus before.
use nm_daemon.Base.{
  ℕ, ◌≡◌, ◌≢◌, ◌⊎◌, inl, inr, refl, String, Bool, true, Option, none, some, List, [], ◌∷◌, Result,
  ok, err, string_eq, option_eq, arith,
}
use text.Mathlib.TextEquality.{eq_iff}
use nm_daemon.Forward.{
  Run, parse_response, request_id, print, print_response, finish_operation_event, finish_events,
  recovers_from, as_handled, recover_terminal, report_found, recovered, concluded, accepted,
  acknowledged, after_call, subscribed, run_operation, immediate_answer, immediate_reply,
  forward_immediate, dispatch_forward, Forwarded, operation, immediate, method_of, fallback_of,
}
use nm_daemon.Forward.Transport.{
  Json, ForwardOutcome, ForwardError, CallAnswer, Reply, Message, Bus, Printed, Operation,
  not_dispatched, call, handled, unavailable, outcome_unknown, reported, other_error, replied,
  method_error, call_failed, command,
}
use nm_daemon.Forward.Events.{Answer, Ended, finish_events-Ended}

-- The bus itself says that it could not deliver the command.
abbrev pub Undelivered : CallAnswer → Type 0
Undelivered answer =
    (name : String) × (answer ≡ method_error name (some "org.freedesktop.DBus"))
    × ((name ≡ "org.freedesktop.DBus.Error.ServiceUnknown")
        ⊎ (name ≡ "org.freedesktop.DBus.Error.NameHasNoOwner"))

not_dispatched_lem :
    (name : String) (sender : Option String)
    → not_dispatched name sender ≡ true
    → Undelivered (method_error name sender)
unfolding not_dispatched
not_dispatched_lem name none h = absurd (ground arith)
not_dispatched_lem name (some s) h =
    let bus = eq_iff s "org.freedesktop.DBus" in
    let unknown = eq_iff name "org.freedesktop.DBus.Error.ServiceUnknown" in
    let no_owner = eq_iff name "org.freedesktop.DBus.Error.NameHasNoOwner" in
    (name, ground (arith, bus), ground (arith, unknown, no_owner))

call-Undelivered : (answer : CallAnswer) → call answer ≡ ok none → Undelivered answer
unfolding call
call-Undelivered (replied none sender) e = absurd (ground arith)
call-Undelivered (replied (some body) sender) e = absurd (ground arith)
call-Undelivered (method_error name sender) e = not_dispatched_lem name sender (ground arith)
call-Undelivered call_failed e = absurd (ground arith)

module _ (Value : Type 0) (json : Json Value) (api_version : ℕ) where
  -- What the theorem below says of an operation, of one of its runs.
  abbrev Falls : Bus → Operation → Run Value json api_version → Type 0
  Falls bus op r =
      (o : ForwardOutcome)
      → r.0 ≡ ok o
      → o ≢ handled
      → (o ≡ op.unavailable)
        × (r.2 ≡ [])
        × ((r.1 ≡ []) ⊎ (r.1 ≡ command op.method ∷ []) × Undelivered bus.answer)

  as_handled-handled :
      (r : Result ForwardError (Bool × Option Value) × List (Printed Value)) (o : ForwardOutcome)
      → (as_handled Value json api_version r).0 ≡ ok o
      → o ≡ handled
  as_handled-handled (err x, l) o e = absurd (ground arith)
  as_handled-handled (ok a, l) o e = ground arith

  report_found-handled :
      (bus : Bus) (id : String) (found : Option Value) (o : ForwardOutcome)
      → (report_found Value json api_version bus id found).0 ≡ ok o
      → o ≡ handled
  report_found-handled bus id none o e = absurd (ground arith)
  report_found-handled bus id (some v) o e =
      as_handled-handled (finish_operation_event Value json api_version bus.stdout v) o e

  recovered-handled :
      (bus : Bus) (op : Operation) (id : String) (owner : Option String) (l : List (Printed Value))
      (o : ForwardOutcome)
      → (recovered Value json api_version bus op id owner l).0 ≡ ok o
      → o ≡ handled
  unfolding recovered
  recovered-handled bus op id none l o e = absurd (ground arith)
  recovered-handled bus op id (some w) l o e =
      report_found-handled bus id (recover_terminal Value json api_version bus op w id) o e

  concluded-handled :
      (bus : Bus) (op : Operation) (id : String) (owner : Option String)
      (r : Answer Value json api_version) (o : ForwardOutcome)
      → Ended Value json api_version r
      → (concluded Value json api_version bus op id owner r).0 ≡ ok o
      → o ≡ handled
  unfolding concluded
  concluded-handled bus op id owner (ok x, l) o h e = ground arith
  concluded-handled bus op id owner (err reported, l) o h e = absurd (ground arith)
  concluded-handled bus op id owner (err other_error, l) o h e =
      recovered-handled bus op id (recovers_from Value json api_version op owner) l o e
  concluded-handled bus op id owner (err (outcome_unknown i), l) o h e =
      recovered-handled bus op id (recovers_from Value json api_version op owner) l o e

  accepted-handled :
      (bus : Bus) (op : Operation) (ms : List Message) (owner id : Option String)
      (o : ForwardOutcome)
      → (accepted Value json api_version bus op ms owner id).0 ≡ ok o
      → o ≡ handled
  unfolding accepted
  accepted-handled bus op ms owner none o e = absurd (ground arith)
  accepted-handled bus op ms owner (some id) o e =
      concluded-handled bus op id owner
        (finish_events Value json api_version op.finish bus.stdout op.stream id none ms) o
        (finish_events-Ended Value json api_version op.finish bus.stdout op.stream id none ms) e

  print_response-handled :
      (stdout : Bool) (v : Option Value) (o : ForwardOutcome)
      → (print_response Value json api_version stdout v).0 ≡ ok o
      → o ≡ handled
  unfolding print_response print
  print_response-handled stdout none o e = absurd (ground arith)
  print_response-handled stdout (some v) o e = ground arith

  acknowledged-handled :
      (bus : Bus) (op : Operation) (ms : List Message) (owner : Option String) (v : Option Value)
      (o : ForwardOutcome)
      → (acknowledged Value json api_version bus op ms owner v).0 ≡ ok o
      → o ≡ handled
  unfolding acknowledged
  acknowledged-handled bus op ms owner none o e = absurd (ground arith)
  acknowledged-handled bus op ms owner (some v) o e = ground (
    arith,
    accepted-handled bus op ms owner (request_id Value json api_version v) o,
    print_response-handled bus.stdout (some v) o,
  )

  after_call-Falls :
      (bus : Bus) (op : Operation) (ms : List Message) (c : Result ForwardError (Option Reply))
      → (c ≡ ok none → Undelivered bus.answer)
      → Falls bus op (after_call Value json api_version bus op ms c)
  unfolding after_call
  after_call-Falls bus op ms (err x) u o e n = absurd (ground arith)
  after_call-Falls bus op ms (ok none) u o e n = (ground arith, refl, inr (refl, u refl))
  after_call-Falls bus op ms (ok (some reply)) u o e n = absurd (
      n (
        acknowledged-handled bus op ms reply.owner
          (parse_response Value json api_version reply.body) o e))

  subscribed-Falls :
      (bus : Bus) (op : Operation) (r : Option (List Message))
      → Falls bus op (subscribed Value json api_version bus op r)
  subscribed-Falls bus op none o e n = (ground arith, refl, inl refl)
  subscribed-Falls bus op (some ms) o e n =
      after_call-Falls bus op ms (call bus.answer) (call-Undelivered bus.answer) o e n

  immediate_answer-handled :
      (method : String) (r : Answer Value json api_version) (o : ForwardOutcome)
      → (r.0 ≡ ok o → o ≡ handled)
      → (immediate_answer Value json api_version method r).0 ≡ ok o
      → o ≡ handled
  immediate_answer-handled method (ok x, l) o h e = h e
  immediate_answer-handled method (err reported, l) o h e = absurd (ground arith)
  immediate_answer-handled method (err other_error, l) o h e = absurd (ground arith)
  immediate_answer-handled method (err (outcome_unknown i), l) o h e = absurd (ground arith)

  immediate_reply-Falls :
      (bus : Bus) (method : String) (c : Result ForwardError (Option Reply)) (o : ForwardOutcome)
      → (c ≡ ok none → Undelivered bus.answer)
      → (immediate_reply Value json api_version bus method c).0 ≡ ok o
      → o ≢ handled
      → let r = immediate_reply Value json api_version bus method c in
        (o ≡ unavailable)
        × (r.2 ≡ [])
        × ((r.1 ≡ []) ⊎ (r.1 ≡ command method ∷ []) × Undelivered bus.answer)
  immediate_reply-Falls bus method (err x) o u e n = absurd (ground arith)
  immediate_reply-Falls bus method (ok none) o u e n = (ground arith, refl, inr (refl, u refl))
  immediate_reply-Falls bus method (ok (some reply)) o u e n =
      let v = parse_response Value json api_version reply.body in
      absurd (
        n (
          immediate_answer-handled method (print_response Value json api_version bus.stdout v) o
            (print_response-handled bus.stdout v o) e))

  -- If a command, an operation or an immediate one, is not handled but left to run directly, then
  -- nothing was printed, and either nothing was sent to the daemon, or the command alone, and the bus
  -- itself answered that it had nobody to deliver it to; so after a timeout, or any other answer, it
  -- never runs directly.
  pub fallback_is_safe :
      (bus : Bus) (f : Forwarded) (o : ForwardOutcome)
      → (dispatch_forward Value json api_version bus f).0 ≡ ok o
      → o ≢ handled
      → (o ≡ fallback_of f)
        × ((dispatch_forward Value json api_version bus f).2 ≡ [])
        × (((dispatch_forward Value json api_version bus f).1 ≡ [])
            ⊎ ((dispatch_forward Value json api_version bus f).1 ≡ command (method_of f) ∷ [])
              × Undelivered bus.answer)
  unfolding dispatch_forward run_operation forward_immediate
  fallback_is_safe bus (operation op) o e n = subscribed-Falls bus op bus.receive o e n
  fallback_is_safe bus (immediate method) o e n =
      immediate_reply-Falls bus method (call bus.answer) o (call-Undelivered bus.answer) e n
