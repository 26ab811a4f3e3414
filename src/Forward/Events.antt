-- ===== src/Forward/Events.antt =====
-- How the reading of an operation's events can end.
use nm_daemon.Base.{
  ℕ, ◌≡◌, ◌⊎◌, inl, inr, refl, String, Bool, true, false, ◌||◌, Option, none, some, List, [], ◌∷◌,
  Result, ok, err, string_eq, option_eq, arith, Option-cases, Bool-cases,
}
use nm_daemon.Forward.{
  print, is_event, finish_operation_event, handle_scan_event, handle_event, correlated, after_event,
  after_message, finish_events,
}
use nm_daemon.Forward.Transport.{
  Json, ForwardOutcome, ForwardError, Message, Printed, Finish, handled, reported, other_error,
  result_of, error_of, access_points_of, finish_operation_result, finish_scan,
}

module _ (Value : Type 0) (json : Json Value) (api_version : ℕ) where
  abbrev pub Answer : Type 0
  Answer = Result ForwardError ForwardOutcome × List (Printed Value)

  -- The ways in which the events of an operation can end.
  abbrev pub Ended : Answer → Type 0
  Ended r = (r.0 ≡ ok handled) ⊎ (r.0 ≡ err reported) ⊎ (r ≡ (err other_error, []))

  -- The ways in which an event can be handled.
  abbrev Handled : Result ForwardError (Bool × Option Value) × List (Printed Value) → Type 0
  Handled r =
      ((kept : Option Value) × (r ≡ (ok (false, kept), [])))
      ⊎ ((kept : Option Value) × (r.0 ≡ ok (true, kept)))
      ⊎ (r.0 ≡ err reported)
      ⊎ (r ≡ (err other_error, []))

  print-Handled :
      (stdout refusal : Bool) (kept : Option Value) (p : Printed Value)
      → Handled (print Value json api_version stdout refusal (true, kept) p)
  unfolding print
  print-Handled false refusal kept p = inr (inr (inr refl))
  print-Handled true true kept p = inr (inr (inl refl))
  print-Handled true false kept p = inr (inl (kept, refl))

  handle_event-Handled :
      (f : Finish) (stdout : Bool) (kept : Option Value) (e : Value)
      → Handled (handle_event Value json api_version f stdout kept e)
  unfolding finish_operation_event handle_scan_event print
  handle_event-Handled finish_operation_result stdout kept e =
      elim (Bool-cases (is_event Value json api_version "succeeded" e)) [
        | inl a ↦ rw (a, finish_operation_event) (print-Handled stdout false none (result_of e))
        | inr a ↦
            elim (Bool-cases (
              is_event Value json api_version "failed" e
              || is_event Value json api_version "cancelled" e)) [
                | inl b ↦
                    rw (b, a, finish_operation_event) (print-Handled stdout true none (error_of e))
                | inr b ↦ rw (b, a, finish_operation_event) (inl (none, refl))
              ]
      ]
  handle_event-Handled (finish_scan quiet) stdout kept e =
      elim (Bool-cases (is_event Value json api_version "warning" e)) [
        | inl a ↦ rw (a, handle_scan_event) (inl (kept, refl))
        | inr a ↦ elim (Bool-cases (is_event Value json api_version "snapshot" e)) [
          | inl b ↦ rw (a, b, handle_scan_event) (inl (some e, refl))
          | inr b ↦ elim (Bool-cases (is_event Value json api_version "complete" e)) [
            | inl c ↦ elim (Bool-cases quiet) [
              | inl q ↦ rw (a, b, c, q, handle_scan_event) (inr (inl (kept, refl)))
              | inr q ↦
                  rw (a, b, c, q, handle_scan_event)
                    (print-Handled stdout false kept (access_points_of kept))
            ]
            | inr c ↦
                elim (Bool-cases (
                  is_event Value json api_version "failed" e
                  || is_event Value json api_version "cancelled" e)) [
                    | inl d ↦
                        rw (d, a, b, c, handle_scan_event)
                          (print-Handled stdout true kept (error_of e))
                    | inr d ↦ rw (d, a, b, c, handle_scan_event) (inl (kept, refl))
                  ]
          ]
        ]
      ]

  after_event-Ended :
      (r : Result ForwardError (Bool × Option Value) × List (Printed Value))
      (next : Option Value → Answer)
      → Handled r
      → ((kept : Option Value) → Ended (next kept))
      → Ended (after_event Value json api_version r next)
  after_event-Ended (err x, l) next h n = ground arith
  after_event-Ended (ok (true, kept), l) next h n = inl refl
  after_event-Ended (ok (false, kept), l) next h n = elim (n kept) [
    | inl a ↦ inl a
    | inr (inl a) ↦ inr (inl a)
    | inr (inr a) ↦ inr (inr (ground arith))
  ]

  correlated-err :
      (stream id : String) (m : Message) (x : ForwardError)
      → correlated Value json api_version stream id m ≡ err x
      → x ≡ other_error
  unfolding correlated
  correlated-err stream id none x e = ground arith
  correlated-err stream id (some (t, event)) x e = elim (Option-cases (json.parse event)) [
    | inl n ↦ ground arith
    | inr (v, n) ↦ absurd (ground arith)
  ]

  after_message-Ended :
      (c : Result ForwardError (Option Value)) (f : Finish) (stdout : Bool) (kept : Option Value)
      (next : Option Value → Answer)
      → ((x : ForwardError) → c ≡ err x → x ≡ other_error)
      → ((k : Option Value) → Ended (next k))
      → Ended (after_message Value json api_version c f stdout kept next)
  after_message-Ended (err x) f stdout kept next u n = inr (inr (ground (arith, u x refl)))
  after_message-Ended (ok none) f stdout kept next u n = n kept
  after_message-Ended (ok (some e)) f stdout kept next u n =
      after_event-Ended (handle_event Value json api_version f stdout kept e) next
        (handle_event-Handled f stdout kept e) n

  -- Reading events to their end either handles the operation, or reports an error, or prints nothing.
  pub finish_events-Ended :
      (f : Finish) (stdout : Bool) (stream id : String) (kept : Option Value) (ms : List Message)
      → Ended (finish_events Value json api_version f stdout stream id kept ms)
  unfolding finish_events
  finish_events-Ended f stdout stream id kept [] = inr (inr refl)
  finish_events-Ended f stdout stream id kept (m ∷ ms) =
      let next =
        λ (k : Option Value). finish_events Value json api_version f stdout stream id k ms in
      after_message-Ended (correlated Value json api_version stream id m) f stdout kept next
        (correlated-err stream id m) (λ k. finish_events-Ended f stdout stream id k ms)
