-- ===== src/Forward/Reports.antt =====
-- What a forwarded operation that is done has printed, from its events or from its recovery.
use nm_daemon.Base.{
  ℕ, ◌≡◌, inl, inr, refl, String, Bool, true, false, ◌||◌, Option, none, some, List, [], ◌∷◌,
  Result, ok, err, and_then, ◌==◌, string_eq, option_eq, arith, Option-cases, Bool-cases,
}
use nm_daemon.Forward.{
  parse_response, print, is_event, finish_operation_event, correlated, after_event, after_message,
  finish_events, terminal_event, as_handled, recover_terminal, report_found,
}
use nm_daemon.Forward.Events.{Answer}
use nm_daemon.Forward.Transport.{
  Json, ForwardError, Message, Bus, Operation, handled, result_of, error_of,
  finish_operation_result,
}

module _ (Value : Type 0) (json : Json Value) (api_version : ℕ) where
  -- An event that says that a request succeeded.
  abbrev pub Succeeded : String → Value → Type 0
  Succeeded id e =
      (json.text_at "/event" e ≡ some "succeeded") × (json.text_at "/request_id" e ≡ some id)

  -- If it is done, then just the result of such an event is printed.
  abbrev pub Reports : String → Answer Value json api_version → Type 0
  Reports id r = r.0 ≡ ok handled → (e : Value) × (r.1 ≡ result_of e ∷ []) × Succeeded id e

  text_is : (o : Option String) (s : String) → (o == some s) ≡ true → o ≡ some s
  text_is o s h = (option_eq.beq_iff o (some s)).0 h

  correlated_id :
      (stream id : String) (m : Message) (e : Value)
      → correlated Value json api_version stream id m ≡ ok (some e)
      → (json.text_at "/request_id" e == some id) ≡ true
  unfolding correlated
  correlated_id stream id none e h = absurd (ground arith)
  correlated_id stream id (some (s, event)) e h = elim (Option-cases (json.parse event)) [
    | inl n ↦ absurd (ground arith)
    | inr (v, n) ↦ ground arith
  ]

  printed-Reports :
      (stdout : Bool) (id : String) (e : Value)
      (next : Option Value → Answer Value json api_version)
      → Succeeded id e
      → Reports id (
          after_event Value json api_version
            (print Value json api_version stdout false (true, none) (result_of e))
            next)
  unfolding print
  printed-Reports false id e next s h = absurd (ground arith)
  printed-Reports true id e next s h = (e, refl, s)

  refused-Reports :
      (stdout : Bool) (id : String) (e : Value)
      (next : Option Value → Answer Value json api_version)
      → Reports id (
          after_event Value json api_version
            (print Value json api_version stdout true (true, none) (error_of e))
            next)
  unfolding print
  refused-Reports false id e next h = absurd (ground arith)
  refused-Reports true id e next h = absurd (ground arith)

  event-Reports :
      (stdout : Bool) (id : String) (e : Value)
      (next : Option Value → Answer Value json api_version)
      → (json.text_at "/request_id" e == some id) ≡ true
      → ((kept : Option Value) → Reports id (next kept))
      → Reports id (
          after_event Value json api_version
            (finish_operation_event Value json api_version stdout e)
            next)
  unfolding finish_operation_event
  event-Reports stdout id e next q n =
      elim (Bool-cases (is_event Value json api_version "succeeded" e)) [
        | inl a ↦
            rw (a, finish_operation_event)
              (printed-Reports stdout id e next (text_is _ _ a, text_is _ _ q))
        | inr a ↦
            elim (Bool-cases (
              is_event Value json api_version "failed" e
              || is_event Value json api_version "cancelled" e)) [
                | inl b ↦ rw (b, a, finish_operation_event) (refused-Reports stdout id e next)
                | inr b ↦ rw (b, a, finish_operation_event) (n none)
              ]
      ]

  message-Reports :
      (c : Result ForwardError (Option Value)) (stdout : Bool) (id : String) (kept : Option Value)
      (next : Option Value → Answer Value json api_version)
      → ((e : Value) → c ≡ ok (some e) → (json.text_at "/request_id" e == some id) ≡ true)
      → ((k : Option Value) → Reports id (next k))
      → Reports id (after_message Value json api_version c finish_operation_result stdout kept next)
  message-Reports (err x) stdout id kept next q n h = absurd (ground arith)
  message-Reports (ok none) stdout id kept next q n h = n kept h
  message-Reports (ok (some e)) stdout id kept next q n h =
      event-Reports stdout id e next (q e refl) n h

  pub finish_events-Reports :
      (stdout : Bool) (stream id : String) (kept : Option Value) (ms : List Message)
      → Reports id
          (finish_events Value json api_version finish_operation_result stdout stream id kept ms)
  unfolding finish_events
  finish_events-Reports stdout stream id kept [] h = absurd (ground arith)
  finish_events-Reports stdout stream id kept (m ∷ ms) h =
      message-Reports (correlated Value json api_version stream id m) stdout id kept
        (λ k. finish_events Value json api_version finish_operation_result stdout stream id k ms)
        (correlated_id stream id m) (λ k. finish_events-Reports stdout stream id k ms) h

  abbrev is_last : Value → Bool
  is_last e =
      is_event Value json api_version "succeeded" e
      || is_event Value json api_version "failed" e
      || is_event Value json api_version "cancelled" e

  terminal_event_lem :
      (stream id : String) (v e : Value)
      → terminal_event Value json api_version stream id v ≡ some e
      → (is_last e ≡ true) × ((json.text_at "/request_id" e == some id) ≡ true)
  unfolding terminal_event
  terminal_event_lem stream id v e h = elim (Option-cases (json.value_at "/data/result" v)) [
    | inl n ↦ absurd (ground arith)
    | inr (status, n) ↦ elim (Option-cases (json.value_at "/event" status)) [
      | inl m ↦ absurd (ground arith)
      | inr (x, m) ↦ (ground arith, ground arith)
    ]
  ]

  pub recover_terminal_lem :
      (bus : Bus) (op : Operation) (owner id : String) (e : Value)
      → recover_terminal Value json api_version bus op owner id ≡ some e
      → (is_last e ≡ true) × ((json.text_at "/request_id" e == some id) ≡ true)
  recover_terminal_lem bus op owner id e h =
      elim (Option-cases (and_then (bus.status owner id) (parse_response Value json api_version))) [
        | inl n ↦ absurd (ground arith)
        | inr (v, n) ↦ terminal_event_lem op.stream id v e (ground arith)
      ]

  found-Reports :
      (stdout : Bool) (id : String) (e : Value)
      → Succeeded id e
      → Reports id (
          as_handled Value json api_version
            (print Value json api_version stdout false (true, none) (result_of e)))
  unfolding print
  found-Reports false id e s h = absurd (ground arith)
  found-Reports true id e s h = (e, refl, s)

  failed-Reports :
      (stdout : Bool) (id : String) (e : Value)
      → Reports id (
          as_handled Value json api_version
            (print Value json api_version stdout true (true, none) (error_of e)))
  unfolding print
  failed-Reports false id e h = absurd (ground arith)
  failed-Reports true id e h = absurd (ground arith)

  last-Reports :
      (stdout : Bool) (id : String) (e : Value)
      → is_last e ≡ true
      → (json.text_at "/request_id" e == some id) ≡ true
      → Reports id (
          as_handled Value json api_version
            (finish_operation_event Value json api_version stdout e))
  unfolding finish_operation_event
  last-Reports stdout id e t q = elim (Bool-cases (is_event Value json api_version "succeeded" e)) [
    | inl a ↦
        rw (a, finish_operation_event) (found-Reports stdout id e (text_is _ _ a, text_is _ _ q))
    | inr a ↦
        let b : (is_event Value json api_version "failed" e
              || is_event Value json api_version "cancelled" e)
            ≡ true =
          ground arith in
        rw (b, a, finish_operation_event) (failed-Reports stdout id e)
  ]

  pub report_found-Reports :
      (bus : Bus) (id : String) (found : Option Value)
      → ((e : Value)
          → found ≡ some e
          → (is_last e ≡ true) × ((json.text_at "/request_id" e == some id) ≡ true))
      → Reports id (report_found Value json api_version bus id found)
  report_found-Reports bus id none t h = absurd (ground arith)
  report_found-Reports bus id (some e) t h =
      let (last, own) = t e refl in last-Reports bus.stdout id e last own h
