-- ===== src/Forward/Success.antt =====
-- What it takes for a forwarded operation to be reported as done.
use nm_daemon.Base.{
  ℕ, ◌≡◌, ◌≢◌, inl, inr, refl, String, Option, none, some, List, [], ◌∷◌, ok, err, string_eq,
  option_eq, arith, Bool-cases,
}
use nm_daemon.Forward.{
  Run, parse_response, request_id, print, print_response, finish_events, recovers_from,
  recover_terminal, recovered, concluded, accepted, acknowledged, after_call, subscribed,
  run_operation, is_false,
}
use nm_daemon.Forward.Events.{Answer, Ended, finish_events-Ended}
use nm_daemon.Forward.Transport.{
  Json, CallAnswer, Message, Bus, Operation, call, handled, outcome_unknown, reported, other_error,
  replied, method_error, call_failed, result_of, finish_operation_result,
}
use nm_daemon.Forward.Reports.{
  Succeeded, Reports, report_found-Reports, recover_terminal_lem, finish_events-Reports,
}

module _ (Value : Type 0) (json : Json Value) (api_version : ℕ) where
  -- The result of a run and what it prints.
  abbrev outcome : Run Value json api_version → Answer Value json api_version
  outcome r = (r.0, r.2)

  recovered-Reports :
      (bus : Bus) (op : Operation) (id : String) (owner : Option String)
      → Reports Value json api_version id
          (outcome (recovered Value json api_version bus op id owner []))
  unfolding recovered
  recovered-Reports bus op id none h = absurd (ground arith)
  recovered-Reports bus op id (some w) h =
      report_found-Reports Value json api_version bus id
        (recover_terminal Value json api_version bus op w id)
        (recover_terminal_lem Value json api_version bus op w id) h

  concluded-Reports :
      (bus : Bus) (op : Operation) (id : String) (owner : Option String)
      (r : Answer Value json api_version)
      → Ended Value json api_version r
      → Reports Value json api_version id r
      → Reports Value json api_version id
          (outcome (concluded Value json api_version bus op id owner r))
  unfolding concluded
  concluded-Reports bus op id owner (ok o, l) d p h = p h
  concluded-Reports bus op id owner (err reported, l) d p h = absurd (ground arith)
  concluded-Reports bus op id owner (err other_error, []) d p h =
      recovered-Reports bus op id (recovers_from Value json api_version op owner) h
  concluded-Reports bus op id owner (err other_error, x ∷ l) d p h = absurd (ground arith)
  concluded-Reports bus op id owner (err (outcome_unknown i), l) d p h = absurd (ground arith)

  -- The daemon acknowledged the command with the id of a request.
  abbrev pub Acknowledged : Bus → String → Type 0
  Acknowledged bus id =
      (body : String) × (sender : Option String) × (v : Value) × (bus.answer
        ≡ replied (some body) sender)
      × (parse_response Value json api_version body ≡ some v)
      × (request_id Value json api_version v ≡ some id)

  -- What the theorem below says of an operation, of one of its runs.
  abbrev Genuine : Bus → Run Value json api_version → Type 0
  Genuine bus r =
      r.0 ≡ ok handled
      → (id : String) × (e : Value) × (r.2 ≡ result_of e ∷ [])
        × Succeeded Value json api_version id e
        × Acknowledged bus id

  accepted-Genuine :
      (bus : Bus) (op : Operation) (ms : List Message) (owner id : Option String)
      → op.finish ≡ finish_operation_result
      → ((i : String) → id ≡ some i → Acknowledged bus i)
      → Genuine bus (accepted Value json api_version bus op ms owner id)
  unfolding accepted
  accepted-Genuine bus op ms owner none f k h = absurd (ground arith)
  accepted-Genuine bus op ms owner (some id) f k h =
      let r = finish_events Value json api_version op.finish bus.stdout op.stream id none ms in
      let reports : Reports Value json api_version id r =
        rw (f) (finish_events-Reports Value json api_version bus.stdout op.stream id none ms) in
      let (e, p, s) =
        concluded-Reports bus op id owner r
          (finish_events-Ended Value json api_version op.finish bus.stdout op.stream id none ms)
          reports h in
      (id, e, p, s, k id refl)

  acknowledged-Genuine :
      (bus : Bus) (op : Operation) (ms : List Message) (owner : Option String) (v : Option Value)
      → op.finish ≡ finish_operation_result
      → ((x : Value) (i : String)
          → v ≡ some x
          → request_id Value json api_version x ≡ some i
          → Acknowledged bus i)
      → Genuine bus (acknowledged Value json api_version bus op ms owner v)
  unfolding acknowledged print_response print
  acknowledged-Genuine bus op ms owner none f k = λ h. absurd (ground arith)
  acknowledged-Genuine bus op ms owner (some v) f k =
      elim (Bool-cases (is_false Value json api_version (json.flag_at "/ok" v))) [
        | inl b ↦ rw (b, acknowledged) (λ h. absurd (ground arith))
        | inr b ↦
            rw (b, acknowledged)
              (accepted-Genuine bus op ms owner (request_id Value json api_version v) f
                (λ i. k v i refl))
      ]

  after_call-Genuine :
      (bus : Bus) (op : Operation) (ms : List Message) (a : CallAnswer)
      → op.finish ≡ finish_operation_result
      → op.unavailable ≢ handled
      → bus.answer ≡ a
      → Genuine bus (after_call Value json api_version bus op ms (call a))
  unfolding after_call call
  after_call-Genuine bus op ms (replied none s) f u q h = absurd (ground arith)
  after_call-Genuine bus op ms (replied (some body) s) f u q h =
      acknowledged-Genuine bus op ms s (parse_response Value json api_version body) f
        (λ v i p r. (body, s, v, q, p, r)) h
  after_call-Genuine bus op ms (method_error n s) f u q h = absurd (ground arith)
  after_call-Genuine bus op ms call_failed f u q h = absurd (ground arith)

  subscribed-Genuine :
      (bus : Bus) (op : Operation) (r : Option (List Message))
      → op.finish ≡ finish_operation_result
      → op.unavailable ≢ handled
      → Genuine bus (subscribed Value json api_version bus op r)
  subscribed-Genuine bus op none f u h = absurd (ground arith)
  subscribed-Genuine bus op (some ms) f u h = after_call-Genuine bus op ms bus.answer f u refl h

  -- When an operation other than a scan is done without an error, exactly one response is printed, the
  -- result of an event that says that the operation succeeded; and that event is about the request
  -- whose id the daemon gave when it acknowledged the command.
  pub no_false_success :
      (bus : Bus) (op : Operation)
      → op.finish ≡ finish_operation_result
      → op.unavailable ≢ handled
      → (run_operation Value json api_version bus op).0 ≡ ok handled
      → (id : String) × (e : Value) × ((run_operation Value json api_version bus op).2
          ≡ result_of e ∷ [])
        × Succeeded Value json api_version id e
        × Acknowledged bus id
  unfolding run_operation
  no_false_success bus op f u h = subscribed-Genuine bus op bus.receive f u h
