-- ===== src/Forward/Once.antt =====
-- What is sent to the bus for a forwarded operation.
use nm_daemon.Base.{
  ℕ, ◌≡◌, ◌⊎◌, inl, inr, refl, String, Option, none, some, List, [], ◌∷◌, Result, ok, err, arith,
  Bool-cases, string_eq,
}
use nm_daemon.Forward.{
  print_response, parse_response, request_id, is_false, finish_events, recovers_from, recovered,
  concluded, accepted, acknowledged, after_call, subscribed, run_operation, immediate_answer,
  immediate_reply, forward_immediate, dispatch_forward, Forwarded, operation, immediate, method_of,
}
use nm_daemon.Forward.Transport.{
  Json, ForwardOutcome, ForwardError, CallAnswer, Reply, Message, Bus, Sent, Printed, Operation,
  call, not_dispatched, outcome_unknown, reported, other_error, replied, method_error, call_failed,
  command, status_query,
}

module _ (Value : Type 0) (json : Json Value) (api_version : ℕ) where
  -- The daemon replied to the command, and acknowledged it with the id of a request.
  abbrev Asked : Bus → Option String → String → Type 0
  Asked bus owner id =
      (body : String) × (v : Value) × (bus.answer ≡ replied (some body) owner)
      × (parse_response Value json api_version body ≡ some v)
      × (request_id Value json api_version v ≡ some id)

  -- What is sent to the bus for a command: nothing, the command, or the command and then a query to the
  -- very daemon that replied to it, for the status of the request that the reply names.
  abbrev pub SentOnce : Bus → String → List Sent → Type 0
  SentOnce bus method sent =
      (sent ≡ [])
      ⊎ (sent ≡ command method ∷ [])
      ⊎ ((owner id : String) × (sent ≡ command method ∷ status_query owner id ∷ [])
          × Asked bus (some owner) id)

  recovered-SentOnce :
      (bus : Bus) (op : Operation) (id : String) (owner : Option String) (l : List (Printed Value))
      → ((w : String) → owner ≡ some w → Asked bus (some w) id)
      → SentOnce bus op.method (recovered Value json api_version bus op id owner l).1
  unfolding recovered
  recovered-SentOnce bus op id none l h = inr (inl refl)
  recovered-SentOnce bus op id (some w) l h = inr (inr (w, id, refl, h w refl))

  Asked-daemon :
      (bus : Bus) (op : Operation) (owner : Option String) (id w : String)
      → Asked bus owner id
      → recovers_from Value json api_version op owner ≡ some w
      → Asked bus (some w) id
  Asked-daemon bus op owner id w (body, v, r, p, i) e = (body, v, ground arith, p, i)

  concluded-SentOnce :
      (bus : Bus) (op : Operation) (id : String) (owner : Option String)
      (r : Result ForwardError ForwardOutcome × List (Printed Value))
      → Asked bus owner id
      → SentOnce bus op.method (concluded Value json api_version bus op id owner r).1
  unfolding concluded
  concluded-SentOnce bus op id owner (ok x, l) h = inr (inl refl)
  concluded-SentOnce bus op id owner (err reported, l) h = inr (inl refl)
  concluded-SentOnce bus op id owner (err other_error, l) h =
      recovered-SentOnce bus op id (recovers_from Value json api_version op owner) l
        (λ w e. Asked-daemon bus op owner id w h e)
  concluded-SentOnce bus op id owner (err (outcome_unknown i), l) h =
      recovered-SentOnce bus op id (recovers_from Value json api_version op owner) l
        (λ w e. Asked-daemon bus op owner id w h e)

  accepted-SentOnce :
      (bus : Bus) (op : Operation) (ms : List Message) (owner id : Option String)
      → ((i : String) → id ≡ some i → Asked bus owner i)
      → SentOnce bus op.method (accepted Value json api_version bus op ms owner id).1
  unfolding accepted
  accepted-SentOnce bus op ms owner none h = inr (inl refl)
  accepted-SentOnce bus op ms owner (some id) h =
      concluded-SentOnce bus op id owner
        (finish_events Value json api_version op.finish bus.stdout op.stream id none ms) (h id refl)

  acknowledged-SentOnce :
      (bus : Bus) (op : Operation) (ms : List Message) (owner : Option String) (v : Option Value)
      → ((x : Value) (i : String)
          → v ≡ some x
          → request_id Value json api_version x ≡ some i
          → Asked bus owner i)
      → SentOnce bus op.method (acknowledged Value json api_version bus op ms owner v).1
  unfolding acknowledged
  acknowledged-SentOnce bus op ms owner none h = inr (inl refl)
  acknowledged-SentOnce bus op ms owner (some v) h =
      elim (Bool-cases (is_false Value json api_version (json.flag_at "/ok" v))) [
        | inl b ↦ rw (b, acknowledged) (inr (inl refl))
        | inr b ↦
            rw (b, acknowledged)
              (accepted-SentOnce bus op ms owner (request_id Value json api_version v)
                (λ i e. h v i refl e))
      ]

  after_call-SentOnce :
      (bus : Bus) (op : Operation) (ms : List Message) (a : CallAnswer)
      → bus.answer ≡ a
      → SentOnce bus op.method (after_call Value json api_version bus op ms (call a)).1
  unfolding after_call call
  after_call-SentOnce bus op ms (replied none s) q = inr (inl refl)
  after_call-SentOnce bus op ms (replied (some body) s) q =
      acknowledged-SentOnce bus op ms s (parse_response Value json api_version body)
        (λ v i p r. (body, v, q, p, r))
  after_call-SentOnce bus op ms (method_error n s) q = elim (Bool-cases (not_dispatched n s)) [
    | inl b ↦ rw b (inr (inl refl))
    | inr b ↦ rw b (inr (inl refl))
  ]
  after_call-SentOnce bus op ms call_failed q = inr (inl refl)

  subscribed-SentOnce :
      (bus : Bus) (op : Operation) (r : Option (List Message))
      → SentOnce bus op.method (subscribed Value json api_version bus op r).1
  subscribed-SentOnce bus op none = inl refl
  subscribed-SentOnce bus op (some ms) = after_call-SentOnce bus op ms bus.answer refl

  immediate_answer-sent :
      (method : String) (r : Result ForwardError ForwardOutcome × List (Printed Value))
      → (immediate_answer Value json api_version method r).1 ≡ command method ∷ []
  immediate_answer-sent method (ok o, l) = refl
  immediate_answer-sent method (err reported, l) = refl
  immediate_answer-sent method (err other_error, l) = refl
  immediate_answer-sent method (err (outcome_unknown i), l) = refl

  immediate-SentOnce :
      (bus : Bus) (method : String) (c : Result ForwardError (Option Reply))
      → SentOnce bus method (immediate_reply Value json api_version bus method c).1
  immediate-SentOnce bus method (err x) = inr (inl refl)
  immediate-SentOnce bus method (ok none) = inr (inl refl)
  immediate-SentOnce bus method (ok (some reply)) = inr (
      inl (
        immediate_answer-sent method (
          print_response Value json api_version bus.stdout
            (parse_response Value json api_version reply.body))))

  -- However the run of a command goes, the command is sent at most once, and the only other message is
  -- one query to the very daemon that replied to the command, for the status of the request whose id
  -- is in that reply.
  pub sent_once :
      (bus : Bus) (f : Forwarded)
      → SentOnce bus (method_of f) (dispatch_forward Value json api_version bus f).1
  unfolding dispatch_forward run_operation forward_immediate
  sent_once bus (operation op) = subscribed-SentOnce bus op bus.receive
  sent_once bus (immediate method) = immediate-SentOnce bus method (call bus.answer)
