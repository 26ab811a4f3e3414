-- ===== src/Runtime/Subscriptions/Refresh.antt =====
-- The shared refresh: one at a time, and a change during one is followed by another.
use nm_daemon.Base.{
  ℕ, suc, ◌+◌, ◌≤◌, ◌≡◌, refl, inl, inr, Bool, true, false, none, List, [], ◌∷◌, arith, ltb,
  if◌then◌else◌, Bool-cases, Option-cases, String, leb, string_eq,
}
use nm_daemon.Base.Sets.{has}
use nm_daemon.Base.Map.{Map, insert}
use nm_daemon.Runtime.Tasks.{Stream}
use nm_daemon.Runtime.Feedback.{HealthFeedback}
use nm_daemon.Runtime.Subscriptions.{
  Actor, Outside, Control, Effect, Data, start, subscribe, cancel_subscription, subscriber_owners,
  owners, external_event, control_drop_owner, health_signal, network_changed, refreshed, shutdown,
  submits_refresh, handle_control, debounced, request_shared_refresh, add_subscription,
  remove_subscription, complete_shared_refresh, emit_external_to_subscribers, Subscription,
  set_gate, watches, projected,
}

abbrev Tallies : ℕ → Actor → Type 0
Tallies n a = (n ≤ 1) × (a.refresh.in_flight ≡ ltb 0 n)

module _ (B P : Type 0) where
  abbrev pub is_submission : Effect B P → Bool
  is_submission (submits_refresh d) = true
  is_submission _ = false

  abbrev pub submissions : List (Effect B P) → ℕ
  submissions [] = 0
  submissions (e ∷ es) = let rest = submissions es in if is_submission e then suc rest else rest

  abbrev pub is_refreshed : Control B P → Bool
  is_refreshed (refreshed payloads) = true
  is_refreshed _ = false

  -- The actor with the number of refreshes that were submitted and have not answered. A refresh
  -- answers once, by `refreshed`.
  pub data Reach : Actor → ℕ → Type 0 where
    begins : Reach start 0
    receives :
        {a : Actor} {n : ℕ} (out : Outside) (c : Control B P)
        → Reach a n
        → is_refreshed c ≡ false
        → Reach (handle_control out c a).0 (n + submissions (handle_control out c a).1)
    answers :
        {a : Actor} {n : ℕ} (out : Outside) (payloads : P)
        → Reach a (suc n)
        → Reach
            (handle_control {B = B} out (refreshed payloads) a).0
            (n + submissions (handle_control {B = B} out (refreshed payloads) a).1)
    elapses :
        {a : Actor} {n : ℕ} (out : Outside)
        → Reach a n
        → Reach
            (debounced {B = B} {P = P} out a).0
            (n + submissions (debounced {B = B} {P = P} out a).1)

  request-Tallies :
      (out : Outside) (n : ℕ) (a : Actor)
      → Tallies n a
      → Tallies
          (n + submissions (request_shared_refresh {B = B} {P = P} out a).1)
          (request_shared_refresh {B = B} {P = P} out a).0
  unfolding request_shared_refresh
  request-Tallies out n a (small, t) = elim (Bool-cases (a.refresh.in_flight)) [
    | inl f ↦ (ground arith, ground arith)
    | inr f ↦ (ground arith, ground arith)
  ]

  emit-submissions :
      (out : Outside) (stream : Stream) (request event : String) (d : Data B) (done : List String)
      (m : Map String Subscription) (f : HealthFeedback)
      → submissions (emit_external_to_subscribers out stream request event d done m f).1 ≡ 0
  unfolding emit_external_to_subscribers
  emit-submissions out stream request event d done [] f = refl
  emit-submissions out stream request event d done ((id, s) ∷ m) f =
      elim (Option-cases (if watches stream s then s.owner else none)) [
        | inl q ↦ ground (arith, emit-submissions out stream request event d done m f)
        | inr (o, q) ↦ elim (Bool-cases (has o done)) [
          | inl b ↦ ground (arith, emit-submissions out stream request event d done m f)
          | inr b ↦ ground (
            arith,
            emit-submissions out stream request event d (o ∷ done) m (projected out stream o d f).0,
          )
        ]
      ]

  receive-Tallies :
      (out : Outside) (c : Control B P) (n : ℕ) (a : Actor)
      → Tallies n a
      → is_refreshed c ≡ false
      → Tallies (n + submissions (handle_control out c a).1) (handle_control out c a).0
  unfolding handle_control add_subscription remove_subscription
  receive-Tallies out (subscribe id s) n a t h =
      request-Tallies out n (record a { subscriptions = insert id s a.subscriptions }) t
  receive-Tallies out (cancel_subscription id owner found) n a (small, t) h =
      (ground arith, ground arith)
  receive-Tallies out (subscriber_owners stream) n a (small, t) h = (ground arith, ground arith)
  receive-Tallies out owners n a (small, t) h = (ground arith, ground arith)
  receive-Tallies out (external_event stream request event d) n a (small, t) h =
      let e = emit-submissions out stream request event d [] a.subscriptions a.health_feedback in
      (ground arith, ground arith)
  receive-Tallies out (control_drop_owner owner) n a (small, t) h = (ground arith, ground arith)
  receive-Tallies out (health_signal signal) n a (small, t) h = (ground arith, ground arith)
  receive-Tallies out network_changed n a (small, t) h = (ground arith, ground arith)
  receive-Tallies out (refreshed payloads) n a (small, t) h = absurd (ground arith)
  receive-Tallies out shutdown n a (small, t) h = (ground arith, ground arith)

  answer-Tallies :
      (out : Outside) (payloads : P) (n : ℕ) (a : Actor)
      → suc n ≤ 1
      → Tallies
          (n + submissions (handle_control {B = B} out (refreshed payloads) a).1)
          (handle_control {B = B} out (refreshed payloads) a).0
  unfolding handle_control complete_shared_refresh
  answer-Tallies out payloads n a small =
      let (least, t) =
        request-Tallies out n (set_gate false false a) (ground arith, ground arith) in
      elim (Bool-cases (a.refresh.dirty)) [
        | inl d ↦ (ground arith, ground arith)
        | inr d ↦ (ground arith, ground arith)
      ]

  elapse-Tallies :
      (out : Outside) (n : ℕ) (a : Actor)
      → Tallies n a
      → Tallies
          (n + submissions (debounced {B = B} {P = P} out a).1)
          (debounced {B = B} {P = P} out a).0
  unfolding debounced
  elapse-Tallies out n a (small, t) =
      let (least, q) =
        request-Tallies out n (record a { network_change_deadline = none }) (small, t) in
      elim (Option-cases (a.network_change_deadline)) [
        | inl d ↦ (ground arith, ground arith)
        | inr (deadline, d) ↦ elim (Bool-cases (leb deadline out.now)) [
          | inl b ↦ (ground arith, ground arith)
          | inr b ↦ (ground arith, ground arith)
        ]
      ]

  -- At every moment at most one shared refresh is on its way, and the gate is shut exactly while one
  -- is, over every history of messages, timers and answers of the work queue.
  pub one_refresh : (a : Actor) (n : ℕ) → Reach a n → (n ≤ 1) × (a.refresh.in_flight ≡ ltb 0 n)
  one_refresh a n begins = (ground arith, ground arith)
  one_refresh a n (receives out c r h) = receive-Tallies out c _ _ (one_refresh _ _ r) h
  one_refresh a n (answers out payloads r) =
      let (small, t) = one_refresh _ _ r in answer-Tallies out payloads _ _ small
  one_refresh a n (elapses out r) = elapse-Tallies out _ _ (one_refresh _ _ r)
