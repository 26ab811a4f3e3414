-- ===== src/Activation/Wait/Grace.antt =====
-- The grace period: a wait fails only for a failure that persisted, and wakes in time to see it.
use nm_daemon.Base.{
  ℕ, ◌+◌, ◌-◌, ◌≤◌, ◌<◌, ◌≡◌, refl, ◌⊎◌, inl, inr, Bool, true, false, not, ◌&&◌, ◌||◌, Option, none,
  some, List, [], ◌∷◌, arith, ltb, is_some, ◌==◌, sym, ap, ◌∙◌, nat_eq, subst, ok, err,
  Option-cases, Bool-cases,
}
use nm_daemon.Activation.Credentials.{WifiActivationStatus, ConnectError}
use nm_daemon.Activation.Wait.{
  Target, Sample, PendingFailure, ActivationWait, default_wait, observe, check_terminal_failure,
  next_wake, terminal_failure_after_progress, requested_activation_stopped, latch_pending_failure,
  activation_failure_reason, connect_error, activation_failure_grace,
}

-- A sample that shows no life: no status, or one of a device that is down or of a stopped activation.
abbrev pub fails : Sample → Bool
fails x = elim (x.status) [
  | none ↦ true
  | some st ↦
      terminal_failure_after_progress st
      || requested_activation_stopped x.requested_path x.requested_state
]

-- The newest samples, back to one at this time, all fail.
abbrev pub FailingSince : ℕ → List Sample → Type 0
FailingSince since [] = true ≡ false
FailingSince since (x ∷ xs) = (fails x ≡ true) × ((x.now ≡ since) ⊎ FailingSince since xs)

-- The status is that of one of the samples.
abbrev pub Saw : WifiActivationStatus → List Sample → Type 0
Saw st [] = true ≡ false
Saw st (x ∷ xs) = (x.status ≡ some st) ⊎ Saw st xs

-- The samples so far, newest first, and the wait that they lead to without an end.
pub data Watching (t : Target) : List Sample → ActivationWait → Type 0 where
  begins : Watching t [] default_wait
  goes_on :
      {xs : List Sample} {w v : ActivationWait} (x : Sample)
      → Watching t xs w
      → observe t x w ≡ (v, ok false)
      → Watching t (x ∷ xs) v

-- A pending failure began with a sample since which every sample fails.
abbrev IsTracked : List Sample → Option PendingFailure → Type 0
IsTracked xs none = Unit
IsTracked xs (some p) = FailingSince p.since xs × Saw p.status xs

latch-since :
    (p : PendingFailure) (st : WifiActivationStatus) (now : ℕ)
    → (latch_pending_failure (some p) st now).since ≡ p.since
latch-since p st now = ground arith

latch-status :
    (p : PendingFailure) (st : WifiActivationStatus) (now : ℕ)
    → (st ≡ (latch_pending_failure (some p) st now).status)
      ⊎ (p.status ≡ (latch_pending_failure (some p) st now).status)
latch-status p st now =
    elim (Bool-cases (p.status.device_state_reason.1 == 0 && not (st.device_state_reason.1 == 0))) [
      | inl c ↦ inl (ground arith)
      | inr c ↦ inr (ground arith)
    ]

latch-IsTracked :
    (x : Sample) (xs : List Sample) (st : WifiActivationStatus) (o : Option PendingFailure)
    → x.status ≡ some st
    → fails x ≡ true
    → IsTracked xs o
    → IsTracked (x ∷ xs) (some (latch_pending_failure o st x.now))
latch-IsTracked x xs st none q f h = ((f, inl refl), inl q)
latch-IsTracked x xs st (some p) q f (since, saw) = (
  (f, inr (subst (λ n. FailingSince n xs) (sym (latch-since p st x.now)) since)),
  elim (latch-status p st x.now) [
    | inl e ↦ inl (q ∙ ap some e)
    | inr e ↦ inr (subst (λ z. Saw z xs) e saw)
  ],
)

blind-IsTracked :
    (x : Sample) (xs : List Sample) (o : Option PendingFailure)
    → x.status ≡ none
    → IsTracked xs o
    → IsTracked (x ∷ xs) o
blind-IsTracked x xs none q h = tt
blind-IsTracked x xs (some p) q (since, saw) = ((ground arith, inr since), inr saw)

-- What an observation without a verdict leaves pending.
observe-pending :
    (t : Target) (x : Sample) (w v : ActivationWait)
    → observe t x w ≡ (v, ok false)
    → (none ≡ v.pending_failure)
      ⊎ ((x.status ≡ none) × (w.pending_failure ≡ v.pending_failure))
      ⊎ ((st : WifiActivationStatus) × (x.status ≡ some st)
          × (fails x ≡ true)
          × (some (latch_pending_failure w.pending_failure st x.now) ≡ v.pending_failure))
unfolding observe check_terminal_failure
observe-pending t x w v e = elim (Option-cases (x.status)) [
  | inl q ↦ inr (inl (q, ground arith))
  | inr (st, q) ↦ elim (Bool-cases (fails x)) [
    | inl f ↦
        elim (Bool-cases (w.saw_progress || ltb 30 st.device_state || is_some x.requested_path)) [
          | inl p ↦ inr (inr (st, q, f, ground arith))
          | inr p ↦ inl (ground arith)
        ]
    | inr f ↦ inl (ground arith)
  ]
]

observe-IsTracked :
    (t : Target) (x : Sample) (xs : List Sample) (w v : ActivationWait)
    → IsTracked xs w.pending_failure
    → observe t x w ≡ (v, ok false)
    → IsTracked (x ∷ xs) v.pending_failure
observe-IsTracked t x xs w v h e = elim (observe-pending t x w v e) [
  | inl q ↦ subst (IsTracked (x ∷ xs)) q tt
  | inr (inl (b, q)) ↦ subst (IsTracked (x ∷ xs)) q (blind-IsTracked x xs w.pending_failure b h)
  | inr (inr (st, b, f, q)) ↦
      subst (IsTracked (x ∷ xs)) q (latch-IsTracked x xs st w.pending_failure b f h)
]

Watching-IsTracked :
    (t : Target) (xs : List Sample) (w : ActivationWait)
    → Watching t xs w
    → IsTracked xs w.pending_failure
Watching-IsTracked t xs w begins = tt
Watching-IsTracked t xs w (goes_on x r e) =
    observe-IsTracked t x _ _ w (Watching-IsTracked t _ _ r) e

-- What an observation that fails the wait found.
observe-failed :
    (t : Target) (x : Sample) (w v : ActivationWait) (e : ConnectError)
    → observe t x w ≡ (v, err e)
    → (st : WifiActivationStatus) × (x.status ≡ some st)
      × (fails x ≡ true)
      × (let p = latch_pending_failure w.pending_failure st x.now in
          (activation_failure_grace ≤ x.now - p.since)
          × (e ≡ connect_error (activation_failure_reason t p.status) (some p.status)))
unfolding observe check_terminal_failure
observe-failed t x w v e h = elim (Option-cases (x.status)) [
  | inl q ↦ absurd (ground arith)
  | inr (st, q) ↦ (st, q, ground arith, (ground arith, ground arith))
]

-- A wait fails only for a failure that persisted: when an observation, after any number of others,
-- fails the wait, then there is a time at least three seconds back since which every sample shows
-- the device down, the requested activation stopped or no status at all, and the error tells the
-- reason of a status that was seen.
pub failure_persisted :
    (t : Target) (xs : List Sample) (w v : ActivationWait) (x : Sample) (e : ConnectError)
    → Watching t xs w
    → observe t x w ≡ (v, err e)
    → (since : ℕ) × (st : WifiActivationStatus) × (since + 3000 ≤ x.now)
      × FailingSince since (x ∷ xs)
      × Saw st (x ∷ xs)
      × (e ≡ connect_error (activation_failure_reason t st) (some st))
failure_persisted t xs w v x e r h =
    let (st, q, f, (late, same)) = observe-failed t x w v e h in
    let p = latch_pending_failure w.pending_failure st x.now in
    let (since, saw) =
      latch-IsTracked x xs st w.pending_failure q f (Watching-IsTracked t xs w r) in
    (p.since, p.status, omega arith, since, saw, same)

observe-fresh :
    (t : Target) (x : Sample) (w v : ActivationWait)
    → observe t x w ≡ (v, ok false)
    → (v.has_current_status ≡ is_some x.status)
      × ((p : PendingFailure)
          → v.pending_failure ≡ some p
          → is_some x.status ≡ true
          → x.now - p.since < 3000)
unfolding observe check_terminal_failure
observe-fresh t x w v e = elim (Option-cases (x.status)) [
  | inl q ↦ (ground arith, λ p h s. absurd (ground arith))
  | inr (st, q) ↦ (ground arith, λ p h s. ground arith)
]

wake-pending :
    (deadline at : ℕ) (v : ActivationWait) (p : PendingFailure)
    → v.pending_failure ≡ some p
    → (next_wake deadline at v ≤ deadline - at)
      × (v.has_current_status ≡ true → next_wake deadline at v ≤ p.since + 3000 - at)
      × (at < deadline → next_wake deadline at v ≡ 0 → p.since + 3000 ≤ at)
unfolding next_wake
wake-pending deadline at v p h = (ground arith, λ c. ground arith, λ b z. ground arith)

-- A wait that goes on after an observation asks for its next wake at a time `at`, any later clock.
-- From then on it sleeps past neither its deadline nor, if the sample had a status and a failure is
-- pending, the end of the grace period; and if it does not sleep at all before its deadline, then the
-- grace period of a pending failure is over.
pub next_wake_bounds :
    (t : Target) (x : Sample) (w v : ActivationWait) (deadline at : ℕ)
    → observe t x w ≡ (v, ok false)
    → (next_wake deadline at v ≤ deadline - at)
      × ((p : PendingFailure)
          → v.pending_failure ≡ some p
          → is_some x.status ≡ true
          → next_wake deadline at v ≤ p.since + 3000 - at)
      × (at < deadline
          → next_wake deadline at v ≡ 0
          → (p : PendingFailure) × (v.pending_failure ≡ some p) × (p.since + 3000 ≤ at))
unfolding next_wake
next_wake_bounds t x w v deadline at e =
    let (current, fresh) = observe-fresh t x w v e in
    elim (Option-cases (v.pending_failure)) [
      | inl q ↦ (ground arith, λ p h b. absurd (ground arith), λ b z. absurd (ground arith))
      | inr (p, q) ↦
          let (near, grace, over) = wake-pending deadline at v p q in
          (near, λ o h b. ground (arith, grace (current ∙ b)), λ b z. (p, q, over b z))
    ]
