-- ===== src/Activation/Wait/Loop.antt =====
-- The loop of `wait_for_active_target_path`: it ends, it reports success only of an active target, and
-- it honours a cancellation.
use nm_daemon.Base.{
  ℕ, ◌≡◌, refl, ◌⊎◌, inl, inr, String, Bool, true, false, not, ◌&&◌, Option, none, some, List, [],
  ◌∷◌, ◌++◌, arith, is_some, leb, Result, ok, err, Option-cases, Bool-cases, Result-cases, any,
  ◌||◌, sym, ◌∙◌,
}
use nm_daemon.Activation.Credentials.{ConnectError}
use nm_daemon.Activation.Wait.{
  Target, Sample, Round, Abort, no_abort, target_abort, ActivationWait, observe,
  check_terminal_failure, activated, cancelled_error, wait_for_active_target_path,
  activation_scope_error, abort_requested, timeout_error, scope_error, wait_round,
}

-- The wait is over when the round is cancelled or begins at the deadline.
abbrev pub is_last : ℕ → Round → Bool
is_last deadline x = x.cancelled || leb deadline x.deadline_read

-- Whether the answer shows the target active, or its network without a status.
abbrev pub shows_target : Result ConnectError Sample → Bool
shows_target (err e) = false
shows_target (ok x) = x.ssid_matches && elim (x.status) [ none ↦ true | some st ↦ activated st ]

observe-active :
    (t : Target) (x : Sample) (w v : ActivationWait)
    → observe t x w ≡ (v, ok true)
    → shows_target (ok x) ≡ true
unfolding observe check_terminal_failure
observe-active t x w v h = ground arith

observed-cases :
    (r : ActivationWait × Result ConnectError Bool)
    → ((v : ActivationWait) × (r ≡ (v, ok true)))
      ⊎ ((v : ActivationWait) × (r ≡ (v, ok false)))
      ⊎ ((v : ActivationWait) × (e : ConnectError) × (r ≡ (v, err e)))
observed-cases (v, ok true) = inl (v, refl)
observed-cases (v, ok false) = inr (inl (v, refl))
observed-cases (v, err e) = inr (inr (v, e, refl))

-- What a round does once it asks NetworkManager.
answered-cases :
    (t : Target) (path : Option String) (deadline : ℕ) (x : Round) (w : ActivationWait)
    → x.cancelled ≡ false
    → scope_error x.scope_read x.scope ≡ none
    → leb deadline x.deadline_read ≡ false
    → ((r : Abort × Result ConnectError (Unit {0})) × ((rest : ActivationWait
            → Option (Abort × Result ConnectError (Unit {0})))
          → wait_round t path deadline x w rest ≡ some r)
        × (r.1 ≡ ok tt → (not (is_last deadline x) && shows_target x.answer) ≡ true))
      ⊎ ((v : ActivationWait) × ((rest : ActivationWait
              → Option (Abort × Result ConnectError (Unit {0})))
            → wait_round t path deadline x w rest ≡ rest v)
          × (is_last deadline x ≡ false))
answered-cases t path deadline x w c s d = elim (Result-cases (x.answer)) [
  | inr (e, q) ↦ inl ((no_abort, err e), (λ rest. ground arith), λ q. absurd (ground arith))
  | inl (sample, q) ↦
      let found = record sample { requested_path = path } in
      elim (observed-cases (observe t found w)) [
        | inl (v, o) ↦ inl (
          (no_abort, ok tt),
          (λ rest. ground arith),
          λ same. ground (arith, observe-active t found w v o),
        )
        | inr (inl (v, o)) ↦ inr (v, (λ rest. ground arith), ground arith)
        | inr (inr (v, e, o)) ↦
            let r = activation_scope_error path x.failed_scope x.failed_read x.abort_read e in
            inl ((r.0, err r.1), (λ rest. ground arith), λ same. absurd (ground arith))
      ]
]

-- A round ends the wait whatever follows, or hands a wait on to what follows.
round-cases :
    (t : Target) (path : Option String) (deadline : ℕ) (x : Round) (w : ActivationWait)
    → ((r : Abort × Result ConnectError (Unit {0})) × ((rest : ActivationWait
            → Option (Abort × Result ConnectError (Unit {0})))
          → wait_round t path deadline x w rest ≡ some r)
        × (r.1 ≡ ok tt → (not (is_last deadline x) && shows_target x.answer) ≡ true))
      ⊎ ((v : ActivationWait) × ((rest : ActivationWait
              → Option (Abort × Result ConnectError (Unit {0})))
            → wait_round t path deadline x w rest ≡ rest v)
          × (is_last deadline x ≡ false))
round-cases t path deadline x w = elim (Bool-cases (x.cancelled)) [
  | inl c ↦
      inl ((target_abort, err cancelled_error), (λ rest. ground arith), λ q. absurd (ground arith))
  | inr c ↦ elim (Option-cases (scope_error x.scope_read x.scope)) [
    | inr (e, s) ↦
        inl ((abort_requested path, err e), (λ rest. ground arith), λ q. absurd (ground arith))
    | inl s ↦ elim (Bool-cases (leb deadline x.deadline_read)) [
      | inl d ↦ inl (
        (abort_requested path, err (timeout_error t w)),
        (λ rest. ground arith),
        λ q. absurd (ground arith),
      )
      | inr d ↦ answered-cases t path deadline x w c s d
    ]
  ]
]

-- A wait whose rounds reach one that is cancelled or begins at the deadline returns: it never
-- outlives its deadline.
pub wait_returns :
    (t : Target) (path : Option String) (deadline : ℕ) (xs : List Round) (w : ActivationWait)
    → any (is_last deadline) xs ≡ true
    → is_some (wait_for_active_target_path t path deadline xs w) ≡ true
unfolding wait_for_active_target_path
wait_returns t path deadline [] w h = absurd (ground arith)
wait_returns t path deadline (x ∷ xs) w h =
    let rest = wait_for_active_target_path t path deadline xs in
    elim (round-cases t path deadline x w) [
      | inl (r, q, c) ↦ ground (arith, q rest)
      | inr (v, q, c) ↦ ground (arith, q rest, wait_returns t path deadline xs v)
    ]

-- A wait reports success only on a round that is not cancelled, begins before the deadline and finds
-- the target's network active: activated where there is a status.
pub success_is_active :
    (t : Target) (path : Option String) (deadline : ℕ) (xs : List Round) (w : ActivationWait)
    (a : Abort)
    → wait_for_active_target_path t path deadline xs w ≡ some (a, ok tt)
    → any (λ x. not (is_last deadline x) && shows_target x.answer) xs ≡ true
unfolding wait_for_active_target_path
success_is_active t path deadline [] w a h = absurd (ground arith)
success_is_active t path deadline (x ∷ xs) w a h =
    let rest = wait_for_active_target_path t path deadline xs in
    elim (round-cases t path deadline x w) [
      | inl (r, q, c) ↦ ground (arith, q rest)
      | inr (v, q, c) ↦ ground (arith, q rest, success_is_active t path deadline xs v a)
    ]

-- A cancellation ends the wait: when the rounds so far left it undecided and the next one finds the
-- flag raised, the target is aborted and the wait fails as cancelled, whatever follows.
cancellation_ends_wait :
    (t : Target) (path : Option String) (deadline : ℕ) (xs ys : List Round) (x : Round)
    (w : ActivationWait)
    → wait_for_active_target_path t path deadline xs w ≡ none
    → x.cancelled ≡ true
    → wait_for_active_target_path t path deadline (xs ++ (x ∷ ys)) w
      ≡ some (target_abort, err cancelled_error)
unfolding wait_for_active_target_path
cancellation_ends_wait t path deadline [] ys x w h c = ground arith
cancellation_ends_wait t path deadline (y ∷ xs) ys x w h c =
    elim (round-cases t path deadline y w) [
      | inl (r, q, d) ↦ absurd (ground (arith, q (wait_for_active_target_path t path deadline xs)))
      | inr (v, q, d) ↦
          q (wait_for_active_target_path t path deadline (xs ++ (x ∷ ys)))
          ∙ cancellation_ends_wait t path deadline xs ys x v
              (sym (q (wait_for_active_target_path t path deadline xs)) ∙ h) c
    ]
