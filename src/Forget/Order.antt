-- ===== src/Forget/Order.antt =====
-- Forgetting as a whole: the workflow runs only when the connections to its network are gone from the
-- task map, and the waits end.
use nm_daemon.Base.{
  ℕ, zero, suc, ◌+◌, ◌-◌, ◌*◌, ◌<◌, ◌≤◌, ◌≡◌, ◌≢◌, refl, sym, subst, ◌⊎◌, inl, inr, String, false,
  not, ◌&&◌, Option, none, some, List, [], ◌∷◌, arith, err, leb, nat_eq, string_eq, Bool-cases,
  Option-cases,
}
use native.Mathlib.Nat.{zero-add, suc-add, mul-suc}
use nm_daemon.Runtime.Interfaces.{Events, RecentResults}
use nm_daemon.Runtime.Tasks.{
  Tasks, TerminalRequestResult, cancel_connects_for_ssid, pending_task_ids,
}
use nm_daemon.Forget.Binding.{Network, Advances, Guarded}
use nm_daemon.Forget.{World, out_of_fuel, deactivation_timeout}
use nm_daemon.Forget.Execute.{
  Target, Look, wait_unfinished, ended, cancellation_timeout, validate_target, still_there,
  wait_loop, wait_for_tasks, after_cancel, execute,
}
use nm_daemon.Forget.Safety.{deletes_inactive}
use nm_daemon.Forget.Termination.{forget_ends}

module _ (events : Events) (recent : RecentResults (TerminalRequestResult (events.Event)))
    (network : Network) where
  absent_of_answer :
      (s : Tasks events recent) (ids : List String)
      → pending_task_ids events recent s ids ≡ []
      → still_there events recent network ids s ≡ false
  unfolding pending_task_ids
  absent_of_answer s [] e = refl
  absent_of_answer s (id ∷ ids) e = ground (arith, absent_of_answer s ids)

  wait_loop_seen :
      (fuel deadline : ℕ) (ids : List String) (look : ℕ → Look events recent network) (i : ℕ)
      (l : Look events recent network)
      → wait_loop events recent network fuel deadline ids look i ≡ some l
      → (j : ℕ) × (look j ≡ l)
  unfolding wait_loop
  wait_loop_seen zero deadline ids look i l e = absurd (ground arith)
  wait_loop_seen (suc fuel) deadline ids look i l e =
      elim (Bool-cases
        (still_there events recent network ids (look i).tasks && not (leb deadline (look i).now))) [
          | inl on ↦ wait_loop_seen fuel deadline ids look (suc i) l (ground arith)
          | inr off ↦ (i, ground arith)
        ]

  wait_for_tasks_absent :
      (fuel deadline : ℕ) (ids : List String) (look : ℕ → Look events recent network)
      → wait_for_tasks events recent network fuel deadline ids look ≡ some []
      → (i : ℕ) × (still_there events recent network ids (look i).tasks ≡ false)
  unfolding wait_for_tasks
  wait_for_tasks_absent fuel deadline [] look e = (0, refl)
  wait_for_tasks_absent fuel deadline (id ∷ ids) look e =
      elim (Option-cases (wait_loop events recent network fuel deadline (id ∷ ids) look 0)) [
        | inl n ↦ absurd (ground arith)
        | inr (l, n) ↦
            let (i, seen) = wait_loop_seen fuel deadline (id ∷ ids) look 0 l n in
            (
              i,
              subst (λ t. still_there events recent network (id ∷ ids) t.tasks ≡ false) (sym seen)
                  (absent_of_answer l.tasks (id ∷ ids) (ground arith)),
            )
      ]

  after_cancel-Guarded :
      (fuel : ℕ) (request_id : String) (target : Target) (refusal : Option String)
      (cancelled : List String) (pending : Option (List String)) (w : World network)
      → w.calls ≡ []
      → let w' =
          (after_cancel events recent network fuel request_id target refusal cancelled pending
            w).1 in
        Guarded w'.calls × ((w'.calls ≡ []) ⊎ (pending ≡ some []))
  unfolding after_cancel
  after_cancel-Guarded fuel request_id target refusal cancelled none w e =
      (subst Guarded (sym e) tt, inl e)
  after_cancel-Guarded fuel request_id target refusal cancelled (some (p ∷ ps)) w e =
      (subst Guarded (sym e) tt, inl e)
  after_cancel-Guarded fuel request_id target (some r) cancelled (some []) w e =
      (subst Guarded (sym e) tt, inl e)
  after_cancel-Guarded fuel request_id target none cancelled (some []) w e =
      (deletes_inactive network fuel request_id target.ssid cancelled w e, inr refl)

  -- Every profile that a forget request deletes, or tries to delete, follows an observation that the
  -- network is not active, with no other observation of it between the two. And if the request makes
  -- any call to NetworkManager, then at some look at the task map none of the connections that it
  -- cancelled was there any more.
  pub deletes_safely :
      (wait_fuel fuel now : ℕ) (request_id : String) (target : Target) (refusal : Option String)
      (look : ℕ → Look events recent network) (s : Tasks events recent) (w : World network)
      → w.calls ≡ []
      → let (r, s', w') =
          execute events recent network wait_fuel fuel now request_id target refusal look s w in
        Guarded w'.calls
        × ((w'.calls ≡ [])
            ⊎ ((i : ℕ) × (still_there events recent network
                    ((cancel_connects_for_ssid events recent target.ssid s).1)
                    (look i).tasks
                  ≡ false)))
  unfolding execute
  deletes_safely wait_fuel fuel now request_id target refusal look s w e =
      let (s', cancelled) = cancel_connects_for_ssid events recent target.ssid s in
      let deadline = now + cancellation_timeout in
      let pending = wait_for_tasks events recent network wait_fuel deadline cancelled look in
      elim (Bool-cases (validate_target target)) [
        | inr v ↦ rw v (subst Guarded (sym e) tt, inl e)
        | inl v ↦
            let (g, c) =
              after_cancel-Guarded fuel request_id target refusal cancelled pending w e in
            rw v (
              g,
              elim c [
                | inl quiet ↦ inl quiet
                | inr gone ↦ inr (wait_for_tasks_absent wait_fuel deadline cancelled look gone)
              ],
            )
      ]

  wait_loop-looks :
      (k fuel deadline : ℕ) (ids : List String) (look : ℕ → Look events recent network) (i : ℕ)
      → wait_loop events recent network fuel deadline ids look (k + i) ≢ none
      → wait_loop events recent network (k + fuel) deadline ids look i ≢ none
  unfolding wait_loop
  wait_loop-looks zero fuel deadline ids look i h = rw zero-add (rw zero-add at h)
  wait_loop-looks (suc k) fuel deadline ids look i h =
      let next = wait_loop-looks k fuel deadline ids look (suc i) (
        subst (λ n. wait_loop events recent network fuel deadline ids look n ≢ none) (omega arith)
          h) in
      rw suc-add (ground arith)

  wait_loop-ends :
      (pace ms fuel deadline : ℕ) (ids : List String) (look : ℕ → Look events recent network)
      (i : ℕ)
      → ((j : ℕ) → (look j).now < (look (pace + j)).now)
      → deadline - (look i).now ≤ ms
      → pace * ms < fuel
      → wait_loop events recent network fuel deadline ids look i ≢ none
  unfolding wait_loop
  wait_loop-ends pace ms zero deadline ids look i later b h = absurd (omega arith)
  wait_loop-ends pace zero (suc fuel) deadline ids look i later b h = ground arith
  wait_loop-ends pace (suc ms) (suc fuel) deadline ids look i later b h =
      let rest = suc fuel - pace in
      let e : pace + rest ≡ suc fuel = omega (arith, mul-suc pace ms) in
      subst (λ n. wait_loop events recent network n deadline ids look i ≢ none) e
        (wait_loop-looks pace rest deadline ids look i (
          wait_loop-ends pace ms rest deadline ids look (pace + i) later (omega (arith, later i))
            (omega (arith, mul-suc pace ms))))

  wait_for_tasks-ends :
      (pace ms fuel deadline : ℕ) (ids : List String) (look : ℕ → Look events recent network)
      → ((j : ℕ) → (look j).now < (look (pace + j)).now)
      → deadline - (look 0).now ≤ ms
      → pace * ms < fuel
      → wait_for_tasks events recent network fuel deadline ids look ≢ none
  unfolding wait_for_tasks
  wait_for_tasks-ends pace ms fuel deadline [] look later b h e = ground arith
  wait_for_tasks-ends pace ms fuel deadline (id ∷ ids) look later b h e =
      ground (arith, wait_loop-ends pace ms fuel deadline (id ∷ ids) look 0 later b h)

  after_cancel-ends :
      (pace fuel : ℕ) (request_id : String) (target : Target) (refusal : Option String)
      (cancelled : List String) (pending : Option (List String)) (w : World network)
      → Advances network pace
      → pace * deactivation_timeout < fuel
      → pending ≢ none
      → let r =
          (after_cancel events recent network fuel request_id target refusal cancelled pending
            w).0 in
        (r ≢ wait_unfinished) × (r ≢ ended (err out_of_fuel))
  unfolding after_cancel
  after_cancel-ends pace fuel request_id target refusal cancelled none w a h p = absurd (p refl)
  after_cancel-ends pace fuel request_id target refusal cancelled (some (x ∷ xs)) w a h p =
      ground arith
  after_cancel-ends pace fuel request_id target (some r) cancelled (some []) w a h p = ground arith
  after_cancel-ends pace fuel request_id target none cancelled (some []) w a h p =
      ground (arith, forget_ends network pace a fuel request_id target.ssid cancelled w h)

  -- If `look_pace` looks in a row, the first of them not before the request, and `pace` rounds of the
  -- wait for the disconnection, each take at least a millisecond, then both loops of a forget request
  -- end with as much fuel as there can be looks and rounds in their ten seconds, and one more: the
  -- request ends with a result, a refusal, or the error of a failed call.
  pub execute_ends :
      (look_pace pace wait_fuel fuel now : ℕ) (request_id : String) (target : Target)
      (refusal : Option String) (look : ℕ → Look events recent network) (s : Tasks events recent)
      (w : World network)
      → Advances network pace
      → ((j : ℕ) → (look j).now < (look (look_pace + j)).now)
      → now ≤ (look 0).now
      → look_pace * cancellation_timeout < wait_fuel
      → pace * deactivation_timeout < fuel
      → let r =
          (execute events recent network wait_fuel fuel now request_id target refusal look s w).0 in
        (r ≢ wait_unfinished) × (r ≢ ended (err out_of_fuel))
  unfolding execute
  execute_ends look_pace pace wait_fuel fuel now request_id target refusal look s w a later start h
        k =
      let cancelled = (cancel_connects_for_ssid events recent target.ssid s).1 in
      let deadline = now + cancellation_timeout in
      let pending = wait_for_tasks events recent network wait_fuel deadline cancelled look in
      let unfinished =
        wait_for_tasks-ends look_pace cancellation_timeout wait_fuel deadline cancelled look later
          (omega arith) h in
      elim (Bool-cases (validate_target target)) [
        | inr v ↦ rw v (ground arith)
        | inl v ↦ rw v (
            after_cancel-ends pace fuel request_id target refusal cancelled pending w a k
              unfinished)
      ]
