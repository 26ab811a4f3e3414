-- ===== src/Runtime/Tasks/Final/Steps.antt =====
-- An operation of the task map that leaves a request alone keeps it ended.
use nm_daemon.Base.{
  ℕ, ◌≡◌, ◌≢◌, refl, inl, inr, String, true, not, Option, some, List, [], ◌∷◌, arith, ◌==◌, All,
  Bool-cases, Option-cases, string_eq, option_eq, nat_eq,
}
use text.Mathlib.TextEquality.{eq_iff}
use nm_daemon.Base.Map.{lookup, insert, remove, lookup-remove}
use nm_daemon.Runtime.Interfaces.{Events, RecentResults}
use nm_daemon.Runtime.Tasks.{
  TaskHandle, TaskKind, TerminalRequestResult, Tasks, register, unregister, saturating_succ,
  store_connect_progress, expire_connect, cancel_task, connects_to, open_for,
  cancel_connects_for_ssid, cancel_tasks_for_owner, network_manager_owner_changed, shutdown_tasks,
}
use nm_daemon.Runtime.Tasks.Cancellation.{lookup-insert_other}
use nm_daemon.Runtime.Tasks.Cancellation.Handles.{
  Operation, step, run, Later, registers, unregisters, stores, progresses, expires, cancels,
  forgets, drops_owner, changes_owner, shuts_down,
}
use nm_daemon.Runtime.Tasks.Final.Invariant.{
  Ended, retask-Ended, other-IsOver, insert-IsOver, cancel_where-Ended, stores-Ended,
}

module _ (events : Events) (recent : RecentResults (TerminalRequestResult (events.Event))) where
  open events use {Event, with_revision}
  open recent use {Table, get_owned, put, get-put_self, get-put_later, get-put_other, get_gone}

  register-Ended :
      (id j : String) (owner : Option String) (start : ℕ) (r : Event) (kind : TaskKind)
      (o : Option String) (ssid : Option (List ℕ)) (nm : String) (now token : ℕ)
      (s : Tasks events recent)
      → j ≢ id
      → Ended events recent id owner start r s
      → Ended events recent id owner start r (register events recent j kind o ssid nm now token s)
  unfolding register
  register-Ended id j owner start r kind o ssid nm now token s h v =
      retask-Ended events recent id owner start r s _
        (other-IsOver events recent id owner s.tasks _
          (lookup-insert_other events recent j id _ s.tasks h) v.task)
        v

  unregister-Ended :
      (id j : String) (owner : Option String) (start token : ℕ) (r : Event)
      (s : Tasks events recent)
      → j ≢ id
      → Ended events recent id owner start r s
      → Ended events recent id owner start r (unregister events recent j token s)
  unfolding unregister
  unregister-Ended id j owner start token r s h v =
      let w =
        retask-Ended events recent id owner start r s (remove j s.tasks)
          (other-IsOver events recent id owner s.tasks _
            (ground (arith, lookup-remove j id s.tasks, eq_iff j id)) v.task)
          v in
      elim (Option-cases (lookup j s.tasks)) [
        | inl e ↦ rw (e, unregister) v
        | inr (t, e) ↦ elim (Bool-cases (t.token == token)) [
          | inl c ↦ rw (e, c, unregister) w
          | inr c ↦ rw (e, c, unregister) v
        ]
      ]

  update-Ended :
      (id j : String) (owner : Option String) (start : ℕ) (r : Event) (s : Tasks events recent)
      (t u : TaskHandle Event)
      → lookup j s.tasks ≡ some t
      → u.owner ≡ t.owner
      → (t.terminal ≡ true → u.terminal ≡ true)
      → Ended events recent id owner start r s
      → Ended events recent id owner start r (record s { tasks = insert j u s.tasks })
  update-Ended id j owner start r s t u l o c v =
      retask-Ended events recent id owner start r s _
        (insert-IsOver events recent id j owner s.tasks t u l o c v.task) v

  step-Ended :
      (id : String) (owner : Option String) (start : ℕ) (r : Event) (s : Tasks events recent)
      (o : Operation events recent)
      → Later events recent id start o
      → Ended events recent id owner start r s
      → Ended events recent id owner start r (step events recent s o)
  unfolding step store_connect_progress expire_connect cancel_task cancel_connects_for_ssid
      cancel_tasks_for_owner network_manager_owner_changed shutdown_tasks
  step-Ended id owner start r s (registers j kind o ssid nm now token) h v =
      register-Ended id j owner start r kind o ssid nm now token s h v
  step-Ended id owner start r s (unregisters j token) h v =
      unregister-Ended id j owner start token r s h v
  step-Ended id owner start r s (stores j o stream e changed now) h v =
      stores-Ended events recent id j owner o start r stream e changed now s v
  step-Ended id owner start r s (progresses j o e now) h v =
      elim (Option-cases (lookup j s.tasks)) [
        | inl l ↦ ground arith
        | inr (t, l) ↦
            let n = saturating_succ t.observation_revision in
            let u = record t { observation_revision = n; progress = some (with_revision n e) } in
            ground (arith, update-Ended id j owner start r s t u l refl (λ c. c) v)
      ]
  step-Ended id owner start r s (expires j now) h v = elim (Option-cases (lookup j s.tasks)) [
    | inl l ↦ ground arith
    | inr (t, l) ↦
        let u = record t { timed_out = true; cancellation = true } in
        ground (arith, update-Ended id j owner start r s t u l refl (λ c. c) v)
  ]
  step-Ended id owner start r s (cancels j o now) h v = elim (Option-cases (lookup j s.tasks)) [
    | inl l ↦ ground arith
    | inr (t, l) ↦
        let u = record t { cancellation = true } in
        ground (arith, update-Ended id j owner start r s t u l refl (λ c. c) v)
  ]
  step-Ended id owner start r s (forgets ssid) h v =
      cancel_where-Ended events recent (connects_to events recent ssid) id owner start r s v
  step-Ended id owner start r s (drops_owner o now) h v =
      cancel_where-Ended events recent (open_for events recent o now s.results) id owner start r s v
  step-Ended id owner start r s (changes_owner o) h v =
      cancel_where-Ended events recent (λ p. not (some (p.1).nm == o)) id owner start r s v
  step-Ended id owner start r s shuts_down h v =
      cancel_where-Ended events recent (λ p. true) id owner start r s v

  pub run-Ended :
      (id : String) (owner : Option String) (start : ℕ) (r : Event) (s : Tasks events recent)
      (os : List (Operation events recent))
      → All (Later events recent id start) os
      → Ended events recent id owner start r s
      → Ended events recent id owner start r (run events recent s os)
  unfolding run
  run-Ended id owner start r s [] h v = v
  run-Ended id owner start r s (o ∷ os) (h, hs) v =
      run-Ended id owner start r (step events recent s o) os hs
        (step-Ended id owner start r s o h v)
