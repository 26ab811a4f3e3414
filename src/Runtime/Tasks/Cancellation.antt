-- ===== src/Runtime/Tasks/Cancellation.antt =====
-- Completion and cancellation share one linearization point: a connection that was cancelled before
-- its result was stored never reports success, over every history of the task map.
pub mod Handles
use nm_daemon.Base.{
  ℕ, ◌≤◌, ◌≡◌, subst, ◌⊎◌, ◌≢◌, ◌∙◌, sym, refl, inl, inr, String, Bool, true, false, not, ◌&&◌,
  Option, none, some, List, [], ◌∷◌, arith, ◌==◌, All, Bool-cases, Option-cases, option_beq_iff,
  string_eq, option_eq, nat_eq,
}
use text.Mathlib.TextEquality.{eq_iff}
use nm_daemon.Base.Map.{
  Map, lookup, insert, remove, lookup-insert, lookup-remove, lookup-insert_self,
}
use nm_daemon.Runtime.Interfaces.{Events, RecentResults}
use nm_daemon.Runtime.Tasks.{
  TaskHandle, TaskKind, connect, TerminalRequestResult, CancelledTask, Stream, Tasks, register,
  unregister, owned_task, on_stream, finish_task, final_revision, settled, is_terminal,
  saturating_succ, store_terminal_result, store_connect_progress, expire_connect, cancel_task,
  connects_to, open_for, cancel_where, cancelled_handle, put_task, cancel_connects_for_ssid,
  cancel_tasks_for_owner, network_manager_owner_changed, shutdown_tasks,
}
use nm_daemon.Runtime.Tasks.Cancellation.Handles.{
  Sealed, Operation, step, run, Later, update-Sealed, cancel_where-Sealed, stores-Sealed, registers,
  unregisters, stores, progresses, expires, cancels, forgets, drops_owner, changes_owner,
  shuts_down,
}

module _ (events : Events) (recent : RecentResults (TerminalRequestResult (events.Event))) where
  open events use {Event, is_success, with_revision, cancelled_fails, revision_keeps}
  open recent use {Table, get_owned, put, get-put_self, get-put_later, get-put_other, get_gone}

  -- A request of another id comes or goes.
  other-Sealed :
      (id : String) (owner : Option String) (start : ℕ) (s : Tasks events recent)
      (m : Map String (TaskHandle Event))
      → lookup id m ≡ lookup id s.tasks
      → Sealed events recent id owner start s
      → Sealed events recent id owner start (record s { tasks = m })
  other-Sealed id owner start s m q v =
      let (t, l, c) = v.task in record { task = (t, q ∙ l, c); results = v.results }

  pub lookup-insert_other :
      (j id : String) (t : TaskHandle Event) (m : Map String (TaskHandle Event))
      → j ≢ id
      → lookup id (insert j t m) ≡ lookup id m
  lookup-insert_other j id t m h = ground (arith, lookup-insert j id t m, eq_iff j id)

  unregister-Sealed :
      (id j : String) (owner : Option String) (start token : ℕ) (s : Tasks events recent)
      → j ≢ id
      → Sealed events recent id owner start s
      → Sealed events recent id owner start (unregister events recent j token s)
  unfolding unregister
  unregister-Sealed id j owner start token s h v = elim (Option-cases (lookup j s.tasks)) [
    | inl e ↦ rw (e, unregister) v
    | inr (t, e) ↦
        let w =
          other-Sealed id owner start s (remove j s.tasks)
            (ground (arith, lookup-remove j id s.tasks, eq_iff j id)) v in
        elim (Bool-cases (t.token == token)) [
          | inl c ↦ rw (e, c, unregister) w
          | inr c ↦ rw (e, c, unregister) v
        ]
  ]

  register-Sealed :
      (id j : String) (owner : Option String) (start : ℕ) (kind : TaskKind) (o : Option String)
      (ssid : Option (List ℕ)) (nm : String) (now token : ℕ) (s : Tasks events recent)
      → j ≢ id
      → Sealed events recent id owner start s
      → Sealed events recent id owner start (register events recent j kind o ssid nm now token s)
  unfolding register
  register-Sealed id j owner start kind o ssid nm now token s h v =
      other-Sealed id owner start s _ (lookup-insert_other j id _ s.tasks h) v

  step-Sealed :
      (id : String) (owner : Option String) (start : ℕ) (s : Tasks events recent)
      (o : Operation events recent)
      → Later events recent id start o
      → Sealed events recent id owner start s
      → Sealed events recent id owner start (step events recent s o)
  unfolding step store_connect_progress expire_connect cancel_task cancel_connects_for_ssid
      cancel_tasks_for_owner network_manager_owner_changed shutdown_tasks
  step-Sealed id owner start s (registers j kind o ssid nm now token) h v =
      register-Sealed id j owner start kind o ssid nm now token s h v
  step-Sealed id owner start s (unregisters j token) h v =
      unregister-Sealed id j owner start token s h v
  step-Sealed id owner start s (stores j o stream e changed now) h v =
      stores-Sealed events recent id j owner o start stream e changed now s v
  step-Sealed id owner start s (progresses j o e now) h v = elim (Option-cases (lookup j s.tasks)) [
    | inl l ↦ ground arith
    | inr (t, l) ↦
        let n = saturating_succ t.observation_revision in
        let u = record t { observation_revision = n; progress = some (with_revision n e) } in
        ground (arith, update-Sealed events recent id j owner start s t u l refl refl (λ c. c) v)
  ]
  step-Sealed id owner start s (expires j now) h v = elim (Option-cases (lookup j s.tasks)) [
    | inl l ↦ ground arith
    | inr (t, l) ↦
        let u = record t { timed_out = true; cancellation = true } in
        ground (arith, update-Sealed events recent id j owner start s t u l refl refl (λ c. refl) v)
  ]
  step-Sealed id owner start s (cancels j o now) h v = elim (Option-cases (lookup j s.tasks)) [
    | inl l ↦ ground arith
    | inr (t, l) ↦
        let u = record t { cancellation = true } in
        ground (arith, update-Sealed events recent id j owner start s t u l refl refl (λ c. refl) v)
  ]
  step-Sealed id owner start s (forgets ssid) h v =
      cancel_where-Sealed events recent (connects_to events recent ssid) id owner start s v
  step-Sealed id owner start s (drops_owner o now) h v =
      cancel_where-Sealed events recent (open_for events recent o now s.results) id owner start s v
  step-Sealed id owner start s (changes_owner o) h v =
      cancel_where-Sealed events recent (λ p. not (some (p.1).nm == o)) id owner start s v
  step-Sealed id owner start s shuts_down h v =
      cancel_where-Sealed events recent (λ p. true) id owner start s v

  run-Sealed :
      (id : String) (owner : Option String) (start : ℕ) (s : Tasks events recent)
      (os : List (Operation events recent))
      → All (Later events recent id start) os
      → Sealed events recent id owner start s
      → Sealed events recent id owner start (run events recent s os)
  unfolding run
  run-Sealed id owner start s [] h v = v
  run-Sealed id owner start s (o ∷ os) (h, hs) v =
      run-Sealed id owner start (step events recent s o) os hs (step-Sealed id owner start s o h v)

  -- What an accepted cancellation found, and what it left.
  accepted :
      (id : String) (owner : Option String) (start : ℕ) (s : Tasks events recent)
      (c : CancelledTask)
      → (cancel_task events recent id owner start s).1 ≡ some c
      → (t : TaskHandle Event) × (t.owner ≡ owner)
        × (t.kind ≡ c.kind)
        × (get_owned s.results start id owner ≡ none)
        × (put_task events recent id (cancelled_handle events recent t) s
            ≡ (cancel_task events recent id owner start s).0)
  unfolding cancel_task
  accepted id owner start s c h = elim (Option-cases (lookup id s.tasks)) [
    | inl l ↦ absurd (ground arith)
    | inr (t, l) ↦ elim (Option-cases (get_owned s.results start id t.owner)) [
      | inl g ↦ (
        t,
        ground (arith, option_beq_iff t.owner owner),
        ground (arith, option_beq_iff t.owner owner),
        ground (arith, option_beq_iff t.owner owner),
        ground (arith, option_beq_iff t.owner owner),
      )
      | inr (q, g) ↦ absurd (ground (arith, option_beq_iff t.owner owner))
    ]
  ]

  cancel-Sealed :
      (id : String) (owner : Option String) (start : ℕ) (s : Tasks events recent)
      (c : CancelledTask)
      → (cancel_task events recent id owner start s).1 ≡ some c
      → c.kind ≡ connect
      → Sealed events recent id owner start (cancel_task events recent id owner start s).0
  cancel-Sealed id owner start s c h k =
      let (t, o, kind, gone, q) = accepted id owner start s c h in
      subst (λ x. Sealed events recent id owner start x) q
        (record {
          task = (
            cancelled_handle events recent t,
            lookup-insert_self id _ s.tasks,
            (o, kind ∙ k, refl),
          );
          results =
              λ now r b g. absurd (ground (arith, get_gone s.results start now id owner b gone));
        })

  -- The event that a call returns is the one on record.
  returned :
      (id : String) (owner : Option String) (stream : Stream) (e r : Event) (changed : Bool)
      (now : ℕ) (s : Tasks events recent)
      → (store_terminal_result events recent id owner stream e changed now s).1 ≡ some r
      → (q : TerminalRequestResult Event) × (q.event ≡ r)
        × (get_owned
              (store_terminal_result events recent id owner stream e changed now s).0.results
              now
              id
              owner
            ≡ some q)
  unfolding store_terminal_result
  returned id owner stream e r changed now s h =
      elim (Option-cases (get_owned s.results now id owner)) [
        | inl g ↦
            let task = owned_task events recent id owner s in
            let n = final_revision events recent (on_stream events recent stream task) in
            let q : TerminalRequestResult Event = record {
              stream = stream;
              event = with_revision n (settled events recent changed task e);
              observation_revision = n;
            } in
            (q, ground arith, ground (arith, get-put_self s.results now id owner q))
        | inr (q, g) ↦ (q, ground arith, ground arith)
      ]

  -- Once a connection's cancellation was accepted, no interleaving of the other operations of the
  -- task map, all of them later and none of them registering or removing that request, lets it
  -- report success: whatever event its worker then stores, the event that the call returns is none.
  pub cancellation_wins :
      (id : String) (owner : Option String) (start : ℕ) (s : Tasks events recent)
      (c : CancelledTask)
      → (cancel_task events recent id owner start s).1 ≡ some c
      → c.kind ≡ connect
      → (os : List (Operation events recent)) → All (Later events recent id start) os
      → (stream : Stream) (e r : Event) (changed : Bool) (now : ℕ) → start ≤ now
      → (store_terminal_result events recent id owner stream e changed now
          (run events recent (cancel_task events recent id owner start s).0 os)).1
        ≡ some r
      → is_success r ≡ false
  cancellation_wins id owner start s c a k os l stream e r changed now b h =
      let s' = run events recent (cancel_task events recent id owner start s).0 os in
      let (q, same, g) = returned id owner stream e r changed now s' h in
      let v = run-Sealed id owner start _ os l (cancel-Sealed id owner start s c a k) in
      subst (λ x. is_success x ≡ false) same
        ((stores-Sealed events recent id id owner owner start stream e changed now s' v).results now
          q b g)
