-- ===== src/Runtime/Tasks/Final/Invariant.antt =====
-- A request that ended: what keeps its task terminal and its evidence the first result.
use nm_daemon.Base.{
  ℕ, ◌≤◌, ◌≡◌, subst, ◌⊎◌, ◌∙◌, sym, refl, inl, inr, String, Bool, true, false, ◌&&◌, Option, some,
  [], ◌∷◌, arith, ◌==◌, Bool-cases, Option-cases, option_beq_iff, string_eq, option_eq, nat_eq,
}
use text.Mathlib.TextEquality.{eq_iff}
use nm_daemon.Base.Map.{Map, lookup, insert, lookup-insert}
use nm_daemon.Runtime.Interfaces.{Events, RecentResults}
use nm_daemon.Runtime.Tasks.{
  TaskHandle, TerminalRequestResult, Stream, Tasks, stream_of, stream_eq, owned_task, on_stream,
  finish_task, is_terminal, saturating_succ, store_terminal_result, cancel_where, cancelled_handle,
}
use nm_daemon.Runtime.Tasks.Cancellation.Handles.{stored}

module _ (events : Events) (recent : RecentResults (TerminalRequestResult (events.Event))) where
  open events use {Event, with_revision}
  open recent use {Table, get_owned, put, get-put_self, get-put_later, get-put_other, get_gone}

  -- The task of this owner is registered under the id, and terminal.
  abbrev pub IsOver : String → Option String → Map String (TaskHandle Event) → Type 0
  IsOver id owner m =
      (t : TaskHandle Event) × (lookup id m ≡ some t) × (t.owner ≡ owner) × (t.terminal ≡ true)

  pub record Ended (id : String) (owner : Option String) (start : ℕ) (r : Event)
      (s : Tasks events recent) : Type 0 where
    pub task : IsOver id owner s.tasks
    pub results :
        (now : ℕ) (q : TerminalRequestResult Event)
        → start ≤ now
        → get_owned s.results now id owner ≡ some q
        → q.event ≡ r

  pub retask-Ended :
      (id : String) (owner : Option String) (start : ℕ) (r : Event) (s : Tasks events recent)
      (m : Map String (TaskHandle Event))
      → IsOver id owner m
      → Ended id owner start r s
      → Ended id owner start r (record s { tasks = m })
  retask-Ended id owner start r s m o v = record { task = o; results = v.results }

  pub other-IsOver :
      (id : String) (owner : Option String) (m m' : Map String (TaskHandle Event))
      → lookup id m' ≡ lookup id m
      → IsOver id owner m
      → IsOver id owner m'
  other-IsOver id owner m m' q (t, l, o, d) = (t, q ∙ l, o, d)

  -- A handle is written back with its owner and its end kept.
  pub insert-IsOver :
      (id j : String) (owner : Option String) (m : Map String (TaskHandle Event))
      (t u : TaskHandle Event)
      → lookup j m ≡ some t
      → u.owner ≡ t.owner
      → (t.terminal ≡ true → u.terminal ≡ true)
      → IsOver id owner m
      → IsOver id owner (insert j u m)
  insert-IsOver id j owner m t u l o c (w, k, p, d) = elim (Bool-cases (j == id)) [
    | inl e ↦ (
      u,
      ground (arith, lookup-insert j id u m, eq_iff j id),
      ground (arith, eq_iff j id),
      ground (arith, eq_iff j id),
    )
    | inr e ↦ (w, ground (arith, lookup-insert j id u m), p, d)
  ]

  cancel_where-IsOver :
      (p : String × TaskHandle Event → Bool) (id : String) (owner : Option String)
      (m : Map String (TaskHandle Event))
      → IsOver id owner m
      → IsOver id owner (cancel_where events recent p m)
  unfolding lookup
  cancel_where-IsOver p id owner [] o = o
  cancel_where-IsOver p id owner ((k, u) ∷ m) (t, l, o, d) = elim (Bool-cases (k == id)) [
    | inl e ↦ elim (Bool-cases (p (k, u))) [
      | inl c ↦ (cancelled_handle events recent u, ground arith, ground arith, ground arith)
      | inr c ↦ (u, ground arith, ground arith, ground arith)
    ]
    | inr e ↦
        let (w, n, q, f) = cancel_where-IsOver p id owner m (t, ground arith, o, d) in
        (w, ground arith, q, f)
  ]

  pub cancel_where-Ended :
      (p : String × TaskHandle Event → Bool) (id : String) (owner : Option String) (start : ℕ)
      (r : Event) (s : Tasks events recent)
      → Ended id owner start r s
      → Ended id owner start r (record s { tasks = cancel_where events recent p s.tasks })
  cancel_where-Ended p id owner start r s v =
      retask-Ended id owner start r s _ (cancel_where-IsOver p id owner s.tasks v.task) v

  -- A call that stores nothing, or one that is the first to finish its request.
  stored-cases :
      (j : String) (o : Option String) (stream : Stream) (e : Event) (changed : Bool) (now : ℕ)
      (s : Tasks events recent)
      → let s' = (store_terminal_result events recent j o stream e changed now s).0 in
        (s ≡ s')
        ⊎ ((is_terminal events recent (owned_task events recent j o s) ≡ false)
            × (stored events recent j o stream e changed now s ≡ s'))
  unfolding store_terminal_result
  stored-cases j o stream e changed now s = elim (Option-cases (get_owned s.results now j o)) [
    | inr (q, g) ↦ inl (ground arith)
    | inl g ↦ elim (Bool-cases (is_terminal events recent (owned_task events recent j o s))) [
      | inl over ↦ inl (ground arith)
      | inr unfinished ↦ inr (unfinished, ground arith)
    ]
  ]

  -- The owner's own task is terminal, so a call that finishes a request is another one's.
  finished_other :
      (id j : String) (owner o : Option String) (s : Tasks events recent)
      → IsOver id owner s.tasks
      → is_terminal events recent (owned_task events recent j o s) ≡ false
      → (j == id && o == owner) ≡ false
  finished_other id j owner o s (t, l, p, d) h =
      ground (arith, eq_iff j id, option_beq_iff o owner, option_beq_iff t.owner owner)

  finish-IsOver :
      (id j : String) (owner o : Option String) (stream : Stream) (s : Tasks events recent)
      → IsOver id owner s.tasks
      → IsOver id owner
          (finish_task events recent j
            (on_stream events recent stream (owned_task events recent j o s))
            s).tasks
  finish-IsOver id j owner o stream s v = elim (Option-cases (lookup j s.tasks)) [
    | inl l ↦ rw l v
    | inr (t, l) ↦
        let u = record t {
          terminal = true;
          observation_revision = saturating_succ t.observation_revision;
        } in
        let w = insert-IsOver id j owner s.tasks t u l refl (λ c. refl) v in
        elim (Bool-cases (t.owner == o && stream_eq (stream_of t.kind) stream)) [
          | inl e ↦ subst (IsOver id owner) (ground arith) w
          | inr e ↦ subst (IsOver id owner) (ground arith) v
        ]
  ]

  stored-Ended :
      (id j : String) (owner o : Option String) (start : ℕ) (r : Event) (stream : Stream)
      (e : Event) (changed : Bool) (now : ℕ) (s : Tasks events recent)
      → is_terminal events recent (owned_task events recent j o s) ≡ false
      → Ended id owner start r s
      → Ended id owner start r (stored events recent j o stream e changed now s)
  stored-Ended id j owner o start r stream e changed now s h v = record {
    task = finish-IsOver id j owner o stream s v.task;
    results = λ later q b g.
        elim (get-put_other s.results now later j id o owner _
          (finished_other id j owner o s v.task h)) [
            | inl same ↦ v.results later q b (sym same ∙ g)
            | inr gone ↦ absurd (ground arith)
          ];
  }

  pub stores-Ended :
      (id j : String) (owner o : Option String) (start : ℕ) (r : Event) (stream : Stream)
      (e : Event) (changed : Bool) (now : ℕ) (s : Tasks events recent)
      → Ended id owner start r s
      → Ended id owner start r (store_terminal_result events recent j o stream e changed now s).0
  stores-Ended id j owner o start r stream e changed now s v =
      elim (stored-cases j o stream e changed now s) [
        | inl q ↦ subst (λ x. Ended id owner start r x) q v
        | inr (h, q) ↦
            subst (λ x. Ended id owner start r x) q
              (stored-Ended id j owner o start r stream e changed now s h v)
      ]
