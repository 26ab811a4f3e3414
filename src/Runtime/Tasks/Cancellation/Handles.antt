-- ===== src/Runtime/Tasks/Cancellation/Handles.antt =====
-- A cancelled connection, and what keeps it cancelled: writes to its handle, and the results of calls.
use nm_daemon.Base.{
  ℕ, ◌≤◌, ◌≡◌, subst, ◌⊎◌, ◌≢◌, ◌∙◌, sym, refl, inl, inr, String, Bool, true, false, ◌&&◌, Option,
  some, List, [], ◌∷◌, arith, ◌==◌, Bool-cases, Option-cases, option_beq_iff, string_eq, option_eq,
  nat_eq,
}
use text.Mathlib.TextEquality.{eq_iff}
use nm_daemon.Base.Map.{Map, lookup, insert, lookup-insert}
use nm_daemon.Runtime.Interfaces.{Events, RecentResults}
use nm_daemon.Runtime.Tasks.{
  TaskHandle, TaskKind, connect, TerminalRequestResult, Stream, Tasks, register, unregister,
  owned_task, on_stream, finish_task, final_revision, settled, is_terminal, saturating_succ,
  store_terminal_result, store_connect_progress, expire_connect, cancel_task, cancel_where,
  cancel_connects_for_ssid, cancel_tasks_for_owner, network_manager_owner_changed, shutdown_tasks,
}

module _ (events : Events) (recent : RecentResults (TerminalRequestResult (events.Event))) where
  open events use {Event, is_success, with_revision, cancelled_fails, revision_keeps}
  open recent use {Table, get_owned, put, get-put_self, get-put_later, get-put_other, get_gone}

  pub data Operation : Type 0 where
    registers : String → TaskKind → Option String → Option (List ℕ) → String → ℕ → ℕ → Operation
    unregisters : String → ℕ → Operation
    stores : String → Option String → Stream → Event → Bool → ℕ → Operation
    progresses : String → Option String → Event → ℕ → Operation
    expires : String → ℕ → Operation
    cancels : String → Option String → ℕ → Operation
    forgets : List ℕ → Operation
    drops_owner : String → ℕ → Operation
    changes_owner : Option String → Operation
    shuts_down : Operation

  unfoldable pub step : Tasks events recent → Operation → Tasks events recent
  step s (registers id kind owner ssid nm now token) =
      register events recent id kind owner ssid nm now token s
  step s (unregisters id token) = unregister events recent id token s
  step s (stores id owner stream e changed now) =
      (store_terminal_result events recent id owner stream e changed now s).0
  step s (progresses id owner e now) = (store_connect_progress events recent id owner e now s).0
  step s (expires id now) = (expire_connect events recent id now s).0
  step s (cancels id owner now) = (cancel_task events recent id owner now s).0
  step s (forgets ssid) = (cancel_connects_for_ssid events recent ssid s).0
  step s (drops_owner owner now) = (cancel_tasks_for_owner events recent owner now s).0
  step s (changes_owner owner) = network_manager_owner_changed events recent owner s
  step s shuts_down = shutdown_tasks events recent s

  unfoldable pub run : Tasks events recent → List Operation → Tasks events recent
  run s [] = s
  run s (o ∷ os) = run (step s o) os

  -- An operation that neither registers nor unregisters the request, and does not run before `start`.
  abbrev pub Later : String → ℕ → Operation → Type 0
  Later id start (registers j kind owner ssid nm now token) = j ≢ id
  Later id start (unregisters j token) = j ≢ id
  Later id start (stores j owner stream e changed now) = start ≤ now
  Later id start (progresses j owner e now) = start ≤ now
  Later id start (expires j now) = start ≤ now
  Later id start (cancels j owner now) = start ≤ now
  Later id start (forgets ssid) = Unit
  Later id start (drops_owner owner now) = start ≤ now
  Later id start (changes_owner owner) = Unit
  Later id start shuts_down = Unit

  -- A cancelled connection of this owner.
  abbrev pub IsCancelled : Option String → TaskHandle Event → Type 0
  IsCancelled owner t = (t.owner ≡ owner) × (t.kind ≡ connect) × (t.cancellation ≡ true)

  pub record Sealed (id : String) (owner : Option String) (start : ℕ) (s : Tasks events recent)
      : Type 0 where
    pub task : (t : TaskHandle Event) × (lookup id s.tasks ≡ some t) × IsCancelled owner t
    pub results :
        (now : ℕ) (r : TerminalRequestResult Event)
        → start ≤ now
        → get_owned s.results now id owner ≡ some r
        → is_success r.event ≡ false

  lookup-cancel_where :
      (p : String × TaskHandle Event → Bool) (id : String) (owner : Option String)
      (m : Map String (TaskHandle Event)) (t : TaskHandle Event)
      → lookup id m ≡ some t
      → IsCancelled owner t
      → lookup id (cancel_where events recent p m) ≡ some t
  unfolding lookup
  lookup-cancel_where p id owner [] t h c = h
  lookup-cancel_where p id owner ((k, u) ∷ m) t h c =
      ground (arith, lookup-cancel_where p id owner m t)

  -- A handle is written back with its owner, kind and raised flag kept.
  pub update-Sealed :
      (id j : String) (owner : Option String) (start : ℕ) (s : Tasks events recent)
      (t u : TaskHandle Event)
      → lookup j s.tasks ≡ some t
      → u.owner ≡ t.owner
      → u.kind ≡ t.kind
      → (t.cancellation ≡ true → u.cancellation ≡ true)
      → Sealed id owner start s
      → Sealed id owner start (record s { tasks = insert j u s.tasks })
  update-Sealed id j owner start s t u l o k c v =
      let (w, m, p) = v.task in
      record {
        task = elim (Bool-cases (j == id)) [
          | inl e ↦ (
            u,
            ground (arith, lookup-insert j id u s.tasks, eq_iff j id),
            ground (arith, eq_iff j id),
          )
          | inr e ↦ (w, ground (arith, lookup-insert j id u s.tasks), p)
        ];
        results = v.results;
      }

  pub cancel_where-Sealed :
      (p : String × TaskHandle Event → Bool) (id : String) (owner : Option String) (start : ℕ)
      (s : Tasks events recent)
      → Sealed id owner start s
      → Sealed id owner start (record s { tasks = cancel_where events recent p s.tasks })
  cancel_where-Sealed p id owner start s v =
      let (t, m, c) = v.task in
      record { task = (t, lookup-cancel_where p id owner s.tasks t m c, c); results = v.results }

  settled_fails :
      (changed : Bool) (owner : Option String) (t : TaskHandle Event) (e : Event)
      → IsCancelled owner t
      → is_success (settled events recent changed (some t) e) ≡ false
  settled_fails changed owner t e c = ground (arith, cancelled_fails t.timed_out e)

  -- What a call stores under another request or owner, or under this one, is no success of this one.
  put-Sealed :
      (id j : String) (owner o : Option String) (start now later : ℕ) (s : Tasks events recent)
      (v r : TerminalRequestResult Event)
      → Sealed id owner start s
      → ((j == id && o == owner) ≡ true → is_success v.event ≡ false)
      → start ≤ later
      → get_owned (put s.results now j o v) later id owner ≡ some r
      → is_success r.event ≡ false
  put-Sealed id j owner o start now later s v r w h b g =
      elim (Bool-cases (j == id && o == owner)) [
        | inl e ↦ ground (
          arith,
          eq_iff j id,
          option_beq_iff o owner,
          get-put_later s.results now later id owner v,
        )
        | inr e ↦ elim (get-put_other s.results now later j id o owner v e) [
          | inl q ↦ w.results later r b (sym q ∙ g)
          | inr q ↦ absurd (ground arith)
        ]
      ]

  finish-Sealed :
      (id j : String) (owner o : Option String) (start : ℕ) (stream : Stream)
      (s : Tasks events recent)
      → Sealed id owner start s
      → Sealed id owner start (
          finish_task events recent j
            (on_stream events recent stream (owned_task events recent j o s))
            s)
  finish-Sealed id j owner o start stream s v = elim (Option-cases (lookup j s.tasks)) [
    | inl l ↦ rw l v
    | inr (t, l) ↦
        let u = record t {
          terminal = true;
          observation_revision = saturating_succ t.observation_revision;
        } in
        ground (arith, update-Sealed id j owner start s t u l refl refl (λ c. c) v)
  ]

  with_results-Sealed :
      (id : String) (owner : Option String) (start : ℕ) (s : Tasks events recent) (results : Table)
      → Sealed id owner start s
      → ((now : ℕ) (r : TerminalRequestResult Event)
          → start ≤ now
          → get_owned results now id owner ≡ some r
          → is_success r.event ≡ false)
      → Sealed id owner start (record s { results = results })
  with_results-Sealed id owner start s results v f = record { task = v.task; results = f }

  -- The event that a call stores for the cancelled connection is no success.
  settled-Sealed :
      (id j : String) (owner o : Option String) (start : ℕ) (e : Event) (changed : Bool)
      (s : Tasks events recent)
      → Sealed id owner start s
      → (j == id && o == owner) ≡ true
      → is_success (settled events recent changed (owned_task events recent j o s) e) ≡ false
  settled-Sealed id j owner o start e changed s v h =
      let (t, l, c) = v.task in
      ground (
        arith,
        settled_fails changed owner t e c,
        eq_iff j id,
        option_beq_iff o owner,
        option_beq_iff t.owner owner,
      )

  -- What a call that is the first to finish its request leaves.
  abbrev pub stored :
      String → Option String → Stream → Event → Bool → ℕ → Tasks events recent → Tasks events recent
  stored j o stream e changed now s =
      let task = owned_task events recent j o s in
      let n = final_revision events recent (on_stream events recent stream task) in
      record (finish_task events recent j (on_stream events recent stream task) s) {
        results = put s.results now j o (record {
          stream = stream;
          event = with_revision n (settled events recent changed task e);
          observation_revision = n;
        });
      }

  stored-cases :
      (j : String) (o : Option String) (stream : Stream) (e : Event) (changed : Bool) (now : ℕ)
      (s : Tasks events recent)
      → let s' = (store_terminal_result events recent j o stream e changed now s).0 in
        (s ≡ s') ⊎ (stored j o stream e changed now s ≡ s')
  unfolding store_terminal_result
  stored-cases j o stream e changed now s = elim (Option-cases (get_owned s.results now j o)) [
    | inr (q, g) ↦ inl (ground arith)
    | inl g ↦ elim (Bool-cases (is_terminal events recent (owned_task events recent j o s))) [
      | inl ended ↦ inl (ground arith)
      | inr unfinished ↦ inr (ground arith)
    ]
  ]

  stored-Sealed :
      (id j : String) (owner o : Option String) (start : ℕ) (stream : Stream) (e : Event)
      (changed : Bool) (now : ℕ) (s : Tasks events recent)
      → Sealed id owner start s
      → Sealed id owner start (stored j o stream e changed now s)
  stored-Sealed id j owner o start stream e changed now s v =
      let task = owned_task events recent j o s in
      let n = final_revision events recent (on_stream events recent stream task) in
      with_results-Sealed id owner start
        (finish_task events recent j (on_stream events recent stream task) s) _
        (finish-Sealed id j owner o start stream s v)
        (λ later r b h.
          put-Sealed id j owner o start now later s _ r v
            (λ same.
              revision_keeps n (settled events recent changed task e)
              ∙ settled-Sealed id j owner o start e changed s v same)
            b h)

  pub stores-Sealed :
      (id j : String) (owner o : Option String) (start : ℕ) (stream : Stream) (e : Event)
      (changed : Bool) (now : ℕ) (s : Tasks events recent)
      → Sealed id owner start s
      → Sealed id owner start (store_terminal_result events recent j o stream e changed now s).0
  stores-Sealed id j owner o start stream e changed now s v =
      elim (stored-cases j o stream e changed now s) [
        | inl q ↦ subst (λ x. Sealed id owner start x) q v
        | inr q ↦
            subst (λ x. Sealed id owner start x) q
              (stored-Sealed id j owner o start stream e changed now s v)
      ]
