-- ===== src/Runtime/Tasks/Final.antt =====
-- A request that ended stays ended, with its first result, over every history of the task map.
pub mod Invariant
pub mod Steps
use nm_daemon.Base.{
  ℕ, ◌≤◌, ◌≡◌, subst, ◌⊎◌, ◌≢◌, ◌∙◌, sym, refl, inl, inr, String, Bool, true, false, not, ◌&&◌,
  Option, none, some, List, [], ◌∷◌, arith, ◌==◌, All, Bool-cases, Option-cases, option_beq_iff,
  string_eq, option_eq, nat_eq,
}
use text.Mathlib.TextEquality.{eq_iff}
use nm_daemon.Base.Map.{
  Map, lookup, insert, remove, lookup-insert, lookup-remove, lookup-insert_self,
}
use nm_daemon.Runtime.Interfaces.{Events, RecentResults}
use nm_daemon.Runtime.Tasks.{
  TaskHandle, TaskKind, connect, TerminalRequestResult, Stream, Tasks, register, unregister,
  stream_of, stream_eq, owned_task, on_stream, finish_task, final_revision, settled, is_terminal,
  saturating_succ, store_terminal_result, store_connect_progress, expire_connect, cancel_task,
  connects_to, open_for, cancel_where, cancelled_handle, cancel_connects_for_ssid,
  cancel_tasks_for_owner, network_manager_owner_changed, shutdown_tasks,
}
use nm_daemon.Runtime.Tasks.Terminal.{task_after_terminal}
use nm_daemon.Runtime.Tasks.Cancellation.{lookup-insert_other}
use nm_daemon.Runtime.Tasks.Cancellation.Handles.{
  Operation, step, run, Later, stored, registers, unregisters, stores, progresses, expires, cancels,
  forgets, drops_owner, changes_owner, shuts_down,
}
use nm_daemon.Runtime.Tasks.Final.Invariant.{
  Ended, IsOver, retask-Ended, other-IsOver, insert-IsOver, cancel_where-Ended, stores-Ended,
}
use nm_daemon.Runtime.Tasks.Final.Steps.{run-Ended}

module _ (events : Events) (recent : RecentResults (TerminalRequestResult (events.Event))) where
  open events use {Event, with_revision}
  open recent use {Table, get_owned, put, get-put_self, get-put_later, get-put_other, get_gone}

  -- The first event of a request, where its evidence is retained.
  abbrev pub if_retained : Event → Option (TerminalRequestResult Event) → Option Event
  if_retained r none = none
  if_retained r (some q) = some r

  first-results :
      (id : String) (stream : Stream) (e r : Event) (changed : Bool) (start later : ℕ)
      (s : Tasks events recent) (t : TaskHandle Event) (q : TerminalRequestResult Event)
      → get_owned s.results start id t.owner ≡ none
      → (store_terminal_result events recent id t.owner stream e changed start s).1 ≡ some r
      → get_owned
          (store_terminal_result events recent id t.owner stream e changed start s).0.results
          later
          id
          t.owner
        ≡ some q
      → q.event ≡ r
  unfolding store_terminal_result
  first-results id stream e r changed start later s t q g h f =
      let task = owned_task events recent id t.owner s in
      let n = final_revision events recent (on_stream events recent stream task) in
      let v : TerminalRequestResult Event = record {
        stream = stream;
        event = with_revision n (settled events recent changed task e);
        observation_revision = n;
      } in
      ground (arith, get-put_later s.results start later id t.owner v)

  -- The first result that a registered task stores on its own stream ends its request.
  first-Ended :
      (id : String) (stream : Stream) (e r : Event) (changed : Bool) (start : ℕ)
      (s : Tasks events recent) (t : TaskHandle Event)
      → lookup id s.tasks ≡ some t
      → stream_of t.kind ≡ stream
      → get_owned s.results start id t.owner ≡ none
      → (store_terminal_result events recent id t.owner stream e changed start s).1 ≡ some r
      → Ended events recent id t.owner start r
          (store_terminal_result events recent id t.owner stream e changed start s).0
  first-Ended id stream e r changed start s t l k g h =
      let (u, m, over, o) =
        task_after_terminal events recent id stream e r changed start s t l k g h in
      record {
        task = (u, m, o, over);
        results = λ now q b f. first-results id stream e r changed start now s t q g h f;
      }

  Ended-keeps :
      (id : String) (owner : Option String) (start now : ℕ) (r : Event) (stream : Stream)
      (e : Event) (changed : Bool) (s : Tasks events recent)
      → start ≤ now
      → Ended events recent id owner start r s
      → store_terminal_result events recent id owner stream e changed now s
        ≡ (s, if_retained r (get_owned s.results now id owner))
  unfolding store_terminal_result
  Ended-keeps id owner start now r stream e changed s b v =
      let (t, l, o, d) = v.task in
      elim (Option-cases (get_owned s.results now id owner)) [
        | inl g ↦ ground (arith, option_beq_iff t.owner owner)
        | inr (q, g) ↦ ground (arith, v.results now q b g)
      ]

  Ended-drops :
      (id : String) (owner : Option String) (start now : ℕ) (r e : Event) (s : Tasks events recent)
      → start ≤ now
      → Ended events recent id owner start r s
      → (cancel_task events recent id owner now s ≡ (s, none))
        × ((store_connect_progress events recent id owner e now s).0 ≡ s)
        × (((store_connect_progress events recent id owner e now s).1 ≡ some r)
            ⊎ ((store_connect_progress events recent id owner e now s).1 ≡ none))
  unfolding cancel_task store_connect_progress
  Ended-drops id owner start now r e s b v =
      let (t, l, o, d) = v.task in
      elim (Option-cases (get_owned s.results now id owner)) [
        | inl g ↦ (ground arith, ground arith, ground arith)
        | inr (q, g) ↦ (ground arith, ground arith, ground (arith, v.results now q b g))
      ]

  -- Once a registered task has stored its first result on its own stream, no history of the task map,
  -- of operations that do not run before it and neither register nor remove that request, changes the
  -- result: another result for the same owner, on any stream, changes nothing, and the call returns
  -- the first event where evidence is still retained, and none where it has expired or was evicted.
  pub terminal_immutable :
      (id : String) (stream : Stream) (e r : Event) (changed : Bool) (start : ℕ)
      (s : Tasks events recent) (t : TaskHandle Event)
      → lookup id s.tasks ≡ some t
      → stream_of t.kind ≡ stream
      → get_owned s.results start id t.owner ≡ none
      → (store_terminal_result events recent id t.owner stream e changed start s).1 ≡ some r
      → (os : List (Operation events recent)) → All (Later events recent id start) os
      → (stream' : Stream) (e' : Event) (changed' : Bool) (now : ℕ) → start ≤ now
      → let s' =
          run events recent
            (store_terminal_result events recent id t.owner stream e changed start s).0
            os in
        store_terminal_result events recent id t.owner stream' e' changed' now s'
        ≡ (s', if_retained r (get_owned s'.results now id t.owner))
  terminal_immutable id stream e r changed start s t l k g h os later stream' e' changed' now b =
      let s0 = (store_terminal_result events recent id t.owner stream e changed start s).0 in
      Ended-keeps id t.owner start now r stream' e' changed' (run events recent s0 os) b (
        run-Ended events recent id t.owner start r s0 os later
          (first-Ended id stream e r changed start s t l k g h))

  -- Once a registered task has stored its first result on its own stream, then after any history of
  -- the task map, of operations that do not run before it and neither register nor remove that
  -- request, progress and a cancellation by the same owner change nothing: the cancellation finds no
  -- task to cancel, and the progress call returns the first event or none.
  pub no_new_outcome :
      (id : String) (stream : Stream) (e r : Event) (changed : Bool) (start : ℕ)
      (s : Tasks events recent) (t : TaskHandle Event)
      → lookup id s.tasks ≡ some t
      → stream_of t.kind ≡ stream
      → get_owned s.results start id t.owner ≡ none
      → (store_terminal_result events recent id t.owner stream e changed start s).1 ≡ some r
      → (os : List (Operation events recent)) → All (Later events recent id start) os
      → (e' : Event) (now : ℕ) → start ≤ now
      → let s' =
          run events recent
            (store_terminal_result events recent id t.owner stream e changed start s).0
            os in
        (cancel_task events recent id t.owner now s' ≡ (s', none))
        × ((store_connect_progress events recent id t.owner e' now s').0 ≡ s')
        × (((store_connect_progress events recent id t.owner e' now s').1 ≡ some r)
            ⊎ ((store_connect_progress events recent id t.owner e' now s').1 ≡ none))
  no_new_outcome id stream e r changed start s t l k g h os later e' now b =
      let s0 = (store_terminal_result events recent id t.owner stream e changed start s).0 in
      Ended-drops id t.owner start now r e' (run events recent s0 os) b (
        run-Ended events recent id t.owner start r s0 os later
          (first-Ended id stream e r changed start s t l k g h))
