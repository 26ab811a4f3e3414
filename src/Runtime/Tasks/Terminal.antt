-- ===== src/Runtime/Tasks/Terminal.antt =====
-- Terminal evidence: what a first result leaves in the task and in the status of its request.
use nm_daemon.Base.{
  ℕ, ◌≡◌, refl, inl, inr, ◌↔◌, String, Bool, true, Option, none, some, arith, Option-cases,
  option_beq_iff, string_eq, option_eq,
}
use mathlib.Core.Bool.{decide_iff}
use nm_daemon.Base.Map.{lookup, lookup-insert_self}
use nm_daemon.Runtime.Interfaces.{Events, RecentResults}
use nm_daemon.Runtime.Tasks.{
  TaskHandle, TerminalRequestResult, Stream, Stream-discrete, finished, Tasks, stream_of, stream_eq,
  owned_task, on_stream, final_revision, settled, saturating_succ, store_terminal_result,
  request_status,
}

stream_eq_iff : (a b : Stream) → (stream_eq a b ≡ true) ↔ (a ≡ b)
stream_eq_iff a b = decide_iff (Stream-discrete a b)

module _ (events : Events) (recent : RecentResults (TerminalRequestResult (events.Event))) where
  open events use {Event, is_success, with_revision}
  open recent use {Table, get_owned, put, get-put_self}

  -- What a call records where no result is retained.
  abbrev new_result :
      String
      → Option String
      → Stream
      → Event
      → Bool
      → Tasks events recent
      → TerminalRequestResult Event
  new_result id owner stream e changed s =
      let task = owned_task events recent id owner s in
      let n = final_revision events recent (on_stream events recent stream task) in
      record {
        stream = stream;
        event = with_revision n (settled events recent changed task e);
        observation_revision = n;
      }

  kept :
      (id : String) (owner : Option String) (stream : Stream) (e : Event) (changed : Bool) (now : ℕ)
      (s : Tasks events recent)
      → let r = new_result id owner stream e changed s in
        get_owned (put s.results now id owner r) now id owner ≡ some r
  kept id owner stream e changed now s = get-put_self s.results now id owner _

  -- Once a terminal event is stored, the status of the request is that event, for its owner.
  status_after_terminal :
      (id : String) (owner : Option String) (stream : Stream) (e r : Event) (changed : Bool)
      (now : ℕ) (s : Tasks events recent)
      → (store_terminal_result events recent id owner stream e changed now s).1 ≡ some r
      → (q : TerminalRequestResult Event) × (q.event ≡ r)
        × (request_status events recent id owner now
              (store_terminal_result events recent id owner stream e changed now s).0
            ≡ finished q)
  unfolding store_terminal_result request_status
  status_after_terminal id owner stream e r changed now s h =
      elim (Option-cases (get_owned s.results now id owner)) [
        | inl g ↦ (
          new_result id owner stream e changed s,
          ground arith,
          ground (arith, kept id owner stream e changed now s),
        )
        | inr (q, g) ↦ (q, ground arith, ground arith)
      ]

  pub task_after_terminal :
      (id : String) (stream : Stream) (e r : Event) (changed : Bool) (now : ℕ)
      (s : Tasks events recent) (t : TaskHandle Event)
      → lookup id s.tasks ≡ some t
      → stream_of t.kind ≡ stream
      → get_owned s.results now id t.owner ≡ none
      → (store_terminal_result events recent id t.owner stream e changed now s).1 ≡ some r
      → (u : TaskHandle Event) × (lookup id
            (store_terminal_result events recent id t.owner stream e changed now s).0.tasks
          ≡ some u)
        × (u.terminal ≡ true)
        × (u.owner ≡ t.owner)
  unfolding store_terminal_result
  task_after_terminal id stream e r changed now s t l k g h =
      let u = record t {
        terminal = true;
        observation_revision = saturating_succ t.observation_revision;
      } in
      (
        u,
        ground (
          arith,
          option_beq_iff t.owner t.owner,
          stream_eq_iff (stream_of t.kind) stream,
          lookup-insert_self id u s.tasks,
        ),
        refl,
        refl,
      )
