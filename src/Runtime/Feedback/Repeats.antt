-- ===== src/Runtime/Feedback/Repeats.antt =====
-- Repeats are suppressed for one consumer, for three seconds, and for nobody else.
use nm_daemon.Base.{
  ℕ, ◌-◌, ◌≡◌, ◌≢◌, refl, String, Bool, true, not, ◌&&◌, some, List, [], ◌∷◌, arith, leb, string_eq,
  All, ◌∙◌, ==_refl,
}
use text.Mathlib.TextEquality.{eq_iff}
use nm_daemon.Base.Map.{lookup, remove, lookup-insert, lookup-remove, lookup-insert_self}
use nm_daemon.Runtime.Feedback.{Health, HealthFeedback, feedback_key, drop_owner, project}

pub data Call : Type 0 where
  projects : String → Health → Bool → ℕ → Call
  drops : String → Call

abbrev pub caller : Call → String
caller (projects owner h connecting now) = owner
caller (drops owner) = owner

unfoldable pub run : HealthFeedback → List Call → HealthFeedback
run last [] = last
run last (projects owner h connecting now ∷ cs) = run (project owner h connecting now last).0 cs
run last (drops owner ∷ cs) = run (drop_owner owner last) cs

lookup-project :
    (owner k : String) (h : Health) (connecting : Bool) (now : ℕ) (last : HealthFeedback)
    → owner ≢ k
    → lookup k (project owner h connecting now last).0 ≡ lookup k last
unfolding project
lookup-project owner k h connecting now last n =
    ground (arith, lookup-insert owner k (feedback_key h, now) last, eq_iff owner k)

lookup-run :
    (k : String) (last : HealthFeedback) (cs : List Call)
    → All (λ c. caller c ≢ k) cs
    → lookup k (run last cs) ≡ lookup k last
unfolding run drop_owner
lookup-run k last [] n = refl
lookup-run k last (projects owner h connecting now ∷ cs) (n, ns) =
    lookup-run k (project owner h connecting now last).0 cs ns
    ∙ lookup-project owner k h connecting now last n
lookup-run k last (drops owner ∷ cs) (n, ns) =
    lookup-run k (remove owner last) cs ns
    ∙ ground (arith, lookup-remove owner k last, eq_iff owner k)

project-recorded :
    (owner : String) (h : Health) (connecting : Bool) (now : ℕ) (last : HealthFeedback)
    → (project owner h connecting now last).1.notification_recommended ≡ true
    → lookup owner (project owner h connecting now last).0 ≡ some (feedback_key h, now)
unfolding project
project-recorded owner h connecting now last r =
    ground (arith, lookup-insert_self owner (feedback_key h, now) last)

project-after :
    (owner key : String) (h : Health) (connecting : Bool) (at now : ℕ) (last : HealthFeedback)
    → lookup owner last ≡ some (key, at)
    → key ≡ feedback_key h
    → (project owner h connecting now last).1.notification_recommended
      ≡ (h.notification_recommended && not connecting && leb 3000 (now - at))
unfolding project
project-after owner key h connecting at now last l k =
    ground (arith, ==_refl (feedback_key h), eq_iff key (feedback_key h))

-- After an event was recommended to a consumer, and after any calls for other consumers, the next
-- event of the same subject, state and reason is recommended to it exactly when it is meant to be,
-- this consumer is not connecting, and three seconds have gone by.
repeat_suppressed :
    (owner : String) (h h' : Health) (connecting connecting' : Bool) (now later : ℕ)
    (last : HealthFeedback) (cs : List Call)
    → (project owner h connecting now last).1.notification_recommended ≡ true
    → All (λ c. caller c ≢ owner) cs
    → feedback_key h ≡ feedback_key h'
    → (project owner h' connecting' later
        (run (project owner h connecting now last).0 cs)).1.notification_recommended
      ≡ (h'.notification_recommended && not connecting' && leb 3000 (later - now))
repeat_suppressed owner h h' connecting connecting' now later last cs r others same =
    project-after owner (feedback_key h) h' connecting' now later
      (run (project owner h connecting now last).0 cs)
      (lookup-run owner (project owner h connecting now last).0 cs others
        ∙ project-recorded owner h connecting now last r)
      same
