-- ===== src/Activation/Registry/Live.antt =====
-- A connection has at most one live activation: the one that the registry finds.
use nm_daemon.Base.{
  text_pair_eq, ℕ, ◌≡◌, ◌⊎◌, inl, inr, true, Option, none, some, List, [], ◌∷◌, arith, nat_eq,
  string_eq, option_eq, Option-cases, option_beq_iff,
}
use nm_daemon.Base.Map.{lookup, filter_values, lookup-insert}
use nm_daemon.Activation.Credentials.{
  Credentials, live, finish, track_credentials, untrack_credentials, note_frontend_availability,
  credential_error, activation_error,
}
use nm_daemon.Activation.Registry.{
  Key, Guard, Registry, guard_of, upgrade, set_state, begin_activation, drop_guard, end_activation,
  find_activation, hold, Touch, stops, tracks, untracks, notes, asks_error, fails, touch, Operation,
  begins, ends, holds, releases, touches, step, run,
}
use nm_daemon.Activation.Registry.Current.{
  Log, log, Agrees, find_shown, alive_shown, dropped_shown, guard_of-retain, run-Agrees,
}

-- A state that no guard shows as current is finished.
abbrev Retired : Registry → Type 0
Retired r =
    (i : ℕ) (g : Guard)
    → guard_of i r.guards ≡ some g
    → (lookup g.key r.active ≡ some i) ⊎ ((r.states i).finished ≡ true)

touch_finished : (t : Touch) (s : Credentials) → s.finished ≡ true → (touch t s).finished ≡ true
unfolding track_credentials untrack_credentials note_frontend_availability credential_error
    activation_error
touch_finished (stops reason) s h = h
touch_finished tracks s h = h
touch_finished untracks s h = h
touch_finished (notes available) s h = h
touch_finished (asks_error now) s h = ground arith
touch_finished (fails now e) s h = ground arith

begin-Retired :
    (key : Key) (deadline : ℕ) (r : Registry) (l : Log)
    → Agrees r l
    → Retired r
    → Retired (begin_activation key deadline r)
unfolding begin_activation finish find_activation
begin-Retired key deadline r l a q i g e =
    let alive = filter_values (upgrade r) r.active in
    ground (
      arith,
      lookup-insert key g.key r.made alive,
      alive_shown r l g.key a,
      alive_shown r l key a,
      find_shown r l key a,
      q i g,
      a.numbered i g,
      text_pair_eq.beq_iff key g.key,
    )

drop_guard-Retired :
    (j : ℕ) (d : Guard) (r : Registry) (l : Log)
    → Agrees r l
    → guard_of j r.guards ≡ some d
    → Retired r
    → Retired (drop_guard (some d) r)
unfolding finish
drop_guard-Retired j d r l a e q i g h = ground (
  arith,
  a.numbered j d e,
  dropped_shown j d r l g.key a e,
  guard_of-retain i d.state r.guards,
  q i g,
  option_beq_iff (lookup g.key r.active) (some j),
)

end-Retired :
    (j : ℕ) (r : Registry) (l : Log) → Agrees r l → Retired r → Retired (end_activation j r)
unfolding end_activation
end-Retired j r l a q = elim (Option-cases (guard_of j r.guards)) [
  | inl n ↦ rw (n, end_activation) q
  | inr (d, n) ↦ rw (n, end_activation) (drop_guard-Retired j d r l a n q)
]

hold-Retired : (o : Option ℕ) (r : Registry) → Retired r → Retired (hold o r)
hold-Retired none r q = q
hold-Retired (some i) r q = q

touches-Retired :
    (j : ℕ) (t : Touch) (r : Registry)
    → Retired r
    → Retired (record r { states = set_state j (touch t (r.states j)) r.states })
touches-Retired j t r q i g e = ground (arith, q i g e, touch_finished t (r.states i))

run-Retired : (os : List Operation) → Retired (run os)
unfolding run step
run-Retired [] = λ i g e. absurd (ground arith)
run-Retired (begins key deadline ∷ os) =
    begin-Retired key deadline (run os) (log os) (run-Agrees os) (run-Retired os)
run-Retired (ends i ∷ os) = end-Retired i (run os) (log os) (run-Agrees os) (run-Retired os)
run-Retired (holds key ∷ os) = hold-Retired (find_activation key (run os)) (run os) (run-Retired os)
run-Retired (releases i ∷ os) = run-Retired os
run-Retired (touches i t ∷ os) = touches-Retired i t (run os) (run-Retired os)

-- After any sequence of operations, an activation that has its guard and is live is the one that the
-- registry finds for its connection, so a connection has at most one live activation.
live_is_found :
    (os : List Operation) (i : ℕ) (g : Guard) (now : ℕ)
    → guard_of i (run os).guards ≡ some g
    → live now ((run os).states i) ≡ true
    → find_activation g.key (run os) ≡ some i
unfolding live
live_is_found os i g now e h =
    ground (arith, run-Retired os i g e, find_shown (run os) (log os) g.key (run-Agrees os))
