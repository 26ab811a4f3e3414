-- ===== src/Activation/Registry/Current.antt =====
-- The registry as a client sees it: the newest activation of a connection, until its guard goes.
use nm_daemon.Base.{
  text_pair_eq, ℕ, suc, ◌<◌, ◌≡◌, refl, ◌∙◌, inl, inr, Bool, true, false, not, ◌||◌, Option, none,
  some, List, [], ◌∷◌, arith, if◌then◌else◌, option_filter, and_then, ◌==◌, nat_eq, string_eq,
  option_eq, retain, ltb, Bool-cases, Option-cases, Distinct, option_beq_iff,
}
use nm_daemon.Base.Map.{
  lookup, filter_values, keys, lookup-insert, lookup-remove, lookup-filter_values, insert-Distinct,
  remove-Distinct, filter_values-Distinct,
}
use nm_daemon.Base.Sets.{add, delete}
use nm_daemon.Activation.Credentials.{Credentials}
use nm_daemon.Activation.Registry.{
  Key, Guard, Registry, guard_of, upgrade, set_state, begin_activation, drop_guard, end_activation,
  find_activation, hold, touch, Operation, begins, ends, holds, releases, touches, step, run,
}

-- What has happened to activations, last first, with the number of each.
pub data Event : Type 0 where
  began : Key → ℕ → Event
  ended : ℕ → Event

pub record Log : Type 0 where
  pub events : List Event
  pub made : ℕ

-- The end of an activation counts if there has been one of that number.
abbrev pub note_end : ℕ → Log → Log
note_end i l = if ltb i l.made then record l { events = ended i ∷ l.events } else l

unfoldable pub log : List Operation → Log
log [] = record { events = []; made = 0 }
log (begins key deadline ∷ os) =
    let l = log os in record { events = began key l.made ∷ l.events; made = suc l.made }
log (ends i ∷ os) = note_end i (log os)
log (holds key ∷ os) = log os
log (releases i ∷ os) = log os
log (touches i t ∷ os) = log os

-- The activation of a connection that began last.
abbrev pub newest : Key → List Event → Option ℕ
newest key [] = none
newest key (began k i ∷ es) = if k == key then some i else newest key es
newest key (ended i ∷ es) = newest key es

abbrev pub has_ended : ℕ → List Event → Bool
has_ended i [] = false
has_ended i (began k j ∷ es) = has_ended i es
has_ended i (ended j ∷ es) = j == i || has_ended i es

-- The activation of a connection that began last, unless it has ended.
abbrev pub current : Key → List Event → Option ℕ
current key es = option_filter (λ i. not (has_ended i es)) (newest key es)

-- How the registry and the log agree.
pub record Agrees (r : Registry) (l : Log) : Type 0 where
  pub counts : r.made ≡ l.made
  pub unique : Distinct (keys r.active)
  pub shows : (k : Key) → lookup k r.active ≡ current k l.events
  pub guarded :
      (k : Key) (i : ℕ)
      → lookup k r.active ≡ some i
      → guard_of i r.guards ≡ some (record { key = k; state = i })
  pub numbered : (i : ℕ) (g : Guard) → guard_of i r.guards ≡ some g → (g.state ≡ i) × (i < r.made)
  pub gone : (i : ℕ) → guard_of i r.guards ≡ none → i < r.made → has_ended i l.events ≡ true
  pub past : (i : ℕ) → has_ended i l.events ≡ true → i < l.made

-- A registered activation is alive.
pub find_shown :
    (r : Registry) (l : Log) (k : Key) → Agrees r l → find_activation k r ≡ lookup k r.active
unfolding find_activation
find_shown r l k a = elim (Option-cases (lookup k r.active)) [
  | inl n ↦ ground arith
  | inr (i, n) ↦ ground (arith, a.guarded k i n)
]

pub alive_shown :
    (r : Registry) (l : Log) (k : Key)
    → Agrees r l
    → lookup k (filter_values (upgrade r) r.active) ≡ lookup k r.active
unfolding find_activation
alive_shown r l k a = lookup-filter_values (upgrade r) k r.active a.unique ∙ find_shown r l k a

begin-Agrees :
    (key : Key) (deadline : ℕ) (r : Registry) (l : Log)
    → Agrees r l
    → Agrees
        (begin_activation key deadline r)
        (record { events = began key l.made ∷ l.events; made = suc l.made })
unfolding begin_activation
begin-Agrees key deadline r l a =
    let alive = filter_values (upgrade r) r.active in
    record {
      counts = omega (arith, a.counts);
      unique =
          insert-Distinct key r.made alive (filter_values-Distinct (upgrade r) r.active a.unique);
      shows = λ j. ground (
        arith,
        lookup-insert key j r.made alive,
        alive_shown r l j a,
        a.shows j,
        a.past l.made,
        a.counts,
      );
      guarded = λ j i e. ground (
        arith,
        lookup-insert key j r.made alive,
        alive_shown r l j a,
        a.guarded j i,
        a.numbered i (record { key = j; state = i }),
        text_pair_eq.beq_iff key j,
      );
      numbered = λ i g e. ground (arith, a.numbered i g);
      gone = λ i n h. ground (arith, a.gone i);
      past = λ i e. ground (arith, a.past i);
    }

pub guard_of-retain :
    (i j : ℕ) (gs : List Guard)
    → guard_of i (retain (λ h. not (h.state == j)) gs) ≡ (if j == i then none else guard_of i gs)
guard_of-retain i j [] = ground arith
guard_of-retain i j (g ∷ gs) = ground (arith, guard_of-retain i j gs)

pub dropped_shown :
    (i : ℕ) (g : Guard) (r : Registry) (l : Log) (j : Key)
    → Agrees r l
    → guard_of i r.guards ≡ some g
    → lookup j (drop_guard (some g) r).active
      ≡ (if lookup j r.active == some i then none else lookup j r.active)
unfolding find_activation
dropped_shown i g r l j a e = ground (
  arith,
  a.numbered i g e,
  find_shown r l g.key a,
  lookup-remove g.key j r.active,
  a.guarded j i,
  a.guarded g.key i,
  text_pair_eq.beq_iff g.key j,
  option_beq_iff (lookup j r.active) (some i),
  option_beq_iff (lookup g.key r.active) (some i),
)

drop_guard-Agrees :
    (i : ℕ) (g : Guard) (r : Registry) (l : Log)
    → Agrees r l
    → guard_of i r.guards ≡ some g
    → Agrees (drop_guard (some g) r) (note_end i l)
drop_guard-Agrees i g r l a e =
    let (same, less) = a.numbered i g e in
    record {
      counts = ground (arith, a.counts);
      unique = elim (Bool-cases (and_then (lookup g.key r.active) (upgrade r) == some g.state)) [
        | inl b ↦ rw b (remove-Distinct g.key r.active a.unique)
        | inr b ↦ rw b a.unique
      ];
      shows = λ j. ground (
        arith,
        dropped_shown i g r l j a e,
        a.shows j,
        a.counts,
        option_beq_iff (lookup j r.active) (some i),
      );
      guarded = λ j k h. ground (
        arith,
        dropped_shown i g r l j a e,
        guard_of-retain k g.state r.guards,
        a.guarded j k,
        option_beq_iff (lookup j r.active) (some i),
      );
      numbered = λ k h m. ground (arith, guard_of-retain k g.state r.guards, a.numbered k h);
      gone = λ k n h. ground (arith, guard_of-retain k g.state r.guards, a.gone k, a.counts);
      past = λ k h. ground (arith, a.past k, a.counts);
    }

end_none-Agrees :
    (i : ℕ) (r : Registry) (l : Log)
    → Agrees r l
    → guard_of i r.guards ≡ none
    → Agrees r (note_end i l)
end_none-Agrees i r l a e = record {
  counts = ground (arith, a.counts);
  unique = a.unique;
  shows = λ j. ground (arith, a.shows j, a.gone i, a.counts);
  guarded = a.guarded;
  numbered = a.numbered;
  gone = λ k n h. ground (arith, a.gone k, a.counts);
  past = λ k h. ground (arith, a.past k);
}

end-Agrees :
    (i : ℕ) (r : Registry) (l : Log) → Agrees r l → Agrees (end_activation i r) (note_end i l)
unfolding end_activation
end-Agrees i r l a = elim (Option-cases (guard_of i r.guards)) [
  | inl n ↦ rw (n, end_activation) (end_none-Agrees i r l a n)
  | inr (g, n) ↦ rw (n, end_activation) (drop_guard-Agrees i g r l a n)
]

-- What requests hold, and what happens to a state, changes nothing here.
other-Agrees :
    (r : Registry) (l : Log) (held : List ℕ) (states : ℕ → Credentials)
    → Agrees r l
    → Agrees (record r { held = held; states = states }) l
other-Agrees r l held states a = record {
  counts = a.counts;
  unique = a.unique;
  shows = a.shows;
  guarded = a.guarded;
  numbered = a.numbered;
  gone = a.gone;
  past = a.past;
}

hold-Agrees : (o : Option ℕ) (r : Registry) (l : Log) → Agrees r l → Agrees (hold o r) l
hold-Agrees none r l a = a
hold-Agrees (some i) r l a = other-Agrees r l (add i r.held) r.states a

pub run-Agrees : (os : List Operation) → Agrees (run os) (log os)
unfolding run step log lookup
run-Agrees [] = record {
  counts = refl;
  unique = tt;
  shows = λ k. refl;
  guarded = λ k i e. absurd (ground arith);
  numbered = λ i g e. absurd (ground arith);
  gone = λ i n h. absurd (omega arith);
  past = λ i e. absurd (ground arith);
}
run-Agrees (begins key deadline ∷ os) = begin-Agrees key deadline (run os) (log os) (run-Agrees os)
run-Agrees (ends i ∷ os) = end-Agrees i (run os) (log os) (run-Agrees os)
run-Agrees (holds key ∷ os) =
    hold-Agrees (find_activation key (run os)) (run os) (log os) (run-Agrees os)
run-Agrees (releases i ∷ os) =
    other-Agrees (run os) (log os) (delete i (run os).held) (run os).states (run-Agrees os)
run-Agrees (touches i t ∷ os) =
    other-Agrees (run os) (log os) (run os).held
      (set_state i (touch t ((run os).states i)) (run os).states) (run-Agrees os)

-- After any sequence of operations, the registry of weak references finds for a connection the
-- activation that began last for it, unless that one's guard is gone, and then it finds none: it is no
-- matter which states requests still hold, and an earlier activation never comes back.
pub finds_current :
    (os : List Operation) (key : Key) → find_activation key (run os) ≡ current key (log os).events
finds_current os key = let a = run-Agrees os in find_shown (run os) (log os) key a ∙ a.shows key
