-- ===== src/Portal/Ledger/Exclusive.antt =====
-- At most one launch is live: not complete and not expired. The clock may stand still, not run back.
use nm_daemon.Base.{
  ℕ, ◌+◌, ◌≤◌, String, Bool, true, false, ◌≡◌, refl, inl, inr, some, [], ◌∷◌, arith, or_else, ok,
  any, Option-cases, string_eq,
}
use nm_daemon.Base.Map.{Map, lookup, insert}
use nm_daemon.Portal.Intents.{Intent}
use nm_daemon.Portal.Ledger.{
  Launch, Episode, Ledger, System, Storage, Outcome, File, missing, broken, holds, claimed,
  complete, default_state, default_episode, open_ledger, persist, with_episodes, is_live,
  find_launch, update_launch, launch, check_claim, check_complete, reserved_entry, reserve, claim,
  complete_launch,
}
use nm_daemon.Portal.Ledger.Launches.{persist-Persists}

abbrev pub to_ℕ : Bool → ℕ
to_ℕ true = 1
to_ℕ false = 0

-- How many entries hold a live launch.
abbrev pub live_count : ℕ → Map String Episode → ℕ
live_count now [] = 0
live_count now ((k, e) ∷ m) = to_ℕ (is_live now e.launch) + live_count now m

live_count_mono : (t now : ℕ) (m : Map String Episode) → t ≤ now → live_count now m ≤ live_count t m
live_count_mono t now [] h = omega arith
live_count_mono t now ((k, e) ∷ m) h = ground (arith, live_count_mono t now m)

live_count-any :
    (now : ℕ) (m : Map String Episode)
    → any (λ p. is_live now (p.1).launch) m ≡ false
    → live_count now m ≡ 0
live_count-any now [] h = refl
live_count-any now ((k, e) ∷ m) h = ground (arith, live_count-any now m)

live_count-insert :
    (now : ℕ) (k : String) (e : Episode) (m : Map String Episode)
    → live_count now (insert k e m) ≤ live_count now m + 1
unfolding insert
live_count-insert now k e [] = ground arith
live_count-insert now k e ((j, x) ∷ m) = ground (arith, live_count-insert now k e m)

-- Writing through the found launch adds no live one, if that launch does not become live.
live_count-update :
    (now : ℕ) (id owner : String) (f : Launch → Launch) (m : Map String Episode) {l : Launch}
    → find_launch id owner m ≡ some l
    → (is_live now (some l) ≡ false → is_live now (some (f l)) ≡ false)
    → live_count now (update_launch id owner f m) ≤ live_count now m
unfolding find_launch update_launch
live_count-update now id owner f [] h k = omega arith
live_count-update now id owner f ((j, e) ∷ m) {l} h k = elim (Option-cases e.launch) [
  | inl q ↦ ground (arith, live_count-update now id owner f m {l = l})
  | inr (x, q) ↦ ground (arith, live_count-update now id owner f m {l = l})
]

abbrev file_count : ℕ → File → ℕ
file_count now (holds st) = live_count now st.episodes
file_count now missing = 0
file_count now broken = 0

-- A system and the time of its last operation.
pub record Timed : Type 0 where
  pub system : System
  pub clock : ℕ

pub record IsExclusive (w : Timed) : Type 0 where
  pub in_memory : live_count w.clock w.system.ledger.state.episodes ≤ 1
  pub in_file : file_count w.clock w.system.disk ≤ 1

file_count_mono : (t now : ℕ) (f : File) → t ≤ now → file_count now f ≤ file_count t f
file_count_mono t now (holds st) h = live_count_mono t now st.episodes h
file_count_mono t now _ h = omega arith

later :
    (s : System) (t now : ℕ)
    → t ≤ now
    → IsExclusive (record { system = s; clock = t })
    → IsExclusive (record { system = s; clock = now })
later s t now h v =
    omega (arith, live_count_mono t now s.ledger.state.episodes h, file_count_mono t now s.disk h)

persist-IsExclusive :
    (store : Storage) (s : System) (m : Map String Episode) (now : ℕ)
    → IsExclusive (record { system = s; clock = now })
    → live_count now m ≤ 1
    → IsExclusive (record { system = (persist store (with_episodes s m)).0; clock = now })
persist-IsExclusive store s m now v h = ground (arith, persist-Persists store (with_episodes s m))

reserve-IsExclusive :
    (store : Storage) (i : Intent) (owner : String) (fallback : Bool) (now : ℕ) (s : System)
    → IsExclusive (record { system = s; clock = now })
    → IsExclusive (record { system = (reserve store i owner fallback now s).0; clock = now })
unfolding reserve
reserve-IsExclusive store i owner fallback now s v =
    let m = s.ledger.state.episodes in
    let x = reserved_entry i owner fallback (or_else (lookup i.episode m) default_episode) in
    ground (
      arith,
      live_count-any now m,
      live_count-insert now i.episode x m,
      persist-IsExclusive store s (insert i.episode x m) now v,
    )

-- The launch that `claim` or `complete` goes on with is the one that `find_launch` finds.
launch_found :
    (s : System) (id owner : String) (l : Launch)
    → launch s id owner ≡ ok l
    → find_launch id owner s.ledger.state.episodes ≡ some l
unfolding launch
launch_found s id owner l h = ground arith

claim-IsExclusive :
    (store : Storage) (id owner episode : String) (captive : Bool) (now : ℕ) (s : System)
    → IsExclusive (record { system = s; clock = now })
    → IsExclusive (record { system = (claim store id owner episode captive now s).0; clock = now })
unfolding claim check_claim launch
claim-IsExclusive store id owner episode captive now s v =
    let m = s.ledger.state.episodes in
    let f = λ (l : Launch). record l { phase = claimed } in
    elim (Option-cases (find_launch id owner m)) [
      | inl e ↦ rw (e, claim, launch) (ground arith)
      | inr (l, e) ↦
          rw (e, claim, launch)
            (ground (
              arith,
              live_count-update now id owner f m {l = l},
              persist-IsExclusive store s (update_launch id owner f m) now v,
            ))
    ]

complete-IsExclusive :
    (store : Storage) (id owner : String) (o : Outcome) (now : ℕ) (s : System)
    → IsExclusive (record { system = s; clock = now })
    → IsExclusive (record { system = (complete_launch store id owner o s).0; clock = now })
unfolding complete_launch check_complete launch
complete-IsExclusive store id owner o now s v =
    let m = s.ledger.state.episodes in
    let f = λ (l : Launch). record l { phase = complete; outcome = some o } in
    elim (Option-cases (find_launch id owner m)) [
      | inl e ↦ rw (e, complete_launch, launch) (ground arith)
      | inr (l, e) ↦
          rw (e, complete_launch, launch)
            (ground (
              arith,
              live_count-update now id owner f m {l = l},
              persist-IsExclusive store s (update_launch id owner f m) now v,
            ))
    ]

pub data Step (w : Timed) : Timed → Type 0 where
  reserves :
      (store : Storage) (i : Intent) (owner : String) (fallback : Bool) (now : ℕ)
      → w.clock ≤ now
      → Step w (record { system = (reserve store i owner fallback now w.system).0; clock = now })
  claims :
      (store : Storage) (id owner episode : String) (captive : Bool) (now : ℕ)
      → w.clock ≤ now
      → Step w
          (record { system = (claim store id owner episode captive now w.system).0; clock = now })
  completes :
      (store : Storage) (id owner : String) (o : Outcome)
      → Step w (record w { system = (complete_launch store id owner o w.system).0 })
  restarts :
      (l : Ledger)
      → open_ledger (w.system.disk) ≡ ok l
      → Step w (record w { system = record { ledger = l; disk = w.system.disk } })

pub data Reach (w : Timed) : Timed → Type 0 where
  here : Reach w w
  next : {u v : Timed} → Reach w u → Step u v → Reach w v

abbrev pub first_start : ℕ → Timed
first_start now = record {
  system = record { ledger = record { state = default_state; poisoned = false }; disk = missing };
  clock = now;
}

open-live_count :
    (now : ℕ) (f : File) (l : Ledger)
    → open_ledger f ≡ ok l
    → live_count now l.state.episodes ≡ file_count now f
unfolding open_ledger
open-live_count now missing l h = ground arith
open-live_count now broken l h = ground arith
open-live_count now (holds st) l h = ground arith

Step-IsExclusive : {w u : Timed} → Step w u → IsExclusive w → IsExclusive u
Step-IsExclusive {w} (reserves store i owner fallback now h) v =
    reserve-IsExclusive store i owner fallback now w.system (later w.system w.clock now h v)
Step-IsExclusive {w} (claims store id owner episode captive now h) v =
    claim-IsExclusive store id owner episode captive now w.system (later w.system w.clock now h v)
Step-IsExclusive {w} (completes store id owner o) v =
    complete-IsExclusive store id owner o w.clock w.system v
Step-IsExclusive {w} (restarts l h) v = omega (arith, open-live_count w.clock w.system.disk l h)

-- From a missing state file, over every history whose clock does not run back, whichever writes
-- fail: at most one launch in memory, and at most one in the file, is neither complete nor expired
-- at the time of the last operation.
pub one_live_launch : (start : ℕ) (w : Timed) → Reach (first_start start) w → IsExclusive w
one_live_launch start w here = omega arith
one_live_launch start w (next {u} r s) = Step-IsExclusive s (one_live_launch start u r)
