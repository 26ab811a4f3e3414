-- ===== src/Portal/Ledger/Limits.antt =====
-- The bound on the entries, and the ledger after a failed write.
use nm_daemon.Base.{
  ℕ, ◌+◌, ◌≤◌, String, Bool, true, ◌≡◌, refl, ap, List, Option, none, some, [], ◌∷◌, arith, or_else,
  Result, ok, err, length, string_eq,
}
use nm_daemon.Base.Map.{Map, lookup, insert, contains}
use nm_daemon.Portal.Intents.{Intent, PortalError, unavailable}
use nm_daemon.Portal.Ledger.{
  Launch, Episode, Ledger, System, Storage, Outcome, File, missing, broken, holds, claimed,
  complete, limit, default_episode, open_ledger, persist, put_episode, with_episodes, update_launch,
  launch, reserved_entry, reserve, claim, complete_launch,
}
use nm_daemon.Portal.Ledger.Launches.{persist-Persists}

length-insert :
    (k : String) (e : Episode) (m : Map String Episode) → length (insert k e m) ≤ length m + 1
unfolding insert
length-insert k e [] = omega arith
length-insert k e ((j, x) ∷ m) = ground (arith, length-insert k e m)

length-insert_old :
    (k : String) (e : Episode) (m : Map String Episode)
    → contains k m ≡ true
    → length (insert k e m) ≡ length m
unfolding lookup insert
length-insert_old k e [] h = ground arith
length-insert_old k e ((j, x) ∷ m) h = ground (arith, length-insert_old k e m)

length-update_launch :
    (id owner : String) (f : Launch → Launch) (m : Map String Episode)
    → length (update_launch id owner f m) ≡ length m
unfolding update_launch
length-update_launch id owner f [] = refl
length-update_launch id owner f ((k, e) ∷ m) = ground (arith, length-update_launch id owner f m)

abbrev pub size : System → ℕ
size s = length (s.ledger.state.episodes)

size-persist : (store : Storage) (s : System) → size (persist store s).0 ≡ size s
size-persist store s = ap (λ st. length (st.episodes)) (persist-Persists store s).same_state

reserve-bounded :
    (store : Storage) (i : Intent) (owner : String) (fallback : Bool) (now : ℕ) (s : System)
    → size s ≤ limit
    → size (reserve store i owner fallback now s).0 ≤ limit
unfolding reserve
reserve-bounded store i owner fallback now s h =
    let m = s.ledger.state.episodes in
    let x = reserved_entry i owner fallback (or_else (lookup i.episode m) default_episode) in
    ground (
      arith,
      size-persist store (put_episode s i.episode x),
      length-insert i.episode x m,
      length-insert_old i.episode x m,
    )

claim-size :
    (store : Storage) (id owner episode : String) (captive : Bool) (now : ℕ) (s : System)
    → size (claim store id owner episode captive now s).0 ≡ size s
unfolding claim
claim-size store id owner episode captive now s =
    let f = λ (l : Launch). record l { phase = claimed } in
    let m = s.ledger.state.episodes in
    ground (
      arith,
      size-persist store (with_episodes s (update_launch id owner f m)),
      length-update_launch id owner f m,
    )

complete-size :
    (store : Storage) (id owner : String) (o : Outcome) (s : System)
    → size (complete_launch store id owner o s).0 ≡ size s
unfolding complete_launch
complete-size store id owner o s =
    let f = λ (l : Launch). record l { phase = complete; outcome = some o } in
    let m = s.ledger.state.episodes in
    ground (
      arith,
      size-persist store (with_episodes s (update_launch id owner f m)),
      length-update_launch id owner f m,
    )

open-bounded : (f : File) (l : Ledger) → open_ledger f ≡ ok l → length (l.state.episodes) ≤ limit
unfolding open_ledger
open-bounded missing l h = ground arith
open-bounded broken l h = ground arith
open-bounded (holds st) l h = ground arith

-- One call of the ledger, with all its arguments.
pub data Call : Type 0 where
  reserves : Storage → Intent → String → Bool → ℕ → Call
  claims : Storage → String → String → String → Bool → ℕ → Call
  completes : Storage → String → String → Outcome → Call

-- The system after the call, and the error if it failed.
abbrev pub after : System → Call → System
after s (reserves store i owner fallback now) = (reserve store i owner fallback now s).0
after s (claims store id owner episode captive now) = (claim store id owner episode captive now s).0
after s (completes store id owner o) = (complete_launch store id owner o s).0

abbrev failure {ℓ} : {A : Type ℓ} → Result PortalError A → Option PortalError
failure (ok a) = none
failure (err e) = some e

abbrev pub error_of : System → Call → Option PortalError
error_of s (reserves store i owner fallback now) = failure (reserve store i owner fallback now s).1
error_of s (claims store id owner episode captive now) =
    failure (claim store id owner episode captive now s).1
error_of s (completes store id owner o) = failure (complete_launch store id owner o s).1

abbrev pub after_all : System → List Call → System
after_all s [] = s
after_all s (c ∷ cs) = after_all (after s c) cs

after-bounded : (s : System) (c : Call) → size s ≤ limit → size (after s c) ≤ limit
after-bounded s (reserves store i owner fallback now) h =
    reserve-bounded store i owner fallback now s h
after-bounded s (claims store id owner episode captive now) h =
    omega (arith, claim-size store id owner episode captive now s)
after-bounded s (completes store id owner o) h = omega (arith, complete-size store id owner o s)

after_all-bounded : (s : System) (cs : List Call) → size s ≤ limit → size (after_all s cs) ≤ limit
after_all-bounded s [] h = h
after_all-bounded s (c ∷ cs) h = after_all-bounded (after s c) cs (after-bounded s c h)

-- Whatever the file held, a ledger that opened from it never holds more than 1024 episodes, after
-- any calls in any order, whichever of them fail.
pub episodes_bounded :
    (f g : File) (l : Ledger) (cs : List Call)
    → open_ledger f ≡ ok l
    → size (after_all (record { ledger = l; disk = g }) cs) ≤ limit
episodes_bounded f g l cs h =
    after_all-bounded (record { ledger = l; disk = g }) cs (open-bounded f l h)

after_poisoned :
    (s : System) (c : Call)
    → s.ledger.poisoned ≡ true
    → (after s c ≡ s) × (error_of s c ≡ some unavailable)
unfolding reserve claim complete_launch launch
after_poisoned s (reserves store i owner fallback now) h = ground arith
after_poisoned s (claims store id owner episode captive now) h = ground arith
after_poisoned s (completes store id owner o) h = ground arith

-- Once a write failed, every further call of every kind is refused with the same error, and changes
-- neither the memory nor the file.
poisoned_refuses :
    (s : System) (cs : List Call) (c : Call)
    → s.ledger.poisoned ≡ true
    → (after_all s cs ≡ s) × (error_of (after_all s cs) c ≡ some unavailable)
poisoned_refuses s [] c h = (refl, (after_poisoned s c h).1)
poisoned_refuses s (d ∷ cs) c h = rw (after_poisoned s d h).0 (poisoned_refuses s cs c h)
