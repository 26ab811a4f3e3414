-- ===== src/Portal/Ledger/Replay.antt =====
-- No automatic launch is replayed: not by a second caller, not after a failed write, and not after a
-- restart of the daemon.
use nm_daemon.Base.{
  ℕ, String, Bool, true, false, ◌≡◌, refl, sym, ap, ◌∙◌, ◌≢◌, inl, inr, Option, none, some, List,
  [], ◌∷◌, arith, if◌then◌else◌, or_else, Result, ok, err, All, All-map, Distinct, Bool-cases,
  string_eq,
}
use mathlib.Core.Bool.{false≢true}
use nm_daemon.Base.Map.{lookup}
use nm_daemon.Portal.Intents.{Intent, is_automatic, PortalError}
use nm_daemon.Portal.Ledger.{
  Launch, Ledger, System, Storage, Outcome, File, missing, broken, holds, claimed, complete,
  default_state, default_episode, open_ledger, persist, attempted, put_episode, with_episodes,
  update_launch, reserved_entry, reserve, claim, complete_launch,
}
use nm_daemon.Portal.Ledger.Launches.{
  filed, persist-Persists, attempted-update_launch, attempted-insert, attempted-insert_self,
}

-- A system with the episodes whose automatic launch went out, newest first.
pub record World : Type 0 where
  pub system : System
  pub issued : List String

-- What a caller of `reserve` was handed.
abbrev pub hand_out : Intent → Result PortalError (Option Intent) → List String → List String
hand_out i (ok (some j)) issued = if is_automatic i.reason then i.episode ∷ issued else issued
hand_out i (ok none) issued = issued
hand_out i (err e) issued = issued

abbrev after_reserve : Intent → System × Result PortalError (Option Intent) → World → World
after_reserve i (s, r) w = record { system = s; issued = hand_out i r w.issued }

pub data Step (w : World) : World → Type 0 where
  reserves :
      (store : Storage) (i : Intent) (owner : String) (fallback : Bool) (now : ℕ)
      → Step w (after_reserve i (reserve store i owner fallback now w.system) w)
  claims :
      (store : Storage) (id owner episode : String) (captive : Bool) (now : ℕ)
      → Step w (record w { system = (claim store id owner episode captive now w.system).0 })
  completes :
      (store : Storage) (id owner : String) (o : Outcome)
      → Step w (record w { system = (complete_launch store id owner o w.system).0 })
  restarts :
      (l : Ledger)
      → open_ledger (w.system.disk) ≡ ok l
      → Step w (record w { system = record { ledger = l; disk = w.system.disk } })

pub data Reach (w : World) : World → Type 0 where
  here : Reach w w
  next : {u v : World} → Reach w u → Step u v → Reach w v

-- A daemon that starts with no state file.
abbrev pub first_start : World
first_start = record {
  system = record { ledger = record { state = default_state; poisoned = false }; disk = missing };
  issued = [];
}

-- The memory and the file both know that the automatic launch of `e` was attempted.
abbrev Marked : System → String → Type 0
Marked s e = (attempted (lookup e s.ledger.state.episodes) ≡ true) × (filed e s.disk ≡ true)

persist-Marked :
    (store : Storage) (s t : System) (e : String)
    → Marked s e
    → attempted (lookup e t.ledger.state.episodes) ≡ true
    → t.disk ≡ s.disk
    → Marked (persist store t).0 e
persist-Marked store s t e (_, f) h d = ground (arith, persist-Persists store t)

reserve-Marked :
    (store : Storage) (i : Intent) (owner : String) (fallback : Bool) (now : ℕ) (s : System)
    (e : String)
    → Marked s e
    → Marked (reserve store i owner fallback now s).0 e
unfolding reserve
reserve-Marked store i owner fallback now s e m =
    let entry = or_else (lookup i.episode s.ledger.state.episodes) default_episode in
    let t = put_episode s i.episode (reserved_entry i owner fallback entry) in
    ground (
      arith,
      persist-Marked store s t e m (attempted-insert e owner i fallback s.ledger.state.episodes m.0)
          refl,
    )

-- A launch that goes out was not attempted before, and is recorded on both sides.
reserve_issues :
    (store : Storage) (i j : Intent) (owner : String) (fallback : Bool) (now : ℕ) (s : System)
    → is_automatic i.reason ≡ true
    → (reserve store i owner fallback now s).1 ≡ ok (some j)
    → (attempted (lookup i.episode s.ledger.state.episodes) ≡ false)
      × Marked (reserve store i owner fallback now s).0 i.episode
unfolding reserve
reserve_issues store i j owner fallback now s a h =
    let entry = or_else (lookup i.episode s.ledger.state.episodes) default_episode in
    let t = put_episode s i.episode (reserved_entry i owner fallback entry) in
    ground (
      arith,
      persist-Persists store t,
      attempted-insert_self owner i fallback entry s.ledger.state.episodes a,
    )

claim-Marked :
    (store : Storage) (id owner episode : String) (captive : Bool) (now : ℕ) (s : System)
    (e : String)
    → Marked s e
    → Marked (claim store id owner episode captive now s).0 e
unfolding claim
claim-Marked store id owner episode captive now s e m =
    let f = λ (l : Launch). record l { phase = claimed } in
    let t = with_episodes s (update_launch id owner f s.ledger.state.episodes) in
    ground (
      arith,
      attempted-update_launch e id owner f s.ledger.state.episodes,
      persist-Persists store t,
    )

complete-Marked :
    (store : Storage) (id owner : String) (o : Outcome) (s : System) (e : String)
    → Marked s e
    → Marked (complete_launch store id owner o s).0 e
unfolding complete_launch
complete-Marked store id owner o s e m =
    let f = λ (l : Launch). record l { phase = complete; outcome = some o } in
    let t = with_episodes s (update_launch id owner f s.ledger.state.episodes) in
    ground (
      arith,
      attempted-update_launch e id owner f s.ledger.state.episodes,
      persist-Persists store t,
    )

-- What the file records is in the memory that `open` reads from it.
open-Marked :
    (f : File) (l : Ledger) (e : String)
    → open_ledger f ≡ ok l
    → filed e f ≡ true
    → attempted (lookup e l.state.episodes) ≡ true
unfolding open_ledger
open-Marked missing l e h k = ground arith
open-Marked broken l e h k = ground arith
open-Marked (holds st) l e h k = ground arith

record Inv (w : World) : Type 0 where
  marked : All (Marked w.system) w.issued
  distinct : Distinct w.issued

fresh-of-Marked :
    (s : System) (e : String) (xs : List String)
    → attempted (lookup e s.ledger.state.episodes) ≡ false
    → All (Marked s) xs
    → All (λ x. x ≢ e) xs
fresh-of-Marked s e xs h =
    All-map
      (λ x m p.
        false≢true (sym h ∙ ap (λ y. attempted (lookup y s.ledger.state.episodes)) (sym p) ∙ m.0))
      xs

hand_out-Inv :
    (store : Storage) (i : Intent) (owner : String) (fallback : Bool) (now : ℕ) (w : World)
    (r : Result PortalError (Option Intent))
    → (reserve store i owner fallback now w.system).1 ≡ r
    → Inv w
    → let t = (reserve store i owner fallback now w.system).0 in
      All (Marked t) (hand_out i r w.issued) × Distinct (hand_out i r w.issued)
hand_out-Inv store i owner fallback now w (err x) h v = (
  All-map (λ e. reserve-Marked store i owner fallback now w.system e) w.issued v.marked,
  v.distinct,
)
hand_out-Inv store i owner fallback now w (ok none) h v = (
  All-map (λ e. reserve-Marked store i owner fallback now w.system e) w.issued v.marked,
  v.distinct,
)
hand_out-Inv store i owner fallback now w (ok (some j)) h v =
    let kept =
      All-map (λ e. reserve-Marked store i owner fallback now w.system e) w.issued v.marked in
    elim (Bool-cases (is_automatic i.reason)) [
      | inl a ↦
          let new = reserve_issues store i j owner fallback now w.system a h in
          rw a (
            (
              (new.1, kept),
              (fresh-of-Marked w.system i.episode w.issued new.0 v.marked, v.distinct),
            ))
      | inr a ↦ rw a ((kept, v.distinct))
    ]

Step-Inv : {w u : World} → Step w u → Inv w → Inv u
Step-Inv {w} (reserves store i owner fallback now) v =
    let r = hand_out-Inv store i owner fallback now w _ refl v in
    record { marked = r.0; distinct = r.1 }
Step-Inv {w} (claims store id owner episode captive now) v = record {
  marked =
      All-map (λ e. claim-Marked store id owner episode captive now w.system e) w.issued v.marked;
  distinct = v.distinct;
}
Step-Inv {w} (completes store id owner o) v = record {
  marked = All-map (λ e. complete-Marked store id owner o w.system e) w.issued v.marked;
  distinct = v.distinct;
}
Step-Inv {w} (restarts l h) v = record {
  marked = All-map (λ e m. (open-Marked w.system.disk l e h m.1, m.1)) w.issued v.marked;
  distinct = v.distinct;
}

Reach-Inv : {w : World} → Reach first_start w → Inv w
Reach-Inv here = record { marked = tt; distinct = tt }
Reach-Inv (next r s) = Step-Inv s (Reach-Inv r)

-- Over every history of reservations, claims, completions and restarts from a missing state file,
-- whatever the encoder does and whichever writes fail or commit, no episode's automatic launch is
-- handed out twice.
pub automatic_once : (w : World) → Reach first_start w → Distinct w.issued
automatic_once w r = (Reach-Inv r).distinct
