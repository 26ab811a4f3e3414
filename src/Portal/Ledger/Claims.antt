-- ===== src/Portal/Ledger/Claims.antt =====
-- Who gets to open a launch, how often, and how a completion is repeated.
use nm_daemon.Base.{
  ℕ, ◌<◌, String, Bool, true, false, ◌≡◌, refl, ◌≢◌, ◌⊎◌, inl, inr, some, [], ◌∷◌, arith, ◌&&◌,
  ◌||◌, not, ltb, ◌==◌, ok, err, Bool-cases, Option-cases, string_eq,
}
use text.Mathlib.TextEquality.{eq_iff}
use nm_daemon.Base.Map.{Map}
use nm_daemon.Portal.Intents.{
  manual, Intent, PortalError, claimed_or_expired, not_claimed, connection_changed, is_automatic,
}
use nm_daemon.Portal.Ledger.{
  Launch, Episode, System, Storage, Outcome, reserved, claimed, complete, outcome_beq, persist,
  with_episodes, is_reserved, find_launch, update_launch, launch, check_claim, check_complete,
  claim, complete_launch,
}
use nm_daemon.Portal.Ledger.Launches.{persist-Persists}

find_launch_named :
    (id owner : String) (m : Map String Episode) {l : Launch}
    → find_launch id owner m ≡ some l
    → (l.intent.launch_id ≡ id) × (l.owner ≡ owner)
unfolding find_launch
find_launch_named id owner [] h = ground arith
find_launch_named id owner ((k, e) ∷ m) {l} h = elim (Option-cases e.launch) [
  | inl q ↦ ground (arith, find_launch_named id owner m {l = l})
  | inr (x, q) ↦ ground (
    arith,
    find_launch_named id owner m {l = l},
    eq_iff x.intent.launch_id id,
    eq_iff x.owner owner,
  )
]

-- What was written through the reference is what the next call finds, if id and owner stay.
find_launch-update :
    (id owner : String) (f : Launch → Launch) (m : Map String Episode) {l : Launch}
    → find_launch id owner m ≡ some l
    → (f l).intent.launch_id ≡ id
    → (f l).owner ≡ owner
    → find_launch id owner (update_launch id owner f m) ≡ some (f l)
unfolding find_launch update_launch
find_launch-update id owner f [] h p q = ground arith
find_launch-update id owner f ((k, e) ∷ m) {l} h p q = elim (Option-cases e.launch) [
  | inl z ↦ ground (arith, find_launch-update id owner f m {l = l})
  | inr (x, z) ↦ ground (
    arith,
    find_launch-update id owner f m {l = l},
    eq_iff ((f x).intent.launch_id) id,
    eq_iff ((f x).owner) owner,
  )
]

-- A launch that may be opened: reserved under this id by this caller, not expired, for the
-- connection that is still there, and asked for by hand or still captive.
pub record MayClaim (id owner episode : String) (captive : Bool) (now : ℕ) (l : Launch)
    : Type 0 where
  pub same_id : l.intent.launch_id ≡ id
  pub same_owner : l.owner ≡ owner
  pub is_new : l.phase ≡ reserved
  pub unexpired : now < l.intent.expires_at_ms
  pub same_episode : l.intent.episode ≡ episode
  pub wanted : (l.intent.reason ≡ manual) ⊎ (captive ≡ true)

check_claim_cases :
    (episode : String) (captive : Bool) (now : ℕ) (l : Launch)
    → ((e : PortalError) × (check_claim episode captive now l ≡ err e))
      ⊎ ((check_claim episode captive now l ≡ ok l)
          × (l.phase ≡ reserved)
          × (now < l.intent.expires_at_ms)
          × (l.intent.episode ≡ episode)
          × ((l.intent.reason ≡ manual) ⊎ (captive ≡ true)))
unfolding check_claim
check_claim_cases episode captive now l =
    elim (Bool-cases (is_reserved l.phase && ltb now l.intent.expires_at_ms)) [
      | inl p ↦
          elim (Bool-cases
            (l.intent.episode == episode && (not (is_automatic l.intent.reason) || captive))) [
              | inl q ↦ inr (ground (arith, eq_iff l.intent.episode episode))
              | inr q ↦ inl (connection_changed, ground arith)
            ]
      | inr p ↦ inl (claimed_or_expired, ground arith)
    ]

abbrev mark_claimed : Launch → Launch
mark_claimed l = record l { phase = claimed }

-- What a successful `claim` found and left behind.
record Claimed (id owner episode : String) (captive : Bool) (now : ℕ) (s t : System) (i : Intent)
    (l : Launch) : Type 0 where
  found : find_launch id owner s.ledger.state.episodes ≡ some l
  may : MayClaim id owner episode captive now l
  intent : i ≡ l.intent
  left : find_launch id owner t.ledger.state.episodes ≡ some (mark_claimed l)
  sound : t.ledger.poisoned ≡ false

claim_ok :
    (store : Storage) (id owner episode : String) (captive : Bool) (now : ℕ) (s : System)
    (i : Intent)
    → (claim store id owner episode captive now s).1 ≡ ok i
    → (l : Launch) × Claimed id owner episode captive now s
        (claim store id owner episode captive now s).0
        i
        l
unfolding claim launch
claim_ok store id owner episode captive now s i h =
    let m = s.ledger.state.episodes in
    let t = with_episodes s (update_launch id owner mark_claimed m) in
    elim (Option-cases (find_launch id owner m)) [
      | inl e ↦ absurd (ground arith)
      | inr (l, e) ↦ (
        l,
        ground (
          arith,
          persist-Persists store t,
          check_claim_cases episode captive now l,
          find_launch_named id owner m {l = l},
          find_launch-update id owner mark_claimed m {l = l},
        ),
      )
    ]

-- A claim that succeeds hands out the intent of a launch that was reserved under the same id by the
-- same caller, has not expired, belongs to the present connection, and is manual or still captive.
pub claim-MayClaim :
    (store : Storage) (id owner episode : String) (captive : Bool) (now : ℕ) (s : System)
    (i : Intent)
    → (claim store id owner episode captive now s).1 ≡ ok i
    → (l : Launch) × (find_launch id owner s.ledger.state.episodes ≡ some l)
      × MayClaim id owner episode captive now l
      × (i ≡ l.intent)
claim-MayClaim store id owner episode captive now s i h =
    let (l, c) = claim_ok store id owner episode captive now s i h in (l, c.found, c.may, c.intent)

launch-of-found :
    (s : System) (id owner : String) (l : Launch)
    → find_launch id owner s.ledger.state.episodes ≡ some l
    → s.ledger.poisoned ≡ false
    → launch s id owner ≡ ok l
unfolding launch
launch-of-found s id owner l f p = ground arith

claim_again_err :
    (store : Storage) (id owner episode : String) (captive : Bool) (now : ℕ) (s : System)
    (l : Launch)
    → find_launch id owner s.ledger.state.episodes ≡ some (mark_claimed l)
    → s.ledger.poisoned ≡ false
    → claim store id owner episode captive now s ≡ (s, err claimed_or_expired)
unfolding claim check_claim
claim_again_err store id owner episode captive now s l f p =
    rw (launch-of-found s id owner (mark_claimed l) f p, claim)

-- After a claim that succeeded, the caller's next claim of the same launch is refused as already
-- claimed, at any time, for any connection, whatever the storage does, and changes nothing.
claim_once :
    (store again : Storage) (id owner episode episode' : String) (captive captive' : Bool)
    (now now' : ℕ) (s : System) (i : Intent)
    → (claim store id owner episode captive now s).1 ≡ ok i
    → let t = (claim store id owner episode captive now s).0 in
      claim again id owner episode' captive' now' t ≡ (t, err claimed_or_expired)
claim_once store again id owner episode episode' captive captive' now now' s i h =
    let (l, c) = claim_ok store id owner episode captive now s i h in
    claim_again_err again id owner episode' captive' now' _ l c.left c.sound

abbrev mark_complete : Outcome → Launch → Launch
mark_complete o l = record l { phase = complete; outcome = some o }

-- What a successful completion found and left behind.
record Completed (id owner : String) (o : Outcome) (s t : System) (l : Launch) : Type 0 where
  found : find_launch id owner s.ledger.state.episodes ≡ some l
  was : (l.phase ≡ claimed) ⊎ ((l.phase ≡ complete) × (l.outcome ≡ some o))
  left : find_launch id owner t.ledger.state.episodes ≡ some (mark_complete o l)
  sound : t.ledger.poisoned ≡ false

outcome_beq_eq : (o p : Outcome) → outcome_beq o p ≡ true → o ≡ p
outcome_beq_eq o p h = ground arith

outcome_beq_refl : (o : Outcome) → outcome_beq o o ≡ true
outcome_beq_refl o = ground arith

check_complete_cases :
    (o : Outcome) (l : Launch)
    → (check_complete o l ≡ err not_claimed)
      ⊎ ((check_complete o l ≡ ok l)
          × ((l.phase ≡ claimed) ⊎ ((l.phase ≡ complete) × (l.outcome ≡ some o))))
unfolding check_complete
check_complete_cases o l = elim (Option-cases l.outcome) [
  | inl q ↦ ground arith
  | inr (p, q) ↦ ground (arith, outcome_beq_eq p o)
]

complete_ok :
    (store : Storage) (id owner : String) (o : Outcome) (s : System)
    → (complete_launch store id owner o s).1 ≡ ok tt
    → (l : Launch) × Completed id owner o s (complete_launch store id owner o s).0 l
unfolding complete_launch launch
complete_ok store id owner o s h =
    let m = s.ledger.state.episodes in
    let t = with_episodes s (update_launch id owner (mark_complete o) m) in
    elim (Option-cases (find_launch id owner m)) [
      | inl e ↦ absurd (ground arith)
      | inr (l, e) ↦ (
        l,
        ground (
          arith,
          persist-Persists store t,
          check_complete_cases o l,
          find_launch_named id owner m {l = l},
          find_launch-update id owner (mark_complete o) m {l = l},
        ),
      )
    ]

-- A completion is refused unless the launch was claimed, or was completed with the same outcome.
complete_needs_claim :
    (store : Storage) (id owner : String) (o : Outcome) (s : System)
    → (complete_launch store id owner o s).1 ≡ ok tt
    → (l : Launch) × (find_launch id owner s.ledger.state.episodes ≡ some l)
      × ((l.phase ≡ claimed) ⊎ ((l.phase ≡ complete) × (l.outcome ≡ some o)))
complete_needs_claim store id owner o s h =
    let (l, c) = complete_ok store id owner o s h in (l, c.found, c.was)

complete_conflict :
    (store : Storage) (id owner : String) (o p : Outcome) (s : System) (l : Launch)
    → find_launch id owner s.ledger.state.episodes ≡ some (mark_complete o l)
    → s.ledger.poisoned ≡ false
    → o ≢ p
    → complete_launch store id owner p s ≡ (s, err not_claimed)
unfolding complete_launch check_complete
complete_conflict store id owner o p s l f c n =
    rw (launch-of-found s id owner (mark_complete o l) f c, complete_launch)
      (ground (arith, outcome_beq_eq o p))

update_again :
    (id owner : String) (f : Launch → Launch) (m : Map String Episode) {l : Launch}
    → find_launch id owner m ≡ some l
    → f l ≡ l
    → update_launch id owner f m ≡ m
unfolding find_launch update_launch
update_again id owner f [] h p = refl
update_again id owner f ((k, e) ∷ m) {l} h p = elim (Option-cases e.launch) [
  | inl z ↦ ground (arith, update_again id owner f m {l = l})
  | inr (x, z) ↦ ground (arith, update_again id owner f m {l = l})
]

complete_repeat :
    (store : Storage) (id owner : String) (o : Outcome) (s : System) (l : Launch)
    → find_launch id owner s.ledger.state.episodes ≡ some (mark_complete o l)
    → s.ledger.poisoned ≡ false
    → complete_launch store id owner o s ≡ persist store s
unfolding complete_launch check_complete
complete_repeat store id owner o s l f c =
    rw (launch-of-found s id owner (mark_complete o l) f c, complete_launch, outcome_beq_refl o)
      (rw (update_again id owner (mark_complete o) s.ledger.state.episodes f refl))

-- After a completion that succeeded, repeating it with the same outcome only writes the same state
-- once more, and completing with another outcome is refused and changes nothing.
pub completion_final :
    (store again : Storage) (id owner : String) (o p : Outcome) (s : System)
    → (complete_launch store id owner o s).1 ≡ ok tt
    → o ≢ p
    → let t = (complete_launch store id owner o s).0 in
      (complete_launch again id owner o t ≡ persist again t)
      × (complete_launch again id owner p t ≡ (t, err not_claimed))
completion_final store again id owner o p s h n =
    let (l, c) = complete_ok store id owner o s h in
    (
      complete_repeat again id owner o _ l c.left c.sound,
      complete_conflict again id owner o p _ l c.left c.sound n,
    )
