-- ===== src/Runtime/Admission/Guards.antt =====
-- `ConnectAttempts` and `ConnectAttemptGuard`: the guards that are out, over every history.
use nm_daemon.Base.{
  ℕ, String, Bool, false, ◌||◌, ◌≡◌, ◌≢◌, refl, ◌∙◌, sym, inl, inr, Option, List, [], ◌∷◌, ◌++◌,
  arith, ◌==◌, Result, ok, err, Result-cases, ◌⊎◌, All, Distinct, string_eq,
}
use text.Mathlib.TextEquality.{eq_iff}
use nm_daemon.Base.Sets.{has, add, delete, has-add, has-delete, has-All}
use nm_daemon.Model.Failures.{ConnectFailureReason}
use nm_daemon.Runtime.Admission.{
  ConnectAttemptKey, ConnectAttemptPolicy, ConnectAdmission, default_policy, admit, expire, abandon,
  complete,
}

-- The policy with the guards that callers hold, in the order in which they were handed out, newest
-- first.
pub record Attempts : Type 0 where
  pub policy : ConnectAttemptPolicy
  pub guards : List ConnectAttemptKey

-- `begin` hands out a guard where `admit` agrees.
abbrev hand_out :
    ConnectAttemptKey
    → Result ConnectAdmission (Unit {0})
    → List ConnectAttemptKey
    → List ConnectAttemptKey
hand_out a (ok u) gs = a ∷ gs
hand_out a (err e) gs = gs

unfoldable pub begin : ConnectAttemptKey → ℕ → Attempts → Attempts
begin a now s =
    let (p, r) = admit a now s.policy in record { policy = p; guards = hand_out a r s.guards }

-- A guard leaves by `finish`, or by `drop`, which runs on every path that skips `finish`.
pub data Step (s : Attempts) : Attempts → Type 0 where
  begins : (a : ConnectAttemptKey) (now : ℕ) → Step s (begin a now s)
  finishes :
      (a : ConnectAttemptKey) (before after : List ConnectAttemptKey)
      (reason : Option ConnectFailureReason) (succeeded : Bool) (now : ℕ)
      → s.guards ≡ before ++ (a ∷ after)
      → Step s
          (record { policy = complete a reason succeeded now s.policy; guards = before ++ after })
  drops :
      (a : ConnectAttemptKey) (before after : List ConnectAttemptKey)
      → s.guards ≡ before ++ (a ∷ after)
      → Step s (record { policy = abandon a s.policy; guards = before ++ after })

pub data Reach : Attempts → Type 0 where
  start : Reach (record { policy = default_policy; guards = [] })
  next : {s t : Attempts} → Reach s → Step s t → Reach t

abbrev pub identities : List ConnectAttemptKey → List String
identities [] = []
identities (a ∷ gs) = a.identity ∷ identities gs

record Inv (s : Attempts) : Type 0 where
  active : (k : String) → has k s.policy.active_identities ≡ has k (identities s.guards)
  distinct : Distinct (identities s.guards)

has-of-All : (k : String) (xs : List String) → All (λ x. x ≢ k) xs → has k xs ≡ false
unfolding has
has-of-All k [] h = refl
has-of-All k (x ∷ xs) (n, h) = ground (arith, eq_iff x k, has-of-All k xs h)

All-without :
    (k : String) (a : ConnectAttemptKey) (before after : List ConnectAttemptKey)
    → All (λ x. x ≢ k) (identities (before ++ (a ∷ after)))
    → All (λ x. x ≢ k) (identities (before ++ after)) × (a.identity ≢ k)
All-without k a [] after (n, h) = (h, n)
All-without k a (b ∷ before) after (n, h) =
    let (r, m) = All-without k a before after h in ((n, r), m)

-- The other guards' identities, and that the guard's own is not among them.
Distinct-without :
    (a : ConnectAttemptKey) (before after : List ConnectAttemptKey)
    → Distinct (identities (before ++ (a ∷ after)))
    → Distinct (identities (before ++ after))
      × (has a.identity (identities (before ++ after)) ≡ false)
unfolding has
Distinct-without a [] after (n, d) = (d, has-of-All a.identity (identities after) n)
Distinct-without a (b ∷ before) after (n, d) =
    let (r, h) = Distinct-without a before after d in
    let (m, ne) = All-without b.identity a before after n in
    ((m, r), ground (arith, h, eq_iff b.identity a.identity))

has-without :
    (k : String) (a : ConnectAttemptKey) (before after : List ConnectAttemptKey)
    → has k (identities (before ++ (a ∷ after)))
      ≡ (a.identity == k || has k (identities (before ++ after)))
unfolding has
has-without k a [] after = refl
has-without k a (b ∷ before) after = ground (arith, has-without k a before after)

-- What is left when one guard goes and its identity is deleted.
leave :
    (s : Attempts) (a : ConnectAttemptKey) (before after : List ConnectAttemptKey)
    (p : ConnectAttemptPolicy)
    → s.guards ≡ before ++ (a ∷ after)
    → p.active_identities ≡ delete a.identity s.policy.active_identities
    → Inv s
    → Inv (record { policy = p; guards = before ++ after })
leave s a before after p e q v =
    let d = rw e at v.distinct in
    let (r, fresh) = Distinct-without a before after d in
    record {
      active = λ k. rw q (
          rw
            (
              has-delete a.identity k s.policy.active_identities,
              v.active k,
              e,
              has-without k a before after,
            )
            (ground (arith, fresh, eq_iff a.identity k)));
      distinct = r;
    }

admit-active :
    (a : ConnectAttemptKey) (now : ℕ) (p : ConnectAttemptPolicy)
    → (((admit a now p).1 ≡ ok tt)
        × (has a.identity p.active_identities ≡ false)
        × ((admit a now p).0.active_identities ≡ add a.identity p.active_identities))
      ⊎ ((e : ConnectAdmission) × ((admit a now p).1 ≡ err e)
          × ((admit a now p).0.active_identities ≡ p.active_identities))
unfolding admit expire
admit-active a now p = elim (Result-cases (admit a now p).1) [
  | inl (u, h) ↦ inl (ground arith)
  | inr (e, h) ↦ inr (e, h, ground arith)
]

begin-Inv : (s : Attempts) (a : ConnectAttemptKey) (now : ℕ) → Inv s → Inv (begin a now s)
unfolding begin
begin-Inv s a now v = elim (admit-active a now s.policy) [
  | inl (e, f, q) ↦
      rw (e, begin)
        (record {
          active = λ k.
              rw (q, has-add a.identity k s.policy.active_identities, v.active k)
                (unfold has in refl);
          distinct = (
            has-All a.identity (identities s.guards) (sym (v.active a.identity) ∙ f),
            v.distinct,
          );
        })
  | inr (x, e, q) ↦
      rw (e, begin) (record { active = λ k. rw q (v.active k); distinct = v.distinct })
]

Step-Inv : {s t : Attempts} → Step s t → Inv s → Inv t
unfolding complete abandon
Step-Inv {s} (begins a now) v = begin-Inv s a now v
Step-Inv {s} (finishes a before after reason succeeded now e) v =
    leave s a before after _ e (ground arith) v
Step-Inv {s} (drops a before after e) v = leave s a before after _ e refl v

Reach-Inv : {s : Attempts} → Reach s → Inv s
unfolding has
Reach-Inv start = record { active = λ k. refl; distinct = tt }
Reach-Inv (next r st) = Step-Inv st (Reach-Inv r)

-- Over every history of attempts, finished or dropped in any order, no two guards that are out at
-- the same time are for the same network, and a network is marked as active exactly while a guard
-- for it is out.
pub one_guard_each :
    (s : Attempts)
    → Reach s
    → Distinct (identities s.guards)
      × ((k : String) → has k s.policy.active_identities ≡ has k (identities s.guards))
one_guard_each s r = let v = Reach-Inv r in (v.distinct, v.active)
