-- ===== src/Runtime/Admission/Rules.antt =====
-- When an attempt is admitted, and the maps' well-formedness.
use nm_daemon.Base.{
  ℕ, ◌+◌, ◌-◌, String, Bool, true, not, ◌&&◌, ◌≡◌, refl, subst, inl, inr, ◌==◌, if◌then◌else◌,
  Option, none, some, [], ◌∷◌, arith, or_else, and_then, Result, ok, err, Distinct, Bool-cases,
  Option-cases, nat_eq, string_eq,
}
use nm_daemon.Base.Map.{
  Map, lookup, insert, remove, filter_values, keys, lookup-filter_values, insert-Distinct,
  filter_values-Distinct, remove-Distinct,
}
use nm_daemon.Base.Sets.{has}
use nm_daemon.Model.Failures.{ConnectFailureReason}
use nm_daemon.Runtime.Admission.{
  ConnectAttemptKey, ConnectAttemptPolicy, ConnectAdmission, active, retry_after,
  credentials_required, keep_future, expire_fingerprints, expire, deadline_of, admit, is_empty,
  complete, wrong_password_retry_delay,
}

abbrev pub AllDistinct : Map String (Map ℕ ℕ) → Type 0
AllDistinct [] = Unit
AllDistinct ((k, m) ∷ rest) = Distinct (keys m) × AllDistinct rest

-- The tables hold each key once.
pub record IsKeyed (p : ConnectAttemptPolicy) : Type 0 where
  pub identities : Distinct (keys p.blocked_until)
  pub fingerprints : AllDistinct p.blocked_until

-- A deadline that has not passed.
abbrev pub pending : ℕ → Option ℕ → Option ℕ
pending now o = and_then o (keep_future now)

AllDistinct-lookup :
    (k : String) (m : Map String (Map ℕ ℕ)) {x : Map ℕ ℕ}
    → AllDistinct m
    → lookup k m ≡ some x
    → Distinct (keys x)
unfolding lookup
AllDistinct-lookup k [] d h = absurd (ground arith)
AllDistinct-lookup k ((j, y) ∷ m) {x} (d, ds) h = elim (Bool-cases (j == k)) [
  | inl p ↦ let q : y ≡ x = ground arith in subst (λ z. Distinct (keys z)) q d
  | inr p ↦ AllDistinct-lookup k m ds (rw (p, lookup) at h)
]

empty_is_nil : (m : Map ℕ ℕ) → is_empty m ≡ true → m ≡ []
empty_is_nil [] h = refl
empty_is_nil (x ∷ m) h = ground arith

expire_fingerprints-lookup :
    (now k : ℕ) (x : Map ℕ ℕ)
    → Distinct (keys x)
    → and_then (expire_fingerprints now x) (lookup k) ≡ pending now (lookup k x)
unfolding expire_fingerprints
expire_fingerprints-lookup now k x d =
    let kept = filter_values (keep_future now) x in
    rw (← lookup-filter_values (keep_future now) k x d) (elim (Bool-cases (is_empty kept)) [
      | inl e ↦ rw (e, expire_fingerprints) (rw (empty_is_nil kept e) (unfold lookup in refl))
      | inr e ↦ rw (e, expire_fingerprints)
    ])

pub pending-expire :
    (a : ConnectAttemptKey) (now : ℕ) (p : ConnectAttemptPolicy)
    → IsKeyed p
    → deadline_of a (expire now p) ≡ pending now (deadline_of a p)
unfolding expire
pending-expire a now p v =
    rw (lookup-filter_values (expire_fingerprints now) a.identity p.blocked_until v.identities)
      (elim (Option-cases (lookup a.identity p.blocked_until)) [
        | inl e ↦ rw e
        | inr (x, e) ↦ rw e (
            expire_fingerprints-lookup now a.credential_fingerprint x
              (AllDistinct-lookup a.identity p.blocked_until v.fingerprints e))
      ])

-- The verdict on an attempt, in the order of the checks.
abbrev pub verdict :
    ConnectAttemptKey → ℕ → ConnectAttemptPolicy → Result ConnectAdmission (Unit {0})
verdict a now p =
    if has a.identity p.active_identities
    then err active
    else if has a.identity p.stale_credentials && not a.supplied_credentials
    then err credentials_required
    else elim (pending now (deadline_of a p)) [
      | some deadline ↦ err (retry_after (deadline - now))
      | none ↦ ok tt
    ]

pub admit-verdict :
    (a : ConnectAttemptKey) (now : ℕ) (p : ConnectAttemptPolicy)
    → IsKeyed p
    → (admit a now p).1 ≡ verdict a now p
unfolding admit expire
admit-verdict a now p v = ground (arith, pending-expire a now p v)

expire_fingerprints-Distinct :
    (now : ℕ) (x : Map ℕ ℕ) {y : Map ℕ ℕ}
    → Distinct (keys x)
    → expire_fingerprints now x ≡ some y
    → Distinct (keys y)
unfolding expire_fingerprints
expire_fingerprints-Distinct now x {y} d h =
    let q : filter_values (keep_future now) x ≡ y = ground arith in
    subst (λ z. Distinct (keys z)) q (filter_values-Distinct (keep_future now) x d)

expire-AllDistinct :
    (now : ℕ) (m : Map String (Map ℕ ℕ))
    → AllDistinct m
    → AllDistinct (filter_values (expire_fingerprints now) m)
unfolding filter_values
expire-AllDistinct now [] d = tt
expire-AllDistinct now ((k, x) ∷ m) (d, ds) = elim (Option-cases (expire_fingerprints now x)) [
  | inl e ↦ rw (e, filter_values) (expire-AllDistinct now m ds)
  | inr (y, e) ↦
      rw (e, filter_values) (expire_fingerprints-Distinct now x d e, expire-AllDistinct now m ds)
]

insert-AllDistinct :
    (k : String) (x : Map ℕ ℕ) (m : Map String (Map ℕ ℕ))
    → Distinct (keys x)
    → AllDistinct m
    → AllDistinct (insert k x m)
unfolding insert
insert-AllDistinct k x [] d ds = (d, tt)
insert-AllDistinct k x ((j, y) ∷ m) d (c, ds) = elim (Bool-cases (j == k)) [
  | inl p ↦ rw (p, insert) (d, ds)
  | inr p ↦ rw (p, insert) (c, insert-AllDistinct k x m d ds)
]

remove-AllDistinct :
    (k : String) (m : Map String (Map ℕ ℕ)) → AllDistinct m → AllDistinct (remove k m)
unfolding remove
remove-AllDistinct k [] d = tt
remove-AllDistinct k ((j, y) ∷ m) (c, ds) = elim (Bool-cases (j == k)) [
  | inl p ↦ rw (p, remove) (remove-AllDistinct k m ds)
  | inr p ↦ rw (p, remove) (c, remove-AllDistinct k m ds)
]

expire-IsKeyed : (now : ℕ) (p : ConnectAttemptPolicy) → IsKeyed p → IsKeyed (expire now p)
unfolding expire
expire-IsKeyed now p v = record {
  identities = filter_values-Distinct (expire_fingerprints now) p.blocked_until v.identities;
  fingerprints = expire-AllDistinct now p.blocked_until v.fingerprints;
}

pub admit-IsKeyed :
    (a : ConnectAttemptKey) (now : ℕ) (p : ConnectAttemptPolicy)
    → IsKeyed p
    → IsKeyed (admit a now p).0
unfolding admit
admit-IsKeyed a now p v = ground (arith, expire-IsKeyed now p v)

lookup-or_else-Distinct :
    (k : String) (m : Map String (Map ℕ ℕ))
    → AllDistinct m
    → Distinct (keys (or_else (lookup k m) []))
lookup-or_else-Distinct k m d = elim (Option-cases (lookup k m)) [
  | inl e ↦ rw e tt
  | inr (x, e) ↦ rw e (AllDistinct-lookup k m d e)
]

pub complete-IsKeyed :
    (a : ConnectAttemptKey) (r : Option ConnectFailureReason) (succeeded : Bool) (now : ℕ)
    (p : ConnectAttemptPolicy)
    → IsKeyed p
    → IsKeyed (complete a r succeeded now p)
unfolding complete
complete-IsKeyed a r succeeded now p v =
    let old = or_else (lookup a.identity p.blocked_until) [] in
    let new = insert a.credential_fingerprint (now + wrong_password_retry_delay) old in
    let d = lookup-or_else-Distinct a.identity p.blocked_until v.fingerprints in
    ground (
      arith,
      remove-Distinct a.identity p.blocked_until v.identities,
      remove-AllDistinct a.identity p.blocked_until v.fingerprints,
      insert-Distinct a.identity new p.blocked_until v.identities,
      insert-AllDistinct a.identity new p.blocked_until
          (insert-Distinct a.credential_fingerprint (now + wrong_password_retry_delay) old d)
          v.fingerprints,
    )
