-- ===== src/Runtime/Admission/Retries.antt =====
-- What a completed attempt means for the next ones.
use nm_daemon.Base.{
  ℕ, ◌+◌, ◌-◌, Bool, true, false, ◌≡◌, ◌≢◌, ◌∙◌, sym, Option, some, [], arith, ltb, if◌then◌else◌,
  or_else, ok, err, nat_eq, string_eq,
}
use text.Mathlib.TextEquality.{eq_iff}
use nm_daemon.Base.Map.{lookup, insert, lookup-insert, lookup-remove, lookup-insert_self}
use nm_daemon.Base.Sets.{has, has-add, has-delete}
use nm_daemon.Model.Failures.{ConnectFailureReason, wrong_password}
use nm_daemon.Runtime.Admission.{
  ConnectAttemptKey, ConnectAttemptPolicy, retry_after, credentials_required,
  wrong_password_retry_delay, deadline_of, admit, complete, is_credential_failure,
}
use nm_daemon.Runtime.Admission.Rules.{IsKeyed, admit-verdict, complete-IsKeyed}

module _ (a b : ConnectAttemptKey) (same : b.identity ≡ a.identity) where
  inactive :
      (r : Option ConnectFailureReason) (s : Bool) (t : ℕ) (p : ConnectAttemptPolicy)
      → has b.identity (complete a r s t p).active_identities ≡ false
  unfolding complete
  inactive r s t p =
      ground
        (arith, has-delete a.identity b.identity p.active_identities, eq_iff a.identity b.identity)

  blocked :
      (t : ℕ) (p : ConnectAttemptPolicy)
      → b.credential_fingerprint ≡ a.credential_fingerprint
      → deadline_of b (complete a (some wrong_password) false t p)
        ≡ some (t + wrong_password_retry_delay)
  unfolding complete
  blocked t p f =
      let old = or_else (lookup a.identity p.blocked_until) [] in
      let until = t + wrong_password_retry_delay in
      let new = insert a.credential_fingerprint until old in
      rw (same, f, lookup-insert_self a.identity new p.blocked_until)
        (lookup-insert_self a.credential_fingerprint until old)

-- After an attempt ended with a wrong password at `t`, a new attempt for the same network with the
-- same, supplied credentials is told to wait for exactly the rest of the ten seconds, and is
-- admitted from then on.
pub wrong_password_waits :
    (a b : ConnectAttemptKey) (t now : ℕ) (p : ConnectAttemptPolicy)
    → IsKeyed p
    → b.identity ≡ a.identity
    → b.credential_fingerprint ≡ a.credential_fingerprint
    → b.supplied_credentials ≡ true
    → (admit b now (complete a (some wrong_password) false t p)).1 ≡ (
        if ltb now (t + wrong_password_retry_delay)
        then err (retry_after (t + wrong_password_retry_delay - now))
        else ok tt)
wrong_password_waits a b t now p v same f s =
    let q = complete a (some wrong_password) false t p in
    admit-verdict b now q (complete-IsKeyed a (some wrong_password) false t p v)
    ∙ ground (arith, inactive a b same (some wrong_password) false t p, blocked a b same t p f)

-- After an attempt failed for its credentials, an attempt for the same network that brings none is
-- refused at every later time until one succeeds.
stale_credentials_refused :
    (a b : ConnectAttemptKey) (r : Option ConnectFailureReason) (t now : ℕ)
    (p : ConnectAttemptPolicy)
    → IsKeyed p
    → b.identity ≡ a.identity
    → is_credential_failure r ≡ true
    → b.supplied_credentials ≡ false
    → (admit b now (complete a r false t p)).1 ≡ err credentials_required
unfolding complete
stale_credentials_refused a b r t now p v same h s =
    admit-verdict b now (complete a r false t p) (complete-IsKeyed a r false t p v)
    ∙ ground (
      arith,
      has-delete a.identity b.identity p.active_identities,
      has-add a.identity b.identity p.stale_credentials,
      eq_iff a.identity b.identity,
    )

-- After an attempt succeeded, the next one for the same network is admitted, whatever its
-- credentials and whenever it comes.
success_admits :
    (a b : ConnectAttemptKey) (r : Option ConnectFailureReason) (t now : ℕ)
    (p : ConnectAttemptPolicy)
    → IsKeyed p
    → b.identity ≡ a.identity
    → (admit b now (complete a r true t p)).1 ≡ ok tt
unfolding complete
success_admits a b r t now p v same =
    admit-verdict b now (complete a r true t p) (complete-IsKeyed a r true t p v)
    ∙ ground (
      arith,
      has-delete a.identity b.identity p.active_identities,
      has-delete a.identity b.identity p.stale_credentials,
      lookup-remove a.identity b.identity p.blocked_until,
      eq_iff a.identity b.identity,
    )

-- How an attempt for one network ends has no effect on the verdict for another network.
complete-independent :
    (a b : ConnectAttemptKey) (r : Option ConnectFailureReason) (s : Bool) (t now : ℕ)
    (p : ConnectAttemptPolicy)
    → IsKeyed p
    → a.identity ≢ b.identity
    → (admit b now (complete a r s t p)).1 ≡ (admit b now p).1
unfolding complete
complete-independent a b r s t now p v ne =
    admit-verdict b now (complete a r s t p) (complete-IsKeyed a r s t p v)
    ∙ ground (
      arith,
      has-delete a.identity b.identity p.active_identities,
      has-delete a.identity b.identity p.stale_credentials,
      has-add a.identity b.identity p.stale_credentials,
      lookup-remove a.identity b.identity p.blocked_until,
      lookup-insert a.identity b.identity
          (insert a.credential_fingerprint (t + wrong_password_retry_delay)
            (or_else (lookup a.identity p.blocked_until) []))
          p.blocked_until,
      eq_iff a.identity b.identity,
    )
    ∙ sym (admit-verdict b now p v)
