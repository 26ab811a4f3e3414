-- ===== src/Runtime/Examples.antt =====
-- The runtime's components at concrete values.
use nm_daemon.Base.{
  ◌+◌, ◌-◌, ◌≡◌, ◌≢◌, refl, String, true, false, some, [], ok, err, ltb, if◌then◌else◌, Distinct,
  string_eq, option_eq,
}
use mathlib.Core.Bool.{false≢true}
use text.Mathlib.TextEquality.{eq_iff}
use nm_daemon.Base.Sets.{has}
use nm_daemon.Model.Failures.{wrong_password}
use nm_daemon.Runtime.Admission.{
  ConnectAttemptKey, retry_after, wrong_password_retry_delay, default_policy, admit, complete,
}
use nm_daemon.Runtime.Admission.Rules.{IsKeyed}
use nm_daemon.Runtime.Admission.Guards
use nm_daemon.Runtime.Admission.Guards.{Attempts, Reach, identities, one_guard_each}
use nm_daemon.Runtime.Admission.Retries.{wrong_password_waits}

abbrev home : ConnectAttemptKey
home = record { identity = "home"; credential_fingerprint = 5; supplied_credentials = true }

abbrev cafe : ConnectAttemptKey
cafe = record { identity = "cafe"; credential_fingerprint = 6; supplied_credentials = true }

default-IsKeyed : IsKeyed default_policy
default-IsKeyed = record { identities = tt; fingerprints = tt }

wrong_password_waits_example :
    (admit home 3000 (complete home (some wrong_password) false 1000 default_policy)).1 ≡ (
      if ltb 3000 (1000 + wrong_password_retry_delay)
      then err (retry_after (1000 + wrong_password_retry_delay - 3000))
      else ok tt)
wrong_password_waits_example =
    wrong_password_waits home home 1000 3000 default_policy default-IsKeyed refl refl refl

home≢cafe : home.identity ≢ cafe.identity
home≢cafe h = false≢true ((eq_iff home.identity cafe.identity).1 h)

abbrev two_attempts : Attempts
two_attempts =
    Guards.begin cafe 20 (Guards.begin home 10 (record { policy = default_policy; guards = [] }))

one_guard_each_example :
    Distinct (identities two_attempts.guards)
    × ((k : String)
        → has k two_attempts.policy.active_identities ≡ has k (identities two_attempts.guards))
one_guard_each_example =
    one_guard_each two_attempts
      (Reach.next (Reach.next Reach.start (Guards.begins home 10)) (Guards.begins cafe 20))

abbrev shell : String
shell = ":1.7"

abbrev panel : String
panel = ":1.9"

panel≢shell : panel ≢ shell
panel≢shell h = false≢true ((eq_iff panel shell).1 h)
