-- ===== src/Activation/Credentials/Stops.antt =====
-- Every history of one activation's credentials: the first stop stays, and the budget is enforced.
use nm_daemon.Base.{ℕ, ◌≤◌, ◌<◌, Bool, false, ◌≡◌, some, List, [], ◌∷◌, arith, or_else}
use nm_daemon.Activation.Credentials.{
  CredentialStop, ConnectError, Credentials, stop, note_frontend_availability, track_credentials,
  untrack_credentials, finish, credential_error, activation_error, stop_error, stop_expired, live,
  credential_deadline,
}

pub data Operation : Type 0 where
  stops : CredentialStop → Operation
  notes_frontend : Bool → Operation
  tracks untracks finishes : Operation
  reads_error : ℕ → Operation
  annotates : ℕ → ConnectError → Operation

unfoldable pub step : Credentials → Operation → Credentials
step s (stops r) = stop r s
step s (notes_frontend b) = note_frontend_availability b s
step s tracks = track_credentials s
step s untracks = untrack_credentials s
step s finishes = finish s
step s (reads_error now) = (credential_error now s).0
step s (annotates now e) = (activation_error now e s).0

unfoldable pub run : Credentials → List Operation → Credentials
run s [] = s
run s (o ∷ os) = run (step s o) os

step-failure :
    (s : Credentials) (r : CredentialStop) (o : Operation)
    → s.failure ≡ some r
    → (step s o).failure ≡ some r
unfolding step note_frontend_availability track_credentials untrack_credentials finish
    credential_error activation_error
step-failure s r (stops q) h = ground arith
step-failure s r (notes_frontend b) h = ground arith
step-failure s r tracks h = ground arith
step-failure s r untracks h = ground arith
step-failure s r finishes h = ground arith
step-failure s r (reads_error now) h = ground arith
step-failure s r (annotates now e) h = ground arith

run-failure :
    (s : Credentials) (r : CredentialStop) (os : List Operation)
    → s.failure ≡ some r
    → (run s os).failure ≡ some r
unfolding run
run-failure s r [] h = h
run-failure s r (o ∷ os) h = run-failure (step s o) r os (step-failure s r o h)

-- Once an activation was stopped, it stays stopped for that reason: after any further operations, at
-- any time, reading its error gives the error of the first stop, it annotates every error with
-- it, and the activation is not live.
first_stop_stays :
    (s : Credentials) (r : CredentialStop) (os : List Operation) (now : ℕ) (e : ConnectError)
    → s.failure ≡ some r
    → ((credential_error now (run s os)).1 ≡ some (stop_error r))
      × ((activation_error now e (run s os)).1 ≡ stop_error r)
      × (live now (run s os) ≡ false)
unfolding credential_error activation_error live
first_stop_stays s r os now e h =
    let k = run-failure s r os h in (ground arith, ground arith, ground arith)

-- When the error of an unfinished activation with credentials pending is read at or after the
-- credential deadline, it fails for good: with the stop that it has by then, or else as expired. After
-- any further operations, at any time, its error is that of this stop, every error is annotated with
-- it, and the activation is not live.
pub credentials_expire :
    (s : Credentials) (now later : ℕ) (os : List Operation) (e : ConnectError)
    → s.finished ≡ false
    → 0 < s.pending_credentials
    → credential_deadline s ≤ now
    → let r = or_else s.failure stop_expired in
      let t = run s (reads_error now ∷ os) in
      ((credential_error now s).1 ≡ some (stop_error r))
      × ((credential_error later t).1 ≡ some (stop_error r))
      × ((activation_error later e t).1 ≡ stop_error r)
      × (live later t ≡ false)
unfolding credential_error run step
credentials_expire s now later os e f p d =
    let r = or_else s.failure stop_expired in
    let failed : ((credential_error now s).0).failure ≡ some r = ground arith in
    let (told, annotated, dead) = first_stop_stays (credential_error now s).0 r os later e failed in
    (ground arith, told, annotated, dead)
