-- ===== src/Forget/Report.antt =====
-- What the result of forgetting says agrees with the deletions that were made.
use nm_daemon.Base.{
  ℕ, zero, suc, ◌+◌, ◌<◌, ◌≡◌, ◌↔◌, refl, String, Bool, true, false, List, [], ◌∷◌, ok, arith,
  Result-cases, inl, inr, ◌⊎◌, retain, length, ◌==◌, nat_eq, list_eq,
}
use nm_daemon.Forget.Binding.{SavedProfile, Network, deletions}
use nm_daemon.Forget.{
  World, Warning, ForgetResult, forgotten, partial, failed, not_saved, disconnect_pending,
  completed, completed_status, disconnect_pending_result, deactivation_timeout, is_active,
  profiles_for, disable_autoconnect, confirm, waited, disconnect, disconnect_and_confirm,
  disconnect_first, saved_profiles, delete_one, delete_profiles, finish_forget, after_disconnect,
  proceed, run,
}

-- How many deletions succeeded, and how many did not.
abbrev pub successes : List (String × Bool) → ℕ
successes [] = 0
successes ((path, true) ∷ d) = suc (successes d)
successes ((path, false) ∷ d) = successes d

abbrev pub failures : List (String × Bool) → ℕ
failures [] = 0
failures ((path, true) ∷ d) = failures d
failures ((path, false) ∷ d) = suc (failures d)

abbrev pub paths : List (String × Bool) → List String
paths [] = []
paths ((path, done) ∷ d) = path ∷ paths d

-- The paths of the profiles, last first, before `rest`.
abbrev pub paths_onto : List SavedProfile → List String → List String
paths_onto [] rest = rest
paths_onto (p ∷ ps) rest = paths_onto ps (p.path ∷ rest)

-- Either nothing was deleted and the disconnection is pending, or the profiles `ps` were tried in
-- order and the counts of the result are those of the deletions `d`.
abbrev Reports : List SavedProfile → ForgetResult → List (String × Bool) → Type 0
Reports ps r d =
    ((r.status ≡ disconnect_pending) × (d ≡ []))
    ⊎ ((r.status ≡ completed_status (successes d + failures d) (failures d))
        × (length r.deleted_profiles ≡ successes d)
        × (length r.failed_profiles ≡ failures d)
        × (paths d ≡ paths_onto ps []))

module _ (network : Network) where
  delete_profiles-paths :
      (ps : List SavedProfile) (w : World network)
      → paths (deletions ((delete_profiles network ps w).1).calls)
        ≡ paths_onto ps (paths (deletions w.calls))
  unfolding delete_profiles
  delete_profiles-paths [] w = refl
  delete_profiles-paths (p ∷ ps) w = delete_profiles-paths ps _

  delete_profiles-counts :
      (ps : List SavedProfile) (w : World network)
      → let (lists, w') = delete_profiles network ps w in
        (successes (deletions w'.calls) ≡ length lists.0 + successes (deletions w.calls))
        × (failures (deletions w'.calls) ≡ length lists.1 + failures (deletions w.calls))
  unfolding delete_profiles
  delete_profiles-counts [] w = omega arith
  delete_profiles-counts (p ∷ ps) w =
      ground (arith, delete_profiles-counts ps (delete_one network p w).1)

  finish_forget-Reports :
      (request_id : String) (was_active gone : Bool) (cancelled : List String)
      (ps : List SavedProfile) (warnings : List Warning) (w : World network) (r : ForgetResult)
      → deletions w.calls ≡ []
      → (finish_forget network request_id was_active gone cancelled ps warnings w).0 ≡ ok r
      → Reports ps r (
          deletions
            ((finish_forget network request_id was_active gone cancelled ps warnings w).1).calls)
  unfolding finish_forget completed
  finish_forget-Reports request_id was_active gone cancelled ps warnings w r q e =
      ground (arith, delete_profiles-counts ps w, delete_profiles-paths ps w)

  confirm-deletions :
      (fuel deadline : ℕ) (ssid : List ℕ) (w : World network)
      → deletions ((confirm network fuel deadline ssid w).1).calls ≡ deletions w.calls
  unfolding confirm is_active
  confirm-deletions zero deadline ssid w = refl
  confirm-deletions (suc fuel) deadline ssid w = ground (
    arith,
    confirm-deletions fuel deadline ssid (waited network deadline (is_active network ssid w).1),
  )

  disconnect_and_confirm-deletions :
      (fuel : ℕ) (ssid : List ℕ) (w : World network)
      → deletions ((disconnect_and_confirm network fuel ssid w).1).calls ≡ deletions w.calls
  unfolding disconnect_and_confirm disconnect
  disconnect_and_confirm-deletions fuel ssid w =
      let w' = (disconnect network ssid w).1 in
      ground (arith, confirm-deletions fuel (network.now w'.nm + deactivation_timeout) ssid w')

  disable_autoconnect-deletions :
      (ps : List SavedProfile) (w : World network)
      → deletions ((disable_autoconnect network ps w).1).calls ≡ deletions w.calls
  unfolding disable_autoconnect
  disable_autoconnect-deletions [] w = refl
  disable_autoconnect-deletions (p ∷ ps) w = disable_autoconnect-deletions ps _

  disconnect_first-Reports :
      (fuel : ℕ) (request_id : String) (ssid : List ℕ) (cancelled : List String)
      (ps : List SavedProfile) (warnings : List Warning) (w : World network) (r : ForgetResult)
      → deletions w.calls ≡ []
      → (disconnect_first network fuel request_id ssid cancelled ps warnings w).0 ≡ ok r
      → Reports ps r (
          deletions
            ((disconnect_first network fuel request_id ssid cancelled ps warnings w).1).calls)
  unfolding disconnect_first after_disconnect disconnect_pending_result
  disconnect_first-Reports fuel request_id ssid cancelled ps warnings w r q e =
      let w' = (disconnect_and_confirm network fuel ssid w).1 in
      ground (
        arith,
        disconnect_and_confirm-deletions fuel ssid w,
        finish_forget-Reports request_id true true cancelled ps warnings w' r,
      )

  proceed-Reports :
      (fuel : ℕ) (request_id : String) (ssid : List ℕ) (cancelled : List String)
      (ps : List SavedProfile) (was_active : Bool) (w : World network) (r : ForgetResult)
      → deletions w.calls ≡ []
      → (proceed network fuel request_id ssid cancelled ps was_active w).0 ≡ ok r
      → Reports ps r
          (deletions ((proceed network fuel request_id ssid cancelled ps was_active w).1).calls)
  unfolding proceed
  proceed-Reports fuel request_id ssid cancelled ps was_active w r q e =
      let on = retain (λ (p : SavedProfile). p.autoconnect) ps in
      let (warnings, w') = disable_autoconnect network on w in
      ground (
        arith,
        disable_autoconnect-deletions on w,
        finish_forget-Reports request_id false false cancelled ps warnings w' r,
        disconnect_first-Reports fuel request_id ssid cancelled ps warnings w' r,
      )

  run-Reports :
      (fuel : ℕ) (request_id : String) (ssid : List ℕ) (cancelled : List String)
      (all : List SavedProfile) (w : World network) (r : ForgetResult)
      → w.calls ≡ []
      → (network.saved_wifi_connections w.nm).0 ≡ ok all
      → (run network fuel request_id ssid cancelled w).0 ≡ ok r
      → Reports
          (retain (λ p. p.ssid_bytes == ssid) all)
          r
          (deletions ((run network fuel request_id ssid cancelled w).1).calls)
  unfolding run profiles_for saved_profiles is_active
  run-Reports fuel request_id ssid cancelled all w r q found e =
      let ps = retain (λ (p : SavedProfile). p.ssid_bytes == ssid) all in
      let w1 = (profiles_for network ssid w).1 in
      let w2 = (is_active network ssid w1).1 in
      elim (Result-cases (is_active network ssid w1).0) [
        | inr (_, broken) ↦ ground arith
        | inl (active, seen) ↦
            ground (arith, proceed-Reports fuel request_id ssid cancelled ps active w2 r)
      ]

  -- When a run of the workflow returns a result, either the disconnection is pending and no profile
  -- was deleted, or exactly the saved profiles of the network were tried, in their order, and the
  -- status tells the outcome: forgotten when there were some and all were deleted, partial when some
  -- were and some were not, failed when there were some and none was, not saved when there were none.
  pub forget_reports :
      (fuel : ℕ) (request_id : String) (ssid : List ℕ) (cancelled : List String)
      (all : List SavedProfile) (w : World network) (r : ForgetResult)
      → w.calls ≡ []
      → (network.saved_wifi_connections w.nm).0 ≡ ok all
      → (run network fuel request_id ssid cancelled w).0 ≡ ok r
      → let d = deletions ((run network fuel request_id ssid cancelled w).1).calls in
        ((r.status ≡ disconnect_pending) × (d ≡ []))
        ⊎ ((paths d ≡ paths_onto (retain (λ p. p.ssid_bytes == ssid) all) [])
            × ((r.status ≡ forgotten) ↔ ((0 < successes d) × (failures d ≡ 0)))
            × ((r.status ≡ partial) ↔ ((0 < successes d) × (0 < failures d)))
            × ((r.status ≡ failed) ↔ ((successes d ≡ 0) × (0 < failures d)))
            × ((r.status ≡ not_saved) ↔ ((successes d ≡ 0) × (failures d ≡ 0))))
  unfolding completed_status
  forget_reports fuel request_id ssid cancelled all w r q found e =
      ground (arith, run-Reports fuel request_id ssid cancelled all w r q found e)
