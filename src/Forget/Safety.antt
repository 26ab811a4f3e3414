-- ===== src/Forget/Safety.antt =====
-- No profile is deleted while its network may be active.
use nm_daemon.Base.{
  ℕ, zero, suc, ◌+◌, ◌≡◌, refl, sym, subst, String, Bool, true, false, List, [], ◌∷◌, ok, arith,
  Result-cases, inl, inr, retain,
}
use nm_daemon.Forget.Binding.{SavedProfile, Network, last_inactive, Guarded}
use nm_daemon.Forget.{
  World, is_active, profiles_for, disable_autoconnect, Warning, deactivation_timeout, confirm,
  waited, disconnect, disconnect_first, disconnect_and_confirm, delete_profiles, finish_forget,
  after_disconnect, proceed, run,
}

module _ (network : Network) where
  is_active-Guarded :
      (ssid : List ℕ) (w : World network)
      → Guarded w.calls
      → Guarded ((is_active network ssid w).1).calls
  unfolding is_active
  is_active-Guarded ssid w g = ground arith

  is_active_inactive :
      (ssid : List ℕ) (w : World network)
      → (is_active network ssid w).0 ≡ ok false
      → last_inactive ((is_active network ssid w).1).calls ≡ true
  unfolding is_active
  is_active_inactive ssid w e = ground arith

  profiles_for-Guarded :
      (ssid : List ℕ) (w : World network)
      → Guarded w.calls
      → Guarded ((profiles_for network ssid w).1).calls
  unfolding profiles_for
  profiles_for-Guarded ssid w g = ground arith

  disable_autoconnect-Guarded :
      (ps : List SavedProfile) (w : World network)
      → Guarded w.calls
      → Guarded ((disable_autoconnect network ps w).1).calls
  unfolding disable_autoconnect
  disable_autoconnect-Guarded [] w g = g
  disable_autoconnect-Guarded (p ∷ ps) w g = disable_autoconnect-Guarded ps _ g

  disable_autoconnect_inactive :
      (ps : List SavedProfile) (w : World network)
      → last_inactive ((disable_autoconnect network ps w).1).calls ≡ last_inactive w.calls
  unfolding disable_autoconnect
  disable_autoconnect_inactive [] w = refl
  disable_autoconnect_inactive (p ∷ ps) w = disable_autoconnect_inactive ps _

  delete_profiles-Guarded :
      (ps : List SavedProfile) (w : World network)
      → last_inactive w.calls ≡ true
      → Guarded w.calls
      → Guarded ((delete_profiles network ps w).1).calls
  unfolding delete_profiles
  delete_profiles-Guarded [] w i g = g
  delete_profiles-Guarded (p ∷ ps) w i g = delete_profiles-Guarded ps _ i (i, g)

  confirm-Guarded :
      (fuel deadline : ℕ) (ssid : List ℕ) (w : World network)
      → Guarded w.calls
      → Guarded ((confirm network fuel deadline ssid w).1).calls
  unfolding confirm
  confirm-Guarded zero deadline ssid w g = g
  confirm-Guarded (suc fuel) deadline ssid w g = ground (
    arith,
    is_active-Guarded ssid w g,
    confirm-Guarded fuel deadline ssid (waited network deadline (is_active network ssid w).1),
  )

  confirm_inactive :
      (fuel deadline : ℕ) (ssid : List ℕ) (w : World network)
      → (confirm network fuel deadline ssid w).0 ≡ ok true
      → last_inactive ((confirm network fuel deadline ssid w).1).calls ≡ true
  unfolding confirm
  confirm_inactive zero deadline ssid w e = ground arith
  confirm_inactive (suc fuel) deadline ssid w e = ground (
    arith,
    is_active_inactive ssid w,
    confirm_inactive fuel deadline ssid (waited network deadline (is_active network ssid w).1),
  )

  finish_forget-Guarded :
      (request_id : String) (was_active gone : Bool) (cancelled : List String)
      (ps : List SavedProfile) (warnings : List Warning) (w : World network)
      → last_inactive w.calls ≡ true
      → Guarded w.calls
      → Guarded ((finish_forget network request_id was_active gone cancelled ps warnings w).1).calls
  unfolding finish_forget
  finish_forget-Guarded request_id was_active gone cancelled ps warnings w i g =
      delete_profiles-Guarded ps w i g

  disconnect-Guarded :
      (ssid : List ℕ) (w : World network)
      → Guarded w.calls
      → Guarded ((disconnect network ssid w).1).calls
  unfolding disconnect
  disconnect-Guarded ssid w g = ground arith

  disconnect_and_confirm-Guarded :
      (fuel : ℕ) (ssid : List ℕ) (w : World network)
      → Guarded w.calls
      → Guarded ((disconnect_and_confirm network fuel ssid w).1).calls
  unfolding disconnect_and_confirm
  disconnect_and_confirm-Guarded fuel ssid w g =
      let w' = (disconnect network ssid w).1 in
      ground (
        arith,
        disconnect-Guarded ssid w g,
        confirm-Guarded fuel (network.now w'.nm + deactivation_timeout) ssid w',
      )

  disconnect_and_confirm_inactive :
      (fuel : ℕ) (ssid : List ℕ) (w : World network)
      → (disconnect_and_confirm network fuel ssid w).0 ≡ ok true
      → last_inactive ((disconnect_and_confirm network fuel ssid w).1).calls ≡ true
  unfolding disconnect_and_confirm
  disconnect_and_confirm_inactive fuel ssid w e =
      let w' = (disconnect network ssid w).1 in
      ground (arith, confirm_inactive fuel (network.now w'.nm + deactivation_timeout) ssid w')

  disconnect_first-Guarded :
      (fuel : ℕ) (request_id : String) (ssid : List ℕ) (cancelled : List String)
      (ps : List SavedProfile) (warnings : List Warning) (w : World network)
      → Guarded w.calls
      → Guarded ((disconnect_first network fuel request_id ssid cancelled ps warnings w).1).calls
  unfolding disconnect_first after_disconnect
  disconnect_first-Guarded fuel request_id ssid cancelled ps warnings w g =
      let w' = (disconnect_and_confirm network fuel ssid w).1 in
      ground (
        arith,
        disconnect_and_confirm-Guarded fuel ssid w g,
        disconnect_and_confirm_inactive fuel ssid w,
        finish_forget-Guarded request_id true true cancelled ps warnings w',
      )

  proceed-Guarded :
      (fuel : ℕ) (request_id : String) (ssid : List ℕ) (cancelled : List String)
      (ps : List SavedProfile) (was_active : Bool) (w : World network)
      → (was_active ≡ false → last_inactive w.calls ≡ true)
      → Guarded w.calls
      → Guarded ((proceed network fuel request_id ssid cancelled ps was_active w).1).calls
  unfolding proceed
  proceed-Guarded fuel request_id ssid cancelled ps was_active w i g =
      let on = retain (λ (p : SavedProfile). p.autoconnect) ps in
      let (warnings, w') = disable_autoconnect network on w in
      ground (
        arith,
        disable_autoconnect-Guarded on w g,
        disable_autoconnect_inactive on w,
        finish_forget-Guarded request_id false false cancelled ps warnings w',
        disconnect_first-Guarded fuel request_id ssid cancelled ps warnings w',
      )

  -- However a run of the workflow ends, each profile that it deletes, or tries to delete, follows an
  -- observation that the network is not active, with no other observation of it between the two.
  pub deletes_inactive :
      (fuel : ℕ) (request_id : String) (ssid : List ℕ) (cancelled : List String) (w : World network)
      → w.calls ≡ []
      → Guarded ((run network fuel request_id ssid cancelled w).1).calls
  unfolding run
  deletes_inactive fuel request_id ssid cancelled w e =
      let w1 = (profiles_for network ssid w).1 in
      let w2 = (is_active network ssid w1).1 in
      let g1 = profiles_for-Guarded ssid w (subst Guarded (sym e) tt) in
      let g2 = is_active-Guarded ssid w1 g1 in
      elim (Result-cases (profiles_for network ssid w).0) [
        | inr (_, failed) ↦ ground arith
        | inl (ps, found) ↦ elim (Result-cases (is_active network ssid w1).0) [
          | inr (_, failed) ↦ ground arith
          | inl (active, seen) ↦ ground (
            arith,
            is_active_inactive ssid w1,
            proceed-Guarded fuel request_id ssid cancelled ps active w2,
          )
        ]
      ]
