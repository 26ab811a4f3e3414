-- ===== src/Forget/Termination.antt =====
-- The loop that waits for the disconnection ends.
use nm_daemon.Base.{
  ℕ, zero, suc, ◌+◌, ◌-◌, ◌*◌, ◌<◌, ◌≤◌, ◌≡◌, ◌≢◌, sym, subst, String, Bool, List, retain, err,
  arith, Result-cases, inl, inr, min,
}
use native.Mathlib.Nat.{zero-add, suc-add, mul-suc}
use nm_daemon.Forget.Binding.{SavedProfile, Network, Call, Advances, event_poll_interval, rounds}
use nm_daemon.Forget.{
  World, Warning, out_of_fuel, deactivation_timeout, is_active, profiles_for, saved_profiles,
  disable_autoconnect, confirm, waited, disconnect, disconnect_and_confirm, disconnect_first,
  finish_forget, after_disconnect, proceed, run,
}

module _ (network : Network) (pace : ℕ) (advances : Advances network pace) where
  is_active-ends :
      (ssid : List ℕ) (w : World network) → (is_active network ssid w).0 ≢ err out_of_fuel
  unfolding is_active
  is_active-ends ssid w e = ground arith

  is_active-nm :
      (ssid : List ℕ) (w : World network)
      → ((is_active network ssid w).1).nm ≡ (network.wifi_connection_active_for_ssid ssid w.nm).1
  unfolding is_active
  is_active-nm ssid w = elim (Result-cases (network.wifi_connection_active_for_ssid ssid w.nm).0) [
    | inl (a, e) ↦ ground arith
    | inr (a, e) ↦ ground arith
  ]

  -- Rounds of the loop may be taken off the fuel and run.
  confirm-rounds :
      (k fuel deadline : ℕ) (ssid : List ℕ) (w : World network)
      → ((calls : List Call)
          → (confirm network fuel deadline ssid
              (record { nm = rounds network k ssid deadline w.nm; calls = calls })).0
            ≢ err out_of_fuel)
      → (confirm network (k + fuel) deadline ssid w).0 ≢ err out_of_fuel
  unfolding confirm is_active
  confirm-rounds zero fuel deadline ssid w h = rw zero-add (h w.calls)
  confirm-rounds (suc k) fuel deadline ssid w h =
      let w' = (is_active network ssid w).1 in
      let rest = confirm-rounds k fuel deadline ssid (waited network deadline w') (λ calls.
        subst
          (λ s.
            (confirm network fuel deadline ssid (record {
              nm =
                  rounds network k ssid deadline
                    (network.wait_for_event (min event_poll_interval (deadline - network.now s)) s);
              calls = calls;
            })).0
            ≢ err out_of_fuel)
          (sym (is_active-nm ssid w)) (h calls)) in
      rw suc-add (ground arith)

  confirm-ends :
      (ms fuel deadline : ℕ) (ssid : List ℕ) (w : World network)
      → deadline - network.now w.nm ≤ ms
      → pace * ms < fuel
      → (confirm network fuel deadline ssid w).0 ≢ err out_of_fuel
  unfolding confirm
  confirm-ends ms zero deadline ssid w b h = absurd (omega arith)
  confirm-ends zero (suc fuel) deadline ssid w b h = ground arith
  confirm-ends (suc ms) (suc fuel) deadline ssid w b h =
      let rest = suc fuel - pace in
      let e : pace + rest ≡ suc fuel = omega (arith, mul-suc pace ms) in
      subst (λ n. (confirm network n deadline ssid w).0 ≢ err out_of_fuel) e
        (confirm-rounds pace rest deadline ssid w (λ calls.
          confirm-ends ms rest deadline ssid _ (omega (arith, advances.paces ssid deadline w.nm))
            (omega (arith, mul-suc pace ms))))

  disconnect_and_confirm-ends :
      (fuel : ℕ) (ssid : List ℕ) (w : World network)
      → pace * deactivation_timeout < fuel
      → (disconnect_and_confirm network fuel ssid w).0 ≢ err out_of_fuel
  unfolding disconnect_and_confirm disconnect
  disconnect_and_confirm-ends fuel ssid w h e =
      let w' = (disconnect network ssid w).1 in
      ground (
        arith,
        confirm-ends deactivation_timeout fuel (network.now w'.nm + deactivation_timeout) ssid w',
      )

  disconnect_first-ends :
      (fuel : ℕ) (request_id : String) (ssid : List ℕ) (cancelled : List String)
      (ps : List SavedProfile) (warnings : List Warning) (w : World network)
      → pace * deactivation_timeout < fuel
      → (disconnect_first network fuel request_id ssid cancelled ps warnings w).0 ≢ err out_of_fuel
  unfolding disconnect_first after_disconnect finish_forget
  disconnect_first-ends fuel request_id ssid cancelled ps warnings w h e =
      ground (arith, disconnect_and_confirm-ends fuel ssid w h)

  proceed-ends :
      (fuel : ℕ) (request_id : String) (ssid : List ℕ) (cancelled : List String)
      (ps : List SavedProfile) (was_active : Bool) (w : World network)
      → pace * deactivation_timeout < fuel
      → (proceed network fuel request_id ssid cancelled ps was_active w).0 ≢ err out_of_fuel
  unfolding proceed finish_forget
  proceed-ends fuel request_id ssid cancelled ps was_active w h e =
      let (warnings, w') =
        disable_autoconnect network (retain (λ (p : SavedProfile). p.autoconnect) ps) w in
      ground (arith, disconnect_first-ends fuel request_id ssid cancelled ps warnings w' h)

  -- If so many rounds of the loop take at least a millisecond, more fuel than they are in the time
  -- that a disconnection is given is enough: the workflow returns a result or the error of a call.
  pub forget_ends :
      (fuel : ℕ) (request_id : String) (ssid : List ℕ) (cancelled : List String) (w : World network)
      → pace * deactivation_timeout < fuel
      → (run network fuel request_id ssid cancelled w).0 ≢ err out_of_fuel
  unfolding run profiles_for saved_profiles
  forget_ends fuel request_id ssid cancelled w h e =
      let w1 = (profiles_for network ssid w).1 in
      let w2 = (is_active network ssid w1).1 in
      elim (Result-cases (profiles_for network ssid w).0) [
        | inr (_, broken) ↦ ground arith
        | inl (ps, found) ↦ elim (Result-cases (is_active network ssid w1).0) [
          | inr (_, broken) ↦ ground (arith, is_active-ends ssid w1)
          | inl (active, seen) ↦
              ground (arith, proceed-ends fuel request_id ssid cancelled ps active w2 h)
        ]
      ]
