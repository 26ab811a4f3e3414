-- ===== src/Cache/Update/Connected.antt =====
-- What the cache holds after the status of a connection is written to it.
use nm_daemon.Base.{
  ℕ, suc, ◌≡◌, refl, sym, ap, ◌∙◌, subst, inl, inr, true, false, Option, none, some, List, [], ◌∷◌,
  ok, err, if◌then◌else◌, length, ◌==◌, nat_eq, list_eq, arith, Option-cases,
}
use nm_daemon.Cache.{
  CacheRead, missing, stale, corrupt, available, AccessPoint, CachedSnapshot, cache_version,
  mark_inactive, replace_first, upsert_connected_access_point, validate_version,
}
use nm_daemon.Cache.Update.{
  WriteEnd, wrote, failed_before, failed_after, Writes, KnownConnections, WifiStatus, Files,
  read_snapshot, read_known, known_for_update, connected_point, update_snapshot, cache_connected,
  cache_disconnected, cache_connected_network_status, remember, Outcome, after, written,
  write_known_file,
}

abbrev pub active_points : List AccessPoint → List AccessPoint
active_points [] = []
active_points (p ∷ ps) = let rest = active_points ps in if p.active then p ∷ rest else rest

active_points-mark_inactive : (ps : List AccessPoint) → active_points (mark_inactive ps) ≡ []
unfolding mark_inactive
active_points-mark_inactive [] = refl
active_points-mark_inactive (p ∷ ps) = active_points-mark_inactive ps

active_points-replace_first :
    (p : AccessPoint) (ps qs : List AccessPoint)
    → p.active ≡ true
    → active_points ps ≡ []
    → replace_first p ps ≡ some qs
    → active_points qs ≡ p ∷ []
unfolding replace_first
active_points-replace_first p [] qs a e h = absurd (ground arith)
active_points-replace_first p (x ∷ xs) qs a e h = elim (Option-cases (replace_first p xs)) [
  | inl n ↦ ground arith
  | inr (ys, n) ↦ ground (arith, active_points-replace_first p xs ys a)
]

active_points-upsert :
    (ps : List AccessPoint) (p : AccessPoint)
    → active_points (upsert_connected_access_point ps p) ≡ record p { active = true } ∷ []
unfolding upsert_connected_access_point
active_points-upsert ps p =
    let c : AccessPoint = record p { active = true } in
    let quiet = active_points-mark_inactive ps in
    elim (Option-cases (replace_first c (mark_inactive ps))) [
      | inl n ↦ rw (n, upsert_connected_access_point) (ap (λ (l : List AccessPoint). c ∷ l) quiet)
      | inr (qs, n) ↦
          rw (n, upsert_connected_access_point)
            (active_points-replace_first c (mark_inactive ps) qs refl quiet n)
    ]

length-mark_inactive : (ps : List AccessPoint) → length (mark_inactive ps) ≡ length ps
unfolding mark_inactive
length-mark_inactive [] = refl
length-mark_inactive (p ∷ ps) = ap suc (length-mark_inactive ps)

abbrev pub active_only : Option AccessPoint → List AccessPoint
active_only none = []
active_only (some p) = record p { active = true } ∷ []

module _ (Details : Type 0) where
  -- The networks that are shown as active for a status.
  abbrev pub shown : WifiStatus Details → List AccessPoint
  shown status = active_only (connected_point Details status)

  Shows : CacheRead CachedSnapshot → List AccessPoint → Type 0
  Shows r actives =
      (s : CachedSnapshot) × (validate_version (λ t. t.version) r ≡ available s)
      × (active_points s.networks ≡ actives)
      × (s.networks_found ≡ length s.networks)
      × (s.scanning ≡ false)

  pub after-ok :
      (x : Outcome Details) (next : Files Details → Outcome Details)
      → (after Details x next).0 ≡ ok tt
      → (x.0 ≡ ok tt) × (after Details x next ≡ next x.1)
  after-ok (ok u, f) next e = (refl, refl)
  after-ok (err x, f) next e = absurd (ground arith)

  pub written-ok :
      (b : WriteEnd) (g f : Files Details)
      → (written Details b g f).0 ≡ ok tt
      → (written Details b g f).1 ≡ g
  written-ok wrote g f e = refl
  written-ok failed_before g f e = absurd (ground arith)
  written-ok failed_after g f e = absurd (ground arith)

  update_snapshot-Shows :
      (w : Writes) (s : CachedSnapshot) (change : List AccessPoint → List AccessPoint)
      (actives : List AccessPoint) (f : Files Details)
      → (s.version == cache_version) ≡ true
      → active_points (change s.networks) ≡ actives
      → (update_snapshot Details w (available s) change f).0 ≡ ok tt
      → Shows ((update_snapshot Details w (available s) change f).1).snapshot actives
  unfolding update_snapshot Shows
  update_snapshot-Shows w s change actives f v a e =
      let networks = change s.networks in
      let t : CachedSnapshot = record s {
        networks = networks;
        scanning = false;
        networks_found = length networks;
      } in
      subst (λ (g : Files Details). Shows g.snapshot actives)
        (sym (written-ok w.snapshot (record f { snapshot = available t }) f e))
        (t, rw v refl, a, refl, refl)

  validated_version :
      (r : CacheRead CachedSnapshot) (s : CachedSnapshot)
      → validate_version (λ t. t.version) r ≡ available s
      → (s.version == cache_version) ≡ true
  validated_version (available t) s e = ground arith
  validated_version missing s e = absurd (ground arith)
  validated_version (stale v) s e = absurd (ground arith)
  validated_version corrupt s e = absurd (ground arith)

  cache_disconnected-Shows :
      (w : Writes) (now : ℕ) (status : WifiStatus Details) (s : CachedSnapshot) (f : Files Details)
      → (s.version == cache_version) ≡ true
      → (cache_disconnected Details w now status (available s) f).0 ≡ ok tt
      → Shows ((cache_disconnected Details w now status (available s) f).1).snapshot []
  unfolding cache_disconnected
  cache_disconnected-Shows w now status s f v e =
      let g = written Details w.active_status (record f { active_status = some (now, status) }) f in
      let next = update_snapshot Details w (available s) mark_inactive in
      let (_, q) = after-ok g next e in
      subst (λ (x : Outcome Details). Shows (x.1).snapshot []) (sym q)
        (update_snapshot-Shows w s mark_inactive [] g.1 v (active_points-mark_inactive s.networks)
          (subst (λ (x : Outcome Details). x.0 ≡ ok tt) q e))

  cache_connected-Shows :
      (w : Writes) (now : ℕ) (status : WifiStatus Details) (p : AccessPoint) (s : CachedSnapshot)
      (known : KnownConnections Details) (f : Files Details)
      → (s.version == cache_version) ≡ true
      → (cache_connected Details w now status p (available s) known f).0 ≡ ok tt
      → Shows
          ((cache_connected Details w now status p (available s) known f).1).snapshot
          (record p { active = true } ∷ [])
  unfolding cache_connected
  cache_connected-Shows w now status p s known f v e =
      let change = λ (networks : List AccessPoint). upsert_connected_access_point networks p in
      let next = update_snapshot Details w (available s) change in
      let g = written Details w.active_status (record f { active_status = some (now, status) }) f in
      let put = write_known_file Details w (remember Details now p status.details known) in
      let (_, q) = after-ok g (λ h. after Details (put h) next) e in
      let (_, z) = after-ok (put g.1) next (subst (λ (x : Outcome Details). x.0 ≡ ok tt) q e) in
      subst (λ (x : Outcome Details). Shows (x.1).snapshot (record p { active = true } ∷ []))
        (sym (q ∙ z))
        (update_snapshot-Shows w s change (record p { active = true } ∷ []) ((put g.1).1) v
          (active_points-upsert s.networks p)
          (subst (λ (x : Outcome Details). x.0 ≡ ok tt) (q ∙ z) e))

  -- When the status of the connection is written to a cache with a usable snapshot, the snapshot shows
  -- exactly the connected access point as active, or none if there is none, with the right count of
  -- networks, and no scan as going on.
  pub status_shown :
      (w : Writes) (now : ℕ) (status : WifiStatus Details) (s : CachedSnapshot) (f : Files Details)
      → read_snapshot Details f ≡ available s
      → (cache_connected_network_status Details w now status f).0 ≡ ok tt
      → (t : CachedSnapshot) × (read_snapshot Details
            ((cache_connected_network_status Details w now status f).1)
          ≡ available t)
        × (active_points t.networks ≡ shown status)
        × (t.networks_found ≡ length t.networks)
        × (t.scanning ≡ false)
  unfolding cache_connected_network_status Shows
  status_shown w now status s f r e =
      let v = validated_version f.snapshot s r in
      let call = cache_connected_network_status Details w now status f in
      let conclude : (out : Outcome Details)
          → call ≡ out
          → Shows (out.1).snapshot (shown status)
          → Shows (call.1).snapshot (shown status) =
        λ out q h. subst (λ (x : Outcome Details). Shows (x.1).snapshot (shown status)) (sym q) h in
      elim (Option-cases (connected_point Details status)) [
        | inl n ↦
            let out = cache_disconnected Details w now status (available s) f in
            let q : call ≡ out = rw (n, r, cache_connected_network_status) refl in
            conclude out q (
              subst (λ o. Shows (out.1).snapshot (active_only o)) (sym n)
                (cache_disconnected-Shows w now status s f v
                  (subst (λ (x : Outcome Details). x.0 ≡ ok tt) q e)))
        | inr (p, n) ↦ elim (Option-cases (known_for_update Details now (read_known Details f))) [
          | inl m ↦ absurd (ground arith)
          | inr (k, m) ↦
              let out = cache_connected Details w now status p (available s) k f in
              let q : call ≡ out = rw (n, m, r, cache_connected_network_status) refl in
              conclude out q (
                subst (λ o. Shows (out.1).snapshot (active_only o)) (sym n)
                  (cache_connected-Shows w now status p s k f v
                    (subst (λ (x : Outcome Details). x.0 ≡ ok tt) q e)))
        ]
      ]
