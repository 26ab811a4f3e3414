-- ===== src/Cache/Update/Remembered.antt =====
-- The connections that the cache remembers, and the files that it leaves alone.
use nm_daemon.Base.{
  ◌≡◌, ◌≢◌, refl, sym, ap, ◌∙◌, subst, inl, inr, true, false, none, some, List, [], ◌∷◌, ok, err,
  if◌then◌else◌, ◌==◌, nat_eq, list_eq, arith, Option-cases, ℕ, suc, Option, map, length,
}
use nm_daemon.Base.Map.{Map, lookup, insert, lookup-insert}
use nm_daemon.Base.Text.{Text}
use nm_daemon.Cache.{
  CacheRead, missing, stale, corrupt, available, AccessPoint, CachedSnapshot, cache_version,
  network_key, mark_inactive, upsert_connected_access_point, validate_version,
}
use nm_daemon.Cache.Update.{
  WriteEnd, wrote, failed_before, failed_after, Writes, KnownConnections, WifiStatus, Files,
  read_snapshot, read_known, known_for_update, connected_point, update_snapshot, cache_connected,
  cache_disconnected, cache_connected_network_status, remember, Outcome, after, written,
  write_known_file, attach_details, attach_connection_details,
}
use nm_daemon.Cache.Update.Connected.{after-ok, written-ok}

-- How many there are.
abbrev pub found_in : {A : Type 0} → List (Option A) → ℕ
found_in [] = 0
found_in (none ∷ os) = found_in os
found_in (some a ∷ os) = suc (found_in os)

module _ (Details : Type 0) where
  -- What a step keeps and the next keeps, both keep.
  after-keeps :
      (T : Type 0) (P : Files Details → T) (v : T) (x : Outcome Details)
      (next : Files Details → Outcome Details)
      → P x.1 ≡ v
      → ((g : Files Details) → P g ≡ v → P (next g).1 ≡ v)
      → P ((after Details x next).1) ≡ v
  after-keeps T P v (ok u, f) next h k = k f h
  after-keeps T P v (err e, f) next h k = h

  written-keeps :
      (T : Type 0) (P : Files Details → T) (v : T) (b : WriteEnd) (g f : Files Details)
      → P g ≡ v
      → P f ≡ v
      → P (written Details b g f).1 ≡ v
  written-keeps T P v wrote g f h k = h
  written-keeps T P v failed_before g f h k = k
  written-keeps T P v failed_after g f h k = h

  update_snapshot-known :
      (w : Writes) (r : CacheRead CachedSnapshot) (change : List AccessPoint → List AccessPoint)
      (f : Files Details)
      → ((update_snapshot Details w r change f).1).known ≡ f.known
  unfolding update_snapshot
  update_snapshot-known w missing change f = refl
  update_snapshot-known w (stale v) change f = refl
  update_snapshot-known w corrupt change f = refl
  update_snapshot-known w (available s) change f =
      let networks = change s.networks in
      let t = record s {
        networks = networks;
        scanning = false;
        networks_found = length networks;
      } in
      written-keeps (CacheRead (KnownConnections Details)) (λ g. g.known) f.known w.snapshot
        (record f { snapshot = available t }) f refl refl

  update_snapshot-unusable :
      (w : Writes) (r : CacheRead CachedSnapshot) (change : List AccessPoint → List AccessPoint)
      (f : Files Details)
      → ((s : CachedSnapshot) → r ≢ available s)
      → ((update_snapshot Details w r change f).1).snapshot ≡ f.snapshot
  unfolding update_snapshot
  update_snapshot-unusable w missing change f u = refl
  update_snapshot-unusable w (stale v) change f u = refl
  update_snapshot-unusable w corrupt change f u = refl
  update_snapshot-unusable w (available s) change f u = absurd (u s refl)

  cache_disconnected-keeps :
      (w : Writes) (now : ℕ) (status : WifiStatus Details) (r : CacheRead CachedSnapshot)
      (f : Files Details)
      → let g = (cache_disconnected Details w now status r f).1 in
        (g.known ≡ f.known) × (((s : CachedSnapshot) → r ≢ available s) → g.snapshot ≡ f.snapshot)
  unfolding cache_disconnected
  cache_disconnected-keeps w now status r f =
      let told = record f { active_status = some (now, status) } in
      let x = written Details w.active_status told f in
      let next = update_snapshot Details w r mark_inactive in
      (
        after-keeps (CacheRead (KnownConnections Details)) (λ g. g.known) f.known x next
            (written-keeps (CacheRead (KnownConnections Details)) (λ g. g.known) f.known
              w.active_status told f refl refl)
            (λ g h. update_snapshot-known w r mark_inactive g ∙ h),
        λ u.
            after-keeps (CacheRead CachedSnapshot) (λ g. g.snapshot) f.snapshot x next
              (written-keeps (CacheRead CachedSnapshot) (λ g. g.snapshot) f.snapshot w.active_status
                told f refl refl)
              (λ g h. update_snapshot-unusable w r mark_inactive g u ∙ h),
      )

  cache_connected-keeps :
      (w : Writes) (now : ℕ) (status : WifiStatus Details) (p : AccessPoint)
      (r : CacheRead CachedSnapshot) (k : KnownConnections Details) (f : Files Details)
      → ((s : CachedSnapshot) → r ≢ available s)
      → ((cache_connected Details w now status p r k f).1).snapshot ≡ f.snapshot
  unfolding cache_connected
  cache_connected-keeps w now status p r k f u =
      let change = λ (networks : List AccessPoint). upsert_connected_access_point networks p in
      let told = record f { active_status = some (now, status) } in
      let known = remember Details now p status.details k in
      let next = update_snapshot Details w r change in
      let put = write_known_file Details w known in
      after-keeps (CacheRead CachedSnapshot) (λ g. g.snapshot) f.snapshot
        (written Details w.active_status told f) (λ g. after Details (put g) next)
        (written-keeps (CacheRead CachedSnapshot) (λ g. g.snapshot) f.snapshot w.active_status told
          f refl refl)
        (λ g h.
          after-keeps (CacheRead CachedSnapshot) (λ x. x.snapshot) f.snapshot (put g) next
            (written-keeps (CacheRead CachedSnapshot) (λ x. x.snapshot) f.snapshot w.known
              (record g { known = available known }) g h h)
            (λ x y. update_snapshot-unusable w r change x u ∙ y))

  -- Known connections that are used for an update were readable, and have the current version.
  readable :
      (now : ℕ) (f : Files Details) (k : KnownConnections Details)
      → known_for_update Details now (read_known Details f) ≡ some k
      → f.known ≢ corrupt
  unfolding known_for_update
  readable now f k m e =
      let broken : known_for_update Details now (read_known Details f) ≡ none =
        subst
          (λ (r : CacheRead (KnownConnections Details)).
            known_for_update Details now (validate_version (λ x. x.version) r) ≡ none)
          (sym e) refl in
      absurd (ground arith)

  current_version :
      (now : ℕ) (r : CacheRead (KnownConnections Details)) (k : KnownConnections Details)
      → known_for_update Details now (validate_version (λ x. x.version) r) ≡ some k
      → (k.version == cache_version) ≡ true
  unfolding known_for_update
  current_version now missing k e = ground arith
  current_version now (stale v) k e = ground arith
  current_version now corrupt k e = absurd (ground arith)
  current_version now (available t) k e = ground arith

  -- However the writing of a status ends, known connections that cannot be read are left as they are, and
  -- so is a scan snapshot that is missing, of another version, or unreadable.
  pub unusable_kept :
      (w : Writes) (now : ℕ) (status : WifiStatus Details) (f : Files Details)
      → let g = (cache_connected_network_status Details w now status f).1 in
        (f.known ≡ corrupt → g.known ≡ corrupt)
        × (((s : CachedSnapshot) → read_snapshot Details f ≢ available s) → g.snapshot ≡ f.snapshot)
  unfolding cache_connected_network_status cache_connected cache_disconnected
  unusable_kept w now status f = elim (Option-cases (connected_point Details status)) [
    | inl n ↦
        let (known, snapshot) = cache_disconnected-keeps w now status (read_snapshot Details f) f in
        rw (n, cache_connected_network_status) (λ e. known ∙ e, snapshot)
    | inr (p, n) ↦ elim (Option-cases (known_for_update Details now (read_known Details f))) [
      | inl m ↦ rw (n, m, cache_connected_network_status) (λ e. e, λ u. refl)
      | inr (k, m) ↦
          rw (n, m, cache_connected_network_status)
            (
              λ e. absurd (readable now f k m e),
              cache_connected-keeps w now status p (read_snapshot Details f) k f,
            )
    ]
  ]

  cache_connected-known :
      (w : Writes) (now : ℕ) (status : WifiStatus Details) (p : AccessPoint)
      (r : CacheRead CachedSnapshot) (k : KnownConnections Details) (f : Files Details)
      → (cache_connected Details w now status p r k f).0 ≡ ok tt
      → ((cache_connected Details w now status p r k f).1).known
        ≡ available (remember Details now p status.details k)
  unfolding cache_connected
  cache_connected-known w now status p r k f e =
      let change = λ (networks : List AccessPoint). upsert_connected_access_point networks p in
      let told = record f { active_status = some (now, status) } in
      let known = remember Details now p status.details k in
      let next = update_snapshot Details w r change in
      let put = write_known_file Details w known in
      let x = written Details w.active_status told f in
      let (_, q) = after-ok Details x (λ g. after Details (put g) next) e in
      let (fine, z) =
        after-ok Details (put x.1) next (subst (λ (y : Outcome Details). y.0 ≡ ok tt) q e) in
      ap (λ (y : Outcome Details). (y.1).known) (q ∙ z)
      ∙ update_snapshot-known w r change (put x.1).1
      ∙ ap (λ (g : Files Details). g.known)
          (written-ok Details w.known (record x.1 { known = available known }) x.1 fine)

  -- What is known of a network once a connection to the access point was recorded.
  abbrev pub details_after :
      ℕ → WifiStatus Details → AccessPoint → KnownConnections Details → AccessPoint → Option Details
  details_after now status p k q =
      if network_key p == network_key q
      then some (status.details now)
      else lookup (network_key q) k.connections

  map-details :
      (now : ℕ) (status : WifiStatus Details) (p : AccessPoint) (k : KnownConnections Details)
      (qs : List AccessPoint)
      → map
          (λ q. lookup (network_key q) (insert (network_key p) (status.details now) k.connections))
          qs
        ≡ map (details_after now status p k) qs
  map-details now status p k [] = refl
  map-details now status p k (q ∷ qs) = ground (
    arith,
    lookup-insert (network_key p) (network_key q) (status.details now) k.connections,
    map-details now status p k qs,
  )

  -- The details that are found for a network, and how many are found.
  attach_details_lem :
      (m : Map Text Details) (qs : List AccessPoint)
      → attach_details Details m qs ≡ (
        map (λ q. lookup (network_key q) m) qs,
        found_in (map (λ q. lookup (network_key q) m) qs),
      )
  unfolding attach_details
  attach_details_lem m [] = refl
  attach_details_lem m (q ∷ qs) = ground (arith, attach_details_lem m qs)

  -- Right after the status of a connection was written, a list of networks is shown with the details of
  -- this connection for each network with its key, and with what the known connections held before for
  -- every other one; the count is of the networks in the list that have details.
  pub connection_remembered :
      (w : Writes) (now : ℕ) (status : WifiStatus Details) (p : AccessPoint) (qs : List AccessPoint)
      (k : KnownConnections Details) (f : Files Details)
      → connected_point Details status ≡ some p
      → known_for_update Details now (read_known Details f) ≡ some k
      → (cache_connected_network_status Details w now status f).0 ≡ ok tt
      → let found = map (details_after now status p k) qs in
        attach_connection_details Details qs
          ((cache_connected_network_status Details w now status f).1)
        ≡ available (found, found_in found)
  unfolding cache_connected_network_status attach_connection_details
  connection_remembered w now status p qs k f c h e =
      let call = cache_connected_network_status Details w now status f in
      let out = cache_connected Details w now status p (read_snapshot Details f) k f in
      let same : call ≡ out = rw (c, h, cache_connected_network_status) refl in
      let kept =
        cache_connected-known w now status p (read_snapshot Details f) k f
          (subst (λ (y : Outcome Details). y.0 ≡ ok tt) same e) in
      let held = ap (λ (y : Outcome Details). (y.1).known) same ∙ kept in
      let m = insert (network_key p) (status.details now) k.connections in
      rw (held, attach_connection_details)
        (rw (current_version now f.known k h) (
          ap available (
            attach_details_lem m qs
            ∙ ap (λ found. (found, found_in found)) (map-details now status p k qs))))
