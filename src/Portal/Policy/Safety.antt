-- ===== src/Portal/Policy/Safety.antt =====
-- What a launch that goes out is worth: its proof, its URL and the connection that it is claimed on.
use nm_daemon.Base.{
  ℕ, ◌≡◌, subst, sym, ◌∙◌, ap, ◌⊎◌, inl, inr, String, true, false, Option, some, arith, ok,
  Bool-cases, string_eq,
}
use nm_daemon.Portal.Intents.{Intent, is_automatic}
use nm_daemon.Portal.Ledger.{Storage, fallback_url, reserved_intent}
use nm_daemon.Portal.Policy.{
  PrimaryConnectionIdentity, ConnectivityStatus, PrepareParams, Proof, Crates, Reads, LedgerCell,
  default_url, validate, prepare, claim,
}
use nm_daemon.Portal.Policy.Checks.{
  IsSafe, IsEvidence, proves-IsEvidence, episode_context-ok, validate-IsValid, prepare-intent,
  prepared-IsValid, find_proof-automatic, IsSafe-or_default, claim-context,
}

-- An automatic launch goes out only on evidence: a caller with an owner named a request of its own
-- that finished as a successful Wi-Fi connection suggesting the portal, no fallback was asked for, and
-- the primary connection is captive now and is the one that this request established.
pub automatic_launch_proven :
    (crates : Crates) (store : Storage) (reads : Reads) (owner : Option String)
    (params : PrepareParams) (c c' : LedgerCell) (i : Intent)
    → is_automatic params.mode ≡ true
    → prepare crates store reads owner params c ≡ (c', ok (some i))
    → (o : String) × (id : String) × (n : String) × (status : ConnectivityStatus)
      × (current : PrimaryConnectionIdentity) × (owner ≡ some o)
      × (params.connect_request_id ≡ some id)
      × (params.fallback ≡ false)
      × (reads.snapshot ≡ ok (n, status))
      × (status.primary_connection ≡ some current)
      × IsEvidence (reads.request_status id o) status current
automatic_launch_proven crates store reads owner params c c' i a h =
    let (o, j, e, made, same) = prepare-intent crates store reads owner params c c' i h in
    let (n, status, proof, who, snap, found, v) =
      prepared-IsValid crates reads owner params o j made in
    let (id, named, read) = find_proof-automatic reads o params proof a found in
    let (plain, proven) = v.proven a in
    (
      o,
      id,
      n,
      status,
      v.primary,
      who,
      named,
      plain,
      snap,
      v.current,
      subst (λ x. IsEvidence x status v.primary) read
          (proves-IsEvidence proof status v.primary proven),
    )

-- The URL of every launch is safe. A fallback launch has one of the fixed fallback URLs. Any other has
-- the default URL, or the parsed URL of the connectivity check that the snapshot read by `prepare`
-- names, which is then plain text for plain HTTP, with a host and without credentials.
pub launch_url-IsSafe :
    (crates : Crates) (store : Storage) (reads : Reads) (owner : Option String)
    (params : PrepareParams) (c c' : LedgerCell) (i : Intent)
    → prepare crates store reads owner params c ≡ (c', ok (some i))
    → (n : String) × (status : ConnectivityStatus) × (reads.snapshot ≡ ok (n, status))
      × ((params.fallback ≡ true) × ((k : ℕ) × (i.url ≡ fallback_url k))
          ⊎ (params.fallback ≡ false)
            × ((i.url ≡ default_url)
                ⊎ ((value : String) × (status.check_uri ≡ some value) × IsSafe crates value i.url)))
unfolding reserved_intent
launch_url-IsSafe crates store reads owner params c c' i h =
    let (o, j, e, made, same) = prepare-intent crates store reads owner params c c' i h in
    let (n, status, proof, who, snap, found, v) =
      prepared-IsValid crates reads owner params o j made in
    (
      n,
      status,
      snap,
      elim (Bool-cases (params.fallback)) [
        | inl f ↦ inl (f, (e.fallback_index, ground arith))
        | inr f ↦ inr (f, IsSafe-or_default crates (status.check_uri) i.url (ground (arith, v.url)))
      ],
    )

-- A launch is claimed on the connection that it was prepared for: when an intent that `validate` made
-- and an intent that a claim hands out have the same episode, the claim's snapshot shows the same
-- NetworkManager instance and the same primary connection, by path and UUID.
pub claimed_on_same_connection :
    (crates : Crates) (store : Storage) (params : PrepareParams) (n : String)
    (status : ConnectivityStatus) (proof : Proof) (now : ℕ) (random : Option String) (i : Intent)
    (reads : Reads) (owner : Option String) (id : String) (c c' : LedgerCell) (j : Intent)
    → validate crates params n status proof now random ≡ ok i
    → claim crates store reads owner id c ≡ (c', ok j)
    → j.episode ≡ i.episode
    → (status' : ConnectivityStatus) × (p : PrimaryConnectionIdentity) × (reads.snapshot
        ≡ ok (n, status'))
      × (status.primary_connection ≡ some p)
      × ((q : PrimaryConnectionIdentity) × (status'.primary_connection ≡ some q)
          × (q.path ≡ p.path)
          × (q.uuid ≡ p.uuid))
claimed_on_same_connection crates store params n status proof now random i reads owner id c c' j v h
      s =
    let u = validate-IsValid crates params n status proof now random i v in
    let (m, status', q, snap, context) = claim-context crates store reads owner id c c' j h in
    let (current, encoded) = episode_context-ok crates m j.episode status' q context in
    let (a, b, d) =
      crates.encode_injective m q.path q.uuid n u.primary.path u.primary.uuid j.episode encoded
        (u.encoded ∙ ap some (sym s)) in
    (status', u.primary, snap ∙ ap (λ x. ok (x, status')) a, u.current, (q, current, b, d))
