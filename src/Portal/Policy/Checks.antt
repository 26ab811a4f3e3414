-- ===== src/Portal/Policy/Checks.antt =====
-- What the calls of the portal policy that succeed have checked.
use nm_daemon.Base.{
  ℕ, ◌≡◌, refl, ◌⊎◌, inl, inr, String, Bool, true, false, not, ◌||◌, Option, none, some, arith,
  if◌then◌else◌, or_else, any, and_then, ok, err, ok_or, codes, bind-ok, Option-cases,
  option_beq_iff, option_eq, Result-cases, string_eq,
}
use nm_daemon.Portal.Intents.{Intent, is_automatic, no_random}
use nm_daemon.Portal.Ledger.{
  Storage, System, Episode, default_episode, put_episode, reserved_entry, fallback_url, persist,
  reserved_intent, find_launch,
}
use nm_daemon.Portal.Ledger
use nm_daemon.Base.Map.{lookup}
use nm_daemon.Portal.Ledger.Claims.{claim-MayClaim}
use nm_daemon.Portal.Policy.{
  Url, PrimaryConnectionIdentity, ConnectivityStatus, PrepareParams, Proof, Crates, Reads,
  LedgerCell, refused_char, starts_with, is_anonymous, safe_url, episode_context,
  serialized_if_anonymous, allowed, proves, default_url, validate, find_proof, prepared_intent,
  prepare, claim_context, claim,
}

-- A URL that came from the connectivity check: plain text, plain HTTP, with a host and anonymous.
pub record IsSafe (crates : Crates) (value url : String) : Type 0 where
  parsed : Url
  plain : any refused_char (codes value) ≡ false
  http : starts_with "http://" value ≡ true
  parses : crates.parse_url value ≡ some parsed
  anonymous : is_anonymous parsed ≡ true
  serialized : url ≡ parsed.serialized

-- The same nest of tests, on any outcomes.
safe_steps :
    (long refused http : Bool) (o : Option Url) (url : String)
    → (if long || refused
        then none
        else if not http
        then none
        else and_then o serialized_if_anonymous)
      ≡ some url
    → (refused ≡ false)
      × (http ≡ true)
      × ((u : Url) × (o ≡ some u) × (is_anonymous u ≡ true) × (url ≡ u.serialized))
safe_steps long refused http none url h = absurd (ground arith)
safe_steps long refused http (some u) url h =
    (ground arith, ground arith, (u, refl, ground arith, ground arith))

safe_url-IsSafe :
    (crates : Crates) (value url : String)
    → safe_url crates value ≡ some url
    → IsSafe crates value url
unfolding safe_url
safe_url-IsSafe crates value url h =
    let (plain, http, (u, parses, anonymous, serialized)) =
      safe_steps _ (any refused_char (codes value)) (starts_with "http://" value)
        (crates.parse_url value) url h in
    record {
      parsed = u;
      plain = plain;
      http = http;
      parses = parses;
      anonymous = anonymous;
      serialized = serialized;
    }

pub episode_context-ok :
    (crates : Crates) (n e : String) (status : ConnectivityStatus) (p : PrimaryConnectionIdentity)
    → episode_context crates n status ≡ ok (e, p)
    → (status.primary_connection ≡ some p) × (crates.encode n p.path p.uuid ≡ some e)
unfolding episode_context
episode_context-ok crates n e status p h = elim (Option-cases (status.primary_connection)) [
  | inl q ↦ absurd (ground arith)
  | inr (o, q) ↦ elim (Option-cases (crates.encode n o.path o.uuid)) [
    | inl r ↦ absurd (ground arith)
    | inr (f, r) ↦ (ground arith, ground arith)
  ]
]

-- The evidence for an automatic launch: a Wi-Fi connection that finished with success, suggested the
-- portal, and is the connection that is captive now.
pub record IsEvidence (proof : Proof) (status : ConnectivityStatus)
    (current : PrimaryConnectionIdentity) : Type 0 where
  pub captive : status.captive_portal ≡ true
  pub ended : proof.status ≡ some "finished"
  pub connection : proof.stream ≡ some "wifi.connect"
  pub success : proof.event ≡ some "succeeded"
  pub suggested : proof.suggest_open_portal ≡ some true
  pub same_path : proof.previous_path ≡ some current.path
  pub same_uuid : proof.previous_uuid ≡ some current.uuid

pub proves-IsEvidence :
    (proof : Proof) (status : ConnectivityStatus) (current : PrimaryConnectionIdentity)
    → proves proof status current ≡ true
    → IsEvidence proof status current
proves-IsEvidence proof status current h = record {
  captive = ground arith;
  ended = ground (arith, option_beq_iff proof.status (some "finished"));
  connection = ground (arith, option_beq_iff proof.stream (some "wifi.connect"));
  success = ground (arith, option_beq_iff proof.event (some "succeeded"));
  suggested = ground arith;
  same_path = ground (arith, option_beq_iff proof.previous_path (some current.path));
  same_uuid = ground (arith, option_beq_iff proof.previous_uuid (some current.uuid));
}

-- What `validate` checked of the intent that it makes.
pub record IsValid (crates : Crates) (params : PrepareParams) (n : String)
    (status : ConnectivityStatus) (proof : Proof) (i : Intent) : Type 0 where
  pub primary : PrimaryConnectionIdentity
  pub current : status.primary_connection ≡ some primary
  pub encoded : crates.encode n primary.path primary.uuid ≡ some i.episode
  pub proven :
      is_automatic params.mode ≡ true
      → (params.fallback ≡ false) × (proves proof status primary ≡ true)
  pub url : i.url ≡ or_else (and_then status.check_uri (safe_url crates)) default_url

allowed-proven :
    (params : PrepareParams) (proof : Proof) (status : ConnectivityStatus)
    (p : PrimaryConnectionIdentity) (u : Unit {0})
    → allowed params proof status p ≡ ok u
    → is_automatic params.mode ≡ true
    → (params.fallback ≡ false) × (proves proof status p ≡ true)
allowed-proven params proof status p u h a = (ground arith, ground arith)

pub validate-IsValid :
    (crates : Crates) (params : PrepareParams) (n : String) (status : ConnectivityStatus)
    (proof : Proof) (now : ℕ) (random : Option String) (i : Intent)
    → validate crates params n status proof now random ≡ ok i
    → IsValid crates params n status proof i
unfolding validate
validate-IsValid crates params n status proof now random i h =
    let ((e, p), context, h1) = bind-ok (episode_context crates n status) _ i h in
    let (u, permitted, h2) = bind-ok (allowed params proof status p) _ i h1 in
    let (id, drawn, h3) = bind-ok (ok_or random no_random) _ i h2 in
    let (current, encoded) = episode_context-ok crates n e status p context in
    record {
      primary = p;
      current = current;
      encoded = ground (arith, encoded);
      proven = allowed-proven params proof status p u permitted;
      url = ground arith;
    }

reserve-intent :
    (store : Storage) (i j : Intent) (owner : String) (fallback : Bool) (now : ℕ) (s : System)
    → (Ledger.reserve store i owner fallback now s).1 ≡ ok (some j)
    → (e : Episode) × (j ≡ reserved_intent i fallback e)
unfolding Ledger.reserve
reserve-intent store i j owner fallback now s h =
    let e = or_else (lookup i.episode s.ledger.state.episodes) default_episode in
    (
      e,
      ground (
        arith,
        Result-cases
            (persist store (put_episode s i.episode (reserved_entry i owner fallback e))).1,
      ),
    )

-- The intent that a call of `prepare` hands out is the one that it made, with the URL of the ledger's
-- turn where a fallback was asked for.
pub prepare-intent :
    (crates : Crates) (store : Storage) (reads : Reads) (owner : Option String)
    (params : PrepareParams) (c c' : LedgerCell) (i : Intent)
    → prepare crates store reads owner params c ≡ (c', ok (some i))
    → (o : String) × (j : Intent) × (e : Episode) × (prepared_intent crates reads owner params
        ≡ ok (o, j))
      × (i ≡ reserved_intent j params.fallback e)
unfolding prepare
prepare-intent crates store reads owner params (err q) c' i h =
    elim (Result-cases (prepared_intent crates reads owner params)) [
      | inl (p, r) ↦ absurd (ground arith)
      | inr (e, r) ↦ absurd (ground arith)
    ]
prepare-intent crates store reads owner params (ok s) c' i h =
    elim (Result-cases (prepared_intent crates reads owner params)) [
      | inr (e, r) ↦ absurd (ground arith)
      | inl ((o, j), r) ↦
          let (e, same) = reserve-intent store j i o params.fallback reads.now s (ground arith) in
          (o, j, e, r, same)
    ]

pub prepared-IsValid :
    (crates : Crates) (reads : Reads) (owner : Option String) (params : PrepareParams) (o : String)
    (j : Intent)
    → prepared_intent crates reads owner params ≡ ok (o, j)
    → (n : String) × (status : ConnectivityStatus) × (proof : Proof) × (owner ≡ some o)
      × (reads.snapshot ≡ ok (n, status))
      × (find_proof reads o params ≡ ok proof)
      × IsValid crates params n status proof j
unfolding prepared_intent
prepared-IsValid crates reads none params o j h = absurd (ground arith)
prepared-IsValid crates reads (some p) params o j h =
    elim (Result-cases (find_proof reads p params)) [
      | inr (e, f) ↦ absurd (ground arith)
      | inl (proof, f) ↦ elim (Result-cases (reads.snapshot)) [
        | inr (e, q) ↦ absurd (ground arith)
        | inl ((n, status), q) ↦
            elim (Result-cases (validate crates params n status proof reads.now reads.random)) [
              | inr (e, v) ↦ absurd (ground arith)
              | inl (k, v) ↦ (
                n,
                status,
                proof,
                ground arith,
                q,
                ground arith,
                validate-IsValid crates params n status proof reads.now reads.random j
                    (ground arith),
              )
            ]
      ]
    ]

pub find_proof-automatic :
    (reads : Reads) (o : String) (params : PrepareParams) (proof : Proof)
    → is_automatic params.mode ≡ true
    → find_proof reads o params ≡ ok proof
    → (id : String) × (params.connect_request_id ≡ some id) × (proof ≡ reads.request_status id o)
unfolding find_proof
find_proof-automatic reads o params proof a h = elim (Option-cases (params.connect_request_id)) [
  | inl q ↦ absurd (ground arith)
  | inr (id, q) ↦ (id, q, ground arith)
]

pub IsSafe-or_default :
    (crates : Crates) (uri : Option String) (url : String)
    → url ≡ or_else (and_then uri (safe_url crates)) default_url
    → (url ≡ default_url) ⊎ ((value : String) × (uri ≡ some value) × IsSafe crates value url)
IsSafe-or_default crates none url h = inl h
IsSafe-or_default crates (some value) url h = elim (Option-cases (safe_url crates value)) [
  | inl q ↦ inl (ground arith)
  | inr (u, q) ↦ inr (value, refl, safe_url-IsSafe crates value url (ground arith))
]

-- What a claim that succeeds read, and the episode that it claimed.
pub claim-context :
    (crates : Crates) (store : Storage) (reads : Reads) (owner : Option String) (id : String)
    (c c' : LedgerCell) (j : Intent)
    → claim crates store reads owner id c ≡ (c', ok j)
    → (n : String) × (status : ConnectivityStatus) × (p : PrimaryConnectionIdentity)
      × (reads.snapshot ≡ ok (n, status))
      × (episode_context crates n status ≡ ok (j.episode, p))
unfolding claim claim_context
claim-context crates store reads none id c c' j h = absurd (ground arith)
claim-context crates store reads (some o) id c c' j h = elim (Result-cases (reads.snapshot)) [
  | inr (e, q) ↦ absurd (ground arith)
  | inl ((n, status), q) ↦ elim (Result-cases (episode_context crates n status)) [
    | inr (e, r) ↦ absurd (ground arith)
    | inl ((e, p), r) ↦ elim (Result-cases c) [
      | inr (f, b) ↦ absurd (ground arith)
      | inl (s, b) ↦
          let (l, found, may, same) =
            claim-MayClaim store id o e status.captive_portal reads.now s j (ground arith) in
          (n, status, p, q, ground (arith, may.same_episode))
    ]
  ]
]
