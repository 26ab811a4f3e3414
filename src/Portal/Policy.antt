-- ===== src/Portal/Policy.antt =====
-- src/portal.rs: the decisions around the ledger. The URL parser, the JSON encoder of an episode, the
-- random identifiers and the daemon's snapshot are parameters; a proof is what the code reads of the
-- JSON that the runtime returns. The replies' JSON and a poisoned lock are left out.
mod Examples
pub mod Checks
pub mod Safety
use nm_daemon.Base.{
  ℕ, ◌+◌, ◌-◌, ◌^◌, min, ◌≡◌, String, Bool, true, false, not, ◌&&◌, ◌||◌, Option, none, some, List,
  [], ◌∷◌, ltb, leb, ◌==◌, if◌then◌else◌, is_some, or_else, any, and_then, length, Result, ok, err,
  ◌>>=◌, ◌>>◌, ensure, ok_or, codes, string_eq, nat_eq, option_eq,
}
use nm_daemon.Base.Text.{is_whitespace, strip_prefix, bytes_of}
use nm_daemon.Portal.Intents.{
  Mode, automatic, manual, Intent, is_automatic, PortalError, no_primary, no_identity, no_proof,
  no_request, unexpected_request, no_owner, no_random, unserializable,
}
use nm_daemon.Portal.Ledger.{Outcome, Storage, System}
use nm_daemon.Portal.Ledger

-- What the code reads of a `url::Url`.
pub record Url : Type 0 where
  pub host : Option String
  pub username : String
  pub password : Option String
  pub serialized : String

pub record PrimaryConnectionIdentity : Type 0 where
  pub path : String
  pub uuid : String

-- The fields of `ConnectivityStatus` that decide about a portal.
pub record ConnectivityStatus : Type 0 where
  pub captive_portal : Bool
  pub check_uri : Option String
  pub primary_connection : Option PrimaryConnectionIdentity

pub record PrepareParams : Type 0 where
  pub mode : Mode
  pub connect_request_id : Option String
  pub fallback : Bool

-- What `validate` reads of a request's status, `none` where a field is missing or of another type.
pub record Proof : Type 0 where
  pub status : Option String
  pub stream : Option String
  pub event : Option String
  pub suggest_open_portal : Option Bool
  pub previous_path : Option String
  pub previous_uuid : Option String

abbrev pub null_proof : Proof
null_proof = record {
  status = none;
  stream = none;
  event = none;
  suggest_open_portal = none;
  previous_path = none;
  previous_uuid = none;
}

-- The crates' part: `Url::parse`, and `serde_json::to_string` of an owner, a path and a UUID, which
-- tells different triples apart.
pub record Crates : Type 0 where
  pub parse_url : String → Option Url
  pub encode : String → String → String → Option String
  pub encode_injective :
      (a b c x y z e : String)
      → encode a b c ≡ some e
      → encode x y z ≡ some e
      → (a ≡ x) × (b ≡ y) × (c ≡ z)

-- `char::is_control`
abbrev is_control : ℕ → Bool
is_control c = ltb c 0x20 || (leb 0x7F c && leb c 0x9F)

abbrev pub refused_char : ℕ → Bool
refused_char c = is_control c || is_whitespace c || c == b'\\'

abbrev pub starts_with : String → String → Bool
starts_with p s = is_some (strip_prefix (codes p) (codes s))

-- The URL has a host, and neither a user nor a password.
abbrev pub is_anonymous : Url → Bool
is_anonymous u = is_some u.host && u.username == "" && not (is_some u.password)

abbrev pub serialized_if_anonymous : Url → Option String
serialized_if_anonymous u = if is_anonymous u then some u.serialized else none

unfoldable pub safe_url : Crates → String → Option String
safe_url crates value =
    if ltb 4096 (length (bytes_of (codes value))) || any refused_char (codes value)
    then none
    else if not (starts_with "http://" value)
    then none
    else and_then (crates.parse_url value) serialized_if_anonymous

abbrev has_identity : String → PrimaryConnectionIdentity → Bool
has_identity nm_owner p = not (nm_owner == "" || p.path == "/" || p.uuid == "")

unfoldable pub episode_context :
    Crates → String → ConnectivityStatus → Result PortalError (String × PrimaryConnectionIdentity)
episode_context crates nm_owner status = do
  primary ← ok_or status.primary_connection no_primary
  ensure (has_identity nm_owner primary) no_identity
  e ← ok_or (crates.encode nm_owner primary.path primary.uuid) unserializable
  ok (e, primary)

-- The proof is of this caller's successful connection, on the connection that is captive now.
abbrev pub proves : Proof → ConnectivityStatus → PrimaryConnectionIdentity → Bool
proves proof status current =
    status.captive_portal
    && proof.status == some "finished"
    && proof.stream == some "wifi.connect"
    && proof.event == some "succeeded"
    && elim (proof.suggest_open_portal) [ none ↦ false | some b ↦ b ]
    && proof.previous_path == some current.path
    && proof.previous_uuid == some current.uuid

abbrev pub allowed :
    PrepareParams
    → Proof
    → ConnectivityStatus
    → PrimaryConnectionIdentity
    → Result PortalError (Unit {0})
allowed params proof status current =
    if is_automatic params.mode
    then ensure (not params.fallback && proves proof status current) no_proof
    else ensure (not (is_some params.connect_request_id)) unexpected_request

abbrev pub default_url : String
default_url = "http://neverssl.com/"

abbrev saturating_add : ℕ → ℕ → ℕ
saturating_add a b = min (a + b) (2 ^ 64 - 1)

-- `validate`, with the random identifier that it draws, `none` where that fails.
unfoldable pub validate :
    Crates
    → PrepareParams
    → String
    → ConnectivityStatus
    → Proof
    → ℕ
    → Option String
    → Result PortalError Intent
validate crates params nm_owner status proof now random = do
  context ← episode_context crates nm_owner status
  allowed params proof status context.1
  id ← ok_or random no_random
  ok (record {
    launch_id = id;
    episode = context.0;
    url = or_else (and_then status.check_uri (safe_url crates)) default_url;
    reason = params.mode;
    expires_at_ms = saturating_add now 10000;
  })

-- What one call reads of the daemon: the statuses of requests by id and owner, the snapshot, the
-- clock and a random identifier.
pub record Reads : Type 0 where
  pub request_status : String → String → Proof
  pub snapshot : Result PortalError (String × ConnectivityStatus)
  pub now : ℕ
  pub random : Option String

-- The process's ledger, or the error with which it failed to open.
abbrev pub LedgerCell : Type 0
LedgerCell = Result PortalError System

abbrev with_ledger {ℓ} :
    {A : Type ℓ}
    → (System → System × Result PortalError A)
    → LedgerCell
    → LedgerCell × Result PortalError A
with_ledger f (err e) = (err e, err e)
with_ledger f (ok s) = let (t, r) = f s in (ok t, r)

abbrev guarded {ℓ κ} :
    {A : Type ℓ} {B : Type κ}
    → Result PortalError B
    → (B → LedgerCell → LedgerCell × Result PortalError A)
    → LedgerCell
    → LedgerCell × Result PortalError A
guarded (err e) f c = (c, err e)
guarded (ok b) f c = f b c

abbrev pub valid_id : String → Bool
valid_id id = let n = length (bytes_of (codes id)) in not (n == 0) && leb n 256

-- The proof that an automatic launch needs.
unfoldable pub find_proof : Reads → String → PrepareParams → Result PortalError Proof
find_proof reads owner params =
    if is_automatic params.mode
    then elim (params.connect_request_id) [
      | none ↦ err no_request
      | some id ↦ if valid_id id then ok (reads.request_status id owner) else err no_request
    ]
    else ok null_proof

-- Everything that `prepare` does before it reserves the intent.
unfoldable pub prepared_intent :
    Crates → Reads → Option String → PrepareParams → Result PortalError (String × Intent)
prepared_intent crates reads owner params = do
  o ← ok_or owner no_owner
  proof ← find_proof reads o params
  snap ← reads.snapshot
  i ← validate crates params snap.0 snap.1 proof reads.now reads.random
  ok (o, i)

unfoldable pub prepare :
    Crates
    → Storage
    → Reads
    → Option String
    → PrepareParams
    → LedgerCell
    → LedgerCell × Result PortalError (Option Intent)
prepare crates store reads owner params c =
    guarded (prepared_intent crates reads owner params)
      (λ p. with_ledger (Ledger.reserve store p.1 p.0 params.fallback reads.now)) c

-- What `claim` finds out before it asks the ledger: the caller, the episode and whether it is captive.
unfoldable pub claim_context :
    Crates → Reads → Option String → Result PortalError (String × String × Bool)
claim_context crates reads owner = do
  o ← ok_or owner no_owner
  snap ← reads.snapshot
  context ← episode_context crates snap.0 snap.1
  ok (o, context.0, snap.1.captive_portal)

unfoldable pub claim :
    Crates
    → Storage
    → Reads
    → Option String
    → String
    → LedgerCell
    → LedgerCell × Result PortalError Intent
claim crates store reads owner id c =
    guarded (claim_context crates reads owner)
      (λ (o, e, captive). with_ledger (Ledger.claim store id o e captive reads.now)) c

unfoldable pub complete :
    Storage
    → Option String
    → String
    → Outcome
    → LedgerCell
    → LedgerCell × Result PortalError (Unit {0})
complete store owner id outcome c =
    guarded (ok_or owner no_owner) (λ o. with_ledger (Ledger.complete_launch store id o outcome)) c
