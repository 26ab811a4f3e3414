-- ===== src/Portal/Policy/Examples.antt =====
-- An automatic launch at concrete values, from its proof to its claim.
use nm_daemon.Base.{
  ℕ, ◌≡◌, refl, ap, ◌⊎◌, inl, inr, String, Bool, true, false, Option, none, some, List, [], ◌∷◌,
  arith, Result, ok, err, string_eq, ◌==◌, if◌then◌else◌,
}
use nm_daemon.Portal.Intents.{Intent, automatic}
use nm_daemon.Portal.Ledger.{Storage, System, committed, missing, default_state, fallback_url}
use nm_daemon.Portal.Policy.{
  Url, PrimaryConnectionIdentity, ConnectivityStatus, PrepareParams, Proof, Crates, Reads,
  LedgerCell, prepare, claim, validate, proves, default_url,
}
use nm_daemon.Portal.Policy.Safety.{
  automatic_launch_proven, launch_url-IsSafe, claimed_on_same_connection,
}
use text.Mathlib.TextEquality.{eq_iff}
use nm_daemon.Portal.Policy.Checks.{IsSafe, IsEvidence}

-- A parser and an encoder that know one URL and one connection.
abbrev portal_url : Url
portal_url = record {
  host = some "portal.example";
  username = "";
  password = none;
  serialized = "http://portal.example/";
}

abbrev parse_one : String → Option Url
parse_one value = if value == "http://portal.example" then some portal_url else none

abbrev encode_one : String → String → String → Option String
encode_one a b c =
    if a == ":1.2"
    then (if b == "/active/1" then (if c == "u1" then some "e1" else none) else none)
    else none

encode_one-injective :
    (a b c x y z e : String)
    → encode_one a b c ≡ some e
    → encode_one x y z ≡ some e
    → (a ≡ x) × (b ≡ y) × (c ≡ z)
encode_one-injective a b c x y z e h k = ground (
  arith,
  eq_iff a ":1.2",
  eq_iff x ":1.2",
  eq_iff b "/active/1",
  eq_iff y "/active/1",
  eq_iff c "u1",
  eq_iff z "u1",
)

abbrev crates : Crates
crates = record {
  parse_url = parse_one;
  encode = encode_one;
  encode_injective = encode_one-injective;
}

abbrev store : Storage
store = record { encoded_len = λ st. some 100; write = λ st. committed }

abbrev primary : PrimaryConnectionIdentity
primary = record { path = "/active/1"; uuid = "u1" }

abbrev captive : ConnectivityStatus
captive = record {
  captive_portal = true;
  check_uri = some "http://portal.example";
  primary_connection = some primary;
}

abbrev proof : Proof
proof = record {
  status = some "finished";
  stream = some "wifi.connect";
  event = some "succeeded";
  suggest_open_portal = some true;
  previous_path = some "/active/1";
  previous_uuid = some "u1";
}

abbrev reads : Reads
reads = record {
  request_status = λ id owner. proof;
  snapshot = ok (":1.2", captive);
  now = 7;
  random = some "l1";
}

abbrev params : PrepareParams
params = record { mode = automatic; connect_request_id = some "connect-1"; fallback = false }

abbrev opened_ledger : LedgerCell
opened_ledger =
    ok (record { ledger = record { state = default_state; poisoned = false }; disk = missing })

abbrev after_prepare : LedgerCell
after_prepare = (prepare crates store reads (some ":1.7") params opened_ledger).0

abbrev intent : Intent
intent = record {
  launch_id = "l1";
  episode = "e1";
  url = "http://portal.example/";
  reason = automatic;
  expires_at_ms = 10007;
}

automatic_launch_proven_example :
    (o : String) × (id : String) × (n : String) × (status : ConnectivityStatus)
    × (current : PrimaryConnectionIdentity) × (some ":1.7" ≡ some o)
    × (some "connect-1" ≡ some id)
    × (false ≡ false)
    × (reads.snapshot ≡ ok (n, status))
    × (status.primary_connection ≡ some current)
    × IsEvidence (reads.request_status id o) status current
unfolding prepare nm_daemon.Portal.Policy.prepared_intent nm_daemon.Portal.Policy.find_proof
    validate nm_daemon.Portal.Policy.episode_context nm_daemon.Portal.Ledger.reserve
    nm_daemon.Base.Map.lookup nm_daemon.Portal.Ledger.persist
    nm_daemon.Portal.Ledger.reserved_intent nm_daemon.Portal.Policy.safe_url
automatic_launch_proven_example =
    automatic_launch_proven crates store reads (some ":1.7") params opened_ledger after_prepare
      intent refl refl

launch_url-IsSafe_example :
    (n : String) × (status : ConnectivityStatus) × (reads.snapshot ≡ ok (n, status))
    × ((params.fallback ≡ true) × ((k : ℕ) × (intent.url ≡ fallback_url k))
        ⊎ (params.fallback ≡ false)
          × ((intent.url ≡ default_url)
              ⊎ ((value : String) × (status.check_uri ≡ some value)
                  × IsSafe crates value intent.url)))
unfolding prepare nm_daemon.Portal.Policy.prepared_intent nm_daemon.Portal.Policy.find_proof
    validate nm_daemon.Portal.Policy.episode_context nm_daemon.Portal.Ledger.reserve
    nm_daemon.Base.Map.lookup nm_daemon.Portal.Ledger.persist
    nm_daemon.Portal.Ledger.reserved_intent nm_daemon.Portal.Policy.safe_url
launch_url-IsSafe_example =
    launch_url-IsSafe crates store reads (some ":1.7") params opened_ledger after_prepare intent
      refl

abbrev after_claim : LedgerCell
after_claim = (claim crates store reads (some ":1.7") "l1" after_prepare).0

claimed_on_same_connection_example :
    (status' : ConnectivityStatus) × (p : PrimaryConnectionIdentity) × (reads.snapshot
      ≡ ok (":1.2", status'))
    × (captive.primary_connection ≡ some p)
    × ((q : PrimaryConnectionIdentity) × (status'.primary_connection ≡ some q)
        × (q.path ≡ p.path)
        × (q.uuid ≡ p.uuid))
unfolding validate nm_daemon.Portal.Policy.episode_context nm_daemon.Portal.Policy.safe_url
    nm_daemon.Portal.Policy.claim_context nm_daemon.Portal.Policy.prepared_intent
    nm_daemon.Portal.Policy.find_proof claim prepare nm_daemon.Portal.Ledger.claim
    nm_daemon.Portal.Ledger.launch nm_daemon.Portal.Ledger.reserve nm_daemon.Portal.Ledger.persist
    nm_daemon.Portal.Ledger.find_launch nm_daemon.Portal.Ledger.reserved_entry
    nm_daemon.Portal.Ledger.reserved_intent nm_daemon.Portal.Ledger.check_claim
    nm_daemon.Portal.Ledger.update_launch nm_daemon.Base.Map.lookup nm_daemon.Base.Map.insert
claimed_on_same_connection_example =
    claimed_on_same_connection crates store params ":1.2" captive proof 7 (some "l1") intent reads
      (some ":1.7") "l1" after_prepare after_claim intent refl refl refl
