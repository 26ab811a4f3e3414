-- ===== src/Secret/Examples.antt =====
-- A secret request at concrete values: asked of one frontend, answered, cancelled and retired.
use nm_daemon.Base.{
  text_pair_eq, ℕ, ◌+◌, ◌≤◌, ◌≡◌, ◌≢◌, refl, ◌⊎◌, String, true, false, Option, none, some, List, [],
  ◌∷◌, arith, err, if◌then◌else◌, ◌==◌, string_eq, nat_eq,
}
use nm_daemon.Base.Map.{lookup, insert}
use nm_daemon.Base.Sets.{has}
use nm_daemon.Activation.Credentials.{new_credentials}
use nm_daemon.Secret.Policy.{Policy, rejection}
use nm_daemon.Secret.Registry.{
  Key, PendingSecretRequest, PendingEntry, PendingRegistry, SecretResponse, Clock, user_canceled,
  agent_failed, answers_for, request_live,
}
use nm_daemon.Secret.Agent.{
  SecretProvideParams, register_pending, publish, begin_lookup, cancel_get_secrets,
  change_network_manager_owner, provide, response_of,
}
use nm_daemon.Secret.Once.{
  Operation, changes_owner, begins_lookup, registers, publishes, provides, run, empty_registry,
  answered_once,
}
use nm_daemon.Secret.Once.Counts.{cancelled_on, open_on, sent_on, prompts_for}
use nm_daemon.Secret.Prompts.{prompts_of}
use nm_daemon.Secret.Delivery.{provide_authorized}
use nm_daemon.Secret.Retirement.{cancelled_never_prompts, owner_change_retires}
use nm_daemon.Secret.Response.{Schema, is_empty_text, values_complete, apply_secret_response}
use nm_daemon.Secret.Response.Written.{accepted_response, over, filled, given}

abbrev policy : Policy
policy = record { persistent = "psk" ∷ []; migration_required = false }

abbrev nm : Option String
nm = some ":1.2"

abbrev shell : Option String
shell = some ":1.7"

abbrev key : Key
key = ("/settings/1", "802-11-wireless-security")

abbrev request : PendingSecretRequest
request = record {
  deadline = 90000;
  activation = some 0;
  policy = policy;
  cancelled = 4;
  nm_owner = nm;
  id = "secret-1";
  key = key;
}

abbrev clock : Clock
clock = record { now = 1000; states = λ i. new_credentials 60000 }

abbrev params : SecretProvideParams
params = record {
  request_id = "secret-1";
  save = true;
  password = some "open sesame";
  values = [];
  cancel = false;
}

abbrev prompting : List Operation
prompting =
    changes_owner nm
    ∷ begins_lookup request
    ∷ registers clock request (":1.7" ∷ [])
    ∷ publishes clock request
    ∷ []

abbrev asked : PendingRegistry
asked = run empty_registry prompting

abbrev answered : List Operation
answered =
    changes_owner nm
    ∷ registers clock request (":1.7" ∷ [])
    ∷ provides (clock, asked) clock shell params
    ∷ []

answered_once_example :
    let r = run empty_registry answered in
    (open_on 0 r.requests + sent_on 0 r.sent ≤ 1) × (prompts_for key r.requests ≤ 1)
answered_once_example = answered_once answered 0 key

provide_authorized_example :
    let t = (provide (clock, asked) clock shell params asked).0 in
    (t.sent ≡ asked.sent)
    ⊎ ((channel : ℕ) × (t.sent ≡ (channel, response_of params) ∷ asked.sent)
        × ((e : PendingEntry) × (lookup "secret-1" asked.requests ≡ some e)
            × (e.sender ≡ channel)
            × (answers_for shell e ≡ true)
            × (request_live clock asked e.request ≡ true))
        × (lookup "secret-1" t.requests ≡ none))
provide_authorized_example = provide_authorized (clock, asked) clock shell params asked

answer_sent :
    (provide (clock, asked) clock shell params asked).0.sent ≡ (0, response_of params) ∷ []
unfolding provide lookup run nm_daemon.Secret.Once.step publish register_pending begin_lookup
    change_network_manager_owner has nm_daemon.Activation.Credentials.live insert rejection
answer_sent = refl

cancelled_never_prompts_example :
    let t = run (cancel_get_secrets key asked) prompting in
    (prompts_of request.id t.events ≡ prompts_of request.id (cancel_get_secrets key asked).events)
    × ((publish clock request t).0 ≡ t)
    × ((publish clock request t).1 ≡ err user_canceled)
    × (((register_pending clock request (":1.7" ∷ []) t).0).requests ≡ t.requests)
    × (((register_pending clock request (":1.7" ∷ []) t).1 ≡ err agent_failed)
        ⊎ ((register_pending clock request (":1.7" ∷ []) t).1 ≡ err user_canceled))
unfolding lookup run nm_daemon.Secret.Once.step publish register_pending begin_lookup
    change_network_manager_owner has nm_daemon.Activation.Credentials.live insert
cancelled_never_prompts_example =
    cancelled_never_prompts request asked prompting clock (":1.7" ∷ []) refl
      (tt, (tt, (tt, ((λ h. refl), tt))))

owner_change_retires_example :
    let t = change_network_manager_owner none asked in
    (t.requests ≡ [])
    × (t.inflight ≡ [])
    × ((channel : ℕ)
        → (sent_on channel t.sent ≡ open_on channel asked.requests + sent_on channel asked.sent)
          × (cancelled_on channel t.sent
              ≡ open_on channel asked.requests + cancelled_on channel asked.sent))
    × ((k : Key) (f : ℕ) → lookup k asked.inflight ≡ some f → has f t.raised ≡ true)
    × ((c : Clock) (q : PendingSecretRequest) (owners : List String)
        → (q.nm_owner ≢ none) ⊎ (has q.cancelled t.raised ≡ true)
        → ((register_pending c q owners t).0).requests ≡ [])
owner_change_retires_example = owner_change_retires none asked

written_back :
    (c : String → Option String) (k v : String) (d : String → Option String) (j : String)
    → ◌≡◌ {A = Option (String → Option String)}
        (some (λ i. if k == i then some v else c i))
        (some d)
    → d j ≡ (if k == j then some v else c j)
written_back c k v d j e = ground arith

-- A setting as a function from its keys.
abbrev table : Schema
table = record {
  Connection = String → Option String;
  text = λ c k. c k;
  set_text = λ c k v. some (λ j. if k == j then some v else c j);
  text-set_text = written_back;
}

abbrev answer : SecretResponse
answer = record {
  password = some "open sesame";
  values = ("other", "ignored") ∷ [];
  save = true;
  cancelled = false;
}

abbrev before : String → Option String
before j = none

abbrev after : String → Option String
after j = if "psk" == j then some "open sesame" else none

abbrev wanted : List String
wanted = "psk" ∷ []

accepted_response_example :
    (false ≡ false)
    × (rejection policy true ≡ none)
    × (values_complete table wanted after ≡ true)
    × ((j : String)
        → after j ≡ (
            if has j wanted
            then over (filled (given "password" wanted answer j)) (before j)
            else before j))
    × (true ≡ true)
unfolding apply_secret_response rejection nm_daemon.Secret.Response.requested_values has
    nm_daemon.Secret.Response.apply_values lookup insert
accepted_response_example =
    accepted_response table "password" wanted policy answer before after
      (some (("psk", "open sesame") ∷ [])) (tt, tt) refl
