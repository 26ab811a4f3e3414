-- ===== src/Secret/Once.antt =====
-- A request for a password is answered at most once, and a connection has at most one prompt for each
-- of its settings, over every history of the registry.
pub mod Counts
pub mod Narrowing
use nm_daemon.Base.{
  text_pair_eq, ℕ, zero, suc, ◌+◌, ◌≤◌, ◌≡◌, refl, sym, subst, ◌∙◌, ◌⊎◌, inl, inr, String, Bool,
  true, false, not, Option, none, some, List, [], ◌∷◌, Result, ok, err, arith, if◌then◌else◌,
  option_filter, ◌==◌, ◌||◌, nat_eq, string_eq, option_eq, Bool-cases, Option-cases,
}
use nm_daemon.Base.Map.{Map, lookup, insert, remove, contains}
use nm_daemon.Base.Sets.{has}
use nm_daemon.Secret.Registry.{
  Key, PendingEntry, PendingSecretRequest, PendingRegistry, SecretResponse, Clock, id_of_key,
  remove_request, remove_found, remove_by_key, raise, cancel_by_key, tell_cancelled, send,
  put_entry, displace, remove_for_owner, answers_for, cancelled_response, is_current_owner,
  request_live,
}
use nm_daemon.Secret.Agent.{
  Received, await_response, register_pending, publish, begin_lookup, end_lookup, end_pending,
  cancel_get_secrets, cancel_keys, keys_of_path, raise_of_path, raise_all, delete_secrets,
  change_network_manager_owner, tell_all, SecretProvideParams, provide_rejection, provide, deliver,
}
use nm_daemon.Secret.Once.Counts.{
  one_if, open_on, sent_on, prompts_for, uses, taken_on, entry_on, open_on-remove,
  prompts_for-remove, open_on-insert, prompts_for-insert, prompts_for_found, prompts_for_absent,
}
use nm_daemon.Secret.Once.Narrowing.{
  Narrows, Narrows-refl, Narrows-trans, taken_on_of, remove_found-uses, remove_found_prompts,
  remove_found_channels, tell_cancelled_lem, raise_lem, cancel_get_secrets-Narrows,
  begin_lookup-Narrows, end_lookup-Narrows, end_pending-Narrows, publish-Narrows,
  cancel_keys-Narrows, delete_secrets-Narrows, tell_all_lem, change_network_manager_owner-Narrows,
  provide-Narrows, await_response-Narrows,
}

pub data Operation : Type 0 where
  registers : Clock → PendingSecretRequest → List String → Operation
  publishes : Clock → PendingSecretRequest → Operation
  begins_lookup : PendingSecretRequest → Operation
  ends_lookup : Key → ℕ → Operation
  ends_pending : String → Operation
  cancels : Key → Operation
  deletes : String → Operation
  changes_owner : Option String → Operation
  -- A round of a wait, with what its first check saw.
  awaits : (Clock × PendingRegistry) → Clock → PendingSecretRequest → Received → Operation
  -- An answer, with what its first critical section saw.
  provides : (Clock × PendingRegistry) → Clock → Option String → SecretProvideParams → Operation

unfoldable pub step : PendingRegistry → Operation → PendingRegistry
step r (registers c q owners) = (register_pending c q owners r).0
step r (publishes c q) = (publish c q r).0
step r (begins_lookup q) = (begin_lookup q r).0
step r (ends_lookup key flag) = end_lookup key flag r
step r (ends_pending id) = end_pending id r
step r (cancels key) = cancel_get_secrets key r
step r (deletes path) = delete_secrets path r
step r (changes_owner owner) = change_network_manager_owner owner r
step r (awaits seen c q x) = (await_response seen c q x r).0
step r (provides seen c owner p) = (provide seen c owner p r).0

unfoldable pub run : PendingRegistry → List Operation → PendingRegistry
run r [] = r
run r (o ∷ os) = run (step r o) os

-- `PendingRegistry::default`
abbrev pub empty_registry : PendingRegistry
empty_registry = record {
  inflight = [];
  nm_owner = none;
  requests = [];
  raised = [];
  sent = [];
  channels = 0;
  events = [];
}

record Inv (r : PendingRegistry) : Type 0 where
  once : (c : ℕ) → uses c r ≤ 1
  unused : (c : ℕ) → r.channels ≤ c → uses c r ≡ 0
  single : (k : Key) → prompts_for k r.requests ≤ 1

Narrows-Inv : (r t : PendingRegistry) → Narrows r t → Inv r → Inv t
Narrows-Inv r t n i = record {
  once = λ c. omega (arith, n.fewer_uses c, i.once c);
  unused =
      λ c h. let e = n.same_channels in omega (arith, n.fewer_uses c, i.unused c (rw (sym e) h));
  single = λ k. omega (arith, n.fewer_prompts k, i.single k);
}

uses-put_entry :
    (c : ℕ) (q : PendingSecretRequest) (owners : List String) (channel : ℕ) (r : PendingRegistry)
    → uses c (put_entry q owners channel r) ≤ uses c r + one_if (channel == c)
uses-put_entry c q owners channel r =
    let e : PendingEntry = record { request = q; owners = owners; sender = channel } in
    ground (arith, open_on-insert c q.id e r.requests)

put_entry_prompts :
    (k : Key) (q : PendingSecretRequest) (owners : List String) (channel : ℕ) (r : PendingRegistry)
    → prompts_for k (put_entry q owners channel r).requests
      ≤ prompts_for k r.requests + one_if (q.key == k)
put_entry_prompts k q owners channel r =
    let e : PendingEntry = record { request = q; owners = owners; sender = channel } in
    ground (arith, prompts_for-insert k q.id e r.requests)

put_entry_channels :
    (q : PendingSecretRequest) (owners : List String) (channel : ℕ) (r : PendingRegistry)
    → (put_entry q owners channel r).channels ≡ r.channels
put_entry_channels q owners channel r = ground arith

displace_lem :
    (c : ℕ) (k : Key) (taken : Option (String × ℕ)) (t : PendingRegistry)
    → (uses c (displace taken t) ≡ uses c t + taken_on_of c taken)
      × (prompts_for k (displace taken t).requests ≡ prompts_for k t.requests)
      × ((displace taken t).channels ≡ t.channels)
displace_lem c k none t = (omega arith, refl, refl)
displace_lem c k (some (id, channel)) t = (omega arith, refl, refl)

-- With at most one prompt for a key, none is left once its request is taken out.
remove_by_key_clears :
    (key : Key) (r : PendingRegistry)
    → prompts_for key r.requests ≤ 1
    → prompts_for key ((remove_by_key key r).0).requests ≡ 0
remove_by_key_clears key r h = elim (Option-cases (id_of_key key r.requests)) [
  | inl n ↦ ground (arith, prompts_for_absent key r.requests n)
  | inr (id, n) ↦ ground (arith, prompts_for_found key r.requests id n)
]

-- The registration of a request, on the branch that makes it.
registered : PendingSecretRequest → List String → PendingRegistry → PendingRegistry
registered q owners r =
    let (without, displaced) = remove_by_key q.key (record r { channels = suc r.channels }) in
    displace displaced (put_entry q owners r.channels without)

registered-Inv :
    (q : PendingSecretRequest) (owners : List String) (r : PendingRegistry)
    → Inv r
    → Inv (registered q owners r)
unfolding registered
registered-Inv q owners r i =
    let made = record r { channels = suc r.channels } in
    let found = id_of_key q.key r.requests in
    let (without, displaced) = remove_found found made in
    let placed = put_entry q owners r.channels without in
    let bound : (c : ℕ) → uses c (displace displaced placed) ≤ uses c r + one_if (r.channels == c) =
      λ c. omega (
        arith,
        (displace_lem c q.key displaced placed).0,
        uses-put_entry c q owners r.channels without,
        remove_found-uses c found made,
      ) in
    record {
      once = λ c. ground (arith, bound c, i.once c, i.unused c);
      unused = λ c h. ground (
        arith,
        bound c,
        i.unused c,
        (displace_lem c q.key displaced placed).2,
        put_entry_channels q owners r.channels without,
        remove_found_channels found made,
      );
      single = λ k.
          let kept : prompts_for k (displace displaced placed).requests
              ≤ prompts_for k without.requests + one_if (q.key == k) =
            omega (
              arith,
              (displace_lem 0 k displaced placed).1,
              put_entry_prompts k q owners r.channels without,
            ) in
          elim (Bool-cases (q.key == k)) [
            | inr other ↦ ground (arith, kept, remove_found_prompts k found made, i.single k)
            | inl same ↦
                let cleared = remove_by_key_clears q.key made (i.single q.key) in
                let here : prompts_for k without.requests ≡ 0 =
                  subst (λ x. prompts_for x without.requests ≡ 0)
                    ((text_pair_eq.beq_iff q.key k).0 same) cleared in
                ground (arith, kept, here)
          ];
    }

register_pending-Inv :
    (c : Clock) (q : PendingSecretRequest) (owners : List String) (r : PendingRegistry)
    → Inv r
    → Inv (register_pending c q owners r).0
unfolding register_pending registered
register_pending-Inv c q owners r i =
    let made : Inv (record r { channels = suc r.channels }) = record {
      once = i.once;
      unused = λ d h. i.unused d (omega arith);
      single = i.single;
    } in
    elim (Bool-cases (is_current_owner q.nm_owner r)) [
      | inr a ↦ rw (a, register_pending) made
      | inl a ↦ elim (Bool-cases (has q.cancelled r.raised)) [
        | inl b ↦ rw (a, b, register_pending) made
        | inr b ↦ elim (Bool-cases (request_live c r q)) [
          | inr d ↦ rw (a, d, b, register_pending) made
          | inl d ↦ rw (a, d, b, register_pending) (registered-Inv q owners r i)
        ]
      ]
    ]

step-Inv : (o : Operation) (r : PendingRegistry) → Inv r → Inv (step r o)
unfolding step
step-Inv (registers c q owners) r i = register_pending-Inv c q owners r i
step-Inv (publishes c q) r i = Narrows-Inv r _ (publish-Narrows c q r) i
step-Inv (begins_lookup q) r i = Narrows-Inv r _ (begin_lookup-Narrows q r) i
step-Inv (ends_lookup key flag) r i = Narrows-Inv r _ (end_lookup-Narrows key flag r) i
step-Inv (ends_pending id) r i = Narrows-Inv r _ (end_pending-Narrows id r) i
step-Inv (cancels key) r i = Narrows-Inv r _ (cancel_get_secrets-Narrows key r) i
step-Inv (deletes path) r i = Narrows-Inv r _ (delete_secrets-Narrows path r) i
step-Inv (changes_owner owner) r i =
    Narrows-Inv r _ (change_network_manager_owner-Narrows owner r) i
step-Inv (awaits seen c q x) r i = Narrows-Inv r _ (await_response-Narrows seen c q x r) i
step-Inv (provides seen c owner p) r i = Narrows-Inv r _ (provide-Narrows seen c owner p r) i

run-Inv : (os : List Operation) (r : PendingRegistry) → Inv r → Inv (run r os)
unfolding run
run-Inv [] r i = i
run-Inv (o ∷ os) r i = run-Inv os (step r o) (step-Inv o r i)

-- After any sequence of the agent's operations from the empty registry, at most one message went over
-- each channel on which a request waits for its password, none while the request is still pending, and
-- at most one request is pending for each connection and setting.
pub answered_once :
    (os : List Operation) (c : ℕ) (k : Key)
    → let r = run empty_registry os in
      (open_on c r.requests + sent_on c r.sent ≤ 1) × (prompts_for k r.requests ≤ 1)
answered_once os c k =
    let i = run-Inv os empty_registry (record {
      once = λ d. omega arith;
      unused = λ d h. omega arith;
      single = λ j. omega arith;
    }) in
    (i.once c, i.single k)
