-- ===== src/Secret/Prompts.antt =====
-- The prompts that were published, by the id of their requests: only the publication of a live request
-- adds one.
use nm_daemon.Base.{
  text_pair_eq, ℕ, suc, ◌+◌, ◌≡◌, refl, ◌∙◌, inl, inr, String, true, Option, none, some, List, [],
  ◌∷◌, Result, ok, err, arith, ◌==◌, nat_eq, string_eq, option_eq, Bool-cases, Option-cases,
}
use nm_daemon.Base.Map.{Map, lookup}
use nm_daemon.Base.Sets.{has}
use nm_daemon.Secret.Registry.{
  Key, PendingEntry, PendingSecretRequest, PendingRegistry, SecretAgentError, SecretResponse, Event,
  requested, request_cancelled, Clock, id_of_key, remove_found, raise, tell_cancelled, put_entry,
  displace, remove_for_owner, is_current_owner,
}
use nm_daemon.Secret.Agent.{
  register_pending, publish, begin_lookup, end_lookup, end_pending, cancel_get_secrets, cancel_keys,
  keys_of_path, raise_of_path, raise_all, delete_secrets, change_network_manager_owner, tell_all,
  provide, await_response, conclude_wait, receive_round, ensure_delivery_live,
}
use nm_daemon.Secret.Once.{
  Operation, registers, publishes, begins_lookup, ends_lookup, ends_pending, cancels, deletes,
  changes_owner, awaits, provides, step,
}
use nm_daemon.Secret.Once.Counts.{one_if}

abbrev pub prompts_of : String → List Event → ℕ
prompts_of i [] = 0
prompts_of i (requested id ∷ es) = one_if (id == i) + prompts_of i es
prompts_of i (request_cancelled id ∷ es) = prompts_of i es

-- A publication under the id of a request is a publication of that request.
abbrev pub Own : PendingSecretRequest → Operation → Type 0
Own q (publishes c p) = p.id ≡ q.id → p.cancelled ≡ q.cancelled
Own q _ = Unit

remove_found_events :
    (o : Option String) (r : PendingRegistry) → ((remove_found o r).0).events ≡ r.events
remove_found_events none r = refl
remove_found_events (some id) r = elim (Option-cases (lookup id r.requests)) [
  | inl n ↦ ground arith
  | inr (e, n) ↦ ground arith
]

tell_cancelled_prompts :
    (i : String) (taken : Option (String × ℕ)) (r : PendingRegistry)
    → prompts_of i (tell_cancelled taken r).events ≡ prompts_of i r.events
tell_cancelled_prompts i none r = refl
tell_cancelled_prompts i (some (id, channel)) r = refl

displace_events :
    (taken : Option (String × ℕ)) (r : PendingRegistry) → (displace taken r).events ≡ r.events
displace_events none r = refl
displace_events (some (id, channel)) r = refl

raise_events : (o : Option ℕ) (r : PendingRegistry) → (raise o r).events ≡ r.events
raise_events none r = refl
raise_events (some f) r = refl

tell_all_prompts :
    (i : String) (m : Map String PendingEntry) (r : PendingRegistry)
    → prompts_of i (tell_all m r).events ≡ prompts_of i r.events
tell_all_prompts i [] r = refl
tell_all_prompts i ((id, e) ∷ m) r = tell_all_prompts i m (tell_cancelled (some (id, e.sender)) r)

cancel_get_secrets_prompts :
    (i : String) (key : Key) (r : PendingRegistry)
    → prompts_of i (cancel_get_secrets key r).events ≡ prompts_of i r.events
unfolding cancel_get_secrets
cancel_get_secrets_prompts i key r =
    let up = raise (lookup key r.inflight) r in
    let found = id_of_key key up.requests in
    let (t, taken) = remove_found found up in
    ground (
      arith,
      raise_events (lookup key r.inflight) r,
      remove_found_events found up,
      tell_cancelled_prompts i taken t,
    )

cancel_keys_prompts :
    (i : String) (keys : List Key) (r : PendingRegistry)
    → prompts_of i (cancel_keys keys r).events ≡ prompts_of i r.events
unfolding cancel_keys
cancel_keys_prompts i [] r = refl
cancel_keys_prompts i (key ∷ keys) r =
    cancel_keys_prompts i keys (cancel_get_secrets key r) ∙ cancel_get_secrets_prompts i key r

register_pending_events :
    (c : Clock) (q : PendingSecretRequest) (owners : List String) (r : PendingRegistry)
    → ((register_pending c q owners r).0).events ≡ r.events
unfolding register_pending
register_pending_events c q owners r =
    let made = record r { channels = suc r.channels } in
    let found = id_of_key q.key r.requests in
    let (without, displaced) = remove_found found made in
    ground (
      arith,
      remove_found_events found made,
      displace_events displaced (put_entry q owners r.channels without),
    )

begin_lookup_prompts :
    (i : String) (q : PendingSecretRequest) (r : PendingRegistry)
    → prompts_of i ((begin_lookup q r).0).events ≡ prompts_of i r.events
unfolding begin_lookup cancel_get_secrets
begin_lookup_prompts i q r = elim (Bool-cases (is_current_owner q.nm_owner r)) [
  | inl b ↦ rw (b, begin_lookup) (cancel_get_secrets_prompts i q.key r)
  | inr b ↦ rw (b, begin_lookup) refl
]

conclude_wait_prompts :
    (i : String) (q : PendingSecretRequest) (o : Option (Result SecretAgentError SecretResponse))
    (r : PendingRegistry)
    → prompts_of i ((conclude_wait q o r).0).events ≡ prompts_of i r.events
conclude_wait_prompts i q none r = refl
conclude_wait_prompts i q (some (ok a)) r = refl
conclude_wait_prompts i q (some (err e)) r = refl

-- While the flag of a request is raised, no operation prompts for it.
pub step_prompts :
    (q : PendingSecretRequest) (o : Operation) (r : PendingRegistry)
    → has q.cancelled r.raised ≡ true
    → Own q o
    → prompts_of q.id (step r o).events ≡ prompts_of q.id r.events
unfolding step publish end_lookup end_pending delete_secrets change_network_manager_owner provide
    remove_for_owner await_response
step_prompts q (registers c p owners) r h own = ground (arith, register_pending_events c p owners r)
step_prompts q (publishes c p) r h own = ground (arith, own, string_eq.beq_iff p.id q.id)
step_prompts q (begins_lookup p) r h own = begin_lookup_prompts q.id p r
step_prompts q (ends_lookup key flag) r h own = ground arith
step_prompts q (ends_pending id) r h own = refl
step_prompts q (cancels key) r h own = cancel_get_secrets_prompts q.id key r
step_prompts q (deletes path) r h own =
    cancel_keys_prompts q.id (keys_of_path path r.requests)
      (record r { raised = raise_of_path path r.inflight r.raised })
step_prompts q (changes_owner owner) r h own = tell_all_prompts q.id r.requests (record r {
  nm_owner = owner;
  raised = raise_all r.inflight r.raised;
  inflight = [];
  requests = [];
})
step_prompts q (awaits seen c p x) r h own =
    conclude_wait_prompts q.id p
      (receive_round (ensure_delivery_live seen.0 p seen.1) (ensure_delivery_live c p r) x) r
step_prompts q (provides seen c owner p) r h own = ground arith
