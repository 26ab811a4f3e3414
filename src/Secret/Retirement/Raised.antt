-- ===== src/Secret/Retirement/Raised.antt =====
-- Flags stay raised: no operation of the agent takes a cancellation back.
use nm_daemon.Base.{
  Result, ok, text_pair_eq, ℕ, suc, ◌≡◌, refl, sym, subst, inl, inr, String, true, Option, none,
  some, List, [], ◌∷◌, err, arith, nat_eq, string_eq, option_eq, Bool-cases, Option-cases,
}
use nm_daemon.Base.Map.{Map, lookup}
use nm_daemon.Base.Sets.{has, has-add}
use nm_daemon.Secret.Registry.{
  SecretAgentError, SecretResponse, Key, PendingEntry, PendingSecretRequest, PendingRegistry, Clock,
  id_of_key, remove_found, raise, tell_cancelled, put_entry, displace, remove_for_owner,
  is_current_owner,
}
use nm_daemon.Secret.Agent.{
  register_pending, publish, begin_lookup, end_lookup, end_pending, cancel_get_secrets, cancel_keys,
  keys_of_path, raise_of_path, raise_all, delete_secrets, change_network_manager_owner, tell_all,
  provide, await_response, conclude_wait, receive_round, ensure_delivery_live,
}
use nm_daemon.Secret.Once.{
  Operation, registers, publishes, begins_lookup, ends_lookup, ends_pending, cancels, deletes,
  changes_owner, provides, step, run, awaits,
}

remove_found_raised :
    (o : Option String) (r : PendingRegistry) → ((remove_found o r).0).raised ≡ r.raised
remove_found_raised none r = refl
remove_found_raised (some id) r = elim (Option-cases (lookup id r.requests)) [
  | inl n ↦ ground arith
  | inr (e, n) ↦ ground arith
]

tell_cancelled_raised :
    (taken : Option (String × ℕ)) (r : PendingRegistry) → (tell_cancelled taken r).raised ≡ r.raised
tell_cancelled_raised none r = refl
tell_cancelled_raised (some (id, channel)) r = refl

displace_raised :
    (taken : Option (String × ℕ)) (r : PendingRegistry) → (displace taken r).raised ≡ r.raised
displace_raised none r = refl
displace_raised (some (id, channel)) r = refl

raise_keeps :
    (f : ℕ) (o : Option ℕ) (r : PendingRegistry)
    → has f r.raised ≡ true
    → has f (raise o r).raised ≡ true
raise_keeps f none r h = h
raise_keeps f (some g) r h = ground (arith, has-add g f r.raised)

raise_sets : (f : ℕ) (r : PendingRegistry) → has f (raise (some f) r).raised ≡ true
raise_sets f r = ground (arith, has-add f f r.raised)

pub tell_all_raised :
    (m : Map String PendingEntry) (r : PendingRegistry) → (tell_all m r).raised ≡ r.raised
tell_all_raised [] r = refl
tell_all_raised ((id, e) ∷ m) r = tell_all_raised m (tell_cancelled (some (id, e.sender)) r)

raise_of_path_keeps :
    (f : ℕ) (path : String) (m : Map Key ℕ) (raised : List ℕ)
    → has f raised ≡ true
    → has f (raise_of_path path m raised) ≡ true
raise_of_path_keeps f path [] raised h = h
raise_of_path_keeps f path ((key, g) ∷ m) raised h =
    ground (arith, raise_of_path_keeps f path m raised h, has-add g f (raise_of_path path m raised))

raise_all_keeps :
    (f : ℕ) (m : Map Key ℕ) (raised : List ℕ)
    → has f raised ≡ true
    → has f (raise_all m raised) ≡ true
raise_all_keeps f [] raised h = h
raise_all_keeps f ((key, g) ∷ m) raised h =
    ground (arith, raise_all_keeps f m raised h, has-add g f (raise_all m raised))

pub raise_all_sets :
    (f : ℕ) (key : Key) (m : Map Key ℕ) (raised : List ℕ)
    → lookup key m ≡ some f
    → has f (raise_all m raised) ≡ true
unfolding lookup
raise_all_sets f key [] raised h = absurd (ground arith)
raise_all_sets f key ((j, g) ∷ m) raised h =
    ground (arith, raise_all_sets f key m raised, has-add g f (raise_all m raised))

cancel_get_secrets_keeps :
    (f : ℕ) (key : Key) (r : PendingRegistry)
    → has f r.raised ≡ true
    → has f (cancel_get_secrets key r).raised ≡ true
unfolding cancel_get_secrets
cancel_get_secrets_keeps f key r h =
    let up = raise (lookup key r.inflight) r in
    let found = id_of_key key up.requests in
    let (t, taken) = remove_found found up in
    ground (
      arith,
      raise_keeps f (lookup key r.inflight) r h,
      remove_found_raised found up,
      tell_cancelled_raised taken t,
    )

pub cancel_get_secrets_sets :
    (f : ℕ) (key : Key) (r : PendingRegistry)
    → lookup key r.inflight ≡ some f
    → has f (cancel_get_secrets key r).raised ≡ true
unfolding cancel_get_secrets
cancel_get_secrets_sets f key r e =
    let up = raise (some f) r in
    let found = id_of_key key up.requests in
    let (t, taken) = remove_found found up in
    ground (arith, raise_sets f r, remove_found_raised found up, tell_cancelled_raised taken t)

cancel_keys_keeps :
    (f : ℕ) (keys : List Key) (r : PendingRegistry)
    → has f r.raised ≡ true
    → has f (cancel_keys keys r).raised ≡ true
unfolding cancel_keys
cancel_keys_keeps f [] r h = h
cancel_keys_keeps f (key ∷ keys) r h =
    cancel_keys_keeps f keys (cancel_get_secrets key r) (cancel_get_secrets_keeps f key r h)

register_pending_raised :
    (c : Clock) (q : PendingSecretRequest) (owners : List String) (r : PendingRegistry)
    → ((register_pending c q owners r).0).raised ≡ r.raised
unfolding register_pending
register_pending_raised c q owners r =
    let made = record r { channels = suc r.channels } in
    let found = id_of_key q.key r.requests in
    let (without, displaced) = remove_found found made in
    ground (
      arith,
      remove_found_raised found made,
      displace_raised displaced (put_entry q owners r.channels without),
    )

begin_lookup_keeps :
    (f : ℕ) (q : PendingSecretRequest) (r : PendingRegistry)
    → has f r.raised ≡ true
    → has f ((begin_lookup q r).0).raised ≡ true
unfolding begin_lookup cancel_get_secrets
begin_lookup_keeps f q r h = elim (Bool-cases (is_current_owner q.nm_owner r)) [
  | inl b ↦ rw (b, begin_lookup) (cancel_get_secrets_keeps f q.key r h)
  | inr b ↦ rw (b, begin_lookup) h
]

conclude_wait_keeps :
    (f : ℕ) (q : PendingSecretRequest) (o : Option (Result SecretAgentError SecretResponse))
    (r : PendingRegistry)
    → has f r.raised ≡ true
    → has f ((conclude_wait q o r).0).raised ≡ true
conclude_wait_keeps f q none r h = h
conclude_wait_keeps f q (some (ok a)) r h = h
conclude_wait_keeps f q (some (err e)) r h = h

pub step_keeps :
    (f : ℕ) (o : Operation) (r : PendingRegistry)
    → has f r.raised ≡ true
    → has f (step r o).raised ≡ true
unfolding step publish begin_lookup cancel_get_secrets end_lookup end_pending delete_secrets
    change_network_manager_owner provide remove_for_owner await_response
step_keeps f (registers c q owners) r h =
    subst (λ x. has f x ≡ true) (sym (register_pending_raised c q owners r)) h
step_keeps f (publishes c q) r h = ground arith
step_keeps f (begins_lookup q) r h = begin_lookup_keeps f q r h
step_keeps f (ends_lookup key flag) r h = ground arith
step_keeps f (ends_pending id) r h = h
step_keeps f (cancels key) r h = cancel_get_secrets_keeps f key r h
step_keeps f (deletes path) r h =
    cancel_keys_keeps f (keys_of_path path r.requests)
      (record r { raised = raise_of_path path r.inflight r.raised })
      (raise_of_path_keeps f path r.inflight r.raised h)
step_keeps f (changes_owner owner) r h =
    let t = record r {
      nm_owner = owner;
      raised = raise_all r.inflight r.raised;
      inflight = [];
      requests = [];
    } in
    ground (arith, raise_all_keeps f r.inflight r.raised h, tell_all_raised r.requests t)
step_keeps f (awaits seen c q x) r h =
    conclude_wait_keeps f q
      (receive_round (ensure_delivery_live seen.0 q seen.1) (ensure_delivery_live c q r) x) r h
step_keeps f (provides seen c owner p) r h = ground arith

pub run_keeps :
    (f : ℕ) (os : List Operation) (r : PendingRegistry)
    → has f r.raised ≡ true
    → has f (run r os).raised ≡ true
unfolding run
run_keeps f [] r h = h
run_keeps f (o ∷ os) r h = run_keeps f os (step r o) (step_keeps f o r h)
