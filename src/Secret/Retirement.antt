-- ===== src/Secret/Retirement.antt =====
-- What a cancellation, or a change of NetworkManager's owner, puts an end to. Flags stay raised.
pub mod Raised
use nm_daemon.Base.{
  Result, ok, All, text_pair_eq, ℕ, suc, ◌+◌, ◌≡◌, ◌≢◌, refl, sym, subst, ◌∙◌, ◌⊎◌, inl, inr,
  String, true, Option, none, some, List, [], ◌∷◌, err, arith, nat_eq, string_eq, option_eq,
  option_beq_iff, Bool-cases, Option-cases,
}
use nm_daemon.Base.Map.{Map, lookup}
use nm_daemon.Base.Sets.{has, has-add}
use nm_daemon.Secret.Registry.{
  SecretAgentError, SecretResponse, Key, PendingEntry, PendingSecretRequest, PendingRegistry, Clock,
  id_of_key, remove_found, raise, tell_cancelled, put_entry, displace, remove_for_owner,
  user_canceled, agent_failed, is_current_owner,
}
use nm_daemon.Secret.Agent.{
  register_pending, publish, begin_lookup, end_lookup, end_pending, cancel_get_secrets, cancel_keys,
  keys_of_path, raise_of_path, raise_all, delete_secrets, change_network_manager_owner, tell_all,
  provide, await_response, conclude_wait, receive_round, ensure_delivery_live,
}
use nm_daemon.Secret.Once.{
  Operation, registers, publishes, begins_lookup, ends_lookup, ends_pending, cancels, deletes,
  changes_owner, provides, step, run, awaits,
}
use nm_daemon.Secret.Once.Counts.{sent_on, open_on, cancelled_on}
use nm_daemon.Secret.Prompts.{prompts_of, Own, step_prompts}
use nm_daemon.Secret.Once.Narrowing.{tell_all_lem}
use nm_daemon.Secret.Retirement.Raised.{
  tell_all_raised, raise_all_sets, cancel_get_secrets_sets, step_keeps, run_keeps,
}

register_refused :
    (c : Clock) (q : PendingSecretRequest) (owners : List String) (r : PendingRegistry)
    → (q.nm_owner ≢ r.nm_owner) ⊎ (has q.cancelled r.raised ≡ true)
    → ((register_pending c q owners r).0).requests ≡ r.requests
unfolding register_pending
register_refused c q owners r h = elim (Bool-cases (is_current_owner q.nm_owner r)) [
  | inr b ↦ rw (b, register_pending) refl
  | inl b ↦ elim h [
    | inl other ↦ absurd (other (sym ((option_beq_iff r.nm_owner q.nm_owner).0 b)))
    | inr up ↦ rw (b, up, register_pending) refl
  ]
]

register_refusal :
    (c : Clock) (q : PendingSecretRequest) (owners : List String) (r : PendingRegistry)
    → has q.cancelled r.raised ≡ true
    → ((register_pending c q owners r).1 ≡ err agent_failed)
      ⊎ ((register_pending c q owners r).1 ≡ err user_canceled)
unfolding register_pending
register_refusal c q owners r up = elim (Bool-cases (is_current_owner q.nm_owner r)) [
  | inr b ↦ inl (rw (b, register_pending) refl)
  | inl b ↦ inr (rw (b, up, register_pending) refl)
]

tell_all_rest :
    (m : Map String PendingEntry) (r : PendingRegistry)
    → ((tell_all m r).inflight ≡ r.inflight) × ((tell_all m r).nm_owner ≡ r.nm_owner)
tell_all_rest [] r = (refl, refl)
tell_all_rest ((id, e) ∷ m) r = tell_all_rest m (tell_cancelled (some (id, e.sender)) r)

run_prompts :
    (q : PendingSecretRequest) (os : List Operation) (r : PendingRegistry)
    → has q.cancelled r.raised ≡ true
    → All (Own q) os
    → prompts_of q.id (run r os).events ≡ prompts_of q.id r.events
unfolding run
run_prompts q [] r h own = refl
run_prompts q (o ∷ os) r h (own, owns) =
    run_prompts q os (step r o) (step_keeps q.cancelled o r h) owns ∙ step_prompts q o r h own

-- A request whose lookup NetworkManager cancels never prompts again: whatever happens afterwards, as
-- long as nothing else is published under its id, no further prompt is published for it; an attempt
-- to publish its prompt is refused and changes nothing, and an attempt to register it is refused and
-- adds no pending request. (That it was cancelled may still be told to the frontends.)
pub cancelled_never_prompts :
    (q : PendingSecretRequest) (r : PendingRegistry) (os : List Operation) (c : Clock)
    (owners : List String)
    → lookup q.key r.inflight ≡ some q.cancelled
    → All (Own q) os
    → let t = run (cancel_get_secrets q.key r) os in
      (prompts_of q.id t.events ≡ prompts_of q.id (cancel_get_secrets q.key r).events)
      × ((publish c q t).0 ≡ t)
      × ((publish c q t).1 ≡ err user_canceled)
      × (((register_pending c q owners t).0).requests ≡ t.requests)
      × (((register_pending c q owners t).1 ≡ err agent_failed)
          ⊎ ((register_pending c q owners t).1 ≡ err user_canceled))
unfolding publish register_pending
cancelled_never_prompts q r os c owners e owns =
    let s = cancel_get_secrets q.key r in
    let t = run s os in
    let raised = cancel_get_secrets_sets q.cancelled q.key r e in
    let up = run_keeps q.cancelled os s raised in
    (
      run_prompts q os s raised owns,
      ground arith,
      ground arith,
      register_refused c q owners t (inr up),
      register_refusal c q owners t up,
    )

tell_all_cancels :
    (c : ℕ) (m : Map String PendingEntry) (r : PendingRegistry)
    → cancelled_on c (tell_all m r).sent ≡ open_on c m + cancelled_on c r.sent
tell_all_cancels c [] r = omega arith
tell_all_cancels c ((id, e) ∷ m) r =
    omega (arith, tell_all_cancels c m (tell_cancelled (some (id, e.sender)) r))

-- When NetworkManager's owner changes, each pending request is sent one message, a cancellation, and
-- nothing else is sent; no request is pending any more, each lookup under way is cancelled, and no
-- request of another owner, or of a lookup that was under way, can be registered after it.
pub owner_change_retires :
    (owner : Option String) (r : PendingRegistry)
    → let t = change_network_manager_owner owner r in
      (t.requests ≡ [])
      × (t.inflight ≡ [])
      × ((channel : ℕ)
          → (sent_on channel t.sent ≡ open_on channel r.requests + sent_on channel r.sent)
            × (cancelled_on channel t.sent
                ≡ open_on channel r.requests + cancelled_on channel r.sent))
      × ((key : Key) (f : ℕ) → lookup key r.inflight ≡ some f → has f t.raised ≡ true)
      × ((c : Clock) (q : PendingSecretRequest) (owners : List String)
          → (q.nm_owner ≢ owner) ⊎ (has q.cancelled t.raised ≡ true)
          → ((register_pending c q owners t).0).requests ≡ [])
unfolding change_network_manager_owner register_pending
owner_change_retires owner r =
    let u = record r {
      nm_owner = owner;
      raised = raise_all r.inflight r.raised;
      inflight = [];
      requests = [];
    } in
    let t = tell_all r.requests u in
    let none_left = (tell_all_lem 0 r.requests u).1 in
    (
      none_left,
      (tell_all_rest r.requests u).0,
      λ channel. ((tell_all_lem channel r.requests u).0, tell_all_cancels channel r.requests u),
      λ key f e.
          subst (λ x. has f x ≡ true) (sym (tell_all_raised r.requests u))
            (raise_all_sets f key r.inflight r.raised e),
      λ c q owners h.
          register_refused c q owners t (elim h [
            | inl other ↦ inl (λ same. other (same ∙ (tell_all_rest r.requests u).1))
            | inr up ↦ inr up
          ])
          ∙ none_left,
    )
