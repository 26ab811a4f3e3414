-- ===== src/Secret/Once/Narrowing.antt =====
-- The operations that make no channel, and what they do to the counts.
use nm_daemon.Base.{
  Result, ok, err, text_pair_eq, ℕ, ◌+◌, ◌≤◌, ◌≡◌, refl, ◌∙◌, inl, inr, String, not, Option, none,
  some, List, [], ◌∷◌, arith, ◌==◌, ◌||◌, nat_eq, string_eq, option_eq, Bool-cases, Option-cases,
}
use nm_daemon.Base.Map.{Map, lookup, contains}
use nm_daemon.Secret.Registry.{
  SecretAgentError, SecretResponse, Key, PendingEntry, PendingSecretRequest, PendingRegistry, Clock,
  id_of_key, remove_found, raise, tell_cancelled, remove_for_owner, is_current_owner, request_live,
}
use nm_daemon.Secret.Agent.{
  Received, receive_round, ensure_delivery_live, conclude_wait, await_response, publish,
  begin_lookup, end_lookup, end_pending, cancel_get_secrets, cancel_keys, keys_of_path,
  raise_of_path, raise_all, delete_secrets, change_network_manager_owner, tell_all,
  SecretProvideParams, provide_rejection, provide,
}
use nm_daemon.Secret.Once.Counts.{
  one_if, open_on, sent_on, prompts_for, uses, open_on-remove, prompts_for-remove,
}

-- What an operation that makes no channel may do to the counts.
pub record Narrows (r t : PendingRegistry) : Type 0 where
  pub fewer_uses : (c : ℕ) → uses c t ≤ uses c r
  pub fewer_prompts : (k : Key) → prompts_for k t.requests ≤ prompts_for k r.requests
  pub same_channels : t.channels ≡ r.channels

pub Narrows-refl : (r : PendingRegistry) → Narrows r r
Narrows-refl r = record {
  fewer_uses = λ c. omega arith;
  fewer_prompts = λ k. omega arith;
  same_channels = refl;
}

pub Narrows-trans : (r s t : PendingRegistry) → Narrows r s → Narrows s t → Narrows r t
Narrows-trans r s t a b = record {
  fewer_uses = λ c. omega (arith, a.fewer_uses c, b.fewer_uses c);
  fewer_prompts = λ k. omega (arith, a.fewer_prompts k, b.fewer_prompts k);
  same_channels = b.same_channels ∙ a.same_channels;
}

abbrev pub taken_on_of : ℕ → Option (String × ℕ) → ℕ
taken_on_of c none = 0
taken_on_of c (some (id, channel)) = one_if (channel == c)

-- Taking a request out frees its channel for one message.
pub remove_found-uses :
    (c : ℕ) (o : Option String) (r : PendingRegistry)
    → let (t, taken) = remove_found o r in uses c t + taken_on_of c taken ≤ uses c r
remove_found-uses c none r = omega arith
remove_found-uses c (some id) r = elim (Option-cases (lookup id r.requests)) [
  | inl n ↦ ground (arith, open_on-remove c id r.requests)
  | inr (e, n) ↦ ground (arith, open_on-remove c id r.requests)
]

pub remove_found_prompts :
    (k : Key) (o : Option String) (r : PendingRegistry)
    → prompts_for k ((remove_found o r).0).requests ≤ prompts_for k r.requests
remove_found_prompts k none r = omega arith
remove_found_prompts k (some id) r = elim (Option-cases (lookup id r.requests)) [
  | inl n ↦ ground (arith, prompts_for-remove k id r.requests)
  | inr (e, n) ↦ ground (arith, prompts_for-remove k id r.requests)
]

pub remove_found_channels :
    (o : Option String) (r : PendingRegistry) → ((remove_found o r).0).channels ≡ r.channels
remove_found_channels none r = refl
remove_found_channels (some id) r = elim (Option-cases (lookup id r.requests)) [
  | inl n ↦ ground arith
  | inr (e, n) ↦ ground arith
]

pub tell_cancelled_lem :
    (c : ℕ) (k : Key) (taken : Option (String × ℕ)) (t : PendingRegistry)
    → (uses c (tell_cancelled taken t) ≡ uses c t + taken_on_of c taken)
      × (prompts_for k (tell_cancelled taken t).requests ≡ prompts_for k t.requests)
      × ((tell_cancelled taken t).channels ≡ t.channels)
tell_cancelled_lem c k none t = (omega arith, refl, refl)
tell_cancelled_lem c k (some (id, channel)) t = (omega arith, refl, refl)

pub raise_lem :
    (o : Option ℕ) (r : PendingRegistry)
    → ((raise o r).requests ≡ r.requests)
      × ((raise o r).sent ≡ r.sent)
      × ((raise o r).channels ≡ r.channels)
raise_lem none r = (refl, refl, refl)
raise_lem (some flag) r = (refl, refl, refl)

pub cancel_get_secrets-Narrows :
    (key : Key) (r : PendingRegistry) → Narrows r (cancel_get_secrets key r)
unfolding cancel_get_secrets
cancel_get_secrets-Narrows key r =
    let up = raise (lookup key r.inflight) r in
    let (same, quiet, channels) = raise_lem (lookup key r.inflight) r in
    let found = id_of_key key up.requests in
    let (t, taken) = remove_found found up in
    record {
      fewer_uses = λ c.
          ground
            (arith, remove_found-uses c found up, tell_cancelled_lem c key taken t, same, quiet);
      fewer_prompts = λ k.
          ground (arith, remove_found_prompts k found up, tell_cancelled_lem 0 k taken t, same);
      same_channels =
          ground
            (arith, remove_found_channels found up, tell_cancelled_lem 0 key taken t, channels);
    }

pub begin_lookup-Narrows :
    (q : PendingSecretRequest) (r : PendingRegistry) → Narrows r (begin_lookup q r).0
unfolding begin_lookup cancel_get_secrets
begin_lookup-Narrows q r =
    let n = cancel_get_secrets-Narrows q.key r in
    elim (Bool-cases (is_current_owner q.nm_owner r)) [
      | inl b ↦
          rw (b, begin_lookup)
            (record {
              fewer_uses = n.fewer_uses;
              fewer_prompts = n.fewer_prompts;
              same_channels = n.same_channels;
            })
      | inr b ↦ rw (b, begin_lookup) (Narrows-refl r)
    ]

pub end_lookup-Narrows :
    (key : Key) (flag : ℕ) (r : PendingRegistry) → Narrows r (end_lookup key flag r)
unfolding end_lookup
end_lookup-Narrows key flag r = elim (Bool-cases (lookup key r.inflight == some flag)) [
  | inl b ↦
      rw (b, end_lookup)
        (record {
          fewer_uses = λ c. omega arith;
          fewer_prompts = λ k. omega arith;
          same_channels = refl;
        })
  | inr b ↦ rw (b, end_lookup) (Narrows-refl r)
]

pub end_pending-Narrows : (id : String) (r : PendingRegistry) → Narrows r (end_pending id r)
unfolding end_pending
end_pending-Narrows id r = record {
  fewer_uses = λ c. omega (arith, open_on-remove c id r.requests);
  fewer_prompts = λ k. prompts_for-remove k id r.requests;
  same_channels = refl;
}

pub publish-Narrows :
    (c : Clock) (q : PendingSecretRequest) (r : PendingRegistry) → Narrows r (publish c q r).0
unfolding publish
publish-Narrows c q r =
    elim (Bool-cases (not (contains q.id r.requests) || not (request_live c r q))) [
      | inl b ↦ rw b (Narrows-refl r)
      | inr b ↦ rw b (record {
        fewer_uses = λ c. omega arith;
        fewer_prompts = λ k. omega arith;
        same_channels = refl;
      })
    ]

pub cancel_keys-Narrows : (keys : List Key) (r : PendingRegistry) → Narrows r (cancel_keys keys r)
unfolding cancel_keys
cancel_keys-Narrows [] r = Narrows-refl r
cancel_keys-Narrows (key ∷ keys) r =
    Narrows-trans r (cancel_get_secrets key r) _ (cancel_get_secrets-Narrows key r)
      (cancel_keys-Narrows keys (cancel_get_secrets key r))

pub delete_secrets-Narrows :
    (path : String) (r : PendingRegistry) → Narrows r (delete_secrets path r)
unfolding delete_secrets
delete_secrets-Narrows path r =
    let n =
      cancel_keys-Narrows (keys_of_path path r.requests)
        (record r { raised = raise_of_path path r.inflight r.raised }) in
    record {
      fewer_uses = n.fewer_uses;
      fewer_prompts = n.fewer_prompts;
      same_channels = n.same_channels;
    }

pub tell_all_lem :
    (c : ℕ) (m : Map String PendingEntry) (r : PendingRegistry)
    → (sent_on c (tell_all m r).sent ≡ open_on c m + sent_on c r.sent)
      × ((tell_all m r).requests ≡ r.requests)
      × ((tell_all m r).channels ≡ r.channels)
tell_all_lem c [] r = (omega arith, refl, refl)
tell_all_lem c ((id, e) ∷ m) r =
    let (a, b, d) = tell_all_lem c m (tell_cancelled (some (id, e.sender)) r) in
    (omega (arith, a), b, d)

pub change_network_manager_owner-Narrows :
    (owner : Option String) (r : PendingRegistry) → Narrows r (change_network_manager_owner owner r)
unfolding change_network_manager_owner
change_network_manager_owner-Narrows owner r =
    let t = record r {
      nm_owner = owner;
      raised = raise_all r.inflight r.raised;
      inflight = [];
      requests = [];
    } in
    record {
      fewer_uses = λ c. ground (arith, tell_all_lem c r.requests t);
      fewer_prompts = λ k. ground (arith, tell_all_lem 0 r.requests t);
      same_channels = (tell_all_lem 0 r.requests t).2;
    }

pub provide-Narrows :
    (seen : Clock × PendingRegistry) (c : Clock) (owner : Option String) (p : SecretProvideParams)
    (r : PendingRegistry)
    → Narrows r (provide seen c owner p r).0
unfolding provide remove_for_owner
provide-Narrows seen c owner p r = elim (Option-cases (provide_rejection seen.0 owner p seen.1)) [
  | inr (reason, b) ↦ rw (b, provide) (Narrows-refl r)
  | inl b ↦ record {
    fewer_uses = λ c. ground (arith, open_on-remove c p.request_id r.requests);
    fewer_prompts = λ k. ground (arith, prompts_for-remove k p.request_id r.requests);
    same_channels = ground arith;
  }
]

conclude_wait-Narrows :
    (q : PendingSecretRequest) (o : Option (Result SecretAgentError SecretResponse))
    (r : PendingRegistry)
    → Narrows r (conclude_wait q o r).0
conclude_wait-Narrows q none r = Narrows-refl r
conclude_wait-Narrows q (some (ok a)) r = Narrows-refl r
conclude_wait-Narrows q (some (err e)) r = record {
  fewer_uses = λ c. omega (arith, open_on-remove c q.id r.requests);
  fewer_prompts = λ k. prompts_for-remove k q.id r.requests;
  same_channels = refl;
}

pub await_response-Narrows :
    (seen : Clock × PendingRegistry) (c : Clock) (q : PendingSecretRequest) (x : Received)
    (r : PendingRegistry)
    → Narrows r (await_response seen c q x r).0
unfolding await_response
await_response-Narrows seen c q x r =
    conclude_wait-Narrows q
      (receive_round (ensure_delivery_live seen.0 q seen.1) (ensure_delivery_live c q r) x) r
