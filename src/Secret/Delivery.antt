-- ===== src/Secret/Delivery.antt =====
-- Who may answer a request, and what a cancellation or a change of NetworkManager's owner puts an end to.
use nm_daemon.Base.{
  text_pair_eq, ℕ, ◌≡◌, refl, ◌⊎◌, inl, inr, String, true, Option, none, some, ◌∷◌, arith, nat_eq,
  string_eq, option_eq, Bool-cases, Option-cases,
}
use nm_daemon.Base.Map.{lookup, lookup-remove}
use nm_daemon.Secret.Registry.{
  PendingEntry, PendingRegistry, Clock, remove_for_owner, answers_for, request_live,
}
use nm_daemon.Secret.Agent.{SecretProvideParams, provide_rejection, provide, response_of}

-- An answer that reaches a waiting request: what the registry then held for it.
abbrev Answered : Clock → Option String → SecretProvideParams → PendingRegistry → ℕ → Type 0
Answered c owner p r channel =
    (e : PendingEntry) × (lookup p.request_id r.requests ≡ some e)
    × (e.sender ≡ channel)
    × (answers_for owner e ≡ true)
    × (request_live c r e.request ≡ true)

-- Either an answer sends nothing, or it sends what its caller gave, once, to the request of its id:
-- then the caller is one of the frontends that were asked, the request is not cancelled, its time has
-- not run out and its activation is live, and it is no longer pending.
pub provide_authorized :
    (seen : Clock × PendingRegistry) (c : Clock) (owner : Option String) (p : SecretProvideParams)
    (r : PendingRegistry)
    → let t = (provide seen c owner p r).0 in
      (t.sent ≡ r.sent)
      ⊎ ((channel : ℕ) × (t.sent ≡ (channel, response_of p) ∷ r.sent)
          × Answered c owner p r channel
          × (lookup p.request_id t.requests ≡ none))
unfolding provide remove_for_owner
provide_authorized seen c owner p r =
    elim (Option-cases (provide_rejection seen.0 owner p seen.1)) [
      | inr (reason, b) ↦ inl (rw (b, provide) refl)
      | inl b ↦ elim (Option-cases (lookup p.request_id r.requests)) [
        | inl n ↦ inl (ground arith)
        | inr (e, n) ↦ elim (Bool-cases (answers_for owner e)) [
          | inr stranger ↦ inl (ground arith)
          | inl asked ↦ elim (Bool-cases (request_live c r e.request)) [
            | inr dead ↦ inl (ground arith)
            | inl alive ↦ inr (
              e.sender,
              ground arith,
              (e, n, refl, asked, alive),
              ground (
                arith,
                lookup-remove p.request_id p.request_id r.requests,
                string_eq.beq_iff p.request_id p.request_id,
              ),
            )
          ]
        ]
      ]
    ]
