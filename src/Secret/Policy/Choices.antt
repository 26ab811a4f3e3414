-- ===== src/Secret/Policy/Choices.antt =====
-- Which choices a policy that was read from a profile allows.
use nm_daemon.Base.{
  ℕ, ◌≡◌, refl, inl, inr, String, Bool, true, false, not, ◌&&◌, ◌||◌, List, [], ◌∷◌, Result, ok,
  err, arith, any, is_some, string_eq, Result-cases,
}
use nm_daemon.Base.Sets.{add, has}
use nm_daemon.Secret.Policy.{
  Policy, default_policy, agent_owned, not_saved, noted, note_keys, from_request, rejection,
  is_empty,
}

-- A key that NetworkManager keeps, and a key that an agent keeps.
abbrev pub kept_by_network_manager : Result String ℕ → Bool
kept_by_network_manager (ok f) = not (agent_owned f) && not (not_saved f)
kept_by_network_manager (err e) = false

abbrev pub kept_by_agent : Result String ℕ → Bool
kept_by_agent (ok f) = agent_owned f && not (not_saved f)
kept_by_agent (err e) = false

is_empty-add : (x : String) (xs : List String) → is_empty (add x xs) ≡ false
unfolding add has
is_empty-add x [] = refl
is_empty-add x (y ∷ ys) = ground arith

module _ (section : String) (flags : String → Result String ℕ) where
  note_keys_lem :
      (keys : List String) (p q : Policy)
      → note_keys section flags keys p ≡ ok q
      → (is_empty q.persistent
          ≡ (is_empty p.persistent && not (any (λ k. kept_by_network_manager (flags k)) keys)))
        × (q.migration_required ≡ (p.migration_required || any (λ k. kept_by_agent (flags k)) keys))
  unfolding note_keys
  note_keys_lem [] p q e = ground arith
  note_keys_lem (key ∷ keys) p q e = elim (Result-cases (flags key)) [
    | inr (x, failed) ↦ absurd (ground arith)
    | inl (f, read) ↦
        ground (arith, is_empty-add key p.persistent, note_keys_lem keys (noted key f p) q)
  ]

  -- The policy that is read for a request refuses to use a password without saving it exactly when
  -- NetworkManager keeps one of the requested keys, and refuses to save it exactly when an agent keeps
  -- one of them.
  choices_follow_flags :
      (keys : List String) (p : Policy)
      → from_request section flags keys ≡ ok p
      → (is_some (rejection p false) ≡ any (λ k. kept_by_network_manager (flags k)) keys)
        × (is_some (rejection p true) ≡ any (λ k. kept_by_agent (flags k)) keys)
  unfolding from_request rejection
  choices_follow_flags [] p e = absurd (ground arith)
  choices_follow_flags (key ∷ keys) p e =
      ground (arith, note_keys_lem (key ∷ keys) default_policy p e)
