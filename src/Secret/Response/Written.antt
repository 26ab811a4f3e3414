-- ===== src/Secret/Response/Written.antt =====
-- What an answer that is accepted has written.
use nm_daemon.Base.{
  ◌≡◌, ◌≢◌, refl, ◌∙◌, ap, inl, inr, String, Bool, true, false, not, Option, none, some, List, [],
  ◌∷◌, ok, arith, if◌then◌else◌, is_some, All, Distinct, string_eq, Bool-cases, Option-cases,
  Result-cases, option_filter, ◌==◌,
}
use nm_daemon.Base.Map.{
  Map, lookup, contains, keys, lookup-insert, insert-Distinct, lookup-of-fresh,
}
use nm_daemon.Base.Sets.{has}
use nm_daemon.Secret.Policy.{Policy, rejection}
use nm_daemon.Secret.Registry.{SecretResponse}
use nm_daemon.Secret.Response.{
  Schema, is_empty_text, primary_secret_key, entry_or_insert, response_values, requested_values,
  apply_values, values_complete, write_values, apply_secret_response,
}

-- A value, or what was there.
abbrev pub over : Option String → Option String → Option String
over none old = old
over (some v) old = some v

requested-keys :
    (wanted : List String) (j : String) (m : Map String String)
    → All (λ k. k ≢ j) (keys m)
    → All (λ k. k ≢ j) (keys (requested_values wanted m))
unfolding requested_values
requested-keys wanted j [] h = tt
requested-keys wanted j ((k, v) ∷ m) h = ground (arith, requested-keys wanted j m h.1)

requested-Distinct :
    (wanted : List String) (m : Map String String)
    → Distinct (keys m)
    → Distinct (keys (requested_values wanted m))
unfolding requested_values
requested-Distinct wanted [] d = tt
requested-Distinct wanted ((k, v) ∷ m) d =
    ground (arith, requested-Distinct wanted m d.1, requested-keys wanted k m d.0)

-- A value that is not empty.
abbrev pub filled : Option String → Option String
filled o = option_filter (λ v. not (is_empty_text v)) o

-- What an answer gives to a key: the value of that name, or else, to the primary key, its password.
abbrev pub given : String → List String → SecretResponse → String → Option String
given default wanted r j = elim (lookup j r.values) [
  | some v ↦ some v
  | none ↦ if primary_secret_key default wanted == j then filled r.password else none
]

lookup-requested :
    (wanted : List String) (j : String) (m : Map String String)
    → Distinct (keys m)
    → lookup j (requested_values wanted m) ≡ (if has j wanted then filled (lookup j m) else none)
unfolding requested_values lookup
lookup-requested wanted j [] d = ground arith
lookup-requested wanted j ((k, w) ∷ m) d =
    ground (arith, lookup-requested wanted j m d.1, lookup-of-fresh k m d.0, string_eq.beq_iff k j)

entry_or_insert-Distinct :
    (k v : String) (m : Map String String)
    → Distinct (keys m)
    → Distinct (keys (entry_or_insert k v m))
entry_or_insert-Distinct k v m d = elim (Bool-cases (contains k m)) [
  | inl b ↦ rw b d
  | inr b ↦ rw b (insert-Distinct k v m d)
]

response_values-Distinct :
    (default : String) (wanted : List String) (r : SecretResponse)
    → Distinct (keys r.values)
    → Distinct (keys (response_values default wanted r))
unfolding response_values
response_values-Distinct default wanted r d =
    elim (Option-cases (option_filter (λ p. not (is_empty_text p)) r.password)) [
      | inl n ↦ rw (n, response_values) d
      | inr (p, n) ↦
          rw (n, response_values)
            (entry_or_insert-Distinct (primary_secret_key default wanted) p r.values d)
    ]

lookup-response_values :
    (default : String) (wanted : List String) (r : SecretResponse) (j : String)
    → lookup j (response_values default wanted r) ≡ given default wanted r j
unfolding response_values
lookup-response_values default wanted r j =
    let k = primary_secret_key default wanted in
    elim (Option-cases (option_filter (λ p. not (is_empty_text p)) r.password)) [
      | inl n ↦ rw (n, response_values) (ground arith)
      | inr (p, n) ↦
          rw (n, response_values)
            (ground (arith, lookup-insert k j p r.values, string_eq.beq_iff k j))
    ]

written_over :
    (asked : Bool) (found answer old : Option String)
    → found ≡ answer
    → over (if asked then filled found else none) old
      ≡ (if asked then over (filled answer) old else old)
written_over true found answer old e = ap (λ o. over (filled o) old) e
written_over false found answer old e = refl

module _ (schema : Schema) where
  open schema use {Connection, text, set_text, text-set_text}

  text-apply_values :
      (m : Map String String) (c d : Connection) (j : String)
      → Distinct (keys m)
      → apply_values schema m c ≡ ok d
      → text d j ≡ over (lookup j m) (text c j)
  unfolding apply_values lookup
  text-apply_values [] c d j u e = ground arith
  text-apply_values ((k, v) ∷ m) c d j (a, u) e = elim (Option-cases (set_text c k v)) [
    | inl n ↦ absurd (ground arith)
    | inr (c', n) ↦ ground (
      arith,
      text-set_text c k v c' j n,
      text-apply_values m c' d j u,
      lookup-of-fresh k m a,
      string_eq.beq_iff k j,
    )
  ]

  -- The writing, on a response that is neither cancelled nor refused.
  write_values_lem :
      (save : Bool) (wanted : List String) (m : Map String String) (c d : Connection)
      (kept : Option (Map String String))
      → write_values schema save wanted m c ≡ ok (d, kept)
      → (apply_values schema m c ≡ ok d)
        × (values_complete schema wanted d ≡ true)
        × (kept ≡ (if save then some m else none))
  write_values_lem save wanted [] c d kept e = absurd (ground arith)
  write_values_lem save wanted (p ∷ ps) c d kept e =
      elim (Result-cases (apply_values schema (p ∷ ps) c)) [
        | inr (x, n) ↦ absurd (ground arith)
        | inl (x, n) ↦ ground arith
      ]

  -- When an answer is accepted, it was not a cancellation, the policy allowed its choice, and each key
  -- that was requested has a value. A requested key to which the answer gives a value that is not
  -- empty, by name or as the password of the primary key, has that value; every other key is as it was.
  -- And there are values to confirm afterwards exactly when saving was asked for.
  pub accepted_response :
      (default : String) (wanted : List String) (policy : Policy) (r : SecretResponse)
      (c d : Connection) (kept : Option (Map String String))
      → Distinct (keys r.values)
      → apply_secret_response schema default wanted policy r c ≡ ok (d, kept)
      → (r.cancelled ≡ false)
        × (rejection policy r.save ≡ none)
        × (values_complete schema wanted d ≡ true)
        × ((j : String)
            → text d j ≡ (
                if has j wanted
                then over (filled (given default wanted r j)) (text c j)
                else text c j))
        × (is_some kept ≡ r.save)
  unfolding apply_secret_response
  accepted_response default wanted policy r c d kept u e =
      let m = response_values default wanted r in
      let values = requested_values wanted m in
      let merged = response_values-Distinct default wanted r u in
      let distinct = requested-Distinct wanted m merged in
      elim (Bool-cases r.cancelled) [
        | inl b ↦ absurd (ground arith)
        | inr b ↦ elim (Option-cases (rejection policy r.save)) [
          | inr (reason, n) ↦ absurd (ground arith)
          | inl n ↦
              let (a, complete, saved) =
                write_values_lem r.save wanted values c d kept (ground arith) in
              (
                b,
                n,
                complete,
                λ j.
                    text-apply_values values c d j distinct a
                    ∙ ap (λ o. over o (text c j)) (lookup-requested wanted j m merged)
                    ∙ written_over (has j wanted) (lookup j m) (given default wanted r j) (text c j)
                        (lookup-response_values default wanted r j),
                ground arith,
              )
        ]
      ]
