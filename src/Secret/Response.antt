-- ===== src/Secret/Response.antt =====
-- `apply_secret_response` of src/daemon_secret.rs: what a frontend's answer writes into the connection that
-- NetworkManager gets back. The text fields of a setting are read and written as `text` and `set_text` of
-- src/network_credentials.rs do; the setting is fixed by the request. A hash map is an association list,
-- whose order stands for the order of iteration.
pub mod Written
use nm_daemon.Base.{
  ℕ, ◌≡◌, refl, String, Bool, true, false, not, ◌&&◌, Option, none, some, List, [], ◌∷◌, Result, ok,
  err, ◌>>=◌, ◌>>◌, if◌then◌else◌, is_some, all, option_filter, or_else, ◌==◌, string_eq,
}
use nm_daemon.Base.Map.{Map, lookup, insert, contains}
use nm_daemon.Base.Sets.{has}
use nm_daemon.Secret.Policy.{Policy, Rejection, rejection}
use nm_daemon.Secret.Registry.{SecretResponse}

pub record Schema : Type 1 where
  pub Connection : Type 0
  pub text : Connection → String → Option String
  pub set_text : Connection → String → String → Option Connection
  -- What is written is read back, and nothing else changes.
  pub text-set_text :
      (c : Connection) (k v : String) (d : Connection) (j : String)
      → set_text c k v ≡ some d
      → text d j ≡ (if k == j then some v else text c j)

pub data ResponseError : Type 0 where
  cancelled_by_frontend no_requested_value unsupported_field incomplete : ResponseError
  refused : Rejection → ResponseError

abbrev pub is_empty_text : String → Bool
is_empty_text s = s == ""

abbrev present : Option String → Bool
present none = false
present (some v) = not (is_empty_text v)

-- `primary_secret_key`, with the default key of the setting.
abbrev primary_secret_key : String → List String → String
primary_secret_key default [] = default
primary_secret_key default (key ∷ keys) = key

abbrev entry_or_insert : String → String → Map String String → Map String String
entry_or_insert k v m = if contains k m then m else insert k v m

-- `response_values`: the password stands for the primary key, unless the values have it.
pub response_values : String → List String → SecretResponse → Map String String
response_values default keys r = elim (option_filter (λ p. not (is_empty_text p)) r.password) [
  | none ↦ r.values
  | some p ↦ entry_or_insert (primary_secret_key default keys) p r.values
]

-- `values.retain`: the values that were asked for and are not empty.
unfoldable pub requested_values : List String → Map String String → Map String String
requested_values keys [] = []
requested_values keys ((k, v) ∷ m) =
    let rest = requested_values keys m in
    if has k keys && not (is_empty_text v) then (k, v) ∷ rest else rest

module _ (schema : Schema) where
  open schema use {Connection, text, set_text}

  -- `apply_response_values`
  unfoldable pub apply_values : Map String String → Connection → Result ResponseError Connection
  apply_values [] c = ok c
  apply_values ((k, v) ∷ m) c = elim (set_text c k v) [
    | none ↦ err unsupported_field
    | some d ↦ apply_values m d
  ]

  -- `secret_value_present`, for all the keys: `request_values_complete`.
  abbrev pub values_complete : List String → Connection → Bool
  values_complete keys c = all (λ k. present (text c k)) keys

  -- The connection, and the values to confirm once the activation is over, if they are to be saved.
  abbrev finish_response :
      Bool
      → List String
      → Map String String
      → Connection
      → Result ResponseError (Connection × Option (Map String String))
  finish_response save keys values c =
      if values_complete keys c then ok (c, if save then some values else none) else err incomplete

  abbrev write_values :
      Bool
      → List String
      → Map String String
      → Connection
      → Result ResponseError (Connection × Option (Map String String))
  write_values save keys [] c = err no_requested_value
  write_values save keys (p ∷ ps) c = apply_values (p ∷ ps) c >>= finish_response save keys (p ∷ ps)

  -- `apply_secret_response`
  unfoldable pub apply_secret_response :
      String
      → List String
      → Policy
      → SecretResponse
      → Connection
      → Result ResponseError (Connection × Option (Map String String))
  unfolding response_values
  apply_secret_response default keys policy r c =
      if r.cancelled then err cancelled_by_frontend else elim (rejection policy r.save) [
        | some reason ↦ err (refused reason)
        | none ↦ write_values r.save keys (requested_values keys (response_values default keys r)) c
      ]
