-- ===== src/Model/Selection.antt =====
-- src/model/selection.rs: the selectors of connections, and their precedence.
use mathlib.Core.Option
use nm_daemon.Base.{
  String, Bool, true, false, ◌≡◌, ◌⊎◌, inl, inr, Option, none, some, List, [], ◌∷◌, ◌++◌, arith,
  ◌==◌, find, or_else, All, Result, ok, err, ◌>>=◌, ok_or, ap, ◌∙◌, Result-cases, Bool-cases,
  string_eq,
}

pub data SelectionKind : Type 0 where
  profile active vpn : SelectionKind

pub data Identity : Type 0 where
  uuid path : String → Identity

-- The operations that `contract` names in its errors.
pub data Operation : Type 0 where
  connect disconnect vpn_operation : Operation

pub data SelectionError : Type 0 where
  validation : Operation → String → SelectionError
  not_found : Operation → String → String → String → SelectionError

abbrev pub contract : SelectionKind → Operation × String × String
contract profile = (
  connect, "network.activateProfile requires uuid or path", "no saved profile matched the request",
)
contract active = (
  disconnect, "network.deactivate requires path or uuid",
  "no active connection matched the request",
)
contract vpn = (
  vpn_operation, "vpn.connect requires uuid or path",
  "no saved VPN or WireGuard profile matched the request",
)

-- `Option::or_else` over `Option::map`.
abbrev prefer : Option Identity → Option Identity → Option Identity
prefer none o = o
prefer (some i) o = some i

abbrev chosen : SelectionKind → Option String → Option String → Option Identity
chosen active u p = prefer (Option.map path p) (Option.map uuid u)
chosen profile u p = prefer (Option.map uuid u) (Option.map path p)
chosen vpn u p = prefer (Option.map uuid u) (Option.map path p)

unfoldable pub identity :
    SelectionKind → Option String → Option String → Result SelectionError Identity
identity kind u p =
    let (operation, required, _) = contract kind in
    ok_or (chosen kind u p) (validation operation required)

unfoldable pub validate :
    SelectionKind → Option String → Option String → Result SelectionError (Unit {0})
validate kind u p = identity kind u p >>= λ _. ok tt

identity_err :
    (kind : SelectionKind) (u p : Option String) (w : SelectionError)
    → identity kind u p ≡ err w
    → (u ≡ none) × (p ≡ none) × (w ≡ validation (contract kind).0 (contract kind).1)
unfolding identity
identity_err profile u p w h = ground arith
identity_err active u p w h = ground arith
identity_err vpn u p w h = ground arith

module _ {ℓ} {T : Type ℓ} (fields : T → String × String) where
  abbrev pub matches : Identity → T → Bool
  matches (uuid expected) item = (fields item).0 == expected
  matches (path expected) item = (fields item).1 == expected

  unfoldable pub select :
      SelectionKind → List T → Option String → Option String → Result SelectionError T
  select kind items u p = do
    i ← identity kind u p
    ok_or (find (matches i) items) (
        let (operation, _, missing) = contract kind in
        not_found operation missing (or_else u "") (or_else p ""))

  find-split :
      (test : T → Bool) (items : List T) {x : T}
      → find test items ≡ some x
      → (before after : List T) × (items ≡ before ++ (x ∷ after))
        × All (λ y. test y ≡ false) before
        × (test x ≡ true)
  find-split test [] h = absurd (ground arith)
  find-split test (y ∷ items) {x} h = elim (Bool-cases (test y)) [
    | inl q ↦ ([], items, ground arith, tt, ground arith)
    | inr q ↦
        let (before, after, e, none_before, hit) = find-split test items {x = x} (ground arith) in
        (y ∷ before, after, ap (◌∷◌ y) e, (q, none_before), hit)
  ]

  find-none :
      (test : T → Bool) (items : List T) → find test items ≡ none → All (λ y. test y ≡ false) items
  find-none test [] h = tt
  find-none test (y ∷ items) h = elim (Bool-cases (test y)) [
    | inl q ↦ absurd (ground arith)
    | inr q ↦ (q, find-none test items (ground arith))
  ]

  -- A selection succeeds with the first item that the one preferred key matches: the UUID if there
  -- is one, and for an active connection the path if there is one. Another key is not tried.
  select_first :
      (kind : SelectionKind) (items : List T) (u p : Option String) {x : T}
      → select kind items u p ≡ ok x
      → (i : Identity) × (identity kind u p ≡ ok i)
        × (before after : List T) × (items ≡ before ++ (x ∷ after))
        × All (λ y. matches i y ≡ false) before
        × (matches i x ≡ true)
  unfolding select
  select_first kind items u p {x} h = elim (Result-cases (identity kind u p)) [
    | inr (z, e) ↦ absurd (ground arith)
    | inl (i, e) ↦
        let (before, after, s, n, m) = find-split (matches i) items {x = x} (ground arith) in
        (i, e, before, after, s, n, m)
  ]

  -- A selection that fails had no key at all, and says which keys are needed, or has a preferred key
  -- that no item matches, and reports both requested keys.
  pub select_fails :
      (kind : SelectionKind) (items : List T) (u p : Option String) {z : SelectionError}
      → select kind items u p ≡ err z
      → ((u ≡ none) × (p ≡ none) × (z ≡ validation (contract kind).0 (contract kind).1))
        ⊎ ((i : Identity) × (identity kind u p ≡ ok i)
            × All (λ y. matches i y ≡ false) items
            × (z ≡ not_found (contract kind).0 (contract kind).2 (or_else u "") (or_else p "")))
  unfolding select
  select_fails kind items u p {z} h = elim (Result-cases (identity kind u p)) [
    | inl (i, e) ↦ inr (i, e, find-none (matches i) items (missed i e), told i e)
    | inr (w, e) ↦ inl (let (a, b, c) = identity_err kind u p w e in (a, b, refused w e ∙ c))
  ]
    where
      refused : (w : SelectionError) → identity kind u p ≡ err w → z ≡ w
      refused w e = ground arith

      missed : (i : Identity) → identity kind u p ≡ ok i → find (matches i) items ≡ none
      missed i e = ground arith

      told :
          (i : Identity)
          → identity kind u p ≡ ok i
          → z ≡ not_found (contract kind).0 (contract kind).2 (or_else u "") (or_else p "")
      told i e = ground arith
