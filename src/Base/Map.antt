-- ===== src/Base/Map.antt =====
-- Maps as association lists. `insert` is `HashMap::insert`: it overwrites in place, and a new key
-- goes to the end. The order of the list stands for the iteration order of the table.
use mathlib.Core.Path.{◌≡◌, refl, sym, ap, ◌∙◌}
use mathlib.Core.Logic.{◌≢◌, inl, inr}
use mathlib.Core.Bool.{Bool}
use mathlib.Core.List.{List, [], ◌∷◌}
use mathlib.Core.Option.{Option, none, some}
use native.Mathlib.Omega.{arith}
use nm_daemon.Base.Tests.{if◌then◌else◌, is_some, and_then, Bool-cases, Option-cases}
use nm_daemon.Base.Lists.{All, Distinct}
use nm_daemon.Base.Keys.{PartialEq, ◌==◌, ==_refl}

abbrev pub Map {ℓ κ} : Type ℓ → Type κ → Type (ℓ ⊔ κ)
Map K V = List (K × V)

module _ {ℓ κ} {K : Type ℓ} {V : Type κ} ⦃e : PartialEq K⦄ where
  unfoldable pub lookup : K → Map K V → Option V
  lookup k [] = none
  lookup k ((j, v) ∷ m) = if j == k then some v else lookup k m

  unfoldable pub insert : K → V → Map K V → Map K V
  insert k v [] = (k, v) ∷ []
  insert k v ((i, old) ∷ m) = if i == k then (k, v) ∷ m else (i, old) ∷ insert k v m

  unfoldable pub remove : K → Map K V → Map K V
  remove k [] = []
  remove k ((j, v) ∷ m) = let rest = remove k m in if j == k then rest else (j, v) ∷ rest

  abbrev pub contains : K → Map K V → Bool
  contains k m = is_some (lookup k m)

  pub lookup-insert :
      (k j : K) (v : V) (m : Map K V)
      → lookup j (insert k v m) ≡ (if k == j then some v else lookup j m)
  unfolding insert lookup
  lookup-insert k j v ((i, old) ∷ m) =
      ground (arith, lookup-insert k j v m, e.beq_iff i j, e.beq_iff k j, e.beq_iff i k)
  lookup-insert k j v [] = refl

  pub lookup-remove :
      (k j : K) (m : Map K V) → lookup j (remove k m) ≡ (if k == j then none else lookup j m)
  unfolding lookup remove
  lookup-remove k j [] = ground arith
  lookup-remove k j ((i, w) ∷ m) =
      ground (arith, e.beq_iff k j, e.beq_iff i k, e.beq_iff i j, lookup-remove k j m)

  pub lookup-insert_self : (k : K) (v : V) (m : Map K V) → lookup k (insert k v m) ≡ some v
  lookup-insert_self k v m = ground (arith, lookup-insert k k v m, ==_refl k)

  abbrev pub keys : Map K V → List K
  keys [] = []
  keys ((k, v) ∷ m) = k ∷ keys m

  -- `HashMap::retain` with a closure that may change what it keeps.
  unfoldable pub filter_values : (V → Option V) → Map K V → Map K V
  filter_values f [] = []
  filter_values f ((k, v) ∷ m) =
      let rest = filter_values f m in elim (f v) [ none ↦ rest | some w ↦ (k, w) ∷ rest ]

  pub lookup-of-fresh : (k : K) (m : Map K V) → All (λ j. j ≢ k) (keys m) → lookup k m ≡ none
  unfolding lookup
  lookup-of-fresh k [] h = refl
  lookup-of-fresh k ((j, v) ∷ m) h = ground (arith, e.beq_iff j k, lookup-of-fresh k m h.1)

  pub lookup-filter_values :
      (f : V → Option V) (k : K) (m : Map K V)
      → Distinct (keys m)
      → lookup k (filter_values f m) ≡ and_then (lookup k m) f
  unfolding lookup filter_values
  lookup-filter_values f k [] h = refl
  lookup-filter_values f k ((j, v) ∷ m) (a, d) = elim (Option-cases (f v)) [
    | inl n ↦
        rw (n, filter_values)
          (elim (Bool-cases (j == k)) [
            | inl p ↦
                rw (p, lookup)
                  (lookup-filter_values f k m d
                    ∙ ap (λ o. and_then o f) (lookup-of-fresh k m (rw ((e.beq_iff j k).0 p) at a))
                    ∙ sym n)
            | inr p ↦ rw (p, lookup) (lookup-filter_values f k m d)
          ])
    | inr (w, n) ↦
        rw (n, filter_values)
          (elim (Bool-cases (j == k)) [
            | inl p ↦ rw (p, lookup) (sym n)
            | inr p ↦ rw (p, lookup) (lookup-filter_values f k m d)
          ])
  ]

  pub All-keys-insert {μ} :
      (P : K → Type μ) (k : K) (v : V) (m : Map K V)
      → P k
      → All P (keys m)
      → All P (keys (insert k v m))
  unfolding insert
  All-keys-insert P k v [] p h = (p, tt)
  All-keys-insert P k v ((j, w) ∷ m) p (q, h) = elim (Bool-cases (j == k)) [
    | inl e ↦ rw (e, insert) (p, h)
    | inr e ↦ rw (e, insert) (q, All-keys-insert P k v m p h)
  ]

  pub insert-Distinct :
      (k : K) (v : V) (m : Map K V) → Distinct (keys m) → Distinct (keys (insert k v m))
  unfolding insert
  insert-Distinct k v [] d = (tt, tt)
  insert-Distinct k v ((j, w) ∷ m) (a, d) = elim (Bool-cases (j == k)) [
    | inl p ↦ rw (p, insert) (rw ((e.beq_iff j k).0 p) at a, d)
    | inr p ↦
        rw (p, insert)
          (
            All-keys-insert (λ x. x ≢ j) k v m (ground (arith, e.beq_iff j k)) a,
            insert-Distinct k v m d,
          )
  ]

  pub All-keys-filter_values {μ} :
      (P : K → Type μ) (f : V → Option V) (m : Map K V)
      → All P (keys m)
      → All P (keys (filter_values f m))
  unfolding filter_values
  All-keys-filter_values P f [] h = tt
  All-keys-filter_values P f ((j, w) ∷ m) (q, h) = elim (Option-cases (f w)) [
    | inl n ↦ rw (n, filter_values) (All-keys-filter_values P f m h)
    | inr (v, n) ↦ rw (n, filter_values) (q, All-keys-filter_values P f m h)
  ]

  pub filter_values-Distinct :
      (f : V → Option V) (m : Map K V) → Distinct (keys m) → Distinct (keys (filter_values f m))
  unfolding filter_values
  filter_values-Distinct f [] d = tt
  filter_values-Distinct f ((j, w) ∷ m) (a, d) = elim (Option-cases (f w)) [
    | inl n ↦ rw (n, filter_values) (filter_values-Distinct f m d)
    | inr (v, n) ↦
        rw (n, filter_values)
          (All-keys-filter_values (λ x. x ≢ j) f m a, filter_values-Distinct f m d)
  ]

  pub All-keys-remove {μ} :
      (P : K → Type μ) (k : K) (m : Map K V) → All P (keys m) → All P (keys (remove k m))
  unfolding remove
  All-keys-remove P k [] h = tt
  All-keys-remove P k ((j, w) ∷ m) (q, h) = elim (Bool-cases (j == k)) [
    | inl p ↦ rw (p, remove) (All-keys-remove P k m h)
    | inr p ↦ rw (p, remove) (q, All-keys-remove P k m h)
  ]

  pub remove-Distinct : (k : K) (m : Map K V) → Distinct (keys m) → Distinct (keys (remove k m))
  unfolding remove
  remove-Distinct k [] d = tt
  remove-Distinct k ((j, w) ∷ m) (a, d) = elim (Bool-cases (j == k)) [
    | inl p ↦ rw (p, remove) (remove-Distinct k m d)
    | inr p ↦ rw (p, remove) (All-keys-remove (λ x. x ≢ j) k m a, remove-Distinct k m d)
  ]
