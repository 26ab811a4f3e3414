-- ===== src/Scan/Scope/Normalized.antt =====
-- A normalised scope holds its SSIDs, in order.
use nm_daemon.Base.{
  true, false, ◌||◌, ◌≡◌, refl, List, [], ◌∷◌, arith, ◌==◌, ◌∙◌, All, All-map, nat_eq, list_eq,
  list_beq, list_beq_iff, Bool-cases, inl, inr,
}
use nm_daemon.Base.Sets.{has}
use nm_daemon.Scan.Scope.{
  Bytes, bytes_leb, place, sort, dedup_after, dedup, normalized_ssids, is_nil,
}

has-place : (a x : Bytes) (ys : List Bytes) → has a (place x ys) ≡ (x == a || has a ys)
unfolding place has
has-place a x [] = refl
has-place a x (y ∷ ys) = ground (arith, has-place a x ys)

has-sort : (a : Bytes) (xs : List Bytes) → has a (sort xs) ≡ has a xs
unfolding sort has
has-sort a [] = refl
has-sort a (x ∷ xs) = ground (arith, has-place a x (sort xs), has-sort a xs)

has-dedup_after :
    (a x : Bytes) (ys : List Bytes) → (x == a || has a (dedup_after x ys)) ≡ (x == a || has a ys)
unfolding dedup_after has
has-dedup_after a x [] = refl
has-dedup_after a x (y ∷ ys) = ground (arith, has-dedup_after a y ys, list_beq_iff x y)

has-dedup : (a : Bytes) (xs : List Bytes) → has a (dedup xs) ≡ has a xs
unfolding dedup has
has-dedup a [] = refl
has-dedup a (x ∷ xs) = has-dedup_after a x xs

-- The normalised scope holds the same SSIDs.
pub has-normalized : (a : Bytes) (xs : List Bytes) → has a (normalized_ssids xs) ≡ has a xs
unfolding normalized_ssids
has-normalized a xs = has-dedup a (sort xs) ∙ has-sort a xs

is_nil-place : (x : Bytes) (ys : List Bytes) → is_nil (place x ys) ≡ false
unfolding place
is_nil-place x [] = refl
is_nil-place x (y ∷ ys) = ground arith

is_nil-dedup : (xs : List Bytes) → is_nil (dedup xs) ≡ is_nil xs
unfolding dedup
is_nil-dedup [] = refl
is_nil-dedup (x ∷ xs) = refl

pub is_nil-normalized : (xs : List Bytes) → is_nil (normalized_ssids xs) ≡ is_nil xs
unfolding normalized_ssids sort
is_nil-normalized [] = unfold dedup in refl
is_nil-normalized (x ∷ xs) = is_nil-dedup (place x (sort xs)) ∙ is_nil-place x (sort xs)

-- `Vec<u8>` is ordered.
leb_total : (x y : Bytes) → bytes_leb x y ≡ false → bytes_leb y x ≡ true
leb_total [] y h = absurd (ground arith)
leb_total (x ∷ xs) [] h = refl
leb_total (x ∷ xs) (y ∷ ys) h = ground (arith, leb_total xs ys)

pub leb_antisym : (x y : Bytes) → bytes_leb x y ≡ true → bytes_leb y x ≡ true → x ≡ y
leb_antisym [] [] h k = refl
leb_antisym [] (y ∷ ys) h k = absurd (ground arith)
leb_antisym (x ∷ xs) [] h k = absurd (ground arith)
leb_antisym (x ∷ xs) (y ∷ ys) h k = ground (arith, leb_antisym xs ys)

leb_trans : (x y z : Bytes) → bytes_leb x y ≡ true → bytes_leb y z ≡ true → bytes_leb x z ≡ true
leb_trans [] y z h k = refl
leb_trans (x ∷ xs) [] z h k = absurd (ground arith)
leb_trans (x ∷ xs) (y ∷ ys) [] h k = absurd (ground arith)
leb_trans (x ∷ xs) (y ∷ ys) (z ∷ zs) h k = ground (arith, leb_trans xs ys zs)

abbrev pub AtLeast : Bytes → List Bytes → Type 0
AtLeast x ys = All (λ y. bytes_leb x y ≡ true) ys

abbrev pub AtMost : Bytes → List Bytes → Type 0
AtMost x ys = All (λ y. bytes_leb y x ≡ true) ys

abbrev pub Sorted : List Bytes → Type 0
Sorted [] = Unit
Sorted (x ∷ xs) = AtLeast x xs × Sorted xs

All-place : (P : Bytes → Type 0) (x : Bytes) (ys : List Bytes) → P x → All P ys → All P (place x ys)
unfolding place
All-place P x [] p h = (p, tt)
All-place P x (y ∷ ys) p (q, h) = elim (Bool-cases (bytes_leb x y)) [
  | inl b ↦ rw (b, place) (p, (q, h))
  | inr b ↦ rw (b, place) (q, All-place P x ys p h)
]

place-Sorted : (x : Bytes) (ys : List Bytes) → Sorted ys → Sorted (place x ys)
unfolding place
place-Sorted x [] h = (tt, tt)
place-Sorted x (y ∷ ys) (a, s) = elim (Bool-cases (bytes_leb x y)) [
  | inl b ↦ rw (b, place) ((b, All-map (λ z h. leb_trans x y z b h) ys a), (a, s))
  | inr b ↦
      rw (b, place)
        (All-place (λ z. bytes_leb y z ≡ true) x ys (leb_total x y b) a, place-Sorted x ys s)
]

sort-Sorted : (xs : List Bytes) → Sorted (sort xs)
unfolding sort
sort-Sorted [] = tt
sort-Sorted (x ∷ xs) = place-Sorted x (sort xs) (sort-Sorted xs)

All-dedup_after :
    (P : Bytes → Type 0) (x : Bytes) (ys : List Bytes) → All P ys → All P (dedup_after x ys)
unfolding dedup_after
All-dedup_after P x [] h = tt
All-dedup_after P x (y ∷ ys) (p, h) = elim (Bool-cases (list_beq x y)) [
  | inl b ↦ rw (b, dedup_after) (All-dedup_after P y ys h)
  | inr b ↦ rw (b, dedup_after) (p, All-dedup_after P y ys h)
]

dedup_after-Sorted : (x : Bytes) (ys : List Bytes) → Sorted ys → Sorted (dedup_after x ys)
unfolding dedup_after
dedup_after-Sorted x [] h = tt
dedup_after-Sorted x (y ∷ ys) (a, s) = elim (Bool-cases (list_beq x y)) [
  | inl b ↦ rw (b, dedup_after) (dedup_after-Sorted y ys s)
  | inr b ↦
      rw (b, dedup_after)
        (All-dedup_after (λ z. bytes_leb y z ≡ true) y ys a, dedup_after-Sorted y ys s)
]

dedup-Sorted : (xs : List Bytes) → Sorted xs → Sorted (dedup xs)
unfolding dedup
dedup-Sorted [] h = tt
dedup-Sorted (x ∷ xs) (a, s) =
    (All-dedup_after (λ z. bytes_leb x z ≡ true) x xs a, dedup_after-Sorted x xs s)

pub normalized_ssids-Sorted : (xs : List Bytes) → Sorted (normalized_ssids xs)
unfolding normalized_ssids dedup
normalized_ssids-Sorted xs = dedup-Sorted (sort xs) (sort-Sorted xs)
