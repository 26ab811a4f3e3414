-- ===== src/Scan/Scope.antt =====
-- `normalized_ssids` and `scan_scope_covers` of src/nm/scan_schedule.rs. `sort` and `dedup` of the
-- standard library are written out, and so is `binary_search`, whose result is specified on a sorted
-- slice alone.
pub mod Normalized
pub mod Search
use nm_daemon.Base.{
  ℕ, zero, suc, ◌/◌, Bool, true, false, ◌&&◌, ◌||◌, List, [], ◌∷◌, ltb, ◌==◌, if◌then◌else◌, all,
  length, nat_eq, list_eq, list_beq,
}

abbrev pub Bytes : Type 0
Bytes = List ℕ

-- The order of `Vec<u8>`.
abbrev pub bytes_leb : Bytes → Bytes → Bool
bytes_leb [] ys = true
bytes_leb (x ∷ xs) [] = false
bytes_leb (x ∷ xs) (y ∷ ys) = ltb x y || (x == y && bytes_leb xs ys)

place : Bytes → List Bytes → List Bytes
place x [] = x ∷ []
place x (y ∷ ys) = if bytes_leb x y then x ∷ y ∷ ys else y ∷ place x ys

sort : List Bytes → List Bytes
sort [] = []
sort (x ∷ xs) = place x (sort xs)

-- Drops each element that equals the one before it.
dedup_after : Bytes → List Bytes → List Bytes
dedup_after x [] = []
dedup_after x (y ∷ ys) = let rest = dedup_after y ys in if list_beq x y then rest else y ∷ rest

dedup : List Bytes → List Bytes
unfolding dedup_after
dedup [] = []
dedup (x ∷ xs) = x ∷ dedup_after x xs

unfoldable pub normalized_ssids : List Bytes → List Bytes
unfolding place sort dedup
normalized_ssids ssids = dedup (sort ssids)

abbrev pub is_nil {ℓ} : {A : Type ℓ} → List A → Bool
is_nil [] = true
is_nil (x ∷ xs) = false

abbrev pub split_at : ℕ → List Bytes → List Bytes × List Bytes
split_at zero xs = ([], xs)
split_at (suc n) [] = ([], [])
split_at (suc n) (x ∷ xs) = let (l, r) = split_at n xs in (x ∷ l, r)

-- One step: the middle of the slice, or a search in the half that may hold the SSID.
abbrev pub in_half : Bytes → List Bytes × List Bytes → (List Bytes → Bool) → Bool
in_half a (l, []) search_in = false
in_half a (l, x ∷ r) search_in =
    let below = search_in l in
    let above = search_in r in if x == a then true else if bytes_leb x a then above else below

-- On fuel, of which the length of the slice is enough.
abbrev pub search : ℕ → Bytes → List Bytes → Bool
search zero a xs = false
search (suc n) a xs = in_half a (split_at (length xs / 2) xs) (search n a)

-- `binary_search(..).is_ok()`
unfoldable pub binary_search : Bytes → List Bytes → Bool
binary_search a xs = search (length xs) a xs

unfoldable pub scan_scope_covers : List Bytes → List Bytes → Bool
scan_scope_covers in_flight requested =
    if is_nil in_flight || is_nil requested
    then is_nil in_flight && is_nil requested
    else all (λ ssid. binary_search ssid in_flight) requested
