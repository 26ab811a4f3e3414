-- ===== src/Scan/Scope/Search.antt =====
-- A normalised scope is sorted, so the binary search in it finds exactly its SSIDs.
use nm_daemon.Base.{
  ℕ, zero, suc, ◌/◌, ◌≤◌, ◌+◌, Bool, true, false, ◌&&◌, ◌||◌, ◌≡◌, refl, sym, subst, ap, List, [],
  ◌∷◌, ◌++◌, arith, ◌==◌, ◌∙◌, if◌then◌else◌, all, length, All, nat_eq, list_eq, list_beq_iff,
}
use nm_daemon.Base.Sets.{has}
use nm_daemon.Scan.Scope.{
  Bytes, bytes_leb, normalized_ssids, is_nil, split_at, in_half, search, binary_search,
  scan_scope_covers,
}
use nm_daemon.Scan.Scope.Normalized.{
  AtMost, has-normalized, is_nil-normalized, leb_antisym, Sorted, AtLeast, normalized_ssids-Sorted,
}

split_at-join : (n : ℕ) (xs : List Bytes) → let (l, r) = split_at n xs in l ++ r ≡ xs
split_at-join zero xs = refl
split_at-join (suc n) [] = refl
split_at-join (suc n) (x ∷ xs) = ground (arith, split_at-join n xs)

All-append : (P : Bytes → Type 0) (l m : List Bytes) → All P (l ++ m) → All P l × All P m
All-append P [] m h = (tt, h)
All-append P (y ∷ l) m (p, h) = let (a, b) = All-append P l m h in ((p, a), b)

append-Sorted : (l m : List Bytes) → Sorted (l ++ m) → Sorted l × Sorted m
append-Sorted [] m s = (tt, s)
append-Sorted (y ∷ l) m (a, s) =
    let (sl, sm) = append-Sorted l m s in
    ((((All-append (λ z. bytes_leb y z ≡ true) l m a).0), sl), sm)

-- The halves around the middle of a sorted slice.
halves :
    (l : List Bytes) (x : Bytes) (r : List Bytes)
    → Sorted (l ++ x ∷ r)
    → Sorted l × AtMost x l × AtLeast x r × Sorted r
halves [] x r (a, s) = (tt, tt, a, s)
halves (y ∷ l) x r (a, s) =
    let (sl, below, above, sr) = halves l x r s in
    let (left, right) = All-append (λ z. bytes_leb y z ≡ true) l (x ∷ r) a in
    ((left, sl), (right.0, below), above, sr)

has-append : (a : Bytes) (l r : List Bytes) → has a (l ++ r) ≡ (has a l || has a r)
unfolding has
has-append a [] r = refl
has-append a (y ∷ l) r = ground (arith, has-append a l r)

length-append : (l r : List Bytes) → length (l ++ r) ≡ length l + length r
length-append [] r = omega arith
length-append (y ∷ l) r = ground (arith, length-append l r)

not_below :
    (a x : Bytes) (l : List Bytes)
    → AtMost x l
    → bytes_leb x a ≡ true
    → (x == a) ≡ false
    → has a l ≡ false
unfolding has
not_below a x [] h b n = refl
not_below a x (y ∷ l) (p, h) b n =
    ground (arith, not_below a x l h b n, list_beq_iff y a, list_beq_iff x a, leb_antisym x a)

not_above : (a x : Bytes) (r : List Bytes) → AtLeast x r → bytes_leb x a ≡ false → has a r ≡ false
unfolding has
not_above a x [] h b = refl
not_above a x (y ∷ r) (p, h) b = ground (arith, not_above a x r h b, list_beq_iff y a)

-- One step finds what is in the slice, if the search in each half does.
in_half_lem :
    (a : Bytes) (l m : List Bytes) (search_in : List Bytes → Bool)
    → Sorted (l ++ m)
    → (m ≡ [] → l ≡ [])
    → (search_in l ≡ has a l)
    → ((x : Bytes) (r : List Bytes) → m ≡ x ∷ r → search_in r ≡ has a r)
    → in_half a (l, m) search_in ≡ has a (l ++ m)
unfolding has
in_half_lem a l [] search_in s e below above = rw (e refl) refl
in_half_lem a l (x ∷ r) search_in s e below above =
    let (sl, most, least, sr) = halves l x r s in
    ground (
      arith,
      below,
      above x r refl,
      has-append a l (x ∷ r),
      not_below a x l most,
      not_above a x r least,
    )

length-split_at : (n : ℕ) (xs : List Bytes) → length (split_at n xs).0 ≤ n
length-split_at zero xs = omega arith
length-split_at (suc n) [] = omega arith
length-split_at (suc n) (x ∷ xs) = ground (arith, length-split_at n xs)

empty_half :
    (l m : List Bytes) (n : ℕ) → length l ≤ n / 2 → length l + length m ≡ n → m ≡ [] → l ≡ []
empty_half [] m n h e q = refl
empty_half (y ∷ l) [] n h e q = absurd (omega arith)
empty_half (y ∷ l) (x ∷ m) n h e q = absurd (ground arith)

search_lem :
    (n : ℕ) (a : Bytes) (xs : List Bytes) → length xs ≤ n → Sorted xs → search n a xs ≡ has a xs
unfolding has
search_lem zero a [] h s = refl
search_lem zero a (x ∷ xs) h s = absurd (omega arith)
search_lem (suc n) a xs h s =
    let (l, m) = split_at (length xs / 2) xs in
    let join = split_at-join (length xs / 2) xs in
    let total : length l + length m ≡ length xs = sym (length-append l m) ∙ ap length join in
    let short = length-split_at (length xs / 2) xs in
    let empty = empty_half l m (length xs) short total in
    let sorted = subst Sorted (sym join) s in
    let (sl, sm) = append-Sorted l m sorted in
    in_half_lem a l m (search n a) sorted empty (search_lem n a l (omega arith) sl) (λ x r e.
      search_lem n a r (let counted : length m ≡ suc (length r) = ap length e in omega arith)
        ((subst Sorted e sm).1))
    ∙ ap (has a) join

-- The search in a normalised scope finds what is in the SSIDs that it was made from.
binary_search-normalized :
    (a : Bytes) (xs : List Bytes) → binary_search a (normalized_ssids xs) ≡ has a xs
unfolding binary_search
binary_search-normalized a xs =
    search_lem (length (normalized_ssids xs)) a (normalized_ssids xs) (omega arith)
      (normalized_ssids-Sorted xs)
    ∙ has-normalized a xs

all-normalized :
    (xs ys : List Bytes)
    → all (λ ssid. binary_search ssid (normalized_ssids xs)) ys ≡ all (λ ssid. has ssid xs) ys
all-normalized xs [] = refl
all-normalized xs (y ∷ ys) = ground (arith, binary_search-normalized y xs, all-normalized xs ys)

-- A scan for `xs` covers a request for `ys` exactly when both are wildcards, or neither is and the
-- scan names every SSID of the request; order and repetition do not matter, and the binary search in
-- the normalised scope misses nothing.
pub covers-normalized :
    (xs ys : List Bytes)
    → scan_scope_covers (normalized_ssids xs) ys
      ≡ (if is_nil xs || is_nil ys then is_nil xs && is_nil ys else all (λ ssid. has ssid xs) ys)
unfolding scan_scope_covers
covers-normalized xs ys = rw (is_nil-normalized xs, all-normalized xs ys)
