-- ===== src/Scan/Schedule/Waiting.antt =====
-- How a wait for a scan ends.
use nm_daemon.Base.{
  ℕ, ◌≤◌, ◌≡◌, refl, inl, inr, true, false, String, Option, none, some, List, [], ◌∷◌, ◌++◌, arith,
  and_then, Bool-cases, Option-cases, nat_eq, string_eq,
}
use mathlib.Core.List.{Memᴰ}
use nm_daemon.Base.Map.{lookup}
use nm_daemon.Scan.Schedule.{
  ScanWait, completed, cancelled, deadline_expired, SharedScanOutcome, Devices, Wake, wait_round,
  wait_for_completion, consume_waiter,
}

module _ {R : Type 0} where
  -- The stored result of generation `g`, as a waiter sees it.
  abbrev pub stored : String → ℕ → Wake R → Option (SharedScanOutcome R)
  stored path g w = and_then (lookup path w.devices) (λ s. lookup g s.completions)

  -- Cancellation goes before a result, and a result before the deadline.
  abbrev pub Justified : String → ℕ → ℕ → Wake R → ScanWait R → Type 0
  Justified path g deadline w cancelled = w.is_cancelled ≡ true
  Justified path g deadline w (completed o) = (w.is_cancelled ≡ false) × (stored path g w ≡ some o)
  Justified path g deadline w deadline_expired =
      (w.is_cancelled ≡ false) × (stored path g w ≡ none) × (deadline ≤ w.now)

  wait_round-Justified :
      (path : String) (g deadline : ℕ) (w : Wake R) (r : ScanWait R)
      → wait_round path g deadline w ≡ some r
      → Justified path g deadline w r
  unfolding wait_round
  wait_round-Justified path g deadline w cancelled h = ground arith
  wait_round-Justified path g deadline w (completed o) h = ground arith
  wait_round-Justified path g deadline w deadline_expired h = ground arith

  -- A wait that ends does so at one of the thread's wakes, for a reason that holds at that wake: a
  -- cancellation, else a stored result of exactly the awaited generation, else a passed deadline; and
  -- the thread's place is given up there.
  wait-Justified :
      (path : String) (g deadline : ℕ) (ws : List (Wake R)) (r : ScanWait R) (m : Devices R)
      → wait_for_completion path g deadline ws ≡ some (r, m)
      → (w : Wake R) × Memᴰ w ws
        × Justified path g deadline w r
        × (m ≡ consume_waiter w.devices path g)
  unfolding wait_for_completion
  wait-Justified path g deadline [] r m h = absurd (ground arith)
  wait-Justified path g deadline (w ∷ ws) r m h =
      elim (Option-cases (wait_round path g deadline w)) [
        | inl e ↦
            let (u, i, j, k) =
              wait-Justified path g deadline ws r m (rw (e, wait_for_completion) at h) in
            (u, Memᴰ.tail i, j, k)
        | inr (x, e) ↦ (
          w,
          Memᴰ.head refl,
          wait_round-Justified path g deadline w r (ground arith),
          ground arith,
        )
      ]

  wait_round_late :
      (path : String) (g deadline : ℕ) (w : Wake R)
      → deadline ≤ w.now
      → (r : ScanWait R) × (wait_round path g deadline w ≡ some r)
  unfolding wait_round
  wait_round_late path g deadline w h = elim (Bool-cases w.is_cancelled) [
    | inl c ↦ (cancelled, ground arith)
    | inr c ↦ elim (Option-cases (stored path g w)) [
      | inl e ↦ (deadline_expired, ground arith)
      | inr (o, e) ↦ (completed o, ground arith)
    ]
  ]

  -- A wake at or after the deadline ends the wait, whatever happened before.
  wait_ends :
      (path : String) (g deadline : ℕ) (before after : List (Wake R)) (w : Wake R)
      → deadline ≤ w.now
      → (r : ScanWait R) × (m : Devices R) × (wait_for_completion path g deadline
            (before ++ (w ∷ after))
          ≡ some (r, m))
  unfolding wait_for_completion
  wait_ends path g deadline [] after w h =
      let (r, e) = wait_round_late path g deadline w h in
      (r, consume_waiter w.devices path g, rw (e, wait_for_completion))
  wait_ends path g deadline (b ∷ before) after w h =
      elim (Option-cases (wait_round path g deadline b)) [
        | inl e ↦ rw (e, wait_for_completion) (wait_ends path g deadline before after w h)
        | inr (x, e) ↦ (x, consume_waiter b.devices path g, rw (e, wait_for_completion))
      ]
