-- ===== src/Scan/RateLimit.antt =====
-- `rate_limit_wait` of src/nm/scan_schedule.rs. Durations are milliseconds.
use nm_daemon.Base.{ℕ, ◌+◌, ◌-◌, ◌^◌, ◌≤◌, ◌<◌, max, ◌≡◌, Option, none, some, List, [], ◌∷◌, arith}
use nm_daemon.Base.Int.{ℤ, pos, negsuc, saturating_sub_i64}

abbrev pub scan_request_interval : ℕ
scan_request_interval = 10000

-- The time since NetworkManager's last scan: none where it never scanned, or where the boot-time
-- clock stands before it.
unfoldable pub since_scan : ℤ → ℤ → Option ℕ
since_scan (negsuc n) boottime = none
since_scan (pos last) boottime = elim (saturating_sub_i64 boottime (pos last)) [
  | pos elapsed ↦ some elapsed
  | negsuc n ↦ none
]

-- `at` may lie in the future of `now`: the difference is then zero.
abbrev pub since_request : Option ℕ → ℕ → Option ℕ
since_request none now = none
since_request (some at) now = some (now - at)

-- `flatten`, the remaining part of the interval, and the maximum.
abbrev pub longest : List (Option ℕ) → ℕ
longest [] = 0
longest (none ∷ rest) = longest rest
longest (some elapsed ∷ rest) = max (scan_request_interval - elapsed) (longest rest)

unfoldable pub rate_limit_wait : ℤ → ℤ → Option ℕ → ℕ → ℕ
unfolding since_scan
rate_limit_wait last_scan boottime last_request now =
    longest (since_scan last_scan boottime ∷ since_request last_request now ∷ [])

-- A wait after which both intervals have passed.
abbrev pub Suffices : ℕ → Option ℕ → Type 0
Suffices w none = Unit
Suffices w (some elapsed) = scan_request_interval ≤ elapsed + w

longest-Suffices : (a b : Option ℕ) → let w = longest (a ∷ b ∷ []) in Suffices w a × Suffices w b
longest-Suffices none none = (tt, tt)
longest-Suffices none (some y) = (tt, omega arith)
longest-Suffices (some x) none = (omega arith, tt)
longest-Suffices (some x) (some y) = (omega arith, omega arith)

longest-least : (a b : Option ℕ) (v : ℕ) → Suffices v a → Suffices v b → longest (a ∷ b ∷ []) ≤ v
longest-least none none v p q = omega arith
longest-least none (some y) v p q = omega arith
longest-least (some x) none v p q = omega arith
longest-least (some x) (some y) v p q = omega arith

-- The wait is the shortest one after which ten seconds have passed both since NetworkManager's last
-- scan and since the last request, as far as the two are known; it never exceeds ten seconds.
rate_limit_wait_least :
    (last_scan boottime : ℤ) (last_request : Option ℕ) (now v : ℕ)
    → let w = rate_limit_wait last_scan boottime last_request now in
      Suffices w (since_scan last_scan boottime)
      × Suffices w (since_request last_request now)
      × (Suffices v (since_scan last_scan boottime)
          → Suffices v (since_request last_request now)
          → w ≤ v)
      × (w ≤ scan_request_interval)
unfolding rate_limit_wait
rate_limit_wait_least last_scan boottime last_request now v =
    let a = since_scan last_scan boottime in
    let b = since_request last_request now in
    let s = longest-Suffices a b in
    (s.0, s.1, longest-least a b v, longest-least a b scan_request_interval (bounded a) (bounded b))
  where
    bounded : (o : Option ℕ) → Suffices scan_request_interval o
    bounded none = tt
    bounded (some x) = omega arith

-- Within the range of 64 bits the elapsed time is the difference of the two clocks.
pub since_scan_exact :
    (last boot : ℕ)
    → last ≤ boot
    → boot < 2 ^ 63
    → since_scan (pos last) (pos boot) ≡ some (boot - last)
unfolding since_scan
since_scan_exact last boot h k = ground arith
