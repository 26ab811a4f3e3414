-- ===== src/Portal/Examples.antt =====
-- Launches at concrete values: one automatic launch that is reserved, claimed and completed.
use nm_daemon.Base.{
  ℕ, ◌≤◌, ◌≡◌, refl, ◌⊎◌, inl, inr, String, Bool, true, false, Option, none, some, List, [], ◌∷◌,
  arith, Distinct, Result, ok, err, ◌≢◌, or_else,
}
use nm_daemon.Portal.Intents.{Intent, automatic, not_claimed}
use nm_daemon.Portal.Ledger.{
  Storage, System, Launch, Outcome, opened, failed, committed, missing, reserve, claim,
  complete_launch, persist, find_launch, open_ledger, limit, claimed, complete, default_state,
  fallback_url,
}
use nm_daemon.Portal.Ledger
use nm_daemon.Portal.Ledger.Replay
use nm_daemon.Portal.Ledger.Replay.{automatic_once, World}
use nm_daemon.Portal.Ledger.Exclusive
use nm_daemon.Portal.Ledger.Exclusive.{one_live_launch, IsExclusive, Timed}
use nm_daemon.Portal.Ledger.Claims.{completion_final}
use nm_daemon.Portal.Ledger.Limits.{
  episodes_bounded, size, after_all, Call, reserves, claims, completes,
}

abbrev store : Storage
store = record { encoded_len = λ st. some 100; write = λ st. committed }

abbrev launch_a : Intent
launch_a = record {
  launch_id = "l1";
  episode = "e1";
  url = "http://portal.example/";
  reason = automatic;
  expires_at_ms = 10000;
}

abbrev empty : System
empty = record { ledger = record { state = default_state; poisoned = false }; disk = missing }

abbrev with_reserved : System
with_reserved = (reserve store launch_a ":1.7" false 0 empty).0

abbrev with_claimed : System
with_claimed = (claim store "l1" ":1.7" "e1" true 5 with_reserved).0

abbrev with_completed : System
with_completed = (complete_launch store "l1" ":1.7" opened with_claimed).0

abbrev reserved_world : World
reserved_world = record { system = with_reserved; issued = "e1" ∷ [] }

automatic_once_example : Distinct (reserved_world.issued)
unfolding reserve persist nm_daemon.Base.Map.lookup
automatic_once_example =
    automatic_once reserved_world
      (Replay.next Replay.here (Replay.reserves store launch_a ":1.7" false 0))

abbrev reserved_at : Timed
reserved_at = record { system = with_reserved; clock = 0 }

one_live_launch_example : IsExclusive reserved_at
unfolding reserve persist
one_live_launch_example =
    one_live_launch 0 reserved_at (
      Exclusive.next Exclusive.here
        (Exclusive.reserves store launch_a ":1.7" false 0 (omega arith)))

opened≢failed : opened ≢ failed
opened≢failed h = ground arith

completion_final_example :
    (complete_launch store "l1" ":1.7" opened with_completed ≡ persist store with_completed)
    × (complete_launch store "l1" ":1.7" failed with_completed ≡ (with_completed, err not_claimed))
unfolding reserve persist claim Ledger.launch Ledger.check_claim find_launch complete_launch
    Ledger.check_complete Ledger.update_launch nm_daemon.Base.Map.lookup nm_daemon.Base.Map.insert
    Ledger.reserved_entry Ledger.reserved_intent
completion_final_example =
    completion_final store store "l1" ":1.7" opened failed with_claimed refl opened≢failed

abbrev calls : List Call
calls =
    reserves store launch_a ":1.7" false 0
    ∷ claims store "l1" ":1.7" "e1" true 5
    ∷ completes store "l1" ":1.7" opened
    ∷ []

episodes_bounded_example : size (after_all empty calls) ≤ limit
unfolding open_ledger
episodes_bounded_example = episodes_bounded missing missing empty.ledger calls refl

abbrev poisoned : System
poisoned = record { ledger = record { state = default_state; poisoned = true }; disk = missing }
