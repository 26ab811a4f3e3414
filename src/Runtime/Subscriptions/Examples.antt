-- ===== src/Runtime/Subscriptions/Examples.antt =====
-- The control actor at concrete values: two subscriptions of one owner.
use nm_daemon.Base.{
  ℕ, ◌≤◌, ◌≡◌, refl, String, Bool, true, false, Option, none, some, List, [], ◌∷◌, arith, ltb,
  Distinct, string_eq,
}
use nm_daemon.Base.Sets.{has}
use nm_daemon.Runtime.Tasks.{wifi_status, network_health}
use nm_daemon.Runtime.Subscriptions.{
  Actor, Outside, Control, Data, Subscription, start, subscribe, refreshed, external_event,
  handle_control,
}
use nm_daemon.Runtime.Subscriptions.Refresh.{begins, receives, one_refresh}
use nm_daemon.Runtime.Subscriptions.Owners.{event_once_per_owner, emitted, is_watching}

abbrev outside : Outside
outside = record { now = 1000; accepts = true; is_connecting = λ o. false }

abbrev status_bar : Subscription
status_bar = record {
  owner = some ":1.7";
  streams = wifi_status ∷ network_health ∷ [];
  closed = false;
}

abbrev subscribed_once : Actor
subscribed_once = (handle_control {B = ℕ} {P = ℕ} outside (subscribe "s1" status_bar) start).0

abbrev subscribed_twice : Actor
subscribed_twice =
    (handle_control {B = ℕ} {P = ℕ} outside (subscribe "s2" status_bar) subscribed_once).0

one_refresh_example : (1 ≤ 1) × (subscribed_twice.refresh.in_flight ≡ ltb 0 1)
unfolding handle_control nm_daemon.Runtime.Subscriptions.add_subscription
    nm_daemon.Runtime.Subscriptions.request_shared_refresh nm_daemon.Base.Map.insert
    mathlib.Core.Bool.decide nm_daemon.Runtime.Tasks.Stream-discrete
one_refresh_example = one_refresh ℕ ℕ subscribed_twice 1 (
    receives outside (subscribe "s2" status_bar)
      (receives outside (subscribe "s1" status_bar) begins refl) refl)

abbrev trouble : Data ℕ
trouble = record {
  health = record {
    notification_recommended = true;
    names = [];
    state_name = some "failed";
    reason_name = none;
  };
  body = 3;
}

event_once_per_owner_example :
    let es =
      (handle_control {P = ℕ} outside
        (external_event network_health "h1" "device" trouble)
        subscribed_twice).1 in
    Distinct (emitted ℕ ℕ es)
    × ((o : String)
        → has o (emitted ℕ ℕ es) ≡ is_watching network_health o subscribed_twice.subscriptions)
event_once_per_owner_example =
    event_once_per_owner ℕ ℕ outside network_health "h1" "device" trouble subscribed_twice
