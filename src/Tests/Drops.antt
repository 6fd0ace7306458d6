-- ===== src/Tests/Drops.antt =====
-- The drop hint and the subscription of src/solem_blip_ble/client_v2.py.
use Prim.Native.Nat.{◌≤◌}
use solem_blip_ble.Common.{◌≤◌, ◌≡◌, refl, ◌↔◌, List, [], ◌∷◌, some, true, false, Bool}
use solem_blip_ble.Client.Drops.{
  no_hint, WatchTurn, watch_drop, Attempt, start_notify, subscribe_attempts,
}
use solem_blip_ble.Client.Drops.Confirmed.{
  Agree, SeesDisconnected, watch_drop_confirmed, subscriptions, holds_subscription, has_returned,
  start_notify_settles,
}

-- A stale hint, and then the drop.
abbrev watched : List WatchTurn
watched =
    record { called = true; connected = true } ∷ record { called = false; connected = false } ∷ []

no_hint-Agree : Agree no_hint
unfolding Agree
no_hint-Agree = refl

watch_drop_confirmed_example :
    (((watch_drop watched no_hint).0 ≡ true) ↔ SeesDisconnected watched)
    × Agree (watch_drop watched no_hint).1
watch_drop_confirmed_example = watch_drop_confirmed watched no_hint no_hint-Agree

abbrev attempt_that : Bool → Attempt
attempt_that subscribes = record {
  called = true;
  active = some true;
  called_after = false;
  active_after = some true;
  subscribes = subscribes;
}

abbrev second_works : List Attempt
second_works = attempt_that false ∷ attempt_that true ∷ []

start_notify_settles_example :
    (subscriptions (start_notify subscribe_attempts second_works no_hint).calls ≤ 3)
    × (holds_subscription false (start_notify subscribe_attempts second_works no_hint).calls
        ≡ has_returned (start_notify subscribe_attempts second_works no_hint).outcome)
start_notify_settles_example = start_notify_settles 3 second_works no_hint
