-- ===== src/Client/Routing/Swap.antt =====
-- A swap of the handler on a held link, in src/solem_blip_ble/client_persistent.py.
use solem_blip_ble.Client.Routing.{List}
use solem_blip_ble.Common.{◌≢◌}
use Prim.Native.Nat.{◌≤◌}
use solem_blip_ble.Common.{ℕ, ◌+◌, ◌≤◌, ◌<◌, ◌≡◌, Bool, true, List, [], ◌∷◌, ◌≢◌, none, some, arith}
use solem_blip_ble.Client.Routing.{Routing, dispatch_notification, start_notify, stop_notify}

-- A start on the connected client that is subscribed writes no descriptor. Frames that arrive before
-- the settling time is over reach no handler, and frames behind it reach the new one.
pub start_notify_swaps :
    (settle now early late client handler : ℕ) (subscribes : Bool) (s : Routing)
    → s.dispatch_client ≡ some client
    → early < now + settle
    → now + settle ≤ late
    → ((start_notify settle now true subscribes client handler s).cccd_writes ≡ s.cccd_writes)
      × (dispatch_notification early (start_notify settle now true subscribes client handler s)
          ≡ none)
      × (dispatch_notification late (start_notify settle now true subscribes client handler s)
          ≡ some handler)
unfolding start_notify dispatch_notification
start_notify_swaps settle now early late client handler subscribes s h e l = ground arith

-- Behind the stop of an operation on the subscribed client no frame reaches a handler, the client stays
-- subscribed, and the next start on it writes no descriptor.
pub stop_notify_quiets :
    (settle now later client handler : ℕ) (subscribes : Bool) (s : Routing)
    → s.dispatch_client ≡ some client
    → (dispatch_notification later (stop_notify client s) ≡ none)
      × ((start_notify settle now true subscribes client handler (stop_notify client s)).cccd_writes
          ≡ s.cccd_writes)
unfolding start_notify stop_notify dispatch_notification
stop_notify_quiets settle now later client handler subscribes s h = ground arith

-- The operations of one connection: each starts its handler at its time and stops it.
unfoldable pub held_operations : ℕ → ℕ → List (ℕ × ℕ) → Routing → Routing
held_operations settle client [] s = s
held_operations settle client ((now, handler) ∷ rest) s =
    held_operations settle client rest
      (stop_notify client (start_notify settle now true true client handler s))
