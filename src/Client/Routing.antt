-- ===== src/Client/Routing.antt =====
-- Notifications on a held link, in src/solem_blip_ble/client_persistent.py: one subscription for each
-- connection, and a handler that is swapped in memory. A handler is a number.
pub mod Swap
use Prim.Native.Nat.{◌≤◌}
use solem_blip_ble.Common.{
  ℕ, ◌+◌, Bool, false, not, ◌&&◌, Option, none, some, ltb, ◌==◌, if◌then◌else◌, List, ◌∷◌,
}

pub record Routing : Type 0 where
  pub dispatch_client : Option ℕ
  pub active_handler : Option ℕ
  pub straggler_drop_until : ℕ
  pub cccd_writes : List ℕ

-- `self._dispatch_client is client`
abbrev pub is_client : Option ℕ → ℕ → Bool
is_client none client = false
is_client (some c) client = c == client

-- The handler that a frame reaches at the time `now`.
unfoldable pub dispatch_notification : ℕ → Routing → Option ℕ
dispatch_notification now s = elim s.active_handler [
  | none ↦ none
  | some handler ↦ if ltb now s.straggler_drop_until then none else some handler
]

-- `settle` is NOTIFY_SETTLE_DELAY. Both fields are cleared before the subscription of the parent
-- class, and stay so where it raises (`subscribes` is false). `cccd_writes` holds every write of the
-- descriptor that is tried.
unfoldable pub start_notify : ℕ → ℕ → Bool → Bool → ℕ → ℕ → Routing → Routing
start_notify settle now is_connected subscribes client handler s =
    if is_client s.dispatch_client client && is_connected
    then record s { active_handler = some handler; straggler_drop_until = now + settle }
    else if not subscribes
    then record s {
      dispatch_client = none;
      active_handler = none;
      cccd_writes = client ∷ s.cccd_writes;
    }
    else record {
      dispatch_client = some client;
      active_handler = some handler;
      straggler_drop_until = 0;
      cccd_writes = client ∷ s.cccd_writes;
    }

-- The subscription stays; without one the parent class unsubscribes.
unfoldable pub stop_notify : ℕ → Routing → Routing
stop_notify client s =
    if is_client s.dispatch_client client
    then record s { active_handler = none }
    else record s { cccd_writes = client ∷ s.cccd_writes }

-- `_reset_session_state` on these fields.
unfoldable pub reset_routing : Routing → Routing
reset_routing s = record s {
  dispatch_client = none;
  active_handler = none;
  straggler_drop_until = 0;
}
