-- ===== src/Client/Drops.antt =====
-- The drop hint of src/solem_blip_ble/client_v2.py: `_on_disconnected`, `_check_drop`, `_watch_drop`, and
-- `_start_notify`, which asks it between its attempts.
pub mod Confirmed
use solem_blip_ble.Common.{
  ℕ, zero, suc, List, [], ◌∷◌, ◌++◌, Option, none, some, Bool, true, false, not, ◌&&◌,
  if◌then◌else◌,
}
use solem_blip_ble.Client.Polling.{
  Exception, connection_error, drop_detected, Outcome, returns, raises, waits,
}

-- `_link_dropped` and whether `_drop_event` is set.
pub record DropSignal : Type 0 where
  pub link_dropped : Bool
  pub drop_event : Bool

unfoldable pub on_disconnected : DropSignal → DropSignal
on_disconnected s = record { link_dropped = true; drop_event = true }

-- `_link_dropped = False` and `_drop_event.clear()`
abbrev pub no_hint : DropSignal
no_hint = record { link_dropped = false; drop_event = false }

-- The active client, if there is one, by its `is_connected`.
unfoldable pub is_confirmed : Option Bool → Bool
is_confirmed none = false
is_confirmed (some connected) = not connected

-- Whether `_check_drop` raises, and the signal behind it.
unfoldable pub check_drop : Option Bool → DropSignal → Bool × DropSignal
unfolding is_confirmed
check_drop active s =
    if s.link_dropped
    then (if is_confirmed active then (true, s) else (false, no_hint))
    else (false, s)

-- One turn of `_watch_drop`: whether the callback was called since the turn before, and `is_connected`.
pub record WatchTurn : Type 0 where
  pub called : Bool
  pub connected : Bool

abbrev pub called_back : Bool → DropSignal → DropSignal
called_back called s = if called then on_disconnected s else s

-- Whether the watcher completes within the turns.
unfoldable pub watch_drop : List WatchTurn → DropSignal → Bool × DropSignal
unfolding on_disconnected
watch_drop [] s = (false, s)
watch_drop (turn ∷ turns) before =
    let s = called_back turn.called before in
    let later = watch_drop turns (if s.drop_event then no_hint else s) in
    if turn.connected then later else (true, s)

-- One attempt of `_start_notify`: whether the callback was called before each test, the active client at
-- each, and whether bleak's start_notify succeeds.
pub record Attempt : Type 0 where
  pub called : Bool
  pub active : Option Bool
  pub called_after : Bool
  pub active_after : Option Bool
  pub subscribes : Bool

-- What is asked of bleak.
pub data Call : Type 0 where
  subscribe unsubscribe : Call

pub record Subscription : Type 0 where
  pub calls : List Call
  pub outcome : Outcome (Unit {0})
  pub signal : DropSignal

abbrev pub preceded_by : List Call → Subscription → Subscription
preceded_by calls r = record r { calls = calls ++ r.calls }

abbrev pub ended : List Call → Outcome (Unit {0}) → DropSignal → Subscription
ended calls outcome signal = record { calls = calls; outcome = outcome; signal = signal }

-- The loop, with the attempts that are left. A drop that the second test confirms is caught with the
-- failures of bleak.
unfoldable pub start_notify : ℕ → List Attempt → DropSignal → Subscription
unfolding check_drop on_disconnected
start_notify zero attempts s = ended [] (raises connection_error) s
start_notify (suc n) [] s = ended [] waits s
start_notify (suc n) (a ∷ attempts) s =
    let (raised, s1) = check_drop a.active (called_back a.called s) in
    let (caught, s2) = check_drop a.active_after (called_back a.called_after s1) in
    let again = start_notify n attempts s2 in
    if raised
    then ended [] (raises drop_detected) s1
    else if caught
    then preceded_by (unsubscribe ∷ []) again
    else if a.subscribes
    then ended (subscribe ∷ []) (returns tt) s2
    else preceded_by (subscribe ∷ unsubscribe ∷ []) again

-- `range(3)`
abbrev pub subscribe_attempts : ℕ
subscribe_attempts = 3
