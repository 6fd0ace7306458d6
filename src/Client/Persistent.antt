-- ===== src/Client/Persistent.antt =====
-- `PersistentSolemClient._run_operation` of src/solem_blip_ble/client_persistent.py: one connection held
-- across operations, with the reset of the session, the background releases and the idle timer.
pub mod Held
pub mod Accounting
use Prim.Native.Nat.{◌≤◌}
use solem_blip_ble.Common.{
  ℕ, suc, List, [], ◌∷◌, Bool, true, false, not, ◌&&◌, Option, none, some, if◌then◌else◌,
}
use solem_blip_ble.Client.Attempt.{
  verdict, transient, deadline, other, Race, returned, cancelled, timed_out, raised, dropped,
  Attempt, End, result, deadline_exceeded, verdict_raised, transient_raised, other_raised,
  cancel_raised, Event, connect, disconnect, pause,
}
use solem_blip_ble.Client.Stateless.{Step, stop, again, turn, resumed}

-- The session's fields. `idle_armed` is whether the idle task runs, `idle_release` whether one is
-- configured; `subscribed` is `_dispatch_client`, and `handler` whether a handler is installed.
pub record Session : Type 0 where
  pub active_client : Option ℕ
  pub link_dropped : Bool
  pub session_generation : ℕ
  pub subscribed : Option ℕ
  pub handler : Bool
  pub idle_release : Bool
  pub idle_armed : Bool
  pub next_client : ℕ
  pub trace : List Event

unfoldable pub reset_session_state : Session → Session
reset_session_state s = record s {
  active_client = none;
  link_dropped = false;
  session_generation = suc s.session_generation;
  subscribed = none;
  handler = false;
}

-- The release is a task of its own; the trace has it where it is scheduled, since every connection
-- waits for the releases before it.
unfoldable pub schedule_background_disconnect : ℕ → Session → Session
schedule_background_disconnect client s = record s { trace = disconnect client ∷ s.trace }

unfoldable pub cancel_idle_task : Session → Session
cancel_idle_task s = record s { idle_armed = false }

unfoldable pub schedule_idle_release : Session → Session
schedule_idle_release s = record s { idle_armed = s.idle_release }

-- Reset and release the client that is held, if there is one.
unfoldable pub release_active : Session → Session
unfolding reset_session_state schedule_background_disconnect
release_active s = elim s.active_client [
  | none ↦ s
  | some client ↦ schedule_background_disconnect client (reset_session_state s)
]

-- The timer of the idle release fires.
unfoldable pub idle_release_fires : Session → Session
unfolding reset_session_state schedule_background_disconnect
idle_release_fires s = elim s.active_client [
  | none ↦ reset_session_state (record s { idle_armed = false })
  | some client ↦
      schedule_background_disconnect client (reset_session_state (record s { idle_armed = false }))
]

unfoldable pub disconnect_session : Session → Session
unfolding reset_session_state schedule_background_disconnect cancel_idle_task
disconnect_session s = elim s.active_client [
  | none ↦ reset_session_state (cancel_idle_task s)
  | some client ↦ schedule_background_disconnect client (reset_session_state (cancel_idle_task s))
]

-- `reused`: a client is held, is connected and no drop hint is set.
unfoldable pub is_reused : Attempt → Session → Bool
is_reused e s = elim s.active_client [
  | none ↦ false
  | some client ↦ e.held_is_connected && not s.link_dropped
]

-- The stale client goes before a new connection is made.
unfoldable pub prepared : Session → Session
unfolding release_active
prepared s = release_active s

unfoldable pub connected : Session → Session
connected s = record s {
  active_client = some s.next_client;
  link_dropped = false;
  next_client = suc s.next_client;
  trace = connect s.next_client ∷ s.trace;
}

-- A failed race that is caught: release, and go on only if a retry is safe.
unfoldable pub caught : Bool → Session → Step × Session
unfolding release_active
caught retry_safe s = (if retry_safe then again else stop transient_raised, release_active s)

-- The part of an attempt behind the connection, with its `except` and `finally`.
unfoldable pub after_race : Bool → Race → Session → Step × Session
unfolding caught release_active schedule_idle_release reset_session_state
after_race retry_safe returned s = (stop result, schedule_idle_release s)
after_race retry_safe cancelled s = (stop cancel_raised, release_active s)
after_race retry_safe timed_out s = caught retry_safe s
after_race retry_safe (dropped false) s = caught retry_safe s
after_race retry_safe (dropped true) s =
    if retry_safe then (again, s) else (stop transient_raised, release_active s)
after_race retry_safe (raised verdict) s =
    (if retry_safe then again else stop verdict_raised, release_active s)
after_race retry_safe (raised transient) s = caught retry_safe s
after_race retry_safe (raised deadline) s = (stop deadline_exceeded, reset_session_state s)
after_race retry_safe (raised other) s = (stop other_raised, release_active s)

-- Behind the connection. With the deadline gone the session is reset before `finally` looks for the
-- client, so nothing is released.
unfoldable pub on_connection : Bool → Attempt → Session → Step × Session
unfolding after_race reset_session_state
on_connection retry_safe e s =
    if e.expired_on_connect
    then (stop deadline_exceeded, reset_session_state s)
    else after_race retry_safe e.race s

unfoldable pub connect_failed : Bool → Session → Step × Session
unfolding reset_session_state schedule_idle_release
connect_failed retry_safe s =
    if retry_safe
    then (stop deadline_exceeded, schedule_idle_release (reset_session_state s))
    else (stop transient_raised, reset_session_state s)

-- The `try` statement of one attempt.
unfoldable pub attempt : Bool → Attempt → Session → Step × Session
unfolding is_reused prepared connected on_connection connect_failed
attempt retry_safe e s =
    if is_reused e s
    then on_connection retry_safe e (record s { link_dropped = false })
    else if e.connects
    then on_connection retry_safe e (connected (prepared s))
    else connect_failed retry_safe (prepared s)

unfoldable pub paused : Bool → Bool → Session → Session
paused expired last s = if not expired && not last then record s { trace = pause ∷ s.trace } else s

unfoldable pub attempts : Bool → List Attempt → Session → End × Session
unfolding attempt paused reset_session_state schedule_idle_release
attempts retry_safe [] s = (deadline_exceeded, reset_session_state s)
attempts retry_safe (e ∷ es) s =
    let (step, s') = attempt retry_safe e s in
    let last : Bool = elim es [ [] ↦ true | x ∷ r ↦ false ] in
    let s'' = paused e.expired_after last s' in
    let later = resumed e last s'' (attempts retry_safe es s'') in
    turn e.expired_before (deadline_exceeded, schedule_idle_release (reset_session_state s)) step s'
      later

-- The operation once it has the session lock: the idle task is cancelled before the
-- lock is asked for, and a cancellation while the operation waits for it changes nothing else.
unfoldable pub run_operation : Bool → Bool → Attempt → Attempt → Attempt → Session → End × Session
unfolding attempts cancel_idle_task
run_operation mock retry_safe first second third s =
    if mock
    then (transient_raised, s)
    else attempts retry_safe (first ∷ second ∷ third ∷ []) (cancel_idle_task s)
