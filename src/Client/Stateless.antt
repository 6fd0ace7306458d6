-- ===== src/Client/Stateless.antt =====
-- `StatelessSolemClient._run_operation` of src/solem_blip_ble/client_v2.py: connect, run, close, with a
-- flat retry. A client is a number; each connection takes the next one.
pub mod Closing
use Prim.Native.Nat.{◌≤◌}
use solem_blip_ble.Common.{
  ℕ, suc, List, [], ◌∷◌, Bool, true, false, not, ◌&&◌, Option, none, some, if◌then◌else◌,
}
use solem_blip_ble.Client.Attempt.{
  verdict, transient, deadline, other, Race, returned, cancelled, timed_out, raised, dropped,
  Attempt, End, result, deadline_exceeded, verdict_raised, transient_raised, other_raised,
  cancel_raised, Event, connect, disconnect, pause,
}

pub record Link : Type 0 where
  pub active_client : Option ℕ
  pub link_dropped : Bool
  pub next_client : ℕ
  pub trace : List Event

-- The verdict of one attempt: the operation's end, or the next round.
pub data Step : Type 0 where
  stop : End → Step
  again : Step

-- `except` clauses for the ones that are caught: raise on unless a retry is safe.
abbrev pub retry_or_raise : Bool → Step
retry_or_raise retry_safe = if retry_safe then again else stop transient_raised

unfoldable pub after_race : Bool → Race → Step
after_race retry_safe returned = stop result
after_race retry_safe cancelled = stop cancel_raised
after_race retry_safe timed_out = retry_or_raise retry_safe
after_race retry_safe (dropped op_returned) = retry_or_raise retry_safe
after_race retry_safe (raised verdict) = stop verdict_raised
after_race retry_safe (raised transient) = retry_or_raise retry_safe
after_race retry_safe (raised deadline) = stop deadline_exceeded
after_race retry_safe (raised other) = stop other_raised

-- `_connect_within`: the new client, with the drop hint cleared.
unfoldable pub connected : Link → Link
connected s = record s {
  active_client = some s.next_client;
  link_dropped = false;
  next_client = suc s.next_client;
  trace = connect s.next_client ∷ s.trace;
}

-- The `finally` block for a client that was connected.
unfoldable pub closed : ℕ → Link → Link
closed client s = record s {
  active_client = none;
  link_dropped = false;
  trace = disconnect client ∷ s.trace;
}

-- The `try` statement of one attempt.
unfoldable pub attempt : Bool → Attempt → Link → Step × Link
unfolding after_race connected closed
attempt retry_safe e s =
    if not e.connects
    then (retry_or_raise retry_safe, s)
    else if e.expired_on_connect
    then (stop deadline_exceeded, closed s.next_client (connected s))
    else (after_race retry_safe e.race, closed s.next_client (connected s))

-- The pause before another attempt, if the deadline and the count leave one.
unfoldable pub paused : Bool → Bool → Link → Link
paused expired last s = if not expired && not last then record s { trace = pause ∷ s.trace } else s

-- One turn of the loop: what follows if the deadline is over, the verdict of the attempt, the state
-- behind it, and what the later turns give.
unfoldable pub turn {ℓ} : {S : Type ℓ} → Bool → End × S → Step → S → End × S → End × S
turn true expired step s' later = expired
turn false expired (stop end) s' later = (end, s')
turn false expired again s' later = later

-- Behind the pause, if there was one: a cancellation in it ends the operation with the state that the
-- pause has found.
unfoldable pub resumed {ℓ} : {S : Type ℓ} → Attempt → Bool → S → End × S → End × S
resumed e last s later =
    if e.pause_cancelled && (not e.expired_after && not last) then (cancel_raised, s) else later

-- The attempts from here on; `rounds` are left. The list gives each attempt its events.
unfoldable pub attempts : Bool → List Attempt → Link → End × Link
unfolding turn resumed
attempts retry_safe [] s = (deadline_exceeded, s)
attempts retry_safe (e ∷ es) s =
    let (step, s') = attempt retry_safe e s in
    let last : Bool = elim es [ [] ↦ true | x ∷ r ↦ false ] in
    let s'' = paused e.expired_after last s' in
    let later = resumed e last s'' (attempts retry_safe es s'') in
    turn e.expired_before (deadline_exceeded, s) step s' later

-- The loop over three attempts. A mock client has no BLE operation.
unfoldable pub run_operation : Bool → Bool → Attempt → Attempt → Attempt → Link → End × Link
unfolding attempts
run_operation mock retry_safe first second third s =
    if mock then (transient_raised, s) else attempts retry_safe (first ∷ second ∷ third ∷ []) s
