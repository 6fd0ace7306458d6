-- ===== src/Client/Attempt.antt =====
-- What happens to one attempt of `_run_operation`, in client_v2.py and client_persistent.py, and the
-- trace that the executors leave.
use solem_blip_ble.Common.{ℕ, suc, List, [], ◌∷◌, Bool}

-- The exceptions that the operation itself may raise, by the clause that they meet.
-- `verdict` is InvalidSnapshot or StaleProgram; `transient` any other SolemConnectionError, a
-- BleakError, a TimeoutError or an OSError; `deadline` a SolemDeadlineExceeded; `other` the rest.
pub data Fault : Type 0 where
  verdict transient deadline other : Fault

-- How the race of the operation, the drop watcher and the deadline ends. `dropped` says whether the
-- operation has returned in the same turn. `cancelled` is a cancellation of the caller.
pub data Race : Type 0 where
  returned cancelled timed_out : Race
  raised : Fault → Race
  dropped : (op_returned : Bool) → Race

-- What the environment does to one attempt, in the order in which the code asks. `pause_cancelled` is
-- a cancellation of the caller in the sleep behind the attempt, if there is one.
pub record Attempt : Type 0 where
  pub expired_before : Bool
  pub held_is_connected : Bool
  pub connects : Bool
  pub expired_on_connect : Bool
  pub race : Race
  pub expired_after : Bool
  pub pause_cancelled : Bool

-- How `_run_operation` ends.
pub data End : Type 0 where
  result deadline_exceeded verdict_raised transient_raised other_raised cancel_raised : End

-- Connections and disconnections by the client's number, and the waits between attempts.
pub data Event : Type 0 where
  connect disconnect : ℕ → Event
  pause : Event

abbrev pub request_max_attempts : ℕ
request_max_attempts = 3

-- The end that a fault leads to where it is raised on.
abbrev pub raised_end : Fault → End
raised_end verdict = verdict_raised
raised_end transient = transient_raised
raised_end deadline = deadline_exceeded
raised_end other = other_raised

-- Connections made in a trace, and those not yet followed by a disconnection. The newest event
-- stands first.
unfoldable pub connections : List Event → ℕ
connections [] = 0
connections (connect c ∷ t) = suc (connections t)
connections (disconnect c ∷ t) = connections t
connections (pause ∷ t) = connections t

unfoldable pub disconnections : List Event → ℕ
disconnections [] = 0
disconnections (connect c ∷ t) = disconnections t
disconnections (disconnect c ∷ t) = suc (disconnections t)
disconnections (pause ∷ t) = disconnections t

unfoldable pub pauses : List Event → ℕ
pauses [] = 0
pauses (connect c ∷ t) = pauses t
pauses (disconnect c ∷ t) = pauses t
pauses (pause ∷ t) = suc (pauses t)
