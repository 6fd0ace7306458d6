-- ===== src/Client/Commands.antt =====
-- The manual commands of src/solem_blip_ble/client_v2.py: the operation of `_execute_command`, and the
-- methods that pack a command for it.
pub mod Answered
use solem_blip_ble.Common.{
  ℕ, Bytes, List, [], ◌∷◌, Option, none, some, Bool, false, ℤ, Result, ok, err, ◌>>=◌,
}
use solem_blip_ble.Protocol.Command.{
  pack_commit, pack_turn_on, pack_turn_off_permanent, pack_turn_off_x_days, pack_sprinkle_station,
  pack_sprinkle_all_stations, pack_run_program, pack_stop_manual_sprinkle,
}
use solem_blip_ble.Protocol.Status.{SolemStatus}
use solem_blip_ble.Client.Handlers.{CommandWait, handle_command}
use solem_blip_ble.Client.Polling.{Exception, Outcome, returns, raises, waits, handle_all}
use solem_blip_ble.Client.Session.{Session, only, unless_raised, and_then, PartWait, write_and_wait}

-- The handler on a connection: what it raises ends in the backend.
unfoldable pub on_command : ℕ → CommandWait → Bytes → CommandWait
on_command station_count s frame = elim (handle_command station_count s frame) [
  | ok s' ↦ s'
  | err e ↦ s
]

-- `subscribed` is the exception of `_start_notify` or `_ensure_client`, if there is one;
-- `command_raises` and `answered` are what the first write meets, and `commit` the second with its wait.
pub record CommandLink : Type 0 where
  pub subscribed : Option Exception
  pub command_raises : Option Exception
  pub answered : List Bytes
  pub commit : PartWait

abbrev pub no_response : CommandWait
no_response = record { last_status = none; response_event = false }

abbrev pub has_response : CommandWait → Bool
has_response s = s.response_event

-- The first write.
unfoldable pub send_command : ℕ → CommandLink → Bytes → Session CommandWait
send_command station_count link command = record {
  sent = command ∷ [];
  outcome = elim link.command_raises [
    | some e ↦ raises e
    | none ↦ returns (handle_all (on_command station_count) no_response link.answered)
  ];
}

-- `timeout` is STATUS_NOTIFY_TIMEOUT.
unfoldable pub execute_command : ℕ → ℕ → CommandLink → Bytes → Session (Option SolemStatus)
unfolding send_command
execute_command station_count timeout link command = unless_raised link.subscribed (
    and_then (send_command station_count link command) (λ s.
      and_then
        (write_and_wait has_response (on_command station_count) timeout pack_commit link.commit s)
        (λ s'. only (returns s'.last_status))))

-- `await self._execute_command(command)` without its value.
abbrev pub without_status : Session (Option SolemStatus) → Session (Unit {0})
without_status session = and_then session (λ status. record { sent = []; outcome = returns tt })

-- The methods, with the station count, the timeout and the link before their arguments. `err` is a
-- ValueError, before anything is sent.
module _ (station_count timeout : ℕ) (link : CommandLink) where
  abbrev pub execute : Bytes → Session (Option SolemStatus)
  execute = execute_command station_count timeout link

  unfoldable pub turn_on : Session (Unit {0})
  turn_on = without_status (execute pack_turn_on)

  unfoldable pub turn_off_permanent : Session (Unit {0})
  turn_off_permanent = without_status (execute pack_turn_off_permanent)

  unfoldable pub turn_off_x_days : ℤ → Result (Session (Unit {0}))
  turn_off_x_days days =
      pack_turn_off_x_days days >>= λ command. ok (without_status (execute command))

  unfoldable pub sprinkle_station_x_for_y_minutes : ℤ → ℤ → Result (Session (Option SolemStatus))
  sprinkle_station_x_for_y_minutes station minutes =
      pack_sprinkle_station station minutes >>= λ command. ok (execute command)

  unfoldable pub sprinkle_all_stations_for_y_minutes : ℤ → Result (Session (Option SolemStatus))
  sprinkle_all_stations_for_y_minutes minutes =
      pack_sprinkle_all_stations minutes >>= λ command. ok (execute command)

  unfoldable pub run_program_x : ℤ → Result (Session (Unit {0}))
  run_program_x program =
      pack_run_program program >>= λ command. ok (without_status (execute command))

  unfoldable pub stop_manual_sprinkle : Session (Unit {0})
  stop_manual_sprinkle = without_status (execute pack_stop_manual_sprinkle)
