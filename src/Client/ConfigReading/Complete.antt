-- ===== src/Client/ConfigReading/Complete.antt =====
-- What the configuration reads of src/solem_blip_ble/client_v2.py are made of, and that they end.
use solem_blip_ble.Common.{Bool-cases, All}
use solem_blip_ble.Client.ConfigReading.{false, at, Bool, Option, normalize_config_notification}
use solem_blip_ble.Common.{
  ℕ, ◌+◌, ◌/◌, ◌==◌, All, at, Bool, false, Option, Bool-cases, ◌≡◌, refl, sym, ap, ◌∙◌, inl, inr,
  true, none, some, List, [], ◌∷◌, ◌++◌, arith, Bytes, if◌then◌else◌, Option-cases, between, ok,
  Result-cases,
}
use solem_blip_ble.Snapshot.{ProgramSnapshot, from_frames}
use solem_blip_ble.Protocol.Config.{irrigation_config_complete, normalize_config_notification}
use solem_blip_ble.Client.Polling.{returns, stops, goes_on, Turned-cases}
use mathlib.Core.Path.{subst}
use solem_blip_ble.Common.Lists.{append_assoc, append-nil, append_if}
use solem_blip_ble.Client.Session.Log.{Outcome-cases}
use package.solem_blip_ble.Client.ConfigReading.{
  is_read_response, Arrival, ConfigRead, handle_config, handle_arrivals, ConfigTurn, ConfigLimits,
  config_turn, wait_for_config, parsed_snapshot, ConfigCall, get_irrigation_config, SnapshotRead,
  collect_payloads, notice, read_snapshot_turns, read_snapshot,
}

-- A frame of class 1 that answers a read: its first byte, behind the normalisation of the address,
-- is 3A and not the echo of a write.
unfoldable pub IsAnswer : Bytes → Type 0
IsAnswer frame =
    (normalized : Bytes) × (normalize_config_notification frame ≡ some normalized)
    × (at normalized 0 ≡ 0x3A)
    × (at normalized 3 / 16 ≡ 1)

-- The same as a test.
abbrev answers_read : Option Bytes → Bool
answers_read none = false
answers_read (some normalized) =
    if at normalized 0 == 0x3A then at normalized 3 / 16 == 1 else false

is_read_response_lem :
    (frame : Bytes) → is_read_response frame ≡ answers_read (normalize_config_notification frame)
unfolding is_read_response
is_read_response_lem frame = elim (Option-cases (normalize_config_notification frame)) [
  | inl none_left ↦ ground arith
  | inr (normalized, eq) ↦ ground arith
]

-- The answers to a read among the notifications, in the order of their arrival: the echo of a write is
-- not among them.
unfoldable pub read_responses : List Arrival → List Bytes
read_responses [] = []
read_responses (arrival ∷ rest) =
    if answers_read (normalize_config_notification arrival.frame)
    then arrival.frame ∷ read_responses rest
    else read_responses rest

answers-IsAnswer :
    (frame : Bytes) → answers_read (normalize_config_notification frame) ≡ true → IsAnswer frame
unfolding IsAnswer
answers-IsAnswer frame h = elim (Option-cases (normalize_config_notification frame)) [
  | inl none_left ↦ absurd (ground arith)
  | inr (normalized, eq) ↦ (normalized, eq, ground arith, ground arith)
]

read_responses-IsAnswer : (arrivals : List Arrival) → All IsAnswer (read_responses arrivals)
unfolding read_responses
read_responses-IsAnswer [] = tt
read_responses-IsAnswer (a ∷ rest) =
    elim (Bool-cases (answers_read (normalize_config_notification a.frame))) [
      | inl yes_it_does ↦
          rw yes_it_does (answers-IsAnswer a.frame yes_it_does, read_responses-IsAnswer rest)
      | inr other ↦ rw other (read_responses-IsAnswer rest)
    ]

-- One answer more, by the program's test.
response_step :
    (payloads : List Bytes) (a : Arrival) (rest : List Arrival)
    → (if is_read_response a.frame then payloads ++ (a.frame ∷ []) else payloads)
        ++ read_responses rest
      ≡ payloads ++ read_responses (a ∷ rest)
unfolding read_responses
response_step payloads a rest =
    append_if (is_read_response a.frame) a.frame payloads (read_responses rest)
    ∙ ap
        (λ (b : Bool).
          payloads ++ (if b then a.frame ∷ read_responses rest else read_responses rest))
        (is_read_response_lem a.frame)

-- The notifications of the turns, one behind the other.
unfoldable pub all_arrivals : List ConfigTurn → List Arrival
all_arrivals [] = []
all_arrivals (turn ∷ turns) = turn.arrived ++ all_arrivals turns

read_responses-append :
    (xs ys : List Arrival) → read_responses (xs ++ ys) ≡ read_responses xs ++ read_responses ys
unfolding read_responses
read_responses-append [] ys = refl
read_responses-append (x ∷ xs) ys = ground (arith, read_responses-append xs ys)

collect_payloads-read_responses :
    (payloads : List Bytes) (arrivals : List Arrival)
    → collect_payloads payloads arrivals ≡ payloads ++ read_responses arrivals
unfolding collect_payloads read_responses
collect_payloads-read_responses payloads [] = sym (append-nil payloads)
collect_payloads-read_responses payloads (a ∷ rest) =
    collect_payloads-read_responses
      (if is_read_response a.frame then payloads ++ (a.frame ∷ []) else payloads) rest
    ∙ response_step payloads a rest

handle_config_payloads :
    (s : ConfigRead) (a : Arrival)
    → (handle_config s a).payloads
      ≡ (if is_read_response a.frame then s.payloads ++ (a.frame ∷ []) else s.payloads)
unfolding handle_config
handle_config_payloads s a = ground arith

handle_arrivals-read_responses :
    (s : ConfigRead) (arrivals : List Arrival)
    → (handle_arrivals s arrivals).payloads ≡ s.payloads ++ read_responses arrivals
unfolding handle_arrivals handle_config read_responses
handle_arrivals-read_responses s [] = sym (append-nil s.payloads)
handle_arrivals-read_responses s (a ∷ rest) =
    handle_arrivals-read_responses (handle_config s a) rest
    ∙ ap (λ (t : List Bytes). t ++ read_responses rest) (handle_config_payloads s a)
    ∙ response_step s.payloads a rest

config_turn-stops :
    (limits : ConfigLimits) (turn : ConfigTurn) (s s' : ConfigRead)
    → config_turn limits turn s ≡ stops (returns s')
    → (s' ≡ s) × (irrigation_config_complete s.payloads 3 ≡ true)
unfolding config_turn
config_turn-stops limits turn s s' h = ground arith

config_turn-goes_on :
    (limits : ConfigLimits) (turn : ConfigTurn) (s s' : ConfigRead)
    → config_turn limits turn s ≡ goes_on s'
    → s' ≡ s
unfolding config_turn
config_turn-goes_on limits turn s s' h = ground arith

-- Payloads are kept one turn behind the other.
later_payloads :
    (before : List Bytes) (turn : ConfigTurn) (turns : List ConfigTurn)
    → (before ++ read_responses turn.arrived) ++ read_responses (all_arrivals turns)
      ≡ before ++ read_responses (all_arrivals (turn ∷ turns))
unfolding all_arrivals
later_payloads before turn turns =
    append_assoc before (read_responses turn.arrived) (read_responses (all_arrivals turns))
    ∙ ap (λ (t : List Bytes). before ++ t)
        (sym (read_responses-append turn.arrived (all_arrivals turns)))

-- The answers in a beginning of the turns make a complete response, with those before.
unfoldable pub IsComplete : List Bytes → List ConfigTurn → List Bytes → Type 0
IsComplete before turns payloads =
    (taken : List ConfigTurn) × (rest : List ConfigTurn) × (turns ≡ taken ++ rest)
    × (payloads ≡ before ++ read_responses (all_arrivals taken))
    × (irrigation_config_complete payloads 3 ≡ true)

-- Whatever is complete consists of answers.
IsComplete-IsAnswer :
    (answered : List Arrival) (turns : List ConfigTurn) (payloads : List Bytes)
    → IsComplete (read_responses answered) turns payloads
    → All IsAnswer payloads
unfolding IsComplete
IsComplete-IsAnswer answered turns payloads (taken, rest, split, same, complete) =
    subst (λ (t : List Bytes). All IsAnswer t)
      (read_responses-append answered (all_arrivals taken) ∙ sym same)
      (read_responses-IsAnswer (answered ++ all_arrivals taken))

one_turn :
    (before payloads : List Bytes) (turn : ConfigTurn) (turns : List ConfigTurn)
    → payloads ≡ before ++ read_responses turn.arrived
    → irrigation_config_complete payloads 3 ≡ true
    → IsComplete before (turn ∷ turns) payloads
unfolding IsComplete read_responses all_arrivals
one_turn before payloads turn turns same complete = (
  turn ∷ [],
  turns,
  refl,
  same ∙ sym (append-nil (before ++ read_responses turn.arrived)) ∙ later_payloads before turn [],
  complete,
)

next_turn :
    (before between payloads : List Bytes) (turn : ConfigTurn) (turns : List ConfigTurn)
    → between ≡ before ++ read_responses turn.arrived
    → IsComplete between turns payloads
    → IsComplete before (turn ∷ turns) payloads
unfolding IsComplete
next_turn before between payloads turn turns same (taken, rest, split, all, complete) = (
  turn ∷ taken,
  rest,
  ap (λ (t : List ConfigTurn). turn ∷ t) split,
  all
      ∙ ap (λ (t : List Bytes). t ++ read_responses (all_arrivals taken)) same
      ∙ later_payloads before turn taken,
  complete,
)

wait_for_config-IsComplete :
    (limits : ConfigLimits) (turns : List ConfigTurn) (s s' : ConfigRead)
    → wait_for_config limits turns s ≡ returns s'
    → IsComplete s.payloads turns s'.payloads
unfolding wait_for_config
wait_for_config-IsComplete limits [] s s' h = ground arith
wait_for_config-IsComplete limits (turn ∷ turns) s s' h =
    elim (Turned-cases (config_turn limits turn (handle_arrivals s turn.arrived))) [
      | inl (outcome, eq) ↦
          let (same, complete) =
            config_turn-stops limits turn (handle_arrivals s turn.arrived) s' (ground arith) in
          one_turn s.payloads s'.payloads turn turns
            (ap (λ (t : ConfigRead). t.payloads) same
              ∙ handle_arrivals-read_responses s turn.arrived)
            (ap (λ (t : ConfigRead). irrigation_config_complete t.payloads 3) same ∙ complete)
      | inr (t, eq) ↦
          next_turn s.payloads t.payloads s'.payloads turn turns
            (ap (λ (t : ConfigRead). t.payloads)
                (config_turn-goes_on limits turn (handle_arrivals s turn.arrived) t eq)
              ∙ handle_arrivals-read_responses s turn.arrived)
            (wait_for_config-IsComplete limits turns t s' (ground arith))
    ]

parsed_snapshot-returns :
    (payloads : List Bytes) (snapshot : ProgramSnapshot)
    → parsed_snapshot payloads ≡ returns snapshot
    → from_frames payloads ≡ ok snapshot
unfolding parsed_snapshot
parsed_snapshot-returns payloads snapshot h = elim (Result-cases (from_frames payloads)) [
  | inl (found, eq) ↦ ground arith
  | inr (e, eq) ↦ absurd (ground arith)
]

-- What the operation of `get_irrigation_config` returns is the snapshot of a complete response: of all
-- answers to a read that came before the first turn and in the turns that were taken, in their order.
-- Each of them is a frame of class 1 with 3A in its first byte, so the echoes of a write are left out.
pub get_irrigation_config-IsComplete :
    (idle timeout : ℕ) (call : ConfigCall) (snapshot : ProgramSnapshot)
    → get_irrigation_config idle timeout call ≡ returns snapshot
    → (call.write_raises ≡ none)
      × (payloads : List Bytes) × IsComplete (read_responses call.answered) call.turns payloads
      × All IsAnswer payloads
      × (from_frames payloads ≡ ok snapshot)
unfolding get_irrigation_config
get_irrigation_config-IsComplete idle timeout call snapshot h =
    let start : ConfigRead = record { payloads = []; last_fragment_at = none } in
    let limits : ConfigLimits = record { idle = idle; deadline = call.started + timeout } in
    let s = handle_arrivals start call.answered in
    elim (Option-cases call.write_raises) [
      | inr (e, eq) ↦ absurd (ground arith)
      | inl eq ↦ elim (Outcome-cases (wait_for_config limits call.turns s)) [
        | inl (read, waited) ↦
            let complete =
              subst (λ before. IsComplete before call.turns read.payloads)
                (handle_arrivals-read_responses start call.answered)
                (wait_for_config-IsComplete limits call.turns s read waited) in
            (
              eq,
              read.payloads,
              complete,
              IsComplete-IsAnswer call.answered call.turns read.payloads complete,
              parsed_snapshot-returns read.payloads snapshot (ground arith),
            )
        | inr (inl (e, waited)) ↦ absurd (ground arith)
        | inr (inr waited) ↦ absurd (ground arith)
      ]
    ]

noticed_payloads :
    (now : ℕ) (payloads : List Bytes) (s : SnapshotRead)
    → (notice now payloads s).read.payloads ≡ payloads
unfolding notice
noticed_payloads now payloads s = ground arith

read_snapshot_turns-IsComplete :
    (limits : ConfigLimits) (turns : List ConfigTurn) (s : SnapshotRead)
    (snapshot : ProgramSnapshot)
    → read_snapshot_turns limits turns s ≡ returns snapshot
    → (payloads : List Bytes) × IsComplete s.read.payloads turns payloads
      × (from_frames payloads ≡ ok snapshot)
unfolding read_snapshot_turns
read_snapshot_turns-IsComplete limits [] s snapshot h = absurd (ground arith)
read_snapshot_turns-IsComplete limits (turn ∷ turns) s snapshot h =
    let collected = collect_payloads s.read.payloads turn.arrived in
    let t = notice turn.now collected s in
    let has =
      noticed_payloads turn.now collected s
      ∙ collect_payloads-read_responses s.read.payloads turn.arrived in
    elim (Turned-cases (config_turn limits turn t.read)) [
      | inl (stops_with, eq) ↦ elim (Outcome-cases stops_with) [
        | inl (read, outcome) ↦
            let (same, complete) =
              config_turn-stops limits turn t.read read (eq ∙ ap stops outcome) in
            (
              t.read.payloads,
              one_turn s.read.payloads t.read.payloads turn turns has complete,
              parsed_snapshot-returns t.read.payloads snapshot (ground arith),
            )
        | inr (inl (e, outcome)) ↦ absurd (ground arith)
        | inr (inr outcome) ↦ absurd (ground arith)
      ]
      | inr (read, eq) ↦
          let (payloads, complete, parsed) =
            read_snapshot_turns-IsComplete limits turns t snapshot (ground arith) in
          (
            payloads,
            next_turn s.read.payloads t.read.payloads payloads turn turns has complete,
            parsed,
          )
    ]

-- The same holds of the readback of a program write.
pub read_snapshot-IsComplete :
    (idle timeout : ℕ) (call : ConfigCall) (snapshot : ProgramSnapshot)
    → (read_snapshot idle timeout call).outcome ≡ returns snapshot
    → (call.write_raises ≡ none)
      × (payloads : List Bytes) × IsComplete (read_responses call.answered) call.turns payloads
      × All IsAnswer payloads
      × (from_frames payloads ≡ ok snapshot)
unfolding read_snapshot
read_snapshot-IsComplete idle timeout call snapshot h = elim (Option-cases call.write_raises) [
  | inr (e, eq) ↦ absurd (ground arith)
  | inl eq ↦
      let (payloads, complete, parsed) =
        read_snapshot_turns-IsComplete (record { idle = idle; deadline = call.started + timeout })
          call.turns
          (record {
            read = record {
              payloads = collect_payloads [] call.answered;
              last_fragment_at = some call.started;
            };
            previous_count = none;
          })
          snapshot (ground arith) in
      let answered =
        subst (λ before. IsComplete before call.turns payloads)
          (collect_payloads-read_responses [] call.answered) complete in
      (
        eq,
        payloads,
        answered,
        IsComplete-IsAnswer call.answered call.turns payloads answered,
        parsed,
      )
]
