-- ===== src/Client/Polling.antt =====
-- The waits of an operation on a connection, in src/solem_blip_ble/client_v2.py: the exceptions that
-- an operation raises, `_wait_for_event`, and what one turn of a wait meets.
use solem_blip_ble.Common.{◌≡◌, refl, ◌⊎◌, inl, inr}
use solem_blip_ble.Common.{ℕ, Bytes, List, [], ◌∷◌, Bool, leb, if◌then◌else◌}

-- The exceptions that the models tell apart: the classes of exceptions.py that a clause names or an
-- operation raises here, and `_DropDetected`. Any other exception, SolemDeadlineExceeded and the
-- time-sync errors among them, is a `backend_error`; a cancellation has no constructor.
pub data Exception : Type 0 where
  connection_error silent_link invalid_snapshot stale_program uncertain_write write_rejected :
      Exception
  drop_detected backend_error : Exception

-- `waits` is a wait that has not ended with the turns that are given.
pub data Outcome {ℓ} (A : Type ℓ) : Type ℓ where
  returns : A → Outcome A
  raises : Exception → Outcome A
  waits : Outcome A

-- The statements behind one that returns.
abbrev pub bind {ℓ κ} : {A : Type ℓ} {B : Type κ} → Outcome A → (A → Outcome B) → Outcome B
bind (returns a) next = next a
bind (raises e) next = raises e
bind waits next = waits

-- One turn of `_wait_for_event`: whether `_check_drop` raises at its start, the clock, the
-- notifications that arrive in the turn, and whether `_check_drop` raises behind them.
pub record WaitTurn : Type 0 where
  pub dropped : Bool
  pub now : ℕ
  pub arrived : List Bytes
  pub dropped_after : Bool

unfoldable pub handle_all {ℓ} : {S : Type ℓ} → (S → Bytes → S) → S → List Bytes → S
handle_all handle s [] = s
handle_all handle s (frame ∷ rest) = handle_all handle (handle s frame) rest

-- What a turn leads to: the end of the wait, or the state for the next turn.
pub data Turned {ℓ} (S : Type ℓ) (A : Type ℓ) : Type ℓ where
  stops : Outcome A → Turned S A
  goes_on : S → Turned S A

unfoldable pub wait_turn {ℓ} :
    {S : Type ℓ} → (S → Bool) → (S → Bytes → S) → ℕ → WaitTurn → S → Turned S S
unfolding handle_all
wait_turn event handle deadline turn s =
    if event s
    then stops (returns s)
    else if turn.dropped
    then stops (raises drop_detected)
    else if leb deadline turn.now
    then stops (raises connection_error)
    else let s' = handle_all handle s turn.arrived in
      if event s'
      then stops (returns s')
      else if turn.dropped_after
      then stops (raises drop_detected)
      else goes_on s'

-- `deadline` is the start of the wait and its timeout.
unfoldable pub wait_for_event {ℓ} :
    {S : Type ℓ} → (S → Bool) → (S → Bytes → S) → ℕ → List WaitTurn → S → Outcome S
unfolding wait_turn
wait_for_event event handle deadline [] s = if event s then returns s else waits
wait_for_event event handle deadline (turn ∷ turns) s =
    elim (wait_turn event handle deadline turn s) [
      | stops outcome ↦ outcome
      | goes_on s' ↦ wait_for_event event handle deadline turns s'
    ]

pub Turned-cases {ℓ} :
    {S : Type ℓ} {A : Type ℓ} (t : Turned S A)
    → ((outcome : Outcome A) × (t ≡ stops outcome)) ⊎ ((s : S) × (t ≡ goes_on s))
Turned-cases (stops outcome) = inl (outcome, refl)
Turned-cases (goes_on s) = inr (s, refl)
