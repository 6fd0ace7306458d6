-- ===== src/Client/Session.antt =====
-- What an operation of src/solem_blip_ble/client_v2.py hands to `_write` on one connection, beside
-- its outcome, and a write that waits for the controller's acknowledgement.
pub mod Log
pub mod Heard
use solem_blip_ble.Common.{ℕ, Bytes, List, [], ◌∷◌, ◌++◌, Bool, Option, none, some, ◌+◌}
use solem_blip_ble.Client.Polling.{
  Exception, Outcome, returns, raises, waits, WaitTurn, handle_all, wait_for_event,
}

-- `sent` are the payloads in their order; a write that raises may still have reached the controller.
pub record Session {ℓ} (A : Type ℓ) : Type ℓ where
  pub sent : List Bytes
  pub outcome : Outcome A

-- Statements that send nothing.
abbrev pub only {ℓ} : {A : Type ℓ} → Outcome A → Session A
only outcome = record { sent = []; outcome = outcome }

-- Statements behind one that may raise.
unfoldable pub unless_raised {ℓ} : {A : Type ℓ} → Option Exception → Session A → Session A
unless_raised none session = session
unless_raised (some e) session = only (raises e)

-- The outcome behind `except` clauses that raise another exception for some.
abbrev pub judged {ℓ} : {A : Type ℓ} → (Exception → Exception) → Session A → Session A
judged verdict session = record session {
  outcome = elim session.outcome [
    | returns a ↦ returns a
    | raises e ↦ raises (verdict e)
    | waits ↦ waits
  ];
}

-- One statement behind another.
unfoldable pub and_then {ℓ κ} : {A : Type ℓ} {B : Type κ} → Session A → (A → Session B) → Session B
and_then session next = elim session.outcome [
  | returns a ↦ record { sent = session.sent ++ (next a).sent; outcome = (next a).outcome }
  | raises e ↦ record { sent = session.sent; outcome = raises e }
  | waits ↦ record { sent = session.sent; outcome = waits }
]

-- What one written frame meets: the exception of the write, if there is one, the notifications that
-- arrive in it, the clock behind it and the turns of the wait.
pub record PartWait : Type 0 where
  pub write_raises : Option Exception
  pub answered : List Bytes
  pub started : ℕ
  pub turns : List WaitTurn

-- `await self._write(client, frame)` and `await self._wait_for_event(acknowledged, ...)`.
unfoldable pub write_and_wait {ℓ} :
    {S : Type ℓ} → (S → Bool) → (S → Bytes → S) → ℕ → Bytes → PartWait → S → Session S
write_and_wait event handle timeout frame part s = record {
  sent = frame ∷ [];
  outcome = elim part.write_raises [
    | some e ↦ raises e
    | none ↦
        wait_for_event event handle (part.started + timeout) part.turns
          (handle_all handle s part.answered)
  ];
}
