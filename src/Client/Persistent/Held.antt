-- ===== src/Client/Persistent/Held.antt =====
-- What the session of src/solem_blip_ble/client_persistent.py holds when an operation ends.
use solem_blip_ble.Common.{
  ◌≡◌, refl, ◌&&◌, inl, inr, Bool, true, false, none, List, [], ◌∷◌, arith, if◌then◌else◌,
  Option-cases, is_some,
}
use solem_blip_ble.Client.Attempt.{
  Race, returned, cancelled, timed_out, raised, dropped, Attempt, End, result, deadline_exceeded,
  verdict_raised, transient_raised, other_raised, cancel_raised,
}
use solem_blip_ble.Client.Stateless.{Step, stop, again, turn, resumed}
use solem_blip_ble.Client.Persistent.{
  Session, cancel_idle_task, is_reused, after_race, on_connection, attempt, paused, attempts,
  run_operation,
}

-- A result leaves a client held and the idle timer as configured; another end leaves no client.
unfoldable pub Matches : End → Session → Type 0
Matches result s = (is_some s.active_client ≡ true) × (s.idle_armed ≡ s.idle_release)
Matches deadline_exceeded s = s.active_client ≡ none
Matches verdict_raised s = s.active_client ≡ none
Matches transient_raised s = s.active_client ≡ none
Matches other_raised s = s.active_client ≡ none
Matches cancel_raised s = s.active_client ≡ none

-- The operation has returned in the turn in which the link drops: the client stays held.
abbrev pub returned_on_drop : Race → Bool
returned_on_drop returned = false
returned_on_drop cancelled = false
returned_on_drop timed_out = false
returned_on_drop (dropped op_returned) = op_returned
returned_on_drop (raised fault) = false

-- No pause is cancelled behind an attempt whose operation has returned in the turn of a drop. The last
-- attempt has no pause.
unfoldable pub AreUndisturbed : List Attempt → Type 0
AreUndisturbed [] = Unit
AreUndisturbed (e ∷ []) = Unit
AreUndisturbed (e ∷ x ∷ es) =
    (e.pause_cancelled && returned_on_drop e.race ≡ false) × AreUndisturbed (x ∷ es)

-- An attempt that goes on leaves no client, but for one that is `kept`.
unfoldable StopMatches : Bool → Step → Session → Type 0
unfolding Matches
StopMatches kept (stop end) s = Matches end s
StopMatches kept again s = kept ≡ false → s.active_client ≡ none

pub if-keeps {ℓ} :
    {A : Type ℓ} (P : A → Type 0) (b : Bool) (x y : A)
    → (b ≡ true → P x)
    → (b ≡ false → P y)
    → P (if b then x else y)
if-keeps P true x y hx hy = hx refl
if-keeps P false x y hx hy = hy refl

StepMatches : Bool → Step × Session → Type 0
unfolding StopMatches
StepMatches kept p = StopMatches kept p.0 p.1

EndMatches : End × Session → Type 0
unfolding Matches
EndMatches p = Matches p.0 p.1

-- The pauses that are left out above: where a retry is safe, the operation on a held client has
-- returned in the turn of the drop, and the pause behind it is cancelled, the cancelled operation
-- leaves that client held.
pub run_operation_holds_dropped :
    (first second third : Attempt) (s : Session)
    → is_reused first s ≡ true
    → first.expired_before ≡ false
    → first.expired_on_connect ≡ false
    → first.race ≡ dropped true
    → first.expired_after ≡ false
    → first.pause_cancelled ≡ true
    → ((run_operation false true first second third s).0 ≡ cancel_raised)
      × ((run_operation false true first second third s).1.active_client ≡ s.active_client)
      × (is_some s.active_client ≡ true)
unfolding run_operation attempts turn resumed attempt is_reused on_connection after_race paused
    cancel_idle_task
run_operation_holds_dropped first second third s r b x d a p = elim (Option-cases s.active_client) [
  | inl eq ↦ absurd (ground arith)
  | inr (c, eq) ↦ (ground arith, ground arith, rw eq refl)
]
