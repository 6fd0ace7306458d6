-- ===== src/Client/Stateless/Closing.antt =====
-- The stateless executor of src/solem_blip_ble/client_v2.py closes what it opens.
use Prim.Native.Nat.{◌≤◌}
use solem_blip_ble.Common.{
  suc, ◌+◌, ◌≤◌, ◌≡◌, refl, sym, inl, inr, Bool, true, false, ◌&&◌, not, none, List, [], ◌∷◌, arith,
  Bool-cases, length,
}
use mathlib.Core.Path.{subst}
use solem_blip_ble.Client.Attempt.{
  verdict, transient, deadline, other, Race, returned, cancelled, timed_out, raised, dropped,
  Attempt, End, result, deadline_exceeded, verdict_raised, transient_raised, other_raised,
  cancel_raised, connections, disconnections,
}
use solem_blip_ble.Client.Stateless.{
  Link, Step, stop, again, turn, resumed, after_race, connected, closed, attempt, paused, attempts,
  run_operation,
}

turn-keeps :
    (P : Link → Type 0) (b : Bool) (expired : End × Link) (step : Step) (s' : Link)
    (later : End × Link)
    → P expired.1
    → P s'
    → P later.1
    → P (turn b expired step s' later).1
unfolding turn
turn-keeps P true expired step s' later x h l = x
turn-keeps P false expired (stop end) s' later x h l = h
turn-keeps P false expired again s' later x h l = l

-- What holds behind a cancelled pause and of the later turns holds behind the pause.
pub resumed-keeps {ℓ} :
    {S : Type ℓ} (P : End × S → Type 0) (e : Attempt) (last : Bool) (s : S) (later : End × S)
    → P (cancel_raised, s)
    → P later
    → P (resumed e last s later)
unfolding resumed
resumed-keeps P e last s later c l =
    elim (Bool-cases (e.pause_cancelled && (not e.expired_after && not last))) [
      | inl stops_here ↦ rw stops_here c
      | inr goes_on ↦ rw goes_on l
    ]

-- What an attempt and a pause keep, the loop keeps.
pub attempts-keeps :
    (P : Link → Type 0) (retry_safe : Bool) (es : List Attempt) (s : Link)
    → ((e : Attempt) (s : Link) → P s → P (attempt retry_safe e s).1)
    → ((expired last : Bool) (s : Link) → P s → P (paused expired last s))
    → P s
    → P (attempts retry_safe es s).1
unfolding attempts
attempts-keeps P retry_safe [] s ha hp h = h
attempts-keeps P retry_safe (e ∷ es) s ha hp h =
    let h' = ha e s h in
    let last : Bool = elim es [ [] ↦ true | x ∷ r ↦ false ] in
    let h'' = hp e.expired_after last (attempt retry_safe e s).1 h' in
    let rest =
      resumed-keeps (λ t. P t.1) e last (paused e.expired_after last (attempt retry_safe e s).1) _
        h'' (attempts-keeps P retry_safe es _ ha hp h'') in
    turn-keeps P e.expired_before _ (attempt retry_safe e s).0 _ _ h h' rest

-- No client is active, and every connection of the trace has been closed.
unfoldable pub IsSettled : Link → Type 0
IsSettled s = (s.active_client ≡ none) × (connections s.trace ≡ disconnections s.trace)

attempt-IsSettled :
    (retry_safe : Bool) (e : Attempt) (s : Link)
    → IsSettled s
    → IsSettled (attempt retry_safe e s).1
unfolding IsSettled attempt connections disconnections connected closed
attempt-IsSettled retry_safe e s (h, b) = ground arith

paused-IsSettled :
    (expired last : Bool) (s : Link) → IsSettled s → IsSettled (paused expired last s)
unfolding IsSettled paused connections disconnections
paused-IsSettled expired last s (h, b) = ground arith

-- However its attempts go, an operation on a client without an open link leaves no client active, and
-- it has disconnected as often as it has connected.
pub run_operation-IsSettled :
    (mock retry_safe : Bool) (first second third : Attempt) (s : Link)
    → IsSettled s
    → IsSettled (run_operation mock retry_safe first second third s).1
unfolding run_operation
run_operation-IsSettled true retry_safe first second third s h = h
run_operation-IsSettled false retry_safe first second third s h =
    attempts-keeps IsSettled retry_safe (first ∷ second ∷ third ∷ []) s
      (attempt-IsSettled retry_safe) paused-IsSettled h

attempt_connects :
    (retry_safe : Bool) (e : Attempt) (s : Link)
    → connections (attempt retry_safe e s).1.trace ≤ 1 + connections s.trace
unfolding attempt connections connected closed
attempt_connects retry_safe e s = ground arith

paused_connects :
    (expired last : Bool) (s : Link)
    → connections (paused expired last s).trace ≡ connections s.trace
unfolding paused connections
paused_connects expired last s = ground arith

pub attempts_connect :
    (retry_safe : Bool) (es : List Attempt) (s : Link)
    → connections (attempts retry_safe es s).1.trace ≤ length es + connections s.trace
unfolding attempts
attempts_connect retry_safe [] s = omega arith
attempts_connect retry_safe (e ∷ es) s =
    let last : Bool = elim es [ [] ↦ true | x ∷ r ↦ false ] in
    let h = attempt_connects retry_safe e s in
    let p = paused_connects e.expired_after last (attempt retry_safe e s).1 in
    let s'' = paused e.expired_after last (attempt retry_safe e s).1 in
    let later = attempts_connect retry_safe es s'' in
    let rest =
      resumed-keeps (λ t. connections t.1.trace ≤ length es + connections s''.trace) e last s''
        (attempts retry_safe es s'') (omega arith) later in
    turn-keeps (λ t. connections t.trace ≤ suc (length es) + connections s.trace) e.expired_before _
      (attempt retry_safe e s).0 _ _ (omega arith) (omega arith) (omega arith)

race_stops : (race : Race) → (end : End) × (after_race false race ≡ stop end)
unfolding after_race
race_stops returned = (result, refl)
race_stops cancelled = (cancel_raised, refl)
race_stops timed_out = (transient_raised, refl)
race_stops (dropped op) = (transient_raised, refl)
race_stops (raised verdict) = (verdict_raised, refl)
race_stops (raised transient) = (transient_raised, refl)
race_stops (raised deadline) = (deadline_exceeded, refl)
race_stops (raised other) = (other_raised, refl)

-- An unsafe attempt stops the loop.
pub unsafe_stops : (e : Attempt) (s : Link) → (end : End) × ((attempt false e s).0 ≡ stop end)
unfolding attempt after_race
unsafe_stops e s = elim (Bool-cases e.connects) [
  | inr c ↦ (transient_raised, rw c refl)
  | inl c ↦ elim (Bool-cases e.expired_on_connect) [
    | inl x ↦ (deadline_exceeded, rw (c, x) refl)
    | inr x ↦ let (end, eq) = race_stops e.race in (end, rw (c, x) eq)
  ]
]

turn_stops :
    (b : Bool) (end : End) (s s' : Link) (later later' : End × Link)
    → connections s'.trace ≤ 1 + connections s.trace
    → (connections (turn b (deadline_exceeded, s) (stop end) s' later).1.trace
        ≤ 1 + connections s.trace)
      × (turn b (deadline_exceeded, s) (stop end) s' later
          ≡ turn b (deadline_exceeded, s) (stop end) s' later')
unfolding turn
turn_stops true end s s' later later' h = (omega arith, refl)
turn_stops false end s s' later later' h = (h, refl)

-- Where a retry is not safe, an operation connects at most once, and what would happen to a second or
-- a third attempt has no influence on its outcome.
pub run_operation_unsafe :
    (mock : Bool) (first second third second' third' : Attempt) (s : Link)
    → (connections (run_operation mock false first second third s).1.trace
        ≤ 1 + connections s.trace)
      × (run_operation mock false first second third s
          ≡ run_operation mock false first second' third' s)
unfolding run_operation attempts
run_operation_unsafe true first second third second' third' s = (omega arith, refl)
run_operation_unsafe false first second third second' third' s =
    let (end, eq) = unsafe_stops first s in
    let h = attempt_connects false first s in
    let s' = attempt false first s in
    let s'' = paused first.expired_after false s'.1 in
    subst
      (λ step.
        (connections
            (turn first.expired_before (deadline_exceeded, s) step s'.1
              (resumed first false s'' (attempts false (second ∷ third ∷ []) s''))).1.trace
          ≤ 1 + connections s.trace)
        × (turn first.expired_before (deadline_exceeded, s) step s'.1
              (resumed first false s'' (attempts false (second ∷ third ∷ []) s''))
            ≡ turn first.expired_before (deadline_exceeded, s) step s'.1
                (resumed first false s'' (attempts false (second' ∷ third' ∷ []) s''))))
      (sym eq) (turn_stops first.expired_before end s _ _ _ h)

-- An operation connects at most three times.
pub run_operation_connects :
    (mock retry_safe : Bool) (first second third : Attempt) (s : Link)
    → connections (run_operation mock retry_safe first second third s).1.trace
      ≤ 3 + connections s.trace
unfolding run_operation
run_operation_connects true retry_safe first second third s = omega arith
run_operation_connects false retry_safe first second third s =
    attempts_connect retry_safe (first ∷ second ∷ third ∷ []) s
