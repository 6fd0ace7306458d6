-- ===== src/Client/Persistent/Accounting.antt =====
-- Connections and releases of the session of src/solem_blip_ble/client_persistent.py, and the attempts
-- that lose a connection.
use solem_blip_ble.Client.Attempt.{transient_raised}
use solem_blip_ble.Common.{◌||◌}
use solem_blip_ble.Common.{
  ℕ, suc, ◌+◌, ◌≡◌, refl, inl, inr, Bool, true, false, Option, none, some, List, [], ◌∷◌, arith,
  if◌then◌else◌, Option-cases, All,
}
use solem_blip_ble.Client.Attempt.{
  verdict, transient, deadline, other, Race, returned, cancelled, timed_out, raised, dropped,
  Attempt, End, deadline_exceeded, connections, disconnections,
}
use solem_blip_ble.Client.Stateless.Closing.{resumed-keeps}
use solem_blip_ble.Client.Stateless.{Step, stop, again, turn}
use solem_blip_ble.Client.Persistent.{
  Session, reset_session_state, schedule_background_disconnect, cancel_idle_task,
  schedule_idle_release, release_active, is_reused, prepared, connected, caught, after_race,
  on_connection, connect_failed, attempt, paused, attempts, run_operation,
}
use solem_blip_ble.Client.Persistent.Held.{if-keeps}

abbrev pub held : Option ℕ → ℕ
held none = 0
held (some client) = 1

-- Every connection of the trace has been released or is the one that is held.
unfoldable pub IsAccounted : Session → Type 0
IsAccounted s = connections s.trace ≡ held s.active_client + disconnections s.trace

-- Neither held nor lost.
unfoldable pub IsReleased : Session → Type 0
IsReleased s = (s.active_client ≡ none) × (connections s.trace ≡ disconnections s.trace)

unfoldable pub keeps_client : Race → Bool
keeps_client returned = false
keeps_client cancelled = false
keeps_client timed_out = false
keeps_client (dropped op_returned) = op_returned
keeps_client (raised verdict) = false
keeps_client (raised transient) = false
keeps_client (raised deadline) = true
keeps_client (raised other) = false

-- The deadline does not pass while the attempt connects or inside the operation, and the operation
-- does not return in the turn in which the link drops.
unfoldable pub IsClean : Attempt → Type 0
unfolding keeps_client
IsClean e = (e.expired_on_connect ≡ false) × (keeps_client e.race ≡ false)

unfoldable Balanced : Step → Session → Type 0
unfolding IsAccounted IsReleased
Balanced (stop end) s = IsAccounted s
Balanced again s = IsReleased s

PairBalanced : Step × Session → Type 0
unfolding Balanced
PairBalanced p = Balanced p.0 p.1

release-IsReleased : (s : Session) → IsAccounted s → IsReleased (release_active s)
unfolding IsReleased IsAccounted release_active reset_session_state schedule_background_disconnect
    disconnections connections
release-IsReleased s h = elim (Option-cases s.active_client) [
  | inl eq ↦ ground arith
  | inr (c, eq) ↦ ground arith
]

released-IsAccounted : (s : Session) → IsReleased s → IsAccounted s
unfolding IsReleased IsAccounted
released-IsAccounted s (h, b) = rw h (omega arith)

release-IsAccounted : (s : Session) → IsAccounted s → IsAccounted (release_active s)
release-IsAccounted s h = released-IsAccounted (release_active s) (release-IsReleased s h)

caught-Balanced :
    (retry_safe : Bool) (s : Session)
    → IsAccounted s
    → Balanced (caught retry_safe s).0 (caught retry_safe s).1
unfolding caught Balanced
caught-Balanced true s h = release-IsReleased s h
caught-Balanced false s h = release-IsAccounted s h

after_race-Balanced :
    (retry_safe : Bool) (race : Race) (s : Session)
    → keeps_client race ≡ false
    → IsAccounted s
    → Balanced (after_race retry_safe race s).0 (after_race retry_safe race s).1
unfolding after_race Balanced schedule_idle_release keeps_client IsAccounted
after_race-Balanced retry_safe returned s k h = h
after_race-Balanced retry_safe cancelled s k h = release-IsAccounted s h
after_race-Balanced retry_safe timed_out s k h = caught-Balanced retry_safe s h
after_race-Balanced retry_safe (dropped false) s k h = caught-Balanced retry_safe s h
after_race-Balanced retry_safe (dropped true) s k h = absurd (ground arith)
after_race-Balanced true (raised verdict) s k h = release-IsReleased s h
after_race-Balanced false (raised verdict) s k h = release-IsAccounted s h
after_race-Balanced retry_safe (raised transient) s k h = caught-Balanced retry_safe s h
after_race-Balanced retry_safe (raised deadline) s k h = absurd (ground arith)
after_race-Balanced retry_safe (raised other) s k h = release-IsAccounted s h

on_connection-Balanced :
    (retry_safe : Bool) (e : Attempt) (s : Session)
    → IsClean e
    → IsAccounted s
    → Balanced (on_connection retry_safe e s).0 (on_connection retry_safe e s).1
unfolding on_connection PairBalanced IsClean
on_connection-Balanced retry_safe e s (x, k) h =
    if-keeps PairBalanced e.expired_on_connect (stop deadline_exceeded, reset_session_state s)
      (after_race retry_safe e.race s) (λ y. absurd (ground arith))
      (λ y. after_race-Balanced retry_safe e.race s k h)

connect_failed-Balanced :
    (retry_safe : Bool) (s : Session)
    → IsReleased s
    → Balanced (connect_failed retry_safe s).0 (connect_failed retry_safe s).1
unfolding connect_failed Balanced IsAccounted IsReleased reset_session_state schedule_idle_release
connect_failed-Balanced true s (h, b) = omega arith
connect_failed-Balanced false s (h, b) = omega arith

connected-IsAccounted : (s : Session) → IsReleased s → IsAccounted (connected s)
unfolding IsAccounted IsReleased connected connections disconnections
connected-IsAccounted s (h, b) = ground arith

attempt-Balanced :
    (retry_safe : Bool) (e : Attempt) (s : Session)
    → IsClean e
    → IsAccounted s
    → Balanced (attempt retry_safe e s).0 (attempt retry_safe e s).1
unfolding attempt PairBalanced prepared IsAccounted
attempt-Balanced retry_safe e s k h =
    let released = release-IsReleased s h in
    if-keeps PairBalanced (is_reused e s)
      (on_connection retry_safe e (record s { link_dropped = false }))
      (if e.connects
        then on_connection retry_safe e (connected (prepared s))
        else connect_failed retry_safe (prepared s))
      (λ r. on_connection-Balanced retry_safe e (record s { link_dropped = false }) k h)
      (λ r.
        if-keeps PairBalanced e.connects (on_connection retry_safe e (connected (prepared s)))
          (connect_failed retry_safe (prepared s))
          (λ c.
            on_connection-Balanced retry_safe e (connected (prepared s)) k
              (connected-IsAccounted (prepared s) released))
          (λ c. connect_failed-Balanced retry_safe (prepared s) released))

turn-IsAccounted :
    (b : Bool) (expired : End × Session) (step : Step) (s : Session) (later : End × Session)
    → (b ≡ true → IsAccounted expired.1)
    → Balanced step s
    → (IsReleased s → IsAccounted later.1)
    → IsAccounted (turn b expired step s later).1
unfolding turn Balanced
turn-IsAccounted true expired step s later x h l = x refl
turn-IsAccounted false expired (stop end) s later x h l = h
turn-IsAccounted false expired again s later x h l = l h

paused-IsReleased :
    (expired last : Bool) (s : Session) → IsReleased s → IsReleased (paused expired last s)
unfolding IsReleased paused connections disconnections
paused-IsReleased expired last s (h, b) = ground arith

attempts-IsAccounted :
    (retry_safe : Bool) (es : List Attempt) (s : Session)
    → All IsClean es
    → IsReleased s
    → IsAccounted (attempts retry_safe es s).1
unfolding attempts IsAccounted IsReleased reset_session_state schedule_idle_release
attempts-IsAccounted retry_safe [] s k (h, b) = omega arith
attempts-IsAccounted retry_safe (e ∷ es) s (k, ks) h =
    let b = h.1 in
    turn-IsAccounted e.expired_before _ (attempt retry_safe e s).0 _ _ (λ x. omega arith)
      (attempt-Balanced retry_safe e s k (released-IsAccounted s h))
      (λ r.
        let last : Bool = elim es [ [] ↦ true | x ∷ t ↦ false ] in
        let s'' = paused e.expired_after last (attempt retry_safe e s).1 in
        let released = paused-IsReleased e.expired_after last (attempt retry_safe e s).1 r in
        resumed-keeps (λ t. IsAccounted t.1) e last s'' (attempts retry_safe es s'')
          (released-IsAccounted s'' released) (attempts-IsAccounted retry_safe es s'' ks released))

-- If the deadline is not over at the start and the three attempts are clean, an operation on a
-- session that accounts for its connections leaves one that does. A pause may be cancelled.
pub run_operation-IsAccounted :
    (mock retry_safe : Bool) (first second third : Attempt) (s : Session)
    → first.expired_before ≡ false
    → IsClean first
    → IsClean second
    → IsClean third
    → IsAccounted s
    → IsAccounted (run_operation mock retry_safe first second third s).1
unfolding run_operation attempts cancel_idle_task IsAccounted
run_operation-IsAccounted true retry_safe first second third s b k l m h = h
run_operation-IsAccounted false retry_safe first second third s b k l m h =
    turn-IsAccounted first.expired_before _ (attempt retry_safe first (cancel_idle_task s)).0 _ _
      (λ x. absurd (ground arith)) (attempt-Balanced retry_safe first (cancel_idle_task s) k h)
      (λ r.
        let s' = (attempt retry_safe first (cancel_idle_task s)).1 in
        let s'' = paused first.expired_after false s' in
        let released = paused-IsReleased first.expired_after false s' r in
        resumed-keeps (λ t. IsAccounted t.1) first false s''
          (attempts retry_safe (second ∷ third ∷ []) s'') (released-IsAccounted s'' released)
          (attempts-IsAccounted retry_safe (second ∷ third ∷ []) s'' (l, (m, tt)) released))

-- On a released session, if the deadline passes while the first attempt connects, the operation ends
-- with no client held and one more connection in the trace than disconnections.
pub run_operation_loses_client :
    (retry_safe : Bool) (first second third : Attempt) (s : Session)
    → IsReleased s
    → first.expired_before ≡ false
    → first.connects ≡ true
    → first.expired_on_connect ≡ true
    → ((run_operation false retry_safe first second third s).1.active_client ≡ none)
      × (connections (run_operation false retry_safe first second third s).1.trace
          ≡ suc (disconnections (run_operation false retry_safe first second third s).1.trace))
unfolding run_operation attempts turn attempt is_reused prepared connected on_connection
    release_active reset_session_state cancel_idle_task IsReleased connections disconnections
run_operation_loses_client retry_safe first second third s (n, h) b c x = ground arith

-- Where the first attempt has to connect and cannot, since no client is held or the one that is held
-- is stale, the operation raises: the deadline's exception if the deadline is over or a retry is safe,
-- and a connection error otherwise. It connects no more, and the later attempts have no influence.
pub run_operation_connects_once :
    (retry_safe : Bool) (first second third second' third' : Attempt) (s : Session)
    → is_reused first s ≡ false
    → first.connects ≡ false
    → ((run_operation false retry_safe first second third s).0
        ≡ (if first.expired_before || retry_safe then deadline_exceeded else transient_raised))
      × (connections (run_operation false retry_safe first second third s).1.trace
          ≡ connections s.trace)
      × (run_operation false retry_safe first second third s
          ≡ run_operation false retry_safe first second' third' s)
unfolding run_operation attempts turn attempt is_reused prepared connected connect_failed
    release_active reset_session_state schedule_background_disconnect cancel_idle_task connections
    schedule_idle_release
run_operation_connects_once retry_safe first second third second' third' s n c =
    elim (Option-cases s.active_client) [ inl eq ↦ ground arith | inr (client, eq) ↦ ground arith ]
