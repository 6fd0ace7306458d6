-- ===== src/Client/Drops/Confirmed.antt =====
-- What confirms a drop in src/solem_blip_ble/client_v2.py, and what `_start_notify` leaves behind.
use solem_blip_ble.Common.{
  ℕ, zero, suc, ◌≤◌, ◌≡◌, refl, ◌↔◌, ◌⊎◌, inl, inr, Bool, true, false, List, [], ◌∷◌, arith,
  if◌then◌else◌, Bool-cases,
}
use solem_blip_ble.Client.Polling.{Outcome, returns, raises, waits}
use package.solem_blip_ble.Client.Drops.{
  DropSignal, on_disconnected, no_hint, check_drop, WatchTurn, called_back, watch_drop, Attempt,
  Call, subscribe, unsubscribe, start_notify,
}

-- The flag and the event say the same.
unfoldable pub Agree : DropSignal → Type 0
Agree s = s.link_dropped ≡ s.drop_event

-- Some turn finds the client disconnected.
unfoldable pub SeesDisconnected : List WatchTurn → Type 0
SeesDisconnected [] = ⊥
SeesDisconnected (turn ∷ turns) = (turn.connected ≡ false) ⊎ SeesDisconnected turns

-- The watcher completes exactly if some turn finds the client disconnected, however often the callback
-- was called; and the flag and the event agree behind it if they did before.
pub watch_drop_confirmed :
    (turns : List WatchTurn) (s : DropSignal)
    → Agree s
    → (((watch_drop turns s).0 ≡ true) ↔ SeesDisconnected turns) × Agree (watch_drop turns s).1
unfolding watch_drop SeesDisconnected Agree on_disconnected
watch_drop_confirmed [] s agree = ((λ h. ground arith, λ h. elim h [ ]), agree)
watch_drop_confirmed (turn ∷ turns) s agree =
    let t = called_back turn.called s in
    let (later, agrees) =
      watch_drop_confirmed turns (if t.drop_event then no_hint else t) (ground arith) in
    elim (Bool-cases turn.connected) [
      | inl up ↦ (
        (
          λ h. inr (later.0 (ground arith)),
          λ h. elim h [
            | inl down ↦ absurd (ground arith)
            | inr sees ↦ ground (arith, later.1 sees)
          ],
        ),
        ground arith,
      )
      | inr down ↦ ((λ h. inl down, λ h. ground arith), ground arith)
    ]

unfoldable pub subscriptions : List Call → ℕ
subscriptions [] = 0
subscriptions (subscribe ∷ calls) = suc (subscriptions calls)
subscriptions (unsubscribe ∷ calls) = subscriptions calls

-- Whether the calls leave a subscription, from whether there was one.
unfoldable pub holds_subscription : Bool → List Call → Bool
holds_subscription held [] = held
holds_subscription held (subscribe ∷ calls) = holds_subscription true calls
holds_subscription held (unsubscribe ∷ calls) = holds_subscription false calls

abbrev pub has_returned : Outcome (Unit {0}) → Bool
has_returned (returns done) = true
has_returned (raises e) = false
has_returned waits = false

-- `_start_notify` subscribes at most as often as it has attempts, and leaves a subscription behind
-- exactly if it returns: every attempt that fails has been unsubscribed.
pub start_notify_settles :
    (n : ℕ) (attempts : List Attempt) (s : DropSignal)
    → (subscriptions (start_notify n attempts s).calls ≤ n)
      × (holds_subscription false (start_notify n attempts s).calls
          ≡ has_returned (start_notify n attempts s).outcome)
unfolding start_notify subscriptions holds_subscription
start_notify_settles zero attempts s = (omega arith, refl)
start_notify_settles (suc n) [] s = (omega arith, refl)
start_notify_settles (suc n) (a ∷ attempts) s =
    let (raised, s1) = check_drop a.active (called_back a.called s) in
    let (caught, s2) = check_drop a.active_after (called_back a.called_after s1) in
    let (few, held) = start_notify_settles n attempts s2 in
    elim (Bool-cases raised) [
      | inl drops ↦ ground arith
      | inr goes ↦ elim (Bool-cases caught) [
        | inl drops ↦ ground arith
        | inr asks ↦ elim (Bool-cases a.subscribes) [
          | inl works ↦ ground arith
          | inr fails ↦ ground arith
        ]
      ]
    ]
