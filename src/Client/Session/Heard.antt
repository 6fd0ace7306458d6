-- ===== src/Client/Session/Heard.antt =====
-- What a wait of src/solem_blip_ble/client_v2.py that has returned has heard.
use solem_blip_ble.Common.{
  ℕ, ◌+◌, ◌≡◌, refl, sym, ap, ◌∙◌, ◌⊎◌, inl, inr, Bool, true, List, [], ◌∷◌, ◌++◌, arith, Bytes,
  Bool-cases, Option-cases,
}
use solem_blip_ble.Common.Lists.{append_assoc}
use solem_blip_ble.Client.Polling.{
  returns, WaitTurn, stops, goes_on, Turned-cases, handle_all, wait_turn, wait_for_event,
}
use package.solem_blip_ble.Client.Session.{PartWait, write_and_wait}

-- The notifications of the turns, one behind the other.
unfoldable pub all_heard : List WaitTurn → List Bytes
all_heard [] = []
all_heard (turn ∷ turns) = turn.arrived ++ all_heard turns

pub handle_all-append {ℓ} :
    {S : Type ℓ} (handle : S → Bytes → S) (s : S) (xs ys : List Bytes)
    → handle_all handle s (xs ++ ys) ≡ handle_all handle (handle_all handle s xs) ys
unfolding handle_all
handle_all-append handle s [] ys = refl
handle_all-append handle s (x ∷ xs) ys = handle_all-append handle (handle s x) xs ys

-- One turn that ends the wait with a state has seen its event, before its notifications or behind.
turn_returns {ℓ} :
    {S : Type ℓ} (event : S → Bool) (handle : S → Bytes → S) (deadline : ℕ) (turn : WaitTurn)
    (s s' : S)
    → wait_turn event handle deadline turn s ≡ stops (returns s')
    → ((s' ≡ s) × (event s' ≡ true)) ⊎ ((s' ≡ handle_all handle s turn.arrived) × (event s' ≡ true))
unfolding wait_turn
turn_returns event handle deadline turn s s' h = ground arith

turn_goes_on {ℓ} :
    {S : Type ℓ} (event : S → Bool) (handle : S → Bytes → S) (deadline : ℕ) (turn : WaitTurn)
    (s s' : S)
    → wait_turn event handle deadline turn s ≡ goes_on s'
    → s' ≡ handle_all handle s turn.arrived
unfolding wait_turn
turn_goes_on event handle deadline turn s s' h = ground arith

-- A wait that returns has handled some of the notifications, from the first on, and has seen its event.
pub wait_for_event_heard {ℓ} :
    {S : Type ℓ} (event : S → Bool) (handle : S → Bytes → S) (deadline : ℕ) (turns : List WaitTurn)
    (s s' : S)
    → wait_for_event event handle deadline turns s ≡ returns s'
    → (heard : List Bytes) × (later : List Bytes) × (all_heard turns ≡ heard ++ later)
      × (s' ≡ handle_all handle s heard)
      × (event s' ≡ true)
unfolding wait_for_event all_heard handle_all
wait_for_event_heard event handle deadline [] s s' h = elim (Bool-cases (event s)) [
  | inl seen ↦ ([], [], refl, ground arith, ground arith)
  | inr unseen ↦ ground arith
]
wait_for_event_heard event handle deadline (turn ∷ turns) s s' h =
    elim (Turned-cases (wait_turn event handle deadline turn s)) [
      | inl (outcome, eq) ↦ elim (turn_returns event handle deadline turn s s' (ground arith)) [
        | inl (same, seen) ↦ ([], all_heard (turn ∷ turns), refl, same, seen)
        | inr (same, seen) ↦ (turn.arrived, all_heard turns, refl, same, seen)
      ]
      | inr (t, eq) ↦
          let (heard, later, split, same, seen) =
            wait_for_event_heard event handle deadline turns t s' (ground arith) in
          (
            turn.arrived ++ heard,
            later,
            ap (λ (xs : List Bytes). turn.arrived ++ xs) split
                ∙ sym (append_assoc turn.arrived heard later),
            same
                ∙ ap (λ u. handle_all handle u heard)
                    (turn_goes_on event handle deadline turn s t eq)
                ∙ sym (handle_all-append handle s turn.arrived heard),
            seen,
          )
    ]

-- The notifications that may end the wait for one part.
abbrev pub part_frames : PartWait → List Bytes
part_frames part = part.answered ++ all_heard part.turns

-- The same for a written frame.
pub write_and_wait_heard {ℓ} :
    {S : Type ℓ} (event : S → Bool) (handle : S → Bytes → S) (timeout : ℕ) (frame : Bytes)
    (part : PartWait) (s s' : S)
    → (write_and_wait event handle timeout frame part s).outcome ≡ returns s'
    → (heard : List Bytes) × (later : List Bytes) × (part_frames part ≡ heard ++ later)
      × (s' ≡ handle_all handle s heard)
      × (event s' ≡ true)
unfolding write_and_wait
write_and_wait_heard event handle timeout frame part s s' h =
    elim (Option-cases part.write_raises) [
      | inr (e, eq) ↦ ground arith
      | inl eq ↦
          let (heard, later, split, same, seen) =
            wait_for_event_heard event handle (part.started + timeout) part.turns
              (handle_all handle s part.answered) s' (ground arith) in
          (
            part.answered ++ heard,
            later,
            ap (λ (xs : List Bytes). part.answered ++ xs) split
                ∙ sym (append_assoc part.answered heard later),
            same ∙ sym (handle_all-append handle s part.answered heard),
            seen,
          )
    ]
