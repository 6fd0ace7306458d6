-- ===== src/Client/Session/Log.antt =====
-- What the sessions of src/solem_blip_ble/client_v2.py send, against a plan.
use solem_blip_ble.Common.{
  ◌≡◌, refl, sym, ap, ◌∙◌, ◌⊎◌, inl, inr, Option, none, some, List, [], ◌∷◌, ◌++◌, arith, Bytes,
}
use solem_blip_ble.Common.Lists.{append_assoc, append-nil}
use solem_blip_ble.Client.Polling.{Outcome, returns, raises, waits, Exception}
use package.solem_blip_ble.Client.Session.{Session, only, unless_raised, judged, and_then}

-- A session that returns has sent the plan, payload by payload; any other has sent a beginning of it.
unfoldable pub KeepsTo {ℓ} : {A : Type ℓ} → List Bytes → Session A → Type 0
KeepsTo plan session =
    (rest : List Bytes) × (session.sent ++ rest ≡ plan)
    × elim session.outcome [ returns a ↦ rest ≡ [] | raises e ↦ Unit {0} | waits ↦ Unit {0} ]

pub Outcome-cases {ℓ} :
    {A : Type ℓ} (o : Outcome A)
    → ((a : A) × (o ≡ returns a)) ⊎ ((e : Exception) × (o ≡ raises e)) ⊎ (o ≡ waits)
Outcome-cases (returns a) = inl (a, refl)
Outcome-cases (raises e) = inr (inl (e, refl))
Outcome-cases waits = inr (inr refl)

pub only-KeepsTo {ℓ} : {A : Type ℓ} (outcome : Outcome A) → KeepsTo [] (only outcome)
unfolding KeepsTo
only-KeepsTo (returns a) = ([], refl, refl)
only-KeepsTo (raises e) = ([], refl, tt)
only-KeepsTo waits = ([], refl, tt)

-- One request, whatever its answer.
pub one-KeepsTo {ℓ} :
    {A : Type ℓ} (frame : Bytes) (outcome : Outcome A)
    → KeepsTo (frame ∷ []) (record { sent = frame ∷ []; outcome = outcome })
unfolding KeepsTo
one-KeepsTo frame (returns a) = ([], refl, refl)
one-KeepsTo frame (raises e) = ([], refl, tt)
one-KeepsTo frame waits = ([], refl, tt)

pub unless_raised-KeepsTo {ℓ} :
    {A : Type ℓ} (raised : Option Exception) (plan : List Bytes) (session : Session A)
    → KeepsTo plan session
    → KeepsTo plan (unless_raised raised session)
unfolding unless_raised KeepsTo
unless_raised-KeepsTo none plan session kept = kept
unless_raised-KeepsTo (some e) plan session kept = (plan, refl, tt)

pub unless_raised-returns {ℓ} :
    {A : Type ℓ} (raised : Option Exception) (session : Session A) (a : A)
    → (unless_raised raised session).outcome ≡ returns a
    → session.outcome ≡ returns a
unfolding unless_raised
unless_raised-returns none session a h = h
unless_raised-returns (some e) session a h = ground arith

judged_by_outcome {ℓ} :
    {A : Type ℓ} (verdict : Exception → Exception) (plan sent : List Bytes) (outcome : Outcome A)
    → KeepsTo plan (record { sent = sent; outcome = outcome })
    → KeepsTo plan (judged verdict (record { sent = sent; outcome = outcome }))
unfolding KeepsTo
judged_by_outcome verdict plan sent (returns a) kept = kept
judged_by_outcome verdict plan sent (raises e) kept = kept
judged_by_outcome verdict plan sent waits kept = kept

pub judged-KeepsTo {ℓ} :
    {A : Type ℓ} (verdict : Exception → Exception) (plan : List Bytes) (session : Session A)
    → KeepsTo plan session
    → KeepsTo plan (judged verdict session)
judged-KeepsTo verdict plan session = judged_by_outcome verdict plan session.sent session.outcome

pub judged-returns {ℓ} :
    {A : Type ℓ} (verdict : Exception → Exception) (session : Session A) (a : A)
    → (judged verdict session).outcome ≡ returns a
    → session.outcome ≡ returns a
judged-returns verdict session a h = elim (Outcome-cases session.outcome) [
  | inl (b, eq) ↦ ground arith
  | inr (inl (e, eq)) ↦ ground arith
  | inr (inr eq) ↦ ground arith
]

pub judged-raises {ℓ} :
    {A : Type ℓ} (verdict : Exception → Exception) (session : Session A) (e : Exception)
    → (judged verdict session).outcome ≡ raises e
    → (cause : Exception) × (session.outcome ≡ raises cause) × (verdict cause ≡ e)
judged-raises verdict session e h = elim (Outcome-cases session.outcome) [
  | inl (b, eq) ↦ ground arith
  | inr (inl (cause, eq)) ↦ (cause, eq, ground arith)
  | inr (inr eq) ↦ ground arith
]

-- The same by the outcome of the first.
plans_in_order {ℓ κ} :
    {A : Type ℓ} {B : Type κ} (p q sent : List Bytes) (outcome : Outcome A) (next : A → Session B)
    → KeepsTo p (record { sent = sent; outcome = outcome })
    → ((a : A) → KeepsTo q (next a))
    → KeepsTo (p ++ q) (and_then (record { sent = sent; outcome = outcome }) next)
unfolding KeepsTo and_then
plans_in_order p q sent (returns a) next (rest, split, done) later =
    let (rest', split', done') = later a in
    (
      rest',
      append_assoc sent (next a).sent rest'
          ∙ ap (λ (t : List Bytes). sent ++ t) split'
          ∙ ap (λ (t : List Bytes). t ++ q)
              (sym (append-nil sent) ∙ ap (λ (t : List Bytes). sent ++ t) (sym done) ∙ split),
      done',
    )
plans_in_order p q sent (raises e) next (rest, split, done) later =
    (rest ++ q, sym (append_assoc sent rest q) ∙ ap (λ (t : List Bytes). t ++ q) split, tt)
plans_in_order p q sent waits next (rest, split, done) later =
    (rest ++ q, sym (append_assoc sent rest q) ∙ ap (λ (t : List Bytes). t ++ q) split, tt)

-- Plans are kept one behind the other.
pub and_then-KeepsTo {ℓ κ} :
    {A : Type ℓ} {B : Type κ} (p q : List Bytes) (session : Session A) (next : A → Session B)
    → KeepsTo p session
    → ((a : A) → KeepsTo q (next a))
    → KeepsTo (p ++ q) (and_then session next)
and_then-KeepsTo p q session next = plans_in_order p q session.sent session.outcome next

-- A statement behind one that returns adds what it sends.
pub and_then-sent {ℓ κ} :
    {A : Type ℓ} {B : Type κ} (session : Session A) (next : A → Session B) (a : A)
    → session.outcome ≡ returns a
    → (and_then session next).sent ≡ session.sent ++ (next a).sent
unfolding and_then
and_then-sent session next a h = rw h refl

-- What two statements return, and what they raise.
pub and_then-returns {ℓ κ} :
    {A : Type ℓ} {B : Type κ} (session : Session A) (next : A → Session B) (b : B)
    → (and_then session next).outcome ≡ returns b
    → (a : A) × (session.outcome ≡ returns a) × ((next a).outcome ≡ returns b)
unfolding and_then
and_then-returns session next b h = elim (Outcome-cases session.outcome) [
  | inl (a, eq) ↦ (a, eq, ground arith)
  | inr (inl (e, eq)) ↦ ground arith
  | inr (inr eq) ↦ ground arith
]

pub and_then-raises {ℓ κ} :
    {A : Type ℓ} {B : Type κ} (session : Session A) (next : A → Session B) (e : Exception)
    → (and_then session next).outcome ≡ raises e
    → (session.outcome ≡ raises e)
      ⊎ ((a : A) × (session.outcome ≡ returns a) × ((next a).outcome ≡ raises e))
unfolding and_then
and_then-raises session next e h = elim (Outcome-cases session.outcome) [
  | inl (a, eq) ↦ inr (a, eq, ground arith)
  | inr (inl (e', eq)) ↦ inl (ground arith)
  | inr (inr eq) ↦ ground arith
]

sent_by_outcome {ℓ} :
    {A : Type ℓ} (plan sent : List Bytes) (outcome : Outcome A) (a : A)
    → KeepsTo plan (record { sent = sent; outcome = outcome })
    → outcome ≡ returns a
    → sent ≡ plan
unfolding KeepsTo
sent_by_outcome plan sent (returns b) a (rest, split, done) h =
    sym (append-nil sent) ∙ ap (λ (t : List Bytes). sent ++ t) (sym done) ∙ split
sent_by_outcome plan sent (raises e) a kept h = absurd (ground arith)
sent_by_outcome plan sent waits a kept h = absurd (ground arith)

-- A session that keeps to a plan and returns has sent it.
pub KeepsTo-sent {ℓ} :
    {A : Type ℓ} (plan : List Bytes) (session : Session A) (a : A)
    → KeepsTo plan session
    → session.outcome ≡ returns a
    → session.sent ≡ plan
KeepsTo-sent plan session = sent_by_outcome plan session.sent session.outcome
