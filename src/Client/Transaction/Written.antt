-- ===== src/Client/Transaction/Written.antt =====
-- What `set_time` of src/solem_blip_ble/client_v2.py has written and seen when it ends.
use solem_blip_ble.Client.Transaction.{Bool, is_some}
use solem_blip_ble.Common.{
  ℕ, ◌≡◌, refl, sym, ap, ◌∙◌, ◌≢◌, ◌⊎◌, inl, inr, Bool, is_some, true, false, none, some, List, [],
  ◌∷◌, ◌++◌, arith, Bytes, Bool-cases, Option-cases, set, ok, err, Result-cases, >>=-eq-ok, Error,
}
use mathlib.Core.Path.{subst}
use solem_blip_ble.Protocol.Status.{SolemStatus, parse_status_notification}
use solem_blip_ble.Protocol.Metadata.{parse_set_time_reply}
use solem_blip_ble.Protocol.Command.{pack_commit}
use solem_blip_ble.Client.Handlers.{TimeSync, handle_time}
use solem_blip_ble.Client.Transaction.{
  done, wait_frames, status_done, reply_done, read_status, start, status_of, verify, after_reply,
  set_time_op,
}

-- One of the frames is a notification of this status.
unfoldable pub Came : ℕ → SolemStatus → List Bytes → Type 0
Came station_count status [] = ⊥
Came station_count status (frame ∷ rest) =
    (parse_status_notification frame station_count ≡ ok (some status))
    ⊎ Came station_count status rest

wait_set :
    (event : TimeSync → Bool) (station_count : ℕ) (frames : List Bytes) (s : TimeSync)
    → event s ≡ true
    → wait_frames event (handle_time station_count) frames s ≡ s
unfolding wait_frames
wait_set event station_count [] s e = refl
wait_set event station_count (frame ∷ rest) s e = ground arith

-- The handler sets the event with the status of the frame, and with nothing else.
handle_time_event :
    (station_count : ℕ) (frame : Bytes) (s s' : TimeSync)
    → handle_time station_count s frame ≡ ok s'
    → ((status : SolemStatus) × (parse_status_notification frame station_count ≡ ok (some status))
        × (s'.status_event ≡ true)
        × (s'.status_result ≡ some status))
      ⊎ (s'.status_event ≡ s.status_event)
unfolding handle_time
handle_time_event station_count frame s s' e =
    let (parsed, p, q) = >>=-eq-ok (parse_status_notification frame station_count) _ e in
    elim (Option-cases parsed) [
      | inl n ↦ elim (Option-cases (parse_set_time_reply frame)) [
        | inl m ↦ inr (ground arith)
        | inr (reply, m) ↦ inr (ground arith)
      ]
      | inr (status, n) ↦ inl (status, p ∙ ap ok n, ground arith, ground arith)
    ]

wait_next :
    (event : TimeSync → Bool) (station_count : ℕ) (frame : Bytes) (rest : List Bytes)
    (s s' : TimeSync)
    → event s ≡ false
    → handle_time station_count s frame ≡ ok s'
    → wait_frames event (handle_time station_count) (frame ∷ rest) s
      ≡ wait_frames event (handle_time station_count) rest s'
unfolding wait_frames
wait_next event station_count frame rest s s' n e = ground arith

wait_skips :
    (event : TimeSync → Bool) (station_count : ℕ) (frame : Bytes) (rest : List Bytes) (s : TimeSync)
    (e : Error)
    → event s ≡ false
    → handle_time station_count s frame ≡ err e
    → wait_frames event (handle_time station_count) (frame ∷ rest) s
      ≡ wait_frames event (handle_time station_count) rest s
unfolding wait_frames
wait_skips event station_count frame rest s e n h = ground arith

wait-Came :
    (station_count : ℕ) (frames : List Bytes) (s : TimeSync) (status : SolemStatus)
    → s.status_event ≡ false
    → status_of (wait_frames status_done (handle_time station_count) frames s) ≡ some status
    → Came station_count status frames
unfolding wait_frames Came
wait-Came station_count [] s status n h = absurd (ground arith)
wait-Came station_count (frame ∷ rest) s status n h =
    elim (Result-cases (handle_time station_count s frame)) [
      | inl (s', eq) ↦
          let h' =
            sym (ap status_of (wait_next status_done station_count frame rest s s' n eq)) ∙ h in
          elim (handle_time_event station_count frame s s' eq) [
            | inl (seen, p, set, r) ↦
                let h'' =
                  sym (ap status_of (wait_set status_done station_count rest s' set)) ∙ h' in
                inl (p ∙ ap ok (sym r ∙ ground arith))
            | inr same ↦ inr (wait-Came station_count rest s' status (same ∙ n) h')
          ]
      | inr (e, eq) ↦ inr (
          wait-Came station_count rest s status n
            (sym (ap status_of (wait_skips status_done station_count frame rest s e n eq)) ∙ h))
    ]

-- A status that a read returns stood in a frame of its own wait: an earlier one is not taken for it.
pub read_status-Came :
    (station_count : ℕ) (frames : List Bytes) (s : TimeSync) (status : SolemStatus)
    → status_of (read_status station_count frames s) ≡ some status
    → Came station_count status frames
unfolding read_status
read_status-Came station_count frames s status h =
    wait-Came station_count frames (record s { status_result = none; status_event = false }) status
      refl h

-- The controller idles: it does not water and runs no program.
unfoldable pub IsIdle : SolemStatus → Type 0
IsIdle status = (status.is_watering ≡ false) × (status.active_program ≡ none)

-- After the acknowledgement.
unfoldable pub Verified : ℕ → List Bytes → Type 0
Verified station_count frames =
    (status : SolemStatus) × (Came station_count status frames) × (status.time_alarm ≡ false)

verify-done :
    (station_count : ℕ) (frames : List Bytes) (s : TimeSync) (written : List Bytes)
    → (verify station_count frames s written).0 ≡ done
    → ((verify station_count frames s written).1 ≡ written ++ (pack_commit ∷ []))
      × Verified station_count frames
unfolding verify Verified
verify-done station_count frames s written h =
    elim (Option-cases (status_of (read_status station_count frames s))) [
      | inl n ↦ absurd (ground arith)
      | inr (status, n) ↦
          (ground arith, (status, read_status-Came station_count frames s status n, ground arith))
    ]

after_reply-done :
    (station_count : ℕ) (frames : List Bytes) (s : TimeSync) (written : List Bytes)
    → (after_reply station_count frames s written).0 ≡ done
    → (s.reply_event ≡ true)
      × (s.reply_acknowledged ≢ some false)
      × ((after_reply station_count frames s written).1 ≡ written ++ (pack_commit ∷ []))
      × Verified station_count frames
unfolding after_reply
after_reply-done station_count frames s written h = elim (Bool-cases s.reply_event) [
  | inr n ↦ absurd (ground arith)
  | inl r ↦ elim (Option-cases s.reply_acknowledged) [
    | inl n ↦
        let (w, v) = verify-done station_count frames s written (ground arith) in
        (r, (λ x. ground arith), ground arith, v)
    | inr (b, n) ↦ elim (Bool-cases b) [
      | inr f ↦ absurd (ground arith)
      | inl t ↦
          let (w, v) = verify-done station_count frames s written (ground arith) in
          (r, (λ x. ground arith), ground arith, v)
    ]
  ]
]

-- The controller idles in the status that the first wait has brought.
unfoldable pub WasIdle : ℕ → List Bytes → Type 0
WasIdle station_count frames =
    (status : SolemStatus) × (Came station_count status frames)
    × (status.is_watering ≡ false)
    × (status.active_program ≡ none)

-- One of the frames is no status, and accepts the time.
unfoldable pub Accepted : ℕ → List Bytes → Type 0
Accepted station_count [] = ⊥
Accepted station_count (frame ∷ rest) =
    ((parse_status_notification frame station_count ≡ ok none)
      × (parse_set_time_reply frame ≡ some true))
    ⊎ Accepted station_count rest

-- The event of the reply is set with the reply.
unfoldable ReplyAgrees : TimeSync → Type 0
ReplyAgrees s = s.reply_event ≡ is_some s.reply_acknowledged

-- One frame: an acceptance that is there behind it was there before, or is the frame.
handle_time_reply :
    (station_count : ℕ) (frame : Bytes) (s s' : TimeSync)
    → handle_time station_count s frame ≡ ok s'
    → ReplyAgrees s
    → ReplyAgrees s'
      × ((((parse_status_notification frame station_count ≡ ok none)
            × (parse_set_time_reply frame ≡ some true)))
          ⊎ (s'.reply_acknowledged ≡ s.reply_acknowledged)
          ⊎ (s'.reply_acknowledged ≡ some false))
unfolding handle_time ReplyAgrees
handle_time_reply station_count frame s s' e agrees =
    let (parsed, p, q) = >>=-eq-ok (parse_status_notification frame station_count) _ e in
    elim (Option-cases parsed) [
      | inr (status, n) ↦ (ground arith, inr (inl (ground arith)))
      | inl n ↦ elim (Option-cases (parse_set_time_reply frame)) [
        | inl m ↦ (ground arith, inr (inl (ground arith)))
        | inr (reply, m) ↦ elim (Bool-cases reply) [
          | inl accepts ↦ (ground arith, inl (p ∙ ap ok n, m ∙ ap some accepts))
          | inr rejects ↦ (ground arith, inr (inr (ground arith)))
        ]
      ]
    ]

-- What a wait over the frames makes of a session: the statement below for its end `t`.
abbrev Heard : ℕ → List Bytes → TimeSync → TimeSync → Type 0
Heard station_count frames s t =
    ReplyAgrees t
    × (Accepted station_count frames
        ⊎ (t.reply_acknowledged ≡ s.reply_acknowledged)
        ⊎ (t.reply_acknowledged ≡ some false))

wait-Heard :
    (event : TimeSync → Bool) (station_count : ℕ) (frames : List Bytes) (s : TimeSync)
    → ReplyAgrees s
    → Heard station_count frames s (wait_frames event (handle_time station_count) frames s)
unfolding wait_frames Accepted
wait-Heard event station_count [] s agrees = (agrees, inr (inl refl))
wait-Heard event station_count (frame ∷ rest) s agrees = elim (Bool-cases (event s)) [
  | inl set ↦
      subst (λ t. Heard station_count (frame ∷ rest) s t)
        (sym (wait_set event station_count (frame ∷ rest) s set)) (agrees, inr (inl refl))
  | inr unset ↦ elim (Result-cases (handle_time station_count s frame)) [
    | inr (e, eq) ↦
        let (kept, seen) = wait-Heard event station_count rest s agrees in
        subst (λ t. Heard station_count (frame ∷ rest) s t)
          (sym (wait_skips event station_count frame rest s e unset eq))
          (kept, (elim seen [ inl later ↦ inl (inr later) | inr other ↦ inr other ]))
    | inl (s', eq) ↦
        let (now, first) = handle_time_reply station_count frame s s' eq agrees in
        let (kept, seen) = wait-Heard event station_count rest s' now in
        subst (λ t. Heard station_count (frame ∷ rest) s t)
          (sym (wait_next event station_count frame rest s s' unset eq))
          (
            kept,
            elim seen [
              | inl later ↦ inl (inr later)
              | inr (inr rejected) ↦ inr (inr rejected)
              | inr (inl same) ↦ elim first [
                | inl here ↦ inl (inl here)
                | inr (inl before) ↦ inr (inl (same ∙ before))
                | inr (inr rejects) ↦ inr (inr (same ∙ rejects))
              ]
            ],
          )
  ]
]

-- What the operation has seen of the reply at the end of its second wait.
unfoldable pub replied : ℕ → List Bytes → List Bytes → TimeSync
replied station_count first second =
    wait_frames reply_done (handle_time station_count) second
      (read_status station_count first start)

-- If the event of the reply is set and the reply that is kept does not reject, a frame has accepted.
replied-Accepted :
    (station_count : ℕ) (first second : List Bytes)
    → (replied station_count first second).reply_event ≡ true
    → (replied station_count first second).reply_acknowledged ≢ some false
    → Accepted station_count first ⊎ Accepted station_count second
unfolding replied read_status ReplyAgrees
replied-Accepted station_count first second event kept =
    let (before, one) = wait-Heard status_done station_count first start refl in
    let (behind, two) =
      wait-Heard reply_done station_count second (read_status station_count first start) before in
    elim two [
      | inl here ↦ inr here
      | inr (inr rejected) ↦ absurd (kept rejected)
      | inr (inl same) ↦ elim one [
        | inl here ↦ inl here
        | inr (inr rejected) ↦ absurd (kept (same ∙ rejected))
        | inr (inl nothing) ↦ absurd (ground arith)
      ]
    ]

-- A time sync is done only if a frame of the first wait shows an idle controller, a reply among the
-- frames of the first two waits accepts the time, the reply that is kept does not reject it, and a
-- frame of the third wait shows no time alarm. Then the payload has been written once, between the
-- two polls.
pub set_time_op-done :
    (station_count : ℕ) (payload : Bytes) (first second third : List Bytes)
    → (set_time_op station_count payload first second third).0 ≡ done
    → ((set_time_op station_count payload first second third).1
        ≡ pack_commit ∷ payload ∷ pack_commit ∷ [])
      × WasIdle station_count first
      × ((replied station_count first second).reply_event ≡ true)
      × ((replied station_count first second).reply_acknowledged ≢ some false)
      × (Accepted station_count first ⊎ Accepted station_count second)
      × Verified station_count third
unfolding set_time_op WasIdle replied
set_time_op-done station_count payload first second third h =
    elim (Option-cases (status_of (read_status station_count first start))) [
      | inl n ↦ absurd (ground arith)
      | inr (status, n) ↦ elim (Bool-cases status.is_watering) [
        | inl w ↦ absurd (ground arith)
        | inr w ↦ elim (Option-cases status.active_program) [
          | inr (program, a) ↦ absurd (ground arith)
          | inl a ↦
              let (r, k, p, v) =
                after_reply-done station_count third (replied station_count first second)
                  (pack_commit ∷ payload ∷ []) (ground arith) in
              (
                ground arith,
                (status, read_status-Came station_count first start status n, w, a),
                r,
                k,
                replied-Accepted station_count first second r k,
                v,
              )
        ]
      ]
    ]

-- In every outcome, if anything but the first poll has been written, a frame of the first wait shows an
-- idle controller.
pub set_time_op-WasIdle :
    (station_count : ℕ) (payload : Bytes) (first second third : List Bytes)
    → (set_time_op station_count payload first second third).1 ≢ pack_commit ∷ []
    → WasIdle station_count first
unfolding set_time_op WasIdle
set_time_op-WasIdle station_count payload first second third h =
    elim (Option-cases (status_of (read_status station_count first start))) [
      | inl n ↦ absurd (h (ground arith))
      | inr (status, n) ↦ elim (Bool-cases status.is_watering) [
        | inl w ↦ absurd (h (ground arith))
        | inr w ↦ elim (Option-cases status.active_program) [
          | inr (program, a) ↦ absurd (h (ground arith))
          | inl a ↦ (status, read_status-Came station_count first start status n, w, a)
        ]
      ]
    ]
