-- ===== src/Client/ProgramSetting/Verified.antt =====
-- When `set_irrigation_program` of src/solem_blip_ble/client_v2.py returns, and what it then has read.
use solem_blip_ble.Common.{
  ℕ, ◌≤◌, ◌≡◌, refl, sym, ap, ◌∙◌, Option, none, some, List, [], ◌∷◌, arith, Bytes, length, All, ℤ,
  pos_part, ok, ok-injective, ==_refl,
}
use solem_blip_ble.Common.Lists.{append-nil}
use solem_blip_ble.Common.Text.{encode}
use solem_blip_ble.Common.Text.RoundTrip.{IsScalar, NoNul}
use solem_blip_ble.Common.Calendar.{Date}
use solem_blip_ble.Common.Dict.{Dict, lookup}
use solem_blip_ble.Protocol.Program.{
  DateInput, a_date, iso_text, a_datetime, other_value, IrrigationProgram, Dates, coerce_today,
  normalize_irrigation_program_for_write,
}
use solem_blip_ble.Protocol.Config.{assemble_irrigation_programs}
use solem_blip_ble.Protocol.Write.{pack_set_irrigation_program, irrigation_program_write_mismatches}
use solem_blip_ble.Protocol.Write.ReadBack.{reported}
use solem_blip_ble.Protocol.Write.Verified.{pack_set_irrigation_program_verifies}
use solem_blip_ble.Snapshot.{ProgramSnapshot}
use solem_blip_ble.Client.Polling.{Exception, returns}
use solem_blip_ble.Client.Session.{Session, and_then}
use solem_blip_ble.Client.ConfigReading.{ConfigCall, get_irrigation_config}
use package.solem_blip_ble.Client.ProgramSetting.{
  write_each, write_irrigation_program, write_day, no_mismatch, verified_programs,
  set_irrigation_program,
}

-- The run for every frame has ended without an exception.
unfoldable pub AreWritten : List Bytes → List (Option Exception) → Type 0
AreWritten [] runs = Unit {0}
AreWritten (frame ∷ frames) [] = ⊥
AreWritten (frame ∷ frames) (run ∷ runs) = (run ≡ none) × AreWritten frames runs

AreWritten-write_each :
    (frames : List Bytes) (runs : List (Option Exception))
    → AreWritten frames runs
    → write_each frames runs ≡ record { sent = frames; outcome = returns tt }
unfolding write_each AreWritten and_then
AreWritten-write_each [] runs w = refl
AreWritten-write_each (frame ∷ frames) [] w = elim w [ ]
AreWritten-write_each (frame ∷ frames) (none ∷ runs) (r, w) =
    ap (λ (t : Session (Unit {0})). record { sent = frame ∷ t.sent; outcome = t.outcome })
      (AreWritten-write_each frames runs w)
AreWritten-write_each (frame ∷ frames) (some e ∷ runs) (r, w) = absurd (ground arith)

lookup-here : {V : Type 0} (k : ℕ) (v : V) → lookup k ((k, v) ∷ []) ≡ some v
unfolding lookup
lookup-here k v = ground (arith, ==_refl k)

-- A date that the packing takes is a date.
coerced_date :
    (dates : Dates) (day : DateInput) (date : Date)
    → coerce_today dates (some day) ≡ ok date
    → day ≡ a_date date
unfolding coerce_today
coerced_date dates (a_date d) date h = ap a_date (ok-injective h)
coerced_date dates (iso_text s) date h = absurd (ground arith)
coerced_date dates a_datetime date h = absurd (ground arith)
coerced_date dates other_value date h = absurd (ground arith)

verified_of_report :
    (index : ℤ) (expected q : IrrigationProgram) (snapshot : ProgramSnapshot)
    → lookup (pos_part index) snapshot.programs ≡ some q
    → irrigation_program_write_mismatches (some q) expected ≡ []
    → verified_programs index expected snapshot ≡ returns snapshot.programs
unfolding verified_programs
verified_of_report index expected q snapshot found agrees =
    ap (λ o. no_mismatch (irrigation_program_write_mismatches o expected) snapshot.programs) found
    ∙ ap (λ ms. no_mismatch ms snapshot.programs) agrees

-- If a program can be packed, and its name is of NUL-free scalar values and at most 31 bytes of UTF-8;
-- if the run for every frame and then the read end without an exception; and if the controller reports
-- the program at the index as it got the frames: then the method returns the programs of the read, and
-- it has written the frames in their order.
pub set_irrigation_program_returns :
    (dates : Dates) (idle timeout : ℕ) (index : ℤ) (program : IrrigationProgram)
    (today : Option DateInput) (runs : List (Option Exception)) (readback : ConfigCall)
    (frames : List Bytes) (snapshot : ProgramSnapshot) (reports : Dict IrrigationProgram)
    → pack_set_irrigation_program dates index program (some (write_day dates today)) 12 ≡ ok frames
    → All IsScalar program.name
    → NoNul program.name
    → length (encode program.name) ≤ 31
    → AreWritten frames runs
    → get_irrigation_config idle timeout readback ≡ returns snapshot
    → assemble_irrigation_programs (reported 6 frames) 12 ≡ ok reports
    → lookup (pos_part index) snapshot.programs ≡ lookup (pos_part index) reports
    → set_irrigation_program dates idle timeout index program today runs readback
      ≡ ok (record { sent = frames; outcome = returns snapshot.programs })
unfolding set_irrigation_program write_irrigation_program and_then
set_irrigation_program_returns dates idle timeout index program today runs readback frames snapshot
      reports packed scalar no_nul short written read assembled same =
    let (date, p, q, day, normal, reported_is, agrees) =
      pack_set_irrigation_program_verifies dates index program (some (write_day dates today)) packed
        scalar no_nul short in
    let day_is = coerced_date dates (write_day dates today) date day in
    let found : lookup (pos_part index) snapshot.programs ≡ some q =
      same
      ∙ ap (lookup (pos_part index)) (ok-injective (sym assembled ∙ reported_is))
      ∙ lookup-here (pos_part index) q in
    rw
      (
        ap (λ d. normalize_irrigation_program_for_write dates program (some d) 12) day_is ∙ normal,
        packed,
        AreWritten-write_each frames runs written,
        read,
        verified_of_report index p q snapshot found agrees,
      )
      (ap (λ (t : List Bytes). ok (record { sent = t; outcome = returns snapshot.programs }))
        (append-nil frames))
