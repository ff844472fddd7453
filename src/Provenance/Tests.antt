-- ===== src/Provenance/Tests.antt =====
-- A project of the first 8-channel board for hardware/8ch-old/board_provenance.py, where the hash of
-- a file is its content.
use thermocouple.Prelude.{
  ℕ, ◌≡◌, refl, Option, none, some, List, [], ◌∷◌, Text, codes, ◌↔◌, All, text_eq, if◌then◌else◌,
}
use thermocouple.Provenance.{
  Content, World, Ended, ended, missing, watched, cmd_record, cmd_check, cmd_status, compare, main,
  to_check, to_status,
}
use thermocouple.Provenance.Snapshot.{There}
use thermocouple.Provenance.Checked.{IsSafe, check-IsSafe}
use thermocouple.Provenance.Runs.{starts, goes_on, records, IsKept, Reach-check, record-check}

-- A stand-in for SHA-256.
abbrev sha : Content → Text
sha content = content

abbrev fresh : World
fresh = record { files = λ name. some name; locks = []; provenance = none }

run_provenance : Unit {0}
unfolding cmd_record cmd_check cmd_status compare main watched text_eq
run_provenance = tt

abbrev now : Text
now = codes "2026-09-08T10:00:00+02:00"

abbrev by : Text
by = codes "generate_board.py"

abbrev after_record : Ended (ℕ × World) → World
after_record (ended (n, w)) = w
after_record (missing n) = fresh

abbrev recorded : World
unfolding run_provenance
recorded = after_record (cmd_record sha now by fresh)

record_ended : cmd_record sha now by fresh ≡ ended (0, recorded)
unfolding run_provenance
record_ended = refl

check_passes : cmd_check sha recorded ≡ ended 0
unfolding run_provenance
check_passes = refl

edited_found :
    cmd_check sha (record recorded {
      files = λ name. if text_eq name (codes "mcu.kicad_sch") then some [] else some name;
    })
    ≡ ended 1
unfolding run_provenance
edited_found = refl

open_found :
    cmd_check sha (record recorded { locks = codes "~thermocouple_8ch.kicad_pro.lck" ∷ [] })
    ≡ ended 1
unfolding run_provenance
open_found = refl

unknown_refused : main sha now to_check fresh ≡ ended (1, fresh)
unfolding run_provenance
unknown_refused = refl

lost_file :
    main sha now to_status (record recorded { files = λ name. none })
    ≡ missing (codes "thermocouple_8ch.kicad_pcb")
unfolding run_provenance
lost_file = refl

all-There : (names : List Text) → All (There fresh.files) names
all-There [] = tt
all-There (name ∷ names) = ((name, refl), all-There names)

check-IsSafe_example : (cmd_check sha recorded ≡ ended 0) ↔ IsSafe sha recorded
check-IsSafe_example = check-IsSafe sha recorded

Reach-check_example :
    (recorded.locks ≡ [])
    × ((files : Text → Option Content) × (some fresh.files ≡ some files)
        × All (IsKept sha recorded.files files) watched)
Reach-check_example =
    Reach-check sha recorded (some fresh.files)
      (goes_on fresh recorded none (some fresh.files) (starts fresh refl)
        (records fresh recorded none now by record_ended))
      check_passes

record-check_example :
    (w' : World) × (cmd_record sha now by fresh ≡ ended (0, w'))
    × (w'.files ≡ fresh.files)
    × (cmd_check sha w' ≡ ended 0)
record-check_example = record-check sha fresh now by (all-There watched) refl
