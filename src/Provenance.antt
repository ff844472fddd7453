-- ===== src/Provenance.antt =====
-- The provenance of the first 8-channel board (hardware/8ch-old/board_provenance.py): the hashes of
-- the files that the generator left, and whether they still hold. SHA-256 is a parameter.
pub mod Snapshot
pub mod Checked
pub mod Runs
mod Tests
use thermocouple.Prelude.{
  ℕ, zero, suc, ◌+◌, Bool, true, false, Option, none, some, List, [], ◌∷◌, ◌++◌, Text, codes,
  text_eq, if◌then◌else◌, length,
}
use thermocouple.Netlist.Lookup.{Dict, lookup}

abbrev pub Content : Type 0
Content = List ℕ

pub record Digest : Type 0 where
  pub sha256 : Text
  pub bytes : ℕ

-- board-provenance.json, without its note.
pub record Record : Type 0 where
  pub recorded : Text
  pub generated_by : Text
  pub files : Dict Digest

-- The files of the project that are read, KiCad's lock files and the record.
pub record World : Type 0 where
  pub files : Text → Option Content
  pub locks : List Text
  pub provenance : Option Record

-- A result, or the SystemExit of a watched file that is missing.
pub data Ended {ℓ} (A : Type ℓ) : Type ℓ where
  ended : A → Ended A
  missing : Text → Ended A

-- WATCHED
unfoldable pub watched : List Text
watched =
    codes "thermocouple_8ch.kicad_pcb"
    ∷ codes "thermocouple_8ch.kicad_sch"
    ∷ codes "channel.kicad_sch"
    ∷ codes "power.kicad_sch"
    ∷ codes "mcu.kicad_sch"
    ∷ codes "isolation.kicad_sch"
    ∷ codes "relay_rs485.kicad_sch"
    ∷ []

abbrev pub and_then {ℓ κ} : {A : Type ℓ} {B : Type κ} → Ended A → (A → Ended B) → Ended B
and_then (ended a) f = f a
and_then (missing name) f = missing name

unfoldable pub same_digest : Option Digest → Digest → Bool
unfolding text_eq
same_digest none info = false
same_digest (some was) info = text_eq was.sha256 info.sha256

-- compare, on the snapshot: drifted and unchanged.
unfoldable pub drifted : Dict Digest → Dict Digest → List Text
unfolding same_digest lookup
drifted was [] = []
drifted was ((name, info) ∷ current) =
    if same_digest (lookup name was) info then drifted was current else name ∷ drifted was current

unfoldable pub unchanged : Dict Digest → Dict Digest → List Text
unfolding same_digest lookup
unchanged was [] = []
unchanged was ((name, info) ∷ current) =
    if same_digest (lookup name was) info
    then name ∷ unchanged was current
    else unchanged was current

abbrev pub count_problem : List Text → ℕ
count_problem [] = 0
count_problem (x ∷ xs) = 1

abbrev pub exit_code : ℕ → ℕ
exit_code zero = 0
exit_code (suc n) = 1

module _ (sha : Content → Text) where
  unfoldable pub digest : Content → Digest
  digest content = record { sha256 = sha content; bytes = length content }

  -- snapshot: the watched names differ, so that each adds an entry.
  unfoldable pub snapshot_of : (Text → Option Content) → List Text → Ended (Dict Digest)
  unfolding digest
  snapshot_of files [] = ended []
  snapshot_of files (name ∷ names) = elim (files name) [
    | none ↦ missing name
    | some content ↦
        and_then (snapshot_of files names) λ rest. ended ((name, digest content) ∷ rest)
  ]

  unfoldable pub snapshot : World → Ended (Dict Digest)
  unfolding snapshot_of watched
  snapshot w = snapshot_of w.files watched

  unfoldable pub compare_with : Option Record → World → Ended (List Text × List Text)
  unfolding snapshot drifted unchanged
  compare_with none w = ended ([], [])
  compare_with (some r) w =
      and_then (snapshot w) λ current. ended (drifted r.files current, unchanged r.files current)

  unfoldable pub compare : World → Ended (List Text × List Text)
  unfolding compare_with
  compare w = compare_with w.provenance w

  -- cmd_record at the time `now`: the exit code and the files after it.
  unfoldable pub cmd_record : Text → Text → World → Ended (ℕ × World)
  unfolding snapshot
  cmd_record now by w = and_then (snapshot w) λ files. ended (
    0,
    record w { provenance = some (record { recorded = now; generated_by = by; files = files }) },
  )

  unfoldable pub status_of : Option Record → World → Ended ℕ
  unfolding compare
  status_of none w = ended 0
  status_of (some r) w = and_then (compare w) λ found. ended 0

  unfoldable pub cmd_status : World → Ended ℕ
  unfolding status_of
  cmd_status w = status_of w.provenance w

  unfoldable pub check_of : Option Record → World → Ended ℕ
  unfolding compare
  check_of none w = ended 1
  check_of (some r) w =
      and_then (compare w)
        λ (drift, same). ended (exit_code (count_problem w.locks + count_problem drift))

  unfoldable pub cmd_check : World → Ended ℕ
  unfolding check_of
  cmd_check w = check_of w.provenance w

  -- The options that argparse lets through: one of the three, and `--by`.
  pub data Arguments : Type 0 where
    to_record : Text → Arguments
    to_check to_status : Arguments

  unfoldable pub keep : World → Ended ℕ → Ended (ℕ × World)
  keep w (ended n) = ended (n, w)
  keep w (missing name) = missing name

  unfoldable pub main : Text → Arguments → World → Ended (ℕ × World)
  unfolding cmd_record cmd_check cmd_status keep
  main now (to_record by) w = cmd_record now by w
  main now to_check w = keep w (cmd_check w)
  main now to_status w = keep w (cmd_status w)
