-- ===== src/Netlist/Tests.antt =====
-- The comparison of hardware/8ch-old/netlist_fingerprint.py at small netlists.
use thermocouple.Prelude.{
  ◌≡◌, ◌↔◌, refl, Option, none, some, List, [], ◌∷◌, Text, codes, text_eq, arith, if◌then◌else◌,
}
use thermocouple.Netlist.{
  Component, Fingerprint, NetBlock, ComponentMatch, fingerprint, diff, structural, summarise,
  node_text,
}
use thermocouple.Netlist.Lookup.{lookup}
use thermocouple.Netlist.Sort.{swapped}
use thermocouple.Netlist.Renames.{IsDict, structural-renames}
use thermocouple.Netlist.Order.{SameNodes, done, more, fingerprint-SameNodes}
use thermocouple.Netlist.Main.{main, Loaded, Alike, SamePins, allow_renames, main-exit_iff}

abbrev parts : List (Text × Component)
parts = (codes "R1", record { value = codes "10k"; footprint = codes "0603" }) ∷ []

abbrev flat : Fingerprint
flat = record {
  nets =
      (codes "/TC1_FILT_P", codes "R1.1" ∷ codes "U1.3" ∷ [])
      ∷ (codes "GND", codes "R1.2" ∷ [])
      ∷ [];
  components = parts;
}

abbrev sheets : Fingerprint
sheets = record {
  nets =
      (codes "GND", codes "R1.2" ∷ [])
      ∷ (codes "/TC1/FILT_P", codes "R1.1" ∷ codes "U1.3" ∷ [])
      ∷ [];
  components = parts;
}

abbrev files : Text → Option Fingerprint
files path =
    if text_eq path (codes "flat.net")
    then some flat
    else if text_eq path (codes "sheets.net")
    then some sheets
    else none

run_netlist : Unit {0}
unfolding main structural diff fingerprint lookup summarise text_eq
run_netlist = tt

renamed_alike :
    (main files files (codes "flat.net" ∷ codes "sheets.net" ∷ allow_renames ∷ [])).exit ≡ 0
unfolding run_netlist
renamed_alike = refl

renamed_differ : (main files files (codes "flat.net" ∷ codes "sheets.net" ∷ [])).exit ≡ 1
unfolding run_netlist
renamed_differ = refl

one_rename : structural flat sheets ≡ ((codes "/TC1_FILT_P", codes "/TC1/FILT_P") ∷ [], [])
unfolding run_netlist
one_rename = refl

flat_summary : summarise flat ≡ (1, 2, 3)
unfolding run_netlist
flat_summary = refl

main-exit_iff_example :
    (((main files files (codes "flat.net" ∷ codes "sheets.net" ∷ [])).exit ≡ 0)
      ↔ Loaded (files (codes "flat.net")) (files (codes "sheets.net")) Alike)
    × (((main files files (codes "flat.net" ∷ codes "sheets.net" ∷ allow_renames ∷ [])).exit ≡ 0)
        ↔ Loaded (files (codes "flat.net")) (files (codes "sheets.net")) SamePins)
main-exit_iff_example =
    main-exit_iff files files (codes "flat.net") (codes "sheets.net") [] (omega arith)

flat-IsDict : IsDict flat.nets
unfolding run_netlist
flat-IsDict = (refl, (refl, tt))

sheets-IsDict : IsDict sheets.nets
unfolding run_netlist
sheets-IsDict = (refl, (refl, tt))

flat_quiet : (structural flat sheets).1 ≡ []
unfolding run_netlist
flat_quiet = refl

flat_lookup : lookup (codes "/TC1_FILT_P") flat.nets ≡ some (codes "R1.1" ∷ codes "U1.3" ∷ [])
unfolding run_netlist
flat_lookup = refl

structural-renames_example :
    (new : Text) × (lookup new sheets.nets ≡ some (codes "R1.1" ∷ codes "U1.3" ∷ []))
    × (lookup (codes "/TC1_FILT_P") (structural flat sheets).0
        ≡ (if text_eq new (codes "/TC1_FILT_P") then none else some new))
structural-renames_example =
    structural-renames flat sheets (codes "/TC1_FILT_P") (codes "R1.1" ∷ codes "U1.3" ∷ [])
      flat-IsDict sheets-IsDict flat_quiet flat_lookup

abbrev ascending : List NetBlock
ascending =
    record { name = codes "GND"; nodes = (codes "R1", codes "2") ∷ (codes "U1", codes "4") ∷ [] }
    ∷ []

abbrev descending : List NetBlock
descending =
    record { name = codes "GND"; nodes = (codes "U1", codes "4") ∷ (codes "R1", codes "2") ∷ [] }
    ∷ []

abbrev one_part : List ComponentMatch
one_part = record { ref = codes "R1"; value = codes "10k"; footprint = codes "0603" } ∷ []

same_nodes : SameNodes ascending descending
unfolding node_text
same_nodes = more (codes "GND") (swapped _ _ []) done

fingerprint-SameNodes_example : fingerprint ascending one_part ≡ fingerprint descending one_part
fingerprint-SameNodes_example = fingerprint-SameNodes one_part same_nodes
