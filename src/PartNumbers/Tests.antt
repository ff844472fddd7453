-- ===== src/PartNumbers/Tests.antt =====
-- A root sheet that uses one other sheet twice, for hardware/8ch-old/check_mpn_consistency.py.
use thermocouple.Prelude.{◌≡◌, refl, none, some, [], ◌∷◌, ◌++◌, Text, codes, text_eq, if◌then◌else◌}
use thermocouple.Netlist.Lookup.{Dict}
use thermocouple.PartNumbers.{Entry, Files, sheets, main, fix_sheet, root_name}

abbrev symbol : Text → Text → Text → Text
symbol ref value mpn =
    codes "\n\t\t(property \"Reference\" \""
    ++ (ref
        ++ (codes "\")\n\t\t(property \"Value\" \""
            ++ (value ++ (codes "\")\n\t\t(property \"MPN\" \"" ++ (mpn ++ codes "\")")))))

abbrev uses : Text
uses = codes "(property \"Sheetfile\" \"channel.kicad_sch\")"

abbrev catalog : Dict Entry
catalog =
    (codes "10k", record { mpn = some (codes "RC10K"); manufacturer = none; lcsc = none }) ∷ []

abbrev project : Text → Files
project mpn name =
    if text_eq name root_name
    then some (uses ++ (uses ++ symbol (codes "#PWR1") (codes "10k") (codes "x")))
    else if text_eq name (codes "channel.kicad_sch")
    then some (symbol (codes "R12") (codes "10k") mpn ++ symbol (codes "U1") (codes "LM5164") [])
    else none

run_numbers : Unit {0}
unfolding main sheets fix_sheet text_eq
run_numbers = tt

right_number : main catalog (project (codes "RC10K")) ≡ 0
unfolding run_numbers
right_number = refl

cloned_number : main catalog (project (codes "RC100K")) ≡ 1
unfolding run_numbers
cloned_number = refl

number_fixed :
    fix_sheet catalog (symbol (codes "R12") (codes "10k") (codes "RC100K"))
    ≡ symbol (codes "R12") (codes "10k") (codes "RC10K")
unfolding run_numbers
number_fixed = refl

abbrev catalog_lcsc : Dict Entry
catalog_lcsc =
    (
      codes "10k",
      record { mpn = some (codes "RC10K"); manufacturer = none; lcsc = some (codes "C17414") },
    )
    ∷ []

lcsc_wanted : main catalog_lcsc (project (codes "RC10K")) ≡ 1
unfolding run_numbers
lcsc_wanted = refl
