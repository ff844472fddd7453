-- ===== src/Release/Tests.antt =====
-- Two small netlists for hardware/family/gen/compare_release.py and hardware/family/gen/bom.py.
use thermocouple.Prelude.{
  ◌≡◌, refl, true, false, Option, none, some, List, [], ◌∷◌, Text, codes, ◌↔◌, split_lines,
  is_break, map,
}
use thermocouple.Release.NetlistXml.{Comp, Net, Root}
use thermocouple.Release.Roots.{
  checked, failed, duplicate_component, compare_roots, components, nets, component_differs, flag,
}
use thermocouple.Release.Bom.{Key, header, grouped_bom, sorted_lines, dnp_text}
use thermocouple.Release.Compare.{Input, main}
use thermocouple.Release.Count.{count, listed, bought, left_empty, told, grouped_bom-count}
use thermocouple.Release.Exit.{IsRelease, main-IsRelease_iff}

abbrev resistor : Text → Comp
resistor ref = record {
  ref = ref;
  fields = (codes "MPN", some (codes "RC0805")) ∷ (codes "LCSC", none) ∷ [];
  value = some (codes "10k");
  footprint = some (codes "Resistor_SMD:R_0805");
  description = none;
  datasheet = some (codes "~");
  properties = [];
}

abbrev empty_resistor : Comp
empty_resistor = record (resistor (codes "R3")) { properties = (codes "dnp", none) ∷ [] }

abbrev hole : Comp
hole = record (resistor (codes "H1")) { footprint = some (codes "MountingHole:M3") }

abbrev supply : Text → Net
supply name = record {
  name = name;
  nodes = (codes "R2", codes "1") ∷ (codes "R10", codes "1") ∷ [];
}

abbrev built : Root
built = record {
  comps = resistor (codes "R2") ∷ empty_resistor ∷ hole ∷ resistor (codes "R10") ∷ [];
  nets =
      supply (codes "/Power/+5V")
      ∷ record { name = codes "unconnected-(R2-Pad2)"; nodes = (codes "R2", codes "2") ∷ [] }
      ∷ [];
  sheets = some (codes "/") ∷ some (codes "/Power/") ∷ [];
  sheetpaths = [];
}

abbrev released : Root
released = record {
  comps = hole ∷ resistor (codes "R2") ∷ resistor (codes "R10") ∷ empty_resistor ∷ [];
  nets =
      record { name = codes "unconnected-(R2-Pad02)"; nodes = (codes "R2", codes "2") ∷ [] }
      ∷ supply (codes "/PSU/+5V")
      ∷ [];
  sheets = [];
  sheetpaths = some (codes "/PSU/") ∷ none ∷ [];
}

run_release : Unit {0}
unfolding compare_roots components nets grouped_bom sorted_lines main count split_lines dnp_text
    is_break
run_release = tt

no_difference : compare_roots built released ≡ checked []
unfolding run_release
no_difference = refl

flag_found :
    compare_roots
      (record built { comps = resistor (codes "R3") ∷ [] })
      (record built { comps = empty_resistor ∷ [] })
    ≡ checked
        (component_differs (codes "R3") (codes "dnp") (some (flag true)) (some (flag false)) ∷ [])
unfolding run_release
flag_found = refl

net_lost :
    compare_roots built (record built { nets = supply (codes "/Power/+5V") ∷ [] }) ≡ checked [] → ⊥
unfolding run_release
net_lost h = cc

twice_refused :
    components (record built { comps = hole ∷ hole ∷ [] })
    ≡ failed (duplicate_component (codes "H1"))
unfolding run_release
twice_refused = refl

abbrev bom_rows : List (List (Option Text))
bom_rows =
    (some (codes "Comment")
      ∷ some (codes "Designator")
      ∷ some (codes "Footprint")
      ∷ some (codes "LCSC (reference)")
      ∷ some (codes "MPN")
      ∷ some (codes "Qty")
      ∷ [])
    ∷ (some (codes "10k")
        ∷ some (codes "R10,R2")
        ∷ some (codes "R_0805")
        ∷ some []
        ∷ some (codes "RC0805")
        ∷ some (codes "2")
        ∷ [])
    ∷ []

two_fitted : grouped_bom built ≡ (bom_rows, codes "R3" ∷ [])
unfolding run_release
two_fitted = refl

abbrev input : Input
input = record {
  inside = false;
  tops = codes "thermo24.kicad_sch" ∷ [];
  exported = checked built;
  expected = checked released;
  expected_rows = bom_rows;
  expected_dnp =
      codes "Footprints that stay empty on this order (please do not fit):" ∷ codes "R3" ∷ [];
  hashes = (codes "BOM.csv", codes "0a", codes "0a") ∷ [];
}

released_exit : main input ≡ 0
unfolding run_release
released_exit = refl

changed_exit : main (record input { hashes = (codes "BOM.csv", codes "0a", codes "0b") ∷ [] }) ≡ 1
unfolding run_release
changed_exit = refl

inside_exit : main (record input { inside = true }) ≡ 2
unfolding run_release
inside_exit = refl

grouped_bom-count_example :
    (lines : List (Key × List Text)) × ((grouped_bom built).0 ≡ header ∷ map told lines)
    × ((key : Key) (ref : Text) → count ref (listed key lines) ≡ count ref (bought key built.comps))
    × ((ref : Text) → count ref (grouped_bom built).1 ≡ count ref (left_empty built.comps))
grouped_bom-count_example = grouped_bom-count built

main-IsRelease_iff_example : (main input ≡ 0) ↔ IsRelease input
main-IsRelease_iff_example = main-IsRelease_iff input
