-- ===== src/Release/Compare.antt =====
-- A whole comparison and its exit code, in hardware/family/gen/compare_release.py. What the file
-- system, KiCad and the XML reader give is the input.
use thermocouple.Prelude.{
  ℕ, suc, Bool, Option, none, some, List, [], ◌∷◌, ◌++◌, Text, text_eq, split_lines, if◌then◌else◌,
}
use thermocouple.Release.NetlistXml.{Root}
use thermocouple.Release.Order.{list_eq}
use thermocouple.Release.Roots.{
  Diff, inside_release, no_root, Checked, checked, failed, and_then, compare_roots, option_eq,
}
use thermocouple.Release.Bom.{Row, grouped_bom, dnp_text}

-- The files of the release and of the output.
pub record Input : Type 0 where
  -- out == release or release in out.parents
  pub inside : Bool
  -- the projects of the output that have a schematic
  pub tops : List Text
  -- the exported netlist, after `export` and ET.parse
  pub exported : Checked Root
  pub expected : Checked Root
  -- BOM.csv and DNP.txt of the release
  pub expected_rows : List Row
  pub expected_dnp : List Text
  -- each input with its hash before the export and at the end
  pub hashes : List (Text × Text × Text)

pub data Line : Type 0 where
  netlist : Diff → Line
  bom_line release_bom_line : ℕ → Option Row → Option Row → Line
  dnp_refs dnp_lines : List Text → List Text → Line
  input_changed : Text → Line

unfoldable pub row_eq : Row → Row → Bool
unfolding list_eq text_eq
row_eq = list_eq (option_eq text_eq)

-- compare_rows from line `i`: expected and actual.
unfoldable pub compare_rows :
    (ℕ → Option Row → Option Row → Line) → ℕ → List Row → List Row → List Line
unfolding row_eq
compare_rows message i [] [] = []
compare_rows message i [] (e ∷ expected) =
    message i (some e) none ∷ compare_rows message (suc i) [] expected
compare_rows message i (a ∷ actual) [] =
    message i none (some a) ∷ compare_rows message (suc i) actual []
compare_rows message i (a ∷ actual) (e ∷ expected) =
    let rest = compare_rows message (suc i) actual expected in
    if row_eq a e then rest else message i (some e) (some a) ∷ rest

unfoldable pub texts_differ : (List Text → List Text → Line) → List Text → List Text → List Line
unfolding list_eq text_eq
texts_differ message actual expected =
    if list_eq text_eq actual expected then [] else message expected actual ∷ []

unfoldable pub changed : List (Text × Text × Text) → List Line
unfolding text_eq
changed [] = []
changed ((path, before, after) ∷ hashes) =
    if text_eq after before then changed hashes else input_changed path ∷ changed hashes

unfoldable pub netlist_lines : List Diff → List Line
netlist_lines [] = []
netlist_lines (d ∷ ds) = netlist d ∷ netlist_lines ds

-- What is reported after compare_roots.
unfoldable pub all_lines : List Diff → Root → Root → Input → List Line
unfolding netlist_lines compare_rows grouped_bom texts_differ split_lines dnp_text changed
all_lines diffs actual expected input =
    netlist_lines diffs
    ++ (compare_rows bom_line 1 (grouped_bom actual).0 input.expected_rows
        ++ (compare_rows release_bom_line 1 (grouped_bom expected).0 input.expected_rows
            ++ (texts_differ dnp_refs (grouped_bom actual).1 (grouped_bom expected).1
                ++ (texts_differ dnp_lines (split_lines [] (dnp_text (grouped_bom actual).1))
                      input.expected_dnp
                    ++ changed input.hashes))))

-- top_schematic
unfoldable pub top_schematic : List Text → Checked Text
top_schematic [] = failed no_root
top_schematic (top ∷ []) = checked top
top_schematic (top ∷ other ∷ tops) = failed no_root

unfoldable pub compare_release : Input → Checked (List Line)
unfolding top_schematic compare_roots all_lines
compare_release input =
    if input.inside
    then failed inside_release
    else and_then (top_schematic input.tops) λ top. and_then input.exported λ actual.
      and_then input.expected λ expected.
        and_then (compare_roots actual expected)
          λ diffs. checked (all_lines diffs actual expected input)

-- The exit code.
unfoldable pub exit_code : Checked (List Line) → ℕ
exit_code (checked []) = 0
exit_code (checked (line ∷ lines)) = 1
exit_code (failed e) = 2

unfoldable pub main : Input → ℕ
unfolding compare_release exit_code
main input = exit_code (compare_release input)
