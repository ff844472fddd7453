-- ===== src/Netlist/Main.antt =====
-- `main` of hardware/8ch-old/netlist_fingerprint.py: its exit code and the file that it writes. What
-- `fingerprint` and `load` give for a path is given, `none` where they end the program.
use thermocouple.Prelude.{
  ℕ, ◌≡◌, refl, Bool, true, false, ◌&&◌, List, [], ◌∷◌, Text, codes, text_eq, length, leb,
  if◌then◌else◌, Option, none, some, ◌↔◌, arith, ◌≤◌,
}
use thermocouple.Netlist.{Fingerprint, Problem, diff, structural}
use thermocouple.Netlist.Diff.{SameDict, diff-nil_iff}
use thermocouple.Netlist.Structural.{has_pins, Distinct, structural-nil_iff}

-- The exit code and the rename map that is written.
pub record Ended : Type 0 where
  pub exit : ℕ
  pub map_file : Option (List (Text × Text))

abbrev pub allow_renames : Text
allow_renames = codes "--allow-renames"

unfoldable pub ended : ℕ → Ended
ended n = record { exit = n; map_file = none }

-- The exit code by the problems.
unfoldable pub verdict : List Problem → ℕ
verdict [] = 0
verdict (p ∷ ps) = 1

unfoldable pub print_one : Option Fingerprint → Ended
unfolding ended
print_one none = ended 1
print_one (some f) = ended 0

unfoldable pub compare_two : Option Fingerprint → Option Fingerprint → Ended
unfolding ended verdict diff
compare_two none after = ended 1
compare_two (some before) none = ended 1
compare_two (some before) (some after) = ended (verdict (diff before after))

-- What `structural` returned, and whether a file for the rename map is named.
unfoldable pub report : Bool → List (Text × Text) × List Problem → Ended
unfolding ended
report named (renames, []) = record { exit = 0; map_file = if named then some renames else none }
report named (renames, p ∷ ps) = ended 1

unfoldable pub compare_renamed : Bool → Option Fingerprint → Option Fingerprint → Ended
unfolding ended report structural
compare_renamed named none after = ended 1
compare_renamed named (some before) none = ended 1
compare_renamed named (some before) (some after) = report named (structural before after)

unfoldable pub is_named : List Text → Bool
is_named [] = false
is_named (path ∷ more) = true

-- The map of renames is taken to be written where a path for it is given; an OSError of that write is
-- not modelled.
unfoldable pub main : (Text → Option Fingerprint) → (Text → Option Fingerprint) → List Text → Ended
unfolding ended print_one compare_two compare_renamed is_named text_eq
main fingerprint load [] = ended 2
main fingerprint load (path ∷ []) = print_one (fingerprint path)
main fingerprint load (before ∷ after ∷ []) = compare_two (load before) (load after)
main fingerprint load (before ∷ after ∷ option ∷ rest) =
    if leb (length rest) 1 && text_eq option allow_renames
    then compare_renamed (is_named rest) (load before) (load after)
    else ended 2

-- Both netlists could be read, and are so related.
abbrev pub Loaded :
    Option Fingerprint → Option Fingerprint → (Fingerprint → Fingerprint → Type 0) → Type 0
Loaded before after R =
    (f : Fingerprint) × (g : Fingerprint) × (before ≡ some f) × (after ≡ some g) × R f g

-- The same nets, pins and components.
abbrev pub Alike : Fingerprint → Fingerprint → Type 0
Alike f g = SameDict f.nets g.nets × SameDict f.components g.components

-- The same sets of pins, whatever the nets are called, and the same components.
abbrev pub SamePins : Fingerprint → Fingerprint → Type 0
SamePins f g =
    ((pins : List Text) → has_pins pins f.nets ≡ has_pins pins g.nets)
    × Distinct f.nets
    × SameDict f.components g.components

verdict-zero : (ps : List Problem) → verdict ps ≡ 0 → ps ≡ []
unfolding verdict
verdict-zero [] h = refl
verdict-zero (p ∷ ps) h = absurd (omega arith)

report-zero :
    (named : Bool) (found : List (Text × Text) × List Problem)
    → (report named found).exit ≡ 0
    → found.1 ≡ []
unfolding report ended
report-zero named (renames, []) h = refl
report-zero named (renames, p ∷ ps) h = absurd (omega arith)

zero-report :
    (named : Bool) (found : List (Text × Text) × List Problem)
    → found.1 ≡ []
    → (report named found).exit ≡ 0
unfolding report ended
zero-report named (renames, []) h = refl
zero-report named (renames, p ∷ ps) h = cc

some-eq : {f g : Fingerprint} → some f ≡ some g → f ≡ g
some-eq e = cc

compare_two-Alike :
    (before after : Option Fingerprint)
    → ((compare_two before after).exit ≡ 0) ↔ Loaded before after Alike
unfolding compare_two ended
compare_two-Alike none after = ((λ h. absurd (omega arith)), λ (f, g, a, b, r). cc)
compare_two-Alike (some x) none = ((λ h. absurd (omega arith)), λ (f, g, a, b, r). cc)
compare_two-Alike (some x) (some y) = (
  (λ h. (x, y, refl, refl, (diff-nil_iff x y).0 (verdict-zero (diff x y) h))),
  λ (f, g, a, b, r).
      let quiet = (diff-nil_iff f g).1 r in rw (some-eq a, some-eq b, quiet, verdict),
)

compare_renamed-SamePins :
    (named : Bool) (before after : Option Fingerprint)
    → ((compare_renamed named before after).exit ≡ 0) ↔ Loaded before after SamePins
unfolding compare_renamed ended
compare_renamed-SamePins named none after = ((λ h. absurd (omega arith)), λ (f, g, a, b, r). cc)
compare_renamed-SamePins named (some x) none = ((λ h. absurd (omega arith)), λ (f, g, a, b, r). cc)
compare_renamed-SamePins named (some x) (some y) = (
  (λ h. (x, y, refl, refl, (structural-nil_iff x y).0 (report-zero named (structural x y) h))),
  λ (f, g, a, b, r).
      zero-report named (structural x y) (rw (some-eq a, some-eq b) ((structural-nil_iff f g).1 r)),
)

-- `main` exits with 0 for two netlists exactly when both can be read and have the same nets, pins
-- and components; and with --allow-renames and at most one more argument exactly when both can be
-- read, have the same sets of pins, no set twice in the first, and the same components.
pub main-exit_iff :
    (fingerprint load : Text → Option Fingerprint) (before after : Text) (rest : List Text)
    → length rest ≤ 1
    → (((main fingerprint load (before ∷ after ∷ [])).exit ≡ 0)
        ↔ Loaded (load before) (load after) Alike)
      × (((main fingerprint load (before ∷ after ∷ allow_renames ∷ rest)).exit ≡ 0)
          ↔ Loaded (load before) (load after) SamePins)
unfolding main
main-exit_iff fingerprint load before after rest few =
    let short : leb (length rest) 1 ≡ true = ground arith in
    (
      compare_two-Alike (load before) (load after),
      rw short (compare_renamed-SamePins (is_named rest) (load before) (load after)),
    )
