-- ===== src/Parts/Tests.antt =====
-- A regulator with four pins through hardware/family/gen/model.py and libs.py.
use thermocouple.Prelude.{◌≡◌, refl, true, none, some, [], ◌∷◌, Text, codes}
use thermocouple.Netlist.Lookup.{Dict, lookup, keys}
use thermocouple.Netlist.Sort.{mem_text}
use thermocouple.Sexp.{Node, Nodes, list, nil, cons, str}
use thermocouple.Parts.{Pins, Part, resolved, no_pin, unassigned, resolve, pins}
use thermocouple.Parts.Resolved.{last_net, resolve-resolved}

abbrev atom_of : Text → Node
atom_of s = Node.sym s

-- (pin power_in line (at 0 0 90) (name …) (number …))
abbrev pin_of : Text → Text → Node
pin_of number name = list (
    cons (atom_of (codes "pin")) (
      cons (atom_of (codes "power_in")) (
        cons (atom_of (codes "line")) (
          cons
            (list (
              cons (atom_of (codes "at"))
                (cons (atom_of (codes "0")) (cons (atom_of (codes "0")) nil))))
            (cons (list (cons (atom_of (codes "name")) (cons (str name) nil)))
              (cons (list (cons (atom_of (codes "number")) (cons (str number) nil))) nil))))))

abbrev symbol : Nodes
symbol = cons (atom_of (codes "symbol")) (
    cons (str (codes "Device:REG")) (
      cons
        (list (
          cons (atom_of (codes "symbol")) (
            cons (str (codes "REG_1_1")) (
              cons (pin_of (codes "1") (codes "GND")) (
                cons (pin_of (codes "2") (codes "IN"))
                  (cons (pin_of (codes "3") (codes "GND")) nil))))))
        nil))

abbrev symbol_pins : Pins
symbol_pins = (codes "1", codes "GND") ∷ (codes "2", codes "IN") ∷ (codes "3", codes "GND") ∷ []

abbrev regulator : Part
regulator = record {
  ref = codes "U1";
  nets = (codes "GND", codes "GND") ∷ (codes "2", codes "+24V") ∷ (codes "3", codes "GND_ISO") ∷ [];
  pinmap = none;
}

abbrev resolved_regulator : Part
resolved_regulator = record regulator {
  pinmap =
      some
        ((codes "1", codes "GND") ∷ (codes "3", codes "GND_ISO") ∷ (codes "2", codes "+24V") ∷ []);
}

run_parts : Unit {0}
unfolding pins resolve
run_parts = tt

symbol_read : pins (λ s. true) symbol ≡ some symbol_pins
unfolding run_parts
symbol_read = refl

regulator_resolved : resolve symbol_pins regulator ≡ resolved resolved_regulator
unfolding run_parts
regulator_resolved = refl

wrong_name :
    resolve symbol_pins (record regulator { nets = (codes "OUT", codes "+5V") ∷ [] })
    ≡ no_pin (codes "OUT")
unfolding run_parts
wrong_name = refl

left_open :
    resolve symbol_pins (record regulator { nets = (codes "GND", codes "GND") ∷ [] })
    ≡ unassigned (codes "2" ∷ [])
unfolding run_parts
left_open = refl

resolve-resolved_example :
    (out : Dict Text) × (resolved_regulator ≡ record regulator { pinmap = some out })
    × ((n : Text) → lookup n out ≡ last_net symbol_pins n regulator.nets none)
    × ((n : Text) → mem_text n (keys symbol_pins) ≡ true → (net : Text) × (lookup n out ≡ some net))
resolve-resolved_example =
    resolve-resolved symbol_pins regulator resolved_regulator regulator_resolved
