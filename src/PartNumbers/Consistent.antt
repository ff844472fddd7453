-- ===== src/PartNumbers/Consistent.antt =====
-- When the check of hardware/8ch-old/check_mpn_consistency.py passes.
use thermocouple.Prelude.{◌≡◌, true, some, [], Text}
use thermocouple.Netlist.Lookup.{Dict, keys}
use thermocouple.PartNumbers.{Entry, Files, root_name, uses_of}
use thermocouple.Netlist.Sort.{mem_text}
use thermocouple.PartNumbers.Symbols.{TextMatches}

-- The root is there and matches, and so does each file that it uses.
abbrev pub ProjectMatches : Dict Entry → Files → Type 0
ProjectMatches catalog files =
    (root : Text) × (files root_name ≡ some root)
    × TextMatches catalog root
    × ((name : Text)
        → mem_text name (keys (uses_of 0 root [])) ≡ true
        → (s : Text) × (files name ≡ some s) × TextMatches catalog s)
