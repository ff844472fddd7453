-- ===== src/Boards/Tests.antt =====
-- The boards of hardware/family/gen/boards.py, and a board whose reset would reach the island.
use thermocouple.Prelude.{◌≡◌, refl, some, [], ◌∷◌, codes, map, inl}
use thermocouple.Netlist.Lookup.{lookup, put}
use thermocouple.Boards.{nc, channel_count}
use thermocouple.Boards.Items.{Item, resistor, r0805, gnd_iso}
use thermocouple.Boards.Tables.{boards, b8, b24, b40}
use thermocouple.Boards.Isolation.{isolation}
use thermocouple.Boards.Keypad.{mcu}
use thermocouple.Boards.Barrier.{Joined, same, across, parts_of, touches, is_barrier, Among}
use thermocouple.Boards.Separate.{Joined-pin}

run_boards : Unit {0}
unfolding boards put b8 b24 b40 channel_count isolation mcu parts_of touches is_barrier Among
run_boards = tt

channels_of_boards : map channel_count (b24 ∷ b8 ∷ b40 ∷ []) ≡ 24 ∷ 8 ∷ 40 ∷ []
unfolding run_boards
channels_of_boards = refl

selects_of_8 : lookup (codes "PB4") b8.mcu_pins ≡ some (codes "CS_ADC1")
unfolding run_boards lookup
selects_of_8 = refl

selects_left_out : lookup (codes "PB0") b8.mcu_pins ≡ some nc
unfolding run_boards lookup
selects_left_out = refl

-- A resistor that joins the two grounds.
abbrev leak : Item
leak = resistor (codes "R999") (codes "1M") gnd_iso (codes "GND") [] [] r0805 [] []

leak_joins : Joined (leak ∷ []) gnd_iso (codes "GND")
unfolding run_boards gnd_iso
leak_joins = across leak gnd_iso (codes "GND") (inl refl) refl refl refl same

Joined-pin_example : ¬ Joined (parts_of b24) gnd_iso (codes "MOSI")
unfolding run_boards lookup
Joined-pin_example = Joined-pin (codes "24") (codes "PB5") (codes "MOSI") b24 refl refl
