-- ===== src/Boards/Separate.antt =====
-- That no part but the isolators and the converter stands between the controller and the island, on
-- the boards of hardware/family/gen/boards.py.
use thermocouple.Prelude.{
  ◌≡◌, refl, true, not, ◌&&◌, ◌||◌, Bool, some, List, [], ◌∷◌, Text, codes, text_eq, all, &&-true,
  Bool-cases, inl, inr, subst, sym, text_eq_refl, arith, false,
}
use thermocouple.Netlist.Lookup.{Dict, lookup}
use thermocouple.Netlist.Sort.{mem_text}
use thermocouple.Boards.{Board}
use thermocouple.Boards.Items.{gnd_iso}
use thermocouple.Boards.Tables.{boards}
use thermocouple.Boards.Barrier.{Joined, parts_of, values, one_sided, all-mem, Joined-one_sided}

-- The nets of the island.
abbrev island_nets : List Text
island_nets =
    codes "GND_ISO"
    ∷ codes "+3V3_ISO"
    ∷ codes "+5V_ISO_RAW"
    ∷ codes "LDO_BP"
    ∷ codes "SCLK_ISO_RAW"
    ∷ codes "DIN_ISO_RAW"
    ∷ codes "DOUT_ISO_RAW"
    ∷ codes "SCLK_ISO"
    ∷ codes "DIN_ISO"
    ∷ codes "DOUT_ISO"
    ∷ codes "SIO_WR_N_ISO"
    ∷ codes "SIO_DRV"
    ∷ codes "REFOK_ISO"
    ∷ codes "REFTEST_ISO"
    ∷ codes "VREF_EXT"
    ∷ codes "V_MID_DIV"
    ∷ codes "V_MID_BUF"
    ∷ codes "V_MID"
    ∷ codes "V_BIAS"
    ∷ codes "CLAMP_K"
    ∷ codes "CLAMP_REF"
    ∷ codes "CLAMP_C"
    ∷ codes "REF_FEED"
    ∷ codes "REF_SENSE_IN"
    ∷ codes "REF_FEED_A"
    ∷ codes "REF_SENSE"
    ∷ codes "REF_THR"
    ∷ codes "REF_TEST_D"
    ∷ codes "CS_EN_ISO"
    ∷ codes "CSA0_ISO"
    ∷ codes "CSA1_ISO"
    ∷ codes "CSA2_ISO"
    ∷ codes "CSA3_ISO"
    ∷ codes "CS_RTD_ISO"
    ∷ codes "CS_ADC1_ISO"
    ∷ codes "CS_ADC2_ISO"
    ∷ codes "CS_ADC3_ISO"
    ∷ codes "CS_ADC4_ISO"
    ∷ codes "CS_ADC5_ISO"
    ∷ codes "CS_CJ1_ISO"
    ∷ codes "CS_CJ2_ISO"
    ∷ codes "CS_CJ3_ISO"
    ∷ codes "CS_CJ4_ISO"
    ∷ codes "CS_CJ5_ISO"
    ∷ codes "CS_CJ6_ISO"
    ∷ codes "CS_CJ7_ISO"
    ∷ codes "CS_CJ8_ISO"
    ∷ codes "CS_CJ9_ISO"
    ∷ codes "CS_CJ10_ISO"
    ∷ []

unfoldable is_controls : Text → Bool
unfolding mem_text
is_controls net = not (mem_text net island_nets)

unfoldable separates : Board → Bool
unfolding all one_sided mem_text values is_controls
separates b = all (one_sided island_nets) (parts_of b) && all is_controls (values b.mcu_pins)

unfoldable boards_in : Dict Board → List Board
boards_in [] = []
boards_in ((key, b) ∷ d) = b ∷ boards_in d

gnd_iso_there : mem_text gnd_iso island_nets ≡ true
unfolding mem_text gnd_iso text_eq
gnd_iso_there = refl

some_inj : {A : Type 0} {a b : A} → some a ≡ some b → a ≡ b
some_inj e = cc

or_true : (a : Bool) {b : Bool} → b ≡ true → (a || b) ≡ true
or_true a h = ground arith

not_both : (a : Bool) → not a ≡ true → a ≡ true → ⊥
not_both true h k = cc
not_both false h k = cc

-- A board that is found under a key has what all of them have.
lookup-all :
    (p : Board → Bool) (key : Text) (d : Dict Board) (b : Board)
    → all p (boards_in d) ≡ true
    → lookup key d ≡ some b
    → p b ≡ true
unfolding lookup all boards_in
lookup-all p key [] b h found = cc
lookup-all p key ((k, c) ∷ d) b h found =
    let (this, others) = &&-true (p c) (all p (boards_in d)) h in
    elim (Bool-cases (text_eq key k)) [
      | inl here ↦ subst (λ t. p t ≡ true) (some_inj (rw here at found)) this
      | inr further ↦ lookup-all p key d b others (rw further at found)
    ]

lookup-mem_values :
    (key v : Text) (d : Dict Text) → lookup key d ≡ some v → mem_text v (values d) ≡ true
unfolding lookup values mem_text
lookup-mem_values key v [] found = cc
lookup-mem_values key v ((k, w) ∷ d) found = elim (Bool-cases (text_eq key k)) [
  | inl here ↦ rw (sym (some_inj (rw here at found)), text_eq_refl w)
  | inr further ↦ or_true (text_eq v w) (lookup-mem_values key v d (rw further at found))
]

every_board : all separates (boards_in boards) ≡ true
unfolding separates parts_of is_controls boards boards_in
every_board = refl

-- On each of the three boards, no chain of parts of the sheets of the isolation and of the
-- controller that are neither isolators nor the isolated converter leads from the ground of the
-- island to the net of a pin of the controller, its supply and its ground among them.
pub Joined-pin :
    (key pin net : Text) (b : Board)
    → lookup key boards ≡ some b
    → lookup pin b.mcu_pins ≡ some net
    → ¬ Joined (parts_of b) gnd_iso net
unfolding separates is_controls
Joined-pin key pin net b found on_pin chain =
    let (sided, apart) =
      &&-true (all (one_sided island_nets) (parts_of b)) (all is_controls (values b.mcu_pins))
        (lookup-all separates key boards b every_board found) in
    let far =
      all-mem is_controls (values b.mcu_pins) net apart
        (lookup-mem_values pin net b.mcu_pins on_pin) in
    not_both (mem_text net island_nets) far
      (Joined-one_sided island_nets (parts_of b) gnd_iso net sided gnd_iso_there chain)
