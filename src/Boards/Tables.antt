-- ===== src/Boards/Tables.antt =====
-- The three boards of hardware/family/gen/boards.py, with 24, 8 and 40 channels.
use thermocouple.Prelude.{
  ℕ, true, false, List, [], ◌∷◌, ◌++◌, Text, codes, decimal, ◌+◌, ◌==◌, if◌then◌else◌,
}
use thermocouple.Netlist.Lookup.{Dict, put}
use thermocouple.Boards.{Isolator, HoleKind, island, chassis, lcd, plain, Board, nc}
use thermocouple.Boards.Mcu.{mcu24, numbered, cs24, cs8, pins8, mcu40}

abbrev pub one_to_five : List ℕ
one_to_five = 1 ∷ 2 ∷ 3 ∷ 4 ∷ 5 ∷ []

-- The holes of the isolated island come first, those of the display last.
unfoldable pub holes : List (ℕ × HoleKind)
holes =
    (1, island)
    ∷ (2, island)
    ∷ (3, island)
    ∷ (10, island)
    ∷ (4, chassis)
    ∷ (5, chassis)
    ∷ (6, lcd)
    ∷ (7, lcd)
    ∷ (8, lcd)
    ∷ (9, lcd)
    ∷ []

-- The pull-ups are numbered upwards from a given number.
unfoldable pub pullups : ℕ → List Text → List (Text × Text)
unfolding decimal
pullups i [] = []
pullups i (net ∷ nets) = (codes "R" ++ decimal i, net) ∷ pullups (i + 1) nets

unfoldable pub isolators24 : List Isolator
unfolding numbered nc
isolators24 =
    (record {
      ref = codes "U403";
      forward_in =
          codes "SCK" ∷ codes "MOSI" ∷ codes "CS_ADC1" ∷ codes "CS_ADC2" ∷ codes "CS_ADC3" ∷ [];
      reverse_out = codes "MISO_ISO";
      forward_out =
          codes "SCLK_ISO_RAW"
          ∷ codes "DIN_ISO_RAW"
          ∷ codes "CS_ADC1_ISO"
          ∷ codes "CS_ADC2_ISO"
          ∷ codes "CS_ADC3_ISO"
          ∷ [];
      reverse_in = codes "DOUT_ISO_RAW";
      caps = codes "C407" ∷ codes "C408" ∷ [];
    })
    ∷ (record {
      ref = codes "U404";
      forward_in = numbered (codes "CS_CJ") [] one_to_five;
      reverse_out = codes "REFOK";
      forward_out = numbered (codes "CS_CJ") (codes "_ISO") one_to_five;
      reverse_in = codes "REFOK_ISO";
      caps = codes "C409" ∷ codes "C410" ∷ [];
    })
    ∷ (record {
      ref = codes "U405";
      forward_in =
          codes "CS_CJ6" ∷ codes "REFTEST" ∷ codes "SIO_WR_N" ∷ codes "GND" ∷ codes "GND" ∷ [];
      reverse_out = nc;
      forward_out = codes "CS_CJ6_ISO" ∷ codes "REFTEST_ISO" ∷ codes "SIO_WR_N_ISO" ∷ nc ∷ nc ∷ [];
      reverse_in = codes "GND_ISO";
      caps = codes "C411" ∷ codes "C412" ∷ [];
    })
    ∷ []

unfoldable pub b24 : Board
unfolding isolators24 holes pullups cs24 mcu24 put
b24 = record {
  key = codes "24";
  project = codes "thermo24";
  root_title = codes "Thermo 24-channel protection unit - REV A4";
  library = codes "thermo24";
  bank_count = 3;
  bank_letters = codes "A" ∷ codes "B" ∷ codes "C" ∷ [];
  mcu_pins = put (codes "PD5") (codes "SIO_WR_N") mcu24;
  chip_selects = cs24;
  cs_pullups = pullups 430 (cs24 ++ (codes "SIO_WR_N" ∷ []));
  isolators = isolators24;
  mounting_holes = holes;
  output_folder = codes "out" ∷ codes "24" ∷ [];
  revision = codes "A4";
  isolator_title = codes "Digital isolators: SPI to the three AD7124 and six TMP126";
  bank_bases = 100 ∷ 200 ∷ 300 ∷ [];
  sio_driver = true;
  decoder = false;
  rtd = false;
  sync_tied = false;
  sio_a4 = true;
  esc_diodes = true;
}

unfoldable pub isolators8 : List Isolator
unfolding numbered nc
isolators8 =
    (record {
      ref = codes "U403";
      forward_in =
          codes "SCK" ∷ codes "MOSI" ∷ codes "CS_ADC1" ∷ codes "CS_CJ1" ∷ codes "CS_CJ2" ∷ [];
      reverse_out = codes "MISO_ISO";
      forward_out =
          codes "SCLK_ISO_RAW"
          ∷ codes "DIN_ISO_RAW"
          ∷ codes "CS_ADC1_ISO"
          ∷ codes "CS_CJ1_ISO"
          ∷ codes "CS_CJ2_ISO"
          ∷ [];
      reverse_in = codes "DOUT_ISO_RAW";
      caps = codes "C407" ∷ codes "C408" ∷ [];
    })
    ∷ (record {
      ref = codes "U404";
      forward_in =
          codes "REFTEST" ∷ codes "SIO_WR_N" ∷ codes "GND" ∷ codes "GND" ∷ codes "GND" ∷ [];
      reverse_out = codes "REFOK";
      forward_out = codes "REFTEST_ISO" ∷ codes "SIO_WR_N_ISO" ∷ nc ∷ nc ∷ nc ∷ [];
      reverse_in = codes "REFOK_ISO";
      caps = codes "C409" ∷ codes "C410" ∷ [];
    })
    ∷ []

-- Hole 4 has no plating on the 8-channel board: a track to it would cross the relay contacts.
unfoldable pub holes8 : List (ℕ × HoleKind) → List (ℕ × HoleKind)
holes8 [] = []
holes8 ((i, k) ∷ hs) = (i, (if i == 4 then plain else k)) ∷ holes8 hs

unfoldable pub b8 : Board
unfolding b24 isolators8 holes8 holes pins8 mcu24 cs8
b8 = record b24 {
  key = codes "8";
  project = codes "thermo8";
  library = codes "thermo8";
  revision = codes "B0";
  root_title = codes "Thermo 8-channel protection unit - REV B0";
  bank_count = 1;
  bank_letters = codes "A" ∷ [];
  mcu_pins = pins8 mcu24;
  chip_selects = cs8;
  cs_pullups =
      (codes "R430", codes "CS_ADC1")
      ∷ (codes "R433", codes "CS_CJ1")
      ∷ (codes "R434", codes "CS_CJ2")
      ∷ (codes "R439", codes "SIO_WR_N")
      ∷ [];
  isolators = isolators8;
  output_folder = codes "out" ∷ codes "8" ∷ [];
  isolator_title = codes "Digital isolators: SPI to one AD7124 and two TMP126";
  sio_driver = true;
  sync_tied = true;
  sio_a4 = false;
  esc_diodes = false;
  mounting_holes = holes8 holes;
}

unfoldable pub isolators40 : List Isolator
unfolding numbered nc
isolators40 =
    (record {
      ref = codes "U403";
      forward_in = codes "SCK" ∷ codes "MOSI" ∷ codes "CSA0" ∷ codes "CSA1" ∷ codes "CSA2" ∷ [];
      reverse_out = codes "MISO_ISO";
      forward_out =
          codes "SCLK_ISO_RAW"
          ∷ codes "DIN_ISO_RAW"
          ∷ codes "CSA0_ISO"
          ∷ codes "CSA1_ISO"
          ∷ codes "CSA2_ISO"
          ∷ [];
      reverse_in = codes "DOUT_ISO_RAW";
      caps = codes "C407" ∷ codes "C408" ∷ [];
    })
    ∷ (record {
      ref = codes "U404";
      forward_in =
          codes "CSA3" ∷ codes "CS_EN" ∷ codes "REFTEST" ∷ codes "SIO_WR_N" ∷ codes "GND" ∷ [];
      reverse_out = codes "REFOK";
      forward_out =
          codes "CSA3_ISO"
          ∷ codes "CS_EN_ISO"
          ∷ codes "REFTEST_ISO"
          ∷ codes "SIO_WR_N_ISO"
          ∷ nc
          ∷ [];
      reverse_in = codes "REFOK_ISO";
      caps = codes "C409" ∷ codes "C410" ∷ [];
    })
    ∷ []

unfoldable pub b40 : Board
unfolding b24 isolators40 mcu40
b40 = record b24 {
  key = codes "40";
  project = codes "thermo40";
  library = codes "thermo40";
  revision = codes "A0";
  root_title = codes "Thermo 40-channel protection unit, 3 PT100 + check resistor - REV A0";
  bank_count = 5;
  bank_letters = codes "A" ∷ codes "B" ∷ codes "C" ∷ codes "D" ∷ codes "E" ∷ [];
  bank_bases = 100 ∷ 200 ∷ 300 ∷ 800 ∷ 900 ∷ [];
  mcu_pins = mcu40;
  chip_selects = codes "CS_EN" ∷ [];
  cs_pullups = (codes "R430", codes "CS_EN") ∷ (codes "R439", codes "SIO_WR_N") ∷ [];
  isolators = isolators40;
  output_folder = codes "out" ∷ codes "40" ∷ [];
  isolator_title =
      codes "Digital isolators: SPI, chip-select address and enable for six AD7124 and ten TMP126";
  sio_driver = true;
  decoder = true;
  rtd = true;
  sync_tied = true;
  sio_a4 = false;
  esc_diodes = false;
}

-- The boards by their keys.
unfoldable pub boards : Dict Board
unfolding put b24 b8 b40
boards = put b40.key b40 (put b8.key b8 (put b24.key b24 []))
