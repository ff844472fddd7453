-- ===== src/Boards/Isolation.antt =====
-- The isolators of hardware/family/gen/c_iso.py and the blocks of its sheet.
use thermocouple.Prelude.{ℕ, List, [], ◌∷◌, ◌++◌, Text, codes, decimal, if◌then◌else◌, ◌+◌}
use thermocouple.Netlist.Lookup.{Dict}
use thermocouple.Boards.{Isolator, Board}
use thermocouple.Boards.Items.{Item, part, resistor, r0805, c100, iso, gnd_iso}
use thermocouple.Boards.Mcu.{numbered}
use thermocouple.Boards.Supply.{supply, reference_3v, v_mid, clamp}
use thermocouple.Boards.Engine.{engine_reference}

-- The pins of one direction of an isolator, by the letter of the channel.
unfoldable pub channels : Text → List Text → List Text → Dict Text
channels name [] nets = []
channels name (l ∷ ls) [] = []
channels name (l ∷ ls) (net ∷ nets) = (name ++ l, net) ∷ channels name ls nets

abbrev pub letters : List Text
letters = codes "A" ∷ codes "B" ∷ codes "C" ∷ codes "D" ∷ codes "E" ∷ []

unfoldable pub isolator_nets : Isolator → Dict Text
unfolding channels iso gnd_iso
isolator_nets i =
    (codes "Vcc1", codes "+5V")
    ∷ (codes "GND1", codes "GND")
    ∷ (codes "Vcc2", iso)
    ∷ (codes "GND2", gnd_iso)
    ∷ (codes "OUTF", i.reverse_out)
    ∷ (codes "INF", i.reverse_in)
    ∷ (channels (codes "IN") letters i.forward_in ++ channels (codes "OUT") letters i.forward_out)

-- The first of the two capacitors is on the control side.
unfoldable pub capacitors : List Text → List Item
unfolding c100 iso gnd_iso
capacitors [] = []
capacitors (c ∷ []) = []
capacitors (c ∷ d ∷ cs) =
    c100 c (codes "+5V") (codes "GND") (codes "side 1") ∷ c100 d iso gnd_iso (codes "side 2") ∷ []

unfoldable pub isolator : Isolator → List Item
unfolding isolator_nets part capacitors
isolator i =
    part i.ref (codes "Isolator:ISO7761DW") (codes "CA-IS3761HW") (isolator_nets i)
      (codes "Package_SO:SOIC-16W_7.5x10.3mm_P1.27mm") (codes "CA-IS3761HW") (codes "C528656")
      (codes "Chipanalog")
      (codes "ISO7761 pinout, 5 forward / 1 reverse, default output high (0036)")
    ∷ capacitors i.caps

unfoldable pub isolators_of : List Isolator → List Item
unfolding isolator
isolators_of [] = []
isolators_of (i ∷ is) = isolator i ++ isolators_of is

unfoldable pub series : List Item
unfolding r0805 resistor
series =
    (resistor (codes "R402") (codes "33R") (codes "SCLK_ISO_RAW") (codes "SCLK_ISO")
      (codes "0805W8F330JT5E") (codes "C17634") r0805 [] [])
    ∷ (resistor (codes "R403") (codes "33R") (codes "DIN_ISO_RAW") (codes "DIN_ISO")
        (codes "0805W8F330JT5E") (codes "C17634") r0805 [] [])
    ∷ (resistor (codes "R404") (codes "33R") (codes "DOUT_ISO") (codes "DOUT_ISO_RAW")
        (codes "0805W8F330JT5E") (codes "C17634") r0805 [] [])
    ∷ (resistor (codes "R405") (codes "2k2") (codes "MISO_ISO") (codes "MISO")
        (codes "0805W8F2201T5E") (codes "C17520") r0805 (codes "ISP contention") [])
    ∷ []

unfoldable pub sio_by_resistor : List Item
unfolding r0805 resistor
sio_by_resistor =
    (resistor (codes "R443") (codes "22k") (codes "DIN_ISO") (codes "DOUT_ISO")
      (codes "0805W8F2202T5E") (codes "C17560") r0805
      (codes
        "TMP126 3-wire SPI: MOSI reaches each SIO through 22k, SIO drives DOUT; 22k not 10k keeps the AD7124 DOUT load ~0.15 mA (spec at 0.1 mA); also defines DOUT when all are deselected (0036)")
      [])
    ∷ []

unfoldable pub sio_driver : Board → List Item
unfolding c100 gnd_iso iso part r0805 resistor
sio_driver b =
    (part (codes "U411") (codes "74xGxx:74LVC1G125") (codes "74LVC1G125")
      ((codes "1", codes "SIO_WR_N_ISO")
        ∷ (codes "2", codes "DIN_ISO")
        ∷ (codes "3", gnd_iso)
        ∷ (codes "4", codes "SIO_DRV")
        ∷ (codes "5", iso)
        ∷ [])
      (codes "Package_TO_SOT_SMD:SOT-23-5") (codes "SN74LVC1G125DBVR") (codes "C23654") (codes "TI")
      (codes "OE active low; isolator default-high and R445 keep it off"))
    ∷ (c100 (codes "C421") iso gnd_iso (codes "U411 VCC"))
    ∷ (resistor (codes "R445") (codes "10k") (codes "SIO_WR_N_ISO") iso (codes "0805W8F1002T5E")
        (codes "C17414") r0805 (codes "driver off while the isolator powers up") [])
    ∷ (resistor (codes "R446") (codes "220R") (codes "SIO_DRV") (codes "DOUT_ISO")
        (codes "0805W8F2200T5E") (codes "C17557") r0805
        (if b.sio_a4
          then codes "edge ~30 ns into ~85 pF; limits current if a device drives back"
          else codes "edge ~60 ns into 300 pF; limits current if a device drives back")
        [])
    ∷ (resistor (codes "R447") (codes "100k") (codes "DOUT_ISO") iso (codes "0805W8F1003T5E")
        (codes "C149504") r0805
        ((codes
            "weak bias so the isolator input does not float when every device is deselected; idle data is ")
          ++ (if b.sio_a4
              then codes "not defined - firmware never reads it"
              else codes
                  "not defined (isolator leakage up to 20 uA, Astra) - firmware never reads it"))
        [])
    ∷ []

unfoldable pub pull_ups : List (Text × Text) → List Item
unfolding resistor r0805
pull_ups [] = []
pull_ups ((ref, net) ∷ rs) =
    resistor ref (codes "10k") net (codes "+5V") (codes "0805W8F1002T5E") (codes "C17414") r0805
      (codes "control CS pull-up during MCU reset") []
    ∷ pull_ups rs

-- The outputs of the decoder are its pins S0 to S15.
unfoldable pub outputs : ℕ → List Text → Dict Text
unfolding decimal
outputs i [] = []
outputs i (net ∷ nets) = (codes "S" ++ decimal i, net) ∷ outputs (i + 1) nets

unfoldable pub decoder : List Item
unfolding outputs numbered part c100 resistor r0805 iso gnd_iso
decoder =
    let y =
      numbered (codes "CS_ADC") (codes "_ISO") (1 ∷ 2 ∷ 3 ∷ 4 ∷ 5 ∷ [])
      ++ (codes "CS_RTD_ISO"
          ∷ numbered (codes "CS_CJ") (codes "_ISO")
              (1 ∷ 2 ∷ 3 ∷ 4 ∷ 5 ∷ 6 ∷ 7 ∷ 8 ∷ 9 ∷ 10 ∷ [])) in
    let nets =
      outputs 0 y
      ++ ((codes "GND", gnd_iso)
          ∷ (codes "VCC", iso)
          ∷ (codes "E0", codes "CS_EN_ISO")
          ∷ (codes "E1", gnd_iso)
          ∷ (codes "A0", codes "CSA0_ISO")
          ∷ (codes "A1", codes "CSA1_ISO")
          ∷ (codes "A2", codes "CSA2_ISO")
          ∷ (codes "A3", codes "CSA3_ISO")
          ∷ []) in
    part (codes "U410") (codes "74xx:74LS154") (codes "74HC154") nets
      (codes "Package_SO:TSSOP-24_4.4x7.8mm_P0.65mm") (codes "74HC154PW,118") (codes "C21061")
      (codes "Nexperia")
      (codes
        "4-to-16 CS decoder at 3.3 V; firmware: EN high, wait, address, wait, EN low (0039 D3)")
    ∷ c100 (codes "C420") iso gnd_iso (codes "U410 VCC")
    ∷ resistor (codes "R444") (codes "10k") (codes "CS_EN_ISO") iso (codes "0805W8F1002T5E")
        (codes "C17414") r0805 (codes "EN high while the isolator powers up: all deselected") []
    ∷ []

-- The parts of the sheet, block by block.
unfoldable pub isolation : Board → List Item
unfolding supply isolators_of series sio_by_resistor pull_ups sio_driver decoder reference_3v v_mid
    clamp engine_reference
isolation b =
    let driver = if b.sio_driver then sio_driver b else [] in
    let select = if b.decoder then decoder else [] in
    let weak = if b.sio_driver then [] else sio_by_resistor in
    supply
    ++ (isolators_of b.isolators
        ++ ((series ++ (weak ++ pull_ups b.cs_pullups))
            ++ (driver ++ (select ++ (reference_3v ++ (v_mid b ++ (clamp ++ engine_reference)))))))
