-- ===== src/Boards/Supply.antt =====
-- The supply, the references and the clamp of hardware/family/gen/c_iso.py.
use thermocouple.Prelude.{List, [], ◌∷◌, ◌++◌, codes, decimal}
use thermocouple.Boards.{Board, channel_count}
use thermocouple.Boards.Items.{
  Item, part, resistor, capacitor, test_point, r0805, r1206, c0805, c100, iso, gnd_iso,
}

unfoldable pub supply : List Item
unfolding c0805 c100 capacitor gnd_iso iso part r1206 resistor test_point
supply =
    (part (codes "U401") (codes "Converter_DCDC_Isolated:CRE1S0505SC") (codes "B0505S-1WR2")
      ((codes "-VIN", codes "GND")
        ∷ (codes "+VIN", codes "+5V")
        ∷ (codes "-VOUT", gnd_iso)
        ∷ (codes "+VOUT", codes "+5V_ISO_RAW")
        ∷ [])
      (codes "Converter_DCDC:Converter_DCDC_Murata_CRE1xxxxxxSC_THT") (codes "B0505S-1WR2")
      (codes "C2992393") (codes "YLPTEC")
      (codes "SIP-4: 1 GND, 2 +Vin, 3 -Vo, 4 +Vo; 1500 VDC; 20 mA minimum load"))
    ∷ (capacitor (codes "C401") (codes "10u") (codes "+5V") (codes "GND") (codes "CL21A106KAYNNNE")
        (codes "C15850") c0805 [] [])
    ∷ (c100 (codes "C402") (codes "+5V") (codes "GND") [])
    ∷ (capacitor (codes "C403") (codes "10u") (codes "+5V_ISO_RAW") gnd_iso
        (codes "CL21A106KAYNNNE") (codes "C15850") c0805 [] [])
    ∷ (part (codes "U402") (codes "Regulator_Linear:LP2985-3.3") (codes "LP2985IM5X-3.3")
        ((codes "VIN", codes "+5V_ISO_RAW")
          ∷ (codes "GND", gnd_iso)
          ∷ (codes "ON/~{OFF}", codes "+5V_ISO_RAW")
          ∷ (codes "BP", codes "LDO_BP")
          ∷ (codes "VOUT", iso)
          ∷ [])
        (codes "Package_TO_SOT_SMD:SOT-23-5") (codes "LP2985IM5X-3.3/NOPB") (codes "C129375")
        (codes "TI") [])
    ∷ (capacitor (codes "C404") (codes "10n") (codes "LDO_BP") gnd_iso (codes "CL21B103KBANNNC")
        (codes "C1710") c0805 (codes "bypass, low noise") [])
    ∷ (capacitor (codes "C405") (codes "1u") (codes "+5V_ISO_RAW") gnd_iso (codes "CL21B105KBFNNNE")
        (codes "C28323") c0805 [] [])
    ∷ (capacitor (codes "C406") (codes "4.7u") iso gnd_iso (codes "CGA0805X7R475K350MT")
        (codes "C6119943") c0805 [] [])
    ∷ (resistor (codes "R401") (codes "150R 1%") iso gnd_iso (codes "1206W4F1500T5E")
        (codes "C17917") r1206
        (codes "preload: module minimum load and AVDD clamp-current sink (0032 rev 2)") [])
    ∷ (test_point (codes "TP401") iso)
    ∷ (test_point (codes "TP402") gnd_iso)
    ∷ (test_point (codes "TP407") (codes "+5V_ISO_RAW"))
    ∷ []

unfoldable pub reference_3v : List Item
unfolding c100 gnd_iso iso part test_point
reference_3v =
    (part (codes "U406") (codes "Reference_Voltage:REF3030") (codes "REF3030AIDBZR")
      ((codes "IN", iso) ∷ (codes "GND", gnd_iso) ∷ (codes "OUT", codes "VREF_EXT") ∷ [])
      (codes "Package_TO_SOT_SMD:SOT-23") (codes "REF3030AIDBZR") (codes "C38423") (codes "TI") [])
    ∷ (c100 (codes "C413") iso gnd_iso [])
    ∷ (c100 (codes "C414") (codes "VREF_EXT") gnd_iso [])
    ∷ (test_point (codes "TP404") (codes "VREF_EXT"))
    ∷ []

unfoldable pub v_mid : Board → List Item
unfolding c100 channel_count decimal gnd_iso iso part r0805 resistor test_point
v_mid b =
    (resistor (codes "R416") (codes "100k 1%") iso (codes "V_MID_DIV") (codes "0805W8F1003T5E")
      (codes "C149504") r0805 [] [])
    ∷ (resistor (codes "R417") (codes "100k 1%") (codes "V_MID_DIV") gnd_iso
        (codes "0805W8F1003T5E") (codes "C149504") r0805 [] [])
    ∷ (c100 (codes "C415") (codes "V_MID_DIV") gnd_iso [])
    ∷ (part (codes "U407") (codes "Amplifier_Operational:MCP6001-OT") (codes "MCP6001T-I/OT")
        ((codes "1", codes "V_MID_BUF")
          ∷ (codes "+", codes "V_MID_DIV")
          ∷ (codes "-", codes "V_MID_BUF")
          ∷ (codes "V+", iso)
          ∷ (codes "V-", gnd_iso)
          ∷ [])
        (codes "Package_TO_SOT_SMD:SOT-23-5") (codes "MCP6001T-I/OT") (codes "C116490")
        (codes "Microchip") [])
    ∷ (c100 (codes "C416") iso gnd_iso [])
    ∷ (resistor (codes "R418") (codes "100R") (codes "V_MID_BUF") (codes "V_MID")
        (codes "0805W8F1000T5E") (codes "C17408") r0805
        (codes "isolates the buffer from capacitance") [])
    ∷ (test_point (codes "TP403") (codes "V_MID"))
    ∷ (resistor (codes "R427") (codes "10k") (codes "V_MID") (codes "V_BIAS")
        (codes "0805W8F1002T5E") (codes "C17414") r0805
        (codes "bias bus for the "
          ++ (decimal (channel_count b)
              ++ (codes " R_b and C_cm, separate from the engine-reference feed (review M4)")))
        [])
    ∷ (part (codes "D403") (codes "Device:D_Dual_Series_AKC") (codes "BAV199")
        ((codes "1", gnd_iso) ∷ (codes "2", iso) ∷ (codes "3", codes "V_BIAS") ∷ [])
        (codes "Package_TO_SOT_SMD:SOT-23") (codes "BAV199,215") (codes "C40919") (codes "Nexperia")
        [])
    ∷ (c100 (codes "C418") (codes "V_BIAS") gnd_iso [])
    ∷ (test_point (codes "TP405") (codes "V_BIAS"))
    ∷ (test_point (codes "TP406") (codes "REFOK_ISO"))
    ∷ []

unfoldable pub clamp : List Item
unfolding gnd_iso iso part r0805 resistor
clamp =
    (part (codes "U409") (codes "Reference_Voltage:TL431DBZ") (codes "TL431")
      ((codes "K", codes "CLAMP_K") ∷ (codes "REF", codes "CLAMP_REF") ∷ (codes "A", gnd_iso) ∷ [])
      (codes "Package_TO_SOT_SMD:SOT-23") (codes "TL431BIDBZR") (codes "C41283") (codes "TI")
      (codes "TI part only: pin 1 = K; 3.5 V = 2.495 x (1 + 4.02k/10k)"))
    ∷ (resistor (codes "R428") (codes "4.02k 1%") iso (codes "CLAMP_REF") (codes "0805W8F4021T5E")
        (codes "C17663") r0805 [] [])
    ∷ (resistor (codes "R429") (codes "10k 1%") (codes "CLAMP_REF") gnd_iso (codes "0805W8F1002T5E")
        (codes "C17414") r0805 [] [])
    ∷ (resistor (codes "R440") (codes "470R") iso (codes "CLAMP_K") (codes "0805W8F4700T5E")
        (codes "C17710") r0805 (codes "PNP turns on at ~1.3 mA TL431 current (>=1 mA spec)") [])
    ∷ (part (codes "Q402") (codes "Transistor_BJT:MMBT3906") (codes "MMBT3906")
        ((codes "B", codes "CLAMP_K") ∷ (codes "E", iso) ∷ (codes "C", codes "CLAMP_C") ∷ [])
        (codes "Package_TO_SOT_SMD:SOT-23") (codes "MMBT3906LT1G") (codes "C53444") (codes "onsemi")
        (codes "TL431 cathode drives the base directly (schematic review)"))
    ∷ (resistor (codes "R441") (codes "22R 1W") (codes "CLAMP_C") gnd_iso (codes "25121WF220JT4E")
        (codes "C118189") (codes "Resistor_SMD:R_2512_6332Metric")
        (codes "limits the clamp to ~150 mA; 0.5 W at full clamp") [])
    ∷ []
