-- ===== src/Boards/Engine.antt =====
-- The wire to the engine of hardware/family/gen/c_iso.py.
use thermocouple.Prelude.{List, [], ◌∷◌, codes}
use thermocouple.Boards.Items.{
  Item, part, resistor, capacitor, r0805, r1206, c0805, c100, iso, gnd_iso,
}

unfoldable pub engine_reference : List Item
unfolding c0805 c100 capacitor gnd_iso iso part r0805 r1206 resistor
engine_reference =
    (part (codes "J401") (codes "Connector_Generic:Conn_01x02") (codes "ENGINE REF FEED/SENSE")
      ((codes "1", codes "REF_FEED") ∷ (codes "2", codes "REF_SENSE_IN") ∷ [])
      (codes "Connector_Phoenix_MC:PhoenixContact_MC_1,5_2-G-3.81_1x02_P3.81mm_Horizontal")
      (codes "WJ15EDGRC-3.81-02P-14-00A") (codes "C8387") (codes "KANGNEX")
      (codes "two wires joined only at the engine block; plug WJ15EDGK-3.81-02P (C8466)"))
    ∷ (resistor (codes "R419") (codes "4.99k") (codes "V_MID") (codes "REF_FEED_A")
        (codes "FRC1206F4991TS") (codes "C3013259") r1206 (codes "1206 for pulse") [])
    ∷ (resistor (codes "R420") (codes "4.99k") (codes "REF_FEED_A") (codes "REF_FEED")
        (codes "FRC1206F4991TS") (codes "C3013259") r1206 (codes "1206 for pulse") [])
    ∷ (part (codes "D401") (codes "Device:D_Dual_Series_AKC") (codes "BAV199")
        ((codes "1", gnd_iso) ∷ (codes "2", iso) ∷ (codes "3", codes "REF_FEED_A") ∷ [])
        (codes "Package_TO_SOT_SMD:SOT-23") (codes "BAV199,215") (codes "C40919") (codes "Nexperia")
        [])
    ∷ (resistor (codes "R421") (codes "10k") (codes "REF_SENSE_IN") (codes "REF_SENSE")
        (codes "0805W8F1002T5E") (codes "C17414") r0805 [] [])
    ∷ (resistor (codes "R422") (codes "1M") (codes "REF_SENSE") gnd_iso (codes "0805W8F1004T5E")
        (codes "C17514") r0805 (codes "1M keeps the injected current small (review M5)") [])
    ∷ (part (codes "D402") (codes "Device:D_Dual_Series_AKC") (codes "BAV199")
        ((codes "1", gnd_iso) ∷ (codes "2", iso) ∷ (codes "3", codes "REF_SENSE") ∷ [])
        (codes "Package_TO_SOT_SMD:SOT-23") (codes "BAV199,215") (codes "C40919") (codes "Nexperia")
        [])
    ∷ (resistor (codes "R423") (codes "15k 1%") iso (codes "REF_THR") (codes "0805W8F1502T5E")
        (codes "C17475") r0805 [] [])
    ∷ (resistor (codes "R424") (codes "10k 1%") (codes "REF_THR") gnd_iso (codes "0805W8F1002T5E")
        (codes "C17414") r0805 [] [])
    ∷ (part (codes "U408") (codes "Comparator:TLV7031DBV") (codes "TLV7031DBVR")
        ((codes "1", codes "REFOK_ISO")
          ∷ (codes "+", codes "REF_THR")
          ∷ (codes "-", codes "REF_SENSE")
          ∷ (codes "V+", iso)
          ∷ (codes "V-", gnd_iso)
          ∷ [])
        (codes "Package_TO_SOT_SMD:SOT-23-5") (codes "TLV7031DBVR") (codes "C2869832") (codes "TI")
        (codes
          "LOW = wire connected (~1.63 V vs 1.32 V); high = broken, and the isolator's default-high on lost island power also reads broken"))
    ∷ (resistor (codes "R442") (codes "1M") (codes "REFOK_ISO") (codes "REF_THR")
        (codes "0805W8F1004T5E") (codes "C17514") r0805 (codes "~20 mV hysteresis") [])
    ∷ (capacitor (codes "C419") (codes "100n") (codes "REF_SENSE") gnd_iso
        (codes "CC0805KRX7R9BB104") (codes "C49678") c0805 (codes "sense filter, 0.1 s") [])
    ∷ (c100 (codes "C417") iso gnd_iso [])
    ∷ (part (codes "Q401") (codes "Transistor_FET:2N7002") (codes "2N7002")
        ((codes "G", codes "REFTEST_ISO")
          ∷ (codes "S", gnd_iso)
          ∷ (codes "D", codes "REF_TEST_D")
          ∷ [])
        (codes "Package_TO_SOT_SMD:SOT-23") (codes "2N7002") (codes "C8545") (codes "CJ")
        (codes "self-test: pulls sense low"))
    ∷ (resistor (codes "R425") (codes "1k") (codes "REF_TEST_D") (codes "REF_SENSE")
        (codes "0805W8F1001T5E") (codes "C17513") r0805 [] [])
    ∷ []
