-- ===== src/Boards/Items.antt =====
-- The parts of the circuits, as hardware/family/gen/model.py makes them.
use thermocouple.Prelude.{Bool, true, false, none, [], ◌∷◌, Text, codes}
use thermocouple.Netlist.Lookup.{Dict}
use thermocouple.Parts.{Part}

-- A part with what the list of material and the layout need.
pub record Item : Type 0 where
  pub entry : Part
  pub lib_id : Text
  pub value : Text
  pub footprint : Text
  pub mpn : Text
  pub lcsc : Text
  pub mfr : Text
  pub desc : Text
  pub dnp : Bool
  pub in_bom : Bool
  pub on_board : Bool

unfoldable pub part : Text → Text → Text → Dict Text → Text → Text → Text → Text → Text → Item
part ref lib_id value nets footprint mpn lcsc mfr desc = record {
  entry = record { ref = ref; nets = nets; pinmap = none };
  lib_id = lib_id;
  value = value;
  footprint = footprint;
  mpn = mpn;
  lcsc = lcsc;
  mfr = mfr;
  desc = desc;
  dnp = false;
  in_bom = true;
  on_board = true;
}

unfoldable pub r0805 : Text
r0805 = codes "Resistor_SMD:R_0805_2012Metric"

unfoldable pub r1206 : Text
r1206 = codes "Resistor_SMD:R_1206_3216Metric"

unfoldable pub c0805 : Text
c0805 = codes "Capacitor_SMD:C_0805_2012Metric"

-- The two pins of a resistor or a capacitor.
unfoldable pub two : Text → Text → Dict Text
two a b = (codes "1", a) ∷ (codes "2", b) ∷ []

unfoldable pub resistor : Text → Text → Text → Text → Text → Text → Text → Text → Text → Item
unfolding part two
resistor ref value a b mpn lcsc fp desc mfr =
    part ref (codes "Device:R") value (two a b) fp mpn lcsc mfr desc

unfoldable pub capacitor : Text → Text → Text → Text → Text → Text → Text → Text → Text → Item
unfolding part two
capacitor ref value a b mpn lcsc fp desc mfr =
    part ref (codes "Device:C") value (two a b) fp mpn lcsc mfr desc

unfoldable pub test_point : Text → Text → Item
unfolding part
test_point ref net =
    record (part ref (codes "Connector_Generic:Conn_01x01") net ((codes "1", net) ∷ [])
      (codes "TestPoint:TestPoint_THTPad_D2.0mm_Drill1.0mm") [] [] [] []) { in_bom = false }

unfoldable pub iso : Text
iso = codes "+3V3_ISO"

unfoldable pub gnd_iso : Text
gnd_iso = codes "GND_ISO"

unfoldable pub c100 : Text → Text → Text → Text → Item
unfolding capacitor c0805
c100 ref a b desc =
    capacitor ref (codes "100n") a b (codes "CC0805KRX7R9BB104") (codes "C49678") c0805 desc []
