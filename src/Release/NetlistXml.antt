-- ===== src/Release/NetlistXml.antt =====
-- What hardware/family/gen/compare_release.py and hardware/family/gen/bom.py read of an exported
-- netlist. An `Option` is an attribute or a text that may be missing.
use thermocouple.Prelude.{Option, List, Text}

-- A <comp>, with its <field> and <property> elements.
pub record Comp : Type 0 where
  pub ref : Text
  pub fields : List (Text × Option Text)
  pub value : Option Text
  pub footprint : Option Text
  pub description : Option Text
  pub datasheet : Option Text
  pub properties : List (Text × Option Text)

-- A <net>, with the `ref` and `pin` of its <node> elements.
pub record Net : Type 0 where
  pub name : Text
  pub nodes : List (Text × Text)

pub record Root : Type 0 where
  pub comps : List Comp
  pub nets : List Net
  pub sheets : List (Option Text)
  pub sheetpaths : List (Option Text)
