-- ===== src/Boards.antt =====
-- The boards of hardware/family/gen/boards.py: what the circuit blocks are built from.
pub mod Mcu
pub mod Tables
pub mod Items
pub mod Supply
pub mod Engine
pub mod Isolation
pub mod Keypad
pub mod Barrier
pub mod Separate
mod Tests
use thermocouple.Prelude.{ℕ, ◌*◌, Bool, List, Text, codes}
use thermocouple.Netlist.Lookup.{Dict}

-- A pin that is left unconnected on purpose.
unfoldable pub nc : Text
nc = codes "<NC>"

pub record Isolator : Type 0 where
  pub ref : Text
  pub forward_in : List Text
  pub reverse_out : Text
  pub forward_out : List Text
  pub reverse_in : Text
  pub caps : List Text

pub data HoleKind : Type 0 where
  island : HoleKind
  chassis : HoleKind
  lcd : HoleKind
  plain : HoleKind

-- The folder of the output is given by its parts below that of the generator.
pub record Board : Type 0 where
  pub key : Text
  pub project : Text
  pub root_title : Text
  pub library : Text
  pub bank_count : ℕ
  pub bank_letters : List Text
  pub mcu_pins : Dict Text
  pub chip_selects : List Text
  pub cs_pullups : List (Text × Text)
  pub isolators : List Isolator
  pub mounting_holes : List (ℕ × HoleKind)
  pub output_folder : List Text
  pub revision : Text
  pub isolator_title : Text
  pub bank_bases : List ℕ
  pub sio_driver : Bool
  pub decoder : Bool
  pub rtd : Bool
  pub sync_tied : Bool
  pub sio_a4 : Bool
  pub esc_diodes : Bool

unfoldable pub channel_count : Board → ℕ
channel_count b = 8 * b.bank_count
