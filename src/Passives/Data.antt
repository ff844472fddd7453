-- ===== src/Passives/Data.antt =====
-- The data of hardware/8ch-old/source_passives.py. Tolerances are in parts per million, voltages in
-- mV, powers in µW, prices in millionths of a dollar, resistances in ohms, capacitances in pF.
use thermocouple.Prelude.{ℕ, Option, none, some, List, Bool, Text, codes}

pub data Kind : Type 0 where
  r c : Kind

-- A requirement; `amount` is `ohms` or `farads`.
pub record Need : Type 0 where
  pub kind : Kind
  pub footprint : Text
  pub amount : ℕ
  pub tol : Option ℕ
  pub volt : Option ℕ
  pub power : Option ℕ
  pub dielectric : Option Text
  pub critical : Option Text
  pub substitution : Option Text

abbrev pub r0805 : Text
r0805 = codes "Resistor_SMD:R_0805_2012Metric"

abbrev pub c0805 : Text
c0805 = codes "Capacitor_SMD:C_0805_2012Metric"

abbrev pub c1210 : Text
c1210 = codes "Capacitor_SMD:C_1210_3225Metric"

-- dict(kind="r", footprint=R0805, ...) with its resistance, tolerance, power and reason.
abbrev pub resistor : ℕ → Option ℕ → Option ℕ → Option Text → Need
resistor ohms tol power critical = record {
  kind = r;
  footprint = r0805;
  amount = ohms;
  tol = tol;
  volt = none;
  power = power;
  dielectric = none;
  critical = critical;
  substitution = none;
}

-- dict(kind="c", ...) with its footprint, capacitance, voltage, dielectric, tolerance and reasons.
abbrev pub capacitor : Text → ℕ → ℕ → Option Text → Option ℕ → Option Text → Option Text → Need
capacitor footprint farads volt dielectric tol critical substitution = record {
  kind = c;
  footprint = footprint;
  amount = farads;
  tol = tol;
  volt = some volt;
  power = none;
  dielectric = dielectric;
  critical = critical;
  substitution = substitution;
}

-- A part that is specified by hand.
pub record Manual : Type 0 where
  pub footprint : Text
  pub mpn : Text
  pub manufacturer : Text
  pub note : Text

-- A part as the search reports it; `none` is a field that is missing or null.
pub record Offer : Type 0 where
  pub mfr : Text
  pub lcsc : Text
  pub is_basic : Bool
  pub in_stock : Bool
  pub stock : Option ℕ
  pub price : Option ℕ
  pub tolerance : Option ℕ
  pub voltage : Option ℕ
  pub power : Option ℕ
  pub coefficient : Option Text

-- A part of the catalog.
pub record Measured : Type 0 where
  pub tolerance : Option ℕ
  pub voltage : Option ℕ
  pub coefficient : Option Text
  pub power : Option ℕ

pub record Sourced : Type 0 where
  pub mpn : Text
  pub lcsc : Text
  pub footprint : Text
  pub jlcpcb_basic : Bool
  pub stock : Option ℕ
  pub unit_price : ℕ
  pub measured : Measured
  pub alternates : List (Text × Text)
  pub why_it_matters : Option Text
  pub substitution : Option Text

pub data Entry : Type 0 where
  searched : Sourced → Entry
  by_hand : Manual → Entry
