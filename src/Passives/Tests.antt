-- ===== src/Passives/Tests.antt =====
-- Runs of hardware/8ch-old/source_passives.py on concrete offers.
use thermocouple.Prelude.{
  ℕ, ◌≡◌, refl, sym, subst, true, false, Option, none, some, [], ◌∷◌, ◌++◌, codes, ◌⊎◌, inl, inr,
}
use thermocouple.Netlist.Lookup.{keys}
use thermocouple.Passives.Data.{Need, Offer, Sourced, capacitor, resistor, c0805}
use thermocouple.Passives.Table.{requirements, manual}
use thermocouple.Passives.{
  meets, sort, usable, resolve, Search, Catalog, main, missing, check, package_of,
}
use thermocouple.Passives.Meets.{Meets}
use thermocouple.Passives.Missing.{is_named, Named, some_inj}
use thermocouple.Passives.Best.{In, Taken, resolve-Taken}
use thermocouple.Passives.Checked.{main-check}

abbrev extended : Offer
extended = record {
  mfr = codes "RC0805FR-0710KL";
  lcsc = codes "84376";
  is_basic = false;
  in_stock = true;
  stock = some 90000;
  price = some 1800;
  tolerance = some 10000;
  voltage = none;
  power = some 125000;
  coefficient = none;
}

abbrev basic : Offer
basic = record extended {
  mfr = codes "0805W8F1002T5E";
  lcsc = codes "17414";
  is_basic = true;
  stock = some 800;
}

abbrev coarse : Offer
coarse = record basic { tolerance = some 50000 }

abbrev wanted : Need
wanted = resistor 10000 (some 10000) (some 100000) none

run_passives : Unit {0}
unfolding resolve main missing check is_named
run_passives = tt

basic_taken : usable wanted (coarse ∷ extended ∷ basic ∷ []) ≡ extended ∷ basic ∷ []
unfolding run_passives
basic_taken = refl

basic_sorted : sort (extended ∷ basic ∷ []) ≡ basic ∷ extended ∷ []
unfolding run_passives
basic_sorted = refl

milliwatts : meets (record basic { power = some 125000000 }) wanted ≡ true
unfolding run_passives
milliwatts = refl

np0 :
    meets
      (record basic { voltage = some 50000; coefficient = some (codes "np0") })
      (capacitor c0805 1000 50000 (some (codes "C0G")) none none none)
    ≡ true
unfolding run_passives
np0 = refl

other_package : package_of (codes "Capacitor_SMD:C_1210_3225Metric") ≡ codes "1210"
unfolding run_passives
other_package = refl

resolve-Taken_example :
    ((resolve wanted (coarse ∷ extended ∷ basic ∷ []) ≡ none)
      × ((o : Offer) → In o (coarse ∷ extended ∷ basic ∷ []) → Meets o wanted → ⊥))
    ⊎ ((s : Sourced) × (resolve wanted (coarse ∷ extended ∷ basic ∷ []) ≡ some s)
        × Taken wanted (coarse ∷ extended ∷ basic ∷ []) s)
resolve-Taken_example = resolve-Taken wanted (coarse ∷ extended ∷ basic ∷ [])

-- A part without a known stock ends the run.
no_stock : main (λ kind amount size. some (record basic { stock = none } ∷ [])) ≡ none
unfolding run_passives
no_stock = refl

more_stock_first :
    sort (record basic { stock = some 5 } ∷ record basic { stock = some 6; price = some 9000 } ∷ [])
    ≡ record basic { stock = some 6; price = some 9000 } ∷ record basic { stock = some 5 } ∷ []
unfolding run_passives
more_stock_first = refl

-- A search that finds one basic resistor, whatever is asked.
abbrev one_offer : Search
one_offer kind amount size = some (basic ∷ [])

one_offer-Named : Named one_offer
unfolding run_passives
one_offer-Named kind amount size offers o e there =
    let offered : In o (basic ∷ []) = subst (In o) (sym (some_inj e)) there in
    elim offered [
      | inl same ↦ subst (λ t. is_named t.mfr ≡ true) (sym same) refl
      | inr none_left ↦ absurd none_left
    ]

abbrev of_run : Option (Catalog × ℕ) → Catalog
of_run none = record { unresolved = []; parts = [] }
of_run (some (k, exit)) = k

abbrev from_one : Catalog
unfolding run_passives
from_one = of_run (main one_offer)

from_one_written : main one_offer ≡ some (from_one, 1)
unfolding run_passives
from_one_written = refl

main-check_example :
    (missing (keys requirements ++ keys manual) from_one.parts ≡ from_one.unresolved)
    × (check (some from_one) ≡ 1)
main-check_example = main-check one_offer from_one 1 one_offer-Named from_one_written
