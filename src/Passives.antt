-- ===== src/Passives.antt =====
-- Part numbers for the passives (hardware/8ch-old/source_passives.py): which offers of a search meet
-- a requirement, which is taken, the catalog that is written and its check. The search is given.
pub mod Data
pub mod Table
pub mod Meets
pub mod Best
pub mod Missing
pub mod Filled
pub mod ByHand
pub mod Checked
mod Tests
use thermocouple.Prelude.{
  ℕ, zero, suc, ◌+◌, ◌*◌, Bool, true, false, not, ◌&&◌, ◌||◌, Option, none, some, List, [], ◌∷◌,
  ◌++◌, map, Text, codes, text_eq, if◌then◌else◌, ◌==◌, ltb, leb, take, ◌-◌,
}
use thermocouple.Netlist.Lookup.{Dict, lookup, put, keys}
use thermocouple.Passives.Data.{
  Need, Kind, Offer, Entry, searched, by_hand, Sourced, Measured, Manual,
}
use thermocouple.Passives.Table.{requirements, manual}

-- str.upper on ASCII.
unfoldable pub upper : Text → Text
upper [] = []
upper (c ∷ s) = (if leb b'a' c && leb c b'z' then c - 32 else c) ∷ upper s

abbrev pub or_empty : Option Text → Text
or_empty none = []
or_empty (some s) = s

-- The tests of `meets`, each passed where nothing is required.
unfoldable pub meets_tol : Option ℕ → Option ℕ → Bool
meets_tol none actual = true
meets_tol (some tol) none = false
meets_tol (some tol) (some actual) = leb actual tol

unfoldable pub meets_volt : Option ℕ → Option ℕ → Bool
meets_volt none actual = true
meets_volt (some volt) none = false
meets_volt (some volt) (some actual) = leb volt actual

-- A number above 10 W is in milliwatts.
unfoldable pub meets_power : Option ℕ → Option ℕ → Bool
meets_power none actual = true
meets_power (some power) none = false
meets_power (some power) (some actual) =
    if ltb 10000000 actual then leb (power * 1000) actual else leb power actual

unfoldable pub is_c0g : Text → Bool
unfolding text_eq
is_c0g s = text_eq s (codes "C0G") || text_eq s (codes "NP0")

unfoldable pub is_wanted : Text → Text → Bool
unfolding is_c0g text_eq
is_wanted dielectric actual = if is_c0g dielectric then is_c0g actual else text_eq actual dielectric

unfoldable pub meets_dielectric : Option Text → Option Text → Bool
unfolding is_wanted upper
meets_dielectric none actual = true
meets_dielectric (some dielectric) actual = is_wanted (upper dielectric) (upper (or_empty actual))

unfoldable pub meets : Offer → Need → Bool
unfolding meets_tol meets_volt meets_power meets_dielectric
meets part need =
    meets_tol need.tol part.tolerance
    && meets_volt need.volt part.voltage
    && meets_power need.power part.power
    && (meets_dielectric need.dielectric part.coefficient && part.in_stock)

abbrev pub or_zero : Option ℕ → ℕ
or_zero none = 0
or_zero (some n) = n

-- part.get("price1") or 9e9, where 0 counts as missing.
unfoldable pub price_of : Option ℕ → ℕ
price_of none = 9000000000000000
price_of (some zero) = 9000000000000000
price_of (some (suc n)) = suc n

abbrev pub basic_first : Bool → ℕ
basic_first true = 0
basic_first false = 1

-- rank(a) <= rank(b): basic parts first, then more stock, then the lower price.
unfoldable pub rank_leb : Offer → Offer → Bool
unfolding price_of
rank_leb a b =
    let i = basic_first a.is_basic in
    let j = basic_first b.is_basic in
    let m = or_zero a.stock in
    let n = or_zero b.stock in
    ltb i j || (i == j && (ltb n m || (n == m && leb (price_of a.price) (price_of b.price))))

-- sorted(..., key=rank), which keeps the order of equals.
unfoldable pub place : Offer → List Offer → List Offer
unfolding rank_leb
place a [] = a ∷ []
place a (b ∷ bs) = if rank_leb a b then a ∷ b ∷ bs else b ∷ place a bs

unfoldable pub sort : List Offer → List Offer
unfolding place
sort [] = []
sort (a ∷ offers) = place a (sort offers)

unfoldable pub usable : Need → List Offer → List Offer
unfolding meets
usable need [] = []
usable need (a ∷ offers) = if meets a need then a ∷ usable need offers else usable need offers

unfoldable pub starts : Text → Text → Bool
starts [] s = true
starts (a ∷ p) [] = false
starts (a ∷ p) (b ∷ s) = a == b && starts p s

-- `code in footprint`
unfoldable pub occurs : Text → Text → Bool
unfolding starts
occurs p [] = starts p []
occurs p (a ∷ s) = starts p (a ∷ s) || occurs p s

unfoldable pub first_code : List Text → Text → Text
unfolding occurs
first_code [] footprint = codes "0805"
first_code (k ∷ ks) footprint = if occurs k footprint then k else first_code ks footprint

unfoldable pub package_of : Text → Text
unfolding first_code
package_of = first_code (
    codes "0402"
    ∷ codes "0603"
    ∷ codes "0805"
    ∷ codes "1206"
    ∷ codes "1210"
    ∷ codes "1812"
    ∷ codes "2220"
    ∷ [])

-- The search, by kind, amount and package; `none` is the SystemExit of a query that fails.
abbrev pub Search : Type 0
Search = Kind → ℕ → Text → Option (List Offer)

unfoldable pub summary : Offer → Text × Text
summary p = (p.mfr, b'C' ∷ p.lcsc)

unfoldable pub sourced : Need → Offer → List Offer → Sourced
unfolding summary
sourced need best others = record {
  mpn = best.mfr;
  lcsc = b'C' ∷ best.lcsc;
  footprint = need.footprint;
  jlcpcb_basic = best.is_basic;
  stock = best.stock;
  unit_price = or_zero best.price;
  measured = record {
    tolerance = best.tolerance;
    voltage = best.voltage;
    coefficient = best.coefficient;
    power = best.power;
  };
  alternates = map summary (take 2 others);
  why_it_matters = need.critical;
  substitution = need.substitution;
}

unfoldable pub take_best : Need → List Offer → Option Sourced
unfolding sourced
take_best need [] = none
take_best need (best ∷ others) = some (sourced need best others)

-- `resolve`, with the two texts that `main` adds to what it found.
unfoldable pub resolve : Need → List Offer → Option Sourced
unfolding take_best sort usable
resolve need offers = take_best need (sort (usable need offers))

-- What `main` collects.
pub record Catalog : Type 0 where
  pub unresolved : List Text
  pub parts : Dict Entry

-- What is done with the result for one value. A part without stock ends the program: its line cannot be
-- printed with `>9,`.
unfoldable pub with_found : Text → Option Sourced → Catalog → Option Catalog
unfolding put
with_found value none k = some (record k { unresolved = k.unresolved ++ (value ∷ []) })
with_found value (some part) k = elim part.stock [
  | none ↦ none
  | some n ↦ some (record k { parts = put value (searched part) k.parts })
]

unfoldable pub with_needs : Search → List (Text × Need) → Catalog → Option Catalog
unfolding with_found resolve package_of
with_needs search [] k = some k
with_needs search ((value, need) ∷ needs) k =
    elim (search need.kind need.amount (package_of need.footprint)) [
      | none ↦ none
      | some offers ↦ elim (with_found value (resolve need offers) k) [
        | none ↦ none
        | some next ↦ with_needs search needs next
      ]
    ]

unfoldable pub with_manual : List (Text × Manual) → Catalog → Catalog
unfolding put
with_manual [] k = k
with_manual ((value, part) ∷ more) k =
    with_manual more (record k { parts = put value (by_hand part) k.parts })

unfoldable pub exit_code : List Text → ℕ
exit_code [] = 0
exit_code (value ∷ more) = 1

-- The catalog that is written and the exit code; `none` where a query fails or a part has no
-- stock, and nothing is written.
unfoldable pub written : Option Catalog → Option (Catalog × ℕ)
unfolding with_manual manual exit_code
written none = none
written (some k) = some (with_manual manual k, exit_code k.unresolved)

unfoldable pub main : Search → Option (Catalog × ℕ)
unfolding written with_needs requirements
main search = written (with_needs search requirements (record { unresolved = []; parts = [] }))

unfoldable pub mpn_of : Entry → Text
mpn_of (searched part) = part.mpn
mpn_of (by_hand part) = part.mpn

unfoldable pub has_mpn : Option Entry → Bool
unfolding mpn_of
has_mpn none = false
has_mpn (some e) = elim (mpn_of e) [ [] ↦ false | c ∷ s ↦ true ]

-- missing
unfoldable pub missing : List Text → Dict Entry → List Text
unfolding has_mpn lookup
missing [] parts = []
missing (v ∷ vs) parts = if has_mpn (lookup v parts) then missing vs parts else v ∷ missing vs parts

unfoldable pub check : Option Catalog → ℕ
unfolding missing exit_code keys requirements manual
check none = 1
check (some k) = exit_code (missing (keys requirements ++ keys manual) k.parts)
