-- ===== src/PartNumbers.antt =====
-- Part numbers against values (hardware/8ch-old/check_mpn_consistency.py): the symbols of the sheets
-- of the first 8-channel board and the catalog of its passives.
pub mod Symbols
pub mod Consistent
mod Tests
use thermocouple.Prelude.{
  ℕ, zero, suc, ◌+◌, Bool, true, false, not, ◌&&◌, ◌||◌, Option, none, some, List, [], ◌∷◌, ◌++◌,
  Text, codes, text_eq, is_digit, if◌then◌else◌, ◌==◌, leb, length, drop,
}
use thermocouple.Netlist.Lookup.{Dict, lookup, put}
use thermocouple.Netlist.Sort.{text_leb}
use thermocouple.Passives.{starts}
use thermocouple.Rules.Glob.{before}
use thermocouple.Release.Order.{sort_by}

-- An entry of the catalog.
pub record Entry : Type 0 where
  pub mpn : Option Text
  pub manufacturer : Option Text
  pub lcsc : Option Text

abbrev pub or_empty : Option Text → Text
or_empty none = []
or_empty (some s) = s

abbrev pub quote : ℕ
quote = 34

-- [A-Z#]+\d+ up to the quote, with what was read; `digits` once the first digit was.
unfoldable pub ref_from : Bool → Text → Text → Option Text
unfolding is_digit
ref_from digits done [] = none
ref_from digits done (c ∷ s) =
    let number = ref_from true (done ++ (c ∷ [])) s in
    let letter = ref_from false (done ++ (c ∷ [])) s in
    if c == quote
    then if digits then some done else none
    else if is_digit c
    then elim done [ [] ↦ none | a ∷ d ↦ number ]
    else if not digits && (c == b'#' || (leb b'A' c && leb c b'Z'))
    then letter
    else none

abbrev pub reference : Text
reference = codes "\n\t\t(property \"Reference\" \""

-- The reference, where the pattern matches at the front.
unfoldable pub ref_at : Text → Option Text
unfolding starts ref_from
ref_at s = if starts reference s then ref_from false [] (drop (length reference) s) else none

abbrev pub Block : Type 0
Block = Text × Text

unfoldable pub begin_block : Option Text → ℕ → Text × List Block → Text × List Block
begin_block none c (head, blocks) = (c ∷ head, blocks)
begin_block (some ref) c (head, blocks) = ([], (ref, c ∷ head) ∷ blocks)

-- The text before the first symbol, and each symbol's reference with its text up to the next.
unfoldable pub blocks_of : Text → Text × List Block
unfolding begin_block ref_at
blocks_of [] = ([], [])
blocks_of (c ∷ s) = begin_block (ref_at (c ∷ s)) c (blocks_of s)

abbrev pub property_start : Text → Text
property_start key = codes "(property \"" ++ (key ++ codes "\" \"")

-- The value that the pattern finds at the front, and what follows it.
unfoldable pub value_at : Text → Text → Option (Text × Text)
unfolding starts before
value_at start s = if starts start s then before quote (drop (length start) s) else none

-- re.search
unfoldable pub search : Text → Text → Option Text
unfolding value_at
search start [] = none
search start (c ∷ s) = elim (value_at start (c ∷ s)) [
  | none ↦ search start s
  | some (v, more) ↦ some v
]

unfoldable pub field : Text → Text → Text
unfolding search
field key block = or_empty (search (property_start key) block)

-- A symbol whose part number does not match, and one that is not in the catalog.
pub record Bad : Type 0 where
  pub ref : Text
  pub value : Text
  pub mpn : Text
  pub lcsc : Text
  pub want_mpn : Text
  pub want_lcsc : Text
  pub sheet : Text

pub record Found : Type 0 where
  pub bad : List Bad
  pub unchecked : List (Text × Text × Text)
  pub ok : ℕ

unfoldable pub is_skipped : Text → Bool
unfolding starts
is_skipped ref = starts (codes "#") ref || starts (codes "TP") ref

abbrev pub is_empty : Text → Bool
is_empty [] = true
is_empty (c ∷ s) = false

unfoldable pub agrees : Text → Text → Text → Text → Bool
unfolding text_eq
agrees mpn lcsc want_mpn want_lcsc =
    text_eq mpn want_mpn && (is_empty want_lcsc || text_eq lcsc want_lcsc)

unfoldable pub check_entry : Text → Text → Text → Text → ℕ → Option Entry → Found → Found
unfolding agrees field
check_entry name ref value block count none found = record found {
  unchecked = found.unchecked ++ ((ref, value, name) ∷ []);
}
check_entry name ref value block count (some entry) found =
    let mpn = field (codes "MPN") block in
    let lcsc = field (codes "LCSC") block in
    if agrees mpn lcsc (or_empty entry.mpn) (or_empty entry.lcsc)
    then record found { ok = found.ok + count }
    else record found {
      bad =
          found.bad
          ++ (record {
            ref = ref;
            value = value;
            mpn = mpn;
            lcsc = lcsc;
            want_mpn = or_empty entry.mpn;
            want_lcsc = or_empty entry.lcsc;
            sheet = name;
          }
              ∷ []);
    }

unfoldable pub check_block : Dict Entry → Text → ℕ → Block → Found → Found
unfolding is_skipped check_entry field lookup
check_block catalog name count (ref, block) found =
    let value = field (codes "Value") block in
    if is_skipped ref
    then found
    else check_entry name ref value block count (lookup value catalog) found

unfoldable pub check_blocks : Dict Entry → Text → ℕ → List Block → Found → Found
unfolding check_block
check_blocks catalog name count [] found = found
check_blocks catalog name count (b ∷ bs) found =
    check_blocks catalog name count bs (check_block catalog name count b found)

-- The schematic files, by name.
abbrev pub Files : Type 0
Files = Text → Option Text

-- A sheet: its name, its text and how often the root uses it.
abbrev pub Sheet : Type 0
Sheet = Text × Text × ℕ

abbrev pub or_zero : Option ℕ → ℕ
or_zero none = 0
or_zero (some n) = n

abbrev pub sheetfile : Text
sheetfile = property_start (codes "Sheetfile")

-- re.findall of [^"]+ after the start of the property; `skip` counts the characters that a match has
-- taken.
unfoldable pub uses_of : ℕ → Text → Dict ℕ → Dict ℕ
unfolding value_at put lookup
uses_of skip [] uses = uses
uses_of (suc skip) (c ∷ s) uses = uses_of skip s uses
uses_of zero (c ∷ s) uses = elim (value_at sheetfile (c ∷ s)) [
  | none ↦ uses_of zero s uses
  | some ([], more) ↦ uses_of zero s uses
  | some (a ∷ name, more) ↦
      uses_of (length sheetfile + length (a ∷ name)) s
        (put (a ∷ name) (or_zero (lookup (a ∷ name) uses) + 1) uses)
]

abbrev pub name_leb : Text × ℕ → Text × ℕ → Bool
name_leb (a, m) (b, n) = text_leb a b

-- A list of sheets, or the name of a file that does not exist.
pub data Read {ℓ} (A : Type ℓ) : Type ℓ where
  read : A → Read A
  no_file : Text → Read A

abbrev pub and_then {ℓ κ} : {A : Type ℓ} {B : Type κ} → Read A → (A → Read B) → Read B
and_then (read a) f = f a
and_then (no_file name) f = no_file name

unfoldable pub used_sheets : Files → List (Text × ℕ) → Read (List Sheet)
used_sheets files [] = read []
used_sheets files ((name, count) ∷ uses) = elim (files name) [
  | none ↦ no_file name
  | some s ↦ and_then (used_sheets files uses) λ rest. read ((name, s, count) ∷ rest)
]

-- SCH
abbrev pub root_name : Text
root_name = codes "thermocouple_8ch.kicad_sch"

unfoldable pub sheets_of : Files → Option Text → Read (List Sheet)
unfolding used_sheets sort_by uses_of text_leb
sheets_of files none = no_file root_name
sheets_of files (some root) =
    and_then (used_sheets files (sort_by name_leb (uses_of 0 root [])))
      λ rest. read ((root_name, root, 1) ∷ rest)

unfoldable pub sheets : Files → Read (List Sheet)
unfolding sheets_of
sheets files = sheets_of files (files root_name)

unfoldable pub check_sheets : Dict Entry → List Sheet → Found → Found
unfolding check_blocks blocks_of
check_sheets catalog [] found = found
check_sheets catalog ((name, s, count) ∷ rest) found =
    check_sheets catalog rest (check_blocks catalog name count (blocks_of s).1 found)

abbrev pub nothing_found : Found
nothing_found = record { bad = []; unchecked = []; ok = 0 }

-- The exit code; a file that does not exist ends the program with 1.
abbrev pub exit_of : List Bad → ℕ
exit_of [] = 0
exit_of (b ∷ bs) = 1

unfoldable pub report : Read Found → ℕ
report (no_file name) = 1
report (read found) = exit_of found.bad

unfoldable pub main : Dict Entry → Files → ℕ
unfolding report sheets check_sheets
main catalog files =
    report (and_then (sheets files) λ ss. read (check_sheets catalog ss nothing_found))

-- re.sub with count=1: the first value after the start is replaced.
unfoldable pub replace : Text → Text → Text → Text
unfolding value_at
replace start v [] = []
replace start v (c ∷ s) = elim (value_at start (c ∷ s)) [
  | none ↦ c ∷ replace start v s
  | some (old, more) ↦ start ++ (v ++ (quote ∷ more))
]

unfoldable pub set_field : Text → Text → Text → Text
unfolding replace
set_field key [] block = block
set_field key (c ∷ v) block = replace (property_start key) (c ∷ v) block

unfoldable pub fix_entry : Option Entry → Text → Text
unfolding set_field
fix_entry none block = block
fix_entry (some entry) block =
    if is_empty (or_empty entry.mpn)
    then block
    else set_field (codes "LCSC") (or_empty entry.lcsc) (
        set_field (codes "Manufacturer") (or_empty entry.manufacturer)
          (set_field (codes "MPN") (or_empty entry.mpn) block))

unfoldable pub fix_value : Dict Entry → Option Text → Text → Text
unfolding fix_entry lookup
fix_value catalog none block = block
fix_value catalog (some value) block = fix_entry (lookup value catalog) block

unfoldable pub fix_block : Dict Entry → Block → Text
unfolding is_skipped fix_value search
fix_block catalog (ref, block) =
    if is_skipped ref
    then block
    else fix_value catalog (search (property_start (codes "Value")) block) block

unfoldable pub fix_blocks : Dict Entry → List Block → Text
unfolding fix_block
fix_blocks catalog [] = []
fix_blocks catalog (b ∷ bs) = fix_block catalog b ++ fix_blocks catalog bs

-- The text that fix_sheet writes.
unfoldable pub fix_sheet : Dict Entry → Text → Text
unfolding blocks_of fix_blocks
fix_sheet catalog s = (blocks_of s).0 ++ fix_blocks catalog (blocks_of s).1
