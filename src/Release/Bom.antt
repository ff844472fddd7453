-- ===== src/Release/Bom.antt =====
-- The list of material, hardware/family/gen/bom.py.
use thermocouple.Prelude.{
  Bool, true, false, not, ◌&&◌, ◌||◌, Option, some, List, [], ◌∷◌, ◌++◌, Text, codes, decimal,
  text_eq, if◌then◌else◌, ◌==◌, length,
}
use thermocouple.Passives.{starts}
use thermocouple.Netlist.Lookup.{lookup}
use thermocouple.Netlist.Sort.{sort, text_leb, mem_text}
use thermocouple.Release.NetlistXml.{Comp, Root}
use thermocouple.Release.Order.{sort_by}
use thermocouple.Release.Roots.{or_empty, to_dict, option_eq}

-- s.split(":")[-1], with what was read since the last colon.
unfoldable pub after_colon : Text → Text → Text
after_colon done [] = done
after_colon done (c ∷ s) = if c == b':' then after_colon [] s else after_colon (done ++ (c ∷ [])) s

abbrev pub has_name : Text → Bool
has_name [] = false
has_name (c ∷ s) = true

-- BARE
unfoldable pub is_bare : Text → Bool
unfolding starts
is_bare ref = starts (codes "#") ref || (starts (codes "H") ref || starts (codes "TP") ref)

unfoldable pub footprint_name : Comp → Text
unfolding after_colon
footprint_name c = after_colon [] (or_empty c.footprint)

-- What is bought, or left empty.
unfoldable pub is_part : Comp → Bool
unfolding footprint_name is_bare
is_part c = has_name (footprint_name c) && not (is_bare c.ref)

unfoldable pub property_names : List (Text × Option Text) → List Text
property_names [] = []
property_names ((name, s) ∷ xs) = name ∷ property_names xs

unfoldable pub is_dnp : Comp → Bool
unfolding mem_text property_names
is_dnp c = mem_text (codes "dnp") (property_names c.properties)

-- The key of a line.
pub record Key : Type 0 where
  pub value : Option Text
  pub footprint : Text
  pub lcsc : Text
  pub mpn : Text

unfoldable pub key_of : Comp → Key
unfolding to_dict lookup footprint_name
key_of c =
    let fields = to_dict c.fields [] in
    record {
      value = c.value;
      footprint = footprint_name c;
      lcsc = or_empty (lookup (codes "LCSC") fields);
      mpn = or_empty (lookup (codes "MPN") fields);
    }

unfoldable pub key_eq : Key → Key → Bool
unfolding text_eq
key_eq j k =
    option_eq text_eq j.value k.value
    && (text_eq j.footprint k.footprint && (text_eq j.lcsc k.lcsc && text_eq j.mpn k.mpn))

-- lines[key].append(ref)
unfoldable pub add_to : Key → Text → List (Key × List Text) → List (Key × List Text)
unfolding key_eq
add_to key ref [] = (key, ref ∷ []) ∷ []
add_to key ref ((k, refs) ∷ lines) =
    if key_eq key k then (k, refs ++ (ref ∷ [])) ∷ lines else (k, refs) ∷ add_to key ref lines

-- `lines` and `dnp`
pub record Grouped : Type 0 where
  pub lines : List (Key × List Text)
  pub dnp : List Text

unfoldable pub group_one : Comp → Grouped → Grouped
unfolding is_part is_dnp add_to key_of
group_one c g =
    if not (is_part c)
    then g
    else if is_dnp c
    then record g { dnp = g.dnp ++ (c.ref ∷ []) }
    else record g { lines = add_to (key_of c) c.ref g.lines }

unfoldable pub group : List Comp → Grouped → Grouped
unfolding group_one
group [] g = g
group (c ∷ cs) g = group cs (group_one c g)

abbrev pub first_ref : List Text → Text
first_ref [] = []
first_ref (ref ∷ refs) = ref

unfoldable pub line_leb : Key × List Text → Key × List Text → Bool
unfolding text_leb
line_leb (j, refs) (k, others) = text_leb (first_ref refs) (first_ref others)

-- ",".join(...)
unfoldable pub joined : List Text → Text
joined [] = []
joined (s ∷ []) = s
joined (s ∷ t ∷ ts) = s ++ (b',' ∷ joined (t ∷ ts))

-- A row; a value that is missing is None.
abbrev pub Row : Type 0
Row = List (Option Text)

unfoldable pub row : Key × List Text → Row
unfolding joined sort decimal
row (key, refs) =
    key.value
    ∷ some (joined (sort refs))
    ∷ some key.footprint
    ∷ some key.lcsc
    ∷ some key.mpn
    ∷ some (decimal (length refs))
    ∷ []

-- HEADER
abbrev pub header : Row
header =
    some (codes "Comment")
    ∷ some (codes "Designator")
    ∷ some (codes "Footprint")
    ∷ some (codes "LCSC (reference)")
    ∷ some (codes "MPN")
    ∷ some (codes "Qty")
    ∷ []

unfoldable pub rows_of : List (Key × List Text) → List Row
unfolding row
rows_of [] = []
rows_of (line ∷ lines) = row line ∷ rows_of lines

unfoldable pub grouped : Root → Grouped
unfolding group
grouped root = group root.comps (record { lines = []; dnp = [] })

unfoldable pub sorted_lines : Root → List (Key × List Text)
unfolding sort_by line_leb grouped
sorted_lines root = sort_by line_leb (grouped root).lines

unfoldable pub grouped_bom : Root → List Row × List Text
unfolding rows_of sorted_lines grouped sort
grouped_bom root = (header ∷ rows_of (sorted_lines root), sort (grouped root).dnp)

-- " ".join(...)
unfoldable pub spaced : List Text → Text
spaced [] = []
spaced (s ∷ []) = s
spaced (s ∷ t ∷ ts) = s ++ (32 ∷ spaced (t ∷ ts))

abbrev pub names_or_none : List Text → Text
names_or_none [] = codes "none - every footprint is fitted"
names_or_none (s ∷ ss) = spaced (s ∷ ss)

-- The text of DNP.txt.
unfoldable pub dnp_text : List Text → Text
unfolding spaced
dnp_text dnp =
    codes "Footprints that stay empty on this order (please do not fit):\n"
    ++ (names_or_none dnp ++ (10 ∷ []))
