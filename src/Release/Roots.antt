-- ===== src/Release/Roots.antt =====
-- The parts and nets of two netlists compared, in hardware/family/gen/compare_release.py.
use thermocouple.Prelude.{
  Bool, true, false, not, ◌||◌, Option, none, some, List, [], ◌∷◌, ◌++◌, map, Text, codes, lower,
  text_eq, if◌then◌else◌, ◌==◌, leb, length, drop,
}
use thermocouple.Passives.{starts}
use thermocouple.Netlist.Lookup.{Dict, lookup, put, keys}
use thermocouple.Netlist.Sort.{sort, mem_text}
use thermocouple.Netlist.{missing, common}
use thermocouple.Release.NetlistXml.{Comp, Net, Root}
use thermocouple.Release.Order.{sort_by, Pair, pair_leb, pair_eq, nodes_leb, list_eq}

-- A value of a part's record.
pub data Value : Type 0 where
  text : Text → Value
  flag : Bool → Value

abbrev pub or_empty : Option Text → Text
or_empty none = []
or_empty (some s) = s

-- {x.attrib["name"]: x.text or "" ...}
unfoldable pub to_dict : List (Text × Option Text) → Dict Text → Dict Text
unfolding put
to_dict [] d = d
to_dict ((name, s) ∷ xs) d = to_dict xs (put name (or_empty s) d)

-- {f"field:{k}": v for k, v in fields.items()}
unfoldable pub with_fields : Dict Text → Dict Value → Dict Value
unfolding put
with_fields [] r = r
with_fields ((k, v) ∷ fields) r = with_fields fields (put (codes "field:" ++ k) (text v) r)

unfoldable pub is_no : Text → Bool
unfolding text_eq
is_no s = text_eq s (codes "no") || (text_eq s (codes "false") || text_eq s (codes "0"))

unfoldable pub is_set : Option Text → Bool
unfolding is_no lower
is_set none = false
is_set (some s) = not (is_no (map lower s))

unfoldable pub record_of : Comp → Dict Value
unfolding with_fields to_dict put lookup is_set
record_of c =
    let props = to_dict c.properties [] in
    let r0 = with_fields (to_dict c.fields []) [] in
    let r1 = put (codes "value") (text (or_empty c.value)) r0 in
    let r2 = put (codes "footprint") (text (or_empty c.footprint)) r1 in
    let r3 = put (codes "description") (text (or_empty c.description)) r2 in
    let r4 = put (codes "datasheet") (text (or_empty c.datasheet)) r3 in
    let r5 = put (codes "dnp") (flag (is_set (lookup (codes "dnp") props))) r4 in
    let r6 =
      put (codes "exclude_from_bom") (flag (is_set (lookup (codes "exclude_from_bom") props))) r5 in
    let r7 =
      put (codes "exclude_from_board") (flag (is_set (lookup (codes "exclude_from_board") props)))
        r6 in
    put (codes "exclude_from_sim") (flag (is_set (lookup (codes "exclude_from_sim") props))) r7

-- The ValueErrors of `components` and `top_schematic`, the one of `compare_release`, and the errors of
-- the export and of the XML reader.
pub data Failure : Type 0 where
  duplicate_component duplicate_field : Text → Failure
  inside_release no_root not_exported not_parsed : Failure

pub data Checked {ℓ} (A : Type ℓ) : Type ℓ where
  checked : A → Checked A
  failed : Failure → Checked A

abbrev pub and_then {ℓ κ} : {A : Type ℓ} {B : Type κ} → Checked A → (A → Checked B) → Checked B
and_then (checked a) f = f a
and_then (failed e) f = failed e

unfoldable pub add_component : Comp → Dict (Dict Value) → Checked (Dict (Dict Value))
unfolding mem_text keys to_dict put record_of
add_component c result =
    if mem_text c.ref (keys result)
    then failed (duplicate_component c.ref)
    else if not (length (to_dict c.fields []) == length c.fields)
    then failed (duplicate_field c.ref)
    else checked (put c.ref (record_of c) result)

unfoldable pub components_from : List Comp → Dict (Dict Value) → Checked (Dict (Dict Value))
unfolding add_component
components_from [] result = checked result
components_from (c ∷ cs) result = and_then (add_component c result) (components_from cs)

unfoldable pub components : Root → Checked (Dict (Dict Value))
unfolding components_from
components root = components_from root.comps []

-- {s.get("name") for s in ... if s.get("name")}
unfoldable pub given : List (Option Text) → List Text
given [] = []
given (none ∷ xs) = given xs
given (some [] ∷ xs) = given xs
given (some (c ∷ s) ∷ xs) = (c ∷ s) ∷ given xs

abbrev pub longer_first : Text → Text → Bool
longer_first s t = leb (length t) (length s)

-- The prefixes, the longer first; two of one length that start a name are the same.
unfoldable pub prefixes : Root → List Text
unfolding given sort_by
prefixes root =
    sort_by longer_first (given root.sheets ++ (given root.sheetpaths ++ (codes "/" ∷ [])))

unfoldable pub without_prefix : List Text → Text → Text
unfolding starts
without_prefix [] name = name
without_prefix (p ∷ ps) name =
    if starts p name then drop (length p) name else without_prefix ps name

-- The name without the prefix of its sheet.
unfoldable pub local_name : List Text → Text → Text
unfolding without_prefix starts
local_name ps name = if starts (codes "/") name then without_prefix ps name else name

unfoldable pub common_name : Text → Text
unfolding starts
common_name name = if starts (codes "unconnected-") name then codes "<unconnected>" else name

abbrev pub or_none {ℓ} : {A : Type ℓ} → Option (List A) → List A
or_none none = []
or_none (some xs) = xs

-- result[name].append(nodes) for each net.
unfoldable pub nets_from : List Text → List Net → Dict (List (List Pair)) → Dict (List (List Pair))
unfolding put lookup local_name common_name sort_by pair_leb
nets_from ps [] result = result
nets_from ps (n ∷ ns) result =
    let name = common_name (local_name ps n.name) in
    nets_from ps ns
      (put name (or_none (lookup name result) ++ (sort_by pair_leb n.nodes ∷ [])) result)

unfoldable pub sorted_values : Dict (List (List Pair)) → Dict (List (List Pair))
unfolding sort_by nodes_leb
sorted_values [] = []
sorted_values ((k, v) ∷ d) = (k, sort_by nodes_leb v) ∷ sorted_values d

unfoldable pub nets : Root → Dict (List (List Pair))
unfolding nets_from sorted_values prefixes
nets root = sorted_values (nets_from (prefixes root) root.nets [])

-- The messages.
pub data Diff : Type 0 where
  component_missing component_extra : Text → Diff
  component_differs : Text → Text → Option Value → Option Value → Diff
  net_differs : Text → Option (List (List Pair)) → Option (List (List Pair)) → Diff

unfoldable pub value_eq : Value → Value → Bool
unfolding text_eq
value_eq (text s) (text t) = text_eq s t
value_eq (flag true) (flag true) = true
value_eq (flag false) (flag false) = true
value_eq _ _ = false

unfoldable pub net_eq : List (List Pair) → List (List Pair) → Bool
unfolding list_eq pair_eq
net_eq = list_eq (list_eq pair_eq)

abbrev pub option_eq {ℓ} : {V : Type ℓ} → (V → V → Bool) → Option V → Option V → Bool
option_eq eq none none = true
option_eq eq none (some b) = false
option_eq eq (some a) none = false
option_eq eq (some a) (some b) = eq a b

module _ {ℓ κ} {V : Type ℓ} {M : Type κ} where
  unfoldable pub differing : (V → V → Bool) → (Text → M) → Dict V → Dict V → List Text → List M
  unfolding lookup
  differing eq message a e [] = []
  differing eq message a e (k ∷ ks) =
      if option_eq eq (lookup k a) (lookup k e)
      then differing eq message a e ks
      else message k ∷ differing eq message a e ks

  -- The loop over sorted(a.keys() | e.keys()).
  unfoldable pub union_diffs : (V → V → Bool) → (Text → M) → Dict V → Dict V → List M
  unfolding differing sort missing keys
  union_diffs eq message a e = differing eq message a e (sort (keys a ++ missing (keys e) (keys a)))

unfoldable pub part_diffs : Text → Option (Dict Value) → Option (Dict Value) → List Diff
unfolding union_diffs value_eq lookup
part_diffs ref (some a) (some e) =
    union_diffs value_eq (λ key. component_differs ref key (lookup key e) (lookup key a)) a e
part_diffs ref _ _ = []

unfoldable pub common_diffs : Dict (Dict Value) → Dict (Dict Value) → List Text → List Diff
unfolding part_diffs lookup
common_diffs a e [] = []
common_diffs a e (ref ∷ refs) =
    part_diffs ref (lookup ref a) (lookup ref e) ++ common_diffs a e refs

unfoldable pub diffs_of :
    Dict (Dict Value)
    → Dict (Dict Value)
    → Dict (List (List Pair))
    → Dict (List (List Pair))
    → List Diff
unfolding sort missing common keys common_diffs union_diffs net_eq lookup
diffs_of a e an en =
    map component_missing (sort (missing (keys e) (keys a)))
    ++ (map component_extra (sort (missing (keys a) (keys e)))
        ++ (common_diffs a e (sort (common (keys a) (keys e)))
            ++ union_diffs net_eq (λ name. net_differs name (lookup name en) (lookup name an)) an
                en))

unfoldable pub compare_roots : Root → Root → Checked (List Diff)
unfolding components nets diffs_of
compare_roots actual expected =
    and_then (components actual)
      λ a. and_then (components expected) λ e. checked (diffs_of a e (nets actual) (nets expected))
