-- ===== src/Release/Count.antt =====
-- Which parts stand on the list of material of hardware/family/gen/bom.py.
use thermocouple.Prelude.{
  ℕ, ◌+◌, ◌≡◌, refl, ◌∙◌, List, [], ◌∷◌, ◌++◌, Text, text_eq, if◌then◌else◌, Bool-cases, inl, inr,
  ap, map, some, codes, decimal, length, Bool, not, ◌&&◌, ◌||◌, true, arith, any, text_eq→≡,
  &&-true, Option,
}
use thermocouple.Netlist.Sort.{sort, insert, text_leb, mem_text}
use thermocouple.Release.NetlistXml.{Comp, Root}
use thermocouple.Release.Order.{insert_by, sort_by}
use thermocouple.Release.Bom.{
  Key, key_eq, key_of, add_to, Grouped, group_one, group, grouped, line_leb, sorted_lines, is_part,
  is_dnp, is_bare, property_names, footprint_name, grouped_bom, has_name, after_colon, joined, Row,
  row, rows_of, header,
}
use thermocouple.Passives.{starts}
use thermocouple.Release.Roots.{or_empty, option_eq}
use thermocouple.Release.Differences.{option_Decides, text_Decides}

-- How often the text stands in the list.
unfoldable pub count : Text → List Text → ℕ
unfolding text_eq
count s [] = 0
count s (t ∷ ts) = (if text_eq s t then 1 else 0) + count s ts

-- The parts of the lines with the key.
unfoldable pub listed : Key → List (Key × List Text) → List Text
unfolding key_eq
listed key [] = []
listed key ((k, refs) ∷ lines) = if key_eq key k then refs ++ listed key lines else listed key lines

-- The part has a footprint, and its reference does not begin with #, H or TP.
unfoldable pub has_place : Comp → Bool
unfolding starts after_colon
has_place c =
    has_name (after_colon [] (or_empty c.footprint))
    && not (starts (codes "#") c.ref || (starts (codes "H") c.ref || starts (codes "TP") c.ref))

-- A property of the part is named dnp.
unfoldable pub stays_empty : Comp → Bool
unfolding any text_eq
stays_empty c = any (λ (name, s). text_eq (codes "dnp") name) c.properties

-- The parts that are to be bought as what the key tells.
unfoldable pub bought : Key → List Comp → List Text
unfolding has_place stays_empty key_eq key_of
bought key [] = []
bought key (c ∷ cs) =
    let rest = bought key cs in
    if has_place c && (not (stays_empty c) && key_eq key (key_of c)) then c.ref ∷ rest else rest

-- The parts that are left empty.
unfoldable pub left_empty : List Comp → List Text
unfolding has_place stays_empty
left_empty [] = []
left_empty (c ∷ cs) =
    let rest = left_empty cs in if has_place c && stays_empty c then c.ref ∷ rest else rest

-- A row tells of a line: its parts in order, separated by commas, and how many they are.
unfoldable pub told : Key × List Text → Row
unfolding joined sort decimal
told (key, refs) =
    key.value
    ∷ some (joined (sort refs))
    ∷ some key.footprint
    ∷ some key.lcsc
    ∷ some key.mpn
    ∷ some (decimal (length refs))
    ∷ []

count-append : (s : Text) (xs ys : List Text) → count s (xs ++ ys) ≡ count s xs + count s ys
unfolding count
count-append s [] ys = omega arith
count-append s (x ∷ xs) ys = omega (arith, count-append s xs ys)

count-insert : (s t : Text) (xs : List Text) → count s (insert t xs) ≡ count s (t ∷ xs)
unfolding count insert
count-insert s t [] = refl
count-insert s t (x ∷ xs) = elim (Bool-cases (text_leb t x)) [
  | inl first ↦ rw first refl
  | inr later ↦ rw later (omega (arith, count-insert s t xs))
]

count-sort : (s : Text) (xs : List Text) → count s (sort xs) ≡ count s xs
unfolding count sort
count-sort s [] = refl
count-sort s (x ∷ xs) = count-insert s x (sort xs) ∙ rw (count, count-sort s xs) refl

key_eq→≡ : (j k : Key) → key_eq j k ≡ true → j ≡ k
unfolding key_eq
key_eq→≡ j k h =
    let (value, more) =
      &&-true (option_eq text_eq j.value k.value)
        (text_eq j.footprint k.footprint && (text_eq j.lcsc k.lcsc && text_eq j.mpn k.mpn)) h in
    let (footprint, more') =
      &&-true (text_eq j.footprint k.footprint) (text_eq j.lcsc k.lcsc && text_eq j.mpn k.mpn)
        more in
    let (lcsc, mpn) = &&-true (text_eq j.lcsc k.lcsc) (text_eq j.mpn k.mpn) more' in
    let same_value = (option_Decides text_eq text_Decides).sound j.value k.value value in
    λ i. record {
      value = same_value i;
      footprint = text_eq→≡ j.footprint k.footprint footprint i;
      lcsc = text_eq→≡ j.lcsc k.lcsc lcsc i;
      mpn = text_eq→≡ j.mpn k.mpn mpn i;
    }

-- What a line with key `k` adds to those with `key`.
share : Text → Key → Key → List Text → ℕ
share s key k refs = if key_eq key k then count s refs else 0

count-listed :
    (s : Text) (key k : Key) (refs : List Text) (lines : List (Key × List Text))
    → count s (listed key ((k, refs) ∷ lines)) ≡ share s key k refs + count s (listed key lines)
unfolding listed share
count-listed s key k refs lines = elim (Bool-cases (key_eq key k)) [
  | inl same ↦ rw same (count-append s refs (listed key lines))
  | inr other ↦ rw other (omega arith)
]

share-append :
    (s : Text) (key k : Key) (xs ys : List Text)
    → share s key k (xs ++ ys) ≡ share s key k xs + share s key k ys
unfolding share
share-append s key k xs ys = elim (Bool-cases (key_eq key k)) [
  | inl same ↦ rw same (count-append s xs ys)
  | inr other ↦ rw other (omega arith)
]

count-add_to :
    (s : Text) (key k : Key) (ref : Text) (lines : List (Key × List Text))
    → count s (listed key (add_to k ref lines))
      ≡ share s key k (ref ∷ []) + count s (listed key lines)
unfolding add_to
count-add_to s key k ref [] = count-listed s key k (ref ∷ []) []
count-add_to s key k ref ((j, refs) ∷ lines) = elim (Bool-cases (key_eq k j)) [
  | inl same ↦
      let e : share s key k (ref ∷ []) ≡ share s key j (ref ∷ []) =
        ap (λ (t : Key). share s key t (ref ∷ [])) (key_eq→≡ k j same) in
      rw same (
        omega (
          arith,
          e,
          count-listed s key j (refs ++ (ref ∷ [])) lines,
          count-listed s key j refs lines,
          share-append s key j refs (ref ∷ []),
        ))
  | inr other ↦ rw other (
      omega (
        arith,
        count-listed s key j refs (add_to k ref lines),
        count-listed s key j refs lines,
        count-add_to s key k ref lines,
      ))
]

count-insert_by :
    (s : Text) (key : Key) (line : Key × List Text) (lines : List (Key × List Text))
    → count s (listed key (insert_by line_leb line lines)) ≡ count s (listed key (line ∷ lines))
unfolding insert_by
count-insert_by s key line [] = refl
count-insert_by s key (k, refs) ((j, others) ∷ lines) =
    elim (Bool-cases (line_leb (k, refs) (j, others))) [
      | inl first ↦ rw first refl
      | inr later ↦ rw later (
          omega (
            arith,
            count-listed s key j others (insert_by line_leb (k, refs) lines),
            count-insert_by s key (k, refs) lines,
            count-listed s key k refs lines,
            count-listed s key k refs ((j, others) ∷ lines),
            count-listed s key j others lines,
          ))
    ]

count-sort_by :
    (s : Text) (key : Key) (lines : List (Key × List Text))
    → count s (listed key (sort_by line_leb lines)) ≡ count s (listed key lines)
unfolding sort_by
count-sort_by s key [] = refl
count-sort_by s key ((k, refs) ∷ lines) =
    count-insert_by s key (k, refs) (sort_by line_leb lines)
    ∙ omega (
      arith,
      count-listed s key k refs (sort_by line_leb lines),
      count-listed s key k refs lines,
      count-sort_by s key lines,
    )

any_dnp :
    (xs : List (Text × Option Text))
    → mem_text (codes "dnp") (property_names xs) ≡ any (λ (name, s). text_eq (codes "dnp") name) xs
unfolding mem_text property_names any
any_dnp [] = refl
any_dnp ((name, s) ∷ xs) = ap (λ b. text_eq (codes "dnp") name || b) (any_dnp xs)

is_dnp_lem : (c : Comp) → is_dnp c ≡ stays_empty c
unfolding is_dnp stays_empty
is_dnp_lem c = any_dnp c.properties

-- One part, by where it stands.
bought_one :
    (s : Text) (key : Key) (c : Comp) (cs : List Comp) (g : Grouped)
    → count s (listed key (group_one c g).lines) + count s (bought key cs)
      ≡ count s (listed key g.lines) + count s (bought key (c ∷ cs))
unfolding group_one bought has_place count is_part is_bare footprint_name share
bought_one s key c cs g = elim (Bool-cases (has_place c)) [
  | inr bare ↦ rw bare refl
  | inl part ↦ elim (Bool-cases (stays_empty c)) [
    | inl empty ↦ rw (part, is_dnp_lem c, empty) refl
    | inr fitted ↦ elim (Bool-cases (key_eq key (key_of c))) [
      | inl same ↦
          let more = count-add_to s key (key_of c) c.ref g.lines in
          rw (part, is_dnp_lem c, fitted, same) (omega (arith, rw same at more))
      | inr other ↦
          let more = count-add_to s key (key_of c) c.ref g.lines in
          rw (part, is_dnp_lem c, fitted, other) (omega (arith, rw other at more))
    ]
  ]
]

empty_one :
    (s : Text) (c : Comp) (cs : List Comp) (g : Grouped)
    → count s (group_one c g).dnp + count s (left_empty cs)
      ≡ count s g.dnp + count s (left_empty (c ∷ cs))
unfolding group_one left_empty has_place count is_part is_bare footprint_name
empty_one s c cs g = elim (Bool-cases (has_place c)) [
  | inr bare ↦ rw bare refl
  | inl part ↦ elim (Bool-cases (stays_empty c)) [
    | inl empty ↦ rw (part, is_dnp_lem c, empty) (omega (arith, count-append s g.dnp (c.ref ∷ [])))
    | inr fitted ↦ rw (part, is_dnp_lem c, fitted) refl
  ]
]

group-bought :
    (s : Text) (key : Key) (cs : List Comp) (g : Grouped)
    → count s (listed key (group cs g).lines)
      ≡ count s (listed key g.lines) + count s (bought key cs)
unfolding group bought count
group-bought s key [] g = omega arith
group-bought s key (c ∷ cs) g = group-bought s key cs (group_one c g) ∙ bought_one s key c cs g

group-empty :
    (s : Text) (cs : List Comp) (g : Grouped)
    → count s (group cs g).dnp ≡ count s g.dnp + count s (left_empty cs)
unfolding group left_empty count
group-empty s [] g = omega arith
group-empty s (c ∷ cs) g = group-empty s cs (group_one c g) ∙ empty_one s c cs g

rows_of-told : (lines : List (Key × List Text)) → rows_of lines ≡ map told lines
unfolding rows_of row told
rows_of-told [] = refl
rows_of-told (line ∷ lines) = ap (λ t. told line ∷ t) (rows_of-told lines)

-- The rows of the list of material, after its header, tell of lines of parts. A part with a footprint
-- whose reference does not begin with #, H or TP is left empty where a property of it is named dnp, and
-- bought otherwise: each stands as often on the lines with its value, footprint and numbers, or among
-- the places that stay empty, as in the netlist, and nothing else does.
pub grouped_bom-count :
    (root : Root)
    → (lines : List (Key × List Text)) × ((grouped_bom root).0 ≡ header ∷ map told lines)
      × ((key : Key) (ref : Text)
          → count ref (listed key lines) ≡ count ref (bought key root.comps))
      × ((ref : Text) → count ref (grouped_bom root).1 ≡ count ref (left_empty root.comps))
unfolding sorted_lines grouped_bom grouped listed count
grouped_bom-count root =
    let start : Grouped = record { lines = []; dnp = [] } in
    let g : Grouped = group root.comps start in
    (
      sort_by line_leb g.lines,
      ap (λ t. header ∷ t) (rows_of-told (sort_by line_leb g.lines)),
      (λ key ref.
          omega (arith, count-sort_by ref key g.lines, group-bought ref key root.comps start)),
      λ ref. omega (arith, count-sort ref g.dnp, group-empty ref root.comps start),
    )
