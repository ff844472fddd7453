-- ===== src/Rules/Project.antt =====
-- Reading the project and its rules in hardware/family/tools/text_rules.py. Lengths are in
-- nanometres: a number of millimetres is read up to its sixth decimal.
use thermocouple.Prelude.{
  ℕ, zero, suc, ◌+◌, ◌*◌, ◌-◌, Bool, true, false, ◌&&◌, ◌||◌, Option, none, some, List, [], ◌∷◌,
  ◌++◌, Text, codes, all, is_digit, text_eq, if◌then◌else◌, ◌==◌, length, max, take, drop,
  replicate,
}
use thermocouple.Netlist.Lookup.{Dict, lookup, put}
use thermocouple.Netlist.Sort.{mem_text}
use thermocouple.TextSexp.{
  Node, Nodes, text, list, nil, cons, children, child, val, Parsed, parsed, parse,
}
use thermocouple.Rules.Syntax.{Tree, Wrong, ok, fails, out_of_fuel}
use thermocouple.Rules.Parse.{condition}
use thermocouple.Rules.Scan.{apostrophe}
use thermocouple.Rules.Glob.{before}

pub record NetClass : Type 0 where
  pub name : Text
  pub clearance : Option ℕ
  pub priority : Option ℕ

-- An entry of netclass_patterns.
pub record Pattern : Type 0 where
  pub netclass : Text
  pub pattern_text : Text

-- One class or a list of classes.
pub data Assigned : Type 0 where
  one_class : Text → Assigned
  classes : List Text → Assigned

-- What the project file sets.
pub record Settings : Type 0 where
  pub classes_listed : List NetClass
  pub patterns : List Pattern
  pub assignments : Dict Assigned
  pub min_clearance : Option ℕ

-- (name, minimum, condition)
pub record Rule : Type 0 where
  pub name : Node
  pub minimum : ℕ
  pub condition : Tree

pub record Rules : Type 0 where
  pub classes : Dict NetClass
  pub patterns : List Pattern
  pub assignments : Dict Assigned
  pub min_clearance : Option ℕ
  pub rules : List Rule
  pub ignored : List (Node × Node)
  pub courtyards : List Text
  pub maximum : ℕ

-- What __init__ raises: its ValueErrors, those of the reader and of a condition, and the IndexError
-- or TypeError of a rule that lacks an entry or has a list where a text must stand.
pub data Refused : Type 0 where
  no_default bad_rules qualified bad_minimum malformed no_fuel : Refused
  bad_condition : Wrong → Refused

pub data Loaded {ℓ} (A : Type ℓ) : Type ℓ where
  loaded : A → Loaded A
  refused : Refused → Loaded A

module _ {ℓ κ} {A : Type ℓ} {B : Type κ} where
  abbrev pub and_then : Loaded A → (A → Loaded B) → Loaded B
  and_then (loaded a) f = f a
  and_then (refused e) f = refused e

abbrev pub or_zero : Option ℕ → ℕ
or_zero none = 0
or_zero (some n) = n

-- {c['name']: c for c in ...}
unfoldable pub by_name : List NetClass → Dict NetClass → Dict NetClass
unfolding put
by_name [] d = d
by_name (c ∷ cs) d = by_name cs (put c.name c d)

-- number.removesuffix('mm')
unfoldable pub without_unit : Text → Text
unfolding text_eq
without_unit s = if text_eq (drop (length s - 2) s) (codes "mm") then take (length s - 2) s else s

-- int(...) of digits
unfoldable pub value_of : ℕ → Text → ℕ
value_of n [] = n
value_of n (c ∷ s) = value_of (n * 10 + (c - b'0')) s

unfoldable pub is_digits : Text → Bool
unfolding all is_digit
is_digits [] = false
is_digits (c ∷ s) = all is_digit (c ∷ s)

-- The digits before and after the point; `none` where the pattern of a minimum does not match.
unfoldable pub split_number : Text → Option (Text × Text) → Option (Text × Text)
unfolding is_digits all is_digit
split_number s none = if is_digits s then some (s, []) else none
split_number s (some (whole, part)) =
    if all is_digit whole && is_digits part then some (whole, part) else none

unfoldable pub nanometres : Option (Text × Text) → Option ℕ
unfolding value_of
nanometres none = none
nanometres (some (whole, part)) =
    some (value_of 0 whole * 1000000 + value_of 0 (take 6 (part ++ replicate 6 b'0')))

-- The minimum of a constraint; the text of a list is no number.
unfoldable pub minimum_of : Node → Loaded ℕ
unfolding nanometres split_number without_unit before
minimum_of (list xs) = refused bad_minimum
minimum_of (text s) =
    let number = without_unit s in
    elim (nanometres (split_number number (before b'.' number))) [
      | none ↦ refused bad_minimum
      | some n ↦ loaded n
    ]

abbrev pub courtyard_call : Text
courtyard_call = codes "intersectsCourtyard('"

-- The name that a match of the pattern for a courtyard finds at the front.
unfoldable pub quoted_name : Option (Text × Text) → Option Text
quoted_name none = none
quoted_name (some ([], more)) = none
quoted_name (some (c ∷ s, [])) = none
quoted_name (some (c ∷ s, d ∷ more)) = if d == b')' then some (c ∷ s) else none

unfoldable pub courtyard_at : Text → Option Text
unfolding text_eq quoted_name before
courtyard_at s =
    if text_eq (take 21 s) courtyard_call then quoted_name (before apostrophe (drop 21 s)) else none

-- re.findall; `skip` counts the characters that a match has taken.
unfoldable pub courtyards_in : ℕ → Text → List Text
unfolding courtyard_at
courtyards_in skip [] = []
courtyards_in (suc skip) (c ∷ s) = courtyards_in skip s
courtyards_in zero (c ∷ s) = elim (courtyard_at (c ∷ s)) [
  | none ↦ courtyards_in zero s
  | some found ↦ found ∷ courtyards_in (length found + 22) s
]

-- set.update
unfoldable pub add_all : List Text → List Text → List Text
unfolding mem_text
add_all [] set = set
add_all (x ∷ xs) set = add_all xs (if mem_text x set then set else set ++ (x ∷ []))

abbrev pub is_some {ℓ} : {A : Type ℓ} → Option A → Bool
is_some none = false
is_some (some a) = true

unfoldable pub read_condition : Text → Loaded Tree
unfolding condition
read_condition s = elim (condition s) [
  | ok t ↦ loaded t
  | fails w ↦ refused (bad_condition w)
  | out_of_fuel ↦ refused no_fuel
]

abbrev pub second_of : Nodes → Node
second_of (cons x (cons y rest)) = y
second_of _ = text []

-- One constraint of the rule `node`.
unfoldable pub with_clearance : Nodes → Text → Nodes → Rules → Loaded Rules
unfolding child val minimum_of read_condition
with_clearance node cond constraint r =
    if is_some (child node (codes "layer")) || is_some (child node (codes "severity"))
    then refused qualified
    else and_then (minimum_of (val constraint (codes "min"))) λ minimum.
      and_then (read_condition cond) λ tree. loaded (record r {
        rules =
            r.rules ++ (record { name = second_of node; minimum = minimum; condition = tree } ∷ []);
      })

abbrev pub is_text : Text → Node → Bool
is_text s (text t) = text_eq t s
is_text s (list xs) = false

unfoldable pub with_constraint : Nodes → Text → Node → Rules → Loaded Rules
unfolding with_clearance text_eq
with_constraint node cond (list (cons x (cons kind rest))) r =
    if is_text (codes "clearance") kind
    then with_clearance node cond (cons x (cons kind rest)) r
    else loaded (record r { ignored = r.ignored ++ ((second_of node, kind) ∷ []) })
with_constraint node cond _ r = refused malformed

unfoldable pub with_constraints : Nodes → Text → List Node → Rules → Loaded Rules
unfolding with_constraint
with_constraints node cond [] r = loaded r
with_constraints node cond (c ∷ cs) r =
    and_then (with_constraint node cond c r) λ r. with_constraints node cond cs r

unfoldable pub with_rule : Nodes → Node → Rules → Loaded Rules
unfolding with_constraints courtyards_in add_all children
with_rule node (list xs) r = refused malformed
with_rule node (text cond) r =
    with_constraints node cond (children node (codes "constraint"))
      (record r { courtyards = add_all (courtyards_in 0 cond) r.courtyards })

unfoldable pub with_node : Node → Rules → Loaded Rules
unfolding with_rule val text_eq
with_node (text s) r = loaded r
with_node (list nil) r = refused malformed
with_node (list (cons x xs)) r =
    if is_text (codes "rule") x
    then with_rule (cons x xs) (val (cons x xs) (codes "condition")) r
    else loaded r

unfoldable pub with_nodes : Nodes → Rules → Loaded Rules
unfolding with_node
with_nodes nil r = loaded r
with_nodes (cons x xs) r = and_then (with_node x r) λ r. with_nodes xs r

unfoldable pub greatest : List ℕ → ℕ
greatest [] = 0
greatest (n ∷ ns) = max n (greatest ns)

unfoldable pub class_clearances : Dict NetClass → List ℕ
class_clearances [] = []
class_clearances ((k, c) ∷ d) = or_zero c.clearance ∷ class_clearances d

unfoldable pub minima : List Rule → List ℕ
minima [] = []
minima (rule ∷ rules) = rule.minimum ∷ minima rules

unfoldable pub maximum_of : Rules → ℕ
unfolding greatest class_clearances minima
maximum_of r =
    greatest (class_clearances r.classes ++ minima r.rules ++ (or_zero r.min_clearance ∷ []))

unfoldable pub finish : Rules → Loaded Rules
unfolding maximum_of
finish r = loaded (record r { maximum = maximum_of r })

unfoldable pub of_text : Parsed → Rules → Loaded Rules
unfolding with_nodes
of_text (parsed nodes) r = with_nodes nodes r
of_text _ r = refused bad_rules

unfoldable pub start : Settings → Rules
unfolding by_name
start settings = record {
  classes = by_name settings.classes_listed [];
  patterns = settings.patterns;
  assignments = settings.assignments;
  min_clearance = settings.min_clearance;
  rules = [];
  ignored = [];
  courtyards = [];
  maximum = 0;
}

-- Rules.__init__
unfoldable pub init : Settings → Text → Loaded Rules
unfolding start finish of_text lookup parse
init settings rules_text =
    let r = start settings in
    if is_some (lookup (codes "Default") r.classes)
    then and_then (of_text (parse rules_text) r) finish
    else refused no_default
