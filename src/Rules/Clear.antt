-- ===== src/Rules/Clear.antt =====
-- The class of a net and the clearance between two items in hardware/family/tools/text_rules.py. The
-- two caches, whose keys hold all that a result depends on, are not kept.
use thermocouple.Prelude.{
  ℕ, Bool, ◌||◌, Option, none, some, List, [], ◌∷◌, ◌++◌, Text, codes, if◌then◌else◌, ltb, max,
}
use thermocouple.Netlist.Lookup.{Dict, lookup}
use thermocouple.TextSexp.{Node}
use thermocouple.Rules.Glob.{fnmatchcase}
use thermocouple.Rules.Judge.{Item, run}
use thermocouple.Rules.Project.{
  NetClass, Pattern, Assigned, one_class, classes, Rule, Rules, or_zero,
}

unfoldable pub matching : Text → List Pattern → List Text
unfolding fnmatchcase
matching net [] = []
matching net (p ∷ ps) =
    if fnmatchcase net p.pattern_text then p.netclass ∷ matching net ps else matching net ps

abbrev pub assigned : Option Assigned → List Text
assigned none = []
assigned (some (one_class s)) = s ∷ []
assigned (some (classes ss)) = ss

unfoldable pub class_names : Rules → Text → List Text
unfolding matching lookup
class_names r net = matching net r.patterns ++ assigned (lookup net r.assignments)

-- c.get('priority', 999999)
abbrev pub priority_of : NetClass → ℕ
priority_of c = elim c.priority [ none ↦ 999999 | some n ↦ n ]

-- min(names, key=...), from the best one so far.
unfoldable pub least : Dict NetClass → Text → ℕ → List Text → Option Text
unfolding lookup
least d best n [] = some best
least d best n (s ∷ names) = elim (lookup s d) [
  | none ↦ none
  | some c ↦ if ltb (priority_of c) n then least d s (priority_of c) names else least d best n names
]

-- `none` is the KeyError of a name that is no class.
unfoldable pub best_class : Dict NetClass → List Text → Option Text
unfolding least lookup
best_class d [] = some (codes "Default")
best_class d (s ∷ names) = elim (lookup s d) [
  | none ↦ none
  | some c ↦ least d s (priority_of c) names
]

-- netclass
unfoldable pub netclass : Rules → Text → Option Text
unfolding best_class class_names
netclass r [] = some []
netclass r (c ∷ net) = best_class r.classes (class_names r (c ∷ net))

-- What `source` says.
pub data Source : Type 0 where
  from_class from_board : Source
  from_rule : Node → Source

abbrev pub clearance_of : Option NetClass → ℕ
clearance_of none = 0
clearance_of (some c) = or_zero c.clearance

-- self.classes.get(..., self.classes['Default']).get('clearance', 0)
unfoldable pub class_clearance : Rules → Text → ℕ
unfolding lookup
class_clearance r s = elim (lookup s r.classes) [
  | none ↦ clearance_of (lookup (codes "Default") r.classes)
  | some c ↦ or_zero c.clearance
]

-- Whether a rule holds of two items, in either order.
unfoldable pub applies : Rule → Item → Item → Bool
unfolding run
applies rule a b = run rule.condition a b || run rule.condition b a

unfoldable pub by_rules : List Rule → Item → Item → ℕ × Source → ℕ × Source
unfolding applies
by_rules [] a b found = found
by_rules (rule ∷ rules) a b found =
    by_rules rules a b (if applies rule a b then (rule.minimum, from_rule rule.name) else found)

unfoldable pub at_least : ℕ → ℕ × Source → ℕ × Source
at_least minimum (value, source) =
    if ltb value minimum then (minimum, from_board) else (value, source)

-- An item with its class.
unfoldable pub classified : Text → Item → Item
classified s item = record item { class_name = s }

unfoldable pub between : Rules → Item → Item → ℕ × Source
unfolding at_least by_rules class_clearance
between r a b = at_least (or_zero r.min_clearance) (
    by_rules r.rules a b
      (max (class_clearance r a.class_name) (class_clearance r b.class_name), from_class))

unfoldable pub with_classes : Rules → Item → Item → Option Text → Option Text → Option (ℕ × Source)
unfolding between classified
with_classes r a b none t = none
with_classes r a b (some s) none = none
with_classes r a b (some s) (some t) = some (between r (classified s a) (classified t b))

-- clearance
unfoldable pub clearance : Rules → Item → Item → Option (ℕ × Source)
unfolding with_classes netclass
clearance r a b = with_classes r a b (netclass r a.net) (netclass r b.net)
