-- ===== src/Rules/Judge.antt =====
-- What a condition of hardware/family/tools/text_rules.py says of two items.
use thermocouple.Prelude.{Bool, true, not, ◌&&◌, ◌||◌, List, Text, text_eq}
use thermocouple.Netlist.Sort.{mem_text}
use thermocouple.Rules.Syntax.{
  Side, side_a, side_b, Method, member_of_footprint, intersects_courtyard, Property, type_of,
  net_class, net_name, Tree, always, either, both, negated, call, equals, differs,
}
use thermocouple.Rules.Glob.{fnmatchcase}

-- A piece of copper on the board, with the class that `netclass` gives its net.
pub record Item : Type 0 where
  pub net : Text
  pub kind : Text
  pub ref : Text
  pub courts : List Text
  pub class_name : Text

unfoldable pub chosen : Side → Item → Item → Item
chosen side_a a b = a
chosen side_b a b = b

unfoldable pub called : Method → Text → Item → Bool
unfolding text_eq mem_text
called member_of_footprint s item = text_eq item.ref s
called intersects_courtyard s item = mem_text s item.courts

unfoldable pub actual : Property → Item → Text
actual type_of item = item.kind
actual net_class item = item.class_name
actual net_name item = item.net

-- Condition.__call__
unfoldable pub run : Tree → Item → Item → Bool
unfolding chosen called actual fnmatchcase
run always a b = true
run (either t u) a b = run t a b || run u a b
run (both t u) a b = run t a b && run u a b
run (negated t) a b = not (run t a b)
run (call side method s) a b = called method s (chosen side a b)
run (equals side prop s) a b = fnmatchcase (actual prop (chosen side a b)) s
run (differs side prop s) a b = not (fnmatchcase (actual prop (chosen side a b)) s)
