-- ===== src/Rules/Printed.antt =====
-- A written form of the conditions that hardware/family/tools/text_rules.py reads: as few
-- parentheses as the order of its operators allows.
use thermocouple.Prelude.{List, [], ◌∷◌, ◌++◌, codes}
use thermocouple.Rules.Syntax.{
  Token, punct, quoted, name, or_op, and_op, eq_op, ne_op, bang, open_paren, close_paren, dot, Side,
  side_a, side_b, Method, member_of_footprint, intersects_courtyard, Property, type_of, net_class,
  net_name, Tree, always, either, both, negated, call, equals, differs,
}

abbrev pub side_name : Side → Token
side_name side_a = name (codes "A")
side_name side_b = name (codes "B")

abbrev pub method_name : Method → Token
method_name member_of_footprint = name (codes "memberOfFootprint")
method_name intersects_courtyard = name (codes "intersectsCourtyard")

abbrev pub property_name : Property → Token
property_name type_of = name (codes "Type")
property_name net_class = name (codes "NetClass")
property_name net_name = name (codes "NetName")

-- Where a condition stands: as a whole, beside `||`, beside `&&` on the right or after `!`.
pub data Place : Type 0 where
  whole operand factor : Place

abbrev pub enclosed : List Token → List Token
enclosed ts = punct open_paren ∷ (ts ++ (punct close_paren ∷ []))

abbrev pub place_or : Place → List Token → List Token
place_or whole ts = ts
place_or operand ts = enclosed ts
place_or factor ts = enclosed ts

abbrev pub place_and : Place → List Token → List Token
place_and whole ts = ts
place_and operand ts = ts
place_and factor ts = enclosed ts

-- The condition as tokens; `always`, which is no part of a written condition, has none.
unfoldable pub emit : Tree → Place → List Token
emit always p = []
emit (either t u) p = place_or p (emit t whole ++ (punct or_op ∷ emit u operand))
emit (both t u) p = place_and p (emit t operand ++ (punct and_op ∷ emit u factor))
emit (negated t) p = punct bang ∷ emit t factor
emit (call side method s) p =
    side_name side
    ∷ punct dot
    ∷ method_name method
    ∷ punct open_paren
    ∷ quoted s
    ∷ punct close_paren
    ∷ []
emit (equals side prop s) p =
    side_name side ∷ punct dot ∷ property_name prop ∷ punct eq_op ∷ quoted s ∷ []
emit (differs side prop s) p =
    side_name side ∷ punct dot ∷ property_name prop ∷ punct ne_op ∷ quoted s ∷ []

-- No part of it is `always`.
abbrev pub Written : Tree → Type 0
Written always = ⊥
Written (either t u) = Written t × Written u
Written (both t u) = Written t × Written u
Written (negated t) = Written t
Written (call side method s) = Unit
Written (equals side prop s) = Unit
Written (differs side prop s) = Unit
