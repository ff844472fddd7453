-- ===== src/Release/Order.antt =====
-- sorted() as hardware/family/gen/compare_release.py and hardware/family/gen/bom.py use it: stable,
-- by a given order.
use thermocouple.Prelude.{
  Bool, true, false, ◌&&◌, ◌||◌, List, [], ◌∷◌, Text, text_eq, if◌then◌else◌, ltb, ◌==◌,
}

module _ {ℓ} {A : Type ℓ} where
  unfoldable pub insert_by : (A → A → Bool) → A → List A → List A
  insert_by leb x [] = x ∷ []
  insert_by leb x (y ∷ ys) = if leb x y then x ∷ y ∷ ys else y ∷ insert_by leb x ys

  unfoldable pub sort_by : (A → A → Bool) → List A → List A
  unfolding insert_by
  sort_by leb [] = []
  sort_by leb (x ∷ xs) = insert_by leb x (sort_by leb xs)

-- a < b, by code points.
unfoldable pub text_ltb : Text → Text → Bool
text_ltb s [] = false
text_ltb [] (b ∷ t) = true
text_ltb (a ∷ s) (b ∷ t) = ltb a b || (a == b && text_ltb s t)

-- A node of a net: the part and the pin.
abbrev pub Pair : Type 0
Pair = Text × Text

unfoldable pub pair_ltb : Pair → Pair → Bool
unfolding text_ltb text_eq
pair_ltb (a, b) (c, d) = text_ltb a c || (text_eq a c && text_ltb b d)

unfoldable pub pair_eq : Pair → Pair → Bool
unfolding text_eq
pair_eq (a, b) (c, d) = text_eq a c && text_eq b d

unfoldable pub pair_leb : Pair → Pair → Bool
unfolding pair_ltb pair_eq
pair_leb p q = pair_ltb p q || pair_eq p q

unfoldable pub nodes_leb : List Pair → List Pair → Bool
unfolding pair_ltb pair_eq
nodes_leb [] qs = true
nodes_leb (p ∷ ps) [] = false
nodes_leb (p ∷ ps) (q ∷ qs) = pair_ltb p q || (pair_eq p q && nodes_leb ps qs)

module _ {ℓ} {A : Type ℓ} where
  -- == of two lists.
  unfoldable pub list_eq : (A → A → Bool) → List A → List A → Bool
  list_eq eq [] [] = true
  list_eq eq [] (y ∷ ys) = false
  list_eq eq (x ∷ xs) [] = false
  list_eq eq (x ∷ xs) (y ∷ ys) = eq x y && list_eq eq xs ys
