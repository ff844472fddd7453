-- ===== src/Netlist/Sort.antt =====
-- sorted() and sets of texts, as hardware/8ch-old/netlist_fingerprint.py uses them.
use thermocouple.Prelude.{
  ◌≡◌, refl, ◌∙◌, ap, Bool, true, false, ◌&&◌, ◌||◌, List, [], ◌∷◌, Text, text_eq, if◌then◌else◌,
  ltb, ◌==◌, arith,
}

-- a <= b, by code points.
unfoldable pub text_leb : Text → Text → Bool
text_leb [] t = true
text_leb (a ∷ s) [] = false
text_leb (a ∷ s) (b ∷ t) = ltb a b || (a == b && text_leb s t)

unfoldable pub insert : Text → List Text → List Text
unfolding text_leb
insert x [] = x ∷ []
insert x (y ∷ ys) = if text_leb x y then x ∷ y ∷ ys else y ∷ insert x ys

unfoldable pub sort : List Text → List Text
unfolding insert
sort [] = []
sort (x ∷ xs) = insert x (sort xs)

unfoldable pub mem_text : Text → List Text → Bool
unfolding text_eq
mem_text x [] = false
mem_text x (y ∷ ys) = text_eq x y || mem_text x ys

text_leb_total : (a b : Text) → text_leb a b ≡ false → text_leb b a ≡ true
unfolding text_leb
text_leb_total [] b h = cc
text_leb_total (x ∷ a) [] h = refl
text_leb_total (x ∷ a) (y ∷ b) h = ground (arith, text_leb_total a b)

text_leb_antisymm : (a b : Text) → text_leb a b ≡ true → text_leb b a ≡ true → a ≡ b
unfolding text_leb
text_leb_antisymm [] [] h k = refl
text_leb_antisymm [] (y ∷ b) h k = cc
text_leb_antisymm (x ∷ a) [] h k = cc
text_leb_antisymm (x ∷ a) (y ∷ b) h k = ground (arith, text_leb_antisymm a b)

text_leb_trans : (a b c : Text) → text_leb a b ≡ true → text_leb b c ≡ true → text_leb a c ≡ true
unfolding text_leb
text_leb_trans [] b c h k = refl
text_leb_trans (x ∷ a) [] c h k = cc
text_leb_trans (x ∷ a) (y ∷ b) [] h k = cc
text_leb_trans (x ∷ a) (y ∷ b) (z ∷ c) h k = ground (arith, text_leb_trans a b c)

-- Lists with the same texts, in any order.
pub data Shuffle : List Text → List Text → Type 0 where
  same : (xs : List Text) → Shuffle xs xs
  keep : {xs ys : List Text} (x : Text) → Shuffle xs ys → Shuffle (x ∷ xs) (x ∷ ys)
  swapped : (x y : Text) (xs : List Text) → Shuffle (x ∷ y ∷ xs) (y ∷ x ∷ xs)
  followed : {xs ys zs : List Text} → Shuffle xs ys → Shuffle ys zs → Shuffle xs zs

insert_comm : (x y : Text) (zs : List Text) → insert x (insert y zs) ≡ insert y (insert x zs)
unfolding insert
insert_comm x y [] = ground (arith, text_leb_total x y, text_leb_antisymm x y)
insert_comm x y (z ∷ zs) = ground (
  arith,
  text_leb_total x y,
  text_leb_antisymm x y,
  text_leb_trans x y z,
  text_leb_trans y x z,
  text_leb_total y z,
  text_leb_total x z,
  insert_comm x y zs,
)

pub sort-Shuffle : {xs ys : List Text} → Shuffle xs ys → sort xs ≡ sort ys
unfolding sort
sort-Shuffle (same xs) = refl
sort-Shuffle (keep x h) = ap (insert x) (sort-Shuffle h)
sort-Shuffle (swapped x y xs) = insert_comm x y (sort xs)
sort-Shuffle (followed h k) = sort-Shuffle h ∙ sort-Shuffle k

pub insert-mem :
    (x y : Text) (ys : List Text) → mem_text x (insert y ys) ≡ (text_eq x y || mem_text x ys)
unfolding insert mem_text
insert-mem x y [] = refl
insert-mem x y (z ∷ zs) = ground (arith, insert-mem x y zs)

pub sort-mem : (x : Text) (xs : List Text) → mem_text x (sort xs) ≡ mem_text x xs
unfolding sort mem_text
sort-mem x [] = refl
sort-mem x (y ∷ ys) = rw (insert-mem x y (sort ys), sort-mem x ys)
