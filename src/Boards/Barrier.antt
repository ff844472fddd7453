-- ===== src/Boards/Barrier.antt =====
-- The insulation between the two sides of the boards of hardware/family/gen: which nets the parts
-- of c_iso.py and c_mcu.py join, and that only isolators and the converter stand across it.
use thermocouple.Prelude.{
  ◌≡◌, true, false, not, ◌&&◌, ◌||◌, Bool, List, [], ◌∷◌, ◌++◌, Text, codes, text_eq, text_eq→≡,
  all, &&-true, Bool-cases, inl, inr, ◌⊎◌, subst, sym,
}
use thermocouple.Netlist.Lookup.{Dict}
use thermocouple.Netlist.Sort.{mem_text}
use thermocouple.Boards.{Board, nc}
use thermocouple.Boards.Items.{Item}
use thermocouple.Boards.Isolation.{isolation}
use thermocouple.Boards.Keypad.{mcu}

unfoldable pub values : Dict Text → List Text
values [] = []
values ((k, v) ∷ d) = v ∷ values d

-- The parts that may stand across: the isolators and the isolated converter.
unfoldable pub is_barrier : Item → Bool
unfolding text_eq
is_barrier i =
    text_eq i.lib_id (codes "Isolator:ISO7761DW")
    || text_eq i.lib_id (codes "Converter_DCDC_Isolated:CRE1S0505SC")

-- A pin of the part is on the net; a pin that is left open is on none.
unfoldable pub touches : Item → Text → Bool
unfolding mem_text values text_eq nc
touches i n = mem_text n (values i.entry.nets) && not (text_eq n nc)

unfoldable pub Among : Item → List Item → Type 0
Among i [] = ⊥
Among i (j ∷ js) = (i ≡ j) ⊎ Among i js

-- A chain of parts, none of them a barrier, that leads from one net to another.
pub data Joined (parts : List Item) (a : Text) : Text → Type 0 where
  same : Joined parts a a
  across :
      (i : Item) (b c : Text)
      → Among i parts
      → is_barrier i ≡ false
      → touches i b ≡ true
      → touches i c ≡ true
      → Joined parts a b
      → Joined parts a c

unfoldable pub parts_of : Board → List Item
unfolding isolation mcu
parts_of b = isolation b ++ mcu b

-- Each net of the part is among those given, or each is outside of them.
unfoldable inside : List Text → Text → Bool
unfolding mem_text text_eq nc
inside side n = text_eq n nc || mem_text n side

unfoldable outside : List Text → Text → Bool
unfolding mem_text text_eq nc
outside side n = text_eq n nc || not (mem_text n side)

unfoldable pub one_sided : List Text → Item → Bool
unfolding inside outside all is_barrier values
one_sided side i =
    is_barrier i
    || (all (inside side) (values i.entry.nets) || all (outside side) (values i.entry.nets))

pub all-mem :
    (p : Text → Bool) (ns : List Text) (n : Text)
    → all p ns ≡ true
    → mem_text n ns ≡ true
    → p n ≡ true
unfolding all mem_text
all-mem p [] n h m = cc
all-mem p (k ∷ ns) n h m =
    let (first, others) = &&-true (p k) (all p ns) h in
    elim (Bool-cases (text_eq n k)) [
      | inl is_k ↦ subst (λ t. p t ≡ true) (sym (text_eq→≡ n k is_k)) first
      | inr other ↦ all-mem p ns n others (rw other at m)
    ]

all-Among :
    (p : Item → Bool) (is : List Item) (i : Item) → all p is ≡ true → Among i is → p i ≡ true
unfolding all Among
all-Among p [] i h m = elim m [ ]
all-Among p (j ∷ is) i h (inl e) =
    let (this, others) = &&-true (p j) (all p is) h in subst (λ t. p t ≡ true) (sym e) this
all-Among p (j ∷ is) i h (inr m) =
    let (this, others) = &&-true (p j) (all p is) h in all-Among p is i others m

-- What is known of a net inside and of one outside.
inside_net :
    (open_pin within : Bool) → (open_pin || within) ≡ true → not open_pin ≡ true → within ≡ true
inside_net true w h k = cc
inside_net false w h k = h

outside_net :
    (open_pin within : Bool)
    → (open_pin || not within) ≡ true
    → not open_pin ≡ true
    → within ≡ true
    → ⊥
outside_net true w h k m = cc
outside_net false true h k m = cc
outside_net false false h k m = cc

-- A part that is no barrier leads from inside only to the inside.
one_sided-touches :
    (side : List Text) (i : Item) (b c : Text)
    → one_sided side i ≡ true
    → is_barrier i ≡ false
    → touches i b ≡ true
    → touches i c ≡ true
    → mem_text b side ≡ true
    → mem_text c side ≡ true
unfolding one_sided touches inside outside
one_sided-touches side i b c s k tb tc m =
    let ns = values i.entry.nets in
    let (on_b, plain_b) = &&-true (mem_text b ns) (not (text_eq b nc)) tb in
    let (on_c, plain_c) = &&-true (mem_text c ns) (not (text_eq c nc)) tc in
    elim (Bool-cases (all (inside side) ns)) [
      | inl within ↦
          inside_net (text_eq c nc) (mem_text c side) (all-mem (inside side) ns c within on_c)
            plain_c
      | inr not_within ↦
          elim (outside_net (text_eq b nc) (mem_text b side)
            (all-mem (outside side) ns b (rw (k, not_within) at s) on_b) plain_b m) [ ]
    ]

pub Joined-one_sided :
    (side : List Text) (is : List Item) (a c : Text)
    → all (one_sided side) is ≡ true
    → mem_text a side ≡ true
    → Joined is a c
    → mem_text c side ≡ true
Joined-one_sided side is a c h m same = m
Joined-one_sided side is a c h m (across i b d member k tb td j) =
    one_sided-touches side i b d (all-Among (one_sided side) is i h member) k tb td
      (Joined-one_sided side is a b h m j)
