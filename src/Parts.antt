-- ===== src/Parts.antt =====
-- Parts and their pins (hardware/family/gen/model.py, and `pins` of hardware/family/gen/libs.py).
-- Which atoms are numbers is given; the coordinates of the pins, which no net depends on, are not kept.
pub mod Resolved
mod Tests
use thermocouple.Prelude.{
  ℕ, zero, suc, Bool, true, false, not, ◌&&◌, ◌||◌, Option, none, some, List, [], ◌∷◌, ◌++◌, Text,
  codes, text_eq, if◌then◌else◌,
}
use thermocouple.Netlist.Lookup.{Dict, lookup, put, keys}
use thermocouple.Netlist.Sort.{mem_text}
use thermocouple.Sexp.{Node, Nodes, list, nil, cons, str, flag, find, findall}

-- The pins of a symbol: number to name.
abbrev pub Pins : Type 0
Pins = Dict Text

-- Node number n of a list, as x[n].
unfoldable pub at : Nodes → ℕ → Option Node
at nil n = none
at (cons x xs) zero = some x
at (cons x xs) (suc n) = at xs n

-- A Sym or str.
unfoldable pub text_of : Option Node → Option Text
text_of none = none
text_of (some (Node.sym s)) = some s
text_of (some (str s)) = some s
text_of (some (flag b)) = none
text_of (some (list xs)) = none

unfoldable pub children : Option Node → Nodes
children none = nil
children (some (list xs)) = xs
children (some (Node.sym s)) = nil
children (some (str s)) = nil
children (some (flag b)) = nil

-- find(p, key)[1]
unfoldable pub field : Nodes → Text → Option Text
unfolding at text_of children find
field p key = text_of (at (children (find p key)) 1)

-- float(x) of an entry that has to be there.
unfoldable pub is_at : (Text → Bool) → Option Text → Bool
is_at is_float none = false
is_at is_float (some s) = is_float s

-- at[1], at[2], and at[3] if there is one.
unfoldable pub has_place : (Text → Bool) → Nodes → Bool
unfolding is_at at text_of
has_place is_float place =
    is_at is_float (text_of (at place 1))
    && is_at is_float (text_of (at place 2))
    && elim (at place 3) [ none ↦ true | some x ↦ is_at is_float (text_of (some x)) ]

-- out.setdefault(num, ...)
unfoldable pub set_default : Text → Text → Pins → Pins
unfolding mem_text keys put
set_default num name out = if mem_text num (keys out) then out else put num name out

-- One pin; `none` for the exceptions of a pin without a number, a name or a place.
unfoldable pub with_pin : (Text → Bool) → Nodes → Option Text → Option Text → Pins → Option Pins
unfolding has_place set_default children find at
with_pin is_float p none name out = none
with_pin is_float p (some num) none out = none
with_pin is_float p (some num) (some name) out =
    if has_place is_float (children (find p (codes "at")))
    then some (set_default num name out)
    else none

unfoldable pub with_pins : (Text → Bool) → List Node → Option Pins → Option Pins
unfolding with_pin field children
with_pins is_float [] out = out
with_pins is_float (p ∷ ps) none = none
with_pins is_float (p ∷ ps) (some out) = with_pins is_float ps (
    with_pin is_float (children (some p)) (field (children (some p)) (codes "number"))
      (field (children (some p)) (codes "name")) out)

-- sub[1].rsplit(...), which wants a text.
unfoldable pub if_named : Option Text → Option Pins → Option Pins
if_named none out = none
if_named (some name) out = out

unfoldable pub with_units : (Text → Bool) → List Node → Option Pins → Option Pins
unfolding with_pins findall children if_named text_of at
with_units is_float [] out = out
with_units is_float (s ∷ ss) out = with_units is_float ss (
    if_named (text_of (at (children (some s)) 1))
      (with_pins is_float (findall (children (some s)) (codes "pin")) out))

unfoldable pub pins : (Text → Bool) → Nodes → Option Pins
unfolding with_units findall
pins is_float node = with_units is_float (findall node (codes "symbol")) (some [])

-- A part: the nets by pin number or name, in the order that they are given, and `pinmap`.
pub record Part : Type 0 where
  pub ref : Text
  pub nets : Dict Text
  pub pinmap : Option (Dict Text)

-- What `resolve` returns, or its KeyErrors.
pub data Resolution : Type 0 where
  resolved : Part → Resolution
  no_pin : Text → Resolution
  unassigned : List Text → Resolution

-- [n for n, p in pl.items() if p[0] == key]
unfoldable pub hits : Text → Pins → List Text
unfolding text_eq
hits key [] = []
hits key ((n, name) ∷ pl) = if text_eq name key then n ∷ hits key pl else hits key pl

-- for n in hits: out[n] = net
unfoldable pub assign : List Text → Text → Dict Text → Dict Text
unfolding put
assign [] net out = out
assign (n ∷ ns) net out = assign ns net (put n net out)

-- The pins that a key stands for.
unfoldable pub pins_of : Pins → Text → List Text
unfolding mem_text keys hits
pins_of pl key = if mem_text key (keys pl) then key ∷ [] else hits key pl

-- The loop over the nets; the key that is no pin is reported.
pub data Assigned : Type 0 where
  assigned : Dict Text → Assigned
  unknown : Text → Assigned

unfoldable pub assign_key : Text → Text → List Text → Dict Text → Assigned
unfolding assign
assign_key key net [] out = unknown key
assign_key key net (n ∷ ns) out = assigned (assign (n ∷ ns) net out)

unfoldable pub assign_all : Pins → Dict Text → Assigned → Assigned
unfolding assign_key pins_of
assign_all pl [] out = out
assign_all pl (k ∷ nets) (unknown key) = unknown key
assign_all pl ((key, net) ∷ nets) (assigned out) =
    assign_all pl nets (assign_key key net (pins_of pl key) out)

-- [n for n in pl if n not in out]
unfoldable pub not_in : List Text → Dict Text → List Text
unfolding mem_text keys
not_in [] out = []
not_in (n ∷ ns) out = if mem_text n (keys out) then not_in ns out else n ∷ not_in ns out

unfoldable pub finish : Part → List Text → Dict Text → Resolution
finish part [] out = resolved (record part { pinmap = some out })
finish part (n ∷ ns) out = unassigned (n ∷ ns)

unfoldable pub after_nets : Part → Pins → Assigned → Resolution
unfolding finish not_in keys
after_nets part pl (unknown key) = no_pin key
after_nets part pl (assigned out) = finish part (not_in (keys pl) out) out

unfoldable pub resolve : Pins → Part → Resolution
unfolding after_nets assign_all
resolve pl part = after_nets part pl (assign_all pl part.nets (assigned []))

-- The short name of a block: a text, or a label with a number.
pub data Short : Type 0 where
  text : Text → Short
  numbered : Text → ℕ → Short

-- A sheet's blocks, and what `block` and `parts` do.
pub record Sheet : Type 0 where
  pub blocks : List (Text × List Part)
  pub shorts : Dict Short
  pub page_names : Dict Text

unfoldable pub is_true : Text → Bool
is_true [] = false
is_true (c ∷ s) = true

unfoldable pub is_short : Short → Bool
unfolding is_true
is_short (text s) = is_true s
is_short (numbered label n) = true

-- if value: d[title] = value
unfoldable pub add_if {ℓ} : {V : Type ℓ} → (V → Bool) → Text → Option V → Dict V → Dict V
unfolding put
add_if test title none d = d
add_if test title (some v) d = if test v then put title v d else d

unfoldable pub block : Text → List Part → Option Short → Option Text → Sheet → Sheet
unfolding add_if is_short is_true
block title parts short page s = record {
  blocks = s.blocks ++ ((title, parts) ∷ []);
  shorts = add_if is_short title short s.shorts;
  page_names = add_if is_true title page s.page_names;
}

unfoldable pub parts_in : List (Text × List Part) → List Part
parts_in [] = []
parts_in ((title, ps) ∷ blocks) = ps ++ parts_in blocks

unfoldable pub parts : Sheet → List Part
unfolding parts_in
parts s = parts_in s.blocks
