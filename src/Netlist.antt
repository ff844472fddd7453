-- ===== src/Netlist.antt =====
-- The comparison of netlists (hardware/8ch-old/netlist_fingerprint.py): what is left of a netlist
-- and which differences are reported. What the regular expressions find in a file is given.
pub mod Lookup
pub mod Sort
pub mod Diff
pub mod Structural
pub mod Renames
pub mod Order
pub mod Main
mod Tests
use thermocouple.Prelude.{
  ℕ, ◌+◌, Bool, true, false, not, ◌&&◌, ◌||◌, Option, none, some, List, [], ◌∷◌, ◌++◌, map, Text,
  codes, text_eq, length, if◌then◌else◌, ◌==◌, any,
}
use thermocouple.Netlist.Lookup.{Dict, lookup, put, keys}
use thermocouple.Netlist.Sort.{sort, mem_text}

-- The value and the footprint of a component.
pub record Component : Type 0 where
  pub value : Text
  pub footprint : Text

-- The pins of each net, as "ref.pin", and the components by reference.
pub record Fingerprint : Type 0 where
  pub nets : Dict (List Text)
  pub components : Dict Component

-- What NET_BLOCK finds: a net's name and, by NODE in its body, the references and pins.
pub record NetBlock : Type 0 where
  pub name : Text
  pub nodes : List (Text × Text)

-- What COMPONENT finds: reference, value, and the footprint's group, empty where there is none.
pub record ComponentMatch : Type 0 where
  pub ref : Text
  pub value : Text
  pub footprint : Text

-- f"{ref}.{pin}"
unfoldable pub node_text : Text × Text → Text
node_text (ref, pin) = ref ++ (b'.' ∷ pin)

unfoldable pub read_nets : List NetBlock → Dict (List Text) → Dict (List Text)
unfolding put sort node_text
read_nets [] nets = nets
read_nets (b ∷ bs) nets = read_nets bs (put b.name (sort (map node_text b.nodes)) nets)

unfoldable pub read_components : List ComponentMatch → Dict Component → Dict Component
unfolding put
read_components [] found = found
read_components (c ∷ cs) found =
    read_components cs (put c.ref (record { value = c.value; footprint = c.footprint }) found)

-- not nets or not components
unfoldable pub is_blank : Fingerprint → Bool
is_blank f = (length f.nets == 0) || (length f.components == 0)

-- `fingerprint` of the matches; `none` is the SystemExit for a netlist without nets or components.
unfoldable pub fingerprint : List NetBlock → List ComponentMatch → Option Fingerprint
unfolding read_nets read_components is_blank
fingerprint blocks matches =
    let f : Fingerprint = record {
      nets = read_nets blocks [];
      components = read_components matches [];
    } in
    if is_blank f then none else some f

-- The numbers of components, nets and pins.
unfoldable pub count_pins : Dict (List Text) → ℕ
count_pins [] = 0
count_pins ((name, nodes) ∷ nets) = length nodes + count_pins nets

unfoldable pub summarise : Fingerprint → ℕ × ℕ × ℕ
unfolding count_pins
summarise f = (length f.components, length f.nets, count_pins f.nets)

-- The messages.
pub data Problem : Type 0 where
  net_removed net_added : Text → Problem
  component_removed component_added : Text → Problem
  net_changed : Text → List Text → List Text → Problem
  component_changed : Text → Component → Component → Problem
  no_match : Text → List Text → Problem
  net_new : Text → List Text → Problem

-- The texts of the first list that are not in the second.
unfoldable pub missing : List Text → List Text → List Text
unfolding mem_text
missing [] ys = []
missing (x ∷ xs) ys = if mem_text x ys then missing xs ys else x ∷ missing xs ys

unfoldable pub common : List Text → List Text → List Text
unfolding mem_text
common [] ys = []
common (x ∷ xs) ys = if mem_text x ys then x ∷ common xs ys else common xs ys

-- The keys that went and those that came; a dict's keys are different, so its set has as many.
unfoldable pub gone_and_new :
    (Text → Problem) → (Text → Problem) → List Text → List Text → List Problem
unfolding missing sort
gone_and_new removed added before after =
    map removed (sort (missing before after)) ++ map added (sort (missing after before))

unfoldable pub texts_eq : List Text → List Text → Bool
unfolding text_eq
texts_eq [] [] = true
texts_eq [] (y ∷ ys) = false
texts_eq (x ∷ xs) [] = false
texts_eq (x ∷ xs) (y ∷ ys) = text_eq x y && texts_eq xs ys

unfoldable pub component_eq : Component → Component → Bool
unfolding text_eq
component_eq c d = text_eq c.value d.value && text_eq c.footprint d.footprint

-- What is reported of a net and of a component that both netlists have.
unfoldable pub net_change : Text → Option (List Text) → Option (List Text) → List Problem
unfolding texts_eq missing sort
net_change name (some was) (some now) =
    if texts_eq was now
    then []
    else net_changed name (sort (missing was now)) (sort (missing now was)) ∷ []
net_change name was now = []

unfoldable pub component_change : Text → Option Component → Option Component → List Problem
unfolding component_eq
component_change ref (some was) (some now) =
    if component_eq was now then [] else component_changed ref was now ∷ []
component_change ref was now = []

unfoldable pub each : (Text → List Problem) → List Text → List Problem
each f [] = []
each f (x ∷ xs) = f x ++ each f xs

unfoldable pub net_changes : Dict (List Text) → Dict (List Text) → List Problem
unfolding each net_change common sort lookup keys
net_changes before after =
    each (λ name. net_change name (lookup name before) (lookup name after))
      (sort (common (keys before) (keys after)))

unfoldable pub component_changes : Dict Component → Dict Component → List Problem
unfolding each component_change common sort lookup keys
component_changes before after =
    each (λ ref. component_change ref (lookup ref before) (lookup ref after))
      (sort (common (keys before) (keys after)))

unfoldable pub diff : Fingerprint → Fingerprint → List Problem
unfolding gone_and_new net_changes component_changes keys
diff before after =
    gone_and_new net_removed net_added (keys before.nets) (keys after.nets)
    ++ (gone_and_new component_removed component_added (keys before.components)
          (keys after.components)
        ++ (net_changes before.nets after.nets
            ++ component_changes before.components after.components))

-- `by_pins`, a dict from pins to the name of a net.
abbrev pub PinDict : Type 0
PinDict = List (List Text × Text)

unfoldable pub pins_get : List Text → PinDict → Option Text
unfolding texts_eq
pins_get pins [] = none
pins_get pins ((p, name) ∷ d) = if texts_eq pins p then some name else pins_get pins d

unfoldable pub pins_put : List Text → Text → PinDict → PinDict
unfolding texts_eq
pins_put pins name [] = (pins, name) ∷ []
pins_put pins name ((p, old) ∷ d) =
    if texts_eq pins p then (p, name) ∷ d else (p, old) ∷ pins_put pins name d

-- What is left when the key is taken out; a dict has it once.
unfoldable pub pins_del : List Text → PinDict → PinDict
unfolding texts_eq
pins_del pins [] = []
pins_del pins ((p, name) ∷ d) =
    if texts_eq pins p then pins_del pins d else (p, name) ∷ pins_del pins d

unfoldable pub by_pins : Dict (List Text) → PinDict → PinDict
unfolding pins_put
by_pins [] d = d
by_pins ((name, pins) ∷ nets) d = by_pins nets (pins_put pins name d)

-- The state of the loop of `structural`: the renames, the problems and what is left of `by_pins`.
pub record Matching : Type 0 where
  pub renames : List (Text × Text)
  pub problems : List Problem
  pub left : PinDict

-- renames[name] = new, unless the names agree; the names of `before` are different.
unfoldable pub rename : Text → Text → List (Text × Text) → List (Text × Text)
unfolding text_eq
rename name new renames = if text_eq new name then renames else (name, new) ∷ renames

unfoldable pub match_nets : Dict (List Text) → PinDict → Matching
unfolding pins_get pins_del rename
match_nets [] d = record { renames = []; problems = []; left = d }
match_nets ((name, pins) ∷ nets) d = elim (pins_get pins d) [
  | none ↦
      let rest = match_nets nets d in record rest { problems = no_match name pins ∷ rest.problems }
  | some new ↦
      let rest = match_nets nets (pins_del pins d) in
      record rest { renames = rename name new rest.renames }
]

unfoldable pub left_over : PinDict → List Problem
left_over [] = []
left_over ((pins, name) ∷ d) = net_new name pins ∷ left_over d

unfoldable pub only_components : Fingerprint → Fingerprint
only_components f = record { nets = []; components = f.components }

unfoldable pub structural : Fingerprint → Fingerprint → List (Text × Text) × List Problem
unfolding match_nets by_pins left_over diff only_components
structural before after =
    let m = match_nets before.nets (by_pins after.nets []) in
    (
      m.renames,
      m.problems ++ (left_over m.left ++ diff (only_components before) (only_components after)),
    )
