-- ===== src/Release/Gathered.antt =====
-- What `components` and `nets` of hardware/family/gen/compare_release.py collect from a netlist.
use thermocouple.Prelude.{
  ◌≡◌, refl, sym, ap, ◌∙◌, Option, none, some, List, [], ◌∷◌, ◌++◌, Text, text_eq, text_eq→≡,
  if◌then◌else◌, Bool-cases, inl, inr,
}
use mathlib.Core.List.{append_assoc, append-nil}
use thermocouple.Netlist.Lookup.{Dict, lookup, put, lookup-put}
use thermocouple.Release.NetlistXml.{Net, Root}
use thermocouple.Release.Order.{Pair, pair_leb, nodes_leb, sort_by, insert_by}
use thermocouple.Release.Roots.{
  or_none, nets_from, sorted_values, nets, prefixes, local_name, common_name,
}

-- The nodes of each net that has this name without its sheet's, in order.
unfoldable pub nodes_named : List Text → Text → List Net → List (List Pair)
unfolding text_eq common_name local_name sort_by pair_leb
nodes_named ps name [] = []
nodes_named ps name (n ∷ ns) =
    let rest = nodes_named ps name ns in
    if text_eq name (common_name (local_name ps n.name))
    then sort_by pair_leb n.nodes ∷ rest
    else rest

-- Those of a netlist, put in order themselves.
unfoldable pub nodes_of : Text → Root → List (List Pair)
unfolding nodes_named prefixes sort_by nodes_leb
nodes_of name root = sort_by nodes_leb (nodes_named (prefixes root) name root.nets)

-- An entry is there once it holds a list.
unfoldable pub if_any : List (List Pair) → Option (List (List Pair))
if_any [] = none
if_any (x ∷ xs) = some (x ∷ xs)

joined_to : Option (List (List Pair)) → List (List Pair) → Option (List (List Pair))
unfolding if_any
joined_to none xs = if_any xs
joined_to (some ys) xs = some (ys ++ xs)

joined_to-nil : (o : Option (List (List Pair))) → joined_to o [] ≡ o
unfolding joined_to if_any
joined_to-nil none = refl
joined_to-nil (some ys) = ap some (append-nil ys)

joined_to-more :
    (o : Option (List (List Pair))) (x : List Pair) (xs : List (List Pair))
    → joined_to (some (or_none o ++ (x ∷ []))) xs ≡ joined_to o (x ∷ xs)
unfolding joined_to if_any
joined_to-more none x xs = refl
joined_to-more (some ys) x xs = ap some (append_assoc ys (x ∷ []) xs)

lookup-nets_from :
    (ps : List Text) (name : Text) (ns : List Net) (d : Dict (List (List Pair)))
    → lookup name (nets_from ps ns d) ≡ joined_to (lookup name d) (nodes_named ps name ns)
unfolding nets_from nodes_named
lookup-nets_from ps name [] d = sym (joined_to-nil (lookup name d))
lookup-nets_from ps name (n ∷ ns) d =
    let k = common_name (local_name ps n.name) in
    let x = sort_by pair_leb n.nodes in
    let rest = lookup-nets_from ps name ns (put k (or_none (lookup k d) ++ (x ∷ [])) d) in
    let there = lookup-put name k (or_none (lookup k d) ++ (x ∷ [])) d in
    elim (Bool-cases (text_eq name k)) [
      | inl same ↦
          let e : name ≡ k = text_eq→≡ name k same in
          let got : lookup name (put k (or_none (lookup k d) ++ (x ∷ [])) d)
              ≡ some (or_none (lookup k d) ++ (x ∷ [])) =
            there ∙ rw same refl in
          rest
          ∙ ap (λ o. joined_to o (nodes_named ps name ns)) got
          ∙ ap
              (λ (t : Text).
                joined_to (some (or_none (lookup t d) ++ (x ∷ []))) (nodes_named ps name ns))
              (sym e)
          ∙ joined_to-more (lookup name d) x (nodes_named ps name ns)
          ∙ rw same refl
      | inr other ↦
          let got : lookup name (put k (or_none (lookup k d) ++ (x ∷ [])) d) ≡ lookup name d =
            there ∙ rw other refl in
          rest ∙ ap (λ o. joined_to o (nodes_named ps name ns)) got ∙ rw other refl
    ]

sorted : Option (List (List Pair)) → Option (List (List Pair))
unfolding sort_by nodes_leb
sorted none = none
sorted (some v) = some (sort_by nodes_leb v)

lookup-sorted_values :
    (name : Text) (d : Dict (List (List Pair)))
    → lookup name (sorted_values d) ≡ sorted (lookup name d)
unfolding lookup sorted_values sorted
lookup-sorted_values name [] = refl
lookup-sorted_values name ((k, v) ∷ d) = elim (Bool-cases (text_eq name k)) [
  | inl same ↦ rw same refl
  | inr other ↦ rw other (lookup-sorted_values name d)
]

if_any-insert :
    (x : List Pair) (xs : List (List Pair))
    → if_any (insert_by nodes_leb x xs) ≡ some (insert_by nodes_leb x xs)
unfolding if_any insert_by
if_any-insert x [] = refl
if_any-insert x (y ∷ ys) = elim (Bool-cases (nodes_leb x y)) [
  | inl first ↦ rw first refl
  | inr later ↦ rw later refl
]

sorted-if_any : (xs : List (List Pair)) → sorted (if_any xs) ≡ if_any (sort_by nodes_leb xs)
unfolding sorted if_any sort_by
sorted-if_any [] = refl
sorted-if_any (x ∷ xs) = sym (if_any-insert x (sort_by nodes_leb xs))

nothing_there : (name : Text) → lookup {V = List (List Pair)} name [] ≡ none
unfolding lookup
nothing_there name = refl

pub lookup-nets :
    (name : Text) (root : Root) → lookup name (nets root) ≡ if_any (nodes_of name root)
unfolding nets nodes_of joined_to
lookup-nets name root =
    let ps = prefixes root in
    lookup-sorted_values name (nets_from ps root.nets [])
    ∙ ap sorted (
        lookup-nets_from ps name root.nets []
        ∙ ap (λ o. joined_to o (nodes_named ps name root.nets)) (nothing_there name))
    ∙ sorted-if_any (nodes_named ps name root.nets)

pub if_any_inj : (xs ys : List (List Pair)) → if_any xs ≡ if_any ys → xs ≡ ys
unfolding if_any
if_any_inj [] [] h = refl
if_any_inj [] (y ∷ ys) h = cc
if_any_inj (x ∷ xs) [] h = cc
if_any_inj (x ∷ xs) (y ∷ ys) h = cc
