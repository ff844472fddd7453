-- ===== src/Parts/Resolved.antt =====
-- Which net `resolve` of hardware/family/gen/model.py gives each pin.
use thermocouple.Prelude.{
  ◌≡◌, refl, sym, ◌∙◌, ap, true, Option, none, some, List, [], ◌∷◌, Text, text_eq, if◌then◌else◌,
  Bool-cases, inl, inr, arith, Bool, false, ◌&&◌, ◌||◌, text_eq→≡, ◌⊎◌,
}
use thermocouple.Netlist.Lookup.{Dict, lookup, put, keys, lookup-mem, lookup-put}
use thermocouple.Netlist.Sort.{mem_text}
use thermocouple.Parts.{
  Pins, Part, resolved, assign, hits, pins_of, Assigned, assigned, unknown, assign_key, assign_all,
  not_in, finish, after_nets, resolve,
}

lookup-assign :
    (n : Text) (ns : List Text) (net : Text) (d : Dict Text)
    → lookup n (assign ns net d) ≡ (if mem_text n ns then some net else lookup n d)
unfolding assign mem_text
lookup-assign n [] net d = refl
lookup-assign n (m ∷ ns) net d =
    lookup-assign n ns net (put m net d) ∙ rw (lookup-put n m net d) (ground arith)

-- Pin `n` of the symbol is called `name`.
unfoldable pub is_called : Text → Text → Pins → Bool
unfolding text_eq
is_called n name [] = false
is_called n name ((m, called) ∷ pl) = (text_eq n m && text_eq called name) || is_called n name pl

-- A key that is the number of a pin stands for that pin alone; any other key stands for every pin
-- that has this name.
unfoldable pub stands_for : Pins → Text → Text → Bool
unfolding mem_text keys text_eq is_called
stands_for pl key n = if mem_text key (keys pl) then text_eq n key else is_called n key pl

-- The net of the last key that stands for the pin.
abbrev pub last_net : Pins → Text → Dict Text → Option Text → Option Text
last_net pl n [] net = net
last_net pl n ((key, v) ∷ nets) net =
    last_net pl n nets (if stands_for pl key n then some v else net)

mem-hits : (n key : Text) (pl : Pins) → mem_text n (hits key pl) ≡ is_called n key pl
unfolding hits is_called mem_text
mem-hits n key [] = refl
mem-hits n key ((m, called) ∷ pl) = elim (Bool-cases (text_eq called key)) [
  | inl same ↦ rw (same, mem-hits n key pl) (ground arith)
  | inr other ↦ rw (other, mem-hits n key pl) (ground arith)
]

mem-pins_of : (n key : Text) (pl : Pins) → mem_text n (pins_of pl key) ≡ stands_for pl key n
unfolding pins_of stands_for mem_text
mem-pins_of n key pl = elim (Bool-cases (mem_text key (keys pl))) [
  | inl number ↦ rw number (ground arith)
  | inr name ↦ rw name (mem-hits n key pl)
]

-- A key is assigned to its pins, or has none.
key_assigned :
    (key net : Text) (ns : List Text) (d : Dict Text)
    → (assign_key key net ns d ≡ unknown key)
      ⊎ (assign_key key net ns d ≡ assigned (assign ns net d))
unfolding assign_key
key_assigned key net [] d = inl refl
key_assigned key net (n ∷ ns) d = inr refl

unknown-stays :
    (pl : Pins) (nets : Dict Text) (key : Text) → assign_all pl nets (unknown key) ≡ unknown key
unfolding assign_all
unknown-stays pl [] key = refl
unknown-stays pl (k ∷ nets) key = refl

Assigned-cases :
    (a : Assigned) → ((out : Dict Text) × (a ≡ assigned out)) ⊎ ((key : Text) × (a ≡ unknown key))
Assigned-cases (assigned out) = inl (out, refl)
Assigned-cases (unknown key) = inr (key, refl)

lookup_empty : (n : Text) → lookup {V = Text} n [] ≡ none
unfolding lookup
lookup_empty n = refl

lookup-assign_all :
    (pl : Pins) (n : Text) (nets d out : Dict Text)
    → assign_all pl nets (assigned d) ≡ assigned out
    → lookup n out ≡ last_net pl n nets (lookup n d)
unfolding assign_all
lookup-assign_all pl n [] d out h = let e : d ≡ out = cc in rw (sym e)
lookup-assign_all pl n ((key, net) ∷ nets) d out h =
    elim (key_assigned key net (pins_of pl key) d) [
      | inl e ↦ cc (rw e at h, unknown-stays pl nets key)
      | inr e ↦
          lookup-assign_all pl n nets (assign (pins_of pl key) net d) out (rw e at h)
          ∙ ap (last_net pl n nets) (
              lookup-assign n (pins_of pl key) net d
              ∙ ap (λ b. if b then some net else lookup n d) (mem-pins_of n key pl))
    ]

not_in-nil :
    (ns : List Text) (out : Dict Text) (n : Text)
    → not_in ns out ≡ []
    → mem_text n ns ≡ true
    → (net : Text) × (lookup n out ≡ some net)
unfolding not_in mem_text
not_in-nil [] out n h m = cc
not_in-nil (k ∷ ns) out n h m = elim (Bool-cases (mem_text k (keys out))) [
  | inl there ↦ elim (Bool-cases (text_eq n k)) [
    | inl same ↦ rw (text_eq→≡ n k same) (lookup-mem k out there)
    | inr other ↦ not_in-nil ns out n (rw there at h) (rw other at m)
  ]
  | inr gone ↦ cc (rw gone at h)
]

finish-resolved :
    (part : Part) (missing : List Text) (out : Dict Text) (done : Part)
    → finish part missing out ≡ resolved done
    → (missing ≡ []) × (done ≡ record part { pinmap = some out })
unfolding finish
finish-resolved part [] out done h = (refl, cc)
finish-resolved part (n ∷ ns) out done h = cc

-- What `resolve` returns is the part with a map from pins to nets: the map gives a pin the net of
-- the last key that stands for it, and nothing to what no key stands for; and it gives every pin of
-- the symbol a net. A key that is a pin number stands for that pin, any other key for all pins of that
-- name.
pub resolve-resolved :
    (pl : Pins) (part done : Part)
    → resolve pl part ≡ resolved done
    → (out : Dict Text) × (done ≡ record part { pinmap = some out })
      × ((n : Text) → lookup n out ≡ last_net pl n part.nets none)
      × ((n : Text) → mem_text n (keys pl) ≡ true → (net : Text) × (lookup n out ≡ some net))
unfolding resolve after_nets
resolve-resolved pl part done h = elim (Assigned-cases (assign_all pl part.nets (assigned []))) [
  | inl (out, e) ↦
      let (none_missing, same) =
        finish-resolved part (not_in (keys pl) out) out done (rw (e, after_nets) at h) in
      (
        out,
        same,
        (λ n.
            lookup-assign_all pl n part.nets [] out e
            ∙ ap (last_net pl n part.nets) (lookup_empty n)),
        λ n m. not_in-nil (keys pl) out n none_missing m,
      )
  | inr (key, e) ↦ cc (rw (e, after_nets) at h)
]
