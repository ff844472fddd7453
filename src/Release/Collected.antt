-- ===== src/Release/Collected.antt =====
-- The parts that `components` of hardware/family/gen/compare_release.py collects, and what it refuses.
use thermocouple.Prelude.{
  suc, ◌+◌, ◌≤◌, ◌≡◌, refl, sym, ap, ◌∙◌, subst, Bool, true, false, ◌||◌, ◌==◌, ==→≡, Option, none,
  some, List, [], ◌∷◌, Text, text_eq, text_eq→≡, if◌then◌else◌, Bool-cases, inl, inr, length, arith,
  All,
}
use thermocouple.Netlist.Lookup.{Dict, lookup, put, keys, lookup-put}
use thermocouple.Netlist.Sort.{mem_text}
use thermocouple.Release.NetlistXml.{Comp, Root}
use thermocouple.Release.Roots.{
  Value, checked, to_dict, or_empty, record_of, add_component, components_from, components,
  and_then,
}

-- No text of the list was seen before, nor stands earlier in the list.
abbrev pub Fresh : List Text → (Text → Bool) → Type 0
Fresh [] seen = Unit
Fresh (n ∷ ns) seen = (seen n ≡ false) × Fresh ns (λ t. text_eq t n || seen t)

unfoldable pub refs_of : List Comp → List Text
refs_of [] = []
refs_of (c ∷ cs) = c.ref ∷ refs_of cs

unfoldable pub field_names : List (Text × Option Text) → List Text
field_names [] = []
field_names ((name, s) ∷ xs) = name ∷ field_names xs

-- No field name stands twice in the part.
abbrev pub UniqueFields : Comp → Type 0
UniqueFields c = Fresh (field_names c.fields) (λ t. false)

-- No reference stands twice, and no field in one part.
abbrev pub Unique : List Comp → Type 0
Unique cs = Fresh (refs_of cs) (λ t. false) × All UniqueFields cs

unfoldable pub or_else {ℓ} : {A : Type ℓ} → Option A → Option A → Option A
or_else none o = o
or_else (some a) o = some a

-- The last part that has the reference.
unfoldable pub part_of : Text → List Comp → Option Comp
unfolding or_else text_eq
part_of ref [] = none
part_of ref (c ∷ cs) = or_else (part_of ref cs) (if text_eq ref c.ref then some c else none)

unfoldable pub recorded : Option Comp → Option (Dict Value)
unfolding record_of
recorded none = none
recorded (some c) = some (record_of c)

module _ {V : Type 0} where
  pub mem-put :
      (n k : Text) (v : V) (d : Dict V)
      → mem_text n (keys (put k v d)) ≡ (text_eq n k || mem_text n (keys d))
  unfolding put keys mem_text
  mem-put n k v [] = refl
  mem-put n k v ((j, w) ∷ d) = elim (Bool-cases (text_eq k j)) [
    | inl same ↦ rw (same, text_eq→≡ k j same) (ground arith)
    | inr other ↦ let rest = mem-put n k v d in rw other (ground (arith, rest))
  ]

  length-put :
      (k : Text) (v : V) (d : Dict V)
      → length (put k v d) ≡ (if mem_text k (keys d) then length d else suc (length d))
  unfolding put keys mem_text
  length-put k v [] = refl
  length-put k v ((j, w) ∷ d) = elim (Bool-cases (text_eq k j)) [
    | inl same ↦ rw same refl
    | inr other ↦ elim (Bool-cases (mem_text k (keys d))) [
      | inl there ↦ rw (other, there) (ap suc (length-put k v d ∙ rw there refl))
      | inr gone ↦ rw (other, gone) (ap suc (length-put k v d ∙ rw gone refl))
    ]
  ]

  -- What is seen after an assignment.
  seen-put :
      (k : Text) (v : V) (d : Dict V) (ns : List Text)
      → Fresh ns (λ t. mem_text t (keys (put k v d)))
        ≡ Fresh ns (λ t. text_eq t k || mem_text t (keys d))
  seen-put k v d ns = λ i. Fresh ns (λ t. mem-put t k v d i)

to_dict-length :
    (xs : List (Text × Option Text)) (d : Dict Text) → length (to_dict xs d) ≤ length d + length xs
unfolding to_dict
to_dict-length [] d = omega arith
to_dict-length ((n, s) ∷ xs) d =
    let rest = to_dict-length xs (put n (or_empty s) d) in
    let here = length-put n (or_empty s) d in
    elim (Bool-cases (mem_text n (keys d))) [
      | inl there ↦
          let e : length (put n (or_empty s) d) ≡ length d = here ∙ rw there refl in
          omega (arith, rest, e)
      | inr gone ↦
          let e : length (put n (or_empty s) d) ≡ suc (length d) = here ∙ rw gone refl in
          omega (arith, rest, e)
    ]

to_dict-Fresh :
    (xs : List (Text × Option Text)) (d : Dict Text)
    → length (to_dict xs d) ≡ length d + length xs
    → Fresh (field_names xs) (λ t. mem_text t (keys d))
unfolding to_dict field_names
to_dict-Fresh [] d h = tt
to_dict-Fresh ((n, s) ∷ xs) d h =
    let rest = to_dict-length xs (put n (or_empty s) d) in
    let here = length-put n (or_empty s) d in
    elim (Bool-cases (mem_text n (keys d))) [
      | inl there ↦
          let e : length (put n (or_empty s) d) ≡ length d = here ∙ rw there refl in
          absurd (omega (arith, rest, e, h))
      | inr gone ↦
          let e : length (put n (or_empty s) d) ≡ suc (length d) = here ∙ rw gone refl in
          (
            gone,
            subst (λ (T : Type 0). T) (seen-put n (or_empty s) d (field_names xs))
                (to_dict-Fresh xs (put n (or_empty s) d) (omega (arith, e, h))),
          )
    ]

Fresh-to_dict :
    (xs : List (Text × Option Text)) (d : Dict Text)
    → Fresh (field_names xs) (λ t. mem_text t (keys d))
    → length (to_dict xs d) ≡ length d + length xs
unfolding to_dict field_names
Fresh-to_dict [] d h = omega arith
Fresh-to_dict ((n, s) ∷ xs) d (gone, h) =
    let e : length (put n (or_empty s) d) ≡ suc (length d) =
      length-put n (or_empty s) d ∙ rw gone refl in
    let rest =
      Fresh-to_dict xs (put n (or_empty s) d)
        (subst (λ (T : Type 0). T) (sym (seen-put n (or_empty s) d (field_names xs))) h) in
    omega (arith, rest, e)

nothing_seen :
    (ns : List Text) → Fresh ns (λ t. mem_text t (keys {V = Text} [])) → Fresh ns (λ t. false)
unfolding mem_text keys
nothing_seen ns h = h

nothing_seen' :
    (ns : List Text) → Fresh ns (λ t. false) → Fresh ns (λ t. mem_text t (keys {V = Text} []))
unfolding mem_text keys
nothing_seen' ns h = h

fields_unique :
    (c : Comp) → (length (to_dict c.fields []) == length c.fields) ≡ true → UniqueFields c
fields_unique c h =
    let e = ==→≡ (length (to_dict c.fields [])) (length c.fields) h in
    nothing_seen (field_names c.fields) (to_dict-Fresh c.fields [] (omega (arith, e)))

unique_fields :
    (c : Comp) → UniqueFields c → (length (to_dict c.fields []) == length c.fields) ≡ true
unique_fields c h =
    let e = Fresh-to_dict c.fields [] (nothing_seen' (field_names c.fields) h) in ground (arith, e)

recorded_or :
    (found : Option Comp) (here : Bool) (c : Comp) (old : Option (Dict Value))
    → or_else (recorded found) (if here then some (record_of c) else old)
      ≡ or_else (recorded (or_else found (if here then some c else none))) old
unfolding or_else recorded
recorded_or none true c old = refl
recorded_or none false c old = refl
recorded_or (some e) here c old = refl

Step-cases :
    (c : Comp) (d : Dict (Dict Value)) (cs : List Comp) (out : Dict (Dict Value))
    → components_from (c ∷ cs) d ≡ checked out
    → (mem_text c.ref (keys d) ≡ false)
      × UniqueFields c
      × (components_from cs (put c.ref (record_of c) d) ≡ checked out)
unfolding components_from add_component
Step-cases c d cs out h = elim (Bool-cases (mem_text c.ref (keys d))) [
  | inl twice ↦ cc (rw twice at h)
  | inr once ↦ elim (Bool-cases (length (to_dict c.fields []) == length c.fields)) [
    | inr field ↦ cc (rw (once, field) at h)
    | inl unique ↦ (once, fields_unique c unique, rw (once, unique) at h)
  ]
]

components_from-Unique :
    (cs : List Comp) (d out : Dict (Dict Value))
    → components_from cs d ≡ checked out
    → Fresh (refs_of cs) (λ t. mem_text t (keys d))
      × All UniqueFields cs
      × ((ref : Text) → lookup ref out ≡ or_else (recorded (part_of ref cs)) (lookup ref d))
unfolding refs_of part_of recorded or_else components_from
components_from-Unique [] d out h = let e : d ≡ out = cc in (tt, tt, λ ref. rw e refl)
components_from-Unique (c ∷ cs) d out h =
    let (once, unique, further) = Step-cases c d cs out h in
    let (fresh, others, found) =
      components_from-Unique cs (put c.ref (record_of c) d) out further in
    (
      (once, subst (λ (T : Type 0). T) (seen-put c.ref (record_of c) d (refs_of cs)) fresh),
      (unique, others),
      λ ref.
          found ref
          ∙ ap (or_else (recorded (part_of ref cs))) (lookup-put ref c.ref (record_of c) d)
          ∙ recorded_or (part_of ref cs) (text_eq ref c.ref) c (lookup ref d),
    )

Unique-components_from :
    (cs : List Comp) (d : Dict (Dict Value))
    → Fresh (refs_of cs) (λ t. mem_text t (keys d))
    → All UniqueFields cs
    → (out : Dict (Dict Value)) × (components_from cs d ≡ checked out)
unfolding refs_of components_from add_component
Unique-components_from [] d fresh unique = (d, refl)
Unique-components_from (c ∷ cs) d (once, fresh) (unique, others) =
    let next = put c.ref (record_of c) d in
    let (out, done) =
      Unique-components_from cs next
        (subst (λ (T : Type 0). T) (sym (seen-put c.ref (record_of c) d (refs_of cs))) fresh)
        others in
    let taken : add_component c d ≡ checked next = rw (once, unique_fields c unique) refl in
    (out, ap (λ r. and_then r (components_from cs)) taken ∙ done)

none_seen :
    (ns : List Text) → Fresh ns (λ t. mem_text t (keys {V = Dict Value} [])) → Fresh ns (λ t. false)
unfolding mem_text keys
none_seen ns h = h

none_seen' :
    (ns : List Text) → Fresh ns (λ t. false) → Fresh ns (λ t. mem_text t (keys {V = Dict Value} []))
unfolding mem_text keys
none_seen' ns h = h

or_none_left :
    (ref : Text) (o : Option (Dict Value)) → or_else o (lookup {V = Dict Value} ref []) ≡ o
unfolding or_else lookup
or_none_left ref none = refl
or_none_left ref (some d) = refl

-- What `components` collects, where it refuses nothing.
pub components-Unique :
    (root : Root) (out : Dict (Dict Value))
    → components root ≡ checked out
    → Unique root.comps × ((ref : Text) → lookup ref out ≡ recorded (part_of ref root.comps))
unfolding components
components-Unique root out h =
    let (fresh, unique, found) = components_from-Unique root.comps [] out h in
    (
      (none_seen (refs_of root.comps) fresh, unique),
      λ ref. found ref ∙ or_none_left ref (recorded (part_of ref root.comps)),
    )

pub Unique-components :
    (root : Root) → Unique root.comps → (out : Dict (Dict Value)) × (components root ≡ checked out)
unfolding components
Unique-components root (fresh, unique) =
    Unique-components_from root.comps [] (none_seen' (refs_of root.comps) fresh) unique
