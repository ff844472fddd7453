-- ===== src/Maze/Clearance.antt =====
-- The clearances of the maze router (`bare`, `need` and `width_of` of hardware/family/tools/maze.py)
-- and the key of its cache of masks (`obstacles` of maze_ops.py), in 1/100 mm.
use thermocouple.Prelude.{
  ℕ, ◌≡◌, Bool, true, false, not, ◌&&◌, ◌||◌, List, [], ◌∷◌, ◌++◌, Text, text_eq, if◌then◌else◌,
  refl, sym, ◌∙◌, Bool-cases, inl, inr, arith, ◌==◌,
}

-- What the profile of the board gives; `planes` are the keys of PLANE.
pub record Profile : Type 0 where
  pub contact : List Text
  pub planes : List Text
  pub chassis : Text
  pub high_clearance : List Text

unfoldable pub mem_net : Text → List Text → Bool
unfolding text_eq
mem_net n [] = false
mem_net n (m ∷ ms) = text_eq n m || mem_net n ms

-- n.rsplit("/", 1)[-1]: what stands after the last slash; `name` is what stands after the last so far.
unfoldable pub bare_from : Text → Text → Text
bare_from name [] = name
bare_from name (c ∷ s) = bare_from (if c == b'/' then [] else (name ++ (c ∷ []))) s

unfoldable pub bare : Text → Text
unfolding bare_from
bare n = bare_from [] n

unfoldable pub is_empty : Text → Bool
is_empty [] = true
is_empty (c ∷ s) = false

unfoldable pub is_either : (Text → Bool) → Text → Text → Bool
is_either test a b = test a || test b

-- The tests that follow those of the contacts.
unfoldable pub need_of_rest : Profile → Text → Text → Bool → ℕ
unfolding mem_net is_either is_empty text_eq
need_of_rest p a b is_pad =
    if is_either (text_eq p.chassis) a b
    then 150
    else if is_either (λ n. mem_net n p.high_clearance) a b
    then 27
    else if is_pad || is_either (λ n. mem_net n p.planes) a b || is_either is_empty a b
    then 21
    else 16

unfoldable pub differ : Bool → Bool → Bool
differ true b = not b
differ false b = b

unfoldable pub need : Profile → Text → Text → Bool → ℕ
unfolding need_of_rest differ mem_net
need p a b is_pad =
    if mem_net a p.contact && mem_net b p.contact
    then 100
    else if differ (mem_net a p.contact) (mem_net b p.contact)
    then 200
    else need_of_rest p a b is_pad

unfoldable pub width_of : Profile → Text → ℕ
unfolding mem_net
width_of p net = if mem_net net p.contact then 80 else if mem_net net p.planes then 25 else 20

pub data Category : Type 0 where
  contact chassis std : Category

-- `cat` of `obstacles`; with the width it is the key of a mask.
unfoldable pub category : Profile → Text → Category
unfolding mem_net text_eq
category p net =
    if mem_net net p.contact then contact else if text_eq net p.chassis then chassis else std

text_eq_comm : (s t : Text) → text_eq s t ≡ text_eq t s
unfolding text_eq
text_eq_comm [] [] = refl
text_eq_comm [] (b ∷ t) = refl
text_eq_comm (a ∷ s) [] = refl
text_eq_comm (a ∷ s) (b ∷ t) = ground (arith, text_eq_comm s t)

-- What the category tells of a net.
category_of : Bool → Bool → Category
category_of in_contact is_chassis =
    if in_contact then contact else if is_chassis then chassis else std

category-facts :
    (ca ha cb hb : Bool)
    → category_of ca ha ≡ category_of cb hb
    → (ca ≡ cb) × (ca ≡ false → ha ≡ hb)
unfolding category_of
category-facts true ha true hb e = (refl, λ h. cc)
category-facts true ha false true e = cc
category-facts true ha false false e = cc
category-facts false true true hb e = cc
category-facts false false true hb e = cc
category-facts false true false true e = (refl, λ h. refl)
category-facts false true false false e = cc
category-facts false false false true e = cc
category-facts false false false false e = (refl, λ h. refl)

plane_width : Bool → ℕ
plane_width is_plane = if is_plane then 25 else 20

width_facts : (pa pb : Bool) → plane_width pa ≡ plane_width pb → pa ≡ pb
unfolding plane_width
width_facts true true e = refl
width_facts true false e = absurd (omega (arith, e))
width_facts false true e = absurd (omega (arith, e))
width_facts false false e = refl

-- Two nets with a name that have the same category and width, and that both have the high clearance or
-- both have not, need the same clearance to every other net, of a track or of a pad: the key of the
-- cache of masks and the high clearance together decide what a mask is for.
pub category-need :
    (p : Profile) (a b other : Text) (is_pad : Bool)
    → category p a ≡ category p b
    → width_of p a ≡ width_of p b
    → mem_net a p.high_clearance ≡ mem_net b p.high_clearance
    → is_empty a ≡ false
    → is_empty b ≡ false
    → need p a other is_pad ≡ need p b other is_pad
unfolding category width_of need need_of_rest differ is_either category_of plane_width
category-need p a b other is_pad same_category same_width same_high named named' =
    let (same_contact, same_chassis) =
      category-facts (mem_net a p.contact) (text_eq a p.chassis) (mem_net b p.contact)
        (text_eq b p.chassis) same_category in
    elim (Bool-cases (mem_net a p.contact)) [
      | inl in_contact ↦
          let also : mem_net b p.contact ≡ true = sym same_contact ∙ in_contact in
          rw (in_contact, also)
            (elim (Bool-cases (mem_net other p.contact)) [ inl k ↦ rw k refl | inr k ↦ rw k refl ])
      | inr out ↦
          let also : mem_net b p.contact ≡ false = sym same_contact ∙ out in
          let same_plane =
            width_facts (mem_net a p.planes) (mem_net b p.planes) (rw (out, also) at same_width) in
          let same_chassis' : text_eq p.chassis a ≡ text_eq p.chassis b =
            text_eq_comm p.chassis a ∙ same_chassis out ∙ text_eq_comm b p.chassis in
          rw (out, also, same_chassis', same_high, same_plane, named, named') refl
    ]
