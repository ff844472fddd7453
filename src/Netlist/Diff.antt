-- ===== src/Netlist/Diff.antt =====
-- When `diff` of hardware/8ch-old/netlist_fingerprint.py reports nothing.
use thermocouple.Prelude.{
  ◌≡◌, refl, ◌∙◌, ap, sym, true, false, ◌&&◌, List, [], ◌∷◌, ◌++◌, map, Text, text_eq, Bool-cases,
  arith, inl, inr, ◌↔◌, text_eq→≡, text_eq_refl, Option, some, &&-true, ||-false,
}
use thermocouple.Netlist.Lookup.{Dict, lookup, keys, lookup-mem, lookup-not_mem}
use thermocouple.Netlist.Sort.{sort, mem_text, sort-mem}
use thermocouple.Netlist.{
  Component, Fingerprint, Problem, net_removed, net_added, component_removed, component_added,
  missing, common, gone_and_new, texts_eq, component_eq, net_change, component_change, each,
  net_changes, component_changes, diff,
}

pub append-nil_parts {ℓ} : {A : Type ℓ} (xs ys : List A) → xs ++ ys ≡ [] → (xs ≡ []) × (ys ≡ [])
append-nil_parts [] ys h = (refl, h)
append-nil_parts (x ∷ xs) ys h = cc

pub map-nil_parts {ℓ κ} :
    {A : Type ℓ} {B : Type κ} (f : A → B) (xs : List A) → map f xs ≡ [] → xs ≡ []
map-nil_parts f [] h = refl
map-nil_parts f (x ∷ xs) h = cc

nil_of_mem : (xs : List Text) → ((x : Text) → mem_text x xs ≡ false) → xs ≡ []
unfolding mem_text
nil_of_mem [] h = refl
nil_of_mem (x ∷ xs) h =
    let (a, b) = ||-false (text_eq x x) (mem_text x xs) (h x) in cc (sym a ∙ text_eq_refl x)

pub sort-nil : (xs : List Text) → sort xs ≡ [] → xs ≡ []
unfolding mem_text
sort-nil xs h = nil_of_mem xs (λ x. sym (sort-mem x xs) ∙ rw (h, mem_text))

pub missing-mem :
    (x : Text) (xs ys : List Text)
    → missing xs ys ≡ []
    → mem_text x xs ≡ true
    → mem_text x ys ≡ true
unfolding missing mem_text
missing-mem x [] ys h m = cc
missing-mem x (z ∷ xs) ys h m = ground (arith, text_eq→≡ x z, missing-mem x xs ys)

pub missing-nil :
    (xs ys : List Text)
    → ((x : Text) → mem_text x xs ≡ true → mem_text x ys ≡ true)
    → missing xs ys ≡ []
unfolding missing mem_text
missing-nil [] ys h = refl
missing-nil (z ∷ xs) ys h =
    let inside : mem_text z ys ≡ true = h z (rw (text_eq_refl z)) in
    rw inside (missing-nil xs ys (λ x m. h x (ground (arith, m))))

pub common-mem :
    (x : Text) (xs ys : List Text) → mem_text x (common xs ys) ≡ (mem_text x xs && mem_text x ys)
unfolding common mem_text
common-mem x [] ys = refl
common-mem x (z ∷ xs) ys = ground (arith, text_eq→≡ x z, common-mem x xs ys)

each-nil :
    (f : Text → List Problem) (xs : List Text) (x : Text)
    → each f xs ≡ []
    → mem_text x xs ≡ true
    → f x ≡ []
unfolding each mem_text
each-nil f [] x h m = cc
each-nil f (y ∷ ys) x h m =
    let (a, b) = append-nil_parts (f y) (each f ys) h in
    elim (Bool-cases (text_eq x y)) [
      | inl same ↦ rw (text_eq→≡ x y same) a
      | inr other ↦ each-nil f ys x b (rw other at m)
    ]

nil-each :
    (f : Text → List Problem) (xs : List Text)
    → ((x : Text) → mem_text x xs ≡ true → f x ≡ [])
    → each f xs ≡ []
unfolding each mem_text
nil-each f [] h = refl
nil-each f (y ∷ ys) h =
    rw (h y (rw (text_eq_refl y))) (nil-each f ys (λ x m. h x (ground (arith, m))))

-- The two dicts have the same entries.
abbrev pub SameDict {ℓ} : {V : Type ℓ} → Dict V → Dict V → Type ℓ
SameDict d e = (k : Text) → lookup k d ≡ lookup k e

pub texts_eq→≡ : (xs ys : List Text) → texts_eq xs ys ≡ true → xs ≡ ys
unfolding texts_eq
texts_eq→≡ [] [] h = refl
texts_eq→≡ [] (y ∷ ys) h = cc
texts_eq→≡ (x ∷ xs) [] h = cc
texts_eq→≡ (x ∷ xs) (y ∷ ys) h =
    let (a, b) = &&-true (text_eq x y) (texts_eq xs ys) h in
    cc (text_eq→≡ x y a, texts_eq→≡ xs ys b)

pub texts_eq_refl : (xs : List Text) → texts_eq xs xs ≡ true
unfolding texts_eq
texts_eq_refl [] = refl
texts_eq_refl (x ∷ xs) = rw (text_eq_refl x, texts_eq_refl xs)

component_eq→≡ : (c d : Component) → component_eq c d ≡ true → c ≡ d
unfolding component_eq
component_eq→≡ c d h =
    let (a, b) = &&-true _ _ h in
    let p = text_eq→≡ c.value d.value a in
    let r = text_eq→≡ c.footprint d.footprint b in λ i. record { value = p i; footprint = r i }

component_eq_refl : (c : Component) → component_eq c c ≡ true
unfolding component_eq
component_eq_refl c = rw (text_eq_refl (c.value), text_eq_refl (c.footprint))

-- What both parts of `diff` have in common: keys that come and go, and a test of the values under
-- the keys of both.
module _ {V : Type 0} (change : Text → Option V → Option V → List Problem)
    (removed added : Text → Problem)
    (different : (k : Text) (v w : V) → change k (some v) (some w) ≡ [] → v ≡ w)
    (alike : (k : Text) (v : V) → change k (some v) (some v) ≡ []) where
  abbrev changes : Dict V → Dict V → List Problem
  changes d e = each (λ k. change k (lookup k d) (lookup k e)) (sort (common (keys d) (keys e)))

  both_keys :
      (d e : Dict V) (k : Text)
      → mem_text k (keys d) ≡ true
      → mem_text k (keys e) ≡ true
      → mem_text k (sort (common (keys d) (keys e))) ≡ true
  both_keys d e k a b =
      rw (sort-mem k (common (keys d) (keys e)), common-mem k (keys d) (keys e), a, b)

  same_of_nil :
      (d e : Dict V)
      → gone_and_new removed added (keys d) (keys e) ≡ []
      → changes d e ≡ []
      → SameDict d e
  unfolding gone_and_new
  same_of_nil d e g h k =
      let (gone, new) =
        append-nil_parts (map removed (sort (missing (keys d) (keys e))))
          (map added (sort (missing (keys e) (keys d)))) g in
      let no_gone = sort-nil (missing (keys d) (keys e)) (map-nil_parts removed _ gone) in
      let no_new = sort-nil (missing (keys e) (keys d)) (map-nil_parts added _ new) in
      elim (Bool-cases (mem_text k (keys d))) [
        | inl there ↦
            let here_too = missing-mem k (keys d) (keys e) no_gone there in
            let (v, p) = lookup-mem k d there in
            let (w, q) = lookup-mem k e here_too in
            let quiet =
              each-nil (λ j. change j (lookup j d) (lookup j e)) _ k h
                (both_keys d e k there here_too) in
            p ∙ ap some (different k v w (rw (p, q) at quiet)) ∙ sym q
        | inr not_there ↦ elim (Bool-cases (mem_text k (keys e))) [
          | inl there ↦ cc (missing-mem k (keys e) (keys d) no_new there, not_there)
          | inr neither ↦ lookup-not_mem k d not_there ∙ sym (lookup-not_mem k e neither)
        ]
      ]

  mem_of_same :
      (d e : Dict V)
      → SameDict d e
      → (k : Text) → mem_text k (keys d) ≡ true
      → mem_text k (keys e) ≡ true
  mem_of_same d e h k m = elim (Bool-cases (mem_text k (keys e))) [
    | inl there ↦ there
    | inr gone ↦ let (v, p) = lookup-mem k d m in cc (sym p ∙ h k ∙ lookup-not_mem k e gone)
  ]

  nil_of_same :
      (d e : Dict V)
      → SameDict d e
      → (gone_and_new removed added (keys d) (keys e) ≡ []) × (changes d e ≡ [])
  unfolding gone_and_new
  nil_of_same d e h =
      let back : SameDict e d = λ k. sym (h k) in
      let no_gone = missing-nil (keys d) (keys e) (mem_of_same d e h) in
      let no_new = missing-nil (keys e) (keys d) (mem_of_same e d back) in
      (
        rw (no_gone, no_new, sort),
        nil-each _ _ λ k m.
            let (in_d, in_e) =
              &&-true _ _
                (rw (sort-mem k (common (keys d) (keys e)), common-mem k (keys d) (keys e)) at m) in
            let (v, p) = lookup-mem k d in_d in rw (sym (h k), p) (alike k v),
      )

net_change-nil :
    (k : Text) (was now : List Text) → net_change k (some was) (some now) ≡ [] → was ≡ now
unfolding net_change
net_change-nil k was now h = elim (Bool-cases (texts_eq was now)) [
  | inl same ↦ texts_eq→≡ was now same
  | inr other ↦ cc (rw other at h)
]

net_change-same : (k : Text) (pins : List Text) → net_change k (some pins) (some pins) ≡ []
unfolding net_change
net_change-same k pins = rw (texts_eq_refl pins)

component_change-nil :
    (k : Text) (was now : Component) → component_change k (some was) (some now) ≡ [] → was ≡ now
unfolding component_change
component_change-nil k was now h = elim (Bool-cases (component_eq was now)) [
  | inl same ↦ component_eq→≡ was now same
  | inr other ↦ cc (rw other at h)
]

component_change-same : (k : Text) (c : Component) → component_change k (some c) (some c) ≡ []
unfolding component_change
component_change-same k c = rw (component_eq_refl c)

-- `diff` reports nothing exactly when the two netlists have the same nets, each with the same pins,
-- and the same components, each with the same value and footprint.
pub diff-nil_iff :
    (before after : Fingerprint)
    → (diff before after ≡ [])
      ↔ (SameDict before.nets after.nets × SameDict before.components after.components)
unfolding diff net_changes component_changes
diff-nil_iff before after = (
  λ h.
      let (nets, rest) = append-nil_parts _ _ h in
      let (parts, changed) = append-nil_parts _ _ rest in
      let (net_part, component_part) = append-nil_parts _ _ changed in
      (
        same_of_nil net_change net_removed net_added net_change-nil net_change-same before.nets
            after.nets nets net_part,
        same_of_nil component_change component_removed component_added component_change-nil
            component_change-same before.components after.components parts component_part,
      ),
  λ (nets, components).
      let (a, b) =
        nil_of_same net_change net_removed net_added net_change-nil net_change-same before.nets
          after.nets nets in
      let (c, d) =
        nil_of_same component_change component_removed component_added component_change-nil
          component_change-same before.components after.components components in
      rw (a, b, c, d),
)
