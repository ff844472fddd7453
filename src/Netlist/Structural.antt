-- ===== src/Netlist/Structural.antt =====
-- When `structural` of hardware/8ch-old/netlist_fingerprint.py reports nothing.
use thermocouple.Prelude.{
  ◌≡◌, refl, ◌∙◌, sym, Bool, true, false, ◌||◌, List, [], ◌∷◌, Text, Bool-cases, arith, inl, inr,
  ◌↔◌, some, Option-cases,
}
use thermocouple.Netlist.Lookup.{Dict}
use thermocouple.Netlist.Diff.{SameDict, diff-nil_iff, append-nil_parts, texts_eq→≡, texts_eq_refl}
use thermocouple.Netlist.{
  Fingerprint, PinDict, texts_eq, pins_get, pins_put, pins_del, by_pins, match_nets, left_over,
  only_components, structural,
}

-- Some net has exactly these pins.
abbrev pub has_pins : List Text → Dict (List Text) → Bool
has_pins pins [] = false
has_pins pins ((name, p) ∷ nets) = texts_eq pins p || has_pins pins nets

abbrev pub has_key : List Text → PinDict → Bool
has_key pins [] = false
has_key pins ((p, name) ∷ d) = texts_eq pins p || has_key pins d

-- No two nets have the same pins.
abbrev pub Distinct : Dict (List Text) → Type 0
Distinct [] = Unit
Distinct ((name, p) ∷ nets) = (has_pins p nets ≡ false) × Distinct nets

get-key :
    (pins : List Text) (d : PinDict)
    → has_key pins d ≡ true
    → (n : Text) × (pins_get pins d ≡ some n)
unfolding pins_get
get-key pins [] h = cc
get-key pins ((p, name) ∷ d) h = elim (Bool-cases (texts_eq pins p)) [
  | inl same ↦ (name, rw same)
  | inr other ↦ rw other (get-key pins d (rw other at h))
]

pub key-get :
    (pins : List Text) (d : PinDict) (n : Text) → pins_get pins d ≡ some n → has_key pins d ≡ true
unfolding pins_get
key-get pins [] n h = cc
key-get pins ((p, name) ∷ d) n h = ground (arith, key-get pins d n)

pub del_self : (pins : List Text) (d : PinDict) → has_key pins (pins_del pins d) ≡ false
unfolding pins_del
del_self pins [] = refl
del_self pins ((p, name) ∷ d) = ground (arith, del_self pins d)

del_other :
    (pins other : List Text) (d : PinDict)
    → texts_eq other pins ≡ false
    → has_key other (pins_del pins d) ≡ has_key other d
unfolding pins_del
del_other pins other [] h = refl
del_other pins other ((p, name) ∷ d) h = elim (Bool-cases (texts_eq pins p)) [
  | inl same ↦ rw (same, sym (texts_eq→≡ pins p same), h) (del_other pins other d h)
  | inr differ ↦ rw (differ, del_other pins other d h)
]

key-put :
    (x pins : List Text) (name : Text) (d : PinDict)
    → has_key x (pins_put pins name d) ≡ (texts_eq x pins || has_key x d)
unfolding pins_put
key-put x pins name [] = refl
key-put x pins name ((p, old) ∷ d) = elim (Bool-cases (texts_eq pins p)) [
  | inl same ↦ rw (same, texts_eq→≡ pins p same) (ground arith)
  | inr differ ↦ rw (differ, key-put x pins name d) (ground arith)
]

key-by_pins :
    (x : List Text) (nets : Dict (List Text)) (d : PinDict)
    → has_key x (by_pins nets d) ≡ (has_key x d || has_pins x nets)
unfolding by_pins
key-by_pins x [] d = ground arith
key-by_pins x ((name, p) ∷ nets) d =
    key-by_pins x nets (pins_put p name d) ∙ rw (key-put x p name d) (ground arith)

no_keys : (d : PinDict) → ((x : List Text) → has_key x d ≡ false) → d ≡ []
no_keys [] h = refl
no_keys ((p, name) ∷ d) h = cc (rw (texts_eq_refl p) at (h p))

-- The nets and the keys are the same sets of pins, and no net is matched twice.
abbrev Covers : Dict (List Text) → PinDict → Type 0
Covers nets d = ((x : List Text) → has_pins x nets ≡ has_key x d) × Distinct nets

matched-Covers :
    (nets : Dict (List Text)) (d : PinDict)
    → (match_nets nets d).problems ≡ []
    → (match_nets nets d).left ≡ []
    → Covers nets d
unfolding match_nets
matched-Covers [] d h left = ((λ x. rw left), tt)
matched-Covers ((name, p) ∷ nets) d h left = elim (Option-cases (pins_get p d)) [
  | inl gone ↦ cc (rw (gone, match_nets) at h)
  | inr (new, found) ↦
      let (same, distinct) =
        matched-Covers nets (pins_del p d) (rw (found, match_nets) at h)
          (rw (found, match_nets) at left) in
      (
        (λ x. elim (Bool-cases (texts_eq x p)) [
          | inl e ↦ rw (texts_eq→≡ x p e) (rw (texts_eq_refl p, key-get p d new found))
          | inr other ↦ rw other (same x ∙ del_other p x d other)
        ]),
        (same p ∙ del_self p d, distinct),
      )
]

Covers-matched :
    (nets : Dict (List Text)) (d : PinDict)
    → Covers nets d
    → ((match_nets nets d).problems ≡ []) × ((match_nets nets d).left ≡ [])
unfolding match_nets
Covers-matched [] d (same, distinct) = (refl, no_keys d (λ x. sym (same x)))
Covers-matched ((name, p) ∷ nets) d (same, (new_pins, distinct)) =
    let there : has_key p d ≡ true = sym (same p) ∙ rw (texts_eq_refl p) in
    let (new, found) = get-key p d there in
    let rest = Covers-matched nets (pins_del p d) (
      (λ x. elim (Bool-cases (texts_eq x p)) [
        | inl e ↦ rw (texts_eq→≡ x p e) (new_pins ∙ sym (del_self p d))
        | inr other ↦ (rw other at (same x)) ∙ sym (del_other p x d other)
      ]),
      distinct,
    ) in
    rw (found, match_nets) rest

pub left_over-nil : (d : PinDict) → left_over d ≡ [] → d ≡ []
unfolding left_over
left_over-nil [] h = refl
left_over-nil ((p, name) ∷ d) h = cc

no_nets : SameDict {V = List Text} [] []
no_nets k = refl

-- Whatever the names of the nets, `structural` reports no problem exactly when the two netlists have
-- the same sets of pins as nets, no two nets of the first have the same pins, and the components are
-- the same, with the same values and footprints.
pub structural-nil_iff :
    (before after : Fingerprint)
    → ((structural before after).1 ≡ []) ↔ (
        ((pins : List Text) → has_pins pins before.nets ≡ has_pins pins after.nets)
        × Distinct before.nets
        × SameDict before.components after.components)
unfolding structural only_components
structural-nil_iff before after = (
  λ h.
      let (unmatched, rest) = append-nil_parts _ _ h in
      let (new, parts) = append-nil_parts _ _ rest in
      let (same, distinct) =
        matched-Covers before.nets (by_pins after.nets []) unmatched (left_over-nil _ new) in
      (
        (λ pins. same pins ∙ key-by_pins pins after.nets []),
        distinct,
        ((diff-nil_iff (only_components before) (only_components after)).0 parts).1,
      ),
  λ (same, distinct, parts).
      let (unmatched, new) =
        Covers-matched before.nets (by_pins after.nets [])
          ((λ x. same x ∙ sym (key-by_pins x after.nets [])), distinct) in
      let quiet =
        (diff-nil_iff (only_components before) (only_components after)).1 (no_nets, parts) in
      rw (unmatched, new, left_over, quiet),
)
