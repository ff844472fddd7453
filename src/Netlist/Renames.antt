-- ===== src/Netlist/Renames.antt =====
-- Which renames `structural` of hardware/8ch-old/netlist_fingerprint.py reports.
use thermocouple.Prelude.{
  ◌≡◌, refl, ◌∙◌, sym, false, List, [], ◌∷◌, Text, text_eq, if◌then◌else◌, Bool-cases, arith, inl,
  inr, ◌⊎◌, text_eq→≡, text_eq_refl, none, some, Option-cases,
}
use thermocouple.Netlist.Lookup.{Dict, lookup}
use thermocouple.Netlist.Diff.{append-nil_parts, texts_eq→≡}
use thermocouple.Netlist.Structural.{has_key, key-get, del_self}
use thermocouple.Netlist.{
  Fingerprint, PinDict, texts_eq, pins_get, pins_put, pins_del, by_pins, rename, match_nets,
  structural,
}

-- No key stands twice, as in any dict.
abbrev pub IsDict {ℓ} : {V : Type ℓ} → Dict V → Type ℓ
IsDict [] = Unit
IsDict ((k, v) ∷ d) = (lookup k d ≡ none) × IsDict d

get-put :
    (x p : List Text) (m n : Text) (d : PinDict)
    → pins_get x (pins_put p m d) ≡ some n
    → ((x ≡ p) × (n ≡ m)) ⊎ (pins_get x d ≡ some n)
unfolding pins_get pins_put
get-put x p m n [] h = elim (Bool-cases (texts_eq x p)) [
  | inl same ↦ inl (texts_eq→≡ x p same, cc (rw same at h))
  | inr other ↦ cc (rw other at h)
]
get-put x p m n ((r, old) ∷ d) h = elim (Bool-cases (texts_eq p r)) [
  | inl here ↦ elim (Bool-cases (texts_eq x r)) [
    | inl same ↦
        inl (texts_eq→≡ x r same ∙ sym (texts_eq→≡ p r here), cc (rw (here, pins_get, same) at h))
    | inr other ↦ inr (rw other (rw (here, pins_get, other) at h))
  ]
  | inr later ↦ elim (Bool-cases (texts_eq x r)) [
    | inl same ↦ inr (rw same (rw (later, pins_get, same) at h))
    | inr other ↦ rw other (get-put x p m n d (rw (later, pins_get, other) at h))
  ]
]

get-by_pins :
    (x : List Text) (n : Text) (nets : Dict (List Text)) (d : PinDict)
    → IsDict nets
    → pins_get x (by_pins nets d) ≡ some n
    → (lookup n nets ≡ some x) ⊎ (pins_get x d ≡ some n)
unfolding by_pins lookup
get-by_pins x n [] d names h = inr h
get-by_pins x n ((m, p) ∷ nets) d (once, names) h =
    elim (get-by_pins x n nets (pins_put p m d) names h) [
      | inl later ↦ elim (Bool-cases (text_eq n m)) [
        | inl same ↦ cc (rw (text_eq→≡ n m same) at later, once)
        | inr other ↦ inl (rw other later)
      ]
      | inr before ↦ elim (get-put x p m n d before) [
        | inl (e, f) ↦ inl (rw (f, text_eq_refl m, e))
        | inr old ↦ inr old
      ]
    ]

get-del :
    (x p : List Text) (n : Text) (d : PinDict)
    → pins_get x (pins_del p d) ≡ some n
    → pins_get x d ≡ some n
unfolding pins_get pins_del
get-del x p n [] h = h
get-del x p n ((r, old) ∷ d) h = elim (Bool-cases (texts_eq p r)) [
  | inl here ↦ elim (Bool-cases (texts_eq x r)) [
    | inl same ↦
        let e : x ≡ p = texts_eq→≡ x r same ∙ sym (texts_eq→≡ p r here) in
        let gone : has_key x (pins_del p d) ≡ false = rw e (del_self p d) in
        cc (gone, key-get x (pins_del p d) n (rw (here, pins_get) at h))
    | inr other ↦ rw other (get-del x p n d (rw (here, pins_get) at h))
  ]
  | inr later ↦ elim (Bool-cases (texts_eq x r)) [
    | inl same ↦ rw same (rw (later, pins_get, same) at h)
    | inr other ↦ rw other (get-del x p n d (rw (later, pins_get, other) at h))
  ]
]

lookup-rename :
    (name new k : Text) (renames : List (Text × Text))
    → lookup k renames ≡ none
    → lookup k (rename name new renames)
      ≡ (if text_eq new name then none else if text_eq k name then some new else none)
unfolding rename lookup
lookup-rename name new k renames h = elim (Bool-cases (text_eq new name)) [
  | inl same ↦ rw same h
  | inr other ↦ rw (other, lookup, h)
]

renames_other :
    (k : Text) (nets : Dict (List Text)) (d : PinDict)
    → lookup k nets ≡ none
    → lookup k (match_nets nets d).renames ≡ none
unfolding match_nets lookup
renames_other k [] d h = refl
renames_other k ((m, p) ∷ nets) d h = elim (Bool-cases (text_eq k m)) [
  | inl same ↦ cc (rw same at h)
  | inr other ↦ elim (Option-cases (pins_get p d)) [
    | inl gone ↦ rw (gone, match_nets) (renames_other k nets d (rw other at h))
    | inr (new, found) ↦
        rw (found, match_nets)
          (lookup-rename m new k _ (renames_other k nets (pins_del p d) (rw other at h))
            ∙ ground arith)
  ]
]

lookup-rename_other :
    (name new k : Text) (renames : List (Text × Text))
    → text_eq k name ≡ false
    → lookup k (rename name new renames) ≡ lookup k renames
unfolding rename lookup
lookup-rename_other name new k renames other = elim (Bool-cases (text_eq new name)) [
  | inl same ↦ rw same
  | inr differ ↦ rw (differ, lookup, other)
]

-- What the loop does with a net.
abbrev Renamed : Text → List Text → PinDict → List (Text × Text) → Type 0
Renamed name pins d renames =
    (new : Text) × (pins_get pins d ≡ some new)
    × (lookup name renames ≡ (if text_eq new name then none else some new))

match-Renamed :
    (name : Text) (pins : List Text) (nets : Dict (List Text)) (d : PinDict)
    → IsDict nets
    → (match_nets nets d).problems ≡ []
    → lookup name nets ≡ some pins
    → Renamed name pins d (match_nets nets d).renames
unfolding match_nets lookup
match-Renamed name pins [] d names quiet there = cc
match-Renamed name pins ((m, p) ∷ nets) d (once, names) quiet there =
    elim (Option-cases (pins_get p d)) [
      | inl gone ↦ cc (rw (gone, match_nets) at quiet)
      | inr (new, found) ↦ elim (Bool-cases (text_eq name m)) [
        | inl same ↦
            let e = text_eq→≡ name m same in
            let pins_p : p ≡ pins = cc (rw same at there) in
            let rest = renames_other m nets (pins_del p d) once in
            (
              new,
              rw (sym pins_p) found,
              rw (found, match_nets, e) (lookup-rename m new m _ rest ∙ rw (text_eq_refl m)),
            )
        | inr other ↦
            let (n, kept, renamed) =
              match-Renamed name pins nets (pins_del p d) names (rw (found, match_nets) at quiet)
                (rw other at there) in
            (
              n,
              get-del pins p n d kept,
              rw (found, match_nets) (lookup-rename_other m new name _ other ∙ renamed),
            )
      ]
    ]

-- If `structural` reports no problem, every net of the first netlist is a net of the second with
-- the same pins, under the name that the renames give, and under its own where they give none.
pub structural-renames :
    (before after : Fingerprint) (name : Text) (pins : List Text)
    → IsDict before.nets
    → IsDict after.nets
    → (structural before after).1 ≡ []
    → lookup name before.nets ≡ some pins
    → (new : Text) × (lookup new after.nets ≡ some pins)
      × (lookup name (structural before after).0 ≡ (if text_eq new name then none else some new))
unfolding structural
structural-renames before after name pins names after_names quiet there =
    let (unmatched, rest) = append-nil_parts _ _ quiet in
    let (new, found, renamed) =
      match-Renamed name pins before.nets (by_pins after.nets []) names unmatched there in
    elim (get-by_pins pins new after.nets [] after_names found) [
      | inl old ↦ (new, old, renamed)
      | inr empty ↦ unfold pins_get in cc
    ]
