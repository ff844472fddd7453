-- ===== src/Passives/ByHand.antt =====
-- The catalog entries that are given by hand, of hardware/8ch-old/source_passives.py.
use thermocouple.Prelude.{
  ◌≡◌, refl, sym, subst, ◌∙◌, Bool, true, false, not, ◌&&◌, List, [], ◌∷◌, Text, text_eq, text_eq→≡,
  arith, Bool-cases, inl, inr, ◌⊎◌, &&-true,
}
use thermocouple.Netlist.Sort.{mem_text}
use thermocouple.Netlist.Lookup.{lookup, put, keys}
use thermocouple.Passives.Data.{by_hand, Manual}
use thermocouple.Passives.Table.{requirements, manual}
use thermocouple.Passives.{Catalog, with_manual, mpn_of, has_mpn}
use thermocouple.Passives.Missing.{is_named, named-has_mpn, distinct}
use thermocouple.Passives.Filled.{lookup-put_other, lookup-put_same, tail_none}

pub listed_later :
    (n v : Text) (ks : List Text)
    → text_eq n v ≡ false
    → mem_text n (v ∷ ks) ≡ true
    → mem_text n ks ≡ true
unfolding mem_text
listed_later n v ks other there = ground arith

pub with_manual-kept :
    (n : Text) (more : List (Text × Manual)) (k : Catalog)
    → mem_text n (keys more) ≡ false
    → lookup n (with_manual more k).parts ≡ lookup n k.parts
unfolding with_manual keys
with_manual-kept n [] k out = refl
with_manual-kept n ((v, part) ∷ more) k out =
    let (other, rest) = tail_none n v (keys more) out in
    with_manual-kept n more _ rest ∙ lookup-put_other n v (by_hand part) k.parts other

pub with_manual-unresolved :
    (more : List (Text × Manual)) (k : Catalog) → (with_manual more k).unresolved ≡ k.unresolved
unfolding with_manual
with_manual-unresolved [] k = refl
with_manual-unresolved ((v, part) ∷ more) k = with_manual-unresolved more _

unfoldable pub all_named : List (Text × Manual) → Bool
unfolding is_named
all_named [] = true
all_named ((v, part) ∷ more) = is_named part.mpn && all_named more

pub with_manual-has_mpn :
    (n : Text) (more : List (Text × Manual)) (k : Catalog)
    → all_named more ≡ true
    → (mem_text n (keys more) ≡ true) ⊎ (has_mpn (lookup n k.parts) ≡ true)
    → has_mpn (lookup n (with_manual more k).parts) ≡ true
unfolding with_manual keys all_named mem_text mpn_of
with_manual-has_mpn n [] k named (inl none_there) = cc
with_manual-has_mpn n [] k named (inr old) = old
with_manual-has_mpn n ((v, part) ∷ more) k named there =
    let (this, rest) = &&-true (is_named part.mpn) (all_named more) named in
    with_manual-has_mpn n more _ rest (elim (Bool-cases (text_eq n v)) [
      | inl same ↦ inr (
          subst (λ t. has_mpn (lookup t (put v (by_hand part) k.parts)) ≡ true)
            (sym (text_eq→≡ n v same))
            (rw (lookup-put_same v (by_hand part) k.parts) (named-has_mpn (by_hand part) this)))
      | inr other ↦ elim there [
        | inl listed ↦ inl (listed_later n v (keys more) other listed)
        | inr old ↦ inr (rw (lookup-put_other n v (by_hand part) k.parts other) old)
      ]
    ])

unfoldable pub no_common : List Text → List Text → Bool
unfolding mem_text
no_common [] js = true
no_common (k ∷ ks) js = not (mem_text k js) && no_common ks js

pub no_common-cons :
    (k : Text) (ks js : List Text)
    → no_common (k ∷ ks) js ≡ true
    → (mem_text k js ≡ false) × (no_common ks js ≡ true)
unfolding no_common
no_common-cons k ks js h = ground arith

pub no_common-mem_text :
    (n : Text) (ks js : List Text)
    → no_common ks js ≡ true
    → mem_text n ks ≡ true
    → mem_text n js ≡ false
unfolding no_common mem_text
no_common-mem_text n [] js apart there = cc
no_common-mem_text n (k ∷ ks) js apart there =
    let (this, rest) = no_common-cons k ks js apart in
    elim (Bool-cases (text_eq n k)) [
      | inl same ↦ subst (λ t. mem_text t js ≡ false) (sym (text_eq→≡ n k same)) this
      | inr other ↦ no_common-mem_text n ks js rest (listed_later n k ks other there)
    ]

pub requirements-distinct : distinct (keys requirements) ≡ true
unfolding distinct requirements keys text_eq
requirements-distinct = refl

pub requirements-manual : no_common (keys requirements) (keys manual) ≡ true
unfolding no_common requirements manual keys text_eq
requirements-manual = refl

pub manual-named : all_named manual ≡ true
unfolding all_named manual
manual-named = refl
