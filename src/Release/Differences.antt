-- ===== src/Release/Differences.antt =====
-- The differences that hardware/family/gen/compare_release.py finds between collected parts and nets.
use thermocouple.Prelude.{
  ◌≡◌, refl, sym, ap, subst, ◌∙◌, Bool, true, false, ◌&&◌, ◌||◌, Option, none, some, List, [], ◌∷◌,
  ◌++◌, Text, text_eq, text_eq→≡, text_eq_refl, Bool-cases, inl, inr, ◌⊎◌, ◌↔◌, &&-true, ||-false,
  not, arith,
}
use thermocouple.Netlist.Lookup.{Dict, lookup, keys, lookup-mem, lookup-not_mem}
use thermocouple.Netlist.Sort.{sort, mem_text, sort-mem}
use thermocouple.Netlist.{missing, common}
use thermocouple.Netlist.Diff.{
  append-nil_parts, SameDict, missing-mem, missing-nil, common-mem, sort-nil, map-nil_parts,
}
use thermocouple.Release.Order.{Pair, pair_eq, list_eq}
use thermocouple.Release.Roots.{
  Value, text, flag, value_eq, net_eq, option_eq, differing, union_diffs, part_diffs, common_diffs,
  diffs_of, component_missing, component_extra, component_differs, net_differs,
}

-- The test is true of equal values only, and of all of them.
pub record Decides {ℓ} {V : Type ℓ} (eq : V → V → Bool) : Type ℓ where
  pub sound : (a b : V) → eq a b ≡ true → a ≡ b
  pub complete : (a : V) → eq a a ≡ true

pub text_Decides : Decides text_eq
text_Decides = record { sound = text_eq→≡; complete = text_eq_refl }

value_Decides : Decides value_eq
unfolding value_eq
value_Decides = record { sound = go; complete = all }
  where
    go : (a b : Value) → value_eq a b ≡ true → a ≡ b
    go (text s) (text t) h = ap text (text_eq→≡ s t h)
    go (text s) (flag b) h = cc
    go (flag true) (text t) h = cc
    go (flag false) (text t) h = cc
    go (flag true) (flag true) h = refl
    go (flag false) (flag false) h = refl
    go (flag true) (flag false) h = cc
    go (flag false) (flag true) h = cc

    all : (a : Value) → value_eq a a ≡ true
    all (text s) = text_eq_refl s
    all (flag true) = refl
    all (flag false) = refl

pair_Decides : Decides pair_eq
unfolding pair_eq
pair_Decides = record {
  sound = λ (a, b) (c, d) h.
      let (p, q) = &&-true (text_eq a c) (text_eq b d) h in
      λ i. (text_eq→≡ a c p i, text_eq→≡ b d q i);
  complete = λ (a, b). rw (text_eq_refl a, text_eq_refl b) refl;
}

module _ {ℓ} {B : Type ℓ} (eq : B → B → Bool) (d : Decides eq) where
  list_sound : (xs ys : List B) → list_eq eq xs ys ≡ true → xs ≡ ys
  unfolding list_eq
  list_sound [] [] h = refl
  list_sound [] (y ∷ ys) h = cc
  list_sound (x ∷ xs) [] h = cc
  list_sound (x ∷ xs) (y ∷ ys) h =
      let (a, b) = &&-true (eq x y) (list_eq eq xs ys) h in
      λ i. d.sound x y a i ∷ list_sound xs ys b i

  list_complete : (xs : List B) → list_eq eq xs xs ≡ true
  unfolding list_eq
  list_complete [] = refl
  list_complete (x ∷ xs) = rw (d.complete x, list_complete xs) refl

  pub list_Decides : Decides (list_eq eq)
  list_Decides = record { sound = list_sound; complete = list_complete }

  option_sound : (a b : Option B) → option_eq eq a b ≡ true → a ≡ b
  option_sound none none h = refl
  option_sound none (some b) h = cc
  option_sound (some a) none h = cc
  option_sound (some a) (some b) h = ap some (d.sound a b h)

  option_complete : (a : Option B) → option_eq eq a a ≡ true
  option_complete none = refl
  option_complete (some a) = d.complete a

  pub option_Decides : Decides (option_eq eq)
  option_Decides = record { sound = option_sound; complete = option_complete }

net_Decides : Decides net_eq
unfolding net_eq
net_Decides = list_Decides (list_eq pair_eq) (list_Decides pair_eq pair_Decides)

mem-append :
    (k : Text) (xs ys : List Text) → mem_text k (xs ++ ys) ≡ (mem_text k xs || mem_text k ys)
unfolding mem_text
mem-append k [] ys = refl
mem-append k (x ∷ xs) ys = ground (arith, mem-append k xs ys)

mem-missing :
    (k : Text) (xs ys : List Text)
    → mem_text k (missing xs ys) ≡ (mem_text k xs && not (mem_text k ys))
unfolding missing mem_text
mem-missing k [] ys = refl
mem-missing k (x ∷ xs) ys = ground (arith, text_eq→≡ k x, mem-missing k xs ys)

module _ {B : Type 0} {M : Type 0} (eq : B → B → Bool) (d : Decides eq) (message : Text → M)
    (a e : Dict B) where
  differing-nil :
      (ks : List Text)
      → differing eq message a e ks ≡ []
      → (k : Text) → mem_text k ks ≡ true
      → lookup k a ≡ lookup k e
  unfolding differing mem_text
  differing-nil [] h k there = cc
  differing-nil (j ∷ ks) h k there = elim (Bool-cases (option_eq eq (lookup j a) (lookup j e))) [
    | inr unlike ↦ cc (rw (unlike, differing) at h)
    | inl like ↦ elim (Bool-cases (text_eq k j)) [
      | inl here ↦
          subst (λ (t : Text). lookup t a ≡ lookup t e) (sym (text_eq→≡ k j here))
            (option_sound eq d (lookup j a) (lookup j e) like)
      | inr later ↦ differing-nil ks (rw (like, differing) at h) k (rw later at there)
    ]
  ]

  same-differing : (ks : List Text) → SameDict a e → differing eq message a e ks ≡ []
  unfolding differing
  same-differing [] same = refl
  same-differing (j ∷ ks) same =
      let like : option_eq eq (lookup j a) (lookup j e) ≡ true =
        subst (λ (t : Option B). option_eq eq (lookup j a) t ≡ true) (same j)
          (option_complete eq d (lookup j a)) in
      rw like (same-differing ks same)

  union-mem :
      (k : Text)
      → mem_text k (sort (keys a ++ missing (keys e) (keys a)))
        ≡ (mem_text k (keys a) || mem_text k (keys e))
  union-mem k =
      let sorted = sort-mem k (keys a ++ missing (keys e) (keys a)) in
      let parts = mem-append k (keys a) (missing (keys e) (keys a)) in
      let rest = mem-missing k (keys e) (keys a) in ground (arith, sorted, parts, rest)

  union_diffs-nil : (union_diffs eq message a e ≡ []) ↔ SameDict a e
  unfolding union_diffs
  union_diffs-nil = (
    (λ h k. elim (Bool-cases (mem_text k (sort (keys a ++ missing (keys e) (keys a))))) [
      | inl there ↦ differing-nil (sort (keys a ++ missing (keys e) (keys a))) h k there
      | inr nowhere ↦
          let (out, out') =
            ||-false (mem_text k (keys a)) (mem_text k (keys e)) (sym (union-mem k) ∙ nowhere) in
          lookup-not_mem k a out ∙ sym (lookup-not_mem k e out')
    ]),
    same-differing (sort (keys a ++ missing (keys e) (keys a))),
  )

-- Each part is in both dicts or in neither, with the same fields.
abbrev pub SameDicts : Dict (Dict Value) → Dict (Dict Value) → Type 0
SameDicts a e =
    (ref : Text)
    → ((lookup ref a ≡ none) × (lookup ref e ≡ none))
      ⊎ ((r : Dict Value) × (s : Dict Value) × (lookup ref a ≡ some r)
          × (lookup ref e ≡ some s)
          × SameDict r s)

common_diffs-nil :
    (a e : Dict (Dict Value)) (refs : List Text)
    → common_diffs a e refs ≡ []
    → (ref : Text) (r s : Dict Value) → mem_text ref refs ≡ true
    → lookup ref a ≡ some r
    → lookup ref e ≡ some s
    → SameDict r s
unfolding common_diffs part_diffs mem_text
common_diffs-nil a e [] h ref r s there p q = cc
common_diffs-nil a e (x ∷ refs) h ref r s there p q =
    let (this, rest) =
      append-nil_parts (part_diffs x (lookup x a) (lookup x e)) (common_diffs a e refs) h in
    elim (Bool-cases (text_eq ref x)) [
      | inl here ↦
          let same = text_eq→≡ ref x here in
          let r_here : lookup x a ≡ some r = subst (λ (t : Text). lookup t a ≡ some r) same p in
          let s_here : lookup x e ≡ some s = subst (λ (t : Text). lookup t e ≡ some s) same q in
          (union_diffs-nil value_eq value_Decides _ r s).0 (rw (r_here, s_here) at this)
      | inr later ↦ common_diffs-nil a e refs rest ref r s (rw later at there) p q
    ]

nil-common_diffs :
    (a e : Dict (Dict Value)) (refs : List Text) → SameDicts a e → common_diffs a e refs ≡ []
unfolding common_diffs part_diffs
nil-common_diffs a e [] same = refl
nil-common_diffs a e (x ∷ refs) same =
    let rest = nil-common_diffs a e refs same in
    elim (same x) [
      | inl (p, q) ↦ rw p rest
      | inr (r, s, p, q, alike) ↦
          rw
            (
              p,
              q,
              rest,
              (union_diffs-nil value_eq value_Decides
                    (λ key. component_differs x key (lookup key s) (lookup key r)) r s).1
                  alike,
            )
            refl
    ]

known_key :
    {B : Type 0} (k : Text) (d : Dict B) (v : B) → lookup k d ≡ some v → mem_text k (keys d) ≡ true
known_key k d v h = elim (Bool-cases (mem_text k (keys d))) [
  | inl there ↦ there
  | inr absent ↦ cc (lookup-not_mem k d absent, h)
]

SameDicts-keys :
    (a e : Dict (Dict Value)) (k : Text) → SameDicts a e → mem_text k (keys a) ≡ mem_text k (keys e)
SameDicts-keys a e k same = elim (same k) [
  | inl (p, q) ↦ elim (Bool-cases (mem_text k (keys a))) [
    | inl there ↦ let (v, found) = lookup-mem k a there in cc (p, found)
    | inr out ↦ elim (Bool-cases (mem_text k (keys e))) [
      | inl there ↦ let (v, found) = lookup-mem k e there in cc (q, found)
      | inr out' ↦ out ∙ sym out'
    ]
  ]
  | inr (r, s, p, q, alike) ↦ known_key k a r p ∙ sym (known_key k e s q)
]

module _ (a e : Dict (Dict Value)) (an en : Dict (List (List Pair))) where
  pub diffs-SameDicts : diffs_of a e an en ≡ [] → SameDicts a e × SameDict an en
  unfolding diffs_of
  diffs-SameDicts h =
      let (gone, rest) = append-nil_parts _ _ h in
      let (new, rest') = append-nil_parts _ _ rest in
      let (inner, net_part) = append-nil_parts _ _ rest' in
      let no_gone = sort-nil (missing (keys e) (keys a)) (map-nil_parts component_missing _ gone) in
      let no_new = sort-nil (missing (keys a) (keys e)) (map-nil_parts component_extra _ new) in
      (
        (λ ref. elim (Bool-cases (mem_text ref (keys a))) [
          | inl in_a ↦
              let in_e = missing-mem ref (keys a) (keys e) no_new in_a in
              let (r, p) = lookup-mem ref a in_a in
              let (s, q) = lookup-mem ref e in_e in
              let listed : mem_text ref (sort (common (keys a) (keys e))) ≡ true =
                sort-mem ref (common (keys a) (keys e))
                ∙ common-mem ref (keys a) (keys e)
                ∙ rw (in_a, in_e) refl in
              inr (
                r,
                s,
                p,
                q,
                common_diffs-nil a e (sort (common (keys a) (keys e))) inner ref r s listed p q,
              )
          | inr out_a ↦ elim (Bool-cases (mem_text ref (keys e))) [
            | inl in_e ↦ cc (missing-mem ref (keys e) (keys a) no_gone in_e, out_a)
            | inr out_e ↦ inl (lookup-not_mem ref a out_a, lookup-not_mem ref e out_e)
          ]
        ]),
        (union_diffs-nil net_eq net_Decides _ an en).0 net_part,
      )

  pub SameDicts-diffs : SameDicts a e → SameDict an en → diffs_of a e an en ≡ []
  unfolding diffs_of
  SameDicts-diffs parts same =
      let no_gone = missing-nil (keys e) (keys a) (λ k there. SameDicts-keys a e k parts ∙ there) in
      let no_new =
        missing-nil (keys a) (keys e) (λ k there. sym (SameDicts-keys a e k parts) ∙ there) in
      let inner = nil-common_diffs a e (sort (common (keys a) (keys e))) parts in
      let net_part =
        (union_diffs-nil net_eq net_Decides
            (λ name. net_differs name (lookup name en) (lookup name an)) an en).1
          same in
      rw (no_gone, no_new, inner, net_part, sort) refl
