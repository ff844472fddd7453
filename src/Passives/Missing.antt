-- ===== src/Passives/Missing.antt =====
-- The catalog entries without a part number, of hardware/8ch-old/source_passives.py.
use thermocouple.Prelude.{
  ℕ, ◌≡◌, refl, ap, Bool, true, false, not, ◌&&◌, some, List, [], ◌∷◌, ◌++◌, Text, text_eq_refl,
  arith, Bool-cases, inl, inr,
}
use thermocouple.Netlist.Sort.{mem_text}
use thermocouple.Netlist.Lookup.{Dict, lookup}
use thermocouple.Passives.Data.{Kind, Offer, Entry}
use thermocouple.Passives.{Search, mpn_of, has_mpn, missing}
use thermocouple.Passives.Best.{In}

unfoldable pub is_named : Text → Bool
is_named [] = false
is_named (c ∷ s) = true

-- Every offer of a search has a manufacturer's part number.
abbrev pub Named : Search → Type 0
Named search =
    (kind : Kind) (amount : ℕ) (size : Text) (offers : List Offer) (o : Offer)
    → search kind amount size ≡ some offers
    → In o offers
    → is_named o.mfr ≡ true

pub named-has_mpn : (e : Entry) → is_named (mpn_of e) ≡ true → has_mpn (some e) ≡ true
unfolding has_mpn is_named
named-has_mpn e h = ground arith

pub some_inj : {A : Type 0} {a b : A} → some a ≡ some b → a ≡ b
some_inj e = cc

unfoldable pub distinct : List Text → Bool
unfolding mem_text
distinct [] = true
distinct (k ∷ ks) = not (mem_text k ks) && distinct ks

pub missing-append :
    (ks js : List Text) (d : Dict Entry) → missing (ks ++ js) d ≡ missing ks d ++ missing js d
unfolding missing
missing-append [] js d = refl
missing-append (k ∷ ks) js d = elim (Bool-cases (has_mpn (lookup k d))) [
  | inl there ↦ rw there (missing-append ks js d)
  | inr absent ↦ rw absent (ap (λ t. k ∷ t) (missing-append ks js d))
]

pub here : (k : Text) (ks : List Text) → mem_text k (k ∷ ks) ≡ true
unfolding mem_text
here k ks = rw (text_eq_refl k) refl

pub mem-cons : (n k : Text) (ks : List Text) → mem_text n ks ≡ true → mem_text n (k ∷ ks) ≡ true
unfolding mem_text
mem-cons n k ks h = ground arith

-- `missing` reads only its keys.
pub missing_agree :
    (ks : List Text) (d e : Dict Entry)
    → ((n : Text) → mem_text n ks ≡ true → lookup n d ≡ lookup n e)
    → missing ks d ≡ missing ks e
unfolding missing mem_text
missing_agree [] d e same = refl
missing_agree (k ∷ ks) d e same =
    let this : lookup k d ≡ lookup k e = same k (here k ks) in
    let rest : missing ks d ≡ missing ks e =
      missing_agree ks d e (λ n h. same n (mem-cons n k ks h)) in
    rw (this, rest) refl

pub missing_nil :
    (ks : List Text) (d : Dict Entry)
    → ((n : Text) → mem_text n ks ≡ true → has_mpn (lookup n d) ≡ true)
    → missing ks d ≡ []
unfolding missing mem_text
missing_nil [] d h = refl
missing_nil (k ∷ ks) d h =
    let this : has_mpn (lookup k d) ≡ true = h k (here k ks) in
    rw this (missing_nil ks d (λ n m. h n (mem-cons n k ks m)))
