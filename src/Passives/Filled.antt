-- ===== src/Passives/Filled.antt =====
-- The catalog entries that the search fills, of hardware/8ch-old/source_passives.py.
use thermocouple.Prelude.{
  ◌≡◌, refl, sym, subst, ap, ◌∙◌, true, false, none, some, List, [], ◌∷◌, ◌++◌, Text, text_eq,
  text_eq→≡, text_eq_refl, arith, Bool-cases, Option-cases, inl, inr, ||-false,
}
use mathlib.Core.List.{append-nil, append_assoc}
use thermocouple.Netlist.Sort.{mem_text}
use thermocouple.Netlist.Lookup.{Dict, lookup, put, keys, lookup-put}
use thermocouple.Passives.Data.{Need, Offer, Entry, searched, Sourced}
use thermocouple.Passives.{
  sourced, resolve, package_of, Search, Catalog, with_found, with_needs, has_mpn, missing,
}
use thermocouple.Passives.Best.{In, resolve-Taken}
use thermocouple.Passives.Missing.{
  is_named, Named, named-has_mpn, some_inj, distinct, here, mem-cons,
}

-- No key of the list has an entry yet.
abbrev pub Fresh : List Text → Dict Entry → Type 0
Fresh ks d = (n : Text) → mem_text n ks ≡ true → lookup n d ≡ none

-- What `with_needs` has done from `k` to `k'`.
pub record Filled (ks : List Text) (k k' : Catalog) : Type 0 where
  pub told : k'.unresolved ≡ k.unresolved ++ missing ks k'.parts
  pub kept : (n : Text) → mem_text n ks ≡ false → lookup n k'.parts ≡ lookup n k.parts

pub resolve-named :
    (need : Need) (offers : List Offer) (s : Sourced)
    → ((o : Offer) → In o offers → is_named o.mfr ≡ true)
    → resolve need offers ≡ some s
    → is_named s.mpn ≡ true
unfolding sourced
resolve-named need offers s named e = elim (resolve-Taken need offers) [
  | inl (none_met, unmet) ↦ cc (e, none_met)
  | inr (t, met, taken) ↦
      let same : s ≡ t = some_inj (sym e ∙ met) in
      let mpn : t.mpn ≡ taken.best.mfr = ap (λ u. u.mpn) taken.written in
      subst (λ u. is_named u ≡ true) (sym (ap (λ u. u.mpn) same ∙ mpn))
        (named taken.best taken.offered)
]

pub not_head :
    (n k : Text) (ks : List Text)
    → mem_text k ks ≡ false
    → mem_text n ks ≡ true
    → text_eq n k ≡ false
not_head n k ks absent there = elim (Bool-cases (text_eq n k)) [
  | inl e ↦ cc (absent, subst (λ t. mem_text t ks ≡ true) (text_eq→≡ n k e) there)
  | inr e ↦ e
]

pub tail_none :
    (n k : Text) (ks : List Text)
    → mem_text n (k ∷ ks) ≡ false
    → (text_eq n k ≡ false) × (mem_text n ks ≡ false)
unfolding mem_text
tail_none n k ks h = ||-false (text_eq n k) (mem_text n ks) h

pub head-distinct :
    (k : Text) (ks : List Text)
    → distinct (k ∷ ks) ≡ true
    → (mem_text k ks ≡ false) × (distinct ks ≡ true)
unfolding distinct
head-distinct k ks h = ground arith

pub lookup-put_other :
    (n k : Text) (e : Entry) (d : Dict Entry)
    → text_eq n k ≡ false
    → lookup n (put k e d) ≡ lookup n d
lookup-put_other n k e d other = lookup-put n k e d ∙ rw other refl

pub lookup-put_same : (k : Text) (e : Entry) (d : Dict Entry) → lookup k (put k e d) ≡ some e
lookup-put_same k e d = lookup-put k k e d ∙ rw (text_eq_refl k) refl

pub unmet-Filled :
    (v : Text) (ks : List Text) (k k' : Catalog)
    → mem_text v ks ≡ false
    → lookup v k.parts ≡ none
    → Filled ks (record k { unresolved = k.unresolved ++ (v ∷ []) }) k'
    → Filled (v ∷ ks) k k'
unfolding missing
unmet-Filled v ks k k' absent empty done =
    let nothing : lookup v k'.parts ≡ none = done.kept v absent ∙ empty in
    record {
      told =
          rw (nothing, has_mpn)
            (done.told ∙ append_assoc k.unresolved (v ∷ []) (missing ks k'.parts));
      kept = λ n h. done.kept n (tail_none n v ks h).1;
    }

pub met-Filled :
    (v : Text) (ks : List Text) (e : Entry) (k k' : Catalog)
    → mem_text v ks ≡ false
    → has_mpn (some e) ≡ true
    → Filled ks (record k { parts = put v e k.parts }) k'
    → Filled (v ∷ ks) k k'
unfolding missing
met-Filled v ks e k k' absent mpn done =
    let there : lookup v k'.parts ≡ some e = done.kept v absent ∙ lookup-put_same v e k.parts in
    record {
      told = rw (there, mpn) done.told;
      kept = λ n h.
          let (other, out) = tail_none n v ks h in
          done.kept n out ∙ lookup-put_other n v e k.parts other;
    }

found_part :
    (v : Text) (s : Sourced) (k next : Catalog)
    → with_found v (some s) k ≡ some next
    → record k { parts = put v (searched s) k.parts } ≡ next
unfolding with_found
found_part v s k next e = elim (Option-cases s.stock) [
  | inl gone ↦ cc (rw (gone, with_found) at e)
  | inr (n, there) ↦ some_inj (rw (there, with_found) at e)
]

pub with_needs-Filled :
    (search : Search) (named : Named search) (needs : List (Text × Need)) (k k' : Catalog)
    → distinct (keys needs) ≡ true
    → Fresh (keys needs) k.parts
    → with_needs search needs k ≡ some k'
    → Filled (keys needs) k k'
unfolding with_needs keys missing
with_needs-Filled search named [] k k' apart fresh e =
    subst (Filled [] k) (some_inj e) (record { told = sym (append-nil _); kept = λ n h. refl })
with_needs-Filled search named ((v, need) ∷ needs) k k' apart fresh e =
    elim (Option-cases (search need.kind need.amount (package_of need.footprint))) [
      | inl failed ↦ cc (rw (failed, with_needs) at e)
      | inr (offers, got) ↦
          let (absent, rest) = head-distinct v (keys needs) apart in
          elim (Option-cases (with_found v (resolve need offers) k)) [
            | inl ended ↦ cc (rw (got, ended, with_needs) at e)
            | inr (next, found) ↦
                let e1 : with_needs search needs next ≡ some k' =
                  rw (got, found, with_needs) at e in
                elim (Option-cases (resolve need offers)) [
                  | inl unmet ↦
                      let is_next = some_inj (rw (unmet, with_found) at found) in
                      unmet-Filled v (keys needs) k k' absent (fresh v (here v (keys needs))) (
                        with_needs-Filled search named needs _ k' rest
                          (λ n h. fresh n (mem-cons n v (keys needs) h))
                          (subst (λ t. with_needs search needs t ≡ some k') (sym is_next) e1))
                  | inr (s, met) ↦
                      let is_next = found_part v s k next (rw met at found) in
                      met-Filled v (keys needs) (searched s) k k' absent
                        (named-has_mpn (searched s) (
                          resolve-named need offers s (λ o there. named _ _ _ offers o got there)
                            met))
                        (with_needs-Filled search named needs _ k' rest
                          (λ n h.
                            lookup-put_other n v (searched s) k.parts
                              (not_head n v (keys needs) absent h)
                            ∙ fresh n (mem-cons n v (keys needs) h))
                          (subst (λ t. with_needs search needs t ≡ some k') (sym is_next) e1))
                ]
          ]
    ]
