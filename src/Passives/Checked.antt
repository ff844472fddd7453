-- ===== src/Passives/Checked.antt =====
-- What `main` of hardware/8ch-old/source_passives.py writes, as `check` reads it.
use thermocouple.Prelude.{
  ℕ, ◌≡◌, refl, sym, ap, ◌∙◌, true, none, some, List, [], ◌++◌, Text, Option-cases, inl, inr,
}
use mathlib.Core.List.{append-nil}
use thermocouple.Netlist.Lookup.{Dict, lookup, keys}
use thermocouple.Passives.Data.{Entry, Manual}
use thermocouple.Passives.Table.{requirements, manual}
use thermocouple.Passives.{
  Search, Catalog, with_needs, with_manual, exit_code, written, main, missing, check,
}
use thermocouple.Passives.Missing.{Named, some_inj, missing-append, missing_agree, missing_nil}
use thermocouple.Passives.Filled.{Filled, with_needs-Filled}
use thermocouple.Passives.ByHand.{
  with_manual-kept, with_manual-unresolved, all_named, with_manual-has_mpn, no_common,
  no_common-mem_text, requirements-distinct, requirements-manual, manual-named,
}

with_manual-missing :
    (ks : List Text) (more : List (Text × Manual)) (k0 k : Catalog)
    → no_common ks (keys more) ≡ true
    → all_named more ≡ true
    → k0.unresolved ≡ []
    → Filled ks k0 k
    → missing (ks ++ keys more) (with_manual more k).parts ≡ (with_manual more k).unresolved
with_manual-missing ks more k0 k apart named start done =
    let parts : Dict Entry = (with_manual more k).parts in
    let first : missing ks parts ≡ missing ks k.parts =
      missing_agree ks parts k.parts
        (λ n h. with_manual-kept n more k (no_common-mem_text n ks (keys more) apart h)) in
    let second : missing (keys more) parts ≡ [] =
      missing_nil (keys more) parts (λ n h. with_manual-has_mpn n more k named (inl h)) in
    let told : k.unresolved ≡ missing ks k.parts = done.told ∙ rw start refl in
    missing-append ks (keys more) parts
    ∙ rw (second, append-nil (missing ks parts)) first
    ∙ sym told
    ∙ sym (with_manual-unresolved more k)

main-written :
    (search : Search) (k : Catalog) (exit : ℕ)
    → main search ≡ some (k, exit)
    → (k1 : Catalog) × (with_needs search requirements (record { unresolved = []; parts = [] })
        ≡ some k1)
      × (k ≡ with_manual manual k1)
      × (exit ≡ exit_code k1.unresolved)
unfolding main written
main-written search k exit e =
    elim (Option-cases (with_needs search requirements (record { unresolved = []; parts = [] }))) [
      | inl failed ↦ cc (rw failed at e)
      | inr (k1, run) ↦
          let e1 : some (with_manual manual k1, exit_code k1.unresolved) ≡ some (k, exit) =
            rw run at e in
          let same = some_inj e1 in (k1, run, sym (ap (λ p. p.0) same), sym (ap (λ p. p.1) same))
    ]

lookup_nil : (n : Text) → lookup {V = Entry} n [] ≡ none
unfolding lookup
lookup_nil n = refl

check-missing :
    (k : Catalog) → check (some k) ≡ exit_code (missing (keys requirements ++ keys manual) k.parts)
unfolding check
check-missing k = refl

-- Where every offer that a search returns has a manufacturer's part number and the run comes to
-- write a catalog, what `check` finds missing in this catalog is what was left unresolved, in that
-- order, and its exit code is the one of that run.
pub main-check :
    (search : Search) (k : Catalog) (exit : ℕ)
    → Named search
    → main search ≡ some (k, exit)
    → (missing (keys requirements ++ keys manual) k.parts ≡ k.unresolved) × (check (some k) ≡ exit)
main-check search k exit named e =
    let (k1, run, k_is, exit_is) = main-written search k exit e in
    let done =
      with_needs-Filled search named requirements _ k1 requirements-distinct (λ n h. lookup_nil n)
        run in
    let found : missing (keys requirements ++ keys manual) k.parts ≡ k.unresolved = rw k_is (
      with_manual-missing (keys requirements) manual _ k1 requirements-manual manual-named refl
        done) in
    (
      found,
      check-missing k
          ∙ ap exit_code (found ∙ ap (λ t. t.unresolved) k_is ∙ with_manual-unresolved manual k1)
          ∙ sym exit_is,
    )
