-- ===== src/Netlist/Lookup.antt =====
-- The dicts of hardware/8ch-old/netlist_fingerprint.py, whose keys are texts.
use thermocouple.Prelude.{
  subst, ◌≡◌, refl, true, false, Option, none, some, List, [], ◌∷◌, Text, text_eq, text_eq→≡,
  if◌then◌else◌, Bool-cases, inl, inr, arith,
}
use thermocouple.Netlist.Sort.{mem_text}

abbrev pub Dict {ℓ} : Type ℓ → Type ℓ
Dict V = List (Text × V)

module _ {ℓ} {V : Type ℓ} where
  unfoldable pub lookup : Text → Dict V → Option V
  unfolding text_eq
  lookup k [] = none
  lookup k ((j, v) ∷ d) = if text_eq k j then some v else lookup k d

  -- An assignment keeps the place of a key that is there.
  unfoldable pub put : Text → V → Dict V → Dict V
  unfolding text_eq
  put k v [] = (k, v) ∷ []
  put k v ((j, w) ∷ d) = if text_eq k j then (j, v) ∷ d else (j, w) ∷ put k v d

  unfoldable pub keys : Dict V → List Text
  keys [] = []
  keys ((k, v) ∷ d) = k ∷ keys d

  pub lookup-mem :
      (k : Text) (d : Dict V) → mem_text k (keys d) ≡ true → (v : V) × (lookup k d ≡ some v)
  unfolding lookup keys mem_text
  lookup-mem k [] h = cc
  lookup-mem k ((j, v) ∷ d) h = elim (Bool-cases (text_eq k j)) [
    | inl same ↦ (v, rw same)
    | inr other ↦ rw other (lookup-mem k d (rw other at h))
  ]

  pub lookup-not_mem : (k : Text) (d : Dict V) → mem_text k (keys d) ≡ false → lookup k d ≡ none
  unfolding lookup keys mem_text
  lookup-not_mem k [] h = refl
  lookup-not_mem k ((j, v) ∷ d) h = elim (Bool-cases (text_eq k j)) [
    | inl same ↦ cc (rw same at h)
    | inr other ↦ rw other (lookup-not_mem k d (rw other at h))
  ]

  pub lookup-put :
      (n k : Text) (v : V) (d : Dict V)
      → lookup n (put k v d) ≡ (if text_eq n k then some v else lookup n d)
  unfolding lookup put
  lookup-put n k v [] = refl
  lookup-put n k v ((j, w) ∷ d) = elim (Bool-cases (text_eq k j)) [
    | inl same ↦ rw (same, text_eq→≡ k j same) (ground arith)
    | inr other ↦ elim (Bool-cases (text_eq n j)) [
      | inl here ↦ elim (Bool-cases (text_eq n k)) [
        | inl key ↦
            let both : text_eq k j ≡ true =
              subst (λ t. text_eq t j ≡ true) (text_eq→≡ n k key) here in
            cc (other, both)
        | inr no_key ↦ rw (other, lookup, here, no_key)
      ]
      | inr further ↦ rw (other, further, lookup, lookup-put n k v d)
    ]
  ]
