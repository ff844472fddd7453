-- ===== src/PartNumbers/Symbols.antt =====
-- Which symbols hardware/8ch-old/check_mpn_consistency.py finds right.
use thermocouple.Prelude.{
  ℕ, ◌≡◌, refl, sym, subst, ◌∙◌, true, false, some, List, [], ◌∷◌, ◌++◌, Text, codes, text_eq,
  text_eq→≡, text_eq_refl, &&-true, ||-false, Bool-cases, Option-cases, inl, inr, ◌⊎◌, ◌↔◌, All,
  arith,
}
use thermocouple.Netlist.Lookup.{Dict, lookup}
use thermocouple.PartNumbers.{
  Entry, Bad, Found, Block, Sheet, Files, Read, read, no_file, or_empty, field, is_skipped, agrees,
  check_entry, check_block, check_blocks, check_sheets, blocks_of, exit_of,
}
use thermocouple.Passives.{starts}

-- The symbol has the part number that the catalog has for its value, and the LCSC number if the catalog
-- has one; a reference that begins with # or TP, and a value that the catalog lacks, want nothing.
abbrev pub Matches : Dict Entry → Block → Type 0
Matches catalog (ref, block) =
    (entry : Entry)
    → starts (codes "#") ref ≡ false
    → starts (codes "TP") ref ≡ false
    → lookup (field (codes "Value") block) catalog ≡ some entry
    → (field (codes "MPN") block ≡ or_empty entry.mpn)
      × ((or_empty entry.lcsc ≡ []) ⊎ (field (codes "LCSC") block ≡ or_empty entry.lcsc))

-- All symbols of a text match.
abbrev pub TextMatches : Dict Entry → Text → Type 0
TextMatches catalog s = All (Matches catalog) (blocks_of s).1

abbrev pub SheetMatches : Dict Entry → Sheet → Type 0
SheetMatches catalog (name, s, count) = TextMatches catalog s

agrees_iff :
    (mpn lcsc want_mpn want_lcsc : Text)
    → (agrees mpn lcsc want_mpn want_lcsc ≡ true)
      ↔ ((mpn ≡ want_mpn) × ((want_lcsc ≡ []) ⊎ (lcsc ≡ want_lcsc)))
unfolding agrees
agrees_iff mpn lcsc want_mpn [] = (
  (λ h. (text_eq→≡ mpn want_mpn (&&-true (text_eq mpn want_mpn) true h).0, inl refl)),
  λ (e, k). rw (e, text_eq_refl want_mpn) refl,
)
agrees_iff mpn lcsc want_mpn (c ∷ w) = (
  (λ h.
      let (same, lc) = &&-true (text_eq mpn want_mpn) (text_eq lcsc (c ∷ w)) h in
      (text_eq→≡ mpn want_mpn same, inr (text_eq→≡ lcsc (c ∷ w) lc))),
  λ (e, k). elim k [
    | inl empty ↦ cc
    | inr f ↦ rw (e, f, text_eq_refl want_mpn, text_eq_refl (c ∷ w)) refl
  ],
)

not_nil : (bs : List Bad) (b : Bad) → bs ++ (b ∷ []) ≡ [] → ⊥
not_nil [] b h = cc
not_nil (c ∷ bs) b h = cc

not_true : false ≡ true → ⊥
not_true h = cc

some_inj : {A : Type 0} {a b : A} → some a ≡ some b → a ≡ b
some_inj e = cc

pub Read-cases :
    {A : Type 0} (r : Read A) → ((a : A) × (r ≡ read a)) ⊎ ((name : Text) × (r ≡ no_file name))
Read-cases (read a) = inl (a, refl)
Read-cases (no_file name) = inr (name, refl)

pub exit-nil : (bs : List Bad) → exit_of bs ≡ 0 → bs ≡ []
exit-nil [] h = refl
exit-nil (b ∷ bs) h = absurd (omega (arith, h))

module _ (catalog : Dict Entry) where
  -- What one symbol adds to the mismatches.
  entry-nil :
      (name ref value block : Text) (count : ℕ) (entry : Entry) (found : Found)
      → ((check_entry name ref value block count (some entry) found).bad ≡ []) ↔ (
          (found.bad ≡ [])
          × (agrees
                (field (codes "MPN") block)
                (field (codes "LCSC") block)
                (or_empty entry.mpn)
                (or_empty entry.lcsc)
              ≡ true))
  unfolding check_entry
  entry-nil name ref value block count entry found =
      elim (Bool-cases (
        agrees (field (codes "MPN") block) (field (codes "LCSC") block) (or_empty entry.mpn)
          (or_empty entry.lcsc))) [
            | inl same ↦ rw same ((λ h. (h, refl)), λ (h, k). h)
            | inr other ↦
                rw other ((λ h. absurd (not_nil found.bad _ h)), λ (h, k). absurd (not_true k))
          ]

  block-nil :
      (name : Text) (count : ℕ) (b : Block) (found : Found)
      → ((check_block catalog name count b found).bad ≡ []) ↔ ((found.bad ≡ []) × Matches catalog b)
  unfolding check_block is_skipped
  block-nil name count (ref, block) found = elim (Bool-cases (is_skipped ref)) [
    | inl skipped ↦ (
      (λ h. (rw (skipped, check_block) at h, λ entry a b known. cc (rw (a, b) at skipped))),
      λ (h, k). rw (skipped, check_block) h,
    )
    | inr kept ↦ elim (Option-cases (lookup (field (codes "Value") block) catalog)) [
      | inl unknown ↦ (
        (λ h. (
          rw (kept, unknown, check_block, check_entry) at h,
          λ entry a b known. cc (unknown, known),
        )),
        λ (h, k). rw (kept, unknown, check_block, check_entry) h,
      )
      | inr (entry, known) ↦
          let step = entry-nil name ref (field (codes "Value") block) block count entry found in
          let same_iff =
            agrees_iff (field (codes "MPN") block) (field (codes "LCSC") block) (or_empty entry.mpn)
              (or_empty entry.lcsc) in
          let (no_hash, no_point) =
            ||-false (starts (codes "#") ref) (starts (codes "TP") ref) kept in
          (
            (λ h.
                let (k, same) = step.0 (rw (kept, known, check_block) at h) in
                (
                  k,
                  λ other a b known'.
                      subst
                        (λ (t : Entry).
                          (field (codes "MPN") block ≡ or_empty t.mpn)
                          × ((or_empty t.lcsc ≡ [])
                              ⊎ (field (codes "LCSC") block ≡ or_empty t.lcsc)))
                        (some_inj (sym known ∙ known')) (same_iff.0 same),
                )),
            λ (h, k).
                rw (kept, known, check_block)
                  (step.1 (h, same_iff.1 (k entry no_hash no_point known))),
          )
    ]
  ]

  blocks-nil :
      (name : Text) (count : ℕ) (bs : List Block) (found : Found)
      → ((check_blocks catalog name count bs found).bad ≡ [])
        ↔ ((found.bad ≡ []) × All (Matches catalog) bs)
  unfolding check_blocks
  blocks-nil name count [] found = ((λ h. (h, tt)), λ (h, none_more). h)
  blocks-nil name count (b ∷ bs) found =
      let next = check_block catalog name count b found in
      let step = block-nil name count b found in
      let rest = blocks-nil name count bs next in
      (
        (λ h. let (k, later) = rest.0 h in let (k', this) = step.0 k in (k', (this, later))),
        λ (h, (this, later)). rest.1 (step.1 (h, this), later),
      )

  pub sheets-nil :
      (ss : List Sheet) (found : Found)
      → ((check_sheets catalog ss found).bad ≡ [])
        ↔ ((found.bad ≡ []) × All (SheetMatches catalog) ss)
  unfolding check_sheets
  sheets-nil [] found = ((λ h. (h, tt)), λ (h, none_more). h)
  sheets-nil ((name, s, count) ∷ ss) found =
      let bs = (blocks_of s).1 in
      let step = blocks-nil name count bs found in
      let rest = sheets-nil ss (check_blocks catalog name count bs found) in
      (
        (λ h. let (k, later) = rest.0 h in let (k', this) = step.0 k in (k', (this, later))),
        λ (h, (this, later)). rest.1 (step.1 (h, this), later),
      )

  -- The file is there and its symbols match.
  abbrev pub FileMatches : Files → Text → Type 0
  FileMatches files name = (s : Text) × (files name ≡ some s) × TextMatches catalog s

pub read_inj : {A : Type 0} {a b : A} → read a ≡ read b → a ≡ b
read_inj h = cc
