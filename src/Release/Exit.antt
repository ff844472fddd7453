-- ===== src/Release/Exit.antt =====
-- When hardware/family/gen/compare_release.py exits with 0.
use thermocouple.Prelude.{
  ℕ, suc, ◌≡◌, refl, ap, subst, ◌∙◌, false, Option, List, [], ◌∷◌, ◌++◌, Text, text_eq, text_eq→≡,
  text_eq_refl, split_lines, Bool-cases, inl, inr, ◌↔◌, All, arith,
}
use thermocouple.Netlist.Diff.{append-nil_parts}
use thermocouple.Release.NetlistXml.{Root}
use thermocouple.Release.Order.{list_eq}
use thermocouple.Release.Roots.{Diff, Checked, checked, failed, and_then, compare_roots, option_eq}
use thermocouple.Release.Bom.{Row, grouped_bom, dnp_text}
use thermocouple.Release.Compare.{
  Input, Line, bom_line, release_bom_line, dnp_refs, dnp_lines, row_eq, compare_rows, texts_differ,
  changed, netlist_lines, all_lines, top_schematic, compare_release, exit_code, main,
}
use thermocouple.Release.Differences.{Decides, text_Decides, list_Decides, option_Decides}
use thermocouple.Release.Same.{checked_inj}

row_Decides : Decides row_eq
unfolding row_eq
row_Decides = list_Decides (option_eq text_eq) (option_Decides text_eq text_Decides)

rows-nil :
    (message : ℕ → Option Row → Option Row → Line) (i : ℕ) (a e : List Row)
    → compare_rows message i a e ≡ []
    → a ≡ e
unfolding compare_rows
rows-nil message i [] [] h = refl
rows-nil message i [] (y ∷ e) h = cc
rows-nil message i (x ∷ a) [] h = cc
rows-nil message i (x ∷ a) (y ∷ e) h = elim (Bool-cases (row_eq x y)) [
  | inl same ↦
      let rest = rows-nil message (suc i) a e (rw (same, compare_rows) at h) in
      λ j. row_Decides.sound x y same j ∷ rest j
  | inr other ↦ cc (rw (other, compare_rows) at h)
]

nil-rows :
    (message : ℕ → Option Row → Option Row → Line) (i : ℕ) (a : List Row)
    → compare_rows message i a a ≡ []
unfolding compare_rows
nil-rows message i [] = refl
nil-rows message i (x ∷ a) = rw (row_Decides.complete x) (nil-rows message (suc i) a)

texts-nil :
    (message : List Text → List Text → Line) (a e : List Text)
    → texts_differ message a e ≡ []
    → a ≡ e
unfolding texts_differ
texts-nil message a e h = elim (Bool-cases (list_eq text_eq a e)) [
  | inl same ↦ (list_Decides text_eq text_Decides).sound a e same
  | inr other ↦ cc (rw other at h)
]

nil-texts : (message : List Text → List Text → Line) (a : List Text) → texts_differ message a a ≡ []
unfolding texts_differ
nil-texts message a = rw ((list_Decides text_eq text_Decides).complete a) refl

-- The file has the hash that it had before.
abbrev pub Unchanged : Text × Text × Text → Type 0
Unchanged (path, before, after) = after ≡ before

changed-nil : (hashes : List (Text × Text × Text)) → changed hashes ≡ [] → All Unchanged hashes
unfolding changed
changed-nil [] h = tt
changed-nil ((path, before, after) ∷ hashes) h = elim (Bool-cases (text_eq after before)) [
  | inl same ↦ (text_eq→≡ after before same, changed-nil hashes (rw (same, changed) at h))
  | inr other ↦ cc (rw (other, changed) at h)
]

nil-changed : (hashes : List (Text × Text × Text)) → All Unchanged hashes → changed hashes ≡ []
unfolding changed
nil-changed [] h = refl
nil-changed ((path, before, after) ∷ hashes) (same, h) =
    rw (same, text_eq_refl before) (nil-changed hashes h)

netlist_lines-nil : (ds : List Diff) → netlist_lines ds ≡ [] → ds ≡ []
unfolding netlist_lines
netlist_lines-nil [] h = refl
netlist_lines-nil (d ∷ ds) h = cc

-- The output is what was released: one root project outside the release, parts and nets alike, the
-- list of material of both netlists as released, the same places left empty, and no input changed.
pub record IsRelease (input : Input) : Type 0 where
  pub outside : input.inside ≡ false
  pub top : Text
  pub one_top : input.tops ≡ top ∷ []
  pub actual : Root
  pub expected : Root
  pub was_exported : input.exported ≡ checked actual
  pub was_parsed : input.expected ≡ checked expected
  pub alike : compare_roots actual expected ≡ checked []
  pub rows : (grouped_bom actual).0 ≡ input.expected_rows
  pub release_rows : (grouped_bom expected).0 ≡ input.expected_rows
  pub empty : (grouped_bom actual).1 ≡ (grouped_bom expected).1
  pub empty_lines : split_lines [] (dnp_text (grouped_bom actual).1) ≡ input.expected_dnp
  pub kept : All Unchanged input.hashes

exit-nil : (c : Checked (List Line)) → exit_code c ≡ 0 → c ≡ checked []
unfolding exit_code
exit-nil (checked []) h = refl
exit-nil (checked (line ∷ lines)) h = absurd (omega (arith, h))
exit-nil (failed e) h = absurd (omega (arith, h))

one_root : (tops : List Text) (top : Text) → top_schematic tops ≡ checked top → tops ≡ top ∷ []
unfolding top_schematic
one_root [] top h = cc
one_root (t ∷ []) top h = ap (λ (u : Text). u ∷ []) (checked_inj h)
one_root (t ∷ u ∷ tops) top h = cc

-- An `and_then` that is checked has a checked first part.
then_checked {ℓ κ} :
    {A : Type ℓ} {B : Type κ} (c : Checked A) (f : A → Checked B) (b : B)
    → and_then c f ≡ checked b
    → (a : A) × (c ≡ checked a) × (f a ≡ checked b)
then_checked (checked a) f b h = (a, refl, h)
then_checked (failed e) f b h = cc

lines-nil :
    (input : Input) (diffs : List Diff) (top : Text) (actual expected : Root)
    → input.inside ≡ false
    → input.tops ≡ top ∷ []
    → input.exported ≡ checked actual
    → input.expected ≡ checked expected
    → compare_roots actual expected ≡ checked diffs
    → all_lines diffs actual expected input ≡ []
    → IsRelease input
unfolding all_lines
lines-nil input diffs top actual expected outside one_top was_exported was_parsed compared h =
    let (p0, r0) = append-nil_parts _ _ h in
    let (p1, r1) = append-nil_parts _ _ r0 in
    let (p2, r2) = append-nil_parts _ _ r1 in
    let (p3, r3) = append-nil_parts _ _ r2 in
    let (p4, p5) = append-nil_parts _ _ r3 in
    record {
      outside = outside;
      top = top;
      one_top = one_top;
      actual = actual;
      expected = expected;
      was_exported = was_exported;
      was_parsed = was_parsed;
      alike = compared ∙ ap checked (netlist_lines-nil diffs p0);
      rows = rows-nil bom_line 1 _ _ p1;
      release_rows = rows-nil release_bom_line 1 _ _ p2;
      empty = texts-nil dnp_refs _ _ p3;
      empty_lines = texts-nil dnp_lines _ _ p4;
      kept = changed-nil input.hashes p5;
    }

main-IsRelease : (input : Input) → main input ≡ 0 → IsRelease input
unfolding main compare_release
main-IsRelease input h =
    let done = exit-nil (compare_release input) h in
    elim (Bool-cases input.inside) [
      | inl inside ↦ cc (rw inside at done)
      | inr outside ↦
          let (top, one, next) = then_checked _ _ [] (rw outside at done) in
          let (actual, was_exported, next') = then_checked _ _ [] next in
          let (expected, was_parsed, next'') = then_checked _ _ [] next' in
          let (diffs, compared, last) = then_checked _ _ [] next'' in
          lines-nil input diffs top actual expected outside (one_root input.tops top one)
            was_exported was_parsed compared (checked_inj last)
    ]

then_of {ℓ κ} :
    {A : Type ℓ} {B : Type κ} (c : Checked A) (f : A → Checked B) (a : A)
    → c ≡ checked a
    → and_then c f ≡ f a
then_of c f a h = ap (λ (t : Checked _). and_then t f) h

both_nil : (xs ys : List Line) → xs ≡ [] → ys ≡ [] → xs ++ ys ≡ []
both_nil xs ys h k = rw (h, k) refl

same_rows :
    (message : ℕ → Option Row → Option Row → Line) (a e : List Row)
    → a ≡ e
    → compare_rows message 1 a e ≡ []
same_rows message a e h =
    subst (λ (t : List Row). compare_rows message 1 a t ≡ []) h (nil-rows message 1 a)

same_texts :
    (message : List Text → List Text → Line) (a e : List Text)
    → a ≡ e
    → texts_differ message a e ≡ []
same_texts message a e h =
    subst (λ (t : List Text). texts_differ message a t ≡ []) h (nil-texts message a)

IsRelease-lines :
    (input : Input) (r : IsRelease input) → all_lines [] r.actual r.expected input ≡ []
unfolding all_lines netlist_lines
IsRelease-lines input r = both_nil _ _ (same_rows bom_line _ _ r.rows) (
    both_nil _ _ (same_rows release_bom_line _ _ r.release_rows) (
      both_nil _ _ (same_texts dnp_refs _ _ r.empty)
        (both_nil _ _ (same_texts dnp_lines _ _ r.empty_lines) (nil-changed input.hashes r.kept))))

root_of : (tops : List Text) (top : Text) → tops ≡ top ∷ [] → top_schematic tops ≡ checked top
unfolding top_schematic
root_of tops top h = rw h refl

exit_of : (c : Checked (List Line)) → c ≡ checked [] → exit_code c ≡ 0
unfolding exit_code
exit_of c h = rw h refl

IsRelease-main : (input : Input) → IsRelease input → main input ≡ 0
unfolding main compare_release
IsRelease-main input r = exit_of (compare_release input) (
    rw (r.outside, compare_release)
      (then_of (top_schematic input.tops) _ r.top (root_of input.tops r.top r.one_top)
        ∙ then_of input.exported _ r.actual r.was_exported
        ∙ then_of input.expected _ r.expected r.was_parsed
        ∙ then_of (compare_roots r.actual r.expected) _ [] r.alike
        ∙ ap checked (IsRelease-lines input r)))

-- The comparison exits with 0 exactly where the output is what was released: one root project
-- outside the release, no part and no net that differs, both lists of material and the list of empty
-- places as released, and no input changed meanwhile.
pub main-IsRelease_iff : (input : Input) → (main input ≡ 0) ↔ IsRelease input
main-IsRelease_iff input = (main-IsRelease input, IsRelease-main input)
