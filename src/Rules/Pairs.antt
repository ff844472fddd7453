-- ===== src/Rules/Pairs.antt =====
-- The clearance between two items that hardware/family/tools/text_rules.py finds.
use thermocouple.Prelude.{
  ℕ, ◌≤◌, ◌<◌, ◌≡◌, refl, ap, subst, ◌∙◌, Bool, true, false, ◌||◌, Option, none, some, List, [],
  ◌∷◌, ◌++◌, Text, ltb, max, arith, Bool-cases, Option-cases, inl, inr, ◌⊎◌, All,
}
use thermocouple.Rules.Judge.{Item, run}
use thermocouple.Rules.Project.{Rule, Rules, or_zero}
use thermocouple.Rules.Clear.{
  Source, from_class, from_rule, class_clearance, applies, by_rules, at_least, classified, between,
  with_classes, netclass, clearance,
}

pub some_inj : {A : Type 0} {a b : A} → some a ≡ some b → a ≡ b
some_inj e = cc

or_comm : (a b : Bool) → (a || b) ≡ (b || a)
or_comm a b = ground arith

applies_comm : (rule : Rule) (a b : Item) → applies rule a b ≡ applies rule b a
unfolding applies
applies_comm rule a b = or_comm (run rule.condition a b) (run rule.condition b a)

by_rules_comm :
    (rules : List Rule) (a b : Item) (found : ℕ × Source)
    → by_rules rules a b found ≡ by_rules rules b a found
unfolding by_rules
by_rules_comm [] a b found = refl
by_rules_comm (rule ∷ rules) a b found = rw (applies_comm rule a b) (by_rules_comm rules a b _)

max_comm : (m n : ℕ) → max m n ≡ max n m
max_comm m n = omega arith

between_comm : (r : Rules) (a b : Item) → between r a b ≡ between r b a
unfolding between
between_comm r a b = ap (at_least (or_zero r.min_clearance)) (
    by_rules_comm r.rules a b _
    ∙ ap (λ (n : ℕ). by_rules r.rules b a (n, from_class))
        (max_comm (class_clearance r a.class_name) (class_clearance r b.class_name)))

with_classes_comm :
    (r : Rules) (a b : Item) (s t : Option Text) → with_classes r a b s t ≡ with_classes r b a t s
unfolding with_classes
with_classes_comm r a b none none = refl
with_classes_comm r a b none (some t) = refl
with_classes_comm r a b (some s) none = refl
with_classes_comm r a b (some s) (some t) =
    ap some (between_comm r (classified s a) (classified t b))

-- The clearance and its source do not depend on the order of the two items.
pub clearance_comm : (r : Rules) (a b : Item) → clearance r a b ≡ clearance r b a
unfolding clearance
clearance_comm r a b = with_classes_comm r a b (netclass r a.net) (netclass r b.net)

-- The last rule that applies.
pub record Last (rules : List Rule) (a b : Item) (found : ℕ × Source) : Type 0 where
  pub rule : Rule
  pub earlier : List Rule
  pub later : List Rule
  pub split : rules ≡ earlier ++ (rule ∷ later)
  pub holds : applies rule a b ≡ true
  pub none_later : All (λ (other : Rule). applies other a b ≡ false) later
  pub found_here : found ≡ (rule.minimum, from_rule rule.name)

later_Last :
    (rule : Rule) (rules : List Rule) (a b : Item) (found : ℕ × Source)
    → Last rules a b found
    → Last (rule ∷ rules) a b found
later_Last rule rules a b found last = record {
  rule = last.rule;
  earlier = rule ∷ last.earlier;
  later = last.later;
  split = ap (λ (t : List Rule). rule ∷ t) last.split;
  holds = last.holds;
  none_later = last.none_later;
  found_here = last.found_here;
}

by_rules-Last :
    (rules : List Rule) (a b : Item) (found : ℕ × Source)
    → (All (λ (rule : Rule). applies rule a b ≡ false) rules × (by_rules rules a b found ≡ found))
      ⊎ Last rules a b (by_rules rules a b found)
unfolding by_rules
by_rules-Last [] a b found = inl (tt, refl)
by_rules-Last (rule ∷ rules) a b found = elim (Bool-cases (applies rule a b)) [
  | inl holds ↦ rw holds (elim (by_rules-Last rules a b (rule.minimum, from_rule rule.name)) [
    | inl (others, same) ↦ inr (record {
      rule = rule;
      earlier = [];
      later = rules;
      split = refl;
      holds = holds;
      none_later = others;
      found_here = same;
    })
    | inr last ↦ inr (later_Last rule rules a b _ last)
  ])
  | inr not_here ↦ rw not_here (elim (by_rules-Last rules a b found) [
    | inl (others, same) ↦ inl ((refl, others), same)
    | inr last ↦ inr (later_Last rule rules a b _ last)
  ])
]

-- What was found before the minimum of the board: the last rule that applies, or else the larger
-- clearance of the two classes; and what that minimum makes of it.
pub record Decided (r : Rules) (a b : Item) (out : ℕ × Source) : Type 0 where
  pub found : ℕ × Source
  pub by :
      (All (λ (rule : Rule). applies rule a b ≡ false) r.rules
        × (found
            ≡ (max (class_clearance r a.class_name) (class_clearance r b.class_name), from_class)))
      ⊎ Last r.rules a b found
  pub value : out.0 ≡ max found.0 (or_zero r.min_clearance)
  pub kept : or_zero r.min_clearance ≤ found.0 → out ≡ found

pub at_least-value : (n : ℕ) (found : ℕ × Source) → (at_least n found).0 ≡ max found.0 n
unfolding at_least
at_least-value n (value, source) = elim (Bool-cases (ltb value n)) [
  | inl below ↦ rw below (let h : value < n = ground arith in omega arith)
  | inr enough ↦ rw enough (let h : n ≤ value = ground arith in omega arith)
]

at_least-kept : (n : ℕ) (found : ℕ × Source) → n ≤ found.0 → at_least n found ≡ found
unfolding at_least
at_least-kept n (value, source) h =
    let enough : ltb value n ≡ false = ground arith in rw enough refl

between-Decided : (r : Rules) (a b : Item) → Decided r a b (between r a b)
unfolding between
between-Decided r a b =
    let base : ℕ × Source =
      (max (class_clearance r a.class_name) (class_clearance r b.class_name), from_class) in
    record {
      found = by_rules r.rules a b base;
      by = by_rules-Last r.rules a b base;
      value = at_least-value (or_zero r.min_clearance) (by_rules r.rules a b base);
      kept = at_least-kept (or_zero r.min_clearance) (by_rules r.rules a b base);
    }

pub clearance-between :
    (r : Rules) (a b : Item) (out : ℕ × Source)
    → clearance r a b ≡ some out
    → (s : Text) × (t : Text) × (netclass r a.net ≡ some s)
      × (netclass r b.net ≡ some t)
      × (between r (classified s a) (classified t b) ≡ out)
unfolding clearance
clearance-between r a b out h = elim (Option-cases (netclass r a.net)) [
  | inl no_class ↦ cc (rw (no_class, with_classes) at h)
  | inr (s, class_a) ↦ elim (Option-cases (netclass r b.net)) [
    | inl no_class ↦ cc (rw (class_a, no_class, with_classes) at h)
    | inr (t, class_b) ↦
        (s, t, class_a, class_b, some_inj (rw (class_a, class_b, with_classes) at h))
  ]
]

-- Where a clearance is found, both nets have a class, and the clearance and its source are those of
-- the last rule that applies in either order of the items, or else the larger clearance of the two
-- classes, raised to the minimum of the board where they are below it.
pub clearance-Decided :
    (r : Rules) (a b : Item) (out : ℕ × Source)
    → clearance r a b ≡ some out
    → (s : Text) × (t : Text) × (netclass r a.net ≡ some s)
      × (netclass r b.net ≡ some t)
      × Decided r (classified s a) (classified t b) out
clearance-Decided r a b out h =
    let (s, t, class_a, class_b, same) = clearance-between r a b out h in
    let a' = classified s a in
    let b' = classified t b in
    (s, t, class_a, class_b, subst (Decided r a' b') same (between-Decided r a' b'))
