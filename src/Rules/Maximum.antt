-- ===== src/Rules/Maximum.antt =====
-- How large a clearance of hardware/family/tools/text_rules.py can be.
use thermocouple.Prelude.{
  ℕ, ◌≤◌, ◌≡◌, refl, sym, ap, subst, ◌∙◌, some, List, [], ◌∷◌, ◌++◌, Text, codes, max, arith,
  Bool-cases, Option-cases, inl, inr, text_eq,
}
use thermocouple.Netlist.Lookup.{Dict, lookup}
use thermocouple.Rules.Judge.{Item}
use thermocouple.Rules.Project.{
  NetClass, Rule, Rules, Settings, Loaded, loaded, refused, and_then, or_zero, greatest,
  class_clearances, minima, maximum_of, finish, init, start, is_some,
}
use thermocouple.Rules.Clear.{
  Source, from_class, from_rule, clearance_of, class_clearance, applies, by_rules, classified,
  between, clearance,
}
use thermocouple.Rules.Pairs.{some_inj, at_least-value, clearance-between}

loaded_inj : {r s : Rules} → loaded r ≡ loaded s → r ≡ s
loaded_inj e = cc

greatest-append : (ms ns : List ℕ) → greatest (ms ++ ns) ≡ max (greatest ms) (greatest ns)
unfolding greatest
greatest-append [] ns = omega arith
greatest-append (m ∷ ms) ns = omega (arith, greatest-append ms ns)

lookup-bound :
    (s : Text) (d : Dict NetClass) (c : NetClass)
    → lookup s d ≡ some c
    → or_zero c.clearance ≤ greatest (class_clearances d)
unfolding lookup greatest class_clearances
lookup-bound s [] c h = cc
lookup-bound s ((k, e) ∷ d) c h = elim (Bool-cases (text_eq s k)) [
  | inl same ↦
      let this : e ≡ c = some_inj (rw same at h) in
      subst
        (λ (t : NetClass).
          or_zero t.clearance ≤ max (or_zero e.clearance) (greatest (class_clearances d)))
        this (omega arith)
  | inr other ↦ let below = lookup-bound s d c (rw other at h) in omega arith
]

default-bound :
    (s : Text) (d : Dict NetClass) → clearance_of (lookup s d) ≤ greatest (class_clearances d)
default-bound s d = elim (Option-cases (lookup s d)) [
  | inl unknown ↦ rw unknown (omega arith)
  | inr (c, known) ↦ rw known (lookup-bound s d c known)
]

class-bound : (r : Rules) (s : Text) → class_clearance r s ≤ greatest (class_clearances r.classes)
unfolding class_clearance
class-bound r s = elim (Option-cases (lookup s r.classes)) [
  | inl unknown ↦ rw (unknown, class_clearance) (default-bound (codes "Default") r.classes)
  | inr (c, known) ↦ rw (known, class_clearance) (lookup-bound s r.classes c known)
]

by_rules-bound :
    (rules : List Rule) (a b : Item) (found : ℕ × Source) (n : ℕ)
    → found.0 ≤ n
    → greatest (minima rules) ≤ n
    → (by_rules rules a b found).0 ≤ n
unfolding by_rules greatest minima
by_rules-bound [] a b found n h k = h
by_rules-bound (rule ∷ rules) a b found n h k = elim (Bool-cases (applies rule a b)) [
  | inl holds ↦
      rw (holds, by_rules)
        (by_rules-bound rules a b (rule.minimum, from_rule rule.name) n (omega arith) (omega arith))
  | inr not_here ↦ rw (not_here, by_rules) (by_rules-bound rules a b found n h (omega arith))
]

maximum_parts :
    (r : Rules)
    → maximum_of r
      ≡ max
          (max (greatest (class_clearances r.classes)) (greatest (minima r.rules)))
          (max (or_zero r.min_clearance) 0)
unfolding maximum_of greatest
maximum_parts r =
    greatest-append (class_clearances r.classes ++ minima r.rules) (or_zero r.min_clearance ∷ [])
    ∙ ap (λ (n : ℕ). max n (max (or_zero r.min_clearance) 0))
        (greatest-append (class_clearances r.classes) (minima r.rules))

between-bound : (r : Rules) (a b : Item) → (between r a b).0 ≤ maximum_of r
unfolding between
between-bound r a b =
    let parts = maximum_parts r in
    let left = class-bound r a.class_name in
    let right = class-bound r b.class_name in
    let base : ℕ × Source =
      (max (class_clearance r a.class_name) (class_clearance r b.class_name), from_class) in
    let found = by_rules-bound r.rules a b base (maximum_of r) (omega arith) (omega arith) in
    let value = at_least-value (or_zero r.min_clearance) (by_rules r.rules a b base) in omega arith

finish-maximum :
    (l : Loaded Rules) (r : Rules) → and_then l finish ≡ loaded r → r.maximum ≡ maximum_of r
unfolding finish maximum_of
finish-maximum (loaded q) r h =
    let same : record q { maximum = maximum_of q } ≡ r = loaded_inj h in
    subst (λ (t : Rules). t.maximum ≡ maximum_of t) same refl
finish-maximum (refused e) r h = cc

init-maximum :
    (settings : Settings) (rules_text : Text) (r : Rules)
    → init settings rules_text ≡ loaded r
    → r.maximum ≡ maximum_of r
unfolding init
init-maximum settings rules_text r h =
    elim (Bool-cases (is_some (lookup (codes "Default") (start settings).classes))) [
      | inl there ↦ finish-maximum _ r (rw there at h)
      | inr absent ↦ cc (rw absent at h)
    ]

-- No clearance that the rules of a loaded project give is larger than their `maximum`.
pub clearance-maximum :
    (settings : Settings) (rules_text : Text) (r : Rules) (a b : Item) (out : ℕ × Source)
    → init settings rules_text ≡ loaded r
    → clearance r a b ≡ some out
    → out.0 ≤ r.maximum
clearance-maximum settings rules_text r a b out h found =
    let (s, t, class_a, class_b, same) = clearance-between r a b out found in
    let bound = between-bound r (classified s a) (classified t b) in
    subst (λ (p : ℕ × Source). p.0 ≤ r.maximum) same
      (subst (λ (n : ℕ). (between r (classified s a) (classified t b)).0 ≤ n)
        (sym (init-maximum settings rules_text r h)) bound)
