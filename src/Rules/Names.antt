-- ===== src/Rules/Names.antt =====
-- Names matched with patterns, and the class of a net, in hardware/family/tools/text_rules.py.
use thermocouple.Prelude.{
  ℕ, ◌≤◌, ◌<◌, ◌≡◌, refl, sym, subst, ◌∙◌, Bool, true, not, ◌&&◌, some, List, [], ◌∷◌, Text, codes,
  if◌then◌else◌, ltb, arith, Bool-cases, Option-cases, inl, inr, ◌⊎◌, All, all, text_eq,
  text_eq_refl, text_eq→≡, &&-true, ◌==◌, ◌++◌, ◌||◌, false, none, Option, ◌↔◌,
}
use thermocouple.Netlist.Sort.{mem_text}
use thermocouple.Netlist.Lookup.{Dict, lookup}
use thermocouple.Rules.Glob.{literal, fits, pieces, matches, fnmatchcase}
use thermocouple.Rules.Project.{NetClass, Rules, Pattern, Assigned, one_class, classes}
use thermocouple.Rules.Clear.{
  matching, assigned, priority_of, least, best_class, class_names, netclass,
}

-- A character that stands for itself in a pattern.
unfoldable pub is_literal : ℕ → Bool
is_literal c = not (c == b'*') && (not (c == b'?') && not (c == b'['))

literal-pieces :
    (c : ℕ) (p : Text) → is_literal c ≡ true → pieces 0 (c ∷ p) ≡ literal c ∷ pieces 0 p
unfolding pieces is_literal
literal-pieces c p h = ground arith

matches-literal : (p s : Text) → all is_literal p ≡ true → matches (pieces 0 p) s ≡ text_eq p s
unfolding matches fits all text_eq pieces
matches-literal [] [] h = refl
matches-literal [] (d ∷ s) h = refl
matches-literal (c ∷ p) [] h =
    let (this, others) = &&-true (is_literal c) (all is_literal p) h in
    rw (literal-pieces c p this) refl
matches-literal (c ∷ p) (d ∷ s) h =
    let (this, others) = &&-true (is_literal c) (all is_literal p) h in
    rw (literal-pieces c p this, matches-literal p s others) refl

-- A pattern without `*`, `?` and `[` matches the text that it is, and no other.
pub fnmatchcase-literal : (s p : Text) → all is_literal p ≡ true → fnmatchcase s p ≡ text_eq p s
unfolding fnmatchcase
fnmatchcase-literal s p h = matches-literal p s h

some_inj : {A : Type 0} {a b : A} → some a ≡ some b → a ≡ b
some_inj e = cc

-- The class `s` is one of the names, and its priority is the least of theirs.
record Least (d : Dict NetClass) (names : List Text) (s : Text) : Type 0 where
  pub class_here : NetClass
  pub known : lookup s d ≡ some class_here
  pub listed : mem_text s names ≡ true
  pub first :
      All
        (λ (n : Text).
          (c : NetClass) × (lookup n d ≡ some c) × (priority_of class_here ≤ priority_of c))
        names

later_mem :
    (s n : Text) (names : List Text) → mem_text s names ≡ true → mem_text s (n ∷ names) ≡ true
unfolding mem_text
later_mem s n names h = ground arith

skip_mem :
    (s m n : Text) (names : List Text)
    → mem_text s (m ∷ names) ≡ true
    → mem_text s (m ∷ n ∷ names) ≡ true
unfolding mem_text
skip_mem s m n names h = ground arith

here_mem : (s : Text) (names : List Text) → mem_text s (s ∷ names) ≡ true
unfolding mem_text
here_mem s names = rw (text_eq_refl s) refl

known_le :
    (d : Dict NetClass) (n : Text) (e : NetClass) (m : ℕ)
    → ((c : NetClass) × (lookup n d ≡ some c) × (m ≤ priority_of c))
    → lookup n d ≡ some e
    → m ≤ priority_of e
known_le d n e m (c, known, h) there =
    subst (λ (t : NetClass). m ≤ priority_of t) (some_inj (sym known ∙ there)) h

least-Least :
    (d : Dict NetClass) (best : Text) (c : NetClass) (names : List Text) (s : Text)
    → lookup best d ≡ some c
    → least d best (priority_of c) names ≡ some s
    → Least d (best ∷ names) s
unfolding least
least-Least d best c [] s known h =
    let same : best ≡ s = some_inj h in
    subst (Least d (best ∷ [])) same (record {
      class_here = c;
      known = known;
      listed = here_mem best [];
      first = ((c, known, omega arith), tt);
    })
least-Least d best c (n ∷ names) s known h = elim (Option-cases (lookup n d)) [
  | inl unknown ↦ cc (rw (unknown, least) at h)
  | inr (e, there) ↦
      let h1 : (if ltb (priority_of e) (priority_of c)
            then least d n (priority_of e) names
            else least d best (priority_of c) names)
          ≡ some s =
        rw (there, least) at h in
      elim (Bool-cases (ltb (priority_of e) (priority_of c))) [
        | inl better ↦
            let l = least-Least d n e names s there (rw better at h1) in
            let le = known_le d n e (priority_of l.class_here) l.first.0 there in
            let below : priority_of e < priority_of c = ground arith in
            record {
              class_here = l.class_here;
              known = l.known;
              listed = later_mem s best (n ∷ names) l.listed;
              first = ((c, known, omega arith), l.first);
            }
        | inr worse ↦
            let l = least-Least d best c names s known (rw worse at h1) in
            let le = known_le d best c (priority_of l.class_here) l.first.0 known in
            let above : priority_of c ≤ priority_of e = ground arith in
            record {
              class_here = l.class_here;
              known = l.known;
              listed = skip_mem s best n names l.listed;
              first = (l.first.0, ((e, there, omega arith), l.first.1));
            }
      ]
]

best_class-Least :
    (d : Dict NetClass) (names : List Text) (s : Text)
    → best_class d names ≡ some s
    → ((names ≡ []) × (s ≡ codes "Default")) ⊎ Least d names s
unfolding best_class
best_class-Least d [] s h = inl (refl, sym (some_inj h))
best_class-Least d (n ∷ names) s h = elim (Option-cases (lookup n d)) [
  | inl unknown ↦ cc (rw (unknown, best_class) at h)
  | inr (c, known) ↦ inr (least-Least d n c names s known (rw (known, best_class) at h))
]

not_true : false ≡ true → ⊥
not_true h = cc

or_true : (a : Bool) {b : Bool} → b ≡ true → (a || b) ≡ true
or_true a h = ground arith

or_false : (a : Bool) → (a || false) ≡ true → a ≡ true
or_false a h = ground arith

or_other : (a : Bool) {b : Bool} → (a || b) ≡ true → a ≡ false → b ≡ true
or_other a h k = ground arith

none_named : (n : Text) (names : List Text) → names ≡ [] → mem_text n names ≡ true → ⊥
unfolding mem_text
none_named n [] e m = not_true m
none_named n (k ∷ names) e m = cc

-- A pattern that the net matches names the class.
unfoldable pub ByPattern : Text → Text → List Pattern → Type 0
ByPattern net n [] = ⊥
ByPattern net n (p ∷ ps) =
    ((fnmatchcase net p.pattern_text ≡ true) × (n ≡ p.netclass)) ⊎ ByPattern net n ps

-- The assignment of the net is the class, or lists it.
unfoldable pub ByAssignment : Text → Option Assigned → Type 0
unfolding mem_text
ByAssignment n none = ⊥
ByAssignment n (some (one_class s)) = n ≡ s
ByAssignment n (some (classes ss)) = mem_text n ss ≡ true

-- What gives the net the class: a pattern or its assignment.
abbrev pub Gives : Rules → Text → Text → Type 0
Gives r net n = ByPattern net n r.patterns ⊎ ByAssignment n (lookup net r.assignments)

-- The class is one that the net is given, and its priority is the least of theirs.
pub record LeastNamed (r : Rules) (net s : Text) : Type 0 where
  pub class_here : NetClass
  pub known : lookup s r.classes ≡ some class_here
  pub given : Gives r net s
  pub first :
      (n : Text)
      → Gives r net n
      → (c : NetClass) × (lookup n r.classes ≡ some c) × (priority_of class_here ≤ priority_of c)

matching-mem :
    (net n : Text) (ps : List Pattern) → (mem_text n (matching net ps) ≡ true) ↔ ByPattern net n ps
unfolding matching mem_text ByPattern
matching-mem net n [] = ((λ h. absurd (not_true h)), λ h. absurd h)
matching-mem net n (p ∷ ps) =
    let rest = matching-mem net n ps in
    elim (Bool-cases (fnmatchcase net p.pattern_text)) [
      | inr misses ↦ rw misses (
        (λ h. inr (rest.0 h)),
        λ h. elim h [ inl (hit, e) ↦ absurd (not_true hit) | inr later ↦ rest.1 later ],
      )
      | inl hits ↦ rw hits (
        (λ h. elim (Bool-cases (text_eq n p.netclass)) [
          | inl same ↦ inl (refl, text_eq→≡ n p.netclass same)
          | inr other ↦ inr (rest.0 (rw other at h))
        ]),
        λ h. elim h [
          | inl (hit, e) ↦ rw (e, text_eq_refl p.netclass) refl
          | inr later ↦ or_true (text_eq n p.netclass) (rest.1 later)
        ],
      )
    ]

assigned-mem :
    (n : Text) (a : Option Assigned) → (mem_text n (assigned a) ≡ true) ↔ ByAssignment n a
unfolding mem_text ByAssignment
assigned-mem n none = ((λ h. absurd (not_true h)), λ h. absurd h)
assigned-mem n (some (one_class s)) =
    ((λ h. text_eq→≡ n s (or_false (text_eq n s) h)), λ e. rw (e, text_eq_refl s) refl)
assigned-mem n (some (classes ss)) = ((λ h. h), λ h. h)

mem-append :
    (k : Text) (xs ys : List Text) → mem_text k (xs ++ ys) ≡ (mem_text k xs || mem_text k ys)
unfolding mem_text
mem-append k [] ys = refl
mem-append k (x ∷ xs) ys = ground (arith, mem-append k xs ys)

class_names-Gives :
    (r : Rules) (net n : Text) → (mem_text n (class_names r net) ≡ true) ↔ Gives r net n
unfolding class_names
class_names-Gives r net n =
    let found = matching-mem net n r.patterns in
    let given = assigned-mem n (lookup net r.assignments) in
    let parts = mem-append n (matching net r.patterns) (assigned (lookup net r.assignments)) in
    (
      (λ h. elim (Bool-cases (mem_text n (matching net r.patterns))) [
        | inl there ↦ inl (found.0 there)
        | inr other ↦
            inr (given.0 (or_other (mem_text n (matching net r.patterns)) (sym parts ∙ h) other))
      ]),
      λ h. elim h [
        | inl there ↦ parts ∙ rw (found.1 there) refl
        | inr there ↦ parts ∙ or_true (mem_text n (matching net r.patterns)) (given.1 there)
      ],
    )

all-mem :
    (P : Text → Type 0) (n : Text) (names : List Text) → All P names → mem_text n names ≡ true → P n
unfolding mem_text
all-mem P n [] h m = absurd (not_true m)
all-mem P n (k ∷ names) (this, others) m = elim (Bool-cases (text_eq n k)) [
  | inl same ↦ subst P (sym (text_eq→≡ n k same)) this
  | inr other ↦ all-mem P n names others (rw other at m)
]

-- Copper without a net has no class. A net that no pattern and no assignment gives a class has the
-- class Default; otherwise its class is one that a pattern it matches or its assignment gives it, and
-- has the least priority of all that they give it, which are all known.
pub netclass-LeastNamed :
    (r : Rules) (net s : Text)
    → netclass r net ≡ some s
    → ((net ≡ []) × (s ≡ []))
      ⊎ ((((n : Text) → Gives r net n → ⊥) × (s ≡ codes "Default")) ⊎ LeastNamed r net s)
unfolding netclass
netclass-LeastNamed r [] s h = inl (refl, sym (some_inj h))
netclass-LeastNamed r (c ∷ net) s h =
    let named_iff = class_names-Gives r (c ∷ net) in
    inr (elim (best_class-Least r.classes (class_names r (c ∷ net)) s h) [
      | inl (nothing, default) ↦
          inl ((λ n given. none_named n _ nothing ((named_iff n).1 given)), default)
      | inr l ↦ inr (record {
        class_here = l.class_here;
        known = l.known;
        given = (named_iff s).0 l.listed;
        first = λ n given. all-mem _ n (class_names r (c ∷ net)) l.first ((named_iff n).1 given);
      })
    ])
