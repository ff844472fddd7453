-- ===== src/Rules/Ends.antt =====
-- That the fuel of the parser in hardware/family/tools/text_rules.py is enough.
use thermocouple.Prelude.{
  ℕ, zero, suc, ◌+◌, ◌*◌, ◌<◌, ◌≤◌, ◌≡◌, refl, Bool, true, false, Option, none, some, [], ◌∷◌, Text,
  text_eq, if◌then◌else◌, length, arith, inl, inr, ◌⊎◌,
}
use thermocouple.Rules.Syntax.{
  Punct, Token, punct, quoted, name, Side, Property, Tree, Wrong, Reply, ok, fails, out_of_fuel,
  bind, either, both, or_op, and_op, bang, open_paren, close_paren, dot, eq_op, ne_op, or_op,
}
use thermocouple.Rules.Scan.{tokens}
use thermocouple.Rules.Parse.{
  Tokens, tail, starts, expect, pop, side_of, method_of, property_of, argument, compared,
  method_call, comparison, item, expr, or_terms, term, and_atoms, atom, finish, parse, of_tokens,
  condition,
}

-- A result of less than a given size, or an error.
abbrev Ends {ℓ} : {A : Type ℓ} → (A → ℕ) → ℕ → Reply A → Type 0
Ends size n (ok a) = size a < n
Ends size n (fails w) = Unit
Ends size n out_of_fuel = ⊥

module _ {ℓ κ} {A : Type ℓ} {B : Type κ} where
  bind-Ends :
      (size : A → ℕ) (size' : B → ℕ) (n m : ℕ) (r : Reply A) (f : A → Reply B)
      → Ends size n r
      → ((a : A) → size a < n → Ends size' m (f a))
      → Ends size' m (bind r f)
  bind-Ends size size' n m (ok a) f h k = k a h
  bind-Ends size size' n m (fails w) f h k = tt
  bind-Ends size size' n m out_of_fuel f h k = absurd h

more_Ends :
    {A : Type 0} (size : A → ℕ) (n m : ℕ) (r : Reply A) → Ends size n r → n ≤ m → Ends size m r
more_Ends size n m (ok a) h k = omega arith
more_Ends size n m (fails w) h k = tt
more_Ends size n m out_of_fuel h k = absurd h

if_Ends :
    {A : Type 0} (size : A → ℕ) (n : ℕ) (b : Bool) (r s : Reply A)
    → (b ≡ true → Ends size n r)
    → (b ≡ false → Ends size n s)
    → Ends size n (if b then r else s)
if_Ends size n true r s h k = h refl
if_Ends size n false r s h k = k refl

abbrev none_left {ℓ} : {A : Type ℓ} → A → ℕ
none_left a = 0

-- A choice between a result without tokens and what is tried next.
or_else_Ends :
    {A : Type 0} (b : Bool) (a : A) (r : Reply A)
    → Ends none_left 1 r
    → Ends none_left 1 (if b then ok a else r)
or_else_Ends true a r h = omega arith
or_else_Ends false a r h = h

-- The tokens that are left.
abbrev left {ℓ} : {A : Type ℓ} → A × Tokens → ℕ
left (a, ts) = length ts

starts-tail : (p : Punct) (ts : Tokens) → starts p ts ≡ true → length (tail ts) < length ts
unfolding starts
starts-tail p [] h = cc
starts-tail p (t ∷ ts) h = omega arith

pop-Ends : (ts : Tokens) → Ends left (length ts) (pop ts)
unfolding pop
pop-Ends [] = tt
pop-Ends (t ∷ ts) = omega arith

expect-Ends : (p : Punct) (ts : Tokens) → Ends length (length ts) (expect p ts)
unfolding expect
expect-Ends p ts = if_Ends length _ (starts p ts) _ _ (starts-tail p ts) (λ h. tt)

side_of-Ends : (t : Token) → Ends none_left 1 (side_of t)
unfolding side_of
side_of-Ends (punct p) = tt
side_of-Ends (quoted s) = tt
side_of-Ends (name s) = or_else_Ends (text_eq s _) _ _ (or_else_Ends (text_eq s _) _ _ tt)

method_of-Ends : (t : Token) → Ends none_left 1 (method_of t)
unfolding method_of
method_of-Ends (punct p) = tt
method_of-Ends (quoted s) = tt
method_of-Ends (name s) = or_else_Ends (text_eq s _) _ _ (or_else_Ends (text_eq s _) _ _ tt)

property_of-Ends : (t : Token) → Ends none_left 1 (property_of t)
unfolding property_of
property_of-Ends (punct p) = tt
property_of-Ends (quoted s) = tt
property_of-Ends (name s) =
    or_else_Ends (text_eq s _) _ _
      (or_else_Ends (text_eq s _) _ _ (or_else_Ends (text_eq s _) _ _ tt))

argument-Ends : (t : Token) → Ends none_left 1 (argument t)
unfolding argument
argument-Ends (punct p) = tt
argument-Ends (quoted s) = omega arith
argument-Ends (name s) = tt

compared-Ends :
    (side : Side) (prop : Property) (op value : Token)
    → Ends none_left 1 (compared side prop op value)
unfolding compared
compared-Ends side prop (punct eq_op) (quoted s) = omega arith
compared-Ends side prop (punct ne_op) (quoted s) = omega arith
compared-Ends side prop op value = tt

method_call-Ends :
    (side : Side) (prop : Token) (ts : Tokens) → Ends left (length ts) (method_call side prop ts)
unfolding method_call
method_call-Ends side prop ts = bind-Ends none_left left 1 _ _ _ (method_of-Ends prop) λ method h.
    bind-Ends left left (length ts) _ _ _ (pop-Ends ts) λ (arg, us) h1.
      bind-Ends length left (length us) _ _ _ (expect-Ends close_paren us)
        λ vs h2. bind-Ends none_left left 1 _ _ _ (argument-Ends arg) λ s h3. omega arith

comparison-Ends :
    (side : Side) (prop : Token) (ts : Tokens) → Ends left (length ts) (comparison side prop ts)
unfolding comparison
comparison-Ends side prop ts = bind-Ends left left (length ts) _ _ _ (pop-Ends ts) λ (op, us) h1.
    bind-Ends left left (length us) _ _ _ (pop-Ends us) λ (value, vs) h2.
      bind-Ends none_left left 1 _ _ _ (property_of-Ends prop)
        λ p h3. bind-Ends none_left left 1 _ _ _ (compared-Ends side p op value) λ t h4. omega arith

item-Ends : (ts : Tokens) → Ends left (length ts) (item ts)
unfolding item
item-Ends ts = bind-Ends left left (length ts) _ _ _ (pop-Ends ts) λ (first, us) h1.
    bind-Ends none_left left 1 _ _ _ (side_of-Ends first) λ side h2.
      bind-Ends length left (length us) _ _ _ (expect-Ends dot us) λ vs h3.
        bind-Ends left left (length vs) _ _ _ (pop-Ends vs) λ (prop, ws) h4.
          if_Ends left _ (starts open_paren ws) _ _
            (λ h.
              more_Ends left _ _ _ (method_call-Ends side prop (tail ws))
                (let shorter = starts-tail open_paren ws h in omega arith))
            (λ h. more_Ends left _ _ _ (comparison-Ends side prop ws) (omega arith))

mutual
  unfolding expr or_terms term and_atoms atom

  expr-Ends : (f : ℕ) (ts : Tokens) → 3 * length ts + 3 ≤ f → Ends left (length ts) (expr f ts)
  expr-Ends zero ts h = absurd (omega arith)
  expr-Ends (suc f) ts h =
      bind-Ends left left (length ts) _ _ _ (term-Ends f ts (omega arith))
        λ (t, us) h1. more_Ends left _ _ _ (or_terms-Ends f t us (omega arith)) (omega arith)

  or_terms-Ends :
      (f : ℕ) (t : Tree) (ts : Tokens)
      → 3 * length ts + 1 ≤ f
      → Ends left (suc (length ts)) (or_terms f t ts)
  or_terms-Ends zero t ts h = absurd (omega arith)
  or_terms-Ends (suc f) t ts h =
      if_Ends left _ (starts or_op ts) _ _
        (λ h1.
          let shorter = starts-tail or_op ts h1 in
          bind-Ends left left (length (tail ts)) _ _ _ (term-Ends f (tail ts) (omega arith))
            λ (u, us) h2.
              more_Ends left _ _ _ (or_terms-Ends f (either t u) us (omega arith)) (omega arith))
        (λ h1. omega arith)

  term-Ends : (f : ℕ) (ts : Tokens) → 3 * length ts + 2 ≤ f → Ends left (length ts) (term f ts)
  term-Ends zero ts h = absurd (omega arith)
  term-Ends (suc f) ts h =
      bind-Ends left left (length ts) _ _ _ (atom-Ends f ts (omega arith))
        λ (t, us) h1. more_Ends left _ _ _ (and_atoms-Ends f t us (omega arith)) (omega arith)

  and_atoms-Ends :
      (f : ℕ) (t : Tree) (ts : Tokens)
      → 3 * length ts + 1 ≤ f
      → Ends left (suc (length ts)) (and_atoms f t ts)
  and_atoms-Ends zero t ts h = absurd (omega arith)
  and_atoms-Ends (suc f) t ts h =
      if_Ends left _ (starts and_op ts) _ _
        (λ h1.
          let shorter = starts-tail and_op ts h1 in
          bind-Ends left left (length (tail ts)) _ _ _ (atom-Ends f (tail ts) (omega arith))
            λ (u, us) h2.
              more_Ends left _ _ _ (and_atoms-Ends f (both t u) us (omega arith)) (omega arith))
        (λ h1. omega arith)

  atom-Ends : (f : ℕ) (ts : Tokens) → 3 * length ts + 1 ≤ f → Ends left (length ts) (atom f ts)
  atom-Ends zero ts h = absurd (omega arith)
  atom-Ends (suc f) ts h =
      if_Ends left _ (starts bang ts) _ _
        (λ h1.
          let shorter = starts-tail bang ts h1 in
          bind-Ends left left (length (tail ts)) _ _ _ (atom-Ends f (tail ts) (omega arith))
            λ (t, us) h2. omega arith)
        (λ h1.
          if_Ends left _ (starts open_paren ts) _ _
            (λ h2.
              let shorter = starts-tail open_paren ts h2 in
              bind-Ends left left (length (tail ts)) _ _ _ (expr-Ends f (tail ts) (omega arith))
                λ (t, us) h3.
                  bind-Ends length left (length us) _ _ _ (expect-Ends close_paren us)
                    λ vs h4. omega arith)
            (λ h2. item-Ends ts))

finish-Ends : (r : Tree × Tokens) → Ends none_left 1 (finish r)
unfolding finish
finish-Ends (t, []) = omega arith
finish-Ends (t, u ∷ ts) = tt

of_tokens-Ends : (ts : Option Tokens) → Ends none_left 1 (of_tokens ts)
unfolding of_tokens parse
of_tokens-Ends none = tt
of_tokens-Ends (some []) = omega arith
of_tokens-Ends (some (t ∷ ts)) =
    bind-Ends left none_left (length (t ∷ ts)) _ _ _ (expr-Ends _ (t ∷ ts) (omega arith))
      λ r h. finish-Ends r

condition-Ends : (text : Text) → Ends none_left 1 (condition text)
unfolding condition
condition-Ends text = of_tokens-Ends (tokens text)

Ends-cases :
    {A : Type 0} (r : Reply A)
    → Ends none_left 1 r
    → ((a : A) × (r ≡ ok a)) ⊎ ((w : Wrong) × (r ≡ fails w))
Ends-cases (ok a) h = inl (a, refl)
Ends-cases (fails w) h = inr (w, refl)
Ends-cases out_of_fuel h = absurd h

-- Every text is read as a condition or refused with an error: the parser's fuel, three units for
-- each token and four more, is enough.
pub condition_ends :
    (text : Text)
    → ((t : Tree) × (condition text ≡ ok t)) ⊎ ((w : Wrong) × (condition text ≡ fails w))
condition_ends text = Ends-cases (condition text) (condition-Ends text)
