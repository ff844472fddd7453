-- ===== src/Rules/RoundTrip.antt =====
-- What the parser of hardware/family/tools/text_rules.py makes of a written condition.
use thermocouple.Prelude.{
  ℕ, zero, suc, ◌+◌, ◌*◌, ◌≤◌, ◌≡◌, refl, sym, ap, subst, false, [], ◌∷◌, ◌++◌, length,
  length-append, arith,
}
use mathlib.Core.List.{append_assoc, append-nil}
use thermocouple.Rules.Syntax.{
  punct, Tree, Reply, ok, always, either, both, negated, call, equals, differs, or_op, and_op, bang,
  open_paren, close_paren,
}
use thermocouple.Rules.Parse.{Tokens, starts, expr, or_terms, term, and_atoms, atom, finish, parse}
use thermocouple.Rules.Printed.{Place, whole, operand, factor, enclosed, emit, Written}
use thermocouple.Rules.Reads.{
  Gives, or_stops, and_stops, atom-term, term-expr, or_goes_on, and_goes_on, not-atom, group-atom,
  IsItem, item-atom,
}

more :
    (p : ℕ → Reply (Tree × Tokens)) (n m : ℕ) (r : Tree × Tokens)
    → Gives p n r
    → n ≤ m
    → Gives p m r
more p n m r h k f e = h f (omega arith)

moved :
    (p : ℕ → Tokens → Reply (Tree × Tokens)) (ts us : Tokens) (n m : ℕ) (r : Tree × Tokens)
    → ts ≡ us
    → Gives (λ f. p f us) n r
    → n ≤ m
    → Gives (λ f. p f ts) m r
moved p ts us n m r same h k f e = rw same (h f (omega arith))

-- The tokens are read as the condition by `atom`, by `term` before what `and_atoms` does with the
-- rest, and by `expr` before what `or_terms` does with it.
abbrev AsAtom : Tokens → Tree → Type 0
AsAtom ts t = (us : Tokens) → Gives (λ f. atom f (ts ++ us)) (3 * length ts) (t, us)

abbrev AsTerm : Tokens → Tree → Type 0
AsTerm ts t =
    (us : Tokens) (m : ℕ) (r : Tree × Tokens)
    → Gives (λ f. and_atoms f t us) m r
    → Gives (λ f. term f (ts ++ us)) (3 * length ts + 1 + m) r

abbrev AsExpr : Tokens → Tree → Type 0
AsExpr ts t =
    (us : Tokens) (m : ℕ) (r : Tree × Tokens)
    → starts and_op us ≡ false
    → Gives (λ f. or_terms f t us) m r
    → Gives (λ f. expr f (ts ++ us)) (3 * length ts + 3 + m) r

AsAtom-AsTerm : (ts : Tokens) (t : Tree) → AsAtom ts t → AsTerm ts t
AsAtom-AsTerm ts t h us m r k =
    more (λ f. term f (ts ++ us)) _ _ r (atom-term t (ts ++ us) us (3 * length ts) m r (h us) k)
      (omega arith)

AsTerm-AsExpr : (ts : Tokens) (t : Tree) → AsTerm ts t → AsExpr ts t
AsTerm-AsExpr ts t h us m r stop k =
    more (λ f. expr f (ts ++ us)) _ _ r
      (term-expr t (ts ++ us) us (3 * length ts + 1 + 1) m r (h us 1 (t, us) (and_stops t us stop))
        k)
      (omega arith)

AsExpr-AsAtom : (ts : Tokens) (t : Tree) → AsExpr ts t → AsAtom (enclosed ts) t
unfolding starts
AsExpr-AsAtom ts t h us =
    let after : Tokens = punct close_paren ∷ us in
    let inner : Gives (λ f. expr f (ts ++ after)) (3 * length ts + 3 + 1) (t, after) =
      h after 1 (t, after) refl (or_stops t after refl) in
    let same : (ts ++ (punct close_paren ∷ [])) ++ us ≡ ts ++ after =
      append_assoc ts (punct close_paren ∷ []) us in
    let group : Gives (λ f. atom f (punct open_paren ∷ (ts ++ after))) (suc (3 * length ts + 3 + 1))
        (t, us) =
      group-atom t (ts ++ after) us _ inner in
    moved atom (enclosed ts ++ us) (punct open_paren ∷ (ts ++ after)) _ _ (t, us)
      (ap (λ vs. punct open_paren ∷ vs) same) group
      (omega (arith, length-append ts (punct close_paren ∷ [])))

both-AsTerm :
    (ts us : Tokens) (t u : Tree)
    → AsTerm ts t
    → AsAtom us u
    → AsTerm (ts ++ (punct and_op ∷ us)) (both t u)
both-AsTerm ts us t u h k rest m r e =
    let same : (ts ++ (punct and_op ∷ us)) ++ rest ≡ ts ++ (punct and_op ∷ (us ++ rest)) =
      append_assoc ts (punct and_op ∷ us) rest in
    let found =
      h (punct and_op ∷ (us ++ rest)) _ r (and_goes_on t u (us ++ rest) rest _ m r (k rest) e) in
    moved term ((ts ++ (punct and_op ∷ us)) ++ rest) (ts ++ (punct and_op ∷ (us ++ rest))) _ _ r
      same found (omega (arith, length-append ts (punct and_op ∷ us)))

either-AsExpr :
    (ts us : Tokens) (t u : Tree)
    → AsExpr ts t
    → AsTerm us u
    → AsExpr (ts ++ (punct or_op ∷ us)) (either t u)
unfolding starts
either-AsExpr ts us t u h k rest m r stop e =
    let same : (ts ++ (punct or_op ∷ us)) ++ rest ≡ ts ++ (punct or_op ∷ (us ++ rest)) =
      append_assoc ts (punct or_op ∷ us) rest in
    let found =
      h (punct or_op ∷ (us ++ rest)) _ r refl
        (or_goes_on t u (us ++ rest) rest _ m r (k rest 1 (u, rest) (and_stops u rest stop)) e) in
    moved expr ((ts ++ (punct or_op ∷ us)) ++ rest) (ts ++ (punct or_op ∷ (us ++ rest))) _ _ r same
      found (omega (arith, length-append ts (punct or_op ∷ us)))

-- A condition in its three places.
record Reads (t : Tree) : Type 0 where
  as_atom : AsAtom (emit t factor) t
  as_term : AsTerm (emit t operand) t
  as_expr : AsExpr (emit t whole) t

atom-Reads :
    (t : Tree)
    → AsAtom (emit t factor) t
    → emit t operand ≡ emit t factor
    → emit t whole ≡ emit t factor
    → Reads t
atom-Reads t h e e' =
    let as_term = AsAtom-AsTerm (emit t factor) t h in
    record {
      as_atom = h;
      as_term = subst (λ ts. AsTerm ts t) (sym e) as_term;
      as_expr = subst (λ ts. AsExpr ts t) (sym e') (AsTerm-AsExpr (emit t factor) t as_term);
    }

item-Reads :
    (t : Tree)
    → IsItem t
    → emit t operand ≡ emit t factor
    → emit t whole ≡ emit t factor
    → suc zero ≤ length (emit t factor)
    → Reads t
item-Reads t h e e' n =
    atom-Reads t
      (λ us.
        more (λ f. atom f (emit t factor ++ us)) _ _ (t, us) (item-atom t factor us h)
          (omega arith))
      e e'

negated-Reads : (t : Tree) → Reads t → Reads (negated t)
unfolding emit
negated-Reads t h =
    atom-Reads (negated t)
      (λ us.
        more (λ f. atom f (punct bang ∷ (emit t factor ++ us))) _ _ (negated t, us)
          (not-atom t (emit t factor ++ us) us _ (h.as_atom us)) (omega arith))
      refl refl

both-Reads : (t u : Tree) → Reads t → Reads u → Reads (both t u)
unfolding emit
both-Reads t u h k =
    let as_term = both-AsTerm (emit t operand) (emit u factor) t u h.as_term k.as_atom in
    let as_expr =
      AsTerm-AsExpr (emit t operand ++ (punct and_op ∷ emit u factor)) (both t u) as_term in
    record {
      as_atom = AsExpr-AsAtom (emit t operand ++ (punct and_op ∷ emit u factor)) (both t u) as_expr;
      as_term = as_term;
      as_expr = as_expr;
    }

either-Reads : (t u : Tree) → Reads t → Reads u → Reads (either t u)
unfolding emit
either-Reads t u h k =
    let as_expr = either-AsExpr (emit t whole) (emit u operand) t u h.as_expr k.as_term in
    let as_atom =
      AsExpr-AsAtom (emit t whole ++ (punct or_op ∷ emit u operand)) (either t u) as_expr in
    record {
      as_atom = as_atom;
      as_term =
          AsAtom-AsTerm (enclosed (emit t whole ++ (punct or_op ∷ emit u operand))) (either t u)
            as_atom;
      as_expr = as_expr;
    }

Written-Reads : (t : Tree) → Written t → Reads t
unfolding emit
Written-Reads always h = absurd h
Written-Reads (either t u) (h, k) = either-Reads t u (Written-Reads t h) (Written-Reads u k)
Written-Reads (both t u) (h, k) = both-Reads t u (Written-Reads t h) (Written-Reads u k)
Written-Reads (negated t) h = negated-Reads t (Written-Reads t h)
Written-Reads (call side method s) h = item-Reads _ tt refl refl (omega arith)
Written-Reads (equals side prop s) h = item-Reads _ tt refl refl (omega arith)
Written-Reads (differs side prop s) h = item-Reads _ tt refl refl (omega arith)

length-emit_pos : (t : Tree) (p : Place) → Written t → suc zero ≤ length (emit t p)
unfolding emit
length-emit_pos always p h = absurd h
length-emit_pos (either t u) whole h =
    omega (arith, length-append (emit t whole) (punct or_op ∷ emit u operand))
length-emit_pos (either t u) operand h = omega arith
length-emit_pos (either t u) factor h = omega arith
length-emit_pos (both t u) whole h =
    omega (arith, length-append (emit t operand) (punct and_op ∷ emit u factor))
length-emit_pos (both t u) operand h =
    omega (arith, length-append (emit t operand) (punct and_op ∷ emit u factor))
length-emit_pos (both t u) factor h = omega arith
length-emit_pos (negated t) p h = omega arith
length-emit_pos (call side method s) p h = omega arith
length-emit_pos (equals side prop s) p h = omega arith
length-emit_pos (differs side prop s) p h = omega arith

expr-emit :
    (t : Tree) → Written t → expr (3 * length (emit t whole) + 4) (emit t whole) ≡ ok (t, [])
unfolding starts
expr-emit t h =
    let found = (Written-Reads t h).as_expr [] 1 (t, []) refl (or_stops t [] refl) in
    moved expr (emit t whole) (emit t whole ++ []) _ (3 * length (emit t whole) + 4) (t, [])
      (sym (append-nil (emit t whole))) found (omega arith) (3 * length (emit t whole) + 4)
      (omega arith)

parse-expr :
    (ts : Tokens) (t : Tree)
    → suc zero ≤ length ts
    → expr (3 * length ts + 4) ts ≡ ok (t, [])
    → parse ts ≡ ok t
unfolding parse finish
parse-expr [] t n h = absurd (omega arith)
parse-expr (u ∷ ts) t n h = rw h refl

-- A condition of which no part is `always`, written with as few parentheses as the order of the
-- operators allows, is parsed to itself: `!` binds before `&&`, that before `||`, and both group to
-- the left.
pub parse-emit : (t : Tree) → Written t → parse (emit t whole) ≡ ok t
parse-emit t h = parse-expr (emit t whole) t (length-emit_pos t whole h) (expr-emit t h)
