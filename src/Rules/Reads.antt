-- ===== src/Rules/Reads.antt =====
-- The parser of hardware/family/tools/text_rules.py on written conditions.
use thermocouple.Prelude.{ℕ, zero, suc, ◌+◌, ◌≤◌, ◌≡◌, refl, false, ◌∷◌, ◌++◌, text_eq, arith}
use thermocouple.Rules.Syntax.{
  Punct, punct, Side, side_a, side_b, Method, Property, Tree, Reply, ok, always, either, both,
  negated, call, equals, differs, or_op, and_op, bang, open_paren, close_paren, member_of_footprint,
  intersects_courtyard, type_of, net_class, net_name,
}
use thermocouple.Rules.Parse.{
  Tokens, starts, expect, pop, side_of, method_of, property_of, argument, compared, method_call,
  comparison, item, expr, or_terms, term, and_atoms, atom,
}
use thermocouple.Rules.Printed.{side_name, method_name, property_name, Place, emit}

abbrev pub Read : Type 0
Read = Reply (Tree × Tokens)

-- With fuel `n` or more.
abbrev pub Gives : (ℕ → Read) → ℕ → Tree × Tokens → Type 0
Gives p n r = (f : ℕ) → n ≤ f → p f ≡ ok r

-- Fuel above a bound is a successor.
pub spend : {n : ℕ} (P : ℕ → Type 0) → ((f : ℕ) → n ≤ f → P (suc f)) → (f : ℕ) → suc n ≤ f → P f
spend P k zero h = absurd (omega arith)
spend P k (suc f) h = k f (omega arith)

pub or_stops :
    (t : Tree) (ts : Tokens) → starts or_op ts ≡ false → Gives (λ f. or_terms f t ts) 1 (t, ts)
unfolding or_terms
or_stops t ts h = spend (λ f. or_terms f t ts ≡ ok (t, ts)) λ f k. rw h refl

pub and_stops :
    (t : Tree) (ts : Tokens) → starts and_op ts ≡ false → Gives (λ f. and_atoms f t ts) 1 (t, ts)
unfolding and_atoms
and_stops t ts h = spend (λ f. and_atoms f t ts ≡ ok (t, ts)) λ f k. rw h refl

pub atom-term :
    (t : Tree) (ts us : Tokens) (n m : ℕ) (r : Tree × Tokens)
    → Gives (λ f. atom f ts) n (t, us)
    → Gives (λ f. and_atoms f t us) m r
    → Gives (λ f. term f ts) (suc (n + m)) r
unfolding term
atom-term t ts us n m r h k =
    spend (λ f. term f ts ≡ ok r) λ f e. rw (h f (omega arith)) (k f (omega arith))

pub term-expr :
    (t : Tree) (ts us : Tokens) (n m : ℕ) (r : Tree × Tokens)
    → Gives (λ f. term f ts) n (t, us)
    → Gives (λ f. or_terms f t us) m r
    → Gives (λ f. expr f ts) (suc (n + m)) r
unfolding expr
term-expr t ts us n m r h k =
    spend (λ f. expr f ts ≡ ok r) λ f e. rw (h f (omega arith)) (k f (omega arith))

pub or_goes_on :
    (t u : Tree) (ts us : Tokens) (n m : ℕ) (r : Tree × Tokens)
    → Gives (λ f. term f ts) n (u, us)
    → Gives (λ f. or_terms f (either t u) us) m r
    → Gives (λ f. or_terms f t (punct or_op ∷ ts)) (suc (n + m)) r
unfolding or_terms starts
or_goes_on t u ts us n m r h k =
    spend (λ f. or_terms f t (punct or_op ∷ ts) ≡ ok r)
      λ f e. rw (h f (omega arith)) (k f (omega arith))

pub and_goes_on :
    (t u : Tree) (ts us : Tokens) (n m : ℕ) (r : Tree × Tokens)
    → Gives (λ f. atom f ts) n (u, us)
    → Gives (λ f. and_atoms f (both t u) us) m r
    → Gives (λ f. and_atoms f t (punct and_op ∷ ts)) (suc (n + m)) r
unfolding and_atoms starts
and_goes_on t u ts us n m r h k =
    spend (λ f. and_atoms f t (punct and_op ∷ ts) ≡ ok r)
      λ f e. rw (h f (omega arith)) (k f (omega arith))

pub not-atom :
    (t : Tree) (ts us : Tokens) (n : ℕ)
    → Gives (λ f. atom f ts) n (t, us)
    → Gives (λ f. atom f (punct bang ∷ ts)) (suc n) (negated t, us)
unfolding atom starts
not-atom t ts us n h =
    spend (λ f. atom f (punct bang ∷ ts) ≡ ok (negated t, us)) λ f e. rw (h f e) refl

pub group-atom :
    (t : Tree) (ts us : Tokens) (n : ℕ)
    → Gives (λ f. expr f ts) n (t, punct close_paren ∷ us)
    → Gives (λ f. atom f (punct open_paren ∷ ts)) (suc n) (t, us)
unfolding atom starts expect
group-atom t ts us n h =
    spend (λ f. atom f (punct open_paren ∷ ts) ≡ ok (t, us)) λ f e. rw (h f e) refl

abbrev pub IsItem : Tree → Type 0
IsItem (call side method s) = Unit
IsItem (equals side prop s) = Unit
IsItem (differs side prop s) = Unit
IsItem always = ⊥
IsItem (either t u) = ⊥
IsItem (both t u) = ⊥
IsItem (negated t) = ⊥

side_of-name : (side : Side) → side_of (side_name side) ≡ ok side
unfolding side_of text_eq
side_of-name side_a = refl
side_of-name side_b = refl

method_of-name : (method : Method) → method_of (method_name method) ≡ ok method
unfolding method_of text_eq
method_of-name member_of_footprint = refl
method_of-name intersects_courtyard = refl

property_of-name : (prop : Property) → property_of (property_name prop) ≡ ok prop
unfolding property_of text_eq
property_of-name type_of = refl
property_of-name net_class = refl
property_of-name net_name = refl

starts-side : (p : Punct) (side : Side) (ts : Tokens) → starts p (side_name side ∷ ts) ≡ false
unfolding starts
starts-side p side_a ts = refl
starts-side p side_b ts = refl

item-emit : (t : Tree) (p : Place) (us : Tokens) → IsItem t → item (emit t p ++ us) ≡ ok (t, us)
unfolding item pop starts expect method_call comparison argument compared emit
item-emit (call side method s) p us h = simp (side_of-name, method_of-name)
item-emit (equals side prop s) p us h = simp (side_of-name, property_of-name)
item-emit (differs side prop s) p us h = simp (side_of-name, property_of-name)
item-emit always p us h = absurd h
item-emit (either t u) p us h = absurd h
item-emit (both t u) p us h = absurd h
item-emit (negated t) p us h = absurd h

item-starts :
    (t : Tree) (q : Punct) (p : Place) (us : Tokens) → IsItem t → starts q (emit t p ++ us) ≡ false
unfolding emit
item-starts (call side method s) q p us h = starts-side q side _
item-starts (equals side prop s) q p us h = starts-side q side _
item-starts (differs side prop s) q p us h = starts-side q side _
item-starts always q p us h = absurd h
item-starts (either t u) q p us h = absurd h
item-starts (both t u) q p us h = absurd h
item-starts (negated t) q p us h = absurd h

pub item-atom :
    (t : Tree) (p : Place) (us : Tokens) → IsItem t → Gives (λ f. atom f (emit t p ++ us)) 1 (t, us)
unfolding atom
item-atom t p us h =
    spend (λ f. atom f (emit t p ++ us) ≡ ok (t, us))
      λ f e. rw (item-starts t bang p us h, item-starts t open_paren p us h) (item-emit t p us h)
