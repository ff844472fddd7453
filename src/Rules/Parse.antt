-- ===== src/Rules/Parse.antt =====
-- The parser of conditions in hardware/family/tools/text_rules.py. `self.i` is the tokens that are
-- left.
use thermocouple.Prelude.{
  ℕ, zero, suc, ◌+◌, ◌*◌, Bool, false, Option, none, some, List, [], ◌∷◌, Text, codes, text_eq,
  if◌then◌else◌, ◌==◌, length,
}
use thermocouple.Rules.Syntax.{
  Punct, Token, punct, quoted, name, or_op, and_op, eq_op, ne_op, bang, open_paren, close_paren,
  dot, Side, side_a, side_b, Method, member_of_footprint, intersects_courtyard, Property, type_of,
  net_class, net_name, Tree, always, either, both, negated, call, equals, differs, bad_text,
  unconsumed, incomplete, bad_item, bad_method, unquoted, bad_comparison, expected, Reply, ok,
  fails, out_of_fuel, bind, number,
}
use thermocouple.Rules.Scan.{tokens}

abbrev pub Tokens : Type 0
Tokens = List Token

abbrev pub tail : Tokens → Tokens
tail [] = []
tail (t ∷ ts) = ts

-- Whether `eat` would succeed.
unfoldable pub starts : Punct → Tokens → Bool
starts p (punct q ∷ ts) = number p == number q
starts p _ = false

unfoldable pub expect : Punct → Tokens → Reply Tokens
unfolding starts
expect p ts = if starts p ts then ok (tail ts) else fails (expected p)

unfoldable pub pop : Tokens → Reply (Token × Tokens)
pop [] = fails incomplete
pop (t ∷ ts) = ok (t, ts)

unfoldable pub side_of : Token → Reply Side
unfolding text_eq
side_of (name s) =
    if text_eq s (codes "A")
    then ok side_a
    else if text_eq s (codes "B")
    then ok side_b
    else fails bad_item
side_of _ = fails bad_item

unfoldable pub method_of : Token → Reply Method
unfolding text_eq
method_of (name s) =
    if text_eq s (codes "memberOfFootprint")
    then ok member_of_footprint
    else if text_eq s (codes "intersectsCourtyard")
    then ok intersects_courtyard
    else fails bad_method
method_of _ = fails bad_method

unfoldable pub property_of : Token → Reply Property
unfolding text_eq
property_of (name s) =
    if text_eq s (codes "Type")
    then ok type_of
    else if text_eq s (codes "NetClass")
    then ok net_class
    else if text_eq s (codes "NetName")
    then ok net_name
    else fails bad_comparison
property_of _ = fails bad_comparison

unfoldable pub argument : Token → Reply Text
argument (quoted s) = ok s
argument _ = fails unquoted

-- The last test of `atom` on the operator and the value.
unfoldable pub compared : Side → Property → Token → Token → Reply Tree
compared side prop (punct eq_op) (quoted s) = ok (equals side prop s)
compared side prop (punct ne_op) (quoted s) = ok (differs side prop s)
compared side prop _ _ = fails bad_comparison

unfoldable pub method_call : Side → Token → Tokens → Reply (Tree × Tokens)
unfolding method_of pop expect argument
method_call side prop ts = bind (method_of prop) λ method. bind (pop ts) λ (arg, ts).
    bind (expect close_paren ts) λ ts. bind (argument arg) λ s. ok (call side method s, ts)

unfoldable pub comparison : Side → Token → Tokens → Reply (Tree × Tokens)
unfolding pop property_of compared
comparison side prop ts = bind (pop ts) λ (op, ts). bind (pop ts) λ (value, ts).
    bind (property_of prop) λ prop. bind (compared side prop op value) λ tree. ok (tree, ts)

-- What follows the tests for `!` and a parenthesis.
unfoldable pub item : Tokens → Reply (Tree × Tokens)
unfolding pop side_of expect starts method_call comparison
item ts = bind (pop ts) λ (side, ts). bind (side_of side) λ side. bind (expect dot ts) λ ts.
    bind (pop ts) λ (prop, ts).
      if starts open_paren ts then method_call side prop (tail ts) else comparison side prop ts

-- What a call leaves of the tokens is not a structural part of them, so each call takes fuel.
unfoldable mutual
  unfolding starts expect item

  pub expr : ℕ → Tokens → Reply (Tree × Tokens)
  expr zero ts = out_of_fuel
  expr (suc f) ts = bind (term f ts) λ (t, ts). or_terms f t ts

  pub or_terms : ℕ → Tree → Tokens → Reply (Tree × Tokens)
  or_terms zero t ts = out_of_fuel
  or_terms (suc f) t ts =
      let more = bind (term f (tail ts)) λ (u, ts). or_terms f (either t u) ts in
      if starts or_op ts then more else ok (t, ts)

  pub term : ℕ → Tokens → Reply (Tree × Tokens)
  term zero ts = out_of_fuel
  term (suc f) ts = bind (atom f ts) λ (t, ts). and_atoms f t ts

  pub and_atoms : ℕ → Tree → Tokens → Reply (Tree × Tokens)
  and_atoms zero t ts = out_of_fuel
  and_atoms (suc f) t ts =
      let more = bind (atom f (tail ts)) λ (u, ts). and_atoms f (both t u) ts in
      if starts and_op ts then more else ok (t, ts)

  pub atom : ℕ → Tokens → Reply (Tree × Tokens)
  atom zero ts = out_of_fuel
  atom (suc f) ts =
      let opposite = bind (atom f (tail ts)) λ (t, ts). ok (negated t, ts) in
      let group =
        bind (expr f (tail ts)) λ (t, ts). bind (expect close_paren ts) λ ts. ok (t, ts) in
      if starts bang ts then opposite else if starts open_paren ts then group else item ts

-- Condition.__init__
unfoldable pub finish : Tree × Tokens → Reply Tree
finish (t, []) = ok t
finish (t, u ∷ ts) = fails unconsumed

unfoldable pub parse : Tokens → Reply Tree
unfolding expr finish
parse [] = ok always
parse (t ∷ ts) = bind (expr (3 * length (t ∷ ts) + 4) (t ∷ ts)) finish

unfoldable pub of_tokens : Option Tokens → Reply Tree
unfolding parse
of_tokens none = fails bad_text
of_tokens (some ts) = parse ts

unfoldable pub condition : Text → Reply Tree
unfolding tokens of_tokens
condition text = of_tokens (tokens text)
