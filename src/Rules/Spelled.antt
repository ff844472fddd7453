-- ===== src/Rules/Spelled.antt =====
-- Written conditions as texts, and what hardware/family/tools/text_rules.py reads from them.
use thermocouple.Prelude.{
  ℕ, ◌≡◌, refl, ap, ◌∙◌, Bool, true, not, ◌&&◌, Option, none, some, [], ◌∷◌, ◌++◌, Text, codes, All,
  All-append, all, ◌==◌, &&-true, arith,
}
use mathlib.Core.List.{append_assoc, append-nil}
use thermocouple.Rules.Syntax.{
  Punct, Token, punct, quoted, name, or_op, and_op, eq_op, ne_op, bang, open_paren, close_paren,
  dot, comma, Side, side_a, side_b, Method, member_of_footprint, intersects_courtyard, Property,
  type_of, net_class, net_name, Tree, always, either, both, negated, call, equals, differs, ok,
}
use thermocouple.Rules.Scan.{
  apostrophe, backslash, between, in_quotes, lex, tokens, scan, begin, after, at_end, ahead,
}
use thermocouple.Rules.Parse.{Tokens, condition, of_tokens}
use thermocouple.Rules.Printed.{
  side_name, method_name, property_name, Place, whole, operand, factor, enclosed, place_or,
  place_and, emit, Written,
}
use thermocouple.Rules.RoundTrip.{parse-emit}

abbrev pub punct_text : Punct → Text
punct_text or_op = codes "||"
punct_text and_op = codes "&&"
punct_text eq_op = codes "=="
punct_text ne_op = codes "!="
punct_text bang = codes "!"
punct_text open_paren = codes "("
punct_text close_paren = codes ")"
punct_text dot = codes "."
punct_text comma = codes ","

abbrev pub token_text : Token → Text
token_text (punct p) = punct_text p
token_text (quoted s) = apostrophe ∷ (s ++ (apostrophe ∷ []))
token_text (name s) = s

-- Each token with a space after it.
unfoldable pub spell : Tokens → Text
spell [] = []
spell (t ∷ ts) = token_text t ++ (32 ∷ spell ts)

-- A character that needs no backslash.
unfoldable pub is_plain : ℕ → Bool
is_plain c = not (c == apostrophe) && not (c == backslash)

-- The quoted texts are plain.
abbrev pub Plain : Tree → Type 0
Plain always = Unit
Plain (either t u) = Plain t × Plain u
Plain (both t u) = Plain t × Plain u
Plain (negated t) = Plain t
Plain (call side method s) = all is_plain s ≡ true
Plain (equals side prop s) = all is_plain s ≡ true
Plain (differs side prop s) = all is_plain s ≡ true

-- The token is read where its text and a space stand.
abbrev Spelled : Token → Type 0
Spelled t =
    (rest : Text) → lex between (token_text t ++ (32 ∷ rest)) ≡ ahead (t ∷ []) (lex between rest)

ahead-nil : (o : Option Tokens) → ahead [] o ≡ o
unfolding ahead
ahead-nil none = refl
ahead-nil (some ts) = refl

punct-Spelled : (p : Punct) → Spelled (punct p)
unfolding lex scan begin after
punct-Spelled or_op rest = simp (ahead-nil)
punct-Spelled and_op rest = simp (ahead-nil)
punct-Spelled eq_op rest = simp (ahead-nil)
punct-Spelled ne_op rest = simp (ahead-nil)
punct-Spelled bang rest = simp (ahead-nil)
punct-Spelled open_paren rest = simp (ahead-nil)
punct-Spelled close_paren rest = simp (ahead-nil)
punct-Spelled dot rest = simp (ahead-nil)
punct-Spelled comma rest = simp (ahead-nil)

side-Spelled : (side : Side) → Spelled (side_name side)
unfolding lex scan begin after
side-Spelled side_a rest = simp (ahead-nil)
side-Spelled side_b rest = simp (ahead-nil)

method-Spelled : (method : Method) → Spelled (method_name method)
unfolding lex scan begin after
method-Spelled member_of_footprint rest = simp (ahead-nil)
method-Spelled intersects_courtyard rest = simp (ahead-nil)

property-Spelled : (prop : Property) → Spelled (property_name prop)
unfolding lex scan begin after
property-Spelled type_of rest = simp (ahead-nil)
property-Spelled net_class rest = simp (ahead-nil)
property-Spelled net_name rest = simp (ahead-nil)

plain-scan :
    (s : Text) (c : ℕ)
    → is_plain c ≡ true
    → scan (in_quotes s) c ≡ some ([], in_quotes (s ++ (c ∷ [])))
unfolding scan is_plain
plain-scan s c h = ground arith

in_quotes-Spelled :
    (done s rest : Text)
    → all is_plain s ≡ true
    → lex (in_quotes done) (s ++ (apostrophe ∷ 32 ∷ rest))
      ≡ ahead (quoted (done ++ s) ∷ []) (lex between rest)
unfolding lex all
in_quotes-Spelled done [] rest h = rw (ahead-nil (lex between rest), append-nil done) refl
in_quotes-Spelled done (c ∷ s) rest h =
    let (first, others) = &&-true (is_plain c) (all is_plain s) h in
    rw
      (
        lex,
        plain-scan done c first,
        ahead-nil (lex (in_quotes (done ++ (c ∷ []))) (s ++ (apostrophe ∷ 32 ∷ rest))),
      )
      (in_quotes-Spelled (done ++ (c ∷ [])) s rest others
        ∙ ap (λ (t : Text). ahead (quoted t ∷ []) (lex between rest))
            (append_assoc done (c ∷ []) s))

quoted-Spelled : (s : Text) → all is_plain s ≡ true → Spelled (quoted s)
unfolding lex scan begin
quoted-Spelled s h rest =
    let same : (s ++ (apostrophe ∷ [])) ++ (32 ∷ rest) ≡ s ++ (apostrophe ∷ 32 ∷ rest) =
      append_assoc s (apostrophe ∷ []) (32 ∷ rest) in
    ahead-nil (lex (in_quotes []) ((s ++ (apostrophe ∷ [])) ++ (32 ∷ rest)))
    ∙ ap (λ (t : Text). lex (in_quotes []) t) same
    ∙ in_quotes-Spelled [] s rest h

enclosed-Spelled : (ts : Tokens) → All Spelled ts → All Spelled (enclosed ts)
enclosed-Spelled ts h =
    (punct-Spelled open_paren, All-append Spelled ts _ h (punct-Spelled close_paren, tt))

place_or-Spelled : (p : Place) (ts : Tokens) → All Spelled ts → All Spelled (place_or p ts)
place_or-Spelled whole ts h = h
place_or-Spelled operand ts h = enclosed-Spelled ts h
place_or-Spelled factor ts h = enclosed-Spelled ts h

place_and-Spelled : (p : Place) (ts : Tokens) → All Spelled ts → All Spelled (place_and p ts)
place_and-Spelled whole ts h = h
place_and-Spelled operand ts h = h
place_and-Spelled factor ts h = enclosed-Spelled ts h

emit-Spelled : (t : Tree) (p : Place) → Plain t → All Spelled (emit t p)
unfolding emit
emit-Spelled always p h = tt
emit-Spelled (either t u) p (h, k) = place_or-Spelled p _ (
    All-append Spelled (emit t whole) _ (emit-Spelled t whole h)
      (punct-Spelled or_op, emit-Spelled u operand k))
emit-Spelled (both t u) p (h, k) = place_and-Spelled p _ (
    All-append Spelled (emit t operand) _ (emit-Spelled t operand h)
      (punct-Spelled and_op, emit-Spelled u factor k))
emit-Spelled (negated t) p h = (punct-Spelled bang, emit-Spelled t factor h)
emit-Spelled (call side method s) p h = (
  side-Spelled side,
  (
    punct-Spelled dot,
    (
      method-Spelled method,
      (punct-Spelled open_paren, (quoted-Spelled s h, (punct-Spelled close_paren, tt))),
    ),
  ),
)
emit-Spelled (equals side prop s) p h = (
  side-Spelled side,
  (punct-Spelled dot, (property-Spelled prop, (punct-Spelled eq_op, (quoted-Spelled s h, tt)))),
)
emit-Spelled (differs side prop s) p h = (
  side-Spelled side,
  (punct-Spelled dot, (property-Spelled prop, (punct-Spelled ne_op, (quoted-Spelled s h, tt)))),
)

lex-spell : (ts : Tokens) → All Spelled ts → lex between (spell ts) ≡ some ts
unfolding spell lex at_end ahead
lex-spell [] h = refl
lex-spell (t ∷ ts) (h, hs) = h (spell ts) ∙ ap (ahead (t ∷ [])) (lex-spell ts hs)

-- The text of a condition of which no part is `always` and whose quoted texts hold no apostrophe and
-- no backslash, a space after each token and no parentheses but those that are needed, is read as
-- that condition.
pub condition-spell : (t : Tree) → Written t → Plain t → condition (spell (emit t whole)) ≡ ok t
unfolding condition of_tokens tokens
condition-spell t h k = rw (lex-spell (emit t whole) (emit-Spelled t whole k)) (parse-emit t h)
