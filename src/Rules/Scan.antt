-- ===== src/Rules/Scan.antt =====
-- The tokens of a condition in hardware/family/tools/text_rules.py. The regular expression is a
-- scanner by characters; `none` stands where its matches do not make up the text.
use thermocouple.Prelude.{
  ℕ, Bool, ◌&&◌, ◌||◌, Option, none, some, List, [], ◌∷◌, ◌++◌, Text, is_digit, if◌then◌else◌, ◌==◌,
  leb,
}
use thermocouple.Sexp.{is_white}
use thermocouple.Rules.Syntax.{
  Punct, Token, punct, quoted, name, or_op, and_op, eq_op, ne_op, bang, open_paren, close_paren,
  dot, comma,
}

abbrev pub backslash : ℕ
backslash = 92

abbrev pub apostrophe : ℕ
apostrophe = 39

-- [A-Za-z_]
unfoldable pub is_letter : ℕ → Bool
is_letter c = (leb b'A' c && leb c b'Z') || ((leb b'a' c && leb c b'z') || c == b'_')

-- Where a match stands: between two tokens, after the first character of an operator, in a name, in
-- a quoted text, or after its backslash.
pub data Mode : Type 0 where
  between after_or after_and after_eq after_bang : Mode
  in_name in_quotes escaped : Text → Mode

-- The tokens that are complete, and where the match stands then.
abbrev Scanned : Type 0
Scanned = Option (List Token × Mode)

abbrev emits : Punct → Scanned
emits p = some (punct p ∷ [], between)

unfoldable pub begin : ℕ → Scanned
unfolding is_white is_letter
begin c =
    if is_white c
    then some ([], between)
    else if c == apostrophe
    then some ([], in_quotes [])
    else if c == b'|'
    then some ([], after_or)
    else if c == b'&'
    then some ([], after_and)
    else if c == b'='
    then some ([], after_eq)
    else if c == b'!'
    then some ([], after_bang)
    else if c == b'('
    then emits open_paren
    else if c == b')'
    then emits close_paren
    else if c == b'.'
    then emits dot
    else if c == b','
    then emits comma
    else if is_letter c
    then some ([], in_name (c ∷ []))
    else none

unfoldable pub after : Token → Scanned → Scanned
after t none = none
after t (some (ts, mode)) = some (t ∷ ts, mode)

unfoldable pub scan : Mode → ℕ → Scanned
unfolding begin after is_letter is_digit
scan between c = begin c
scan after_or c = if c == b'|' then emits or_op else none
scan after_and c = if c == b'&' then emits and_op else none
scan after_eq c = if c == b'=' then emits eq_op else none
scan after_bang c = if c == b'=' then emits ne_op else after (punct bang) (begin c)
scan (in_name s) c =
    if is_letter c || is_digit c
    then some ([], in_name (s ++ (c ∷ [])))
    else after (name s) (begin c)
scan (in_quotes s) c =
    if c == apostrophe
    then some (quoted s ∷ [], between)
    else if c == backslash
    then some ([], escaped s)
    else some ([], in_quotes (s ++ (c ∷ [])))
scan (escaped s) c = if c == 10 then none else some ([], in_quotes (s ++ (backslash ∷ c ∷ [])))

unfoldable pub at_end : Mode → Option (List Token)
at_end between = some []
at_end after_or = none
at_end after_and = none
at_end after_eq = none
at_end after_bang = some (punct bang ∷ [])
at_end (in_name s) = some (name s ∷ [])
at_end (in_quotes s) = none
at_end (escaped s) = none

unfoldable pub ahead : List Token → Option (List Token) → Option (List Token)
ahead ts none = none
ahead ts (some us) = some (ts ++ us)

unfoldable pub lex : Mode → Text → Option (List Token)
unfolding scan at_end ahead
lex mode [] = at_end mode
lex mode (c ∷ cs) = elim (scan mode c) [ none ↦ none | some (ts, next) ↦ ahead ts (lex next cs) ]

unfoldable pub tokens : Text → Option (List Token)
unfolding lex
tokens text = lex between text
