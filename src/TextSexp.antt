-- ===== src/TextSexp.antt =====
-- The reader of board and rule texts, hardware/family/tools/text_sexp.py. Its regular expression is
-- a scanner by characters.
pub mod Quoted
pub mod Words
pub mod Balanced
mod Tests
use thermocouple.Prelude.{
  ℕ, Bool, true, false, not, ◌&&◌, ◌||◌, Option, none, some, List, [], ◌∷◌, ◌++◌, Text, text_eq,
  if◌then◌else◌, ◌==◌,
}
use thermocouple.Sexp.{is_white}
use thermocouple.TextSexp.Quoted.{unquote, backslash, quote}

-- str and list.
mutual
  pub data Node : Type 0 where
    text : Text → Node
    list : Nodes → Node

  pub data Nodes : Type 0 where
    nil : Nodes
    cons : Node → Nodes → Nodes

-- The matches that are kept. `string` has what stands between the quotes; `invalid` and `trailing`
-- stand where no match begins at the cursor.
pub data Token : Type 0 where
  opening closing invalid trailing : Token
  atom string : Text → Token

pub data Mode : Type 0 where
  between in_comment failed : Mode
  in_atom in_string escaped : Text → Mode

abbrev Scanned : Type 0
Scanned = List Token × Mode

unfoldable pub begin : ℕ → Scanned
unfolding is_white
begin c =
    if is_white c
    then ([], between)
    else if c == b'#'
    then ([], in_comment)
    else if c == quote
    then ([], in_string [])
    else if c == b'('
    then (opening ∷ [], between)
    else if c == b')'
    then (closing ∷ [], between)
    else ([], in_atom (c ∷ []))

-- [^\s()"]
unfoldable pub in_word : ℕ → Bool
unfolding is_white
in_word c = not (is_white c || (c == b'(' || (c == b')' || c == quote)))

unfoldable pub after : Token → Scanned → Scanned
after t (ts, mode) = (t ∷ ts, mode)

unfoldable pub scan : Mode → ℕ → Scanned
unfolding begin in_word after
scan between c = begin c
scan in_comment c = if c == 10 then begin c else ([], in_comment)
scan failed c = ([], failed)
scan (in_atom s) c = if in_word c then ([], in_atom (s ++ (c ∷ []))) else after (atom s) (begin c)
scan (in_string s) c =
    if c == quote
    then (string s ∷ [], between)
    else if c == backslash
    then ([], escaped s)
    else ([], in_string (s ++ (c ∷ [])))
scan (escaped s) c =
    if c == 10 then (invalid ∷ [], failed) else ([], in_string (s ++ (backslash ∷ c ∷ [])))

unfoldable pub at_end : Mode → List Token
at_end between = []
at_end in_comment = []
at_end failed = []
at_end (in_atom s) = atom s ∷ []
at_end (in_string []) = trailing ∷ []
at_end (in_string (c ∷ s)) = invalid ∷ []
at_end (escaped s) = invalid ∷ []

unfoldable pub lex : Mode → Text → List Token
unfolding scan at_end
lex mode [] = at_end mode
lex mode (c ∷ cs) = (scan mode c).0 ++ lex (scan mode c).1 cs

-- current.append(x)
unfoldable pub snoc : Nodes → Node → Nodes
snoc nil x = cons x nil
snoc (cons y ys) x = cons y (snoc ys x)

-- The result, or a ValueError.
pub data Parsed : Type 0 where
  parsed : Nodes → Parsed
  invalid_string invalid_input not_opened not_closed bad_escape : Parsed

-- The loop of `parse`; `stack` has the innermost list first.
unfoldable pub build : List Token → List Nodes → Nodes → Parsed
unfolding snoc unquote
build [] [] current = parsed current
build [] (outer ∷ stack) current = not_closed
build (opening ∷ ts) stack current = build ts (current ∷ stack) nil
build (closing ∷ ts) [] current = not_opened
build (closing ∷ ts) (outer ∷ stack) current = build ts stack (snoc outer (list current))
build (atom s ∷ ts) stack current = build ts stack (snoc current (text s))
build (string s ∷ ts) stack current = elim (unquote s) [
  | none ↦ bad_escape
  | some t ↦ build ts stack (snoc current (text t))
]
build (invalid ∷ ts) stack current = invalid_string
build (trailing ∷ ts) stack current = invalid_input

unfoldable pub parse : Text → Parsed
unfolding lex build
parse s = build (lex between s) [] nil

-- x[0] == key
unfoldable pub has_key : Text → Node → Bool
unfolding text_eq
has_key key (text s) = false
has_key key (list nil) = false
has_key key (list (cons (text s) rest)) = text_eq s key
has_key key (list (cons (list ys) rest)) = false

unfoldable pub children : Nodes → Text → List Node
unfolding has_key
children nil key = []
children (cons x xs) key = if has_key key x then x ∷ children xs key else children xs key

abbrev pub first : List Node → Option Node
first [] = none
first (x ∷ xs) = some x

-- `child`, `none` for its default.
unfoldable pub child : Nodes → Text → Option Node
unfolding children
child node key = first (children node key)

-- found[1] if found and len(found) > 1 else default
unfoldable pub second_or : Node → Option Node → Node
second_or default (some (list (cons x (cons y rest)))) = y
second_or default _ = default

unfoldable pub val : Nodes → Text → Node
unfolding child second_or
val node key = second_or (text []) (child node key)
