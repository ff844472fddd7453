-- ===== src/Sexp.antt =====
-- The reader and writer of KiCad's S-expressions (hardware/family/gen/sexp.py). The regular
-- expression of a token is a scanner by characters; numbers are not among the nodes.
pub mod Escapes
pub mod Lexing
pub mod Tokens
pub mod RoundTrip
mod Tests
use thermocouple.Prelude.{
  ℕ, zero, suc, ◌≡◌, Bool, true, false, not, ◌&&◌, ◌||◌, Option, none, some, List, [], ◌∷◌, ◌++◌,
  Text, codes, is_space, text_eq, if◌then◌else◌, ◌==◌, ltb, leb, replicate, ◌+◌,
}
use thermocouple.Sexp.Escapes.{backslash, quote, newline, q, unescape}

-- Sym, str, bool and list.
mutual
  pub data Node : Type 0 where
    sym : Text → Node
    str : Text → Node
    flag : Bool → Node
    list : Nodes → Node

  pub data Nodes : Type 0 where
    nil : Nodes
    cons : Node → Nodes → Nodes

-- What the groups of _TOK give; `bad` stands where nothing matches and the rest is not blank.
pub data Token : Type 0 where
  opening closing bad : Token
  atom : Text → Token
  string : Text → Token

pub data Kind : Type 0 where
  space open_paren close_paren quotes other : Kind

-- \s, which for a str is every white space of Unicode.
unfoldable pub is_white : ℕ → Bool
unfolding is_space
is_white c =
    is_space c
    || (c == 0x85
        || (c == 0xA0
            || (c == 0x1680
                || ((leb 0x2000 c && leb c 0x200A)
                    || (c == 0x2028
                        || (c == 0x2029 || (c == 0x202F || (c == 0x205F || c == 0x3000))))))))

unfoldable pub kind : ℕ → Kind
unfolding is_white
kind c =
    if is_white c
    then space
    else if c == b'('
    then open_paren
    else if c == b')'
    then close_paren
    else if c == quote
    then quotes
    else other

-- Where a match stands: before a token, in an atom, in a string, after its backslash, or failed.
pub data Mode : Type 0 where
  before : Mode
  in_atom : Text → Mode
  in_string : Text → Mode
  escaped : Text → Mode
  failed : Mode

-- The tokens that a character ends, and where it leads.
unfoldable pub begin : ℕ → Kind → List Token × Mode
begin c space = ([], before)
begin c open_paren = (opening ∷ [], before)
begin c close_paren = (closing ∷ [], before)
begin c quotes = ([], in_string [])
begin c other = ([], in_atom (c ∷ []))

unfoldable pub goes_on : Kind → Bool
goes_on other = true
goes_on space = false
goes_on open_paren = false
goes_on close_paren = false
goes_on quotes = false

unfoldable pub after_atom : Text → List Token × Mode → List Token × Mode
after_atom done (tokens, mode) = (atom done ∷ tokens, mode)

unfoldable pub scan : Mode → ℕ → List Token × Mode
unfolding begin kind goes_on after_atom unescape
scan before c = begin c (kind c)
scan (in_atom done) c =
    if goes_on (kind c)
    then ([], in_atom (done ++ (c ∷ [])))
    else after_atom done (begin c (kind c))
scan (in_string done) c =
    if c == quote
    then (string (unescape done) ∷ [], before)
    else if c == backslash
    then ([], escaped done)
    else ([], in_string (done ++ (c ∷ [])))
scan (escaped done) c =
    if c == newline then (bad ∷ [], failed) else ([], in_string (done ++ (backslash ∷ c ∷ [])))
scan failed c = ([], failed)

unfoldable pub at_end : Mode → List Token
at_end before = []
at_end (in_atom done) = atom done ∷ []
at_end (in_string done) = bad ∷ []
at_end (escaped done) = bad ∷ []
at_end failed = []

unfoldable pub lex : Mode → Text → List Token
unfolding scan at_end
lex mode [] = at_end mode
lex mode (c ∷ cs) = (scan mode c).0 ++ lex (scan mode c).1 cs

-- cur.append(x)
unfoldable pub snoc : Nodes → Node → Nodes
snoc nil x = cons x nil
snoc (cons y ys) x = cons y (snoc ys x)

-- The result, the ValueError of a bad token, and the IndexError of a pop from an empty stack.
pub data Parsed : Type 0 where
  parsed : Node → Parsed
  bad_token no_opening : Parsed

-- cur[0] if len(cur) == 1 else cur
unfoldable pub single : Nodes → Node
single nil = list nil
single (cons x nil) = x
single (cons x (cons y ys)) = list (cons x (cons y ys))

-- The loop of `parse`; `stack` has the innermost list first.
unfoldable pub build : List Token → List Nodes → Nodes → Parsed
unfolding snoc single
build [] stack cur = parsed (single cur)
build (opening ∷ ts) stack cur = build ts (cur ∷ stack) nil
build (closing ∷ ts) [] cur = no_opening
build (closing ∷ ts) (outer ∷ stack) cur = build ts stack (snoc outer (list cur))
build (string s ∷ ts) stack cur = build ts stack (snoc cur (str s))
build (atom s ∷ ts) stack cur = build ts stack (snoc cur (sym s))
build (bad ∷ ts) stack cur = bad_token

unfoldable pub parse : Text → Parsed
unfolding build lex
parse text = build (lex before text) [] nil

unfoldable pub is_list : Node → Bool
is_list (list xs) = true
is_list (sym s) = false
is_list (str s) = false
is_list (flag b) = false

-- all(not isinstance(x, list) for x in node)
unfoldable pub is_simple : Nodes → Bool
unfolding is_list
is_simple nil = true
is_simple (cons x xs) = not (is_list x) && is_simple xs

unfoldable pub count : Nodes → ℕ
count nil = 0
count (cons x xs) = suc (count xs)

unfoldable pub tabs : ℕ → Text
tabs n = replicate n b'\t'

-- The serialisation of a node at an indentation, of the children after the first, and of those of a
-- short list, each after a space.
unfoldable mutual
  unfolding q is_list is_simple count tabs

  pub dump : Node → ℕ → Text
  dump (sym s) indent = s
  dump (str s) indent = q s
  dump (flag b) indent = if b then codes "yes" else codes "no"
  dump (list nil) indent = codes "()"
  dump (list (cons x xs)) indent =
      let short = b'(' ∷ (dump x 0 ++ (dump_spaced xs ++ (b')' ∷ []))) in
      let long =
        b'('
        ∷ (dump x 0 ++ (dump_children xs indent ++ (newline ∷ (tabs indent ++ (b')' ∷ []))))) in
      if is_simple (cons x xs) && ltb (count (cons x xs)) 10 then short else long

  pub dump_children : Nodes → ℕ → Text
  dump_children nil indent = []
  dump_children (cons x xs) indent =
      let below = newline ∷ (tabs (indent + 1) ++ dump x (indent + 1)) in
      let beside = b' ' ∷ dump x 0 in
      (if is_list x then below else beside) ++ dump_children xs indent

  pub dump_spaced : Nodes → Text
  dump_spaced nil = []
  dump_spaced (cons x xs) = b' ' ∷ (dump x 0 ++ dump_spaced xs)

-- x[0] == key, for a list x; a Sym is a str.
unfoldable pub has_head : Text → Node → Bool
unfolding text_eq
has_head key (list (cons (sym s) xs)) = text_eq s key
has_head key (list (cons (str s) xs)) = text_eq s key
has_head key (list (cons (flag b) xs)) = false
has_head key (list (cons (list ys) xs)) = false
has_head key (list nil) = false
has_head key (sym s) = false
has_head key (str s) = false
has_head key (flag b) = false

unfoldable pub find : Nodes → Text → Option Node
unfolding has_head
find nil key = none
find (cons x xs) key = if has_head key x then some x else find xs key

unfoldable pub findall : Nodes → Text → List Node
unfolding has_head
findall nil key = []
findall (cons x xs) key = if has_head key x then x ∷ findall xs key else findall xs key
