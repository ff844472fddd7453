-- ===== src/Sexp/RoundTrip.antt =====
-- Parsing what hardware/family/gen/sexp.py dumps.
use thermocouple.Prelude.{ℕ, ◌≡◌, refl, sym, ◌∙◌, ap, List, [], ◌∷◌, ◌++◌, Text, All}
use mathlib.Core.List.{append_assoc, append-nil}
use thermocouple.Sexp.Lexing.{lex-opening, lex-space, Ends-space}
use thermocouple.Sexp.{
  Node, Nodes, str, flag, list, nil, cons, Token, opening, closing, before, lex, dump, dump_spaced,
  single, parsed, build, snoc, at_end, parse,
}
use thermocouple.Sexp.Tokens.{
  IsNode, AreNodes, lex-spaced, as_read, all_as_read, tokens, all_tokens, lex-dump,
}

append_nodes : Nodes → Nodes → Nodes
append_nodes nil ys = ys
append_nodes (cons x xs) ys = cons x (append_nodes xs ys)

snoc-append :
    (cur : Nodes) (x : Node) (ys : Nodes)
    → append_nodes (snoc cur x) ys ≡ append_nodes cur (cons x ys)
unfolding append_nodes snoc
snoc-append nil x ys = refl
snoc-append (cons y cur) x ys = ap (cons y) (snoc-append cur x ys)

append-nodes_nil : (cur : Nodes) → append_nodes cur nil ≡ cur
unfolding append_nodes
append-nodes_nil nil = refl
append-nodes_nil (cons y cur) = ap (cons y) (append-nodes_nil cur)

mutual
  unfolding build tokens as_read append_nodes

  build-tokens :
      (n : Node) (ts : List Token) (stack : List Nodes) (cur : Nodes)
      → build (tokens n ++ ts) stack cur ≡ build ts stack (snoc cur (as_read n))
  build-tokens (Node.sym s) ts stack cur = refl
  build-tokens (str s) ts stack cur = refl
  build-tokens (flag b) ts stack cur = refl
  build-tokens (list xs) ts stack cur =
      ap (λ t. build t (cur ∷ stack) nil) (append_assoc (all_tokens xs) (closing ∷ []) ts)
      ∙ build-all_tokens xs (closing ∷ ts) (cur ∷ stack) nil

  build-all_tokens :
      (xs : Nodes) (ts : List Token) (stack : List Nodes) (cur : Nodes)
      → build (all_tokens xs ++ ts) stack cur ≡ build ts stack (append_nodes cur (all_as_read xs))
  build-all_tokens nil ts stack cur = ap (build ts stack) (sym (append-nodes_nil cur))
  build-all_tokens (cons x xs) ts stack cur =
      ap (λ t. build t stack cur) (append_assoc (tokens x) (all_tokens xs) ts)
      ∙ build-tokens x (all_tokens xs ++ ts) stack cur
      ∙ build-all_tokens xs ts stack (snoc cur (as_read x))
      ∙ ap (build ts stack) (snoc-append cur (as_read x) (all_as_read xs))

-- A node whose symbols are atoms is read back from its text, at any indentation: strings with any
-- characters, nested lists on one line or on several; a bool comes back as the symbol yes or no.
pub parse-dump : (n : Node) (indent : ℕ) → IsNode n → parse (dump n indent) ≡ parsed (as_read n)
unfolding parse lex at_end build
parse-dump n indent good =
    let e = ap (lex before) (sym (append-nil (dump n indent))) ∙ lex-dump n indent [] good tt in
    rw e (build-tokens n [] [] nil)

-- A text whose lists are begun one in the other and not closed: each is given by the nodes that stand
-- in it before the next begins.
unfoldable pub unclosed : List Nodes → Text → Text
unfolding dump_spaced
unclosed [] text = text
unclosed (xs ∷ outer) text = b'(' ∷ (dump_spaced xs ++ (b' ' ∷ unclosed outer text))

build-unclosed :
    (outer : List Nodes) (inner : Nodes) (stack : List Nodes) (cur : Nodes)
    → All AreNodes outer
    → AreNodes inner
    → build (lex before (unclosed outer (b'(' ∷ dump_spaced inner))) stack cur
      ≡ parsed (single (all_as_read inner))
unfolding unclosed build append_nodes lex at_end
build-unclosed [] inner stack cur good good_inner =
    let e =
      lex-opening (dump_spaced inner)
      ∙ ap (λ t. opening ∷ t)
          (ap (lex before) (sym (append-nil (dump_spaced inner)))
            ∙ lex-spaced inner [] good_inner tt) in
    ap (λ t. build t stack cur) e ∙ build-all_tokens inner [] (cur ∷ stack) nil
build-unclosed (xs ∷ outer) inner stack cur (good, rest) good_inner =
    let further = unclosed outer (b'(' ∷ dump_spaced inner) in
    let e =
      lex-opening (dump_spaced xs ++ (b' ' ∷ further))
      ∙ ap (λ t. opening ∷ t)
          (lex-spaced xs (b' ' ∷ further) good (Ends-space further)
            ∙ ap (λ t. all_tokens xs ++ t) (lex-space further)) in
    ap (λ t. build t stack cur) e
    ∙ build-all_tokens xs (lex before further) (cur ∷ stack) nil
    ∙ build-unclosed outer inner (cur ∷ stack) (all_as_read xs) rest good_inner

-- Where lists are begun one in the other and none of them is closed, each after any complete nodes,
-- `parse` reports nothing: it returns what stands in the last list alone, and all that stood before it
-- is lost.
pub parse-unclosed :
    (outer : List Nodes) (inner : Nodes)
    → All AreNodes outer
    → AreNodes inner
    → parse (unclosed outer (b'(' ∷ dump_spaced inner)) ≡ parsed (single (all_as_read inner))
unfolding parse
parse-unclosed outer inner good good_inner = build-unclosed outer inner [] nil good good_inner
