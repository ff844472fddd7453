-- ===== src/TextSexp/Balanced.antt =====
-- Which tokens the reader of hardware/family/tools/text_sexp.py accepts.
use thermocouple.Prelude.{
  ◌≡◌, refl, sym, ap, ◌∙◌, Option, none, some, List, [], ◌∷◌, ◌++◌, Text, ◌↔◌, Option-cases, inl,
  inr,
}
use mathlib.Core.List.{append_assoc, append-nil}
use thermocouple.TextSexp.Quoted.{unquote}
use thermocouple.TextSexp.{
  Node, Nodes, text, list, nil, cons, Token, opening, closing, invalid, trailing, atom, string,
  snoc, parsed, build, parse, lex, between,
}
use thermocouple.TextSexp.Words.{
  Word, open_word, close_word, word, put_word, words, flat, flatten, build-Completes,
}

put_word_inv :
    (v w : Word) (o : Option (List Word)) (ws : List Word)
    → put_word v o ≡ some (w ∷ ws)
    → (v ≡ w) × (o ≡ some ws)
put_word_inv v w none ws h = cc
put_word_inv v w (some us) ws h = (cc, cc)

open_first :
    (ts : List Token) (ws : List Word)
    → words ts ≡ some (open_word ∷ ws)
    → (us : List Token) × (words us ≡ some ws) × (ts ≡ opening ∷ us)
unfolding words
open_first [] ws h = cc
open_first (opening ∷ ts) ws h = (ts, (put_word_inv open_word open_word (words ts) ws h).1, refl)
open_first (closing ∷ ts) ws h = cc ((put_word_inv close_word open_word (words ts) ws h).0)
open_first (atom s ∷ ts) ws h = cc ((put_word_inv (word s) open_word (words ts) ws h).0)
open_first (string s ∷ ts) ws h = elim (Option-cases (unquote s)) [
  | inl bad ↦ cc (rw (bad, words) at h)
  | inr (t, good) ↦ cc ((put_word_inv (word t) open_word (words ts) ws (rw (good, words) at h)).0)
]
open_first (invalid ∷ ts) ws h = cc
open_first (trailing ∷ ts) ws h = cc

close_first :
    (ts : List Token) (ws : List Word)
    → words ts ≡ some (close_word ∷ ws)
    → (us : List Token) × (words us ≡ some ws) × (ts ≡ closing ∷ us)
unfolding words
close_first [] ws h = cc
close_first (closing ∷ ts) ws h = (ts, (put_word_inv close_word close_word (words ts) ws h).1, refl)
close_first (opening ∷ ts) ws h = cc ((put_word_inv open_word close_word (words ts) ws h).0)
close_first (atom s ∷ ts) ws h = cc ((put_word_inv (word s) close_word (words ts) ws h).0)
close_first (string s ∷ ts) ws h = elim (Option-cases (unquote s)) [
  | inl bad ↦ cc (rw (bad, words) at h)
  | inr (t, good) ↦ cc ((put_word_inv (word t) close_word (words ts) ws (rw (good, words) at h)).0)
]
close_first (invalid ∷ ts) ws h = cc
close_first (trailing ∷ ts) ws h = cc

word_inj : {a b : Text} → word a ≡ word b → a ≡ b
word_inj h = cc

-- From the tokens `ts` the loop gets to the tokens `us`, with more nodes read.
abbrev Gets : List Token → List Word → List Nodes → Nodes → Nodes → Type 0
Gets ts ws stack current after =
    (us : List Token) × (words us ≡ some ws) × (build ts stack current ≡ build us stack after)

text_first :
    (ts : List Token) (ws : List Word) (s : Text) (stack : List Nodes) (current : Nodes)
    → words ts ≡ some (word s ∷ ws)
    → Gets ts ws stack current (snoc current (text s))
unfolding words build
text_first [] ws s stack current h = cc
text_first (opening ∷ ts) ws s stack current h =
    cc ((put_word_inv open_word (word s) (words ts) ws h).0)
text_first (closing ∷ ts) ws s stack current h =
    cc ((put_word_inv close_word (word s) (words ts) ws h).0)
text_first (atom a ∷ ts) ws s stack current h =
    let (same, rest) = put_word_inv (word a) (word s) (words ts) ws h in
    (ts, rest, ap (λ (t : Text). build ts stack (snoc current (text t))) (word_inj same))
text_first (string a ∷ ts) ws s stack current h = elim (Option-cases (unquote a)) [
  | inl bad ↦ cc (rw (bad, words) at h)
  | inr (t, good) ↦
      let (same, rest) = put_word_inv (word t) (word s) (words ts) ws (rw (good, words) at h) in
      (
        ts,
        rest,
        rw (good, build)
            (ap (λ (t : Text). build ts stack (snoc current (text t))) (word_inj same)),
      )
]
text_first (invalid ∷ ts) ws s stack current h = cc
text_first (trailing ∷ ts) ws s stack current h = cc

abbrev append : Nodes → Nodes → Nodes
append nil ys = ys
append (cons x xs) ys = cons x (append xs ys)

append-snoc : (xs : Nodes) (x : Node) (ys : Nodes) → append (snoc xs x) ys ≡ append xs (cons x ys)
unfolding snoc
append-snoc nil x ys = refl
append-snoc (cons y xs) x ys = rw (append-snoc xs x ys) refl

append-nil_nodes : (xs : Nodes) → append xs nil ≡ xs
append-nil_nodes nil = refl
append-nil_nodes (cons x xs) = rw (append-nil_nodes xs) refl

mutual
  unfolding flat flatten build words

  node-Gets :
      (x : Node) (ts : List Token) (ws : List Word) (stack : List Nodes) (current : Nodes)
      → words ts ≡ some (flat x ++ ws)
      → Gets ts ws stack current (snoc current x)
  node-Gets (text s) ts ws stack current h = text_first ts ws s stack current h
  node-Gets (list xs) ts ws stack current h =
      let same : (flatten xs ++ (close_word ∷ [])) ++ ws ≡ flatten xs ++ (close_word ∷ ws) =
        append_assoc (flatten xs) (close_word ∷ []) ws in
      let (us, inside, e) = open_first ts ((flatten xs ++ (close_word ∷ [])) ++ ws) h in
      let (vs, closed, step) =
        nodes-Gets xs us (close_word ∷ ws) (current ∷ stack) nil (inside ∙ ap some same) in
      let (rest, left, e') = close_first vs ws closed in
      (
        rest,
        left,
        ap (λ (t : List Token). build t stack current) e
            ∙ step
            ∙ ap (λ (t : List Token). build t (current ∷ stack) xs) e',
      )

  nodes-Gets :
      (xs : Nodes) (ts : List Token) (ws : List Word) (stack : List Nodes) (current : Nodes)
      → words ts ≡ some (flatten xs ++ ws)
      → Gets ts ws stack current (append current xs)
  nodes-Gets nil ts ws stack current h =
      (ts, h, ap (build ts stack) (sym (append-nil_nodes current)))
  nodes-Gets (cons x xs) ts ws stack current h =
      let same : (flat x ++ flatten xs) ++ ws ≡ flat x ++ (flatten xs ++ ws) =
        append_assoc (flat x) (flatten xs) ws in
      let (us, more, step) = node-Gets x ts (flatten xs ++ ws) stack current (h ∙ ap some same) in
      let (vs, rest, step') = nodes-Gets xs us ws stack (snoc current x) more in
      (vs, rest, step ∙ step' ∙ ap (build vs stack) (append-snoc current x xs))

put_word_not_nil : (w : Word) (o : Option (List Word)) → put_word w o ≡ some [] → ⊥
put_word_not_nil w none h = cc
put_word_not_nil w (some ws) h = cc

nothing_left : (us : List Token) → words us ≡ some [] → us ≡ []
unfolding words
nothing_left [] h = refl
nothing_left (opening ∷ ts) h = absurd (put_word_not_nil open_word (words ts) h)
nothing_left (closing ∷ ts) h = absurd (put_word_not_nil close_word (words ts) h)
nothing_left (atom s ∷ ts) h = absurd (put_word_not_nil (word s) (words ts) h)
nothing_left (string s ∷ ts) h = elim (Option-cases (unquote s)) [
  | inl bad ↦ cc (rw (bad, words) at h)
  | inr (t, good) ↦ absurd (put_word_not_nil (word t) (words ts) (rw (good, words) at h))
]
nothing_left (invalid ∷ ts) h = cc
nothing_left (trailing ∷ ts) h = cc

-- A text is read as a list of nodes exactly where its tokens stand for the words of that list:
-- parentheses that match, and texts that were quoted or not. So a text that is cut off, or that has
-- a parenthesis too many, is refused.
pub parse-words :
    (s : Text) (ns : Nodes) → (parse s ≡ parsed ns) ↔ (words (lex between s) ≡ some (flatten ns))
unfolding parse flatten build
parse-words s ns = (
  (λ h. let (ws, found, e) = build-Completes (lex between s) [] nil ns h in found ∙ ap some e),
  λ h.
      let (us, rest, step) =
        nodes-Gets ns (lex between s) [] [] nil (h ∙ ap some (sym (append-nil (flatten ns)))) in
      step ∙ ap (λ (t : List Token). build t [] ns) (nothing_left us rest),
)
