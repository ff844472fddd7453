-- ===== src/Sexp/Tokens.antt =====
-- The tokens of what hardware/family/gen/sexp.py dumps.
use thermocouple.Prelude.{
  ℕ, ◌+◌, ◌≡◌, refl, sym, ◌∙◌, ap, Bool, true, false, ◌&&◌, List, [], ◌∷◌, ◌++◌, Text, codes,
  if◌then◌else◌, Bool-cases, inl, inr, ltb,
}
use mathlib.Core.List.{append_assoc}
use thermocouple.Sexp.Escapes.{newline}
use thermocouple.Sexp.Lexing.{
  IsAtom, Ends, lex-atom, lex-q, lex-opening, lex-closing, lex-space, lex-indent, Ends-newline,
  Ends-space, Ends-closing,
}
use thermocouple.Sexp.{
  Node, Nodes, str, flag, list, nil, cons, Token, opening, closing, atom, string, before, lex, tabs,
  is_list, is_simple, count, dump, dump_children, dump_spaced, kind, goes_on,
}

-- Every Sym is one atom: not empty, with no white space, parenthesis or quote.
abbrev mutual
  pub IsNode : Node → Type 0
  IsNode (Node.sym s) = IsAtom s
  IsNode (str s) = Unit
  IsNode (flag b) = Unit
  IsNode (list xs) = AreNodes xs

  pub AreNodes : Nodes → Type 0
  AreNodes nil = Unit
  AreNodes (cons x xs) = IsNode x × AreNodes xs

-- A bool is written as an atom, and read as one.
unfoldable mutual
  pub as_read : Node → Node
  as_read (Node.sym s) = Node.sym s
  as_read (str s) = str s
  as_read (flag b) = Node.sym (if b then codes "yes" else codes "no")
  as_read (list xs) = list (all_as_read xs)

  pub all_as_read : Nodes → Nodes
  all_as_read nil = nil
  all_as_read (cons x xs) = cons (as_read x) (all_as_read xs)

unfoldable mutual
  pub tokens : Node → List Token
  tokens (Node.sym s) = atom s ∷ []
  tokens (str s) = string s ∷ []
  tokens (flag b) = atom (if b then codes "yes" else codes "no") ∷ []
  tokens (list xs) = opening ∷ (all_tokens xs ++ (closing ∷ []))

  pub all_tokens : Nodes → List Token
  all_tokens nil = []
  all_tokens (cons x xs) = tokens x ++ all_tokens xs

flag-IsAtom : (b : Bool) → IsAtom (if b then codes "yes" else codes "no")
unfolding kind
flag-IsAtom true = (refl, (refl, (refl, tt)))
flag-IsAtom false = (refl, (refl, tt))

Ends-spaced : (xs : Nodes) (rest : Text) → Ends rest → Ends (dump_spaced xs ++ rest)
unfolding dump_spaced
Ends-spaced nil rest h = h
Ends-spaced (cons x xs) rest h = Ends-space ((dump x 0 ++ dump_spaced xs) ++ rest)

Ends-children : (xs : Nodes) (i : ℕ) (rest : Text) → Ends rest → Ends (dump_children xs i ++ rest)
unfolding dump_children
Ends-children nil i rest h = h
Ends-children (cons x xs) i rest h = elim (Bool-cases (is_list x)) [
  | inl deep ↦ rw deep (unfold kind goes_on in refl)
  | inr flat ↦ rw flat (unfold kind goes_on in refl)
]

-- Where the parentheses of the texts and of the tokens stand.
regroup {ℓ} : {A : Type ℓ} (a b c rest : List A) → (a ++ (b ++ c)) ++ rest ≡ a ++ (b ++ (c ++ rest))
regroup a b c rest = append_assoc a (b ++ c) rest ∙ ap (λ t. a ++ t) (append_assoc b c rest)

close_tokens : (a b t : List Token) → a ++ (b ++ (closing ∷ t)) ≡ ((a ++ b) ++ (closing ∷ [])) ++ t
close_tokens a b t =
    sym (append_assoc a b (closing ∷ t)) ∙ sym (append_assoc (a ++ b) (closing ∷ []) t)

lex_end :
    (i : ℕ) (rest : Text)
    → lex before ((newline ∷ (tabs i ++ (b')' ∷ []))) ++ rest) ≡ closing ∷ lex before rest
lex_end i rest =
    ap (λ t. lex before (newline ∷ t)) (append_assoc (tabs i) (b')' ∷ []) rest)
    ∙ lex-indent i (b')' ∷ rest)
    ∙ lex-closing rest

mutual
  unfolding dump dump_children dump_spaced tokens

  pub lex-dump :
      (n : Node) (i : ℕ) (rest : Text)
      → IsNode n
      → Ends rest
      → lex before (dump n i ++ rest) ≡ tokens n ++ lex before rest
  lex-dump (Node.sym s) i rest good ends = lex-atom s rest good ends
  lex-dump (str s) i rest good ends = lex-q s rest
  lex-dump (flag b) i rest good ends = lex-atom _ rest (flag-IsAtom b) ends
  lex-dump (list nil) i rest good ends = lex-opening (b')' ∷ rest) ∙ rw (lex-closing rest)
  lex-dump (list (cons x xs)) i rest good ends =
      elim (Bool-cases (is_simple (cons x xs) && ltb (count (cons x xs)) 10)) [
        | inl short ↦
            let tail = b')' ∷ rest in
            let ends_tail = Ends-closing rest in
            rw short (
              lex-opening ((dump x 0 ++ (dump_spaced xs ++ (b')' ∷ []))) ++ rest)
              ∙ ap (λ t. opening ∷ t)
                  (ap (lex before) (regroup (dump x 0) (dump_spaced xs) (b')' ∷ []) rest)
                    ∙ lex-dump x 0 (dump_spaced xs ++ tail) good.0 (Ends-spaced xs tail ends_tail)
                    ∙ ap (λ t. tokens x ++ t)
                        (lex-spaced xs tail good.1 ends_tail
                          ∙ ap (λ t. all_tokens xs ++ t) (lex-closing rest))
                    ∙ close_tokens (tokens x) (all_tokens xs) (lex before rest)))
        | inr long ↦
            let end = newline ∷ (tabs i ++ (b')' ∷ [])) in
            let ends_tail = Ends-newline ((tabs i ++ (b')' ∷ [])) ++ rest) in
            rw long (
              lex-opening ((dump x 0 ++ (dump_children xs i ++ end)) ++ rest)
              ∙ ap (λ t. opening ∷ t)
                  (ap (lex before) (regroup (dump x 0) (dump_children xs i) end rest)
                    ∙ lex-dump x 0 (dump_children xs i ++ (end ++ rest)) good.0
                        (Ends-children xs i (end ++ rest) ends_tail)
                    ∙ ap (λ t. tokens x ++ t)
                        (lex-children xs i (end ++ rest) good.1 ends_tail
                          ∙ ap (λ t. all_tokens xs ++ t) (lex_end i rest))
                    ∙ close_tokens (tokens x) (all_tokens xs) (lex before rest)))
      ]

  lex-children :
      (xs : Nodes) (i : ℕ) (rest : Text)
      → AreNodes xs
      → Ends rest
      → lex before (dump_children xs i ++ rest) ≡ all_tokens xs ++ lex before rest
  lex-children nil i rest good ends = refl
  lex-children (cons x xs) i rest good ends = elim (Bool-cases (is_list x)) [
    | inl deep ↦
        let more = dump_children xs i ++ rest in
        rw deep (
          ap (lex before) (
            append_assoc (newline ∷ (tabs (i + 1) ++ dump x (i + 1))) (dump_children xs i) rest
            ∙ ap (λ t. newline ∷ t) (append_assoc (tabs (i + 1)) (dump x (i + 1)) more))
          ∙ lex-indent (i + 1) (dump x (i + 1) ++ more)
          ∙ lex-dump x (i + 1) more good.0 (Ends-children xs i rest ends)
          ∙ ap (λ t. tokens x ++ t) (lex-children xs i rest good.1 ends)
          ∙ sym (append_assoc (tokens x) (all_tokens xs) (lex before rest)))
    | inr flat ↦
        let more = dump_children xs i ++ rest in
        rw flat (
          ap (lex before) (append_assoc (b' ' ∷ dump x 0) (dump_children xs i) rest)
          ∙ lex-space (dump x 0 ++ more)
          ∙ lex-dump x 0 more good.0 (Ends-children xs i rest ends)
          ∙ ap (λ t. tokens x ++ t) (lex-children xs i rest good.1 ends)
          ∙ sym (append_assoc (tokens x) (all_tokens xs) (lex before rest)))
  ]

  pub lex-spaced :
      (xs : Nodes) (rest : Text)
      → AreNodes xs
      → Ends rest
      → lex before (dump_spaced xs ++ rest) ≡ all_tokens xs ++ lex before rest
  lex-spaced nil rest good ends = refl
  lex-spaced (cons x xs) rest good ends =
      lex-space ((dump x 0 ++ dump_spaced xs) ++ rest)
      ∙ rw (append_assoc (dump x 0) (dump_spaced xs) rest) (
          lex-dump x 0 (dump_spaced xs ++ rest) good.0 (Ends-spaced xs rest ends)
          ∙ rw (
            lex-spaced xs rest good.1 ends,
            append_assoc (tokens x) (all_tokens xs) (lex before rest),
          ))
