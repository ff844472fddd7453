-- ===== src/TextSexp/Words.antt =====
-- The words that the tokens of hardware/family/tools/text_sexp.py stand for, and those of the nodes
-- that are built from them.
use thermocouple.Prelude.{
  ◌≡◌, refl, sym, ap, ◌∙◌, Option, none, some, List, [], ◌∷◌, ◌++◌, Text, Option-cases, inl, inr,
}
use mathlib.Core.List.{append_assoc, append-nil}
use thermocouple.TextSexp.Quoted.{unquote}
use thermocouple.TextSexp.{
  Node, Nodes, text, list, nil, cons, Token, opening, closing, invalid, trailing, atom, string,
  snoc, parsed, build,
}

-- A parenthesis or a text, whether it was quoted or not.
pub data Word : Type 0 where
  open_word close_word : Word
  word : Text → Word

abbrev pub put_word : Word → Option (List Word) → Option (List Word)
put_word w none = none
put_word w (some ws) = some (w ∷ ws)

-- What the tokens stand for.
unfoldable pub words : List Token → Option (List Word)
unfolding unquote
words [] = some []
words (opening ∷ ts) = put_word open_word (words ts)
words (closing ∷ ts) = put_word close_word (words ts)
words (atom s ∷ ts) = put_word (word s) (words ts)
words (string s ∷ ts) = elim (unquote s) [ none ↦ none | some t ↦ put_word (word t) (words ts) ]
words (invalid ∷ ts) = none
words (trailing ∷ ts) = none

-- The words of nodes.
unfoldable mutual
  pub flat : Node → List Word
  flat (text s) = word s ∷ []
  flat (list xs) = open_word ∷ (flatten xs ++ (close_word ∷ []))

  pub flatten : Nodes → List Word
  flatten nil = []
  flatten (cons x xs) = flat x ++ flatten xs

-- The words that `build` has taken.
abbrev pub taken : List Nodes → Nodes → List Word
taken [] current = flatten current
taken (outer ∷ stack) current = taken stack outer ++ (open_word ∷ flatten current)

pub flatten-snoc : (xs : Nodes) (x : Node) → flatten (snoc xs x) ≡ flatten xs ++ flat x
unfolding flatten snoc
flatten-snoc nil x = append-nil (flat x)
flatten-snoc (cons y ys) x =
    rw (flatten-snoc ys x) (sym (append_assoc (flat y) (flatten ys) (flat x)))

pub taken-snoc :
    (stack : List Nodes) (current : Nodes) (x : Node)
    → taken stack (snoc current x) ≡ taken stack current ++ flat x
taken-snoc [] current x = flatten-snoc current x
taken-snoc (outer ∷ stack) current x =
    rw (flatten-snoc current x)
      (sym (append_assoc (taken stack outer) (open_word ∷ flatten current) (flat x)))

-- The tokens that are left stand for the words that are missing.
abbrev pub Completes : List Token → List Nodes → Nodes → Nodes → Type 0
Completes ts stack current ns =
    (ws : List Word) × (words ts ≡ some ws) × (taken stack current ++ ws ≡ flatten ns)

pub put_some :
    (w : Word) (o : Option (List Word)) (ws : List Word)
    → o ≡ some ws
    → put_word w o ≡ some (w ∷ ws)
put_some w o ws h = rw h refl

pub node_step :
    (x : Node) (w : Word) (ts : List Token) (stack : List Nodes) (current ns : Nodes)
    → flat x ≡ w ∷ []
    → Completes ts stack (snoc current x) ns
    → (ws : List Word) × (put_word w (words ts) ≡ some ws)
      × (taken stack current ++ ws ≡ flatten ns)
node_step x w ts stack current ns one (ws, h, e) = (
  w ∷ ws,
  put_some w (words ts) ws h,
  sym (append_assoc (taken stack current) (w ∷ []) ws)
      ∙ ap (λ (t : List Word). (taken stack current ++ t) ++ ws) (sym one)
      ∙ ap (λ (t : List Word). t ++ ws) (sym (taken-snoc stack current x))
      ∙ e,
)

string_step :
    (s t : Text) (ts : List Token) (stack : List Nodes) (current ns : Nodes)
    → unquote s ≡ some t
    → (ws : List Word) × (put_word (word t) (words ts) ≡ some ws)
      × (taken stack current ++ ws ≡ flatten ns)
    → Completes (string s ∷ ts) stack current ns
unfolding words
string_step s t ts stack current ns good (ws, h, e) = (ws, rw (good, words) h, e)

pub parsed_inj : {xs ys : Nodes} → parsed xs ≡ parsed ys → xs ≡ ys
parsed_inj h = cc

pub build-Completes :
    (ts : List Token) (stack : List Nodes) (current ns : Nodes)
    → build ts stack current ≡ parsed ns
    → Completes ts stack current ns
unfolding build words flat flatten
build-Completes [] [] current ns h =
    ([], refl, append-nil (flatten current) ∙ ap flatten (parsed_inj h))
build-Completes [] (outer ∷ stack) current ns h = cc
build-Completes (opening ∷ ts) stack current ns h =
    let (ws, found, e) = build-Completes ts (current ∷ stack) nil ns h in
    (
      open_word ∷ ws,
      put_some open_word (words ts) ws found,
      sym (append_assoc (taken stack current) (open_word ∷ []) ws) ∙ e,
    )
build-Completes (closing ∷ ts) [] current ns h = cc
build-Completes (closing ∷ ts) (outer ∷ stack) current ns h =
    let (ws, found, e) = build-Completes ts stack (snoc outer (list current)) ns h in
    (
      close_word ∷ ws,
      put_some close_word (words ts) ws found,
      sym (append_assoc (taken stack outer ++ (open_word ∷ flatten current)) (close_word ∷ []) ws)
          ∙ ap (λ (t : List Word). t ++ ws)
              (append_assoc (taken stack outer) (open_word ∷ flatten current) (close_word ∷ [])
                ∙ sym (taken-snoc stack outer (list current)))
          ∙ e,
    )
build-Completes (atom s ∷ ts) stack current ns h =
    node_step (text s) (word s) ts stack current ns refl
      (build-Completes ts stack (snoc current (text s)) ns h)
build-Completes (string s ∷ ts) stack current ns h = elim (Option-cases (unquote s)) [
  | inl bad ↦ cc (rw (bad, build) at h)
  | inr (t, good) ↦ string_step s t ts stack current ns good (
      node_step (text t) (word t) ts stack current ns refl
        (build-Completes ts stack (snoc current (text t)) ns (rw (good, build) at h)))
]
build-Completes (invalid ∷ ts) stack current ns h = cc
build-Completes (trailing ∷ ts) stack current ns h = cc
