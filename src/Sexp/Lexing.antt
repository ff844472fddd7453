-- ===== src/Sexp/Lexing.antt =====
-- How `_TOK` of hardware/family/gen/sexp.py reads what `dump` wrote.
use thermocouple.Prelude.{
  ℕ, zero, suc, ◌≡◌, ◌≢◌, ◌||◌, refl, ◌∙◌, false, [], ◌∷◌, ◌++◌, Text, ◌==◌, Bool-cases, inl, inr,
  arith, All,
}
use mathlib.Core.List.{append_assoc, append-nil}
use thermocouple.Sexp.Escapes.{
  backslash, quote, newline, escape, unescape, unescape-escape, escape_plain, escape_special,
  escape-nil, q,
}
use thermocouple.Sexp.{
  opening, closing, atom, string, kind, other, before, in_atom, in_string, begin, goes_on,
  after_atom, scan, at_end, lex, tabs,
}

-- A character of an atom, and an atom.
abbrev pub IsPlain : ℕ → Type 0
IsPlain c = kind c ≡ other

abbrev pub IsAtom : Text → Type 0
IsAtom [] = ⊥
IsAtom (c ∷ s) = IsPlain c × All IsPlain s

-- The text is empty or starts with a character that ends an atom.
abbrev pub Ends : Text → Type 0
Ends [] = Unit
Ends (c ∷ s) = goes_on (kind c) ≡ false

lex_in_atom :
    (done s rest : Text)
    → All IsPlain s
    → Ends rest
    → lex (in_atom done) (s ++ rest) ≡ atom (done ++ s) ∷ lex before rest
unfolding lex scan goes_on after_atom at_end
lex_in_atom done [] [] plain ends = rw (append-nil done)
lex_in_atom done [] (c ∷ rest) plain ends = rw (ends, append-nil done, after_atom)
lex_in_atom done (c ∷ s) rest plain ends =
    rw (plain.0)
      (lex_in_atom (done ++ (c ∷ [])) s rest plain.1 ends ∙ rw (append_assoc done (c ∷ []) s))

pub lex-atom :
    (s rest : Text) → IsAtom s → Ends rest → lex before (s ++ rest) ≡ atom s ∷ lex before rest
unfolding lex scan begin
lex-atom [] rest h ends = absurd h
lex-atom (c ∷ s) rest h ends = rw (h.0) (lex_in_atom (c ∷ []) s rest h.1 ends)

-- One character of a string: as it is, or after a backslash.
scan_plain :
    (done : Text) (c : ℕ) (rest : Text)
    → c ≢ backslash
    → c ≢ quote
    → lex (in_string done) (c ∷ rest) ≡ lex (in_string (done ++ (c ∷ []))) rest
unfolding lex scan
scan_plain done c rest a b =
    let p : (c == quote) ≡ false = ground arith in
    let r : (c == backslash) ≡ false = ground arith in rw (p, r)

scan_special :
    (done : Text) (c : ℕ) (rest : Text)
    → c ≢ newline
    → lex (in_string done) (backslash ∷ c ∷ rest)
      ≡ lex (in_string (done ++ (backslash ∷ c ∷ []))) rest
unfolding lex scan
scan_special done c rest h = let p : (c == newline) ≡ false = ground arith in rw p

lex_in_string :
    (done s rest : Text)
    → lex (in_string done) (escape s ++ (quote ∷ rest))
      ≡ string (unescape (done ++ escape s)) ∷ lex before rest
lex_in_string done [] rest = rw (escape-nil, append-nil done) (unfold lex scan in refl)
lex_in_string done (c ∷ s) rest = elim (Bool-cases (c == backslash || c == quote)) [
  | inl special ↦
      let e = escape_special c s (ground (arith, special)) in
      rw e (
        scan_special done c (escape s ++ (quote ∷ rest)) (ground arith)
        ∙ lex_in_string (done ++ (backslash ∷ c ∷ [])) s rest
        ∙ rw (append_assoc done (backslash ∷ c ∷ []) (escape s)))
  | inr plain ↦
      let e = escape_plain c s (ground arith) (ground arith) in
      rw e (
        scan_plain done c (escape s ++ (quote ∷ rest)) (ground arith) (ground arith)
        ∙ lex_in_string (done ++ (c ∷ [])) s rest
        ∙ rw (append_assoc done (c ∷ []) (escape s)))
]

lex-quote : (t : Text) → lex before (quote ∷ t) ≡ lex (in_string []) t
unfolding lex scan begin kind
lex-quote t = refl

-- `q` is read back, whatever follows.
pub lex-q : (s rest : Text) → lex before (q s ++ rest) ≡ string s ∷ lex before rest
unfolding q
lex-q s rest =
    lex-quote ((escape s ++ (quote ∷ [])) ++ rest)
    ∙ rw (append_assoc (escape s) (quote ∷ []) rest)
        (lex_in_string [] s rest ∙ rw (unescape-escape s))

pub lex-opening : (t : Text) → lex before (b'(' ∷ t) ≡ opening ∷ lex before t
unfolding lex scan begin kind
lex-opening t = refl

pub lex-closing : (t : Text) → lex before (b')' ∷ t) ≡ closing ∷ lex before t
unfolding lex scan begin kind
lex-closing t = refl

pub lex-space : (t : Text) → lex before (b' ' ∷ t) ≡ lex before t
unfolding lex scan begin kind
lex-space t = refl

lex-tab : (t : Text) → lex before (b'\t' ∷ t) ≡ lex before t
unfolding lex scan begin kind
lex-tab t = refl

lex-tabs : (n : ℕ) (t : Text) → lex before (tabs n ++ t) ≡ lex before t
unfolding tabs
lex-tabs zero t = refl
lex-tabs (suc n) t = lex-tab (tabs n ++ t) ∙ lex-tabs n t

lex-newline : (t : Text) → lex before (newline ∷ t) ≡ lex before t
unfolding lex scan begin kind
lex-newline t = refl

-- A new line and its indentation are no token.
pub lex-indent : (n : ℕ) (t : Text) → lex before (newline ∷ (tabs n ++ t)) ≡ lex before t
lex-indent n t = lex-newline (tabs n ++ t) ∙ lex-tabs n t

pub Ends-newline : (t : Text) → Ends (newline ∷ t)
unfolding kind goes_on
Ends-newline t = refl

pub Ends-space : (t : Text) → Ends (b' ' ∷ t)
unfolding kind goes_on
Ends-space t = refl

pub Ends-closing : (t : Text) → Ends (b')' ∷ t)
unfolding kind goes_on
Ends-closing t = refl
