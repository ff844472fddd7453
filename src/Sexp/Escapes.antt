-- ===== src/Sexp/Escapes.antt =====
-- The escapes of strings in hardware/family/gen/sexp.py: `q`, and the two replacements of `parse`.
use thermocouple.Prelude.{
  ℕ, ◌≡◌, ◌≢◌, ◌⊎◌, refl, ◌∙◌, ap, true, false, ◌&&◌, [], ◌∷◌, ◌++◌, Text, if◌then◌else◌, ◌==◌,
  Bool-cases, inl, inr, arith, ==→≡, ==→≢, ≡→==,
}

abbrev pub backslash : ℕ
backslash = 92

abbrev pub quote : ℕ
quote = 34

abbrev pub newline : ℕ
newline = 10

-- replace: `c` becomes a backslash with `c` after it.
unfoldable pub escape_one : ℕ → Text → Text
escape_one c [] = []
escape_one c (a ∷ s) = if a == c then backslash ∷ a ∷ escape_one c s else a ∷ escape_one c s

unfoldable pub escape : Text → Text
unfolding escape_one
escape s = escape_one quote (escape_one backslash s)

unfoldable pub q : Text → Text
unfolding escape
q s = quote ∷ (escape s ++ (quote ∷ []))

-- replace: a backslash with `c` after it becomes `c`, from the left.
unfoldable pub unescape_one : ℕ → Text → Text
unescape_one c [] = []
unescape_one c (a ∷ []) = a ∷ []
unescape_one c (a ∷ b ∷ s) = elim (a == backslash && b == c) [
  | true ↦ c ∷ unescape_one c s
  | false ↦ a ∷ unescape_one c (b ∷ s)
]

unfoldable pub unescape : Text → Text
unfolding unescape_one
unescape s = unescape_one backslash (unescape_one quote s)

-- A backslash that is not escaped is not taken for an escape of what follows.
unescape-cons :
    (c a : ℕ) (s : Text)
    → a ≢ c
    → unescape_one c (a ∷ escape_one c s) ≡ a ∷ unescape_one c (escape_one c s)
unfolding unescape_one escape_one
unescape-cons c a [] h = refl
unescape-cons c a (b ∷ s) h = elim (Bool-cases (b == c)) [
  | inl same ↦ ground (arith, ==→≡ b c)
  | inr other ↦ rw (other, unescape_one) (ground arith)
]

unescape_hit : (c : ℕ) (t : Text) → unescape_one c (backslash ∷ c ∷ t) ≡ c ∷ unescape_one c t
unfolding unescape_one
unescape_hit c t = rw (≡→== c c refl, unescape_one)

unescape_one-escape_one : (c : ℕ) (s : Text) → unescape_one c (escape_one c s) ≡ s
unfolding escape_one
unescape_one-escape_one c [] = unfold unescape_one in refl
unescape_one-escape_one c (a ∷ s) = elim (Bool-cases (a == c)) [
  | inl same ↦
      let e = ==→≡ a c same in
      rw (same, e) (unescape_hit c (escape_one c s) ∙ ap (λ t. c ∷ t) (unescape_one-escape_one c s))
  | inr other ↦
      rw other
        (unescape-cons c a s (==→≢ a c other) ∙ ap (λ t. a ∷ t) (unescape_one-escape_one c s))
]

pub unescape-escape : (s : Text) → unescape (escape s) ≡ s
unfolding unescape escape
unescape-escape s =
    ap (unescape_one backslash) (unescape_one-escape_one quote (escape_one backslash s))
    ∙ unescape_one-escape_one backslash s

pub escape_plain : (c : ℕ) (s : Text) → c ≢ backslash → c ≢ quote → escape (c ∷ s) ≡ c ∷ escape s
unfolding escape escape_one
escape_plain c s a b = ground arith

pub escape_special :
    (c : ℕ) (s : Text) → (c ≡ backslash) ⊎ (c ≡ quote) → escape (c ∷ s) ≡ backslash ∷ c ∷ escape s
unfolding escape escape_one
escape_special c s (inl e) = rw e
escape_special c s (inr e) = rw e

pub escape-nil : escape [] ≡ []
unfolding escape escape_one
escape-nil = refl
