-- ===== src/Rules/Glob.antt =====
-- fnmatch.fnmatchcase, which hardware/family/tools/text_rules.py matches names with.
use thermocouple.Prelude.{
  ℕ, Bool, true, false, not, ◌&&◌, ◌||◌, Option, none, some, List, [], ◌∷◌, Text, if◌then◌else◌,
  ◌==◌, leb, zero, suc, ◌-◌, length,
}

-- A part of a pattern; the ranges of a set are of one character or more.
pub data Piece : Type 0 where
  star one : Piece
  literal : ℕ → Piece
  set : Bool → List (ℕ × ℕ) → Piece

-- The characters of a set up to its bracket, and what follows it; the first may be a bracket.
unfoldable pub before : ℕ → Text → Option (Text × Text)
before c [] = none
before c (a ∷ s) =
    let rest = before c s in
    if a == c
    then some ([], s)
    else elim rest [ none ↦ none | some (inside, more) ↦ some (a ∷ inside, more) ]

unfoldable pub keep_first : ℕ → Option (Text × Text) → Option (Text × Text)
keep_first a none = none
keep_first a (some (inside, more)) = some (a ∷ inside, more)

unfoldable pub contents : Text → Option (Text × Text)
unfolding keep_first before
contents [] = none
contents (a ∷ s) = if a == b']' then keep_first a (before b']' s) else before b']' (a ∷ s)

-- Whether it is negated, its characters, and what follows it.
unfoldable pub signed : Bool → Option (Text × Text) → Option (Bool × Text × Text)
signed negative none = none
signed negative (some (inside, more)) = some (negative, inside, more)

unfoldable pub bracket : Text → Option (Bool × Text × Text)
unfolding signed contents
bracket [] = none
bracket (a ∷ s) = if a == b'!' then signed true (contents s) else signed false (contents (a ∷ s))

-- `a-b` is a range where the hyphen stands between two characters of the set.
unfoldable pub ranges : Text → List (ℕ × ℕ)
ranges [] = []
ranges (a ∷ []) = (a, a) ∷ []
ranges (a ∷ b ∷ []) = (a, a) ∷ (b, b) ∷ []
ranges (a ∷ b ∷ c ∷ s) =
    let single = ranges (b ∷ c ∷ s) in
    let span = ranges s in if b == b'-' then (a, c) ∷ span else (a, a) ∷ single

unfoldable pub in_ranges : ℕ → List (ℕ × ℕ) → Bool
in_ranges c [] = false
in_ranges c ((low, high) ∷ more) = (leb low c && leb c high) || in_ranges c more

-- fnmatch.translate; `skip` counts the characters that a set has taken.
unfoldable pub pieces : ℕ → Text → List Piece
unfolding bracket ranges
pieces skip [] = []
pieces (suc skip) (c ∷ s) = pieces skip s
pieces zero (c ∷ s) =
    let next = pieces zero s in
    let in_brackets : List Piece = elim (bracket s) [
      | none ↦ literal b'[' ∷ pieces zero s
      | some (negative, inside, more) ↦
          set negative (ranges inside) ∷ pieces (length s - length more) s
    ] in
    if c == b'*'
    then star ∷ next
    else if c == b'?'
    then one ∷ next
    else if c == b'['
    then in_brackets
    else literal c ∷ next

unfoldable pub fits : Piece → ℕ → Bool
unfolding in_ranges
fits star c = false
fits one c = true
fits (literal a) c = a == c
fits (set true spans) c = not (in_ranges c spans)
fits (set false spans) c = in_ranges c spans

-- A star takes any number of characters.
unfoldable pub any_rest : (Text → Bool) → Text → Bool
any_rest p [] = p []
any_rest p (c ∷ s) = p (c ∷ s) || any_rest p s

unfoldable pub matches : List Piece → Text → Bool
unfolding fits any_rest
matches [] [] = true
matches [] (c ∷ s) = false
matches (star ∷ ps) s = any_rest (matches ps) s
matches (one ∷ ps) [] = false
matches (one ∷ ps) (c ∷ s) = matches ps s
matches (literal a ∷ ps) [] = false
matches (literal a ∷ ps) (c ∷ s) = fits (literal a) c && matches ps s
matches (set negative spans ∷ ps) [] = false
matches (set negative spans ∷ ps) (c ∷ s) = fits (set negative spans) c && matches ps s

unfoldable pub fnmatchcase : Text → Text → Bool
unfolding pieces matches
fnmatchcase actual pattern_text = matches (pieces 0 pattern_text) actual
