-- ===== src/TextSexp/Quoted.antt =====
-- json.loads on a quoted string, which hardware/family/tools/text_sexp.py calls.
use thermocouple.Prelude.{
  ℕ, zero, suc, ◌+◌, ◌*◌, ◌-◌, Bool, true, false, ◌&&◌, ◌||◌, Option, none, some, List, [], ◌∷◌,
  Text, is_digit, if◌then◌else◌, ◌==◌, ltb, leb,
}

abbrev pub backslash : ℕ
backslash = 92

abbrev pub quote : ℕ
quote = 34

unfoldable pub hex : ℕ → Option ℕ
unfolding is_digit
hex c =
    if is_digit c
    then some (c - b'0')
    else if leb b'a' c && leb c b'f'
    then some (c - b'a' + 10)
    else if leb b'A' c && leb c b'F'
    then some (c - b'A' + 10)
    else none

-- The character after a backslash, but for `u`.
unfoldable pub escape : ℕ → Option ℕ
escape c =
    if c == quote || (c == backslash || c == b'/')
    then some c
    else if c == b'b'
    then some 8
    else if c == b'f'
    then some 12
    else if c == b'n'
    then some 10
    else if c == b'r'
    then some 13
    else if c == b't'
    then some 9
    else none

-- In the text, after a backslash, or in the number of a \u with the digits that it still takes.
pub data Mode : Type 0 where
  plain slash : Mode
  digits : ℕ → ℕ → Mode

-- The characters, each with whether it came from a \u.
unfoldable pub put : Bool × ℕ → Option (List (Bool × ℕ)) → Option (List (Bool × ℕ))
put u none = none
put u (some us) = some (u ∷ us)

unfoldable pub units : Mode → Text → Option (List (Bool × ℕ))
unfolding hex escape put
units plain [] = some []
units slash [] = none
units (digits n v) [] = none
units plain (c ∷ s) =
    let next = units plain s in
    let escaped = units slash s in
    if c == backslash then escaped else if ltb c 32 || c == quote then none else put (false, c) next
units slash (c ∷ s) =
    let number = units (digits 3 0) s in
    let single : Option (List (Bool × ℕ)) = elim (escape c) [
      | none ↦ none
      | some a ↦ put (false, a) (units plain s)
    ] in
    if c == b'u' then number else single
units (digits (suc n) v) (c ∷ s) = elim (hex c) [
  | none ↦ none
  | some d ↦ units (digits n (v * 16 + d)) s
]
units (digits zero v) (c ∷ s) = elim (hex c) [
  | none ↦ none
  | some d ↦ put (true, v * 16 + d) (units plain s)
]

abbrev is_high : ℕ → Bool
is_high c = leb 0xD800 c && leb c 0xDBFF

abbrev is_low : ℕ → Bool
is_low c = leb 0xDC00 c && leb c 0xDFFF

-- Two surrogates, each from a \u, are one character.
unfoldable pub join : List (Bool × ℕ) → Text
join [] = []
join ((escaped, a) ∷ []) = a ∷ []
join ((escaped, a) ∷ (follows, b) ∷ us) =
    let pair = join us in
    let single = join ((follows, b) ∷ us) in
    if escaped && (follows && (is_high a && is_low b))
    then (0x10000 + (a - 0xD800) * 0x400 + (b - 0xDC00)) ∷ pair
    else a ∷ single

unfoldable pub joined : Option (List (Bool × ℕ)) → Option Text
unfolding join
joined none = none
joined (some us) = some (join us)

unfoldable pub unquote : Text → Option Text
unfolding units joined
unquote s = joined (units plain s)
