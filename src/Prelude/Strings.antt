-- ===== src/Prelude/Strings.antt =====
-- Texts as lists of code points (bytes, where they are ASCII), and the parts of Python's string
-- methods that the tools use.
use Prim.Native.Nat.{ℕ, zero, suc, ◌+◌, ◌/◌, ◌%◌}
use Prim.Native.Char.{code}
use Prim.Native.String.{String}
use mathlib.Core.Bool.{Bool, true, false, ◌&&◌, ◌||◌}
use mathlib.Core.List.{List, [], ◌∷◌, reverse}
use thermocouple.Prelude.Tests.{ltb, leb, ◌==◌, if◌then◌else◌}

abbrev pub Text : Type 0
Text = List ℕ

-- The code points of a literal.
abbrev pub codes : String → Text
codes String.[] = []
codes (String.◌∷◌ c s) = code c ∷ codes s

-- `str.isspace` of an ASCII character: what `str.strip` removes.
unfoldable pub is_space : ℕ → Bool
is_space c = (leb 9 c && leb c 13) || (leb 28 c && leb c 32)

-- A line break of `str.splitlines` in ASCII text.
unfoldable pub is_break : ℕ → Bool
is_break c = (leb 10 c && leb c 13) || (leb 28 c && leb c 30)

-- `str.lower` on ASCII.
unfoldable pub lower : ℕ → ℕ
lower c = if leb 65 c && leb c 90 then c + 32 else c

unfoldable pub is_digit : ℕ → Bool
is_digit c = leb b'0' c && leb c b'9'

-- [0-9a-f]
unfoldable pub is_lower_hex : ℕ → Bool
unfolding is_digit
is_lower_hex c = is_digit c || (leb b'a' c && leb c b'f')

-- str(n), on fuel: `n` has at most `n + 1` digits.
digits : ℕ → ℕ → Text → Text
digits zero n out = out
digits (suc fuel) n out =
    let rest = digits fuel (n / 10) ((b'0' + n % 10) ∷ out) in
    if ltb n 10 then (b'0' + n) ∷ out else rest

unfoldable pub decimal : ℕ → Text
unfolding digits
decimal n = digits (n + 1) n []

-- Python's text mode turns "\r\n" and "\r" into "\n" on reading.
unfoldable pub newlines : Text → Text
newlines [] = []
newlines (c ∷ []) = (if c == 13 then 10 else c) ∷ []
newlines (c ∷ d ∷ r) = elim (c == 13) [
  | true ↦ elim (d == 10) [ true ↦ 10 ∷ newlines r | false ↦ 10 ∷ newlines (d ∷ r) ]
  | false ↦ c ∷ newlines (d ∷ r)
]

-- `splitlines`, with the line read so far in reverse: no "\r" is left at this point, so each break
-- is one character, and a break at the end starts no line.
unfoldable pub split_lines : Text → Text → List Text
split_lines [] [] = []
split_lines line [] = reverse line ∷ []
split_lines line (c ∷ r) = elim (is_break c) [
  | true ↦ reverse line ∷ split_lines [] r
  | false ↦ split_lines (c ∷ line) r
]
