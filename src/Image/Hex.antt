-- ===== src/Image/Hex.antt =====
-- `bytes.fromhex` as firmware/family/image_metadata.py uses it on the lines of an Intel HEX file,
-- and the printer of a byte that its round trip is stated with.
use thermocouple.Prelude.{
  ℕ, ◌+◌, ◌-◌, ◌*◌, ◌/◌, ◌%◌, ◌<◌, ◌≡◌, refl, Bool, false, ◌&&◌, ◌||◌, Option, none, some, List, [],
  ◌∷◌, Text, All, arith, ◌==◌, leb, ltb, if◌then◌else◌, subst, Bool-cases, inl, inr, ap,
}
use thermocouple.Image.Failure.{Result, ok, err, not_hex_digits, ◌>>=◌}

unfoldable pub hex_digit : ℕ → Option ℕ
hex_digit c =
    if leb b'0' c && leb c b'9'
    then some (c - b'0')
    else if leb b'a' c && leb c b'f'
    then some (c - b'a' + 10)
    else if leb b'A' c && leb c b'F'
    then some (c - b'A' + 10)
    else none

-- The white space that `bytes.fromhex` skips between bytes.
unfoldable pub is_gap : ℕ → Bool
is_gap c = (leb 9 c && leb c 13) || c == 32

-- One byte in front of what the rest reads to.
unfoldable pub pair : Option ℕ → Option ℕ → Result (List ℕ) → Result (List ℕ)
pair (some h) (some l) rest = do bytes ← rest; ok ((h * 16 + l) ∷ bytes)
pair _ _ rest = err not_hex_digits

unfoldable pub from_hex : Text → Result (List ℕ)
unfolding hex_digit is_gap pair
from_hex [] = ok []
from_hex (c ∷ []) = if is_gap c then ok [] else err not_hex_digits
from_hex (c ∷ d ∷ r) =
    let skip = from_hex (d ∷ r) in
    let read = pair (hex_digit c) (hex_digit d) (from_hex r) in if is_gap c then skip else read

abbrev pub IsBytes : List ℕ → Type 0
IsBytes = All (λ v. v < 256)

-- An upper-case digit, as HEX files are written.
unfoldable pub digit_code : ℕ → ℕ
digit_code d = if ltb d 10 then b'0' + d else b'A' + d - 10

unfoldable pub to_hex : List ℕ → Text
unfolding digit_code
to_hex [] = []
to_hex (v ∷ vs) = digit_code (v / 16) ∷ digit_code (v % 16) ∷ to_hex vs

hex_digit-lt : (c : ℕ) {d : ℕ} → hex_digit c ≡ some d → d < 16
unfolding hex_digit
hex_digit-lt c h = ground arith

hex_digit-digit_code : (d : ℕ) → d < 16 → hex_digit (digit_code d) ≡ some d
unfolding hex_digit digit_code
hex_digit-digit_code d h = ground arith

is_gap-digit_code : (d : ℕ) → d < 16 → is_gap (digit_code d) ≡ false
unfolding is_gap digit_code
is_gap-digit_code d h = ground arith

ok-IsBytes : (bytes out : List ℕ) → IsBytes bytes → ok bytes ≡ ok out → IsBytes out
ok-IsBytes bytes out h e = let e' : bytes ≡ out = cc in subst IsBytes e' h

pair-IsBytes :
    (h l : Option ℕ) (rest : Result (List ℕ)) (out : List ℕ)
    → ((d : ℕ) → h ≡ some d → d < 16)
    → ((d : ℕ) → l ≡ some d → d < 16)
    → ((bytes : List ℕ) → rest ≡ ok bytes → IsBytes bytes)
    → pair h l rest ≡ ok out
    → IsBytes out
unfolding pair
pair-IsBytes (some h) (some l) (ok bytes) out hh hl hr e =
    ok-IsBytes ((h * 16 + l) ∷ bytes) out (omega (arith, hh h refl, hl l refl), hr bytes refl) e
pair-IsBytes _ _ _ out hh hl hr e = cc

-- What is read is a list of bytes.
pub from_hex-IsBytes : (t : Text) (out : List ℕ) → from_hex t ≡ ok out → IsBytes out
unfolding from_hex
from_hex-IsBytes [] out h = ok-IsBytes [] out tt h
from_hex-IsBytes (c ∷ []) out h = elim (Bool-cases (is_gap c)) [
  | inl gap ↦ ok-IsBytes [] out tt (rw gap at h)
  | inr byte ↦ cc (rw byte at h)
]
from_hex-IsBytes (c ∷ d ∷ r) out h = elim (Bool-cases (is_gap c)) [
  | inl gap ↦ from_hex-IsBytes (d ∷ r) out (rw gap at h)
  | inr byte ↦
      pair-IsBytes (hex_digit c) (hex_digit d) (from_hex r) out (λ e. hex_digit-lt c)
        (λ e. hex_digit-lt d) (λ bytes. from_hex-IsBytes r bytes) (rw byte at h)
]

-- Reading what was printed.
pub from_hex-to_hex : (vs : List ℕ) → IsBytes vs → from_hex (to_hex vs) ≡ ok vs
unfolding from_hex to_hex
from_hex-to_hex [] h = refl
from_hex-to_hex (v ∷ vs) h =
    let high = v / 16 in
    let low = v % 16 in
    rw (is_gap-digit_code high (omega (arith, h.0))) (
      rw
        (
          hex_digit-digit_code high (omega (arith, h.0)),
          hex_digit-digit_code low (omega arith),
          from_hex-to_hex vs h.1,
          pair,
        )
        (ap (λ (x : ℕ). ok (x ∷ vs)) (omega arith)))
