-- ===== src/Image/Identity.antt =====
-- `embedded_identity` of firmware/family/image_metadata.py: the identity record in the flash, which
-- the firmware declares as `image_identity_t` in firmware/family/include/app/image_identity.h.
pub mod Layout
pub mod Fields
use thermocouple.Prelude.{
  ℕ, zero, suc, ◌+◌, ◌-◌, ◌*◌, ◌/◌, ◌%◌, Bool, true, false, not, ◌&&◌, ◌||◌, Option, none, some,
  List, [], ◌∷◌, ◌++◌, Text, codes, length, slice, drop, get_or, all, any, text_eq, is_digit,
  is_lower_hex, decimal, ◌==◌, leb, if◌then◌else◌,
}
use thermocouple.Image.Failure.{
  Result, ok, err, ◌>>=◌, identity_missing, not_this_board, invalid_identity,
}
use thermocouple.Image.Memory.{Memory, lookup}

-- The constants of image_identity.h.
abbrev pub identity_address : ℕ
identity_address = 0x1FF80

abbrev pub identity_bytes : ℕ
identity_bytes = 64

abbrev pub vector_bytes : ℕ
vector_bytes = 140

abbrev pub magic : List ℕ
magic = codes "THFWID01"

abbrev pub mcu_signature : List ℕ
mcu_signature = 0x1E ∷ 0x97 ∷ 0x05 ∷ []

pub record Identity : Type 0 where
  pub board : ℕ
  pub mcu : Text
  pub firmware_version : Text
  pub commit : Text
  pub dirty : Bool

-- memory[a], ..., memory[a + count - 1], `none` for a KeyError
cons_some : Option ℕ → Option (List ℕ) → Option (List ℕ)
cons_some (some v) (some vs) = some (v ∷ vs)
cons_some _ _ = none

unfoldable pub read_bytes : Memory → ℕ → ℕ → Option (List ℕ)
unfolding cons_some lookup
read_bytes m a zero = some []
read_bytes m a (suc count) = cons_some (lookup a m) (read_bytes m (a + 1) count)

-- re.fullmatch(b"[0-9a-f]{12}", xs)
unfoldable pub is_commit : List ℕ → Bool
unfolding all is_lower_hex
is_commit xs = length xs == 12 && all is_lower_hex xs

-- ".".join(map(str, xs))
unfoldable pub dotted : List ℕ → Text
unfolding decimal
dotted [] = []
dotted (x ∷ []) = decimal x
dotted (x ∷ y ∷ r) = decimal x ++ b'.' ∷ dotted (y ∷ r)

-- The first test: the magic, the board and the controller.
unfoldable pub is_this_board : List ℕ → Bool
is_this_board raw =
    text_eq (slice 0 8 raw) magic && (get_or raw 8 0 == 24) && text_eq (slice 9 3 raw) mcu_signature

-- The second test: the dirty flag, the commit and the reserved bytes.
unfoldable pub is_well_formed : List ℕ → Bool
is_well_formed raw =
    leb (get_or raw 15 0) 1
    && (get_or raw 28 0 == 0)
    && not (any (λ b. not (b == 0)) (drop 29 raw))
    && is_commit (slice 16 12 raw)

unfoldable pub identity_of : List ℕ → Identity
identity_of raw = record {
  board = get_or raw 8 0;
  mcu = codes "atmega1284p";
  firmware_version = dotted (slice 12 3 raw);
  commit = slice 16 12 raw;
  dirty = not (get_or raw 15 0 == 0);
}

unfoldable pub parse_identity : List ℕ → Result Identity
parse_identity raw =
    if not (is_this_board raw)
    then err not_this_board
    else if not (is_well_formed raw)
    then err invalid_identity
    else ok (identity_of raw)

unfoldable pub or_missing : Option (List ℕ) → Result (List ℕ)
or_missing none = err identity_missing
or_missing (some xs) = ok xs

unfoldable pub embedded_identity : Memory → Result Identity
embedded_identity m = do
  raw ← or_missing (read_bytes m identity_address identity_bytes)
  parse_identity raw
