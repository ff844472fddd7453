-- ===== src/Image/Decode/Encode.antt =====
-- A writer of Intel HEX files, for the round trip of `image_bytes` in
-- firmware/family/image_metadata.py. The repository's images are written by the AVR tools.
use thermocouple.Prelude.{ℕ, ◌+◌, ◌-◌, ◌*◌, ◌^◌, ◌/◌, ◌%◌, ◌<◌, List, [], ◌∷◌, ◌++◌, Text, length}
use thermocouple.Image.Memory.{Memory}
use thermocouple.Image.Hex.{to_hex, IsBytes}
use thermocouple.Image.Decode.{sum}

-- The byte that makes a record sum to 0.
unfoldable pub check_byte : List ℕ → ℕ
unfolding sum
check_byte body = (256 - sum body % 256) % 256

unfoldable pub record_bytes : ℕ → ℕ → List ℕ → List ℕ
unfolding check_byte
record_bytes kind address bytes =
    let body = length bytes ∷ address / 256 ∷ address % 256 ∷ kind ∷ bytes in
    length bytes ∷ address / 256 ∷ address % 256 ∷ kind ∷ (bytes ++ check_byte body ∷ [])

unfoldable pub record_line : ℕ → ℕ → List ℕ → Text
record_line kind address bytes = b':' ∷ to_hex (record_bytes kind address bytes)

-- Bytes at `upper * 65536 + address`.
pub record Block : Type 0 where
  pub upper : ℕ
  pub address : ℕ
  pub bytes : List ℕ

abbrev pub Fits : Block → Type 0
Fits b = (b.upper < 65536) × (b.address < 65536) × (length b.bytes < 256) × IsBytes b.bytes

-- Every block has an extended linear address record and a data record; the end record is last.
unfoldable pub encode_lines : List Block → List Text
unfolding record_line
encode_lines [] = record_line 1 0 [] ∷ []
encode_lines (b ∷ bs) =
    record_line 4 0 (b.upper / 256 ∷ b.upper % 256 ∷ [])
    ∷ record_line 0 b.address b.bytes
    ∷ encode_lines bs

-- Lines, each closed by "\n".
unfoldable pub join : List Text → Text
join [] = []
join (line ∷ lines) = line ++ 10 ∷ join lines

-- The memory that the blocks describe.
unfoldable pub put_bytes : ℕ → List ℕ → Memory → Memory
put_bytes target [] m = m
put_bytes target (v ∷ vs) m = put_bytes (target + 1) vs ((target, v) ∷ m)

unfoldable pub put_blocks : List Block → Memory → Memory
unfolding put_bytes
put_blocks [] m = m
put_blocks (b ∷ bs) m = put_blocks bs (put_bytes (b.upper * 2 ^ 16 + b.address) b.bytes m)
