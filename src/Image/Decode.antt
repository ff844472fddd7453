-- ===== src/Image/Decode.antt =====
-- `image_bytes` of firmware/family/image_metadata.py: Intel HEX text to the bytes at each address.
-- The loop over the lines is recursion on their list, its variables are the fields of `Decoder`.
pub mod Bounds
pub mod Checksum
pub mod EndOfFile
pub mod Encode
pub mod RoundTrip
pub mod Written
use thermocouple.Prelude.{
  ℕ, ◌+◌, ◌-◌, ◌*◌, ◌%◌, ◌^◌, Bool, true, false, not, ◌&&◌, ◌||◌, Option, none, some, List, [], ◌∷◌,
  map, Text, codes, length, drop, all, text_eq, is_space, lower, newlines, split_lines, is_break,
  ◌==◌, leb, ltb, if◌then◌else◌, ◌≡◌, arith, Bool-cases, inl, inr,
}
use thermocouple.Image.Failure.{
  Result, ok, err, ◌>>=◌, bind-eq-ok, not_hex, not_ascii, malformed, checksum, out_of_range,
  unsupported, no_eof,
}
use thermocouple.Image.Memory.{Memory, has}
use thermocouple.Image.Hex.{from_hex}

-- The flash of the ATmega1284P.
abbrev pub image_limit : ℕ
image_limit = 0x20000

pub record Decoder : Type 0 where
  pub memory : Memory
  pub base : ℕ
  pub eof : Bool

abbrev pub start : Decoder
start = record { memory = []; base = 0; eof = false }

-- The bytes of a data record, in order, each at an address that is free and in range.
unfoldable pub store : ℕ → List ℕ → Memory → Result Memory
store target [] m = ok m
store target (v ∷ vs) m =
    let rest = store (target + 1) vs ((target, v) ∷ m) in
    if leb image_limit target || has target m then err out_of_range else rest

-- int.from_bytes(data, "big"), in front of `acc`
unfoldable pub big_endian : ℕ → List ℕ → ℕ
big_endian acc [] = acc
big_endian acc (v ∷ vs) = big_endian (acc * 256 + v) vs

-- xs[:-1]
unfoldable pub drop_last : List ℕ → List ℕ
drop_last [] = []
drop_last (x ∷ []) = []
drop_last (x ∷ y ∷ r) = x ∷ drop_last (y ∷ r)

unfoldable pub sum : List ℕ → ℕ
sum [] = 0
sum (x ∷ xs) = x + sum xs

-- The branches on the kind of a record.
unfoldable pub apply_record : Decoder → ℕ → ℕ → ℕ → List ℕ → Result Decoder
unfolding store big_endian
apply_record d size address kind bytes =
    if kind == 0
    then (do m ← store (d.base + address) bytes d.memory; ok (record d { memory = m }))
    else if kind == 1 && size == 0 && address == 0
    then ok (record d { eof = true })
    else if (kind == 2 || kind == 4) && size == 2 && address == 0
    then ok (record d { base = big_endian 0 bytes * 2 ^ (if kind == 2 then 4 else 16) })
    else if (kind == 3 || kind == 5) && size == 4 && address == 0
    then ok d
    else err unsupported

-- The tests on the length and the sum of a record, and its fields.
unfoldable pub decode_record : Decoder → List ℕ → Result Decoder
unfolding apply_record drop_last sum
decode_record d (size ∷ high ∷ low ∷ kind ∷ x ∷ xs) =
    if length (size ∷ high ∷ low ∷ kind ∷ x ∷ xs) == size + 5
      && sum (size ∷ high ∷ low ∷ kind ∷ x ∷ xs) % 256 == 0
    then apply_record d size (high * 256 + low) kind (drop_last (x ∷ xs))
    else err checksum
decode_record d _ = err checksum

-- A line that is not blank.
unfoldable pub decode_marked : Decoder → Text → Result Decoder
unfolding decode_record from_hex
decode_marked d [] = err malformed
decode_marked d (c ∷ line) =
    if d.eof || not (c == b':')
    then err malformed
    else do bytes ← from_hex line; decode_record d bytes

unfoldable pub decode_line : Decoder → Text → Result Decoder
unfolding decode_marked all is_space
decode_line d line = if all is_space line then ok d else decode_marked d line

unfoldable pub decode_lines : Decoder → List Text → Result Decoder
unfolding decode_line
decode_lines d [] = ok d
decode_lines d (line ∷ lines) = do d' ← decode_line d line; decode_lines d' lines

-- The index of the last dot, or what was found before.
last_dot : ℕ → Option ℕ → Text → Option ℕ
last_dot i found [] = found
last_dot i found (c ∷ r) = last_dot (i + 1) (if c == b'.' then some i else found) r

-- `path.suffix` of a file name: from its last dot, unless that is its first or last character.
unfoldable pub suffix : Text → Text
unfolding last_dot
suffix name = elim (last_dot 0 none name) [
  | none ↦ []
  | some i ↦ if ltb 0 i && ltb i (length name - 1) then drop i name else []
]

pub record ImageFile : Type 0 where
  pub name : Text
  pub content : List ℕ

-- `path.read_text(encoding="ascii").splitlines()`
unfoldable pub read_lines : List ℕ → Result (List Text)
unfolding all newlines split_lines is_break
read_lines content =
    if all (λ c. ltb c 128) content then ok (split_lines [] (newlines content)) else err not_ascii

-- What is left when the lines are read.
unfoldable pub finish : Decoder → Result Memory
finish d = if d.eof then ok d.memory else err no_eof

unfoldable pub decode_text : List Text → Result Memory
unfolding decode_lines finish
decode_text lines = do d ← decode_lines start lines; finish d

unfoldable pub image_bytes : ImageFile → Result Memory
unfolding suffix lower text_eq read_lines decode_text
image_bytes file =
    if text_eq (map lower (suffix file.name)) (codes ".hex")
    then (do lines ← read_lines file.content; decode_text lines)
    else err not_hex

-- What an accepted file went through.
pub record Accepted (file : ImageFile) (m : Memory) : Type 0 where
  pub lines : List Text
  pub last : Decoder
  pub read : read_lines file.content ≡ ok lines
  pub run : decode_lines start lines ≡ ok last
  pub ended : last.eof ≡ true
  pub memory : last.memory ≡ m

pub finish-eq-ok : (d : Decoder) (m : Memory) → finish d ≡ ok m → (d.eof ≡ true) × (d.memory ≡ m)
unfolding finish
finish-eq-ok d m h = ground arith

pub image_bytes-Accepted :
    (file : ImageFile) (m : Memory) → image_bytes file ≡ ok m → Accepted file m
unfolding image_bytes decode_text
image_bytes-Accepted file m h =
    elim (Bool-cases (text_eq (map lower (suffix file.name)) (codes ".hex"))) [
      | inl named ↦
          let (lines, read, decoded) =
            bind-eq-ok (read_lines file.content) decode_text (rw named at h) in
          let (last, run, ended) = bind-eq-ok (decode_lines start lines) finish decoded in
          record {
            lines = lines;
            last = last;
            read = read;
            run = run;
            ended = (finish-eq-ok last m ended).0;
            memory = (finish-eq-ok last m ended).1;
          }
      | inr other ↦ cc (rw other at h)
    ]
