-- ===== src/Image/Decode/Written.antt =====
-- The round trip of `image_bytes` in firmware/family/image_metadata.py for whole files: the text of
-- written blocks is read back to the memory that the blocks describe.
use thermocouple.Prelude.{
  ℕ, ◌/◌, ◌%◌, ◌<◌, ◌≡◌, refl, true, false, List, [], ◌∷◌, ◌++◌, map, length, All, All-append, Text,
  codes, all, text_eq, is_break, lower, newlines, split_lines, ltb, ◌==◌, arith, ap, ◌∙◌, ◌⊎◌, inl,
  inr,
}
use mathlib.Core.List.{reverse_aux}
use thermocouple.Image.Failure.{ok}
use thermocouple.Image.Memory.{Memory, IsImage}
use thermocouple.Image.Hex.{to_hex, digit_code, IsBytes}
use thermocouple.Image.Decode.{
  image_limit, start, suffix, read_lines, decode_lines, decode_text, image_bytes,
}
use thermocouple.Image.Decode.Encode.{Block, Fits, record_line, encode_lines, join, put_blocks}
use thermocouple.Image.Decode.RoundTrip.{record_bytes-IsBytes, decode_lines-encode_lines}

-- The characters of a written line: none is a line break or white space, and all are ASCII.
abbrev IsPlain : Text → Type 0
IsPlain = All (λ c. (32 < c) × (c < 128))

digit_code-plain : (d : ℕ) → d < 16 → (32 < digit_code d) × (digit_code d < 128)
unfolding digit_code
digit_code-plain d h = ground arith

to_hex-IsPlain : (bytes : List ℕ) → IsBytes bytes → IsPlain (to_hex bytes)
unfolding to_hex
to_hex-IsPlain [] h = tt
to_hex-IsPlain (v ∷ vs) h = (
  digit_code-plain (v / 16) (omega (arith, h.0)),
  (digit_code-plain (v % 16) (omega arith), to_hex-IsPlain vs h.1),
)

record_line-IsPlain :
    (kind address : ℕ) (bytes : List ℕ)
    → kind < 256
    → address < 65536
    → length bytes < 256
    → IsBytes bytes
    → IsPlain (record_line kind address bytes)
unfolding record_line
record_line-IsPlain kind address bytes k a l b =
    (omega arith, to_hex-IsPlain _ (record_bytes-IsBytes kind address bytes k a l b))

encode_lines-IsPlain : (bs : List Block) → All Fits bs → All IsPlain (encode_lines bs)
unfolding encode_lines
encode_lines-IsPlain [] h =
    (record_line-IsPlain 1 0 [] (omega arith) (omega arith) (omega arith) tt, tt)
encode_lines-IsPlain (b ∷ bs) h =
    let (u, a, l, v) = h.0 in
    (
      record_line-IsPlain 4 0 (b.upper / 256 ∷ b.upper % 256 ∷ []) (omega arith) (omega arith)
          (omega arith) (omega arith),
      (record_line-IsPlain 0 b.address b.bytes (omega arith) a l v, encode_lines-IsPlain bs h.1),
    )

-- Text with no "\r" that is ASCII.
abbrev IsUnix : Text → Type 0
IsUnix = All (λ c. ((13 < c) ⊎ (c ≡ 10)) × (c < 128))

is_break-plain : (c : ℕ) → 32 < c → is_break c ≡ false
unfolding is_break
is_break-plain c h = ground arith

not_return : (c : ℕ) → (13 < c) ⊎ (c ≡ 10) → (c == 13) ≡ false
not_return c h = ground arith

plain-IsUnix : (line : Text) → IsPlain line → IsUnix line
plain-IsUnix [] h = tt
plain-IsUnix (c ∷ line) h = ((inl (omega (arith, h.0.0)), h.0.1), plain-IsUnix line h.1)

is_break-newline : is_break 10 ≡ true
unfolding is_break
is_break-newline = refl

split_lines-break :
    (done rest : Text) → split_lines done (10 ∷ rest) ≡ reverse_aux done [] ∷ split_lines [] rest
unfolding split_lines
split_lines-break done rest = rw (is_break-newline, split_lines)

split_lines-plain :
    (c : ℕ) (done rest : Text) → 32 < c → split_lines done (c ∷ rest) ≡ split_lines (c ∷ done) rest
unfolding split_lines
split_lines-plain c done rest h = rw (is_break-plain c h, split_lines)

split_lines-line :
    (done line rest : Text)
    → IsPlain line
    → split_lines done (line ++ 10 ∷ rest) ≡ reverse_aux done line ∷ split_lines [] rest
split_lines-line done [] rest h = split_lines-break done rest
split_lines-line done (c ∷ line) rest h =
    split_lines-plain c done (line ++ 10 ∷ rest) h.0.0 ∙ split_lines-line (c ∷ done) line rest h.1

split_lines-join : (lines : List Text) → All IsPlain lines → split_lines [] (join lines) ≡ lines
unfolding join
split_lines-join [] h = unfold split_lines in refl
split_lines-join (line ∷ lines) h =
    split_lines-line [] line (join lines) h.0
    ∙ ap (λ (t : List Text). line ∷ t) (split_lines-join lines h.1)

newlines-IsUnix : (t : Text) → IsUnix t → newlines t ≡ t
unfolding newlines
newlines-IsUnix [] h = refl
newlines-IsUnix (c ∷ []) h = ground (arith, h.0.0)
newlines-IsUnix (c ∷ d ∷ r) h =
    rw (not_return c h.0.0, newlines) (ap (λ (t : Text). c ∷ t) (newlines-IsUnix (d ∷ r) h.1))

join-IsUnix : (lines : List Text) → All IsPlain lines → IsUnix (join lines)
unfolding join
join-IsUnix [] h = tt
join-IsUnix (line ∷ lines) h =
    All-append _ line (10 ∷ join lines) (plain-IsUnix line h.0)
      ((inr refl, omega arith), join-IsUnix lines h.1)

IsUnix-ascii : (t : Text) → IsUnix t → all (λ c. ltb c 128) t ≡ true
unfolding all
IsUnix-ascii [] h = refl
IsUnix-ascii (c ∷ t) h = ground (arith, h.0.1, IsUnix-ascii t h.1)

read_lines-join : (lines : List Text) → All IsPlain lines → read_lines (join lines) ≡ ok lines
unfolding read_lines
read_lines-join lines h =
    let u = join-IsUnix lines h in
    rw (IsUnix-ascii _ u, newlines-IsUnix _ u, split_lines-join lines h)

decode_text-run :
    (lines : List Text) (m : Memory) (base : ℕ)
    → decode_lines start lines ≡ ok (record { memory = m; base = base; eof = true })
    → decode_text lines ≡ ok m
unfolding decode_text
decode_text-run lines m base run = rw run

-- Blocks that fit, whose bytes are at different addresses below the end of the flash, are read
-- back from the file that is written for them, under any name that ends in ".hex", in any case.
pub image_bytes-encode :
    (name : Text) (bs : List Block)
    → text_eq (map lower (suffix name)) (codes ".hex") ≡ true
    → All Fits bs
    → IsImage image_limit (put_blocks bs [])
    → image_bytes (record { name = name; content = join (encode_lines bs) }) ≡ ok (put_blocks bs [])
unfolding image_bytes
image_bytes-encode name bs named fits i =
    let (base, run) = decode_lines-encode_lines start bs refl fits i in
    rw (named, read_lines-join (encode_lines bs) (encode_lines-IsPlain bs fits))
      (decode_text-run (encode_lines bs) (put_blocks bs []) base run)
