-- ===== src/Image/Decode/RoundTrip.antt =====
-- Reading what was written: `image_bytes` of firmware/family/image_metadata.py on the files of
-- `Encode`.
use thermocouple.Prelude.{
  ℕ, ◌+◌, ◌-◌, ◌*◌, ◌/◌, ◌%◌, ◌^◌, ◌<◌, ◌≡◌, refl, Bool, true, false, ◌&&◌, ◌||◌, List, [], ◌∷◌,
  ◌++◌, length, length-append, All, All-append, Text, ◌==◌, leb, arith, ap, ◌∙◌, if◌then◌else◌,
}
use thermocouple.Image.Failure.{Result, ok, err, malformed}
use thermocouple.Image.Memory.{Memory, has, IsImage}
use thermocouple.Image.Hex.{from_hex, to_hex, from_hex-to_hex, IsBytes}
use thermocouple.Image.Decode.{
  Decoder, image_limit, sum, drop_last, store, apply_record, decode_record, decode_marked,
  decode_line, decode_lines,
}
use thermocouple.Image.Decode.Encode.{
  Block, Fits, check_byte, record_bytes, record_line, encode_lines, put_bytes, put_blocks,
}
use thermocouple.Image.Decode.Checksum.{sum-append}

drop_last-append : (xs : List ℕ) (c : ℕ) → drop_last (xs ++ c ∷ []) ≡ xs
unfolding drop_last
drop_last-append [] c = refl
drop_last-append (x ∷ []) c = refl
drop_last-append (x ∷ y ∷ r) c = ap (λ (t : List ℕ). x ∷ t) (drop_last-append (y ∷ r) c)

sum-check_byte :
    (a b c d : ℕ) (bytes : List ℕ)
    → sum (a ∷ b ∷ c ∷ d ∷ (bytes ++ check_byte (a ∷ b ∷ c ∷ d ∷ bytes) ∷ [])) % 256 ≡ 0
unfolding check_byte
sum-check_byte a b c d bytes =
    let k = (256 - (a + (b + (c + (d + sum bytes)))) % 256) % 256 in
    omega (arith, sum-append bytes (k ∷ []))

checks_pass :
    (n size total : ℕ) → n ≡ size + 5 → total % 256 ≡ 0 → (n == size + 5 && total % 256 == 0) ≡ true
checks_pass n size total h k = ground arith

-- A record that passes both tests is applied with its last byte taken off.
decode_record_parts :
    (d : Decoder) (size high low kind c : ℕ) (bytes : List ℕ)
    → length bytes ≡ size
    → sum (size ∷ high ∷ low ∷ kind ∷ (bytes ++ c ∷ [])) % 256 ≡ 0
    → decode_record d (size ∷ high ∷ low ∷ kind ∷ (bytes ++ c ∷ []))
      ≡ apply_record d size (high * 256 + low) kind bytes
unfolding decode_record
decode_record_parts d size high low kind c [] l s = rw (checks_pass 5 size _ (omega arith) s)
decode_record_parts d size high low kind c (x ∷ xs) l s =
    rw
      (checks_pass (length (size ∷ high ∷ low ∷ kind ∷ x ∷ (xs ++ c ∷ []))) size _
        (omega (arith, length-append xs (c ∷ []))) s)
      (ap (apply_record d size (high * 256 + low) kind) (drop_last-append (x ∷ xs) c))

decode_record-record_bytes :
    (d : Decoder) (kind address : ℕ) (bytes : List ℕ)
    → decode_record d (record_bytes kind address bytes)
      ≡ apply_record d (length bytes) address kind bytes
unfolding record_bytes
decode_record-record_bytes d kind address bytes =
    let body = length bytes ∷ address / 256 ∷ address % 256 ∷ kind ∷ bytes in
    decode_record_parts d (length bytes) (address / 256) (address % 256) kind (check_byte body)
      bytes refl (sum-check_byte (length bytes) (address / 256) (address % 256) kind bytes)
    ∙ ap (λ (a : ℕ). apply_record d (length bytes) a kind bytes) (omega arith)

pub record_bytes-IsBytes :
    (kind address : ℕ) (bytes : List ℕ)
    → kind < 256
    → address < 65536
    → length bytes < 256
    → IsBytes bytes
    → IsBytes (record_bytes kind address bytes)
unfolding record_bytes check_byte
record_bytes-IsBytes kind address bytes k a l b =
    (l, (omega arith, (omega arith, (k, All-append _ bytes _ b (omega arith, tt)))))

unmarked_branch :
    (eof : Bool) (x : Result Decoder)
    → eof ≡ false
    → (if eof || false then err malformed else x) ≡ x
unmarked_branch eof x h = rw h

decode_line_marked :
    (d : Decoder) (line : Text) (bytes : List ℕ)
    → d.eof ≡ false
    → from_hex line ≡ ok bytes
    → decode_line d (b':' ∷ line) ≡ decode_record d bytes
unfolding decode_line decode_marked
decode_line_marked d line bytes still read =
    rw read (unmarked_branch d.eof (decode_record d bytes) still)

-- Reading one written line.
decode_line-record_line :
    (d : Decoder) (kind address : ℕ) (bytes : List ℕ)
    → d.eof ≡ false
    → kind < 256
    → address < 65536
    → length bytes < 256
    → IsBytes bytes
    → decode_line d (record_line kind address bytes)
      ≡ apply_record d (length bytes) address kind bytes
unfolding record_line
decode_line-record_line d kind address bytes still k a l b =
    decode_line_marked d (to_hex (record_bytes kind address bytes))
      (record_bytes kind address bytes) still
      (from_hex-to_hex _ (record_bytes-IsBytes kind address bytes k a l b))
    ∙ decode_record-record_bytes d kind address bytes

-- Writing bytes below an image that is well formed.
IsImage-put_bytes :
    (target : ℕ) (bytes : List ℕ) (m : Memory)
    → IsImage image_limit (put_bytes target bytes m)
    → IsImage image_limit m
unfolding put_bytes
IsImage-put_bytes target [] m i = i
IsImage-put_bytes target (v ∷ vs) m i = (IsImage-put_bytes (target + 1) vs ((target, v) ∷ m) i).3

IsImage-put_blocks :
    (bs : List Block) (m : Memory) → IsImage image_limit (put_blocks bs m) → IsImage image_limit m
unfolding put_blocks
IsImage-put_blocks [] m i = i
IsImage-put_blocks (b ∷ bs) m i =
    IsImage-put_bytes (b.upper * 2 ^ 16 + b.address) b.bytes m (IsImage-put_blocks bs _ i)

free :
    (target : ℕ) (m : Memory)
    → target < image_limit
    → has target m ≡ false
    → (leb image_limit target || has target m) ≡ false
free target m h k = ground arith

store-put_bytes :
    (target : ℕ) (bytes : List ℕ) (m : Memory)
    → IsImage image_limit (put_bytes target bytes m)
    → store target bytes m ≡ ok (put_bytes target bytes m)
unfolding put_bytes store
store-put_bytes target [] m i = refl
store-put_bytes target (v ∷ vs) m i =
    let head = IsImage-put_bytes (target + 1) vs ((target, v) ∷ m) i in
    rw (free target m head.0 head.2) (store-put_bytes (target + 1) vs ((target, v) ∷ m) i)

apply_record-base :
    (d : Decoder) (upper : ℕ)
    → apply_record d 2 0 4 (upper / 256 ∷ upper % 256 ∷ [])
      ≡ ok (record d { base = upper * 2 ^ 16 })
unfolding apply_record
apply_record-base d upper = ap (λ (n : ℕ). ok (record d { base = n })) (omega arith)

apply_record-bytes :
    (d : Decoder) (size address : ℕ) (bytes : List ℕ)
    → IsImage image_limit (put_bytes (d.base + address) bytes d.memory)
    → apply_record d size address 0 bytes
      ≡ ok (record d { memory = put_bytes (d.base + address) bytes d.memory })
unfolding apply_record
apply_record-bytes d size address bytes i = rw (store-put_bytes (d.base + address) bytes d.memory i)

apply_record-end : (d : Decoder) → apply_record d 0 0 1 [] ≡ ok (record d { eof = true })
unfolding apply_record
apply_record-end d = refl

decode_lines-nil : (d : Decoder) → decode_lines d [] ≡ ok d
unfolding decode_lines
decode_lines-nil d = refl

cons_line :
    (d next last : Decoder) (line : Text) (lines : List Text)
    → decode_line d line ≡ ok next
    → decode_lines next lines ≡ ok last
    → decode_lines d (line ∷ lines) ≡ ok last
unfolding decode_lines
cons_line d next last line lines step rest = rw step rest

-- Reading the lines of blocks that fit.
pub decode_lines-encode_lines :
    (d : Decoder) (bs : List Block)
    → d.eof ≡ false
    → All Fits bs
    → IsImage image_limit (put_blocks bs d.memory)
    → (base : ℕ) × (decode_lines d (encode_lines bs)
        ≡ ok (record { memory = put_blocks bs d.memory; base = base; eof = true }))
unfolding encode_lines put_blocks
decode_lines-encode_lines d [] still fits i =
    let last = record d { eof = true } in
    (
      d.base,
      cons_line d last last (record_line 1 0 []) []
          (decode_line-record_line d 1 0 [] still (omega arith) (omega arith) (omega arith) tt
            ∙ apply_record-end d)
          (decode_lines-nil last),
    )
decode_lines-encode_lines d (b ∷ bs) still fits i =
    let (u, a, l, v) = fits.0 in
    let based = record d { base = b.upper * 2 ^ 16 } in
    let stored = record based {
      memory = put_bytes (b.upper * 2 ^ 16 + b.address) b.bytes d.memory;
    } in
    let (base, rest) = decode_lines-encode_lines stored bs still fits.1 i in
    (
      base,
      cons_line d based _ _ _
          (decode_line-record_line d 4 0 (b.upper / 256 ∷ b.upper % 256 ∷ []) still (omega arith)
              (omega arith) (omega arith) (omega arith)
            ∙ apply_record-base d b.upper)
          (cons_line based stored _ _ (encode_lines bs)
            (decode_line-record_line based 0 b.address b.bytes still (omega arith) a l v
              ∙ apply_record-bytes based (length b.bytes) b.address b.bytes
                  (IsImage-put_blocks bs _ i))
            rest),
    )
