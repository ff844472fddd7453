-- ===== src/Image/Decode/Checksum.antt =====
-- The record checksum of firmware/family/image_metadata.py: one wrong byte never passes.
use thermocouple.Prelude.{
  ℕ, ◌+◌, ◌%◌, ◌<◌, ◌≡◌, refl, ◌≢◌, ◌&&◌, inl, inr, List, [], ◌∷◌, ◌++◌, length, ◌==◌, arith,
  Bool-cases,
}
use thermocouple.Image.Failure.{ok, err, checksum}
use thermocouple.Image.Decode.{Decoder, sum, decode_record}

pub sum-append : (xs ys : List ℕ) → sum (xs ++ ys) ≡ sum xs + sum ys
unfolding sum
sum-append [] ys = omega arith
sum-append (x ∷ xs) ys = omega (arith, sum-append xs ys)

-- The bytes of a record that is taken sum to 0 modulo 256.
sum-decode_record :
    (d d' : Decoder) (bytes : List ℕ) → decode_record d bytes ≡ ok d' → sum bytes % 256 ≡ 0
unfolding decode_record
sum-decode_record d d' (size ∷ high ∷ low ∷ kind ∷ x ∷ xs) h =
    let bytes : List ℕ = size ∷ high ∷ low ∷ kind ∷ x ∷ xs in
    elim (Bool-cases (length bytes == size + 5 && sum bytes % 256 == 0)) [
      | inl good ↦ ground (arith, good)
      | inr bad ↦ cc (rw bad at h)
    ]
sum-decode_record d d' _ h = cc

decode_record_bad_sum :
    (d : Decoder) (bytes : List ℕ) → sum bytes % 256 ≢ 0 → decode_record d bytes ≡ err checksum
unfolding decode_record
decode_record_bad_sum d (size ∷ high ∷ low ∷ kind ∷ x ∷ xs) h =
    let bytes : List ℕ = size ∷ high ∷ low ∷ kind ∷ x ∷ xs in
    elim (Bool-cases (length bytes == size + 5 && sum bytes % 256 == 0)) [
      | inl good ↦ absurd (h (ground (arith, good)))
      | inr bad ↦ rw bad
    ]
decode_record_bad_sum d _ h = refl

-- If a record is taken, the record with one byte changed is refused, whichever byte it is.
pub decode_record_one_wrong_byte :
    (d d' : Decoder) (before after : List ℕ) (b c : ℕ)
    → b < 256
    → c < 256
    → b ≢ c
    → decode_record d (before ++ b ∷ after) ≡ ok d'
    → decode_record d (before ++ c ∷ after) ≡ err checksum
unfolding sum
decode_record_one_wrong_byte d d' before after b c hb hc ne h =
    let total = sum-decode_record d d' (before ++ b ∷ after) h in
    decode_record_bad_sum d (before ++ c ∷ after)
      (omega (arith, sum-append before (b ∷ after), sum-append before (c ∷ after)))
