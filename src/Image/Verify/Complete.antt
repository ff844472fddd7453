-- ===== src/Image/Verify/Complete.antt =====
-- `verify_payload` of firmware/family/image_metadata.py takes every production image.
use thermocouple.Prelude.{
  ℕ, zero, suc, ◌+◌, ◌-◌, ◌/◌, ◌%◌, ◌≤◌, ◌<◌, ◌≡◌, refl, ◌↔◌, inl, inr, true, ◌&&◌, leb, ltb, arith,
  ap, ◌∙◌, [], ◌∷◌, ≡→==, and_four_intro, bit_or-bytes,
}
use thermocouple.Image.Failure.{ok}
use thermocouple.Image.Memory.{Memory, has, lookup-IsImage}
use thermocouple.Image.Decode.{ImageFile, image_limit}
use thermocouple.Image.Decode.Bounds.{image_bytes-IsImage}
use thermocouple.Image.Identity.{Identity, identity_address, identity_bytes, vector_bytes}
use thermocouple.Image.Identity.Fields.{embedded_identity_iff}
use thermocouple.Image.Json.{int}
use thermocouple.Image.Verify.{
  max_count, crc_address, count_of, crc_of, in_extent, all_in_extent, has_range, has_extent, or_key,
  calculated_crc, stored_crc, verify_crc, verify_extent, verify_memory, verify_payload,
}
use thermocouple.Image.Verify.Extent.{InExtent}
use thermocouple.Image.Verify.Sound.{Verified}

InExtent-in_extent : (body a : ℕ) → InExtent body a → in_extent body a ≡ true
unfolding in_extent
InExtent-in_extent body a h = ground arith

has-cons : (a b v : ℕ) (m : Memory) → has a m ≡ true → has a ((b, v) ∷ m) ≡ true
unfolding has
has-cons a b v m h = ground arith

has-head : (b v : ℕ) (m : Memory) → has b ((b, v) ∷ m) ≡ true
unfolding has
has-head b v m = ground arith

all_in_extent_intro :
    (body : ℕ) (m : Memory)
    → ((a : ℕ) → has a m ≡ true → in_extent body a ≡ true)
    → all_in_extent body m ≡ true
unfolding all_in_extent
all_in_extent_intro body [] h = refl
all_in_extent_intro body ((b, v) ∷ m) h =
    rw (h b (has-head b v m)) (all_in_extent_intro body m (λ a k. h a (has-cons a b v m k)))

has_range_intro :
    (m : Memory) (from count : ℕ)
    → ((a : ℕ) → from ≤ a → a < from + count → has a m ≡ true)
    → has_range m from count ≡ true
unfolding has_range
has_range_intro m from zero h = refl
has_range_intro m from (suc count) h =
    rw (h from (omega arith) (omega arith))
      (has_range_intro m (from + 1) count (λ a lo hi. h a (omega arith) (omega arith)))

has_extent_intro :
    (body : ℕ) (m : Memory)
    → ((a : ℕ) → (has a m ≡ true) ↔ InExtent body a)
    → has_extent body m ≡ true
unfolding has_extent
has_extent_intro body m h =
    and_four_intro (all_in_extent_intro body m (λ a k. InExtent-in_extent body a ((h a).0 k)))
      (has_range_intro m 0 body (λ a lo hi. (h a).1 (inl (omega (arith, hi)))))
      (has_range_intro m identity_address identity_bytes (λ a lo hi. (h a).1 (inr (inl (lo, hi)))))
      (has_range_intro m crc_address 2 (λ a lo hi. (h a).1 (omega arith)))

module _ (file : ImageFile) (n crc : ℕ) (i : Identity) (v : Verified file n crc i) where
  open v use {memory, body}

  stored : stored_crc memory ≡ ok crc
  unfolding stored_crc or_key
  stored =
      let image = image_bytes-IsImage file memory v.image in
      let high = (lookup-IsImage image_limit (crc_address + 1) _ memory image v.crc_high).1 in
      rw (v.crc_low, v.crc_high)
        (ap ok (bit_or-bytes (crc % 256) (crc / 256) (omega arith) high ∙ omega arith))

  calculated : calculated_crc memory body ≡ ok crc
  unfolding calculated_crc or_key
  calculated = rw (v.code_read, v.identity_read) (ap ok v.crc_right)

  crc_stage : verify_crc memory body crc i ≡ ok i
  unfolding verify_crc
  crc_stage = rw (calculated, stored) (rw (≡→== crc crc refl))

  body_is : body ≡ n - identity_bytes
  body_is = omega (arith, v.size)

  extent_stage : verify_extent memory n crc i ≡ ok i
  unfolding verify_extent
  extent_stage = rw (← body_is) (rw (enough, has_extent_intro body memory v.extent) crc_stage)
    where
      enough : leb vector_bytes body ≡ true
      enough = ground (arith, v.fits.0)

  memory_stage : verify_memory n crc memory ≡ ok i
  unfolding verify_memory
  memory_stage = rw ((embedded_identity_iff memory i).1 v.holds) extent_stage

  -- A production image is accepted with its byte count and its CRC, and its identity is returned.
  pub Verified-verify_payload : crc ≤ 65535 → verify_payload file (int n) (int crc) ≡ ok i
  unfolding verify_payload count_of crc_of
  Verified-verify_payload word = rw (v.image, counted, worded) memory_stage
    where
      counted : (ltb 0 n && leb n max_count) ≡ true
      counted = ground (arith, v.fits.0, v.fits.1, v.size)

      worded : leb crc 65535 ≡ true
      worded = ground arith
