-- ===== src/Image/Verify/Sound.antt =====
-- What an image that `verify_payload` of firmware/family/image_metadata.py takes is known to hold.
use thermocouple.Prelude.{
  ℕ, ◌+◌, ◌-◌, ◌/◌, ◌%◌, ◌≤◌, ◌≡◌, ◌↔◌, inl, inr, true, ◌&&◌, some, List, ◌++◌, leb, arith, ap, ◌∙◌,
  Bool-cases, &&-true,
}
use thermocouple.Image.Failure.{ok, bind-eq-ok}
use thermocouple.Image.Memory.{Memory, has, lookup}
use thermocouple.Image.Decode.{ImageFile, image_bytes}
use thermocouple.Image.Decode.Bounds.{image_bytes-IsImage}
use thermocouple.Image.Identity.{
  Identity, identity_address, identity_bytes, vector_bytes, read_bytes, embedded_identity,
}
use thermocouple.Image.Identity.Fields.{HoldsIdentity, embedded_identity_iff}
use thermocouple.Image.Crc.{crc_hqx}
use thermocouple.Image.Json.{Json, int}
use thermocouple.Image.Verify.{
  max_count, crc_address, count_of, crc_of, has_extent, verify_extent, verify_memory,
  verify_payload,
}
use thermocouple.Image.Verify.Extent.{InExtent, has_extent-extent}
use thermocouple.Image.Verify.Checks.{
  CrcHolds, stored_crc-lookup, count_of-eq-ok, crc_of-eq-ok, verify_crc-CrcHolds,
}

-- `file` is a production image of `n` programmed bytes with the CRC `crc` and the identity `i`.
pub record Verified (file : ImageFile) (n crc : ℕ) (i : Identity) : Type 0 where
  pub memory : Memory
  pub body : ℕ
  pub code : List ℕ
  pub identity : List ℕ
  pub image : image_bytes file ≡ ok memory
  pub holds : HoldsIdentity memory i
  pub size : body + identity_bytes ≡ n
  pub fits : (vector_bytes ≤ body) × (n ≤ max_count)
  pub extent : (a : ℕ) → (has a memory ≡ true) ↔ InExtent body a
  pub code_read : read_bytes memory 0 body ≡ some code
  pub identity_read : read_bytes memory identity_address identity_bytes ≡ some identity
  pub crc_right : crc_hqx (code ++ identity) 0xFFFF ≡ crc
  pub crc_low : lookup crc_address memory ≡ some (crc % 256)
  pub crc_high : lookup (crc_address + 1) memory ≡ some (crc / 256)

verified :
    (file : ImageFile) (n crc : ℕ) (i : Identity) (m : Memory)
    → image_bytes file ≡ ok m
    → embedded_identity m ≡ ok i
    → (leb vector_bytes (n - identity_bytes) && has_extent (n - identity_bytes) m) ≡ true
    → n ≤ max_count
    → CrcHolds m (n - identity_bytes) crc
    → Verified file n crc i
verified file n crc i m image embedded good small holds =
    let body = n - identity_bytes in
    let (least, extent) = &&-true (leb vector_bytes body) (has_extent body m) good in
    let enough : vector_bytes ≤ body = ground (arith, least) in
    let (low, high) = stored_crc-lookup m crc (image_bytes-IsImage file m image) holds.stored in
    record {
      memory = m;
      body = body;
      code = holds.code;
      identity = holds.identity;
      image = image;
      holds = (embedded_identity_iff m i).0 embedded;
      size = omega arith;
      fits = (enough, small);
      extent = λ a. has_extent-extent body a m extent;
      code_read = holds.code_read;
      identity_read = holds.identity_read;
      crc_right = holds.right;
      crc_low = low;
      crc_high = high;
    }

-- Whatever `verify_payload` accepts is a production image: its count and CRC are numbers in their
-- ranges, the programmed addresses are exactly the code and data, the identity record and the CRC,
-- the identity is that of the structure in the flash, and the CRC of the two programmed spans is
-- the expected one and the one stored at the end of the flash.
pub verify_payload-Verified :
    (file : ImageFile) (count expected : Json) (i : Identity)
    → verify_payload file count expected ≡ ok i
    → (n crc : ℕ) × (count ≡ int n) × (expected ≡ int crc) × (crc ≤ 65535) × Verified file n crc i
unfolding verify_payload verify_memory verify_extent
verify_payload-Verified file count expected i h =
    let (n, c, h₁) = bind-eq-ok (count_of count) _ h in
    let (crc, x, h₂) = bind-eq-ok (crc_of expected) _ h₁ in
    let (m, image, h₃) = bind-eq-ok (image_bytes file) _ h₂ in
    let (j, embedded, h₄) = bind-eq-ok (embedded_identity m) _ h₃ in
    let (count_is, _, small) = count_of-eq-ok count n c in
    let (crc_is, word) = crc_of-eq-ok expected crc x in
    elim (Bool-cases (leb vector_bytes (n - identity_bytes) && has_extent (n - identity_bytes) m)) [
      | inl good ↦
          let (holds, same) = verify_crc-CrcHolds m (n - identity_bytes) crc j i (rw good at h₄) in
          (
            n,
            crc,
            count_is,
            crc_is,
            word,
            verified file n crc i m image (embedded ∙ ap ok same) good small holds,
          )
      | inr bad ↦ cc (rw bad at h₄)
    ]
