-- ===== src/Image/Verify.antt =====
-- `verify_payload` of firmware/family/image_metadata.py: the extent of an image, its boot CRC and
-- its identity.
pub mod Extent
pub mod Checks
pub mod Sound
pub mod Complete
use Prim.Native.Nat.{bit_or}
use thermocouple.Prelude.{
  ℕ, zero, suc, ◌+◌, ◌-◌, ◌*◌, ◌^◌, Bool, true, false, not, ◌&&◌, ◌||◌, Option, none, some, List,
  [], ◌∷◌, ◌++◌, ◌==◌, leb, ltb, if◌then◌else◌,
}
use thermocouple.Image.Failure.{
  Result, ok, err, ◌>>=◌, bad_count, bad_crc, extent, boot_crc, key_error,
}
use thermocouple.Image.Memory.{Memory, has, lookup}
use thermocouple.Image.Decode.{ImageFile, image_bytes}
use thermocouple.Image.Identity.{
  Identity, identity_address, identity_bytes, vector_bytes, read_bytes, embedded_identity,
}
use thermocouple.Image.Crc.{crc_hqx}
use thermocouple.Image.Json.{Json, int}

abbrev pub max_count : ℕ
max_count = 98302

-- Where the boot CRC is stored, low byte first.
abbrev pub crc_address : ℕ
crc_address = 0x1FFFE

-- `type(count) is int and 0 < count <= 98302`; True and False are of another type.
unfoldable pub count_of : Json → Result ℕ
count_of (int n) = if ltb 0 n && leb n max_count then ok n else err bad_count
count_of _ = err bad_count

-- `type(expected) is int and 0 <= expected <= 65535`
unfoldable pub crc_of : Json → Result ℕ
crc_of (int n) = if leb n 65535 then ok n else err bad_crc
crc_of _ = err bad_crc

-- a in set(range(body)) | set(range(IDENTITY_ADDRESS, ...)) | {0x1FFFE, 0x1FFFF}
unfoldable pub in_extent : ℕ → ℕ → Bool
in_extent body a =
    ltb a body
    || (leb identity_address a && ltb a (identity_address + identity_bytes))
    || a == crc_address
    || a == crc_address + 1

-- Every address of the memory is in the extent.
unfoldable pub all_in_extent : ℕ → Memory → Bool
all_in_extent body [] = true
all_in_extent body ((a, v) ∷ m) = in_extent body a && all_in_extent body m

-- Every one of `count` addresses from `a` on is in the memory.
unfoldable pub has_range : Memory → ℕ → ℕ → Bool
has_range m a zero = true
has_range m a (suc count) = has a m && has_range m (a + 1) count

-- The two sets are equal: each lies in the other.
unfoldable pub has_extent : ℕ → Memory → Bool
has_extent body m =
    all_in_extent body m
    && has_range m 0 body
    && has_range m identity_address identity_bytes
    && has_range m crc_address 2

unfoldable pub or_key {ℓ} : {A : Type ℓ} → Option A → Result A
or_key none = err key_error
or_key (some a) = ok a

-- The CRC over the code and data, then the identity.
unfoldable pub calculated_crc : Memory → ℕ → Result ℕ
calculated_crc m body = do
  code ← or_key (read_bytes m 0 body)
  identity ← or_key (read_bytes m identity_address identity_bytes)
  ok (crc_hqx (code ++ identity) 0xFFFF)

unfoldable pub stored_crc : Memory → Result ℕ
stored_crc m = do
  low ← or_key (lookup crc_address m)
  high ← or_key (lookup (crc_address + 1) m)
  ok (bit_or low (high * 2 ^ 8))

unfoldable pub verify_crc : Memory → ℕ → ℕ → Identity → Result Identity
verify_crc m body expected identity = do
  calculated ← calculated_crc m body
  stored ← stored_crc m
  if calculated == expected && stored == calculated then ok identity else err boot_crc

-- `count - IDENTITY_BYTES` may be negative in the source, and is then below `vector_bytes` too.
unfoldable pub verify_extent : Memory → ℕ → ℕ → Identity → Result Identity
verify_extent m n expected identity =
    let body = n - identity_bytes in
    if leb vector_bytes body && has_extent body m
    then verify_crc m body expected identity
    else err extent

unfoldable pub verify_memory : ℕ → ℕ → Memory → Result Identity
verify_memory n expected m = do identity ← embedded_identity m; verify_extent m n expected identity

unfoldable pub verify_payload : ImageFile → Json → Json → Result Identity
verify_payload file count expected = do
  n ← count_of count
  crc ← crc_of expected
  m ← image_bytes file
  verify_memory n crc m
