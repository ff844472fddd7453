-- ===== src/Image/Tests.antt =====
-- Runs of firmware/family/image_metadata.py's functions on a small production image: 140 bytes of
-- code, the identity of version 1.2.10 built from a dirty tree, and the boot CRC.
use thermocouple.Prelude.{
  ℕ, ◌≤◌, ◌≡◌, refl, true, false, Option, some, none, List, [], ◌∷◌, ◌++◌, Text, codes, map, arith,
  any, text_eq, lower, ◌↔◌, sym, subst,
}
use thermocouple.Image.Failure.{ok, err, checksum, bad_count, boot_crc, malformed, stale_commit}
use thermocouple.Image.Memory.{Memory, IsImage}
use thermocouple.Image.Decode.{
  ImageFile, image_bytes, image_limit, start, Decoder, decode_record, read_lines, suffix,
}
use thermocouple.Image.Decode.Encode
use thermocouple.Image.Decode.Bounds.{image_bytes-IsImage}
use thermocouple.Image.Decode.EndOfFile.{EndsOnce, image_bytes-EndsOnce}
use thermocouple.Image.Decode.Checksum.{decode_record_one_wrong_byte}
use thermocouple.Image.Decode.Written.{image_bytes-encode}
use thermocouple.Image.Identity.Layout.{layout}
use thermocouple.Image.Identity.Fields.{HoldsIdentity, embedded_identity_iff}
use thermocouple.Image.Decode.Encode.{Block, encode_lines, join, put_blocks}
use thermocouple.Image.Identity.{Identity, embedded_identity}
use thermocouple.Image.Json.{Json, int, bool}
use thermocouple.Image.Verify.{verify_payload}
use thermocouple.Image.Verify.Sound.{Verified, verify_payload-Verified}
use thermocouple.Image.Verify.Complete.{Verified-verify_payload}
use thermocouple.Image.Metadata.{
  Files, missing, parsed, metadata_of, write_metadata, check_metadata, check_fresh,
}
use thermocouple.Image.Metadata.Sound.{Checked, check_metadata-Checked}
use thermocouple.Image.Metadata.RoundTrip.{fresh_or_stale, check_written, check-write}
use thermocouple.Image.Verify
use thermocouple.Image.Memory
use thermocouple.Image.Crc.{crc_hqx}
use thermocouple.Image.Identity

abbrev pub text_lines : List Text
text_lines =
    codes ":20000000030A11181F262D343B424950575E656C737A81888F969DA4ABB2B9C0C7CED5DCF0"
    ∷ codes ":20002000E3EAF1F8FF060D141B222930373E454C535A61686F767D848B9299A0A7AEB5BCD0"
    ∷ codes ":20004000C3CAD1D8DFE6EDF4FB020910171E252C333A41484F565D646B727980878E959CB0"
    ∷ codes ":20006000A3AAB1B8BFC6CDD4DBE2E9F0F7FE050C131A21282F363D444B525960676E757C90"
    ∷ codes ":0C008000838A91989FA6ADB4BBC2C9D082"
    ∷ codes ":020000021000EC"
    ∷ codes ":20FF80005448465749443031181E970501020A01303132333435363738396162000000008A"
    ∷ codes ":20FFA000000000000000000000000000000000000000000000000000000000000000000041"
    ∷ codes ":020000040001F9"
    ∷ codes ":02FFFE00D0A68B"
    ∷ codes ":00000001FF"
    ∷ []

abbrev image : ImageFile
image = record { name = codes "thermo24.HEX"; content = join text_lines }

abbrev identity : Identity
identity = record {
  board = 24;
  mcu = codes "atmega1284p";
  firmware_version = codes "1.2.10";
  commit = codes "0123456789ab";
  dirty = true;
}

-- To unfold this is to unfold all that `verify_payload` runs through.
run_verify : Unit {0}
unfolding verify_payload Verify.count_of Verify.crc_of image_bytes join Memory.has Memory.lookup
    Verify.verify_memory embedded_identity Identity.or_missing Identity.read_bytes
    Identity.parse_identity Identity.is_this_board Identity.is_well_formed any Identity.is_commit
    Identity.identity_of Identity.dotted Verify.verify_extent Verify.has_extent Verify.all_in_extent
    Verify.has_range Verify.in_extent Verify.verify_crc Verify.calculated_crc Verify.stored_crc
    Verify.or_key crc_hqx text_eq
run_verify = tt

verified : verify_payload image (int 204) (int 42704) ≡ ok identity
unfolding run_verify
verified = refl

-- The same image with another CRC argument, and without its end record.
wrong_crc : verify_payload image (int 204) (int 42705) ≡ err boot_crc
unfolding run_verify
wrong_crc = refl

not_an_int : verify_payload image (bool true) (int 42704) ≡ err bad_count
unfolding run_verify
not_an_int = refl

verify_payload-Verified_example :
    (n crc : ℕ) × (int 204 ≡ int n)
    × (int 42704 ≡ int crc)
    × (crc ≤ 65535)
    × Verified image n crc identity
verify_payload-Verified_example =
    verify_payload-Verified image (int 204) (int 42704) identity verified

int_inj : {m n : ℕ} → int m ≡ int n → m ≡ n
int_inj h = cc

Verified-image : Verified image 204 42704 identity
Verified-image =
    let (n, crc, a, b, _, v) = verify_payload-Verified_example in
    subst (λ (k : ℕ). Verified image k 42704 identity) (sym (int_inj a))
      (subst (λ (k : ℕ). Verified image n k identity) (sym (int_inj b)) v)

Verified-verify_payload_example : verify_payload image (int 204) (int 42704) ≡ ok identity
Verified-verify_payload_example =
    Verified-verify_payload image 204 42704 identity Verified-image (omega arith)

-- Any digest serves: the tool only compares it.
abbrev digest : List ℕ → Text
digest content = codes "d1ce"

abbrev unwritten : Files
unwritten = record { image = image; sidecar = missing }

abbrev metadata : Json
metadata = metadata_of digest image (int 204) (int 42704) identity

abbrev written : Files
written = record { image = image; sidecar = parsed metadata }

writes : write_metadata digest unwritten (int 204) (int 42704) ≡ ok written
unfolding write_metadata
writes = rw verified

abbrev head : Option Text
head = some (codes "0123456789abcdef0123456789abcdef01234567\n")

check-write_example :
    (i : Identity) × (m : Json) × (verify_payload image (int 204) (int 42704) ≡ ok i)
    × (written ≡ record unwritten { sidecar = parsed m })
    × (check_metadata digest written false head ≡ fresh_or_stale false head i m)
check-write_example = check-write digest unwritten written (int 204) (int 42704) false head writes

-- The commit of the image is HEAD, and would be stale under another one.
fresh : check_fresh false head identity ≡ ok tt
unfolding check_fresh text_eq
fresh = refl

stale :
    check_fresh false (some (codes "1123456789abcdef0123456789abcdef01234567")) identity
    ≡ err stale_commit
unfolding check_fresh text_eq
stale = refl

checks : check_metadata digest written true none ≡ ok metadata
unfolding check_fresh
checks = check_written digest image (int 204) (int 42704) identity true none verified

check_metadata-Checked_example : Checked digest written true none metadata
check_metadata-Checked_example = check_metadata-Checked digest written true none metadata checks

-- A small file: two data records, a blank line and lower-case digits.
abbrev small : ImageFile
small = record {
  name = codes "a.hex";
  content = codes ":020000040001F9\r\n:02001000aBcD76\n\n:01000000FE01\n:00000001ff\n \n";
}

abbrev small_memory : Memory
small_memory = (0x10000, 0xFE) ∷ (0x10011, 0xCD) ∷ (0x10010, 0xAB) ∷ []

small_reads : image_bytes small ≡ ok small_memory
unfolding image_bytes Memory.has
small_reads = refl

image_bytes-IsImage_example : IsImage image_limit small_memory
image_bytes-IsImage_example = image_bytes-IsImage small small_memory small_reads

image_bytes-EndsOnce_example :
    (lines : List Text) × (last : Decoder) × (read_lines small.content ≡ ok lines)
    × EndsOnce start last lines
    × (last.memory ≡ small_memory)
image_bytes-EndsOnce_example = image_bytes-EndsOnce small small_memory small_reads

-- A second line after the end record is refused.
after_end :
    image_bytes (record small { content = codes ":00000001FF\n:00000001FF\n" }) ≡ err malformed
unfolding image_bytes
after_end = refl

record_taken :
    decode_record start ((2 ∷ 0 ∷ 16 ∷ []) ++ 0 ∷ (0xAB ∷ 0xCD ∷ 0x76 ∷ []))
    ≡ ok (record start { memory = (17, 0xCD) ∷ (16, 0xAB) ∷ [] })
unfolding decode_record Memory.has
record_taken = refl

decode_record_one_wrong_byte_example :
    decode_record start ((2 ∷ 0 ∷ 16 ∷ []) ++ 3 ∷ (0xAB ∷ 0xCD ∷ 0x76 ∷ [])) ≡ err checksum
decode_record_one_wrong_byte_example =
    decode_record_one_wrong_byte start (record start { memory = (17, 0xCD) ∷ (16, 0xAB) ∷ [] })
      (2 ∷ 0 ∷ 16 ∷ []) (0xAB ∷ 0xCD ∷ 0x76 ∷ []) 0 3 (omega arith) (omega arith) (omega arith)
      record_taken

abbrev blocks : List Block
blocks =
    record { upper = 0; address = 16; bytes = 0xAB ∷ 0xCD ∷ [] }
    ∷ record { upper = 1; address = 0; bytes = 0xFE ∷ [] }
    ∷ []

blocks-IsImage : IsImage image_limit (put_blocks blocks [])
unfolding put_blocks Memory.has
blocks-IsImage = (
  omega arith,
  omega arith,
  refl,
  (omega arith, omega arith, refl, (omega arith, omega arith, refl, tt)),
)

hex_name : text_eq (map lower (suffix (codes "a.HEX"))) (codes ".hex") ≡ true
unfolding text_eq lower suffix
hex_name = refl

image_bytes-encode_example :
    image_bytes (record { name = codes "a.HEX"; content = join (encode_lines blocks) })
    ≡ ok (put_blocks blocks [])
image_bytes-encode_example =
    image_bytes-encode (codes "a.HEX") blocks hex_name (omega arith) blocks-IsImage

abbrev flash : Memory
flash = Encode.put_bytes 0x1FF80 (layout 1 2 10 1 (codes "0123456789ab")) []

embedded_identity_iff_example :
    (embedded_identity flash ≡ ok identity) ↔ HoldsIdentity flash identity
embedded_identity_iff_example = embedded_identity_iff flash identity

embedded : embedded_identity flash ≡ ok identity
unfolding run_verify Encode.put_bytes layout
embedded = refl
