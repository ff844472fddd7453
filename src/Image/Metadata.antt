-- ===== src/Image/Metadata.antt =====
-- `write_metadata`, `check_metadata` and `main` of firmware/family/image_metadata.py. The image and
-- the JSON file beside it are the state. SHA-256 and the output of `git rev-parse HEAD` are
-- parameters; nothing is assumed of them.
pub mod Sound
pub mod RoundTrip
use thermocouple.Prelude.{
  ℕ, Bool, true, false, not, ◌&&◌, ◌||◌, Option, none, some, List, [], ◌∷◌, reverse, Text, codes,
  length, take, all, is_space, is_lower_hex, text_eq, ◌==◌, if◌then◌else◌,
}
use thermocouple.Image.Failure.{
  Result, ok, err, require, ◌>>=◌, ◌>>◌, no_head, not_production, digest, identity_mismatch,
  stale_commit, os_error, bad_json,
}
use thermocouple.Image.Decode.{ImageFile}
use thermocouple.Image.Identity.{Identity}
use thermocouple.Image.Json.{
  Json, Fields, text, int, bool, object, end, field, eq_int, eq_bool, eq_text, get, item,
  keys_among,
}
use thermocouple.Image.Verify.{verify_payload}

-- What `json.loads` of the file beside the image gives; it raises ValueError on text that it
-- cannot parse.
pub data Sidecar : Type 0 where
  missing unparsable : Sidecar
  parsed : Json → Sidecar

pub record Files : Type 0 where
  pub image : ImageFile
  pub sidecar : Sidecar

-- str.strip
drop_spaces : Text → Text
drop_spaces [] = []
drop_spaces (c ∷ r) = if is_space c then drop_spaces r else c ∷ r

unfoldable pub strip : Text → Text
unfolding drop_spaces is_space
strip t = reverse (drop_spaces (reverse (drop_spaces t)))

-- The fields of `embedded_identity`'s dict.
unfoldable pub identity_fields : Identity → Fields
identity_fields i = field (codes "board") (int i.board) (
    field (codes "mcu") (text i.mcu) (
      field (codes "firmware_version") (text i.firmware_version)
        (field (codes "commit") (text i.commit) (field (codes "dirty") (bool i.dirty) end))))

abbrev identity_keys : List Text
identity_keys =
    codes "board" ∷ codes "mcu" ∷ codes "firmware_version" ∷ codes "commit" ∷ codes "dirty" ∷ []

-- A key that is there, with a value that passes.
has_field : Text → (Json → Bool) → Fields → Bool
has_field k test fields = elim (get k fields) [ none ↦ false | some v ↦ test v ]

-- value == identity, for the dict of an identity
unfoldable pub eq_identity : Json → Identity → Bool
unfolding has_field get keys_among eq_int eq_text eq_bool
eq_identity (object fields) i =
    has_field (codes "board") (λ v. eq_int v i.board) fields
    && has_field (codes "mcu") (λ v. eq_text v i.mcu) fields
    && has_field (codes "firmware_version") (λ v. eq_text v i.firmware_version) fields
    && has_field (codes "commit") (λ v. eq_text v i.commit) fields
    && has_field (codes "dirty") (λ v. eq_bool v i.dirty) fields
    && keys_among identity_keys fields
eq_identity _ i = false

-- `metadata[k] != value: raise`, in the order of the source's `or`.
unfoldable pub expect : Json → Text → (Json → Bool) → Result (Unit {0})
unfolding item
expect metadata k test = do v ← item metadata k; require (test v) not_production

unfoldable pub load : Sidecar → Result Json
load missing = err os_error
load unparsable = err bad_json
load (parsed j) = ok j

-- re.fullmatch(r"[0-9a-f]{40}|[0-9a-f]{64}", commit)
unfoldable pub is_head : Text → Bool
unfolding all is_lower_hex
is_head commit = (length commit == 40 || length commit == 64) && all is_lower_hex commit

-- `repo_commit`; `head` is the output of git, `none` where it fails.
unfoldable pub repo_commit : Option Text → Result Text
unfolding strip is_head
repo_commit none = err os_error
repo_commit (some output) =
    let commit = strip output in if is_head commit then ok (take 12 commit) else err no_head

-- The tests of `check_metadata` before the image is read.
unfoldable pub check_labels : Json → ImageFile → Result (Unit {0})
unfolding expect eq_text eq_int
check_labels metadata image = do
  expect metadata (codes "format") (λ v. eq_text v (codes "thermo-production-v2"))
  expect metadata (codes "board") (λ v. eq_int v 24)
  expect metadata (codes "mcu") (λ v. eq_text v (codes "atmega1284p"))
  expect metadata (codes "image") (λ v. eq_text v image.name)

-- The tests on the image itself, and its identity.
unfoldable pub check_image : Json → ImageFile → Result Identity
unfolding item
check_image metadata image = do
  count ← item metadata (codes "byte_count")
  crc ← item metadata (codes "crc16")
  identity ← verify_payload image count crc
  v ← item metadata (codes "identity")
  require (eq_identity v identity) identity_mismatch
  ok identity

unfoldable pub check_fresh : Bool → Option Text → Identity → Result (Unit {0})
unfolding repo_commit
check_fresh true head identity = ok tt
check_fresh false head identity = do
  commit ← repo_commit head
  require (text_eq identity.commit commit) stale_commit

-- The arguments of `main`; `--bytes` and `--crc` are null where they are not given.
pub record Arguments : Type 0 where
  pub write : Bool
  pub bytes : Json
  pub crc : Json
  pub release : Bool

module _ (sha256 : List ℕ → Text) where
  unfoldable pub metadata_of : ImageFile → Json → Json → Identity → Json
  metadata_of image count crc identity = object (
      field (codes "format") (text (codes "thermo-production-v2")) (
        field (codes "board") (int 24) (
          field (codes "mcu") (text (codes "atmega1284p")) (
            field (codes "image") (text image.name) (
              field (codes "byte_count") count (
                field (codes "crc16") crc (
                  field (codes "sha256") (text (sha256 image.content))
                    (field (codes "identity") (object (identity_fields identity)) end))))))))

  unfoldable pub write_metadata : Files → Json → Json → Result Files
  write_metadata files count crc = do
    identity ← verify_payload files.image count crc
    ok (record files { sidecar = parsed (metadata_of files.image count crc identity) })

  unfoldable pub check_digest : Json → ImageFile → Result (Unit {0})
  unfolding item eq_text
  check_digest metadata image = do
    v ← item metadata (codes "sha256")
    require (eq_text v (sha256 image.content)) digest

  unfoldable pub check_metadata : Files → Bool → Option Text → Result Json
  check_metadata files release head = do
    metadata ← load files.sidecar
    check_labels metadata files.image
    check_digest metadata files.image
    identity ← check_image metadata files.image
    check_fresh release head identity
    ok metadata

  -- What is left when the file beside the image is written, or need not be.
  check_written : Files → Arguments → Option Text → Result Files → Files × Result Json
  check_written files args head (err e) = (files, err e)
  check_written files args head (ok files') = (files', check_metadata files' args.release head)

  -- `main` up to its output: the files that it leaves, and the metadata that it reports or the
  -- exception with which it exits.
  unfoldable pub main : Files → Arguments → Option Text → Files × Result Json
  unfolding check_written
  main files args head =
      check_written files args head
        (if args.write then write_metadata files args.bytes args.crc else ok files)
