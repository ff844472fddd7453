-- ===== src/Image/Metadata/RoundTrip.antt =====
-- `check_metadata` after `write_metadata`, of firmware/family/image_metadata.py.
use thermocouple.Prelude.{ℕ, ◌≡◌, Bool, true, Option, List, Text, text_eq_refl, arith, ap, sym, ◌∙◌}
use thermocouple.Image.Failure.{Result, ok, ◌>>◌, bind-eq-ok}
use thermocouple.Image.Decode.{ImageFile}
use thermocouple.Image.Identity.{Identity}
use thermocouple.Image.Json.{Json, object}
use thermocouple.Image.Verify.{verify_payload}
use thermocouple.Image.Metadata.{
  Files, parsed, identity_fields, eq_identity, load, metadata_of, write_metadata, check_labels,
  check_digest, check_image, check_fresh, check_metadata,
}

inj {ℓ} : {A : Type ℓ} {a b : A} → ok a ≡ ok b → a ≡ b
inj h = cc

eq_identity_refl : (i : Identity) → eq_identity (object (identity_fields i)) i ≡ true
unfolding eq_identity identity_fields
eq_identity_refl i =
    ground (arith, text_eq_refl i.mcu, text_eq_refl i.firmware_version, text_eq_refl i.commit)

module _ (sha256 : List ℕ → Text) (image : ImageFile) (count crc : Json) (i : Identity) where
  abbrev pub written : Json
  written = metadata_of sha256 image count crc i

  labels_pass : check_labels written image ≡ ok tt
  unfolding check_labels metadata_of
  labels_pass = rw (text_eq_refl image.name)

  digest_passes : check_digest sha256 written image ≡ ok tt
  unfolding check_digest metadata_of
  digest_passes = rw (text_eq_refl (sha256 image.content))

  image_passes : verify_payload image count crc ≡ ok i → check_image written image ≡ ok i
  unfolding check_image metadata_of
  image_passes h = rw (h, eq_identity_refl i)

-- What `check_metadata` returns for the image of an identity: everything passes but, unless a
-- release is asked for, a commit other than HEAD's.
abbrev pub fresh_or_stale : Bool → Option Text → Identity → Json → Result Json
fresh_or_stale release head i metadata = check_fresh release head i >> ok metadata

module _ (sha256 : List ℕ → Text) (image : ImageFile) (count crc : Json) (i : Identity) where
  pub check_written :
      (release : Bool) (head : Option Text)
      → verify_payload image count crc ≡ ok i
      → check_metadata sha256
          (record { image = image; sidecar = parsed (written sha256 image count crc i) })
          release
          head
        ≡ fresh_or_stale release head i (written sha256 image count crc i)
  unfolding check_metadata load
  check_written release head h = rw (
    labels_pass sha256 image count crc i,
    digest_passes sha256 image count crc i,
    image_passes sha256 image count crc i h,
  )

-- Metadata that was written is accepted with the image it was written for: `check_metadata` then
-- returns it for a release, and otherwise exactly if the commit is the repository's HEAD.
pub check-write :
    (sha256 : List ℕ → Text) (files files' : Files) (count crc : Json) (release : Bool)
    (head : Option Text)
    → write_metadata sha256 files count crc ≡ ok files'
    → (i : Identity) × (metadata : Json) × (verify_payload files.image count crc ≡ ok i)
      × (files' ≡ record files { sidecar = parsed metadata })
      × (check_metadata sha256 files' release head ≡ fresh_or_stale release head i metadata)
unfolding write_metadata
check-write sha256 files files' count crc release head h =
    let (i, v, e) = bind-eq-ok (verify_payload files.image count crc) _ h in
    (
      i,
      written sha256 files.image count crc i,
      v,
      inj (sym e),
      ap (λ (f : Files). check_metadata sha256 f release head) (inj (sym e))
          ∙ check_written sha256 files.image count crc i release head v,
    )
