-- ===== src/Image/Metadata/Sound.antt =====
-- What `check_metadata` of firmware/family/image_metadata.py has established when it returns.
use thermocouple.Prelude.{
  ℕ, ◌≡◌, refl, Bool, true, false, Option, List, Text, codes, text_eq→≡, ap, sym, ◌∙◌, subst,
}
use thermocouple.Image.Failure.{
  Failure, Result, ok, err, ◌>>◌, require, bind-eq-ok, digest, identity_mismatch, stale_commit,
  not_production,
}
use thermocouple.Image.Decode.{ImageFile}
use thermocouple.Image.Identity.{Identity}
use thermocouple.Image.Json.{Json, int, text, eq_int, eq_text, item}
use thermocouple.Image.Verify.{verify_payload}
use thermocouple.Image.Verify.Sound.{Verified, verify_payload-Verified}
use thermocouple.Image.Metadata.{
  Files, Sidecar, parsed, eq_identity, expect, load, repo_commit, check_labels, check_digest,
  check_image, check_fresh, check_metadata,
}

eq_text→≡ : (j : Json) (s : Text) → eq_text j s ≡ true → j ≡ text s
unfolding eq_text
eq_text→≡ (text t) s h = ap text (text_eq→≡ t s h)
eq_text→≡ _ s h = cc

load-eq-ok : (s : Sidecar) (j : Json) → load s ≡ ok j → s ≡ parsed j
unfolding load
load-eq-ok (parsed k) j h = cc
load-eq-ok _ j h = cc

inj {ℓ} : {A : Type ℓ} {a b : A} → ok a ≡ ok b → a ≡ b
inj h = cc

passed : (b : Bool) (e : Failure) → require b e ≡ ok tt → b ≡ true
passed true e h = refl
passed false e h = cc

expect-eq-ok :
    (metadata : Json) (k : Text) (test : Json → Bool)
    → expect metadata k test ≡ ok tt
    → (v : Json) × (item metadata k ≡ ok v) × (test v ≡ true)
unfolding expect
expect-eq-ok metadata k test h =
    let (v, found, h') = bind-eq-ok (item metadata k) (λ v. require (test v) not_production) h in
    (v, found, passed (test v) not_production h')

-- The labels of the metadata file: of this format, board, controller and image.
pub record Labelled (metadata : Json) (image : ImageFile) : Type 0 where
  pub format : item metadata (codes "format") ≡ ok (text (codes "thermo-production-v2"))
  pub board : (v : Json) × (item metadata (codes "board") ≡ ok v) × (eq_int v 24 ≡ true)
  pub mcu : item metadata (codes "mcu") ≡ ok (text (codes "atmega1284p"))
  pub name : item metadata (codes "image") ≡ ok (text image.name)

text_field :
    (metadata : Json) (k s : Text)
    → expect metadata k (λ v. eq_text v s) ≡ ok tt
    → item metadata k ≡ ok (text s)
text_field metadata k s h =
    let (v, found, same) = expect-eq-ok metadata k (λ v. eq_text v s) h in
    found ∙ ap ok (eq_text→≡ v s same)

-- A statement before another: both succeed.
then-eq-ok {ℓ} :
    {A : Type ℓ} (m : Result (Unit {0})) (k : Result A) (a : A)
    → (m >> k) ≡ ok a
    → (m ≡ ok tt) × (k ≡ ok a)
then-eq-ok (ok u) k a h = (refl, h)
then-eq-ok (err e) k a h = cc

check_labels-Labelled :
    (metadata : Json) (image : ImageFile)
    → check_labels metadata image ≡ ok tt
    → Labelled metadata image
unfolding check_labels
check_labels-Labelled metadata image h =
    let (f, h₁) = then-eq-ok (expect metadata (codes "format") _) _ tt h in
    let (b, h₂) = then-eq-ok (expect metadata (codes "board") _) _ tt h₁ in
    let (m, n) = then-eq-ok (expect metadata (codes "mcu") _) _ tt h₂ in
    record {
      format = text_field metadata (codes "format") _ f;
      board = expect-eq-ok metadata (codes "board") (λ v. eq_int v 24) b;
      mcu = text_field metadata (codes "mcu") _ m;
      name = text_field metadata (codes "image") image.name n;
    }

-- The image of the metadata, with the two numbers that it was verified with.
record ImageChecked (metadata : Json) (image : ImageFile) (i : Identity) : Type 0 where
  n : ℕ
  crc : ℕ
  listed : Json
  byte_count : item metadata (codes "byte_count") ≡ ok (int n)
  crc16 : item metadata (codes "crc16") ≡ ok (int crc)
  identity : item metadata (codes "identity") ≡ ok listed
  same_identity : eq_identity listed i ≡ true
  verified : Verified image n crc i

check_image-ImageChecked :
    (metadata : Json) (image : ImageFile) (i : Identity)
    → check_image metadata image ≡ ok i
    → ImageChecked metadata image i
unfolding check_image
check_image-ImageChecked metadata image i h =
    let (count, c, h₁) = bind-eq-ok (item metadata (codes "byte_count")) _ h in
    let (crc, x, h₂) = bind-eq-ok (item metadata (codes "crc16")) _ h₁ in
    let (j, v, h₃) = bind-eq-ok (verify_payload image count crc) _ h₂ in
    let (listed, l, h₄) = bind-eq-ok (item metadata (codes "identity")) _ h₃ in
    let (same, e) = then-eq-ok (require (eq_identity listed j) identity_mismatch) (ok j) i h₄ in
    let (n, k, count_is, crc_is, _, verified) = verify_payload-Verified image count crc i (v ∙ e) in
    record {
      n = n;
      crc = k;
      listed = listed;
      byte_count = c ∙ ap ok count_is;
      crc16 = x ∙ ap ok crc_is;
      identity = l;
      same_identity = ap (eq_identity listed) (sym (inj e)) ∙ passed _ _ same;
      verified = verified;
    }

check_fresh-repo_commit :
    (release : Bool) (head : Option Text) (i : Identity)
    → check_fresh release head i ≡ ok tt
    → release ≡ false
    → repo_commit head ≡ ok i.commit
unfolding check_fresh
check_fresh-repo_commit true head i h r = cc
check_fresh-repo_commit false head i h r =
    let (commit, found, same) = bind-eq-ok (repo_commit head) _ h in
    found ∙ ap ok (sym (text_eq→≡ i.commit commit (passed _ stale_commit same)))

module _ (sha256 : List ℕ → Text) where
  -- Everything that a successful check stands for.
  pub record Checked (files : Files) (release : Bool) (head : Option Text) (metadata : Json)
      : Type 0 where
    pub i : Identity
    pub n : ℕ
    pub crc : ℕ
    pub listed : Json
    pub sidecar : files.sidecar ≡ parsed metadata
    pub labels : Labelled metadata files.image
    pub digest : item metadata (codes "sha256") ≡ ok (text (sha256 files.image.content))
    pub byte_count : item metadata (codes "byte_count") ≡ ok (int n)
    pub crc16 : item metadata (codes "crc16") ≡ ok (int crc)
    pub identity : item metadata (codes "identity") ≡ ok listed
    pub same_identity : eq_identity listed i ≡ true
    pub verified : Verified files.image n crc i
    pub fresh : release ≡ false → repo_commit head ≡ ok i.commit

  digest-eq-ok :
      (metadata : Json) (image : ImageFile)
      → check_digest sha256 metadata image ≡ ok tt
      → item metadata (codes "sha256") ≡ ok (text (sha256 image.content))
  unfolding check_digest
  digest-eq-ok metadata image h =
      let (v, found, same) = bind-eq-ok (item metadata (codes "sha256")) _ h in
      found ∙ ap ok (eq_text→≡ v (sha256 image.content) (passed _ digest same))

  assemble :
      (files : Files) (release : Bool) (head : Option Text) (md : Json) (i : Identity)
      → load files.sidecar ≡ ok md
      → check_labels md files.image ≡ ok tt
      → check_digest sha256 md files.image ≡ ok tt
      → check_image md files.image ≡ ok i
      → check_fresh release head i ≡ ok tt
      → Checked files release head md
  assemble files release head md i l a b c f =
      let image = check_image-ImageChecked md files.image i c in
      record {
        i = i;
        n = image.n;
        crc = image.crc;
        listed = image.listed;
        sidecar = load-eq-ok files.sidecar md l;
        labels = check_labels-Labelled md files.image a;
        digest = digest-eq-ok md files.image b;
        byte_count = image.byte_count;
        crc16 = image.crc16;
        identity = image.identity;
        same_identity = image.same_identity;
        verified = image.verified;
        fresh = check_fresh-repo_commit release head i f;
      }

  -- A check that passes has found the metadata file of this image: its labels and digest are
  -- right, the image is a production image with the listed byte count and CRC, the listed identity
  -- is that in the flash, and unless a release is asked for the commit is the repository's HEAD.
  pub check_metadata-Checked :
      (files : Files) (release : Bool) (head : Option Text) (metadata : Json)
      → check_metadata sha256 files release head ≡ ok metadata
      → Checked files release head metadata
  unfolding check_metadata
  check_metadata-Checked files release head metadata h =
      let (md, l, h₁) = bind-eq-ok (load files.sidecar) _ h in
      let (a, h₂) = then-eq-ok (check_labels md files.image) _ metadata h₁ in
      let (b, h₃) = then-eq-ok (check_digest sha256 md files.image) _ metadata h₂ in
      let (i, c, h₄) = bind-eq-ok (check_image md files.image) _ h₃ in
      let (f, e) = then-eq-ok (check_fresh release head i) _ metadata h₄ in
      subst (Checked files release head) (inj e) (assemble files release head md i l a b c f)
