-- ===== src/Image/Verify/Checks.antt =====
-- The count, the CRC argument and the boot CRC in `verify_payload` of
-- firmware/family/image_metadata.py.
use thermocouple.Prelude.{
  ℕ, ◌+◌, ◌*◌, ◌/◌, ◌%◌, ◌≤◌, ◌<◌, ◌≡◌, inl, inr, ◌&&◌, Option, none, some, List, ◌++◌, ◌==◌, arith,
  ap, sym, ◌∙◌, Bool-cases, &&-true, ==→≡, bit_or-bytes,
}
use thermocouple.Image.Failure.{ok, bind-eq-ok}
use thermocouple.Image.Memory.{Memory, IsImage, lookup, lookup-IsImage}
use thermocouple.Image.Decode.{image_limit}
use thermocouple.Image.Identity.{Identity, identity_address, identity_bytes, read_bytes}
use thermocouple.Image.Crc.{crc_hqx}
use thermocouple.Image.Json.{Json, int}
use thermocouple.Image.Verify.{
  max_count, crc_address, count_of, crc_of, or_key, calculated_crc, stored_crc, verify_crc,
}

ok_inj : {a b : ℕ} → ok a ≡ ok b → a ≡ b
ok_inj h = cc

or_key-eq-ok {ℓ} : {A : Type ℓ} (o : Option A) (a : A) → or_key o ≡ ok a → o ≡ some a
unfolding or_key
or_key-eq-ok none a h = cc
or_key-eq-ok (some b) a h = cc

pub stored_crc-lookup :
    (m : Memory) (s : ℕ)
    → IsImage image_limit m
    → stored_crc m ≡ ok s
    → (lookup crc_address m ≡ some (s % 256)) × (lookup (crc_address + 1) m ≡ some (s / 256))
unfolding stored_crc
stored_crc-lookup m s i h =
    let (low, l, h') = bind-eq-ok (or_key (lookup crc_address m)) _ h in
    let (high, k, e) = bind-eq-ok (or_key (lookup (crc_address + 1) m)) _ h' in
    let low_at = or_key-eq-ok (lookup crc_address m) low l in
    let high_at = or_key-eq-ok (lookup (crc_address + 1) m) high k in
    let low_lt = (lookup-IsImage image_limit crc_address low m i low_at).1 in
    let high_lt = (lookup-IsImage image_limit (crc_address + 1) high m i high_at).1 in
    let sum : low + high * 256 ≡ s = sym (bit_or-bytes low high low_lt high_lt) ∙ ok_inj e in
    (low_at ∙ ap some (omega arith), high_at ∙ ap some (omega arith))

pub count_of-eq-ok :
    (j : Json) (n : ℕ) → count_of j ≡ ok n → (j ≡ int n) × (0 < n) × (n ≤ max_count)
unfolding count_of
count_of-eq-ok (int m) n h = ground arith
count_of-eq-ok _ n h = cc

pub crc_of-eq-ok : (j : Json) (n : ℕ) → crc_of j ≡ ok n → (j ≡ int n) × (n ≤ 65535)
unfolding crc_of
crc_of-eq-ok (int m) n h = ground arith
crc_of-eq-ok _ n h = cc

-- What the CRC stage says.
pub record CrcHolds (m : Memory) (body crc : ℕ) : Type 0 where
  pub code : List ℕ
  pub identity : List ℕ
  pub code_read : read_bytes m 0 body ≡ some code
  pub identity_read : read_bytes m identity_address identity_bytes ≡ some identity
  pub right : crc_hqx (code ++ identity) 0xFFFF ≡ crc
  pub stored : stored_crc m ≡ ok crc

calculated_crc-eq-ok :
    (m : Memory) (body c : ℕ)
    → calculated_crc m body ≡ ok c
    → (code identity : List ℕ) × (read_bytes m 0 body ≡ some code)
      × (read_bytes m identity_address identity_bytes ≡ some identity)
      × (crc_hqx (code ++ identity) 0xFFFF ≡ c)
unfolding calculated_crc
calculated_crc-eq-ok m body c h =
    let (code, r, h') = bind-eq-ok (or_key (read_bytes m 0 body)) _ h in
    let (identity, r', e) =
      bind-eq-ok (or_key (read_bytes m identity_address identity_bytes)) _ h' in
    (code, identity, or_key-eq-ok _ code r, or_key-eq-ok _ identity r', ok_inj e)

pub verify_crc-CrcHolds :
    (m : Memory) (body crc : ℕ) (i j : Identity)
    → verify_crc m body crc i ≡ ok j
    → CrcHolds m body crc × (i ≡ j)
unfolding verify_crc
verify_crc-CrcHolds m body crc i j h =
    let (c, calculated, h') = bind-eq-ok (calculated_crc m body) _ h in
    let (s, stored, h'') = bind-eq-ok (stored_crc m) _ h' in
    elim (Bool-cases (c == crc && s == c)) [
      | inl good ↦
          let (code, identity, r, r', e) = calculated_crc-eq-ok m body c calculated in
          let (a, b) = &&-true (c == crc) (s == c) good in
          let c_is : c ≡ crc = ==→≡ c crc a in
          let s_is : s ≡ crc = ==→≡ s c b ∙ c_is in
          (
            record {
              code = code;
              identity = identity;
              code_read = r;
              identity_read = r';
              right = e ∙ c_is;
              stored = stored ∙ ap ok s_is;
            },
            cc (rw good at h''),
          )
      | inr bad ↦ cc (rw bad at h'')
    ]
