-- ===== src/Image/Failure.antt =====
-- The exceptions of firmware/family/image_metadata.py, and results that may be one.
use thermocouple.Prelude.{Bool, true, false, ◌≡◌, refl}

-- One constructor for each `raise`, and for each exception of Python that `main` catches.
pub data Failure : Type 0 where
  no_head : Failure
  identity_missing not_this_board invalid_identity : Failure
  not_hex not_ascii malformed not_hex_digits checksum out_of_range unsupported no_eof : Failure
  bad_count bad_crc extent boot_crc : Failure
  not_production digest identity_mismatch stale_commit : Failure
  os_error bad_json key_error type_error : Failure

pub data Result {ℓ} (T : Type ℓ) : Type ℓ where
  err : Failure → Result T
  ok : T → Result T

-- `if not test: raise e`
abbrev pub require : Bool → Failure → Result (Unit {0})
require false e = err e
require true e = ok tt

infixl 5 ◌>>=◌
abbrev pub ◌>>=◌ {ℓ κ} : {S : Type ℓ} {T : Type κ} → Result S → (S → Result T) → Result T
err raised >>= next = err raised
ok s >>= next = next s

infixl 5 ◌>>◌
abbrev pub ◌>>◌ {ℓ} : {T : Type ℓ} → Result (Unit {0}) → Result T → Result T
first >> second = first >>= λ done. second

-- A sequence that returned went through a value of its first part.
pub bind-eq-ok {ℓ κ} :
    {S : Type ℓ} {T : Type κ} {t : T} (first : Result S) (next : S → Result T)
    → first >>= next ≡ ok t
    → (s : S) × (first ≡ ok s) × (next s ≡ ok t)
bind-eq-ok (err e) next returned = cc
bind-eq-ok (ok s) next returned = (s, refl, returned)
