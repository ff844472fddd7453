-- ===== src/Image/Decode/Bounds.antt =====
-- What `image_bytes` of firmware/family/image_metadata.py returns: bytes of the flash, each once.
use thermocouple.Prelude.{
  ℕ, ◌+◌, ◌*◌, ◌%◌, ◌≡◌, ◌&&◌, ◌||◌, inl, inr, List, [], ◌∷◌, length, Text, all, is_space, ◌==◌,
  leb, arith, Bool-cases, ||-false, subst, ◌⊎◌, sym, not,
}
use thermocouple.Image.Failure.{ok, bind-eq-ok}
use thermocouple.Image.Memory.{Memory, has, IsImage}
use thermocouple.Image.Hex.{from_hex, IsBytes, from_hex-IsBytes}
use thermocouple.Image.Decode.{
  Decoder, ImageFile, image_limit, start, store, drop_last, sum, apply_record, decode_record,
  decode_marked, decode_line, decode_lines, image_bytes, image_bytes-Accepted,
}

pub store-IsImage :
    (target : ℕ) (bytes : List ℕ) (m m' : Memory)
    → IsBytes bytes
    → IsImage image_limit m
    → store target bytes m ≡ ok m'
    → IsImage image_limit m'
unfolding store
store-IsImage target [] m m' b i h = let e : m ≡ m' = cc in subst (IsImage image_limit) e i
store-IsImage target (v ∷ vs) m m' b i h =
    elim (Bool-cases (leb image_limit target || has target m)) [
      | inl bad ↦ cc (rw bad at h)
      | inr free ↦
          store-IsImage (target + 1) vs ((target, v) ∷ m) m' b.1
            (ground (arith, free), b.0, (||-false _ _ free).1, i) (rw free at h)
    ]

drop_last-IsBytes : (xs : List ℕ) → IsBytes xs → IsBytes (drop_last xs)
unfolding drop_last
drop_last-IsBytes [] h = tt
drop_last-IsBytes (x ∷ []) h = tt
drop_last-IsBytes (x ∷ y ∷ r) h = (h.0, drop_last-IsBytes (y ∷ r) h.1)

-- A record leaves the memory alone, or stores its bytes.
pub apply_record_cases :
    (d d' : Decoder) (size address kind : ℕ) (bytes : List ℕ)
    → apply_record d size address kind bytes ≡ ok d'
    → (d'.memory ≡ d.memory) ⊎ (store (d.base + address) bytes d.memory ≡ ok d'.memory)
unfolding apply_record
apply_record_cases d d' size address kind bytes h = elim (Bool-cases (kind == 0)) [
  | inl e ↦
      let (m, stored, same) = bind-eq-ok (store (d.base + address) bytes d.memory) _ (rw e at h) in
      inr (cc)
  | inr e ↦ inl (ground arith)
]

apply_record-IsImage :
    (d d' : Decoder) (size address kind : ℕ) (bytes : List ℕ)
    → IsBytes bytes
    → IsImage image_limit d.memory
    → apply_record d size address kind bytes ≡ ok d'
    → IsImage image_limit d'.memory
unfolding apply_record
apply_record-IsImage d d' size address kind bytes b i h =
    elim (apply_record_cases d d' size address kind bytes h) [
      | inl e ↦ subst (IsImage image_limit) (sym e) i
      | inr e ↦ store-IsImage (d.base + address) bytes d.memory d'.memory b i e
    ]

decode_record-IsImage :
    (d d' : Decoder) (bytes : List ℕ)
    → IsBytes bytes
    → IsImage image_limit d.memory
    → decode_record d bytes ≡ ok d'
    → IsImage image_limit d'.memory
unfolding decode_record
decode_record-IsImage d d' (size ∷ high ∷ low ∷ kind ∷ x ∷ xs) b i h =
    let test =
      length (size ∷ high ∷ low ∷ kind ∷ x ∷ xs) == size + 5
      && sum (size ∷ high ∷ low ∷ kind ∷ x ∷ xs) % 256 == 0 in
    elim (Bool-cases test) [
      | inl good ↦
          apply_record-IsImage d d' size (high * 256 + low) kind (drop_last (x ∷ xs))
            (drop_last-IsBytes (x ∷ xs) b.1.1.1.1) i (rw good at h)
      | inr bad ↦ cc (rw bad at h)
    ]
decode_record-IsImage d d' _ b i h = cc

decode_marked-IsImage :
    (d d' : Decoder) (line : Text)
    → IsImage image_limit d.memory
    → decode_marked d line ≡ ok d'
    → IsImage image_limit d'.memory
unfolding decode_marked
decode_marked-IsImage d d' [] i h = cc
decode_marked-IsImage d d' (c ∷ line) i h = elim (Bool-cases (d.eof || not (c == b':'))) [
  | inl bad ↦ cc (rw bad at h)
  | inr good ↦
      let (bytes, read, step) = bind-eq-ok (from_hex line) (decode_record d) (rw good at h) in
      decode_record-IsImage d d' bytes (from_hex-IsBytes line bytes read) i step
]

decode_line-IsImage :
    (d d' : Decoder) (line : Text)
    → IsImage image_limit d.memory
    → decode_line d line ≡ ok d'
    → IsImage image_limit d'.memory
unfolding decode_line
decode_line-IsImage d d' line i h = elim (Bool-cases (all is_space line)) [
  | inl blank ↦
      let e : d ≡ d' = cc (rw blank at h) in
      subst (λ (x : Decoder). IsImage image_limit x.memory) e i
  | inr marked ↦ decode_marked-IsImage d d' line i (rw marked at h)
]

decode_lines-IsImage :
    (d d' : Decoder) (lines : List Text)
    → IsImage image_limit d.memory
    → decode_lines d lines ≡ ok d'
    → IsImage image_limit d'.memory
unfolding decode_lines
decode_lines-IsImage d d' [] i h =
    let e : d ≡ d' = cc in subst (λ (x : Decoder). IsImage image_limit x.memory) e i
decode_lines-IsImage d d' (line ∷ lines) i h =
    let (next, step, rest) = bind-eq-ok (decode_line d line) (λ x. decode_lines x lines) h in
    decode_lines-IsImage next d' lines (decode_line-IsImage d next line i step) rest

-- Whatever the file, an image that is accepted holds bytes only, below the end of the flash, and
-- no address twice.
pub image_bytes-IsImage :
    (file : ImageFile) (m : Memory) → image_bytes file ≡ ok m → IsImage image_limit m
image_bytes-IsImage file m h =
    let a = image_bytes-Accepted file m h in
    subst (IsImage image_limit) a.memory (decode_lines-IsImage start a.last a.lines tt a.run)
