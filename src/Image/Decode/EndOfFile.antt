-- ===== src/Image/Decode/EndOfFile.antt =====
-- The end record in firmware/family/image_metadata.py: there is exactly one, and it is last.
use thermocouple.Prelude.{
  ℕ, ◌+◌, ◌*◌, ◌%◌, ◌≡◌, refl, Bool, true, false, not, ◌&&◌, ◌||◌, inl, inr, List, [], ◌∷◌, ◌++◌,
  length, Text, all, is_space, ◌==◌, if◌then◌else◌, arith, ap, ◌∙◌, Bool-cases,
}
use thermocouple.Image.Failure.{ok, err, malformed, bind-eq-ok}
use thermocouple.Image.Memory.{Memory}
use thermocouple.Image.Hex.{from_hex, IsBytes, from_hex-IsBytes}
use thermocouple.Image.Decode.{
  Decoder, ImageFile, start, drop_last, sum, store, apply_record, decode_record, decode_marked,
  decode_line, decode_lines, image_bytes, image_bytes-Accepted, read_lines,
}

decode_marked_after_end :
    (d : Decoder) (line : Text) → d.eof ≡ true → decode_marked d line ≡ err malformed
unfolding decode_marked
decode_marked_after_end d [] ended = refl
decode_marked_after_end d (c ∷ line) ended = rw ended

-- Once the end record is read, blank lines are passed over and any other is an error.
pub decode_lines_after_end :
    (d : Decoder) (lines : List Text)
    → d.eof ≡ true
    → decode_lines d lines ≡ (if all (all is_space) lines then ok d else err malformed)
unfolding decode_lines decode_line decode_marked
decode_lines_after_end d [] ended = refl
decode_lines_after_end d (line ∷ lines) ended = elim (Bool-cases (all is_space line)) [
  | inl blank ↦ rw blank (decode_lines_after_end d lines ended)
  | inr marked ↦ rw (marked, decode_marked_after_end d line ended)
]

abbrev pub end_record : List ℕ
end_record = 0 ∷ 0 ∷ 0 ∷ 1 ∷ 255 ∷ []

-- The only record that sets `eof`.
eof-apply_record :
    (d d' : Decoder) (size address kind : ℕ) (bytes : List ℕ)
    → d.eof ≡ false
    → apply_record d size address kind bytes ≡ ok d'
    → d'.eof ≡ true
    → (size ≡ 0) × (address ≡ 0) × (kind ≡ 1) × (d' ≡ record d { eof = true })
unfolding apply_record
eof-apply_record d d' size address kind bytes before h after = elim (Bool-cases (kind == 0)) [
  | inl e ↦
      let (m, stored, same) = bind-eq-ok (store (d.base + address) bytes d.memory) _ (rw e at h) in
      absurd (ground arith)
  | inr e ↦ ground arith
]

end_bytes :
    (size high low kind x : ℕ) (xs : List ℕ)
    → IsBytes (size ∷ high ∷ low ∷ kind ∷ x ∷ xs)
    → (length (size ∷ high ∷ low ∷ kind ∷ x ∷ xs) == size + 5
        && sum (size ∷ high ∷ low ∷ kind ∷ x ∷ xs) % 256 == 0)
      ≡ true
    → size ≡ 0
    → high * 256 + low ≡ 0
    → kind ≡ 1
    → size ∷ high ∷ low ∷ kind ∷ x ∷ xs ≡ end_record
unfolding sum
end_bytes size high low kind x [] b good s a k = ground (arith, good, b.1.1.1.1.0)
end_bytes size high low kind x (y ∷ ys) b good s a k = absurd (ground (arith, good))

eof-decode_record :
    (d d' : Decoder) (bytes : List ℕ)
    → IsBytes bytes
    → d.eof ≡ false
    → decode_record d bytes ≡ ok d'
    → d'.eof ≡ true
    → (bytes ≡ end_record) × (d' ≡ record d { eof = true })
unfolding decode_record
eof-decode_record d d' (size ∷ high ∷ low ∷ kind ∷ x ∷ xs) b before h after =
    let bytes : List ℕ = size ∷ high ∷ low ∷ kind ∷ x ∷ xs in
    elim (Bool-cases (length bytes == size + 5 && sum bytes % 256 == 0)) [
      | inl good ↦
          let e =
            eof-apply_record d d' size (high * 256 + low) kind (drop_last (x ∷ xs)) before
              (rw good at h) after in
          (end_bytes size high low kind x xs b good e.0 e.1 e.2, e.3)
      | inr bad ↦ cc (rw bad at h)
    ]
eof-decode_record d d' _ b before h after = cc

-- `line` is the end record, and reading it after `d` marks the end and changes nothing else.
record IsEnd (d d' : Decoder) (line : Text) : Type 0 where
  digits : Text
  shape : line ≡ b':' ∷ digits
  bytes : from_hex digits ≡ ok end_record
  next : d' ≡ record d { eof = true }

colon_of : (c : ℕ) (eof : Bool) → (eof || not (c == b':')) ≡ false → c ≡ b':'
colon_of c eof h = ground arith

IsEnd-decode_marked :
    (d d' : Decoder) (line : Text)
    → d.eof ≡ false
    → decode_marked d line ≡ ok d'
    → d'.eof ≡ true
    → IsEnd d d' line
unfolding decode_marked
IsEnd-decode_marked d d' [] before h after = cc
IsEnd-decode_marked d d' (c ∷ line) before h after = elim (Bool-cases (d.eof || not (c == b':'))) [
  | inl bad ↦ cc (rw bad at h)
  | inr good ↦
      let (bytes, read, step) = bind-eq-ok (from_hex line) (decode_record d) (rw good at h) in
      let e = eof-decode_record d d' bytes (from_hex-IsBytes line bytes read) before step after in
      record {
        digits = line;
        shape = ap (λ (x : ℕ). x ∷ line) (colon_of c d.eof good);
        bytes = cc (read, e.0);
        next = e.1;
      }
]

IsEnd-decode_line :
    (d d' : Decoder) (line : Text)
    → d.eof ≡ false
    → decode_line d line ≡ ok d'
    → d'.eof ≡ true
    → IsEnd d d' line
unfolding decode_line
IsEnd-decode_line d d' line before h after = elim (Bool-cases (all is_space line)) [
  | inl blank ↦ let e : d ≡ d' = cc (rw blank at h) in absurd (ground (arith, e))
  | inr marked ↦ IsEnd-decode_marked d d' line before (rw marked at h) after
]

-- The lines split at an end record; only blank lines follow it.
pub record EndsOnce (d d' : Decoder) (lines : List Text) : Type 0 where
  pub before : List Text
  pub digits : Text
  pub after : List Text
  pub at_end : Decoder
  pub parts : lines ≡ before ++ (b':' ∷ digits) ∷ after
  pub read : decode_lines d before ≡ ok at_end
  pub still_open : at_end.eof ≡ false
  pub end_bytes : from_hex digits ≡ ok end_record
  pub blank : all (all is_space) after ≡ true
  pub kept : d' ≡ record at_end { eof = true }

after_end :
    (d d' : Decoder) (lines : List Text)
    → d.eof ≡ true
    → decode_lines d lines ≡ ok d'
    → (all (all is_space) lines ≡ true) × (d' ≡ d)
after_end d d' lines ended h = elim (Bool-cases (all (all is_space) lines)) [
  | inl blank ↦ (blank, cc (rw (decode_lines_after_end d lines ended, blank) at h))
  | inr marked ↦ cc (rw (decode_lines_after_end d lines ended, marked) at h)
]

cons_read :
    (d next d' : Decoder) (line : Text) (lines : List Text)
    → decode_line d line ≡ ok next
    → decode_lines next lines ≡ ok d'
    → decode_lines d (line ∷ lines) ≡ ok d'
unfolding decode_lines
cons_read d next d' line lines step rest = rw step rest

decode_lines-EndsOnce :
    (d d' : Decoder) (lines : List Text)
    → d.eof ≡ false
    → decode_lines d lines ≡ ok d'
    → d'.eof ≡ true
    → EndsOnce d d' lines
unfolding decode_lines
decode_lines-EndsOnce d d' [] still h ended = let e : d ≡ d' = cc in absurd (ground (arith, e))
decode_lines-EndsOnce d d' (line ∷ lines) still h ended =
    let (next, step, rest) = bind-eq-ok (decode_line d line) (λ x. decode_lines x lines) h in
    elim (Bool-cases next.eof) [
      | inl now ↦
          let i = IsEnd-decode_line d next line still step now in
          let a = after_end next d' lines now rest in
          record {
            before = [];
            digits = i.digits;
            after = lines;
            at_end = d;
            parts = ap (λ (x : Text). x ∷ lines) i.shape;
            read = refl;
            still_open = still;
            end_bytes = i.bytes;
            blank = a.0;
            kept = a.1 ∙ i.next;
          }
      | inr later ↦
          let r = decode_lines-EndsOnce next d' lines later rest ended in
          record {
            before = line ∷ r.before;
            digits = r.digits;
            after = r.after;
            at_end = r.at_end;
            parts = ap (λ (x : List Text). line ∷ x) r.parts;
            read = cons_read d next r.at_end line r.before step r.read;
            still_open = r.still_open;
            end_bytes = r.end_bytes;
            blank = r.blank;
            kept = r.kept;
          }
    ]

-- The lines of an accepted file are those that build its memory, one end record
-- 00 00 00 01 FF, and blank lines.
pub image_bytes-EndsOnce :
    (file : ImageFile) (m : Memory)
    → image_bytes file ≡ ok m
    → (lines : List Text) × (last : Decoder) × (read_lines file.content ≡ ok lines)
      × EndsOnce start last lines
      × (last.memory ≡ m)
image_bytes-EndsOnce file m h =
    let a = image_bytes-Accepted file m h in
    (
      a.lines,
      a.last,
      a.read,
      decode_lines-EndsOnce start a.last a.lines refl a.run a.ended,
      a.memory,
    )
