-- ===== src/Image/Verify/Extent.antt =====
-- The comparison of address sets in `verify_payload` of firmware/family/image_metadata.py.
use thermocouple.Prelude.{
  ℕ, zero, suc, ◌+◌, ◌≤◌, ◌<◌, ◌≡◌, ◌↔◌, ◌⊎◌, inl, inr, true, [], ◌∷◌, ◌==◌, arith, Bool-cases,
  and_four, &&-true, ==→≡,
}
use thermocouple.Image.Memory.{Memory, has}
use thermocouple.Image.Identity.{identity_address, identity_bytes}
use thermocouple.Image.Verify.{crc_address, in_extent, all_in_extent, has_range, has_extent}

-- The addresses of a production image with `body` bytes of code and data.
abbrev pub InExtent : ℕ → ℕ → Type 0
InExtent body a =
    (a < body)
    ⊎ (identity_address ≤ a) × (a < identity_address + identity_bytes)
    ⊎ (a ≡ crc_address)
    ⊎ (a ≡ crc_address + 1)

in_extent-InExtent : (body a : ℕ) → in_extent body a ≡ true → InExtent body a
unfolding in_extent
in_extent-InExtent body a h = ground arith

all_in_extent-has :
    (body a : ℕ) (m : Memory)
    → all_in_extent body m ≡ true
    → has a m ≡ true
    → in_extent body a ≡ true
unfolding all_in_extent has
all_in_extent-has body a [] h k = cc
all_in_extent-has body a ((b, v) ∷ m) h k =
    let (here, rest) = &&-true (in_extent body b) (all_in_extent body m) h in
    elim (Bool-cases (b == a)) [
      | inl same ↦ rw (← ==→≡ b a same) here
      | inr other ↦ all_in_extent-has body a m rest (rw other at k)
    ]

has_range-has :
    (m : Memory) (from count a : ℕ)
    → has_range m from count ≡ true
    → from ≤ a
    → a < from + count
    → has a m ≡ true
unfolding has_range
has_range-has m from zero a h lo hi = absurd (omega arith)
has_range-has m from (suc count) a h lo hi =
    let (here, rest) = &&-true (has from m) (has_range m (from + 1) count) h in
    elim (Bool-cases (from == a)) [
      | inl same ↦ rw (← ==→≡ from a same) here
      | inr other ↦ has_range-has m (from + 1) count a rest (ground (arith, other)) (omega arith)
    ]

-- The comparison of sets is an equation of sets.
pub has_extent-extent :
    (body a : ℕ) (m : Memory) → has_extent body m ≡ true → (has a m ≡ true) ↔ InExtent body a
unfolding has_extent
has_extent-extent body a m h =
    let (inside, code, identity, crc) = and_four _ _ _ _ h in
    (
      λ k. in_extent-InExtent body a (all_in_extent-has body a m inside k),
      λ w. elim w [
        | inl c ↦ has_range-has m 0 body a code (omega arith) (omega arith)
        | inr (inl c) ↦ has_range-has m identity_address identity_bytes a identity c.0 c.1
        | inr (inr (inl c)) ↦ has_range-has m crc_address 2 a crc (omega arith) (omega arith)
        | inr (inr (inr c)) ↦ has_range-has m crc_address 2 a crc (omega arith) (omega arith)
      ],
    )
