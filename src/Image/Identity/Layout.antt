-- ===== src/Image/Identity/Layout.antt =====
-- The bytes that `embedded_identity` of firmware/family/image_metadata.py takes are those of the
-- structure `image_identity_t`, field by field.
use thermocouple.Prelude.{
  ℕ, zero, suc, ◌+◌, ◌≤◌, ◌≡◌, refl, Bool, true, false, not, Option, some, inl, inr, List, [], ◌∷◌,
  ◌++◌, length, drop, get_or, replicate, length-drop, any, text_eq→≡, ◌==◌, leb, arith, slice,
  drop-slice, drop_at, any-zeros, ap, ◌∙◌, Bool-cases, and_three, and_four, ==→≡,
}
use thermocouple.Image.Failure.{ok}
use thermocouple.Image.Memory.{Memory, lookup}
use thermocouple.Image.Identity.{
  Identity, magic, mcu_signature, read_bytes, cons_some, is_commit, is_this_board, is_well_formed,
  identity_of, parse_identity,
}

-- `image_identity_t`: magic, board, mcu, major, minor, patch, dirty, commit[13], reserved[35].
unfoldable pub layout : ℕ → ℕ → ℕ → ℕ → List ℕ → List ℕ
layout major minor patch dirty commit =
    magic ++ 24 ∷ (mcu_signature ++ major ∷ minor ∷ patch ∷ dirty ∷ (commit ++ replicate 36 0))

length-cons_some :
    (o : Option ℕ) (r : Option (List ℕ)) (n : ℕ) (xs : List ℕ)
    → ((ys : List ℕ) → r ≡ some ys → length ys ≡ n)
    → cons_some o r ≡ some xs
    → length xs ≡ suc n
unfolding cons_some
length-cons_some (some v) (some vs) n xs h e =
    let e' : v ∷ vs ≡ xs = cc in rw (← e') (ap suc (h vs refl))
length-cons_some _ _ n xs h e = cc

pub length-read_bytes :
    (m : Memory) (a count : ℕ) (xs : List ℕ) → read_bytes m a count ≡ some xs → length xs ≡ count
unfolding read_bytes
length-read_bytes m a zero xs h = let e : [] ≡ xs = cc in rw (← e)
length-read_bytes m a (suc count) xs h =
    length-cons_some (lookup a m) (read_bytes m (a + 1) count) count xs
      (length-read_bytes m (a + 1) count) h

-- A list of 64 bytes, cut into the fields of the structure.
cut :
    (xs : List ℕ)
    → length xs ≡ 64
    → xs
      ≡ slice 0 8 xs
        ++ get_or xs 8 0
          ∷ (slice 9 3 xs
              ++ get_or xs 12 0
                ∷ get_or xs 13 0
                ∷ get_or xs 14 0
                ∷ get_or xs 15 0
                ∷ (slice 16 12 xs ++ get_or xs 28 0 ∷ drop 29 xs))
cut xs l = cc (
  drop-slice 0 8 xs,
  drop_at 8 xs (omega arith),
  drop-slice 9 3 xs,
  drop_at 12 xs (omega arith),
  drop_at 13 xs (omega arith),
  drop_at 14 xs (omega arith),
  drop_at 15 xs (omega arith),
  drop-slice 16 12 xs,
  drop_at 28 xs (omega arith),
)

-- What the two tests say of the bytes that they look at.
record IsIdentity (raw : List ℕ) : Type 0 where
  is_magic : slice 0 8 raw ≡ magic
  is_board : get_or raw 8 0 ≡ 24
  is_mcu : slice 9 3 raw ≡ mcu_signature
  is_flag : leb (get_or raw 15 0) 1 ≡ true
  is_end : get_or raw 28 0 ≡ 0
  is_reserved : not (any (λ b. not (b == 0)) (drop 29 raw)) ≡ true
  is_hash : is_commit (slice 16 12 raw) ≡ true

at_most_one : (n : ℕ) → leb n 1 ≡ true → n ≤ 1
at_most_one n h = ground arith

of_not : (b : Bool) → not b ≡ true → b ≡ false
of_not b h = ground arith

IsIdentity-tests :
    (raw : List ℕ) → is_this_board raw ≡ true → is_well_formed raw ≡ true → IsIdentity raw
unfolding is_this_board is_well_formed
IsIdentity-tests raw here formed =
    let (m, b, s) = and_three _ _ _ here in
    let (f, e, z, c) = and_four _ _ _ _ formed in
    record {
      is_magic = text_eq→≡ (slice 0 8 raw) magic m;
      is_board = ==→≡ _ _ b;
      is_mcu = text_eq→≡ (slice 9 3 raw) mcu_signature s;
      is_flag = f;
      is_end = ==→≡ _ _ e;
      is_reserved = z;
      is_hash = c;
    }

parse_identity-IsIdentity :
    (raw : List ℕ) (i : Identity)
    → parse_identity raw ≡ ok i
    → IsIdentity raw × (i ≡ identity_of raw)
unfolding parse_identity
parse_identity-IsIdentity raw i h = elim (Bool-cases (is_this_board raw)) [
  | inl here ↦ elim (Bool-cases (is_well_formed raw)) [
    | inl formed ↦ (IsIdentity-tests raw here formed, cc (rw (here, formed) at h))
    | inr bad ↦ cc (rw (here, bad) at h)
  ]
  | inr other ↦ cc (rw other at h)
]

-- Accepted bytes are the structure with the fields that the result shows.
pub parse_identity-layout :
    (raw : List ℕ) (i : Identity)
    → length raw ≡ 64
    → parse_identity raw ≡ ok i
    → (major minor patch dirty : ℕ) × (raw ≡ layout major minor patch dirty i.commit)
      × (is_commit i.commit ≡ true)
      × (dirty ≤ 1)
      × (i ≡ identity_of raw)
unfolding layout identity_of
parse_identity-layout raw i l h =
    let (t, e) = parse_identity-IsIdentity raw i h in
    let n : length (drop 29 raw) ≡ 35 = length-drop 29 raw ∙ omega (arith, l) in
    let zeros : drop 29 raw ≡ replicate 35 0 =
      any-zeros (drop 29 raw) (of_not _ t.is_reserved) ∙ ap (λ (k : ℕ). replicate k 0) n in
    let c : i.commit ≡ slice 16 12 raw = ap (λ (x : Identity). x.commit) e in
    (
      get_or raw 12 0,
      get_or raw 13 0,
      get_or raw 14 0,
      get_or raw 15 0,
      cut raw l ∙ cc (t.is_magic, t.is_board, t.is_mcu, t.is_end, zeros, c),
      ap is_commit c ∙ t.is_hash,
      at_most_one _ t.is_flag,
      e,
    )
