-- ===== src/Image/Identity/Fields.antt =====
-- `embedded_identity` of firmware/family/image_metadata.py reads back the fields of the structure
-- `image_identity_t`, and takes nothing else.
use thermocouple.Prelude.{
  ℕ, ◌≤◌, ◌≡◌, refl, true, false, not, Option, none, some, ◌↔◌, List, [], ◌∷◌, length, drop, get_or,
  replicate, any, text_eq, codes, ◌==◌, leb, arith, slice, zeros-any, take-append, drop-append,
  get_or-append, ap, sym, ◌∙◌, &&-true, and_four_intro, ==→≡, ≡→==,
}
use thermocouple.Image.Failure.{ok, bind-eq-ok}
use thermocouple.Image.Memory.{Memory}
use thermocouple.Image.Identity.{
  Identity, identity_address, identity_bytes, read_bytes, is_commit, is_this_board, is_well_formed,
  identity_of, dotted, parse_identity, or_missing, embedded_identity,
}
use thermocouple.Image.Identity.Layout.{layout, length-read_bytes, parse_identity-layout}

module _ (major minor patch dirty : ℕ) (commit : List ℕ) (hash : is_commit commit ≡ true) where
  twelve : length commit ≡ 12
  unfolding is_commit
  twelve = ==→≡ _ 12 (&&-true _ _ hash).0

  commit-layout : slice 16 12 (layout major minor patch dirty commit) ≡ commit
  unfolding layout
  commit-layout = take-append commit _ 12 twelve

  is_this_board-layout : is_this_board (layout major minor patch dirty commit) ≡ true
  unfolding is_this_board layout text_eq
  is_this_board-layout = refl

  end-layout : get_or (layout major minor patch dirty commit) 28 0 ≡ 0
  unfolding layout
  end-layout = get_or-append commit (replicate 36 0) 12 0 twelve

  reserved-layout :
      any (λ b. not (b == 0)) (drop 29 (layout major minor patch dirty commit)) ≡ false
  unfolding layout
  reserved-layout = rw (drop-append commit (replicate 36 0) 12 1 twelve) (zeros-any 35)

  flag-layout : dirty ≤ 1 → leb (get_or (layout major minor patch dirty commit) 15 0) 1 ≡ true
  unfolding layout
  flag-layout h = ground arith

  is_well_formed-layout : dirty ≤ 1 → is_well_formed (layout major minor patch dirty commit) ≡ true
  unfolding is_well_formed
  is_well_formed-layout flag =
      and_four_intro (flag-layout flag) (≡→== _ 0 end-layout) (ap not reserved-layout)
        (ap is_commit commit-layout ∙ hash)

  version-layout : slice 12 3 (layout major minor patch dirty commit) ≡ major ∷ minor ∷ patch ∷ []
  unfolding layout
  version-layout = refl

  abbrev pub expected : Identity
  expected = record {
    board = 24;
    mcu = codes "atmega1284p";
    firmware_version = dotted (major ∷ minor ∷ patch ∷ []);
    commit = commit;
    dirty = not (dirty == 0);
  }

  identity_of-layout : identity_of (layout major minor patch dirty commit) ≡ expected
  unfolding identity_of layout
  identity_of-layout = ap (λ (c : List ℕ). record expected { commit = c }) commit-layout

  -- The structure with a hash for its commit and 0 or 1 for its flag is accepted, and its fields
  -- are read back.
  pub parse_identity-of_layout :
      dirty ≤ 1 → parse_identity (layout major minor patch dirty commit) ≡ ok expected
  unfolding parse_identity
  parse_identity-of_layout flag =
      rw (is_this_board-layout, is_well_formed-layout flag) (ap ok identity_of-layout)

or_missing-eq-ok : (o : Option (List ℕ)) (xs : List ℕ) → or_missing o ≡ ok xs → o ≡ some xs
unfolding or_missing
or_missing-eq-ok none xs h = cc
or_missing-eq-ok (some ys) xs h = cc

-- The memory holds such a structure, and the identity is the one that its fields give.
pub record HoldsIdentity (m : Memory) (i : Identity) : Type 0 where
  pub major : ℕ
  pub minor : ℕ
  pub patch : ℕ
  pub dirty : ℕ
  pub commit : List ℕ
  pub hash : is_commit commit ≡ true
  pub flag : dirty ≤ 1
  pub stored :
      read_bytes m identity_address identity_bytes ≡ some (layout major minor patch dirty commit)
  pub fields : i ≡ expected major minor patch dirty commit hash

-- `embedded_identity` succeeds exactly on the structure: the 64 bytes at its address are those of
-- some `image_identity_t` of this board, with a commit hash and a flag of 0 or 1, and the result
-- has that structure's fields.
pub embedded_identity_iff :
    (m : Memory) (i : Identity) → (embedded_identity m ≡ ok i) ↔ HoldsIdentity m i
unfolding embedded_identity or_missing
embedded_identity_iff m i = (to, from)
  where
    to : (embedded_identity m ≡ ok i) → HoldsIdentity m i
    to h =
        let (raw, got, parsed) =
          bind-eq-ok (or_missing (read_bytes m identity_address identity_bytes)) parse_identity h in
        let read = or_missing-eq-ok _ raw got in
        let (major, minor, patch, dirty, e, hash, flag, f) =
          parse_identity-layout raw i (length-read_bytes m identity_address identity_bytes raw read)
            parsed in
        record {
          major = major;
          minor = minor;
          patch = patch;
          dirty = dirty;
          commit = i.commit;
          hash = hash;
          flag = flag;
          stored = read ∙ ap some e;
          fields = f ∙ ap identity_of e ∙ identity_of-layout major minor patch dirty i.commit hash;
        }

    from : HoldsIdentity m i → embedded_identity m ≡ ok i
    from s = rw s.stored (
        parse_identity-of_layout s.major s.minor s.patch s.dirty s.commit s.hash s.flag
        ∙ ap ok (sym s.fields))
