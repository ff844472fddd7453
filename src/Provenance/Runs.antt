-- ===== src/Provenance/Runs.antt =====
-- Generator runs and hand edits around hardware/8ch-old/board_provenance.py.
use thermocouple.Prelude.{
  ◌≡◌, refl, sym, ap, subst, ◌∙◌, true, Option, none, some, List, [], ◌∷◌, Text, text_eq, text_eq→≡,
  text_eq_refl, inl, inr, Bool-cases, All, arith,
}
use thermocouple.Netlist.Sort.{mem_text}
use thermocouple.Netlist.Lookup.{Dict, lookup}
use thermocouple.Provenance.{
  Content, Digest, Record, World, ended, watched, digest, snapshot_of, snapshot, cmd_record,
  cmd_check,
}
use thermocouple.Provenance.Snapshot.{
  some_inj, ended_inj, Ended-cases, Holds, shot_head, There, There-shot,
}
use thermocouple.Provenance.Checked.{check-IsSafe}

abbrev Files : Type 0
Files = Text → Option Content

mem-All :
    (P : Text → Type 0) (names : List Text)
    → ((n : Text) → mem_text n names ≡ true → P n)
    → All P names
unfolding mem_text
mem-All P [] h = tt
mem-All P (name ∷ names) h = (
  h name (rw (text_eq_refl name) refl),
  mem-All P names λ n there. h n (later n name names there),
)
  where
    later :
        (n name : Text) (names : List Text)
        → mem_text n names ≡ true
        → mem_text n (name ∷ names) ≡ true
    later n name names there = ground arith

module _ (sha : Content → Text) where
  -- What can happen to the project: any change of the files (by the generator, by KiCad or by hand),
  -- KiCad's locks, the loss of the record, and a run of `cmd_record`. The second argument keeps the
  -- files as they were at the last such run.
  pub data Step : World → Option Files → World → Option Files → Type 0 where
    edits :
        (w : World) (kept : Option Files) (files : Files)
        → Step w kept (record w { files = files }) kept
    opens :
        (w : World) (kept : Option Files) (locks : List Text)
        → Step w kept (record w { locks = locks }) kept
    forgets : (w : World) (kept : Option Files) → Step w kept (record w { provenance = none }) kept
    records :
        (w w' : World) (kept : Option Files) (now by : Text)
        → cmd_record sha now by w ≡ ended (0, w')
        → Step w kept w' (some w.files)

  -- The states that such steps lead to, from a project without a record.
  pub data Reach : World → Option Files → Type 0 where
    starts : (w : World) → w.provenance ≡ none → Reach w none
    goes_on :
        (w w' : World) (kept kept' : Option Files)
        → Reach w kept
        → Step w kept w' kept'
        → Reach w' kept'

  -- What the record says of the files that were kept.
  abbrev Faithful : World → Option Files → Type 0
  Faithful w kept =
      (r : Record)
      → w.provenance ≡ some r
      → (files : Files) × (kept ≡ some files) × All (Holds sha r.files files) watched

  seen :
      (files : Files) (names : List Text) (current : Dict Digest)
      → snapshot_of sha files names ≡ ended current
      → (n : Text) → mem_text n names ≡ true
      → Holds sha current files n
  unfolding mem_text lookup digest
  seen files [] current h n there = cc
  seen files (name ∷ names) current h n there =
      let (content, rest, found, shot_rest, e) = shot_head sha files name names current h in
      elim (Bool-cases (text_eq n name)) [
        | inl same ↦ (
          content,
          digest sha content,
          rw (text_eq→≡ n name same) found,
          rw (e, lookup, same) refl,
          refl,
        )
        | inr other ↦
            let (c, d, file, known, equal) =
              seen files names rest shot_rest n (rw (other, mem_text) at there) in
            (c, d, file, rw (e, lookup, other) known, equal)
      ]

  shot-Holds :
      (files : Files) (names : List Text) (current : Dict Digest)
      → snapshot_of sha files names ≡ ended current
      → All (Holds sha current files) names
  shot-Holds files names current h =
      mem-All (Holds sha current files) names λ n there. seen files names current h n there

  recorded_shot :
      (w w' : World) (now by : Text)
      → cmd_record sha now by w ≡ ended (0, w')
      → (current : Dict Digest) × (snapshot_of sha w.files watched ≡ ended current)
        × (w' ≡ record w {
          provenance = some (record { recorded = now; generated_by = by; files = current });
        })
  unfolding cmd_record snapshot
  recorded_shot w w' now by run = elim (Ended-cases (snapshot_of sha w.files watched)) [
    | inr (other, gone) ↦ cc (rw gone at run)
    | inl (current, shot) ↦ (current, shot, sym (ap (λ p. p.1) (ended_inj (rw shot at run))))
  ]

  record-Faithful :
      (w w' : World) (now by : Text)
      → cmd_record sha now by w ≡ ended (0, w')
      → Faithful w' (some w.files)
  record-Faithful w w' now by run r known =
      let (current, shot, e) = recorded_shot w w' now by run in
      let same : r ≡ record { recorded = now; generated_by = by; files = current } =
        some_inj (sym known ∙ ap (λ v. v.provenance) e) in
      (
        w.files,
        refl,
        subst (λ t. All (Holds sha t.files w.files) watched) (sym same)
            (shot-Holds w.files watched current shot),
      )

  step-Faithful :
      (w w' : World) (kept kept' : Option Files)
      → Step w kept w' kept'
      → Faithful w kept
      → Faithful w' kept'
  step-Faithful w w' kept kept' (edits _ _ files) h = λ r known. h r known
  step-Faithful w w' kept kept' (opens _ _ locks) h = λ r known. h r known
  step-Faithful w w' kept kept' (forgets _ _) h = λ r known. cc
  step-Faithful w w' kept kept' (records _ _ _ now by run) h = record-Faithful w w' now by run

  Reach-Faithful : (w : World) (kept : Option Files) → Reach w kept → Faithful w kept
  Reach-Faithful w kept (starts _ none_yet) = λ r known. cc (none_yet, known)
  Reach-Faithful w kept (goes_on v _ before _ reach step) =
      step-Faithful v w before kept step (Reach-Faithful v before reach)

  -- The file is there, and it has the hash that it had when it was kept.
  abbrev pub IsKept : Files → Files → Text → Type 0
  IsKept files kept name =
      (content : Content) × (old : Content) × (files name ≡ some content)
      × (kept name ≡ some old)
      × (sha content ≡ sha old)

  both_hold :
      (was : Dict Digest) (files kept : Files) (names : List Text)
      → All (Holds sha was files) names
      → All (Holds sha was kept) names
      → All (IsKept files kept) names
  both_hold was files kept [] h k = tt
  both_hold was files kept (name ∷ names) ((c, d, there, known, e), h)
        ((c', d', there', known', e'), k) =
      let same = some_inj (sym known ∙ known') in
      (
        (c, c', there, there', sym e ∙ ap (λ t. t.sha256) same ∙ e'),
        both_hold was files kept names h k,
      )

  -- In every state that hand edits, locks, the loss of the record and runs of `--record` lead to, a
  -- check that exits with 0 has found KiCad closed and each watched file with the hash that it had at
  -- the last of those runs.
  pub Reach-check :
      (w : World) (kept : Option Files)
      → Reach w kept
      → cmd_check sha w ≡ ended 0
      → (w.locks ≡ [])
        × ((files : Files) × (kept ≡ some files) × All (IsKept w.files files) watched)
  Reach-check w kept reach h =
      let safe = (check-IsSafe sha w).0 h in
      let (files, same, old) = Reach-Faithful w kept reach safe.known safe.recorded in
      (safe.closed, (files, same, both_hold safe.known.files w.files files watched safe.holds old))

  -- Where the watched files exist and KiCad is closed, `--record` succeeds, changes nothing but the
  -- record, and a check after it passes.
  pub record-check :
      (w : World) (now by : Text)
      → All (There w.files) watched
      → w.locks ≡ []
      → (w' : World) × (cmd_record sha now by w ≡ ended (0, w'))
        × (w'.files ≡ w.files)
        × (cmd_check sha w' ≡ ended 0)
  unfolding cmd_record snapshot
  record-check w now by there closed =
      let (current, shot) = There-shot sha w.files watched there in
      let r : Record = record { recorded = now; generated_by = by; files = current } in
      let w' : World = record w { provenance = some r } in
      (
        w',
        rw shot refl,
        refl,
        (check-IsSafe sha w').1 (record {
          closed = closed;
          known = r;
          recorded = refl;
          holds = shot-Holds w.files watched current shot;
        }),
      )
