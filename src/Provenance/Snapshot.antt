-- ===== src/Provenance/Snapshot.antt =====
-- The snapshot of the watched files and what drifted, in hardware/8ch-old/board_provenance.py.
use thermocouple.Prelude.{
  ◌≡◌, refl, sym, ap, ◌∙◌, Bool, true, false, Option, none, some, List, [], ◌∷◌, Text, text_eq→≡,
  text_eq_refl, if◌then◌else◌, ◌⊎◌, inl, inr, Option-cases, All,
}
use thermocouple.Netlist.Lookup.{Dict, lookup}
use thermocouple.Provenance.{
  Content, Digest, Ended, ended, missing, and_then, same_digest, drifted, digest, snapshot_of,
}

pub some_inj {ℓ} : {A : Type ℓ} {a b : A} → some a ≡ some b → a ≡ b
some_inj e = cc

pub ended_inj {ℓ} : {A : Type ℓ} {a b : A} → ended a ≡ ended b → a ≡ b
ended_inj e = cc

pub Ended-cases {ℓ} :
    {A : Type ℓ} (e : Ended A) → ((a : A) × (e ≡ ended a)) ⊎ ((n : Text) × (e ≡ missing n))
Ended-cases (ended a) = inl (a, refl)
Ended-cases (missing n) = inr (n, refl)

abbrev pub There : (Text → Option Content) → Text → Type 0
There files name = (content : Content) × (files name ≡ some content)

drift_head :
    (b : Bool) (n : Text) (ns : List Text)
    → (if b then ns else n ∷ ns) ≡ []
    → (b ≡ true) × (ns ≡ [])
drift_head true n ns h = (refl, h)
drift_head false n ns h = cc

module _ (sha : Content → Text) where
  -- The file exists and has the hash that is recorded for it.
  abbrev pub Holds : Dict Digest → (Text → Option Content) → Text → Type 0
  Holds was files name =
      (content : Content) × (d : Digest) × (files name ≡ some content)
      × (lookup name was ≡ some d)
      × (d.sha256 ≡ sha content)

  -- A snapshot can be taken and shows no drift.
  abbrev pub Matches : Dict Digest → (Text → Option Content) → List Text → Type 0
  Matches was files names =
      (current : Dict Digest) × (snapshot_of sha files names ≡ ended current)
      × (drifted was current ≡ [])

  same-digest :
      (was : Option Digest) (content : Content)
      → same_digest was (digest sha content) ≡ true
      → (d : Digest) × (was ≡ some d) × (d.sha256 ≡ sha content)
  unfolding same_digest digest
  same-digest none content h = cc
  same-digest (some d) content h = (d, refl, text_eq→≡ d.sha256 (sha content) h)

  digest-same :
      (was : Option Digest) (content : Content) (d : Digest)
      → was ≡ some d
      → d.sha256 ≡ sha content
      → same_digest was (digest sha content) ≡ true
  unfolding same_digest digest
  digest-same was content d e h = rw (e, h) (text_eq_refl (sha content))

  all_taken : (files : Text → Option Content) → snapshot_of sha files [] ≡ ended []
  unfolding snapshot_of
  all_taken files = refl

  taken :
      (files : Text → Option Content) (name : Text) (names : List Text) (content : Content)
      → files name ≡ some content
      → snapshot_of sha files (name ∷ names)
        ≡ and_then (snapshot_of sha files names) λ rest. ended ((name, digest sha content) ∷ rest)
  unfolding snapshot_of
  taken files name names content h = rw (snapshot_of, h) refl

  not_taken :
      (files : Text → Option Content) (name : Text) (names : List Text)
      → files name ≡ none
      → snapshot_of sha files (name ∷ names) ≡ missing name
  unfolding snapshot_of
  not_taken files name names h = rw (snapshot_of, h) refl

  pub shot_head :
      (files : Text → Option Content) (name : Text) (names : List Text) (current : Dict Digest)
      → snapshot_of sha files (name ∷ names) ≡ ended current
      → (content : Content) × (rest : Dict Digest) × (files name ≡ some content)
        × (snapshot_of sha files names ≡ ended rest)
        × (current ≡ (name, digest sha content) ∷ rest)
  shot_head files name names current shot = elim (Option-cases (files name)) [
    | inl none_there ↦ cc (not_taken files name names none_there, shot)
    | inr (content, there) ↦
        let step = sym (taken files name names content there) ∙ shot in
        elim (Ended-cases (snapshot_of sha files names)) [
          | inr (other, gone) ↦ cc (rw gone at step)
          | inl (rest, shot_rest) ↦
              (content, rest, there, shot_rest, sym (ended_inj (rw shot_rest at step)))
        ]
  ]

  pub Matches-Holds :
      (was : Dict Digest) (files : Text → Option Content) (names : List Text)
      → Matches was files names
      → All (Holds was files) names
  unfolding drifted
  Matches-Holds was files [] h = tt
  Matches-Holds was files (name ∷ names) (current, shot, same) =
      let (content, rest, there, shot_rest, e) = shot_head files name names current shot in
      let no_drift = ap (drifted was) (sym e) ∙ same in
      let (this, later) =
        drift_head (same_digest (lookup name was) (digest sha content)) name (drifted was rest)
          no_drift in
      let (d, known, equal) = same-digest (lookup name was) content this in
      ((content, d, there, known, equal), Matches-Holds was files names (rest, shot_rest, later))

  pub Holds-Matches :
      (was : Dict Digest) (files : Text → Option Content) (names : List Text)
      → All (Holds was files) names
      → Matches was files names
  unfolding drifted snapshot_of
  Holds-Matches was files [] h = ([], refl, refl)
  Holds-Matches was files (name ∷ names) ((content, d, there, known, same), others) =
      let (rest, shot, none_drift) = Holds-Matches was files names others in
      (
        (name, digest sha content) ∷ rest,
        taken files name names content there ∙ rw shot refl,
        rw (digest-same (lookup name was) content d known same) none_drift,
      )

  pub There-shot :
      (files : Text → Option Content) (names : List Text)
      → All (There files) names
      → (current : Dict Digest) × (snapshot_of sha files names ≡ ended current)
  There-shot files [] h = ([], all_taken files)
  There-shot files (name ∷ names) ((content, there), others) =
      let (rest, shot) = There-shot files names others in
      ((name, digest sha content) ∷ rest, taken files name names content there ∙ rw shot refl)

  pub shot-There :
      (files : Text → Option Content) (names : List Text) (current : Dict Digest)
      → snapshot_of sha files names ≡ ended current
      → All (There files) names
  shot-There files [] current h = tt
  shot-There files (name ∷ names) current h =
      let (content, rest, there, shot, e) = shot_head files name names current h in
      ((content, there), shot-There files names rest shot)
