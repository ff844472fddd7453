-- ===== src/Provenance/Checked.antt =====
-- When the check of hardware/8ch-old/board_provenance.py passes.
use thermocouple.Prelude.{
  ◌+◌, ◌≡◌, refl, sym, ◌∙◌, none, some, List, [], ◌∷◌, Text, ◌↔◌, ◌⊎◌, inl, inr, Option-cases, All,
  arith,
}
use thermocouple.Provenance.{
  Content, Record, World, Ended, ended, missing, and_then, watched, drifted, snapshot, compare_with,
  compare, check_of, cmd_check, status_of, cmd_status, count_problem, exit_code,
}
use thermocouple.Provenance.Snapshot.{
  ended_inj, Ended-cases, Holds, Matches-Holds, Holds-Matches, There, There-shot, shot-There,
}

and_then_assoc :
    {A : Type 0} {B : Type 0} {C : Type 0} (e : Ended A) (f : A → Ended B) (g : B → Ended C)
    → and_then (and_then e f) g ≡ and_then e λ a. and_then (f a) g
and_then_assoc (ended a) f g = refl
and_then_assoc (missing n) f g = refl

module _ (sha : Content → Text) where
  -- KiCad is closed, there is a record, and each watched file exists with the recorded hash.
  pub record IsSafe (w : World) : Type 0 where
    pub closed : w.locks ≡ []
    pub known : Record
    pub recorded : w.provenance ≡ some known
    pub holds : All (Holds sha known.files w.files) watched

  no_problem :
      (xs ys : List Text)
      → exit_code (count_problem xs + count_problem ys) ≡ 0
      → (xs ≡ []) × (ys ≡ [])
  no_problem [] [] h = (refl, refl)
  no_problem [] (y ∷ ys) h = absurd (omega arith)
  no_problem (x ∷ xs) [] h = absurd (omega arith)
  no_problem (x ∷ xs) (y ∷ ys) h = absurd (omega arith)

  check_known :
      (w : World) (r : Record)
      → w.provenance ≡ some r
      → cmd_check sha w
        ≡ and_then (snapshot sha w) λ current.
          ended (exit_code (count_problem w.locks + count_problem (drifted r.files current)))
  unfolding cmd_check check_of compare compare_with
  check_known w r h = rw (h, check_of, compare_with) (and_then_assoc (snapshot sha w) _ _)

  check_unknown : (w : World) → w.provenance ≡ none → cmd_check sha w ≡ ended 1
  unfolding cmd_check check_of
  check_unknown w h = rw (h, check_of) refl

  passed : (w : World) → cmd_check sha w ≡ ended 0 → IsSafe w
  unfolding snapshot
  passed w h = elim (Option-cases w.provenance) [
    | inl unknown ↦
        let wrong : 1 ≡ 0 = ended_inj (sym (check_unknown w unknown) ∙ h) in
        absurd (omega (arith, wrong))
    | inr (r, known) ↦ elim (Ended-cases (snapshot sha w)) [
      | inr (n, gone) ↦ cc (rw gone at (sym (check_known w r known) ∙ h))
      | inl (current, shot) ↦
          let zero_exit : ended
                (exit_code (count_problem w.locks + count_problem (drifted r.files current)))
              ≡ ended 0 =
            rw shot at (sym (check_known w r known) ∙ h) in
          let (closed, same) = no_problem w.locks (drifted r.files current) (ended_inj zero_exit) in
          record {
            closed = closed;
            known = r;
            recorded = known;
            holds = Matches-Holds sha r.files w.files watched (current, shot, same);
          }
    ]
  ]

  safe_passes : (w : World) → IsSafe w → cmd_check sha w ≡ ended 0
  unfolding snapshot
  safe_passes w h =
      let (current, shot, same) = Holds-Matches sha h.known.files w.files watched h.holds in
      check_known w h.known h.recorded ∙ rw (shot, same, h.closed) refl

  -- The check exits with 0 exactly where KiCad has no lock on the project, there is a record, and each
  -- watched file exists and has the hash that is recorded for it.
  pub check-IsSafe : (w : World) → (cmd_check sha w ≡ ended 0) ↔ IsSafe w
  check-IsSafe w = ((λ h. passed w h), λ h. safe_passes w h)

  status_known :
      (w : World) (r : Record)
      → w.provenance ≡ some r
      → cmd_status sha w ≡ and_then (snapshot sha w) λ current. ended 0
  unfolding cmd_status status_of compare compare_with
  status_known w r h = rw (h, status_of, compare_with) (and_then_assoc (snapshot sha w) _ _)

  status_unknown : (w : World) → w.provenance ≡ none → cmd_status sha w ≡ ended 0
  unfolding cmd_status status_of
  status_unknown w h = rw (h, status_of) refl

  -- `--status` exits with 0 exactly where there is no record or each watched file exists.
  pub status-There :
      (w : World)
      → (cmd_status sha w ≡ ended 0) ↔ ((w.provenance ≡ none) ⊎ All (There w.files) watched)
  unfolding snapshot
  status-There w = (
    (λ h. elim (Option-cases w.provenance) [
      | inl unknown ↦ inl unknown
      | inr (r, known) ↦ elim (Ended-cases (snapshot sha w)) [
        | inr (n, gone) ↦ cc (rw gone at (sym (status_known w r known) ∙ h))
        | inl (current, shot) ↦ inr (shot-There sha w.files watched current shot)
      ]
    ]),
    λ h. elim (Option-cases w.provenance) [
      | inl unknown ↦ status_unknown w unknown
      | inr (r, known) ↦ elim h [
        | inl unknown ↦ cc (unknown, known)
        | inr there ↦
            let (current, shot) = There-shot sha w.files watched there in
            status_known w r known ∙ rw shot refl
      ]
    ],
  )
