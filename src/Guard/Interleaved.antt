-- ===== src/Guard/Interleaved.antt =====
-- `claim` of hardware/family/tools/guard.py in the steps that other processes can come between: the
-- exclusive open, the read, the remove and the write of the claim file.
use thermocouple.Prelude.{
  ℕ, zero, suc, ◌≡◌, ◌≢◌, refl, Bool, true, false, Option, none, some, List, [], ◌∷◌, ◌==◌, arith,
  if◌then◌else◌, ≡→==,
}
use thermocouple.Guard.{Claim, Content, holds, unreadable, other_live_claim, leave}

-- A claim file: just created by a process that has it open and has written nothing, or written.
pub data Entry : Type 0 where
  opened : ℕ → Entry
  written : Content → Entry

-- Where a process stands in `claim`, with the rounds of the loop that are left.
pub data Place : Type 0 where
  idle : Place
  creating : ℕ → Place
  inspecting : ℕ → Place
  removing : ℕ → Place
  writing : Place
  holding : Place
  stopped : Place

pub record System : Type 0 where
  pub file : Option Entry
  pub place : ℕ → Place

-- What a read of the file gives; an empty file is no JSON.
unfoldable pub content : Option Entry → Option Content
content none = none
content (some (opened p)) = some unreadable
content (some (written c)) = some c

unfoldable pub put_place : ℕ → Place → (ℕ → Place) → ℕ → Place
put_place p at places q = if q == p then at else places q

-- `check`'s and the loop's test of the claim that is read.
unfoldable pub inspected : Option Claim → Place → Place
inspected none on = on
inspected (some c) on = stopped

-- os.open with O_CREAT | O_EXCL.
unfoldable pub create : ℕ → ℕ → Option Entry → Option Entry × Place
create p k none = (some (opened p), writing)
create p k (some e) = (some e, inspecting k)

-- os.remove; `unlink_open` says whether the system removes a file that a process has open.
unfoldable pub remove : Bool → ℕ → Option Entry → Option Entry × Place
remove unlink_open k none = (none, stopped)
remove unlink_open k (some (written c)) = (none, creating k)
remove unlink_open k (some (opened p)) =
    if unlink_open then (none, creating k) else (some (opened p), stopped)

-- json.dump into the file that the process opened, which may have been removed since.
unfoldable pub write : ℕ → Claim → Option Entry → Option Entry
write p info none = none
write p info (some (written c)) = some (written c)
write p info (some (opened q)) = if q == p then some (written (holds info)) else some (opened q)

unfoldable pub close : ℕ → Option Entry → Option Entry
unfolding leave
close p none = none
close p (some (opened q)) = some (opened q)
close p (some (written c)) = elim (leave p (some c)) [ none ↦ none | some d ↦ some (written d) ]

-- One step of process `p`, which stands at the given place.
unfoldable pub step_at :
    (ℕ → Bool) → Bool → (ℕ → Claim) → ℕ → Place → Option Entry → Option Entry × Place
unfolding inspected content create remove write close other_live_claim
step_at alive unlink_open info p idle file =
    (file, inspected (other_live_claim alive p (content file)) (creating 2))
step_at alive unlink_open info p (creating zero) file = (file, stopped)
step_at alive unlink_open info p (creating (suc k)) file = create p k file
step_at alive unlink_open info p (inspecting k) file =
    (file, inspected (other_live_claim alive p (content file)) (removing k))
step_at alive unlink_open info p (removing k) file = remove unlink_open k file
step_at alive unlink_open info p writing file = (write p (info p) file, holding)
step_at alive unlink_open info p holding file = (close p file, idle)
step_at alive unlink_open info p stopped file = (file, stopped)

unfoldable pub step : (ℕ → Bool) → Bool → (ℕ → Claim) → ℕ → System → System
unfolding step_at put_place
step alive unlink_open info p s =
    let (file, at) = step_at alive unlink_open info p (s.place p) s.file in
    record { file = file; place = put_place p at s.place }

-- The processes act in the order of a list.
unfoldable pub run : (ℕ → Bool) → Bool → (ℕ → Claim) → List ℕ → System → System
unfolding step
run alive unlink_open info [] s = s
run alive unlink_open info (p ∷ ps) s =
    run alive unlink_open info ps (step alive unlink_open info p s)

-- The first process has created the file and not yet written it when the second reads it.
abbrev pub late_write : ℕ → ℕ → List ℕ
late_write p q = p ∷ q ∷ p ∷ q ∷ q ∷ p ∷ q ∷ q ∷ q ∷ []

-- The file and the places of two processes.
record At (p q : ℕ) (s : System) (file : Option Entry) (a b : Place) : Type 0 where
  file_at : s.file ≡ file
  first_at : s.place p ≡ a
  second_at : s.place q ≡ b

module _ (alive : ℕ → Bool) (unlink_open : Bool) (info : ℕ → Claim) where
  -- What one step does to the file and to the place of the process that takes it.
  step-At :
      (p q : ℕ) {s : System} {file new : Option Entry} {a at b : Place}
      → p ≢ q
      → At p q s file a b
      → step_at alive unlink_open info p a file ≡ (new, at)
      → At p q (step alive unlink_open info p s) new at b
  unfolding step put_place
  step-At p q {s} {file} {new} {a} {at} {b} other h e =
      let f = h.file_at in
      let u = h.first_at in
      let known : step_at alive unlink_open info p (s.place p) s.file ≡ (new, at) = rw (f, u) e in
      let pp : (p == p) ≡ true = ≡→== p p refl in
      let qp : (q == p) ≡ false = ground (arith, other) in
      record {
        file_at = rw known;
        first_at = rw (known, pp);
        second_at = rw (known, qp) (h.second_at);
      }

  swap-At :
      (p q : ℕ) {s : System} {file : Option Entry} {a b : Place}
      → At p q s file a b
      → At q p s file b a
  swap-At p q h = record { file_at = h.file_at; first_at = h.second_at; second_at = h.first_at }

  step-At_second :
      (p q : ℕ) {s : System} {file new : Option Entry} {a at b : Place}
      → p ≢ q
      → At p q s file a b
      → step_at alive unlink_open info q b file ≡ (new, at)
      → At p q (step alive unlink_open info q s) new a at
  step-At_second p q other h e = swap-At q p (step-At q p (λ e. other (cc e)) (swap-At p q h) e)

  -- The run up to the point where the second process has read the empty file and the first has
  -- written it.
  late_written :
      (p q : ℕ) (s : System)
      → p ≢ q
      → At p q s none idle idle
      → At p q
          (run alive unlink_open info (p ∷ q ∷ p ∷ q ∷ q ∷ p ∷ []) s)
          (some (written (holds (info p))))
          holding
          (removing 1)
  unfolding run step_at
  late_written p q s other s0 =
      let s1 = step-At p q other s0 refl in
      let s2 = step-At_second p q other s1 refl in
      let s3 = step-At p q other s2 refl in
      let s4 = step-At_second p q other s3 refl in
      let s5 = step-At_second p q other s4 refl in step-At p q other s5 (rw (≡→== p p refl))

-- Two live processes, neither in `claim`, with no claim file there, can both get into their blocks:
-- whatever their claims say, on a system that removes files that are open and on one that does not.
pub two_writers :
    (alive : ℕ → Bool) (unlink_open : Bool) (info : ℕ → Claim) (p q : ℕ) (s : System)
    → p ≢ q
    → s.file ≡ none
    → s.place p ≡ idle
    → s.place q ≡ idle
    → ((run alive unlink_open info (late_write p q) s).place p ≡ holding)
      × ((run alive unlink_open info (late_write p q) s).place q ≡ holding)
unfolding run step_at
two_writers alive unlink_open info p q s other empty p_idle q_idle =
    let s6 =
      late_written alive unlink_open info p q s other
        (record { file_at = empty; first_at = p_idle; second_at = q_idle }) in
    let s7 = step-At_second alive unlink_open info p q other s6 refl in
    let s8 = step-At_second alive unlink_open info p q other s7 refl in
    let s9 =
      step-At_second alive unlink_open info p q {new = some (written (holds (info q)))}
        {at = holding} other s8 (rw (≡→== q q refl)) in
    (s9.first_at, s9.second_at)
