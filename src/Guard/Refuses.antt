-- ===== src/Guard/Refuses.antt =====
-- When hardware/family/tools/guard.py lets a tool write.
use thermocouple.Prelude.{
  ℕ, ◌≡◌, ◌≢◌, refl, sym, ◌∙◌, Bool, true, false, not, ◌&&◌, ◌⊎◌, Option, none, some, List, [], ◌∷◌,
  Text, inl, inr, arith, Bool-cases, Option-cases,
}
use thermocouple.Guard.{
  Claim, Content, Env, Refusal, holds, unreadable, passed, refused, read_claim, is_pid, is_live,
  other_live, other_live_claim, no_locks, check, take_rounds, take_checked, enter, refuse_other,
}
use thermocouple.Guard.{read_only, no_board, locked, held}

-- Another live process's claim is in the file.
abbrev pub HeldByOther : (ℕ → Bool) → ℕ → Option Content → Type 0
HeldByOther alive me file =
    (c : Claim) × (p : ℕ) × (file ≡ some (holds c)) × (c.pid ≡ some p) × (p ≢ me) × (alive p ≡ true)

-- The claim is that of another live process.
abbrev IsOtherLive : (ℕ → Bool) → ℕ → Option ℕ → Type 0
IsOtherLive alive me pid = (p : ℕ) × (pid ≡ some p) × (p ≢ me) × (alive p ≡ true)

pid_tests :
    (alive : ℕ → Bool) (me : ℕ) (pid : Option ℕ)
    → is_pid pid me ≡ false
    → is_live alive pid ≡ true
    → IsOtherLive alive me pid
unfolding is_pid is_live
pid_tests alive me none a b = cc
pid_tests alive me (some p) a b = (p, refl, (λ e. ground (arith, e)), b)

tests_pid :
    (alive : ℕ → Bool) (me : ℕ) (pid : Option ℕ)
    → IsOtherLive alive me pid
    → (is_pid pid me ≡ false) × (is_live alive pid ≡ true)
unfolding is_pid is_live
tests_pid alive me pid (p, e, other, live) = rw e (ground (arith, other), live)

other_live-eq-some :
    (alive : ℕ → Bool) (me : ℕ) (c d : Claim)
    → other_live alive me (some c) ≡ some d
    → (c ≡ d) × IsOtherLive alive me c.pid
unfolding other_live
other_live-eq-some alive me c d h = elim (Bool-cases (is_pid c.pid me)) [
  | inl own ↦ cc (rw own at h)
  | inr other ↦ elim (Bool-cases (is_live alive c.pid)) [
    | inl live ↦ (cc (rw (other, live) at h), pid_tests alive me c.pid other live)
    | inr dead ↦ cc (rw (other, dead) at h)
  ]
]

pub other_live_claim-HeldByOther :
    (alive : ℕ → Bool) (me : ℕ) (file : Option Content) (c : Claim)
    → other_live_claim alive me file ≡ some c
    → HeldByOther alive me file
unfolding other_live_claim read_claim
other_live_claim-HeldByOther alive me none c h = unfold other_live in cc
other_live_claim-HeldByOther alive me (some unreadable) c h = unfold other_live in cc
other_live_claim-HeldByOther alive me (some (holds d)) c h =
    let (same, other) = other_live-eq-some alive me d c h in
    (d, other.0, refl, other.1, other.2, other.3)

pub HeldByOther-other_live_claim :
    (alive : ℕ → Bool) (me : ℕ) (file : Option Content)
    → HeldByOther alive me file
    → (c : Claim) × (other_live_claim alive me file ≡ some c)
unfolding other_live_claim read_claim other_live
HeldByOther-other_live_claim alive me file (c, p, e, pid, other, live) =
    let (a, b) = tests_pid alive me c.pid (p, pid, other, live) in (c, rw (e, a, b))

-- `enter` either writes the claim or leaves the file as it was.
take_rounds_two :
    (alive : ℕ → Bool) (me : ℕ) (info : Claim) (file : Option Content)
    → other_live_claim alive me file ≡ none
    → take_rounds alive me info 2 file ≡ (some (holds info), passed)
unfolding take_rounds
take_rounds_two alive me info none h = refl
take_rounds_two alive me info (some c) h = rw (h, take_rounds)

-- What lets a tool write: the board is not the read-only source, it exists or may be new, KiCad has
-- no lock file beside it, and no other live process has the claim.
pub record IsAllowed (env : Env) (me : ℕ) (allow_new : Bool) (file : Option Content) : Type 0 where
  pub writable : env.is_source ≡ false
  pub present : (not allow_new && not env.board_exists) ≡ false
  pub closed : env.locks ≡ []
  pub free : HeldByOther env.alive me file → ⊥

pub no_locks-nil : (ls : List Text) → no_locks ls ≡ true → ls ≡ []
unfolding no_locks
no_locks-nil [] h = refl
no_locks-nil (l ∷ ls) h = cc

pub locks_nil : (ls : List Text) → ls ≡ [] → no_locks ls ≡ true
unfolding no_locks
locks_nil ls e = rw e

free_claim :
    (alive : ℕ → Bool) (me : ℕ) (file : Option Content)
    → other_live_claim alive me file ≡ none
    → HeldByOther alive me file
    → ⊥
free_claim alive me file h taken =
    let (c, e) = HeldByOther-other_live_claim alive me file taken in cc (sym h ∙ e)

-- What `enter` may do: write the claim where `IsAllowed` holds, or leave the file as it was.
abbrev Entered : Env → ℕ → Claim → Bool → Option Content → Type 0
Entered env me info allow_new file =
    (IsAllowed env me allow_new file
      × (enter env me info allow_new file ≡ (some (holds info), passed)))
    ⊎ ((IsAllowed env me allow_new file → ⊥)
        × ((r : Refusal) × (enter env me info allow_new file ≡ (file, refused r))))

enter_unlocked :
    (env : Env) (me : ℕ) (info : Claim) (allow_new : Bool) (file : Option Content)
    → env.is_source ≡ false
    → (not allow_new && not env.board_exists) ≡ false
    → no_locks env.locks ≡ true
    → Entered env me info allow_new file
unfolding enter check take_checked refuse_other
enter_unlocked env me info allow_new file writable present closed =
    elim (Option-cases (other_live_claim env.alive me file)) [
      | inl free ↦ inl (
        record {
          writable = writable;
          present = present;
          closed = no_locks-nil _ closed;
          free = free_claim env.alive me file free;
        },
        rw (writable, present, closed, free, take_rounds_two env.alive me info file free),
      )
      | inr (c, e) ↦ inr (
        (λ allowed. allowed.free (other_live_claim-HeldByOther env.alive me file c e)),
        (held, rw (writable, present, closed, e)),
      )
    ]

-- `claim` takes the claim exactly when the board is not the read-only source, exists or may be new,
-- has no KiCad lock file beside it and no other live process has the claim: then the file holds the
-- claim of the caller. In all other cases it is refused and the claim file stays as it was.
pub enter-IsAllowed :
    (env : Env) (me : ℕ) (info : Claim) (allow_new : Bool) (file : Option Content)
    → (IsAllowed env me allow_new file
        × (enter env me info allow_new file ≡ (some (holds info), passed)))
      ⊎ ((IsAllowed env me allow_new file → ⊥)
          × ((r : Refusal) × (enter env me info allow_new file ≡ (file, refused r))))
unfolding enter check take_checked
enter-IsAllowed env me info allow_new file = elim (Bool-cases env.is_source) [
  | inl source ↦ inr ((λ a. cc (a.writable)), (read_only, rw source))
  | inr writable ↦ elim (Bool-cases (not allow_new && not env.board_exists)) [
    | inl missing ↦ inr ((λ a. cc (a.present)), (no_board, rw (writable, missing)))
    | inr present ↦ elim (Bool-cases (no_locks env.locks)) [
      | inl closed ↦ enter_unlocked env me info allow_new file writable present closed
      | inr open_board ↦
          inr
            ((λ a. cc (locks_nil env.locks a.closed)), (locked, rw (writable, present, open_board)))
    ]
  ]
]
