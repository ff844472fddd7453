-- ===== src/Guard/Turns.antt =====
-- The writers that hardware/family/tools/guard.py lets in, where no process acts between the steps
-- of another's `claim`.
use thermocouple.Prelude.{
  ℕ, ◌≡◌, ◌≢◌, ap, sym, ◌∙◌, Bool, true, false, Option, some, inl, inr, ◌==◌, arith, ==→≡, ==→≢,
  if◌then◌else◌, Bool-cases,
}
use thermocouple.Guard.{Claim, Content, Env, Refusal, holds, passed, refused, enter, leave}
use thermocouple.Guard.Refuses.{HeldByOther, enter-IsAllowed}

-- The claim file, the processes inside a `with claim(…)` block, and those that are alive.
-- `inside` is about a process's last block: that a process claims again inside its own block, whose
-- end then removes the claim of the outer one, is not modelled.
pub record World : Type 0 where
  pub file : Option Content
  pub inside : ℕ → Bool
  pub alive : ℕ → Bool

unfoldable pub set_at : ℕ → Bool → (ℕ → Bool) → ℕ → Bool
set_at p b f q = if q == p then b else f q

-- A process starts, takes the claim or is refused, leaves its block, or ends with no clean-up.
pub data Step (w : World) : World → Type 0 where
  starts :
      (p : ℕ)
      → w.alive p ≡ false
      → Step w (record w { inside = set_at p false w.inside; alive = set_at p true w.alive })
  enters :
      (p : ℕ) (env : Env) (info : Claim) (allow_new : Bool) (file : Option Content)
      → w.alive p ≡ true
      → env.alive ≡ w.alive
      → info.pid ≡ some p
      → enter env p info allow_new w.file ≡ (file, passed)
      → Step w (record w { file = file; inside = set_at p true w.inside })
  turned_away :
      (p : ℕ) (env : Env) (info : Claim) (allow_new : Bool) (file : Option Content) (r : Refusal)
      → w.alive p ≡ true
      → env.alive ≡ w.alive
      → info.pid ≡ some p
      → enter env p info allow_new w.file ≡ (file, refused r)
      → Step w (record w { file = file })
  leaves :
      (p : ℕ)
      → w.alive p ≡ true
      → w.inside p ≡ true
      → Step w (record w { file = leave p w.file; inside = set_at p false w.inside })
  dies : (p : ℕ) → Step w (record w { alive = set_at p false w.alive })

pub data Reach (w : World) : World → Type 0 where
  here : Reach w w
  next : {u v : World} → Reach w u → Step u v → Reach w v

-- A live process inside its block.
abbrev pub IsWriter : World → ℕ → Type 0
IsWriter w p = (w.alive p ≡ true) × (w.inside p ≡ true)

-- The claim in the file is the process's.
abbrev Owns : Option Content → ℕ → Type 0
Owns file p = (c : Claim) × (file ≡ some (holds c)) × (c.pid ≡ some p)

abbrev Owned : World → Type 0
Owned w = (p : ℕ) → IsWriter w p → Owns w.file p

owner_unique : (file : Option Content) (p q : ℕ) → Owns file p → Owns file q → p ≡ q
owner_unique file p q (c, e, i) (d, f, j) = cc

set_at-true : (p q : ℕ) (f : ℕ → Bool) → set_at p false f q ≡ true → (q ≢ p) × (f q ≡ true)
unfolding set_at
set_at-true p q f h = (ground arith, ground arith)

set_at_other : (b : Bool) (p q : ℕ) (f : ℕ → Bool) → q ≢ p → set_at p b f q ≡ true → f q ≡ true
unfolding set_at
set_at_other b p q f other h = ground arith

entered :
    (env : Env) (p : ℕ) (info : Claim) (allow_new : Bool) (old file : Option Content)
    → enter env p info allow_new old ≡ (file, passed)
    → (file ≡ some (holds info)) × (HeldByOther env.alive p old → ⊥)
entered env p info allow_new old file h = elim (enter-IsAllowed env p info allow_new old) [
  | inl (allowed, e) ↦ (cc, allowed.free)
  | inr (no_entry, r) ↦ cc (r.1)
]

turned :
    (env : Env) (p : ℕ) (info : Claim) (allow_new : Bool) (old file : Option Content) (r : Refusal)
    → enter env p info allow_new old ≡ (file, refused r)
    → file ≡ old
turned env p info allow_new old file r h = elim (enter-IsAllowed env p info allow_new old) [
  | inl (allowed, e) ↦ cc
  | inr (no_entry, s) ↦ let e : r ≡ s.0 = cc (s.1) in cc (s.1)
]

Step-Owned : {w v : World} → Step w v → Owned w → Owned v
Step-Owned {w} (starts p dead) own q (q_live, q_inside) =
    let (other, was) = set_at-true p q w.inside q_inside in
    own q (set_at_other true p q w.alive other q_live, was)
Step-Owned {w} (enters p env info allow_new file live same pid h) own q (q_live, q_inside) =
    let (written, free) = entered env p info allow_new w.file file h in
    elim (Bool-cases (q == p)) [
      | inl me ↦ (info, written, pid ∙ ap some (sym (==→≡ q p me)))
      | inr other ↦
          let was = set_at_other true p q w.inside (==→≢ q p other) q_inside in
          let (c, e, i) = own q (q_live, was) in
          absurd (free (c, q, e, i, ==→≢ q p other, rw same q_live))
    ]
Step-Owned {w} (turned_away p env info allow_new file r live same pid h) own q writer =
    rw (turned env p info allow_new w.file file r h) (own q writer)
Step-Owned {w} (leaves p live inside) own q (q_live, q_inside) =
    let (other, was) = set_at-true p q w.inside q_inside in
    absurd (other (owner_unique w.file q p (own q (q_live, was)) (own p (live, inside))))
Step-Owned {w} (dies p) own q (q_live, q_inside) =
    own q ((set_at-true p q w.alive q_live).1, q_inside)

Reach-Owned : {w v : World} → Owned w → Reach w v → Owned v
Reach-Owned own here = own
Reach-Owned own (next r step) = Step-Owned step (Reach-Owned own r)

-- From a world with no process inside a block, whatever its claim file, there is never more than
-- one live process inside its block, and the claim in the file is that process's. Processes may
-- start, die without clean-up and take the number of a dead one; no process acts while another
-- runs its `claim` up to the block or the end of it.
pub Reach-one_writer :
    {w v : World}
    → ((p : ℕ) → w.inside p ≡ false)
    → Reach w v
    → (p q : ℕ) → IsWriter v p
    → IsWriter v q
    → (p ≡ q) × ((c : Claim) × (v.file ≡ some (holds c)) × (c.pid ≡ some p))
Reach-one_writer {w} {v} empty r p q p_writes q_writes =
    let no_inside : (k : ℕ) → IsWriter w k → ⊥ = λ k writer. cc (empty k, writer.1) in
    let own : Owned v = Reach-Owned (λ k writer. absurd (no_inside k writer)) r in
    (owner_unique v.file p q (own p p_writes) (own q q_writes), own p p_writes)
