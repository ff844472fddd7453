-- ===== src/Guard/Children.antt =====
-- When `check_parent` of hardware/family/tools/guard.py lets a deletion child write.
use thermocouple.Prelude.{
  ℕ, ◌≡◌, refl, ap, Bool, true, Option, none, some, [], Text, inl, inr, ◌↔◌, ==→≡, ≡→==, Bool-cases,
  and_four, and_four_intro, text_eq→≡, text_eq_refl,
}
use thermocouple.Guard.{
  Claim, Content, Env, holds, unreadable, passed, read_claim, is_pid, no_locks, is_parent,
  check_parent,
}
use thermocouple.Guard.Refuses.{no_locks-nil, locks_nil}

is_pid-eq : (pid : Option ℕ) (p : ℕ) → is_pid pid p ≡ true → pid ≡ some p
unfolding is_pid
is_pid-eq none p h = cc
is_pid-eq (some q) p h = ap some (==→≡ q p h)

eq-is_pid : (pid : Option ℕ) (p : ℕ) → pid ≡ some p → is_pid pid p ≡ true
unfolding is_pid
eq-is_pid pid p e = rw e (≡→== p p refl)

-- The parent's claim, as the child wants it.
abbrev pub HeldByParent : ℕ → Text → (Text → Bool) → Option Content → Type 0
HeldByParent parent tool same_board file =
    (c : Claim) × (file ≡ some (holds c))
    × (c.pid ≡ some parent)
    × (c.tool ≡ tool)
    × (same_board c.board ≡ true)

module _ (env : Env) (parent : ℕ) (tool : Text) (same_board : Text → Bool) where
  is_parent-HeldByParent :
      (file : Option Content)
      → is_parent env parent tool same_board (read_claim file) ≡ true
      → HeldByParent parent tool same_board file × (env.alive parent ≡ true)
  unfolding is_parent read_claim
  is_parent-HeldByParent none h = cc
  is_parent-HeldByParent (some unreadable) h = cc
  is_parent-HeldByParent (some (holds c)) h =
      let (pid, same, board, live) = and_four _ _ _ _ h in
      ((c, refl, is_pid-eq c.pid parent pid, text_eq→≡ _ _ same, board), live)

  HeldByParent-is_parent :
      (file : Option Content)
      → HeldByParent parent tool same_board file
      → env.alive parent ≡ true
      → is_parent env parent tool same_board (read_claim file) ≡ true
  unfolding is_parent read_claim
  HeldByParent-is_parent file (c, e, pid, same, board) live =
      rw (e, read_claim, is_parent)
        (and_four_intro (eq-is_pid c.pid parent pid) (rw same (text_eq_refl tool)) board live)

  child_passed :
      (file : Option Content)
      → check_parent env parent tool same_board file ≡ passed
      → HeldByParent parent tool same_board file × (env.alive parent ≡ true) × (env.locks ≡ [])
  unfolding check_parent
  child_passed file h = elim (Bool-cases (is_parent env parent tool same_board (read_claim file))) [
    | inl good ↦ elim (Bool-cases (no_locks env.locks)) [
      | inl closed ↦
          let (own, live) = is_parent-HeldByParent file good in (own, live, no_locks-nil _ closed)
      | inr open_board ↦ cc (rw (good, open_board) at h)
    ]
    | inr bad ↦ cc (rw bad at h)
  ]

-- A deletion child may write exactly when the claim that can be read is its live parent's, of the
-- expected tool and on the same board, and KiCad has no lock file beside it.
pub check_parent_iff :
    (env : Env) (parent : ℕ) (tool : Text) (same_board : Text → Bool) (file : Option Content)
    → (check_parent env parent tool same_board file ≡ passed)
      ↔ (HeldByParent parent tool same_board file × (env.alive parent ≡ true) × (env.locks ≡ []))
unfolding check_parent
check_parent_iff env parent tool same_board file = (
  child_passed env parent tool same_board file,
  λ (own, live, closed).
      rw (HeldByParent-is_parent env parent tool same_board file own live, locks_nil _ closed),
)
