-- ===== src/Guard.antt =====
-- The writer claim on a board (hardware/family/tools/guard.py): one tool at a time may write it,
-- and none while KiCad has it open. The file system is the claim file and the list of lock files;
-- which process ids are alive, and the comparisons of paths, are given.
pub mod Refuses
pub mod Children
pub mod Turns
pub mod Interleaved
mod Tests
use thermocouple.Prelude.{
  ℕ, zero, suc, Bool, true, false, not, ◌&&◌, ◌||◌, Option, none, some, List, [], ◌∷◌, Text,
  text_eq, ◌==◌, if◌then◌else◌,
}

-- The dict in output/.writer.json; `pid` is `none` where it is missing or no int.
pub record Claim : Type 0 where
  pub pid : Option ℕ
  pub tool : Text
  pub board : Text
  pub started : Text

-- What a read of the claim file meets: JSON, or text that is none (an OSError or ValueError).
-- JSON that is no dict, which no tool writes there and at which `c.get` would raise, is not modelled.
pub data Content : Type 0 where
  unreadable : Content
  holds : Claim → Content

-- The SystemExit messages, and the uncaught OSError of a remove.
pub data Refusal : Type 0 where
  read_only no_board locked held just_taken cannot_write no_parent lock_appeared os_error : Refusal

pub data Outcome : Type 0 where
  passed : Outcome
  refused : Refusal → Outcome

-- What the tool sees outside the claim file.
pub record Env : Type 0 where
  pub alive : ℕ → Bool
  pub locks : List Text
  pub board_exists : Bool
  pub is_source : Bool

unfoldable pub read_claim : Option Content → Option Claim
read_claim none = none
read_claim (some unreadable) = none
read_claim (some (holds c)) = some c

-- pid == os.getpid()
unfoldable pub is_pid : Option ℕ → ℕ → Bool
is_pid none me = false
is_pid (some p) me = p == me

-- isinstance(pid, int) and pid_alive(pid)
unfoldable pub is_live : (ℕ → Bool) → Option ℕ → Bool
is_live alive none = false
is_live alive (some p) = alive p

-- `_other_live_claim` of a claim that was read.
unfoldable pub other_live : (ℕ → Bool) → ℕ → Option Claim → Option Claim
other_live alive me none = none
other_live alive me (some c) =
    if is_pid c.pid me then none else if is_live alive c.pid then some c else none

unfoldable pub other_live_claim : (ℕ → Bool) → ℕ → Option Content → Option Claim
unfolding read_claim other_live is_pid is_live
other_live_claim alive me file = other_live alive me (read_claim file)

unfoldable pub no_locks : List Text → Bool
no_locks [] = true
no_locks (l ∷ ls) = false

-- The last test of `check`.
unfoldable pub refuse_other : Option Claim → Outcome
refuse_other none = passed
refuse_other (some c) = refused held

unfoldable pub check : Env → ℕ → Bool → Option Content → Outcome
unfolding no_locks refuse_other other_live_claim
check env me allow_new file =
    if not allow_new && not env.board_exists
    then refused no_board
    else if not (no_locks env.locks)
    then refused locked
    else refuse_other (other_live_claim env.alive me file)

-- The rounds of `claim`'s loop, with no other process between its steps: the claim file and how it
-- ended.
unfoldable pub take_rounds : (ℕ → Bool) → ℕ → Claim → ℕ → Option Content → Option Content × Outcome
unfolding other_live_claim
take_rounds alive me info zero file = (file, refused cannot_write)
take_rounds alive me info (suc rounds) none = (some (holds info), passed)
take_rounds alive me info (suc rounds) (some c) = elim (other_live_claim alive me (some c)) [
  | some other ↦ (some c, refused just_taken)
  | none ↦ take_rounds alive me info rounds none
]

-- What follows the outcome of `check`.
unfoldable pub take_checked :
    (ℕ → Bool) → ℕ → Claim → Option Content → Outcome → Option Content × Outcome
unfolding take_rounds
take_checked alive me info file (refused r) = (file, refused r)
take_checked alive me info file passed = take_rounds alive me info 2 file

-- `claim` up to its yield.
unfoldable pub enter : Env → ℕ → Claim → Bool → Option Content → Option Content × Outcome
unfolding check take_checked
enter env me info allow_new file =
    if env.is_source
    then (file, refused read_only)
    else take_checked env.alive me info file (check env me allow_new file)

-- Whether the claim that was read is the process's own.
unfoldable pub is_own : ℕ → Option Claim → Bool
unfolding is_pid
is_own me none = false
is_own me (some c) = is_pid c.pid me

-- The `finally` of `claim`: it removes the claim file if the claim in it is its own.
unfoldable pub leave : ℕ → Option Content → Option Content
unfolding is_own read_claim
leave me file = if is_own me (read_claim file) then none else file

-- `check_parent`; `same_board` compares the claim's board with the child's, and a missing claim is
-- the empty dict.
unfoldable pub is_parent : Env → ℕ → Text → (Text → Bool) → Option Claim → Bool
unfolding is_pid text_eq
is_parent env parent tool same_board none = false
is_parent env parent tool same_board (some c) =
    is_pid c.pid parent && text_eq c.tool tool && same_board c.board && env.alive parent

unfoldable pub check_parent : Env → ℕ → Text → (Text → Bool) → Option Content → Outcome
unfolding is_parent read_claim no_locks
check_parent env parent tool same_board file =
    if not (is_parent env parent tool same_board (read_claim file))
    then refused no_parent
    else if not (no_locks env.locks)
    then refused lock_appeared
    else passed
