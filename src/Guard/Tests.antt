-- ===== src/Guard/Tests.antt =====
-- The writer claim of hardware/family/tools/guard.py at concrete worlds.
use thermocouple.Prelude.{
  ℕ, ◌≡◌, refl, ◌↔◌, ◌⊎◌, Bool, true, false, Option, none, some, [], codes, arith, ◌==◌,
}
use thermocouple.Guard.{Claim, Content, Env, Refusal, holds, passed, refused, enter, check_parent}
use thermocouple.Guard.Children.{HeldByParent, check_parent_iff}
use thermocouple.Guard.Refuses.{IsAllowed, enter-IsAllowed}
use thermocouple.Guard.Turns.{
  World, Reach, starts, enters, dies, here, next, IsWriter, Reach-one_writer, set_at,
}
use thermocouple.Guard.Interleaved.{System, idle, holding, run, late_write, two_writers}

abbrev claim_of : ℕ → Claim
claim_of p = record {
  pid = some p;
  tool = codes "maze";
  board = codes "/b/x.kicad_pcb";
  started = codes "2026-01-01 00:00:00";
}

abbrev env_of : (ℕ → Bool) → Env
env_of alive = record { alive = alive; locks = []; board_exists = true; is_source = false }

abbrev only : ℕ → ℕ → Bool
only p q = q == p

abbrev stale_file : Option Content
stale_file = some (holds (claim_of 1))

enter-IsAllowed_example :
    (IsAllowed (env_of (only 2)) 2 false stale_file
      × (enter (env_of (only 2)) 2 (claim_of 2) false stale_file
          ≡ (some (holds (claim_of 2)), passed)))
    ⊎ ((IsAllowed (env_of (only 2)) 2 false stale_file → ⊥)
        × ((r : Refusal) × (enter (env_of (only 2)) 2 (claim_of 2) false stale_file
              ≡ (stale_file, refused r))))
enter-IsAllowed_example = enter-IsAllowed (env_of (only 2)) 2 (claim_of 2) false stale_file

check_parent_iff_example :
    (check_parent (env_of (only 1)) 1 (codes "maze") (λ b. true) stale_file ≡ passed) ↔ (
      HeldByParent 1 (codes "maze") (λ b. true) stale_file
      × ((env_of (only 1)).alive 1 ≡ true)
      × ((env_of (only 1)).locks ≡ []))
check_parent_iff_example =
    check_parent_iff (env_of (only 1)) 1 (codes "maze") (λ b. true) stale_file

run_enter : Unit {0}
unfolding enter
run_enter = tt

replaces_stale :
    enter (env_of (only 2)) 2 (claim_of 2) false stale_file ≡ (some (holds (claim_of 2)), passed)
unfolding run_enter
replaces_stale = refl

-- Process 1 enters and dies, and process 2 takes its place.
abbrev first_world : World
first_world = record { file = none; inside = λ p. false; alive = only 1 }

second_entered :
    (v : World) × Reach first_world v × (IsWriter v 2) × (v.file ≡ some (holds (claim_of 2)))
unfolding run_enter set_at
second_entered = (
  _,
  next
      (next
        (next (next here (enters 1 (env_of (only 1)) (claim_of 1) false _ refl refl refl refl))
          (dies 1))
        (starts 2 refl))
      (enters 2 (env_of _) (claim_of 2) false _ refl refl refl refl),
  (refl, refl),
  refl,
)

Reach-one_writer_example :
    ((◌≡◌ {A = ℕ} 2 2)
      × ((c : Claim) × (second_entered.0.file ≡ some (holds c)) × (c.pid ≡ some 2)))
Reach-one_writer_example =
    Reach-one_writer {w = first_world} {v = second_entered.0} (λ p. refl) second_entered.1 2 2
      second_entered.2 second_entered.2

abbrev at_rest : System
at_rest = record { file = none; place = λ p. idle }

two_writers_example :
    ((run (λ p. true) true claim_of (late_write 1 2) at_rest).place 1 ≡ holding)
    × ((run (λ p. true) true claim_of (late_write 1 2) at_rest).place 2 ≡ holding)
two_writers_example = two_writers (λ p. true) true claim_of 1 2 at_rest (omega arith) refl refl refl
