-- ===== src/Prelude/Bits.antt =====
-- Two bytes joined by `|` and a shift.
use Prim.Native.Nat.{ℕ, zero, suc, ◌+◌, ◌*◌, ◌<◌, bit_or}
use mathlib.Core.Path.{◌≡◌, refl}
use mathlib.Core.Bool.{Bool, true, ◌&&◌}
use native.Mathlib.Omega.{arith}
use thermocouple.Prelude.Tests.{◌==◌, ==→≡}

-- The test on each number below the bound, from the top.
every : ℕ → (ℕ → Bool) → Bool
every zero test = true
every (suc top) test = test top && every top test

every-true : (bound n : ℕ) (test : ℕ → Bool) → n < bound → every bound test ≡ true → test n ≡ true
unfolding every
every-true zero n test below passed = elim below [ ]
every-true (suc top) n test below passed = ground (arith, every-true top n test)

joins : ℕ → ℕ → Bool
joins high low = bit_or low (high * 256) == low + high * 256

joins_table : every 256 (λ high. every 256 (joins high)) ≡ true
unfolding every joins
joins_table = refl

pub bit_or-bytes :
    (low high : ℕ) → low < 256 → high < 256 → bit_or low (high * 256) ≡ low + high * 256
unfolding joins
bit_or-bytes low high l h =
    ==→≡ _ _ (every-true 256 low (joins high) l (every-true 256 high _ h joins_table))
