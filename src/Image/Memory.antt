-- ===== src/Image/Memory.antt =====
-- The `memory` dict of firmware/family/image_metadata.py: addresses to bytes, the newest entry first.
use thermocouple.Prelude.{
  ℕ, ◌<◌, ◌≡◌, refl, Bool, true, false, ◌||◌, Option, none, some, List, [], ◌∷◌, arith, ◌==◌,
  if◌then◌else◌,
}

abbrev pub Memory : Type 0
Memory = List (ℕ × ℕ)

-- memory[a], `none` for a KeyError
unfoldable pub lookup : ℕ → Memory → Option ℕ
lookup a [] = none
lookup a ((b, v) ∷ m) = if b == a then some v else lookup a m

-- a in memory
unfoldable pub has : ℕ → Memory → Bool
has a [] = false
has a ((b, v) ∷ m) = b == a || has a m

-- Every entry is a byte at an address below the limit, and no address stands twice.
abbrev pub IsImage : ℕ → Memory → Type 0
IsImage limit [] = Unit
IsImage limit ((a, v) ∷ m) = (a < limit) × (v < 256) × (has a m ≡ false) × IsImage limit m

pub has-lookup : (a : ℕ) (m : Memory) → has a m ≡ false → lookup a m ≡ none
unfolding has lookup
has-lookup a [] h = refl
has-lookup a ((b, v) ∷ m) h = ground (arith, has-lookup a m)

pub lookup-has : (a v : ℕ) (m : Memory) → lookup a m ≡ some v → has a m ≡ true
unfolding has lookup
lookup-has a v [] h = cc
lookup-has a v ((b, w) ∷ m) h = ground (arith, lookup-has a v m)

pub lookup-IsImage :
    (limit a v : ℕ) (m : Memory) → IsImage limit m → lookup a m ≡ some v → (a < limit) × (v < 256)
unfolding lookup
lookup-IsImage limit a v [] i h = cc
lookup-IsImage limit a v ((b, w) ∷ m) i h = ground (arith, lookup-IsImage limit a v m i.3)
