-- ===== src/Prelude/Slices.antt =====
-- Python's slices of lists of bytes, and what they have to do with `++`.
use Prim.Native.Nat.{ℕ, zero, suc, ◌+◌, ◌<◌}
use mathlib.Core.Path.{◌≡◌, refl, ap, sym, ◌∙◌}
use mathlib.Core.Bool.{false, not}
use mathlib.Core.List.{List, [], ◌∷◌, ◌++◌}
use native.Mathlib.Omega.{arith}
use thermocouple.Prelude.Tests.{◌==◌}
use thermocouple.Prelude.Lists.{length, take, drop, get_or, replicate, any, take-append-drop}

-- xs[from:from + count]
abbrev pub slice : ℕ → ℕ → List ℕ → List ℕ
slice from count xs = take count (drop from xs)

pub drop_nil : (k : ℕ) → drop {A = ℕ} k [] ≡ []
drop_nil zero = refl
drop_nil (suc k) = refl

pub drop-drop : (n k : ℕ) (xs : List ℕ) → drop k (drop n xs) ≡ drop (n + k) xs
drop-drop zero k xs = let e : k ≡ zero + k = omega arith in ap (λ (t : ℕ). drop t xs) e
drop-drop (suc n) k [] = drop_nil k ∙ sym (drop_nil (suc n + k))
drop-drop (suc n) k (x ∷ xs) =
    let e : suc (n + k) ≡ suc n + k = omega arith in
    drop-drop n k xs ∙ ap (λ (t : ℕ). drop t (x ∷ xs)) e

pub drop-slice : (n k : ℕ) (xs : List ℕ) → drop n xs ≡ slice n k xs ++ drop (n + k) xs
drop-slice n k xs =
    sym (take-append-drop k (drop n xs)) ∙ ap (λ (t : List ℕ). slice n k xs ++ t) (drop-drop n k xs)

pub drop_at : (n : ℕ) (xs : List ℕ) → n < length xs → drop n xs ≡ get_or xs n 0 ∷ drop (suc n) xs
drop_at zero [] h = absurd (omega arith)
drop_at zero (x ∷ xs) h = refl
drop_at (suc n) [] h = absurd (omega arith)
drop_at (suc n) (x ∷ xs) h = drop_at n xs (omega arith)

pub any-zeros : (xs : List ℕ) → any (λ b. not (b == 0)) xs ≡ false → xs ≡ replicate (length xs) 0
unfolding any
any-zeros [] h = refl
any-zeros (x ∷ xs) h = ground (arith, any-zeros xs)

pub zeros-any : (n : ℕ) → any (λ b. not (b == 0)) (replicate n 0) ≡ false
unfolding any
zeros-any zero = refl
zeros-any (suc n) = zeros-any n

pub take-append : (xs ys : List ℕ) (n : ℕ) → length xs ≡ n → take n (xs ++ ys) ≡ xs
take-append [] ys n h = let e : n ≡ 0 = omega arith in rw e
take-append (x ∷ xs) ys zero h = absurd (omega arith)
take-append (x ∷ xs) ys (suc n) h = ap (λ (t : List ℕ). x ∷ t) (take-append xs ys n (omega arith))

pub drop-append : (xs ys : List ℕ) (n k : ℕ) → length xs ≡ n → drop (n + k) (xs ++ ys) ≡ drop k ys
drop-append [] ys n k h = let e : n + k ≡ k = omega arith in rw e
drop-append (x ∷ xs) ys zero k h = absurd (omega arith)
drop-append (x ∷ xs) ys (suc n) k h =
    let e : suc n + k ≡ suc (n + k) = omega arith in rw e (drop-append xs ys n k (omega arith))

pub get_or-append :
    (xs ys : List ℕ) (n : ℕ) (d : ℕ) → length xs ≡ n → get_or (xs ++ ys) n d ≡ get_or ys 0 d
get_or-append [] ys n d h = let e : n ≡ 0 = omega arith in rw e
get_or-append (x ∷ xs) ys zero d h = absurd (omega arith)
get_or-append (x ∷ xs) ys (suc n) d h = get_or-append xs ys n d (omega arith)
