-- ===== src/Maze/Legal.antt =====
-- The steps of the maze router of hardware/family/tools/maze_ops.py.
use thermocouple.Prelude.{
  ℕ, zero, suc, ◌+◌, ◌≤◌, ◌<◌, ◌≡◌, ◌≢◌, refl, subst, Bool, true, false, not, ◌&&◌, ◌||◌, none,
  some, ltb, arith, Bool-cases, inl, inr, ◌⊎◌, and_four, and_three, ==→≡, ≡→==,
}
use thermocouple.Maze.{
  Cell, Board, Delta, back, stay, forth, shift, is_moving, may_move, moved, moved_x, moved_y,
  cell_eq,
}

abbrev pub Near : ℕ → ℕ → Type 0
Near a b = (a ≤ b + 1) × (b ≤ a + 1)

-- A step on a layer: to a free neighbour on the board, and past no blocked corner.
pub record IsSlide (b : Board) (p c : Cell) : Type 0 where
  pub layer_kept : c.layer ≡ p.layer
  pub x_within : c.x < b.width
  pub y_within : c.y < b.height
  pub target_free : b.blocked c.layer c.x c.y ≡ false
  pub x_near : Near p.x c.x
  pub y_near : Near p.y c.y
  pub corners_free :
      p.x ≢ c.x
      → p.y ≢ c.y
      → (b.blocked p.layer c.x p.y ≡ false) × (b.blocked p.layer p.x c.y ≡ false)

-- A via to the same place on another layer, where a via may be and that layer is free.
pub record IsVia (b : Board) (p c : Cell) : Type 0 where
  pub x_kept : c.x ≡ p.x
  pub y_kept : c.y ≡ p.y
  pub on_board : c.layer < b.layers
  pub other_layer : c.layer ≢ p.layer
  pub layer_free : b.blocked c.layer c.x c.y ≡ false
  pub allowed : b.via_ok c.x c.y ≡ true

abbrev pub IsStep : Board → Cell → Cell → Type 0
IsStep b p c = IsSlide b p c ⊎ IsVia b p c

shift-Near : (d : Delta) (n m : ℕ) → shift d n ≡ some m → Near n m × ((n ≢ m) → is_moving d ≡ true)
unfolding shift is_moving
shift-Near back zero m h = cc
shift-Near back (suc n) m h = let e : n ≡ m = cc in ((omega arith, omega arith), λ k. refl)
shift-Near stay n m h = let e : n ≡ m = cc in ((omega arith, omega arith), λ k. absurd (k e))
shift-Near forth n m h = let e : suc n ≡ m = cc in ((omega arith, omega arith), λ k. refl)

shift_cases : (d : Delta) (n : ℕ) → (shift d n ≡ none) ⊎ ((m : ℕ) × (shift d n ≡ some m))
unfolding shift
shift_cases back zero = inl refl
shift_cases back (suc n) = inr (n, refl)
shift_cases stay n = inr (n, refl)
shift_cases forth n = inr (suc n, refl)

no_corner : (d a c : Bool) → not (d && (a || c)) ≡ true → d ≡ true → (a ≡ false) × (c ≡ false)
no_corner d a c h e = ground arith

not-true : (a : Bool) → not a ≡ true → a ≡ false
not-true true h = cc
not-true false h = refl

both_moving : (a c : Bool) → a ≡ true → c ≡ true → (a && c) ≡ true
both_moving a c h k = ground arith

may_move-IsSlide :
    (b : Board) (cur : Cell) (dx dy : Delta) (nx ny : ℕ)
    → shift dx cur.x ≡ some nx
    → shift dy cur.y ≡ some ny
    → may_move b cur (is_moving dx && is_moving dy) nx ny ≡ true
    → IsSlide b cur (record { layer = cur.layer; x = nx; y = ny })
unfolding may_move
may_move-IsSlide b cur dx dy nx ny hx hy h =
    let (in_x, in_y, free, corner) =
      and_four (ltb nx b.width) (ltb ny b.height) (not (b.blocked cur.layer nx ny))
        (not (
          (is_moving dx && is_moving dy)
          && (b.blocked cur.layer nx cur.y || b.blocked cur.layer cur.x ny)))
        h in
    let (near_x, moves_x) = shift-Near dx cur.x nx hx in
    let (near_y, moves_y) = shift-Near dy cur.y ny hy in
    record {
      layer_kept = refl;
      x_within = ground (arith, in_x);
      y_within = ground (arith, in_y);
      target_free = not-true _ free;
      x_near = near_x;
      y_near = near_y;
      corners_free = λ other_x other_y.
          no_corner _ _ _ corner (both_moving _ _ (moves_x other_x) (moves_y other_y));
    }

pub moved-IsSlide :
    (b : Board) (cur : Cell) (dx dy : Delta) (nxt : Cell)
    → moved b cur dx dy ≡ some nxt
    → IsSlide b cur nxt
unfolding moved moved_x moved_y
moved-IsSlide b cur dx dy nxt h = elim (shift_cases dx cur.x) [
  | inl off ↦ cc (rw (off, moved_x) at h)
  | inr (nx, hx) ↦ elim (shift_cases dy cur.y) [
    | inl off ↦ cc (rw (hx, moved_x, off, moved_y) at h)
    | inr (ny, hy) ↦ elim (Bool-cases (may_move b cur (is_moving dx && is_moving dy) nx ny)) [
      | inl may ↦
          let e : record { layer = cur.layer; x = nx; y = ny } ≡ nxt =
            cc (rw (hx, moved_x, hy, moved_y, may) at h) in
          subst (IsSlide b cur) e (may_move-IsSlide b cur dx dy nx ny hx hy may)
      | inr may_not ↦ cc (rw (hx, moved_x, hy, moved_y, may_not) at h)
    ]
  ]
]

pub cell_eq→≡ : (a c : Cell) → cell_eq a c ≡ true → a ≡ c
unfolding cell_eq
cell_eq→≡ a c h =
    let (l, x, y) = and_three _ _ _ h in
    let p = ==→≡ a.layer c.layer l in
    let q = ==→≡ a.x c.x x in
    let r = ==→≡ a.y c.y y in λ i. record { layer = p i; x = q i; y = r i }

pub cell_eq_refl : (a : Cell) → cell_eq a a ≡ true
unfolding cell_eq
cell_eq_refl a = rw (≡→== a.layer a.layer refl, ≡→== a.x a.x refl, ≡→== a.y a.y refl)
