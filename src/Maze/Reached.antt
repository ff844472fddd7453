-- ===== src/Maze/Reached.antt =====
-- The cells that `astar` of hardware/family/tools/maze_ops.py has reached, and the paths to them.
use thermocouple.Prelude.{
  ℕ, zero, suc, ◌+◌, ◌≡◌, refl, sym, subst, true, ◌||◌, Option, none, some, List, [], ◌∷◌, arith,
  Bool-cases, inl, inr, ◌⊎◌, All, ||-false, ◌==◌, ==→≢, ◌<◌,
}
use thermocouple.Maze.Legal.{IsStep, IsVia, IsSlide, moved-IsSlide, cell_eq→≡}
use thermocouple.Maze.{
  Cell, Board, Delta, Entry, Closed, Open, cell_eq, is_closed, improves, pop_least, entry_ltb,
  offer, offer_move, offer_moves, offer_via, offer_vias, expand, trace, mem_cell, moved, moves,
}

-- Every cell of the list is a step from the one before it.
abbrev pub Linked : Board → Cell → List Cell → Type 0
Linked b c [] = Unit
Linked b c (d ∷ cs) = IsStep b c d × Linked b d cs

abbrev pub last_cell : Cell → List Cell → Cell
last_cell c [] = c
last_cell c (d ∷ cs) = last_cell d cs

-- The cell was reached: from the start by its own, or by a step from a closed cell.
abbrev pub Reached : Board → Closed → Cell → Option Cell → Type 0
Reached b prev c none = mem_cell c b.starts ≡ true
Reached b prev c (some p) = (is_closed p prev ≡ true) × IsStep b p c

abbrev pub AllReached : Board → Closed → Type 0
AllReached b [] = Unit
AllReached b ((c, par) ∷ prev) = Reached b prev c par × AllReached b prev

-- A route: from a start, by steps, to the cell.
abbrev pub IsRoute : Board → List Cell → Cell → Type 0
IsRoute b path end =
    (s : Cell) × (rest : List Cell) × (path ≡ s ∷ rest)
    × (mem_cell s b.starts ≡ true)
    × Linked b s rest
    × (last_cell s rest ≡ end)

pub trace-IsRoute :
    (b : Board) (prev : Closed) (c : Cell) (path : List Cell)
    → AllReached b prev
    → is_closed c prev ≡ true
    → Linked b c path
    → IsRoute b (trace prev c path) (last_cell c path)
unfolding trace is_closed
trace-IsRoute b [] c path reached closed linked = cc
trace-IsRoute b ((k, none) ∷ prev) c path (start, reached) closed linked =
    elim (Bool-cases (cell_eq c k)) [
      | inl here ↦ rw here (c, path, refl, rw (cell_eq→≡ c k here) start, linked, refl)
      | inr further ↦ rw further (trace-IsRoute b prev c path reached (rw further at closed) linked)
    ]
trace-IsRoute b ((k, some p) ∷ prev) c path ((p_closed, step), reached) closed linked =
    elim (Bool-cases (cell_eq c k)) [
      | inl here ↦
          let e = sym (cell_eq→≡ c k here) in
          rw here
            (trace-IsRoute b prev p (c ∷ path) reached p_closed (subst (IsStep b p) e step, linked))
      | inr further ↦ rw further (trace-IsRoute b prev c path reached (rw further at closed) linked)
    ]

-- An entry of the heap is that of a cell that was reached.
abbrev pub Offered : Board → Closed → Entry → Type 0
Offered b prev e = Reached b prev e.cell e.par

pub Reached-more :
    (b : Board) (prev : Closed) (c k : Cell) (par q : Option Cell)
    → Reached b prev c par
    → Reached b ((k, q) ∷ prev) c par
unfolding is_closed
Reached-more b prev c k none q h = h
Reached-more b prev c k (some p) q (closed, step) = (ground (arith, closed), step)

pub All-more :
    (b : Board) (prev : Closed) (k : Cell) (q : Option Cell) (heap : List Entry)
    → All (Offered b prev) heap
    → All (Offered b ((k, q) ∷ prev)) heap
All-more b prev k q [] h = tt
All-more b prev k q (e ∷ heap) h =
    (Reached-more b prev e.cell k e.par q h.0, All-more b prev k q heap h.1)

pub pop_least-All :
    (P : Entry → Type 0) (e : Entry) (heap : List Entry)
    → P e
    → All P heap
    → P (pop_least e heap).0 × All P (pop_least e heap).1
unfolding pop_least
pop_least-All P e [] h all = (h, tt)
pop_least-All P e (d ∷ heap) h all =
    let (least, others) = pop_least-All P d heap all.0 all.1 in
    elim (Bool-cases (entry_ltb e (pop_least d heap).0)) [
      | inl first ↦ rw first (h, all)
      | inr later ↦ rw later (least, (h, others))
    ]

module _ (b : Board) (prev : Closed) (cur : Cell) (here : is_closed cur prev ≡ true) where
  pub offer-All :
      (ng : ℕ) (nxt : Cell) (o : Open)
      → IsStep b cur nxt
      → All (Offered b prev) o.heap
      → All (Offered b prev) (offer b cur ng nxt o).heap
  unfolding offer
  offer-All ng nxt o step all = elim (Bool-cases (improves nxt ng o.dist)) [
    | inl better ↦ rw better ((here, step), all)
    | inr worse ↦ rw worse all
  ]

  pub offer_move-All :
      (cost : ℕ) (target : Option Cell) (o : Open)
      → ((nxt : Cell) → target ≡ some nxt → IsSlide b cur nxt)
      → All (Offered b prev) o.heap
      → All (Offered b prev) (offer_move b cur cost target o).heap
  unfolding offer_move
  offer_move-All cost none o slide all = all
  offer_move-All cost (some nxt) o slide all = offer-All _ nxt o (inl (slide nxt refl)) all

  pub offer_moves-All :
      (g : ℕ) (ms : List (Delta × Delta × ℕ)) (o : Open)
      → All (Offered b prev) o.heap
      → All (Offered b prev) (offer_moves b cur g ms o).heap
  unfolding offer_moves
  offer_moves-All g [] o all = all
  offer_moves-All g ((dx, dy, c) ∷ ms) o all =
      offer_moves-All g ms (offer_move b cur (g + c) (moved b cur dx dy) o)
        (offer_move-All (g + c) (moved b cur dx dy) o (moved-IsSlide b cur dx dy) all)

  pub offer_vias-All :
      (g n : ℕ) (o : Open)
      → (n ≡ b.layers) ⊎ (n < b.layers)
      → b.via_ok cur.x cur.y ≡ true
      → All (Offered b prev) o.heap
      → All (Offered b prev) (offer_vias b cur g n o).heap
  unfolding offer_vias offer_via
  offer_vias-All g zero o few allowed all = all
  offer_vias-All g (suc n) o few allowed all =
      let below = offer_vias-All g n o (inr (omega arith)) allowed all in
      elim (Bool-cases (n == cur.layer || b.blocked n cur.x cur.y)) [
        | inl shut ↦ rw shut below
        | inr free ↦
            let (other, open_layer) = ||-false (n == cur.layer) (b.blocked n cur.x cur.y) free in
            let via : IsVia b cur (record { layer = n; x = cur.x; y = cur.y }) = record {
              x_kept = refl;
              y_kept = refl;
              on_board = omega arith;
              other_layer = ==→≢ n cur.layer other;
              layer_free = open_layer;
              allowed = allowed;
            } in
            rw free (offer-All _ _ _ (inr via) below)
      ]

  pub expand-All :
      (g : ℕ) (o : Open)
      → All (Offered b prev) o.heap
      → All (Offered b prev) (expand b cur g o).heap
  unfolding expand
  expand-All g o all = elim (Bool-cases (b.via_ok cur.x cur.y)) [
    | inl allowed ↦
        rw allowed (offer_vias-All g b.layers _ (inl refl) allowed (offer_moves-All g moves o all))
    | inr not_here ↦ rw not_here (offer_moves-All g moves o all)
  ]
