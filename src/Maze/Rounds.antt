-- ===== src/Maze/Rounds.antt =====
-- The rounds of `astar` of hardware/family/tools/maze_ops.py.
use thermocouple.Prelude.{
  ℕ, zero, suc, ◌+◌, ◌*◌, ◌-◌, ◌≤◌, ◌<◌, ◌≡◌, ◌≢◌, refl, ◌∙◌, ap, ◌||◌, Option, none, some, List,
  [], ◌∷◌, length, ltb, arith, Bool-cases, inl, inr, ◌==◌,
}
use thermocouple.Maze.{
  Cell, Board, Delta, Entry, Closed, Costs, Open, is_closed, improves, pop_least, entry_ltb, offer,
  offer_move, offer_moves, offer_via, offer_vias, expand, mem_cell, ends_on_via, out_of_rounds,
  search_from, open_starts, astar, moved, moves, limit,
}

pop_least-length : (e : Entry) (heap : List Entry) → length (pop_least e heap).1 ≡ length heap
unfolding pop_least
pop_least-length e [] = refl
pop_least-length e (d ∷ heap) = elim (Bool-cases (entry_ltb e (pop_least d heap).0)) [
  | inl first ↦ rw first
  | inr later ↦ rw later (ap suc (pop_least-length d heap))
]

offer-length :
    (b : Board) (cur : Cell) (ng : ℕ) (nxt : Cell) (o : Open)
    → length (offer b cur ng nxt o).heap ≤ length o.heap + 1
unfolding offer
offer-length b cur ng nxt o = elim (Bool-cases (improves nxt ng o.dist)) [
  | inl better ↦ rw better (omega arith)
  | inr worse ↦ rw worse (omega arith)
]

offer_move-length :
    (b : Board) (cur : Cell) (cost : ℕ) (target : Option Cell) (o : Open)
    → length (offer_move b cur cost target o).heap ≤ length o.heap + 1
unfolding offer_move
offer_move-length b cur cost none o = omega arith
offer_move-length b cur cost (some nxt) o = offer-length b cur _ nxt o

offer_moves-length :
    (b : Board) (cur : Cell) (g : ℕ) (ms : List (Delta × Delta × ℕ)) (o : Open)
    → length (offer_moves b cur g ms o).heap ≤ length o.heap + length ms
unfolding offer_moves
offer_moves-length b cur g [] o = omega arith
offer_moves-length b cur g ((dx, dy, c) ∷ ms) o = omega (
  arith,
  offer_move-length b cur (g + c) (moved b cur dx dy) o,
  offer_moves-length b cur g ms (offer_move b cur (g + c) (moved b cur dx dy) o),
)

offer_vias-length :
    (b : Board) (cur : Cell) (g n : ℕ) (o : Open)
    → length (offer_vias b cur g n o).heap ≤ length o.heap + n
unfolding offer_vias offer_via
offer_vias-length b cur g zero o = omega arith
offer_vias-length b cur g (suc n) o =
    elim (Bool-cases (n == cur.layer || b.blocked n cur.x cur.y)) [
      | inl shut ↦ rw shut (omega (arith, offer_vias-length b cur g n o))
      | inr free ↦ rw free (
          omega
            (arith, offer_vias-length b cur g n o, offer-length b cur _ _ (offer_vias b cur g n o)))
    ]

expand-length :
    (b : Board) (cur : Cell) (g : ℕ) (o : Open)
    → length (expand b cur g o).heap ≤ length o.heap + (8 + b.layers)
unfolding expand
expand-length b cur g o =
    let m = offer_moves-length b cur g moves o in
    elim (Bool-cases (b.via_ok cur.x cur.y)) [
      | inl allowed ↦
          rw allowed
            (omega (arith, offer_vias-length b cur g b.layers (offer_moves b cur g moves o)))
      | inr not_here ↦ rw not_here (omega arith)
    ]

-- What `d` cells that are closed can add to the heap.
budget : ℕ → ℕ → ℕ
budget zero k = 0
budget (suc d) k = k + budget d k

budget-mul : (d k : ℕ) → budget d k ≡ d * k
unfolding budget
budget-mul zero k = grind arith
budget-mul (suc d) k = grind (arith, budget-mul d k)

suc_sub : (d : ℕ) → suc d - 1 ≡ d
suc_sub d = omega arith

budget_step : (d k : ℕ) → 0 < d → budget d k ≡ k + budget (d - 1) k
unfolding budget
budget_step zero k h = absurd (omega arith)
budget_step (suc d) k h = rw (suc_sub d)

search_from-ends :
    (b : Board) (rounds n d : ℕ) (prev : Closed) (dist : Costs) (heap : List Entry)
    → n + d ≡ limit
    → length heap + budget d (8 + b.layers) < rounds
    → search_from b rounds n prev dist heap ≢ out_of_rounds
unfolding search_from
search_from-ends b zero n d prev dist heap total enough h = absurd (omega arith)
search_from-ends b (suc rounds) n d prev dist [] total enough h = cc
search_from-ends b (suc rounds) n d prev dist (e ∷ es) total enough h =
    let popped = pop_least e es in
    let cur = popped.0.cell in
    let same = pop_least-length e es in
    elim (Bool-cases (is_closed cur prev)) [
      | inl seen ↦
          search_from-ends b rounds n d prev dist popped.1 total (omega arith) (rw seen at h)
      | inr new ↦ elim (Bool-cases (ltb limit (suc n))) [
        | inl over ↦ cc (rw (new, over) at h)
        | inr within ↦ elim (Bool-cases (mem_cell cur b.goals || ends_on_via b cur)) [
          | inl done ↦ cc (rw (new, within, done) at h)
          | inr on ↦
              let opened = expand b cur popped.0.g (record { dist = dist; heap = popped.1 }) in
              let more = expand-length b cur popped.0.g (record { dist = dist; heap = popped.1 }) in
              let room : n < limit = ground (arith, within) in
              let paid = budget_step d (8 + b.layers) (omega arith) in
              search_from-ends b rounds (suc n) (d - 1) ((cur, popped.0.par) ∷ prev) opened.dist
                opened.heap (omega arith) (omega arith) (rw (new, within, on) at h)
        ]
      ]
    ]

open_starts-length :
    (b : Board) (ss : List Cell) (o : Open)
    → length (open_starts b ss o).heap ≡ length o.heap + length ss
unfolding open_starts
open_starts-length b [] o = omega arith
open_starts-length b (s ∷ ss) o = open_starts-length b ss _ ∙ omega arith

-- The search ends by itself: with more rounds than there are start cells and pushes for the
-- 4,000,000 cells that may be closed, eight moves and the vias of each, it finds a path or says that
-- there is none.
pub astar-ends :
    (b : Board) (rounds : ℕ)
    → length b.starts + limit * (8 + b.layers) < rounds
    → astar b rounds ≢ out_of_rounds
unfolding astar
astar-ends b rounds enough =
    let opened = open_starts b b.starts (record { dist = []; heap = [] }) in
    let k = 8 + b.layers in
    let total : budget limit k ≡ limit * k = budget-mul limit k in
    let size = open_starts-length b b.starts (record { dist = []; heap = [] }) in
    search_from-ends b rounds 0 limit [] opened.dist opened.heap (omega arith) (omega arith)
