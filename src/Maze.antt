-- ===== src/Maze.antt =====
-- The search of the maze router (`astar` of hardware/family/tools/maze_ops.py). Costs are counted in
-- 1/10000 of a grid step; the estimate of the distance that is left is given.
pub mod Legal
pub mod Reached
pub mod Sound
pub mod Rounds
pub mod Clearance
mod Tests
use thermocouple.Prelude.{
  ℕ, zero, suc, ◌+◌, Bool, true, false, not, ◌&&◌, ◌||◌, Option, none, some, List, [], ◌∷◌, ◌++◌,
  if◌then◌else◌, ◌==◌, ltb, leb,
}

pub record Cell : Type 0 where
  pub layer : ℕ
  pub x : ℕ
  pub y : ℕ

unfoldable pub cell_eq : Cell → Cell → Bool
cell_eq a b = a.layer == b.layer && a.x == b.x && a.y == b.y

-- The arguments of `astar`, with NX and NY; `estimate` is its `h`.
pub record Board : Type 0 where
  pub layers : ℕ
  pub width : ℕ
  pub height : ℕ
  pub blocked : ℕ → ℕ → ℕ → Bool
  pub via_ok : ℕ → ℕ → Bool
  pub soft : ℕ → ℕ → ℕ → Bool
  pub penalty : ℕ
  pub starts : List Cell
  pub goals : List Cell
  pub via_goal : Bool
  pub estimate : ℕ → ℕ → ℕ

-- -1, 0 and 1.
pub data Delta : Type 0 where
  back stay forth : Delta

unfoldable pub shift : Delta → ℕ → Option ℕ
shift back zero = none
shift back (suc n) = some n
shift stay n = some n
shift forth n = some (suc n)

unfoldable pub is_moving : Delta → Bool
is_moving stay = false
is_moving back = true
is_moving forth = true

-- `moves`, with the costs.
abbrev pub moves : List (Delta × Delta × ℕ)
moves =
    (forth, stay, 10000)
    ∷ (back, stay, 10000)
    ∷ (stay, forth, 10000)
    ∷ (stay, back, 10000)
    ∷ (forth, forth, 14142)
    ∷ (forth, back, 14142)
    ∷ (back, forth, 14142)
    ∷ (back, back, 14142)
    ∷ []

abbrev pub via_cost : ℕ
via_cost = 400000

-- The tests of a move to (nx, ny).
unfoldable pub may_move : Board → Cell → Bool → ℕ → ℕ → Bool
may_move b cur diagonal nx ny =
    ltb nx b.width
    && ltb ny b.height
    && not (b.blocked cur.layer nx ny)
    && not (diagonal && (b.blocked cur.layer nx cur.y || b.blocked cur.layer cur.x ny))

unfoldable pub moved_y : Board → Cell → Bool → ℕ → Option ℕ → Option Cell
unfolding may_move
moved_y b cur diagonal nx none = none
moved_y b cur diagonal nx (some ny) =
    if may_move b cur diagonal nx ny
    then some (record { layer = cur.layer; x = nx; y = ny })
    else none

unfoldable pub moved_x : Board → Cell → Bool → Delta → Option ℕ → Option Cell
unfolding moved_y shift
moved_x b cur diagonal dy none = none
moved_x b cur diagonal dy (some nx) = moved_y b cur diagonal nx (shift dy cur.y)

-- The cell that a move leads to, if it is allowed.
unfoldable pub moved : Board → Cell → Delta → Delta → Option Cell
unfolding moved_x shift is_moving
moved b cur dx dy = moved_x b cur (is_moving dx && is_moving dy) dy (shift dx cur.x)

-- An entry of the heap, and the dicts `prev` and `dist` with the newest key first.
pub record Entry : Type 0 where
  pub f : ℕ
  pub g : ℕ
  pub cell : Cell
  pub par : Option Cell

abbrev pub Closed : Type 0
Closed = List (Cell × Option Cell)

abbrev pub Costs : Type 0
Costs = List (Cell × ℕ)

unfoldable pub is_closed : Cell → Closed → Bool
unfolding cell_eq
is_closed c [] = false
is_closed c ((k, par) ∷ prev) = cell_eq c k || is_closed c prev

-- ng < dist.get(nxt, 1e18)
unfoldable pub improves : Cell → ℕ → Costs → Bool
unfolding cell_eq
improves c ng [] = true
improves c ng ((k, d) ∷ dist) = if cell_eq c k then ltb ng d else improves c ng dist

unfoldable pub cell_ltb : Cell → Cell → Bool
cell_ltb a b =
    ltb a.layer b.layer || (a.layer == b.layer && (ltb a.x b.x || (a.x == b.x && ltb a.y b.y)))

-- The order of the heap's tuples; where cost and cell agree, the entry is one.
unfoldable pub entry_ltb : Entry → Entry → Bool
unfolding cell_ltb
entry_ltb a b =
    ltb a.f b.f || (a.f == b.f && (ltb a.g b.g || (a.g == b.g && cell_ltb a.cell b.cell)))

-- heapq.heappop: the least of an entry and those of a list, and the others.
unfoldable pub pop_least : Entry → List Entry → Entry × List Entry
unfolding entry_ltb
pop_least e [] = (e, [])
pop_least e (d ∷ heap) =
    let (least, others) = pop_least d heap in
    if entry_ltb e least then (e, d ∷ heap) else (least, e ∷ others)

-- What the search changes in a round.
pub record Open : Type 0 where
  pub dist : Costs
  pub heap : List Entry

unfoldable pub offer : Board → Cell → ℕ → Cell → Open → Open
unfolding improves
offer b cur ng nxt o =
    if improves nxt ng o.dist
    then record {
      dist = (nxt, ng) ∷ o.dist;
      heap =
          record { f = ng + b.estimate nxt.x nxt.y; g = ng; cell = nxt; par = some cur } ∷ o.heap;
    }
    else o

unfoldable pub offer_move : Board → Cell → ℕ → Option Cell → Open → Open
unfolding offer
offer_move b cur cost none o = o
offer_move b cur cost (some nxt) o =
    offer b cur (cost + (if b.soft nxt.layer nxt.x nxt.y then b.penalty else 0)) nxt o

unfoldable pub offer_moves : Board → Cell → ℕ → List (Delta × Delta × ℕ) → Open → Open
unfolding offer_move moved
offer_moves b cur g [] o = o
offer_moves b cur g ((dx, dy, c) ∷ ms) o =
    offer_moves b cur g ms (offer_move b cur (g + c) (moved b cur dx dy) o)

-- Layer by layer, from the last of `n` layers down to the first.
unfoldable pub offer_via : Board → Cell → ℕ → ℕ → Open → Open
unfolding offer
offer_via b cur g layer o =
    if layer == cur.layer || b.blocked layer cur.x cur.y
    then o
    else offer b cur (g + via_cost) (record { layer = layer; x = cur.x; y = cur.y }) o

unfoldable pub offer_vias : Board → Cell → ℕ → ℕ → Open → Open
unfolding offer_via
offer_vias b cur g zero o = o
offer_vias b cur g (suc n) o = offer_via b cur g n (offer_vias b cur g n o)

-- The two loops over what can be reached from `cur`.
unfoldable pub expand : Board → Cell → ℕ → Open → Open
unfolding offer_moves offer_vias
expand b cur g o =
    let o' = offer_moves b cur g moves o in
    if b.via_ok cur.x cur.y then offer_vias b cur g b.layers o' else o'

-- The path to a cell by `prev`, before the cells in `path`. A parent is closed before its child, so
-- it stands further down.
unfoldable pub trace : Closed → Cell → List Cell → List Cell
unfolding cell_eq
trace [] c path = c ∷ path
trace ((k, none) ∷ prev) c path = if cell_eq c k then c ∷ path else trace prev c path
trace ((k, some p) ∷ prev) c path =
    trace prev (if cell_eq c k then p else c) (if cell_eq c k then c ∷ path else path)

unfoldable pub mem_cell : Cell → List Cell → Bool
unfolding cell_eq
mem_cell c [] = false
mem_cell c (g ∷ gs) = cell_eq c g || mem_cell c gs

unfoldable pub ends_on_via : Board → Cell → Bool
ends_on_via b c = b.via_goal && b.via_ok c.x c.y

-- The path with whether it ends on a via alone, None, or the end of the rounds that are allowed.
pub data Found : Type 0 where
  path_to : List Cell → Bool → Found
  no_path : Found
  out_of_rounds : Found

abbrev pub limit : ℕ
limit = 4000000

-- The loop: `n` cells are closed.
unfoldable pub search_from : Board → ℕ → ℕ → Closed → Costs → List Entry → Found
unfolding is_closed pop_least mem_cell ends_on_via trace expand
search_from b zero n prev dist heap = out_of_rounds
search_from b (suc rounds) n prev dist [] = no_path
search_from b (suc rounds) n prev dist (e ∷ es) =
    let popped = pop_least e es in
    let cur = popped.0.cell in
    let prev' : Closed = (cur, popped.0.par) ∷ prev in
    let opened = expand b cur popped.0.g (record { dist = dist; heap = popped.1 }) in
    let skip = search_from b rounds n prev dist popped.1 in
    let go = search_from b rounds (suc n) prev' opened.dist opened.heap in
    if is_closed cur prev
    then skip
    else if ltb limit (suc n)
    then no_path
    else if mem_cell cur b.goals || ends_on_via b cur
    then path_to (trace prev' cur []) (b.via_goal && not (mem_cell cur b.goals))
    else go

-- The cells from which it starts, at cost 0.
unfoldable pub open_starts : Board → List Cell → Open → Open
open_starts b [] o = o
open_starts b (s ∷ ss) o = open_starts b ss (record {
  dist = (s, 0) ∷ o.dist;
  heap = record { f = b.estimate s.x s.y; g = 0; cell = s; par = none } ∷ o.heap;
})

unfoldable pub astar : Board → ℕ → Found
unfolding search_from open_starts
astar b rounds =
    let opened = open_starts b b.starts (record { dist = []; heap = [] }) in
    search_from b rounds 0 [] opened.dist opened.heap
