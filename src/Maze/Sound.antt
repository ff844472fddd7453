-- ===== src/Maze/Sound.antt =====
-- What a path of `astar` of hardware/family/tools/maze_ops.py is.
use thermocouple.Prelude.{
  ℕ, zero, suc, ◌≡◌, subst, Bool, true, false, not, ◌&&◌, ◌||◌, List, [], ◌∷◌, ltb, arith,
  Bool-cases, inl, inr, ◌⊎◌, All, &&-true,
}
use thermocouple.Maze.Legal.{cell_eq_refl}
use thermocouple.Maze.{
  Cell, Board, Entry, Closed, Costs, Open, is_closed, pop_least, expand, trace, mem_cell,
  ends_on_via, path_to, search_from, open_starts, astar, limit,
}
use thermocouple.Maze.Reached.{
  AllReached, IsRoute, trace-IsRoute, Offered, All-more, pop_least-All, expand-All,
}

-- What a route ends on: a goal, or a via if it is allowed to.
abbrev pub EndsWell : Board → Cell → Bool → Type 0
EndsWell b c on_via =
    ((mem_cell c b.goals ≡ true) × (on_via ≡ false))
    ⊎ ((mem_cell c b.goals ≡ false)
        × (b.via_goal ≡ true)
        × (b.via_ok c.x c.y ≡ true)
        × (on_via ≡ true))

abbrev pub IsAnswer : Board → List Cell → Bool → Type 0
IsAnswer b path on_via = (end : Cell) × IsRoute b path end × EndsWell b end on_via

ends_well :
    (b : Board) (c : Cell)
    → (mem_cell c b.goals || ends_on_via b c) ≡ true
    → EndsWell b c (b.via_goal && not (mem_cell c b.goals))
unfolding ends_on_via
ends_well b c h = elim (Bool-cases (mem_cell c b.goals)) [
  | inl goal ↦ inl (goal, rw goal (ground arith))
  | inr other ↦
      let (wanted, allowed) = &&-true b.via_goal (b.via_ok c.x c.y) (rw other at h) in
      inr (other, wanted, allowed, rw (other, wanted))
]

answer :
    (b : Board) (prev : Closed) (cur : Cell) (path : List Cell) (on_via : Bool)
    → AllReached b prev
    → is_closed cur prev ≡ true
    → (mem_cell cur b.goals || ends_on_via b cur) ≡ true
    → path_to (trace prev cur []) (b.via_goal && not (mem_cell cur b.goals)) ≡ path_to path on_via
    → IsAnswer b path on_via
answer b prev cur path on_via reached here done h =
    let same_path : trace prev cur [] ≡ path = cc in
    let same_flag : (b.via_goal && not (mem_cell cur b.goals)) ≡ on_via = cc in
    (
      cur,
      subst (λ p. IsRoute b p cur) same_path (trace-IsRoute b prev cur [] reached here tt),
      subst (EndsWell b cur) same_flag (ends_well b cur done),
    )

search_from-IsAnswer :
    (b : Board) (rounds n : ℕ) (prev : Closed) (dist : Costs) (heap : List Entry) (path : List Cell)
    (on_via : Bool)
    → AllReached b prev
    → All (Offered b prev) heap
    → search_from b rounds n prev dist heap ≡ path_to path on_via
    → IsAnswer b path on_via
unfolding search_from
search_from-IsAnswer b zero n prev dist heap path on_via reached all h = cc
search_from-IsAnswer b (suc rounds) n prev dist [] path on_via reached all h = cc
search_from-IsAnswer b (suc rounds) n prev dist (e ∷ es) path on_via reached all h =
    let popped = pop_least e es in
    let cur = popped.0.cell in
    let par = popped.0.par in
    let prev' : Closed = (cur, par) ∷ prev in
    let opened = expand b cur popped.0.g (record { dist = dist; heap = popped.1 }) in
    let (least, others) = pop_least-All (Offered b prev) e es all.0 all.1 in
    let reached' : AllReached b prev' = (least, reached) in
    let here : is_closed cur prev' ≡ true = unfold is_closed in rw (cell_eq_refl cur) in
    elim (Bool-cases (is_closed cur prev)) [
      | inl seen ↦
          search_from-IsAnswer b rounds n prev dist popped.1 path on_via reached others
            (rw seen at h)
      | inr new ↦ elim (Bool-cases (ltb limit (suc n))) [
        | inl over ↦ cc (rw (new, over) at h)
        | inr within ↦ elim (Bool-cases (mem_cell cur b.goals || ends_on_via b cur)) [
          | inl done ↦
              answer b prev' cur path on_via reached' here done (rw (new, within, done) at h)
          | inr on ↦
              search_from-IsAnswer b rounds (suc n) prev' opened.dist opened.heap path on_via
                reached'
                (expand-All b prev' cur here popped.0.g (record { dist = dist; heap = popped.1 })
                  (All-more b prev cur par popped.1 others))
                (rw (new, within, on) at h)
        ]
      ]
    ]

open_starts-All :
    (b : Board) (ss : List Cell) (o : Open)
    → All (λ s. mem_cell s b.starts ≡ true) ss
    → All (Offered b []) o.heap
    → All (Offered b []) (open_starts b ss o).heap
unfolding open_starts
open_starts-All b [] o known all = all
open_starts-All b (s ∷ ss) o known all = open_starts-All b ss _ known.1 (known.0, all)

mem-All :
    (cs ds : List Cell)
    → ((c : Cell) → mem_cell c cs ≡ true → mem_cell c ds ≡ true)
    → All (λ c. mem_cell c ds ≡ true) cs
unfolding mem_cell
mem-All [] ds h = tt
mem-All (c ∷ cs) ds h = (h c (rw (cell_eq_refl c)), mem-All cs ds (λ d m. h d (ground (arith, m))))

-- Whatever the board, the rounds and the estimate, a path that `astar` returns begins on one of the
-- start cells; each step goes to a free neighbour on the same layer, diagonally only between free
-- corners, or through an allowed via to the same place of another layer that is free there; and it
-- ends on a goal, or, where a via may end it, on an allowed via, of which the flag tells.
pub astar-IsAnswer :
    (b : Board) (rounds : ℕ) (path : List Cell) (on_via : Bool)
    → astar b rounds ≡ path_to path on_via
    → IsAnswer b path on_via
unfolding astar
astar-IsAnswer b rounds path on_via h =
    let empty : Open = record { dist = []; heap = [] } in
    let opened = open_starts b b.starts empty in
    search_from-IsAnswer b rounds 0 [] opened.dist opened.heap path on_via tt
      (open_starts-All b b.starts empty (mem-All b.starts b.starts (λ c m. m)) tt) h
