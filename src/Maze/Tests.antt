-- ===== src/Maze/Tests.antt =====
-- The search of hardware/family/tools/maze_ops.py on a board of 4 by 3 cells.
use thermocouple.Prelude.{
  true, ℕ, ◌≡◌, ◌≢◌, refl, false, ◌&&◌, List, [], ◌∷◌, ◌==◌, codes, arith, Text,
}
use thermocouple.Maze.{Cell, Board, path_to, no_path, out_of_rounds, astar}
use thermocouple.Maze.Sound.{IsAnswer, astar-IsAnswer}
use thermocouple.Maze.Rounds.{astar-ends}
use thermocouple.Maze.Clearance.{
  Profile, category, width_of, need, bare, category-need, mem_net, is_empty,
}

abbrev cell : ℕ → ℕ → ℕ → Cell
cell l x y = record { layer = l; x = x; y = y }

-- A wall across layer 0 at x = 1, and vias everywhere but there.
abbrev walled : Board
walled = record {
  layers = 2;
  width = 4;
  height = 3;
  blocked = λ l x y. l == 0 && x == 1;
  via_ok = λ x y. x == 0 && y == 0;
  soft = λ l x y. false;
  penalty = 0;
  starts = cell 0 0 1 ∷ [];
  goals = cell 1 2 0 ∷ [];
  via_goal = false;
  estimate = λ x y. 0;
}

abbrev under_wall : List Cell
under_wall = cell 0 0 1 ∷ cell 0 0 0 ∷ cell 1 0 0 ∷ cell 1 1 0 ∷ cell 1 2 0 ∷ []

run_maze : Unit {0}
unfolding astar
run_maze = tt

walled_path : astar walled 40 ≡ path_to under_wall false
unfolding run_maze
walled_path = refl

shut_in : astar (record walled { via_ok = λ x y. false }) 40 ≡ no_path
unfolding run_maze
shut_in = refl

astar-IsAnswer_example : IsAnswer walled under_wall false
astar-IsAnswer_example = astar-IsAnswer walled 40 under_wall false walled_path

astar-ends_example : astar walled 40000012 ≢ out_of_rounds
astar-ends_example = astar-ends walled 40000012 (omega arith)

abbrev profile : Profile
profile = record {
  contact = codes "RELAY_NO" ∷ [];
  planes = codes "GND" ∷ [];
  chassis = codes "CHASSIS";
  high_clearance = codes "RS485_A" ∷ [];
}

abbrev high_net : Text
high_net = codes "RS485_A"

abbrev plain_net : Text
plain_net = codes "SCK"

abbrev other_net : Text
other_net = codes "MOSI"

run_clearance : Unit {0}
unfolding mem_net need bare is_empty
run_clearance = tt

bare_name : bare (codes "/TC1/FILT_P") ≡ codes "FILT_P"
unfolding run_clearance
bare_name = refl

-- The two nets share the key of the masks, and need different clearances.
same_key :
    (category profile high_net ≡ category profile plain_net)
    × (width_of profile high_net ≡ width_of profile plain_net)
unfolding run_clearance category width_of
same_key = (refl, refl)

other_need :
    (need profile high_net other_net false ≡ 27) × (need profile plain_net other_net false ≡ 16)
unfolding run_clearance
other_need = (refl, refl)

category-need_example : need profile plain_net high_net true ≡ need profile other_net high_net true
unfolding run_clearance category width_of
category-need_example =
    category-need profile plain_net other_net high_net true refl refl refl refl refl
