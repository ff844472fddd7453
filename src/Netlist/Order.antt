-- ===== src/Netlist/Order.antt =====
-- The order of nodes in what hardware/8ch-old/netlist_fingerprint.py reads.
use thermocouple.Prelude.{◌≡◌, refl, List, [], ◌∷◌, map, Text}
use thermocouple.Netlist.Lookup.{Dict}
use thermocouple.Netlist.Sort.{Shuffle, sort-Shuffle}
use thermocouple.Netlist.{NetBlock, ComponentMatch, node_text, read_nets, fingerprint}

-- The same nets, each with the same nodes in any order.
pub data SameNodes : List NetBlock → List NetBlock → Type 0 where
  done : SameNodes [] []
  more :
      (name : Text) {nodes others : List (Text × Text)} {bs cs : List NetBlock}
      → Shuffle (map node_text nodes) (map node_text others)
      → SameNodes bs cs
      → SameNodes
          (record { name = name; nodes = nodes } ∷ bs)
          (record { name = name; nodes = others } ∷ cs)

read_nets-SameNodes :
    {bs cs : List NetBlock} (nets : Dict (List Text))
    → SameNodes bs cs
    → read_nets bs nets ≡ read_nets cs nets
unfolding read_nets
read_nets-SameNodes nets done = refl
read_nets-SameNodes nets (more name {nodes} {others} {bs} {cs} h rest) =
    rw (sort-Shuffle h) (read_nets-SameNodes _ rest)

-- The order in which a file lists the nodes of a net does not change the fingerprint, nor whether
-- the netlist is refused.
pub fingerprint-SameNodes :
    {bs cs : List NetBlock} (matches : List ComponentMatch)
    → SameNodes bs cs
    → fingerprint bs matches ≡ fingerprint cs matches
unfolding fingerprint
fingerprint-SameNodes matches h = rw (read_nets-SameNodes [] h)
