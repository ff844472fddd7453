-- ===== src/Lib.antt =====
-- thermocouple: verification of the host-side tools of the Thermo board family, thermocouple
-- protection boards with 8, 24 and 40 channels. The tools are Python scripts of two kinds: those
-- around the firmware, which make and check the production image that is programmed into a
-- board, and those around the KiCad boards, which edit a board under a writer claim and compare
-- what they produced. Parts reads what Sexp parses, and Rules what TextSexp parses; the others
-- meet in files.
--
-- Prelude and its children hold the Boolean tests, lists, slices and texts that all parts use. A
-- text is the list of its code points and a byte string the list of its bytes.
--
-- Image is firmware/family/image_metadata.py, which reads an Intel HEX file into a memory,
-- checks the identity structure in it, its extent and its CRC, and writes and checks the JSON
-- metadata file beside it.
--   Image/Failure: the exceptions, as values. Image/Memory: the dict from addresses to bytes.
--   Image/Hex: bytes.fromhex. Image/Decode: `image_bytes`; its children treat the lines of
--   accepted files (EndOfFile), the bounds of memories (Bounds), checksums (Checksum), and
--   written files (Encode, RoundTrip, Written; the writer there is part of the statement, the
--   repository has none). Image/Identity: `embedded_identity`. Image/Crc: binascii.crc_hqx.
--   Image/Json: what json.loads gives. Image/Verify: `verify_payload`. Image/Metadata:
--   `write_metadata`, `check_metadata`, `repo_commit` and `main`. The SHA-256 of a file, the
--   text that git prints and the parser of JSON are parameters. Every loop is a recursion on the
--   lines, the bytes or the addresses, so no fuel is needed.
--
-- Guard is hardware/family/tools/guard.py, the claim of the tool that writes a board.
--   Guard: `read_claim`, `check`, `claim` and `check_parent` as functions of the claim file and
--   of what the system shows. Guard/Refuses: who is let in. Guard/Children: deletion children.
--   Guard/Turns: processes that start, take the claim, leave and die, where `claim` is one step.
--   Guard/Interleaved: the system calls of `claim` as steps that other processes come between. A
--   claim file with JSON that is no dict, and a process that claims again inside its own block,
--   are left out. The processes that are alive, the lock files and the comparisons of paths are
--   parameters. The loop of `claim` has two rounds, as in the source.
--
-- Netlist is hardware/8ch-old/netlist_fingerprint.py, which compares two netlists of a
-- schematic.
--   Netlist: `fingerprint` of what the regular expressions find, `summarise`, `diff`,
--   `structural`. Netlist/Lookup: dicts by text. Netlist/Sort: `sorted` and sets of texts.
--   Netlist/Diff and Netlist/Structural: when nothing is reported. Netlist/Renames: the rename
--   map. Netlist/Order: the order of nodes in a file. Netlist/Main: `main` with its exit code
--   and the file it writes, where that can be written. What the regular expressions find in a
--   file, and what `load` gives for a path, are parameters. A dict is the list of its entries in
--   the order of insertion; that no key stands twice is a hypothesis where it matters. Every
--   loop is a recursion on a list.
--
-- Sexp is hardware/family/gen/sexp.py, the reader and writer of KiCad's S-expressions.
--   Sexp: `parse`, with the regular expression of a token as a scanner by characters, `dump`,
--   `find` and `findall`. Sexp/Escapes: `q` and the replacements in strings. Sexp/Lexing and
--   Sexp/Tokens: the tokens of a text that was dumped. Sexp/RoundTrip: what is parsed from it.
--   Numbers, which `fmt` rounds, are not among the nodes. The scanner and the parser are
--   recursions on the characters and the tokens; a bad token ends the parse where the source
--   raises.
--
-- Maze is the router of the last open connections, hardware/family/tools/maze.py and
-- maze_ops.py.
--   Maze: `astar`, the search on the grid. Maze/Legal: the steps that it takes. Maze/Reached and
--   Maze/Sound: what a path is that it returns. Maze/Rounds: its rounds. Maze/Clearance: `need`,
--   `width_of` and the key under which masks are cached, in 1/100 mm. The grids of blocked cells
--   and via sites are arguments of `astar`, as in the source, and so is the estimate of the way
--   that is left, a distance in floating point there. Costs are whole numbers, 10000 for a step
--   and 14142 for a diagonal one, without the rounding of sums. The heap is a list from which
--   the least entry is taken. The loop takes a number of rounds; how many are enough follows
--   from the limit of 4,000,000 closed cells in the source.
--
-- Parts is hardware/family/gen/model.py with the pins that hardware/family/gen/libs.py reads
-- from a symbol, which is a node of Sexp.
--   Parts: `pins`, `Part.resolve`, `Sheet.block` and `Sheet.parts`. Parts/Resolved: the nets
--   that `resolve` gives. Which atoms are numbers is a parameter; coordinates are not kept.
--
-- Passives is hardware/8ch-old/source_passives.py, which finds an offer for each passive part of
-- the first 8-channel board.
--   Passives: `meets`, `rank`, `package_of`, `resolve`, `main` without its option, `check`.
--   Passives/Data and Passives/Table: the requirements. Passives/Meets: `meets` as a predicate.
--   Passives/Best: the offer that is taken. Passives/Missing, Passives/Filled, Passives/ByHand
--   and Passives/Checked: the catalog as `check` reads it. The search is a parameter. Tolerances
--   are in parts per million, voltages in mV, powers in µW, prices in millionths of a dollar,
--   resistances in ohms and capacitances in pF.
--
-- TextSexp is hardware/family/tools/text_sexp.py, the strict reader of board and rule texts.
--   TextSexp: `parse`, `children`, `child`, `val`. TextSexp/Quoted: json.loads on a string.
--   TextSexp/Words and TextSexp/Balanced: what is accepted. The scanner is a recursion on the
--   characters.
--
-- Rules is hardware/family/tools/text_rules.py, which reads the rules of a board by TextSexp and
-- says how far two pieces of copper must stand apart.
--   Rules/Syntax, Rules/Scan and Rules/Parse: the conditions and their parser. Rules/Ends: its
--   fuel, three units for each token and four more. Rules/Printed, Rules/Reads, Rules/RoundTrip
--   and Rules/Spelled: written conditions; the writer is part of the statements, the repository
--   has none. Rules/Glob: fnmatchcase. Rules/Judge: the value of a condition. Rules/Project:
--   `Rules.__init__`, with the JSON of the project as records. Rules/Clear: `netclass` and
--   `clearance`, without their caches. Rules/Names, Rules/Pairs and Rules/Maximum: what they
--   give. Lengths are in nanometres.
--
-- Provenance is hardware/8ch-old/board_provenance.py, which keeps the hashes of the files that
-- the board generator left and tells whether a new run would lose hand edits.
--   Provenance: `snapshot`, `compare`, the three commands and `main`. Provenance/Snapshot and
--   Provenance/Checked: when they pass. Provenance/Runs: hand edits, generator runs and records
--   as steps. SHA-256 is a parameter; whether two contents have one hash is not decided.
--
-- Release is hardware/family/gen/compare_release.py, which compares a generated board with its
-- release, and hardware/family/gen/bom.py, which groups the parts of a netlist into a list of
-- material.
--   Release/NetlistXml: what is read of the exported XML. Release/Order: sorting. Release/Roots:
--   `components`, `nets` and `compare_roots`. Release/Bom: `grouped_bom`. Release/Compare:
--   `compare_rows`, `compare_release` and `main`. Release/Gathered, Release/Collected,
--   Release/Fields and Release/Records: the nets, the parts and the records that are collected.
--   Release/Differences and Release/Same: when two netlists are alike. Release/Count: the lines
--   of the list of material. Release/Exit: the exit code. Files, hashes and what KiCad exports
--   are the input.
--
-- PartNumbers is hardware/8ch-old/check_mpn_consistency.py, which compares the part numbers in
-- the sheets of the first 8-channel board with the catalog that Passives writes.
--   PartNumbers: the symbols of a text, `sheets`, `check_sheet`, `main`, `fix_sheet`.
--   PartNumbers/Symbols and PartNumbers/Consistent: when the check passes. The files and the
--   catalog are the input; every loop is a recursion on a text or a list.
--
-- Boards is the data of the three boards, hardware/family/gen/boards.py, with the parts that
-- hardware/family/gen/c_iso.py and c_mcu.py place on their sheets: Boards/Mcu and Boards/Tables
-- are the tables, Boards/Items the parts of model.py, Boards/Supply, Boards/Engine and
-- Boards/Isolation the sheet of the isolation, Boards/Keypad that of the controller.
-- Boards/Barrier says which nets a chain of parts joins, and Boards/Separate is about the
-- insulation. The circuits of the banks, the outputs and the power supply are not modelled.
--
-- Not modelled: what the tools print, the calls of git, KiCad and pcbnew, the firmware (C), and
-- the boards and schematics themselves.
pub mod Prelude
pub mod Image
pub mod Boards
pub mod Guard
pub mod Netlist
pub mod Sexp
pub mod Maze
pub mod Parts
pub mod Passives
pub mod TextSexp
pub mod Rules
pub mod Provenance
pub mod Release
pub mod PartNumbers
