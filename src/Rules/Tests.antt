-- ===== src/Rules/Tests.antt =====
-- Conditions and rules for hardware/family/tools/text_rules.py.
use thermocouple.Prelude.{◌≤◌, ◌≡◌, refl, true, none, some, [], ◌∷◌, Text, codes, text_eq, all, ◌⊎◌}
use thermocouple.Rules.Syntax.{
  Tree, either, both, negated, call, equals, differs, side_a, side_b, member_of_footprint, type_of,
  net_class, ok, fails, Wrong, bad_text, unconsumed, bad_item, bad_method, expected, close_paren,
  always,
}
use thermocouple.Rules.Parse.{condition, parse}
use thermocouple.Rules.Printed.{emit, whole}
use thermocouple.Rules.Spelled.{spell, is_plain, condition-spell}
use thermocouple.Rules.RoundTrip.{parse-emit}
use thermocouple.Rules.Ends.{condition_ends}
use thermocouple.Rules.Glob.{fnmatchcase}
use thermocouple.Rules.Judge.{Item}
use thermocouple.Rules.Project.{classes, Settings, Rules, init, loaded, refused, Loaded}
use thermocouple.Rules.Clear.{clearance, from_board, netclass, classified}
use thermocouple.Rules.Names.{is_literal, Gives, LeastNamed, netclass-LeastNamed}
use thermocouple.Rules.Pairs.{Decided, clearance_comm, clearance-Decided}
use thermocouple.Rules.Maximum.{clearance-maximum}

abbrev pad_a : Tree
pad_a = equals side_a type_of (codes "Pad")

abbrev sample : Tree
sample = both (either pad_a (negated (both (differs side_b net_class (codes "HV*")) pad_a))) (
    either (call side_b member_of_footprint (codes "K701"))
      (either pad_a (both pad_a (both pad_a pad_a))))

abbrev sample_text : Text
sample_text =
    codes
      "(A.Type=='Pad'||!(B.NetClass != 'HV*'&&A.Type == 'Pad')) && (B.memberOfFootprint('K701') || (A.Type=='Pad' || A.Type=='Pad' && (A.Type=='Pad' && A.Type=='Pad')))"

run_rules : Unit {0}
unfolding condition emit spell fnmatchcase init clearance netclass is_literal is_plain all text_eq
run_rules = tt

sample_read : condition sample_text ≡ ok sample
unfolding run_rules
sample_read = refl

nothing_read : condition (codes "  ") ≡ ok always
unfolding run_rules
nothing_read = refl

grouped_left :
    condition (codes "A.Type=='Pad'&&A.Type=='Pad'&&A.Type=='Pad'")
    ≡ ok (both (both pad_a pad_a) pad_a)
unfolding run_rules
grouped_left = refl

wrong_text : condition (codes "A.Type = 'Pad'") ≡ fails bad_text
unfolding run_rules
wrong_text = refl

no_end : condition (codes "(A.Type == 'Pad'") ≡ fails (expected close_paren)
unfolding run_rules
no_end = refl

too_many : condition (codes "A.Type == 'Pad')") ≡ fails unconsumed
unfolding run_rules
too_many = refl

other_item : condition (codes "C.Type == 'Pad'") ≡ fails bad_item
unfolding run_rules
other_item = refl

other_method : condition (codes "A.inDiffPair('x')") ≡ fails bad_method
unfolding run_rules
other_method = refl

star_matches : fnmatchcase (codes "/CH1/HV+") (codes "/CH?/*[!-]") ≡ true
unfolding run_rules
star_matches = refl

range_matches : fnmatchcase (codes "K7") (codes "K[0-6x-z7]") ≡ true
unfolding run_rules
range_matches = refl

condition_ends_example :
    ((t : Tree) × (condition sample_text ≡ ok t))
    ⊎ ((w : Wrong) × (condition sample_text ≡ fails w))
condition_ends_example = condition_ends sample_text

parse-emit_example : parse (emit sample whole) ≡ ok sample
parse-emit_example = parse-emit sample ((tt, (tt, tt)), (tt, (tt, (tt, (tt, tt)))))

sample_plain : all is_plain (codes "Pad") ≡ true
unfolding run_rules
sample_plain = refl

star_plain : all is_plain (codes "HV*") ≡ true
unfolding run_rules
star_plain = refl

relay_plain : all is_plain (codes "K701") ≡ true
unfolding run_rules
relay_plain = refl

condition-spell_example : condition (spell (emit sample whole)) ≡ ok sample
condition-spell_example =
    condition-spell sample ((tt, (tt, tt)), (tt, (tt, (tt, (tt, tt)))))
      (
        (sample_plain, (star_plain, sample_plain)),
        (relay_plain, (sample_plain, (sample_plain, (sample_plain, sample_plain)))),
      )

abbrev settings : Settings
settings = record {
  classes_listed =
      record { name = codes "Default"; clearance = some 200000; priority = none }
      ∷ record { name = codes "HV"; clearance = some 1000000; priority = some 1 }
      ∷ record { name = codes "Relay"; clearance = some 500000; priority = some 0 }
      ∷ [];
  patterns =
      record { netclass = codes "HV"; pattern_text = codes "/HV*" }
      ∷ record { netclass = codes "Relay"; pattern_text = codes "*_K1" }
      ∷ [];
  assignments = [];
  min_clearance = some 150000;
}

abbrev rules_text : Text
rules_text =
    codes
      "(version 1)(rule pads (condition \"A.Type == 'Pad'\") (constraint clearance (min 0.3mm)) (constraint hole_size (min 1)))(rule close (condition \"A.intersectsCourtyard('K1') && B.Type == 'Track'\") (constraint clearance (min .1)))"

abbrev pad : Item
pad = record {
  net = codes "/HV_K1";
  kind = codes "Pad";
  ref = codes "K1";
  courts = codes "K1" ∷ [];
  class_name = [];
}

abbrev track : Item
track = record { net = codes "GND"; kind = codes "Track"; ref = []; courts = []; class_name = [] }

abbrev of_load : Loaded Rules → Rules → Rules
of_load (loaded r) d = r
of_load (refused e) d = d

abbrev no_rules : Rules
no_rules = record {
  classes = [];
  patterns = [];
  assignments = [];
  min_clearance = none;
  rules = [];
  ignored = [];
  courtyards = [];
  maximum = 0;
}

abbrev rules : Rules
unfolding run_rules
rules = of_load (init settings rules_text) no_rules

rules_loaded : init settings rules_text ≡ loaded rules
unfolding run_rules
rules_loaded = refl

rules_maximum : rules.maximum ≡ 1000000
unfolding run_rules
rules_maximum = refl

raised : clearance rules track pad ≡ some (150000, from_board)
unfolding run_rules
raised = refl

relay_first : netclass rules (codes "/HV_K1") ≡ some (codes "Relay")
unfolding run_rules
relay_first = refl

clearance_comm_example : clearance rules track pad ≡ clearance rules pad track
clearance_comm_example = clearance_comm rules track pad

clearance-Decided_example :
    (s : Text) × (t : Text) × (netclass rules track.net ≡ some s)
    × (netclass rules pad.net ≡ some t)
    × Decided rules (classified s track) (classified t pad) (150000, from_board)
clearance-Decided_example = clearance-Decided rules track pad (150000, from_board) raised

clearance-maximum_example : 150000 ≤ rules.maximum
clearance-maximum_example =
    clearance-maximum settings rules_text rules track pad (150000, from_board) rules_loaded raised

abbrev assigned_rules : Rules
assigned_rules = record rules {
  assignments = (codes "/HV_K1", classes (codes "HV" ∷ codes "Relay" ∷ [])) ∷ [];
}

class_of_assigned :
    netclass (record assigned_rules { patterns = [] }) (codes "/HV_K1") ≡ some (codes "Relay")
unfolding run_rules
class_of_assigned = refl

netclass-LeastNamed_example :
    ((codes "/HV_K1" ≡ []) × (codes "Relay" ≡ []))
    ⊎ ((((n : Text) → Gives rules (codes "/HV_K1") n → ⊥) × (codes "Relay" ≡ codes "Default"))
        ⊎ LeastNamed rules (codes "/HV_K1") (codes "Relay"))
netclass-LeastNamed_example = netclass-LeastNamed rules (codes "/HV_K1") (codes "Relay") relay_first
