-- ===== src/Sexp/Tests.antt =====
-- Small S-expressions through hardware/family/gen/sexp.py.
use thermocouple.Prelude.{◌≡◌, refl, true, some, [], ◌∷◌, codes}
use thermocouple.Sexp.{
  Node, Nodes, dump_spaced, single, str, flag, list, nil, cons, parsed, bad_token, no_opening,
  parse, dump, find, findall, kind,
}
use thermocouple.Sexp.Tokens.{IsNode, AreNodes, as_read, all_as_read}
use thermocouple.Sexp.RoundTrip.{parse-dump, unclosed, parse-unclosed}

abbrev name_of : Node
name_of = list (cons (Node.sym (codes "name")) (cons (str (codes "a \"b\" \\")) nil))

abbrev wire : Node
wire = list (cons (Node.sym (codes "wire")) (cons name_of (cons (flag true) (cons (list nil) nil))))

run_sexp : Unit {0}
unfolding parse dump find findall as_read
run_sexp = tt

wire_text : dump wire 0 ≡ codes "(wire\n\t(name \"a \\\"b\\\" \\\\\") yes\n\t()\n)"
unfolding run_sexp
wire_text = refl

wire_read : parse (dump wire 0) ≡ parsed (as_read wire)
unfolding run_sexp
wire_read = refl

too_many : parse (codes "a)") ≡ no_opening
unfolding run_sexp
too_many = refl

open_string : parse (codes "(a \"b)") ≡ bad_token
unfolding run_sexp
open_string = refl

name_found : find (cons (flag true) (cons name_of nil)) (codes "name") ≡ some name_of
unfolding run_sexp
name_found = refl

wire-IsNode : IsNode wire
unfolding kind
wire-IsNode = (
  (refl, (refl, (refl, (refl, tt)))),
  (((refl, (refl, (refl, (refl, tt)))), (tt, tt)), (tt, (tt, tt))),
)

parse-dump_example : parse (dump wire 1) ≡ parsed (as_read wire)
parse-dump_example = parse-dump wire 1 wire-IsNode

abbrev begun : Nodes
begun = cons (Node.sym (codes "net")) nil

begun-AreNodes : AreNodes begun
unfolding kind
begun-AreNodes = ((refl, (refl, (refl, tt))), tt)

parse-unclosed_example :
    parse (unclosed (begun ∷ []) (b'(' ∷ dump_spaced (cons wire nil)))
    ≡ parsed (single (all_as_read (cons wire nil)))
parse-unclosed_example =
    parse-unclosed (begun ∷ []) (cons wire nil) (begun-AreNodes, tt) (wire-IsNode, tt)
