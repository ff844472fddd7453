-- ===== src/TextSexp/Tests.antt =====
-- Texts for the reader of hardware/family/tools/text_sexp.py.
use thermocouple.Prelude.{◌≡◌, refl, some, Text, codes, ◌↔◌}
use thermocouple.TextSexp.{
  Nodes, text, list, nil, cons, parsed, invalid_string, invalid_input, not_opened, not_closed,
  bad_escape, parse, lex, between, val,
}
use thermocouple.TextSexp.Words.{words, flatten}
use thermocouple.TextSexp.Balanced.{parse-words}

abbrev rule_text : Text
rule_text = codes "(version 1) # a comment (\n(net \"a\\u0041\\\"b\" (min 0.25mm))"

abbrev rule_nodes : Nodes
rule_nodes = cons (list (cons (text (codes "version")) (cons (text (codes "1")) nil))) (
    cons
      (list (
        cons (text (codes "net")) (
          cons (text (codes "aA\"b"))
            (cons (list (cons (text (codes "min")) (cons (text (codes "0.25mm")) nil))) nil))))
      nil)

run_text : Unit {0}
unfolding parse val words flatten
run_text = tt

rule_parsed : parse rule_text ≡ parsed rule_nodes
unfolding run_text
rule_parsed = refl

cut_off : parse (codes "(net (name \"x\")") ≡ not_closed
unfolding run_text
cut_off = refl

one_too_many : parse (codes "(net))") ≡ not_opened
unfolding run_text
one_too_many = refl

no_end_quote : parse (codes "(net \"x)") ≡ invalid_string
unfolding run_text
no_end_quote = refl

last_quote : parse (codes "(net \"") ≡ invalid_input
unfolding run_text
last_quote = refl

wrong_escape : parse (codes "\"a\\qb\"") ≡ bad_escape
unfolding run_text
wrong_escape = refl

minimum_read :
    val
      (cons
        (text (codes "constraint"))
        (cons (list (cons (text (codes "min")) (cons (text (codes "1")) nil))) nil))
      (codes "min")
    ≡ text (codes "1")
unfolding run_text
minimum_read = refl

parse-words_example :
    (parse rule_text ≡ parsed rule_nodes)
    ↔ (words (lex between rule_text) ≡ some (flatten rule_nodes))
parse-words_example = parse-words rule_text rule_nodes
