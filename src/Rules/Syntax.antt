-- ===== src/Rules/Syntax.antt =====
-- Tokens, conditions and errors of hardware/family/tools/text_rules.py.
use thermocouple.Prelude.{ℕ, Text}

-- Punctuation and operators.
pub data Punct : Type 0 where
  or_op and_op eq_op ne_op bang open_paren close_paren dot comma : Punct

pub data Token : Type 0 where
  punct : Punct → Token
  -- '...', without its quotes
  quoted : Text → Token
  name : Text → Token

pub data Side : Type 0 where
  side_a side_b : Side

pub data Method : Type 0 where
  member_of_footprint intersects_courtyard : Method

pub data Property : Type 0 where
  type_of net_class net_name : Property

-- The tuples of `self.tree`.
pub data Tree : Type 0 where
  always : Tree
  either both : Tree → Tree → Tree
  negated : Tree → Tree
  call : Side → Method → Text → Tree
  equals differs : Side → Property → Text → Tree

-- The ValueErrors, by their messages.
pub data Wrong : Type 0 where
  bad_text unconsumed incomplete bad_item bad_method unquoted bad_comparison : Wrong
  expected : Punct → Wrong

-- A result, an error, or no fuel left.
pub data Reply {ℓ} (A : Type ℓ) : Type ℓ where
  ok : A → Reply A
  fails : Wrong → Reply A
  out_of_fuel : Reply A

module _ {ℓ κ} {A : Type ℓ} {B : Type κ} where
  abbrev pub bind : Reply A → (A → Reply B) → Reply B
  bind (ok a) f = f a
  bind (fails w) f = fails w
  bind out_of_fuel f = out_of_fuel

abbrev pub number : Punct → ℕ
number or_op = 0
number and_op = 1
number eq_op = 2
number ne_op = 3
number bang = 4
number open_paren = 5
number close_paren = 6
number dot = 7
number comma = 8
