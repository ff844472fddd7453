-- ===== src/Release/Fields.antt =====
-- The fields of a part in its record, in hardware/family/gen/compare_release.py.
use thermocouple.Prelude.{
  ◌≡◌, refl, sym, ap, ◌∙◌, Bool, true, false, Option, none, some, List, [], ◌∷◌, ◌++◌, Text, codes,
  text_eq, text_eq→≡, text_eq_refl, if◌then◌else◌, Bool-cases, inl, inr, arith, &&-true, ◌==◌, ==→≡,
}
use thermocouple.Passives.{starts}
use thermocouple.Netlist.Lookup.{Dict, lookup, put, keys, lookup-put, lookup-not_mem}
use thermocouple.Netlist.Sort.{mem_text}
use thermocouple.Release.NetlistXml.{Comp}
use thermocouple.Release.Roots.{Value, text, or_empty, to_dict, with_fields}
use thermocouple.Release.Collected.{or_else, mem-put}

-- The text of the last field with the name.
unfoldable pub last_text : Text → List (Text × Option Text) → Option Text
unfolding or_else text_eq
last_text k [] = none
last_text k ((name, s) ∷ xs) =
    or_else (last_text k xs) (if text_eq k name then some (or_empty s) else none)

-- No key stands twice.
Once : Dict Text → Type 0
Once [] = Unit
Once ((k, v) ∷ d) = (mem_text k (keys d) ≡ false) × Once d

other_way : (j k : Text) → text_eq j k ≡ false → text_eq k j ≡ false
other_way j k h = elim (Bool-cases (text_eq k j)) [
  | inr other ↦ other
  | inl same ↦ cc (rw (text_eq→≡ k j same, text_eq_refl j) at h)
]

no_key : Once []
unfolding Once
no_key = tt

put-Once : (j : Text) (v : Text) (d : Dict Text) → Once d → Once (put j v d)
unfolding put Once keys mem_text
put-Once j v [] h = (refl, tt)
put-Once j v ((k, w) ∷ d) (new, once) = elim (Bool-cases (text_eq j k)) [
  | inl same ↦ rw same (new, once)
  | inr other ↦ rw other (mem-put k j v d ∙ rw (other_way j k other, new) refl, put-Once j v d once)
]

to_dict-Once : (xs : List (Text × Option Text)) (d : Dict Text) → Once d → Once (to_dict xs d)
unfolding to_dict
to_dict-Once [] d h = h
to_dict-Once ((n, s) ∷ xs) d h =
    to_dict-Once xs (put n (or_empty s) d) (put-Once n (or_empty s) d h)

or_if :
    {A : Type 0} (found : Option A) (here : Bool) (a : A) (old : Option A)
    → or_else found (if here then some a else old)
      ≡ or_else (or_else found (if here then some a else none)) old
unfolding or_else
or_if none true a old = refl
or_if none false a old = refl
or_if (some b) here a old = refl

pub lookup-to_dict :
    (k : Text) (xs : List (Text × Option Text)) (d : Dict Text)
    → lookup k (to_dict xs d) ≡ or_else (last_text k xs) (lookup k d)
unfolding to_dict last_text or_else
lookup-to_dict k [] d = refl
lookup-to_dict k ((n, s) ∷ xs) d =
    lookup-to_dict k xs (put n (or_empty s) d)
    ∙ ap (or_else (last_text k xs)) (lookup-put k n (or_empty s) d)
    ∙ or_if (last_text k xs) (text_eq k n) (or_empty s) (lookup k d)

abbrev pub prefixed : Text → Text
prefixed k = codes "field:" ++ k

unfoldable pub as_value : Option Text → Option Value
as_value none = none
as_value (some s) = some (text s)

field_step :
    (here : Bool) (found : Option Text) (v : Text) (old : Option Value)
    → (here ≡ true → found ≡ none)
    → or_else (as_value found) (if here then some (text v) else old)
      ≡ or_else (as_value (if here then some v else found)) old
unfolding or_else as_value
field_step true none v old h = refl
field_step true (some s) v old h = cc (h refl)
field_step false none v old h = refl
field_step false (some s) v old h = refl

same_prefix : (k j : Text) → text_eq (prefixed k) (prefixed j) ≡ text_eq k j
unfolding text_eq
same_prefix k j = refl

lookup-with_fields :
    (k : Text) (d : Dict Text) (r : Dict Value)
    → Once d
    → lookup (prefixed k) (with_fields d r)
      ≡ or_else (as_value (lookup k d)) (lookup (prefixed k) r)
unfolding with_fields lookup Once or_else as_value
lookup-with_fields k [] r h = refl
lookup-with_fields k ((j, v) ∷ d) r (new, once) =
    lookup-with_fields k d (put (prefixed j) (text v) r) once
    ∙ ap (or_else (as_value (lookup k d))) (
        lookup-put (prefixed k) (prefixed j) (text v) r
        ∙ ap (λ b. if b then some (text v) else lookup (prefixed k) r) (same_prefix k j))
    ∙ field_step (text_eq k j) (lookup k d) v (lookup (prefixed k) r)
        (λ same. lookup-not_mem k d (rw (sym (text_eq→≡ k j same)) at new))

not_prefixed : (p n j : Text) → starts p n ≡ false → text_eq n (p ++ j) ≡ false
unfolding starts text_eq
not_prefixed [] n j h = cc
not_prefixed (a ∷ p) [] j h = refl
not_prefixed (a ∷ p) (b ∷ n) j h = let rest = not_prefixed p n j in ground (arith, h, rest)

pub is_prefixed : (p n : Text) → starts p n ≡ true → (k : Text) × (n ≡ p ++ k)
unfolding starts
is_prefixed [] n h = (n, refl)
is_prefixed (a ∷ p) [] h = cc
is_prefixed (a ∷ p) (b ∷ n) h =
    let (same, more) = &&-true (a == b) (starts p n) h in
    let (k, e) = is_prefixed p n more in (k, λ i. sym (==→≡ a b same) i ∷ e i)

pub lookup-no_field :
    (n : Text) (d : Dict Text) (r : Dict Value)
    → starts (codes "field:") n ≡ false
    → lookup n (with_fields d r) ≡ lookup n r
unfolding with_fields
lookup-no_field n [] r h = refl
lookup-no_field n ((j, v) ∷ d) r h =
    lookup-no_field n d (put (prefixed j) (text v) r) h
    ∙ lookup-put n (prefixed j) (text v) r
    ∙ ap (λ b. if b then some (text v) else lookup n r) (not_prefixed (codes "field:") n j h)

pub text_or_nothing : (o : Option Text) (n : Text) → or_else o (lookup {V = Text} n []) ≡ o
unfolding or_else lookup
text_or_nothing none n = refl
text_or_nothing (some s) n = refl

or_nothing :
    (o : Option Text) (n : Text) → or_else (as_value o) (lookup {V = Value} n []) ≡ as_value o
unfolding or_else as_value lookup
or_nothing none n = refl
or_nothing (some s) n = refl

-- A field of the part, as an entry of its record.
pub in_fields :
    (k : Text) (c : Comp)
    → lookup (prefixed k) (with_fields (to_dict c.fields []) []) ≡ as_value (last_text k c.fields)
in_fields k c =
    lookup-with_fields k (to_dict c.fields []) [] (to_dict-Once c.fields [] no_key)
    ∙ or_nothing (lookup k (to_dict c.fields [])) (prefixed k)
    ∙ ap as_value (lookup-to_dict k c.fields [] ∙ text_or_nothing (last_text k c.fields) k)
