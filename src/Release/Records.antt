-- ===== src/Release/Records.antt =====
-- The record of a part in hardware/family/gen/compare_release.py, entry by entry.
use thermocouple.Prelude.{
  lower, map, not, ◌||◌, ◌≡◌, refl, sym, ap, ◌∙◌, Bool, false, Option, none, some, [], Text, codes,
  text_eq, if◌then◌else◌, Bool-cases, inl, inr,
}
use thermocouple.Passives.{starts}
use thermocouple.Netlist.Lookup.{Dict, lookup, put, lookup-put}
use thermocouple.Netlist.Diff.{SameDict}
use thermocouple.Release.NetlistXml.{Comp}
use thermocouple.Release.Roots.{
  Value, text, flag, or_empty, to_dict, with_fields, is_set, record_of,
}
use thermocouple.Release.Fields.{
  last_text, lookup-to_dict, prefixed, as_value, is_prefixed, lookup-no_field, text_or_nothing,
  in_fields,
}

-- A property with any text but no, false and 0, in small or capital letters, is set.
unfoldable pub is_on : Option Text → Bool
unfolding text_eq lower
is_on none = false
is_on (some s) = not (
    text_eq (map lower s) (codes "no")
    || (text_eq (map lower s) (codes "false") || text_eq (map lower s) (codes "0")))

-- Whether the last property of this name is set.
unfoldable pub flag_of : Text → Comp → Bool
unfolding is_on last_text
flag_of name c = is_on (last_text name c.properties)

-- The two parts have the same texts, flags and fields.
pub record Alike (c c' : Comp) : Type 0 where
  pub value : or_empty c.value ≡ or_empty c'.value
  pub footprint : or_empty c.footprint ≡ or_empty c'.footprint
  pub description : or_empty c.description ≡ or_empty c'.description
  pub datasheet : or_empty c.datasheet ≡ or_empty c'.datasheet
  pub dnp : flag_of (codes "dnp") c ≡ flag_of (codes "dnp") c'
  pub in_bom : flag_of (codes "exclude_from_bom") c ≡ flag_of (codes "exclude_from_bom") c'
  pub on_board : flag_of (codes "exclude_from_board") c ≡ flag_of (codes "exclude_from_board") c'
  pub in_sim : flag_of (codes "exclude_from_sim") c ≡ flag_of (codes "exclude_from_sim") c'
  pub fields : (k : Text) → last_text k c.fields ≡ last_text k c'.fields

raw_flag : Text → Comp → Bool
unfolding is_set lookup to_dict
raw_flag name c = is_set (lookup name (to_dict c.properties []))

is_set-is_on : (o : Option Text) → is_set o ≡ is_on o
unfolding is_set is_on
is_set-is_on none = refl
is_set-is_on (some s) = refl

raw_flag-flag_of : (name : Text) (c : Comp) → raw_flag name c ≡ flag_of name c
unfolding raw_flag flag_of
raw_flag-flag_of name c =
    is_set-is_on (lookup name (to_dict c.properties []))
    ∙ ap is_on
        (lookup-to_dict name c.properties [] ∙ text_or_nothing (last_text name c.properties) name)

-- The entry of a record, by its key.
entry : Text → Comp → Option Value
unfolding text_eq lookup raw_flag with_fields to_dict
entry n c =
    if text_eq n (codes "exclude_from_sim")
    then some (flag (raw_flag (codes "exclude_from_sim") c))
    else if text_eq n (codes "exclude_from_board")
    then some (flag (raw_flag (codes "exclude_from_board") c))
    else if text_eq n (codes "exclude_from_bom")
    then some (flag (raw_flag (codes "exclude_from_bom") c))
    else if text_eq n (codes "dnp")
    then some (flag (raw_flag (codes "dnp") c))
    else if text_eq n (codes "datasheet")
    then some (text (or_empty c.datasheet))
    else if text_eq n (codes "description")
    then some (text (or_empty c.description))
    else if text_eq n (codes "footprint")
    then some (text (or_empty c.footprint))
    else if text_eq n (codes "value")
    then some (text (or_empty c.value))
    else lookup n (with_fields (to_dict c.fields []) [])

-- What an assignment adds to the entries found below it.
put_over :
    (n k : Text) (v : Value) (r : Dict Value) (o : Option Value)
    → lookup n r ≡ o
    → lookup n (put k v r) ≡ (if text_eq n k then some v else o)
put_over n k v r o h = lookup-put n k v r ∙ ap (λ t. if text_eq n k then some v else t) h

lookup-record_of : (n : Text) (c : Comp) → lookup n (record_of c) ≡ entry n c
unfolding record_of entry raw_flag
lookup-record_of n c = put_over n _ _ _ _ (
    put_over n _ _ _ _ (
      put_over n _ _ _ _ (
        put_over n _ _ _ _ (
          put_over n _ _ _ _ (put_over n _ _ _ _ (put_over n _ _ _ _ (put_over n _ _ _ _ refl)))))))

field_entry : (k : Text) (c : Comp) → entry (prefixed k) c ≡ as_value (last_text k c.fields)
unfolding entry text_eq
field_entry k c = in_fields k c

text_inj : (s t : Text) → some (text s) ≡ some (text t) → s ≡ t
text_inj s t h = cc

flag_inj : (a b : Bool) → some (flag a) ≡ some (flag b) → a ≡ b
flag_inj a b h = cc

as_value_inj : (a b : Option Text) → as_value a ≡ as_value b → a ≡ b
unfolding as_value
as_value_inj none none h = refl
as_value_inj none (some t) h = cc
as_value_inj (some s) none h = cc
as_value_inj (some s) (some t) h = cc

-- Two records are the same dict exactly where the parts are alike.
pub SameDict-Alike : (c c' : Comp) → SameDict (record_of c) (record_of c') → Alike c c'
unfolding entry text_eq
SameDict-Alike c c' same =
    let at : (n : Text) → entry n c ≡ entry n c' =
      λ n. sym (lookup-record_of n c) ∙ same n ∙ lookup-record_of n c' in
    let flags : (name : Text)
        → raw_flag name c ≡ raw_flag name c'
        → flag_of name c ≡ flag_of name c' =
      λ name e. sym (raw_flag-flag_of name c) ∙ e ∙ raw_flag-flag_of name c' in
    record {
      value = text_inj _ _ (at (codes "value"));
      footprint = text_inj _ _ (at (codes "footprint"));
      description = text_inj _ _ (at (codes "description"));
      datasheet = text_inj _ _ (at (codes "datasheet"));
      dnp = flags (codes "dnp") (flag_inj _ _ (at (codes "dnp")));
      in_bom = flags (codes "exclude_from_bom") (flag_inj _ _ (at (codes "exclude_from_bom")));
      on_board =
          flags (codes "exclude_from_board") (flag_inj _ _ (at (codes "exclude_from_board")));
      in_sim = flags (codes "exclude_from_sim") (flag_inj _ _ (at (codes "exclude_from_sim")));
      fields = λ k. as_value_inj _ _ (sym (field_entry k c) ∙ at (prefixed k) ∙ field_entry k c');
    }

fields_alike :
    (n : Text) (c c' : Comp)
    → ((k : Text) → last_text k c.fields ≡ last_text k c'.fields)
    → lookup n (with_fields (to_dict c.fields []) [])
      ≡ lookup n (with_fields (to_dict c'.fields []) [])
unfolding text_eq
fields_alike n c c' same = elim (Bool-cases (starts (codes "field:") n)) [
  | inr other ↦
      lookup-no_field n (to_dict c.fields []) [] other
      ∙ sym (lookup-no_field n (to_dict c'.fields []) [] other)
  | inl field ↦
      let (k, e) = is_prefixed (codes "field:") n field in
      ap (λ (t : Text). lookup t (with_fields (to_dict c.fields []) [])) e
      ∙ in_fields k c
      ∙ ap as_value (same k)
      ∙ sym (in_fields k c')
      ∙ ap (λ (t : Text). lookup t (with_fields (to_dict c'.fields []) [])) (sym e)
]

pub Alike-SameDict : (c c' : Comp) → Alike c c' → SameDict (record_of c) (record_of c')
unfolding entry
Alike-SameDict c c' a n =
    let flags : (name : Text)
        → flag_of name c ≡ flag_of name c'
        → raw_flag name c ≡ raw_flag name c' =
      λ name e. raw_flag-flag_of name c ∙ e ∙ sym (raw_flag-flag_of name c') in
    lookup-record_of n c
    ∙ rw
        (
          a.value,
          a.footprint,
          a.description,
          a.datasheet,
          flags (codes "dnp") a.dnp,
          flags (codes "exclude_from_bom") a.in_bom,
          flags (codes "exclude_from_board") a.on_board,
          flags (codes "exclude_from_sim") a.in_sim,
          fields_alike n c c' a.fields,
        )
        refl
    ∙ sym (lookup-record_of n c')
