-- ===== src/Release/Same.antt =====
-- When hardware/family/gen/compare_release.py finds two netlists alike.
use thermocouple.Prelude.{◌≡◌, refl, none, some, List, Text, inl, inr, ◌⊎◌}
use thermocouple.Release.NetlistXml.{Comp, Root}
use thermocouple.Release.Records.{Alike}
use thermocouple.Release.Gathered.{nodes_of}
use thermocouple.Release.Collected.{part_of}
use thermocouple.Release.Roots.{Checked, checked, failed, Failure}

pub checked_inj {ℓ} : {A : Type ℓ} {a b : A} → checked a ≡ checked b → a ≡ b
checked_inj h = cc

pub Checked-cases {ℓ} :
    {A : Type ℓ} (c : Checked A) → ((a : A) × (c ≡ checked a)) ⊎ ((f : Failure) × (c ≡ failed f))
Checked-cases (checked a) = inl (a, refl)
Checked-cases (failed f) = inr (f, refl)

-- Each part is in both netlists or in neither, with the same texts, flags and fields.
abbrev pub SameParts : List Comp → List Comp → Type 0
SameParts a e =
    (ref : Text)
    → ((part_of ref a ≡ none) × (part_of ref e ≡ none))
      ⊎ ((c : Comp) × (c' : Comp) × (part_of ref a ≡ some c)
          × (part_of ref e ≡ some c')
          × Alike c c')

-- The nets have, by their names without the sheet's, the same nodes.
abbrev pub SameNets : Root → Root → Type 0
SameNets a e = (name : Text) → nodes_of name a ≡ nodes_of name e
