-- ===== src/Passives/Meets.antt =====
-- What an offer that `meets` of hardware/8ch-old/source_passives.py lets through is.
use thermocouple.Prelude.{
  ℕ, ◌*◌, ◌≤◌, ◌<◌, ◌≡◌, refl, sym, Bool, true, ◌&&◌, Option, none, some, Text, codes, text_eq,
  if◌then◌else◌, ltb, leb, arith, Bool-cases, inl, inr, ◌⊎◌, &&-true, and_four, and_four_intro,
  text_eq→≡, text_eq_refl,
}
use thermocouple.Passives.Data.{Need, Offer}
use thermocouple.Passives.{
  upper, or_empty, meets_tol, meets_volt, meets_power, is_c0g, is_wanted, meets_dielectric, meets,
}

-- The power in µW that a reported number stands for: above ten watts it is read as milliwatts.
abbrev pub Supplies : ℕ → ℕ → Type 0
Supplies actual power =
    ((actual ≤ 10000000) × (power ≤ actual)) ⊎ ((10000000 < actual) × (power * 1000 ≤ actual))

-- C0G and NP0 are names of one dielectric.
abbrev pub IsC0g : Text → Type 0
IsC0g s = (s ≡ codes "C0G") ⊎ (s ≡ codes "NP0")

-- The electrical requirement, field by field: what is required is reported and good enough.
pub record Meets (part : Offer) (need : Need) : Type 0 where
  pub tolerance_met :
      (tol : ℕ) → need.tol ≡ some tol → (a : ℕ) × (part.tolerance ≡ some a) × (a ≤ tol)
  pub voltage_met :
      (volt : ℕ) → need.volt ≡ some volt → (a : ℕ) × (part.voltage ≡ some a) × (volt ≤ a)
  pub power_met :
      (power : ℕ) → need.power ≡ some power → (a : ℕ) × (part.power ≡ some a) × Supplies a power
  pub dielectric_met :
      (d : Text)
      → need.dielectric ≡ some d
      → (upper (or_empty part.coefficient) ≡ upper d)
        ⊎ (IsC0g (upper (or_empty part.coefficient)) × IsC0g (upper d))
  pub stocked : part.in_stock ≡ true

meets_tol-le :
    (need actual : Option ℕ)
    → meets_tol need actual ≡ true
    → (tol : ℕ) → need ≡ some tol
    → (a : ℕ) × (actual ≡ some a) × (a ≤ tol)
unfolding meets_tol
meets_tol-le none actual h tol e = cc
meets_tol-le (some t) none h tol e = cc
meets_tol-le (some t) (some a) h tol e = let same : t ≡ tol = cc in (a, refl, ground arith)

meets_volt-le :
    (need actual : Option ℕ)
    → meets_volt need actual ≡ true
    → (volt : ℕ) → need ≡ some volt
    → (a : ℕ) × (actual ≡ some a) × (volt ≤ a)
unfolding meets_volt
meets_volt-le none actual h volt e = cc
meets_volt-le (some t) none h volt e = cc
meets_volt-le (some t) (some a) h volt e = let same : t ≡ volt = cc in (a, refl, ground arith)

supplies :
    (a power : ℕ)
    → (if ltb 10000000 a then leb (power * 1000) a else leb power a) ≡ true
    → Supplies a power
supplies a power h = elim (Bool-cases (ltb 10000000 a)) [
  | inl milli ↦ inr (ground (arith, milli), ground (arith, rw milli at h))
  | inr watts ↦ inl (ground (arith, watts), ground (arith, rw watts at h))
]

meets_power-Supplies :
    (need actual : Option ℕ)
    → meets_power need actual ≡ true
    → (power : ℕ) → need ≡ some power
    → (a : ℕ) × (actual ≡ some a) × Supplies a power
unfolding meets_power
meets_power-Supplies none actual h power e = cc
meets_power-Supplies (some t) none h power e = cc
meets_power-Supplies (some t) (some a) h power e =
    let same : t ≡ power = cc in (a, refl, rw (sym same) (supplies a t h))

is_c0g-IsC0g : (s : Text) → is_c0g s ≡ true → IsC0g s
unfolding is_c0g
is_c0g-IsC0g s h = elim (Bool-cases (text_eq s (codes "C0G"))) [
  | inl c0g ↦ inl (text_eq→≡ _ _ c0g)
  | inr other ↦ inr (text_eq→≡ _ _ (rw other at h))
]

is_wanted-eq : (d a : Text) → is_wanted d a ≡ true → (a ≡ d) ⊎ (IsC0g a × IsC0g d)
unfolding is_wanted
is_wanted-eq d a h = elim (Bool-cases (is_c0g d)) [
  | inl c0g ↦ inr (is_c0g-IsC0g a (rw c0g at h), is_c0g-IsC0g d c0g)
  | inr other ↦ inl (text_eq→≡ a d (rw other at h))
]

meets_dielectric-eq :
    (need actual : Option Text)
    → meets_dielectric need actual ≡ true
    → (d : Text) → need ≡ some d
    → (upper (or_empty actual) ≡ upper d) ⊎ (IsC0g (upper (or_empty actual)) × IsC0g (upper d))
unfolding meets_dielectric
meets_dielectric-eq none actual h d e = cc
meets_dielectric-eq (some t) actual h d e =
    let same : t ≡ d = cc in rw (sym same) (is_wanted-eq (upper t) (upper (or_empty actual)) h)

pub meets-Meets : (part : Offer) (need : Need) → meets part need ≡ true → Meets part need
unfolding meets
meets-Meets part need h =
    let (tol, volt, power, rest) = and_four _ _ _ _ h in
    let (dielectric, stock) = &&-true _ _ rest in
    record {
      tolerance_met = meets_tol-le need.tol part.tolerance tol;
      voltage_met = meets_volt-le need.volt part.voltage volt;
      power_met = meets_power-Supplies need.power part.power power;
      dielectric_met = meets_dielectric-eq need.dielectric part.coefficient dielectric;
      stocked = stock;
    }

tol-meets :
    (need actual : Option ℕ)
    → ((tol : ℕ) → need ≡ some tol → (a : ℕ) × (actual ≡ some a) × (a ≤ tol))
    → meets_tol need actual ≡ true
unfolding meets_tol
tol-meets none actual h = refl
tol-meets (some t) actual h = let (a, e, le) = h t refl in rw (e, meets_tol) (ground (arith, le))

volt-meets :
    (need actual : Option ℕ)
    → ((volt : ℕ) → need ≡ some volt → (a : ℕ) × (actual ≡ some a) × (volt ≤ a))
    → meets_volt need actual ≡ true
unfolding meets_volt
volt-meets none actual h = refl
volt-meets (some t) actual h = let (a, e, le) = h t refl in rw (e, meets_volt) (ground (arith, le))

power-meets :
    (need actual : Option ℕ)
    → ((power : ℕ) → need ≡ some power → (a : ℕ) × (actual ≡ some a) × Supplies a power)
    → meets_power need actual ≡ true
unfolding meets_power
power-meets none actual h = refl
power-meets (some t) actual h =
    let (a, e, s) = h t refl in
    rw (e, meets_power)
      (elim s [
        | inl (small, le) ↦ ground (arith, small, le)
        | inr (big, le) ↦ ground (arith, big, le)
      ])

IsC0g-is_c0g : (s : Text) → IsC0g s → is_c0g s ≡ true
unfolding is_c0g text_eq
IsC0g-is_c0g s (inl e) = rw e
IsC0g-is_c0g s (inr e) = rw e

same_wanted : (d : Text) → (if is_c0g d then is_c0g d else text_eq d d) ≡ true
same_wanted d = elim (Bool-cases (is_c0g d)) [
  | inl c0g ↦ rw c0g refl
  | inr other ↦ rw other (text_eq_refl d)
]

both : {a b : Bool} → a ≡ true → b ≡ true → (a && b) ≡ true
both p q = ground arith

dielectric-meets :
    (need actual : Option Text)
    → ((d : Text)
        → need ≡ some d
        → (upper (or_empty actual) ≡ upper d) ⊎ (IsC0g (upper (or_empty actual)) × IsC0g (upper d)))
    → meets_dielectric need actual ≡ true
unfolding meets_dielectric is_wanted
dielectric-meets none actual h = refl
dielectric-meets (some d) actual h = elim (h d refl) [
  | inl e ↦ rw e (same_wanted (upper d))
  | inr (a, c) ↦ rw (IsC0g-is_c0g _ c, IsC0g-is_c0g _ a)
]

pub Meets-meets : (part : Offer) (need : Need) → Meets part need → meets part need ≡ true
unfolding meets
Meets-meets part need h =
    and_four_intro (tol-meets need.tol part.tolerance (h.tolerance_met))
      (volt-meets need.volt part.voltage (h.voltage_met))
      (power-meets need.power part.power (h.power_met))
      (both (dielectric-meets need.dielectric part.coefficient (h.dielectric_met)) (h.stocked))
