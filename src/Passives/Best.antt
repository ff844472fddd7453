-- ===== src/Passives/Best.antt =====
-- Which offer `resolve` of hardware/8ch-old/source_passives.py takes.
use thermocouple.Prelude.{
  ◌≡◌, refl, sym, subst, true, false, none, some, List, [], ◌∷◌, arith, Bool-cases, inl, inr, ◌⊎◌,
  ◌↔◌, ◌<◌, ◌≤◌, ℕ, Bool, ltb, leb, ◌==◌, ◌||◌, ◌&&◌,
}
use thermocouple.Passives.Data.{Need, Offer, Sourced}
use thermocouple.Passives.{
  or_zero, price_of, basic_first, meets, rank_leb, place, sort, usable, take_best, sourced, resolve,
}
use thermocouple.Passives.Meets.{Meets, meets-Meets, Meets-meets}

not_true : false ≡ true → ⊥
not_true h = cc

-- The offer is one of those in the list.
abbrev pub In : Offer → List Offer → Type 0
In a [] = ⊥
In a (b ∷ bs) = (a ≡ b) ⊎ In a bs

rank_total : (a b : Offer) → rank_leb a b ≡ false → rank_leb b a ≡ true
unfolding rank_leb
rank_total a b h = ground arith

rank_trans : (a b c : Offer) → rank_leb a b ≡ true → rank_leb b c ≡ true → rank_leb a c ≡ true
unfolding rank_leb
rank_trans a b c h k = ground arith

-- The first is ranked before every other.
abbrev IsLeast : Offer → List Offer → Type 0
IsLeast a offers = (b : Offer) → In b offers → rank_leb a b ≡ true

abbrev IsSorted : List Offer → Type 0
IsSorted [] = Unit
IsSorted (a ∷ offers) = IsLeast a offers × IsSorted offers

In-place : (a b : Offer) (offers : List Offer) → In b (place a offers) → (b ≡ a) ⊎ In b offers
unfolding place
In-place a b [] h = h
In-place a b (c ∷ offers) h = elim (Bool-cases (rank_leb a c)) [
  | inl first ↦ rw first at h
  | inr later ↦ elim (rw later at h) [
    | inl e ↦ inr (inl e)
    | inr further ↦ elim (In-place a b offers further) [ inl e ↦ inl e | inr old ↦ inr (inr old) ]
  ]
]

place-In : (a b : Offer) (offers : List Offer) → (b ≡ a) ⊎ In b offers → In b (place a offers)
unfolding place
place-In a b [] h = h
place-In a b (c ∷ offers) h = elim (Bool-cases (rank_leb a c)) [
  | inl first ↦ rw first h
  | inr later ↦ rw later (elim h [
    | inl e ↦ inr (place-In a b offers (inl e))
    | inr (inl e) ↦ inl e
    | inr (inr old) ↦ inr (place-In a b offers (inr old))
  ])
]

place-IsSorted : (a : Offer) (offers : List Offer) → IsSorted offers → IsSorted (place a offers)
unfolding place
place-IsSorted a [] h = ((λ b none. absurd none), tt)
place-IsSorted a (c ∷ offers) (least, sorted) = elim (Bool-cases (rank_leb a c)) [
  | inl first ↦ rw first (
    (λ b h. elim h [ inl e ↦ rw e first | inr old ↦ rank_trans a c b first (least b old) ]),
    (least, sorted),
  )
  | inr later ↦ rw later (
    (λ b h. elim (In-place a b offers h) [
      | inl e ↦ rw e (rank_total a c later)
      | inr old ↦ least b old
    ]),
    place-IsSorted a offers sorted,
  )
]

sort-IsSorted : (offers : List Offer) → IsSorted (sort offers)
unfolding sort
sort-IsSorted [] = tt
sort-IsSorted (a ∷ offers) = place-IsSorted a (sort offers) (sort-IsSorted offers)

In-sort : (b : Offer) (offers : List Offer) → In b (sort offers) ↔ In b offers
unfolding sort
In-sort b [] = ((λ h. h), λ h. h)
In-sort b (a ∷ offers) = (
  (λ h. elim (In-place a b (sort offers) h) [
    | inl e ↦ inl e
    | inr old ↦ inr ((In-sort b offers).0 old)
  ]),
  λ h.
      place-In a b (sort offers)
        (elim h [ inl e ↦ inl e | inr old ↦ inr ((In-sort b offers).1 old) ]),
)

In-usable :
    (b : Offer) (need : Need) (offers : List Offer)
    → In b (usable need offers) ↔ (In b offers × (meets b need ≡ true))
unfolding usable
In-usable b need [] = ((λ h. absurd h), λ (h, good). h)
In-usable b need (a ∷ offers) = elim (Bool-cases (meets a need)) [
  | inl good ↦ rw good (
    (λ h. elim h [
      | inl e ↦ (inl e, rw e good)
      | inr old ↦ let (k, m) = (In-usable b need offers).0 old in (inr k, m)
    ]),
    λ (h, m). elim h [ inl e ↦ inl e | inr old ↦ inr ((In-usable b need offers).1 (old, m)) ],
  )
  | inr bad ↦ rw bad (
    (λ h. let (k, m) = (In-usable b need offers).0 h in (inr k, m)),
    λ (h, m). elim h [
      | inl e ↦ cc (rw e at m, bad)
      | inr old ↦ (In-usable b need offers).1 (old, m)
    ],
  )
]

-- Basic parts first, then more stock, then the lower price; no stock counts as 0.
abbrev pub Preferred : Offer → Offer → Type 0
Preferred a b =
    ((a.is_basic ≡ true) × (b.is_basic ≡ false))
    ⊎ ((a.is_basic ≡ b.is_basic)
        × ((or_zero b.stock < or_zero a.stock)
            ⊎ ((or_zero a.stock ≡ or_zero b.stock) × (price_of a.price ≤ price_of b.price))))

-- The second and the third key of the order.
stock_price :
    (m n p q : ℕ) → (ltb n m || (n == m && leb p q)) ≡ true → (n < m) ⊎ ((m ≡ n) × (p ≤ q))
stock_price m n p q h = elim (Bool-cases (ltb n m)) [
  | inl more ↦ inl (ground arith)
  | inr other ↦ inr (ground arith, ground arith)
]

rank_keys :
    (i j : Bool) (m n p q : ℕ)
    → (ltb (basic_first i) (basic_first j)
        || (basic_first i == basic_first j && (ltb n m || (n == m && leb p q))))
      ≡ true
    → ((i ≡ true) × (j ≡ false)) ⊎ ((i ≡ j) × ((n < m) ⊎ ((m ≡ n) × (p ≤ q))))
rank_keys true true m n p q h = inr (refl, stock_price m n p q h)
rank_keys true false m n p q h = inl (refl, refl)
rank_keys false true m n p q h = absurd (not_true h)
rank_keys false false m n p q h = inr (refl, stock_price m n p q h)

rank_leb-Preferred : (a b : Offer) → rank_leb a b ≡ true → Preferred a b
unfolding rank_leb
rank_leb-Preferred a b h =
    rank_keys a.is_basic b.is_basic (or_zero a.stock) (or_zero b.stock) (price_of a.price)
      (price_of b.price) h

-- The part taken: an offer that meets the requirement, ranked before every other that does.
pub record Taken (need : Need) (offers : List Offer) (s : Sourced) : Type 0 where
  pub best : Offer
  pub others : List Offer
  pub offered : In best offers
  pub met : Meets best need
  pub first : (o : Offer) → In o offers → Meets o need → Preferred best o
  pub written : s ≡ sourced need best others

sort-cases :
    (offers : List Offer)
    → (offers ≡ []) ⊎ ((a : Offer) × (rest : List Offer) × (offers ≡ a ∷ rest))
sort-cases [] = inl refl
sort-cases (a ∷ rest) = inr (a, rest, refl)

listed :
    (need : Need) (offers : List Offer) (o : Offer)
    → In o offers
    → Meets o need
    → In o (usable need offers)
listed need offers o there good = (In-usable o need offers).1 (there, Meets-meets o need good)

rank_refl : (a : Offer) → rank_leb a a ≡ true
unfolding rank_leb
rank_refl a = ground arith

least_of :
    (a : Offer) (rest : List Offer) (o : Offer)
    → IsSorted (a ∷ rest)
    → In o (a ∷ rest)
    → rank_leb a o ≡ true
least_of a rest o (least, sorted) h = elim h [ inl e ↦ rw e (rank_refl a) | inr old ↦ least o old ]

-- `resolve` finds nothing exactly where no offer meets the requirement; otherwise it takes an offer
-- that meets the requirement, field by field, and is preferred to every other that does: it is basic
-- and the other is not, or both or neither are and it has more stock, or as much of it at no higher
-- price; no stock counts as 0.
pub resolve-Taken :
    (need : Need) (offers : List Offer)
    → ((resolve need offers ≡ none) × ((o : Offer) → In o offers → Meets o need → ⊥))
      ⊎ ((s : Sourced) × (resolve need offers ≡ some s) × Taken need offers s)
unfolding resolve take_best
resolve-Taken need offers = elim (sort-cases (sort (usable need offers))) [
  | inl e ↦ inl (
    rw e,
    λ o there good.
        let found = (In-sort o (usable need offers)).1 (listed need offers o there good) in
        absurd (subst (In o) e found),
  )
  | inr (a, rest, e) ↦
      let sorted = subst IsSorted e (sort-IsSorted (usable need offers)) in
      let here = (In-sort a (usable need offers)).0 (subst (In a) (sym e) (inl refl)) in
      let (there, good) = (In-usable a need offers).0 here in
      inr (
        sourced need a rest,
        rw e,
        record {
          best = a;
          others = rest;
          offered = there;
          met = meets-Meets a need good;
          first = λ o o_there o_good.
              let found =
                (In-sort o (usable need offers)).1 (listed need offers o o_there o_good) in
              rank_leb-Preferred a o (least_of a rest o sorted (subst (In o) e found));
          written = refl;
        },
      )
]
