-- ===== src/Core/Open/Subset.antt =====
-- Which sets of partials are admitted: at least one, no point 0, and no point twice.
use matter_sdk.Common.{
  ℕ, ◌≡◌, ◌↔◌, ◌⊎◌, inl, inr, refl, ap, true, false, List, [], ◌∷◌, ◌++◌, none, arith, ==_iff, map,
  is_empty, Text, ok, err, Bool-cases, Option-cases, codes,
}
use matter_sdk.Common.Decimal.{to_decimal}
use matter_sdk.Core.Error.{invalid_subset}
use matter_sdk.Core.Open.{PartialInput, is_member, find_duplicate, subset_points}

-- No element stands twice.
abbrev pub Distinct : List ℕ → Type 0
Distinct [] = Unit
Distinct (p ∷ ps) = (is_member p ps ≡ false) × Distinct ps

-- No element of the second list stands in the first, nor twice in the second.
abbrev Fresh : List ℕ → List ℕ → Type 0
Fresh seen [] = Unit
Fresh seen (p ∷ ps) = (is_member p seen ≡ false) × Fresh (p ∷ seen) ps

find_duplicate-Fresh : (seen ps : List ℕ) → find_duplicate seen ps ≡ none → Fresh seen ps
unfolding find_duplicate
find_duplicate-Fresh seen [] h = tt
find_duplicate-Fresh seen (p ∷ ps) h =
    (ground arith, find_duplicate-Fresh (p ∷ seen) ps (ground arith))

Fresh-find_duplicate : (seen ps : List ℕ) → Fresh seen ps → find_duplicate seen ps ≡ none
unfolding find_duplicate
Fresh-find_duplicate seen [] h = refl
Fresh-find_duplicate seen (p ∷ ps) (h, hs) = rw h (Fresh-find_duplicate (p ∷ seen) ps hs)

Fresh-disjoint :
    (seen ps : List ℕ) (q : ℕ) → Fresh seen ps → is_member q seen ≡ true → is_member q ps ≡ false
Fresh-disjoint seen [] q _ h = refl
Fresh-disjoint seen (p ∷ ps) q (new, rest) h = ground (
  arith,
  Fresh-disjoint (p ∷ seen) ps q rest,
  ==_iff p q,
  ap (λ x. is_member x seen) {x = p} {y = q},
)

Fresh-Distinct : (seen ps : List ℕ) → Fresh seen ps → Distinct ps
Fresh-Distinct seen [] _ = tt
Fresh-Distinct seen (p ∷ ps) (new, rest) =
    (Fresh-disjoint (p ∷ seen) ps p rest (ground arith), Fresh-Distinct (p ∷ seen) ps rest)

Distinct-Fresh :
    (seen ps : List ℕ)
    → Distinct ps
    → ((q : ℕ) → is_member q ps ≡ true → is_member q seen ≡ false)
    → Fresh seen ps
Distinct-Fresh seen [] _ _ = tt
Distinct-Fresh seen (p ∷ ps) (once, rest) apart = (
  apart p (ground arith),
  Distinct-Fresh (p ∷ seen) ps rest
      (λ q h. ground (arith, apart q, once, h, ap (λ x. is_member x ps) {x = p} {y = q})),
)

abbrev pub points_of : List PartialInput → List ℕ
points_of = map (λ (p : PartialInput). p.point)

pub subset_guards :
    (partials : List PartialInput) {points : List ℕ}
    → subset_points partials ≡ ok points
    → (is_empty partials ≡ false)
      × (is_member 0 (points_of partials) ≡ false)
      × (find_duplicate [] (points_of partials) ≡ none)
      × (points ≡ points_of partials)
unfolding subset_points
subset_guards partials h = ground arith

-- The points of the partials are admitted exactly when there is a partial, no point is 0 and no
-- point stands twice.
pub subset_points_iff :
    (partials : List PartialInput)
    → (subset_points partials ≡ ok (points_of partials)) ↔ (
        (is_empty partials ≡ false)
        × (is_member 0 (points_of partials) ≡ false)
        × Distinct (points_of partials))
unfolding subset_points
subset_points_iff partials = (
  λ h.
      let (filled, positive, unique, _) = subset_guards partials h in
      (filled, positive, Fresh-Distinct [] _ (find_duplicate-Fresh [] _ unique)),
  λ (filled, positive, distinct).
      rw (filled, positive, Fresh-find_duplicate [] _ (Distinct-Fresh [] _ distinct (λ q _. refl))),
)

-- Otherwise the error is `InvalidSubset`.
pub subset_points-cases :
    (partials : List PartialInput)
    → (subset_points partials ≡ ok (points_of partials))
      ⊎ ((detail : Text) × (subset_points partials ≡ err (invalid_subset detail)))
unfolding subset_points
subset_points-cases partials = elim (Bool-cases (is_empty partials)) [
  | inl none_given ↦ inr (codes "no partials supplied", rw none_given)
  | inr filled ↦ elim (Bool-cases (is_member 0 (points_of partials))) [
    | inl zero_point ↦ inr (codes "point 0 is not an evaluation point", rw (filled, zero_point))
    | inr positive ↦ elim (Option-cases (find_duplicate [] (points_of partials))) [
      | inl unique ↦ inl (rw (filled, positive, unique))
      | inr (dup, twice) ↦ inr (
        codes "point " ++ (to_decimal dup ++ codes " appears twice"),
        rw (filled, positive, twice),
      )
    ]
  ]
]
