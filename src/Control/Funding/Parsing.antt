-- ===== src/Control/Funding/Parsing.antt =====
-- internal/control/funding.go: which lists of destinations `parseFundingAddresses` accepts.
use mathlib.Core.Path.{subst}
use pons_mm_desktop.Prelude.{
  ℕ, ◌≤◌, ◌<◌, ◌≡◌, refl, ap, false, Bool-cases, inl, inr, Option, some, Option-cases, List, [],
  ◌∷◌, ◌==◌, ltb, length, elem, arith,
}
use pons_mm_desktop.Prelude.Result.{Result, ok, err}
use pons_mm_desktop.Control.Funding.{
  FundingError, parse_fields, parse_funding_addresses, max_funding_targets,
}

-- The addresses that the fields spell, one each, none of them in `seen` and none twice.
pub Spelled : (ℕ → Option ℕ) → List ℕ → List ℕ → List ℕ → Type 0
Spelled parse seen [] as' = as' ≡ []
Spelled parse seen (f ∷ fs) [] = ⊥
Spelled parse seen (f ∷ fs) (a ∷ as') =
    (parse f ≡ some a) × (elem a seen ≡ false) × Spelled parse (a ∷ seen) fs as'

SpelledResult : (ℕ → Option ℕ) → List ℕ → List ℕ → Result FundingError (List ℕ) → Type 0
unfolding Spelled
SpelledResult parse seen fs (ok as') = Spelled parse seen fs as'
SpelledResult parse seen fs (err e) = Unit {0}

next-Spelled :
    (parse : ℕ → Option ℕ) (seen : List ℕ) (f a : ℕ) (fs : List ℕ)
    (rest : Result FundingError (List ℕ))
    → parse f ≡ some a
    → elem a seen ≡ false
    → SpelledResult parse (a ∷ seen) fs rest
    → SpelledResult parse seen (f ∷ fs) (elim rest [ ok as' ↦ ok (a ∷ as') | err e ↦ err e ])
unfolding SpelledResult
next-Spelled parse seen f a fs (ok as') spells new later = (spells, new, later)
next-Spelled parse seen f a fs (err e) spells new later = tt

parse_fields-Spelled :
    (parse : ℕ → Option ℕ) (seen fs : List ℕ)
    → SpelledResult parse seen fs (parse_fields parse seen fs)
unfolding SpelledResult parse_fields
parse_fields-Spelled parse seen [] = refl
parse_fields-Spelled parse seen (f ∷ fs) = elim (Option-cases (parse f)) [
  | inl e ↦ rw (e, parse_fields, SpelledResult) tt
  | inr (a, e) ↦ elim (Bool-cases (elem a seen)) [
    | inl g ↦ rw (e, g, parse_fields, SpelledResult) tt
    | inr g ↦
        rw (e, g, parse_fields)
          (next-Spelled parse seen f a fs (parse_fields parse (a ∷ seen) fs) e g
            (parse_fields-Spelled parse (a ∷ seen) fs))
  ]
]

length-Spelled :
    (parse : ℕ → Option ℕ) (seen fs as' : List ℕ)
    → Spelled parse seen fs as'
    → length as' ≡ length fs
unfolding Spelled
length-Spelled parse seen [] as' h = ap (λ z. length z) h
length-Spelled parse seen (f ∷ fs) [] h = absurd h
length-Spelled parse seen (f ∷ fs) (a ∷ as') (spells, new, later) =
    omega (arith, length-Spelled parse (a ∷ seen) fs as' later)

-- Accepted destinations are the addresses of the fields in order, all different; there are between
-- one and 500 of them.
pub parse_funding_addresses-Spelled :
    (parse : ℕ → Option ℕ) (fields as' : List ℕ)
    → parse_funding_addresses parse fields ≡ ok as'
    → Spelled parse [] fields as' × (0 < length as') × (length as' ≤ max_funding_targets)
unfolding parse_funding_addresses SpelledResult
parse_funding_addresses-Spelled parse fields as' accepted = elim (Bool-cases (length fields == 0)) [
  | inl e ↦ ground (arith, rw (e, parse_funding_addresses) at accepted)
  | inr e ↦ elim (Bool-cases (ltb max_funding_targets (length fields))) [
    | inl f ↦ ground (arith, rw (e, f, parse_funding_addresses) at accepted)
    | inr f ↦
        let same : parse_fields parse [] fields ≡ ok as' =
          rw (e, f, parse_funding_addresses) at accepted in
        let spelled =
          subst (SpelledResult parse [] fields) same (parse_fields-Spelled parse [] fields) in
        let len = length-Spelled parse [] fields as' spelled in
        (spelled, ground (arith, e, len), ground (arith, f, len))
  ]
]
