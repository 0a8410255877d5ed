-- ===== src/Control/Funding/Slices.antt =====
-- internal/control/funding_engine.go: the slices of the relays partition a batch.
use pons_mm_desktop.Prelude.{
  ℕ, suc, ◌+◌, ◌-◌, ◌*◌, ◌/◌, ◌≤◌, ◌<◌, ◌≡◌, refl, sym, ap, ◌∙◌, List, [], ◌∷◌, ◌++◌, ◌==◌, length,
  take, drop, length-append, length-drop, arith, div_mono, mul-div-le_self, zero, Bool-cases, inl,
  inr,
}
use native.Mathlib.Nat.{mul_comm}
use pons_mm_desktop.Control.Funding.Route.{
  Split, Sweep, relay_slice, slice, relay_splits, sweeps_to, gather,
}

abbrev pub recipients : List Split → List ℕ
recipients [] = []
recipients (s ∷ ss) = s.to ++ recipients ss

abbrev pub sweepers : List Sweep → List ℕ
sweepers [] = []
sweepers (s ∷ ss) = s.from ∷ sweepers ss

-- No sender divides its balance among no recipients.
abbrev pub Filled : List Split → Type 0
Filled [] = Unit {0}
Filled (s ∷ ss) = (0 < length s.to) × Filled ss

take-drop : (k : ℕ) (batch : List ℕ) → take k batch ++ drop k batch ≡ batch
take-drop zero batch = refl
take-drop (suc k) [] = refl
take-drop (suc k) (b ∷ bs) = ap (λ z. b ∷ z) (take-drop k bs)

take-nil : (k : ℕ) → take {A = ℕ} k [] ≡ []
take-nil zero = refl
take-nil (suc k) = refl

slice-drop :
    (start end : ℕ) (batch : List ℕ)
    → start ≤ end
    → slice start end batch ++ drop end batch ≡ drop start batch
slice-drop zero end batch le =
    ap (λ z. take z batch ++ drop end batch) (omega arith) ∙ take-drop end batch
slice-drop (suc start) zero batch le = ground arith
slice-drop (suc start) (suc end) [] le = ap (λ z. z ++ []) (take-nil (suc end - suc start))
slice-drop (suc start) (suc end) (b ∷ bs) le =
    ap (λ z. take z (drop start bs) ++ drop end bs) (omega arith)
    ∙ slice-drop start end bs (omega (arith, le))

drop-none : (k : ℕ) (batch : List ℕ) → length batch ≤ k → drop k batch ≡ []
drop-none zero [] le = refl
drop-none zero (b ∷ bs) le = ground arith
drop-none (suc k) [] le = refl
drop-none (suc k) (b ∷ bs) le = drop-none k bs (omega (arith, le))

sweepers-append :
    (relay : ℕ) (batch : List ℕ) (rest : List Sweep)
    → sweepers (sweeps_to relay batch ++ rest) ≡ batch ++ sweepers rest
sweepers-append relay [] rest = refl
sweepers-append relay (b ∷ bs) rest = ap (λ z. b ∷ z) (sweepers-append relay bs rest)

start-le-end : (r n : ℕ) → r * n / 10 ≤ (r + 1) * n / 10
start-le-end r n = div_mono (r * n) ((r + 1) * n) 10 (omega arith) (omega arith)

slice-positive :
    (start end : ℕ) (batch : List ℕ)
    → start < end
    → end ≤ length batch
    → 0 < length (slice start end batch)
slice-positive start end batch lt le =
    let parts = slice-drop start end batch (omega (arith, lt)) in
    let both = length-append (slice start end batch) (drop end batch) in
    omega (
      arith,
      sym both ∙ ap (λ z. length z) parts,
      length-drop start batch,
      length-drop end batch,
      lt,
      le,
    )

end-le : (r n : ℕ) → r < 10 → (r + 1) * n / 10 ≤ n
end-le r n lt = omega (
  arith,
  mul-div-le_self n (r + 1) 10 (omega (arith, lt)) (omega arith),
  ap (λ z. z / 10) (mul_comm (r + 1) n),
)

ten-slots : (r n : ℕ) → r ≡ 10 → n ≤ r * n / 10
ten-slots r n e = rw e (le-div n)
  where
    le-div : (m : ℕ) → m ≤ 10 * m / 10
    le-div m = omega arith

-- From relay `r` on, the relays receive what the batch holds from the start of relay `r` on.
pub drop-relay_splits :
    (r n : ℕ) (batch relays : List ℕ)
    → length batch ≡ n
    → r + length relays ≡ 10
    → recipients (relay_splits r n batch relays) ≡ drop (r * n / 10) batch
unfolding relay_splits relay_slice
drop-relay_splits r n batch [] len all =
    sym (drop-none (r * n / 10) batch (omega (arith, ten-slots r n (omega (arith, all)), len)))
drop-relay_splits r n batch (relay ∷ relays) len all =
    let later : recipients (relay_splits (r + 1) n batch relays) ≡ drop ((r + 1) * n / 10) batch =
      drop-relay_splits (r + 1) n batch relays len (omega (arith, all)) in
    elim (Bool-cases (r * n / 10 == (r + 1) * n / 10)) [
      | inl e ↦ rw e (later ∙ ap (λ z. drop z batch) (ground (arith, e)))
      | inr e ↦
          rw e (rw later (slice-drop (r * n / 10) ((r + 1) * n / 10) batch (start-le-end r n)))
    ]

-- From relay `r` on, the relays are paid by what the batch holds from the start of relay `r` on.
pub drop-gather :
    (r n : ℕ) (batch relays : List ℕ)
    → length batch ≡ n
    → r + length relays ≡ 10
    → sweepers (gather r n batch relays) ≡ drop (r * n / 10) batch
unfolding gather relay_slice
drop-gather r n batch [] len all =
    sym (drop-none (r * n / 10) batch (omega (arith, ten-slots r n (omega (arith, all)), len)))
drop-gather r n batch (relay ∷ relays) len all =
    let start = r * n / 10 in
    let end = (r + 1) * n / 10 in
    sweepers-append relay (slice start end batch) (gather (r + 1) n batch relays)
    ∙ (ap (λ z. slice start end batch ++ z)
          (drop-gather (r + 1) n batch relays len (omega (arith, all)))
        ∙ slice-drop start end batch (start-le-end r n))

-- Every relay that takes part has a slot to pay.
pub relay_splits-Filled :
    (r n : ℕ) (batch relays : List ℕ)
    → length batch ≡ n
    → r + length relays ≡ 10
    → Filled (relay_splits r n batch relays)
unfolding relay_splits relay_slice
relay_splits-Filled r n batch [] len all = tt
relay_splits-Filled r n batch (relay ∷ relays) len all =
    let later = relay_splits-Filled (r + 1) n batch relays len (omega (arith, all)) in
    elim (Bool-cases (r * n / 10 == (r + 1) * n / 10)) [
      | inl e ↦ rw e later
      | inr e ↦ rw e (
        slice-positive (r * n / 10) ((r + 1) * n / 10) batch (ground (arith, e, start-le-end r n))
            (omega (arith, end-le r n (omega (arith, all)), len)),
        later,
      )
    ]
