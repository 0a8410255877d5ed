-- ===== src/Control/Funding/Amounts.antt =====
-- internal/control/funding_engine.go: what a sender pays out in a hop.
use native.Mathlib.Nat.{div-mul-le_self, mul-sub, mul_comm, le_of_mul-le-mul_left}
use pons_mm_desktop.Prelude.{
  ℕ, suc, zero, ◌+◌, ◌-◌, ◌*◌, ◌/◌, ◌≤◌, ◌<◌, ◌≡◌, refl, sym, ap, ◌∙◌, ◌⊎◌, Bool, true, Bool-cases,
  inl, inr, Option, none, some, Option-cases, List, [], ◌∷◌, ◌==◌, length, sum, arith,
}
use pons_mm_desktop.Control.Funding.Route.{Split, Sweep}
use pons_mm_desktop.Control.Funding.Transfers.{
  estimate_gas, split_parts, draw, random_near_even_split, Answers, Payment, Outcome, skipped,
  gave_up, send_all, exec_split, exec_sweep,
}

-- The slots share out `rest`, as long as it covers the share of the weights that are left.
sum-split_parts :
    (total weight rest w : ℕ) (ws : List ℕ)
    → 0 < weight
    → total * (w + sum ws) ≤ weight * rest
    → sum (split_parts total weight rest (w ∷ ws)) ≡ rest
unfolding split_parts
sum-split_parts total weight rest w [] pos le = omega arith
sum-split_parts total weight rest w (v ∷ ws) pos le =
    let part = total * w / weight in
    let floor : weight * part ≤ total * w =
      omega (arith, div-mul-le_self (total * w) weight, mul_comm weight part) in
    let fits : part ≤ rest = le_of_mul-le-mul_left (omega (arith, floor, le)) pos in
    omega (
      arith,
      fits,
      sum-split_parts total weight (rest - part) v ws pos
          (omega (arith, mul-sub weight rest part, floor, le)),
    )

sum-draw_positive : (random : ℕ → ℕ) (n : ℕ) → 0 < n → 0 < sum (draw random n)
unfolding draw
sum-draw_positive random zero pos = pos
sum-draw_positive random (suc n) pos = omega arith

-- Nothing is lost or made: the amounts add up to the total.
pub sum-random_near_even_split :
    (total n : ℕ) (random : ℕ → ℕ) → 0 < n → sum (random_near_even_split total n random) ≡ total
unfolding random_near_even_split draw
sum-random_near_even_split total zero random pos = ground (arith, pos)
sum-random_near_even_split total (suc n) random pos =
    let w = 850 + random n in
    let ws = draw random n in
    sum-split_parts total (w + sum ws) total w ws (omega arith)
      (omega (arith, mul_comm total (w + sum ws)))

length-split_parts :
    (total weight rest : ℕ) (ws : List ℕ) → length (split_parts total weight rest ws) ≡ length ws
unfolding split_parts
length-split_parts total weight rest [] = refl
length-split_parts total weight rest (w ∷ []) = refl
length-split_parts total weight rest (w ∷ v ∷ ws) =
    omega (arith, length-split_parts total weight (rest - total * w / weight) (v ∷ ws))

length-draw : (random : ℕ → ℕ) (n : ℕ) → length (draw random n) ≡ n
unfolding draw
length-draw random zero = refl
length-draw random (suc n) = omega (arith, length-draw random n)

pub length-amounts :
    (total n : ℕ) (random : ℕ → ℕ) → length (random_near_even_split total n random) ≡ n
unfolding random_near_even_split
length-amounts total n random =
    length-split_parts total (sum (draw random n)) total (draw random n) ∙ length-draw random n

-- Value and gas of the payments at a fee cap.
abbrev pub cost : ℕ → List Payment → ℕ
cost fee [] = 0
cost fee (p ∷ ps) = p.amount + fee * p.gas_limit + cost fee ps

-- The nonces count up from `nonce`.
pub Consecutive : ℕ → List Payment → Type 0
Consecutive nonce [] = Unit {0}
Consecutive nonce (p ∷ ps) = (p.nonce ≡ nonce) × Consecutive (nonce + 1) ps

pub Numbered : Option ℕ → List Payment → Type 0
unfolding Consecutive
Numbered none ps = ps ≡ []
Numbered (some nonce) ps = Consecutive nonce ps

-- What a sender of n transfers must not exceed, and what it reports.
pub record WithinMeans (fee balance n : ℕ) (o : Outcome) : Type 0 where
  pub affordable : cost fee o.payments ≤ balance
  pub counted : o.bumps ≤ n
  pub complete : (o.broken ≡ true) ⊎ (o.bumps ≡ n)

send_all-cost :
    (accepted : ℕ → Bool) (fee limit nonce i : ℕ) (tos amounts : List ℕ)
    → cost fee (send_all accepted limit nonce i tos amounts).payments
      ≤ sum amounts + fee * limit * length tos
unfolding send_all
send_all-cost accepted fee limit nonce i [] amounts = omega arith
send_all-cost accepted fee limit nonce i (to ∷ tos) [] = omega arith
send_all-cost accepted fee limit nonce i (to ∷ tos) (amount ∷ amounts) =
    ground (arith, send_all-cost accepted fee limit (nonce + 1) (i + 1) tos amounts)

pub send_all-counts :
    (accepted : ℕ → Bool) (limit nonce i : ℕ) (tos amounts : List ℕ)
    → length tos ≡ length amounts
    → let o = send_all accepted limit nonce i tos amounts in
      (o.bumps ≤ length tos) × ((o.broken ≡ true) ⊎ (o.bumps ≡ length tos))
unfolding send_all
send_all-counts accepted limit nonce i [] amounts len = (omega arith, inr refl)
send_all-counts accepted limit nonce i (to ∷ tos) [] len = ground (arith, len)
send_all-counts accepted limit nonce i (to ∷ tos) (amount ∷ amounts) len =
    let (few, all) =
      send_all-counts accepted limit (nonce + 1) (i + 1) tos amounts (omega (arith, len)) in
    elim (Bool-cases (accepted i)) [
      | inl e ↦ rw e (omega (arith, few), elim all [ inl h ↦ inl h | inr h ↦ inr (ap suc h) ])
      | inr e ↦ rw e (omega arith, inl refl)
    ]

send_all-Consecutive :
    (accepted : ℕ → Bool) (limit nonce i : ℕ) (tos amounts : List ℕ)
    → Consecutive nonce (send_all accepted limit nonce i tos amounts).payments
unfolding send_all Consecutive
send_all-Consecutive accepted limit nonce i [] amounts = tt
send_all-Consecutive accepted limit nonce i (to ∷ tos) [] = tt
send_all-Consecutive accepted limit nonce i (to ∷ tos) (amount ∷ amounts) =
    elim (Bool-cases (accepted i)) [
      | inl e ↦ rw e (refl, send_all-Consecutive accepted limit (nonce + 1) (i + 1) tos amounts)
      | inr e ↦ rw e tt
    ]

skipped-WithinMeans : (fee balance n : ℕ) → WithinMeans fee balance n (skipped n)
skipped-WithinMeans fee balance n = record {
  affordable = omega arith;
  counted = omega arith;
  complete = inr refl;
}

gave_up-WithinMeans : (fee balance n : ℕ) → WithinMeans fee balance n gave_up
gave_up-WithinMeans fee balance n = record {
  affordable = omega arith;
  counted = omega arith;
  complete = inl refl;
}

-- The loop spends what was divided.
send_all-WithinMeans :
    (accepted : ℕ → Bool) (random : ℕ → ℕ) (fee limit nonce balance : ℕ) (tos : List ℕ)
    → 0 < length tos
    → ¬ (balance - fee * limit * length tos ≡ 0)
    → WithinMeans fee balance (length tos) (
        send_all accepted limit nonce 0 tos
          (random_near_even_split (balance - fee * limit * length tos) (length tos) random))
send_all-WithinMeans accepted random fee limit nonce balance tos pos left =
    let n = length tos in
    let amounts = random_near_even_split (balance - fee * limit * n) n random in
    let counts =
      send_all-counts accepted limit nonce 0 tos amounts
        (sym (length-amounts (balance - fee * limit * n) n random)) in
    record {
      affordable = omega (
        arith,
        send_all-cost accepted fee limit nonce 0 tos amounts,
        sum-random_near_even_split (balance - fee * limit * n) n random pos,
        left,
      );
      counted = counts.0;
      complete = counts.1;
    }

nothing-Numbered : (o : Option ℕ) → Numbered o []
unfolding Numbered Consecutive
nothing-Numbered none = refl
nothing-Numbered (some nonce) = tt

-- Whatever the chain answers and whatever is drawn, the sender of a split with a recipient pays no
-- more value and gas than its balance, with nonces that count up from its own; it counts at most its
-- recipients, and all of them if it does not fail.
pub exec_split-WithinMeans :
    (fee balance : ℕ) (a : Answers) (s : Split)
    → a.balance ≡ some balance
    → 0 < length s.to
    → let o = exec_split fee a s in
      WithinMeans fee balance (length s.to) o × Numbered a.nonce o.payments
unfolding exec_split Numbered
exec_split-WithinMeans fee balance a s funds pos =
    let limit = estimate_gas a.estimate in
    let n = length s.to in
    let spendable = balance - fee * limit * n in
    let nothing : WithinMeans fee balance n (skipped n) × Numbered a.nonce [] =
      (skipped-WithinMeans fee balance n, nothing-Numbered a.nonce) in
    elim (Bool-cases (balance == 0)) [
      | inl e ↦ rw (funds, e) nothing
      | inr e ↦ elim (Bool-cases (spendable == 0)) [
        | inl f ↦ rw (funds, e, f) nothing
        | inr f ↦ elim (Option-cases a.nonce) [
          | inl g ↦ rw (funds, e, f, g) (gave_up-WithinMeans fee balance n, refl)
          | inr (nonce, g) ↦
              rw (funds, e, f, g)
                (
                  send_all-WithinMeans a.accepted a.random fee limit nonce balance s.to pos
                      (λ z. ground (arith, f, z)),
                  send_all-Consecutive a.accepted limit nonce 0 s.to
                      (random_near_even_split spendable n a.random),
                )
        ]
      ]
    ]

paid_nothing :
    (fee balance : ℕ) (o : Outcome)
    → o.payments ≡ []
    → WithinMeans fee balance 1 o
    → ((o.payments ≡ []) ⊎ (cost fee o.payments ≡ balance)) × WithinMeans fee balance 1 o
paid_nothing fee balance o paid means = (inl paid, means)

-- The sender of a sweep pays nothing, or exactly its balance, the value and the gas together; it
-- counts its one transfer unless it fails.
pub exec_sweep-cost :
    (fee balance : ℕ) (a : Answers) (s : Sweep)
    → a.balance ≡ some balance
    → let o = exec_sweep fee a s in
      ((o.payments ≡ []) ⊎ (cost fee o.payments ≡ balance)) × WithinMeans fee balance 1 o
unfolding exec_sweep
exec_sweep-cost fee balance a s funds =
    let limit = estimate_gas a.estimate in
    let amount = balance - fee * limit in
    let nothing = paid_nothing fee balance (skipped 1) refl (skipped-WithinMeans fee balance 1) in
    let lost = paid_nothing fee balance gave_up refl (gave_up-WithinMeans fee balance 1) in
    elim (Bool-cases (balance == 0)) [
      | inl e ↦ rw (funds, e) nothing
      | inr e ↦ elim (Bool-cases (amount == 0)) [
        | inl f ↦ rw (funds, e, f) nothing
        | inr f ↦ elim (Option-cases a.nonce) [
          | inl g ↦ rw (funds, e, f, g) lost
          | inr (nonce, g) ↦ elim (Bool-cases (a.accepted 0)) [
            | inl k ↦
                rw (funds, e, f, g, k)
                  (
                    inr (ground (arith, f)),
                    record {
                      affordable = ground (arith, f);
                      counted = omega arith;
                      complete = inr refl;
                    },
                  )
            | inr k ↦ rw (funds, e, f, g, k) lost
          ]
        ]
      ]
    ]
