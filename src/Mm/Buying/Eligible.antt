-- ===== src/Mm/Buying/Eligible.antt =====
-- Who buys in a round, and how much (`accumulateStep` and `clampBuyToWalletCap` in
-- internal/ponsmm/engine.go).
use native.Mathlib.Nat.{div-mul-le_self}
use pons_mm_desktop.Prelude.{
  ℕ, suc, zero, ◌-◌, ◌*◌, ◌/◌, ◌%◌, ◌≤◌, ◌<◌, ◌≡◌, ◌⊎◌, refl, Bool-cases, Option-cases, inl, inr,
  Bool, true, false, none, some, List, [], ◌∷◌, length, take, drop, mul-div-le_self, arith,
}
use pons_mm_desktop.Mm.Wallets.{Wallet, spendable_wei}
use pons_mm_desktop.Mm.SnipeExempt.{is_snipe_exempt, filter_snipe_exempt}
use pons_mm_desktop.Mm.Buying.{
  RoundInput, funded_makers, buy_eligible_makers, ensure_maker_funds, round_makers, accumulate_step,
  clamp_buy_to_wallet_cap,
}

-- The wallet holds nothing, has more than the gas reserve, and is exempt while the tax is not cleared.
abbrev pub MayBuy : RoundInput → Wallet → Type 0
MayBuy input w =
    (w.token_raw ≡ 0)
    × (input.gas_reserve < w.eth_wei)
    × ((input.tax_cleared ≡ true) ⊎ (is_snipe_exempt input.exempt w.addr ≡ true))

abbrev pub AllMayBuy : RoundInput → List Wallet → Type 0
AllMayBuy input [] = Unit
AllMayBuy input (w ∷ ws) = MayBuy input w × AllMayBuy input ws

abbrev AllIdle : ℕ → List Wallet → Type 0
AllIdle gas_reserve [] = Unit
AllIdle gas_reserve (w ∷ ws) =
    (w.token_raw ≡ 0) × (gas_reserve < w.eth_wei) × AllIdle gas_reserve ws

buy_eligible_makers-AllIdle :
    (gas_reserve : ℕ) (ws : List Wallet) → AllIdle gas_reserve (buy_eligible_makers gas_reserve ws)
unfolding buy_eligible_makers funded_makers spendable_wei
buy_eligible_makers-AllIdle gas_reserve [] = tt
buy_eligible_makers-AllIdle gas_reserve (w ∷ ws) =
    ground (arith, buy_eligible_makers-AllIdle gas_reserve ws)

cleared-AllMayBuy :
    (input : RoundInput) (ws : List Wallet)
    → input.tax_cleared ≡ true
    → AllIdle input.gas_reserve ws
    → AllMayBuy input ws
cleared-AllMayBuy input [] c h = tt
cleared-AllMayBuy input (w ∷ ws) c h = ((h.0, h.1, inl c), cleared-AllMayBuy input ws c h.2)

unlisted-AllMayBuy :
    (input : RoundInput) (ws : List Wallet)
    → input.exempt ≡ none
    → AllIdle input.gas_reserve ws
    → AllMayBuy input ws
unfolding is_snipe_exempt
unlisted-AllMayBuy input [] c h = tt
unlisted-AllMayBuy input (w ∷ ws) c h =
    ((h.0, h.1, inr (rw c refl)), unlisted-AllMayBuy input ws c h.2)

listed-AllMayBuy :
    (input : RoundInput) (exempt : List ℕ) (ws : List Wallet)
    → input.exempt ≡ some exempt
    → AllIdle input.gas_reserve ws
    → AllMayBuy input (filter_snipe_exempt (some exempt) ws)
unfolding filter_snipe_exempt
listed-AllMayBuy input exempt [] c h = tt
listed-AllMayBuy input exempt (w ∷ ws) c h = ground (arith, c, listed-AllMayBuy input exempt ws c)

-- The three ways in which the filter is passed.
round_makers_cases :
    (input : RoundInput) (ws : List Wallet)
    → let eligible = buy_eligible_makers input.gas_reserve ws in
      ((input.tax_cleared ≡ true) × (round_makers input ws ≡ eligible))
      ⊎ ((input.exempt ≡ none) × (round_makers input ws ≡ eligible))
      ⊎ ((exempt : List ℕ) × (input.exempt ≡ some exempt)
          × (round_makers input ws ≡ filter_snipe_exempt (some exempt) eligible))
unfolding round_makers filter_snipe_exempt
round_makers_cases input ws = elim (Bool-cases input.tax_cleared) [
  | inl c ↦ inl (c, ground arith)
  | inr c ↦ elim (Option-cases input.exempt) [
    | inl e ↦ inr (inl (e, ground arith))
    | inr (exempt, e) ↦ inr (inr (exempt, e, ground arith))
  ]
]

round_makers-AllMayBuy :
    (input : RoundInput) (ws : List Wallet) → AllMayBuy input (round_makers input ws)
round_makers-AllMayBuy input ws =
    let eligible = buy_eligible_makers input.gas_reserve ws in
    let idle = buy_eligible_makers-AllIdle input.gas_reserve ws in
    elim (round_makers_cases input ws) [
      | inl (c, same) ↦ rw same (cleared-AllMayBuy input eligible c idle)
      | inr (inl (e, same)) ↦ rw same (unlisted-AllMayBuy input eligible e idle)
      | inr (inr (exempt, e, same)) ↦ rw same (listed-AllMayBuy input exempt eligible e idle)
    ]

take-AllMayBuy :
    (input : RoundInput) (n : ℕ) (ws : List Wallet)
    → AllMayBuy input ws
    → AllMayBuy input (take n ws)
take-AllMayBuy input zero ws h = tt
take-AllMayBuy input (suc n) [] h = tt
take-AllMayBuy input (suc n) (w ∷ ws) h = (h.0, take-AllMayBuy input n ws h.1)

drop-AllMayBuy :
    (input : RoundInput) (n : ℕ) (ws : List Wallet)
    → AllMayBuy input ws
    → AllMayBuy input (drop n ws)
drop-AllMayBuy input zero ws h = h
drop-AllMayBuy input (suc n) [] h = tt
drop-AllMayBuy input (suc n) (w ∷ ws) h = drop-AllMayBuy input n ws h.1

-- In every round, each maker that buys holds no token, has more than the gas reserve, and is exempt
-- from the opening tax if that is not cleared; and a sequential round has at most one buyer.
pub accumulate_step-AllMayBuy :
    (input : RoundInput) (rr : ℕ) (makers : List Wallet)
    → let buyers = (accumulate_step input rr makers).0 in
      AllMayBuy input buyers × ((input.concurrent ≡ true) ⊎ (length buyers ≤ 1))
unfolding accumulate_step
accumulate_step-AllMayBuy input rr makers =
    let eligible = round_makers input (ensure_maker_funds input makers) in
    let picked = drop (rr % length eligible) eligible in
    let allowed = round_makers-AllMayBuy input (ensure_maker_funds input makers) in
    ground (
      arith,
      allowed,
      take-AllMayBuy input 1 picked (drop-AllMayBuy input (rr % length eligible) eligible allowed),
    )

-- Where the whole spend is quoted, the clamp never raises it; and unless no cap applies or the quote
-- fits into the room under the cap, the spend is cut to at most the share that fits into the room at
-- the quoted rate.
pub clamp_buy_to_wallet_cap_lem :
    (restricted : Bool) (supply bps held tokens spend : ℕ)
    → let room = supply * bps / 10000 - held in
      let clamped = clamp_buy_to_wallet_cap restricted supply bps held (some tokens) spend in
      (clamped ≤ spend)
      × ((restricted ≡ false) ⊎ (bps ≡ 0) ⊎ (tokens ≤ room) ⊎ (clamped * tokens ≤ spend * room))
unfolding clamp_buy_to_wallet_cap
clamp_buy_to_wallet_cap_lem restricted supply bps held tokens spend =
    let room = supply * bps / 10000 - held in
    ground (arith, mul-div-le_self spend room tokens, div-mul-le_self (spend * room) tokens)
