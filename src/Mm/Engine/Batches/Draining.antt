-- ===== src/Mm/Engine/Batches/Draining.antt =====
-- How batch after batch empties the wallets (`startDistributionRound`, `sellWalletBatch` and
-- `applyDistributionResult` in internal/ponsmm/engine.go).
use pons_mm_desktop.Prelude.{
  ℕ, suc, zero, ◌+◌, ◌≤◌, ◌<◌, ◌≡◌, ◌⊎◌, refl, inl, inr, true, false, ◌&&◌, Option, none, some,
  List, [], ◌∷◌, if◌then◌else◌, length, take, elem, arith,
}
use pons_mm_desktop.Mm.Decide.{distributing}
use pons_mm_desktop.Mm.Wallets.{Wallet, send, wallet_addrs}
use pons_mm_desktop.Mm.Sale.{
  receipt, sell_once, settle_sale, sell_each, sell_wallets_fast, total_held, batch_quote,
  or_no_quote,
}
use pons_mm_desktop.Mm.Engine.{
  Engine, Chain, Batch, sales, holding, chosen_wallets, wallet_or, put_wallets, execute_batch, book,
  start_distribution_round, distribution_wallet_batch, apply_distribution_result, drawn_size,
  is_done,
}

-- What every wallet that is put back holds.
wallet_or-token :
    (w : Wallet) (us : List Wallet) (a : ℕ)
    → total_held us ≡ 0
    → (wallet_or w us a).token_raw ≡ (if elem a (wallet_addrs us) then 0 else w.token_raw)
unfolding total_held wallet_addrs
wallet_or-token w [] a z = refl
wallet_or-token w (u ∷ us) a z = ground (arith, wallet_or-token w us a)

-- The held wallets among some addresses.
abbrev hits : List ℕ → List Wallet → ℕ
hits addrs ws = length (holding (chosen_wallets addrs ws))

length-holding-put_wallets :
    (us ws : List Wallet)
    → total_held us ≡ 0
    → length (holding (put_wallets us ws)) + hits (wallet_addrs us) ws ≡ length (holding ws)
unfolding put_wallets
length-holding-put_wallets us [] z = refl
length-holding-put_wallets us (w ∷ ws) z =
    ground (arith, wallet_or-token w us w.addr z, length-holding-put_wallets us ws z)

elem-chosen_wallets :
    (a : ℕ) (addrs : List ℕ) (ws : List Wallet)
    → elem a (wallet_addrs (chosen_wallets addrs ws)) ≡ (elem a addrs && elem a (wallet_addrs ws))
unfolding wallet_addrs
elem-chosen_wallets a addrs [] = ground arith
elem-chosen_wallets a addrs (w ∷ ws) = ground (arith, elem-chosen_wallets a addrs ws)

-- The first held wallet.
hits-positive :
    (x : Wallet) (rest ws : List Wallet) (addrs : List ℕ)
    → holding ws ≡ x ∷ rest
    → elem x.addr addrs ≡ true
    → (0 < hits addrs ws) × (elem x.addr (wallet_addrs ws) ≡ true)
unfolding wallet_addrs
hits-positive x rest [] addrs h m = cc
hits-positive x rest (w ∷ ws) addrs h m = ground (arith, hits-positive x rest ws addrs)

total_held-holding : (ws : List Wallet) → length (holding ws) ≡ 0 → total_held ws ≡ 0
unfolding total_held
total_held-holding [] h = refl
total_held-holding (w ∷ ws) h = ground (arith, total_held-holding ws)

list-cases :
    (ws : List Wallet) → (ws ≡ []) ⊎ ((x : Wallet) × (rest : List Wallet) × (ws ≡ x ∷ rest))
list-cases [] = inl refl
list-cases (x ∷ rest) = inr (x, rest, refl)

first_chosen :
    (x : Wallet) (rest : List Wallet) (size : ℕ)
    → 0 < size
    → elem x.addr (wallet_addrs (take size (x ∷ rest))) ≡ true
unfolding wallet_addrs
first_chosen x rest zero p = absurd (omega arith)
first_chosen x rest (suc k) p = ground arith

first_taken :
    (x : Wallet) (rest : List Wallet) (size : ℕ) → 0 < size → 0 < length (take size (x ∷ rest))
first_taken x rest zero p = absurd (omega arith)
first_taken x rest (suc k) p = omega arith

drawn_size-positive : (draw size : ℕ) → 0 < drawn_size draw size
drawn_size-positive draw size = ground arith

-- A chain on which every sale is confirmed and empties its wallet, and every quote succeeds.
module _ (eth : ℕ → Option ℕ) (price : ℕ → ℕ) (draw : ℕ) (plan : Option Batch) where
  abbrev pub selling : Chain
  selling = record {
    sale = λ a. receipt true (some 0) (eth a);
    fresh = λ tokens. some (price tokens);
    balances = none;
    draw = draw;
    plan = plan;
  }

  sell_each-clears :
      (quote total : ℕ) (ws : List Wallet)
      → (wallet_addrs (sell_each selling.sale selling.fresh quote total ws).0 ≡ wallet_addrs ws)
        × (total_held (sell_each selling.sale selling.fresh quote total ws).0 ≡ 0)
  unfolding sell_each sell_once settle_sale send total_held wallet_addrs
  sell_each-clears quote total [] = (refl, refl)
  sell_each-clears quote total (w ∷ ws) = ground (arith, sell_each-clears quote total ws)

  sell_wallets_fast-clears :
      (quote quoted : ℕ) (ws : List Wallet)
      → (wallet_addrs (sell_wallets_fast selling.sale selling.fresh quote quoted ws).0
          ≡ wallet_addrs ws)
        × (total_held (sell_wallets_fast selling.sale selling.fresh quote quoted ws).0 ≡ 0)
  unfolding sell_wallets_fast
  sell_wallets_fast-clears quote quoted ws =
      let total = total_held ws in
      let q = batch_quote (or_no_quote (selling.fresh total)) quote quoted total in
      ground (arith, sell_each-clears q total ws)

  -- One tick with its batch and its result.
  abbrev pub round : Engine → Engine
  round e = apply_distribution_result (execute_batch selling (start_distribution_round draw 0 0 e))

  -- The rounds up to the end of the loop.
  abbrev pub rounds : ℕ → Engine → Engine
  rounds zero e = e
  rounds (suc n) e = let e' = rounds n (round e) in if is_done e.state then e else e'

  -- A distribution between two rounds, with no buy pending.
  abbrev pub Ready : Engine → Type 0
  Ready e =
      (e.state ≡ distributing) × (e.round_running ≡ false) × (e.batch ≡ none) × (e.pending_buys ≡ 0)

  -- The wallets after the batch that is chosen from `x`, the first that holds something.
  sold_batch-lt :
      (quote quoted : ℕ) (ws rest : List Wallet) (x : Wallet) (size : ℕ)
      → holding ws ≡ x ∷ rest
      → 0 < size
      → let addrs = wallet_addrs (take size (holding ws)) in
        let after =
          (sell_wallets_fast selling.sale selling.fresh quote quoted (chosen_wallets addrs ws)).0 in
        length (holding (put_wallets after ws)) < length (holding ws)
  sold_batch-lt quote quoted ws rest x size h p =
      let addrs = wallet_addrs (take size (holding ws)) in
      let chosen = chosen_wallets addrs ws in
      let after = (sell_wallets_fast selling.sale selling.fresh quote quoted chosen).0 in
      let (same, gone) = sell_wallets_fast-clears quote quoted chosen in
      let asked : elem x.addr addrs ≡ true = rw h (first_chosen x rest size p) in
      let there = hits-positive x rest ws addrs h asked in
      let sold : elem x.addr (wallet_addrs after) ≡ true =
        rw same (ground (arith, elem-chosen_wallets x.addr addrs ws, asked, there)) in
      omega (
        arith,
        length-holding-put_wallets after ws gone,
        hits-positive x rest ws (wallet_addrs after) h sold,
      )

  round-empty : (e : Engine) → Ready e → holding e.wallets ≡ [] → is_done (round e).state ≡ true
  unfolding start_distribution_round distribution_wallet_batch execute_batch
      apply_distribution_result
  round-empty e r h = ground (arith, total_held-holding e.wallets)

  start-batch :
      (e : Engine) (x : Wallet) (rest : List Wallet)
      → Ready e
      → holding e.wallets ≡ x ∷ rest
      → let size = drawn_size draw e.batch_size in
        let addrs = wallet_addrs (take size (holding e.wallets)) in
        start_distribution_round draw 0 0 e
        ≡ record e { batch_size = size; round_running = true; batch = some (sales addrs 0 0) }
  unfolding start_distribution_round distribution_wallet_batch
  start-batch e x rest r h =
      let size = drawn_size draw e.batch_size in
      let some_taken : 0 < length (take size (holding e.wallets)) =
        rw h (first_taken x rest size (drawn_size-positive draw e.batch_size)) in
      ground (arith, h, some_taken)

  -- A round with something to sell ends the distribution, or leaves it ready with less to sell.
  round-step :
      (e : Engine) (x : Wallet) (rest : List Wallet)
      → Ready e
      → holding e.wallets ≡ x ∷ rest
      → (is_done (round e).state ≡ true)
        ⊎ (Ready (round e)
            × (length (holding (round e).wallets) < length (holding e.wallets))
            × (0 < length (holding (round e).wallets)))
  unfolding execute_batch apply_distribution_result book
  round-step e x rest r h =
      let size = drawn_size draw e.batch_size in
      let addrs = wallet_addrs (take size (holding e.wallets)) in
      let sold =
        sold_batch-lt 0 0 e.wallets rest x size h (drawn_size-positive draw e.batch_size) in
      let after =
        (sell_wallets_fast selling.sale selling.fresh 0 0 (chosen_wallets addrs e.wallets)).0 in
      rw (start-batch e x rest r h)
        (ground (arith, r, sold, total_held-holding (put_wallets after e.wallets)))

  rounds-stay : (n : ℕ) (e : Engine) → is_done e.state ≡ true → is_done (rounds n e).state ≡ true
  rounds-stay zero e d = d
  rounds-stay (suc n) e d = rw d d

  rounds-held :
      (n : ℕ) (e : Engine)
      → Ready e
      → 0 < length (holding e.wallets)
      → length (holding e.wallets) ≤ n
      → is_done (rounds n e).state ≡ true
  rounds-held zero e r p le = absurd (omega arith)
  rounds-held (suc n) e r p le =
      let going : is_done e.state ≡ false = ground arith in
      rw going (elim (list-cases (holding e.wallets)) [
        | inl h ↦ absurd (ground arith)
        | inr (x, rest, h) ↦ elim (round-step e x rest r h) [
          | inl d ↦ rounds-stay n (round e) d
          | inr (ready, less, some_left) ↦ rounds-held n (round e) ready some_left (omega arith)
        ]
      ])

  -- From a distribution with no round running and no buy pending, if every sale succeeds and empties
  -- its wallet, the distribution ends: after at most as many
  -- rounds as wallets hold something (one if none does), the machine is `Done`.
  pub rounds-Done :
      (n : ℕ) (e : Engine)
      → Ready e
      → length (holding e.wallets) ≤ suc n
      → is_done (rounds (suc n) e).state ≡ true
  rounds-Done n e r le =
      let going : is_done e.state ≡ false = ground arith in
      elim (list-cases (holding e.wallets)) [
        | inl h ↦ rw going (rounds-stay n (round e) (round-empty e r h))
        | inr (x, rest, h) ↦ rounds-held (suc n) e r (ground arith) le
      ]
