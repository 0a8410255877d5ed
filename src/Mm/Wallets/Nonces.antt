-- ===== src/Mm/Wallets/Nonces.antt =====
-- Cached nonces under refreshes and sends (internal/ponsmm/wallets.go).
use pons_mm_desktop.Prelude.{ℕ, ◌≤◌, ◌≡◌, refl, Option, none, some, List, [], ◌∷◌, map, arith}
use pons_mm_desktop.Mm.Wallets.{Wallet, Pool, all, apply_nonce, refresh_eth}

-- Pairwise: the same accounts with the same token caches, no nonce lower than before.
abbrev pub Advanced : List Wallet → List Wallet → Type 0
Advanced [] [] = Unit
Advanced [] (v ∷ vs) = ⊥
Advanced (w ∷ ws) [] = ⊥
Advanced (w ∷ ws) (v ∷ vs) =
    (v.addr ≡ w.addr) × (v.token_raw ≡ w.token_raw) × (w.nonce ≤ v.nonce) × Advanced ws vs

-- Every balance is the one that the chain answered.
abbrev pub HasBalances : (ℕ → ℕ) → List Wallet → Type 0
HasBalances balances [] = Unit
HasBalances balances (w ∷ ws) = (w.eth_wei ≡ balances w.addr) × HasBalances balances ws

Advanced-refl : (ws : List Wallet) → Advanced ws ws
Advanced-refl [] = tt
Advanced-refl (w ∷ ws) = (refl, refl, omega arith, Advanced-refl ws)

abbrev stored : (ℕ → ℕ) → Wallet → Wallet
stored balances w = record w { eth_wei = balances w.addr }

Advanced-stored : (balances : ℕ → ℕ) (ws : List Wallet) → Advanced ws (map (stored balances) ws)
Advanced-stored balances [] = tt
Advanced-stored balances (w ∷ ws) = (refl, refl, omega arith, Advanced-stored balances ws)

HasBalances-stored :
    (balances : ℕ → ℕ) (ws : List Wallet) → HasBalances balances (map (stored balances) ws)
HasBalances-stored balances [] = tt
HasBalances-stored balances (w ∷ ws) = (refl, HasBalances-stored balances ws)

Advanced-apply_nonce :
    (balances pending : ℕ → ℕ) (ws : List Wallet)
    → Advanced ws (map (apply_nonce pending) (map (stored balances) ws))
unfolding apply_nonce
Advanced-apply_nonce balances pending [] = tt
Advanced-apply_nonce balances pending (w ∷ ws) =
    ground (arith, Advanced-apply_nonce balances pending ws)

HasBalances-apply_nonce :
    (balances pending : ℕ → ℕ) (ws : List Wallet)
    → HasBalances balances (map (apply_nonce pending) (map (stored balances) ws))
unfolding apply_nonce
HasBalances-apply_nonce balances pending [] = tt
HasBalances-apply_nonce balances pending (w ∷ ws) =
    ground (arith, HasBalances-apply_nonce balances pending ws)

-- Whatever the chain answers, or fails to answer, a refresh never takes a cached nonce back and keeps
-- the token caches.
pub refresh_eth-Advanced :
    (balances pending : Option (ℕ → ℕ)) (p : Pool)
    → Advanced (all p) (all (refresh_eth balances pending p).0)
unfolding refresh_eth
refresh_eth-Advanced none pending p = Advanced-refl (all p)
refresh_eth-Advanced (some b) none p = Advanced-stored b (all p)
refresh_eth-Advanced (some b) (some n) p = Advanced-apply_nonce b n (all p)

-- If the balances were read, every cache holds what the chain answered, also if the nonces then fail.
pub refresh_eth-HasBalances :
    (balances : ℕ → ℕ) (pending : Option (ℕ → ℕ)) (p : Pool)
    → HasBalances balances (all (refresh_eth (some balances) pending p).0)
unfolding refresh_eth
refresh_eth-HasBalances b none p = HasBalances-stored b (all p)
refresh_eth-HasBalances b (some n) p = HasBalances-apply_nonce b n (all p)
