-- ===== src/Mm/Wallets.antt =====
-- internal/ponsmm/wallets.go: the wallet pool with its cached balances and nonces. A nil balance reads
-- as 0 in every accessor, so caches are numbers. What the chain answers for a list of addresses is a
-- function of the address: the client returns one value for each address asked.
pub mod Nonces
use pons_mm_desktop.Prelude.{
  ℕ, ◌+◌, ◌-◌, ◌*◌, Bool, true, false, Option, none, some, List, [], ◌∷◌, ◌++◌, map, ◌==◌,
  if◌then◌else◌, ltb, leb, elem, sum,
}
use pons_mm_desktop.Prelude.Result.{Result, ok, err, ◌>>=◌}

pub record Wallet : Type 0 where
  pub addr : ℕ
  pub eth_wei : ℕ
  pub token_raw : ℕ
  pub nonce : ℕ

pub record Pool : Type 0 where
  pub treasury : Wallet
  pub makers : List Wallet

-- `spendableWei`: the source clamps a negative difference to 0, which is where `-` stops.
unfoldable pub spendable_wei : ℕ → Wallet → ℕ
spendable_wei gas_reserve w = w.eth_wei - gas_reserve

abbrev pub set_eth_balance : ℕ → Wallet → Wallet
set_eth_balance v w = record w { eth_wei = v }

abbrev pub add_eth : ℕ → Wallet → Wallet
add_eth v w = record w { eth_wei = w.eth_wei + v }

abbrev pub set_token_balance : ℕ → Wallet → Wallet
set_token_balance v w = record w { token_raw = v }

-- Clamped at 0 like the source.
abbrev pub subtract_token : ℕ → Wallet → Wallet
subtract_token v w = record w { token_raw = w.token_raw - v }

pub data PoolError : Type 0 where
  no_keys : PoolError
  bad_key : ℕ → PoolError

abbrev pub fresh_wallet : ℕ → Wallet
fresh_wallet addr = record { addr = addr; eth_wei = 0; token_raw = 0; nonce = 0 }

-- The keys of a list, as wallets, or the first key that does not load. `load` is `pons.LoadSigner`
-- with the address of the signer.
unfoldable pub load_wallets : (ℕ → Option ℕ) → List ℕ → Result PoolError (List Wallet)
load_wallets load [] = ok []
load_wallets load (k ∷ ks) =
    let rest = load_wallets load ks in
    elim (load k) [
      | none ↦ err (bad_key k)
      | some addr ↦ (rest >>= λ ws. ok (fresh_wallet addr ∷ ws))
    ]

abbrev pub pool_of : List Wallet → Result PoolError Pool
pool_of [] = err no_keys
pool_of (w ∷ ws) = ok (record { treasury = w; makers = ws })

-- `NewPool`: the first key is the treasury, the others are makers.
unfoldable pub new_pool : (ℕ → Option ℕ) → List ℕ → Result PoolError Pool
unfolding load_wallets
new_pool load keys = load_wallets load keys >>= pool_of

abbrev pub all : Pool → List Wallet
all p = p.treasury ∷ p.makers

unfoldable pub wallet_addrs : List Wallet → List ℕ
wallet_addrs [] = []
wallet_addrs (w ∷ ws) = w.addr ∷ wallet_addrs ws

-- `IsOurs`: the keys of `byAddr` are the addresses of all wallets.
unfoldable pub is_ours : ℕ → Pool → Bool
unfolding wallet_addrs
is_ours addr p = elem addr (wallet_addrs (all p))

abbrev pub map_pool : (Wallet → Wallet) → Pool → Pool
map_pool f p = record { treasury = f p.treasury; makers = map f p.makers }

-- `applyNonces`: a cached nonce only ever advances.
unfoldable pub apply_nonce : (ℕ → ℕ) → Wallet → Wallet
apply_nonce pending w =
    if ltb w.nonce (pending w.addr) then record w { nonce = pending w.addr } else w

unfoldable pub apply_nonces : Option (ℕ → ℕ) → Pool → Pool × Bool
unfolding apply_nonce
apply_nonces none p = (p, false)
apply_nonces (some pending) p = (map_pool (apply_nonce pending) p, true)

-- `RefreshETH`: the balances are stored before the nonces are read. The flag is the absence of an
-- error.
unfoldable pub refresh_eth : Option (ℕ → ℕ) → Option (ℕ → ℕ) → Pool → Pool × Bool
unfolding apply_nonces
refresh_eth none pending p = (p, false)
refresh_eth (some balances) pending p =
    apply_nonces pending (map_pool (λ w. set_eth_balance (balances w.addr) w) p)

unfoldable pub refresh_token : Option (ℕ → ℕ) → Pool → Pool × Bool
refresh_token none p = (p, false)
refresh_token (some balances) p = (map_pool (λ w. set_token_balance (balances w.addr) w) p, true)

unfoldable pub refresh_snapshot : Option ((ℕ → ℕ) × (ℕ → ℕ)) → Option (ℕ → ℕ) → Pool → Pool × Bool
unfolding apply_nonces
refresh_snapshot none pending p = (p, false)
refresh_snapshot (some (native, tokens)) pending p =
    apply_nonces pending
      (map_pool (λ w. set_token_balance (tokens w.addr) (set_eth_balance (native w.addr) w)) p)

unfoldable pub sum_of : (Wallet → ℕ) → List Wallet → ℕ
sum_of f [] = 0
sum_of f (w ∷ ws) = f w + sum_of f ws

unfoldable pub total_eth : Pool → ℕ
unfolding sum_of
total_eth p = sum_of (λ w. w.eth_wei) (all p)

unfoldable pub total_tokens : Pool → ℕ
unfolding sum_of
total_tokens p = sum_of (λ w. w.token_raw) (all p)

-- The answer of the node to a broadcast; a refusal comes with the pending nonce, if that is readable.
pub data SendAnswer : Type 0 where
  accepted : SendAnswer
  refused : Option ℕ → SendAnswer

-- `send`: advance the nonce on success, re-read it from the chain on failure.
unfoldable pub send : SendAnswer → Wallet → Wallet × Bool
send accepted w = (record w { nonce = w.nonce + 1 }, true)
send (refused none) w = (w, false)
send (refused (some n)) w = (record w { nonce = n }, false)
