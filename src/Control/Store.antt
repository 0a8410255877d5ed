-- ===== src/Control/Store.antt =====
-- internal/control/store.go: the persisted strategies. Texts are opaque numbers, 0 is ""; `trim` is
-- strings.TrimSpace. The clock, the random id and whether the disk accepts the write are arguments.
pub mod Lookup
pub mod Unique
use pons_mm_desktop.Prelude.{
  ℕ, Bool, true, false, Option, none, some, List, [], ◌∷◌, map, ◌==◌, if◌then◌else◌,
}

pub data Mode : Type 0 where
  launch existing : Mode
  unknown : ℕ → Mode

-- `unset` is the empty protocol of a configuration written before v2.
pub data Protocol : Type 0 where
  unset v1 v2 : Protocol
  other : ℕ → Protocol

-- Of `Strategy` the fields that the control plane reads; `tuning` stands for the execution
-- parameters, which it hands to the engine unread.
pub record Strategy : Type 0 where
  pub id : ℕ
  pub name : ℕ
  pub mode : Mode
  pub protocol : Protocol
  pub token_address : ℕ
  pub pool_address : ℕ
  pub wallet_ids : List ℕ
  pub token_name : ℕ
  pub token_symbol : ℕ
  pub tuning : ℕ
  pub created_at : ℕ
  pub updated_at : ℕ

abbrev pub or_v1 : Protocol → Protocol
or_v1 Protocol.unset = Protocol.v1
or_v1 p = p

-- `strategy(id)`: the first record of that id.
unfoldable pub strategy : ℕ → List Strategy → Option Strategy
strategy id [] = none
strategy id (x ∷ xs) = if x.id == id then some x else strategy id xs

-- The loop of `saveStrategy`: replace the record of the same id, or append; the creation time of
-- the old record is kept where the new one has none.
unfoldable pub upsert : Strategy → List Strategy → Strategy × List Strategy
upsert s [] = (s, s ∷ [])
upsert s (x ∷ xs) =
    let s' = record s { created_at = if s.created_at == 0 then x.created_at else s.created_at } in
    let rest = upsert s xs in if x.id == s.id then (s', s' ∷ xs) else (rest.0, x ∷ rest.1)

-- What `saveStrategy` fills in before it takes the lock.
unfoldable pub normalize : (ℕ → ℕ) → ℕ → ℕ → Strategy → Strategy
normalize trim now random_id s =
    let t = record s {
      name = trim s.name;
      token_address = trim s.token_address;
      pool_address = trim s.pool_address;
      protocol = or_v1 s.protocol;
      updated_at = now;
    } in
    if s.id == 0 then record t { id = random_id; created_at = now } else t

-- The list that memory holds afterwards, and the saved record unless the write failed.
unfoldable pub save_strategy :
    (ℕ → ℕ) → ℕ → ℕ → Bool → Strategy → List Strategy → List Strategy × Option Strategy
save_strategy trim now random_id written s all =
    let (saved, next) = upsert (normalize trim now random_id s) all in
    (next, if written then some saved else none)

unfoldable pub clear_all_wallet_ids : ℕ → List Strategy → List Strategy
clear_all_wallet_ids now all =
    map (λ (s : Strategy). record s { wallet_ids = []; updated_at = now }) all

-- `none` is the error "strategy not found".
unfoldable pub delete_strategy : ℕ → List Strategy → Option (List Strategy)
delete_strategy id [] = none
delete_strategy id (x ∷ xs) =
    let rest = delete_strategy id xs in
    if x.id == id then some xs else elim rest [ none ↦ none | some ys ↦ some (x ∷ ys) ]

-- `newConfigStore` gives old records the protocol that they were written for.
unfoldable pub migrate : List Strategy → List Strategy
migrate all = map (λ (s : Strategy). record s { protocol = or_v1 s.protocol }) all
