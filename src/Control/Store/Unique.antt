-- ===== src/Control/Store/Unique.antt =====
-- The ids of the persisted strategies (internal/control/store.go).
use pons_mm_desktop.Prelude.{
  ℕ, ◌≡◌, inl, inr, Bool, none, some, Option-cases, List, [], ◌∷◌, ◌==◌, if◌then◌else◌, arith,
}
use pons_mm_desktop.Control.Store.{Strategy, strategy, upsert, save_strategy, delete_strategy}
use pons_mm_desktop.Control.Store.Lookup.{strategy-upsert}

abbrev pub Unique : List Strategy → Type 0
Unique [] = Unit
Unique (x ∷ xs) = (strategy x.id xs ≡ none) × Unique xs

upsert-Unique : (s : Strategy) (all : List Strategy) → Unique all → Unique (upsert s all).1
unfolding upsert strategy
upsert-Unique s [] u = ground arith
upsert-Unique s (x ∷ xs) u = ground (arith, upsert-Unique s xs, strategy-upsert x.id s xs)

-- A save keeps the ids distinct.
pub save_strategy-Unique :
    (trim : ℕ → ℕ) (now random_id : ℕ) (written : Bool) (s : Strategy) (all : List Strategy)
    → Unique all
    → Unique (save_strategy trim now random_id written s all).0
unfolding save_strategy
save_strategy-Unique trim now random_id written s all u = upsert-Unique _ all u

-- With distinct ids, a delete removes that strategy and no other, and keeps the ids distinct.
pub delete_strategy_lem :
    (id k : ℕ) (all next : List Strategy)
    → Unique all
    → delete_strategy id all ≡ some next
    → (strategy k next ≡ (if id == k then none else strategy k all)) × Unique next
unfolding delete_strategy strategy
delete_strategy_lem id k [] next u h = ground arith
delete_strategy_lem id k (x ∷ xs) next u h = elim (Option-cases (delete_strategy id xs)) [
  | inl e ↦ ground arith
  | inr (ys, e) ↦
      ground (arith, delete_strategy_lem id k xs ys u.1 e, delete_strategy_lem id x.id xs ys u.1 e)
]
