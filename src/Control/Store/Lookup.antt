-- ===== src/Control/Store/Lookup.antt =====
-- What a save does to lookups (internal/control/store.go).
use pons_mm_desktop.Prelude.{
  ℕ, ◌≡◌, refl, Bool, true, some, List, [], ◌∷◌, ◌==◌, if◌then◌else◌, arith,
}
use pons_mm_desktop.Control.Store.{Strategy, strategy, upsert, normalize, save_strategy}

pub upsert-id : (s : Strategy) (all : List Strategy) → (upsert s all).0.id ≡ s.id
unfolding upsert
upsert-id s [] = refl
upsert-id s (x ∷ xs) = ground (arith, upsert-id s xs)

pub strategy-upsert :
    (k : ℕ) (s : Strategy) (all : List Strategy)
    → strategy k (upsert s all).1 ≡ (if s.id == k then some (upsert s all).0 else strategy k all)
unfolding strategy upsert
strategy-upsert k s [] = refl
strategy-upsert k s (x ∷ xs) = ground (arith, strategy-upsert k s xs)

-- After a save, the id of the saved record finds exactly the record that the call returns, and every
-- other id finds what it found before; this holds of the memory also where the write fails.
pub strategy-save_strategy :
    (trim : ℕ → ℕ) (now random_id k : ℕ) (written : Bool) (s : Strategy) (all : List Strategy)
    → let saved = (upsert (normalize trim now random_id s) all).0 in
      (strategy k (save_strategy trim now random_id written s all).0
        ≡ (if (normalize trim now random_id s).id == k then some saved else strategy k all))
      × ((save_strategy trim now random_id true s all).1 ≡ some saved)
unfolding save_strategy
strategy-save_strategy trim now random_id k written s all =
    (strategy-upsert k (normalize trim now random_id s) all, refl)
