-- ===== src/Pons/Client/Gas.antt =====
-- The gas that a transaction is offered (`SuggestGas` in internal/pons/client.go).
use mathlib.Core.Path.{subst}
use pons_mm_desktop.Prelude.{
  ℕ, ◌+◌, ◌-◌, ◌*◌, ◌≤◌, ◌≡◌, ◌⊎◌, inl, inr, refl, sym, Option, none, some, arith, Option-cases,
}
use pons_mm_desktop.Pons.Client.{
  GasCache, both, freshness, cached_gas, fetch_gas, store_gas, priced, suggest_gas,
}

fresh-cached :
    (later base suggested : ℕ) (c : GasCache)
    → both c.gas_base c.gas_tip ≡ some (base, suggested)
    → later - c.gas_fetched ≤ freshness
    → cached_gas later c ≡ some (base, suggested)
unfolding cached_gas
fresh-cached later base suggested c h f = ground (arith, h)

cached-both :
    (now base suggested : ℕ) (c : GasCache)
    → cached_gas now c ≡ some (base, suggested)
    → both c.gas_base c.gas_tip ≡ some (base, suggested)
unfolding cached_gas
cached-both now base suggested c h = ground (arith, h)

-- A suggestion from a cache that is fresh.
from_cache :
    (later extra base suggested : ℕ) (header : Option (Option ℕ)) (node_tip : Option ℕ)
    (c : GasCache)
    → cached_gas later c ≡ some (base, suggested)
    → suggest_gas later header node_tip extra c ≡ (c, some (priced extra (base, suggested)))
unfolding suggest_gas
from_cache later extra base suggested header node_tip c h = rw (h, suggest_gas) refl

from_node :
    (now extra base suggested : ℕ) (header : Option (Option ℕ)) (node_tip : Option ℕ) (c : GasCache)
    → cached_gas now c ≡ none
    → fetch_gas header node_tip ≡ some (base, suggested)
    → suggest_gas now header node_tip extra c
      ≡ (store_gas now base suggested, some (priced extra (base, suggested)))
unfolding suggest_gas
from_node now extra base suggested header node_tip c h e = rw (h, suggest_gas, e) refl

no_gas :
    (now extra : ℕ) (header : Option (Option ℕ)) (node_tip : Option ℕ) (c : GasCache)
    → cached_gas now c ≡ none
    → fetch_gas header node_tip ≡ none
    → suggest_gas now header node_tip extra c ≡ (c, none)
unfolding suggest_gas
no_gas now extra header node_tip c h e = rw (h, suggest_gas, e) refl

-- A suggestion that is made from these fees leaves a cache that holds them.
abbrev pub Suggested :
    ℕ → Option (Option ℕ) → Option ℕ → ℕ → GasCache → GasCache × Option (ℕ × ℕ) → Type 0
Suggested now header node_tip extra c (c', none) =
    (cached_gas now c ≡ none) × (fetch_gas header node_tip ≡ none) × (c' ≡ c)
Suggested now header node_tip extra c (c', some (tip, fee_cap)) =
    (base : ℕ) × (suggested : ℕ) × ((cached_gas now c ≡ some (base, suggested))
      ⊎ ((cached_gas now c ≡ none) × (fetch_gas header node_tip ≡ some (base, suggested))))
    × (both c'.gas_base c'.gas_tip ≡ some (base, suggested))
    × (tip ≡ suggested + extra)
    × (fee_cap ≡ base * 2 + tip)

suggest_gas-Suggested :
    (now extra : ℕ) (header : Option (Option ℕ)) (node_tip : Option ℕ) (c : GasCache)
    → Suggested now header node_tip extra c (suggest_gas now header node_tip extra c)
unfolding store_gas
suggest_gas-Suggested now extra header node_tip c = elim (Option-cases (cached_gas now c)) [
  | inr (gas, e) ↦
      let (base, suggested) = gas in
      subst (Suggested now header node_tip extra c)
        (sym (from_cache now extra base suggested header node_tip c e))
        (base, suggested, inl e, cached-both now base suggested c e, refl, refl)
  | inl e ↦ elim (Option-cases (fetch_gas header node_tip)) [
    | inr (gas, g) ↦
        let (base, suggested) = gas in
        subst (Suggested now header node_tip extra c)
          (sym (from_node now extra base suggested header node_tip c e g))
          (base, suggested, inr (e, g), refl, refl, refl)
    | inl g ↦
        subst (Suggested now header node_tip extra c) (sym (no_gas now extra header node_tip c e g))
          (e, g, refl)
  ]
]

steady :
    (now later extra tip fee_cap : ℕ) (header header' : Option (Option ℕ))
    (node_tip node_tip' : Option ℕ) (c c' : GasCache)
    → Suggested now header node_tip extra c (c', some (tip, fee_cap))
    → later - c'.gas_fetched ≤ freshness
    → (suggest_gas later header' node_tip' extra c').1 ≡ some (tip, fee_cap)
steady now later extra tip fee_cap header header' node_tip node_tip' c c' s f =
    let (base, suggested, from, kept, t, e) = s in
    let cached = fresh-cached later base suggested c' kept f in
    ground (arith, from_cache later extra base suggested header' node_tip' c' cached)

repeated :
    (now later extra : ℕ) (header header' : Option (Option ℕ)) (node_tip node_tip' : Option ℕ)
    (c : GasCache) (r : GasCache × Option (ℕ × ℕ))
    → Suggested now header node_tip extra c r
    → later - r.0.gas_fetched ≤ freshness
    → (r.1 ≡ none) ⊎ ((suggest_gas later header' node_tip' extra r.0).1 ≡ r.1)
repeated now later extra header header' node_tip node_tip' c (c', none) s f = inl refl
repeated now later extra header header' node_tip node_tip' c (c', some (tip, fee_cap)) s f =
    inr (steady now later extra tip fee_cap header header' node_tip node_tip' c c' s f)

-- A suggestion that succeeds is the tip of a fresh cache, or else of the node, with the extra, and a fee cap
-- of twice its base fee and this tip; until 6 seconds after its fees were read, the next suggestion with
-- the same extra is the same one, whatever the node answers then. One that fails found neither and leaves
-- the cache unchanged.
pub suggest_gas-Steady :
    (now later extra : ℕ) (header header' : Option (Option ℕ)) (node_tip node_tip' : Option ℕ)
    (c : GasCache)
    → later - (suggest_gas now header node_tip extra c).0.gas_fetched ≤ freshness
    → let first = suggest_gas now header node_tip extra c in
      Suggested now header node_tip extra c first
      × ((first.1 ≡ none) ⊎ ((suggest_gas later header' node_tip' extra first.0).1 ≡ first.1))
suggest_gas-Steady now later extra header header' node_tip node_tip' c f =
    let s = suggest_gas-Suggested now extra header node_tip c in
    (
      s,
      repeated now later extra header header' node_tip node_tip' c
          (suggest_gas now header node_tip extra c) s f,
    )
