-- ===== src/Control/Locks.antt =====
-- What the wallet reservation of internal/control/service.go promises, without jobs, messages or
-- engines: a table of owners, of which a client takes free wallets at once and gives back all of its
-- own. Owner 0 is nobody.
use pons_mm_desktop.Prelude.{ℕ, ◌≡◌, ◌≢◌, true, List, ◌==◌, if◌then◌else◌, elem}

pub data LockStep : (ℕ → ℕ) → (ℕ → ℕ) → Type 0 where
  acquires :
      {before after : ℕ → ℕ} (id : ℕ) (ws : List ℕ)
      → id ≢ 0
      → ((w : ℕ) → elem w ws ≡ true → before w ≡ 0)
      → ((w : ℕ) → after w ≡ (if elem w ws then id else before w))
      → LockStep before after
  releases :
      {before after : ℕ → ℕ} (id : ℕ)
      → ((w : ℕ) → after w ≡ (if before w == id then 0 else before w))
      → LockStep before after
  idles : {before after : ℕ → ℕ} → ((w : ℕ) → after w ≡ before w) → LockStep before after

pub data LockRun (start : ℕ → ℕ) : (ℕ → ℕ) → Type 0 where
  fresh : LockRun start start
  then_step : {mid last : ℕ → ℕ} → LockRun start mid → LockStep mid last → LockRun start last
