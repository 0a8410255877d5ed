-- ===== src/Vault/Sealing.antt =====
-- What comes back from the file, and which keys are there after a wipe (`Unlock`, `Lock`, `Retain` and
-- `Keys` in internal/vault/vault.go).
use pons_mm_desktop.Prelude.{
  ℕ, ◌≡◌, ◌↔◌, Bool, true, false, ◌==◌, Option, none, some, List, [], ◌∷◌, if◌then◌else◌,
  Bool-cases, inl, inr, elem, keep, arith,
}
use pons_mm_desktop.Prelude.Result.{ok}
use pons_mm_desktop.Vault.{
  Entry, Store, Kind, by_id, clear_locked, lock, unlock, save_locked, import_keys, retain,
}

-- The map of `Keys` after the filter of `Retain`.
by_id-keep :
    (id : ℕ) (ids : List ℕ) (ws : List Entry)
    → by_id id (keep (λ (w : Entry). elem w.address ids) ws)
      ≡ (if elem id ids then by_id id ws else none)
unfolding by_id
by_id-keep id ids [] = ground arith
by_id-keep id ids (w ∷ ws) = ground (arith, by_id-keep id ids ws)

module _ (derive : ℕ → ℕ → ℕ) (seal : ℕ → ℕ → List Entry → List ℕ)
    (opens : ℕ → List ℕ → Option (List Entry))
    (opens-seal : (key nonce : ℕ) (ws : List Entry) → opens key (seal key nonce ws) ≡ some ws) where
  -- An unlocked store whose file holds what memory holds.
  abbrev IsSaved : ℕ → ℕ → Store → Type 0
  IsSaved password nonce s =
      (s.unlocked ≡ true)
      × (s.key ≡ derive password s.salt)
      × (s.file ≡ some (s.salt, seal s.key nonce s.wallets))

  unlock-lock :
      (password nonce : ℕ) (s : Store)
      → (password == 0) ≡ false
      → IsSaved password nonce s
      → unlock derive seal opens password (lock s) ≡ (s, none)
  unfolding unlock lock clear_locked
  unlock-lock password nonce s p v = ground (arith, opens-seal s.key nonce s.wallets)

  -- After an import without an error into a store whose key is derived from the password, which is not
  -- empty, locking and unlocking with this password gives back the store as the import left it, with
  -- every wallet and every key, if `opens` undoes `seal`.
  pub unlock-import_keys :
      (parse : ℕ → Option (ℕ × ℕ)) (written : Bool) (nonce prefix password : ℕ) (kind : Kind)
      (raws : List ℕ) (s : Store) (added : List Entry)
      → (password == 0) ≡ false
      → s.key ≡ derive password s.salt
      → (import_keys derive seal opens parse written nonce prefix kind raws s).1 ≡ ok added
      → let s' = (import_keys derive seal opens parse written nonce prefix kind raws s).0 in
        unlock derive seal opens password (lock s') ≡ (s', none)
  unfolding import_keys save_locked
  unlock-import_keys parse written nonce prefix password kind raws s added p k h =
      let s' = (import_keys derive seal opens parse written nonce prefix kind raws s).0 in
      unlock-lock password nonce s' p (ground arith, ground arith, ground arith)

  -- A wipe of an unlocked vault keeps the key of every listed wallet and of no other, and the file
  -- then holds exactly what is left, if it could be written.
  pub retain_lem :
      (written : Bool) (nonce id : ℕ) (ids : List ℕ) (s : Store)
      → s.unlocked ≡ true
      → let (s', error) = retain derive seal opens written nonce ids s in
        (by_id id s'.wallets ≡ (if elem id ids then by_id id s.wallets else none))
        × (s'.file ≡ (if written then some (s.salt, seal s.key nonce s'.wallets) else s.file))
        × ((error ≡ none) ↔ (written ≡ true))
  unfolding retain save_locked
  retain_lem written nonce id ids s u = elim (Bool-cases written) [
    | inl w ↦
        (ground (arith, by_id-keep id ids s.wallets), ground arith, (λ e. w, λ e. ground arith))
    | inr w ↦ (
      ground (arith, by_id-keep id ids s.wallets),
      ground arith,
      (λ e. ground arith, λ e. ground arith),
    )
  ]
