-- ===== src/Control/Funding/Sources.antt =====
-- `resolveWithdrawSources` of internal/control/funding.go: the wallets that a withdrawal empties. The
-- fields of the input are numbers; `hex_address` is the address that a field spells, `source_key` the
-- address and the canonical text of the private key that it spells. The vault is that of Vault.
pub mod Stored
use pons_mm_desktop.Prelude.{
  ℕ, ◌+◌, ◌≤◌, ◌<◌, ◌≡◌, Bool, true, false, not, Option, none, some, List, [], ◌∷◌, ◌++◌, ◌==◌,
  if◌then◌else◌, ltb, length, elem,
}
use pons_mm_desktop.Prelude.Result.{Result, ok, err}
use pons_mm_desktop.Vault.{Store, Entry, VaultError, trading, addresses, import_private_keys}
use pons_mm_desktop.Control.Funding.{max_funding_targets}

pub data SourceError : Type 0 where
  vault_locked no_sources too_many_sources : SourceError
  not_in_vault bad_field repeated : ℕ → SourceError
  import_failed : VaultError → SourceError

-- The loop over the fields: the addresses, and the keys that the vault does not have yet.
pub record Sources : Type 0 where
  pub found : List ℕ
  pub new_keys : List ℕ

abbrev pub with_source : ℕ → List ℕ → Result SourceError Sources → Result SourceError Sources
with_source a keys (err e) = err e
with_source a keys (ok r) = ok (record { found = a ∷ r.found; new_keys = keys ++ r.new_keys })

abbrev pub unless_seen : List ℕ → ℕ → Result SourceError Sources → Result SourceError Sources
unless_seen seen a rest = if elem a seen then err (repeated a) else rest

module _ (hex_address : ℕ → Option ℕ) (source_key : ℕ → Option (ℕ × ℕ)) where
  -- The address of a field, with the key if it is to be imported.
  unfoldable pub source_of : List ℕ → ℕ → Result SourceError (ℕ × List ℕ)
  source_of in_vault f = elim (hex_address f) [
    | some a ↦ if elem a in_vault then ok (a, []) else err (not_in_vault a)
    | none ↦ elim (source_key f) [
      | none ↦ err (bad_field f)
      | some (a, key) ↦ if elem a in_vault then ok (a, []) else ok (a, key ∷ [])
    ]
  ]

  unfoldable pub resolve_fields : List ℕ → List ℕ → List ℕ → Result SourceError Sources
  unfolding source_of
  resolve_fields in_vault seen [] = ok (record { found = []; new_keys = [] })
  resolve_fields in_vault seen (f ∷ fs) = elim (source_of in_vault f) [
    | err e ↦ err e
    | ok (a, keys) ↦
        let rest = resolve_fields in_vault (a ∷ seen) fs in
        unless_seen seen a (with_source a keys rest)
  ]

abbrev pub imported :
    List ℕ → Store × Result VaultError (List Entry) → Store × Result SourceError (List ℕ × List ℕ)
imported found (s, ok added) = (s, ok (found, found))
imported found (s, err e) = (s, err (import_failed e))

module _ (derive : ℕ → ℕ → ℕ) (seal : ℕ → ℕ → List Entry → List ℕ)
    (opens : ℕ → List ℕ → Option (List Entry)) (parse : ℕ → Option (ℕ × ℕ)) where
  -- The end of the function: the keys that are new, if there are any, go into the vault; the id of a
  -- wallet is its address.
  unfoldable pub import_sources :
      Bool → ℕ → ℕ → Sources → Store → Store × Result SourceError (List ℕ × List ℕ)
  unfolding import_private_keys
  import_sources written nonce prefix r s =
      let kept =
        import_private_keys derive seal opens parse written nonce prefix trading r.new_keys s in
      if length r.new_keys == 0 then (s, ok (r.found, r.found)) else imported r.found kept

  module _ (hex_address : ℕ → Option ℕ) (source_key : ℕ → Option (ℕ × ℕ)) where
    unfoldable pub resolve_withdraw_sources :
        Bool → ℕ → ℕ → List ℕ → Store → Store × Result SourceError (List ℕ × List ℕ)
    unfolding resolve_fields import_sources
    resolve_withdraw_sources written nonce prefix fields s =
        if not s.unlocked
        then (s, err vault_locked)
        else if length fields == 0
        then (s, err no_sources)
        else if ltb max_funding_targets (length fields)
        then (s, err too_many_sources)
        else elim (resolve_fields hex_address source_key (addresses s.wallets) [] fields) [
          | err e ↦ (s, err e)
          | ok r ↦ import_sources written nonce prefix r s
        ]
