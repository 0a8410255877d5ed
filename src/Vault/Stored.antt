-- ===== src/Vault/Stored.antt =====
-- After an import without an error the vault has every wallet that was asked for (`importKeys` in
-- internal/vault/vault.go).
use mathlib.Core.Path.{subst}
use pons_mm_desktop.Prelude.{
  ℕ, ◌+◌, ◌≡◌, inl, inr, refl, sym, Bool, true, Bool-cases, Option, some, Option-cases, List, [],
  ◌∷◌, ◌++◌, length, elem, elem-append, arith,
}
use pons_mm_desktop.Prelude.Result.{ok}
use pons_mm_desktop.Vault.{Entry, Store, Kind, addresses, import_loop, import_keys, save_locked}
use pons_mm_desktop.Vault.Importing.{addresses-append}

-- Each of these keys is that of a stored wallet.
abbrev pub AllStored : (ℕ → Option (ℕ × ℕ)) → List ℕ → List ℕ → Type 0
AllStored parse stored [] = Unit
AllStored parse stored (raw ∷ raws) =
    ((address : ℕ) × (private_key : ℕ) × (parse raw ≡ some (address, private_key))
      × (elem address stored ≡ true))
    × AllStored parse stored raws

module _ (parse : ℕ → Option (ℕ × ℕ)) (prefix : ℕ) (kind : Kind) where
  import_loop-keeps :
      (a : ℕ) (ws added : List Entry) (raws : List ℕ)
      → elem a (addresses ws) ≡ true
      → elem a (addresses (import_loop parse prefix kind ws added raws).0) ≡ true
  unfolding import_loop
  import_loop-keeps a ws added [] h = h
  import_loop-keeps a ws added (raw ∷ raws) h = elim (Option-cases (parse raw)) [
    | inl e ↦ rw (e, import_loop) h
    | inr ((address, private_key), e) ↦
        let fresh : Entry = record {
          address = address;
          label = (prefix, length ws + 1);
          kind = kind;
          private_key = private_key;
        } in
        let more : elem a (addresses (ws ++ fresh ∷ [])) ≡ true = ground (
          arith,
          addresses-append ws (fresh ∷ []),
          elem-append a (addresses ws) (address ∷ []),
          h,
        ) in
        elim (Bool-cases (elem address (addresses ws))) [
          | inl there ↦ rw (e, import_loop, there) (import_loop-keeps a ws added raws h)
          | inr absent ↦
              rw (e, import_loop, absent)
                (import_loop-keeps a (ws ++ fresh ∷ []) (added ++ fresh ∷ []) raws more)
        ]
  ]

  import_loop-AllStored :
      (ws added : List Entry) (raws : List ℕ)
      → (import_loop parse prefix kind ws added raws).2 ≡ true
      → AllStored parse (addresses (import_loop parse prefix kind ws added raws).0) raws
  unfolding import_loop
  import_loop-AllStored ws added [] h = tt
  import_loop-AllStored ws added (raw ∷ raws) h = elim (Option-cases (parse raw)) [
    | inl e ↦ absurd (ground arith)
    | inr ((address, private_key), e) ↦
        let fresh : Entry = record {
          address = address;
          label = (prefix, length ws + 1);
          kind = kind;
          private_key = private_key;
        } in
        let here : elem address (addresses (ws ++ fresh ∷ [])) ≡ true = ground (
          arith,
          addresses-append ws (fresh ∷ []),
          elem-append address (addresses ws) (address ∷ []),
        ) in
        elim (Bool-cases (elem address (addresses ws))) [
          | inl there ↦
              let valid : (import_loop parse prefix kind ws added raws).2 ≡ true = ground arith in
              let same : import_loop parse prefix kind ws added (raw ∷ raws)
                  ≡ import_loop parse prefix kind ws added raws =
                rw (e, import_loop, there) refl in
              subst (λ r. AllStored parse (addresses r.0) (raw ∷ raws)) (sym same)
                (
                  (address, private_key, e, import_loop-keeps address ws added raws there),
                  import_loop-AllStored ws added raws valid,
                )
          | inr absent ↦
              let ws' = ws ++ fresh ∷ [] in
              let added' = added ++ fresh ∷ [] in
              let valid : (import_loop parse prefix kind ws' added' raws).2 ≡ true = ground arith in
              let same : import_loop parse prefix kind ws added (raw ∷ raws)
                  ≡ import_loop parse prefix kind ws' added' raws =
                rw (e, import_loop, absent) refl in
              subst (λ r. AllStored parse (addresses r.0) (raw ∷ raws)) (sym same)
                (
                  (address, private_key, e, import_loop-keeps address ws' added' raws here),
                  import_loop-AllStored ws' added' raws valid,
                )
        ]
  ]

-- After an import without an error the wallets of all its keys are stored.
pub import_keys-AllStored :
    (derive : ℕ → ℕ → ℕ) (seal : ℕ → ℕ → List Entry → List ℕ)
    (opens : ℕ → List ℕ → Option (List Entry)) (parse : ℕ → Option (ℕ × ℕ)) (written : Bool)
    (nonce prefix : ℕ) (kind : Kind) (raws : List ℕ) (s : Store) (added : List Entry)
    → (import_keys derive seal opens parse written nonce prefix kind raws s).1 ≡ ok added
    → let s' = (import_keys derive seal opens parse written nonce prefix kind raws s).0 in
      AllStored parse (addresses s'.wallets) raws
unfolding import_keys save_locked
import_keys-AllStored derive seal opens parse written nonce prefix kind raws s added h =
    let s' = (import_keys derive seal opens parse written nonce prefix kind raws s).0 in
    let looped = import_loop parse prefix kind s.wallets [] raws in
    let valid : looped.2 ≡ true = ground arith in
    let same : s'.wallets ≡ looped.0 = ground arith in
    rw same (import_loop-AllStored parse prefix kind s.wallets [] raws valid)

-- And so are all that were before.
pub import_keys-kept :
    (derive : ℕ → ℕ → ℕ) (seal : ℕ → ℕ → List Entry → List ℕ)
    (opens : ℕ → List ℕ → Option (List Entry)) (parse : ℕ → Option (ℕ × ℕ)) (written : Bool)
    (nonce prefix : ℕ) (kind : Kind) (raws : List ℕ) (s : Store) (added : List Entry) (a : ℕ)
    → (import_keys derive seal opens parse written nonce prefix kind raws s).1 ≡ ok added
    → elem a (addresses s.wallets) ≡ true
    → let s' = (import_keys derive seal opens parse written nonce prefix kind raws s).0 in
      elem a (addresses s'.wallets) ≡ true
unfolding import_keys save_locked
import_keys-kept derive seal opens parse written nonce prefix kind raws s added a h k =
    let s' = (import_keys derive seal opens parse written nonce prefix kind raws s).0 in
    let looped = import_loop parse prefix kind s.wallets [] raws in
    let same : s'.wallets ≡ looped.0 = ground arith in
    rw same (import_loop-keeps parse prefix kind a s.wallets [] raws k)
