-- ===== src/Vault/Importing.antt =====
-- What an import does to the wallets in memory and on disk (`importKeys` in internal/vault/vault.go).
use mathlib.Core.List.{append-nil, append_assoc}
use pons_mm_desktop.Prelude.{
  ℕ, ◌+◌, ◌≤◌, ◌≡◌, refl, sym, ◌∙◌, inl, inr, Bool, true, false, Bool-cases, Option, none, some,
  Option-cases, List, [], ◌∷◌, ◌++◌, ltb, length, elem, length-append, elem-append, arith,
}
use pons_mm_desktop.Prelude.Result.{ok, err}
use pons_mm_desktop.Vault.{
  Entry, Store, Kind, addresses, import_loop, import_keys, save_locked, max_wallets, invalid_key,
}

-- No two wallets have the same address.
abbrev pub Distinct : List Entry → Type 0
Distinct [] = Unit
Distinct (w ∷ ws) = (elem w.address (addresses ws) ≡ false) × Distinct ws

pub addresses-append : (ws us : List Entry) → addresses (ws ++ us) ≡ addresses ws ++ addresses us
addresses-append [] us = refl
addresses-append (w ∷ ws) us = cc (addresses-append ws us)

Distinct-append_one :
    (ws : List Entry) (e : Entry)
    → Distinct ws
    → elem e.address (addresses ws) ≡ false
    → Distinct (ws ++ e ∷ [])
Distinct-append_one [] e d n = (refl, tt)
Distinct-append_one (w ∷ ws) e d n = ground (
  arith,
  Distinct-append_one ws e d.1,
  addresses-append ws (e ∷ []),
  elem-append w.address (addresses ws) (e.address ∷ []),
)

module _ (parse : ℕ → Option (ℕ × ℕ)) (prefix : ℕ) (kind : Kind) where
  -- What the loop does, from the wallets `ws` and the added `added`.
  abbrev LoopResult : List Entry → List Entry → List ℕ → Type 0
  LoopResult ws added raws =
      let (ws', added', valid) = import_loop parse prefix kind ws added raws in
      (new : List Entry) × (ws' ≡ ws ++ new)
      × (added' ≡ added ++ new)
      × (length new ≤ length raws)
      × (Distinct ws → Distinct ws')

  loop_result : (ws added : List Entry) (raws : List ℕ) → LoopResult ws added raws
  unfolding import_loop
  loop_result ws added [] = ([], sym (append-nil ws), sym (append-nil added), omega arith, λ d. d)
  loop_result ws added (raw ∷ raws) = elim (Option-cases (parse raw)) [
    | inl e ↦
        rw (e, import_loop) ([], sym (append-nil ws), sym (append-nil added), omega arith, λ d. d)
    | inr ((address, private_key), e) ↦
        let fresh : Entry = record {
          address = address;
          label = (prefix, length ws + 1);
          kind = kind;
          private_key = private_key;
        } in
        let (new, grown, noted, fits, kept) =
          loop_result (ws ++ fresh ∷ []) (added ++ fresh ∷ []) raws in
        let (less, same, same_added, short, keeps) = loop_result ws added raws in
        elim (Bool-cases (elem address (addresses ws))) [
          | inl there ↦ rw (e, import_loop, there) (less, same, same_added, omega arith, keeps)
          | inr absent ↦
              rw (e, import_loop, absent)
                (
                  fresh ∷ new,
                  grown ∙ append_assoc ws (fresh ∷ []) new,
                  noted ∙ append_assoc added (fresh ∷ []) new,
                  omega arith,
                  λ d. kept (Distinct-append_one ws fresh d absent),
                )
        ]
  ]

module _ (derive : ℕ → ℕ → ℕ) (seal : ℕ → ℕ → List Entry → List ℕ)
    (opens : ℕ → List ℕ → Option (List Entry)) (parse : ℕ → Option (ℕ × ℕ)) (written : Bool)
    (nonce prefix : ℕ) (kind : Kind) (s : Store) where
  -- An import keeps every wallet that was there, in order, and their addresses distinct, and stays
  -- within the limit, whether or not it returns an error. If it returns none, the wallets that it
  -- reports are exactly those it added, and the file holds all wallets.
  pub import_keys_lem :
      (raws : List ℕ)
      → Distinct s.wallets
      → length s.wallets ≤ max_wallets
      → let (s', answer) = import_keys derive seal opens parse written nonce prefix kind raws s in
        (new : List Entry) × (s'.wallets ≡ s.wallets ++ new)
        × Distinct s'.wallets
        × (length s'.wallets ≤ max_wallets)
        × ((added : List Entry)
            → answer ≡ ok added
            → (added ≡ new) × (s'.file ≡ some (s.salt, seal s.key nonce s'.wallets)))
  unfolding import_keys save_locked
  import_keys_lem raws d m =
      let (new, grown, noted, fits, keeps) = loop_result parse prefix kind s.wallets [] raws in
      let result = import_keys derive seal opens parse written nonce prefix kind raws s in
      let looped = (import_loop parse prefix kind s.wallets [] raws).0 in
      elim (Bool-cases s.unlocked) [
        | inr shut ↦ (
          [],
          ground (arith, append-nil s.wallets),
          ground (arith, d),
          ground (arith, m),
          ground arith,
        )
        | inl u ↦ elim (Bool-cases (ltb max_wallets (length s.wallets + length raws))) [
          | inl many ↦ (
            [],
            ground (arith, append-nil s.wallets),
            ground (arith, d),
            ground (arith, m),
            ground arith,
          )
          | inr room ↦
              let same : result.0.wallets ≡ looped = ground arith in
              (
                new,
                ground (arith, grown),
                rw same (keeps d),
                rw (same, grown) (ground (arith, length-append s.wallets new)),
                ground (arith, noted),
              )
        ]
      ]

  -- A list in which a valid new key is followed by an invalid one is refused; yet the new wallet is in
  -- memory afterwards, and not in the file.
  pub import_keys-partial :
      (good bad address private_key : ℕ)
      → parse good ≡ some (address, private_key)
      → parse bad ≡ none
      → s.unlocked ≡ true
      → length s.wallets + 2 ≤ max_wallets
      → elem address (addresses s.wallets) ≡ false
      → let (s', answer) =
          import_keys derive seal opens parse written nonce prefix kind (good ∷ bad ∷ []) s in
        (answer ≡ err invalid_key)
        × (s'.file ≡ s.file)
        × (elem address (addresses s'.wallets) ≡ true)
  unfolding import_keys import_loop
  import_keys-partial good bad address private_key g b u m n =
      let fresh : Entry = record {
        address = address;
        label = (prefix, length s.wallets + 1);
        kind = kind;
        private_key = private_key;
      } in
      ground (
        arith,
        addresses-append s.wallets (fresh ∷ []),
        elem-append address (addresses s.wallets) (address ∷ []),
      )
