-- ===== src/Vault/Tests.antt =====
-- The vault with a cipher that checks its key: an import of two keys, one of them known already.
use pons_mm_desktop.Prelude.{
  ℕ, zero, suc, ◌+◌, ◌≡◌, refl, true, Option, none, some, List, [], ◌∷◌, ◌==◌, if◌then◌else◌, arith,
}
use pons_mm_desktop.Prelude.Result.{ok}
use pons_mm_desktop.Vault.{
  Kind, trading, funding, Entry, Store, lock, unlock, import_keys, import_loop, save_locked,
}
use pons_mm_desktop.Vault.Sealing.{unlock-import_keys}

abbrev kind_code : Kind → ℕ
kind_code trading = 0
kind_code funding = 1

abbrev kind_of : ℕ → Kind
kind_of zero = trading
kind_of (suc n) = funding

kind_of-kind_code : (k : Kind) → kind_of (kind_code k) ≡ k
kind_of-kind_code trading = refl
kind_of-kind_code funding = refl

abbrev encode : List Entry → List ℕ
encode [] = []
encode (w ∷ ws) = w.address ∷ w.label.0 ∷ w.label.1 ∷ kind_code w.kind ∷ w.private_key ∷ encode ws

abbrev decode : List ℕ → List Entry
decode (a ∷ p ∷ n ∷ k ∷ s ∷ rest) =
    record { address = a; label = (p, n); kind = kind_of k; private_key = s } ∷ decode rest
decode _ = []

decode-encode : (ws : List Entry) → decode (encode ws) ≡ ws
decode-encode [] = refl
decode-encode (w ∷ ws) = rw (decode-encode ws, kind_of-kind_code w.kind) refl

abbrev seal : ℕ → ℕ → List Entry → List ℕ
seal key nonce ws = key ∷ nonce ∷ encode ws

abbrev opens : ℕ → List ℕ → Option (List Entry)
opens key (k ∷ n ∷ blob) = if k == key then some (decode blob) else none
opens key _ = none

opens-seal : (key nonce : ℕ) (ws : List Entry) → opens key (seal key nonce ws) ≡ some ws
opens-seal key nonce ws = ground (arith, decode-encode ws)

abbrev known : Entry
known = record { address = 5; label = (0, 1); kind = trading; private_key = 50 }

abbrev opened : Store
opened = record { file = none; wallets = known ∷ []; key = 10; salt = 3; unlocked = true }

abbrev parse : ℕ → Option (ℕ × ℕ)
parse raw = some (raw, raw + 100)

abbrev fresh : Entry
fresh = record { address = 6; label = (9, 2); kind = trading; private_key = 106 }

imported :
    (import_keys (λ p s. p + s) seal opens parse true 77 9 trading (5 ∷ 6 ∷ []) opened).1
    ≡ ok (fresh ∷ [])
unfolding import_keys import_loop save_locked
imported = refl

unlock-import_keys_example :
    let after =
      (import_keys (λ p s. p + s) seal opens parse true 77 9 trading (5 ∷ 6 ∷ []) opened).0 in
    unlock (λ p s. p + s) seal opens 7 (lock after) ≡ (after, none)
unlock-import_keys_example =
    unlock-import_keys (λ p s. p + s) seal opens opens-seal parse true 77 9 7 trading (5 ∷ 6 ∷ [])
      opened (fresh ∷ []) refl (omega arith) imported
