-- ===== src/Vault.antt =====
-- internal/vault/vault.go: the encrypted store of private keys. Addresses, keys, passwords and texts
-- are numbers; the id of a wallet is its address, in one spelling. The cryptography is not the
-- repository's: `derive` is scrypt, `seal` and `opens` are AES-GCM over the JSON of the payload,
-- `parse` reads a private key and gives its address and its canonical form.
pub mod Importing
pub mod Sealing
pub mod Stored
mod Tests
use pons_mm_desktop.Prelude.{
  ℕ, ◌+◌, Bool, true, false, ◌||◌, not, Option, none, some, List, [], ◌∷◌, ◌++◌, ◌==◌,
  if◌then◌else◌, ltb, length, elem, keep,
}
use pons_mm_desktop.Prelude.Result.{Result, ok, err}

pub data Kind : Type 0 where
  trading funding : Kind

-- `label` is the prefix with the running number.
pub record Entry : Type 0 where
  pub address : ℕ
  pub label : ℕ × ℕ
  pub kind : Kind
  pub private_key : ℕ

-- `file` is what the disk holds: the salt and the bytes of the sealed payload.
pub record Store : Type 0 where
  pub file : Option (ℕ × List ℕ)
  pub wallets : List Entry
  pub key : ℕ
  pub salt : ℕ
  pub unlocked : Bool

pub data VaultError : Type 0 where
  no_password password_too_short already_exists no_file wrong_password locked : VaultError
  too_many invalid_key nothing_new not_saved no_keys : VaultError
  missing : ℕ → VaultError

abbrev pub max_wallets : ℕ
max_wallets = 2000

abbrev pub addresses : List Entry → List ℕ
addresses [] = []
addresses (w ∷ ws) = w.address ∷ addresses ws

-- `clearLocked`: nothing of the secrets stays in memory.
unfoldable pub clear_locked : Store → Store
clear_locked s = record s { wallets = []; key = 0; salt = 0; unlocked = false }

unfoldable pub lock : Store → Store
unfolding clear_locked
lock s = clear_locked s

abbrev pub is_some : Option Entry → Bool
is_some none = false
is_some (some e) = true

-- `Keys` builds a map from the wallets, in which a later one of the same id replaces an earlier one.
unfoldable pub by_id : ℕ → List Entry → Option Entry
by_id id [] = none
by_id id (w ∷ ws) =
    let later = by_id id ws in
    if is_some later then later else if w.address == id then some w else none

unfoldable pub keys_of : List Entry → List ℕ → Result VaultError (List ℕ)
keys_of ws [] = ok []
keys_of ws (id ∷ ids) =
    let rest = keys_of ws ids in
    elim (by_id id ws) [
      | none ↦ err (missing id)
      | some w ↦ elim rest [ ok ks ↦ ok (w.private_key ∷ ks) | err e ↦ err e ]
    ]

unfoldable pub keys : Store → List ℕ → Result VaultError (List ℕ)
unfolding keys_of
keys s ids = if s.unlocked then keys_of s.wallets ids else err locked

module _ (parse : ℕ → Option (ℕ × ℕ)) where
  -- The loop of `importKeys`: the wallets in memory and those added, which both grow, and whether
  -- every key was valid. The map `existing` has the addresses of the wallets.
  unfoldable pub import_loop :
      ℕ → Kind → List Entry → List Entry → List ℕ → List Entry × List Entry × Bool
  import_loop prefix kind ws added [] = (ws, added, true)
  import_loop prefix kind ws added (raw ∷ raws) =
      let skipped = import_loop prefix kind ws added raws in
      elim (parse raw) [
        | none ↦ (ws, added, false)
        | some (address, private_key) ↦
            let e : Entry = record {
              address = address;
              label = (prefix, length ws + 1);
              kind = kind;
              private_key = private_key;
            } in
            let taken = import_loop prefix kind (ws ++ e ∷ []) (added ++ e ∷ []) raws in
            if elem address (addresses ws) then skipped else taken
      ]

module _ (derive : ℕ → ℕ → ℕ) (seal : ℕ → ℕ → List Entry → List ℕ)
    (opens : ℕ → List ℕ → Option (List Entry)) where
  -- `saveLocked`: `written` tells whether the disk takes the file, `nonce` is random.
  unfoldable pub save_locked : Bool → ℕ → Store → Store × Bool
  save_locked written nonce s =
      if not s.unlocked
      then (s, false)
      else if written
      then (record s { file = some (s.salt, seal s.key nonce s.wallets) }, true)
      else (s, false)

  -- `Create`: `long_enough` is the test of the password's length; a failed save locks again.
  unfoldable pub create : Bool → Bool → ℕ → ℕ → ℕ → Store → Store × Option VaultError
  unfolding save_locked clear_locked
  create long_enough written nonce salt password s =
      let opened : Store = record (clear_locked s) {
        key = derive password salt;
        salt = salt;
        unlocked = true;
      } in
      let saved = save_locked written nonce opened in
      if not long_enough then (s, some password_too_short) else elim s.file [
        | some f ↦ (s, some already_exists)
        | none ↦ if saved.1 then (saved.0, none) else (clear_locked saved.0, some not_saved)
      ]

  -- `Unlock`: every failure leaves the store as it was. The empty password is 0.
  unfoldable pub unlock : ℕ → Store → Store × Option VaultError
  unlock password s = if password == 0 then (s, some no_password) else elim s.file [
    | none ↦ (s, some no_file)
    | some (salt, blob) ↦ elim (opens (derive password salt) blob) [
      | none ↦ (s, some wrong_password)
      | some ws ↦ (
        record s { wallets = ws; key = derive password salt; salt = salt; unlocked = true },
        none,
      )
    ]
  ]

  abbrev pub saved_or_error : Store × Bool → Store × Option VaultError
  saved_or_error (s, true) = (s, none)
  saved_or_error (s, false) = (s, some not_saved)

  unfoldable pub clear_all : Bool → ℕ → Store → Store × Option VaultError
  unfolding save_locked
  clear_all written nonce s =
      let saved = saved_or_error (save_locked written nonce (record s { wallets = [] })) in
      if s.unlocked then saved else (s, some locked)

  unfoldable pub retain : Bool → ℕ → List ℕ → Store → Store × Option VaultError
  unfolding save_locked
  retain written nonce ids s =
      let kept = keep (λ (w : Entry). elem w.address ids) s.wallets in
      let saved = saved_or_error (save_locked written nonce (record s { wallets = kept })) in
      if s.unlocked then saved else (s, some locked)

  module _ (parse : ℕ → Option (ℕ × ℕ)) where
    -- `importKeys`. The wallets in memory are the loop's also where an error is returned.
    unfoldable pub import_keys :
        Bool → ℕ → ℕ → Kind → List ℕ → Store → Store × Result VaultError (List Entry)
    unfolding import_loop save_locked
    import_keys written nonce prefix kind raws s =
        let (ws, added, valid) = import_loop parse prefix kind s.wallets [] raws in
        let grown = record s { wallets = ws } in
        let saved = save_locked written nonce grown in
        if not s.unlocked
        then (s, err locked)
        else if ltb max_wallets (length s.wallets + length raws)
        then (s, err too_many)
        else if not valid
        then (grown, err invalid_key)
        else if length added == 0
        then (grown, err nothing_new)
        else if saved.1
        then (saved.0, ok added)
        else (saved.0, err not_saved)

    -- `ImportPrivateKeys` and, for routing wallets, `ImportFundingKeys`, on the separated input.
    unfoldable pub import_private_keys :
        Bool → ℕ → ℕ → Kind → List ℕ → Store → Store × Result VaultError (List Entry)
    unfolding import_keys
    import_private_keys written nonce prefix kind raws s =
        if length raws == 0 then (s, err no_keys) else import_keys written nonce prefix kind raws s
