-- ===== src/Control/Funding.antt =====
-- internal/control/funding.go: the routing wallets and the tasks that move native coins through them.
-- Each function is one section under the store's lock or one handler's section under `s.mu`; ids,
-- addresses, mnemonics and times are numbers. What the vault answers is an argument.
pub mod Route
pub mod Transfers
pub mod Retry
pub mod Fixed
pub mod Runs
pub mod Slices
pub mod Paths
pub mod Counts
pub mod Amounts
pub mod Progress
pub mod Consistency
pub mod Interrupting
pub mod Sections
pub mod Parsing
pub mod Sources
mod Tests
use pons_mm_desktop.Prelude.{
  ℕ, ◌+◌, ◌*◌, Bool, true, false, ◌&&◌, ◌||◌, not, Option, none, some, List, [], ◌∷◌, ◌++◌, map,
  ◌==◌, if◌then◌else◌, ltb, length, elem,
}
use pons_mm_desktop.Prelude.Result.{Result, ok, err, ◌>>=◌, ◌>>◌}

abbrev pub funding_batch_count : ℕ
funding_batch_count = 5

abbrev pub funding_relay_count : ℕ
funding_relay_count = 10

abbrev pub max_funding_targets : ℕ
max_funding_targets = 500

-- The withdrawal destination is an address only; 0 is "".
pub record FundingConfig : Type 0 where
  pub deposit_cold : Option ℕ
  pub deposit_relays : List ℕ
  pub withdraw_relays : List ℕ
  pub withdraw_cold : ℕ

pub data FundingError : Type 0 where
  confirmation_required not_found not_configured already_running not_active stop_first :
      FundingError
  unknown_role unknown_kind already_configured vault_locked vault_rejected bad_address :
      FundingError
  no_targets too_many_targets : FundingError
  invalid duplicate : ℕ → FundingError

abbrev pub is_some : Option ℕ → Bool
is_some none = false
is_some (some a) = true

unfoldable pub complete : FundingConfig → Bool
complete c =
    is_some c.deposit_cold
    && (length c.deposit_relays == funding_relay_count
        && (length c.withdraw_relays == funding_relay_count && not (c.withdraw_cold == 0)))

pub data Role : Type 0 where
  deposit_cold_role deposit_relays_role withdraw_relays_role : Role
  other_role : ℕ → Role

unfoldable pub funding_role_spec : Role → Result FundingError ℕ
funding_role_spec deposit_cold_role = ok 1
funding_role_spec deposit_relays_role = ok funding_relay_count
funding_role_spec withdraw_relays_role = ok funding_relay_count
funding_role_spec (other_role r) = err unknown_role

unfoldable pub funding_role_available : Role → FundingConfig → Bool
funding_role_available deposit_cold_role c = not (is_some c.deposit_cold)
funding_role_available deposit_relays_role c = length c.deposit_relays == 0
funding_role_available withdraw_relays_role c = length c.withdraw_relays == 0
funding_role_available (other_role r) c = true

abbrev pub first_ref : List ℕ → Option ℕ
first_ref [] = none
first_ref (a ∷ as') = some a

-- The function that `GenerateFundingWallets` passes to `updateConfig`; it tests again, under the lock.
unfoldable pub pin_role : Role → List ℕ → FundingConfig → Result FundingError FundingConfig
pin_role deposit_cold_role refs c =
    if is_some c.deposit_cold
    then err already_configured
    else ok (record c { deposit_cold = first_ref refs })
pin_role deposit_relays_role refs c =
    if ltb 0 (length c.deposit_relays)
    then err already_configured
    else ok (record c { deposit_relays = refs })
pin_role withdraw_relays_role refs c =
    if ltb 0 (length c.withdraw_relays)
    then err already_configured
    else ok (record c { withdraw_relays = refs })
pin_role (other_role r) refs c = ok c

abbrev pub check : Bool → FundingError → Result FundingError (Unit {0})
check true e = ok tt
check false e = err e

-- `GenerateFundingWallets`: `imported` are the wallets that the vault has added, or its error.
unfoldable pub generate_funding_wallets :
    Role → Bool → Option (List ℕ) → FundingConfig → Result FundingError FundingConfig
unfolding funding_role_spec funding_role_available pin_role
generate_funding_wallets role unlocked imported c = do
  count ← funding_role_spec role
  check (funding_role_available role c) already_configured
  check unlocked vault_locked
  refs ← elim imported [ none ↦ err vault_rejected | some added ↦ ok added ]
  check (length refs == count) vault_rejected
  pin_role role refs c

-- `SetFundingWithdrawCold`: `parsed` is the address that the text spells, if it does.
unfoldable pub set_funding_withdraw_cold :
    Option ℕ → FundingConfig → Result FundingError FundingConfig
set_funding_withdraw_cold parsed c = elim parsed [
  | none ↦ err bad_address
  | some a ↦
      if c.withdraw_cold == 0 then ok (record c { withdraw_cold = a }) else err already_configured
]

pub data TaskKind : Type 0 where
  distribute withdraw : TaskKind
  other_kind : ℕ → TaskKind

pub data TaskState : Type 0 where
  ready running stopped failed finished : TaskState

-- `FundingTask` with the secrets of its record; messages and times are left out.
pub record Task : Type 0 where
  pub id : ℕ
  pub kind : TaskKind
  pub targets : List ℕ
  pub state : TaskState
  pub hops_done : ℕ
  pub hops_total : ℕ
  pub transfers_done : ℕ
  pub transfers_total : ℕ
  pub batch_mnemonics : List ℕ
  pub source_wallet_ids : List ℕ

-- `task`: the first of that id.
unfoldable pub task : ℕ → List Task → Option Task
task id [] = none
task id (t ∷ ts) = let later = task id ts in if t.id == id then some t else later

unfoldable pub save_task : Task → List Task → List Task
save_task rec [] = rec ∷ []
save_task rec (t ∷ ts) =
    let later = save_task rec ts in if t.id == rec.id then rec ∷ ts else t ∷ later

unfoldable pub delete_task : ℕ → List Task → Result FundingError (List Task)
delete_task id [] = err not_found
delete_task id (t ∷ ts) =
    let later = delete_task id ts in
    if t.id == id then ok ts else elim later [ ok us ↦ ok (t ∷ us) | err e ↦ err e ]

abbrev pub interrupted : TaskState → TaskState
interrupted running = stopped
interrupted state = state

-- `newFundingStore`: a run that was interrupted by the end of the application is shown as stopped.
unfoldable pub load_tasks : List Task → List Task
load_tasks ts = map (λ (t : Task). record t { state = interrupted t.state }) ts

-- The loop of `parseFundingAddresses`: `parse` is the address that a field spells, if it does.
unfoldable pub parse_fields : (ℕ → Option ℕ) → List ℕ → List ℕ → Result FundingError (List ℕ)
parse_fields parse seen [] = ok []
parse_fields parse seen (f ∷ fs) = elim (parse f) [
  | none ↦ err (invalid f)
  | some a ↦
      let rest = parse_fields parse (a ∷ seen) fs in
      if elem a seen then err (duplicate a) else elim rest [ ok as' ↦ ok (a ∷ as') | err e ↦ err e ]
]

unfoldable pub parse_funding_addresses : (ℕ → Option ℕ) → List ℕ → Result FundingError (List ℕ)
unfolding parse_fields
parse_funding_addresses parse fields =
    if length fields == 0
    then err no_targets
    else if ltb max_funding_targets (length fields)
    then err too_many_targets
    else parse_fields parse [] fields

-- The record that `CreateFundingTask` saves.
unfoldable pub new_task : ℕ → TaskKind → List ℕ → List ℕ → List ℕ → Task
new_task id kind targets mnemonics source_ids = record {
  id = id;
  kind = kind;
  targets = targets;
  state = ready;
  hops_done = 0;
  hops_total = funding_batch_count + 2;
  transfers_done = 0;
  transfers_total = funding_relay_count + (funding_batch_count + 1) * length targets;
  batch_mnemonics = mnemonics;
  source_wallet_ids = source_ids;
}
