-- ===== src/Lib.antt =====
-- Verification of the pons market maker: a desktop application that launches or binds a token on a
-- bonding curve, trades it from a pool of wallets, reacts to the trades of outsiders ("retail"), and
-- exits when that is profitable.
--
-- The parts and how they interact. internal/control holds the strategies (store.go) and runs each of
-- them as a job (service.go, features.go) that reserves its wallets. A job runs an engine of
-- internal/ponsmm: the monitor (monitor.go) sees trades and tells the engine about those of retail;
-- the engine (engine.go, target.go, decide.go) is a state machine that buys, distributes and exits;
-- the wallet pool (wallets.go) caches balances and nonces; stats.go adds up costs. internal/pons
-- talks to the chain, and prices curve trades locally (curve.go).
--
-- Prelude: names shared by all modules; native numbers, lists, maps, integers, results.
-- Pons/Curve: internal/pons/curve.go (`TokensOutForQuote` is tokens_out_for_quote, and so on).
-- Pons/Snipe: internal/pons/snipe.go, with Pons/Snipe/Exit for internal/pons/monitor.go and Pons/Snipe/V1
--   for internal/pons/v1_snipe.go. Pons/Snipe/Slots is the loop of `Run` of both, as a step relation in
--   which each goroutine is an entry of a list of positions, and a step is a case of the loop's `select` or
--   a section of a goroutine under the mutex.
-- Pons/Client: internal/pons/client.go (the gas cache), `WaitReceiptEvery` of internal/pons/v1_launch.go
--   and `SendRawBatch` of internal/pons/mmrouter.go. Pons/Transport: internal/pons/transport.go.
-- Pons/Events: the decoders of internal/pons/watch.go and internal/pons/mmrouter.go. Pons/Watch: the poll
--   for launches of internal/pons/watch.go.
-- Control/Store: internal/control/store.go, the list of strategies.
-- Control/Service: internal/control/service.go. Each function is one section under `s.mu`, and the
--   data type Step in Control/Service/Steps has one constructor for each of them, so that a chain of
--   steps is any schedule of concurrent handlers.
-- Control/Admin: the handlers beside the jobs, with `ResetStrategy` of internal/control/features.go
--   in its two sections.
-- Mm/Monitor: internal/ponsmm/monitor.go. `onTrade`, `consumeTrade`, `classify`, cost basis, and the
--   recovery of trades from block logs (Mm/Monitor/Replay).
-- Mm/Wallets, Mm/Sweep: internal/ponsmm/wallets.go.
-- Mm/Decide, Mm/Stats, Mm/SnipeExempt, Mm/Target: the files of internal/ponsmm of these names.
-- Mm/Sale: the selling half of internal/ponsmm/engine.go.
-- Mm/Buying: which makers buy in a round, and how much, from the same file.
-- Mm/Launch: `launchV2` of the same file, from the checks to the end of the launch transaction.
-- Mm/Approvals: its sell approvals, as interleaved sections of `ensureApprove` and `watchApproval`.
-- Mm/Engine: the state machine of internal/ponsmm/engine.go, with Mm/Engine/Retail for `onRetail`,
--   Mm/Engine/Exit for the exits and settlements, and Mm/Engine/Loop for `Run`: an event is a case of
--   the loop's `select` or a step of a goroutine, so goroutines and loop interleave in any order.
-- Mm/Bundle: internal/ponsmm/bundle.go, the buys that go with a launch; its child Settling reads their
--   fills from the events of a receipt. Mm/Config: the checks of
--   internal/ponsmm/config.go; Control/Validation: those of `Strategy.validate` in
--   internal/control/models.go on top of them.
-- Vault: internal/vault/vault.go, the store of keys. Key derivation, cipher and key parser are
--   parameters of its sections; that opening undoes sealing is the one hypothesis about them.
-- Control/Locks: an abstract table of locks, which the job service refines
--   (Control/Service/Refinement).
-- Control/Funding: internal/control/funding.go, the routing wallets and the tasks. Its children Route,
--   Transfers, Retry and Runs model internal/control/funding_engine.go: the hops (`buildFundingHops`),
--   the transfers of a hop (`execFundingHop`), the repeated calls (`fundingRPC`) and the life of a run.
-- Pons/Tests, Vault/Tests, Control/Tests, Mm/Tests: each theorem at a concrete input.
--
-- Conventions. Amounts of the chain are unbounded natural numbers, as in `big.Int`; int64 basis points
-- and differences of amounts are integers. Addresses, hashes, ids and texts are numbers of which only
-- equality is tested, 0 being the zero value. Maps are association lists or functions. Loops are
-- recursion over lists, except that `fundingRPC` runs on fuel, six attempts, with a theorem that more
-- fuel changes nothing, and `RoundTrip` on its number of retries. A wait is a function of what its
-- rounds see, and has no result while it goes on. What the chain, the clock, the disk, the vault or the
-- random source answers is an argument of the operation, so the theorems hold for every answer.
--
-- Not modelled: signing, ABI encoding, plain view calls and subscriptions, encryption, the bytes of the
-- launch transaction, the rounding of floats, the files of the configuration, the front end and the
-- contracts. Prices in big.Float are compared through an abstract test. A section under a lock is one step.
-- Where a handler has several sections, they are several steps (Control/Service, Pons/Snipe/Slots,
-- Mm/Approvals, the events of Mm/Engine/Loop), or the handler takes what others do in its gaps as an argument
-- (Control/Funding/Runs); reads and writes that hold no lock are not interleaved any finer.
pub mod Prelude
pub mod Pons
pub mod Vault
pub mod Control
pub mod Mm
