-- ===== src/Lib.antt =====
-- Sygma's pallets for Substrate: a bridge that moves assets between a Substrate chain and the other
-- chains of the Sygma network. A deposit takes an asset from a sender, keeps it on a reserve account
-- and announces a deposit with a nonce; the relayers sign batches of proposals with one MPC key, and
-- the bridge pays out each proposal that it has not paid before.
--
-- The parts, and the files that model them:
--
--   Prelude, Frame    what the source takes of Rust and of FRAME: lists, storage maps as association
--                     lists, origins, results, and calls as functions from a state to a result and a
--                     state. An error keeps what was written before it, unless the call is
--                     `transactional`. Frame/Inversion has the rules for taking a call apart.
--   Xcm, Xcm/Api      the locations and assets of the xcm crate that the pallets take apart, and the
--                     two functions on locations that they call, as parameters with laws.
--   Traits            traits/src/lib.rs. The interfaces are records.
--   Runtime           the storage, events, errors and configurations of all the pallets, in one State
--                     as `construct_runtime!` puts them together. The state of what is not in the
--                     repository (balances, assets) is a ledger, whose type is a parameter.
--   AccessSegregator  access-segregator/src/lib.rs: has_access and grant_access.
--   Fees              basic-fee-handler, percentage-fee-handler and fee-handler-router, each lib.rs:
--                     the calls that set a fee and the three get_fee.
--   Codec             bridge/src/encode.rs (Packed), bridge/src/eip712.rs (Eip712), the big-endian
--                     words (Words) and the bits of a u64 (Bits).
--   Bridge            bridge/src/lib.rs. Admin has the eight calls that need access, Deposit the call
--                     deposit, Execute the call execute_proposal, Proposal the message that is signed,
--                     DepositData the data that is sent, Nonces the bitmap of executed proposals;
--                     Migration is bridge/src/migration.rs. Control says what it is to leave alone the
--                     storage that controls the bridge, Ledger what balances are, Order when deposits
--                     are announced in order, and Execute/Spec is the loop over the proposals without
--                     its bitmap, events and checks.
--   XcmBridge         xcm-bridge/src/lib.rs: the kinds of transfer, the messages and the transfer.
--   Forwarder         bridge-forwarder/src/lib.rs, and its xcm_asset_transactor.rs (Transactor).
--   ParachainRuntime  what substrate-node/parachain/runtime configures the bridge with: destinations
--                     (with the parser of the standalone runtime beside it), assets, decimals, the
--                     tables of indices, names and accounts, and the whole configuration (Config),
--                     whose transactor is the forwarder, which calls the bridge again.
--   StandaloneRuntime substrate-node/standalone/runtime: its tables, asset functions and decimals, and
--                     its configuration of the bridge, without a forwarder.
--   System            the calls of all the pallets as one type, and the steps of the chain: calls, the
--                     upgrade, and what the other pallets do. Genesis is the state it starts from;
--                     Quiet, Sound, Keys and Marked are about the states that it reaches.
--   Node              the query isProposalExecuted of rpc/src/lib.rs and runtime-api/src/lib.rs (Rpc),
--                     and the genesis configurations and load_spec of the chain_spec.rs and command.rs
--                     of the two nodes under substrate-node (Genesis).
--   UnitTests         the tests of the bridge and of the access and fee pallets, test by test, in the
--                     runtimes of their mock.rs: what the tests assert of the code is checked of the
--                     model. The tests that move funds run with a ledger of balances.
--   Examples          runs on concrete inputs, with a bank, a hash and a configuration of their own.
--
-- How they interact: a deposit reads its fee through FeeHandler, moves the asset through
-- TransactAsset, which may be the forwarding transactor, and is itself what the forwarder calls
-- through Bridge. Each of these is a field of a configuration, so a theorem on the bridge holds for
-- every transactor with the laws that it names. A pallet asks has_access with its own index and the
-- name of the call.
--
-- Numbers are natural numbers. The source's ranges are written where the code depends on them: the
-- checked addition of the nonce at 2 ^ 64, the saturating product at 2 ^ 128, the wrapping of a usize
-- in the packed encoding, the comparison of an amount with 2 ^ 128 when data is read, and the 112 bits
-- of the fixed-point numbers. Each recursion is on a list or a number of bytes, but for one: the
-- transactor of the parachain runtime forwards payments to the bridge, whose transactor it is. It is
-- cut at a depth, at which the forwarder refuses; one round is enough, since a deposit credits
-- accounts of this chain only. A slice out of range is a panic, an outcome of its own in
-- ParachainRuntime/Keys.
--
-- Parameters, because their code is elsewhere: the hash, the recovery of a public key, the ABI encoder
-- and the SCALE decoder (Crypto), the transactors of balances and assets, the fixed-point operations
-- (Fixed), re-anchoring, the weigher and the executor of messages (XcmConfig), the origin of the
-- committee, the accounts that are hashes of locations, what a node's client knows of blocks (Client),
-- the keys that a seed gives (Keyring), and what the two runtimes take from elsewhere (Outside and
-- Surroundings; Pallets and Keypair in the tests). The name of an error in the event of a
-- failed proposal is the error itself, and the order of the keys of a storage map is the order in
-- which they were inserted.
--
-- Not modelled: weights and benchmarks; the command line and the service of the nodes, which set up
-- libraries of Substrate, and the display properties of their chain specifications; the tests of the
-- forwarder and of the xcm-bridge, which run in simulators of other crates; parachain-info, a copy of
-- another project's pallet; and the configuration of the pallets that are not Sygma's.
pub mod Prelude
pub mod Frame
pub mod Xcm
pub mod Traits
pub mod Runtime
pub mod AccessSegregator
pub mod Fees
pub mod Codec
pub mod Bridge
pub mod ParachainRuntime
pub mod StandaloneRuntime
pub mod XcmBridge
pub mod Forwarder
pub mod System
pub mod Node
pub mod UnitTests
pub mod Examples
