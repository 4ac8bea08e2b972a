-- ===== src/Lib.antt =====
-- The delegation contract of this repository, modelled and verified.
--
-- The program. Delegators give stake to one contract, which stakes nodes with an external auction
-- contract and passes the rewards on. Every part of a delegator's stake is a fund item: it has a
-- user, a balance, and a description that says whether it is waiting, active, unstaked, a deferred
-- payment or ready for withdrawal. A fund item is in two doubly linked lists, that of its type and
-- that of its user and type; a list has a header with its total balance and its two ends. Endpoints
-- move balances between the lists: staking adds to the waiting list, waiting stake becomes active as
-- far as the delegation cap allows, unstaking goes back, and unbonding pays out. Rewards are
-- computed for a user from the active stake before it changes. Two operations, a new delegation cap
-- and a new service fee, may stop when gas runs low and are continued by later calls. The nodes have
-- a life cycle of their own, driven by the owner and by the callbacks of the auction contract.
--
-- The files.
--   Base: Boolean tests, machine words, lists, and the results of fallible code (Base/Outcome).
--   Funds: user-fund-storage/src. Types is types/fund_type.rs, fund_item.rs and fund_list_info.rs;
--     Store is the storage of fund_module.rs; Create, Delete, Convert and Query are its functions,
--     under their own names; Transf is fund_transf_module.rs; AffectedUsers is
--     types/affected_user_id_vec.rs. Links is the theory of one doubly linked list, Repr the
--     invariant of the storage with what each operation does to it (in Repr/Order, the order in
--     which a loop uses up a list), and Reachable the storages that some of the operations lead to
--     from the empty one.
--   Users: user-fund-storage/src/user_data.rs, with its invariant in Users/Registry.
--   Nodes: node-storage/src in Nodes/Config, and the node endpoints and callbacks of
--     latest/src/node_activation.rs in Nodes/Activation.
--   Contract: State is the storage of the whole contract and what a call reads of the chain.
--     Settings is latest/src/settings.rs, View is user-fund-storage/src/fund_view_module.rs,
--     RewardState is rewards_state.rs and rewards_endpoints.rs, Stake is user_stake_state.rs,
--     StakeEndpoints is user_stake_endpoints.rs, Checkpoint and CheckpointEndpoints are
--     reset_checkpoint_endpoints.rs with its types and state, DustCleanup is
--     user_stake_dust_cleanup.rs, NodeEndpoints has the node endpoints that read the whole contract,
--     and Deploy the init functions of latest_full/src/lib.rs and latest_update/src/lib.rs.
--   Codec: the hand-written codecs of user-fund-storage/fuzz/old_serialization and
--     node-storage/fuzz/old_serialization; Codec/RoundTrip has their round trips.
--   Examples: small storages, runs on them, and the theorems applied to them.
--
-- The correspondence. A storage mapper is a field of a record, a map a function with the default
-- where nothing was written. A function that changes the storage takes it last and returns it; a
-- panic is an error, and an endpoint that fails returns no storage, as a failed transaction is
-- rolled back. A closure that `update` runs on a fund item works on a copy, which is written after
-- the closure's own changes to the storage, and so does the model. BigUint is the natural numbers
-- with a subtraction that panics; usize has 32 bits and u64 has 64, and both wrap round. A loop runs
-- on fuel: a loop over fund items has one round more than the largest id in use, as the ids of one
-- list are different numbers up to that; a checkpointed operation has five rounds, for its four
-- steps and the round that finds none left. A theorem that needs a free id says so.
--
-- Addresses, BLS keys and signatures are numbers, since the code only compares them. The gas that is
-- left, the pause and feature flags, the block nonce and the rewards that arrived are given by the
-- environment of a call. The auction contract is not part of the repository: an endpoint returns the
-- call that it makes, and a callback takes the answer.
--
-- Not modelled: events, which have no effect on the storage; the codecs of the framework, which are a
-- parameter of Codec; the generated wasm crates; the auction mock, the fuzz targets and the
-- scenarios, which are tests.
pub mod Base
pub mod Funds
pub mod Users
pub mod Nodes
pub mod Contract
pub mod Codec
pub mod Examples
