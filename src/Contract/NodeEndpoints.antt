-- ===== src/Contract/NodeEndpoints.antt =====
-- latest/src/node_activation.rs: the node endpoints with the guards that read the whole contract.
use mx_delegation_sc.Base.{ℕ, not, List, leb}
use mx_delegation_sc.Base.Outcome.{Result, ok, Error, ◌>>=◌, ◌>>◌, require}
use mx_delegation_sc.Nodes.Activation.{AuctionCall, unstake_tokens, unbond_tokens, stake_nodes}
use mx_delegation_sc.Contract.State.{Env, Contract, is_global_op_in_progress, only_owner}
use mx_delegation_sc.Contract.RewardState.{total_unprotected}
use mx_delegation_sc.Contract.Stake.{validate_owner_stake_share}

unfoldable pub stake_nodes_endpoint : ℕ → List ℕ → Env → Contract → Result (AuctionCall × Contract)
unfolding total_unprotected validate_owner_stake_share stake_nodes
stake_nodes_endpoint amount_to_stake keys env c = do
  only_owner env
  require (not c.settings.bootstrap_mode) Error.bootstrap_mode
  require (not (is_global_op_in_progress c)) Error.global_op_in_progress
  unprotected ← total_unprotected env c
  require (leb amount_to_stake unprotected) Error.not_enough_funds
  validate_owner_stake_share c
  (call, ns) ← stake_nodes amount_to_stake keys c.nodes
  ok (call, record c { nodes = ns })

-- These two endpoints have no guard.
unfoldable pub unstake_tokens_endpoint : ℕ → Env → Contract → Result (AuctionCall × Contract)
unstake_tokens_endpoint amount env c = ok (unstake_tokens amount, c)

unfoldable pub unbond_tokens_endpoint : ℕ → Env → Contract → Result (AuctionCall × Contract)
unbond_tokens_endpoint amount env c = ok (unbond_tokens amount, c)
