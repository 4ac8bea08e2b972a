-- ===== src/Contract/State.antt =====
-- The storage of the whole contract, and what a transaction reads of the chain. An endpoint takes
-- the environment and the storage, and returns a result: a panic keeps nothing.
use mx_delegation_sc.Base.{ℕ, ◌/◌, Bool, not, List, [], ◌∷◌, ◌==◌, ltb, if◌then◌else◌}
use mx_delegation_sc.Base.Outcome.{Result, ok, err, Error, require}
use mx_delegation_sc.Funds.Store.{Funds, empty_funds}
use mx_delegation_sc.Users.{Users, no_users}
use mx_delegation_sc.Nodes.Config.{Nodes, no_nodes}

-- What the transaction reads of the chain and of the framework's pause and feature modules.
-- `gas_left k n` is the gas left when the k-th gas-checked loop of the call asks for the n-th time.
pub record Env : Type 0 where
  pub caller : ℕ
  pub owner : ℕ
  pub block_nonce : ℕ
  pub cumulated_rewards : ℕ
  pub sc_balance : ℕ
  pub gas_left : ℕ → ℕ → ℕ
  pub not_paused : Bool
  pub claim_rewards_on : Bool
  pub continue_global_operation_on : Bool

-- `|| self.blockchain().get_gas_left() < limit`
abbrev pub below_gas : Env → ℕ → ℕ → ℕ → Bool
below_gas env k limit n = ltb (env.gas_left k n) limit

-- settings.rs
pub record Settings : Type 0 where
  pub auction_addr : ℕ
  pub service_fee : ℕ
  pub total_delegation_cap : ℕ
  pub bootstrap_mode : Bool
  pub owner_min_stake_share : ℕ
  pub n_blocks_before_unbond : ℕ
  pub min_stake : ℕ

-- The storage of rewards_state.rs.
pub record Rewards : Type 0 where
  pub unclaimed : ℕ → ℕ
  pub checkpoint : ℕ → ℕ
  pub sent_rewards : ℕ

-- reset_checkpoint_types.rs
pub record ComputeAllRewardsData : Type 0 where
  pub last_id : ℕ
  pub sum_unclaimed : ℕ
  pub rewards_checkpoint : ℕ

abbrev pub new_compute_data : ℕ → ComputeAllRewardsData
new_compute_data rewards_checkpoint = record {
  last_id = 0;
  sum_unclaimed = 0;
  rewards_checkpoint = rewards_checkpoint;
}

pub data ModifyDelegationCapStep : Type 0 where
  compute_all_rewards : ComputeAllRewardsData → ModifyDelegationCapStep
  swap_waiting_to_active swap_unstaked_to_deferred_payment : ModifyDelegationCapStep
  swap_active_to_deferred_payment : ModifyDelegationCapStep

pub record ModifyTotalDelegationCapData : Type 0 where
  pub new_delegation_cap : ℕ
  pub remaining_swap_waiting_to_active : ℕ
  pub remaining_swap_active_to_def_p : ℕ
  pub remaining_swap_unstaked_to_def_p : ℕ
  pub step : ModifyDelegationCapStep

pub data GlobalOpCheckpoint : Type 0 where
  idle : GlobalOpCheckpoint
  modify_total_delegation_cap : ModifyTotalDelegationCapData → GlobalOpCheckpoint
  change_service_fee :
      (new_service_fee : ℕ) (compute_rewards_data : ComputeAllRewardsData) → GlobalOpCheckpoint

abbrev pub is_none : GlobalOpCheckpoint → Bool
is_none idle = Bool.true
is_none _ = Bool.false

-- `sent` lists the direct transfers of EGLD, the latest first: the receiver and the amount.
pub record Contract : Type 0 where
  pub funds : Funds
  pub users : Users
  pub nodes : Nodes
  pub settings : Settings
  pub rewards : Rewards
  pub global_op : GlobalOpCheckpoint
  pub dust_checkpoint : ℕ
  pub sent : List (ℕ × ℕ)

abbrev pub blank_contract : Contract
blank_contract = record {
  funds = empty_funds;
  users = no_users;
  nodes = no_nodes;
  settings = record {
    auction_addr = 0;
    service_fee = 0;
    total_delegation_cap = 0;
    bootstrap_mode = Bool.false;
    owner_min_stake_share = 0;
    n_blocks_before_unbond = 0;
    min_stake = 0;
  };
  rewards = record { unclaimed = λ _. 0; checkpoint = λ _. 0; sent_rewards = 0 };
  global_op = idle;
  dust_checkpoint = 0;
  sent = [];
}

-- reset_checkpoint_state.rs: the checkpoint is stored empty exactly where it is `None`.
abbrev pub is_global_op_in_progress : Contract → Bool
is_global_op_in_progress c = not (is_none c.global_op)

-- `#[only_owner]`
abbrev pub only_owner : Env → Result (Unit {0})
only_owner env = require (env.caller == env.owner) Error.only_owner

-- `self.send().direct_egld(to, amount)`
abbrev pub direct_egld : ℕ → ℕ → Contract → Contract
direct_egld to amount c = record c { sent = (to, amount) ∷ c.sent }

-- `BigUint` division panics at a zero divisor.
abbrev pub div_big : ℕ → ℕ → Result ℕ
div_big a b = if b == 0 then err Error.division_by_zero else ok (a / b)
