-- ===== src/Contract/StakeEndpoints.antt =====
-- latest/src/user_stake_endpoints.rs: stake, unStake and unBond.
pub mod FromWaiting
use mx_delegation_sc.Base.{ℕ, ◌+◌, not, ◌==◌, ltb, leb, if◌then◌else◌}
use mx_delegation_sc.Base.Outcome.{Result, ok, Error, ◌>>=◌, ◌>>◌, require}
use mx_delegation_sc.Funds.Types.{FundType}
use mx_delegation_sc.Funds.Transf.{
  swap_user_waiting_to_withdraw_only, swap_user_active_to_unstaked,
  swap_eligible_deferred_to_withdraw, liquidate_all_withdraw_only,
}
use mx_delegation_sc.Contract.State.{
  Env, Contract, is_global_op_in_progress, below_gas, direct_egld,
}
use mx_delegation_sc.Contract.Settings.{owner_user_id}
use mx_delegation_sc.Contract.View.{get_user_stake_of_type, eligible_deferred_payment}
use mx_delegation_sc.Contract.RewardState.{compute_one_user_reward}
use mx_delegation_sc.Contract.Stake.{
  set_funds, process_stake, validate_unstake_amount, use_waiting_to_replace_unstaked,
  validate_user_minimum_stake,
}

abbrev pub unbond_gas_limit : ℕ
unbond_gas_limit = 50_000_000

unfoldable pub stake_endpoint : ℕ → Env → Contract → Result Contract
unfolding process_stake
stake_endpoint payment env c = do
  require env.not_paused Error.contract_paused
  require (leb c.settings.min_stake payment) Error.stake_below_minimum
  require (not (is_global_op_in_progress c)) Error.global_op_in_progress
  process_stake payment env c

-- What is left of the amount after the waiting list comes out of the active stake.
unfoldable pub unstake_active : ℕ → ℕ → Env → Contract → Result Contract
unfolding compute_one_user_reward swap_user_active_to_unstaked use_waiting_to_replace_unstaked
    validate_user_minimum_stake
unstake_active u remaining env c = do
  c1 ← compute_one_user_reward owner_user_id env c
  c2 ← compute_one_user_reward u env c1
  (remaining', s) ← swap_user_active_to_unstaked env.block_nonce u remaining c2.funds
  require (remaining' == 0) Error.error_active_to_unstaked
  c3 ← use_waiting_to_replace_unstaked env (set_funds s c2)
  validate_user_minimum_stake u c3
  ok c3

unfoldable pub unstake_endpoint : ℕ → Env → Contract → Result Contract
unfolding validate_unstake_amount swap_user_waiting_to_withdraw_only unstake_active
unstake_endpoint amount env c = do
  require env.not_paused Error.contract_paused
  require (not (is_global_op_in_progress c)) Error.global_op_in_progress
  let u = c.users.user_id env.caller
  require (not (u == 0)) Error.only_delegators_can_unstake
  validate_unstake_amount u amount c
  (remaining, s) ← swap_user_waiting_to_withdraw_only u amount c.funds
  let c1 = set_funds s c
  if remaining == 0 then ok c1 else unstake_active u remaining env c1

unfoldable pub get_unstakeable : ℕ → Contract → ℕ
unfolding get_user_stake_of_type
get_unstakeable address c =
    let u = c.users.user_id address in
    if u == 0
    then 0
    else get_user_stake_of_type u FundType.waiting c.funds
      + get_user_stake_of_type u FundType.active c.funds

abbrev pub pay_out : ℕ → ℕ → Contract → Contract
pay_out to amount c = if ltb 0 amount then direct_egld to amount c else c

unfoldable pub unbond_user : Env → Contract → Result (ℕ × Contract)
unfolding swap_eligible_deferred_to_withdraw liquidate_all_withdraw_only
unbond_user env c = do
  require env.not_paused Error.contract_paused
  let u = c.users.user_id env.caller
  require (ltb 0 u) Error.unknown_caller
  (_, s1) ←
      swap_eligible_deferred_to_withdraw env.block_nonce u c.settings.n_blocks_before_unbond
        (below_gas env 0 unbond_gas_limit) c.funds
  (amount, s2) ← liquidate_all_withdraw_only u (below_gas env 1 unbond_gas_limit) s1
  ok (amount, pay_out env.caller amount (set_funds s2 c))

unfoldable pub get_unbondable : ℕ → Env → Contract → Result ℕ
unfolding eligible_deferred_payment get_user_stake_of_type
get_unbondable address env c =
    let u = c.users.user_id address in
    if u == 0
    then ok 0
    else (eligible_deferred_payment env.block_nonce u c.settings.n_blocks_before_unbond c.funds
        >>= λ n. ok (n + get_user_stake_of_type u FundType.withdraw_only c.funds))
