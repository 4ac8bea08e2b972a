-- ===== src/Contract/DustCleanup.antt =====
-- latest/src/user_stake_dust_cleanup.rs: very small funds leave the waiting and the active list.
pub mod Stale
use mx_delegation_sc.Base.{ℕ, ◌+◌, ◌/◌, not, none, some, ◌==◌, ltb, if◌then◌else◌}
use mx_delegation_sc.Base.Outcome.{Result, ok, Error, ◌>>=◌, ◌>>◌, require}
use mx_delegation_sc.Funds.Types.{FundDescription, FundType}
use mx_delegation_sc.Funds.Convert.{EffectfulFilter}
use mx_delegation_sc.Funds.Query.{count_fund_items_by_type}
use mx_delegation_sc.Funds.Transf.{swap_dust}
use mx_delegation_sc.Contract.State.{
  Env, Rewards, Contract, is_global_op_in_progress, only_owner, below_gas,
}
use mx_delegation_sc.Contract.Settings.{owner_user_id}
use mx_delegation_sc.Contract.RewardState.{compute_one_user_reward}
use mx_delegation_sc.Contract.Stake.{use_waiting_to_replace_unstaked}

abbrev pub dust_gas_limit : ℕ
dust_gas_limit = 20_000_000

unfoldable pub count_dust_items_waiting_list : ℕ → Contract → Result ℕ
unfolding count_fund_items_by_type
count_dust_items_waiting_list dust_limit c =
    count_fund_items_by_type FundType.waiting (λ f. ltb f.balance dust_limit) c.funds

unfoldable pub count_dust_items_active : ℕ → Contract → Result ℕ
unfolding count_fund_items_by_type
count_dust_items_active dust_limit c =
    count_fund_items_by_type FundType.active (λ f. ltb f.balance dust_limit) c.funds

abbrev pub to_withdraw_only : EffectfulFilter (Unit {0})
to_withdraw_only item s e = ok (some FundDescription.withdraw_only, e)

unfoldable pub dust_cleanup_waiting_list : ℕ → Env → Contract → Result Contract
unfolding swap_dust
dust_cleanup_waiting_list dust_limit env c = do
  only_owner env
  require (not (is_global_op_in_progress c)) Error.global_op_in_progress
  (checkpoint, s, _) ←
      swap_dust c.dust_checkpoint dust_limit FundType.waiting to_withdraw_only
        (below_gas env 0 dust_gas_limit) c.funds tt
  ok (record c { funds = s; dust_checkpoint = checkpoint })

-- The closure brings the user's rewards up to date, on the storage as it stands at that moment.
unfoldable pub unstake_dust : Env → Contract → EffectfulFilter Rewards
unfolding compute_one_user_reward
unstake_dust env c item s rewards =
    if item.user_id == 0
    then ok (none, rewards)
    else (compute_one_user_reward item.user_id env (record c { funds = s; rewards = rewards })
        >>= λ c'. ok (some (FundDescription.un_staked 0), c'.rewards))

-- `initial_gas` is the gas left when the endpoint asks for it first.
unfoldable pub dust_cleanup_active : (initial_gas : ℕ) → ℕ → Env → Contract → Result Contract
unfolding swap_dust unstake_dust compute_one_user_reward use_waiting_to_replace_unstaked
dust_cleanup_active initial_gas dust_limit env c = do
  only_owner env
  require (not (is_global_op_in_progress c)) Error.global_op_in_progress
  let reserved_gas = initial_gas / 2 + dust_gas_limit
  c1 ← compute_one_user_reward owner_user_id env c
  (checkpoint, s, rewards) ←
      swap_dust c1.dust_checkpoint dust_limit FundType.active (unstake_dust env c1)
        (below_gas env 0 reserved_gas) c1.funds c1.rewards
  use_waiting_to_replace_unstaked env
      (record c1 { funds = s; dust_checkpoint = checkpoint; rewards = rewards })
