-- ===== src/Contract/CheckpointEndpoints.antt =====
-- latest/src/reset_checkpoint_endpoints.rs: the endpoints that start an operation which may pause.
pub mod AnyCaller
pub mod BootstrapEnd
use mx_delegation_sc.Base.{
  ℕ, ◌+◌, ◌-◌, Bool, not, true, false, Option, none, some, ◌==◌, ltb, leb, if◌then◌else◌,
}
use mx_delegation_sc.Base.Outcome.{Result, ok, err, Error, ◌>>=◌, ◌>>◌, require, sub_big}
use mx_delegation_sc.Funds.Types.{FundType}
use mx_delegation_sc.Contract.State.{
  Env, Contract, ModifyDelegationCapStep, ModifyTotalDelegationCapData, GlobalOpCheckpoint,
  modify_total_delegation_cap, change_service_fee, new_compute_data, is_global_op_in_progress,
  only_owner,
}
use mx_delegation_sc.Contract.Settings.{percentage_denominator, set_settings}
use mx_delegation_sc.Contract.View.{get_user_stake_of_type}
use mx_delegation_sc.Contract.RewardState.{total_unprotected}
use mx_delegation_sc.Contract.Stake.{total_of, set_bootstrap_mode}
use mx_delegation_sc.Contract.Checkpoint.{
  OperationCompletionStatus, completed, continue_global_operation, set_total_delegation_cap,
}

-- The checkpoint of an operation that first brings all rewards up to date.
abbrev pub start_modify : ℕ → ℕ → ℕ → ℕ → Env → GlobalOpCheckpoint
start_modify new_cap waiting_to_active active_to_def_p unstaked_to_def_p env =
    modify_total_delegation_cap (record {
      new_delegation_cap = new_cap;
      remaining_swap_waiting_to_active = waiting_to_active;
      remaining_swap_active_to_def_p = active_to_def_p;
      remaining_swap_unstaked_to_def_p = unstaked_to_def_p;
      step = ModifyDelegationCapStep.compute_all_rewards (new_compute_data env.cumulated_rewards);
    })

-- The cap increases.
unfoldable pub plan_increase : ℕ → ℕ → Env → Contract → Result GlobalOpCheckpoint
unfolding get_user_stake_of_type
plan_increase new_cap previous_cap env c = do
  require (total_of FundType.un_staked c == 0) Error.unstaked_present
  swap_amount ← sub_big new_cap previous_cap
  ok (start_modify new_cap swap_amount 0 0 env)

-- The cap decreases: unstaked funds leave first, then active ones.
unfoldable pub plan_decrease : ℕ → ℕ → Env → Contract → Result GlobalOpCheckpoint
unfolding get_user_stake_of_type total_unprotected
plan_decrease new_cap previous_cap env c = do
  swap_amount ← sub_big previous_cap new_cap
  unprotected ← total_unprotected env c
  require (leb swap_amount unprotected) Error.not_enough_funds
  let total_unstaked = total_of FundType.un_staked c
  let covered : Result GlobalOpCheckpoint = ok (start_modify new_cap 0 0 swap_amount env)
  let partly : Result GlobalOpCheckpoint = sub_big swap_amount total_unstaked >>= λ active_part.
      ok (start_modify new_cap 0 active_part total_unstaked env)
  if leb swap_amount total_unstaked then covered else partly

-- From the previous cap on: nothing to do, or an operation to run.
unfoldable pub change_cap : ℕ → ℕ → Env → Contract → Result (OperationCompletionStatus × Contract)
unfolding plan_increase plan_decrease continue_global_operation
change_cap new_cap previous_cap env c =
    if new_cap == previous_cap
    then ok (completed, c)
    else if ltb previous_cap new_cap
    then (plan_increase new_cap previous_cap env c >>= λ orc. continue_global_operation env orc c)
    else (plan_decrease new_cap previous_cap env c >>= λ orc. continue_global_operation env orc c)

-- In bootstrap mode.
unfoldable pub modify_cap_in_bootstrap :
    ℕ → ℕ → Env → Contract → Result (OperationCompletionStatus × Contract)
unfolding change_cap
modify_cap_in_bootstrap new_cap max_available env c =
    if ltb max_available new_cap
    then ok (completed, set_total_delegation_cap new_cap c)
    else change_cap new_cap max_available env (set_bootstrap_mode false c)

unfoldable pub modify_total_delegation_cap_endpoint :
    ℕ → Env → Contract → Result (OperationCompletionStatus × Contract)
unfolding modify_cap_in_bootstrap change_cap get_user_stake_of_type
modify_total_delegation_cap_endpoint new_cap env c = do
  only_owner env
  require (not (is_global_op_in_progress c)) Error.global_op_in_progress
  let max_available =
      total_of FundType.active c + total_of FundType.waiting c + total_of FundType.un_staked c
  let regular : Result (OperationCompletionStatus × Contract) =
      require (leb new_cap max_available) Error.cap_above_available
      >> change_cap new_cap c.settings.total_delegation_cap env c
  if c.settings.bootstrap_mode then modify_cap_in_bootstrap new_cap max_available env c else regular

unfoldable pub set_service_fee_endpoint :
    ℕ → Env → Contract → Result (OperationCompletionStatus × Contract)
unfolding continue_global_operation
set_service_fee_endpoint service_fee env c = do
  require (leb service_fee percentage_denominator) Error.service_fee_out_of_range
  require (not (is_global_op_in_progress c)) Error.global_op_in_progress
  let in_bootstrap : Result (OperationCompletionStatus × Contract) =
      ok (completed, set_settings (λ st. record st { service_fee = service_fee }) c)
  let later : Result (OperationCompletionStatus × Contract) =
      continue_global_operation env
        (change_service_fee service_fee (new_compute_data env.cumulated_rewards)) c
  if c.settings.service_fee == service_fee
      then ok (completed, c)
      else if c.settings.bootstrap_mode
      then in_bootstrap
      else later
