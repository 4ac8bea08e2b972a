-- ===== src/Contract/Checkpoint.antt =====
-- latest/src/reset_checkpoint_endpoints.rs: the operations that pause when gas runs low, and their
-- continuation in a later call.
use mx_delegation_sc.Base.{
  ℕ, zero, suc, ◌+◌, Bool, true, false, Option, none, some, ◌==◌, ltb, if◌then◌else◌, add_usize,
}
use mx_delegation_sc.Base.Outcome.{Result, ok, err, Error, ◌>>=◌, ◌>>◌, require, sub_big}
use mx_delegation_sc.Funds.Transf.{
  swap_waiting_to_active, swap_unstaked_to_deferred_payment, swap_active_to_deferred_payment,
}
use mx_delegation_sc.Contract.State.{
  Env, Contract, ComputeAllRewardsData, ModifyDelegationCapStep, ModifyTotalDelegationCapData,
  GlobalOpCheckpoint, idle, modify_total_delegation_cap, change_service_fee, is_none, below_gas,
}
use mx_delegation_sc.Contract.Settings.{owner_user_id}
use mx_delegation_sc.Contract.RewardState.{
  load_updated_user_rewards, store_user_reward_data, store_rewards,
}
use mx_delegation_sc.Contract.Stake.{set_funds}

abbrev pub stop_at_gas_limit : ℕ
stop_at_gas_limit = 100_000_000

pub data OperationCompletionStatus : Type 0 where
  completed interrupted_before_out_of_gas : OperationCompletionStatus

-- One user's rewards brought up to date and counted.
unfoldable pub compute_next_user :
    Env → ComputeAllRewardsData → Contract → Result (ComputeAllRewardsData × Contract)
unfolding load_updated_user_rewards store_user_reward_data
compute_next_user env d c = do
  let u = add_usize d.last_id 1
  user_data ← load_updated_user_rewards u env c
  ok (
    record d { last_id = u; sum_unclaimed = d.sum_unclaimed + user_data.unclaimed_rewards },
    store_rewards u user_data c,
  )

-- Whether gas ran low, the data reached, and the storage.
unfoldable pub compute_all_loop :
    ℕ
    → ℕ
    → ℕ
    → Env
    → ComputeAllRewardsData
    → Contract
    → Result (Bool × ComputeAllRewardsData × Contract)
unfolding compute_next_user
compute_all_loop k zero n env d c = err Error.out_of_fuel
compute_all_loop k (suc fuel) n env d c = elim (ltb d.last_id c.users.num_users) [
  | false ↦ ok (false, d, c)
  | true ↦ elim (below_gas env k stop_at_gas_limit n) [
    | true ↦ ok (true, d, c)
    | false ↦ compute_next_user env d c >>= λ (d', c'). compute_all_loop k fuel (suc n) env d' c'
  ]
]

-- If more rewards arrived since the computation started, it starts again.
unfoldable pub restart_if_stale : Env → ComputeAllRewardsData → ComputeAllRewardsData
restart_if_stale env d =
    if d.rewards_checkpoint == env.cumulated_rewards
    then d
    else record { last_id = 0; sum_unclaimed = 0; rewards_checkpoint = env.cumulated_rewards }

abbrev pub add_unclaimed : ℕ → ℕ → Contract → Contract
add_unclaimed u amount c = record c {
  rewards = record c.rewards {
    unclaimed = λ v. if v == u then c.rewards.unclaimed u + amount else c.rewards.unclaimed v;
  };
}

-- What the roundings left over goes to the owner.
unfoldable pub give_remainder : Env → ComputeAllRewardsData → Contract → Result Contract
give_remainder env d c = do
  a ← sub_big env.cumulated_rewards d.sum_unclaimed
  remainder ← sub_big a c.rewards.sent_rewards
  ok (if ltb 0 remainder then add_unclaimed owner_user_id remainder c else c)

-- `some` where there is more to compute.
unfoldable pub compute_all_rewards :
    ℕ → Env → ComputeAllRewardsData → Contract → Result (Option ComputeAllRewardsData × Contract)
unfolding compute_all_loop restart_if_stale give_remainder
compute_all_rewards k env d c = do
  (low_on_gas, d', c') ← compute_all_loop k (c.users.num_users + 1) 0 env (restart_if_stale env d) c
  elim low_on_gas [
    | true ↦ ok (some d', c')
    | false ↦ give_remainder env d' c' >>= λ c''. ok (none, c'')
  ]

-- A step's status, the checkpoint that follows, and the storage.
abbrev pub StepResult : Type 0
StepResult = Result (OperationCompletionStatus × GlobalOpCheckpoint × Contract)

abbrev pub interrupted_at : ModifyTotalDelegationCapData → Contract → StepResult
interrupted_at d c = ok (interrupted_before_out_of_gas, modify_total_delegation_cap d, c)

abbrev pub proceed_to :
    ModifyDelegationCapStep → ModifyTotalDelegationCapData → Contract → StepResult
proceed_to next d c = ok (completed, modify_total_delegation_cap (record d { step = next }), c)

abbrev pub set_total_delegation_cap : ℕ → Contract → Contract
set_total_delegation_cap cap c = record c {
  settings = record c.settings { total_delegation_cap = cap };
}

unfoldable pub modify_cap_by_step :
    ModifyDelegationCapStep → ℕ → Env → ModifyTotalDelegationCapData → Contract → StepResult
unfolding compute_all_rewards swap_waiting_to_active swap_unstaked_to_deferred_payment
    swap_active_to_deferred_payment
modify_cap_by_step (ModifyDelegationCapStep.compute_all_rewards car) k env d c = do
  (more, c') ← compute_all_rewards k env car c
  elim more [
    | some car' ↦
        interrupted_at (record d { step = ModifyDelegationCapStep.compute_all_rewards car' }) c'
    | none ↦ proceed_to ModifyDelegationCapStep.swap_waiting_to_active d c'
  ]
modify_cap_by_step ModifyDelegationCapStep.swap_waiting_to_active k env d c = do
  (_, remaining, s) ←
      swap_waiting_to_active d.remaining_swap_waiting_to_active (below_gas env k stop_at_gas_limit)
        c.funds
  let d' = record d { remaining_swap_waiting_to_active = remaining }
  if ltb 0 remaining
      then interrupted_at d' (set_funds s c)
      else proceed_to ModifyDelegationCapStep.swap_unstaked_to_deferred_payment d' (set_funds s c)
modify_cap_by_step ModifyDelegationCapStep.swap_unstaked_to_deferred_payment k env d c = do
  (remaining, s) ←
      swap_unstaked_to_deferred_payment d.remaining_swap_unstaked_to_def_p
        (below_gas env k stop_at_gas_limit) c.funds
  let d' = record d { remaining_swap_unstaked_to_def_p = remaining }
  if ltb 0 remaining
      then interrupted_at d' (set_funds s c)
      else proceed_to ModifyDelegationCapStep.swap_active_to_deferred_payment d' (set_funds s c)
modify_cap_by_step ModifyDelegationCapStep.swap_active_to_deferred_payment k env d c = do
  (remaining, s) ←
      swap_active_to_deferred_payment env.block_nonce d.remaining_swap_active_to_def_p
        (below_gas env k stop_at_gas_limit) c.funds
  let d' = record d { remaining_swap_active_to_def_p = remaining }
  if ltb 0 remaining
      then interrupted_at d' (set_funds s c)
      else ok (completed, idle, set_total_delegation_cap d.new_delegation_cap (set_funds s c))

unfoldable pub continue_modify_total_delegation_cap_step :
    ℕ → Env → ModifyTotalDelegationCapData → Contract → StepResult
unfolding modify_cap_by_step
continue_modify_total_delegation_cap_step k env d c = modify_cap_by_step d.step k env d c

unfoldable pub continue_global_operation_step : ℕ → Env → GlobalOpCheckpoint → Contract → StepResult
unfolding continue_modify_total_delegation_cap_step compute_all_rewards
continue_global_operation_step k env idle c = ok (completed, idle, c)
continue_global_operation_step k env (modify_total_delegation_cap d) c =
    continue_modify_total_delegation_cap_step k env d c
continue_global_operation_step k env (change_service_fee new_fee data_) c = do
  (more, c') ← compute_all_rewards k env data_ c
  elim more [
    | some data' ↦ ok (interrupted_before_out_of_gas, change_service_fee new_fee data', c')
    | none ↦
        ok (completed, idle, record c' { settings = record c'.settings { service_fee = new_fee } })
  ]

-- An operation has four steps at most, and the round that finds none left is the fifth.
unfoldable pub continue_loop :
    ℕ → ℕ → Env → OperationCompletionStatus → GlobalOpCheckpoint → Contract → StepResult
unfolding continue_global_operation_step
continue_loop zero k env status orc c = err Error.out_of_fuel
continue_loop (suc fuel) k env interrupted_before_out_of_gas orc c =
    ok (interrupted_before_out_of_gas, orc, c)
continue_loop (suc fuel) k env completed orc c = elim (is_none orc) [
  | true ↦ ok (completed, orc, c)
  | false ↦ continue_global_operation_step k env orc c >>= λ (status, orc', c').
      continue_loop fuel (suc k) env status orc' c'
]

unfoldable pub continue_global_operation :
    Env → GlobalOpCheckpoint → Contract → Result (OperationCompletionStatus × Contract)
unfolding continue_loop
continue_global_operation env orc c = do
  (status, orc', c') ← continue_loop 5 0 env completed orc c
  ok (status, record c' { global_op = orc' })

unfoldable pub continue_global_operation_endpoint :
    Env → Contract → Result (OperationCompletionStatus × Contract)
unfolding continue_global_operation
continue_global_operation_endpoint env c = do
  require env.continue_global_operation_on Error.feature_off
  continue_global_operation env c.global_op c
