-- ===== src/Contract/RewardState.antt =====
-- latest/src/rewards_state.rs and rewards_endpoints.rs: how rewards are computed and claimed.
pub mod Claim
pub mod InOrder
use mx_delegation_sc.Base.{
  ℕ, zero, suc, ◌+◌, ◌*◌, ◌/◌, Bool, not, true, false, List, [], ◌∷◌, ◌==◌, ltb, if◌then◌else◌,
}
use mx_delegation_sc.Base.Outcome.{Result, ok, err, Error, ◌>>=◌, ◌>>◌, require, sub_big}
use mx_delegation_sc.Funds.Types.{FundType}
use mx_delegation_sc.Contract.State.{
  Env, Settings, Rewards, Contract, is_global_op_in_progress, direct_egld, div_big,
}
use mx_delegation_sc.Contract.Settings.{percentage_denominator, owner_user_id}
use mx_delegation_sc.Contract.View.{get_user_stake_of_type, user_stake_totals_id}

pub record UserRewardData : Type 0 where
  pub reward_checkpoint : ℕ
  pub unclaimed_rewards : ℕ

unfoldable pub load_user_reward_data : ℕ → Rewards → UserRewardData
load_user_reward_data u r = record {
  reward_checkpoint = r.checkpoint u;
  unclaimed_rewards = r.unclaimed u;
}

unfoldable pub store_user_reward_data : ℕ → UserRewardData → Rewards → Rewards
store_user_reward_data u d r = record r {
  checkpoint = λ v. if v == u then d.reward_checkpoint else r.checkpoint v;
  unclaimed = λ v. if v == u then d.unclaimed_rewards else r.unclaimed v;
}

-- The service part and the delegators' part.
unfoldable pub split_service_reward : ℕ → Settings → Result (ℕ × ℕ)
split_service_reward tot_rewards st = do
  delegators_fee ← sub_big percentage_denominator st.service_fee
  ok (
    (st.service_fee * tot_rewards) / percentage_denominator,
    (delegators_fee * tot_rewards) / percentage_denominator,
  )

-- The owner's rewards for the part of the cap that is not active.
unfoldable pub owner_unstaked_rewards : ℕ → ℕ → ℕ → Result ℕ
owner_unstaked_rewards delegators_rewards tot_stake_active delegation_cap =
    if ltb tot_stake_active delegation_cap
    then (do
      missing_stake ← sub_big delegation_cap tot_stake_active
      div_big (delegators_rewards * missing_stake) delegation_cap)
    else ok 0

unfoldable pub delegator_new_rewards : ℕ → ℕ → ℕ → Result ℕ
delegator_new_rewards delegators_rewards u_stake_active delegation_cap =
    if ltb 0 u_stake_active
    then div_big (delegators_rewards * u_stake_active) delegation_cap
    else ok 0

-- The part of the new rewards that goes to the user as the owner of the contract.
unfoldable pub owner_rewards : ℕ → ℕ → ℕ → Contract → Result ℕ
unfolding owner_unstaked_rewards get_user_stake_of_type
owner_rewards u service_rewards delegators_rewards c =
    if u == owner_user_id
    then (do
      unstaked ←
          owner_unstaked_rewards delegators_rewards
            (get_user_stake_of_type user_stake_totals_id FundType.active c.funds)
            c.settings.total_delegation_cap
      ok (service_rewards + unstaked))
    else ok 0

-- The user's data once rewards have arrived.
unfoldable pub add_new_rewards : ℕ → ℕ → UserRewardData → Env → Contract → Result UserRewardData
unfolding split_service_reward owner_rewards delegator_new_rewards get_user_stake_of_type
add_new_rewards tot_new_rewards u d env c = do
  (service_rewards, delegators_rewards) ← split_service_reward tot_new_rewards c.settings
  as_owner ← owner_rewards u service_rewards delegators_rewards c
  as_delegator ←
      delegator_new_rewards delegators_rewards (get_user_stake_of_type u FundType.active c.funds)
        c.settings.total_delegation_cap
  ok (record {
    reward_checkpoint = env.cumulated_rewards;
    unclaimed_rewards = d.unclaimed_rewards + as_owner + as_delegator;
  })

unfoldable pub load_updated_user_rewards : ℕ → Env → Contract → Result UserRewardData
unfolding load_user_reward_data add_new_rewards
load_updated_user_rewards u env c = do
  let d = load_user_reward_data u c.rewards
  tot_new_rewards ← sub_big env.cumulated_rewards d.reward_checkpoint
  if tot_new_rewards == 0 then ok d else add_new_rewards tot_new_rewards u d env c

abbrev pub store_rewards : ℕ → UserRewardData → Contract → Contract
store_rewards u d c = record c { rewards = store_user_reward_data u d c.rewards }

unfoldable pub compute_one_user_reward : ℕ → Env → Contract → Result Contract
unfolding load_updated_user_rewards store_user_reward_data
compute_one_user_reward u env c = do d ← load_updated_user_rewards u env c; ok (store_rewards u d c)

unfoldable pub get_claimable_rewards : ℕ → Env → Contract → Result ℕ
unfolding load_updated_user_rewards
get_claimable_rewards address env c =
    let u = c.users.user_id address in
    if u == 0 then ok 0 else (load_updated_user_rewards u env c >>= λ d. ok d.unclaimed_rewards)

unfoldable pub sum_unclaimed_upto : ℕ → Env → Contract → Result ℕ
unfolding load_updated_user_rewards
sum_unclaimed_upto zero env c = ok 0
sum_unclaimed_upto (suc n) env c = do
  before ← sum_unclaimed_upto n env c
  d ← load_updated_user_rewards (suc n) env c
  ok (before + d.unclaimed_rewards)

unfoldable pub get_total_unclaimed_rewards : Env → Contract → Result ℕ
unfolding sum_unclaimed_upto
get_total_unclaimed_rewards env c = sum_unclaimed_upto c.users.num_users env c

unfoldable pub total_unprotected : Env → Contract → Result ℕ
unfolding get_user_stake_of_type
total_unprotected env c = do
  let total_of = λ (t : FundType). get_user_stake_of_type user_stake_totals_id t c.funds
  a ← sub_big (env.sc_balance + c.rewards.sent_rewards) env.cumulated_rewards
  b ← sub_big a (total_of FundType.waiting)
  d ← sub_big b (total_of FundType.deferred_payment)
  sub_big d (total_of FundType.withdraw_only)

unfoldable pub send_rewards : ℕ → ℕ → Contract → Contract
send_rewards to amount c =
    let c' = direct_egld to amount c in
    record c' { rewards = record c'.rewards { sent_rewards = c'.rewards.sent_rewards + amount } }

-- Pays out what is due, and stores the user's data.
unfoldable pub pay_rewards : ℕ → ℕ → UserRewardData → Contract → Contract
unfolding send_rewards store_user_reward_data
pay_rewards to u d c =
    if ltb 0 d.unclaimed_rewards
    then store_rewards u (record d { unclaimed_rewards = 0 })
        (send_rewards to d.unclaimed_rewards c)
    else store_rewards u d c

unfoldable pub claim_rewards : Env → Contract → Result Contract
unfolding load_updated_user_rewards pay_rewards
claim_rewards env c = do
  require env.not_paused Error.contract_paused
  require env.claim_rewards_on Error.feature_off
  let u = c.users.user_id env.caller
  require (not (u == 0)) Error.unknown_caller
  require (not (is_global_op_in_progress c)) Error.global_op_in_progress
  d ← load_updated_user_rewards u env c
  ok (pay_rewards env.caller u d c)
