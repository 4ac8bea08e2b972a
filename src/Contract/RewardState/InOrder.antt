-- ===== src/Contract/RewardState/InOrder.antt =====
-- latest/src/rewards_state.rs: where the computation of a user's rewards cannot panic.
use mx_delegation_sc.Base.{
  ℕ, ◌+◌, ◌*◌, ◌/◌, ◌-◌, ◌≤◌, ◌<◌, ◌≡◌, refl, false, arith, ◌==◌, ltb, inl, inr, Bool-cases,
}
use mx_delegation_sc.Base.Outcome.{ok, sub_big-eq-ok}
use mx_delegation_sc.Contract.RewardState.Claim.{split_service_reward-sum}
use mx_delegation_sc.Funds.Types.{FundType}
use mx_delegation_sc.Contract.State.{Env, Rewards, Contract, div_big}
use mx_delegation_sc.Contract.Settings.{percentage_denominator, owner_user_id}
use mx_delegation_sc.Contract.View.{get_user_stake_of_type, user_stake_totals_id}
use mx_delegation_sc.Contract.RewardState.{
  UserRewardData, load_user_reward_data, owner_unstaked_rewards, delegator_new_rewards,
  owner_rewards, add_new_rewards, load_updated_user_rewards, store_user_reward_data,
  compute_one_user_reward,
}

-- The fee is a share, the cap is set, and no user has seen rewards that did not arrive.
pub record RewardsInOrder (env : Env) (c : Contract) : Type 0 where
  pub fee : c.settings.service_fee ≤ percentage_denominator
  pub cap : 0 < c.settings.total_delegation_cap
  pub seen : (u : ℕ) → c.rewards.checkpoint u ≤ env.cumulated_rewards

div_big-ok : (a b : ℕ) → 0 < b → div_big a b ≡ ok (a / b)
div_big-ok a b pos = let more : (b == 0) ≡ false = ground arith in rw more refl

owner_unstaked_rewards-ok :
    (rewards active cap : ℕ)
    → 0 < cap
    → (n : ℕ) × (owner_unstaked_rewards rewards active cap ≡ ok n)
unfolding owner_unstaked_rewards
owner_unstaked_rewards-ok rewards active cap pos = elim (Bool-cases (ltb active cap)) [
  | inl below ↦ (
    (rewards * (cap - active)) / cap,
    rw (below, sub_big-eq-ok cap active (ground arith))
        (div_big-ok (rewards * (cap - active)) cap pos),
  )
  | inr full ↦ (0, rw full refl)
]

delegator_new_rewards-ok :
    (rewards active cap : ℕ) → 0 < cap → (n : ℕ) × (delegator_new_rewards rewards active cap ≡ ok n)
unfolding delegator_new_rewards
delegator_new_rewards-ok rewards active cap pos = elim (Bool-cases (ltb 0 active)) [
  | inl some_active ↦
      ((rewards * active) / cap, rw some_active (div_big-ok (rewards * active) cap pos))
  | inr none_active ↦ (0, rw none_active refl)
]

owner_rewards-ok :
    (u service rewards : ℕ) (c : Contract)
    → 0 < c.settings.total_delegation_cap
    → (n : ℕ) × (owner_rewards u service rewards c ≡ ok n)
unfolding owner_rewards
owner_rewards-ok u service rewards c pos = elim (Bool-cases (u == owner_user_id)) [
  | inl owner ↦
      let active = get_user_stake_of_type user_stake_totals_id FundType.active c.funds in
      let (n, e) = owner_unstaked_rewards-ok rewards active c.settings.total_delegation_cap pos in
      (service + n, rw (owner, e) refl)
  | inr other ↦ (0, rw other refl)
]

add_new_rewards-ok :
    (tot u : ℕ) (d : UserRewardData) (env : Env) (c : Contract)
    → RewardsInOrder env c
    → (n : ℕ) × (add_new_rewards tot u d env c
        ≡ ok (record { reward_checkpoint = env.cumulated_rewards; unclaimed_rewards = n }))
unfolding add_new_rewards
add_new_rewards-ok tot u d env c h =
    let (service, delegators, split, sum, near) = split_service_reward-sum tot c.settings h.fee in
    let (a, as_owner) = owner_rewards-ok u service delegators c h.cap in
    let (b, as_delegator) =
      delegator_new_rewards-ok delegators (get_user_stake_of_type u FundType.active c.funds)
        c.settings.total_delegation_cap h.cap in
    (d.unclaimed_rewards + a + b, rw (split, as_owner, as_delegator) refl)

load_updated_user_rewards-ok :
    (u : ℕ) (env : Env) (c : Contract)
    → RewardsInOrder env c
    → (d : UserRewardData) × (load_updated_user_rewards u env c ≡ ok d)
      × (d.reward_checkpoint ≤ env.cumulated_rewards)
unfolding load_updated_user_rewards load_user_reward_data
load_updated_user_rewards-ok u env c h =
    let d0 = load_user_reward_data u c.rewards in
    let tot = env.cumulated_rewards - c.rewards.checkpoint u in
    let enough = sub_big-eq-ok env.cumulated_rewards (c.rewards.checkpoint u) (h.seen u) in
    elim (Bool-cases (tot == 0)) [
      | inl nothing ↦ (d0, rw (enough, nothing) refl, h.seen u)
      | inr some_new ↦
          let (n, e) = add_new_rewards-ok tot u d0 env c h in
          (
            record { reward_checkpoint = env.cumulated_rewards; unclaimed_rewards = n },
            rw (enough, some_new, e) refl,
            omega arith,
          )
    ]

pub compute_one_user_reward-ok :
    (u : ℕ) (env : Env) (c : Contract)
    → RewardsInOrder env c
    → (r : Rewards) × (compute_one_user_reward u env c ≡ ok (record c { rewards = r }))
      × RewardsInOrder env (record c { rewards = r })
unfolding compute_one_user_reward store_user_reward_data
compute_one_user_reward-ok u env c h =
    let (d, e, bound) = load_updated_user_rewards-ok u env c h in
    (
      store_user_reward_data u d c.rewards,
      rw e refl,
      record { fee = h.fee; cap = h.cap; seen = λ v. ground (arith, bound, h.seen v) },
    )
