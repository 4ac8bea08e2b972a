-- ===== src/Contract/RewardState/Claim.antt =====
-- How rewards_state.rs splits and computes rewards, and how rewards_endpoints.rs pays them.
use mx_delegation_sc.Base.{
  ℕ, ◌+◌, ◌-◌, ◌*◌, ◌≤◌, ◌≡◌, ◌≢◌, refl, Bool, true, false, not, ◌∷◌, arith, ◌==◌, ltb,
  if◌then◌else◌, inl, inr, Bool-cases, ne→==, eq→==, ap, ◌/◌,
}
use mx_delegation_sc.Base.Outcome.{
  Result, Error, ok, require, ◌>>=◌, ◌>>◌, >>=-eq-ok, sub_big, sub_big-eq-ok,
}
use mx_delegation_sc.Funds.Types.{FundType}
use mx_delegation_sc.Contract.View.{get_user_stake_of_type}
use mx_delegation_sc.Contract.State.{Env, Contract, Settings, is_global_op_in_progress}
use mx_delegation_sc.Contract.Settings.{percentage_denominator}
use mx_delegation_sc.Contract.RewardState.{
  UserRewardData, load_user_reward_data, store_user_reward_data, split_service_reward,
  add_new_rewards, load_updated_user_rewards, store_rewards, compute_one_user_reward, send_rewards,
  pay_rewards, claim_rewards, owner_rewards, delegator_new_rewards,
}

pay_rewards_lem :
    (to u : ℕ) (d : UserRewardData) (c : Contract)
    → ((v : ℕ)
        → (pay_rewards to u d c).rewards.checkpoint v
          ≡ (if v == u then d.reward_checkpoint else c.rewards.checkpoint v))
      × ((pay_rewards to u d c).rewards.sent_rewards ≡ c.rewards.sent_rewards + d.unclaimed_rewards)
      × ((pay_rewards to u d c).sent
          ≡ (if d.unclaimed_rewards == 0 then c.sent else (to, d.unclaimed_rewards) ∷ c.sent))
      × ((v : ℕ)
          → (pay_rewards to u d c).rewards.unclaimed v
            ≡ (if v == u then 0 else c.rewards.unclaimed v))
      × ((pay_rewards to u d c).funds ≡ c.funds)
unfolding pay_rewards send_rewards store_user_reward_data
pay_rewards_lem to u d c = elim (Bool-cases (ltb 0 d.unclaimed_rewards)) [
  | inl due ↦
      let paid : (d.unclaimed_rewards == 0) ≡ false = ground arith in
      rw (due, paid) (λ v. ground arith, refl, refl, λ v. ground arith, refl)
  | inr none_due ↦
      let unpaid : (d.unclaimed_rewards == 0) ≡ true = ground arith in
      rw (none_due, unpaid) (λ v. ground arith, ground arith, refl, λ v. ground arith, refl)
]

-- Four guards that hold, and a computation that returns.
guarded :
    {A B : Type 0} {b1 b2 b3 b4 : Bool} (e1 e2 e3 e4 : Error) (m : Result A) (k : A → Result B)
    (a : A)
    → b1 ≡ true
    → b2 ≡ true
    → b3 ≡ true
    → b4 ≡ true
    → m ≡ ok a
    → (require b1 e1 >> (require b2 e2 >> (require b3 e3 >> (require b4 e4 >> (m >>= k))))) ≡ k a
guarded e1 e2 e3 e4 m k a h1 h2 h3 h4 h = rw (h1, h2, h3, h4, h)

-- `claim_rewards` of a known caller pays out exactly the rewards that are due: once the contract is
-- not paused, the feature is on, no operation is in progress and the caller's rewards are computed,
-- it succeeds; nothing is left unclaimed, the rewards sent grow by what was due, the transfers grow
-- by that amount to the caller where it is positive and by none where it is zero. The caller's reward
-- checkpoint is the computed one; no other user's checkpoint or unclaimed rewards change, nor do the
-- funds.
pub claim_rewards-eq-ok :
    (env : Env) (c : Contract) (d : UserRewardData)
    → env.not_paused ≡ true
    → env.claim_rewards_on ≡ true
    → c.users.user_id env.caller ≢ 0
    → is_global_op_in_progress c ≡ false
    → load_updated_user_rewards (c.users.user_id env.caller) env c ≡ ok d
    → (c' : Contract) × (claim_rewards env c ≡ ok c')
      × ((v : ℕ)
          → c'.rewards.checkpoint v ≡ (
              if v == c.users.user_id env.caller
              then d.reward_checkpoint
              else c.rewards.checkpoint v))
      × (c'.rewards.sent_rewards ≡ c.rewards.sent_rewards + d.unclaimed_rewards)
      × (c'.sent ≡ (
          if d.unclaimed_rewards == 0 then c.sent else (env.caller, d.unclaimed_rewards) ∷ c.sent))
      × ((v : ℕ)
          → c'.rewards.unclaimed v
            ≡ (if v == c.users.user_id env.caller then 0 else c.rewards.unclaimed v))
      × (c'.funds ≡ c.funds)
unfolding claim_rewards
claim_rewards-eq-ok env c d running on known idle_now e =
    let u = c.users.user_id env.caller in
    let some_user : (u == 0) ≡ false = ne→== u 0 known in
    let (checkpoint, sent_total, transfers, others, funds) = pay_rewards_lem env.caller u d c in
    (
      pay_rewards env.caller u d c,
      guarded _ _ _ _ (load_updated_user_rewards u env c) (λ d'. ok (pay_rewards env.caller u d' c))
          d running on (ap not some_user) (ap not idle_now) e,
      checkpoint,
      sent_total,
      transfers,
      others,
      funds,
    )

share_sum : (a b t : ℕ) → a * t + b * t ≡ (a + b) * t
share_sum a b t = omega arith

-- With a fee of at most the whole, the service part and the delegators' part of an amount add up to
-- the amount, or to one less where both divisions round.
pub split_service_reward-sum :
    (tot : ℕ) (st : Settings)
    → st.service_fee ≤ percentage_denominator
    → (service : ℕ) × (delegators : ℕ) × (split_service_reward tot st ≡ ok (service, delegators))
      × (service + delegators ≤ tot)
      × (tot ≤ service + delegators + 1)
unfolding split_service_reward
split_service_reward-sum tot st fee =
    let rest = percentage_denominator - st.service_fee in
    let whole : (st.service_fee + rest) * tot ≡ 10000 * tot = ap (λ n. n * tot) (omega arith) in
    let sum = share_sum st.service_fee rest tot in
    (
      (st.service_fee * tot) / 10000,
      (rest * tot) / 10000,
      rw (sub_big-eq-ok percentage_denominator st.service_fee fee) refl,
      omega arith,
      omega arith,
    )

add_new-checkpoint :
    (tot u : ℕ) (d0 : UserRewardData) (env : Env) (c : Contract) (d : UserRewardData)
    → add_new_rewards tot u d0 env c ≡ ok d
    → d.reward_checkpoint ≡ env.cumulated_rewards
unfolding add_new_rewards
add_new-checkpoint tot u d0 env c d e =
    let (split, e1, f1) = >>=-eq-ok (split_service_reward tot c.settings) _ e in
    let (as_owner, e2, f2) = >>=-eq-ok (owner_rewards u split.0 split.1 c) _ f1 in
    let (as_delegator, e3, f3) =
      >>=-eq-ok
        (delegator_new_rewards split.1 (get_user_stake_of_type u FundType.active c.funds)
          c.settings.total_delegation_cap)
        _ f2 in
    cc f3

-- Data that are up to date have the rewards that arrived so far as their checkpoint.
load_updated-checkpoint :
    (u : ℕ) (env : Env) (c : Contract) (d : UserRewardData)
    → load_updated_user_rewards u env c ≡ ok d
    → d.reward_checkpoint ≡ env.cumulated_rewards
unfolding load_updated_user_rewards load_user_reward_data
load_updated-checkpoint u env c d e =
    let (tot, e1, e2) = >>=-eq-ok (sub_big env.cumulated_rewards (c.rewards.checkpoint u)) _ e in
    elim (Bool-cases (tot == 0)) [
      | inl none_new ↦ ground arith
      | inr some_new ↦
          add_new-checkpoint tot u (load_user_reward_data u c.rewards) env c d (rw some_new at e2)
    ]

again_lem :
    (u : ℕ) (env : Env) (c : Contract) (d : UserRewardData)
    → d.reward_checkpoint ≡ env.cumulated_rewards
    → load_updated_user_rewards u env (store_rewards u d c) ≡ ok d
unfolding load_updated_user_rewards load_user_reward_data store_user_reward_data
again_lem u env c d e =
    let here : (u == u) ≡ true = eq→== u u refl in
    let up_to_date : sub_big env.cumulated_rewards d.reward_checkpoint ≡ ok 0 = ground arith in
    rw (here, up_to_date) refl

-- Once a user's rewards are computed and stored, computing them again before more rewards arrive
-- finds the stored data: rewards are not counted twice.
pub compute_one_user_reward-idempotent :
    (u : ℕ) (env : Env) (c : Contract) (d : UserRewardData)
    → load_updated_user_rewards u env c ≡ ok d
    → (compute_one_user_reward u env c ≡ ok (store_rewards u d c))
      × (load_updated_user_rewards u env (store_rewards u d c) ≡ ok d)
unfolding compute_one_user_reward
compute_one_user_reward-idempotent u env c d e = (
  ap (λ (m : Result UserRewardData). m >>= λ d'. ok (store_rewards u d' c)) e,
  again_lem u env c d (load_updated-checkpoint u env c d e),
)
