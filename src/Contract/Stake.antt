-- ===== src/Contract/Stake.antt =====
-- latest/src/user_stake_state.rs: how stake moves between the lists of the whole contract.
pub mod Bootstrap
pub mod Cap
pub mod Filled
pub mod Minimum
pub mod Regular
use mx_delegation_sc.Base.{
  ℕ, ◌+◌, ◌*◌, Bool, true, false, List, [], ◌∷◌, ◌||◌, ◌==◌, ltb, leb, if◌then◌else◌, min,
}
use mx_delegation_sc.Base.Outcome.{Result, ok, err, Error, ◌>>=◌, ◌>>◌, require, sub_big}
use mx_delegation_sc.Funds.Types.{FundType}
use mx_delegation_sc.Funds.Store.{Funds}
use mx_delegation_sc.Funds.Transf.{
  never, create_waiting, swap_waiting_to_active, get_affected_users_of_swap_waiting_to_active,
  swap_unstaked_to_deferred_payment,
}
use mx_delegation_sc.Users.{get_or_create_user}
use mx_delegation_sc.Contract.State.{Env, Contract}
use mx_delegation_sc.Contract.Settings.{percentage_denominator, owner_user_id}
use mx_delegation_sc.Contract.View.{get_user_stake_of_type, user_stake_totals_id}
use mx_delegation_sc.Contract.RewardState.{compute_one_user_reward}

abbrev pub set_funds : Funds → Contract → Contract
set_funds s c = record c { funds = s }

abbrev pub set_bootstrap_mode : Bool → Contract → Contract
set_bootstrap_mode b c = record c { settings = record c.settings { bootstrap_mode = b } }

abbrev pub total_of : FundType → Contract → ℕ
total_of t c = get_user_stake_of_type user_stake_totals_id t c.funds

-- `for user_id in affected_users`
unfoldable pub compute_rewards_of : List ℕ → Env → Contract → Result Contract
unfolding compute_one_user_reward
compute_rewards_of [] env c = ok c
compute_rewards_of (u ∷ us) env c =
    if u == 0
    then err Error.bad_user_id
    else (compute_one_user_reward u env c >>= compute_rewards_of us env)

unfoldable pub swap_waiting_to_active_compute_rewards : ℕ → Env → Contract → Result Contract
unfolding get_affected_users_of_swap_waiting_to_active compute_one_user_reward compute_rewards_of
    swap_waiting_to_active
swap_waiting_to_active_compute_rewards swappable env c = do
  (affected, remaining) ← get_affected_users_of_swap_waiting_to_active swappable never c.funds
  require (remaining == 0) Error.error_waiting_to_active
  c1 ← compute_one_user_reward owner_user_id env c
  c2 ← compute_rewards_of affected env c1
  (_, remaining', s) ← swap_waiting_to_active swappable never c2.funds
  require (remaining' == 0) Error.error_waiting_to_active
  ok (set_funds s c2)

-- Bootstrap mode: the delegation cap is not filled yet.
unfoldable pub fill_delegation_cap : Contract → Result Contract
unfolding swap_unstaked_to_deferred_payment swap_waiting_to_active get_user_stake_of_type
fill_delegation_cap c = do
  (total_unstaked, s1) ←
      swap_unstaked_to_deferred_payment (total_of FundType.un_staked c) never c.funds
  require (total_unstaked == 0) Error.error_unstaked_to_deferred
  let c1 = set_funds s1 c
  fillable ← sub_big c1.settings.total_delegation_cap (total_of FundType.active c1)
  (_, fillable', s2) ← swap_waiting_to_active fillable never s1
  let c2 = set_funds s2 c1
  ok (if fillable' == 0 then set_bootstrap_mode false c2 else c2)

-- Regular mode: as much of waiting becomes active as of unstaked becomes deferred payment.
unfoldable pub swap_waiting_and_unstaked : ℕ → Env → Contract → Result Contract
unfolding swap_unstaked_to_deferred_payment swap_waiting_to_active_compute_rewards
swap_waiting_and_unstaked swappable env c = do
  (remaining, s) ← swap_unstaked_to_deferred_payment swappable never c.funds
  require (remaining == 0) Error.error_unstaked_to_deferred
  swap_waiting_to_active_compute_rewards swappable env (set_funds s c)

unfoldable pub use_waiting_to_replace_unstaked : Env → Contract → Result Contract
unfolding fill_delegation_cap swap_waiting_and_unstaked get_user_stake_of_type
use_waiting_to_replace_unstaked env c =
    if c.settings.bootstrap_mode
    then fill_delegation_cap c
    else (let swappable = min (total_of FundType.waiting c) (total_of FundType.un_staked c) in
        if swappable == 0 then ok c else swap_waiting_and_unstaked swappable env c)

-- The active stake that is read here is that of the whole contract.
unfoldable pub validate_user_minimum_stake : ℕ → Contract → Result (Unit {0})
unfolding get_user_stake_of_type
validate_user_minimum_stake u c =
    let waiting = get_user_stake_of_type u FundType.waiting c.funds in
    let relevant_stake = waiting + total_of FundType.active c in
    require (relevant_stake == 0 || leb c.settings.min_stake relevant_stake)
      Error.remaining_below_minimum

unfoldable pub validate_owner_stake_share : Contract → Result (Unit {0})
unfolding get_user_stake_of_type
validate_owner_stake_share c =
    require
      (leb (total_of FundType.active c * c.settings.owner_min_stake_share)
        (get_user_stake_of_type owner_user_id FundType.active c.funds * percentage_denominator))
      Error.owner_stake_too_low

unfoldable pub validate_unstake_amount : ℕ → ℕ → Contract → Result (Unit {0})
unfolding get_user_stake_of_type
validate_unstake_amount u amount c =
    let max_unstake =
      get_user_stake_of_type u FundType.waiting c.funds
      + get_user_stake_of_type u FundType.active c.funds in
    if ltb max_unstake amount
    then err Error.unstake_above_stake
    else if amount == max_unstake
    then ok tt
    else require (leb c.settings.min_stake amount) Error.unstake_below_minimum

unfoldable pub validate_delegation_cap_invariant : Contract → Result (Unit {0})
unfolding get_user_stake_of_type
validate_delegation_cap_invariant c =
    let staked = total_of FundType.active c + total_of FundType.un_staked c in
    let cap = c.settings.total_delegation_cap in
    require (if c.settings.bootstrap_mode then ltb staked cap else staked == cap)
      Error.delegation_cap_violated

unfoldable pub process_stake : ℕ → Env → Contract → Result Contract
unfolding get_or_create_user create_waiting validate_delegation_cap_invariant
    use_waiting_to_replace_unstaked
process_stake payment env c = do
  let (u, users) = get_or_create_user env.caller c.users
  let c1 = record c { users = users; funds = create_waiting env.block_nonce u payment c.funds }
  validate_delegation_cap_invariant c1
  use_waiting_to_replace_unstaked env c1
