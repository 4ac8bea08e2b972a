-- ===== src/Examples/Staking.antt =====
-- Staking and unstaking at the whole contract, on a small state.
use mx_delegation_sc.Base.{
  ℕ, ◌+◌, ◌^◌, ◌≤◌, ◌<◌, ◌≡◌, refl, inr, true, false, has, arith, min, length, ◌||◌, ◌==◌,
  if◌then◌else◌,
}
use mx_delegation_sc.Base.Outcome.{ok}
use mx_delegation_sc.Funds.Types.{FundDescription, FundType}
use mx_delegation_sc.Funds.Store.{Funds}
use mx_delegation_sc.Funds.Create.{increase_fund_balance}
use mx_delegation_sc.Funds.AffectedUsers.{max_affected_users}
use mx_delegation_sc.Users.{Users, no_users, get_or_create_user}
use mx_delegation_sc.Funds.Repr.{ids, of_user, Queues, Repr}
use mx_delegation_sc.Funds.Repr.Increase.{increase_queue, increase_fund_balance-Repr}
use mx_delegation_sc.Funds.Repr.Moved.{UserMoved}
use mx_delegation_sc.Contract.State.{Env, Contract, blank_contract}
use mx_delegation_sc.Contract.View.{get_user_stake_of_type, get_user_total_stake}
use mx_delegation_sc.Contract.Stake.{
  set_funds, total_of, process_stake, validate_delegation_cap_invariant,
}
use mx_delegation_sc.Funds.Repr.DryRun.{users_of}
use mx_delegation_sc.Contract.RewardState.InOrder.{RewardsInOrder}
use mx_delegation_sc.Contract.Stake.{use_waiting_to_replace_unstaked}
use mx_delegation_sc.Contract.Stake.Cap.{HasRoom}
use mx_delegation_sc.Contract.Stake.Regular.{Swapped, use_waiting_to_replace_unstaked-Swapped}
use mx_delegation_sc.Contract.Stake.Filled.{process_stake-regular}
use mx_delegation_sc.Contract.Stake.Bootstrap.{process_stake-bootstrap}
use mx_delegation_sc.Contract.StakeEndpoints.{unstake_endpoint}
use mx_delegation_sc.Contract.StakeEndpoints.FromWaiting.{unstake_endpoint-from_waiting}
use mx_delegation_sc.Examples.Storage.{
  two_funds, two_queue, two_funds-Repr, unstaked_funds, unstaked_queues, unstaked_funds-Repr,
}

abbrev env : Env
env = record {
  caller = 77;
  owner = 77;
  block_nonce = 20;
  cumulated_rewards = 1000;
  sc_balance = 5000;
  gas_left = λ _ _. 500_000_000;
  not_paused = true;
  claim_rewards_on = true;
  continue_global_operation_on = true;
}

abbrev one_user : Users
one_user = (get_or_create_user 77 no_users).1

-- User 1, at the address 77, has 100 waiting and user 2 has 30, below a cap of 200.
abbrev contract : Contract
contract = record blank_contract {
  users = one_user;
  settings = record blank_contract.settings {
    total_delegation_cap = 200;
    bootstrap_mode = true;
    min_stake = 60;
  };
  funds = two_funds;
}

free_ids :
    two_funds.f_max_id
      + length (ids (two_queue FundType.un_staked))
      + length (ids (two_queue FundType.waiting))
      + 2
    < 2 ^ 32
unfolding increase_fund_balance increase_queue
free_ids = omega arith

few_unstaked : length (ids (two_queue FundType.un_staked)) ≤ max_affected_users
unfolding increase_fund_balance increase_queue
few_unstaked = omega arith

few_waiting : length (ids (two_queue FundType.waiting)) < max_affected_users
unfolding increase_fund_balance increase_queue
few_waiting = omega arith

below_cap : total_of FundType.active contract + total_of FundType.un_staked contract < 200
unfolding increase_fund_balance get_user_stake_of_type
below_cap = omega arith

-- 90 of the 100 come in, and the bootstrap mode ends.
process_stake-bootstrap_example :
    (c' : Contract) × (q' : Queues) × (process_stake 100 env contract ≡ ok c')
    × Repr c'.funds q'
    × (validate_delegation_cap_invariant c' ≡ ok tt)
    × (c'.users ≡ (get_or_create_user 77 one_user).1)
    × (total_of FundType.active c'
        ≡ min 200 (total_of FundType.active contract + total_of FundType.waiting contract + 100))
    × ((v : ℕ)
        → get_user_total_stake v c'.funds
          ≡ get_user_total_stake v two_funds
            + (if v == 0 || v == (get_or_create_user 77 one_user).0 then 100 else 0))
process_stake-bootstrap_example =
    process_stake-bootstrap 100 env contract two_funds-Repr free_ids few_unstaked few_waiting refl
      below_cap

user_free_ids :
    two_funds.f_max_id + length (ids (of_user (one_user.user_id 77) (two_queue FundType.waiting)))
    < 2 ^ 32
unfolding increase_fund_balance increase_queue get_or_create_user
user_free_ids = omega arith

known : 0 < one_user.user_id 77
unfolding get_or_create_user
known = omega arith

covered : 60 ≤ get_user_stake_of_type (one_user.user_id 77) FundType.waiting two_funds
unfolding increase_fund_balance get_or_create_user get_user_stake_of_type
covered = omega arith

-- With a minimum stake of 60, the caller unstakes 60 of 100 and keeps 40.
unstake_endpoint-from_waiting_example :
    (s' : Funds) × (q' : Queues) × (unstake_endpoint 60 env contract ≡ ok (set_funds s' contract))
    × Repr s' q'
    × UserMoved (one_user.user_id 77) FundType.waiting FundType.withdraw_only 60 two_funds s'
    × (get_user_stake_of_type (one_user.user_id 77) FundType.waiting s'
          + get_user_stake_of_type (one_user.user_id 77) FundType.active s'
          + 60
        ≡ get_user_stake_of_type (one_user.user_id 77) FundType.waiting two_funds
          + get_user_stake_of_type (one_user.user_id 77) FundType.active two_funds)
unstake_endpoint-from_waiting_example =
    unstake_endpoint-from_waiting 60 env contract two_funds-Repr user_free_ids refl refl known
      covered (inr (omega arith))

-- User 1 has 40 unstaked and user 2 has 30 waiting; the cap of 40 is filled.
abbrev mixed_funds : Funds
mixed_funds = increase_fund_balance 2 (FundDescription.waiting 8) 30 unstaked_funds

abbrev mixed_queues : Queues
mixed_queues = increase_queue 2 (FundDescription.waiting 8) 30 unstaked_funds unstaked_queues

unstaked-max_id : unstaked_funds.f_max_id ≡ 1
unfolding increase_fund_balance
unstaked-max_id = refl

mixed_funds-Repr : Repr mixed_funds mixed_queues
mixed_funds-Repr =
    increase_fund_balance-Repr 2 (FundDescription.waiting 8) 30 unstaked_funds unstaked_funds-Repr
      (omega (arith, unstaked-max_id))

abbrev filled : Contract
filled = record contract {
  settings = record contract.settings {
    total_delegation_cap = 40;
    bootstrap_mode = false;
    service_fee = 1000;
  };
  funds = mixed_funds;
}

mixed-HasRoom : HasRoom mixed_funds mixed_queues
unfolding increase_fund_balance increase_queue
mixed-HasRoom = record {
  free_ids = omega arith;
  few_unstaked = omega arith;
  few_waiting = omega arith;
}

filled-RewardsInOrder : RewardsInOrder env filled
filled-RewardsInOrder = record { fee = omega arith; cap = omega arith; seen = λ u. omega arith }

mixed-users : has 0 (users_of (mixed_queues FundType.waiting)) ≡ false
unfolding increase_fund_balance increase_queue
mixed-users = refl

use_waiting_to_replace_unstaked-Swapped_example :
    (c' : Contract) × (q' : Queues) × (use_waiting_to_replace_unstaked env filled ≡ ok c')
    × Repr c'.funds q'
    × RewardsInOrder env c'
    × Swapped
        (min (total_of FundType.waiting filled) (total_of FundType.un_staked filled))
        filled
        c'
    × (validate_delegation_cap_invariant c' ≡ validate_delegation_cap_invariant filled)
use_waiting_to_replace_unstaked-Swapped_example =
    use_waiting_to_replace_unstaked-Swapped env filled mixed_funds-Repr mixed-HasRoom
      filled-RewardsInOrder mixed-users refl

-- Here 30 move.
mixed_swappable : min (total_of FundType.waiting filled) (total_of FundType.un_staked filled) ≡ 30
unfolding increase_fund_balance get_user_stake_of_type
mixed_swappable = refl

mixed_ids :
    mixed_funds.f_max_id
      + length (ids (mixed_queues FundType.un_staked))
      + length (ids (mixed_queues FundType.waiting))
      + 2
    < 2 ^ 32
unfolding increase_fund_balance increase_queue
mixed_ids = omega arith

mixed_waiting : length (ids (mixed_queues FundType.waiting)) < max_affected_users
unfolding increase_fund_balance increase_queue
mixed_waiting = omega arith

caller_id : 0 < (get_or_create_user 77 one_user).0
unfolding get_or_create_user
caller_id = omega arith

filled-valid : validate_delegation_cap_invariant filled ≡ ok tt
unfolding validate_delegation_cap_invariant increase_fund_balance get_user_stake_of_type
filled-valid = refl

process_stake-regular_example :
    (c' : Contract) × (q' : Queues) × (process_stake 100 env filled ≡ ok c')
    × Repr c'.funds q'
    × RewardsInOrder env c'
    × (validate_delegation_cap_invariant c' ≡ ok tt)
    × ((v : ℕ)
        → get_user_total_stake v c'.funds
          ≡ get_user_total_stake v mixed_funds
            + (if v == 0 || v == (get_or_create_user 77 one_user).0 then 100 else 0))
process_stake-regular_example =
    process_stake-regular 100 env filled mixed_funds-Repr mixed_ids mixed-HasRoom.few_unstaked
      mixed_waiting filled-RewardsInOrder mixed-users caller_id refl filled-valid
